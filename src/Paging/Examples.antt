-- ===== src/Paging/Examples.antt =====
-- The paging code on concrete entries.
use open_ferain_os.Base.{◌+◌, ◌%◌, ◌<◌, ◌^◌, ◌≡◌, refl, some, none, inl, arith}
use open_ferain_os.Memory.{load32}
use open_ferain_os.Samples.{zeros}
use open_ferain_os.Paging.{page_entry, pde_set, pte_set}
use open_ferain_os.Paging.Walk.{
  frame_of, user_bit, write_bit, present_bit, table_index, directory_index, translate,
}
use open_ferain_os.Paging.Laws.{page_entry_fields, translate-pte_set-pde_set}

entry_runs : page_entry 0x12345678 1 0 1 ≡ 0x12345005
unfolding page_entry
entry_runs = refl

not_mapped : translate zeros 0 0x1234 ≡ none
unfolding translate load32
not_mapped = refl

page_entry_fields_example :
    (frame_of (page_entry 0x12345678 3 0 1) ≡ frame_of 0x12345678)
    × (user_bit (page_entry 0x12345678 3 0 1) ≡ 3 % 2)
    × (write_bit (page_entry 0x12345678 3 0 1) ≡ 0 % 2)
    × (present_bit (page_entry 0x12345678 3 0 1) ≡ 1 % 2)
    × (page_entry 0x12345678 3 0 1 < 2 ^ 32)
page_entry_fields_example = page_entry_fields 0x12345678 3 0 1 (omega arith)

translate-pte_set-pde_set_example :
    translate
      (pte_set
        (table_index 0xc0401abc)
        0x7000
        0x9000
        0
        1
        1
        (pde_set (directory_index 0xc0401abc) 0x3000 0x7000 0 1 1 zeros))
      0x3000
      0xc0401abc
    ≡ some (frame_of 0x9000 + 0xc0401abc % 4096)
translate-pte_set-pde_set_example =
    translate-pte_set-pde_set 0xc0401abc 0x3000 0x7000 0x9000 0 1 zeros (omega arith) (omega arith)
      (omega arith) (omega arith) (inl (omega arith))
