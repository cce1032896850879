-- ===== src/Paging/Walk.antt =====
-- The processor's side of paging: the 32-bit two-level walk with 4 KB pages, written from the
-- layout of a page table entry and not from the kernel's code.
use open_ferain_os.Base.{ℕ, ◌+◌, ◌*◌, ◌/◌, ◌%◌, ◌^◌, Option, none, some, ◌==◌, if◌then◌else◌}
use open_ferain_os.Memory.{Memory, load32}

abbrev pub frame_of : ℕ → ℕ
frame_of entry = entry / 4096 * 4096

abbrev pub present_bit : ℕ → ℕ
present_bit entry = entry % 2

abbrev pub write_bit : ℕ → ℕ
write_bit entry = entry / 2 % 2

abbrev pub user_bit : ℕ → ℕ
user_bit entry = entry / 4 % 2

abbrev pub directory_index : ℕ → ℕ
directory_index v = v / 2 ^ 22

abbrev pub table_index : ℕ → ℕ
table_index v = v / 2 ^ 12 % 1024

-- The physical address of a linear one; `none` is a page fault.
unfoldable pub translate : Memory → ℕ → ℕ → Option ℕ
translate m cr3 v =
    let pde = load32 m (frame_of cr3 + directory_index v * 4) in
    let pte = load32 m (frame_of pde + table_index v * 4) in
    if present_bit pde == 0
    then none
    else if present_bit pte == 0
    then none
    else some (frame_of pte + v % 4096)
