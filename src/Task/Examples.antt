-- ===== src/Task/Examples.antt =====
-- The allocators and `creat_task` on concrete maps.
use open_ferain_os.Base.{
  ℕ, zero, suc, ◌+◌, ◌-◌, ◌*◌, ◌/◌, ◌%◌, ◌<◌, ◌≡◌, ◌≢◌, ◌⊎◌, inl, inr, refl, arith, ◌==◌, ◌&&◌, leb,
  ltb, if◌then◌else◌, ◌≤◌, some,
}
use open_ferain_os.Bits.{bit}
use open_ferain_os.Memory.{Memory, IsBytes}
use open_ferain_os.Descriptor.{set_gd}
use open_ferain_os.Console.{System, IsConsole}
use open_ferain_os.Samples.{zeros, zeros-IsBytes, machine, system}
use open_ferain_os.Task.Map.{
  map_scan, map_write, flag, map_size, not_available, mem_map_base, task_map_base, mem_map_write,
  get_available_page, get_available_task_num,
}
use open_ferain_os.Task.MapWrite.{map_write_flips}
use open_ferain_os.Task.MapScan.{IsLastFree, map_scan-IsLastFree}
use open_ferain_os.Task.Alloc.{SameFlags, mem_map_write-get_available_page}
use open_ferain_os.Task.Create.{creat_task}
use open_ferain_os.Task.Failure.{creat_task_without_page}
use open_ferain_os.Task.Leak.{creat_task_leaks_page}
use open_ferain_os.Memory.{load32}
use open_ferain_os.Paging.Walk.{translate}
use open_ferain_os.Task.Create.{temp_pt_base}
use open_ferain_os.Task.First.{taken, numbered, creat_task_moves_first_page}
use open_ferain_os.Task.Number.{new_task_has_no_descriptor}

-- A page map that is full but for the byte of the pages 1024 to 1031; the task map is empty.
abbrev map_with : ℕ → Memory
map_with b x = if leb 0x20000 x && ltb x 0x40000 then (if x == 0x20080 then b else 0xff) else 0

map_with-IsBytes : (b : ℕ) → b < 256 → IsBytes (map_with b)
map_with-IsBytes b h x = ground arith

bit-ff : (n : ℕ) → n < 8 → bit n 0xff ≡ 1
bit-ff zero h = refl
bit-ff (suc zero) h = refl
bit-ff (suc (suc zero)) h = refl
bit-ff (suc (suc (suc zero))) h = refl
bit-ff (suc (suc (suc (suc zero)))) h = refl
bit-ff (suc (suc (suc (suc (suc zero))))) h = refl
bit-ff (suc (suc (suc (suc (suc (suc zero)))))) h = refl
bit-ff (suc (suc (suc (suc (suc (suc (suc zero))))))) h = refl
bit-ff (suc (suc (suc (suc (suc (suc (suc (suc n)))))))) h = absurd (omega arith)

bit-fe : (n : ℕ) → 0 < n → n < 8 → bit n 0xfe ≡ 1
bit-fe zero p h = absurd (omega arith)
bit-fe (suc zero) p h = refl
bit-fe (suc (suc zero)) p h = refl
bit-fe (suc (suc (suc zero))) p h = refl
bit-fe (suc (suc (suc (suc zero)))) p h = refl
bit-fe (suc (suc (suc (suc (suc zero))))) p h = refl
bit-fe (suc (suc (suc (suc (suc (suc zero)))))) p h = refl
bit-fe (suc (suc (suc (suc (suc (suc (suc zero))))))) p h = refl
bit-fe (suc (suc (suc (suc (suc (suc (suc (suc n)))))))) p h = absurd (omega arith)

full : (k : ℕ) → k < map_size → flag mem_map_base (map_with 0xff) k ≡ 1
full k l = ground (arith, bit-ff (k % 8))

full_but_one : (k : ℕ) → k < map_size → k ≢ 1024 → flag mem_map_base (map_with 0xfe) k ≡ 1
full_but_one k l ne = ground (arith, bit-ff (k % 8), bit-fe (k % 8))

no_page_found : get_available_page (map_with 0xff) ≡ not_available
unfolding get_available_page
no_page_found =
    none_found (map_scan mem_map_base (map_with 0xff))
      (map_scan-IsLastFree mem_map_base (map_with 0xff) (map_with-IsBytes 0xff (omega arith)))
  where
    none_found : (r : ℕ) → IsLastFree mem_map_base (map_with 0xff) map_size r → r ≡ not_available
    none_found r (inl (e, _)) = e
    none_found r (inr (l, z, _)) = absurd (omega (arith, full r l))

page_found : get_available_page (map_with 0xfe) ≡ 1024
unfolding get_available_page
page_found =
    one_found (map_scan mem_map_base (map_with 0xfe))
      (map_scan-IsLastFree mem_map_base (map_with 0xfe) (map_with-IsBytes 0xfe (omega arith)))
  where
    one_found : (r : ℕ) → IsLastFree mem_map_base (map_with 0xfe) map_size r → r ≡ 1024
    one_found r (inl (e, all)) = absurd (omega (arith, all 1024 (omega arith)))
    one_found r (inr (l, z, _)) = ground (arith, full_but_one r l)

number_found : (b : ℕ) → b < 256 → get_available_task_num (map_with b) ≢ not_available
unfolding get_available_task_num
number_found b h e =
    some_found (map_scan task_map_base (map_with b)) e
      (map_scan-IsLastFree task_map_base (map_with b) (map_with-IsBytes b h))
  where
    some_found : (r : ℕ) → r ≡ not_available → IsLastFree task_map_base (map_with b) map_size r → ⊥
    some_found r n (inl (_, all)) = omega (arith, all 0 (omega arith))
    some_found r n (inr (l, _, _)) = omega arith

abbrev crowded : ℕ → System
crowded b = record system { machine = record machine { mem = map_with b } }

crowded-IsConsole : (b : ℕ) → b < 256 → IsConsole (crowded b)
crowded-IsConsole b h = record {
  column = omega arith;
  row = omega arith;
  bytes = map_with-IsBytes b h;
}

map_write_flips_example :
    ((k : ℕ)
      → flag mem_map_base (map_write mem_map_base 1024 zeros) k
        ≡ (if k == 1024 then 1 - flag mem_map_base zeros k else flag mem_map_base zeros k))
    × ((x : ℕ) → x ≢ mem_map_base + 1024 / 8 → map_write mem_map_base 1024 zeros x ≡ zeros x)
map_write_flips_example = map_write_flips mem_map_base 1024 zeros zeros-IsBytes

map_scan-IsLastFree_example :
    IsLastFree mem_map_base (map_with 0xfe) map_size (map_scan mem_map_base (map_with 0xfe))
map_scan-IsLastFree_example =
    map_scan-IsLastFree mem_map_base (map_with 0xfe) (map_with-IsBytes 0xfe (omega arith))

mem_map_write-get_available_page_example :
    let m = map_with 0xfe in
    let p = get_available_page m in
    let s = mem_map_write p m in
    (flag mem_map_base m p ≡ 0)
    × (flag mem_map_base s p ≡ 1)
    × ((k : ℕ) → k ≢ p → flag mem_map_base s k ≡ flag mem_map_base m k)
    × ((get_available_page s ≡ not_available) ⊎ (get_available_page s < p))
mem_map_write-get_available_page_example =
    mem_map_write-get_available_page (map_with 0xfe) (map_with-IsBytes 0xfe (omega arith))
      (λ e. omega (arith, page_found))

creat_task_without_page_example :
    SameFlags task_map_base (map_with 0xff) (creat_task 5 (crowded 0xff)).machine.mem
    × SameFlags mem_map_base (map_with 0xff) (creat_task 5 (crowded 0xff)).machine.mem
creat_task_without_page_example =
    creat_task_without_page 5 (crowded 0xff) (crowded-IsConsole 0xff (omega arith))
      (number_found 0xff (omega arith)) no_page_found

creat_task_leaks_page_example :
    SameFlags task_map_base (map_with 0xfe) (creat_task 5 (crowded 0xfe)).machine.mem
    × (flag mem_map_base (map_with 0xfe) (get_available_page (map_with 0xfe)) ≡ 0)
    × (flag mem_map_base
          (creat_task 5 (crowded 0xfe)).machine.mem
          (get_available_page (map_with 0xfe))
        ≡ 1)
creat_task_leaks_page_example =
    creat_task_leaks_page 5 (crowded 0xfe) (crowded-IsConsole 0xfe (omega arith))
      (number_found 0xfe (omega arith)) (λ e. omega (arith, page_found))
      (λ k l ne. full_but_one k l (λ e. ne (omega (arith, page_found))))

new_task_has_no_descriptor_example :
    let n = get_available_task_num zeros in
    (n ≡ map_size - 1)
    × ((b l g st t d : ℕ) (s : Memory)
        → (set_gd (4 + n * 2) b l g st t d s ≡ s) × (set_gd (5 + n * 2) b l g st t d s ≡ s))
new_task_has_no_descriptor_example = new_task_has_no_descriptor zeros zeros-IsBytes (omega arith)

-- A memory whose directory links the kernel's page table, and both maps clear.
abbrev linked : Memory
linked x = if x == 0 then 0x03 else if x == 1 then 0x10 else 0

abbrev started : System
started = record system { machine = record machine { mem = linked } }

started-IsConsole : IsConsole started
started-IsConsole = record { column = omega arith; row = omega arith; bytes = λ x. ground arith }

linked_directory : load32 linked 0 ≡ 0x1003
unfolding load32
linked_directory = refl

creat_task_moves_first_page_example :
    let t = (creat_task 5 started).machine.mem in
    ((k : ℕ) → k < map_size → flag mem_map_base t k ≡ taken linked k)
    × ((k : ℕ) → k < map_size → flag task_map_base t k ≡ numbered linked k)
    × ((x : ℕ) → temp_pt_base ≤ x → x < temp_pt_base + 4096 → t x ≡ linked x)
    × ((v : ℕ) → v < 4096 → translate t 0 v ≡ some (0x7ff000 + v))
creat_task_moves_first_page_example =
    creat_task_moves_first_page 5 started started-IsConsole refl refl refl refl linked_directory
