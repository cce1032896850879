-- ===== src/Task/Leak.antt =====
-- What is left behind when `creat_task` fails for want of its second page.
use open_ferain_os.Base.{
  ℕ, ◌+◌, ◌*◌, ◌/◌, ◌%◌, ◌≤◌, ◌<◌, ◌≡◌, ◌≢◌, ◌⊎◌, inl, inr, arith, u32, ◌<<<◌, ◌>>>◌,
}
use open_ferain_os.Memory.{Memory, IsBytes, store32_outside}
use open_ferain_os.Paging.{pte_set, page_entry}
use open_ferain_os.Paging.Laws.{pte_set-IsBytes}
use open_ferain_os.Console.{System, IsConsole}
use open_ferain_os.Task.Map.{
  map_write, map_scan, flag, map_size, not_available, mem_map_base, task_map_base, mem_map_write,
  get_available_page, get_available_task_num,
}
use open_ferain_os.Task.MapWrite.{map_write_flips, map_write-IsBytes}
use open_ferain_os.Task.MapScan.{IsLastFree, map_scan-IsLastFree}
use open_ferain_os.Task.Failure.{
  give_up-page_flags, give_up-task_flags, in_map, with_mem-IsConsole, numbered_system, chosen-lt,
  numbered-IsConsole, numbered-flags, same_page,
}
use open_ferain_os.Task.Alloc.{SameFlags, mem_map_write-get_available_page}
use open_ferain_os.Task.Create.{
  creat_task, create_directory, create_code_table, with_mem, give_up, temp_pt_base,
}

-- The temporary page table lies apart from both maps.
pte_set_frame :
    (i a us w p x : ℕ) (m : Memory)
    → (x < temp_pt_base) ⊎ (temp_pt_base + 4096 ≤ x)
    → pte_set i temp_pt_base a us w p m x ≡ m x
unfolding pte_set
pte_set_frame i a us w p x m o =
    ground (arith, store32_outside m (u32 (temp_pt_base + i * 4)) (page_entry a us w p) x)

module _ (priority : ℕ) (s : System) (c : IsConsole s)
    (numbered : get_available_task_num s.machine.mem ≢ not_available)
    (paged : get_available_page s.machine.mem ≢ not_available)
    (last : (k : ℕ)
      → k < map_size
      → k ≢ get_available_page s.machine.mem
      → flag mem_map_base s.machine.mem k ≡ 1) where
  abbrev page : ℕ
  page = get_available_page s.machine.mem

  abbrev pd_base : ℕ
  pd_base = u32 (page <<< 3)

  abbrev link_directory : Memory → Memory
  link_directory m =
      pte_set ((pd_base % 0x400000) >>> 3) temp_pt_base pd_base 0 1 1 (mem_map_write page m)

  abbrev before : System
  before = numbered_system priority s c numbered

  abbrev paged_system : System
  paged_system = with_mem link_directory before

  page-lt : page < map_size
  unfolding get_available_page
  page-lt = in_map mem_map_base s.machine.mem c.bytes paged

  before-IsBytes : IsBytes before.machine.mem
  before-IsBytes = (numbered-IsConsole priority s c numbered).bytes

  paged-IsConsole : IsConsole paged_system
  unfolding mem_map_write
  paged-IsConsole =
      with_mem-IsConsole link_directory before (numbered-IsConsole priority s c numbered) (
        pte_set-IsBytes _ _ _ _ _ _ _
          (map_write-IsBytes mem_map_base page before.machine.mem before-IsBytes))

  -- The page is marked, which leaves none.
  paged_flags :
      ((k : ℕ) → k < map_size → flag mem_map_base paged_system.machine.mem k ≡ 1)
      × SameFlags task_map_base before.machine.mem paged_system.machine.mem
  unfolding with_mem mem_map_write
  paged_flags =
      let m = before.machine.mem in
      let flips = map_write_flips mem_map_base page m before-IsBytes in
      let i = (pd_base % 0x400000) >>> 3 in
      let t = map_write mem_map_base page m in
      let free = (mem_map_write-get_available_page s.machine.mem c.bytes paged).0 in
      (
        λ k l. ground (
          arith,
          pte_set_frame i pd_base 0 1 1 (mem_map_base + k / 8) t (omega arith),
          flips.0 k,
          (numbered-flags priority s c numbered).0 k l,
          last k l,
          free,
        ),
        λ k l. ground (
          arith,
          pte_set_frame i pd_base 0 1 1 (task_map_base + k / 8) t (omega arith),
          flips.1 (task_map_base + k / 8),
          page-lt,
        ),
      )

  no_page_left : get_available_page paged_system.machine.mem ≡ not_available
  unfolding get_available_page
  no_page_left =
      none_left (map_scan mem_map_base paged_system.machine.mem)
        (map_scan-IsLastFree mem_map_base paged_system.machine.mem paged-IsConsole.bytes)
    where
      none_left :
          (r : ℕ) → IsLastFree mem_map_base paged_system.machine.mem map_size r → r ≡ not_available
      none_left r (inl (e, _)) = e
      none_left r (inr (l, z, _)) = absurd (omega (arith, paged_flags.0 r l))

  gives_up_late :
      creat_task priority s ≡ give_up (get_available_task_num s.machine.mem) paged_system
  unfolding creat_task create_directory create_code_table
  gives_up_late = ground (arith, same_page priority s c numbered, no_page_left)

  -- If a task number is free and exactly one page is, `creat_task` fails and gives the number back,
  -- but the page stays marked although no task has it.
  pub creat_task_leaks_page :
      SameFlags task_map_base s.machine.mem (creat_task priority s).machine.mem
      × (flag mem_map_base s.machine.mem page ≡ 0)
      × (flag mem_map_base (creat_task priority s).machine.mem page ≡ 1)
  creat_task_leaks_page =
      let n = get_available_task_num s.machine.mem in
      let small = chosen-lt priority s c numbered in
      rw gives_up_late (
        λ k l. ground (
          arith,
          give_up-task_flags n paged_system paged-IsConsole small k l,
          paged_flags.1 k l,
          (numbered-flags priority s c numbered).1 k,
        ),
        (mem_map_write-get_available_page s.machine.mem c.bytes paged).0,
        ground (
          arith,
          give_up-page_flags n paged_system paged-IsConsole small page page-lt,
          paged_flags.0 page page-lt,
        ),
      )
