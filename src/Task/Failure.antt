-- ===== src/Task/Failure.antt =====
-- The error paths of `creat_task`, and the number that it picks.
use open_ferain_os.Base.{ℕ, ◌+◌, ◌-◌, ◌/◌, ◌<◌, ◌≡◌, ◌≢◌, inl, inr, arith, ◌==◌, if◌then◌else◌}
use open_ferain_os.Memory.{Memory, IsBytes}
use open_ferain_os.Console.{System, println, IsConsole}
use open_ferain_os.Console.Output.{println_outside, println-IsWritten}
use open_ferain_os.Task.Map.{
  map_scan, flag, map_size, not_available, mem_map_base, task_map_base, task_num_write,
  get_available_page, get_available_task_num,
}
use open_ferain_os.Task.MapWrite.{map_write_flips, map_write-IsBytes}
use open_ferain_os.Task.MapScan.{IsLastFree, map_scan-IsLastFree}
use open_ferain_os.Task.Alloc.{SameFlags, map_scan_same}
use open_ferain_os.Task.Create.{creat_task, create_directory, with_mem, give_up, no_page}

-- Giving up prints outside the maps and flips the flag of the number, and nothing else in them.
module _ (n : ℕ) (s : System) (c : IsConsole s) (small : n < map_size) where
  pub give_up-page_flags : SameFlags mem_map_base s.machine.mem (give_up n s).machine.mem
  unfolding give_up task_num_write
  give_up-page_flags k l =
      let t = (println no_page s).machine.mem in
      let b = (println-IsWritten no_page s c (omega arith) (omega (arith, c.column))).1.bytes in
      ground (
        arith,
        (map_write_flips task_map_base n t b).1 (mem_map_base + k / 8),
        println_outside no_page s (mem_map_base + k / 8) c (omega arith) (omega (arith, c.column))
            (omega arith),
      )

  pub give_up-task_flags :
      (k : ℕ)
      → k < map_size
      → flag task_map_base (give_up n s).machine.mem k ≡ (
          if k == n
          then 1 - flag task_map_base s.machine.mem k
          else flag task_map_base s.machine.mem k)
  unfolding give_up task_num_write
  give_up-task_flags k l =
      let t = (println no_page s).machine.mem in
      let b = (println-IsWritten no_page s c (omega arith) (omega (arith, c.column))).1.bytes in
      ground (
        arith,
        (map_write_flips task_map_base n t b).0 k,
        println_outside no_page s (task_map_base + k / 8) c (omega arith) (omega (arith, c.column))
            (omega arith),
      )

pub in_map :
    (base : ℕ) (m : Memory)
    → IsBytes m
    → map_scan base m ≢ not_available
    → map_scan base m < map_size
in_map base m h found = bounded (map_scan base m) found (map_scan-IsLastFree base m h)
  where
    bounded : (r : ℕ) → r ≢ not_available → IsLastFree base m map_size r → r < map_size
    bounded r f (inl (e, _)) = absurd (f e)
    bounded r f (inr (l, _, _)) = l

pub with_mem-IsConsole :
    (f : Memory → Memory) (s : System)
    → IsConsole s
    → IsBytes (f s.machine.mem)
    → IsConsole (with_mem f s)
unfolding with_mem
with_mem-IsConsole f s c h = record { column = c.column; row = c.row; bytes = h }

module _ (priority : ℕ) (s : System) (c : IsConsole s)
    (numbered : get_available_task_num s.machine.mem ≢ not_available) where
  abbrev pub chosen : ℕ
  chosen = get_available_task_num s.machine.mem

  abbrev pub numbered_system : System
  numbered_system = with_mem (task_num_write chosen) s

  pub chosen-lt : chosen < map_size
  unfolding get_available_task_num
  chosen-lt = in_map task_map_base s.machine.mem c.bytes numbered

  pub numbered-IsConsole : IsConsole numbered_system
  unfolding task_num_write
  numbered-IsConsole =
      with_mem-IsConsole (task_num_write chosen) s c
        (map_write-IsBytes task_map_base chosen s.machine.mem c.bytes)

  pub numbered-flags :
      SameFlags mem_map_base s.machine.mem numbered_system.machine.mem
      × ((k : ℕ)
          → flag task_map_base numbered_system.machine.mem k ≡ (
              if k == chosen
              then 1 - flag task_map_base s.machine.mem k
              else flag task_map_base s.machine.mem k))
  unfolding task_num_write with_mem
  numbered-flags = (
    λ k l. ground (
      arith,
      (map_write_flips task_map_base chosen s.machine.mem c.bytes).1 (mem_map_base + k / 8),
    ),
    (map_write_flips task_map_base chosen s.machine.mem c.bytes).0,
  )

  pub same_page : get_available_page numbered_system.machine.mem ≡ get_available_page s.machine.mem
  unfolding get_available_page
  same_page =
      map_scan_same mem_map_base s.machine.mem numbered_system.machine.mem c.bytes
        numbered-IsConsole.bytes numbered-flags.0

  gives_up :
      get_available_page s.machine.mem ≡ not_available
      → creat_task priority s ≡ give_up chosen numbered_system
  unfolding creat_task create_directory
  gives_up none = ground (arith, same_page)

  -- If a task number is free and no page is, `creat_task` takes the number and gives it back: in
  -- both maps every flag is as before.
  pub creat_task_without_page :
      get_available_page s.machine.mem ≡ not_available
      → SameFlags task_map_base s.machine.mem (creat_task priority s).machine.mem
        × SameFlags mem_map_base s.machine.mem (creat_task priority s).machine.mem
  creat_task_without_page none = rw (gives_up none) (
    λ k l. ground (
      arith,
      give_up-task_flags chosen numbered_system numbered-IsConsole chosen-lt k l,
      numbered-flags.1 k,
    ),
    λ k l. ground (
      arith,
      give_up-page_flags chosen numbered_system numbered-IsConsole chosen-lt k l,
      numbered-flags.0 k l,
    ),
  )
