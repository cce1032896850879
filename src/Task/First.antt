-- ===== src/Task/First.antt =====
-- The first task after a start: the numbers and the pages that `creat_task` gives it.
use open_ferain_os.Base.{
  ℕ, some, ◌+◌, ◌-◌, ◌/◌, ◌%◌, ◌≤◌, ◌<◌, ◌≡◌, ◌⊎◌, ◌∙◌, refl, ap, inl, inr, arith, ◌==◌, ◌&&◌, leb,
  if◌then◌else◌,
}
use open_ferain_os.Memory.{Memory, load32, load32_agree, load32-store32, store32_outside}
use open_ferain_os.Paging.{pde_set, pte_set, page_entry, kernel_pt_phy_addr}
use open_ferain_os.Paging.Laws.{pde_set-IsBytes, page_entry_value}
use open_ferain_os.Paging.Walk.{translate, directory_index, table_index}
use open_ferain_os.Console.{System, IsConsole}
use open_ferain_os.Task.Map.{
  flag, map_size, mem_map_base, task_map_base, mem_map_write, task_num_write, get_available_page,
  get_available_task_num,
}
use open_ferain_os.Task.MapWrite.{map_write_flips}
use open_ferain_os.Task.Number.{new_task_has_no_descriptor}
use open_ferain_os.Task.Create.{
  creat_task, create_directory, create_code_table, create_code, with_mem, fill_task, temp_pt_base,
  task_ldt_base,
}
use open_ferain_os.Task.Stores.{
  pte_set_refused, fill_task_frame, map_scan_last, IsMapped, IsMapped-same, IsMapped-page,
  IsMapped-number,
}

-- The flags after the first three pages were taken.
abbrev pub taken : Memory → ℕ → ℕ
taken m k = if leb 1048573 k && leb k 1048575 then 1 else flag mem_map_base m k

abbrev pub numbered : Memory → ℕ → ℕ
numbered m k = if k == 1048575 then 1 else flag task_map_base m k

-- The three steps of `creat_task`, each with the page that it finds.
create_code_third :
    (priority : ℕ) (s : System)
    → get_available_page s.machine.mem ≡ 1048573
    → (create_code priority 1048575 0x7ffff8 0x7ffff0 s).machine.mem
      ≡ fill_task priority 1048575 0x7ffff8 0x7ffff0 0x7fffe8 (mem_map_write 1048573 s.machine.mem)
unfolding create_code with_mem
create_code_third priority s found = rw (found, create_code) (rw found refl)

create_code_table_second :
    (priority : ℕ) (s : System)
    → let m1 = s.machine.mem in
      let m2 = pde_set 0 kernel_pt_phy_addr 0x7ffff8 0 1 1 (mem_map_write 1048574 m1) in
      get_available_page m1 ≡ 1048574
      → get_available_page m2 ≡ 1048573
      → (create_code_table priority 1048575 0x7ffff8 s).machine.mem
        ≡ fill_task priority 1048575 0x7ffff8 0x7ffff0 0x7fffe8 (mem_map_write 1048573 m2)
unfolding create_code_table with_mem
create_code_table_second priority s second third =
    let linked : System =
      with_mem (λ m. pde_set 0 kernel_pt_phy_addr 0x7ffff8 0 1 1 (mem_map_write 1048574 m)) s in
    rw (second, create_code_table) (rw second (create_code_third priority linked third))

create_directory_first :
    (priority : ℕ) (s : System)
    → let m1 = mem_map_write 1048575 s.machine.mem in
      let m2 = pde_set 0 kernel_pt_phy_addr 0x7ffff8 0 1 1 (mem_map_write 1048574 m1) in
      get_available_page s.machine.mem ≡ 1048575
      → get_available_page m1 ≡ 1048574
      → get_available_page m2 ≡ 1048573
      → (create_directory priority 1048575 s).machine.mem
        ≡ fill_task priority 1048575 0x7ffff8 0x7ffff0 0x7fffe8 (mem_map_write 1048573 m2)
unfolding create_directory with_mem pte_set mem_map_write
create_directory_first priority s first second third =
    let m1 = mem_map_write 1048575 s.machine.mem in
    let linked : System =
      with_mem (λ m. pte_set 524287 temp_pt_base 0x7ffff8 0 1 1 (mem_map_write 1048575 m)) s in
    let same : linked.machine.mem ≡ m1 =
      pte_set_refused 524287 temp_pt_base 0x7ffff8 0 1 1 m1 (omega arith) in
    let rest = create_code_table_second priority linked (rw same second) (rw same third) in
    rw (first, create_directory) (rw first (rw same at rest))

module _ (priority : ℕ) (s : System) (c : IsConsole s)
    (number : flag task_map_base s.machine.mem 1048575 ≡ 0)
    (first : flag mem_map_base s.machine.mem 1048575 ≡ 0)
    (second : flag mem_map_base s.machine.mem 1048574 ≡ 0)
    (third : flag mem_map_base s.machine.mem 1048573 ≡ 0) where
  abbrev m : Memory
  m = s.machine.mem

  abbrev m0 : Memory
  m0 = task_num_write 1048575 m

  abbrev m1 : Memory
  m1 = mem_map_write 1048575 m0

  abbrev m2 : Memory
  m2 = pde_set 0 kernel_pt_phy_addr 0x7ffff8 0 1 1 (mem_map_write 1048574 m1)

  abbrev m3 : Memory
  m3 = fill_task priority 1048575 0x7ffff8 0x7ffff0 0x7fffe8 (mem_map_write 1048573 m2)

  number_found : get_available_task_num m ≡ 1048575
  number_found = (new_task_has_no_descriptor m c.bytes number).0

  start-IsMapped : IsMapped (flag mem_map_base m) (flag task_map_base m) m m
  start-IsMapped = record {
    bytes = c.bytes;
    page_flags = λ k l. refl;
    number_flags = λ k l. refl;
    unmapped = λ x p q. refl;
  }

  abbrev numbers : ℕ → ℕ
  numbers k = if k == 1048575 then 1 - flag task_map_base m k else flag task_map_base m k

  abbrev one_taken : ℕ → ℕ
  one_taken k = if k == 1048575 then 1 - flag mem_map_base m k else flag mem_map_base m k

  abbrev two_taken : ℕ → ℕ
  two_taken k = if k == 1048574 then 1 - one_taken k else one_taken k

  m0-IsMapped : IsMapped (flag mem_map_base m) numbers m m0
  m0-IsMapped =
      IsMapped-number 1048575 (flag mem_map_base m) (flag task_map_base m) m m start-IsMapped
        (omega arith)

  m1-IsMapped : IsMapped one_taken numbers m m1
  m1-IsMapped = IsMapped-page 1048575 (flag mem_map_base m) numbers m m0 m0-IsMapped (omega arith)

  m2-IsMapped : IsMapped two_taken numbers m m2
  unfolding pde_set
  m2-IsMapped =
      let t = mem_map_write 1048574 m1 in
      IsMapped-same two_taken numbers m t m2
        (IsMapped-page 1048574 one_taken numbers m m1 m1-IsMapped (omega arith))
        (pde_set-IsBytes 0 kernel_pt_phy_addr 0x7ffff8 0 1 1 t
          (IsMapped-page 1048574 one_taken numbers m m1 m1-IsMapped (omega arith)).bytes)
        (λ x p q. store32_outside t 0x1000 (page_entry 0x7ffff8 0 1 1) x (inr (omega arith)))

  page_found_first : get_available_page m0 ≡ 1048575
  unfolding get_available_page
  page_found_first =
      map_scan_last mem_map_base 1048575 m0 m0-IsMapped.bytes (omega arith)
        (m0-IsMapped.page_flags 1048575 (omega arith) ∙ first) (λ k p l. absurd (omega arith))

  page_found_second : get_available_page m1 ≡ 1048574
  unfolding get_available_page
  page_found_second =
      map_scan_last mem_map_base 1048574 m1 m1-IsMapped.bytes (omega arith)
        (ground (arith, m1-IsMapped.page_flags 1048574, second))
        (λ k p l.
          let e : k ≡ 1048575 = omega arith in
          rw e (ground (arith, m1-IsMapped.page_flags 1048575, first)))

  page_found_third : get_available_page m2 ≡ 1048573
  unfolding get_available_page
  page_found_third =
      map_scan_last mem_map_base 1048573 m2 m2-IsMapped.bytes (omega arith)
        (ground (arith, m2-IsMapped.page_flags 1048573, third))
        (λ k p l. ground (
          arith,
          m2-IsMapped.page_flags k,
          ap (flag mem_map_base m) {x = k} {y = 1048575},
          ap (flag mem_map_base m) {x = k} {y = 1048574},
          first,
          second,
        ))

  creat_task-m3 : (creat_task priority s).machine.mem ≡ m3
  unfolding creat_task with_mem
  creat_task-m3 =
      rw (number_found, creat_task)
        (rw number_found (
          create_directory_first priority (with_mem (task_num_write 1048575) s) page_found_first
            page_found_second page_found_third))

  low_store :
      (x : ℕ)
      → x < 0x7ffff0
      → (x < task_ldt_base + 8) ⊎ (task_ldt_base + 24 ≤ x)
      → m3 x ≡ mem_map_write 1048573 m2 x
  low_store x l o = fill_task_frame priority x (mem_map_write 1048573 m2) l o

  -- Up to the filling of the structures.
  filled-IsMapped :
      IsMapped
        (λ k. if k == 1048573 then 1 - two_taken k else two_taken k)
        numbers
        m
        (mem_map_write 1048573 m2)
  filled-IsMapped = IsMapped-page 1048573 two_taken numbers m m2 m2-IsMapped (omega arith)

  page_flags_after : (k : ℕ) → k < map_size → flag mem_map_base m3 k ≡ taken m k
  page_flags_after k l =
      let at = λ (n : ℕ). ap (flag mem_map_base m) {x = k} {y = n} in
      ground (
        arith,
        low_store (mem_map_base + k / 8),
        filled-IsMapped.page_flags k l,
        at 1048575,
        at 1048574,
        at 1048573,
        first,
        second,
        third,
      )

  number_flags_after : (k : ℕ) → k < map_size → flag task_map_base m3 k ≡ numbered m k
  number_flags_after k l = ground (
    arith,
    low_store (task_map_base + k / 8),
    filled-IsMapped.number_flags k l,
    ap (flag task_map_base m) {x = k} {y = 1048575},
    number,
  )

  entry_after : load32 m3 0x1000 ≡ 0x7ff003
  unfolding pde_set mem_map_write
  entry_after =
      let e = page_entry 0x7ffff8 0 1 1 in
      let value = page_entry_value 0x7ffff8 0 1 1 in
      let marked = map_write_flips mem_map_base 1048573 m2 m2-IsMapped.bytes in
      load32_agree m2 m3 0x1000
        (λ x p q. low_store x (omega arith) (inl (omega arith)) ∙ marked.1 x (λ w. omega arith))
      ∙ load32-store32 (mem_map_write 1048574 m1) 0x1000 e (omega (arith, value))
      ∙ value

  first_word : (x : ℕ) → x < 4 → mem_map_write 1048573 m2 x ≡ m x
  unfolding mem_map_write pde_set task_num_write
  first_word x l =
      (map_write_flips mem_map_base 1048573 m2 m2-IsMapped.bytes).1 x (λ e. omega arith)
      ∙ store32_outside (mem_map_write 1048574 m1) 0x1000 (page_entry 0x7ffff8 0 1 1) x
          (inl (omega arith))
      ∙ (map_write_flips mem_map_base 1048574 m1 m1-IsMapped.bytes).1 x (λ e. omega arith)
      ∙ (map_write_flips mem_map_base 1048575 m0 m0-IsMapped.bytes).1 x (λ e. omega arith)
      ∙ (map_write_flips task_map_base 1048575 m c.bytes).1 x (λ e. omega arith)

  -- On a well-formed console in front of a kernel whose directory links its own page table, with the
  -- highest task number and the three highest pages free: `creat_task` marks that number and these pages
  -- and no other, enters none of the three pages in the temporary page table, but overwrites the first
  -- entry of the kernel's own table, so that the processor's walk takes the first 4 KB, where the
  -- directory lies, to 0x7ff000.
  pub creat_task_moves_first_page :
      (linked : load32 m 0 ≡ 0x1003)
      → let t = (creat_task priority s).machine.mem in
        ((k : ℕ) → k < map_size → flag mem_map_base t k ≡ taken m k)
        × ((k : ℕ) → k < map_size → flag task_map_base t k ≡ numbered m k)
        × ((x : ℕ) → temp_pt_base ≤ x → x < temp_pt_base + 4096 → t x ≡ m x)
        × ((v : ℕ) → v < 4096 → translate t 0 v ≡ some (0x7ff000 + v))
  unfolding translate
  creat_task_moves_first_page linked =
      let directory : load32 m3 0 ≡ 0x1003 =
        load32_agree m m3 0
          (λ x p q. low_store x (omega arith) (inl (omega arith)) ∙ first_word x (omega arith))
        ∙ linked in
      rw creat_task-m3 (
        page_flags_after,
        number_flags_after,
        λ x p q. low_store x (omega arith) (omega arith) ∙ filled-IsMapped.unmapped x p q,
        λ v l.
            let d : directory_index v ≡ 0 = omega arith in
            let e : table_index v ≡ 0 = omega arith in
            let f : v % 4096 ≡ v = omega arith in rw (d, e, directory, entry_after, f) refl,
      )
