-- ===== src/Task/Create.antt =====
-- `creat_task` of Include/asm/task.h, with the packed structures it fills. A task number is below
-- 1048576, so the addresses computed from it do not wrap.
use open_ferain_os.Base.{
  ℕ, ◌+◌, ◌*◌, ◌/◌, ◌%◌, true, false, List, [], ◌∷◌, bit_and, bit_or, ◌==◌, codes, u32, ◌<<<◌,
  ◌>>>◌,
}
use open_ferain_os.Memory.{Memory, store8, store16, store32}
use open_ferain_os.Machine.{on_mem}
use open_ferain_os.Paging.{
  pde_set, pte_set, kernel_pt_phy_addr, p_user, p_system, p_read_write, p_only_read, p_present,
}
use open_ferain_os.Descriptor.{set_gd, gd_g_byte, gd_system, gd_type_ldt, gd_type_atss, pl_kernel}
use open_ferain_os.Console.{System, println}
use open_ferain_os.Task.Map.{
  not_available, get_available_task_num, get_available_page, task_num_write, mem_map_write,
}

abbrev pub task_data_base : ℕ
task_data_base = 0x00005000

abbrev pub task_ldt_base : ℕ
task_ldt_base = 0x00015000

abbrev pub temp_pt_base : ℕ
temp_pt_base = 0x00048000

abbrev pub task_running : ℕ
task_running = 0

-- An assignment to a field of a packed structure: its offset and the value.
pub data Assignment : Type 0 where
  byte half word : ℕ → ℕ → Assignment

unfoldable pub assign : ℕ → Assignment → Memory → Memory
assign base (byte offset v) m = store8 m (base + offset) v
assign base (half offset v) m = store16 m (base + offset) v
assign base (word offset v) m = store32 m (base + offset) v

unfoldable pub assign_all : ℕ → List Assignment → Memory → Memory
unfolding assign
assign_all base [] m = m
assign_all base (a ∷ as_left) m = assign_all base as_left (assign base a m)

-- `struct task_data_structure` up to its task state segment, at offset 7.
abbrev pub task_data_fields : ℕ → ℕ → List Assignment
task_data_fields priority task_code_base =
    byte 0 task_running ∷ byte 2 priority ∷ byte 1 priority ∷ word 3 task_code_base ∷ []

abbrev pub tss_offset : ℕ
tss_offset = 7

-- `struct task_state_segment`: the offsets are those of the packed structure.
abbrev pub tss_fields : ℕ → ℕ → List Assignment
tss_fields pd_base task_num =
    half 0 0
    ∷ word 4 0x3ffff0
    ∷ half 8 0x10
    ∷ word 12 0
    ∷ half 16 0
    ∷ word 20 0
    ∷ half 24 0
    ∷ word 28 pd_base
    ∷ word 32 0
    ∷ word 36 0x00000202
    ∷ word 40 0
    ∷ word 44 0
    ∷ word 48 0
    ∷ word 52 0
    ∷ word 56 0xfffffff0
    ∷ word 60 0
    ∷ word 64 0
    ∷ word 68 0
    ∷ half 72 0x17
    ∷ half 76 0x0f
    ∷ half 80 0x17
    ∷ half 84 0x17
    ∷ half 88 0
    ∷ half 92 0
    ∷ half 96 ((4 + task_num * 2) <<< 3)
    ∷ half 102 0x68
    ∷ []

-- The code and data descriptors of the local table.
unfoldable pub write_ldt : ℕ → Memory → Memory
write_ldt task_code_base m =
    let m =
      store32 m (task_ldt_base + 8) (bit_or (bit_and task_code_base 0xffff <<< 16) 0x0000ffff) in
    let m = store32 m (task_ldt_base + 12) (
      bit_or (bit_or (bit_and task_code_base 0xff000000) 0x00cffa00)
        (bit_and task_code_base 0x00ff0000 >>> 16)) in
    let m = store32 m (task_ldt_base + 16) 0x0000ffff in store32 m (task_ldt_base + 20) 0x00cff200

-- All that follows once the number and the three pages are there.
unfoldable pub fill_task : ℕ → ℕ → ℕ → ℕ → ℕ → Memory → Memory
unfolding assign_all write_ldt
fill_task priority task_num pd_base code_pt_base task_code_base m =
    let m =
      pde_set (task_code_base / 0x400000) code_pt_base pd_base p_user p_only_read p_present m in
    let m =
      pte_set ((code_pt_base % 0x400000) >>> 3) temp_pt_base code_pt_base p_system p_read_write
        p_present m in
    let m =
      pte_set ((task_code_base % 0x400000) >>> 3) code_pt_base task_code_base p_user p_only_read
        p_present m in
    let m =
      pte_set ((task_code_base % 0x400000) >>> 3) temp_pt_base task_code_base p_system p_read_write
        p_present m in
    let task_data = task_data_base + task_num * 128 in
    let m = assign_all task_data (task_data_fields priority task_code_base) m in
    let m =
      set_gd (4 + task_num * 2) (task_ldt_base + task_num * 32) 0x1f gd_g_byte gd_system gd_type_ldt
        pl_kernel m in
    let m =
      set_gd (5 + task_num * 2) (task_data + tss_offset) 0x67 gd_g_byte gd_system gd_type_atss
        pl_kernel m in
    let m = write_ldt task_code_base m in
    assign_all (task_data + tss_offset) (tss_fields pd_base task_num) m

abbrev pub no_number : List ℕ
no_number = codes "No available task number for task creation."

abbrev pub no_page : List ℕ
no_page = codes "No available page for task creation."

-- The way out when a page is missing: a message, and the task number is given back.
unfoldable pub give_up : ℕ → System → System
give_up task_num s =
    let s = println no_page s in record s { machine = on_mem (task_num_write task_num) s.machine }

unfoldable pub with_mem : (Memory → Memory) → System → System
with_mem f s = record s { machine = on_mem f s.machine }

-- From the third page on.
unfoldable pub create_code : ℕ → ℕ → ℕ → ℕ → System → System
unfolding with_mem
create_code priority task_num pd_base code_pt_base s =
    let page = get_available_page s.machine.mem in
    elim (page == not_available) [
      | true ↦ give_up task_num s
      | false ↦
          with_mem
            (λ m.
              fill_task priority task_num pd_base code_pt_base (u32 (page <<< 3))
                (mem_map_write page m))
            s
    ]

-- From the second page on.
unfoldable pub create_code_table : ℕ → ℕ → ℕ → System → System
unfolding with_mem
create_code_table priority task_num pd_base s =
    let page = get_available_page s.machine.mem in
    elim (page == not_available) [
      | true ↦ give_up task_num s
      | false ↦ create_code priority task_num pd_base (u32 (page <<< 3)) (
          with_mem
            (λ m.
              pde_set 0 kernel_pt_phy_addr pd_base p_system p_read_write p_present
                (mem_map_write page m))
            s)
    ]

-- From the first page on.
unfoldable pub create_directory : ℕ → ℕ → System → System
unfolding with_mem
create_directory priority task_num s =
    let page = get_available_page s.machine.mem in
    elim (page == not_available) [
      | true ↦ give_up task_num s
      | false ↦
          let pd_base = u32 (page <<< 3) in
          create_code_table priority task_num pd_base (
            with_mem
              (λ m.
                pte_set ((pd_base % 0x400000) >>> 3) temp_pt_base pd_base p_system p_read_write
                  p_present (mem_map_write page m))
              s)
    ]

unfoldable pub creat_task : ℕ → System → System
unfolding with_mem
creat_task priority s =
    let task_num = get_available_task_num s.machine.mem in
    elim (task_num == not_available) [
      | true ↦ println no_number s
      | false ↦ create_directory priority task_num (with_mem (task_num_write task_num) s)
    ]
