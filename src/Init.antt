-- ===== src/Init.antt =====
-- Sources/init/init.c: the interrupt table, the segments, paging, the page map, the port
-- programming, the devices, the processor's extensions and the first screen. The addresses of the
-- interrupt handlers are the linker's, and so a parameter.
pub mod Gates
pub mod Identity
pub mod Pages
pub mod Boot
pub mod Listed
pub mod Screen
pub mod Main
mod Examples
use open_ferain_os.Base.{
  ℕ, ◌+◌, ◌*◌, ◌-◌, List, codes, length, replicate, for_range, bit_and, bit_or, u8, u32, ◌<<<◌,
  Option, none, some, ◌>>=◌,
}
use open_ferain_os.Memory.{Memory}
use open_ferain_os.Machine.{
  Machine, Devices, on_mem, outpb, inpb, load_cr3, paging_enable, gdtr_init, idtr_init,
}
use open_ferain_os.Paging.{
  pde_set, pte_set, kernel_pd_phy_addr, kernel_pt_phy_addr, p_system, p_read_write, p_present,
  page_size,
}
use open_ferain_os.Descriptor.{
  set_gd, set_id, gd_g_page, gd_normal, gd_type_code, gd_type_data, pl_kernel, pl_user, id_type_int,
  gdt_limit, gdt_base, idt_limit, idt_base,
}
use open_ferain_os.Video.{print_text}
use open_ferain_os.Console.{System, println}
use open_ferain_os.Pci.{Inventory, Outcome, running, returned, overrun, pci_enumeration}
use open_ferain_os.Controllers.{
  pci_isa_enu, pci_ide_enu, pci_sata_enu, pci_usb_enu, pci_sdhost_enu, pci_ieee1394_enu,
}
use open_ferain_os.Task.Map.{mem_map_write}
use open_ferain_os.Task.Create.{temp_pt_base}

-- The entry points declared `extern` in init.c.
pub record Handlers : Type 0 where
  pub default_isr : ℕ
  pub de_isr : ℕ
  pub ss_isr : ℕ
  pub gp_isr : ℕ
  pub ps2_isr : ℕ
  pub server_isr : ℕ
  pub video_isr : ℕ
  pub device_isr : ℕ

unfoldable pub set_system_int : ℕ → ℕ → Memory → Memory
set_system_int id_num func = set_id id_num 0x08 func pl_kernel id_type_int

unfoldable pub set_user_int : ℕ → ℕ → Memory → Memory
set_user_int id_num func = set_id id_num 0x08 func pl_user id_type_int

unfoldable pub idt_init : Handlers → Memory → Memory
unfolding set_system_int set_user_int
idt_init h m =
    let m = for_range 256 0 (λ i s. set_system_int i h.default_isr s) m in
    let m = set_system_int 0x00 h.de_isr m in
    let m = set_system_int 0x0c h.ss_isr m in
    let m = set_system_int 0x0d h.gp_isr m in
    let m = set_user_int 0x21 h.ps2_isr m in
    let m = set_user_int 0x40 h.server_isr m in
    let m = set_user_int 0x41 h.video_isr m in set_user_int 0x42 h.device_isr m

-- The four descriptors that `descriptor_init` writes.
unfoldable pub gdt_init : Memory → Memory
gdt_init m =
    let m = set_gd 0 0x00000000 0x00000 0 0 0x0 0 m in
    let m = set_gd 1 0x00000000 0xfffff gd_g_page gd_normal gd_type_code pl_kernel m in
    let m = set_gd 2 0x00000000 0xfffff gd_g_page gd_normal gd_type_data pl_kernel m in
    set_gd 3 0x00000000 0x00000 0 0 0x0 0 m

unfoldable pub descriptor_init : Handlers → Machine → Machine
unfolding gdtr_init idtr_init
descriptor_init h s =
    idtr_init idt_limit idt_base
      (on_mem (idt_init h) (gdtr_init gdt_limit gdt_base (on_mem gdt_init s)))

-- The stores of `paging_init`.
unfoldable pub page_tables_init : Memory → Memory
page_tables_init m =
    let m = pde_set 0 kernel_pd_phy_addr kernel_pt_phy_addr p_system p_read_write p_present m in
    let m =
      for_range 1022 1
        (λ i s. pde_set i kernel_pd_phy_addr temp_pt_base p_system p_read_write p_present s) m in
    for_range 1024 0
      (λ i s. pte_set i kernel_pt_phy_addr (u32 (i * page_size)) p_system p_read_write p_present s)
      m

unfoldable pub paging_init : Machine → Machine
unfolding load_cr3 paging_enable
paging_init s = paging_enable (load_cr3 kernel_pd_phy_addr (on_mem page_tables_init s))

unfoldable pub mem_map_init : Memory → Memory
mem_map_init = for_range 1024 0 mem_map_write

unfoldable pub port_init : Devices → Machine → Machine
unfolding outpb inpb
port_init hw s =
    let s = outpb 0x21 0x20 (outpb 0x20 0x11 s) in
    let s = outpb 0x21 0xff (outpb 0x21 0x01 (outpb 0x21 0x04 s)) in
    let s = outpb 0xa1 0x28 (outpb 0xa0 0x11 s) in
    let s = outpb 0xa1 0xff (outpb 0xa1 0x01 (outpb 0xa1 0x02 s)) in
    let (_, s) = inpb hw 0x71 (outpb 0x70 0x0c s) in
    let s = outpb 0x70 0x0a (outpb 0x71 0x12 (outpb 0x70 0x0b s)) in
    let (operand, s) = inpb hw 0x71 s in
    let operand = bit_and operand 0xf0 in
    let s = outpb 0x70 0x0c (outpb 0x71 operand (outpb 0x70 0x0a s)) in
    let (_, s) = inpb hw 0x71 s in outpb 0x40 0x04 (outpb 0x40 0xa9 (outpb 0x43 0x34 s))

-- The control register bits that `extension_init` sets for the floating point unit.
unfoldable pub extension_init : Machine → Machine
extension_init s = record s {
  cr0 = bit_or (bit_and s.cr0 0xfffffff3) 0x02;
  cr4 = bit_or s.cr4 0x00000600;
}

-- The first three calls of `init_main`.
unfoldable pub init_tables : Handlers → Machine → Machine
unfolding descriptor_init paging_init
init_tables h s = on_mem mem_map_init (paging_init (descriptor_init h s))

-- The six listings of `device_init`; none where one reads behind its array.
unfoldable pub list_devices : Inventory × System → Option (Inventory × System)
list_devices (v, s) = do
  s ← pci_isa_enu v s
  s ← pci_ide_enu v s
  s ← pci_sata_enu v s
  s ← pci_usb_enu v s
  s ← pci_sdhost_enu v s
  s ← pci_ieee1394_enu v s
  some (v, s)

unfoldable pub device_init : Devices → Inventory × System → Option (Inventory × System)
unfolding list_devices
device_init hw p = elim (pci_enumeration hw p) [
  | running q ↦ list_devices q
  | returned q ↦ list_devices q
  | overrun ↦ none
]

-- `line_string` goes to the row under the text, as the interrupt's service 0x00 prints it.
unfoldable pub shell_init : System → System
shell_init s =
    let line_string = replicate 80 b'-' in
    let s = record s { machine = on_mem (print_text line_string 0x1700 s.color) s.machine } in
    let s = println (codes "---**Welcome to OpenFerain OS 26.1**---") (record s { color = 0x70 }) in
    record s { color = 0x07 }

-- `init_main` up to its endless loop; `jmp_shell` is empty.
unfoldable pub init_main : Handlers → Devices → Inventory × System → Option (Inventory × System)
unfolding init_tables port_init device_init extension_init shell_init
init_main h hw (v, s) =
    let s = record s { machine = port_init hw (init_tables h s.machine) } in
    do
      (v, s) ← device_init hw (v, s)
      some (v, shell_init (record s { machine = extension_init s.machine }))
