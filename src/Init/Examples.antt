-- ===== src/Init/Examples.antt =====
-- The boot steps from an empty memory.
use open_ferain_os.Base.{
  ℕ, ◌+◌, ◌*◌, ◌/◌, ◌%◌, ◌^◌, ◌≤◌, ◌<◌, ◌≡◌, ◌⊎◌, refl, arith, List, [], ◌∷◌, ◌==◌, ◌&&◌,
  if◌then◌else◌,
}
use open_ferain_os.Machine.{Devices, PortEvent, out8, in8, out32}
use open_ferain_os.Samples.{zeros, zeros-IsBytes, machine}
use open_ferain_os.Descriptor.{idt_base}
use open_ferain_os.Descriptor.Layout.{gate_at}
use open_ferain_os.Descriptor.Laws.{gate_for}
use open_ferain_os.Task.Map.{flag, mem_map_base}
use open_ferain_os.Init.{Handlers, idt_init, page_tables_init, mem_map_init, init_tables, port_init}
use open_ferain_os.Init.Gates.{AreAddresses, handler_for, privilege_for, idt_init-gate_at}
use open_ferain_os.Init.Identity.{IsIdentity, page_tables_init-IsIdentity}
use open_ferain_os.Init.Pages.{mem_map_init_lem}
use open_ferain_os.Pci.Survey.{Config}
use open_ferain_os.Init.Boot.{IsBooted, init_tables-IsBooted}

abbrev handlers : Handlers
handlers = record {
  default_isr = 0x100400;
  de_isr = 0x100410;
  ss_isr = 0x100420;
  gp_isr = 0x100430;
  ps2_isr = 0x100440;
  server_isr = 0x100450;
  video_isr = 0x100460;
  device_isr = 0x100470;
}

handlers-AreAddresses : AreAddresses handlers
handlers-AreAddresses = omega arith

-- A device that answers every input with the same byte.
abbrev constant : ℕ → Devices
constant v = record { answer8 = λ t p. v; answer32 = λ t p. v }

-- Only the upper four bits of the clock's register go back to it.
clock_runs :
    (port_init (constant 0xa6) machine).traffic
    ≡ out8 0x40 0x04
      ∷ out8 0x40 0xa9
      ∷ out8 0x43 0x34
      ∷ in8 0x71
      ∷ out8 0x70 0x0c
      ∷ out8 0x71 0xa0
      ∷ out8 0x70 0x0a
      ∷ in8 0x71
      ∷ out8 0x70 0x0a
      ∷ out8 0x71 0x12
      ∷ out8 0x70 0x0b
      ∷ in8 0x71
      ∷ out8 0x70 0x0c
      ∷ out8 0xa1 0xff
      ∷ out8 0xa1 0x01
      ∷ out8 0xa1 0x02
      ∷ out8 0xa1 0x28
      ∷ out8 0xa0 0x11
      ∷ out8 0x21 0xff
      ∷ out8 0x21 0x01
      ∷ out8 0x21 0x04
      ∷ out8 0x21 0x20
      ∷ out8 0x20 0x11
      ∷ []
unfolding port_init
clock_runs = refl

clear_map : (k : ℕ) → k < 32768 * 32 → flag mem_map_base zeros k ≡ 0
clear_map k l = omega arith

idt_init-gate_at_example :
    gate_at (idt_init handlers zeros) (idt_base + 0x41 * 8)
    ≡ gate_for 0x08 (handler_for handlers 0x41) (privilege_for 0x41) 0x0e
idt_init-gate_at_example = idt_init-gate_at handlers zeros handlers-AreAddresses 0x41 (omega arith)

page_tables_init-IsIdentity_example : IsIdentity zeros (page_tables_init zeros)
page_tables_init-IsIdentity_example = page_tables_init-IsIdentity zeros

mem_map_init_lem_example :
    ((k : ℕ) → k < 1024 → flag mem_map_base (mem_map_init zeros) k ≡ 1)
    × ((k : ℕ) → 1024 ≤ k → flag mem_map_base (mem_map_init zeros) k ≡ flag mem_map_base zeros k)
    × ((x : ℕ) → (x < mem_map_base) ⊎ (mem_map_base + 128 ≤ x) → mem_map_init zeros x ≡ zeros x)
mem_map_init_lem_example = mem_map_init_lem zeros zeros-IsBytes (λ k l. clear_map k (omega arith))

init_tables-IsBooted_example : IsBooted handlers (init_tables handlers machine)
init_tables-IsBooted_example =
    init_tables-IsBooted handlers machine handlers-AreAddresses zeros-IsBytes clear_map

-- A machine with one controller, a SATA bus.
abbrev alone : Config
alone i j k reg =
    if i == 0 && (j == 0 && k == 0) then if reg == 0 then 0x29228086 else 0x01060100 else 0xffffffff

abbrev alone_answer : List PortEvent → ℕ
alone_answer [] = 0
alone_answer (out32 port a ∷ t) =
    alone (a / 2 ^ 16 % 2 ^ 8) (a / 2 ^ 11 % 32) (a / 2 ^ 8 % 8) (a / 4 % 64)
alone_answer (_ ∷ t) = 0

abbrev alone_host : Devices
alone_host = record { answer8 = λ t p. 0xa6; answer32 = λ t p. alone_answer t }
