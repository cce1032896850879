-- ===== src/Init/Main.antt =====
-- The whole of `init_main`: what the tables say outlives the devices and the first screen.
use open_ferain_os.Base.{ℕ, ◌≡◌}
use open_ferain_os.Memory.{Memory}
use open_ferain_os.Bits.{bit}
use open_ferain_os.Machine.{Machine}
use open_ferain_os.Console.{System, IsConsole}
use open_ferain_os.Console.Kept.{IsOutside}
use open_ferain_os.Init.{Handlers}
use open_ferain_os.Init.Boot.{IsBooted}
use open_ferain_os.Init.Screen.{HasRule}

-- The memory and the registers that `IsBooted` reads.
record AreSame (s t : Machine) : Type 0 where
  pub outside : (x : ℕ) → IsOutside x → t.mem x ≡ s.mem x
  pub cr3 : t.cr3 ≡ s.cr3
  pub gdtr : t.gdtr ≡ s.gdtr
  pub idtr : t.idtr ≡ s.idtr

-- Control register 0 with paging (PG) and the monitored coprocessor (MP) but neither its emulation (EM)
-- nor a task switch (TS), and register 4 with the saving of the vector state (OSFXSR, OSXMMEXCPT).
pub record IsExtended (t : Machine) : Type 0 where
  pub paging : bit 31 t.cr0 ≡ 1
  pub monitored : bit 1 t.cr0 ≡ 1
  pub emulated : bit 2 t.cr0 ≡ 0
  pub switched : bit 3 t.cr0 ≡ 0
  pub saved : bit 9 t.cr4 ≡ 1
  pub excepted : bit 10 t.cr4 ≡ 1

-- What a start leaves: the tables as the first steps set them up, the registers with paging and the
-- floating point unit on, and a well-formed console at the start of a row above the row of dashes.
pub record IsStarted (h : Handlers) (t : System) : Type 0 where
  pub booted : IsBooted h t.machine
  pub extended : IsExtended t.machine
  pub console : IsConsole t
  pub rule : HasRule t.machine.mem
  pub color : t.color ≡ 0x07
  pub column : t.vmx ≡ 0
