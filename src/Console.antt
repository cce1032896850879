-- ===== src/Console.antt =====
-- Include/stdio.h: the kernel's console, a cursor and a colour over the services of interrupt 0x41.
-- `_VIDEO_ISR_CMP` of Sources/init/init.s sends the numbers 0x00, 0x80 and 0x81 in `ah` to the three
-- services of `Video`. A string is given as its bytes up to the closing NUL.
pub mod Cursor
pub mod Output
pub mod Kept
mod Examples
use open_ferain_os.Base.{
  ℕ, zero, suc, ◌+◌, ◌-◌, ◌*◌, ◌≤◌, ◌<◌, ◌≡◌, Bool, true, false, leb, List, length, bit_or, u8, u32,
  sub8, ◌<<<◌, Option, none, some,
}
use open_ferain_os.Memory.{Memory, IsBytes}
use open_ferain_os.Machine.{Machine, on_mem}
use open_ferain_os.Video.{cursor_set, print_text, vm_scolling}

-- The machine and the console's globals, all three `uint8_t`.
pub record System : Type 0 where
  pub machine : Machine
  pub color : ℕ
  pub vmx : ℕ
  pub vmy : ℕ

unfoldable pub set_cursor : ℕ → ℕ → System → System
set_cursor x y s =
    let x' = u8 x in
    let y' = u8 y in record s { machine = cursor_set x' y' s.machine; vmx = x'; vmy = y' }

unfoldable pub asm_scolling : System → System
asm_scolling s = record s { machine = on_mem vm_scolling s.machine }

-- `while(vmy >= 23)`: each round takes one off a `uint8_t`.
unfoldable pub settle : ℕ → System → System
unfolding asm_scolling
settle zero s = s
settle (suc fuel) s = elim (leb 23 s.vmy) [
  | true ↦ settle fuel (asm_scolling (record s { vmy = sub8 s.vmy 1 }))
  | false ↦ s
]

-- The variables of `while(final_vmx >= 80)`.
pub record Wrap : Type 0 where
  pub final_vmx : ℕ
  pub test_vmy : ℕ
  pub system : System

unfoldable pub wrap_row : Wrap → Wrap
unfolding asm_scolling
wrap_row w =
    let row = u32 (w.test_vmy + 1) in
    let next = w.final_vmx - 80 in
    elim (leb 23 row) [
      | true ↦ record {
        final_vmx = next;
        test_vmy = row - 1;
        system = asm_scolling (record w.system { vmy = sub8 w.system.vmy 1 });
      }
      | false ↦ record { final_vmx = next; test_vmy = row; system = w.system }
    ]

unfoldable pub wrap_rows : ℕ → Wrap → Wrap
unfolding wrap_row
wrap_rows zero w = w
wrap_rows (suc fuel) w = elim (leb 80 w.final_vmx) [
  | true ↦ wrap_rows fuel (wrap_row w)
  | false ↦ w
]

-- The start of the text, row above column, and the system with the cursor behind the text. Both
-- loops get more fuel than they have rounds.
unfoldable pub test_scolling : ℕ → System → ℕ × System
test_scolling len s =
    let s1 = settle 256 s in
    let final_vmx = u32 (s1.vmx + len) in
    let w =
      wrap_rows (suc final_vmx)
        (record { final_vmx = final_vmx; test_vmy = s1.vmy; system = s1 }) in
    let s2 = w.system in (bit_or (s2.vmy <<< 8) s2.vmx, set_cursor w.final_vmx w.test_vmy s2)

unfoldable pub printf : List ℕ → System → System
printf text s =
    let (position, s1) = test_scolling (length text) s in
    record s1 { machine = on_mem (print_text text position s1.color) s1.machine }

unfoldable pub println : List ℕ → System → System
println text s =
    let s1 = printf text s in
    let s2 = record s1 { vmx = 0; vmy = u8 (s1.vmy + 1) } in set_cursor s2.vmx s2.vmy s2

-- The software interrupt 0x30, whose handler is the assembly at `_VIDEO` in Sources/Boot/16T32.asm: the
-- service in `ah`, `al`, and `ecx` where the call sets it.
abbrev pub Service30 : Type 0
Service30 = ℕ → ℕ → Option ℕ → System → System

unfoldable pub set_color : Service30 → System → System
set_color int30 s = int30 0x05 s.color none s

-- Two services: the character, and the cursor behind it.
unfoldable pub type : Service30 → ℕ → System → System
type int30 c s = let t = int30 0x01 s.color (some c) s in int30 0x80 s.color (some c) t

-- A cursor on a column of the screen and at most one row below the text.
pub record IsConsole (s : System) : Type 0 where
  pub column : s.vmx < 80
  pub row : s.vmy ≤ 23
  pub bytes : IsBytes s.machine.mem
