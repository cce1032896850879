-- ===== src/Init/Screen.antt =====
-- The first screen of `shell_init`.
use open_ferain_os.Base.{
  ℕ, zero, suc, ◌+◌, ◌*◌, ◌<◌, ◌≡◌, ◌∙◌, arith, refl, codes, List, get_or, replicate,
}
use open_ferain_os.Memory.{Memory, IsBytes, load16}
use open_ferain_os.Machine.{on_mem}
use open_ferain_os.Video.{print_text, write_base}
use open_ferain_os.Video.Scroll.{vm_scolling-IsScrolled}
use open_ferain_os.Video.Print.{print_text-IsPrinted, write_base_value}
use open_ferain_os.Console.{System, IsConsole}
use open_ferain_os.Console.Cursor.{Scrolls, still, once_more, Scrolls-IsBytes}
use open_ferain_os.Console.Output.{println-IsWritten}
use open_ferain_os.Console.Kept.{IsKept, println-IsKept}
use open_ferain_os.Init.{shell_init}

-- The row under the text shows dashes.
abbrev pub HasRule : Memory → Type 0
HasRule m = (c : ℕ) → c < 80 → m (0xb8000 + 23 * 160 + c * 2) ≡ 0x2d

Scrolls-HasRule : {m s : Memory} {n : ℕ} → IsBytes m → Scrolls m n s → HasRule m → HasRule s
Scrolls-HasRule b still rule = rule
Scrolls-HasRule b (once_more r) rule = (vm_scolling-IsScrolled _ (Scrolls-IsBytes b r)).dashed

abbrev dashes : List ℕ
dashes = replicate 80 0x2d

get_or-dashes : (n i : ℕ) → i < n → get_or (replicate {A = ℕ} n 0x2d) i 0 ≡ 0x2d
get_or-dashes zero i l = absurd (omega arith)
get_or-dashes (suc n) zero l = refl
get_or-dashes (suc n) (suc i) l = get_or-dashes n i (omega arith)

dashes-HasRule : (color : ℕ) (m : Memory) → IsBytes m → HasRule (print_text dashes 0x1700 color m)
unfolding load16
dashes-HasRule color m b c l =
    let p = print_text-IsPrinted dashes 0x1700 color m (ground arith) (omega arith) b in
    let base : write_base 0x1700 ≡ 0xb8000 + 23 * 160 = omega (arith, write_base_value 0x1700) in
    let cell = rw base at p.cells c l in
    let char = get_or-dashes 80 c l in
    omega (arith, cell, char, p.bytes (0xb8000 + 23 * 160 + c * 2))

-- What `shell_init` does to a well-formed console.
pub record IsShellReady (s t : System) : Type 0 where
  pub kept : IsKept s t
  pub rule : HasRule t.machine.mem
  pub color : t.color ≡ 0x07
  pub column : t.vmx ≡ 0

pub shell_init-IsShellReady : (s : System) → IsConsole s → IsShellReady s (shell_init s)
unfolding shell_init
shell_init-IsShellReady s c =
    let p =
      print_text-IsPrinted dashes 0x1700 s.color s.machine.mem (ground arith) (omega arith)
        c.bytes in
    let base = write_base_value 0x1700 in
    let text = codes "---**Welcome to OpenFerain OS 26.1**---" in
    let ruled = record s {
      machine = on_mem (print_text dashes 0x1700 s.color) s.machine;
      color = 0x70;
    } in
    let ready : IsConsole ruled = record { column = c.column; row = c.row; bytes = p.bytes } in
    let shown = println-IsKept text ruled (ground arith) ready in
    let (w, console, column, _, _) =
      println-IsWritten text ruled ready (ground arith) (omega (arith, c.column)) in
    let r = shown.registers in
    record {
      kept = record {
        console = record { column = console.column; row = console.row; bytes = console.bytes };
        outside = λ x o. shown.outside x o ∙ p.outside x (omega (arith, base));
        registers = record { cr0 = r.cr0; cr3 = r.cr3; cr4 = r.cr4; gdtr = r.gdtr; idtr = r.idtr };
      };
      rule = λ k l.
          w.printed.outside (0xb8000 + 23 * 160 + k * 2) (omega (arith, w.within))
          ∙ Scrolls-HasRule p.bytes w.scrolled (dashes-HasRule s.color s.machine.mem c.bytes) k l;
      color = refl;
      column = column;
    }
