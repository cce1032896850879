-- ===== src/Console/Kept.antt =====
-- What printing keeps: the system registers, all of memory but the screen, and a well-formed console.
use open_ferain_os.Base.{
  ℕ, zero, suc, ◌+◌, ◌*◌, ◌≤◌, ◌<◌, ◌≡◌, ◌⊎◌, ◌∙◌, arith, refl, inl, inr, Bool-cases, leb, List,
  length, IsByteList, u8, u32, sub8,
}
use open_ferain_os.Machine.{Machine, outpb}
use open_ferain_os.Video.{cursor_set}
use open_ferain_os.Console.{
  System, Wrap, IsConsole, set_cursor, asm_scolling, settle, wrap_row, wrap_rows, test_scolling,
  printf, println,
}
use open_ferain_os.Console.Output.{
  printf-IsWritten, println-IsWritten, Scrolls-outside, println_outside,
}

pub record AreRegisters (s t : Machine) : Type 0 where
  pub cr0 : t.cr0 ≡ s.cr0
  pub cr3 : t.cr3 ≡ s.cr3
  pub cr4 : t.cr4 ≡ s.cr4
  pub gdtr : t.gdtr ≡ s.gdtr
  pub idtr : t.idtr ≡ s.idtr

abbrev pub IsOutside : ℕ → Type 0
IsOutside x = (x < 0xb8000) ⊎ (0xb8000 + 24 * 160 ≤ x)

pub record IsKept (s t : System) : Type 0 where
  pub console : IsConsole t
  pub outside : (x : ℕ) → IsOutside x → t.machine.mem x ≡ s.machine.mem x
  pub registers : AreRegisters s.machine t.machine

pub AreRegisters-refl : (s : Machine) → AreRegisters s s
AreRegisters-refl s = record { cr0 = refl; cr3 = refl; cr4 = refl; gdtr = refl; idtr = refl }

pub AreRegisters-trans : (s t u : Machine) → AreRegisters s t → AreRegisters t u → AreRegisters s u
AreRegisters-trans s t u p q = record {
  cr0 = q.cr0 ∙ p.cr0;
  cr3 = q.cr3 ∙ p.cr3;
  cr4 = q.cr4 ∙ p.cr4;
  gdtr = q.gdtr ∙ p.gdtr;
  idtr = q.idtr ∙ p.idtr;
}

pub IsKept-refl : (s : System) → IsConsole s → IsKept s s
IsKept-refl s c = record {
  console = c;
  outside = λ x o. refl;
  registers = AreRegisters-refl s.machine;
}

pub IsKept-trans : (s t u : System) → IsKept s t → IsKept t u → IsKept s u
IsKept-trans s t u p q = record {
  console = q.console;
  outside = λ x o. q.outside x o ∙ p.outside x o;
  registers = AreRegisters-trans s.machine t.machine u.machine p.registers q.registers;
}

-- The registers do not depend on what the loops do.
set_cursor-AreRegisters : (x y : ℕ) (s : System) → AreRegisters s.machine (set_cursor x y s).machine
unfolding set_cursor cursor_set outpb
set_cursor-AreRegisters x y s = record {
  cr0 = refl;
  cr3 = refl;
  cr4 = refl;
  gdtr = refl;
  idtr = refl;
}

settle-AreRegisters : (fuel : ℕ) (s : System) → AreRegisters s.machine (settle fuel s).machine
unfolding settle asm_scolling
settle-AreRegisters zero s = AreRegisters-refl s.machine
settle-AreRegisters (suc fuel) s = elim (Bool-cases (leb 23 s.vmy)) [
  | inl more ↦
      rw (more, settle)
        (let ih = settle-AreRegisters fuel (asm_scolling (record s { vmy = sub8 s.vmy 1 })) in
          record { cr0 = ih.cr0; cr3 = ih.cr3; cr4 = ih.cr4; gdtr = ih.gdtr; idtr = ih.idtr })
  | inr done ↦ rw (done, settle) (AreRegisters-refl s.machine)
]

wrap_row-AreRegisters : (w : Wrap) → AreRegisters w.system.machine (wrap_row w).system.machine
unfolding wrap_row asm_scolling
wrap_row-AreRegisters w = elim (Bool-cases (leb 23 (u32 (w.test_vmy + 1)))) [
  | inl low ↦
      rw (low, wrap_row) (record { cr0 = refl; cr3 = refl; cr4 = refl; gdtr = refl; idtr = refl })
  | inr high ↦ rw (high, wrap_row) (AreRegisters-refl w.system.machine)
]

wrap_rows-AreRegisters :
    (fuel : ℕ) (w : Wrap) → AreRegisters w.system.machine (wrap_rows fuel w).system.machine
unfolding wrap_rows
wrap_rows-AreRegisters zero w = AreRegisters-refl w.system.machine
wrap_rows-AreRegisters (suc fuel) w = elim (Bool-cases (leb 80 w.final_vmx)) [
  | inl more ↦
      rw (more, wrap_rows)
        (AreRegisters-trans w.system.machine (wrap_row w).system.machine
          (wrap_rows fuel (wrap_row w)).system.machine (wrap_row-AreRegisters w)
          (wrap_rows-AreRegisters fuel (wrap_row w)))
  | inr done ↦ rw (done, wrap_rows) (AreRegisters-refl w.system.machine)
]

test_scolling-AreRegisters :
    (len : ℕ) (s : System) → AreRegisters s.machine (test_scolling len s).1.machine
unfolding test_scolling
test_scolling-AreRegisters len s =
    let s1 = settle 256 s in
    let final_vmx = u32 (s1.vmx + len) in
    let w =
      wrap_rows (suc final_vmx)
        (record { final_vmx = final_vmx; test_vmy = s1.vmy; system = s1 }) in
    AreRegisters-trans s.machine s1.machine (set_cursor w.final_vmx w.test_vmy w.system).machine
      (settle-AreRegisters 256 s)
      (AreRegisters-trans s1.machine w.system.machine
        (set_cursor w.final_vmx w.test_vmy w.system).machine
        (wrap_rows-AreRegisters (suc final_vmx)
          (record { final_vmx = final_vmx; test_vmy = s1.vmy; system = s1 }))
        (set_cursor-AreRegisters w.final_vmx w.test_vmy w.system))

printf-AreRegisters : (text : List ℕ) (s : System) → AreRegisters s.machine (printf text s).machine
unfolding printf
printf-AreRegisters text s =
    let r = test_scolling-AreRegisters (length text) s in
    record { cr0 = r.cr0; cr3 = r.cr3; cr4 = r.cr4; gdtr = r.gdtr; idtr = r.idtr }

println-AreRegisters :
    (text : List ℕ) (s : System) → AreRegisters s.machine (println text s).machine
unfolding println
println-AreRegisters text s =
    let s1 = printf text s in
    let s2 = record s1 { vmx = 0; vmy = u8 (s1.vmy + 1) } in
    AreRegisters-trans s.machine s1.machine (set_cursor s2.vmx s2.vmy s2).machine
      (printf-AreRegisters text s) (set_cursor-AreRegisters s2.vmx s2.vmy s2)

-- Texts that fit the screen from any column of a row.
abbrev pub IsShown : List ℕ → Type 0
IsShown text = IsByteList text × (length text ≤ 1700)

pub printf-IsKept :
    (text : List ℕ) (s : System) → IsShown text → IsConsole s → IsKept s (printf text s)
printf-IsKept text s (bytes, short) c =
    let (w, _, console, _, _) = printf-IsWritten text s c bytes (omega (arith, c.column)) in
    record {
      console = console;
      outside = λ x o.
          w.printed.outside x (omega (arith, w.within)) ∙ Scrolls-outside x c.bytes w.scrolled o;
      registers = printf-AreRegisters text s;
    }

pub println-IsKept :
    (text : List ℕ) (s : System) → IsShown text → IsConsole s → IsKept s (println text s)
println-IsKept text s (bytes, short) c = record {
  console = (println-IsWritten text s c bytes (omega (arith, c.column))).1;
  outside = λ x o. println_outside text s x c bytes (omega (arith, c.column)) o;
  registers = println-AreRegisters text s;
}

-- One text after another.
pub then_printf :
    (s t : System) (text : List ℕ) → IsKept s t → IsShown text → IsKept s (printf text t)
then_printf s t text k h = IsKept-trans s t (printf text t) k (printf-IsKept text t h k.console)

pub then_println :
    (s t : System) (text : List ℕ) → IsKept s t → IsShown text → IsKept s (println text t)
then_println s t text k h = IsKept-trans s t (println text t) k (println-IsKept text t h k.console)
