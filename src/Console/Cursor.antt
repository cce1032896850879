-- ===== src/Console/Cursor.antt =====
-- Where `test_scolling` starts the text and where it leaves the cursor.
use open_ferain_os.Base.{
  ℕ, zero, suc, ◌+◌, ◌-◌, ◌*◌, ◌/◌, ◌≤◌, ◌<◌, ◌≡◌, ◌⊎◌, arith, refl, ◌∙◌, bit_or, u32, Bool-cases,
  leb, ◌<<<◌, inl, inr,
}
use open_ferain_os.Bits.{bit_or_low}
use open_ferain_os.Memory.{Memory, IsBytes}
use open_ferain_os.Machine.{outpb}
use open_ferain_os.Video.{cursor_set, vm_scolling}
use open_ferain_os.Video.Scroll.{vm_scolling-IsScrolled}
use open_ferain_os.Console.{System, Wrap, set_cursor, settle, wrap_row, wrap_rows, test_scolling}

-- Memory after some number of scrolls.
pub data Scrolls (m : Memory) : ℕ → Memory → Type 0 where
  still : Scrolls m 0 m
  once_more : {n : ℕ} {s : Memory} → Scrolls m n s → Scrolls m (suc n) (vm_scolling s)

pub Scrolls-IsBytes : {m s : Memory} {n : ℕ} → IsBytes m → Scrolls m n s → IsBytes s
Scrolls-IsBytes h still = h
Scrolls-IsBytes h (once_more r) = (vm_scolling-IsScrolled _ (Scrolls-IsBytes h r)).bytes

-- The first loop takes the cursor up to row 22, one scroll for each row.
pub record IsSettled (s t : System) : Type 0 where
  pub rows : ℕ
  pub scrolled : Scrolls s.machine.mem rows t.machine.mem
  pub up : t.vmy + rows ≡ s.vmy
  pub column : t.vmx ≡ s.vmx
  pub color : t.color ≡ s.color
  pub needed : (rows ≡ 0) ⊎ (22 ≤ t.vmy)

settle-IsSettled :
    (fuel : ℕ) (s t : System)
    → t.vmy < 23 + fuel
    → t.vmy < 256
    → IsSettled s t
    → IsSettled s (settle fuel t) × ((settle fuel t).vmy < 23)
unfolding settle
settle-IsSettled zero s t h b i = (i, omega arith)
settle-IsSettled (suc fuel) s t h b i = elim (Bool-cases (leb 23 t.vmy)) [
  | inl more ↦
      let high : 23 ≤ t.vmy = ground arith in
      rw (more, settle)
        (settle-IsSettled fuel s _ (omega arith) (omega arith) (record {
          rows = suc i.rows;
          scrolled = once_more i.scrolled;
          up = omega (arith, i.up);
          column = i.column;
          color = i.color;
          needed = inr (omega arith);
        }))
  | inr done ↦ rw (done, settle) (i, ground arith)
]

-- The second loop: the text's first row and its length, seen from the row and column reached so far.
-- What is left of the text still ends at the same cell of the screen's rows in sequence.
pub record IsWrapped (s : System) (len : ℕ) (w : Wrap) : Type 0 where
  pub rows : ℕ
  pub scrolled : Scrolls s.machine.mem rows w.system.machine.mem
  pub up : w.system.vmy + rows ≡ s.vmy
  pub column : w.system.vmx ≡ s.vmx
  pub color : w.system.color ≡ s.color
  pub fits : w.test_vmy < 23
  pub needed : (rows ≡ 0) ⊎ (w.test_vmy ≡ 22)
  pub sequence : w.system.vmy * 80 + s.vmx + len ≡ w.test_vmy * 80 + w.final_vmx

wrap_row-IsWrapped :
    (s : System) (len : ℕ) (w : Wrap)
    → s.vmx + len < 23 * 80
    → s.vmy < 23
    → 80 ≤ w.final_vmx
    → IsWrapped s len w
    → IsWrapped s len (wrap_row w)
unfolding wrap_row
wrap_row-IsWrapped s len w short low far i = elim (Bool-cases (leb 23 (u32 (w.test_vmy + 1)))) [
  | inl bottom ↦
      rw (bottom, wrap_row)
        (record {
          rows = suc i.rows;
          scrolled = once_more i.scrolled;
          up = ground (arith, i.up);
          column = i.column;
          color = i.color;
          fits = ground (arith, i.fits);
          needed = inr (ground (arith, i.fits));
          sequence = ground (arith, i.fits, i.sequence, i.up);
        })
  | inr above ↦
      rw (above, wrap_row)
        (record {
          rows = i.rows;
          scrolled = i.scrolled;
          up = i.up;
          column = i.column;
          color = i.color;
          fits = ground (arith, i.fits);
          needed = ground (arith, i.needed, i.fits);
          sequence = ground (arith, i.fits, i.sequence);
        })
]

wrap_rows-IsWrapped :
    (fuel : ℕ) (s : System) (len : ℕ) (w : Wrap)
    → s.vmx + len < 23 * 80
    → s.vmy < 23
    → w.final_vmx < fuel
    → IsWrapped s len w
    → IsWrapped s len (wrap_rows fuel w) × ((wrap_rows fuel w).final_vmx < 80)
unfolding wrap_rows
wrap_rows-IsWrapped zero s len w short low h i = absurd (omega arith)
wrap_rows-IsWrapped (suc fuel) s len w short low h i = elim (Bool-cases (leb 80 w.final_vmx)) [
  | inl more ↦
      let far : 80 ≤ w.final_vmx = ground arith in
      rw (more, wrap_rows)
        (wrap_rows-IsWrapped fuel s len (wrap_row w) short low (ground arith)
          (wrap_row-IsWrapped s len w short low far i))
  | inr done ↦ rw (done, wrap_rows) (i, ground arith)
]

Scrolls-trans : {m s t : Memory} {i j : ℕ} → Scrolls m i s → Scrolls s j t → Scrolls m (j + i) t
Scrolls-trans {i} p still = let e : 0 + i ≡ i = omega arith in rw e p
Scrolls-trans {i} p (once_more {n} q) =
    let e : suc n + i ≡ suc (n + i) = omega arith in rw e (once_more (Scrolls-trans p q))

-- What `test_scolling` answers and leaves for a text of `len` characters: the text starts where the
-- cursor stood, but as many rows higher as the screen was scrolled, within the 23 rows for text; the
-- cursor stands right behind the text, counting the screen's cells row by row. The screen is scrolled
-- by as many rows as the row behind the text lies under row 22, and not at all where it does not.
pub record IsPlaced (s : System) (len : ℕ) (position : ℕ) (t : System) : Type 0 where
  pub start_row : ℕ
  pub rows : ℕ
  pub scrolled : Scrolls s.machine.mem rows t.machine.mem
  pub up : start_row + rows ≡ s.vmy
  pub within : start_row < 23
  pub start : position ≡ start_row * 256 + s.vmx
  pub sequence : start_row * 80 + s.vmx + len ≡ t.vmy * 80 + t.vmx
  pub column : t.vmx < 80
  pub row : t.vmy < 23
  pub color : t.color ≡ s.color
  pub needed : rows ≡ s.vmy + (s.vmx + len) / 80 - 22

-- The parts fit together: after both loops the cursor is set.
wrapped-IsPlaced :
    (len : ℕ) (s s1 : System) (w : Wrap)
    → s.vmx < 80
    → IsSettled s s1
    → IsWrapped s1 len w
    → w.final_vmx < 80
    → IsPlaced s len
        (bit_or (w.system.vmy <<< 8) w.system.vmx)
        (set_cursor w.final_vmx w.test_vmy w.system)
unfolding set_cursor cursor_set outpb
wrapped-IsPlaced len s s1 w hx i j done = record {
  start_row = w.system.vmy;
  rows = j.rows + i.rows;
  scrolled = Scrolls-trans i.scrolled j.scrolled;
  up = omega (arith, i.up, j.up);
  within = omega (arith, j.sequence, j.fits, j.up);
  start = ground (arith, bit_or_low 8 w.system.vmy w.system.vmx, i.column, j.column);
  sequence = ground (arith, j.sequence, j.fits, i.column);
  column = ground (arith, done);
  row = ground (arith, j.fits);
  color = j.color ∙ i.color;
  needed = ground (arith, i.up, j.up, i.needed, j.needed, j.sequence, j.fits, i.column);
}

-- For a text that ends within 23 rows of the start of the cursor's row, `test_scolling` ends, and
-- places the text and the cursor as `IsPlaced` says; both loops end by their tests.
pub test_scolling-IsPlaced :
    (len : ℕ) (s : System)
    → s.vmx < 80
    → s.vmy < 256
    → s.vmx + len < 23 * 80
    → IsPlaced s len (test_scolling len s).0 (test_scolling len s).1
unfolding test_scolling
test_scolling-IsPlaced len s hx hy short =
    let (i, low) = settle-IsSettled 256 s s (omega arith) hy (record {
      rows = 0;
      scrolled = still;
      up = omega arith;
      column = refl;
      color = refl;
      needed = inl refl;
    }) in
    placed (settle 256 s) i low
  where
    placed :
        (s1 : System)
        → IsSettled s s1
        → s1.vmy < 23
        → let w : Wrap = record {
          final_vmx = u32 (s1.vmx + len);
          test_vmy = s1.vmy;
          system = s1;
        } in
          let w' = wrap_rows (suc (u32 (s1.vmx + len))) w in
          IsPlaced s len
            (bit_or (w'.system.vmy <<< 8) w'.system.vmx)
            (set_cursor w'.final_vmx w'.test_vmy w'.system)
    placed s1 i low =
        let (j, done) =
          wrap_rows-IsWrapped (suc (u32 (s1.vmx + len))) s1 len _ (omega (arith, i.column)) low
            (omega arith)
            (record {
              rows = 0;
              scrolled = still;
              up = omega arith;
              column = refl;
              color = refl;
              fits = low;
              needed = inl refl;
              sequence = omega (arith, i.column);
            }) in
        wrapped-IsPlaced len s s1 _ hx i j done
