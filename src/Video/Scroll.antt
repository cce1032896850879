-- ===== src/Video/Scroll.antt =====
-- `vm_scolling` moves the text up by one row.
use open_ferain_os.Base.{
  ℕ, zero, suc, ◌+◌, ◌-◌, ◌*◌, ◌≤◌, ◌<◌, ◌≡◌, ◌⊎◌, arith, for_range, for_range_inv, refl,
}
use open_ferain_os.Memory.{
  Memory, IsBytes, load32, store32, store8, store32_outside, store8-IsBytes, store32-IsBytes,
}
use open_ferain_os.Video.{move_word, blank_column, vm_scolling}

-- A word copied by a load and a store arrives byte for byte.
copied : (m : Memory) (a b x : ℕ) → IsBytes m → x < 4 → store32 m a (load32 m b) (a + x) ≡ m (b + x)
unfolding load32 store32
copied m a b zero h l = ground (arith, h b)
copied m a b (suc zero) h l = ground (arith, h b, h (b + 1))
copied m a b (suc (suc zero)) h l = ground (arith, h b, h (b + 1), h (b + 2))
copied m a b (suc (suc (suc zero))) h l = ground (arith, h b, h (b + 1), h (b + 2), h (b + 3))
copied m a b (suc (suc (suc (suc x)))) h l = absurd (omega arith)

-- After `n` rounds of the copy: what is below the loop's front has come from one row further down.
record IsMoved (m : Memory) (n : ℕ) (s : Memory) : Type 0 where
  bytes : IsBytes s
  moved : (x : ℕ) → x < n * 4 → s (0xb8000 + x) ≡ m (0xb80a0 + x)
  ahead : (x : ℕ) → (x < 0xb8000) ⊎ (0xb8000 + n * 4 ≤ x) → s x ≡ m x

move_word-IsMoved :
    (m : Memory) (i : ℕ) (s : Memory) → IsMoved m i s → IsMoved m (i + 1) (move_word i s)
unfolding move_word
move_word-IsMoved m i s h = record {
  bytes = store32-IsBytes s (0xb8000 + i * 4) (load32 s (0xb80a0 + i * 4)) h.bytes;
  moved = λ x l. ground (
    arith,
    h.moved x,
    h.ahead (0xb80a0 + x),
    copied s (0xb8000 + i * 4) (0xb80a0 + i * 4) (x - i * 4) h.bytes,
    store32_outside s (0xb8000 + i * 4) (load32 s (0xb80a0 + i * 4)) (0xb8000 + x),
  );
  ahead = λ x l.
      ground (arith, h.ahead x, store32_outside s (0xb8000 + i * 4) (load32 s (0xb80a0 + i * 4)) x);
}

-- After `n` columns: the last text row blank, the line under it dashed, the rest as it was.
record IsBlanked (m : Memory) (n : ℕ) (s : Memory) : Type 0 where
  bytes : IsBytes s
  blank : (c : ℕ) → c < n → s (0xb8dc0 + c * 2) ≡ 0x20
  dashed : (c : ℕ) → c < n → s (0xb8e60 + c * 2) ≡ 0x2d
  colors : (c : ℕ) → s (0xb8dc0 + c * 2 + 1) ≡ m (0xb8dc0 + c * 2 + 1)
  kept : (x : ℕ) → (x < 0xb8dc0) ⊎ (0xb8dc0 + 320 ≤ x) → s x ≡ m x

blank_column-IsBlanked :
    (m : Memory) (i : ℕ) (s : Memory)
    → i < 80
    → IsBlanked m i s
    → IsBlanked m (i + 1) (blank_column i s)
unfolding blank_column store8
blank_column-IsBlanked m i s l h = record {
  bytes = store8-IsBytes _ (0xb8e60 + i * 2) 0x2d (store8-IsBytes s (0xb8dc0 + i * 2) 0x20 h.bytes);
  blank = λ c p. ground (arith, h.blank c);
  dashed = λ c p. ground (arith, h.dashed c);
  colors = λ c. ground (arith, h.colors c);
  kept = λ x p. ground (arith, h.kept x);
}

-- The screen after a scroll, in the terms of the screen before it.
pub record IsScrolled (m s : Memory) : Type 0 where
  pub bytes : IsBytes s
  pub moved : (x : ℕ) → x < 22 * 160 → s (0xb8000 + x) ≡ m (0xb8000 + 160 + x)
  pub blank : (c : ℕ) → c < 80 → s (0xb8000 + 22 * 160 + c * 2) ≡ 0x20
  pub colors :
      (c : ℕ) → c < 80 → s (0xb8000 + 22 * 160 + c * 2 + 1) ≡ m (0xb8000 + 22 * 160 + c * 2 + 1)
  pub dashed : (c : ℕ) → c < 80 → s (0xb8000 + 23 * 160 + c * 2) ≡ 0x2d
  pub outside : (x : ℕ) → (x < 0xb8000) ⊎ (0xb8000 + 24 * 160 ≤ x) → s x ≡ m x

-- Scrolling moves each of the rows 1 to 22 up by one, with its colours; row 22 becomes blank and keeps
-- its colours, row 23 becomes a line of dashes, and nothing outside the 24 rows changes.
pub vm_scolling-IsScrolled : (m : Memory) → IsBytes m → IsScrolled m (vm_scolling m)
unfolding vm_scolling
vm_scolling-IsScrolled m h =
    let copy : IsMoved m 880 (for_range 880 0 move_word m) =
      for_range_inv (IsMoved m) move_word 0 880 (λ i s _ _ p. move_word-IsMoved m i s p) 880 0 m
        (omega arith) refl
        (record { bytes = h; moved = λ x l. absurd (omega arith); ahead = λ x l. refl }) in
    let t = for_range 880 0 move_word m in
    let clear : IsBlanked t 80 (for_range 80 0 blank_column t) =
      for_range_inv (IsBlanked t) blank_column 0 80 (λ i s _ l p. blank_column-IsBlanked t i s l p)
        80 0 t (omega arith) refl
        (record {
          bytes = copy.bytes;
          blank = λ c l. absurd (omega arith);
          dashed = λ c l. absurd (omega arith);
          colors = λ c. refl;
          kept = λ x l. refl;
        }) in
    record {
      bytes = clear.bytes;
      moved = λ x l. ground (arith, clear.kept (0xb8000 + x), copy.moved x);
      blank = λ c l. ground (arith, clear.blank c);
      colors = λ c l. ground (arith, clear.colors c, copy.ahead (0xb8dc0 + c * 2 + 1));
      dashed = λ c l. ground (arith, clear.dashed c);
      outside = λ x l. ground (arith, clear.kept x, copy.ahead x);
    }
