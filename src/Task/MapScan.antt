-- ===== src/Task/MapScan.antt =====
-- `get_available_task_num` and `get_available_page` find the last free number of a map.
use native.Mathlib.Nat.{pow-suc}
use open_ferain_os.Base.{
  ℕ, Bool, true, false, zero, suc, ◌+◌, ◌*◌, ◌/◌, ◌%◌, ◌^◌, ◌<◌, ◌≡◌, ◌⊎◌, inl, inr, arith, refl,
  ap, ◌∙◌, bit_and, ◌==◌, if◌then◌else◌, ◌>>>◌, for_range_inv,
}
use open_ferain_os.Bits.{bit, bit-half, bit_and_mask}
use open_ferain_os.Memory.{Memory, IsBytes, load32}
use open_ferain_os.Task.Map.{scan_bit, scan_word, map_scan, flag, map_size, not_available}

mul-two-pow : (b k : ℕ) → b * 2 ^ suc k ≡ 2 * (b * 2 ^ k)
mul-two-pow b k = omega (arith, ap (λ (t : ℕ). b * t) (pow-suc 2 k))

-- A bit below `k` is a bit of the low part, one from `k` up a bit of the high part.
bit_low : (n k a b : ℕ) → n < k → bit n (a + b * 2 ^ k) ≡ bit n a
bit_low zero zero a b h = absurd (omega arith)
bit_low zero (suc k) a b h = omega (arith, mul-two-pow b k)
bit_low (suc n) zero a b h = absurd (omega arith)
bit_low (suc n) (suc k) a b h = ground (
  arith,
  bit-half n (a + b * 2 ^ suc k),
  bit-half n a,
  mul-two-pow b k,
  bit_low n k (a / 2) b (omega arith),
)

bit_high : (k n a b : ℕ) → a < 2 ^ k → bit (k + n) (a + b * 2 ^ k) ≡ bit n b
bit_high zero n a b h = ground arith
bit_high (suc k) n a b h =
    let e : suc k + n ≡ suc (k + n) = omega arith in
    ground (
      arith,
      bit-half (k + n) (a + b * 2 ^ suc k),
      mul-two-pow b k,
      bit_high k n (a / 2) b (omega (arith, pow-suc 2 k)),
    )

-- The bits of four bytes put together.
module _ (b0 b1 b2 b3 : ℕ) (h0 : b0 < 256) (h1 : b1 < 256) (h2 : b2 < 256) where
  abbrev four : ℕ
  four = b0 + (b1 + (b2 + b3 * 2 ^ 8) * 2 ^ 8) * 2 ^ 8

  bit_first : (r : ℕ) → r < 8 → bit r four ≡ bit r b0
  bit_first r h = bit_low r 8 b0 (b1 + (b2 + b3 * 2 ^ 8) * 2 ^ 8) h

  bit_second : (r : ℕ) → r < 8 → bit (8 + r) four ≡ bit r b1
  bit_second r h =
      bit_high 8 r b0 (b1 + (b2 + b3 * 2 ^ 8) * 2 ^ 8) h0 ∙ bit_low r 8 b1 (b2 + b3 * 2 ^ 8) h

  bit_third : (r : ℕ) → r < 8 → bit (8 + (8 + r)) four ≡ bit r b2
  bit_third r h =
      bit_high 8 (8 + r) b0 (b1 + (b2 + b3 * 2 ^ 8) * 2 ^ 8) h0
      ∙ bit_high 8 r b1 (b2 + b3 * 2 ^ 8) h1
      ∙ bit_low r 8 b2 b3 h

  bit_fourth : (r : ℕ) → bit (8 + (8 + (8 + r))) four ≡ bit r b3
  bit_fourth r =
      bit_high 8 (8 + (8 + r)) b0 (b1 + (b2 + b3 * 2 ^ 8) * 2 ^ 8) h0
      ∙ bit_high 8 (8 + r) b1 (b2 + b3 * 2 ^ 8) h1
      ∙ bit_high 8 r b2 b3 h2

-- A bit of a word read from memory is a bit of one of its four bytes.
bit-load32 :
    (m : Memory) (a j : ℕ) → IsBytes m → j < 32 → bit j (load32 m a) ≡ bit (j % 8) (m (a + j / 8))
unfolding load32
bit-load32 m a j h l =
    let b0 = m a in
    let b1 = m (a + 1) in
    let b2 = m (a + 2) in
    let b3 = m (a + 3) in
    let r = j % 8 in
    ground (
      arith,
      bit_first b0 b1 b2 b3 (h a) (h (a + 1)) (h (a + 2)) r (omega arith),
      bit_second b0 b1 b2 b3 (h a) (h (a + 1)) (h (a + 2)) r (omega arith),
      bit_third b0 b1 b2 b3 (h a) (h (a + 1)) (h (a + 2)) r (omega arith),
      bit_fourth b0 b1 b2 b3 (h a) (h (a + 1)) (h (a + 2)) r,
    )

-- Of the numbers below `n`, `r` is the last that is free, or all are used and `r` says so.
abbrev pub IsLastFree : ℕ → Memory → ℕ → ℕ → Type 0
IsLastFree base m n r =
    ((r ≡ not_available) × ((k : ℕ) → k < n → flag base m k ≡ 1))
    ⊎ ((r < n) × (flag base m r ≡ 0) × ((k : ℕ) → r < k → k < n → flag base m k ≡ 1))

-- One more number is looked at.
IsLastFree-step :
    (base : ℕ) (m : Memory) (n r : ℕ) (free : Bool)
    → flag base m n ≡ (if free then 0 else 1)
    → IsLastFree base m n r
    → IsLastFree base m (n + 1) (if free then n else r)
IsLastFree-step base m n r true e p = inr (omega arith, e, λ k a b. absurd (omega arith))
IsLastFree-step base m n r false e (inl (none, all)) = inl (none, λ k l. ground (arith, all k))
IsLastFree-step base m n r false e (inr (lt, zero_flag, all)) =
    inr (omega arith, zero_flag, λ k a b. ground (arith, all k))

module _ (base : ℕ) (m : Memory) (h : IsBytes m) where
  scan_bit-IsLastFree :
      (i j r : ℕ)
      → j < 32
      → IsLastFree base m (i * 32 + j) r
      → IsLastFree base m (i * 32 + (j + 1)) (scan_bit (load32 m (base + i * 4)) i j r)
  unfolding scan_bit
  scan_bit-IsLastFree i j r l p =
      let w = load32 m (base + i * 4) in
      let e : i * 32 + (j + 1) ≡ i * 32 + j + 1 = omega arith in
      let f : flag base m (i * 32 + j) ≡ (if bit_and (w >>> j) 1 == 0 then 0 else 1) =
        ground (arith, bit-load32 m (base + i * 4) j h l, bit_and_mask 1 (w / 2 ^ j)) in
      rw e (IsLastFree-step base m (i * 32 + j) r (bit_and (w >>> j) 1 == 0) f p)

  scan_word-IsLastFree :
      (i r : ℕ)
      → IsLastFree base m (i * 32) r
      → IsLastFree base m ((i + 1) * 32) (scan_word base m i r)
  unfolding scan_word
  scan_word-IsLastFree i r p =
      let e : (i + 1) * 32 ≡ i * 32 + 32 = omega arith in
      let start : i * 32 + 0 ≡ i * 32 = omega arith in
      rw e (
        for_range_inv (λ j s. IsLastFree base m (i * 32 + j) s)
          (scan_bit (load32 m (base + i * 4)) i) 0 32 (λ j s _ l q. scan_bit-IsLastFree i j s l q)
          32 0 r (omega arith) refl (rw start p))

  -- The search of a map of bytes finds the last of its 1048576 numbers that is free, and answers
  -- 0xffffffff exactly when all of them are used.
  pub map_scan-IsLastFree : IsLastFree base m map_size (map_scan base m)
  unfolding map_scan
  map_scan-IsLastFree =
      for_range_inv (λ i s. IsLastFree base m (i * 32) s) (scan_word base m) 0 32768
        (λ i s _ _ q. scan_word-IsLastFree i s q) 32768 0 not_available (omega arith) refl
        (inl (refl, λ k l. absurd (omega arith)))
