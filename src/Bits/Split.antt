-- ===== src/Bits/Split.antt =====
-- An operator that works digit by digit, at every width: it works on the digits from `k` up and on
-- those below `k` apart, and what it does with a zero it does to each digit.
use native.Mathlib.Nat.{pow-suc}
use open_ferain_os.Base.{ℕ, zero, suc, ◌+◌, ◌*◌, ◌/◌, ◌%◌, ◌^◌, ◌≤◌, ◌<◌, ◌≡◌, refl, ap, arith}

pub mul-two-pow : (a k : ℕ) → a * 2 ^ suc k ≡ 2 * (a * 2 ^ k)
mul-two-pow a k = omega (arith, ap (λ (t : ℕ). a * t) (pow-suc 2 k))

module _ (op digit : ℕ → ℕ → ℕ) (zeros : op 0 0 ≡ 0)
    (step : (a b : ℕ) → op a b ≡ op (a / 2) (b / 2) * 2 + digit (a % 2) (b % 2)) where
  pub op_split :
      (k a b r s : ℕ)
      → r < 2 ^ k
      → s < 2 ^ k
      → op (a * 2 ^ k + r) (b * 2 ^ k + s) ≡ op a b * 2 ^ k + op r s
  op_split zero a b r s p q = ground arith
  op_split (suc k) a b r s p q = ground (
    arith,
    step (a * 2 ^ suc k + r) (b * 2 ^ suc k + s),
    step r s,
    mul-two-pow a k,
    mul-two-pow b k,
    mul-two-pow (op a b) k,
    op_split k a b (r / 2) (s / 2) (omega (arith, pow-suc 2 k)) (omega (arith, pow-suc 2 k)),
  )

  pub op-zero_keeps : ((x : ℕ) → x < 2 → digit x 0 ≡ x) → (n a : ℕ) → a ≤ n → op a 0 ≡ a
  op-zero_keeps h n zero l = zeros
  op-zero_keeps h zero (suc a) l = absurd (omega arith)
  op-zero_keeps h (suc n) (suc a) l =
      ground (arith, step (suc a) 0, h (suc a % 2), op-zero_keeps h n (suc a / 2) (omega arith))

  pub op-zero_clears : ((x : ℕ) → x < 2 → digit x 0 ≡ 0) → (n a : ℕ) → a ≤ n → op a 0 ≡ 0
  op-zero_clears h n zero l = zeros
  op-zero_clears h zero (suc a) l = absurd (omega arith)
  op-zero_clears h (suc n) (suc a) l =
      ground (arith, step (suc a) 0, h (suc a % 2), op-zero_clears h n (suc a / 2) (omega arith))

  pub op_comm : ((x y : ℕ) → digit x y ≡ digit y x) → (n a b : ℕ) → a + b ≤ n → op a b ≡ op b a
  op_comm h n zero zero l = refl
  op_comm h zero zero (suc b) l = absurd (omega arith)
  op_comm h zero (suc a) b l = absurd (omega arith)
  op_comm h (suc n) zero (suc b) l = ground (
    arith,
    step 0 (suc b),
    step (suc b) 0,
    h 0 (suc b % 2),
    op_comm h n 0 (suc b / 2) (omega arith),
  )
  op_comm h (suc n) (suc a) b l = ground (
    arith,
    step (suc a) b,
    step b (suc a),
    h (suc a % 2) (b % 2),
    op_comm h n (suc a / 2) (b / 2) (omega arith),
  )

  pub op_below :
      ((x y : ℕ) → x < 2 → y < 2 → digit x y < 2)
      → (k a b : ℕ) → a < 2 ^ k
      → b < 2 ^ k
      → op a b < 2 ^ k
  op_below h zero zero zero p q = omega (arith, zeros)
  op_below h zero zero (suc b) p q = absurd (omega arith)
  op_below h zero (suc a) b p q = absurd (omega arith)
  op_below h (suc k) a b p q = ground (
    arith,
    step a b,
    pow-suc 2 k,
    h (a % 2) (b % 2) (omega arith) (omega arith),
    op_below h k (a / 2) (b / 2) (omega (arith, pow-suc 2 k)) (omega (arith, pow-suc 2 k)),
  )
