-- ===== src/Bits.antt =====
-- The operators `&`, `|` and `^` of C at variables, as arithmetic, at every width: `|` into an empty
-- field is a sum, `&` with adjacent ones cuts a field out, and `^` adds digits without carry.
mod Digit
mod Split
use Prim.Native.Nat.{min, max}
use native.Mathlib.Nat.{one-le-pow, div-add-mod', mod-lt, pow-suc, pow-succ', div-div-eq-div-mul}
use open_ferain_os.Base.{
  ℕ, zero, suc, ◌+◌, ◌-◌, ◌*◌, ◌/◌, ◌%◌, ◌^◌, ◌≤◌, ◌<◌, bit_and, bit_or, bit_xor, ◌≡◌, refl, ap,
  arith,
}
use Digit.{bit_or_digit, bit_and_digit, bit_xor_digit}
use Split.{mul-two-pow, op_split, op-zero_keeps, op-zero_clears, op_comm, op_below}

pub bit_or-zero : (a : ℕ) → bit_or a 0 ≡ a
bit_or-zero a = op-zero_keeps bit_or max refl bit_or_digit (λ x h. omega arith) a a (omega arith)

pub bit_and-zero : (a : ℕ) → bit_and a 0 ≡ 0
bit_and-zero a =
    op-zero_clears bit_and min refl bit_and_digit (λ x h. omega arith) a a (omega arith)

pub bit_or_comm : (a b : ℕ) → bit_or a b ≡ bit_or b a
bit_or_comm a b =
    op_comm bit_or max refl bit_or_digit (λ x y. omega arith) (a + b) a b (omega arith)

pub bit_and_comm : (a b : ℕ) → bit_and a b ≡ bit_and b a
bit_and_comm a b =
    op_comm bit_and min refl bit_and_digit (λ x y. omega arith) (a + b) a b (omega arith)

pub bit_or-lt : (k a b : ℕ) → a < 2 ^ k → b < 2 ^ k → bit_or a b < 2 ^ k
bit_or-lt k a b = op_below bit_or max refl bit_or_digit (λ x y p q. omega arith) k a b

pub bit_xor-lt : (k a b : ℕ) → a < 2 ^ k → b < 2 ^ k → bit_xor a b < 2 ^ k
bit_xor-lt k a b =
    op_below bit_xor (λ x y. (x + y) % 2) refl bit_xor_digit (λ x y p q. omega arith) k a b

-- `(q << k) | r` is a sum when `r` fits `k` bits.
pub bit_or_low : (k q r : ℕ) → r < 2 ^ k → bit_or (q * 2 ^ k) r ≡ q * 2 ^ k + r
bit_or_low k q r h = ground (
  arith,
  op_split bit_or max refl bit_or_digit k q 0 0 r (one-le-pow k 2 (omega arith)) h,
  bit_or-zero q,
  bit_or-zero r,
  bit_or_comm 0 r,
)

bit_or_at : (k q m r : ℕ) → r < 2 ^ k → bit_or (q * 2 ^ k + r) (m * 2 ^ k) ≡ bit_or q m * 2 ^ k + r
bit_or_at k q m r h = ground (
  arith,
  op_split bit_or max refl bit_or_digit k q m r 0 h (one-le-pow k 2 (omega arith)),
  bit_or-zero r,
)

bit_or_onto : (j q m : ℕ) → q % 2 ^ j ≡ 0 → m < 2 ^ j → bit_or q m ≡ q + m
bit_or_onto j q m e h = ground (arith, div-add-mod' q (2 ^ j), bit_or_low j (q / 2 ^ j) m h)

-- A value of `j` bits put into a field at bit `k` that is empty in `a`.
pub bit_or_insert :
    (k j a m : ℕ) → a / 2 ^ k % 2 ^ j ≡ 0 → m < 2 ^ j → bit_or a (m * 2 ^ k) ≡ a + m * 2 ^ k
bit_or_insert k j a m e h =
    rw
      (
        ← div-add-mod' a (2 ^ k),
        bit_or_at k (a / 2 ^ k) m (a % 2 ^ k) (mod-lt a (one-le-pow k 2 (omega arith))),
        bit_or_onto j (a / 2 ^ k) m e h,
      )
      (omega arith)

bit_and_ones : (k r : ℕ) → r < 2 ^ k → bit_and r (2 ^ k - 1) ≡ r
bit_and_ones zero zero h = refl
bit_and_ones zero (suc r) h = absurd (omega arith)
bit_and_ones (suc k) r h = ground (
  arith,
  one-le-pow k 2,
  pow-suc 2 k,
  bit_and_digit r (2 ^ suc k - 1),
  bit_and_ones k (r / 2) (omega (arith, pow-suc 2 k)),
)

-- A mask of `k` low ones is the remainder.
pub bit_and_mask : (k a : ℕ) → bit_and a (2 ^ k - 1) ≡ a % 2 ^ k
bit_and_mask k a = ground (
  arith,
  one-le-pow k 2,
  div-add-mod' a (2 ^ k),
  mod-lt a (one-le-pow k 2 (omega arith)),
  op_split bit_and min refl bit_and_digit k (a / 2 ^ k) 0 (a % 2 ^ k) (2 ^ k - 1),
  bit_and-zero (a / 2 ^ k),
  bit_and_ones k (a % 2 ^ k),
)

-- A mask of `j` ones from bit `k` up cuts that field out, in its place.
pub bit_and_field : (k j a : ℕ) → bit_and a ((2 ^ j - 1) * 2 ^ k) ≡ a / 2 ^ k % 2 ^ j * 2 ^ k
bit_and_field k j a = ground (
  arith,
  div-add-mod' a (2 ^ k),
  op_split bit_and min refl bit_and_digit k (a / 2 ^ k) (2 ^ j - 1) (a % 2 ^ k) 0
      (mod-lt a (one-le-pow k 2 (omega arith))) (one-le-pow k 2 (omega arith)),
  bit_and-zero (a % 2 ^ k),
  bit_and_mask j (a / 2 ^ k),
)

-- Bit `n` of a number.
abbrev pub bit : ℕ → ℕ → ℕ
bit n a = a / 2 ^ n % 2

pub bit-half : (n a : ℕ) → bit (suc n) a ≡ bit n (a / 2)
bit-half n a = rw (pow-succ' 2 n, ← div-div-eq-div-mul a 2 (2 ^ n))

pub bit-bit_xor : (n a b : ℕ) → bit n (bit_xor a b) ≡ (bit n a + bit n b) % 2
bit-bit_xor zero a b = omega (arith, bit_xor_digit a b)
bit-bit_xor (suc n) a b = ground (
  arith,
  bit-half n a,
  bit-half n b,
  bit-half n (bit_xor a b),
  bit_xor_digit a b,
  bit-bit_xor n (a / 2) (b / 2),
)

pub bit-bit_or : (n a b : ℕ) → bit n (bit_or a b) ≡ max (bit n a) (bit n b)
bit-bit_or zero a b = omega (arith, bit_or_digit a b)
bit-bit_or (suc n) a b = ground (
  arith,
  bit-half n a,
  bit-half n b,
  bit-half n (bit_or a b),
  bit_or_digit a b,
  bit-bit_or n (a / 2) (b / 2),
)

pub bit-bit_and : (n a b : ℕ) → bit n (bit_and a b) ≡ min (bit n a) (bit n b)
bit-bit_and zero a b = omega (arith, bit_and_digit a b)
bit-bit_and (suc n) a b = ground (
  arith,
  bit-half n a,
  bit-half n b,
  bit-half n (bit_and a b),
  bit_and_digit a b,
  bit-bit_and n (a / 2) (b / 2),
)
