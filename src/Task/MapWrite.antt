-- ===== src/Task/MapWrite.antt =====
-- `task_num_write` and `mem_map_write` flip one flag.
use native.Mathlib.Nat.{pow-suc, pow-le-pow_right, zero-div}
use open_ferain_os.Base.{
  ℕ, zero, suc, ◌+◌, ◌-◌, ◌*◌, ◌/◌, ◌%◌, ◌^◌, ◌<◌, ◌≡◌, ◌≢◌, arith, refl, bit_xor, ◌==◌,
  if◌then◌else◌, ◌<<<◌,
}
use open_ferain_os.Bits.{bit, bit-half, bit-bit_xor, bit_xor-lt}
use open_ferain_os.Memory.{Memory, IsBytes, store8, store8-IsBytes}
use open_ferain_os.Task.Map.{map_write, flag}

-- A power of two has one bit set.
bit-two-pow : (n k : ℕ) → bit n (2 ^ k) ≡ (if n == k then 1 else 0)
bit-two-pow zero zero = refl
bit-two-pow zero (suc k) = ground (arith, pow-suc 2 k)
bit-two-pow (suc n) zero = ground (arith, bit-half n 1, zero-div (2 ^ n))
bit-two-pow (suc n) (suc k) = ground (arith, bit-half n (2 ^ suc k), pow-suc 2 k, bit-two-pow n k)

two-pow-lt : (n : ℕ) → n < 8 → 2 ^ n < 256
two-pow-lt n h = omega (arith, pow-le-pow_right {n = 2} (omega arith) {i = n} {j = 7} (omega arith))

-- The byte that is stored.
flipped : (i byte : ℕ) → byte < 256 → bit_xor (1 <<< (i % 8)) byte < 256
flipped i byte h =
    bit_xor-lt 8 (1 * 2 ^ (i % 8)) byte (omega (arith, two-pow-lt (i % 8) (omega arith))) h

bit-flipped :
    (n i byte : ℕ)
    → bit n (bit_xor (1 <<< (i % 8)) byte) ≡ (if n == i % 8 then 1 - bit n byte else bit n byte)
bit-flipped n i byte = ground (arith, bit-bit_xor n (1 * 2 ^ (i % 8)) byte, bit-two-pow n (i % 8))

module _ (base i : ℕ) (m : Memory) (h : IsBytes m) where
  pub map_write-IsBytes : IsBytes (map_write base i m)
  unfolding map_write
  map_write-IsBytes = store8-IsBytes m (base + i / 8) _ h

  -- Marking number `i` flips its flag, leaves the flag of every other number and every byte that
  -- does not hold the flag of `i`.
  pub map_write_flips :
      ((k : ℕ)
        → flag base (map_write base i m) k ≡ (if k == i then 1 - flag base m k else flag base m k))
      × ((x : ℕ) → x ≢ base + i / 8 → map_write base i m x ≡ m x)
  unfolding map_write store8
  map_write_flips = (
    λ k. ground (
      arith,
      flipped i (m (base + i / 8)) (h (base + i / 8)),
      bit-flipped (k % 8) i (m (base + i / 8)),
    ),
    λ x ne. ground arith,
  )
