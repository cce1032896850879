-- ===== src/Digits/Rotate.antt =====
-- `rotr` is the rotation of a 32-bit word.
use native.Mathlib.Nat.{
  one-le-pow, mod-lt, div-add-mod', pow-suc, add-mul-mod_self_right, mod-eq_of_lt,
  div-lt_iff_lt-mul, mul-lt-mul_of_pos_right,
}
use open_ferain_os.Base.{
  ℕ, zero, suc, ◌+◌, ◌-◌, ◌*◌, ◌/◌, ◌%◌, ◌^◌, ◌<◌, ◌≡◌, ap, sym, ◌∙◌, arith, bit_or, u32, ◌<<<◌,
}
use open_ferain_os.Bits.{bit_or_comm, bit_or_low}
use open_ferain_os.Digits.{rotr}

mul-mod-eq : (a b x : ℕ) → 0 < a → 0 < b → (x * b) % (a * b) ≡ x % a * b
mul-mod-eq a b x pos posb =
    let e : x * b ≡ x % a * b + x / a * (a * b) =
      omega (arith, ap (λ (t : ℕ). t * b) (div-add-mod' x a)) in
    let below : x % a * b < a * b = mul-lt-mul_of_pos_right (mod-lt x pos) posb in
    rw e (add-mul-mod_self_right (x % a * b) (x / a) (a * b) ∙ mod-eq_of_lt below)

pow-add : (a b : ℕ) → 2 ^ (a + b) ≡ 2 ^ a * 2 ^ b
pow-add zero b = ground arith
pow-add (suc a) b =
    let e : suc a + b ≡ suc (a + b) = omega arith in
    rw e (
      omega (
        arith,
        pow-suc 2 a,
        pow-suc 2 (a + b),
        pow-add a b,
        ap (λ (t : ℕ). t * 2 ^ b) (pow-suc 2 a),
      ))

-- For a distance of 1 to 31, `rotr` moves the upper part of a 32-bit word down and puts the lowest
-- bits on top.
pub rotr_lem :
    (x n : ℕ) → 0 < n → n < 32 → x < 2 ^ 32 → rotr x n ≡ x % 2 ^ n * 2 ^ (32 - n) + x / 2 ^ n
unfolding rotr
rotr_lem x n pos h hx =
    let split : n + (32 - n) ≡ 32 = omega arith in
    let whole : 2 ^ n * 2 ^ (32 - n) ≡ 2 ^ 32 =
      sym (pow-add n (32 - n)) ∙ ap (λ (t : ℕ). 2 ^ t) split in
    let posn : 0 < 2 ^ n = one-le-pow n 2 (omega arith) in
    let posm : 0 < 2 ^ (32 - n) = one-le-pow (32 - n) 2 (omega arith) in
    let high : x / 2 ^ n < 2 ^ (32 - n) = (div-lt_iff_lt-mul posn).1 (omega arith) in
    let cut : u32 (x <<< (32 - n)) ≡ x % 2 ^ n * 2 ^ (32 - n) =
      ap (λ (t : ℕ). x * 2 ^ (32 - n) % t) (sym whole)
      ∙ mul-mod-eq (2 ^ n) (2 ^ (32 - n)) x posn posm in
    ap (λ (t : ℕ). bit_or (x / 2 ^ n) t) cut
    ∙ bit_or_comm (x / 2 ^ n) (x % 2 ^ n * 2 ^ (32 - n))
    ∙ bit_or_low (32 - n) (x % 2 ^ n) (x / 2 ^ n) high
