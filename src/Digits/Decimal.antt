-- ===== src/Digits/Decimal.antt =====
-- The decimal print of `dec_digit` read back.
use native.Mathlib.Nat.{pow-suc, eq-zero-or-pos}
use open_ferain_os.Base.{
  ℕ, zero, suc, ◌+◌, ◌-◌, ◌*◌, ◌/◌, ◌%◌, ◌^◌, ◌≤◌, ◌<◌, ◌≡◌, ◌⊎◌, inl, inr, refl, ap, ◌∙◌, arith,
  List, [], ◌∷◌, ◌++◌, ◌==◌, ◌&&◌, leb, if◌then◌else◌, u8, set, replicate, get_or, Option, none,
  some,
}
use open_ferain_os.Digits.{count_digits, put_digits, dec_digit}

-- A reader of decimal text up to the closing NUL, which refuses anything else.
abbrev pub read_decimal : ℕ → List ℕ → Option ℕ
read_decimal value [] = none
read_decimal value (c ∷ cs) =
    let rest = read_decimal (value * 10 + (c - 48)) cs in
    if c == 0 then some value else if leb 48 c && leb c 57 then rest else none

-- The number has this many decimal digits.
abbrev HasDigits : ℕ → ℕ → Type 0
HasDigits zero num = ⊥
HasDigits (suc i) num = ((num / 10 ≡ 0) × (i ≡ 0)) ⊎ ((0 < num / 10) × HasDigits i (num / 10))

abbrev digits : ℕ → ℕ → List ℕ → List ℕ
digits zero num rest = rest
digits (suc i) num rest = digits i (num / 10) ((num % 10 + 48) ∷ rest)

count_digits-HasDigits :
    (fuel num len : ℕ)
    → num < 10 ^ suc fuel
    → (i : ℕ) × (count_digits (suc fuel) num len ≡ len + i) × HasDigits i num × (i ≤ suc fuel)
unfolding count_digits
count_digits-HasDigits zero num len h = (1, ground arith, inl (omega arith, refl), omega arith)
count_digits-HasDigits (suc fuel) num len h =
    let ih =
      count_digits-HasDigits fuel (num / 10) (len + 1) (omega (arith, pow-suc 10 (suc fuel))) in
    elim (eq-zero-or-pos (num / 10)) [
      | inl z ↦ (1, ground arith, inl (z, refl), omega arith)
      | inr pos ↦ (suc ih.0, ground arith, inr (pos, ih.2), ground arith)
    ]

replicate-snoc : (i : ℕ) (rest : List ℕ) → replicate (suc i) 0 ++ rest ≡ replicate i 0 ++ (0 ∷ rest)
replicate-snoc zero rest = refl
replicate-snoc (suc i) rest = ap (λ t. 0 ∷ t) (replicate-snoc i rest)

set-replicate :
    (i v : ℕ) (rest : List ℕ) → set (replicate i 0 ++ (0 ∷ rest)) i v ≡ replicate i 0 ++ (v ∷ rest)
set-replicate zero v rest = refl
set-replicate (suc i) v rest = ap (λ t. 0 ∷ t) (set-replicate i v rest)

replicate-add : (i j : ℕ) → replicate {A = ℕ} (i + j) 0 ≡ replicate i 0 ++ replicate j 0
replicate-add zero j = ap (λ (n : ℕ). replicate {A = ℕ} n 0) {x = 0 + j} {y = j} (omega arith)
replicate-add (suc i) j =
    ap (λ (n : ℕ). replicate {A = ℕ} n 0) {x = suc i + j} {y = suc (i + j)} (omega arith)
    ∙ ap (λ t. 0 ∷ t) (replicate-add i j)

put_digits_lem :
    (i num : ℕ) (rest : List ℕ)
    → HasDigits i num
    → put_digits i num (replicate i 0 ++ rest) ≡ digits i num rest
unfolding put_digits
put_digits_lem zero num rest h = absurd h
put_digits_lem (suc zero) num rest (inl (z, one)) = ground arith
put_digits_lem (suc (suc i)) num rest (inl (z, one)) = absurd (omega arith)
put_digits_lem (suc i) num rest (inr (pos, more)) =
    let c = num % 10 + 48 in
    let small : u8 c ≡ c = omega arith in
    let stored : set (replicate (suc i) 0 ++ rest) i c ≡ replicate i 0 ++ (c ∷ rest) =
      ap (λ t. set t i c) (replicate-snoc i rest) ∙ set-replicate i c rest in
    ground (arith, small, stored, put_digits_lem i (num / 10) (c ∷ rest) more)

HasDigits-lt : (i num : ℕ) → HasDigits i num → num < 10 ^ i
HasDigits-lt zero num h = absurd h
HasDigits-lt (suc i) num h =
    ground (arith, HasDigits-lt i (num / 10), pow-suc 10 i, ap (λ (t : ℕ). 10 ^ t) {x = i} {y = 0})

read_decimal-digits :
    (i num value : ℕ) (rest : List ℕ)
    → num < 10 ^ i
    → read_decimal value (digits i num rest) ≡ read_decimal (value * 10 ^ i + num) rest
read_decimal-digits zero num value rest h =
    let e : value * 10 ^ 0 + num ≡ value = omega arith in rw e refl
read_decimal-digits (suc i) num value rest h =
    let ih =
      read_decimal-digits i (num / 10) value ((num % 10 + 48) ∷ rest)
        (omega (arith, pow-suc 10 i)) in
    let e : (value * 10 ^ i + num / 10) * 10 + (num % 10 + 48 - 48) ≡ value * 10 ^ suc i + num =
      omega (arith, ap (λ (t : ℕ). value * t) (pow-suc 10 i)) in
    ground (arith, ih, e)

digits-first :
    (i num : ℕ) (rest : List ℕ) → HasDigits i num → 0 < num → 48 < get_or (digits i num rest) 0 0
digits-first zero num rest h pos = absurd h
digits-first (suc zero) num rest h pos = ground arith
digits-first (suc (suc i)) num rest h pos =
    digits-first (suc i) (num / 10) ((num % 10 + 48) ∷ rest) (ground arith) (ground arith)

dec_digit-digits :
    (num : ℕ)
    → num < 2 ^ 32
    → (i : ℕ) × HasDigits i num × (dec_digit num ≡ digits i num (0 ∷ replicate (11 - i) 0))
unfolding dec_digit
dec_digit-digits num h =
    let (i, counted, has, few) = count_digits-HasDigits 9 num 0 (omega arith) in
    let split : replicate {A = ℕ} 12 0 ≡ replicate i 0 ++ (0 ∷ replicate (11 - i) 0) =
      ap (λ (n : ℕ). replicate {A = ℕ} n 0) {x = 12} {y = i + suc (11 - i)} (omega arith)
      ∙ replicate-add i (suc (11 - i)) in
    (
      i,
      has,
      ap (λ n. put_digits n num (replicate 12 0)) {x = count_digits 10 num 0} {y = i} (omega arith)
          ∙ ap (λ t. put_digits i num t) split
          ∙ put_digits_lem i num (0 ∷ replicate (11 - i) 0) has,
    )

-- The decimal text of a 32-bit number, closed by NUL, reads back as the number, and has no leading
-- zero unless the number is 0.
pub read_decimal-dec_digit :
    (num : ℕ)
    → num < 2 ^ 32
    → (read_decimal 0 (dec_digit num) ≡ some num) × (0 < num → 48 < get_or (dec_digit num) 0 0)
read_decimal-dec_digit num h =
    let (i, has, e) = dec_digit-digits num h in
    let rest : List ℕ = 0 ∷ replicate (11 - i) 0 in
    let value : 0 * 10 ^ i + num ≡ num = omega arith in
    rw e (
      read_decimal-digits i num 0 rest (HasDigits-lt i num has) ∙ ap some value,
      λ pos. digits-first i num rest has pos,
    )
