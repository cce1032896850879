-- ===== src/Sha/Text.antt =====
-- The printed text of the hash: the hexadecimal digits of its words, the highest first.
use native.Mathlib.Nat.{mod-lt}
use open_ferain_os.Base.{
  ℕ, zero, suc, ◌+◌, ◌-◌, ◌*◌, ◌/◌, ◌%◌, ◌^◌, ◌≤◌, ◌<◌, ◌≡◌, refl, ap, ◌∙◌, sym, arith, List, [],
  ◌∷◌, length, get_or, set, ltb, ◌==◌, if◌then◌else◌, for_range, for_range_inv, length-set,
  get_or-set, get_or-set_ne, bit_and, u8, ◌>>>◌,
}
use open_ferain_os.Bits.{bit_and_mask}
use open_ferain_os.Digits.{hex_to_char}
use open_ferain_os.Sha.{split_byte, print_hex, c_string}

-- Hexadecimal digit `j` of a list of 32-bit words.
abbrev pub hash_digit : List ℕ → ℕ → ℕ
hash_digit hash j = get_or hash (j / 8) 0 / 16 ^ (7 - j % 8) % 16

-- The values of a function from `i` on.
abbrev pub tabulate : ℕ → ℕ → (ℕ → ℕ) → List ℕ
tabulate zero i f = []
tabulate (suc n) i f = f i ∷ tabulate n (i + 1) f

-- The lower-case text of eight words.
unfoldable pub hash_text : List ℕ → List ℕ
unfolding hex_to_char
hash_text hash = tabulate 64 0 (λ j. hex_to_char (hash_digit hash j))

upper_digit : (x r : ℕ) → r < 4 → u8 (x >>> (24 - 8 * r)) >>> 4 ≡ x / 16 ^ (7 - 2 * r) % 16
upper_digit x zero h = omega arith
upper_digit x (suc zero) h = omega arith
upper_digit x (suc (suc zero)) h = omega arith
upper_digit x (suc (suc (suc zero))) h = omega arith
upper_digit x (suc (suc (suc (suc r)))) h = absurd (omega arith)

lower_digit :
    (x r : ℕ) → r < 4 → bit_and (u8 (x >>> (24 - 8 * r))) 0x0f ≡ x / 16 ^ (7 - (2 * r + 1)) % 16
lower_digit x zero h = omega (arith, bit_and_mask 4 (u8 (x >>> 24)))
lower_digit x (suc zero) h = omega (arith, bit_and_mask 4 (u8 (x >>> 16)))
lower_digit x (suc (suc zero)) h = omega (arith, bit_and_mask 4 (u8 (x >>> 8)))
lower_digit x (suc (suc (suc zero))) h = omega (arith, bit_and_mask 4 (u8 (x >>> 0)))
lower_digit x (suc (suc (suc (suc r)))) h = absurd (omega arith)

digit_at :
    (hash : List ℕ) (j q r : ℕ)
    → j / 8 ≡ q
    → j % 8 ≡ r
    → hash_digit hash j ≡ get_or hash q 0 / 16 ^ (7 - r) % 16
digit_at hash j q r eq er =
    ap (λ (t : ℕ). get_or hash t 0 / 16 ^ (7 - j % 8) % 16) eq
    ∙ ap (λ (t : ℕ). get_or hash q 0 / 16 ^ (7 - t) % 16) er

split_byte-digit :
    (hash hash8 : List ℕ) (i j : ℕ)
    → i < 32
    → length hash8 ≡ 65
    → get_or (split_byte hash i hash8) j 0 ≡ (
        if j == 2 * i
        then hash_digit hash j
        else if j == 2 * i + 1
        then hash_digit hash j
        else get_or hash8 j 0)
unfolding split_byte
split_byte-digit hash hash8 i j h len =
    let x = get_or hash (i / 4) 0 in
    let byte = u8 (x >>> (24 - 8 * (i % 4))) in
    let first = set hash8 (i * 2) (byte >>> 4) in
    ground (
      arith,
      get_or-set hash8 (i * 2) j (byte >>> 4),
      get_or-set first (i * 2 + 1) j (bit_and byte 0x0f),
      length-set hash8 (i * 2) (byte >>> 4),
      len,
      upper_digit x (i % 4),
      lower_digit x (i % 4),
      digit_at hash j (i / 4) (2 * (i % 4)),
      digit_at hash j (i / 4) (2 * (i % 4) + 1),
    )

hex_char-small : (d : ℕ) → d < 16 → (u8 (hex_to_char d) ≡ hex_to_char d) × (0 < hex_to_char d)
unfolding hex_to_char
hex_char-small d h = ground arith

-- The string in an array is what stands before its first zero.
c_string-tabulate :
    (n : ℕ) (xs : List ℕ) (i : ℕ) (f : ℕ → ℕ)
    → n < length xs
    → ((j : ℕ) → j < n → (get_or xs j 0 ≡ f (i + j)) × (0 < f (i + j)))
    → get_or xs n 0 ≡ 0
    → c_string xs ≡ tabulate n i f
c_string-tabulate n [] i f long same end = absurd (omega arith)
c_string-tabulate zero (x ∷ xs) i f long same end = ground arith
c_string-tabulate (suc n) (x ∷ xs) i f long same end =
    let ih =
      c_string-tabulate n xs (i + 1) f (omega arith)
        (λ j h.
          let shift : f (i + suc j) ≡ f (i + 1 + j) =
            ap f {x = i + suc j} {y = i + 1 + j} (omega arith) in
          let (at, pos) = same (suc j) (omega arith) in (at ∙ shift, omega (arith, shift, pos)))
        end in
    let (head, pos) = same 0 (omega arith) in
    let first : f (i + 0) ≡ f i = ap f {x = i + 0} {y = i} (omega arith) in
    ground (arith, ih, head, pos, first)

split_byte-length : (hash hash8 : List ℕ) (i : ℕ) → length (split_byte hash i hash8) ≡ length hash8
unfolding split_byte
split_byte-length hash hash8 i = length-set _ (i * 2 + 1) _ ∙ length-set hash8 (i * 2) _

-- The first loop leaves the digits of the words.
split_bytes :
    (hash hash8 : List ℕ)
    → length hash8 ≡ 65
    → let ys = for_range 32 0 (split_byte hash) hash8 in
      (length ys ≡ 65) × ((j : ℕ) → j < 64 → get_or ys j 0 ≡ hash_digit hash j)
split_bytes hash hash8 len =
    for_range_inv
      (λ k ys. (length ys ≡ 65) × ((j : ℕ) → j < 2 * k → get_or ys j 0 ≡ hash_digit hash j))
      (split_byte hash) 0 32
      (λ k ys low below (len, now). (
        split_byte-length hash ys k ∙ len,
        λ j h. ground (arith, split_byte-digit hash ys k j below len, now j),
      ))
      32 0 hash8 (omega arith) (omega arith) (len, λ j h. absurd (omega arith))

-- A loop that changes each of the first `n` entries.
map_entries :
    (n : ℕ) (g : ℕ → ℕ) (xs : List ℕ)
    → n ≤ length xs
    → let ys = for_range n 0 (λ i zs. set zs i (g (get_or zs i 0))) xs in
      (length ys ≡ length xs)
      × ((j : ℕ) → get_or ys j 0 ≡ (if ltb j n then g (get_or xs j 0) else get_or xs j 0))
map_entries n g xs fits =
    for_range_inv
      (λ k ys.
        (length ys ≡ length xs)
        × ((j : ℕ) → get_or ys j 0 ≡ (if ltb j k then g (get_or xs j 0) else get_or xs j 0)))
      (λ i zs. set zs i (g (get_or zs i 0))) 0 n
      (λ k ys low below (len, now). (
        length-set ys k _ ∙ len,
        λ j.
            let own : get_or ys k 0 ≡ get_or xs k 0 = ground (arith, now k) in
            let value : g (get_or ys k 0) ≡ g (get_or xs k 0) = ap g own in
            let same : j ≡ k → g (get_or xs j 0) ≡ g (get_or xs k 0) =
              λ e. ap (λ (t : ℕ). g (get_or xs t 0)) e in
            ground (arith, get_or-set ys k j (g (get_or ys k 0)), now j, len, value, same),
      ))
      n 0 xs (omega arith) (omega arith) (refl, λ j. ground arith)

within : (j n x y : ℕ) → j < n → (if ltb j n then x else y) ≡ x
within j n x y h = ground arith

-- The array's 64 first bytes become the text, whatever they were, and the last one the closing NUL.
pub print_hex-hash_text :
    (hash hash8 : List ℕ) → length hash8 ≡ 65 → c_string (print_hex hash hash8) ≡ hash_text hash
unfolding print_hex hash_text
print_hex-hash_text hash hash8 len =
    let digits = for_range 32 0 (split_byte hash) hash8 in
    let (len1, at1) = split_bytes hash hash8 len in
    let chars = for_range 64 0 (λ i ys. set ys i (u8 (hex_to_char (get_or ys i 0)))) digits in
    let (len2, at2) = map_entries 64 (λ d. u8 (hex_to_char d)) digits (omega (arith, len1)) in
    c_string-tabulate 64 (set chars 64 0) 0 (λ j. hex_to_char (hash_digit hash j))
      (omega (arith, length-set chars 64 0, len1, len2))
      (λ j h.
        let d = hash_digit hash j in
        let (kept, pos) = hex_char-small d (mod-lt _ (omega arith)) in
        let start : hex_to_char (hash_digit hash (0 + j)) ≡ hex_to_char d =
          ap (λ (t : ℕ). hex_to_char (hash_digit hash t)) {x = 0 + j} {y = j} (omega arith) in
        (
          get_or-set_ne chars 64 j 0 0 (λ e. absurd (omega arith))
              ∙ at2 j
              ∙ within j 64 _ _ h
              ∙ ap (λ t. u8 (hex_to_char t)) (at1 j h)
              ∙ kept
              ∙ sym start,
          omega (arith, start, pos),
        ))
      (ground (arith, get_or-set chars 64 64 0, len1, len2))

pub print_hex-length :
    (hash hash8 : List ℕ) → length hash8 ≡ 65 → length (print_hex hash hash8) ≡ 65
unfolding print_hex
print_hex-length hash hash8 len =
    let digits = for_range 32 0 (split_byte hash) hash8 in
    let (len1, _) = split_bytes hash hash8 len in
    let (len2, _) = map_entries 64 (λ d. u8 (hex_to_char d)) digits (omega (arith, len1)) in
    length-set _ 64 0 ∙ len2 ∙ len1
