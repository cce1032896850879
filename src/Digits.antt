-- ===== src/Digits.antt =====
-- Include/bit.h: rotation, hexadecimal digits and the decimal print; Include/math.h: power and
-- absolute value.
pub mod Rotate
pub mod Hex
pub mod Decimal
mod Examples
use open_ferain_os.Base.{
  ℕ, zero, suc, ◌+◌, ◌-◌, ◌*◌, ◌/◌, ◌%◌, ◌^◌, Bool, true, false, List, [], ◌∷◌, ◌==◌, ◌&&◌, leb,
  ltb, if◌then◌else◌, bit_or, u8, u32, not32, ◌<<<◌, ◌>>>◌, set, replicate,
}

unfoldable pub rotr : ℕ → ℕ → ℕ
rotr x n = bit_or (x >>> n) (u32 (x <<< (32 - n)))

-- A character is given as its byte: one from 128 on is negative in C, and is no digit either way.
unfoldable pub char_to_hex : ℕ → ℕ
char_to_hex ch =
    if leb b'0' ch && leb ch b'9'
    then ch - b'0'
    else if leb b'A' ch && leb ch b'F'
    then ch - b'A' + 10
    else if leb b'a' ch && leb ch b'f'
    then ch - b'a' + 10
    else 0x1000

unfoldable pub hex_to_char : ℕ → ℕ
hex_to_char hex =
    if leb 0 hex && leb hex 9
    then hex + 0x30
    else if leb 0xa hex && leb hex 0xf
    then hex + 0x57
    else 0xff3f

-- `while(1)` with the division, the count and the test, on fuel.
unfoldable pub count_digits : ℕ → ℕ → ℕ → ℕ
count_digits zero num1 len = len
count_digits (suc fuel) num1 len = elim (num1 / 10 == 0) [
  | true ↦ len + 1
  | false ↦ count_digits fuel (num1 / 10) (len + 1)
]

-- `for(int i = length;i > 0;i--)`, which leaves early when nothing is left of the number.
unfoldable pub put_digits : ℕ → ℕ → List ℕ → List ℕ
put_digits zero num s = s
put_digits (suc i) num s =
    let s' = set s i (u8 (num % 10 + 0x30)) in
    elim (num / 10 == 0) [ true ↦ s' | false ↦ put_digits i (num / 10) s' ]

-- The content of `num_string` afterwards. Ten rounds count the digits of a `uint32_t`.
unfoldable pub dec_digit : ℕ → List ℕ
unfolding count_digits put_digits
dec_digit num = put_digits (count_digits 10 num 0) num (replicate 12 0x00)

-- Include/math.h over the bit patterns of `int`: the loop, with the exponent left.
unfoldable pub pow_rounds : ℕ → ℕ → ℕ → ℕ
pow_rounds base num zero = num
pow_rounds base num (suc zero) = num
pow_rounds base num (suc (suc n)) = pow_rounds base (u32 (num * base)) (suc n)

-- A negative exponent is not above 1.
unfoldable pub pow : ℕ → ℕ → ℕ
unfolding pow_rounds
pow num exponent = if ltb exponent (2 ^ 31) then pow_rounds num num exponent else num

unfoldable pub abs : ℕ → ℕ
abs num = if ltb num (2 ^ 31) then num else u32 (not32 num + 1)
