-- ===== src/Digits/Examples.antt =====
-- Digits on concrete words.
use open_ferain_os.Base.{◌≢◌, ◌<◌, ◌≡◌, refl, arith, some, codes, ◌++◌, get_or, replicate}
use open_ferain_os.Digits.{
  rotr, char_to_hex, dec_digit, count_digits, put_digits, pow_rounds, pow, abs,
}
use open_ferain_os.Digits.Decimal.{read_decimal, read_decimal-dec_digit}

digit_runs :
    (rotr 0x80000001 4 ≡ 0x18000000)
    × (char_to_hex b'f' ≡ 15)
    × (char_to_hex b'g' ≡ 0x1000)
    × (dec_digit 4294967295 ≡ codes "4294967295" ++ replicate 2 0)
    × (pow 3 4 ≡ 81)
    × (pow 3 0 ≡ 3)
    × (pow 3 0xffffffff ≡ 3)
    × (abs 0xfffffffb ≡ 5)
unfolding rotr char_to_hex dec_digit count_digits put_digits pow_rounds pow abs
digit_runs = (refl, refl, refl, refl, refl, refl, refl, refl)

read_decimal-dec_digit_example :
    (read_decimal 0 (dec_digit 1024) ≡ some 1024) × (0 < 1024 → 48 < get_or (dec_digit 1024) 0 0)
read_decimal-dec_digit_example = read_decimal-dec_digit 1024 (omega arith)

letter_read : char_to_hex b'C' ≢ 0x1000
unfolding char_to_hex
letter_read = λ e. absurd (omega arith)
