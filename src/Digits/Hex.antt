-- ===== src/Digits/Hex.antt =====
-- Hexadecimal digits there and back.
use open_ferain_os.Base.{ℕ, ◌+◌, ◌<◌, ◌≡◌, ◌≢◌, ◌&&◌, leb, if◌then◌else◌, arith}
use open_ferain_os.Digits.{char_to_hex, hex_to_char}

-- Every hexadecimal digit is read back from its character, which is a byte.
pub char_to_hex-hex_to_char :
    (hex : ℕ) → hex < 16 → (char_to_hex (hex_to_char hex) ≡ hex) × (hex_to_char hex < 128)
unfolding char_to_hex hex_to_char
char_to_hex-hex_to_char hex h = ground arith

-- A character that is read as a digit is written back in lower case; no other value than 0x1000 and
-- those below 16 comes out of the reading.
pub hex_to_char-char_to_hex :
    (ch : ℕ)
    → char_to_hex ch ≢ 0x1000
    → (char_to_hex ch < 16)
      × (hex_to_char (char_to_hex ch) ≡ (if leb b'A' ch && leb ch b'F' then ch + 32 else ch))
unfolding char_to_hex hex_to_char
hex_to_char-char_to_hex ch h = ground arith
