-- ===== src/Sha/Standard.antt =====
-- SHA-256 of FIPS 180-4 for a message that fits one block.
use open_ferain_os.Base.{
  ℕ, zero, suc, ◌+◌, ◌-◌, ◌*◌, ◌/◌, ◌%◌, ◌^◌, List, [], ◌∷◌, length, ◌==◌, ltb, if◌then◌else◌,
  bit_and, bit_xor, get_or,
}
use open_ferain_os.Sha.{words, initial_hash, Registers, initial_registers, round_constants}

-- The byte at a position of the padded message: the message, the byte 0x80, zeros, and the length in
-- bits as 64 bits with the highest byte first.
abbrev pub padded : List ℕ → ℕ → ℕ
padded s j =
    if ltb j (length s)
    then get_or s j 0
    else if j == length s
    then 0x80
    else if ltb j 56
    then 0
    else length s * 8 / 256 ^ (63 - j) % 256

abbrev pub message_word : List ℕ → ℕ → ℕ
message_word s t =
    padded s (4 * t) * 2 ^ 24
    + padded s (4 * t + 1) * 2 ^ 16
    + padded s (4 * t + 2) * 2 ^ 8
    + padded s (4 * t + 3)

-- ROTR of the standard.
abbrev pub rotate : ℕ → ℕ → ℕ
rotate n x = x % 2 ^ n * 2 ^ (32 - n) + x / 2 ^ n

abbrev pub small_sigma : ℕ → ℕ → ℕ → ℕ → ℕ
small_sigma i j k x = bit_xor (bit_xor (rotate i x) (rotate j x)) (x / 2 ^ k)

abbrev pub big_sigma : ℕ → ℕ → ℕ → ℕ → ℕ
big_sigma i j k x = bit_xor (bit_xor (rotate i x) (rotate j x)) (rotate k x)

-- The first `t` words of the message schedule, the last one first.
unfoldable pub schedule : List ℕ → ℕ → List ℕ
schedule s zero = []
schedule s (suc t) =
    let before = schedule s t in
    let next =
      (small_sigma 17 19 10 (get_or before 1 0)
        + get_or before 6 0
        + small_sigma 7 18 3 (get_or before 14 0)
        + get_or before 15 0)
      % 2 ^ 32 in
    (if ltb t 16 then message_word s t else next) ∷ before

abbrev pub round : ℕ → ℕ → Registers → Registers
round constant word r =
    let choose = bit_xor (bit_and r.e r.f) (bit_and (2 ^ 32 - 1 - r.e) r.g) in
    let majority = bit_xor (bit_xor (bit_and r.a r.b) (bit_and r.a r.c)) (bit_and r.b r.c) in
    let t1 = r.h + big_sigma 6 11 25 r.e + choose + constant + word in
    let t2 = big_sigma 2 13 22 r.a + majority in
    record {
      a = (t1 + t2) % 2 ^ 32;
      b = r.a;
      c = r.b;
      d = r.c;
      e = (r.d + t1) % 2 ^ 32;
      f = r.e;
      g = r.f;
      h = r.g;
    }

-- The working variables after `t` rounds.
unfoldable pub compress : List ℕ → ℕ → Registers
unfolding schedule
compress s zero = initial_registers
compress s (suc t) =
    round (get_or round_constants t 0) (get_or (schedule s (suc t)) 0 0) (compress s t)

-- Word by word modulo 2^32.
abbrev pub add_words : List ℕ → List ℕ → List ℕ
add_words (x ∷ xs) (y ∷ ys) = (x + y) % 2 ^ 32 ∷ add_words xs ys
add_words xs ys = []

-- The hash: the working variables after 64 rounds, each with its initial word added.
abbrev pub digest : List ℕ → List ℕ
digest s = add_words (words (compress s 64)) initial_hash
