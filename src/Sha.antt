-- ===== src/Sha.antt =====
-- Include/hash/sha2.h: the hash of a message of at most 55 bytes, in its static arrays. `Sha/Standard`
-- is the definition of the hash in FIPS 180-4.
pub mod Standard
pub mod Block
pub mod Rounds
pub mod Text
pub mod Laws
mod Examples
use open_ferain_os.Base.{
  ℕ, zero, suc, ◌+◌, ◌-◌, ◌*◌, ◌/◌, ◌%◌, ◌^◌, Bool, true, false, List, [], ◌∷◌, length, ◌==◌, leb,
  ltb, if◌then◌else◌, bit_and, bit_or, bit_xor, u8, u32, not32, ◌<<<◌, ◌>>>◌, set, get_or,
  for_range,
}
use open_ferain_os.Digits.{rotr, hex_to_char}
use open_ferain_os.Console.{System, printf}

abbrev pub initial_hash : List ℕ
initial_hash =
    0x6a09e667 ∷ 0xbb67ae85 ∷ 0x3c6ef372 ∷ 0xa54ff53a ∷ 0x510e527f ∷ 0x9b05688c ∷ 0x1f83d9ab
    ∷ 0x5be0cd19 ∷ []

abbrev pub round_constants : List ℕ
round_constants =
    0x428a2f98 ∷ 0x71374491 ∷ 0xb5c0fbcf ∷ 0xe9b5dba5 ∷ 0x3956c25b ∷ 0x59f111f1 ∷ 0x923f82a4
    ∷ 0xab1c5ed5 ∷ 0xd807aa98 ∷ 0x12835b01 ∷ 0x243185be ∷ 0x550c7dc3 ∷ 0x72be5d74 ∷ 0x80deb1fe
    ∷ 0x9bdc06a7 ∷ 0xc19bf174 ∷ 0xe49b69c1 ∷ 0xefbe4786 ∷ 0x0fc19dc6 ∷ 0x240ca1cc ∷ 0x2de92c6f
    ∷ 0x4a7484aa ∷ 0x5cb0a9dc ∷ 0x76f988da ∷ 0x983e5152 ∷ 0xa831c66d ∷ 0xb00327c8 ∷ 0xbf597fc7
    ∷ 0xc6e00bf3 ∷ 0xd5a79147 ∷ 0x06ca6351 ∷ 0x14292967 ∷ 0x27b70a85 ∷ 0x2e1b2138 ∷ 0x4d2c6dfc
    ∷ 0x53380d13 ∷ 0x650a7354 ∷ 0x766a0abb ∷ 0x81c2c92e ∷ 0x92722c85 ∷ 0xa2bfe8a1 ∷ 0xa81a664b
    ∷ 0xc24b8b70 ∷ 0xc76c51a3 ∷ 0xd192e819 ∷ 0xd6990624 ∷ 0xf40e3585 ∷ 0x106aa070 ∷ 0x19a4c116
    ∷ 0x1e376c08 ∷ 0x2748774c ∷ 0x34b0bcb5 ∷ 0x391c0cb3 ∷ 0x4ed8aa4a ∷ 0x5b9cca4f ∷ 0x682e6ff3
    ∷ 0x748f82ee ∷ 0x78a5636f ∷ 0x84c87814 ∷ 0x8cc70208 ∷ 0x90befffa ∷ 0xa4506ceb ∷ 0xbef9a3f7
    ∷ 0xc67178f2 ∷ []

-- The eight working variables.
pub record Registers : Type 0 where
  pub a : ℕ
  pub b : ℕ
  pub c : ℕ
  pub d : ℕ
  pub e : ℕ
  pub f : ℕ
  pub g : ℕ
  pub h : ℕ

-- The file's static variables.
pub record Sha : Type 0 where
  pub registers : Registers
  pub hash32 : List ℕ
  pub hash8 : List ℕ
  pub w : List ℕ
  pub raw_data : List ℕ

unfoldable pub sha256_ie : List ℕ → ℕ → ℕ
unfolding rotr
sha256_ie w i =
    let w2 = get_or w (i - 2) 0 in
    let w15 = get_or w (i - 15) 0 in
    let s1 = bit_xor (bit_xor (rotr w2 17) (rotr w2 19)) (w2 >>> 10) in
    let s0 = bit_xor (bit_xor (rotr w15 7) (rotr w15 18)) (w15 >>> 3) in
    u32 (s1 + get_or w (i - 7) 0 + s0 + get_or w (i - 16) 0)

unfoldable pub sha256_roc : List ℕ → ℕ → Registers → Registers
unfolding rotr
sha256_roc w i r =
    let s1 = bit_xor (bit_xor (rotr r.e 6) (rotr r.e 11)) (rotr r.e 25) in
    let ch = bit_xor (bit_and r.e r.f) (bit_and (not32 r.e) r.g) in
    let temp1 = u32 (r.h + s1 + ch + get_or round_constants i 0 + get_or w i 0) in
    let s2 = bit_xor (bit_xor (rotr r.a 2) (rotr r.a 13)) (rotr r.a 22) in
    let maj = bit_xor (bit_xor (bit_and r.a r.b) (bit_and r.a r.c)) (bit_and r.b r.c) in
    let temp2 = u32 (s2 + maj) in
    record {
      a = u32 (temp1 + temp2);
      b = r.a;
      c = r.b;
      d = r.c;
      e = u32 (r.d + temp1);
      f = r.e;
      g = r.f;
      h = r.g;
    }

-- `for(int i = 0; i < n; i++) xs[i] = 0;`
unfoldable pub clear : ℕ → List ℕ → List ℕ
clear n xs = for_range n 0 (λ i ys. set ys i 0) xs

-- The message, the bit behind it and its length in bits.
unfoldable pub load_block : List ℕ → List ℕ → List ℕ
load_block s raw_data =
    let len = length s in
    let raw_data = for_range len 0 (λ i ys. set ys i (get_or s i 0)) raw_data in
    let raw_data = set raw_data len 0x80 in
    let bit_len = len * 8 in
    let raw_data = set raw_data 56 (bit_and (bit_len >>> 56) 0xff) in
    let raw_data = set raw_data 57 (bit_and (bit_len >>> 48) 0xff) in
    let raw_data = set raw_data 58 (bit_and (bit_len >>> 40) 0xff) in
    let raw_data = set raw_data 59 (bit_and (bit_len >>> 32) 0xff) in
    let raw_data = set raw_data 60 (bit_and (bit_len >>> 24) 0xff) in
    let raw_data = set raw_data 61 (bit_and (bit_len >>> 16) 0xff) in
    let raw_data = set raw_data 62 (bit_and (bit_len >>> 8) 0xff) in
    set raw_data 63 (bit_and bit_len 0xff)

unfoldable pub raw_word : List ℕ → ℕ → ℕ
raw_word raw_data i =
    bit_or
      (bit_or
        (bit_or (u32 (get_or raw_data (i * 4 + 0) 0 <<< 24))
          (u32 (get_or raw_data (i * 4 + 1) 0 <<< 16)))
        (u32 (get_or raw_data (i * 4 + 2) 0 <<< 8)))
      (get_or raw_data (i * 4 + 3) 0)

-- The body of the loop over the 64 rounds.
unfoldable pub sha256_round : List ℕ → ℕ → List ℕ × Registers → List ℕ × Registers
unfolding raw_word sha256_ie sha256_roc
sha256_round raw_data i (w, r) =
    let w = set w i (if ltb i 16 then raw_word raw_data i else sha256_ie w i) in
    (w, sha256_roc w i r)

-- The eight sums at the end.
unfoldable pub add_initial : Registers → Registers
add_initial r = record {
  a = u32 (r.a + get_or initial_hash 0 0);
  b = u32 (r.b + get_or initial_hash 1 0);
  c = u32 (r.c + get_or initial_hash 2 0);
  d = u32 (r.d + get_or initial_hash 3 0);
  e = u32 (r.e + get_or initial_hash 4 0);
  f = u32 (r.f + get_or initial_hash 5 0);
  g = u32 (r.g + get_or initial_hash 6 0);
  h = u32 (r.h + get_or initial_hash 7 0);
}

abbrev pub initial_registers : Registers
initial_registers = record {
  a = get_or initial_hash 0 0;
  b = get_or initial_hash 1 0;
  c = get_or initial_hash 2 0;
  d = get_or initial_hash 3 0;
  e = get_or initial_hash 4 0;
  f = get_or initial_hash 5 0;
  g = get_or initial_hash 6 0;
  h = get_or initial_hash 7 0;
}

abbrev pub words : Registers → List ℕ
words r = r.a ∷ r.b ∷ r.c ∷ r.d ∷ r.e ∷ r.f ∷ r.g ∷ r.h ∷ []

-- The nibbles of a byte of the hash, the upper one first.
unfoldable pub split_byte : List ℕ → ℕ → List ℕ → List ℕ
split_byte hash32 i hash8 =
    let byte = u8 (get_or hash32 (i / 4) 0 >>> (24 - 8 * (i % 4))) in
    set (set hash8 (i * 2) (byte >>> 4)) (i * 2 + 1) (bit_and byte 0x0f)

unfoldable pub print_hex : List ℕ → List ℕ → List ℕ
unfolding split_byte hex_to_char
print_hex hash32 hash8 =
    let hash8 = for_range 32 0 (split_byte hash32) hash8 in
    let hash8 = for_range 64 0 (λ i ys. set ys i (u8 (hex_to_char (get_or ys i 0)))) hash8 in
    set hash8 64 0x00

-- `sha256` up to its call of printf, on the bytes of the string without the closing NUL. A message
-- of 56 bytes or more is left out of the sum.
unfoldable pub sha256_arrays : List ℕ → Sha → Sha
unfolding clear load_block sha256_round add_initial print_hex
sha256_arrays s t =
    let raw_data = clear 64 t.raw_data in
    let w = clear 64 t.w in
    let hash8 = clear 64 t.hash8 in
    let short = leb (length s) 55 in
    let raw_data = if short then load_block s raw_data else raw_data in
    let (w, r) =
      if short
      then for_range 64 0 (sha256_round raw_data) (w, initial_registers)
      else (w, initial_registers) in
    let r = add_initial r in
    record {
      registers = r;
      hash32 = words r;
      hash8 = print_hex (words r) hash8;
      w = w;
      raw_data = raw_data;
    }

-- What a `char` array holds up to its first NUL.
abbrev pub c_string : List ℕ → List ℕ
c_string [] = []
c_string (x ∷ xs) = let rest = c_string xs in if x == 0 then [] else x ∷ rest

unfoldable pub sha256 : List ℕ → Sha × System → Sha × System
unfolding sha256_arrays
sha256 s (t, system) = let t = sha256_arrays s t in (t, printf (c_string t.hash8) system)
