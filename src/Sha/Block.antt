-- ===== src/Sha/Block.antt =====
-- The arrays that the loops fill, and the block that a short message is loaded into.
use open_ferain_os.Base.{
  ℕ, ◌+◌, ◌-◌, ◌*◌, ◌/◌, ◌%◌, ◌^◌, ◌≤◌, ◌<◌, ◌≡◌, refl, ap, ◌∙◌, arith, List, length, get_or, set,
  ltb, ◌==◌, if◌then◌else◌, for_range, for_range_inv, length-set, get_or-set, get_or-lt, IsByteList,
  bit_or, bit_and, u32, ◌>>>◌, ◌<<<◌,
}
use open_ferain_os.Bits.{bit_or_low, bit_and_mask}
use open_ferain_os.Sha.{clear, load_block, raw_word}
use open_ferain_os.Sha.Standard.{padded, message_word}

-- A loop that writes a value of its counter to each of the first `n` entries.
pub fill :
    (n : ℕ) (f : ℕ → ℕ) (xs : List ℕ)
    → n ≤ length xs
    → let ys = for_range n 0 (λ i zs. set zs i (f i)) xs in
      (length ys ≡ length xs) × ((j : ℕ) → get_or ys j 0 ≡ (if ltb j n then f j else get_or xs j 0))
fill n f xs fits =
    for_range_inv
      (λ k ys.
        (length ys ≡ length xs)
        × ((j : ℕ) → get_or ys j 0 ≡ (if ltb j k then f j else get_or xs j 0)))
      (λ i zs. set zs i (f i)) 0 n
      (λ k ys low below (len, now).
        (length-set ys k (f k) ∙ len, λ j. ground (arith, get_or-set ys k j (f k), now j, len)))
      n 0 xs (omega arith) (omega arith) (refl, λ j. ground arith)

pub clear-zero :
    (n : ℕ) (xs : List ℕ)
    → n ≤ length xs
    → (length (clear n xs) ≡ length xs) × ((j : ℕ) → j < n → get_or (clear n xs) j 0 ≡ 0)
unfolding clear
clear-zero n xs fits = let (len, at) = fill n (λ i. 0) xs fits in (len, λ j h. ground (arith, at j))

-- The eight stores of the length.
length_bytes :
    (ys : List ℕ) (v0 v1 v2 v3 v4 v5 v6 v7 j : ℕ)
    → length ys ≡ 64
    → get_or
        (set
          (set (set (set (set (set (set (set ys 56 v0) 57 v1) 58 v2) 59 v3) 60 v4) 61 v5) 62 v6)
          63
          v7)
        j
        0
      ≡ (if j == 63
          then v7
          else if j == 62
          then v6
          else if j == 61
          then v5
          else if j == 60
          then v4
          else if j == 59
          then v3
          else if j == 58
          then v2
          else if j == 57
          then v1
          else if j == 56
          then v0
          else get_or ys j 0)
length_bytes ys v0 v1 v2 v3 v4 v5 v6 v7 j len =
    let y0 = set ys 56 v0 in
    let l0 : length y0 ≡ 64 = length-set ys 56 v0 ∙ len in
    let y1 = set y0 57 v1 in
    let l1 : length y1 ≡ 64 = length-set y0 57 v1 ∙ l0 in
    let y2 = set y1 58 v2 in
    let l2 : length y2 ≡ 64 = length-set y1 58 v2 ∙ l1 in
    let y3 = set y2 59 v3 in
    let l3 : length y3 ≡ 64 = length-set y2 59 v3 ∙ l2 in
    let y4 = set y3 60 v4 in
    let l4 : length y4 ≡ 64 = length-set y3 60 v4 ∙ l3 in
    let y5 = set y4 61 v5 in
    let l5 : length y5 ≡ 64 = length-set y4 61 v5 ∙ l4 in
    let y6 = set y5 62 v6 in
    let l6 : length y6 ≡ 64 = length-set y5 62 v6 ∙ l5 in
    let y7 = set y6 63 v7 in
    let l7 : length y7 ≡ 64 = length-set y6 63 v7 ∙ l6 in
    ground (
      arith,
      get_or-set ys 56 j v0 (omega arith),
      get_or-set y0 57 j v1 (omega arith),
      get_or-set y1 58 j v2 (omega arith),
      get_or-set y2 59 j v3 (omega arith),
      get_or-set y3 60 j v4 (omega arith),
      get_or-set y4 61 j v5 (omega arith),
      get_or-set y5 62 j v6 (omega arith),
      get_or-set y6 63 j v7 (omega arith),
    )

length_byte : (n k : ℕ) → bit_and (n >>> k) 0xff ≡ n / 2 ^ k % 256
length_byte n k = bit_and_mask 8 (n / 2 ^ k)

pub load_block-length :
    (s raw : List ℕ) → length s ≤ length raw → length (load_block s raw) ≡ length raw
unfolding load_block
load_block-length s raw fits =
    length-set _ 63 _
    ∙ length-set _ 62 _
    ∙ length-set _ 61 _
    ∙ length-set _ 60 _
    ∙ length-set _ 59 _
    ∙ length-set _ 58 _
    ∙ length-set _ 57 _
    ∙ length-set _ 56 _
    ∙ length-set _ (length s) _
    ∙ (fill (length s) (λ i. get_or s i 0) raw fits).0

-- On a cleared array the loaded block is the padded message.
pub load_block-padded :
    (s raw : List ℕ)
    → length s ≤ 55
    → length raw ≡ 64
    → ((j : ℕ) → j < 64 → get_or raw j 0 ≡ 0)
    → (j : ℕ) → j < 64
    → get_or (load_block s raw) j 0 ≡ padded s j
unfolding load_block
load_block-padded s raw short len zeros j h =
    let (len1, at) = fill (length s) (λ i. get_or s i 0) raw (omega arith) in
    let loaded = for_range (length s) 0 (λ i ys. set ys i (get_or s i 0)) raw in
    let bit_len = length s * 8 in
    let ended = set loaded (length s) 0x80 in
    let power = λ (k : ℕ) (e : j ≡ k). ap (λ (t : ℕ). 256 ^ (63 - t)) e in
    ground (
      arith,
      length_bytes ended (bit_and (bit_len >>> 56) 0xff) (bit_and (bit_len >>> 48) 0xff)
          (bit_and (bit_len >>> 40) 0xff) (bit_and (bit_len >>> 32) 0xff)
          (bit_and (bit_len >>> 24) 0xff) (bit_and (bit_len >>> 16) 0xff)
          (bit_and (bit_len >>> 8) 0xff) (bit_and bit_len 0xff) j
          (length-set loaded (length s) 0x80 ∙ len1 ∙ len),
      get_or-set loaded (length s) j 0x80 (omega (arith, len1)),
      at j,
      zeros j h,
      length_byte bit_len 56,
      length_byte bit_len 48,
      length_byte bit_len 40,
      length_byte bit_len 32,
      length_byte bit_len 24,
      length_byte bit_len 16,
      length_byte bit_len 8,
      bit_and_mask 8 bit_len,
      power 56,
      power 57,
      power 58,
      power 59,
      power 60,
      power 61,
      power 62,
      power 63,
    )

pub padded-lt : (s : List ℕ) (j : ℕ) → IsByteList s → padded s j < 256
padded-lt s j h = ground (arith, get_or-lt s j h)

join_bytes :
    (a b c d : ℕ)
    → a < 256
    → b < 256
    → c < 256
    → d < 256
    → bit_or (bit_or (bit_or (u32 (a <<< 24)) (u32 (b <<< 16))) (u32 (c <<< 8))) d
      ≡ a * 2 ^ 24 + b * 2 ^ 16 + c * 2 ^ 8 + d
join_bytes a b c d ha hb hc hd =
    let ea : u32 (a <<< 24) ≡ a * 2 ^ 24 = omega arith in
    let eb : u32 (b <<< 16) ≡ b * 2 ^ 16 = omega arith in
    let ec : u32 (c <<< 8) ≡ c * 2 ^ 8 = omega arith in
    let q1 : a * 2 ^ 24 + b * 2 ^ 16 ≡ (a * 2 ^ 8 + b) * 2 ^ 16 = omega arith in
    let q2 : (a * 2 ^ 8 + b) * 2 ^ 16 + c * 2 ^ 8 ≡ (a * 2 ^ 16 + b * 2 ^ 8 + c) * 2 ^ 8 =
      omega arith in
    ground (
      arith,
      ea,
      eb,
      ec,
      q1,
      q2,
      bit_or_low 24 a (b * 2 ^ 16) (omega arith),
      bit_or_low 16 (a * 2 ^ 8 + b) (c * 2 ^ 8) (omega arith),
      bit_or_low 8 (a * 2 ^ 16 + b * 2 ^ 8 + c) d (omega arith),
    )

-- The words that the rounds read are those of the padded message.
pub raw_word-message_word :
    (s raw : List ℕ) (t : ℕ)
    → IsByteList s
    → ((j : ℕ) → j < 64 → get_or raw j 0 ≡ padded s j)
    → t < 16
    → raw_word raw t ≡ message_word s t
unfolding raw_word
raw_word-message_word s raw t bytes same h =
    let read : (k : ℕ) → k < 4 → get_or raw (t * 4 + k) 0 ≡ padded s (4 * t + k) = λ k few.
      same (t * 4 + k) (omega arith)
      ∙ ap (λ (j : ℕ). padded s j) {x = t * 4 + k} {y = 4 * t + k} (omega arith) in
    let first : padded s (4 * t + 0) ≡ padded s (4 * t) =
      ap (λ (j : ℕ). padded s j) {x = 4 * t + 0} {y = 4 * t} (omega arith) in
    rw (read 0 (omega arith)) (
      rw (read 1 (omega arith)) (
        rw (read 2 (omega arith)) (
          rw (read 3 (omega arith)) (
            rw first (
              join_bytes (padded s (4 * t)) (padded s (4 * t + 1)) (padded s (4 * t + 2))
                (padded s (4 * t + 3)) (padded-lt s (4 * t) bytes) (padded-lt s (4 * t + 1) bytes)
                (padded-lt s (4 * t + 2) bytes) (padded-lt s (4 * t + 3) bytes))))))
