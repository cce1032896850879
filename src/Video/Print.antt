-- ===== src/Video/Print.antt =====
-- What printing leaves in video memory, and that printing a string from memory and printing its
-- bytes are one.
use open_ferain_os.Base.{
  ℕ, ◌+◌, ◌*◌, ◌/◌, ◌%◌, ◌^◌, ◌≤◌, ◌<◌, ◌≡◌, ◌⊎◌, arith, for_range_inv, refl, List, IsByteList,
  get_or-lt, get_or, length, u32,
}
use open_ferain_os.Bits.{bit_and_mask, bit_and_field, bit_or_low}
use open_ferain_os.Memory.{
  Memory, load8, load16, store16, load16-store16, store16_outside, store16-IsBytes, IsBytes,
}
use open_ferain_os.Video.{write_base, print_char, print_text, video_isr_print_string}

pub write_base_value : (e : ℕ) → write_base e ≡ e / 256 % 256 * 160 + e % 256 * 2 + 0xb8000
unfolding write_base
write_base_value e = ground (arith, bit_and_mask 8 e, bit_and_field 8 8 e)

-- A cell holds a colour above a character.
abbrev pub cell_of : ℕ → ℕ → ℕ
cell_of color char = color % 256 * 256 + char

abbrev pub cell_at : Memory → ℕ → ℕ
cell_at m n = load16 m (0xb8000 + n * 2)

print_char_value :
    (e color i char : ℕ) (m : Memory)
    → i < 65536
    → char < 256
    → print_char e color i char m ≡ store16 m (write_base e + i * 2) (cell_of color char)
unfolding print_char
print_char_value e color i char m h l =
    let w : u32 (write_base e + i * 2) ≡ write_base e + i * 2 = omega (arith, write_base_value e) in
    ground (arith, bit_and_mask 8 color, bit_or_low 8 (color % 256) char l)

load16-store16_ne :
    (m : Memory) (a v b : ℕ) → (b + 2 ≤ a) ⊎ (a + 2 ≤ b) → load16 (store16 m a v) b ≡ load16 m b
unfolding load16
load16-store16_ne m a v b h = ground (arith, store16_outside m a v b, store16_outside m a v (b + 1))

-- After `n` characters of a text: they stand in the cells, and no other byte has changed.
pub record IsPrinted (text : ℕ → ℕ) (base color : ℕ) (m : Memory) (n : ℕ) (s : Memory)
    : Type 0 where
  pub cells : (i : ℕ) → i < n → load16 s (base + i * 2) ≡ cell_of color (text i)
  pub outside : (x : ℕ) → (x < base) ⊎ (base + n * 2 ≤ x) → s x ≡ m x
  pub bytes : IsBytes s

print_char-IsPrinted :
    (text : ℕ → ℕ) (e color : ℕ) (m : Memory) (i : ℕ) (s : Memory)
    → ((j : ℕ) → text j < 256)
    → i < 65536
    → IsPrinted text (write_base e) color m i s
    → IsPrinted text (write_base e) color m (i + 1) (print_char e color i (text i) s)
print_char-IsPrinted text e color m i s ht l h =
    let a = write_base e + i * 2 in
    let v = cell_of color (text i) in
    rw (print_char_value e color i (text i) s l (ht i)) (record {
      cells = λ j p. ground (
        arith,
        h.cells j,
        load16-store16 s a v (omega (arith, ht i)),
        load16-store16_ne s a v (write_base e + j * 2),
      );
      outside = λ x p. ground (arith, h.outside x, store16_outside s a v x);
      bytes = store16-IsBytes s a v h.bytes;
    })

nothing-IsPrinted :
    (text : ℕ → ℕ) (base color : ℕ) (m : Memory) → IsBytes m → IsPrinted text base color m 0 m
nothing-IsPrinted text base color m h = record {
  cells = λ i l. absurd (omega arith);
  outside = λ x l. refl;
  bytes = h;
}

-- Printing a text of at most 65536 bytes puts each of its bytes, in order and under the colour, into
-- the cells from the start position on, and changes no other byte of memory.
pub print_text-IsPrinted :
    (text : List ℕ) (e color : ℕ) (m : Memory)
    → IsByteList text
    → length text ≤ 65536
    → IsBytes m
    → IsPrinted
        (λ i. get_or text i 0)
        (write_base e)
        color
        m
        (length text)
        (print_text text e color m)
unfolding print_text
print_text-IsPrinted text e color m ht hl hm =
    for_range_inv (IsPrinted (λ i. get_or text i 0) (write_base e) color m) _ 0 (length text)
      (λ i s _ l p.
        print_char-IsPrinted (λ j. get_or text j 0) e color m i s (λ j. get_or-lt text j ht)
          (omega arith) p)
      (length text) 0 m (omega arith) (omega arith)
      (nothing-IsPrinted (λ i. get_or text i 0) (write_base e) color m hm)

-- The interrupt service prints the bytes that stand at its string's address before the call, if they
-- lie below 4 GB and apart from the cells that it writes.
pub video_isr_print_string-IsPrinted :
    (esi edi count color : ℕ) (m : Memory)
    → count ≤ 65536
    → esi + count ≤ 2 ^ 32
    → IsBytes m
    → (esi + count ≤ write_base edi) ⊎ (write_base edi + count * 2 ≤ esi)
    → IsPrinted
        (λ i. m (u32 (esi + i)))
        (write_base edi)
        color
        m
        count
        (video_isr_print_string esi edi count color m)
unfolding video_isr_print_string
video_isr_print_string-IsPrinted esi edi count color m hc he hm apart =
    for_range_inv (IsPrinted text (write_base edi) color m) _ 0 count round count 0 m (omega arith)
      (omega arith) (nothing-IsPrinted text (write_base edi) color m hm)
  where
    text : ℕ → ℕ
    text i = m (u32 (esi + i))

    same :
        (i : ℕ) (s : Memory)
        → i < count
        → IsPrinted text (write_base edi) color m i s
        → load8 s (u32 (esi + i)) ≡ text i
    same i s l p = unfold load8 in p.outside (u32 (esi + i)) (ground arith)

    round :
        (i : ℕ) (s : Memory)
        → 0 ≤ i
        → i < count
        → IsPrinted text (write_base edi) color m i s
        → IsPrinted text
            (write_base edi)
            color
            m
            (i + 1)
            (print_char edi color i (load8 s (u32 (esi + i))) s)
    round i s _ l p =
        rw (same i s l p)
          (print_char-IsPrinted text edi color m i s (λ j. hm (u32 (esi + j))) (omega arith) p)
