-- ===== src/Descriptor/Laws.antt =====
-- What `set_gd` and `set_id` write is read back by the processor field by field.
use open_ferain_os.Base.{
  ℕ, ◌+◌, ◌*◌, ◌/◌, ◌%◌, ◌^◌, ◌≤◌, ◌<◌, ◌≡◌, ◌≢◌, ◌⊎◌, arith, inl, inr, ltb, Bool-cases,
}
use open_ferain_os.Bits.{bit_and_mask, bit_and_field, bit_or_low, bit_or_insert}
use open_ferain_os.Memory.{
  Memory, load32, store32, load32-store32, load32-store32_ne, store32_outside, store32-IsBytes,
  IsBytes,
}
use open_ferain_os.Descriptor.{
  gd_low, gd_high, set_gd, id_low, id_high, set_id, gdt_base, idt_base, id_type_task,
}
use open_ferain_os.Descriptor.Layout.{Gate, segment_at, gate_at}

gd_low_value : (b l : ℕ) → gd_low b l ≡ b % 2 ^ 16 * 2 ^ 16 + l % 2 ^ 16
unfolding gd_low
gd_low_value b l =
    ground (arith, bit_and_mask 16 b, bit_and_mask 16 l, bit_or_low 16 (b % 2 ^ 16) (l % 2 ^ 16))

-- The fields from the top down to the flags, and all of them.
gd_high_top : ℕ → ℕ → ℕ → ℕ
gd_high_top b l g =
    b / 2 ^ 24 % 2 ^ 8 * 2 ^ 24 + g % 2 * 2 ^ 23 + 0x408000 + l / 2 ^ 16 % 2 ^ 4 * 2 ^ 16

gd_high_value :
    (b l g s t d : ℕ)
    → gd_high b l g s t d
      ≡ gd_high_top b l g + d % 4 * 2 ^ 13 + s % 2 * 2 ^ 12 + t % 16 * 2 ^ 8 + b / 2 ^ 16 % 2 ^ 8
unfolding gd_high gd_high_top
gd_high_value b l g s t d =
    let a1 = b / 2 ^ 24 % 2 ^ 8 * 2 ^ 24 in
    let a2 = a1 + g % 2 * 2 ^ 23 in
    let a3 = a2 + 0x408000 in
    let a4 = a3 + l / 2 ^ 16 % 2 ^ 4 * 2 ^ 16 in
    let a5 = a4 + d % 4 * 2 ^ 13 in
    let a6 = a5 + s % 2 * 2 ^ 12 in
    let a7 = a6 + t % 16 * 2 ^ 8 in
    ground (
      arith,
      bit_and_field 24 8 b,
      bit_and_field 16 8 b,
      bit_and_field 16 4 l,
      bit_and_mask 1 g,
      bit_and_mask 2 d,
      bit_and_mask 1 s,
      bit_and_mask 4 t,
      bit_or_insert 23 1 a1 (g % 2) (omega arith) (omega arith),
      bit_or_low 23 (b / 2 ^ 24 % 2 ^ 8 * 2 + g % 2) 0x408000 (omega arith),
      bit_or_insert 16 4 a3 (l / 2 ^ 16 % 2 ^ 4) (omega arith) (omega arith),
      bit_or_insert 13 2 a4 (d % 4) (omega arith) (omega arith),
      bit_or_insert 12 1 a5 (s % 2) (omega arith) (omega arith),
      bit_or_insert 8 4 a6 (t % 16) (omega arith) (omega arith),
      bit_or_insert 0 8 a7 (b / 2 ^ 16 % 2 ^ 8) (omega arith) (omega arith),
    )

gd_low-lt : (b l : ℕ) → gd_low b l < 2 ^ 32
gd_low-lt b l = rw gd_low_value (omega arith)

gd_high-lt : (b l g s t d : ℕ) → gd_high b l g s t d < 2 ^ 32
unfolding gd_high_top
gd_high-lt b l g s t d = rw gd_high_value (omega arith)

-- Two words stored side by side are both read back.
module _ (m : Memory) (a v w : ℕ) (hv : v < 2 ^ 32) (hw : w < 2 ^ 32) where
  pub load32_low : load32 (store32 (store32 m a v) (a + 4) w) a ≡ v
  load32_low =
      ground
        (arith, load32-store32 m a v, load32-store32_ne (store32 m a v) (a + 4) w a (omega arith))

  pub load32_high : load32 (store32 (store32 m a v) (a + 4) w) (a + 4) ≡ w
  load32_high = load32-store32 (store32 m a v) (a + 4) w hw

  pub store32-store32_outside :
      (x : ℕ) → (x < a) ⊎ (a + 8 ≤ x) → store32 (store32 m a v) (a + 4) w x ≡ m x
  store32-store32_outside x h =
      ground (arith, store32_outside m a v x, store32_outside (store32 m a v) (a + 4) w x)

-- For every number that `set_gd` accepts, a 32-bit base and a 20-bit limit, the processor reads the
-- descriptor back with just these fields: the arguments, cut to their widths, a 32-bit segment, and
-- present. Every byte outside the eight of the entry is as before.
pub set_gd_lem :
    (n b l g s t d : ℕ) (m : Memory)
    → n ≤ 0x1fff
    → b < 2 ^ 32
    → l < 2 ^ 20
    → (segment_at (set_gd n b l g s t d m) (gdt_base + n * 8) ≡ record {
      base = b;
      limit = l;
      granularity = g % 2;
      size = 1;
      is_present = 1;
      privilege = d % 4;
      normal = s % 2;
      kind = t % 16;
    })
      × ((x : ℕ)
          → (x < gdt_base + n * 8) ⊎ (gdt_base + n * 8 + 8 ≤ x)
          → set_gd n b l g s t d m x ≡ m x)
unfolding set_gd gd_high_top
set_gd_lem n b l g s t d m hn hb hl = (
  ground (
    arith,
    load32_low m (gdt_base + n * 8) (gd_low b l) (gd_high b l g s t d) (gd_low-lt b l)
        (gd_high-lt b l g s t d),
    load32_high m (gdt_base + n * 8) (gd_low b l) (gd_high b l g s t d) (gd_low-lt b l)
        (gd_high-lt b l g s t d),
    gd_low_value b l,
    gd_high_value b l g s t d,
  ),
  λ x h. ground (
    arith,
    store32-store32_outside m (gdt_base + n * 8) (gd_low b l) (gd_high b l g s t d) (gd_low-lt b l)
        (gd_high-lt b l g s t d) x h,
  ),
)

-- The number check of `set_gd` is against the table's limit in bytes, so a descriptor number from
-- 1024 to 1279, past the 1024 entries of the table, is written over an interrupt gate.
pub set_gd_overwrites_gate :
    (k b l g s t d : ℕ) (m : Memory)
    → k < 256
    → (load32 (set_gd (1024 + k) b l g s t d m) (idt_base + k * 8) ≡ gd_low b l)
      × (load32 (set_gd (1024 + k) b l g s t d m) (idt_base + k * 8 + 4) ≡ gd_high b l g s t d)
unfolding set_gd
set_gd_overwrites_gate k b l g s t d m hk =
    let e : gdt_base + (1024 + k) * 8 ≡ idt_base + k * 8 = omega arith in
    ground (
      arith,
      load32_low m (idt_base + k * 8) (gd_low b l) (gd_high b l g s t d) (gd_low-lt b l)
          (gd_high-lt b l g s t d),
      load32_high m (idt_base + k * 8) (gd_low b l) (gd_high b l g s t d) (gd_low-lt b l)
          (gd_high-lt b l g s t d),
    )

id_low_value : (s o t : ℕ) → t ≢ id_type_task → id_low s o t ≡ s * 2 ^ 16 + o % 2 ^ 16
unfolding id_low
id_low_value s o t h = ground (arith, bit_and_mask 16 o, bit_or_low 16 s (o % 2 ^ 16))

id_high_value :
    (o d t : ℕ)
    → t ≢ id_type_task
    → id_high o d t ≡ o / 2 ^ 16 % 2 ^ 16 * 2 ^ 16 + 0x8000 + d % 4 * 2 ^ 13 + t % 16 * 2 ^ 8
unfolding id_high
id_high_value o d t h =
    let a1 = o / 2 ^ 16 % 2 ^ 16 * 2 ^ 16 in
    ground (
      arith,
      bit_and_field 16 16 o,
      bit_and_mask 2 d,
      bit_and_mask 4 t,
      bit_or_low 16 (o / 2 ^ 16 % 2 ^ 16) 0x8000 (omega arith),
      bit_or_insert 13 2 (a1 + 0x8000) (d % 4) (omega arith) (omega arith),
      bit_or_insert 8 4 (a1 + 0x8000 + d % 4 * 2 ^ 13) (t % 16) (omega arith) (omega arith),
    )

-- The gate as the processor reads it, for an offset that a task gate does not have.
abbrev pub gate_for : ℕ → ℕ → ℕ → ℕ → Gate
gate_for s o d t = record {
  offset = o;
  selector = s;
  is_present = 1;
  privilege = d % 4;
  kind = t % 16;
}

-- For every number that `set_id` accepts and every type but the task gate, the processor reads back
-- the handler's offset, its segment, the privilege and the type, and the gate is present. Every byte
-- outside the eight of the entry is as before.
pub set_id_lem :
    (n s o d t : ℕ) (m : Memory)
    → n ≤ 0x7ff
    → s < 2 ^ 16
    → o < 2 ^ 32
    → t ≢ id_type_task
    → (gate_at (set_id n s o d t m) (idt_base + n * 8) ≡ gate_for s o d t)
      × ((x : ℕ) → (x < idt_base + n * 8) ⊎ (idt_base + n * 8 + 8 ≤ x) → set_id n s o d t m x ≡ m x)
unfolding set_id
set_id_lem n s o d t m hn hs ho ht =
    let low : id_low s o t < 2 ^ 32 = rw (id_low_value s o t ht) (omega arith) in
    let high : id_high o d t < 2 ^ 32 = rw (id_high_value o d t ht) (omega arith) in
    (
      ground (
        arith,
        load32_low m (idt_base + n * 8) (id_low s o t) (id_high o d t) low high,
        load32_high m (idt_base + n * 8) (id_low s o t) (id_high o d t) low high,
        id_low_value s o t ht,
        id_high_value o d t ht,
      ),
      λ x h. ground (
        arith,
        store32-store32_outside m (idt_base + n * 8) (id_low s o t) (id_high o d t) low high x h,
      ),
    )

-- Descriptors are written by bytes.
pub set_gd-IsBytes : (n b l g s t d : ℕ) (m : Memory) → IsBytes m → IsBytes (set_gd n b l g s t d m)
unfolding set_gd
set_gd-IsBytes n b l g s t d m h = elim (Bool-cases (ltb 0x1fff n)) [
  | inl out ↦ rw out h
  | inr fits ↦ rw fits (store32-IsBytes _ _ _ (store32-IsBytes m _ _ h))
]

pub set_id-IsBytes : (n s o d t : ℕ) (m : Memory) → IsBytes m → IsBytes (set_id n s o d t m)
unfolding set_id
set_id-IsBytes n s o d t m h = elim (Bool-cases (ltb 0x7ff n)) [
  | inl out ↦ rw out h
  | inr fits ↦ rw fits (store32-IsBytes _ _ _ (store32-IsBytes m _ _ h))
]
