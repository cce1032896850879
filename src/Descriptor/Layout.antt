-- ===== src/Descriptor/Layout.antt =====
-- The processor's reading of an 8-byte segment descriptor and of an interrupt gate, from the
-- layout of the architecture: the low and the high word of the entry at an address.
use open_ferain_os.Base.{ℕ, ◌+◌, ◌*◌, ◌/◌, ◌%◌, ◌^◌}
use open_ferain_os.Memory.{Memory, load32}

pub record Segment : Type 0 where
  pub base : ℕ
  pub limit : ℕ
  pub granularity : ℕ
  pub size : ℕ
  pub is_present : ℕ
  pub privilege : ℕ
  pub normal : ℕ
  pub kind : ℕ

abbrev pub segment_of : ℕ → ℕ → Segment
segment_of low high = record {
  base = high / 2 ^ 24 * 2 ^ 24 + high % 2 ^ 8 * 2 ^ 16 + low / 2 ^ 16;
  limit = high / 2 ^ 16 % 2 ^ 4 * 2 ^ 16 + low % 2 ^ 16;
  granularity = high / 2 ^ 23 % 2;
  size = high / 2 ^ 22 % 2;
  is_present = high / 2 ^ 15 % 2;
  privilege = high / 2 ^ 13 % 4;
  normal = high / 2 ^ 12 % 2;
  kind = high / 2 ^ 8 % 16;
}

pub record Gate : Type 0 where
  pub offset : ℕ
  pub selector : ℕ
  pub is_present : ℕ
  pub privilege : ℕ
  pub kind : ℕ

abbrev pub gate_of : ℕ → ℕ → Gate
gate_of low high = record {
  offset = high / 2 ^ 16 * 2 ^ 16 + low % 2 ^ 16;
  selector = low / 2 ^ 16;
  is_present = high / 2 ^ 15 % 2;
  privilege = high / 2 ^ 13 % 4;
  kind = high / 2 ^ 8 % 16;
}

abbrev pub segment_at : Memory → ℕ → Segment
segment_at m a = segment_of (load32 m a) (load32 m (a + 4))

abbrev pub gate_at : Memory → ℕ → Gate
gate_at m a = gate_of (load32 m a) (load32 m (a + 4))
