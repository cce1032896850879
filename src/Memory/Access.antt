-- ===== src/Memory/Access.antt =====
-- The reads and writes that a dereferenced `uint8_t *`, `uint16_t *` and `uint32_t *` stand for.
use open_ferain_os.Base.{ℕ, ◌+◌, ◌*◌, ◌^◌, ◌<◌, ◌==◌, if◌then◌else◌, u8, ◌>>>◌}

abbrev pub Memory : Type 0
Memory = ℕ → ℕ

-- Every cell holds a byte.
abbrev pub IsBytes : Memory → Type 0
IsBytes m = (x : ℕ) → m x < 256

unfoldable pub load8 : Memory → ℕ → ℕ
load8 m a = m a

unfoldable pub store8 : Memory → ℕ → ℕ → Memory
store8 m a v x = if x == a then u8 v else m x

unfoldable pub load16 : Memory → ℕ → ℕ
load16 m a = m a + m (a + 1) * 2 ^ 8

unfoldable pub store16 : Memory → ℕ → ℕ → Memory
unfolding store8
store16 m a v = store8 (store8 m a v) (a + 1) (v >>> 8)

unfoldable pub load32 : Memory → ℕ → ℕ
load32 m a = m a + m (a + 1) * 2 ^ 8 + m (a + 2) * 2 ^ 16 + m (a + 3) * 2 ^ 24

unfoldable pub store32 : Memory → ℕ → ℕ → Memory
unfolding store8
store32 m a v =
    store8 (store8 (store8 (store8 m a v) (a + 1) (v >>> 8)) (a + 2) (v >>> 16)) (a + 3) (v >>> 24)
