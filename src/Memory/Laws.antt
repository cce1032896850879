-- ===== src/Memory/Laws.antt =====
-- What a read sees after a write, and that writes keep every cell a byte.
use open_ferain_os.Base.{ℕ, ◌+◌, ◌≤◌, ◌<◌, ◌^◌, ◌≡◌, ◌≢◌, ◌⊎◌, arith, u8}
use open_ferain_os.Memory.Access.{Memory, IsBytes, load8, store8, load16, store16, load32, store32}

module _ (m : Memory) (a v : ℕ) where
  pub load8-store8 : load8 (store8 m a v) a ≡ u8 v
  unfolding load8 store8
  load8-store8 = ground arith

  pub load8-store8_ne : (b : ℕ) → a ≢ b → load8 (store8 m a v) b ≡ load8 m b
  unfolding load8 store8
  load8-store8_ne b h = ground arith

  pub load16-store16 : v < 2 ^ 16 → load16 (store16 m a v) a ≡ v
  unfolding load16 store16
  load16-store16 h = ground arith

  pub load32-store32 : v < 2 ^ 32 → load32 (store32 m a v) a ≡ v
  unfolding load32 store32
  load32-store32 h = ground arith

  pub load32-store32_ne :
      (b : ℕ) → (b + 4 ≤ a) ⊎ (a + 4 ≤ b) → load32 (store32 m a v) b ≡ load32 m b
  unfolding load32 store32
  load32-store32_ne b h = ground arith

  -- Outside its own cells a write changes nothing.
  pub store8_outside : (x : ℕ) → x ≢ a → store8 m a v x ≡ m x
  unfolding store8
  store8_outside x h = ground arith

  pub store16_outside : (x : ℕ) → (x < a) ⊎ (a + 2 ≤ x) → store16 m a v x ≡ m x
  unfolding store16
  store16_outside x h = ground arith

  pub store32_outside : (x : ℕ) → (x < a) ⊎ (a + 4 ≤ x) → store32 m a v x ≡ m x
  unfolding store32
  store32_outside x h = ground arith

  pub store8-IsBytes : IsBytes m → IsBytes (store8 m a v)
  unfolding store8
  store8-IsBytes h x = ground (arith, h x)

  pub store16-IsBytes : IsBytes m → IsBytes (store16 m a v)
  unfolding store16
  store16-IsBytes h x = ground (arith, h x)

  pub store32-IsBytes : IsBytes m → IsBytes (store32 m a v)
  unfolding store32
  store32-IsBytes h x = ground (arith, h x)

pub load32-lt : (m : Memory) (a : ℕ) → IsBytes m → load32 m a < 2 ^ 32
unfolding load32
load32-lt m a h = omega (arith, h a, h (a + 1), h (a + 2), h (a + 3))

-- Bytes that agree make words that agree.
pub load32_agree :
    (m s : Memory) (a : ℕ) → ((x : ℕ) → a ≤ x → x < a + 4 → s x ≡ m x) → load32 s a ≡ load32 m a
unfolding load32
load32_agree m s a h = ground (
  arith,
  h a (omega arith) (omega arith),
  h (a + 1) (omega arith) (omega arith),
  h (a + 2) (omega arith) (omega arith),
  h (a + 3) (omega arith) (omega arith),
)
