-- ===== src/Base.antt =====
-- The names that every module shares: the libraries' numbers, paths, options and lists, the
-- Boolean tests of C on machine numbers, arrays as lists, and the fixed-width casts.
mod Tests
mod Lists
mod Word
mod Loop
mod Fallible
pub use Tests.*
pub use Lists.*
pub use Word.*
pub use Fallible.*
unfoldable pub use Loop.*
pub use Prim.Native.Nat.{
  ℕ, zero, suc, ◌+◌, ◌-◌, ◌*◌, ◌/◌, ◌%◌, ◌^◌, ◌≤◌, ◌<◌, bit_and, bit_or, bit_xor,
}
pub use mathlib.Core.Path.{◌≡◌, refl, sym, ap, ◌∙◌, fun_ext}
pub use mathlib.Core.Logic.{◌≢◌, ◌↔◌, ◌⊎◌, inl, inr}
pub use mathlib.Core.Bool.{Bool, true, false, not, ◌&&◌, ◌||◌}
pub use mathlib.Core.Option.{Option, none, some}
pub use mathlib.Core.List.{List, [], ◌∷◌, ◌++◌, map, append-nil, append_assoc}
pub use native.Mathlib.Omega.{arith}
