-- ===== src/Base/Loop.antt =====
-- Counted loops: `for_range n i body s` runs `body k` for k = i, ..., i + n - 1.
use Prim.Native.Nat.{ℕ, zero, suc, ◌+◌, ◌≤◌, ◌<◌}
use mathlib.Core.Path.{◌≡◌, subst}
use mathlib.Core.Bool.{Bool, true, ◌&&◌}
use native.Mathlib.Omega.{arith}

unfoldable pub for_range {ℓ} : {S : Type ℓ} → ℕ → ℕ → (ℕ → S → S) → S → S
for_range zero k body state = state
for_range (suc rounds) k body state = for_range rounds (k + 1) body (body k state)

-- An invariant indexed by the loop's counter, kept by each round in range, holds at the end.
pub for_range_inv {ℓ κ} :
    {S : Type ℓ} (Inv : ℕ → S → Type κ) (body : ℕ → S → S) (lo hi : ℕ)
    → ((k : ℕ) (state : S) → lo ≤ k → k < hi → Inv k state → Inv (k + 1) (body k state))
    → (rounds k : ℕ) (state : S) → lo ≤ k
    → k + rounds ≡ hi
    → Inv k state
    → Inv hi (for_range rounds k body state)
unfolding for_range
for_range_inv Inv body lo hi step zero k state low ends now =
    let there : k ≡ hi = omega arith in subst (λ n. Inv n state) there now
for_range_inv Inv body lo hi step (suc rounds) k state low ends now =
    for_range_inv Inv body lo hi step rounds (k + 1) (body k state) (omega arith) (omega arith)
      (step k state low (omega arith) now)

-- A test of every number below a bound, by evaluation.
unfoldable pub all_below : ℕ → (ℕ → Bool) → Bool
all_below zero test = true
all_below (suc n) test = test n && all_below n test

pub all_below_holds :
    (n : ℕ) (test : ℕ → Bool) (x : ℕ) → all_below n test ≡ true → x < n → test x ≡ true
unfolding all_below
all_below_holds zero test x h l = absurd (omega arith)
all_below_holds (suc n) test x h l = ground (arith, all_below_holds n test x)
