-- ===== src/Base/Lists.antt =====
-- C arrays as lists, measured and indexed by native numbers, and literals as their bytes.
use Prim.Native.Nat.{ℕ, zero, suc, ◌+◌, ◌-◌, ◌<◌}
use Prim.Native.Char.{code}
use Prim.Native.String.{String}
use mathlib.Core.Path.{◌≡◌, refl, ap}
use mathlib.Core.Logic.{◌≢◌}
use mathlib.Core.List.{List, [], ◌∷◌, ◌++◌}
use mathlib.Core.Option.{Option, none, some}
use native.Mathlib.Omega.{arith}
use open_ferain_os.Base.Tests.{◌==◌, ltb, if◌then◌else◌}

-- The bytes of an ASCII literal, without the closing NUL.
abbrev pub codes : String → List ℕ
codes String.[] = []
codes (String.◌∷◌ c s) = code c ∷ codes s

module _ {ℓ} {A : Type ℓ} where
  abbrev pub length : List A → ℕ
  length [] = 0
  length (x ∷ xs) = suc (length xs)

  abbrev pub get_elem? : List A → ℕ → Option A
  get_elem? [] i = none
  get_elem? (x ∷ xs) zero = some x
  get_elem? (x ∷ xs) (suc i) = get_elem? xs i

  abbrev pub get_or : List A → ℕ → A → A
  get_or [] i d = d
  get_or (x ∷ xs) zero d = x
  get_or (x ∷ xs) (suc i) d = get_or xs i d

  abbrev pub replicate : ℕ → A → List A
  replicate zero a = []
  replicate (suc n) a = a ∷ replicate n a

  -- A write out of bounds changes nothing.
  abbrev pub set : List A → ℕ → A → List A
  set [] i v = []
  set (x ∷ xs) zero v = v ∷ xs
  set (x ∷ xs) (suc i) v = x ∷ set xs i v

-- Every entry is a byte.
abbrev pub IsByteList : List ℕ → Type 0
IsByteList [] = Unit
IsByteList (x ∷ xs) = (x < 256) × IsByteList xs

pub get_or-lt : (xs : List ℕ) (i : ℕ) → IsByteList xs → get_or xs i 0 < 256
get_or-lt [] i h = omega arith
get_or-lt (x ∷ xs) zero h = h.0
get_or-lt (x ∷ xs) (suc i) h = get_or-lt xs i h.1

module _ {ℓ} {A : Type ℓ} where
  pub length-set : (xs : List A) (i : ℕ) (v : A) → length (set xs i v) ≡ length xs
  length-set [] i v = refl
  length-set (x ∷ xs) zero v = refl
  length-set (x ∷ xs) (suc i) v = ap suc (length-set xs i v)

  pub length-append : (xs ys : List A) → length (xs ++ ys) ≡ length xs + length ys
  length-append [] ys = omega arith
  length-append (x ∷ xs) ys = omega (arith, length-append xs ys)

  pub get_or-set_self :
      (xs : List A) (i : ℕ) (v d : A) → i < length xs → get_or (set xs i v) i d ≡ v
  get_or-set_self [] i v d h = absurd (omega arith)
  get_or-set_self (x ∷ xs) zero v d h = refl
  get_or-set_self (x ∷ xs) (suc i) v d h = get_or-set_self xs i v d (omega arith)

  pub get_or-set_ne :
      (xs : List A) (i j : ℕ) (v d : A) → i ≢ j → get_or (set xs i v) j d ≡ get_or xs j d
  get_or-set_ne [] i j v d h = refl
  get_or-set_ne (x ∷ xs) zero zero v d h = absurd (h refl)
  get_or-set_ne (x ∷ xs) zero (suc j) v d h = refl
  get_or-set_ne (x ∷ xs) (suc i) zero v d h = refl
  get_or-set_ne (x ∷ xs) (suc i) (suc j) v d h = get_or-set_ne xs i j v d (λ e. h (ap suc e))

-- Reading an array after a write in bounds.
pub get_or-set :
    (xs : List ℕ) (i j v : ℕ)
    → i < length xs
    → get_or (set xs i v) j 0 ≡ (if j == i then v else get_or xs j 0)
get_or-set [] i j v h = absurd (omega arith)
get_or-set (x ∷ xs) zero zero v h = refl
get_or-set (x ∷ xs) zero (suc j) v h = ground arith
get_or-set (x ∷ xs) (suc i) zero v h = ground arith
get_or-set (x ∷ xs) (suc i) (suc j) v h = ground (arith, get_or-set xs i j v)

-- A read in bounds.
pub get_elem?-get_or : (xs : List ℕ) (i : ℕ) → i < length xs → get_elem? xs i ≡ some (get_or xs i 0)
get_elem?-get_or [] i h = absurd (omega arith)
get_elem?-get_or (x ∷ xs) zero h = refl
get_elem?-get_or (x ∷ xs) (suc i) h = get_elem?-get_or xs i (omega arith)

pub get_or-append :
    (xs : List ℕ) (x m : ℕ)
    → get_or (xs ++ (x ∷ [])) m 0 ≡ (if m == length xs then x else get_or xs m 0)
get_or-append [] x zero = refl
get_or-append [] x (suc m) = ground arith
get_or-append (y ∷ xs) x zero = ground arith
get_or-append (y ∷ xs) x (suc m) = ground (arith, get_or-append xs x m)

abbrev pub drop_last : List ℕ → List ℕ
drop_last [] = []
drop_last (x ∷ []) = []
drop_last (x ∷ y ∷ ys) = x ∷ drop_last (y ∷ ys)

pub length-drop_last : (xs : List ℕ) → length (drop_last xs) ≡ length xs - 1
length-drop_last [] = refl
length-drop_last (x ∷ []) = refl
length-drop_last (x ∷ y ∷ ys) = omega (arith, length-drop_last (y ∷ ys))

pub get_or-drop_last :
    (xs : List ℕ) (i : ℕ) → i + 1 < length xs → get_or (drop_last xs) i 0 ≡ get_or xs i 0
get_or-drop_last [] i h = absurd (omega arith)
get_or-drop_last (x ∷ []) i h = absurd (omega arith)
get_or-drop_last (x ∷ y ∷ ys) zero h = refl
get_or-drop_last (x ∷ y ∷ ys) (suc i) h = get_or-drop_last (y ∷ ys) i (omega arith)

pub get_or-replicate : (n i : ℕ) → get_or (replicate {A = ℕ} n 0) i 0 ≡ 0
get_or-replicate zero i = refl
get_or-replicate (suc n) zero = refl
get_or-replicate (suc n) (suc i) = get_or-replicate n i

pub length-replicate : (n : ℕ) → length (replicate {A = ℕ} n 0) ≡ n
length-replicate zero = refl
length-replicate (suc n) = ap suc (length-replicate n)

-- Lists of one length with the same entries.
pub get_or_ext :
    (xs ys : List ℕ)
    → length xs ≡ length ys
    → ((i : ℕ) → i < length xs → get_or xs i 0 ≡ get_or ys i 0)
    → xs ≡ ys
get_or_ext [] [] e h = refl
get_or_ext [] (y ∷ ys) e h = absurd (omega (arith, e))
get_or_ext (x ∷ xs) [] e h = absurd (omega (arith, e))
get_or_ext (x ∷ xs) (y ∷ ys) e h =
    rw (h 0 (omega arith)) (
      ap (λ (zs : List ℕ). y ∷ zs)
        (get_or_ext xs ys (omega arith) (λ i l. h (suc i) (omega arith))))

pub get_or-append_zeros :
    (xs : List ℕ) (n i : ℕ)
    → get_or (xs ++ replicate n 0) i 0 ≡ (if ltb i (length xs) then get_or xs i 0 else 0)
get_or-append_zeros [] n i = ground (arith, get_or-replicate n i)
get_or-append_zeros (x ∷ xs) n zero = ground arith
get_or-append_zeros (x ∷ xs) n (suc i) = ground (arith, get_or-append_zeros xs n i)
