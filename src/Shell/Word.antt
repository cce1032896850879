-- ===== src/Shell/Word.antt =====
-- `cmd_code_check` compares a word of the command line.
use open_ferain_os.Base.{
  ℕ, zero, suc, ◌+◌, ◌≤◌, ◌<◌, ◌^◌, ◌≡◌, ◌↔◌, ◌∙◌, refl, ap, arith, Bool, true, false, List, [],
  ◌∷◌, length, get_or, get_elem?, get_elem?-get_or, ◌==◌, ◌||◌, ◌&&◌, not, if◌then◌else◌, u32, some,
  Bool-cases, inl, inr,
}
use open_ferain_os.Shell.{Shell, command_at, check_from, cmd_code_check, check_either}

abbrev pub is_blank : ℕ → Bool
is_blank c = c == 0x00 || c == 0x20

-- The characters from an entry on, up to a blank.
abbrev pub word_at : List ℕ → ℕ → List ℕ
word_at [] i = []
word_at (x ∷ xs) (suc i) = word_at xs i
word_at (x ∷ xs) zero = let rest = word_at xs zero in if is_blank x then [] else x ∷ rest

abbrev pub same_text : List ℕ → List ℕ → Bool
same_text [] [] = true
same_text [] (y ∷ ys) = false
same_text (x ∷ xs) [] = false
same_text (x ∷ xs) (y ∷ ys) = let rest = same_text xs ys in x == y && rest

pub same_text_iff : (xs ys : List ℕ) → (same_text xs ys ≡ true) ↔ (xs ≡ ys)
same_text_iff [] [] = (λ e. refl, λ e. refl)
same_text_iff [] (y ∷ ys) = ground arith
same_text_iff (x ∷ xs) [] = ground arith
same_text_iff (x ∷ xs) (y ∷ ys) = ground (arith, same_text_iff xs ys)

-- A text of one word.
abbrev pub is_solid : List ℕ → Bool
is_solid [] = true
is_solid (x ∷ xs) = let rest = is_solid xs in not (is_blank x) && rest

pub word_at-step :
    (xs : List ℕ) (k : ℕ)
    → k < length xs
    → word_at xs k ≡ (if is_blank (get_or xs k 0) then [] else get_or xs k 0 ∷ word_at xs (k + 1))
word_at-step [] k h = absurd (omega arith)
word_at-step (x ∷ xs) zero h = ground arith
word_at-step (x ∷ xs) (suc k) h = ground (arith, word_at-step xs k)

pub command_at-get_or :
    (s : Shell) (i : ℕ)
    → length s.command ≤ 2 ^ 32
    → s.command_base + i < length s.command
    → command_at s i ≡ some (get_or s.command (s.command_base + i) 0)
command_at-get_or s i small h =
    ap (get_elem? s.command) {x = u32 (s.command_base + i)} {y = s.command_base + i} (omega arith)
    ∙ get_elem?-get_or s.command (s.command_base + i) h

check_from-same_text :
    (s : Shell) (i : ℕ) (text : List ℕ)
    → length s.command ≤ 2 ^ 32
    → s.command_base + i + length text < length s.command
    → is_solid text ≡ true
    → check_from s i text ≡ some (same_text (word_at s.command (s.command_base + i)) text)
unfolding check_from
check_from-same_text s i [] small h solid =
    let k = s.command_base + i in
    rw (command_at-get_or s i small (omega arith))
      (rw (word_at-step s.command k (omega arith)) (ground arith))
check_from-same_text s i (x ∷ xs) small h solid =
    let k = s.command_base + i in
    let place : word_at s.command (s.command_base + (i + 1)) ≡ word_at s.command (k + 1) =
      ap (word_at s.command) {x = s.command_base + (i + 1)} {y = k + 1} (omega arith) in
    let ih = check_from-same_text s (i + 1) xs small (omega arith) (ground arith) in
    rw (command_at-get_or s i small (omega arith)) (
      rw (word_at-step s.command k (omega arith))
        (elim (Bool-cases (is_blank (get_or s.command k 0))) [
          | inl blank ↦ rw blank (ground (arith, solid))
          | inr solid_c ↦ rw solid_c (ground (arith, ih, place))
        ]))

-- With room for the text in the array, the check reads inside it and tells whether the word at
-- `command_base` is the text.
pub cmd_code_check-word_at :
    (text : List ℕ) (s : Shell)
    → length s.command ≤ 2 ^ 32
    → s.command_base + length text < length s.command
    → is_solid text ≡ true
    → cmd_code_check text s ≡ some (same_text (word_at s.command s.command_base) text)
unfolding cmd_code_check
cmd_code_check-word_at text s small h solid =
    check_from-same_text s 0 text small (omega arith) solid
    ∙ ap (λ (k : ℕ). some (same_text (word_at s.command k) text)) {x = s.command_base + 0}
        {y = s.command_base} (omega arith)

pub check_either-word_at :
    (a b : List ℕ) (s : Shell)
    → length s.command ≤ 2 ^ 32
    → s.command_base + length a < length s.command
    → s.command_base + length b < length s.command
    → is_solid a ≡ true
    → is_solid b ≡ true
    → let w = word_at s.command s.command_base in
      check_either a b s ≡ some (same_text w a || same_text w b)
unfolding check_either
check_either-word_at a b s small ha hb sa sb =
    rw (cmd_code_check-word_at a s small ha sa)
      (rw (cmd_code_check-word_at b s small hb sb) (ground arith))
