-- ===== src/Shell/Bounds.antt =====
-- `code` stays inside the array, if the line leaves room behind its first word.
use open_ferain_os.Base.{
  ℕ, zero, suc, ◌+◌, ◌≤◌, ◌<◌, ◌≡◌, refl, arith, Bool, true, false, Bool-cases, inl, inr, List, [],
  ◌∷◌, codes, length, get_or, ◌==◌, ◌||◌, if◌then◌else◌, Option, some,
}
use open_ferain_os.Shell.{Shell, Services, command_at, advance, cmd_code_check, check_either, say}
use open_ferain_os.Shell.Code.{
  code, help_command, color_command, choose_color, has_prefix, hash_command, hash_string,
  pr_command, time_command, time_chain, time_words, ver_command, nocommand, string_at, color_error,
}
use open_ferain_os.Shell.Word.{
  word_at, same_text, is_solid, cmd_code_check-word_at, check_either-word_at, command_at-get_or,
}

-- The array has its size, `n` entries from `command_base` on are inside, and a NUL stands in it.
pub record HasRoom (n : ℕ) (s : Shell) : Type 0 where
  pub size : length s.command ≡ 127
  pub room : s.command_base + n < 127
  pub ended : get_or s.command 126 0 ≡ 0

abbrev pub Succeeds : Shell → Option Shell → Type 0
Succeeds s o = (u : Shell) × (o ≡ some u) × (u.command ≡ s.command)

advance-HasRoom : (n m : ℕ) (s : Shell) → HasRoom (n + m) s → HasRoom m (advance n s)
advance-HasRoom n m s h = record { size = h.size; room = omega (arith, h.room); ended = h.ended }

fewer : (n m : ℕ) (s : Shell) → HasRoom n s → m ≤ n → HasRoom m s
fewer n m s h l = record { size = h.size; room = omega (arith, h.room); ended = h.ended }

string_at-some :
    (xs : List ℕ) (k j : ℕ)
    → k ≤ j
    → j < length xs
    → get_or xs j 0 ≡ 0
    → (t : List ℕ) × (string_at xs k ≡ some t)
unfolding string_at
string_at-some [] k j low h e = absurd (omega arith)
string_at-some (x ∷ xs) (suc k) zero low h e = absurd (omega arith)
string_at-some (x ∷ xs) (suc k) (suc j) low h e =
    string_at-some xs k j (omega arith) (omega arith) e
string_at-some (x ∷ xs) zero zero low h e = ([], ground arith)
string_at-some (x ∷ xs) zero (suc j) low h e =
    let (t, ih) = string_at-some xs zero j (omega arith) (omega arith) e in
    elim (Bool-cases (x == 0)) [
      | inl end ↦ ([], rw end refl)
      | inr more ↦ (x ∷ t, rw more (rw ih refl))
    ]

command_at-some :
    (n i : ℕ) (s : Shell)
    → HasRoom n s
    → i ≤ n
    → command_at s i ≡ some (get_or s.command (s.command_base + i) 0)
command_at-some n i s h l =
    command_at-get_or s i (omega (arith, h.size)) (omega (arith, h.size, h.room))

pub check-some :
    (n : ℕ) (text : List ℕ) (s : Shell)
    → HasRoom n s
    → length text ≤ n
    → is_solid text ≡ true
    → cmd_code_check text s ≡ some (same_text (word_at s.command s.command_base) text)
check-some n text s h l solid =
    cmd_code_check-word_at text s (omega (arith, h.size)) (omega (arith, h.size, h.room)) solid

-- Both branches of a test.
pick :
    (s : Shell) (b : Bool) (x y : Option Shell)
    → Succeeds s x
    → Succeeds s y
    → Succeeds s (if b then x else y)
pick s true x y p q = p
pick s false x y p q = q

pick_command :
    (b : Bool) (x y : Shell) (c : List ℕ)
    → x.command ≡ c
    → y.command ≡ c
    → (if b then x else y).command ≡ c
pick_command true x y c p q = p
pick_command false x y c p q = q

has_prefix-some : (s : Shell) → HasRoom 1 s → (b : Bool) × (has_prefix s ≡ some b)
unfolding has_prefix
has_prefix-some s h = rw (command_at-some 1 0 s h (omega arith)) (
    rw (command_at-some 1 1 s h (omega arith))
      (elim (Bool-cases (get_or s.command (s.command_base + 0) 0 == b'0')) [
        | inl zero_digit ↦ rw zero_digit (_, refl)
        | inr other ↦ rw other (false, refl)
      ]))

choose_color-Succeeds : (sv : Services) (s : Shell) → HasRoom 1 s → Succeeds s (choose_color sv s)
unfolding choose_color color_error
choose_color-Succeeds sv s h = rw (command_at-some 1 0 s h (omega arith)) (
    rw (command_at-some 1 1 s h (omega arith))
      (pick s _ _ _ (_, refl, refl) (_, refl, pick_command _ _ _ s.command refl refl)))

prefixed-Succeeds :
    (sv : Services) (s : Shell) (b : Bool)
    → HasRoom 6 s
    → Succeeds s (choose_color sv (if b then advance 2 s else s))
prefixed-Succeeds sv s true h =
    choose_color-Succeeds sv (advance 2 s)
      (fewer 4 1 (advance 2 s) (advance-HasRoom 2 4 s h) (omega arith))
prefixed-Succeeds sv s false h = choose_color-Succeeds sv s (fewer 6 1 s h (omega arith))

color_command-Succeeds :
    (sv : Services) (s : Shell) → HasRoom 12 s → Succeeds s (color_command sv s)
unfolding color_command
color_command-Succeeds sv s h =
    let t = advance 6 s in
    let ht : HasRoom 6 t = advance-HasRoom 6 6 s h in
    let (prefixed, e) = has_prefix-some t (fewer 6 1 t ht (omega arith)) in
    rw e (prefixed-Succeeds sv t prefixed ht)

hash_string-Succeeds : (s : Shell) → HasRoom 7 s → Succeeds s (hash_string s)
unfolding hash_string
hash_string-Succeeds s h =
    let t = advance 7 s in
    let ht : HasRoom 0 t = advance-HasRoom 7 0 s h in
    let (text, e) =
      string_at-some s.command t.command_base 126 (omega (arith, ht.room)) (omega (arith, h.size))
        h.ended in
    rw e (_, refl, refl)

hash_command-Succeeds : (s : Shell) → HasRoom 12 s → Succeeds s (hash_command s)
unfolding hash_command
hash_command-Succeeds s h =
    let t = advance 5 s in
    let ht : HasRoom 7 t = advance-HasRoom 5 7 s h in
    rw (check-some 7 (codes "sha256") t ht (omega arith) refl)
      (pick s _ _ _ (hash_string-Succeeds t ht) (_, refl, refl))

pr_command-Succeeds : (s : Shell) → HasRoom 12 s → Succeeds s (pr_command s)
unfolding pr_command
pr_command-Succeeds s h =
    let ht : HasRoom 9 (advance 3 s) = advance-HasRoom 3 9 s h in
    let (text, e) =
      string_at-some s.command (advance 3 s).command_base 126 (omega (arith, ht.room))
        (omega (arith, h.size)) h.ended in
    let nothing = say (codes "Please press string!") s in
    let c2 = get_or s.command (s.command_base + 2) 0 in
    let c3 = get_or s.command (s.command_base + 3) 0 in
    rw (command_at-some 12 2 s h (omega arith)) (
      rw (command_at-some 12 3 s h (omega arith)) (
        pick s (c2 == 0) (some nothing) _ (nothing, refl, refl)
          (pick s (c3 == 0) (some nothing) _ (nothing, refl, refl)
            (say text (advance 3 s), rw e refl, refl))))

abbrev AreShort : List (List ℕ × ℕ) → Type 0
AreShort [] = Unit
AreShort ((word, n) ∷ words) = (length word ≤ 2) × (is_solid word ≡ true) × AreShort words

time_chain-Succeeds :
    (sv : Services) (words : List (List ℕ × ℕ)) (s : Shell)
    → HasRoom 2 s
    → AreShort words
    → Succeeds s (time_chain sv words s)
unfolding time_chain
time_chain-Succeeds sv [] s h short = (_, refl, refl)
time_chain-Succeeds sv ((word, n) ∷ words) s h short =
    rw (check-some 2 word s h short.0 short.1)
      (pick s _ _ _ (_, refl, refl) (time_chain-Succeeds sv words s h short.2))

time_command-Succeeds : (sv : Services) (s : Shell) → HasRoom 12 s → Succeeds s (time_command sv s)
unfolding time_command
time_command-Succeeds sv s h =
    time_chain-Succeeds sv time_words (advance 5 s)
      (fewer 7 2 (advance 5 s) (advance-HasRoom 5 7 s h) (omega arith)) (ground arith)

pub either-some :
    (n : ℕ) (a b : List ℕ) (s : Shell)
    → HasRoom n s
    → length a ≤ n
    → length b ≤ n
    → is_solid a ≡ true
    → is_solid b ≡ true
    → let w = word_at s.command s.command_base in
      check_either a b s ≡ some (same_text w a || same_text w b)
either-some n a b s h la lb sa sb =
    check_either-word_at a b s (omega (arith, h.size)) (omega (arith, h.size, h.room))
      (omega (arith, h.size, h.room)) sa sb

ver_command-Succeeds : (s : Shell) → HasRoom 12 s → Succeeds s (ver_command s)
unfolding ver_command
ver_command-Succeeds s h =
    let t = advance 4 s in
    let ht : HasRoom 8 t = advance-HasRoom 4 8 s h in
    rw (either-some 8 (codes "cmd") (codes "CMD") t ht (omega arith) (omega arith) refl refl) (
      rw (either-some 8 (codes "os") (codes "OS") t ht (omega arith) (omega arith) refl refl)
        (pick s _ _ _ (_, refl, refl) (_, refl, refl)))

-- With twelve entries behind the first word's start and a NUL at the end, `code` returns, and leaves
-- the line as it was.
pub code-Succeeds : (sv : Services) (s : Shell) → HasRoom 12 s → Succeeds s (code sv s)
unfolding code help_command nocommand
code-Succeeds sv s h =
    rw (either-some 12 (codes "help") (codes "h") s h (omega arith) (omega arith) refl refl) (
      rw (check-some 12 (codes "color") s h (omega arith) refl) (
        rw (check-some 12 (codes "hash") s h (omega arith) refl) (
          rw (check-some 12 (codes "pr") s h (omega arith) refl) (
            rw (check-some 12 (codes "time") s h (omega arith) refl) (
              rw (check-some 12 (codes "ver") s h (omega arith) refl) (
                pick s _ _ _ (_, refl, refl)
                  (pick s _ _ _ (color_command-Succeeds sv s h) (
                    pick s _ _ _ (hash_command-Succeeds s h) (
                      pick s _ _ _ (pr_command-Succeeds s h) (
                        pick s _ _ _ (time_command-Succeeds sv s h)
                          (pick s _ _ _ (ver_command-Succeeds s h) (_, refl, refl))))))))))))
