-- ===== src/Shell/Texts.antt =====
-- Whole lines, from the keys to the console: `hash sha256` and `pr` with a text.
use open_ferain_os.Base.{
  ℕ, suc, ◌-◌, ◌≤◌, ◌≡◌, ◌≢◌, ◌∙◌, refl, ap, arith, true, false, List, [], ◌∷◌, ◌++◌, codes, length,
  ◌==◌, replicate, append_assoc, IsByteList, some,
}
use open_ferain_os.Console.{printf}
use open_ferain_os.Sha.{Sha, sha256}
use open_ferain_os.Sha.Standard.{digest}
use open_ferain_os.Sha.Text.{hash_text}
use open_ferain_os.Sha.Laws.{IsSha, sha256-digest}
use open_ferain_os.Shell.{
  Shell, Services, cmd_calculate, command_at, cmd_code_check, advance, say, press_command,
}
use open_ferain_os.Shell.Code.{code, hash_command, hash_string, pr_command, string_at}
use open_ferain_os.Shell.Keys.{enter, prompt, clear_command, polls, main_func, have_key}
use open_ferain_os.Shell.Word.{is_blank, word_at}
use open_ferain_os.Shell.Bounds.{HasRoom, check-some}
use open_ferain_os.Shell.Session.{IsFresh}
use open_ferain_os.Shell.Typing.{IsTyped, AreOrdinary, presses, presses_fresh}
use open_ferain_os.Shell.Dispatch.{IsTyped-array_of, cmd_calculate_first, code-named}

-- A text that a line can hold: keys that type, and no NUL.
abbrev pub IsText : List ℕ → Type 0
IsText [] = Unit
IsText (k ∷ ks) = (k ≢ 0) × (k ≢ 0x1c) × (k ≢ 0x0e) × IsText ks

string_at_text :
    (text : List ℕ) (n : ℕ) → IsText text → string_at (text ++ replicate (suc n) 0) 0 ≡ some text
unfolding string_at
string_at_text [] n plain = refl
string_at_text (x ∷ xs) n plain =
    let char : (x == 0) ≡ false = ground (arith, plain.0) in
    rw char (rw (string_at_text xs n plain.3) refl)

-- An array with a word's text behind it, and a NUL.
abbrev Holds : List ℕ → List ℕ → ℕ → Shell → Type 0
Holds word text m s =
    (s.command ≡ 0 ∷ (word ++ (text ++ replicate (suc m) 0))) × (s.command_base ≡ 1) × HasRoom 12 s

hash_command-digest :
    (text : List ℕ) (m : ℕ) (s : Shell)
    → Holds (codes "hash sha256 ") text m s
    → IsSha s.sha
    → IsText text
    → IsByteList text
    → length text ≤ 55
    → (u : Shell) × (hash_command s ≡ some u)
      × (u.sha.hash32 ≡ digest text)
      × (u.system ≡ printf (hash_text (digest text)) s.system)
unfolding hash_command hash_string string_at
hash_command-digest text m s (holds, base, room) sizes plain bytes short =
    let t = advance 5 s in
    let at : t.command_base ≡ 6 = rw base refl in
    let room2 : HasRoom 7 t = record {
      size = room.size;
      room = omega (arith, room.room);
      ended = room.ended;
    } in
    let word : word_at t.command t.command_base ≡ codes "sha256" = rw (at, holds) refl in
    let named : cmd_code_check (codes "sha256") t ≡ some true =
      check-some 7 (codes "sha256") t room2 (omega arith) refl ∙ rw word refl in
    let read : string_at s.command (advance 7 t).command_base ≡ some text =
      rw (base, holds) (string_at_text text m plain) in
    let (words, shown) = sha256-digest text s.sha s.system sizes bytes short in
    let hashed = sha256 text (s.sha, s.system) in
    (
      record (advance 7 t) { sha = hashed.0; system = hashed.1 },
      rw (named, hash_command) (rw read refl),
      words,
      shown,
    )

pr_command-printf :
    (k : ℕ) (text : List ℕ) (m : ℕ) (s : Shell)
    → Holds (codes "pr ") (k ∷ text) m s
    → IsText (k ∷ text)
    → (u : Shell) × (pr_command s ≡ some u) × (u.system ≡ printf (k ∷ text) s.system)
unfolding pr_command string_at
pr_command-printf k text m s (holds, base, room) plain =
    let char : (k == 0) ≡ false = ground (arith, plain.0) in
    let c2 : command_at s 2 ≡ some 0x20 = rw (base, holds) refl in
    let c3 : command_at s 3 ≡ some k = rw (base, holds) refl in
    let read : string_at s.command (advance 3 s).command_base ≡ some (k ∷ text) =
      rw (base, holds) (string_at_text (k ∷ text) m plain) in
    (say (k ∷ text) (advance 3 s), rw (c2, pr_command) (rw c3 (rw char (rw read refl))), refl)

-- Enter on a line of a word and a text, where the command that the word names gives `u`.
enter_command :
    (sv : Services) (word text : List ℕ) (arrays : Sha) (s : Shell)
    → IsTyped (word ++ text) arrays s
    → (k : ℕ) (ks : List ℕ) → word ++ text ≡ k ∷ ks
    → is_blank k ≡ false
    → let t = (cmd_calculate s).1 in
      Holds word text (125 - length (word ++ text)) t
      × (t.system ≡ s.system)
      × (t.sha ≡ arrays)
      × ((u : Shell) → code sv t ≡ some u → enter sv s ≡ some (prompt (clear_command u)))
unfolding enter
enter_command sv word text arrays s h k ks e char =
    let t = (cmd_calculate s).1 in
    let line = word ++ text in
    let (flag, keeps, room) = cmd_calculate_first k ks s (rw e at h.line) char in
    let one_more : 126 - length line ≡ suc (125 - length line) = omega (arith, h.line.fits) in
    let joined = append_assoc word text (replicate {A = ℕ} (suc (125 - length line)) 0) in
    let array : t.command ≡ 0 ∷ (word ++ (text ++ replicate (suc (125 - length line)) 0)) =
      ap (λ (v : Shell). v.command) keeps
      ∙ IsTyped-array_of line arrays s h
      ∙ ap (λ (n : ℕ). 0 ∷ (line ++ replicate n 0)) one_more
      ∙ ap (λ (xs : List ℕ). 0 ∷ xs) joined in
    (
      (array, ap (λ (v : Shell). v.command_base) keeps, room),
      ap (λ (v : Shell). v.system) keeps,
      ap (λ (v : Shell). v.sha) keeps ∙ h.kept,
      λ u ok. rw (flag, enter) (rw ok refl),
    )

AreOrdinary-append :
    (word text : List ℕ) → AreOrdinary word → IsText text → AreOrdinary (word ++ text)
AreOrdinary-append [] [] w h = tt
AreOrdinary-append [] (k ∷ ks) w h = (h.1, h.2, AreOrdinary-append [] ks tt h.3)
AreOrdinary-append (x ∷ xs) text w h = (w.0, w.1, AreOrdinary-append xs text w.2 h)

have_key-enter :
    (sv : Services) (s t : Shell)
    → enter sv s ≡ some t
    → have_key sv 0x1c s ≡ some (record t { key_status = 0 })
unfolding have_key
have_key-enter sv s t ok = rw (ok, have_key) refl

-- From the globals as the program starts and hash arrays of their declared sizes: the keys of
-- `hash sha256 ` and of a text of at most 55 bytes, which holds no NUL and neither the code of Enter nor
-- that of the back key, are all taken, and Enter then computes the hash of the standard, prints its
-- hexadecimal text, and prompts.
pub hash_line :
    (sv : Services) (s : Shell) (text : List ℕ)
    → IsFresh s
    → IsSha s.sha
    → IsText text
    → IsByteList text
    → length text ≤ 55
    → (u : Shell) × (t : Shell) × (polls sv
          (presses (codes "hash sha256 " ++ text))
          (main_func sv s)
        ≡ some u)
      × (have_key sv 0x1c u ≡ some t)
      × (t.sha.hash32 ≡ digest text)
      × (t.system ≡ printf press_command (printf (hash_text (digest text)) u.system))
unfolding prompt clear_command
hash_line sv s text fresh sizes plain bytes short =
    let word = codes "hash sha256 " in
    let typing = AreOrdinary-append word text (ground arith) plain in
    let (u, ok, line) = presses_fresh sv (word ++ text) s fresh typing (omega arith) in
    let t = (cmd_calculate u).1 in
    let (holds, system, arrays, run) = enter_command sv word text s.sha u line _ _ refl refl in
    let chosen : code sv t ≡ hash_command t =
      code-named sv t holds.2.size holds.2.room ∙ rw (holds.1, holds.0) refl in
    let (v, hashed, words, shown) =
      hash_command-digest text (125 - length (word ++ text)) t holds (rw arrays sizes) plain bytes
        short in
    (
      u,
      record (prompt (clear_command v)) { key_status = 0 },
      ok,
      have_key-enter sv u _ (run v (chosen ∙ hashed)),
      words,
      ap (printf press_command) (shown ∙ ap (printf (hash_text (digest text))) system),
    )

-- From the globals as the program starts: the keys of `pr ` and of a text of 1 to 111 keys, which holds
-- no NUL and neither the code of Enter nor that of the back key, are all taken, and Enter then prints
-- the text, and prompts.
pub pr_line :
    (sv : Services) (s : Shell) (k : ℕ) (text : List ℕ)
    → IsFresh s
    → IsText (k ∷ text)
    → length text ≤ 110
    → (u : Shell) × (t : Shell) × (polls sv (presses (codes "pr " ++ (k ∷ text))) (main_func sv s)
        ≡ some u)
      × (have_key sv 0x1c u ≡ some t)
      × (t.system ≡ printf press_command (printf (k ∷ text) u.system))
unfolding prompt clear_command
pr_line sv s k text fresh plain short =
    let word = codes "pr " in
    let typing = AreOrdinary-append word (k ∷ text) (ground arith) plain in
    let (u, ok, line) = presses_fresh sv (word ++ (k ∷ text)) s fresh typing (omega arith) in
    let t = (cmd_calculate u).1 in
    let (holds, system, arrays, run) =
      enter_command sv word (k ∷ text) s.sha u line _ _ refl refl in
    let chosen : code sv t ≡ pr_command t =
      code-named sv t holds.2.size holds.2.room ∙ rw (holds.1, holds.0) refl in
    let (v, printed, shown) =
      pr_command-printf k text (125 - length (word ++ (k ∷ text))) t holds plain in
    (
      u,
      record (prompt (clear_command v)) { key_status = 0 },
      ok,
      have_key-enter sv u _ (run v (chosen ∙ printed)),
      ap (printf press_command) (shown ∙ ap (printf (k ∷ text)) system),
    )
