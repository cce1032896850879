-- ===== src/Shell/Dispatch.antt =====
-- `enter` runs the command that the first word of the line names.
use open_ferain_os.Base.{
  ℕ, zero, suc, ◌+◌, ◌-◌, ◌≤◌, ◌<◌, ◌≡◌, refl, ap, arith, false, true, inl, inr, List, ◌∷◌, ◌++◌,
  codes, length, get_or, ◌||◌, if◌then◌else◌, replicate, length-append, length-replicate,
  get_or_ext, get_or-append_zeros, Option, some,
}
use open_ferain_os.Sha.{Sha}
use open_ferain_os.Shell.{check_either, Shell, Services, cmd_calculate}
use open_ferain_os.Shell.Code.{
  code, help_command, color_command, hash_command, pr_command, time_command, ver_command, nocommand,
}
use open_ferain_os.Shell.Word.{
  is_solid, cmd_code_check-word_at, check_either-word_at, is_blank, word_at, same_text,
}
use open_ferain_os.Shell.Bounds.{HasRoom}
use open_ferain_os.Shell.First.{cmd_calculate-AreEnds}
use open_ferain_os.Shell.Line.{IsLine}
use open_ferain_os.Shell.Enter.{AreEnds-HasRoom}
use open_ferain_os.Shell.Typing.{IsTyped}

-- The command that a word names.
abbrev pub named : Services → List ℕ → Shell → Option Shell
named sv w s =
    if same_text w (codes "help") || same_text w (codes "h")
    then some (help_command sv s)
    else if same_text w (codes "color")
    then color_command sv s
    else if same_text w (codes "hash")
    then hash_command s
    else if same_text w (codes "pr")
    then pr_command s
    else if same_text w (codes "time")
    then time_command sv s
    else if same_text w (codes "ver")
    then ver_command s
    else some (nocommand s)

-- On an array of 127 entries with twelve behind `command_base`, `code` runs the command that the word
-- there names, as a whole word: the checks character by character are equality with that word.
pub code-named :
    (sv : Services) (s : Shell)
    → length s.command ≡ 127
    → s.command_base + 12 < 127
    → code sv s ≡ named sv (word_at s.command s.command_base) s
unfolding code
code-named sv s size room =
    let w = word_at s.command s.command_base in
    let check = λ (text : List ℕ) (short : length text ≤ 12) (solid : is_solid text ≡ true).
      cmd_code_check-word_at text s (omega (arith, size)) (omega (arith, size, room)) solid in
    let either : check_either (codes "help") (codes "h") s
        ≡ some (same_text w (codes "help") || same_text w (codes "h")) =
      check_either-word_at (codes "help") (codes "h") s (omega (arith, size))
        (omega (arith, size, room)) (omega (arith, size, room)) refl refl in
    rw either (
      rw (check (codes "color") (omega arith) refl) (
        rw (check (codes "hash") (omega arith) refl) (
          rw (check (codes "pr") (omega arith) refl) (
            rw (check (codes "time") (omega arith) refl)
              (rw (check (codes "ver") (omega arith) refl) refl)))))

-- The array of a line with zero behind it.
abbrev pub array_of : List ℕ → List ℕ
array_of line = 0 ∷ (line ++ replicate (126 - length line) 0)

pub IsTyped-array_of :
    (line : List ℕ) (arrays : Sha) (s : Shell) → IsTyped line arrays s → s.command ≡ array_of line
IsTyped-array_of line arrays s h =
    let l = h.line in
    let zeros = replicate {A = ℕ} (126 - length line) 0 in
    let size = length-append line zeros in
    let same : (i : ℕ) → i < length s.command → get_or s.command i 0 ≡ get_or (array_of line) i 0 =
      λ i inside. entry i inside in
    get_or_ext s.command (array_of line)
      (omega (arith, l.size, l.fits, size, length-replicate (126 - length line))) same
  where
    entry : (i : ℕ) → i < length s.command → get_or s.command i 0 ≡ get_or (array_of line) i 0
    entry zero inside = h.line.head
    entry (suc i) inside = ground (
      arith,
      h.line.size,
      h.line.typed i,
      h.clean (i + 1),
      get_or-append_zeros line (126 - length line) i,
    )

-- A line that starts with a word: `cmd_calculate` answers 1 and sets `command_base` to it.
pub cmd_calculate_first :
    (k : ℕ) (ks : List ℕ) (s : Shell)
    → IsLine (k ∷ ks) s
    → is_blank k ≡ false
    → let (flag, t) = cmd_calculate s in
      (flag ≡ 1) × (t ≡ record s { command_base = 1; command_len = t.command_len }) × HasRoom 12 t
cmd_calculate_first k ks s h char =
    let t = (cmd_calculate s).1 in
    let (keeps, cases) = cmd_calculate-AreEnds s h.start h.size in
    let first : get_or s.command 1 0 ≡ k = h.typed 0 (omega arith) in
    elim cases [
      | inl (flag, base, all) ↦ absurd (ground (arith, all 1, first, char))
      | inr (flag, (l, ends, len)) ↦
          let low : t.command_base ≡ 1 =
            ground (arith, ends.before 1, ends.first, first, char, h.head) in
          (
            flag,
            rw low at keeps,
            AreEnds-HasRoom (k ∷ ks) s t l h (ap (λ (u : Shell). u.command) keeps) ends,
          )
    ]
