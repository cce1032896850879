-- ===== src/Shell/Session.antt =====
-- A whole session: the loop of `main_func` against a line that keys lengthen, shorten and empty.
use open_ferain_os.Base.{
  ℕ, ◌≤◌, ◌<◌, ◌≡◌, refl, arith, false, inl, inr, List, [], ◌∷◌, ◌++◌, length, get_or, replicate,
  get_or-replicate, ==_cases, ◌==◌, if◌then◌else◌, drop_last, length-append, some,
}
use open_ferain_os.Shell.{Shell, Services}
use open_ferain_os.Shell.Keys.{have_key, poll, polls, main_func}
use open_ferain_os.Shell.Line.{
  line_max, IsLine, have_key-typed, typed, typed-IsLine, back_space-drop_last,
}
use open_ferain_os.Shell.Enter.{enter-IsLine}

-- What a round of the loop does to the line: nothing without a key; Enter empties it, the back key
-- takes its last key away, every other key is added.
abbrev pub next_line : List ℕ → ℕ × ℕ → List ℕ
next_line line (status, key) =
    if status == 1
    then if key == 0x1c then [] else if key == 0x0e then drop_last line else line ++ (key ∷ [])
    else line

abbrev pub session : List ℕ → List (ℕ × ℕ) → List ℕ
session line [] = line
session line (p ∷ ps) = session (next_line line p) ps

-- No line is longer than the shell can hold.
abbrev pub StaysShort : List ℕ → List (ℕ × ℕ) → Type 0
StaysShort line [] = Unit
StaysShort line (p ∷ ps) = (length (next_line line p) ≤ line_max) × StaysShort (next_line line p) ps

IsLine-status :
    (line : List ℕ) (n : ℕ) (s : Shell) → IsLine line s → IsLine line (record s { key_status = n })
IsLine-status line n s h = record {
  size = h.size;
  counted = h.counted;
  fits = h.fits;
  start = h.start;
  head = h.head;
  typed = h.typed;
  blank = h.blank;
  unused = h.unused;
}

have_key-enter :
    (sv : Services) (line : List ℕ) (s : Shell)
    → IsLine line s
    → (t : Shell) × (have_key sv 0x1c s ≡ some t) × IsLine [] t
unfolding have_key
have_key-enter sv line s h =
    let (t, ok, new) = enter-IsLine sv line s h in
    (record t { key_status = 0 }, rw (ok, have_key) refl, IsLine-status [] 0 t new)

have_key-drop_last :
    (sv : Services) (line : List ℕ) (s : Shell)
    → IsLine line s
    → (t : Shell) × (have_key sv 0x0e s ≡ some t) × IsLine (drop_last line) t
unfolding have_key
have_key-drop_last sv line s h =
    let (t, ok, new) = back_space-drop_last sv line s h in
    (record t { key_status = 0 }, rw (ok, have_key) refl, IsLine-status (drop_last line) 0 t new)

have_key-IsLine :
    (sv : Services) (key : ℕ) (line : List ℕ) (s : Shell)
    → IsLine line s
    → length (next_line line (1, key)) ≤ line_max
    → (t : Shell) × (have_key sv key s ≡ some t) × IsLine (next_line line (1, key)) t
have_key-IsLine sv key line s h short = elim (==_cases key 0x1c) [
  | inl e ↦ rw e (have_key-enter sv line s h)
  | inr n1 ↦ elim (==_cases key 0x0e) [
    | inl e ↦ rw e (have_key-drop_last sv line s h)
    | inr n2 ↦
        let not_enter : (key == 0x1c) ≡ false = ground arith in
        let not_back : (key == 0x0e) ≡ false = ground arith in
        let room : length line < line_max =
          ground (arith, length-append line (key ∷ []), short, not_enter, not_back) in
        rw not_enter (
          rw not_back (
            typed sv key (length line) s,
            have_key-typed sv key (length line) s n1 n2 h.size h.counted (omega arith),
            typed-IsLine sv key line s h room,
          ))
  ]
]

poll-IsLine :
    (sv : Services) (p : ℕ × ℕ) (line : List ℕ) (s : Shell)
    → IsLine line s
    → length (next_line line p) ≤ line_max
    → (t : Shell) × (poll sv p s ≡ some t) × IsLine (next_line line p) t
unfolding poll
poll-IsLine sv (status, key) line s h short = elim (==_cases status 1) [
  | inl e ↦
      let stated = record s { key_status = 1 } in
      let shorter : length (next_line line (1, key)) ≤ line_max = rw e at short in
      rw e (have_key-IsLine sv key line stated (IsLine-status line 1 s h) shorter)
  | inr n ↦
      let no_key : (status == 1) ≡ false = ground arith in
      rw no_key (record s { key_status = status }, refl, IsLine-status line status s h)
]

-- As long as no line grows past 114 keys, the loop never accesses a place outside the array, whatever
-- the keys are, and the array holds the line that they make.
pub polls-IsLine :
    (sv : Services) (ps : List (ℕ × ℕ)) (line : List ℕ) (s : Shell)
    → IsLine line s
    → StaysShort line ps
    → (t : Shell) × (polls sv ps s ≡ some t) × IsLine (session line ps) t
unfolding polls
polls-IsLine sv [] line s h short = (s, refl, h)
polls-IsLine sv (p ∷ ps) line s h short =
    let (t, ok, now) = poll-IsLine sv p line s h short.0 in
    let (u, done, end) = polls-IsLine sv ps (next_line line p) t now short.1 in
    (u, rw (ok, polls) done, end)

-- The globals as the program starts with them.
pub record IsFresh (s : Shell) : Type 0 where
  pub empty : s.command ≡ replicate 127 0
  pub counted : s.cmd_char_num ≡ 17
  pub start : s.command_base ≡ 0

pub main_func-IsLine : (sv : Services) (s : Shell) → IsFresh s → IsLine [] (main_func sv s)
unfolding main_func
main_func-IsLine sv s h =
    let at : (i : ℕ) → get_or s.command i 0 ≡ 0 = λ i. rw h.empty (get_or-replicate 127 i) in
    record {
      size = rw h.empty refl;
      counted = h.counted;
      fits = omega arith;
      start = h.start;
      head = at 0;
      typed = λ i l. absurd (omega arith);
      blank = λ i p q. rw (at i) refl;
      unused = λ i p q. at i;
    }

-- From the globals as the program starts, as long as no line grows past 114 keys: the program takes
-- every sequence of statuses and keys, never leaves the array, and the array then holds the line that
-- the keys make.
pub polls-main_func :
    (sv : Services) (s : Shell) (ps : List (ℕ × ℕ))
    → IsFresh s
    → StaysShort [] ps
    → (t : Shell) × (polls sv ps (main_func sv s) ≡ some t) × IsLine (session [] ps) t
polls-main_func sv s ps h short =
    polls-IsLine sv ps [] (main_func sv s) (main_func-IsLine sv s h) short
