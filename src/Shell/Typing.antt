-- ===== src/Shell/Typing.antt =====
-- Keys that only type: how many the array takes, and what it holds behind the line.
use open_ferain_os.Base.{
  ℕ, ◌+◌, ◌≤◌, ◌<◌, ◌≡◌, ◌≢◌, ◌∙◌, refl, ap, arith, inl, inr, List, [], ◌∷◌, ◌++◌, length, get_or,
  ==_cases, sub32, length-set, get_or-set, length-append, append-nil, append_assoc,
  get_or-replicate, none, some, ◌>>=◌,
}
use open_ferain_os.Sha.{Sha}
use open_ferain_os.Shell.{Shell, Services}
use open_ferain_os.Shell.Keys.{have_key, poll, polls, main_func, store_command}
use open_ferain_os.Shell.Line.{
  line_max, IsLine, echo, echo_keeps, have_key-echo, have_key-typed, typed, typed-IsLine,
}
use open_ferain_os.Shell.Session.{IsFresh, main_func-IsLine}

-- A key that arrives in every round.
abbrev pub presses : List ℕ → List (ℕ × ℕ)
presses [] = []
presses (k ∷ ks) = (1, k) ∷ presses ks

abbrev pub AreOrdinary : List ℕ → Type 0
AreOrdinary [] = Unit
AreOrdinary (k ∷ ks) = (k ≢ 0x1c) × (k ≢ 0x0e) × AreOrdinary ks

record HasKeys (n : ℕ) (s : Shell) : Type 0 where
  pub size : length s.command ≡ 127
  pub counted : s.cmd_char_num ≡ 17 + n

abbrev pressed : Shell → Shell
pressed s = record s { key_status = 1 }

presses-step :
    (sv : Services) (k : ℕ) (ks : List ℕ) (s : Shell)
    → polls sv (presses (k ∷ ks)) s ≡ (have_key sv k (pressed s) >>= polls sv (presses ks))
unfolding polls poll
presses-step sv k ks s = refl

typed-HasKeys :
    (sv : Services) (key n : ℕ) (s : Shell)
    → HasKeys n s
    → n < 126
    → HasKeys (n + 1) (typed sv key n s)
typed-HasKeys sv key n s h room =
    let (ec, en, eb, es) = echo_keeps sv key s in
    record {
      size = length-set (echo sv key s).command (n + 1) key ∙ ap length ec ∙ h.size;
      counted = en ∙ omega (arith, h.counted);
    }

presses_fit :
    (sv : Services) (ks : List ℕ) (n : ℕ) (s : Shell)
    → HasKeys n s
    → AreOrdinary ks
    → n + length ks ≤ 126
    → (t : Shell) × (polls sv (presses ks) s ≡ some t)
unfolding polls
presses_fit sv [] n s h plain room = (s, refl)
presses_fit sv (k ∷ ks) n s h plain room =
    let h2 : HasKeys n (pressed s) = record { size = h.size; counted = h.counted } in
    let next = typed-HasKeys sv k n (pressed s) h2 (omega arith) in
    let (t, ok) = presses_fit sv ks (n + 1) (typed sv k n (pressed s)) next plain.2 (omega arith) in
    (
      t,
      presses-step sv k ks s
          ∙ rw (have_key-typed sv k n (pressed s) plain.0 plain.1 h.size h.counted (omega arith))
              ok,
    )

have_key_outside :
    (sv : Services) (k : ℕ) (s : Shell)
    → HasKeys 126 s
    → k ≢ 0x1c
    → k ≢ 0x0e
    → have_key sv k s ≡ none
unfolding store_command
have_key_outside sv k s h n1 n2 =
    let (ec, en, eb, es) = echo_keeps sv k s in
    let number : sub32 (echo sv k s).cmd_char_num 17 ≡ 127 = omega (arith, en, h.counted) in
    let size : length (echo sv k s).command ≡ 127 = ap length ec ∙ h.size in
    have_key-echo sv k s n1 n2 ∙ rw number (rw size refl)

presses_overflow :
    (sv : Services) (ks : List ℕ) (n : ℕ) (s : Shell)
    → HasKeys n s
    → AreOrdinary ks
    → n ≤ 126
    → 126 < n + length ks
    → polls sv (presses ks) s ≡ none
presses_overflow sv [] n s h plain low many = absurd (omega arith)
presses_overflow sv (k ∷ ks) n s h plain low many =
    let h2 : HasKeys n (pressed s) = record { size = h.size; counted = h.counted } in
    presses-step sv k ks s ∙ (elim (==_cases n 126) [
      | inl full ↦
          let h3 : HasKeys 126 (pressed s) = record {
            size = h.size;
            counted = h.counted ∙ ap (λ (i : ℕ). 17 + i) full;
          } in
          rw (have_key_outside sv k (pressed s) h3 plain.0 plain.1) refl
      | inr room ↦
          let next = typed-HasKeys sv k n (pressed s) h2 (omega arith) in
          rw (have_key-typed sv k n (pressed s) plain.0 plain.1 h.size h.counted (omega arith)) (
            presses_overflow sv ks (n + 1) (typed sv k n (pressed s)) next plain.2 (omega arith)
              (omega arith))
    ])

-- Keys that are neither Enter nor the back key, from the globals as the program starts: up to 126 of
-- them are stored inside `command`, and with more of them a store outside it happens.
pub presses-main_func :
    (sv : Services) (s : Shell) (ks : List ℕ)
    → IsFresh s
    → AreOrdinary ks
    → (length ks ≤ 126 → (t : Shell) × (polls sv (presses ks) (main_func sv s) ≡ some t))
      × (126 < length ks → polls sv (presses ks) (main_func sv s) ≡ none)
presses-main_func sv s ks h plain =
    let start = main_func-IsLine sv s h in
    let none_yet : HasKeys 0 (main_func sv s) = record {
      size = start.size;
      counted = start.counted;
    } in
    (
      λ room. presses_fit sv ks 0 (main_func sv s) none_yet plain (omega arith),
      λ many. presses_overflow sv ks 0 (main_func sv s) none_yet plain (omega arith) (omega arith),
    )

-- A line with zero behind it, and the arrays of the hash.
pub record IsTyped (keys : List ℕ) (arrays : Sha) (s : Shell) : Type 0 where
  pub line : IsLine keys s
  pub clean : (i : ℕ) → length keys < i → i < 127 → get_or s.command i 0 ≡ 0
  pub kept : s.sha ≡ arrays

typed-IsTyped :
    (sv : Services) (key : ℕ) (keys : List ℕ) (arrays : Sha) (s : Shell)
    → IsTyped keys arrays s
    → length keys < line_max
    → IsTyped (keys ++ (key ∷ [])) arrays (typed sv key (length keys) (pressed s))
typed-IsTyped sv key keys arrays s h room =
    let n = length keys in
    let l = h.line in
    let now : IsLine keys (pressed s) = record {
      size = l.size;
      counted = l.counted;
      fits = l.fits;
      start = l.start;
      head = l.head;
      typed = l.typed;
      blank = l.blank;
      unused = l.unused;
    } in
    let (ec, en, eb, es) = echo_keeps sv key (pressed s) in
    let more : length (keys ++ (key ∷ [])) ≡ n + 1 = omega (arith, length-append keys (key ∷ [])) in
    record {
      line = typed-IsLine sv key keys (pressed s) now room;
      clean = λ i p q. rw ec (
          ground
            (arith, get_or-set s.command (n + 1) i key (omega (arith, l.size)), h.clean i, more));
      kept = es ∙ h.kept;
    }

presses-IsTyped :
    (sv : Services) (ks line : List ℕ) (arrays : Sha) (s : Shell)
    → IsTyped line arrays s
    → AreOrdinary ks
    → length line + length ks ≤ line_max
    → (t : Shell) × (polls sv (presses ks) s ≡ some t) × IsTyped (line ++ ks) arrays t
unfolding polls
presses-IsTyped sv [] line arrays s h plain room = (s, refl, rw (append-nil line) h)
presses-IsTyped sv (k ∷ ks) line arrays s h plain room =
    let step =
      have_key-typed sv k (length line) (pressed s) plain.0 plain.1 h.line.size h.line.counted
        (omega arith) in
    let next = typed-IsTyped sv k line arrays s h (omega arith) in
    let fits = length-append line (k ∷ []) in
    let joined : line ++ (k ∷ []) ++ ks ≡ line ++ (k ∷ ks) = append_assoc line (k ∷ []) ks in
    let (t, ok, end) =
      presses-IsTyped sv ks (line ++ (k ∷ [])) arrays (typed sv k (length line) (pressed s)) next
        plain.2 (omega (arith, fits)) in
    (t, presses-step sv k ks s ∙ rw step ok, rw joined at end)

-- From the globals as the program starts, the array holds the keys typed, and zero behind them.
pub presses_fresh :
    (sv : Services) (ks : List ℕ) (s : Shell)
    → IsFresh s
    → AreOrdinary ks
    → length ks ≤ line_max
    → (t : Shell) × (polls sv (presses ks) (main_func sv s) ≡ some t) × IsTyped ks s.sha t
unfolding main_func
presses_fresh sv ks s h plain room =
    let start = main_func-IsLine sv s h in
    presses-IsTyped sv ks [] s.sha (main_func sv s)
      (record { line = start; clean = λ i p q. rw h.empty (get_or-replicate 127 i); kept = refl })
      plain (omega arith)
