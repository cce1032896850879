-- ===== src/Shell/Line.antt =====
-- The line that the array stands for, under each key.
use open_ferain_os.Base.{
  ℕ, ◌+◌, ◌-◌, ◌≤◌, ◌<◌, ◌≡◌, ◌≢◌, ◌∙◌, refl, ap, arith, true, false, List, [], ◌∷◌, ◌++◌, length,
  get_or, set, ◌==◌, leb, u32, sub32, length-set, get_or-set, get_or-append, length-append,
  drop_last, length-drop_last, get_or-drop_last, Option, none, some, ◌>>=◌,
}
use open_ferain_os.Console.{type}
use open_ferain_os.Shell.{Shell, Services, on_system}
use open_ferain_os.Shell.Keys.{back_space, have_key, store_command, row_up, wrap_line}
use open_ferain_os.Shell.Word.{is_blank}

-- How long a line may be, so that no command reads behind the array.
abbrev pub line_max : ℕ
line_max = 114

-- The array holds the line from entry 1 on; what stands behind it is blank, and zero behind every
-- line that may be typed.
pub record IsLine (line : List ℕ) (s : Shell) : Type 0 where
  pub size : length s.command ≡ 127
  pub counted : s.cmd_char_num ≡ 17 + length line
  pub fits : length line ≤ line_max
  pub start : s.command_base ≡ 0
  pub head : get_or s.command 0 0 ≡ 0
  pub typed : (i : ℕ) → i < length line → get_or s.command (i + 1) 0 ≡ get_or line i 0
  pub blank : (i : ℕ) → length line < i → i < 127 → is_blank (get_or s.command i 0) ≡ true
  pub unused : (i : ℕ) → line_max < i → i < 127 → get_or s.command i 0 ≡ 0

-- A store inside the array.
pub store_command-set :
    (c i : ℕ) (s : Shell)
    → s.cmd_char_num ≡ 17 + i
    → i < length s.command
    → length s.command ≡ 127
    → store_command c s ≡ some (record s { command = set s.command i c })
unfolding store_command
store_command-set c i s e inside size =
    let place : sub32 s.cmd_char_num 17 ≡ i = omega arith in rw place (ground arith)

-- `have_key` up to the store.
abbrev pub echo : Services → ℕ → Shell → Shell
echo sv key s =
    let shown = on_system (type sv.int30 key) s in
    wrap_line sv (record shown {
      cmd_char_num = u32 (shown.cmd_char_num + 1);
      line_char_num = u32 (shown.line_char_num + 1);
    })

-- What such a key leaves at the end of a line of `n` keys.
abbrev pub typed : Services → ℕ → ℕ → Shell → Shell
typed sv key n s = record (echo sv key s) {
  command = set (echo sv key s).command (n + 1) key;
  key_status = 0;
}

pub echo_keeps :
    (sv : Services) (key : ℕ) (s : Shell)
    → ((echo sv key s).command ≡ s.command)
      × ((echo sv key s).cmd_char_num ≡ u32 (s.cmd_char_num + 1))
      × ((echo sv key s).command_base ≡ s.command_base)
      × ((echo sv key s).sha ≡ s.sha)
unfolding wrap_line
echo_keeps sv key s = ground arith

pub have_key-echo :
    (sv : Services) (key : ℕ) (s : Shell)
    → key ≢ 0x1c
    → key ≢ 0x0e
    → have_key sv key s
      ≡ (store_command key (echo sv key s) >>= λ (t : Shell). some (record t { key_status = 0 }))
unfolding have_key
have_key-echo sv key s n1 n2 =
    let not_enter : (key == 0x1c) ≡ false = ground arith in
    let not_back : (key == 0x0e) ≡ false = ground arith in
    rw (not_enter, have_key) (rw not_back refl)

-- A key that is neither Enter nor the back key, with room for it.
pub have_key-typed :
    (sv : Services) (key n : ℕ) (s : Shell)
    → key ≢ 0x1c
    → key ≢ 0x0e
    → length s.command ≡ 127
    → s.cmd_char_num ≡ 17 + n
    → n < 126
    → have_key sv key s ≡ some (typed sv key n s)
have_key-typed sv key n s n1 n2 size counted room =
    let (ec, en, eb, es) = echo_keeps sv key s in
    let number : (echo sv key s).cmd_char_num ≡ 17 + (n + 1) = en ∙ omega (arith, counted) in
    let size2 : length (echo sv key s).command ≡ 127 = ap length ec ∙ size in
    let stored = store_command-set key (n + 1) (echo sv key s) number (omega arith) size2 in
    have_key-echo sv key s n1 n2
    ∙ ap (λ (o : Option Shell). o >>= λ (t : Shell). some (record t { key_status = 0 })) stored

row_up_keeps :
    (s : Shell)
    → ((row_up s).command ≡ s.command)
      × ((row_up s).cmd_char_num ≡ s.cmd_char_num)
      × ((row_up s).command_base ≡ s.command_base)
unfolding row_up
row_up_keeps s = ground arith

IsLine-append :
    (line : List ℕ) (key : ℕ) (s t : Shell)
    → IsLine line s
    → length line < line_max
    → t.command ≡ set s.command (length line + 1) key
    → t.cmd_char_num ≡ 17 + (length line + 1)
    → t.command_base ≡ 0
    → IsLine (line ++ (key ∷ [])) t
IsLine-append line key s t h room ec en eb =
    let n = length line in
    let more : length (line ++ (key ∷ [])) ≡ n + 1 = omega (arith, length-append line (key ∷ [])) in
    let inside : n + 1 < length s.command = omega (arith, h.size) in
    let at = λ (j : ℕ). get_or-set s.command (n + 1) j key inside in
    record {
      size = rw ec (length-set s.command (n + 1) key ∙ h.size);
      counted = omega (arith, more);
      fits = omega (arith, more);
      start = eb;
      head = rw ec (ground (arith, at 0, h.head));
      typed = λ i l. rw ec (ground (arith, at (i + 1), h.typed i, get_or-append line key i, more));
      blank = λ i p q. rw ec (ground (arith, at i, h.blank i, more));
      unused = λ i p q. rw ec (ground (arith, at i, h.unused i));
    }

-- A key goes to the end of the line.
pub typed-IsLine :
    (sv : Services) (key : ℕ) (line : List ℕ) (s : Shell)
    → IsLine line s
    → length line < line_max
    → IsLine (line ++ (key ∷ [])) (typed sv key (length line) s)
typed-IsLine sv key line s h room =
    let (ec, en, eb, es) = echo_keeps sv key s in
    IsLine-append line key s _ h room (ap (λ (c : List ℕ). set c (length line + 1) key) ec)
      (en ∙ omega (arith, h.counted)) (eb ∙ h.start)

IsLine-drop_last :
    (line : List ℕ) (s t : Shell)
    → IsLine line s
    → 0 < length line
    → t.command ≡ set s.command (length line) 0
    → t.cmd_char_num ≡ 17 + (length line - 1)
    → t.command_base ≡ 0
    → IsLine (drop_last line) t
IsLine-drop_last line s t h some_key ec en eb =
    let n = length line in
    let less = length-drop_last line in
    let inside : n < length s.command = omega (arith, h.size, h.fits) in
    let at = λ (j : ℕ). get_or-set s.command n j 0 inside in
    record {
      size = rw ec (length-set s.command n 0 ∙ h.size);
      counted = omega (arith, less);
      fits = omega (arith, less, h.fits);
      start = eb;
      head = rw ec (ground (arith, at 0, h.head));
      typed = λ i l. rw ec (ground (arith, at (i + 1), h.typed i, get_or-drop_last line i, less));
      blank = λ i p q. rw ec (ground (arith, at i, h.blank i, less));
      unused = λ i p q. rw ec (ground (arith, at i, h.unused i));
    }

-- The back key takes the last one away, if there is one.
pub back_space-drop_last :
    (sv : Services) (line : List ℕ) (s : Shell)
    → IsLine line s
    → (t : Shell) × (back_space sv s ≡ some t) × IsLine (drop_last line) t
unfolding back_space
back_space-drop_last sv [] s h =
    let none_typed : leb s.cmd_char_num 17 ≡ true = ground (arith, h.counted) in
    (s, rw (none_typed, back_space) refl, h)
back_space-drop_last sv (k ∷ ks) s h =
    let n = length (k ∷ ks) in
    let some_typed : leb s.cmd_char_num 17 ≡ false = ground (arith, h.counted) in
    let color = s.system.color in
    let erased = on_system (λ c. sv.int30 0x80 color none (sv.int30 0x03 color none c)) s in
    let stored = store_command-set 0 n erased h.counted (omega (arith, h.size, h.fits)) h.size in
    let u : Shell = record erased {
      command = set s.command n 0;
      cmd_char_num = sub32 s.cmd_char_num 1;
      line_char_num = sub32 s.line_char_num 1;
    } in
    let (ec, en, eb) = row_up_keeps u in
    (
      row_up u,
      rw (some_typed, back_space) (rw stored refl),
      IsLine-drop_last (k ∷ ks) s (row_up u) h (omega arith) ec
          (en ∙ omega (arith, h.counted, h.fits)) (eb ∙ h.start),
    )
