-- ===== src/Shell/Code.antt =====
-- `code` and the commands that it chooses from.
use open_ferain_os.Base.{
  ℕ, zero, suc, Bool, false, List, [], ◌∷◌, codes, ◌==◌, ◌||◌, if◌then◌else◌, bit_or, u8, ◌<<<◌,
  Option, none, some, ◌>>=◌,
}
use open_ferain_os.Console.{set_color}
use open_ferain_os.Digits.{char_to_hex}
use open_ferain_os.Sha.{sha256}
use open_ferain_os.Shell.{
  Shell, Services, on_system, say, command_at, advance, cmd_code_check, check_either,
}

-- The colour is given back, whatever was printed under 0x04.
unfoldable pub nocommand : Shell → Shell
nocommand s =
    let t = on_system (λ c. record c { color = 0x04 }) s in
    let t =
      say (codes "Press 'help' or 'h' to get more information")
        (say (codes "Command not Found!") t) in
    on_system (λ c. record c { color = s.system.color }) t

unfoldable pub color_error : Services → Shell → Shell
color_error sv s =
    let s = on_system sv.scroll (say (codes "Unknown color") s) in
    let s = say (codes "                 -- --") (say (codes "color format :    XX") s) in
    let s = say (codes "                0~F 0~F") (say (codes "                 ^  ^") s) in
    say (codes "   background color  foreground color") s

unfoldable pub help_command : Services → Shell → Shell
help_command sv s =
    let s = on_system sv.scroll (say (codes "OpenFerain OS @ Command Shell 1.0.7_19") s) in
    let s = say (codes "color [color] --  set color") s in
    let s = say (codes "hash [-algorithm_name] [str] --  Get a string's hash") s in
    let s = say (codes "pr [str] --  Print string") s in
    let s =
      say (codes "time [a/y/mo/d/h/mi/s] --  Get time all/year/month/day/hour/minute/second") s in
    let s = say (codes "ver [appname]  --  Get an application's version") s in
    say (codes "help/h  --  Get help") s

-- The two digits at `command_base`: the same code stands in both branches.
unfoldable pub choose_color : Services → Shell → Option Shell
unfolding char_to_hex set_color
choose_color sv s = do
  d0 ← command_at s 0
  if char_to_hex d0 == 0x1000 then some (color_error sv s) else do
    d1 ← command_at s 1
    let chosen = u8 (bit_or (u8 (char_to_hex d0) <<< 4) (u8 (char_to_hex d1)))
    some (
        if char_to_hex d1 == 0x1000
        then color_error sv s
        else on_system (λ c. set_color sv.int30 (record c { color = chosen })) s)

-- Whether `0x` or `0X` stands at `command_base`.
unfoldable pub has_prefix : Shell → Option Bool
has_prefix s = do
  c0 ← command_at s 0
  if c0 == b'0' then (do c1 ← command_at s 1; some (c1 == b'x' || c1 == b'X')) else some false

unfoldable pub color_command : Services → Shell → Option Shell
unfolding has_prefix choose_color
color_command sv s =
    let s = advance 6 s in
    do prefixed ← has_prefix s; choose_color sv (if prefixed then advance 2 s else s)

-- The string from an entry on, up to its NUL; none where no NUL stands in the array.
unfoldable pub string_at : List ℕ → ℕ → Option (List ℕ)
string_at [] i = none
string_at (x ∷ xs) (suc i) = string_at xs i
string_at (x ∷ xs) zero =
    let rest = string_at xs zero in if x == 0 then some [] else (do cs ← rest; some (x ∷ cs))

unfoldable pub hash_string : Shell → Option Shell
unfolding sha256
hash_string s =
    let t = advance 7 s in
    do
      text ← string_at t.command t.command_base
      let hashed = sha256 text (t.sha, t.system)
      some (record t { sha = hashed.0; system = hashed.1 })

unfoldable pub hash_command : Shell → Option Shell
unfolding hash_string
hash_command s =
    let t = advance 5 s in
    do
      named ← cmd_code_check (codes "sha256") t
      if named then hash_string t else some (say (codes "Unkown algorithm!") t)

unfoldable pub pr_command : Shell → Option Shell
pr_command s =
    let nothing = say (codes "Please press string!") s in
    do
      c2 ← command_at s 2
      if c2 == 0x00 then some nothing else do
        c3 ← command_at s 3
        if c3 == 0x00 then some nothing else do
          text ← string_at s.command (advance 3 s).command_base
          some (say text (advance 3 s))

-- The chain of tests on the parameter of `time`, as its words and numbers in order.
unfoldable pub time_chain : Services → List (List ℕ × ℕ) → Shell → Option Shell
time_chain sv [] s = some (say (codes "Parameter error!") s)
time_chain sv ((word, n) ∷ words) s =
    let rest = time_chain sv words s in
    do found ← cmd_code_check word s; if found then some (on_system (sv.print_time n) s) else rest

abbrev pub time_words : List (List ℕ × ℕ)
time_words =
    (codes "a", 0)
    ∷ (codes "y", 1)
    ∷ (codes "mo", 2)
    ∷ (codes "d", 3)
    ∷ (codes "h", 4)
    ∷ (codes "mi", 5)
    ∷ (codes "s", 6)
    ∷ []

unfoldable pub time_command : Services → Shell → Option Shell
unfolding time_chain
time_command sv s = time_chain sv time_words (advance 5 s)

unfoldable pub ver_command : Shell → Option Shell
unfolding check_either
ver_command s =
    let s = advance 4 s in
    do
      cmd ← check_either (codes "cmd") (codes "CMD") s
      if cmd then some (say (codes "OpenFerain OS @ Command Shell 1.0.7_19") s) else do
        os ← check_either (codes "os") (codes "OS") s
        some (say (if os then codes "OpenFerain OS 26.0.7_19" else codes "Unknow application") s)

unfoldable pub code : Services → Shell → Option Shell
unfolding help_command color_command hash_command pr_command time_command ver_command nocommand
    check_either
code sv s = do
  help ← check_either (codes "help") (codes "h") s
  if help then some (help_command sv s) else do
    color ← cmd_code_check (codes "color") s
    if color then color_command sv s else do
      hash ← cmd_code_check (codes "hash") s
      if hash then hash_command s else do
        pr ← cmd_code_check (codes "pr") s
        if pr then pr_command s else do
          time ← cmd_code_check (codes "time") s
          if time then time_command sv s else do
            ver ← cmd_code_check (codes "ver") s
            if ver then ver_command s else some (nocommand s)
