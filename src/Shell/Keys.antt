-- ===== src/Shell/Keys.antt =====
-- The keys: `enter`, `back_space`, `have_key`, and the loop of `main_func`.
use open_ferain_os.Base.{
  ℕ, ◌+◌, List, [], ◌∷◌, codes, length, ◌==◌, leb, ltb, if◌then◌else◌, u32, sub32, set, for_range,
  Option, none, some, ◌>>=◌,
}
use open_ferain_os.Console.{type}
use open_ferain_os.Shell.{Shell, Services, on_system, say, press_command, cmd_calculate}
use open_ferain_os.Shell.Code.{code}

-- What both ends of `enter` do.
unfoldable pub prompt : Shell → Shell
prompt s = record (say press_command s) {
  cmd_char_num = 17;
  line_char_num = 17;
  line_num = 0;
  command_base = 0;
  command_len = 0;
}

-- `for(int i = 0;i < 127;i++)command[i] = 0;`
unfoldable pub clear_command : Shell → Shell
clear_command s = record s { command = for_range 127 0 (λ i xs. set xs i 0) s.command }

unfoldable pub enter : Services → Shell → Option Shell
unfolding cmd_calculate code clear_command prompt
enter sv s =
    let (check_flags, t) = cmd_calculate s in
    if check_flags == 0
    then some (prompt t)
    else (do u ← code sv t; some (prompt (clear_command u)))

-- `command[cmd_char_num - 17] = c`, none outside the array.
unfoldable pub store_command : ℕ → Shell → Option Shell
store_command c s =
    let i = sub32 s.cmd_char_num 17 in
    if ltb i (length s.command) then some (record s { command = set s.command i c }) else none

-- The end of `back_space`, at the left margin.
unfoldable pub row_up : Shell → Shell
row_up s =
    if s.line_char_num == 0
    then record s {
      video_memory_point = sub32 s.video_memory_point 0x00000100;
      line_num = sub32 s.line_num 1;
      line_char_num = 79;
    }
    else s

unfoldable pub back_space : Services → Shell → Option Shell
unfolding store_command row_up
back_space sv s = if leb s.cmd_char_num 17 then some s else (do
  let color = s.system.color
  let erased = on_system (λ c. sv.int30 0x80 color none (sv.int30 0x03 color none c)) s
  t ← store_command 0x00 erased
  some (
      row_up (record t {
        cmd_char_num = sub32 t.cmd_char_num 1;
        line_char_num = sub32 t.line_char_num 1;
      })))

-- `if(line_char_num >= 80)` of `have_key`.
unfoldable pub wrap_line : Services → Shell → Shell
wrap_line sv s =
    if leb 80 s.line_char_num
    then record (on_system sv.scroll s) { line_num = u32 (s.line_num + 1); line_char_num = 0 }
    else s

-- The key is the byte that comes in `cl`.
unfoldable pub have_key : Services → ℕ → Shell → Option Shell
unfolding enter back_space wrap_line store_command type
have_key sv key s =
    let done = λ (t : Shell). some (record t { key_status = 0x00000000 }) in
    if key == 0x1c
    then enter sv s >>= done
    else if key == 0x0e
    then back_space sv s >>= done
    else (do
      let typed = on_system (type sv.int30 key) s
      let counted = record typed {
        cmd_char_num = u32 (typed.cmd_char_num + 1);
        line_char_num = u32 (typed.line_char_num + 1);
      }
      t ← store_command key (wrap_line sv counted)
      done t)

-- One round of the loop: the status in `eax`, the key in `ecx`.
unfoldable pub poll : Services → ℕ × ℕ → Shell → Option Shell
unfolding have_key
poll sv (status, key) s =
    let t = record s { key_status = status } in
    if status == 0x00000001 then have_key sv key t else some t

-- The rounds of the loop, which the program never leaves.
unfoldable pub polls : Services → List (ℕ × ℕ) → Shell → Option Shell
unfolding poll
polls sv [] s = some s
polls sv (p ∷ ps) s = poll sv p s >>= polls sv ps

-- `main_func` up to its loop.
unfoldable pub main_func : Services → Shell → Shell
main_func sv s =
    let s = record s { video_memory_point = 0x00000000 } in
    let s = on_system (λ c. record c { color = 0x07 }) s in
    let s = say (codes "OpenFerain Command Shell @ 1.1.26.7.1") s in
    say press_command (on_system sv.scroll s)
