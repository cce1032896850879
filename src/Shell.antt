-- ===== src/Shell.antt =====
-- Sources/Application/CMD.c: the command shell over the console. What it calls outside the C code is a
-- parameter: interrupt 0x30, whose handler is the assembly at `_VIDEO` in Sources/Boot/16T32.asm,
-- `print_time`, which no C file defines, and `test_scolling` called without its argument. An access
-- outside `command` gives none.
pub mod Code
pub mod Keys
pub mod Word
pub mod Bounds
pub mod First
pub mod Line
pub mod Enter
pub mod Session
pub mod Typing
pub mod Dispatch
pub mod Texts
mod Examples
use open_ferain_os.Base.{
  ℕ, zero, suc, ◌+◌, ◌-◌, Bool, true, false, List, [], ◌∷◌, codes, length, get_elem?, ◌==◌, ◌||◌,
  not, ◌&&◌, ltb, if◌then◌else◌, u32, sub32, set, for_range, Option, none, some, ◌>>=◌,
}
use open_ferain_os.Console.{System, Service30, printf}
use open_ferain_os.Sha.{Sha}

pub record Services : Type 0 where
  pub int30 : Service30
  pub scroll : System → System
  pub print_time : ℕ → System → System

-- The console, the hash's arrays and the file's globals.
pub record Shell : Type 0 where
  pub system : System
  pub sha : Sha
  pub command : List ℕ
  pub cmd_char_num : ℕ
  pub line_char_num : ℕ
  pub line_num : ℕ
  pub command_base : ℕ
  pub command_len : ℕ
  pub key_status : ℕ
  pub video_memory_point : ℕ

abbrev pub press_command : List ℕ
press_command = codes "Press Command - >"

-- A call that changes the console alone.
abbrev pub on_system : (System → System) → Shell → Shell
on_system f s = record s { system = f s.system }

abbrev pub say : List ℕ → Shell → Shell
say text = on_system (printf text)

-- `command[command_base + i]`.
abbrev pub command_at : Shell → ℕ → Option ℕ
command_at s i = get_elem? s.command (u32 (s.command_base + i))

-- `command_base = command_base + n; command_len = command_len - n;`
abbrev pub advance : ℕ → Shell → Shell
advance n s = record s {
  command_base = u32 (s.command_base + n);
  command_len = sub32 s.command_len n;
}

-- The locals of `cmd_calculate` with its `command_base`.
pub record Span : Type 0 where
  pub check_flag : ℕ
  pub base : ℕ
  pub last_char : ℕ

unfoldable pub span_step : List ℕ → ℕ → Span → Span
span_step command i v = elim (get_elem? command i) [
  | none ↦ v
  | some c ↦
      if not (c == 0) && not (c == 0x20)
      then record {
        check_flag = if v.check_flag == 0 then 1 else v.check_flag;
        base = if v.check_flag == 0 then i else v.base;
        last_char = i;
      }
      else v
]

-- The loop reads entries below 127 only.
unfoldable pub cmd_calculate : Shell → ℕ × Shell
unfolding span_step
cmd_calculate s =
    let v =
      for_range (127 - s.command_base) s.command_base (span_step s.command)
        (record { check_flag = 0; base = s.command_base; last_char = 0 }) in
    let s = record s {
      command_base = v.base;
      command_len = sub32 (u32 (v.last_char + 1)) v.base;
    } in
    (if v.check_flag == 0 then 0 else 1, s)

-- The comparison from character `i` of the text on, and the character behind it.
unfoldable pub check_from : Shell → ℕ → List ℕ → Option Bool
check_from s i [] = do c ← command_at s i; some (c == 0x00 || c == 0x20)
check_from s i (x ∷ xs) =
    let rest = check_from s (i + 1) xs in do c ← command_at s i; if c == x then rest else some false

unfoldable pub cmd_code_check : List ℕ → Shell → Option Bool
unfolding check_from
cmd_code_check text s = check_from s 0 text

-- `cmd_code_check(a) == 1 || cmd_code_check(b) == 1`
unfoldable pub check_either : List ℕ → List ℕ → Shell → Option Bool
check_either a b s = do first ← cmd_code_check a s; if first then some true else cmd_code_check b s
