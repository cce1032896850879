-- ===== src/Shell/Examples.antt =====
-- A shell as the program starts it, typed at.
use open_ferain_os.Base.{
  ℕ, ◌+◌, ◌≤◌, ◌<◌, ◌≡◌, ◌⊎◌, arith, refl, List, [], ◌∷◌, ◌++◌, codes, length, replicate, u8, ◌-◌,
  ◌==◌, if◌then◌else◌, none, some,
}
use open_ferain_os.Samples.{system}
use open_ferain_os.Console.{printf}
use open_ferain_os.Sha.{Sha, initial_registers}
use open_ferain_os.Sha.Standard.{digest}
use open_ferain_os.Sha.Text.{hash_text}
use open_ferain_os.Sha.Laws.{IsSha}
use open_ferain_os.Shell.{Shell, Services, cmd_calculate, press_command}
use open_ferain_os.Shell.Code.{code}
use open_ferain_os.Shell.Keys.{polls, main_func, have_key}
use open_ferain_os.Shell.Word.{word_at}
use open_ferain_os.Shell.First.{AreEnds, AllBlank, cmd_calculate-AreEnds}
use open_ferain_os.Shell.Line.{IsLine}
use open_ferain_os.Shell.Session.{IsFresh, session, polls-main_func}
use open_ferain_os.Shell.Typing.{presses, presses-main_func}
use open_ferain_os.Shell.Dispatch.{named, code-named, array_of}
use open_ferain_os.Shell.Texts.{hash_line, pr_line}

-- Service 0x80 moves the cursor on; the clock prints nothing.
abbrev services : Services
services = record {
  int30 = λ ah al ecx s. if ah == 0x80 then record s { vmx = u8 (s.vmx + 1) } else s;
  scroll = λ s. record s { vmx = 0; vmy = u8 (s.vmy + 1) };
  print_time = λ n s. s;
}

abbrev arrays : Sha
arrays = record {
  registers = initial_registers;
  hash32 = replicate 8 0;
  hash8 = replicate 65 0;
  w = replicate 64 0;
  raw_data = replicate 64 0;
}

abbrev fresh : Shell
fresh = record {
  system = system;
  sha = arrays;
  command = replicate 127 0;
  cmd_char_num = 17;
  line_char_num = 17;
  line_num = 0;
  command_base = 0;
  command_len = 0;
  key_status = 0;
  video_memory_point = 0;
}

fresh-IsFresh : IsFresh fresh
fresh-IsFresh = record { empty = refl; counted = refl; start = refl }

-- `ve`, the back key, `er`, nothing, and Enter.
abbrev keys : List (ℕ × ℕ)
keys = (1, b'v') ∷ (1, b'x') ∷ (1, 0x0e) ∷ (1, b'e') ∷ (0, b'e') ∷ (1, b'r') ∷ []

keys_line : session [] keys ≡ codes "ver"
keys_line = refl

keys_enter : session [] (keys ++ ((1, 0x1c) ∷ [])) ≡ []
keys_enter = refl

polls-main_func_example :
    (t : Shell) × (polls services keys (main_func services fresh) ≡ some t)
    × IsLine (session [] keys) t
polls-main_func_example = polls-main_func services fresh keys fresh-IsFresh (ground arith)

abbrev many : List ℕ
many = replicate 127 b'a'

presses-main_func_example :
    (length (many) ≤ 126
      → (t : Shell) × (polls services (presses (many)) (main_func services fresh) ≡ some t))
    × (126 < length (many) → polls services (presses (many)) (main_func services fresh) ≡ none)
presses-main_func_example = presses-main_func services fresh (many) fresh-IsFresh (ground arith)

abbrev at_ver : Shell
at_ver = record fresh { command = array_of (codes "ver os"); command_base = 1; command_len = 6 }

code-named_example : code services at_ver ≡ named services (word_at at_ver.command 1) at_ver
code-named_example = code-named services at_ver refl (omega arith)

cmd_calculate-AreEnds_example :
    let s = record at_ver { command_base = 0 } in
    let (flag, t) = cmd_calculate s in
    (t ≡ record s { command_base = t.command_base; command_len = t.command_len })
    × (((flag ≡ 0) × (t.command_base ≡ 0) × AllBlank s.command 127)
        ⊎ ((flag ≡ 1)
            × ((l : ℕ) × AreEnds s.command 127 t.command_base l
                × (t.command_len ≡ l + 1 - t.command_base))))
cmd_calculate-AreEnds_example = cmd_calculate-AreEnds (record at_ver { command_base = 0 }) refl refl

arrays-IsSha : IsSha arrays
arrays-IsSha = record { raw = refl; schedule = refl; text = refl }

hash_line_example :
    (u : Shell) × (t : Shell) × (polls services
        (presses (codes "hash sha256 " ++ codes "abc"))
        (main_func services fresh)
      ≡ some u)
    × (have_key services 0x1c u ≡ some t)
    × (t.sha.hash32 ≡ digest (codes "abc"))
    × (t.system ≡ printf press_command (printf (hash_text (digest (codes "abc"))) u.system))
hash_line_example =
    hash_line services fresh (codes "abc") fresh-IsFresh arrays-IsSha (ground arith) (ground arith)
      (omega arith)

pr_line_example :
    (u : Shell) × (t : Shell) × (polls services
        (presses (codes "pr " ++ codes "hi"))
        (main_func services fresh)
      ≡ some u)
    × (have_key services 0x1c u ≡ some t)
    × (t.system ≡ printf press_command (printf (codes "hi") u.system))
pr_line_example = pr_line services fresh b'h' (codes "i") fresh-IsFresh (ground arith) (omega arith)
