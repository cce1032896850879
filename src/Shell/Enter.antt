-- ===== src/Shell/Enter.antt =====
-- Enter runs the line's command and leaves an empty line.
use open_ferain_os.Base.{
  ℕ, ◌<◌, ◌≡◌, ◌∙◌, refl, ap, arith, inl, inr, List, [], length, get_or, some,
}
use open_ferain_os.Sha.Block.{fill}
use open_ferain_os.Shell.{Shell, Services, cmd_calculate}
use open_ferain_os.Shell.Keys.{enter, prompt, clear_command}
use open_ferain_os.Shell.Bounds.{HasRoom, code-Succeeds}
use open_ferain_os.Shell.First.{AllBlank, AreEnds, cmd_calculate-AreEnds}
use open_ferain_os.Shell.Line.{line_max, IsLine}

-- A cleared array, or one that was blank, is an empty line.
prompt-IsLine :
    (s : Shell)
    → length s.command ≡ 127
    → AllBlank s.command 127
    → get_or s.command 0 0 ≡ 0
    → ((i : ℕ) → line_max < i → i < 127 → get_or s.command i 0 ≡ 0)
    → IsLine [] (prompt s)
unfolding prompt
prompt-IsLine s size blank head unused = record {
  size = size;
  counted = refl;
  fits = omega arith;
  start = refl;
  head = head;
  typed = λ i l. absurd (omega arith);
  blank = λ i p q. blank i q;
  unused = unused;
}

clear_command-zero :
    (s : Shell)
    → length s.command ≡ 127
    → (length (clear_command s).command ≡ 127)
      × ((i : ℕ) → i < 127 → get_or (clear_command s).command i 0 ≡ 0)
unfolding clear_command
clear_command-zero s size =
    let (len, at) = fill 127 (λ i. 0) s.command (omega (arith, size)) in
    (len ∙ size, λ i l. ground (arith, at i))

-- The first word starts inside the line, so that `code` has room behind it.
pub AreEnds-HasRoom :
    (line : List ℕ) (s t : Shell) (l : ℕ)
    → IsLine line s
    → t.command ≡ s.command
    → AreEnds s.command 127 t.command_base l
    → HasRoom 12 t
AreEnds-HasRoom line s t l h ec ends = record {
  size = rw ec h.size;
  room = ground (arith, h.blank t.command_base, ends.first, ends.order, ends.inside, h.fits);
  ended = rw ec (h.unused 126 (omega arith) (omega arith));
}

-- After Enter the line is empty.
pub enter-IsLine :
    (sv : Services) (line : List ℕ) (s : Shell)
    → IsLine line s
    → (t : Shell) × (enter sv s ≡ some t) × IsLine [] t
unfolding enter
enter-IsLine sv line s h =
    let t = (cmd_calculate s).1 in
    let (keeps, cases) = cmd_calculate-AreEnds s h.start h.size in
    let ec : t.command ≡ s.command = ap (λ (u : Shell). u.command) keeps in
    elim cases [
      | inl (flag, base, all) ↦ (
        prompt t,
        rw (flag, enter) refl,
        prompt-IsLine t (rw ec h.size) (rw ec all) (rw ec h.head) (λ i p q. rw ec (h.unused i p q)),
      )
      | inr (flag, (l, ends, len)) ↦
          let (u, ok, same) = code-Succeeds sv t (AreEnds-HasRoom line s t l h ec ends) in
          let size : length u.command ≡ 127 = ap length (same ∙ ec) ∙ h.size in
          let (len2, zeros) = clear_command-zero u size in
          (
            prompt (clear_command u),
            rw (flag, enter) (rw ok refl),
            prompt-IsLine (clear_command u) len2 (λ i q. rw (zeros i q) refl)
                (zeros 0 (omega arith)) (λ i p q. zeros i q),
          )
    ]
