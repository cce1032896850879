-- ===== src/Shell/First.antt =====
-- `cmd_calculate` finds the first word of the line.
use open_ferain_os.Base.{
  ℕ, ◌+◌, ◌-◌, ◌≤◌, ◌<◌, ◌≡◌, ◌⊎◌, refl, arith, true, false, Bool-cases, inl, inr, List, length,
  get_or, get_elem?-get_or, ==_cases, ◌==◌, if◌then◌else◌, for_range_inv,
}
use open_ferain_os.Shell.{Shell, Span, span_step, cmd_calculate}
use open_ferain_os.Shell.Word.{is_blank}

-- Among the first `k` entries, `b` is the first and `l` the last that is no blank.
pub record AreEnds (c : List ℕ) (k b l : ℕ) : Type 0 where
  pub order : b ≤ l
  pub inside : l < k
  pub first : is_blank (get_or c b 0) ≡ false
  pub last : is_blank (get_or c l 0) ≡ false
  pub before : (i : ℕ) → i < b → is_blank (get_or c i 0) ≡ true
  pub behind : (i : ℕ) → l < i → i < k → is_blank (get_or c i 0) ≡ true

abbrev pub AllBlank : List ℕ → ℕ → Type 0
AllBlank c k = (i : ℕ) → i < k → is_blank (get_or c i 0) ≡ true

abbrev IsSpan : List ℕ → ℕ → Span → Type 0
IsSpan c k v =
    ((v.check_flag ≡ 0) × (v.base ≡ 0) × (v.last_char ≡ 0) × AllBlank c k)
    ⊎ ((v.check_flag ≡ 1) × AreEnds c k v.base v.last_char)

span_step-blank :
    (c : List ℕ) (k : ℕ) (v : Span)
    → k < length c
    → is_blank (get_or c k 0) ≡ true
    → span_step c k v ≡ v
unfolding span_step
span_step-blank c k v h blank = rw (get_elem?-get_or c k h, span_step) (ground (arith, blank))

span_step-char :
    (c : List ℕ) (k : ℕ) (v : Span)
    → k < length c
    → is_blank (get_or c k 0) ≡ false
    → span_step c k v ≡ record {
      check_flag = if v.check_flag == 0 then 1 else v.check_flag;
      base = if v.check_flag == 0 then k else v.base;
      last_char = k;
    }
unfolding span_step
span_step-char c k v h char = rw (get_elem?-get_or c k h, span_step) (ground (arith, char))

AllBlank-next :
    (c : List ℕ) (k : ℕ) → AllBlank c k → is_blank (get_or c k 0) ≡ true → AllBlank c (k + 1)
AllBlank-next c k all blank i l = elim (==_cases i k) [
  | inl e ↦ rw e blank
  | inr n ↦ all i (omega arith)
]

AreEnds-next :
    (c : List ℕ) (k b l : ℕ)
    → AreEnds c k b l
    → is_blank (get_or c k 0) ≡ true
    → AreEnds c (k + 1) b l
AreEnds-next c k b l h blank = record {
  order = h.order;
  inside = omega (arith, h.inside);
  first = h.first;
  last = h.last;
  before = h.before;
  behind = λ i p q. elim (==_cases i k) [ inl e ↦ rw e blank | inr n ↦ h.behind i p (omega arith) ];
}

span_step-IsSpan :
    (c : List ℕ) (k : ℕ) (v : Span)
    → k < length c
    → IsSpan c k v
    → IsSpan c (k + 1) (span_step c k v)
span_step-IsSpan c k v h now = elim (Bool-cases (is_blank (get_or c k 0))) [
  | inl blank ↦ rw (span_step-blank c k v h blank) (elim now [
    | inl (flag, base, last, all) ↦ inl (flag, base, last, AllBlank-next c k all blank)
    | inr (flag, ends) ↦ inr (flag, AreEnds-next c k v.base v.last_char ends blank)
  ])
  | inr char ↦ rw (span_step-char c k v h char) (elim now [
    | inl (flag, base, last, all) ↦ rw flag (
        inr (
          refl,
          record {
            order = omega arith;
            inside = omega arith;
            first = char;
            last = char;
            before = all;
            behind = λ i p q. absurd (omega arith);
          },
        ))
    | inr (flag, ends) ↦ rw flag (
        inr (
          refl,
          record {
            order = omega (arith, ends.order, ends.inside);
            inside = omega arith;
            first = ends.first;
            last = char;
            before = ends.before;
            behind = λ i p q. absurd (omega arith);
          },
        ))
  ])
]

-- On a line of 127 entries that is read from its start, `cmd_calculate` answers 0 when all entries
-- are blank, and otherwise 1, with the start and the length of what lies between the first and the
-- last character; nothing but `command_base` and `command_len` changes.
pub cmd_calculate-AreEnds :
    (s : Shell)
    → s.command_base ≡ 0
    → length s.command ≡ 127
    → let (flag, t) = cmd_calculate s in
      (t ≡ record s { command_base = t.command_base; command_len = t.command_len })
      × (((flag ≡ 0) × (t.command_base ≡ 0) × AllBlank s.command 127)
          ⊎ ((flag ≡ 1)
              × ((l : ℕ) × AreEnds s.command 127 t.command_base l
                  × (t.command_len ≡ l + 1 - t.command_base))))
unfolding cmd_calculate
cmd_calculate-AreEnds s start size =
    let begin : Span = record { check_flag = 0; base = 0; last_char = 0 } in
    let done =
      for_range_inv (IsSpan s.command) (span_step s.command) 0 127
        (λ k v low below now. span_step-IsSpan s.command k v (omega arith) now) 127 0 begin
        (omega arith) (omega arith) (inl (refl, refl, refl, λ i l. absurd (omega arith))) in
    rw start (
      refl,
      elim done [
        | inl (flag, base, last, all) ↦ rw flag (inl (refl, base, all))
        | inr (flag, ends) ↦ rw flag (inr (refl, (_, ends, omega (arith, ends.order, ends.inside))))
      ],
    )
