-- ===== src/Sha/Rounds.antt =====
-- The 64 rounds on the two arrays against the standard's schedule and compression.
use native.Mathlib.Nat.{mod-lt, eq-or-lt_of_le}
use mathlib.Core.Path.{subst}
use open_ferain_os.Base.{
  ℕ, zero, suc, ◌+◌, ◌-◌, ◌*◌, ◌%◌, ◌^◌, ◌≤◌, ◌<◌, ◌≡◌, refl, ap, ◌∙◌, arith, List, length, get_or,
  set, ltb, if◌then◌else◌, for_range, for_range_inv, length-set, get_or-set, get_or-set_self, inl,
  inr, IsByteList,
}
use open_ferain_os.Digits.Rotate.{rotr_lem}
use open_ferain_os.Sha.{
  Registers, initial_registers, round_constants, sha256_ie, sha256_roc, sha256_round, raw_word,
}
use open_ferain_os.Sha.Standard.{padded, message_word, round, schedule, compress, small_sigma}
use open_ferain_os.Sha.Block.{raw_word-message_word, padded-lt}

-- `w` holds the schedule's first words, and every one is a 32-bit word.
abbrev IsSchedule : List ℕ → ℕ → List ℕ → Type 0
IsSchedule s k w =
    (length w ≡ 64)
    × ((j : ℕ)
        → j < k
        → (get_or w j 0 ≡ get_or (schedule s k) (k - 1 - j) 0) × (get_or w j 0 < 2 ^ 32))

sha256_ie-next :
    (s w : List ℕ) (k : ℕ)
    → IsSchedule s k w
    → 16 ≤ k
    → sha256_ie w k
      ≡ (small_sigma 17 19 10 (get_or (schedule s k) 1 0)
          + get_or (schedule s k) 6 0
          + small_sigma 7 18 3 (get_or (schedule s k) 14 0)
          + get_or (schedule s k) 15 0)
        % 2 ^ 32
unfolding sha256_ie
sha256_ie-next s w k (len, now) low =
    let back : (n : ℕ) → n < 16 → get_or w (k - suc n) 0 ≡ get_or (schedule s k) n 0 = λ n few.
      (now (k - suc n) (omega arith)).0
      ∙ ap (λ (t : ℕ). get_or (schedule s k) t 0) {x = k - 1 - (k - suc n)} {y = n} (omega arith) in
    let w2 = get_or w (k - 2) 0 in
    let w15 = get_or w (k - 15) 0 in
    let h2 : w2 < 2 ^ 32 = (now (k - 2) (omega arith)).1 in
    let h15 : w15 < 2 ^ 32 = (now (k - 15) (omega arith)).1 in
    rw (rotr_lem w2 17 (omega arith) (omega arith) h2) (
      rw (rotr_lem w2 19 (omega arith) (omega arith) h2) (
        rw (rotr_lem w15 7 (omega arith) (omega arith) h15) (
          rw (rotr_lem w15 18 (omega arith) (omega arith) h15) (
            rw (back 1 (omega arith)) (
              rw (back 6 (omega arith))
                (rw (back 14 (omega arith)) (rw (back 15 (omega arith)) refl)))))))

sha256_roc-round :
    (w : List ℕ) (k word : ℕ) (r : Registers)
    → r.a < 2 ^ 32
    → r.e < 2 ^ 32
    → get_or w k 0 ≡ word
    → sha256_roc w k r ≡ round (get_or round_constants k 0) word r
unfolding sha256_roc
sha256_roc-round w k word r ha he e = rw e (
    rw (rotr_lem r.e 6 (omega arith) (omega arith) he) (
      rw (rotr_lem r.e 11 (omega arith) (omega arith) he) (
        rw (rotr_lem r.e 25 (omega arith) (omega arith) he) (
          rw (rotr_lem r.a 2 (omega arith) (omega arith) ha) (
            rw (rotr_lem r.a 13 (omega arith) (omega arith) ha)
              (rw (rotr_lem r.a 22 (omega arith) (omega arith) ha) ground arith))))))

compress-words : (s : List ℕ) (k : ℕ) → ((compress s k).a < 2 ^ 32) × ((compress s k).e < 2 ^ 32)
unfolding compress
compress-words s zero = (omega arith, omega arith)
compress-words s (suc k) = (mod-lt _ (omega arith), mod-lt _ (omega arith))

message_word-lt : (s : List ℕ) (t : ℕ) → IsByteList s → message_word s t < 2 ^ 32
message_word-lt s t bytes = omega (
  arith,
  padded-lt s (4 * t) bytes,
  padded-lt s (4 * t + 1) bytes,
  padded-lt s (4 * t + 2) bytes,
  padded-lt s (4 * t + 3) bytes,
)

-- What the loop holds before round `k`.
abbrev pub IsHashing : List ℕ → ℕ → List ℕ × Registers → Type 0
IsHashing s k (w, r) = IsSchedule s k w × (r ≡ compress s k)

schedule-next :
    (s raw w : List ℕ) (k : ℕ)
    → IsByteList s
    → ((j : ℕ) → j < 64 → get_or raw j 0 ≡ padded s j)
    → IsSchedule s k w
    → let word = (if ltb k 16 then raw_word raw k else sha256_ie w k) in
      (word ≡ get_or (schedule s (suc k)) 0 0) × (word < 2 ^ 32)
unfolding schedule
schedule-next s raw w k bytes same now = ground (
  arith,
  raw_word-message_word s raw k bytes same,
  message_word-lt s k bytes,
  sha256_ie-next s w k now,
)

IsSchedule-set :
    (s w : List ℕ) (k word : ℕ)
    → k < 64
    → IsSchedule s k w
    → word ≡ get_or (schedule s (suc k)) 0 0
    → word < 2 ^ 32
    → IsSchedule s (suc k) (set w k word)
unfolding schedule
IsSchedule-set s w k word below (len, now) e small = (
  length-set w k word ∙ len,
  λ j h. elim (eq-or-lt_of_le h) [
    | inr before ↦
        let step : get_or (schedule s (suc k)) (suc k - 1 - j) 0
            ≡ get_or (schedule s k) (k - 1 - j) 0 =
          ap (λ (n : ℕ). get_or (schedule s (suc k)) n 0) {x = suc k - 1 - j} {y = suc (k - 1 - j)}
            (omega arith) in
        let (was, low) = now j (omega arith) in
        ground (arith, get_or-set w k j word, step, was, low, len)
    | inl after ↦
        let last : get_or (schedule s (suc k)) (suc k - 1 - j) 0 ≡ get_or (schedule s (suc k)) 0 0 =
          ap (λ (n : ℕ). get_or (schedule s (suc k)) n 0) {x = suc k - 1 - j} {y = 0}
            (omega arith) in
        ground (arith, get_or-set w k j word, last, e, small, len)
  ],
)

sha256_round-IsHashing :
    (s raw : List ℕ) (k : ℕ) (state : List ℕ × Registers)
    → IsByteList s
    → ((j : ℕ) → j < 64 → get_or raw j 0 ≡ padded s j)
    → k < 64
    → IsHashing s k state
    → IsHashing s (suc k) (sha256_round raw k state)
unfolding sha256_round compress
sha256_round-IsHashing s raw k (w, r) bytes same below (now, er) =
    let w' = set w k (if ltb k 16 then raw_word raw k else sha256_ie w k) in
    let word = get_or (schedule s (suc k)) 0 0 in
    let (new, small) = schedule-next s raw w k bytes same now in
    let (ha, he) = compress-words s k in
    let read : get_or w' k 0 ≡ word = get_or-set_self w k _ 0 (omega (arith, now.0)) ∙ new in
    (
      IsSchedule-set s w k _ below now new small,
      ap (λ t. sha256_roc w' k t) er ∙ sha256_roc-round w' k word (compress s k) ha he read,
    )

-- All 64 rounds on a cleared array.
pub sha256_rounds-IsHashing :
    (s raw w : List ℕ)
    → IsByteList s
    → ((j : ℕ) → j < 64 → get_or raw j 0 ≡ padded s j)
    → length w ≡ 64
    → IsHashing s 64 (for_range 64 0 (sha256_round raw) (w, initial_registers))
unfolding compress
sha256_rounds-IsHashing s raw w bytes same len =
    for_range_inv (IsHashing s) (sha256_round raw) 0 64
      (λ k state low below now.
        let next : suc k ≡ k + 1 = omega arith in
        subst (λ n. IsHashing s n (sha256_round raw k state)) next
          (sha256_round-IsHashing s raw k state bytes same below now))
      64 0 (w, initial_registers) (omega arith) (omega arith)
      ((len, λ j h. absurd (omega arith)), refl)

sha256_round-length :
    (raw : List ℕ) (k : ℕ) (state : List ℕ × Registers)
    → length (sha256_round raw k state).0 ≡ length state.0
unfolding sha256_round
sha256_round-length raw k (w, r) = length-set w k _

pub sha256_rounds-length :
    (raw w : List ℕ)
    → length (for_range 64 0 (sha256_round raw) (w, initial_registers)).0 ≡ length w
sha256_rounds-length raw w =
    for_range_inv (λ k state. length state.0 ≡ length w) (sha256_round raw) 0 64
      (λ k state low below now. sha256_round-length raw k state ∙ now) 64 0 (w, initial_registers)
      (omega arith) (omega arith) refl
