-- ===== src/Sha/Laws.antt =====
-- `sha256` on short messages is the standard's hash, and on longer ones a constant.
use open_ferain_os.Base.{
  ℕ, ◌≤◌, ◌≡◌, refl, ap, ◌∙◌, arith, List, length, leb, true, false, IsByteList,
}
use open_ferain_os.Console.{System, printf}
use open_ferain_os.Sha.{
  sha256, Sha, initial_hash, words, add_initial, sha256_arrays, c_string, clear, load_block,
}
use open_ferain_os.Sha.Standard.{digest, add_words}
use open_ferain_os.Sha.Block.{clear-zero, load_block-padded}
use open_ferain_os.Sha.Rounds.{sha256_rounds-IsHashing}
use open_ferain_os.Sha.Text.{hash_text, print_hex-hash_text}

-- The static arrays have their declared sizes.
pub record IsSha (t : Sha) : Type 0 where
  pub raw : length t.raw_data ≡ 64
  pub schedule : length t.w ≡ 64
  pub text : length t.hash8 ≡ 65

sha256_arrays-digest :
    (s : List ℕ) (t : Sha)
    → IsSha t
    → IsByteList s
    → length s ≤ 55
    → ((sha256_arrays s t).hash32 ≡ digest s)
      × (c_string (sha256_arrays s t).hash8 ≡ hash_text (digest s))
unfolding sha256_arrays add_initial
sha256_arrays-digest s t sizes bytes short =
    let test : leb (length s) 55 ≡ true = ground arith in
    let (len, zeros) = clear-zero 64 t.raw_data (omega (arith, sizes.raw)) in
    let (wide, _) = clear-zero 64 t.w (omega (arith, sizes.schedule)) in
    let (room, _) = clear-zero 64 t.hash8 (omega (arith, sizes.text)) in
    let same = load_block-padded s (clear 64 t.raw_data) short (len ∙ sizes.raw) zeros in
    let done =
      (sha256_rounds-IsHashing s (load_block s (clear 64 t.raw_data)) (clear 64 t.w) bytes same
        (wide ∙ sizes.schedule)).1 in
    rw test (rw done (refl, print_hex-hash_text (digest s) (clear 64 t.hash8) (room ∙ sizes.text)))

-- Whatever the arrays held before, for a message of at most 55 bytes the words computed are the hash
-- of the standard, and printf gets its hexadecimal text.
pub sha256-digest :
    (s : List ℕ) (t : Sha) (system : System)
    → IsSha t
    → IsByteList s
    → length s ≤ 55
    → ((sha256 s (t, system)).0.hash32 ≡ digest s)
      × ((sha256 s (t, system)).1 ≡ printf (hash_text (digest s)) system)
unfolding sha256
sha256-digest s t system sizes bytes short =
    let (words, text) = sha256_arrays-digest s t sizes bytes short in
    (words, ap (λ (chars : List ℕ). printf chars system) text)

-- Every message of 56 bytes or more gets one and the same hash, twice the initial words.
pub sha256_long :
    (s : List ℕ) (t : Sha) (system : System)
    → IsSha t
    → 56 ≤ length s
    → let constant = add_words initial_hash initial_hash in
      ((sha256 s (t, system)).0.hash32 ≡ constant)
      × ((sha256 s (t, system)).1 ≡ printf (hash_text constant) system)
unfolding sha256 sha256_arrays add_initial
sha256_long s t system sizes long =
    let test : leb (length s) 55 ≡ false = ground arith in
    let (room, _) = clear-zero 64 t.hash8 (omega (arith, sizes.text)) in
    rw test (
      refl,
      ap (λ (chars : List ℕ). printf chars system)
          (print_hex-hash_text _ (clear 64 t.hash8) (room ∙ sizes.text)),
    )
