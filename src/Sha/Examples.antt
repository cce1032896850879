-- ===== src/Sha/Examples.antt =====
-- The hash of a known message.
use open_ferain_os.Base.{ℕ, ◌≡◌, refl, codes, replicate}
use open_ferain_os.Sha.{
  Sha, initial_registers, sha256_arrays, clear, load_block, sha256_round, sha256_roc, sha256_ie,
  add_initial, print_hex, c_string, split_byte, raw_word,
}
use open_ferain_os.Base.{for_range}
use open_ferain_os.Base.{List, arith}
use open_ferain_os.Samples.{system}
use open_ferain_os.Console.{printf}
use open_ferain_os.Sha.{sha256, initial_hash}
use open_ferain_os.Sha.Standard.{digest, add_words}
use open_ferain_os.Sha.Text.{hash_text}
use open_ferain_os.Sha.Laws.{IsSha, sha256-digest, sha256_long}
use open_ferain_os.Digits.{rotr, hex_to_char}

abbrev used : Sha
used = record {
  registers = initial_registers;
  hash32 = replicate 8 1;
  hash8 = replicate 65 2;
  w = replicate 64 3;
  raw_data = replicate 64 4;
}

abc_hash :
    c_string (sha256_arrays (codes "abc") used).hash8
    ≡ codes "ba7816bf8f01cfea414140de5dae2223b00361a396177a9cb410ff61f20015ad"
unfolding sha256_arrays clear load_block sha256_round sha256_roc sha256_ie add_initial print_hex
    split_byte raw_word for_range rotr hex_to_char
abc_hash = refl

used-IsSha : IsSha used
used-IsSha = record { raw = refl; schedule = refl; text = refl }

abbrev long_message : List ℕ
long_message = replicate 56 b'a'

sha256-digest_example :
    ((sha256 (codes "abc") (used, system)).0.hash32 ≡ digest (codes "abc"))
    × ((sha256 (codes "abc") (used, system)).1 ≡ printf (hash_text (digest (codes "abc"))) system)
sha256-digest_example =
    sha256-digest (codes "abc") used system used-IsSha
      (omega arith, (omega arith, (omega arith, tt))) (omega arith)

sha256_long_example :
    ((sha256 long_message (used, system)).0.hash32 ≡ add_words initial_hash initial_hash)
    × ((sha256 long_message (used, system)).1
        ≡ printf (hash_text (add_words initial_hash initial_hash)) system)
sha256_long_example = sha256_long long_message used system used-IsSha (omega arith)
