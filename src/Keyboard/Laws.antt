-- ===== src/Keyboard/Laws.antt =====
-- What reaches the key buffer, and what does not.
use open_ferain_os.Base.{
  ℕ, ◌-◌, ◌≤◌, ◌<◌, ◌≡◌, true, ◌∷◌, ◌==◌, ◌&&◌, leb, if◌then◌else◌, refl, arith, get_or, codes,
  all_below, all_below_holds,
}
use open_ferain_os.Memory.{store8}
use open_ferain_os.Machine.{Devices, in8}
use open_ferain_os.Keyboard.{ps2clf, ps2clt, looks_like_letter, isr_for_ps2, Keyboard}

-- The three rows of letters on the keyboard, by their first scan code.
abbrev pub letter_at : ℕ → ℕ
letter_at key =
    if leb 0x10 key && leb key 0x19
    then get_or (codes "qwertyuiop") (key - 0x10) 0
    else if leb 0x1e key && leb key 0x26
    then get_or (codes "asdfghjkl") (key - 0x1e) 0
    else if leb 0x2c key && leb key 0x32
    then get_or (codes "zxcvbnm") (key - 0x2c) 0
    else 0xff

abbrev pub upper_of : ℕ → ℕ
upper_of c = if c == 0xff then 0xff else c - 32

letters_table :
    all_below 256 (λ k. ps2clf k == letter_at k && ps2clt k == upper_of (letter_at k)) ≡ true
unfolding all_below ps2clf ps2clt
letters_table = refl

-- The two tables on a scan code: the letter of the row, and the same in upper case; 0xff elsewhere.
tables-letter :
    (key : ℕ) → key < 256 → (ps2clf key ≡ letter_at key) × (ps2clt key ≡ upper_of (letter_at key))
tables-letter key h = let e = all_below_holds 256 _ key letters_table h in ground arith

looks_like_letter_always : (key : ℕ) → looks_like_letter key ≡ true
unfolding looks_like_letter
looks_like_letter_always key = ground arith

-- The key that the handler stores, or 0xff for none.
abbrev pub stored_key : ℕ → ℕ → ℕ
stored_key capslock key = if capslock == 0 then letter_at key else upper_of (letter_at key)

-- With a capslock flag of 0 or 1 and a device that answers bytes, a keyboard interrupt stores the
-- letter of the scan code, in upper case under capslock, and stores nothing for any other key; both
-- flags stay as they were, whatever key it is, and the only port access is the read of 0x60.
pub isr_for_ps2_lem :
    (hw : Devices) (keybuf_ptr : ℕ) (k : Keyboard)
    → k.capslock_flag ≤ 1
    → hw.answer8 k.machine.traffic 0x60 < 256
    → let key = hw.answer8 k.machine.traffic 0x60 in
      let c = stored_key k.capslock_flag key in
      isr_for_ps2 hw keybuf_ptr k ≡ record k {
        machine = record k.machine {
          mem = if c == 0xff then k.machine.mem else store8 k.machine.mem keybuf_ptr c;
          traffic = in8 0x60 ∷ k.machine.traffic;
        };
      }
unfolding isr_for_ps2
isr_for_ps2_lem hw keybuf_ptr k caps byte =
    let key = hw.answer8 k.machine.traffic 0x60 in
    ground (arith, looks_like_letter_always key, tables-letter key byte)
