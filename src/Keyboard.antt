-- ===== src/Keyboard.antt =====
-- Include/asm/interrupt.h, the keyboard: the tables `PS2CLF` and `PS2CLT` of the letter keys, and the
-- interrupt handler `ISR_FOR_PS2` with the two flags it reads and changes.
pub mod Laws
mod Examples
use open_ferain_os.Base.{
  ℕ, ◌+◌, Bool, true, false, List, [], ◌∷◌, ◌==◌, ◌&&◌, ◌||◌, not, leb, if◌then◌else◌, bit_xor, u8,
}
use open_ferain_os.Memory.{Memory, store8}
use open_ferain_os.Machine.{Machine, Devices, inpb, on_mem}

-- A `switch` whose cases assign one value each: the first case that fits, or the default.
abbrev pub switch_on : List (ℕ × ℕ) → ℕ → ℕ → ℕ
switch_on [] key d = d
switch_on ((k, v) ∷ cases) key d = if key == k then v else switch_on cases key d

abbrev pub lower_cases : List (ℕ × ℕ)
lower_cases =
    (0x10, b'q')
    ∷ (0x11, b'w')
    ∷ (0x12, b'e')
    ∷ (0x13, b'r')
    ∷ (0x14, b't')
    ∷ (0x15, b'y')
    ∷ (0x16, b'u')
    ∷ (0x17, b'i')
    ∷ (0x18, b'o')
    ∷ (0x19, b'p')
    ∷ (0x1e, b'a')
    ∷ (0x1f, b's')
    ∷ (0x20, b'd')
    ∷ (0x21, b'f')
    ∷ (0x22, b'g')
    ∷ (0x23, b'h')
    ∷ (0x24, b'j')
    ∷ (0x25, b'k')
    ∷ (0x26, b'l')
    ∷ (0x2c, b'z')
    ∷ (0x2d, b'x')
    ∷ (0x2e, b'c')
    ∷ (0x2f, b'v')
    ∷ (0x30, b'b')
    ∷ (0x31, b'n')
    ∷ (0x32, b'm')
    ∷ []

abbrev pub upper_cases : List (ℕ × ℕ)
upper_cases =
    (0x10, b'Q')
    ∷ (0x11, b'W')
    ∷ (0x12, b'E')
    ∷ (0x13, b'R')
    ∷ (0x14, b'T')
    ∷ (0x15, b'Y')
    ∷ (0x16, b'U')
    ∷ (0x17, b'I')
    ∷ (0x18, b'O')
    ∷ (0x19, b'P')
    ∷ (0x1e, b'A')
    ∷ (0x1f, b'S')
    ∷ (0x20, b'D')
    ∷ (0x21, b'F')
    ∷ (0x22, b'G')
    ∷ (0x23, b'H')
    ∷ (0x24, b'J')
    ∷ (0x25, b'K')
    ∷ (0x26, b'L')
    ∷ (0x2c, b'Z')
    ∷ (0x2d, b'X')
    ∷ (0x2e, b'C')
    ∷ (0x2f, b'V')
    ∷ (0x30, b'B')
    ∷ (0x31, b'N')
    ∷ (0x32, b'M')
    ∷ []

unfoldable pub ps2clf : ℕ → ℕ
ps2clf key = switch_on lower_cases key 0xff

unfoldable pub ps2clt : ℕ → ℕ
ps2clt key = switch_on upper_cases key 0xff

-- The flags, and the machine whose memory holds the key buffer.
pub record Keyboard : Type 0 where
  pub shift_flag : ℕ
  pub capslock_flag : ℕ
  pub machine : Machine

unfoldable pub key_shift_d : Keyboard → Keyboard
key_shift_d k = record k { shift_flag = 1 }

unfoldable pub key_shift_u : Keyboard → Keyboard
key_shift_u k = record k { shift_flag = 0 }

unfoldable pub key_caps_lk : Keyboard → Keyboard
key_caps_lk k = record k { capslock_flag = bit_xor k.capslock_flag 1 }

-- `a <= b` as the number that C makes of it.
abbrev pub le_int : ℕ → ℕ → ℕ
le_int a b = if leb a b then 1 else 0

-- The condition as it is written: `0x10 <= key <= 0x19` compares the first test's 0 or 1.
unfoldable pub looks_like_letter : ℕ → Bool
looks_like_letter key =
    not (le_int (le_int 0x10 key) 0x19 == 0)
    || not (le_int (le_int 0x1e key) 0x26 == 0)
    || not (le_int (le_int 0x2c key) 0x32 == 0)

-- The keys with a second meaning under shift: the character without it.
abbrev pub plain_cases : List (ℕ × ℕ)
plain_cases =
    (0x29, b'`')
    ∷ (0x02, b'1')
    ∷ (0x03, b'2')
    ∷ (0x04, b'3')
    ∷ (0x05, b'4')
    ∷ (0x06, b'5')
    ∷ (0x07, b'6')
    ∷ (0x08, b'7')
    ∷ (0x09, b'8')
    ∷ (0x0a, b'9')
    ∷ (0x0b, b'0')
    ∷ (0x0c, b'-')
    ∷ (0x0d, b'=')
    ∷ (0x1a, b'[')
    ∷ (0x1b, b']')
    ∷ (0x27, b';')
    ∷ (0x28, b'\'')
    ∷ (0x2b, b'\\')
    ∷ (0x33, b',')
    ∷ (0x34, b'.')
    ∷ (0x35, b'/')
    ∷ []

-- And the character with shift.
abbrev pub shifted_cases : List (ℕ × ℕ)
shifted_cases =
    (0x29, b'~')
    ∷ (0x02, b'!')
    ∷ (0x03, b'@')
    ∷ (0x04, b'#')
    ∷ (0x05, b'$')
    ∷ (0x06, b'%')
    ∷ (0x07, b'^')
    ∷ (0x08, b'&')
    ∷ (0x09, b'*')
    ∷ (0x0a, b'(')
    ∷ (0x0b, b')')
    ∷ (0x0c, b'=')
    ∷ (0x0d, b'+')
    ∷ (0x1a, b'{')
    ∷ (0x1b, b'}')
    ∷ (0x27, b':')
    ∷ (0x28, b'"')
    ∷ (0x2b, b'|')
    ∷ (0x33, b'<')
    ∷ (0x34, b'>')
    ∷ (0x35, b'?')
    ∷ []

-- The number pad, which keeps the scan code under shift.
abbrev pub pad_cases : List (ℕ × ℕ)
pad_cases =
    (0x4f, b'1')
    ∷ (0x50, b'2')
    ∷ (0x51, b'3')
    ∷ (0x4b, b'4')
    ∷ (0x4c, b'5')
    ∷ (0x4d, b'6')
    ∷ (0x47, b'7')
    ∷ (0x48, b'8')
    ∷ (0x49, b'9')
    ∷ (0x52, b'0')
    ∷ (0x4a, b'-')
    ∷ (0x53, b'.')
    ∷ (0x4e, b'+')
    ∷ (0x37, b'*')
    ∷ []

-- What the `switch` leaves in `key` where it calls nothing.
abbrev symbol_key : ℕ → ℕ → ℕ
symbol_key shift key =
    let pad = switch_on pad_cases key 0xff in
    let unshifted = switch_on plain_cases key pad in
    let shifted = switch_on shifted_cases key (if pad == 0xff then 0xff else key) in
    if shift == 0 then unshifted else shifted

-- The `switch` of the handler.
unfoldable pub symbol_switch : ℕ → Keyboard → ℕ × Keyboard
unfolding key_shift_d key_shift_u key_caps_lk
symbol_switch key k =
    if key == 0x39
    then (b' ', k)
    else if key == 0x0f || key == 0x1c || key == 0x0e
    then (key, k)
    else if key == 0x3a
    then (0xff, key_caps_lk k)
    else if key == 0x2a || key == 0x36
    then (0x2a, key_shift_d k)
    else if key == 0xaa || key == 0xb6
    then (0xaa, key_shift_u k)
    else (symbol_key k.shift_flag key, k)

-- The branch on the condition, with the key that is left in the end.
unfoldable pub decode_key : ℕ → Keyboard → ℕ × Keyboard
unfolding ps2clf ps2clt looks_like_letter symbol_switch
decode_key key k =
    if looks_like_letter key
    then (
      if k.capslock_flag == 0 then ps2clf key else if k.capslock_flag == 1 then ps2clt key else key,
      k,
    )
    else symbol_switch key k

unfoldable pub isr_for_ps2 : Devices → ℕ → Keyboard → Keyboard
unfolding inpb decode_key
isr_for_ps2 hw keybuf_ptr k =
    let (key, machine) = inpb hw 0x60 k.machine in
    let (key, k) = decode_key key (record k { machine = machine }) in
    if key == 0xff
    then k
    else record k { machine = on_mem (λ m. store8 m keybuf_ptr key) k.machine }
