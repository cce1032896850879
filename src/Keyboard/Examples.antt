-- ===== src/Keyboard/Examples.antt =====
-- The keyboard on concrete scan codes.
use open_ferain_os.Base.{ℕ, ◌≡◌, ◌==◌, if◌then◌else◌, refl, arith, ◌∷◌}
use open_ferain_os.Memory.{store8}
use open_ferain_os.Machine.{Devices, in8}
use open_ferain_os.Samples.{zeros, machine}
use open_ferain_os.Keyboard.{Keyboard, symbol_switch, isr_for_ps2}
use open_ferain_os.Keyboard.Laws.{stored_key, isr_for_ps2_lem}

abbrev keyboard : Keyboard
keyboard = record { shift_flag = 1; capslock_flag = 1; machine = machine }

abbrev pressed : ℕ → Devices
pressed key = record { answer8 = λ t p. key; answer32 = λ t p. 0 }

-- The switch itself, which no key reaches.
switch_runs :
    ((symbol_switch 0x29 keyboard).0 ≡ b'~')
    × ((symbol_switch 0x4f keyboard).0 ≡ 0x4f)
    × ((symbol_switch 0x3a keyboard).1.capslock_flag ≡ 0)
    × ((symbol_switch 0xb6 keyboard).1.shift_flag ≡ 0)
    × ((symbol_switch 0x55 keyboard).0 ≡ 0xff)
unfolding symbol_switch
switch_runs = (refl, refl, refl, refl, refl)

isr_for_ps2_lem_example : isr_for_ps2 (pressed 0x1e) 0x9000 keyboard ≡ record keyboard {
  machine = record machine {
    mem = if stored_key 1 0x1e == 0xff then zeros else store8 zeros 0x9000 (stored_key 1 0x1e);
    traffic = in8 0x60 ∷ machine.traffic;
  };
}
isr_for_ps2_lem_example = isr_for_ps2_lem (pressed 0x1e) 0x9000 keyboard (omega arith) (omega arith)
