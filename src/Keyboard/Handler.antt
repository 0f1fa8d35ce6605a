-- ===== src/Keyboard/Handler.antt =====
-- The keyboard's interrupt handler: which key events reach the buffer.
use lons_os.Base.{ℕ, ◌%◌, ◌==◌, ◌≡◌, Bool, true, false, not, ◌||◌, arith, if◌then◌else◌}
use lons_os.Base.Bits.{test_bit}
use lons_os.Keyboard.{Keyboard, key_char, kbd_push_char, kbd_scancode}
use lons_os.Keyboard.Queue.{IsValid, kbd_push_char-IsValid}

-- The keys that change a modifier, by their code without the release bit.
abbrev pub is_modifier : ℕ → Bool
is_modifier code = (code == 0x2A || code == 0x36) || (code == 0x1D || code == 0x38)

-- A modifier key only sets its flag, to whether it goes down.
pub kbd_scancode-modifier :
    (byte : ℕ) (k : Keyboard)
    → is_modifier (byte % 128) ≡ true
    → kbd_scancode byte k ≡ (
        if byte % 128 == 0x1D
        then record k { ctrl_pressed = not (test_bit byte 7 == 1) }
        else if byte % 128 == 0x38
        then record k { alt_pressed = not (test_bit byte 7 == 1) }
        else record k { shift_pressed = not (test_bit byte 7 == 1) })
unfolding kbd_scancode
kbd_scancode-modifier byte k h = ground arith

-- Any other key puts its character into the buffer when it goes down, unless that is 0, and does
-- nothing when it comes up.
pub kbd_scancode-key :
    (byte : ℕ) (k : Keyboard)
    → is_modifier (byte % 128) ≡ false
    → kbd_scancode byte k ≡ (
        if test_bit byte 7 == 1 || key_char k.shift_pressed (byte % 128) == 0
        then k
        else kbd_push_char (key_char k.shift_pressed (byte % 128)) k)
unfolding kbd_scancode
kbd_scancode-key byte k h = ground arith

-- From a valid state, no byte from the keyboard takes an index out of the buffer.
pub kbd_scancode-IsValid : (byte : ℕ) (k : Keyboard) → IsValid k → IsValid (kbd_scancode byte k)
unfolding kbd_scancode
kbd_scancode-IsValid byte k v =
    grind (arith, kbd_push_char-IsValid (key_char k.shift_pressed (byte % 128)) k)
