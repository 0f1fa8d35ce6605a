-- ===== src/Keyboard.antt =====
-- kernel/keyboard.c: the PS/2 keyboard's interrupt handler and its ring buffer.
pub mod Queue
pub mod Handler
mod Tests
use lons_os.Base.{
  ℕ, zero, suc, ◌+◌, ◌%◌, ◌/◌, Bool, true, false, not, ◌||◌, List, [], ◌∷◌, ◌==◌, if◌then◌else◌,
  get_or,
}
use lons_os.Base.Bits.{test_bit}
use lons_os.Machine.{write}
use lons_os.Machine.Ports.{Ports}

abbrev pub buffer_size : ℕ
buffer_size = 128

-- The static variables.
pub record Keyboard : Type 0 where
  pub buffer : ℕ → ℕ
  pub head : ℕ
  pub tail : ℕ
  pub shift_pressed : Bool
  pub ctrl_pressed : Bool
  pub alt_pressed : Bool

-- The two tables, as character codes. What follows the last listed entry is 0 in both, and
-- `get_or` with 0 reads it so.
abbrev pub scancode_to_ascii : List ℕ
scancode_to_ascii =
    0 ∷ 0 ∷ 49 ∷ 50 ∷ 51 ∷ 52 ∷ 53 ∷ 54 ∷ 55 ∷ 56 ∷ 57 ∷ 48 ∷ 45 ∷ 61 ∷ 8 ∷ 9 ∷ 113 ∷ 119 ∷ 101
    ∷ 114 ∷ 116 ∷ 121 ∷ 117 ∷ 105 ∷ 111 ∷ 112 ∷ 91 ∷ 93 ∷ 10 ∷ 0 ∷ 97 ∷ 115 ∷ 100 ∷ 102 ∷ 103 ∷ 104
    ∷ 106 ∷ 107 ∷ 108 ∷ 59 ∷ 39 ∷ 96 ∷ 0 ∷ 92 ∷ 122 ∷ 120 ∷ 99 ∷ 118 ∷ 98 ∷ 110 ∷ 109 ∷ 44 ∷ 46 ∷ 47
    ∷ 0 ∷ 42 ∷ 0 ∷ 32 ∷ []

abbrev pub scancode_to_ascii_shift : List ℕ
scancode_to_ascii_shift =
    0 ∷ 0 ∷ 33 ∷ 64 ∷ 35 ∷ 36 ∷ 37 ∷ 94 ∷ 38 ∷ 42 ∷ 40 ∷ 41 ∷ 95 ∷ 43 ∷ 8 ∷ 9 ∷ 81 ∷ 87 ∷ 69 ∷ 82
    ∷ 84 ∷ 89 ∷ 85 ∷ 73 ∷ 79 ∷ 80 ∷ 123 ∷ 125 ∷ 10 ∷ 0 ∷ 65 ∷ 83 ∷ 68 ∷ 70 ∷ 71 ∷ 72 ∷ 74 ∷ 75 ∷ 76
    ∷ 58 ∷ 34 ∷ 126 ∷ 0 ∷ 124 ∷ 90 ∷ 88 ∷ 67 ∷ 86 ∷ 66 ∷ 78 ∷ 77 ∷ 60 ∷ 62 ∷ 63 ∷ 0 ∷ 42 ∷ 0 ∷ 32
    ∷ []

unfoldable pub kbd_init : Keyboard → Keyboard
kbd_init k = record k { head = 0; tail = 0 }

unfoldable pub kbd_push_char : ℕ → Keyboard → Keyboard
kbd_push_char c k =
    let next = (k.head + 1) % buffer_size in
    if not (next == k.tail) then record k { buffer = write k.buffer k.head c; head = next } else k

unfoldable pub kbd_haschar : Keyboard → Bool
kbd_haschar k = not (k.head == k.tail)

-- The character, or 0 if there is none.
unfoldable pub kbd_getchar : Keyboard → ℕ × Keyboard
unfolding kbd_haschar
kbd_getchar k =
    if not (kbd_haschar k)
    then (0, k)
    else (k.buffer k.tail, record k { tail = (k.tail + 1) % buffer_size })

-- The character of a key, by the shift state; 0 for none.
unfoldable pub key_char : Bool → ℕ → ℕ
key_char shift scancode =
    if shift then get_or scancode_to_ascii_shift scancode 0 else get_or scancode_to_ascii scancode 0

-- What the handler does with a scancode byte.
unfoldable pub kbd_scancode : ℕ → Keyboard → Keyboard
kbd_scancode byte k =
    let released = test_bit byte 7 == 1 in
    let scancode = byte % 128 in
    let c = key_char k.shift_pressed scancode in
    if scancode == 0x2A || scancode == 0x36
    then record k { shift_pressed = not released }
    else if scancode == 0x1D
    then record k { ctrl_pressed = not released }
    else if scancode == 0x38
    then record k { alt_pressed = not released }
    else if released
    then k
    else if c == 0
    then k
    else kbd_push_char c k

module _ {D : Type 0} (io : Ports D) where
  -- The whole handler: the status port 0x64, and the data port 0x60 if a byte is there.
  unfoldable pub kbd_irq_handler : Keyboard → D → Keyboard × D
  kbd_irq_handler k d =
      let (status, d1) = io.inb 0x64 d in
      let (byte, d2) = io.inb 0x60 d1 in
      if test_bit status 0 == 0 then (k, d1) else (kbd_scancode byte k, d2)
