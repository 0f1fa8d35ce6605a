-- ===== src/Keyboard/Tests.antt =====
-- Runs of the keyboard's buffer and handler.
use lons_os.Base.{◌+◌, ◌≡◌, arith, [], ◌∷◌, ◌++◌, false, ltb, length, if◌then◌else◌, ◌%◌}
use lons_os.Keyboard.{Keyboard, kbd_push_char, kbd_getchar, kbd_scancode}
use lons_os.Keyboard.Queue.{IsValid, contents, kbd_push_char_refines, Pops, kbd_getchar_refines}
use lons_os.Keyboard.Handler.{kbd_scancode-IsValid}

-- Three characters that wait, round the end of the array.
abbrev wrapped : Keyboard
wrapped = record {
  buffer = λ i. 65 + i % 26;
  head = 2;
  tail = 127;
  shift_pressed = false;
  ctrl_pressed = false;
  alt_pressed = false;
}

wrapped-IsValid : IsValid wrapped
wrapped-IsValid = omega arith

kbd_push_char_refines_example : contents (kbd_push_char 97 wrapped) ≡ (
    if ltb (length (contents wrapped)) 127 then contents wrapped ++ (97 ∷ []) else contents wrapped)
kbd_push_char_refines_example = kbd_push_char_refines 97 wrapped wrapped-IsValid

kbd_getchar_refines_example : Pops (contents wrapped) (kbd_getchar wrapped) wrapped
kbd_getchar_refines_example = kbd_getchar_refines wrapped wrapped-IsValid

kbd_scancode-IsValid_example : IsValid (kbd_scancode 30 wrapped)
kbd_scancode-IsValid_example = kbd_scancode-IsValid 30 wrapped wrapped-IsValid
