-- ===== src/Gui/Text.antt =====
-- The text of windows in kernel/gui.c.
use lons_os.Base.{
  ℕ, ◌+◌, ◌-◌, ◌*◌, ◌/◌, Bool, ◌&&◌, ◌||◌, List, [], ◌∷◌, Option, none, some, ltb, leb, ◌==◌,
  if◌then◌else◌,
}
use lons_os.Base.Loops.{for_range}
use lons_os.Machine.{u32, write}
use lons_os.Machine.Bytes.{Buffer}
use lons_os.Framebuffer.{Framebuffer, font_w, font_h, fb_fill_rect, fb_put_char}
use lons_os.Framebuffer.Console.{sub32, c_string, hex_digits, dec_digits}
use lons_os.Gui.{Gui, Window, max_windows, content_x, content_y, content_w, content_h}

-- The first pixel of the content in row `y`.
abbrev pub content_row : ℕ → Window → Framebuffer → ℕ
content_row y win fb = u32 (y * (fb.pitch / 4)) + content_x win

-- The rows of the content move up by the height of a character, and the last ones are clear_content.
unfoldable pub scrolled : Window → Framebuffer → Framebuffer
scrolled win fb =
    let cy = content_y win in
    let bot = u32 (cy + content_h win) in
    let last = sub32 bot font_h in
    let moved =
      for_range (last - cy) cy
        (λ y a.
          for_range (content_w win) 0
            (λ x a.
              write a (content_row y win fb + x) (a (content_row (u32 (y + font_h)) win fb + x)))
            a)
        fb.addr in
    record fb {
      addr =
          for_range (bot - last) last
            (λ y a.
              for_range (content_w win) 0 (λ x a. write a (content_row y win fb + x) win.con_bg) a)
            moved;
    }

unfoldable pub win_scroll : ℕ → Gui → Gui
win_scroll wid s =
    let win = s.windows wid in
    let up =
      if leb (u32 (content_y win + font_h)) win.con_y then win.con_y - font_h else win.con_y in
    record s { fb = scrolled win s.fb; windows = write s.windows wid (record win { con_y = up }) }

unfoldable pub win_newline : ℕ → Gui → Gui
win_newline wid s =
    let win = s.windows wid in
    let moved = record win { con_x = content_x win; con_y = u32 (win.con_y + font_h) } in
    let t = record s { windows = write s.windows wid moved } in
    if ltb (u32 (content_y win + content_h win)) (u32 (moved.con_y + font_h))
    then win_scroll wid t
    else t

-- No character has room behind the cursor.
abbrev pub at_end : Window → Bool
at_end win = ltb (u32 (content_x win + content_w win)) (u32 (win.con_x + font_w))

abbrev pub moved_on : Window → Window
moved_on win = record win { con_x = u32 (win.con_x + font_w) }

abbrev pub with_char : ℕ → ℕ → Gui → Gui
with_char wid ch s =
    let win = s.windows wid in
    record s {
      fb = fb_put_char win.con_x win.con_y ch win.con_fg win.con_bg s.fb;
      windows = write s.windows wid (moved_on win);
    }

-- One character of `gui_print`.
unfoldable pub win_put : ℕ → ℕ → Gui → Gui
win_put wid ch s =
    if ch == b'\n'
    then win_newline wid s
    else if at_end (moved_on (s.windows wid))
    then win_newline wid (with_char wid ch s)
    else with_char wid ch s

unfoldable pub win_print : ℕ → List ℕ → Gui → Gui
win_print wid [] s = s
win_print wid (ch ∷ str) s = win_print wid str (win_put wid ch s)

-- The number of a window of the table that is shown.
unfoldable pub shown : Option ℕ → Gui → Option ℕ
shown none s = none
shown (some wid) s = if leb max_windows wid || (s.windows wid).visible == 0 then none else some wid

unfoldable pub print_shown : Option ℕ → List ℕ → Gui → Gui
print_shown none str s = s
print_shown (some wid) str s = win_print wid str s

unfoldable pub gui_print : Option ℕ → List ℕ → Gui → Gui
gui_print wid str s = print_shown (shown wid s) str s

-- `junk` is what the array holds before: `buf[16]` and `buf[17]` are printed as they are.
unfoldable pub gui_print_hex : Buffer → Option ℕ → ℕ → Gui → Gui
gui_print_hex junk wid val s =
    let b = write (write (write junk 0 b'0') 1 b'x') 18 0 in
    gui_print wid (c_string 19 0 (hex_digits 15 val b)) s

-- `buf[19]` is printed as it is, behind the digits.
unfoldable pub gui_print_dec : Buffer → Option ℕ → ℕ → Gui → Gui
gui_print_dec junk wid val s =
    let (i, b) = dec_digits 19 val (write junk 20 0) in
    if val == 0 then gui_print wid (b'0' ∷ []) s else gui_print wid (c_string (21 - i) i b) s

-- A change of a window of the table.
unfoldable pub on_window : Option ℕ → (ℕ → Gui → Gui) → Gui → Gui
on_window none change s = s
on_window (some n) change s = if ltb n max_windows then change n s else s

abbrev pub color_window : ℕ → ℕ → Gui → Gui
color_window fg wid s = record s {
  windows = write s.windows wid (record (s.windows wid) { con_fg = fg });
}

unfoldable pub gui_set_color : Option ℕ → ℕ → Gui → Gui
gui_set_color wid fg s = on_window wid (color_window fg) s

-- The cursor stands at the first character.
abbrev pub at_start : Window → Bool
at_start win = leb win.con_x (content_x win) && leb win.con_y (content_y win)

abbrev pub last_column : Window → ℕ
last_column win = u32 (content_x win + u32 (sub32 (content_w win / font_w) 1 * font_w))

-- The cursor one character back, in the line before if it stands at the start of one.
abbrev pub stepped_back : Window → Window
stepped_back win =
    let inner = ltb (content_x win) win.con_x in
    record win {
      con_x = if inner then sub32 win.con_x font_w else last_column win;
      con_y = if inner then win.con_y else sub32 win.con_y font_h;
    }

unfoldable pub win_backspace : ℕ → Gui → Gui
win_backspace wid s =
    let moved = stepped_back (s.windows wid) in
    if at_start (s.windows wid) then s else record s {
      fb = fb_fill_rect moved.con_x moved.con_y font_w font_h moved.con_bg s.fb;
      windows = write s.windows wid moved;
    }

unfoldable pub backspace_shown : Option ℕ → Gui → Gui
backspace_shown none s = s
backspace_shown (some wid) s = win_backspace wid s

unfoldable pub gui_backspace : Option ℕ → Gui → Gui
gui_backspace wid s = backspace_shown (shown wid s) s

unfoldable pub gui_newline : Option ℕ → Gui → Gui
gui_newline wid s = on_window wid win_newline s

abbrev pub clear_content : ℕ → Gui → Gui
clear_content wid s =
    let win = s.windows wid in
    record s {
      fb =
          fb_fill_rect (content_x win) (content_y win) (content_w win) (content_h win) win.con_bg
            s.fb;
      windows = write s.windows wid (record win { con_x = content_x win; con_y = content_y win });
    }

unfoldable pub gui_clear_window : Option ℕ → Gui → Gui
gui_clear_window wid s = on_window wid clear_content s
