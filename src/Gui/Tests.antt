-- ===== src/Gui/Tests.antt =====
-- Two windows, of which first one and then the other gets the focus.
use lons_os.Base.{List, [], ◌∷◌, none, some, arith}
use lons_os.Gui.{Gui, Window, gui_init, gui_window_focus}
use lons_os.Gui.Focus.{Call, calls, Exclusive, gui_window_focus-Exclusive}

abbrev empty_window : Window
empty_window = record {
  x = 0;
  y = 0;
  w = 0;
  h = 0;
  visible = 0;
  focused = 0;
  title = [];
  con_x = 0;
  con_y = 0;
  con_fg = 0;
  con_bg = 0;
}

abbrev start : Gui
start = record {
  fb = record { addr = λ i. 0; width = 8; height = 30; pitch = 32; bpp = 32 };
  windows = λ n. empty_window;
  focused_window = none;
}

abbrev session : List Call
session =
    Call.create 1 25 100 80 (b'a' ∷ [])
    ∷ Call.create 9 33 100 80 (b'b' ∷ [])
    ∷ Call.focus 0 (omega arith)
    ∷ Call.print (some 0) (b'x' ∷ b'\n' ∷ [])
    ∷ []

gui_window_focus-Exclusive_example :
    Exclusive 1 (gui_window_focus (some 1) (calls session (gui_init start)))
gui_window_focus-Exclusive_example = gui_window_focus-Exclusive session start 1 (omega arith)
