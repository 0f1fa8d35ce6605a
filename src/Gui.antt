-- ===== src/Gui.antt =====
-- kernel/gui.c: the desktop, the windows and their frames. The number of a window is a natural
-- number, and `none` stands for a negative one. A signed coordinate is its 32-bit word.
pub mod Text
pub mod Kept
pub mod Focus
mod Tests
use lons_os.Base.{
  ℕ, zero, suc, ◌+◌, ◌-◌, ◌*◌, ◌/◌, ◌%◌, ◌^◌, Bool, not, ◌||◌, List, [], ◌∷◌, Option, none, some,
  ltb, leb, ◌==◌, if◌then◌else◌, take, length,
}
use lons_os.Base.Loops.{for_range}
use lons_os.Machine.{u32, u8, write}
use lons_os.Framebuffer.{
  Framebuffer, font_w, font_h, fb_put_pixel, fb_fill_rect, fb_draw_rect, fb_draw_hline, fb_print_at,
}
use lons_os.Framebuffer.Console.{sub32}

abbrev pub max_windows : ℕ
max_windows = 8

abbrev pub menubar_h : ℕ
menubar_h = 24

abbrev pub titlebar_h : ℕ
titlebar_h = 28

abbrev pub win_border : ℕ
win_border = 2

abbrev pub traffic_r : ℕ
traffic_r = 7

abbrev pub traffic_pad : ℕ
traffic_pad = 10

abbrev pub traffic_gap : ℕ
traffic_gap = 18

abbrev pub gui_winbg : ℕ
gui_winbg = 0x001A1A2E

abbrev pub gui_winfg : ℕ
gui_winfg = 0x00DDDDDD

-- GUI_MENUBAR and GUI_MENUFG.
abbrev pub gui_menubar : ℕ
gui_menubar = 0x002A2A2A

abbrev pub gui_menufg : ℕ
gui_menufg = 0x00EEEEEE

-- `gui_window_t`.
pub record Window : Type 0 where
  pub x : ℕ
  pub y : ℕ
  pub w : ℕ
  pub h : ℕ
  pub visible : ℕ
  pub focused : ℕ
  pub title : List ℕ
  pub con_x : ℕ
  pub con_y : ℕ
  pub con_fg : ℕ
  pub con_bg : ℕ

-- `g_windows`, `g_focused_window` and the screen.
pub record Gui : Type 0 where
  pub fb : Framebuffer
  pub windows : ℕ → Window
  pub focused_window : Option ℕ

-- `dx * dx` for dx = i - r.
abbrev pub square : ℕ → ℕ → ℕ
square i r = ((i - r) + (r - i)) * ((i - r) + (r - i))

-- `dy` and `dx` go from -r to r: they are `j - r` and `i - r`.
unfoldable pub draw_circle : ℕ → ℕ → ℕ → ℕ → Framebuffer → Framebuffer
draw_circle cx cy r color fb =
    for_range (2 * r + 1) 0
      (λ j t.
        for_range (2 * r + 1) 0
          (λ i u.
            if leb (square i r + square j r) (r * r)
            then fb_put_pixel (sub32 (cx + i) r) (sub32 (cy + j) r) color u
            else u)
          t)
      fb

-- `(int32_t)d / 2`, which rounds to 0.
unfoldable pub half : ℕ → ℕ
half d = if ltb d (2 ^ 31) then d / 2 else sub32 0 ((2 ^ 32 - d) / 2)

-- `a < b` on signed words.
abbrev pub signed_lt : ℕ → ℕ → Bool
signed_lt a b = ltb (u32 (a + 2 ^ 31)) (u32 (b + 2 ^ 31))

-- The start of a text of `size` pixels in a side of `room` pixels from `at` on.
unfoldable pub centered : ℕ → ℕ → ℕ → ℕ
centered at room size =
    let t = u32 (at + half (sub32 room size)) in if signed_lt t at then at else t

unfoldable pub draw_text_centered : ℕ → ℕ → ℕ → ℕ → List ℕ → ℕ → ℕ → Framebuffer → Framebuffer
draw_text_centered box_x box_y box_w box_h str fg bg fb =
    fb_print_at (centered box_x box_w (u32 (length str * font_w))) (centered box_y box_h font_h) str
      fg bg fb

abbrev pub content_x : Window → ℕ
content_x win = u32 (win.x + win_border)

abbrev pub content_y : Window → ℕ
content_y win = u32 (win.y + titlebar_h)

abbrev pub content_w : Window → ℕ
content_w win = sub32 win.w (win_border * 2)

abbrev pub content_h : Window → ℕ
content_h win = sub32 (sub32 win.h titlebar_h) win_border

-- The colour of row `y` of the desktop.
unfoldable pub desktop_color : ℕ → ℕ → ℕ
desktop_color y height =
    let t = u32 ((y - menubar_h) * 255) / sub32 height menubar_h in
    let r = u8 (sub32 0x1D (u32 ((0x1D - 0x0A) * t) / 255)) in
    let g = u8 (sub32 0x35 (u32 ((0x35 - 0x16) * t) / 255)) in
    let b = u8 (sub32 0x57 (u32 ((0x57 - 0x28) * t) / 255)) in r * 65536 + g * 256 + b

abbrev pub os_name : List ℕ
os_name = b' ' ∷ b' ' ∷ b'L' ∷ b'o' ∷ b'n' ∷ b's' ∷ b' ' ∷ b'O' ∷ b'S' ∷ b' ' ∷ []

abbrev pub menu_items : List ℕ
menu_items =
    b'F' ∷ b'i' ∷ b'l' ∷ b'e' ∷ b' ' ∷ b' ' ∷ b' ' ∷ b' ' ∷ b'V' ∷ b'i' ∷ b'e' ∷ b'w' ∷ b' ' ∷ b' '
    ∷ b' ' ∷ b' ' ∷ b'H' ∷ b'e' ∷ b'l' ∷ b'p' ∷ []

abbrev pub clock_str : List ℕ
clock_str = b'0' ∷ b'0' ∷ b':' ∷ b'0' ∷ b'0' ∷ []

unfoldable pub gui_draw_menubar : Framebuffer → Framebuffer
gui_draw_menubar fb =
    let row = (menubar_h - font_h) / 2 in
    let t1 = fb_fill_rect 0 0 fb.width menubar_h gui_menubar fb in
    let t2 = fb_draw_hline 0 (menubar_h - 1) fb.width 0x00111111 t1 in
    let t3 = fb_print_at 12 row os_name gui_menufg gui_menubar t2 in
    let t4 = fb_print_at 100 row menu_items gui_menufg gui_menubar t3 in
    let clock_x = sub32 (sub32 fb.width (5 * font_w)) 16 in
    fb_print_at clock_x row clock_str gui_menufg gui_menubar t4

-- The rows of the desktop, and the menu bar.
unfoldable pub gui_init : Gui → Gui
gui_init s =
    let rows =
      for_range (s.fb.height - menubar_h) menubar_h
        (λ y t. fb_draw_hline 0 y t.width (desktop_color y t.height) t) s.fb in
    record s {
      fb = gui_draw_menubar rows;
      windows = λ n.
          if ltb n max_windows
          then record (s.windows n) { visible = 0; focused = 0 }
          else s.windows n;
      focused_window = none;
    }

-- The three buttons, with radius `r` and these colours.
unfoldable pub draw_buttons : ℕ → ℕ → ℕ → ℕ → ℕ → ℕ → Framebuffer → Framebuffer
draw_buttons x y r c1 c2 c3 fb =
    let t1 = draw_circle x y r c1 fb in
    let t2 = draw_circle (u32 (x + traffic_gap)) y r c2 t1 in
    draw_circle (u32 (x + traffic_gap + traffic_gap)) y r c3 t2

abbrev not_zero : ℕ → Bool
not_zero v = not (v == 0)

-- What `gui_window_draw` draws of a window that is visible.
unfoldable pub draw_frame : Window → Framebuffer → Framebuffer
draw_frame win fb =
    let active = not_zero win.focused in
    let tb_color = if active then 0x004A4A4A else 0x003C3C3C in
    let side = sub32 win.w (win_border * 2) in
    let t1 = fb_draw_rect win.x win.y win.w win.h 0x00555555 fb in
    let t2 =
      fb_fill_rect (u32 (win.x + win_border)) (u32 (win.y + win_border)) side
        (titlebar_h - win_border) tb_color t1 in
    let btn_y = u32 (win.y + titlebar_h / 2) in
    let btn_x = u32 (win.x + traffic_pad + traffic_r) in
    let t3 = draw_buttons btn_x btn_y traffic_r 0x00FF5F57 0x00FEBC2E 0x0028C840 t2 in
    let t4 = draw_buttons btn_x btn_y (traffic_r + 1) 0x00222222 0x00222222 0x00222222 t3 in
    let t5 = draw_buttons btn_x btn_y traffic_r 0x00FF5F57 0x00FEBC2E 0x0028C840 t4 in
    let t6 =
      draw_text_centered (u32 (win.x + 60)) (u32 (win.y + win_border)) (sub32 win.w 80)
        (titlebar_h - win_border) win.title (if active then 0x00FFFFFF else 0x00AAAAAA) tb_color
        t5 in
    fb_fill_rect (content_x win) (content_y win) (content_w win) (content_h win) gui_winbg t6

unfoldable pub gui_window_draw : ℕ → Gui → Gui
gui_window_draw wid s =
    let win = s.windows wid in if win.visible == 0 then s else record s { fb = draw_frame win s.fb }

-- The first window from `i` on that is not shown, `n` to go.
unfoldable pub free_slot : ℕ → ℕ → (ℕ → Window) → Option ℕ
free_slot zero i windows = none
free_slot (suc n) i windows =
    let later = free_slot n (i + 1) windows in if (windows i).visible == 0 then some i else later

-- `title` has no 0.
unfoldable pub open_at : ℕ → ℕ → ℕ → ℕ → ℕ → List ℕ → Gui → Gui
open_at wid x y w h title s =
    let win : Window = record {
      x = x;
      y = y;
      w = w;
      h = h;
      visible = 1;
      focused = 0;
      title = take 63 title;
      con_x = u32 (x + win_border);
      con_y = u32 (y + titlebar_h);
      con_fg = gui_winfg;
      con_bg = gui_winbg;
    } in
    gui_window_draw wid (record s { windows = write s.windows wid win })

unfoldable pub open_slot : Option ℕ → ℕ → ℕ → ℕ → ℕ → List ℕ → Gui → Option ℕ × Gui
open_slot none x y w h title s = (none, s)
open_slot (some wid) x y w h title s = (some wid, open_at wid x y w h title s)

unfoldable pub gui_window_create : ℕ → ℕ → ℕ → ℕ → List ℕ → Gui → Option ℕ × Gui
gui_window_create x y w h title s = open_slot (free_slot max_windows 0 s.windows) x y w h title s

abbrev pub set_focused : ℕ → ℕ → Gui → Gui
set_focused wid value s = record s {
  windows = write s.windows wid (record (s.windows wid) { focused = value });
}

-- `Unfocus previous`.
unfoldable pub unfocus : Option ℕ → Gui → Gui
unfocus none s = s
unfocus (some prev) s =
    if ltb prev max_windows then gui_window_draw prev (set_focused prev 0 s) else s

unfoldable pub gui_window_focus : Option ℕ → Gui → Gui
gui_window_focus none s = record (unfocus s.focused_window s) { focused_window = none }
gui_window_focus (some wid) s =
    gui_window_draw wid
      (set_focused wid 1 (record (unfocus s.focused_window s) { focused_window = some wid }))

unfoldable pub gui_redraw_area : ℕ → ℕ → ℕ → ℕ → Gui → Gui
gui_redraw_area x y w h s =
    let t = fb_fill_rect x y w h 0x001D3557 s.fb in
    record s { fb = if ltb y menubar_h then gui_draw_menubar t else t }
