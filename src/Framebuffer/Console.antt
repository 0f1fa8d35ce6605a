-- ===== src/Framebuffer/Console.antt =====
-- The scrolling console of kernel/framebuffer.c.
use lons_os.Base.{
  ℕ, zero, suc, ◌+◌, ◌-◌, ◌*◌, ◌/◌, ◌%◌, ◌^◌, ◌&&◌, List, [], ◌∷◌, ltb, leb, ◌==◌, if◌then◌else◌,
}
use lons_os.Base.Loops.{for_range}
use lons_os.Machine.{u32, write}
use lons_os.Machine.Bytes.{Buffer}
use lons_os.Framebuffer.{Framebuffer, font_w, font_h, fb_clear, fb_fill_rect, fb_put_char}

abbrev pub con_pad : ℕ
con_pad = 8

-- The static variables and the screen.
pub record Console : Type 0 where
  pub fb : Framebuffer
  pub con_rx : ℕ
  pub con_ry : ℕ
  pub con_rw : ℕ
  pub con_rh : ℕ
  pub con_x : ℕ
  pub con_y : ℕ
  pub con_fg : ℕ
  pub con_bg : ℕ

-- `a - b` in 32 bits, for b < 2^32.
abbrev pub sub32 : ℕ → ℕ → ℕ
sub32 a b = (a + 2 ^ 32 - b) % 2 ^ 32

unfoldable pub fb_console_init : Console → Console
fb_console_init c = record c {
  fb = fb_clear c.con_bg c.fb;
  con_rx = con_pad;
  con_ry = con_pad;
  con_rw = sub32 c.fb.width (con_pad * 2);
  con_rh = sub32 c.fb.height (con_pad * 2);
  con_x = con_pad;
  con_y = con_pad;
}

unfoldable pub fb_console_init_region : ℕ → ℕ → ℕ → ℕ → Console → Console
fb_console_init_region x y w h c = record c {
  fb = fb_fill_rect x y w h c.con_bg c.fb;
  con_rx = x;
  con_ry = y;
  con_rw = w;
  con_rh = h;
  con_x = x;
  con_y = y;
}

unfoldable pub fb_console_set_color : ℕ → ℕ → Console → Console
fb_console_set_color fg bg c = record c { con_fg = fg; con_bg = bg }

-- The first pixel of the region in row `y`.
abbrev pub row_at : ℕ → Console → ℕ
row_at y c = u32 (y * (c.fb.pitch / 4)) + c.con_rx

-- The rows move up by the height of a character, and the last ones are cleared.
unfoldable pub con_scroll : Console → Console
con_scroll c =
    let bot = u32 (c.con_ry + c.con_rh) in
    let last = sub32 bot font_h in
    let moved =
      for_range (last - c.con_ry) c.con_ry
        (λ y a.
          for_range c.con_rw 0
            (λ x a. write a (row_at y c + x) (a (row_at (u32 (y + font_h)) c + x))) a)
        c.fb.addr in
    let cleared =
      for_range (bot - last) last
        (λ y a. for_range c.con_rw 0 (λ x a. write a (row_at y c + x) c.con_bg) a) moved in
    record c {
      fb = record (c.fb) { addr = cleared };
      con_y = if leb (u32 (c.con_ry + font_h)) c.con_y then c.con_y - font_h else c.con_y;
    }

unfoldable pub con_newline : Console → Console
con_newline c =
    let t = record c { con_x = c.con_rx; con_y = u32 (c.con_y + font_h) } in
    if ltb (u32 (t.con_ry + t.con_rh)) (u32 (t.con_y + font_h)) then con_scroll t else t

-- One character of `fb_console_print`.
unfoldable pub con_put : ℕ → Console → Console
con_put ch c =
    let t = record c {
      fb = fb_put_char c.con_x c.con_y ch c.con_fg c.con_bg c.fb;
      con_x = u32 (c.con_x + font_w);
    } in
    if ch == b'\n'
    then con_newline c
    else if ltb (u32 (t.con_rx + t.con_rw)) (u32 (t.con_x + font_w))
    then con_newline t
    else t

unfoldable pub fb_console_print : List ℕ → Console → Console
fb_console_print [] c = c
fb_console_print (ch ∷ str) c = fb_console_print str (con_put ch c)

unfoldable pub fb_console_backspace : Console → Console
fb_console_backspace c =
    let t = if ltb c.con_rx c.con_x then record c { con_x = sub32 c.con_x font_w } else record c {
      con_y = sub32 c.con_y font_h;
      con_x = u32 (c.con_rx + u32 (sub32 (c.con_rw / font_w) 1 * font_w));
    } in
    if leb c.con_x c.con_rx && leb c.con_y c.con_ry
    then c
    else record t { fb = fb_fill_rect t.con_x t.con_y font_w font_h t.con_bg t.fb }

-- The string at `k` of an array of which `n` bytes are left.
unfoldable pub c_string : ℕ → ℕ → Buffer → List ℕ
c_string zero k b = []
c_string (suc n) k b = let rest = c_string n (k + 1) b in if b k == 0 then [] else b k ∷ rest

abbrev pub hex_digit : ℕ → ℕ
hex_digit d = if ltb d 10 then b'0' + d else b'A' + (d - 10)

-- The digits from place `i` down to 2.
unfoldable pub hex_digits : ℕ → ℕ → Buffer → Buffer
hex_digits zero v b = b
hex_digits (suc i) v b =
    let rest = hex_digits i (v / 16) (write b (suc i) (hex_digit (v % 16))) in
    if leb 2 (suc i) then rest else b

-- `junk` is what the array holds before: `buf[16]` and `buf[17]` are printed as they are.
unfoldable pub fb_console_print_hex : Buffer → ℕ → Console → Console
fb_console_print_hex junk v c =
    let b = write (write (write junk 0 b'0') 1 b'x') 18 0 in
    fb_console_print (c_string 19 0 (hex_digits 15 v b)) c

-- The digits below place `i`, and the place of the first one.
unfoldable pub dec_digits : ℕ → ℕ → Buffer → ℕ × Buffer
dec_digits zero v b = (0, b)
dec_digits (suc i) v b =
    let rest = dec_digits i (v / 10) (write b i (b'0' + v % 10)) in
    if v == 0 then (suc i, b) else rest

-- `buf[19]` is printed as it is, behind the digits.
unfoldable pub fb_console_print_dec : Buffer → ℕ → Console → Console
fb_console_print_dec junk v c =
    let (i, b) = dec_digits 19 v (write junk 20 0) in
    if v == 0 then fb_console_print (b'0' ∷ []) c else fb_console_print (c_string (21 - i) i b) c
