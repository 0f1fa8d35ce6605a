-- ===== src/Framebuffer.antt =====
-- kernel/framebuffer.c: pixels, shapes and text. A pixel is an entry of `addr` by its index; an
-- index beyond the screen is one beyond the memory that the boot loader gave.
pub mod Font
pub mod Console
pub mod Rect
mod Tests
use lons_os.Base.{
  ℕ, zero, suc, ◌+◌, ◌-◌, ◌*◌, ◌/◌, ◌%◌, ◌^◌, Bool, ◌||◌, List, [], ◌∷◌, Option, none, some, ltb,
  leb, ◌==◌, if◌then◌else◌, get_or,
}
use lons_os.Base.Bits.{test_bit}
use lons_os.Base.Loops.{for_range}
use lons_os.Machine.{u32, u8, write}
use lons_os.Framebuffer.Font.{font_data}

-- `g_fb`.
pub record Framebuffer : Type 0 where
  pub addr : ℕ → ℕ
  pub width : ℕ
  pub height : ℕ
  pub pitch : ℕ
  pub bpp : ℕ

-- The boot loader's `struct limine_framebuffer`, with what its memory holds.
pub record LimineFramebuffer : Type 0 where
  pub address : ℕ → ℕ
  pub width : ℕ
  pub height : ℕ
  pub pitch : ℕ
  pub bpp : ℕ

-- The frame buffers of the response; there are none if it is null.
unfoldable pub fb_init : List LimineFramebuffer → Framebuffer → ℕ × Framebuffer
fb_init [] g = (0, g)
fb_init (fb ∷ more) g = (
  1,
  record {
    addr = fb.address;
    width = u32 fb.width;
    height = u32 fb.height;
    pitch = u32 fb.pitch;
    bpp = u8 fb.bpp;
  },
)

abbrev pub font_w : ℕ
font_w = 8

abbrev pub font_h : ℕ
font_h = 16

-- `(y * g_fb.pitch / 4) + x`
unfoldable pub pixel_index : ℕ → ℕ → Framebuffer → ℕ
pixel_index x y fb = u32 (u32 (y * fb.pitch) / 4 + x)

abbrev pub set_pixel : ℕ → ℕ → ℕ → Framebuffer → Framebuffer
set_pixel x y color fb = record fb { addr = write fb.addr (pixel_index x y fb) color }

-- The pixels of `cols` columns from `x` on in `rows` rows from `y` on.
unfoldable pub paint : ℕ → ℕ → ℕ → ℕ → ℕ → Framebuffer → ℕ → ℕ
paint x y cols rows color fb =
    for_range rows y (λ row a. for_range cols x (λ col a. write a (pixel_index col row fb) color) a)
      fb.addr

unfoldable pub fb_clear : ℕ → Framebuffer → Framebuffer
fb_clear color fb = record fb { addr = paint 0 0 fb.width fb.height color fb }

unfoldable pub fb_put_pixel : ℕ → ℕ → ℕ → Framebuffer → Framebuffer
fb_put_pixel x y color fb = if leb fb.width x || leb fb.height y then fb else set_pixel x y color fb

-- The end of a side, cut to the screen.
abbrev pub clip : ℕ → ℕ → ℕ → ℕ
clip x w limit = if ltb limit (u32 (x + w)) then limit else u32 (x + w)

unfoldable pub fb_fill_rect : ℕ → ℕ → ℕ → ℕ → ℕ → Framebuffer → Framebuffer
fb_fill_rect x y w h color fb = record fb {
  addr = paint x y (clip x w fb.width - x) (clip y h fb.height - y) color fb;
}

-- The loop of `fb_draw_hline` from `i` on, `n` to go. The row is not compared with the height.
unfoldable pub hline_from : ℕ → ℕ → ℕ → ℕ → ℕ → Framebuffer → Framebuffer
hline_from zero i x y color fb = fb
hline_from (suc n) i x y color fb =
    let rest = hline_from n (i + 1) x y color (set_pixel (x + i) y color fb) in
    if ltb (u32 (x + i)) fb.width then rest else fb

unfoldable pub fb_draw_hline : ℕ → ℕ → ℕ → ℕ → Framebuffer → Framebuffer
fb_draw_hline x y len color fb = hline_from len 0 x y color fb

-- The same for a column, which is not compared with the width.
unfoldable pub vline_from : ℕ → ℕ → ℕ → ℕ → ℕ → Framebuffer → Framebuffer
vline_from zero i x y color fb = fb
vline_from (suc n) i x y color fb =
    let rest = vline_from n (i + 1) x y color (set_pixel x (u32 (y + i)) color fb) in
    if ltb (u32 (y + i)) fb.height then rest else fb

unfoldable pub fb_draw_vline : ℕ → ℕ → ℕ → ℕ → Framebuffer → Framebuffer
fb_draw_vline x y len color fb = vline_from len 0 x y color fb

-- `x + w - 1` and `y + h - 1` in 32 bits.
unfoldable pub fb_draw_rect : ℕ → ℕ → ℕ → ℕ → ℕ → Framebuffer → Framebuffer
fb_draw_rect x y w h color fb =
    let top = fb_draw_hline x y w color fb in
    let bottom = fb_draw_hline x (u32 (y + h + 2 ^ 32 - 1)) w color top in
    let left = fb_draw_vline x y h color bottom in
    fb_draw_vline (u32 (x + w + 2 ^ 32 - 1)) y h color left

-- The rows of a character; one that the font does not have is a question mark.
unfoldable pub glyph : ℕ → List ℕ
glyph c = let idx = if ltb c 32 || ltb 127 c then b'?' else c in get_or font_data (idx - 32) []

-- `bits & (0x80 >> col)` is the bit 7 - col.
unfoldable pub fb_put_char : ℕ → ℕ → ℕ → ℕ → ℕ → Framebuffer → Framebuffer
fb_put_char x y c fg bg fb =
    for_range font_h 0
      (λ row t.
        let bits = get_or (glyph c) row 0 in
        for_range font_w 0
          (λ col u.
            fb_put_pixel (u32 (x + col)) (u32 (y + row))
              (if test_bit bits (7 - col) == 1 then fg else bg) u)
          t)
      fb

-- `cx` is the column at hand and `x` that of a new line.
unfoldable pub print_from : ℕ → ℕ → ℕ → List ℕ → ℕ → ℕ → Framebuffer → Framebuffer
print_from x cx y [] fg bg fb = fb
print_from x cx y (c ∷ cs) fg bg fb =
    if c == b'\n'
    then print_from x x (u32 (y + font_h)) cs fg bg fb
    else print_from x (u32 (cx + font_w)) y cs fg bg (fb_put_char cx y c fg bg fb)

unfoldable pub fb_print_at : ℕ → ℕ → List ℕ → ℕ → ℕ → Framebuffer → Framebuffer
fb_print_at x y str fg bg fb = print_from x x y str fg bg fb
