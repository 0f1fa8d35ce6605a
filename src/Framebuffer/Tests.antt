-- ===== src/Framebuffer/Tests.antt =====
-- A run on a small screen.
use lons_os.Base.{◌≡◌, refl, arith, if◌then◌else◌}
use lons_os.Framebuffer.{Framebuffer, fb_fill_rect}
use lons_os.Framebuffer.Rect.{pixel, inside, fb_fill_rect-pixel}

-- Four rows of five pixels, with room for six.
abbrev small_screen : Framebuffer
small_screen = record { addr = λ i. i; width = 5; height = 4; pitch = 24; bpp = 32 }

fb_fill_rect-pixel_example :
    pixel 4 3 (fb_fill_rect 3 2 10 10 7 small_screen)
    ≡ (if inside 3 2 10 10 4 3 then 7 else pixel 4 3 small_screen)
fb_fill_rect-pixel_example =
    fb_fill_rect-pixel small_screen
      (record { stride = 6; whole = refl; apart = omega arith; fits = omega arith }) 3 2 10 10 7 4 3
      (omega arith) (omega arith) (omega arith) (omega arith)
