-- ===== src/Mouse/Tests.antt =====
-- Runs of the cursor.
use lons_os.Base.{◌≡◌, refl, arith, true, false}
use lons_os.Machine.Signed.{pos, negsuc}
use lons_os.Framebuffer.{Framebuffer}
use lons_os.Framebuffer.Rect.{pixel}
use lons_os.Mouse.Pointer.{SavedCursor, draw_cursor, clear_cursor}
use lons_os.Mouse.Erase.{clear_cursor-draw_cursor}
use lons_os.Mouse.{Mouse, update_cursor_position}
use lons_os.Mouse.Cursor.{OnScreen, update_cursor_position-OnScreen}

abbrev centre : Mouse
centre = record {
  mouse_interrupt_count = 0;
  mouse_cycle = 0;
  byte0 = 8;
  byte1 = 0;
  byte2 = 0;
  mouse_ready = true;
  mouse_x = pos 320;
  mouse_y = pos 240;
  mouse_buttons = 0;
  prev_buttons = 0;
  prev_mouse_x = pos 320;
  prev_mouse_y = pos 240;
}

update_cursor_position-OnScreen_example :
    OnScreen 640 (update_cursor_position 640 480 (pos 400) (negsuc 300) centre).mouse_x
    × OnScreen 480 (update_cursor_position 640 480 (pos 400) (negsuc 300) centre).mouse_y
update_cursor_position-OnScreen_example =
    update_cursor_position-OnScreen 640 480 (pos 400) (negsuc 300) centre (omega arith)
      (omega arith) (omega arith) (omega arith)

-- A screen of 20 by 16 pixels, and a cursor that goes beyond its edges.
abbrev little_screen : Framebuffer
little_screen = record { addr = λ i. i; width = 20; height = 16; pitch = 80; bpp = 32 }

abbrev nothing_saved : SavedCursor
nothing_saved = record { cursor_save = λ i. 0; save_x = 0; save_y = 0; cursor_saved = false }

clear_cursor-draw_cursor_example :
    let drawn = draw_cursor (pos 12) (negsuc 1) nothing_saved little_screen in
    pixel 13 2 (clear_cursor drawn.0 drawn.1).1 ≡ pixel 13 2 little_screen
clear_cursor-draw_cursor_example =
    clear_cursor-draw_cursor little_screen (pos 12) (negsuc 1) nothing_saved 13 2
      (record { stride = 20; whole = refl; apart = omega arith; fits = omega arith }) (omega arith)
      (omega arith) (omega arith) (omega arith)
