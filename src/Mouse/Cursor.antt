-- ===== src/Mouse/Cursor.antt =====
-- The cursor stays on the screen, and how far a packet moves it.
use lons_os.Base.{ℕ, ◌+◌, ◌^◌, ◌<◌, ◌≡◌, arith}
use lons_os.Machine.Signed.{ℤ, pos, negsuc, minus, ◌+ℤ◌}
use lons_os.Mouse.{Mouse, cursor_size, to_int8, geq, clamp, update_cursor_position, movement}

-- A position from which the whole cursor fits into `size` pixels.
abbrev pub OnScreen : ℕ → ℤ → Type 0
OnScreen size (pos n) = n + cursor_size < size
OnScreen size (negsuc n) = ⊥

clamp-OnScreen :
    (size : ℕ) (x : ℤ) → cursor_size < size → size < 2 ^ 31 → OnScreen size (clamp size x)
unfolding clamp minus geq ◌+ℤ◌
clamp-OnScreen size (pos n) h k = ground arith
clamp-OnScreen size (negsuc n) h k = ground arith

-- Whatever the movement, the cursor lies whole on a screen of more than 12 by 12 pixels
-- whose sides are below 2^31.
pub update_cursor_position-OnScreen :
    (width height : ℕ) (dx dy : ℤ) (m : Mouse)
    → cursor_size < width
    → cursor_size < height
    → width < 2 ^ 31
    → height < 2 ^ 31
    → OnScreen width (update_cursor_position width height dx dy m).mouse_x
      × OnScreen height (update_cursor_position width height dx dy m).mouse_y
unfolding update_cursor_position
update_cursor_position-OnScreen width height dx dy m w h w2 h2 =
    (clamp-OnScreen width (m.mouse_x +ℤ dx) w w2, clamp-OnScreen height (m.mouse_y +ℤ dy) h h2)

-- Whatever the sign bit of a packet, the movement that is passed on is the byte alone, as a signed
-- one.
pub to_int8-movement :
    (sign byte : ℕ) → byte < 256 → to_int8 (movement sign byte) ≡ to_int8 (pos byte)
unfolding movement to_int8 ◌+ℤ◌ minus
to_int8-movement sign byte h = ground arith
