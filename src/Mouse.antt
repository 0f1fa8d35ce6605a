-- ===== src/Mouse.antt =====
-- kernel/mouse.c: the PS/2 mouse's packets, the cursor's position and the set-up dialogue. The size
-- of the screen, `g_fb.width` and `g_fb.height`, is an argument; the cursor is drawn in Mouse/Pointer.antt.
pub mod Cursor
pub mod Pointer
pub mod Shown
pub mod SavedRows
pub mod Erase
mod Tests
use lons_os.Base.{
  ℕ, zero, suc, ◌+◌, ◌-◌, ◌%◌, ◌/◌, Bool, true, false, not, ◌&&◌, ◌||◌, ltb, ◌==◌, if◌then◌else◌,
  bit_or, bit_and,
}
use lons_os.Base.Bits.{test_bit, bit_at, not_bit_at}
use lons_os.Machine.{u64}
use lons_os.Machine.Ports.{Ports}
use lons_os.Machine.Signed.{ℤ, pos, negsuc, minus, ◌+ℤ◌, to_int32, is_negative}

abbrev pub cursor_size : ℕ
cursor_size = 12

-- `(int8_t)z`
unfoldable pub to_int8 : ℤ → ℤ
to_int8 (pos n) = if ltb (n % 256) 128 then pos (n % 256) else negsuc (255 - n % 256)
to_int8 (negsuc n) = if ltb (n % 256) 128 then negsuc (n % 256) else pos (255 - n % 256)

abbrev pub negate : ℤ → ℤ
negate (pos zero) = pos 0
negate (pos (suc n)) = negsuc n
negate (negsuc n) = pos (n + 1)

-- `a >= b`
unfoldable pub geq : ℤ → ℤ → Bool
geq (pos m) (pos n) = not (ltb m n)
geq (pos m) (negsuc n) = true
geq (negsuc m) (pos n) = false
geq (negsuc m) (negsuc n) = not (ltb n m)

-- The static variables, of `mouse_bytes` the raw bytes.
pub record Mouse : Type 0 where
  pub mouse_interrupt_count : ℕ
  pub mouse_cycle : ℕ
  pub byte0 : ℕ
  pub byte1 : ℕ
  pub byte2 : ℕ
  pub mouse_ready : Bool
  pub mouse_x : ℤ
  pub mouse_y : ℤ
  pub mouse_buttons : ℕ
  pub prev_buttons : ℕ
  pub prev_mouse_x : ℤ
  pub prev_mouse_y : ℤ

-- One coordinate of `update_cursor_position`, on a side of `size` pixels, which is cast to int32_t.
unfoldable pub clamp : ℕ → ℤ → ℤ
clamp size x =
    let low = if is_negative x then pos 0 else x in
    let limit = to_int32 size +ℤ negsuc (cursor_size - 1) in
    if geq low limit then limit +ℤ negsuc 0 else low

unfoldable pub update_cursor_position : ℕ → ℕ → ℤ → ℤ → Mouse → Mouse
update_cursor_position width height dx dy m = record m {
  mouse_x = clamp width (m.mouse_x +ℤ dx);
  mouse_y = clamp height (m.mouse_y +ℤ dy);
}

-- The 16-bit movement: the byte as int8_t, less 256 if the sign bit of byte 0 is set.
unfoldable pub movement : ℕ → ℕ → ℤ
movement sign byte = let d = to_int8 (pos byte) in if sign == 0 then d else d +ℤ negsuc 255

-- What the handler does with the three bytes of a packet.
unfoldable pub process_packet : ℕ → ℕ → Mouse → Mouse
process_packet width height m =
    let dx = movement (test_bit m.byte0 4) m.byte1 in
    let dy = movement (test_bit m.byte0 5) m.byte2 in
    if test_bit m.byte0 6 == 0 && test_bit m.byte0 7 == 0
    then update_cursor_position width height (to_int8 dx) (to_int8 (negate dy))
        (record m { mouse_buttons = m.byte0 % 8 })
    else m

-- One byte from the mouse.
unfoldable pub mouse_byte : ℕ → ℕ → ℕ → Mouse → Mouse
mouse_byte width height value m =
    if m.mouse_cycle == 0
    then (if test_bit value 3 == 1 then record m { byte0 = value; mouse_cycle = 1 } else m)
    else if m.mouse_cycle == 1
    then record m { byte1 = value; mouse_cycle = 2 }
    else if m.mouse_cycle == 2
    then (let p = process_packet width height (record m { byte2 = value }) in
        record p { mouse_cycle = 0 })
    else m

abbrev int_eq : ℤ → ℤ → Bool
int_eq (pos m) (pos n) = m == n
int_eq (pos m) (negsuc n) = false
int_eq (negsuc m) (pos n) = false
int_eq (negsuc m) (negsuc n) = m == n

-- Whether something has changed, and the state with the previous position brought up to date.
unfoldable pub mouse_poll : Mouse → Bool × Mouse
mouse_poll m =
    if not (int_eq m.mouse_x m.prev_mouse_x)
      || not (int_eq m.mouse_y m.prev_mouse_y)
      || not (m.mouse_buttons == m.prev_buttons)
    then (
      true,
      record m {
        prev_mouse_x = m.mouse_x;
        prev_mouse_y = m.mouse_y;
        prev_buttons = m.mouse_buttons;
      },
    )
    else (false, m)

-- The three values that its pointers are set to.
abbrev pub mouse_get_state : Mouse → ℤ × ℤ × ℕ
mouse_get_state m = (m.mouse_x, m.mouse_y, m.mouse_buttons)

abbrev pub mouse_is_ready : Mouse → Bool
mouse_is_ready m = m.mouse_ready

module _ {D : Type 0} (io : Ports D) where
  unfoldable pub mouse_handler_c : ℕ → ℕ → Mouse → D → Mouse × D
  mouse_handler_c width height m d =
      let n = record m { mouse_interrupt_count = u64 (m.mouse_interrupt_count + 1) } in
      let (status, d1) = io.inb 0x64 d in
      let (value, d2) = io.inb 0x60 d1 in
      if test_bit status 0 == 0 then (n, d1) else (mouse_byte width height value n, d2)

  -- The `timeout` rounds of `mouse_wait`: until the status bit has the value wanted.
  unfoldable pub wait_status : ℕ → ℕ → ℕ → D → D
  wait_status zero bit value d = d
  wait_status (suc timeout) bit value d =
      let (status, d1) = io.inb 0x64 d in
      let again = wait_status timeout bit value d1 in
      if test_bit status bit == value then d1 else again

  unfoldable pub mouse_wait : ℕ → D → D
  mouse_wait type d = if type == 0 then wait_status 100000 0 1 d else wait_status 100000 1 0 d

  unfoldable pub mouse_write : ℕ → D → D
  mouse_write value d = io.outb 0x60 value (mouse_wait 1 (io.outb 0x64 0xD4 (mouse_wait 1 d)))

  unfoldable pub mouse_read : D → ℕ × D
  mouse_read d = io.inb 0x60 (mouse_wait 0 d)

  -- The commands of `mouse_init`: enable, set bit 1 and clear bit 5 of the command byte, reset,
  -- start streaming.
  unfoldable pub mouse_setup : D → D
  mouse_setup d =
      let d1 = io.outb 0x64 0xA8 (mouse_wait 1 d) in
      let d2 = mouse_wait 0 (io.outb 0x64 0x20 (mouse_wait 1 d1)) in
      let (status, d3) = io.inb 0x60 d2 in
      let config = bit_and (bit_or status (bit_at 1)) (not_bit_at 5) in
      let d4 = io.outb 0x60 config (mouse_wait 1 (io.outb 0x64 0x60 (mouse_wait 1 d3))) in
      let (ack, d5) = mouse_read (mouse_write 0xF6 d4) in
      let (ack2, d6) = mouse_read (mouse_write 0xF4 d5) in d6

  -- All of it but the last call, which draws the cursor: Mouse/Pointer.antt adds it.
  unfoldable pub mouse_init : ℕ → ℕ → Mouse → D → Mouse × D
  mouse_init width height m d = (
    record m { mouse_x = pos (width / 2); mouse_y = pos (height / 2); mouse_ready = true },
    mouse_setup d,
  )
