-- ===== src/Mouse/Pointer.antt =====
-- The drawing of the mouse cursor in kernel/mouse.c, and what it covers.
use lons_os.Base.{ℕ, ◌+◌, ◌-◌, ◌*◌, ◌/◌, ◌^◌, Bool, true, false, ◌&&◌, ltb, if◌then◌else◌}
use lons_os.Base.Loops.{for_range}
use lons_os.Machine.{u32, write}
use lons_os.Machine.Signed.{ℤ, pos, negsuc}
use lons_os.Framebuffer.{Framebuffer, fb_put_pixel}
use lons_os.Machine.Ports.{Ports}
use lons_os.Mouse.{cursor_size, Mouse, mouse_init}

-- `(uint32_t)z`
unfoldable pub to_word : ℤ → ℕ
to_word (pos n) = u32 n
to_word (negsuc n) = 2 ^ 32 - 1 - u32 n

-- `cursor_save`, `save_x`, `save_y` as words, and `cursor_saved`.
pub record SavedCursor : Type 0 where
  pub cursor_save : ℕ → ℕ
  pub save_x : ℕ
  pub save_y : ℕ
  pub cursor_saved : Bool

-- `py * rpx + px`
abbrev pub save_index : ℕ → ℕ → Framebuffer → ℕ
save_index px py fb = u32 (py * (fb.pitch / 4) + px)

abbrev pub on_screen : ℕ → ℕ → Framebuffer → Bool
on_screen px py fb = ltb px fb.width && ltb py fb.height

-- The pixels under the cursor.
unfoldable pub save_under : ℕ → ℕ → Framebuffer → (ℕ → ℕ) → ℕ → ℕ
save_under mx my fb save =
    for_range cursor_size 0
      (λ y t.
        for_range cursor_size 0
          (λ x u.
            let px = u32 (mx + x) in
            let py = u32 (my + y) in
            write u (y * cursor_size + x)
              (if on_screen px py fb then fb.addr (save_index px py fb) else 0))
          t)
      save

-- The arrow's edge and diagonal.
unfoldable pub draw_arrow : ℕ → ℕ → Framebuffer → Framebuffer
draw_arrow mx my fb =
    for_range cursor_size 0
      (λ i t.
        let t1 = fb_put_pixel (u32 (mx + i)) (u32 (my + i)) 0xFFFFFF t in
        let t2 =
          if ltb i (cursor_size / 2) then fb_put_pixel (u32 (mx + i)) my 0xFFFFFF t1 else t1 in
        if ltb i (cursor_size * 2 / 3) then fb_put_pixel mx (u32 (my + i)) 0xFFFFFF t2 else t2)
      fb

-- What is between them.
unfoldable pub fill_arrow : ℕ → ℕ → Framebuffer → Framebuffer
fill_arrow mx my fb =
    for_range (cursor_size - 3) 1
      (λ y t.
        for_range (y - 1) 1
          (λ x u.
            if ltb (x + y) cursor_size
            then fb_put_pixel (u32 (mx + x)) (u32 (my + y)) 0xCCCCCC u
            else u)
          t)
      fb

-- Also `mouse_draw_cursor`, for the cursor at `mouse_x` and `mouse_y`.
unfoldable pub draw_cursor : ℤ → ℤ → SavedCursor → Framebuffer → SavedCursor × Framebuffer
draw_cursor mouse_x mouse_y c fb =
    let mx = to_word mouse_x in
    let my = to_word mouse_y in
    (
      record {
        cursor_save = save_under mx my fb c.cursor_save;
        save_x = mx;
        save_y = my;
        cursor_saved = true;
      },
      fill_arrow mx my (draw_arrow mx my fb),
    )

unfoldable pub put_back : SavedCursor → Framebuffer → Framebuffer
put_back c fb =
    for_range cursor_size 0
      (λ y t.
        for_range cursor_size 0
          (λ x u.
            let px = u32 (c.save_x + x) in
            let py = u32 (c.save_y + y) in
            if on_screen px py u
            then record u {
              addr = write u.addr (save_index px py u) (c.cursor_save (y * cursor_size + x));
            }
            else u)
          t)
      fb

-- Also `mouse_erase_cursor`.
unfoldable pub clear_cursor : SavedCursor → Framebuffer → SavedCursor × Framebuffer
clear_cursor c fb =
    if c.cursor_saved then (record c { cursor_saved = false }, put_back c fb) else (c, fb)

-- The whole of `mouse_init`: the set-up, and the first drawing of the cursor.
unfoldable pub mouse_start :
    {D : Type 0}
    → Ports D
    → Mouse
    → SavedCursor
    → Framebuffer
    → D
    → (Mouse × SavedCursor × Framebuffer) × D
mouse_start io m c fb d =
    let (ready, d1) = mouse_init io fb.width fb.height m d in
    let (saved, drawn) = draw_cursor ready.mouse_x ready.mouse_y c fb in ((ready, saved, drawn), d1)
