-- ===== src/Mouse/Erase.antt =====
-- Erasing the cursor gives back what drawing it has covered.
use lons_os.Base.{
  ℕ, ◌+◌, ◌-◌, ◌*◌, ◌/◌, ◌^◌, ◌<◌, ◌≤◌, ◌≡◌, ◌==◌, ◌&&◌, ◌||◌, ◌∙◌, not, refl, sym, ap, ap₂, subst,
  arith, Bool, true, false, ltb, if◌then◌else◌, Bool-cases, inl, inr,
}
use lons_os.Base.Loops.{for_range_inv}
use lons_os.Machine.{u32, write}
use lons_os.Machine.Signed.{ℤ, pos, negsuc}
use lons_os.Framebuffer.{Framebuffer, pixel_index, fb_put_pixel}
use lons_os.Framebuffer.Console.{sub32}
use lons_os.Framebuffer.Rect.{IsScreen, pixel, pixel_index-stride}
use lons_os.Mouse.{cursor_size}
use lons_os.Mouse.Pointer.{
  SavedCursor, to_word, save_index, on_screen, draw_arrow, fill_arrow, draw_cursor, put_back,
  clear_cursor,
}
use lons_os.Mouse.Shown.{
  Shows, pixel_index-pitch, pixel_index-lt, if-Shows, Shows-imp, fb_put_pixel-Shows, set-Shows,
}
use lons_os.Mouse.SavedRows.{saved_value, RowsSaved, save_under-saved}

done_cases :
    (p q : Bool) (dx dy y x : ℕ)
    → (dx ≡ x → dy ≡ y → q ≡ true)
    → (p || (ltb dy y || (dy == y && ltb dx (x + 1)))) ≡ true
    → ((p || (ltb dy y || (dy == y && ltb dx x))) || q) ≡ true
done_cases p q dx dy y x hit h = ground (arith, hit)

-- Whether a place is bare or done, by its distances from the cursor.
abbrev bare_or : ℕ → ℕ → ℕ → ℕ → Bool
bare_or dx dy y x = not (ltb dx 12 && ltb dy 12) || (ltb dy y || (dy == y && ltb dx x))

bare_or-all : (dx dy : ℕ) → bare_or dx dy 12 0 ≡ true
bare_or-all dx dy = ground arith

bare_or-row : (dx dy y : ℕ) → bare_or dx dy (y + 1) 0 ≡ true → bare_or dx dy y 12 ≡ true
bare_or-row dx dy y h = ground arith

bare_or-first : (dx dy : ℕ) → bare_or dx dy 0 0 ≡ true → not (ltb dx 12 && ltb dy 12) ≡ true
bare_or-first dx dy h = ground arith

module _ (fb : Framebuffer) (screen : IsScreen fb) where
  module _ (mx my : ℕ) (wx : mx < 2 ^ 32) (wy : my < 2 ^ 32) where
    -- The place is not under the cursor.
    abbrev bare : ℕ → ℕ → Bool
    bare px py = not (ltb (sub32 px mx) cursor_size && ltb (sub32 py my) cursor_size)

    bare-under : (i j : ℕ) → i < 12 → j < 12 → bare (u32 (mx + i)) (u32 (my + j)) ≡ false
    bare-under i j hi hj =
        let ex : sub32 (u32 (mx + i)) mx ≡ i = omega arith in
        let ey : sub32 (u32 (my + j)) my ≡ j = omega arith in rw (ex, ey) (ground arith)

    put-Shows :
        (i j x y color : ℕ) (t : Framebuffer)
        → i < 12
        → j < 12
        → x ≡ u32 (mx + i)
        → y ≡ u32 (my + j)
        → Shows fb bare t
        → Shows fb bare (fb_put_pixel x y color t)
    put-Shows i j x y color t hi hj ex ey shows =
        fb_put_pixel-Shows fb screen bare x y color t (ap₂ bare ex ey ∙ bare-under i j hi hj) shows

    draw_arrow-Shows : Shows fb bare (draw_arrow mx my fb)
    unfolding draw_arrow
    draw_arrow-Shows =
        for_range_inv (λ k t. Shows fb bare t) _ 12 0 12 fb
          (λ i t below shows.
            let t1 = put-Shows i i _ _ 0xFFFFFF t below below refl refl shows in
            let t2 =
              if-Shows fb (ltb i (cursor_size / 2)) bare _ _
                (λ e.
                  put-Shows i 0 (u32 (mx + i)) my 0xFFFFFF _ below (omega arith) refl
                    (omega (arith, wy)) t1)
                t1 in
            if-Shows fb (ltb i (cursor_size * 2 / 3)) bare _ _
              (λ e.
                put-Shows 0 i mx (u32 (my + i)) 0xFFFFFF _ (omega arith) below (omega (arith, wx))
                  refl t2)
              t2)
          refl
          (record { width = refl; height = refl; pitch = refl; pixels = λ px py hx hy h. refl })

    fill_arrow-Shows : (t : Framebuffer) → Shows fb bare t → Shows fb bare (fill_arrow mx my t)
    unfolding fill_arrow
    fill_arrow-Shows t shows =
        (for_range_inv (λ k u. (1 ≤ k) × Shows fb bare u) _ 9 1 10 t
          (λ y u below (from, inner). (
            omega arith,
            (for_range_inv (λ x v. (1 ≤ x) × Shows fb bare v) _ (y - 1) 1 y u
                (λ x v left (one, so_far). (
                  omega arith,
                  if-Shows fb (ltb (x + y) cursor_size) bare _ _
                      (λ e.
                        put-Shows x y _ _ 0xCCCCCC v (omega arith) (omega arith) refl refl so_far)
                      so_far,
                ))
                (omega arith) (omega arith, inner)).1,
          ))
          refl (omega arith, shows)).1

    -- Places whose rows, and in row `y` whose columns below `x`, are done.
    abbrev done : ℕ → ℕ → ℕ → ℕ → Bool
    done y x a b = bare a b || (ltb (sub32 b my) y || (sub32 b my == y && ltb (sub32 a mx) x))

    module _ (narrow : fb.width < 2 ^ 32) (low : fb.height < 2 ^ 32) where
      done-next :
          (y x a b : ℕ)
          → x < 12
          → y < 12
          → a < fb.width
          → b < fb.height
          → done y (x + 1) a b ≡ true
          → (done y x a b || (a == u32 (mx + x) && b == u32 (my + y))) ≡ true
      done-next y x a b hx hy ha hb h =
          done_cases (bare a b) (a == u32 (mx + x) && b == u32 (my + y)) (sub32 a mx) (sub32 b my) y
            x
            (λ ex ey.
              let za : a ≡ u32 (mx + x) = omega (arith, narrow, wx) in
              let zb : b ≡ u32 (my + y) = omega (arith, low, wy) in ground (arith, za, zb))
            h

      save_index-pixel_index :
          (px py : ℕ) → px < fb.width → py < fb.height → save_index px py fb ≡ pixel_index px py fb
      save_index-pixel_index px py hx hy =
          let whole : fb.pitch / 4 ≡ screen.stride = omega (arith, screen.whole) in
          let strided = pixel_index-stride fb screen px py hx hy in
          let small : py * screen.stride + px < 2 ^ 32 =
            subst (λ (k : ℕ). k < 2 ^ 32) strided (pixel_index-lt fb px py fb) in
          ap (λ (k : ℕ). u32 (py * k + px)) whole ∙ omega (arith, small) ∙ sym strided

      -- The pixel for row `y` and column `x` of what was saved.
      abbrev put_one : (ℕ → ℕ) → ℕ → ℕ → Framebuffer → Framebuffer
      put_one save y x t =
          let px = u32 (mx + x) in
          let py = u32 (my + y) in
          if on_screen px py t
          then record t { addr = write t.addr (save_index px py t) (save (y * cursor_size + x)) }
          else t

      put_one-Shows :
          (save : ℕ → ℕ) (y x : ℕ) (t : Framebuffer)
          → save (y * 12 + x) ≡ saved_value fb mx my y x
          → x < 12
          → y < 12
          → Shows fb (done y x) t
          → Shows fb (done y (x + 1)) (put_one save y x t)
      put_one-Shows save y x t saved hx hy shows =
          Shows-imp fb (λ a b. done y x a b || (a == u32 (mx + x) && b == u32 (my + y)))
            (done y (x + 1)) _ (λ a b ha hb h. done-next y x a b hx hy ha hb h)
            (elim (Bool-cases (on_screen (u32 (mx + x)) (u32 (my + y)) t)) [
              | inl on ↦
                  let hw : u32 (mx + x) < fb.width = ground (arith, on, shows.width) in
                  let hh : u32 (my + y) < fb.height = ground (arith, on, shows.height) in
                  let here : save_index (u32 (mx + x)) (u32 (my + y)) t
                      ≡ pixel_index (u32 (mx + x)) (u32 (my + y)) fb =
                    ap (λ (p : ℕ). u32 (u32 (my + y) * (p / 4) + u32 (mx + x))) shows.pitch
                    ∙ save_index-pixel_index (u32 (mx + x)) (u32 (my + y)) hw hh in
                  let shown : on_screen (u32 (mx + x)) (u32 (my + y)) fb ≡ true =
                    ground (arith, hw, hh) in
                  let value : save (y * 12 + x)
                      ≡ fb.addr (pixel_index (u32 (mx + x)) (u32 (my + y)) fb) =
                    saved
                    ∙ rw shown
                        (ap fb.addr (save_index-pixel_index (u32 (mx + x)) (u32 (my + y)) hw hh)) in
                  rw (on, here)
                    (set-Shows fb screen (done y x) (u32 (mx + x)) (u32 (my + y))
                      (save (y * 12 + x)) t hw hh value shows)
              | inr off ↦ rw off (
                  Shows-imp fb (done y x) _ t
                    (λ a b ha hb h. ground (arith, off, shows.width, shows.height)) shows)
            ])

      put_back-Shows :
          (c : SavedCursor) (t : Framebuffer)
          → c.save_x ≡ mx
          → c.save_y ≡ my
          → RowsSaved fb mx my 12 c.cursor_save
          → Shows fb bare t
          → Shows fb (λ a b. true) (put_back c t)
      unfolding put_back
      put_back-Shows c t ex ey rows shows =
          rw (ex, ey)
            (Shows-imp fb (done 12 0) (λ a b. true) _
              (λ a b ha hb h. bare_or-all (sub32 a mx) (sub32 b my))
              (for_range_inv (λ k u. Shows fb (done k 0) u) _ 12 0 12 t
                (λ y u below so_far.
                  Shows-imp fb (done y 12) (done (y + 1) 0) _
                    (λ a b ha hb h. bare_or-row (sub32 a mx) (sub32 b my) y h)
                    (for_range_inv (λ k v. Shows fb (done y k) v) (put_one c.cursor_save y) 12 0 12
                      u
                      (λ x v left inner.
                        put_one-Shows c.cursor_save y x v (rows y x below left) left below inner)
                      refl so_far))
                refl
                (Shows-imp fb bare (done 0 0) t
                  (λ a b ha hb h. bare_or-first (sub32 a mx) (sub32 b my) h) shows)))

to_word-lt : (z : ℤ) → to_word z < 2 ^ 32
unfolding to_word
to_word-lt (pos n) = omega arith
to_word-lt (negsuc n) = omega arith

-- On a screen with sides below 2^32, wherever the cursor is, also in part or wholly off the screen:
-- `clear_cursor` after `draw_cursor` gives every pixel of the screen its colour from before.
pub clear_cursor-draw_cursor :
    (fb : Framebuffer) (mouse_x mouse_y : ℤ) (c : SavedCursor) (px py : ℕ)
    → IsScreen fb
    → fb.width < 2 ^ 32
    → fb.height < 2 ^ 32
    → px < fb.width
    → py < fb.height
    → let drawn = draw_cursor mouse_x mouse_y c fb in
      pixel px py (clear_cursor drawn.0 drawn.1).1 ≡ pixel px py fb
unfolding clear_cursor draw_cursor
clear_cursor-draw_cursor fb mouse_x mouse_y c px py screen narrow low hx hy =
    let mx = to_word mouse_x in
    let my = to_word mouse_y in
    let wx = to_word-lt mouse_x in
    let wy = to_word-lt mouse_y in
    let drawn =
      fill_arrow-Shows fb screen mx my wx wy (draw_arrow mx my fb)
        (draw_arrow-Shows fb screen mx my wx wy) in
    let rows = save_under-saved fb mx my c.cursor_save in
    let back =
      put_back-Shows fb screen mx my wx wy narrow low (draw_cursor mouse_x mouse_y c fb).0
        (draw_cursor mouse_x mouse_y c fb).1 refl refl rows drawn in
    ap (put_back (draw_cursor mouse_x mouse_y c fb).0 (draw_cursor mouse_x mouse_y c fb).1).addr
      (pixel_index-pitch fb px py _ back.pitch)
    ∙ back.pixels px py hx hy refl
