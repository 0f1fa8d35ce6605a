-- ===== src/Framebuffer/Rect.antt =====
-- `fb_fill_rect` paints the rectangle, cut to the screen, and nothing else.
use lons_os.Base.{
  ℕ, ◌+◌, ◌-◌, ◌*◌, ◌^◌, ◌<◌, ◌≤◌, ◌≡◌, ◌==◌, ◌&&◌, ◌∙◌, refl, sym, ap, ap₂, arith, Bool, ltb, leb,
  if◌then◌else◌, Bool-cases, inl, inr, eq_false, ==→eq, ==_iff,
}
use lons_os.Base.Loops.{for_range, for_range_inv}
use lons_os.Machine.{write}
use lons_os.Framebuffer.{Framebuffer, pixel_index, paint, clip, fb_fill_rect}

-- A screen whose rows are whole pixels, lie apart and end below 2^32.
pub record IsScreen (fb : Framebuffer) : Type 0 where
  pub stride : ℕ
  pub whole : fb.pitch ≡ 4 * stride
  pub apart : fb.width ≤ stride
  pub fits : fb.height * fb.pitch ≤ 2 ^ 32

abbrev pub pixel : ℕ → ℕ → Framebuffer → ℕ
pixel px py fb = fb.addr (pixel_index px py fb)

-- The columns and rows of the rectangle.
abbrev pub inside : ℕ → ℕ → ℕ → ℕ → ℕ → ℕ → Bool
inside x y cols rows px py = (leb x px && ltb px (x + cols)) && (leb y py && ltb py (y + rows))

clip_lem :
    (x w limit p : ℕ)
    → x + w < 2 ^ 32
    → p < limit
    → ltb p (x + (clip x w limit - x)) ≡ ltb p (x + w)
clip_lem x w limit p h k = ground arith

room_lem : (c n w : ℕ) → c < n → c * w + w ≤ n * w
room_lem c n w h = grind arith

fourfold : (y p s : ℕ) → p ≡ 4 * s → y * p ≡ 4 * (y * s)
fourfold y p s e = ap (λ (x : ℕ). y * x) e ∙ grind arith

module _ (fb : Framebuffer) (screen : IsScreen fb) where
  pub pixel_index-stride :
      (px py : ℕ) → px < fb.width → py < fb.height → pixel_index px py fb ≡ py * screen.stride + px
  unfolding pixel_index
  pixel_index-stride px py hx hy = omega (
    arith,
    screen.whole,
    screen.apart,
    screen.fits,
    room_lem py fb.height fb.pitch hy,
    fourfold py fb.pitch screen.stride screen.whole,
  )

  -- Different places have different indices.
  same_row :
      (r s c d : ℕ)
      → c < screen.stride
      → d < screen.stride
      → r * screen.stride + c ≡ s * screen.stride + d
      → r ≡ s
  same_row r s c d hc hd e = elim (Bool-cases (r == s)) [
    | inl z ↦ ==→eq _ _ z
    | inr z ↦ elim (Bool-cases (ltb r s)) [
      | inl less ↦ absurd (omega (arith, room_lem r s screen.stride (ground arith)))
      | inr more ↦ absurd (omega (arith, room_lem s r screen.stride (ground arith)))
    ]
  ]

  same_pixel :
      (col row px py : ℕ)
      → col < fb.width
      → row < fb.height
      → px < fb.width
      → py < fb.height
      → (pixel_index px py fb == pixel_index col row fb) ≡ (px == col && py == row)
  same_pixel col row px py hc hr hx hy = elim (Bool-cases (px == col && py == row)) [
    | inl e ↦
        let ex : px ≡ col = ground arith in
        let ey : py ≡ row = ground arith in
        rw e ((==_iff _ _).1 (ap₂ (λ (x y : ℕ). pixel_index x y fb) ex ey))
    | inr e ↦ rw e (
        eq_false _ _ (λ z.
          let strides =
            sym (pixel_index-stride px py hx hy) ∙ z ∙ pixel_index-stride col row hc hr in
          let ey : py ≡ row =
            same_row py row px col (omega (arith, screen.apart)) (omega (arith, screen.apart))
              strides in
          let bases = ap (λ (r : ℕ). r * screen.stride) ey in
          let ex : px ≡ col = omega (arith, strides, bases) in absurd (ground (arith, ex, ey))))
  ]

  pub write-pixel :
      (a : ℕ → ℕ) (col row px py color : ℕ)
      → col < fb.width
      → row < fb.height
      → px < fb.width
      → py < fb.height
      → write a (pixel_index col row fb) color (pixel_index px py fb)
        ≡ (if px == col && py == row then color else a (pixel_index px py fb))
  write-pixel a col row px py color hc hr hx hy =
      ap (λ (t : Bool). if t then color else a (pixel_index px py fb))
        (same_pixel col row px py hc hr hx hy)

  -- `b` shows `color` where `test` holds, and elsewhere what `a` does.
  abbrev Painted : (ℕ → ℕ → Bool) → ℕ → (ℕ → ℕ) → (ℕ → ℕ) → Type 0
  Painted test color a b =
      (px py : ℕ)
      → px < fb.width
      → py < fb.height
      → b (pixel_index px py fb) ≡ (if test px py then color else a (pixel_index px py fb))

  row-Painted :
      (x cols row color : ℕ) (a : ℕ → ℕ)
      → ((k : ℕ) → x ≤ k → k < x + cols → k < fb.width)
      → row < fb.height
      → Painted
          (λ px py. (leb x px && ltb px (x + cols)) && py == row)
          color
          a
          (for_range cols x (λ col a. write a (pixel_index col row fb) color) a)
  row-Painted x cols row color a wide high =
      (for_range_inv
        (λ k b. (x ≤ k) × Painted (λ px py. (leb x px && ltb px k) && py == row) color a b) _ cols x
        (x + cols) a
        (λ k b below (from, painted). (
          omega (arith, from),
          λ px py hx hy.
              write-pixel b k row px py color (wide k from below) high hx hy
              ∙ ap (λ (v : ℕ). if px == k && py == row then color else v) (painted px py hx hy)
              ∙ ground (arith, from),
        ))
        refl (omega arith, λ px py hx hy. ground arith)).1

  paint-Painted :
      (x y cols rows color : ℕ)
      → ((k : ℕ) → x ≤ k → k < x + cols → k < fb.width)
      → ((k : ℕ) → y ≤ k → k < y + rows → k < fb.height)
      → Painted (inside x y cols rows) color fb.addr (paint x y cols rows color fb)
  unfolding paint
  paint-Painted x y cols rows color wide high =
      (for_range_inv
        (λ k b.
          (y ≤ k)
          × Painted (λ px py. (leb x px && ltb px (x + cols)) && (leb y py && ltb py k)) color
              fb.addr b)
        _ rows y (y + rows) fb.addr
        (λ k b below (from, painted). (
          omega (arith, from),
          λ px py hx hy.
              row-Painted x cols k color b wide (high k from below) px py hx hy
              ∙ ap (λ (v : ℕ). if (leb x px && ltb px (x + cols)) && py == k then color else v)
                  (painted px py hx hy)
              ∙ ground (arith, from),
        ))
        refl (omega arith, λ px py hx hy. ground arith)).1

  -- On the screen the rectangle is its part on the screen.
  inside-clip :
      (x y w h px py : ℕ)
      → x + w < 2 ^ 32
      → y + h < 2 ^ 32
      → px < fb.width
      → py < fb.height
      → inside x y (clip x w fb.width - x) (clip y h fb.height - y) px py ≡ inside x y w h px py
  inside-clip x y w h px py hw hh hx hy =
      ap₂ ◌&&◌ (ap (λ (t : Bool). leb x px && t) (clip_lem x w fb.width px hw hx))
        (ap (λ (t : Bool). leb y py && t) (clip_lem y h fb.height py hh hy))

  -- On a screen, for sides whose ends lie below 2^32: `fb_fill_rect` gives the colour to the pixels
  -- of the screen in the rectangle, also one that goes beyond the screen or lies outside of it, and
  -- leaves every other pixel of the screen as it was.
  pub fb_fill_rect-pixel :
      (x y w h color px py : ℕ)
      → x + w < 2 ^ 32
      → y + h < 2 ^ 32
      → px < fb.width
      → py < fb.height
      → pixel px py (fb_fill_rect x y w h color fb)
        ≡ (if inside x y w h px py then color else pixel px py fb)
  unfolding fb_fill_rect pixel_index
  fb_fill_rect-pixel x y w h color px py hw hh hx hy =
      paint-Painted x y (clip x w fb.width - x) (clip y h fb.height - y) color
        (λ k from below. ground arith) (λ k from below. ground arith) px py hx hy
      ∙ ap (λ (t : Bool). if t then color else pixel px py fb)
          (inside-clip x y w h px py hw hh hx hy)
