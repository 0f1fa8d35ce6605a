-- ===== src/Mouse/Shown.antt =====
-- kernel/mouse.c: which pixels of the screen are as before, while the cursor is drawn and put back.
use lons_os.Base.{
  ℕ, ◌+◌, ◌*◌, ◌/◌, ◌^◌, ◌<◌, ◌≡◌, ◌==◌, ◌&&◌, ◌||◌, ◌∙◌, refl, sym, ap, ap₂, arith, Bool, true,
  false, leb, if◌then◌else◌, if_elim, Bool-cases, inl, inr,
}
use lons_os.Machine.{u32, write}
use lons_os.Framebuffer.{Framebuffer, pixel_index, fb_put_pixel}
use lons_os.Framebuffer.Rect.{IsScreen, write-pixel}

module _ (fb : Framebuffer) where
  -- `t` shows what `fb` does where `test` holds.
  pub record Shows (test : ℕ → ℕ → Bool) (t : Framebuffer) : Type 0 where
    pub width : t.width ≡ fb.width
    pub height : t.height ≡ fb.height
    pub pitch : t.pitch ≡ fb.pitch
    pub pixels :
        (px py : ℕ)
        → px < fb.width
        → py < fb.height
        → test px py ≡ true
        → t.addr (pixel_index px py fb) ≡ fb.addr (pixel_index px py fb)

  pub pixel_index-pitch :
      (x y : ℕ) (t : Framebuffer) → t.pitch ≡ fb.pitch → pixel_index x y t ≡ pixel_index x y fb
  unfolding pixel_index
  pixel_index-pitch x y t e = ap (λ (p : ℕ). u32 (u32 (y * p) / 4 + x)) e

  pub pixel_index-lt : (px py : ℕ) (t : Framebuffer) → pixel_index px py t < 2 ^ 32
  unfolding pixel_index
  pixel_index-lt px py t = omega arith

  pub if-Shows :
      (b : Bool) (test : ℕ → ℕ → Bool) (t u : Framebuffer)
      → (b ≡ true → Shows test t)
      → Shows test u
      → Shows test (if b then t else u)
  if-Shows true test t u h k = h refl
  if-Shows false test t u h k = k

  pub Shows-imp :
      (test more : ℕ → ℕ → Bool) (t : Framebuffer)
      → ((a b : ℕ) → a < fb.width → b < fb.height → more a b ≡ true → test a b ≡ true)
      → Shows test t
      → Shows more t
  Shows-imp test more t imp shows = record {
    width = shows.width;
    height = shows.height;
    pitch = shows.pitch;
    pixels = λ a b ha hb h. shows.pixels a b ha hb (imp a b ha hb h);
  }

module _ (fb : Framebuffer) (screen : IsScreen fb) where
  -- A pixel changes where the test does not hold.
  pub fb_put_pixel-Shows :
      (test : ℕ → ℕ → Bool) (x y color : ℕ) (t : Framebuffer)
      → test x y ≡ false
      → Shows fb test t
      → Shows fb test (fb_put_pixel x y color t)
  unfolding fb_put_pixel
  fb_put_pixel-Shows test x y color t out shows =
      if_elim (Shows fb test) (leb t.width x || leb t.height y) t
        (record t { addr = write t.addr (pixel_index x y t) color }) (λ e. shows)
        (λ e. record {
          width = shows.width;
          height = shows.height;
          pitch = shows.pitch;
          pixels = λ px py hx hy h.
              ap (λ (k : ℕ). write t.addr k color (pixel_index px py fb))
                (pixel_index-pitch fb x y t shows.pitch)
              ∙ write-pixel fb screen t.addr x y px py color (ground (arith, shows.width))
                  (ground (arith, shows.height)) hx hy
              ∙ rw (apart px py h) (shows.pixels px py hx hy h);
        })
    where
      apart : (px py : ℕ) → test px py ≡ true → (px == x && py == y) ≡ false
      apart px py h = elim (Bool-cases (px == x && py == y)) [
        | inl e ↦
            let ex : px ≡ x = ground arith in
            let ey : py ≡ y = ground arith in absurd (ground (arith, sym h ∙ ap₂ test ex ey ∙ out))
        | inr e ↦ e
      ]

  -- A pixel gets the colour that `fb` shows there.
  pub set-Shows :
      (test : ℕ → ℕ → Bool) (x y v : ℕ) (t : Framebuffer)
      → x < fb.width
      → y < fb.height
      → v ≡ fb.addr (pixel_index x y fb)
      → Shows fb test t
      → Shows fb
          (λ a b. test a b || (a == x && b == y))
          (record t { addr = write t.addr (pixel_index x y fb) v })
  set-Shows test x y v t hx hy e shows = record {
    width = shows.width;
    height = shows.height;
    pitch = shows.pitch;
    pixels = λ a b ha hb h.
        write-pixel fb screen t.addr x y a b v hx hy ha hb ∙ elim (Bool-cases (a == x && b == y)) [
          | inl hit ↦
              let za : x ≡ a = ground arith in
              let zb : y ≡ b = ground arith in
              rw hit (e ∙ ap₂ (λ (i j : ℕ). fb.addr (pixel_index i j fb)) za zb)
          | inr miss ↦
              let left : test a b ≡ true = ground (arith, h, miss) in
              rw miss (shows.pixels a b ha hb left)
        ];
  }
