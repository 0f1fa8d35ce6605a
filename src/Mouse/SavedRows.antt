-- ===== src/Mouse/SavedRows.antt =====
-- kernel/mouse.c: what `save_under` keeps of the screen under the cursor.
use lons_os.Base.{
  ℕ, ◌+◌, ◌*◌, ◌<◌, ◌≡◌, ◌==◌, ◌∙◌, refl, sym, ap, subst, arith, true, false, if◌then◌else◌,
  Bool-cases, inl, inr, eq_false, ==→eq,
}
use lons_os.Base.Loops.{for_range, for_range_inv}
use lons_os.Machine.{u32, write}
use lons_os.Framebuffer.{Framebuffer}
use lons_os.Mouse.Pointer.{save_index, on_screen, save_under}

module _ (fb : Framebuffer) (mx my : ℕ) where
  -- What is saved for row `y` and column `x`.
  abbrev pub saved_value : ℕ → ℕ → ℕ
  saved_value y x =
      if on_screen (u32 (mx + x)) (u32 (my + y)) fb
      then fb.addr (save_index (u32 (mx + x)) (u32 (my + y)) fb)
      else 0

  abbrev pub RowsSaved : ℕ → (ℕ → ℕ) → Type 0
  RowsSaved k t = (y x : ℕ) → y < k → x < 12 → t (y * 12 + x) ≡ saved_value y x

  write-RowsSaved :
      (y x v : ℕ) (t : ℕ → ℕ) → x < 12 → RowsSaved y t → RowsSaved y (write t (y * 12 + x) v)
  write-RowsSaved y x v t h rows a b ha hb =
      rw (eq_false (a * 12 + b) (y * 12 + x) (omega arith)) (rows a b ha hb)

  write-column :
      (y x b v : ℕ) (t : ℕ → ℕ)
      → b < x + 1
      → v ≡ saved_value y x
      → ((b < x) → t (y * 12 + b) ≡ saved_value y b)
      → write t (y * 12 + x) v (y * 12 + b) ≡ saved_value y b
  write-column y x b v t h e before = elim (Bool-cases (b == x)) [
    | inl same ↦
        let z : x ≡ b = sym (==→eq _ _ same) in
        let hit : (y * 12 + b == y * 12 + x) ≡ true = ground (arith, z) in
        rw hit (e ∙ ap (saved_value y) z)
    | inr ne ↦
        let miss : (y * 12 + b == y * 12 + x) ≡ false = ground (arith, ne) in
        rw miss (before (ground arith))
  ]

  RowsSaved-next :
      (y : ℕ) (t : ℕ → ℕ)
      → RowsSaved y t
      → ((b : ℕ) → b < 12 → t (y * 12 + b) ≡ saved_value y b)
      → RowsSaved (y + 1) t
  RowsSaved-next y t rows row a b ha hb = elim (Bool-cases (a == y)) [
    | inl e ↦ subst (λ (r : ℕ). t (r * 12 + b) ≡ saved_value r b) (sym (==→eq _ _ e)) (row b hb)
    | inr e ↦ rows a b (ground arith) hb
  ]

  abbrev save_one : ℕ → ℕ → (ℕ → ℕ) → ℕ → ℕ
  save_one y x u = write u (y * 12 + x) (saved_value y x)

  pub save_under-saved : (save : ℕ → ℕ) → RowsSaved 12 (save_under mx my fb save)
  unfolding save_under
  save_under-saved save =
      for_range_inv RowsSaved _ 12 0 12 save
        (λ y t below rows.
          let inner =
            for_range_inv
              (λ k u. RowsSaved y u × ((b : ℕ) → b < k → u (y * 12 + b) ≡ saved_value y b))
              (save_one y) 12 0 12 t
              (λ x u left (above, row). (
                write-RowsSaved y x (saved_value y x) u left above,
                λ b hb. write-column y x b (saved_value y x) u hb refl (row b),
              ))
              refl (rows, λ b hb. absurd (omega arith)) in
          RowsSaved-next y (for_range 12 0 (save_one y) t) inner.0 inner.1)
        refl (λ a b ha hb. absurd (omega arith))
