-- ===== src/Pmm/Init/Reserve.antt =====
-- Pass 4 of `pmm_init`: the bitmap's own pages are used again.
use lons_os.Base.{
  ℕ, ◌+◌, ◌-◌, ◌/◌, ◌≤◌, ◌<◌, ◌==◌, ◌≡◌, ◌≢◌, refl, ap, ◌∙◌, inl, inr, Bool, if◌then◌else◌, arith,
  Bool-cases, ==→eq,
}
use lons_os.Base.Loops.{for_range_inv}
use lons_os.Machine.{page_size, sub64}
use lons_os.Pmm.{Pmm, bitmap_set, bitmap_test, reserve_one, reserve_bitmap}
use lons_os.Pmm.Bitmap.{IsBytes, bitmap_test-bitmap_set, bitmap_set-IsBytes, bitmap_test-le}
use lons_os.Pmm.Count.{free_below, free_below-ext, free_below-take}
use lons_os.Pmm.Init.Spec.{in_pages}
use lons_os.Pmm.Init.Release.{Counted}

-- `t` is `s` but for the pages of `range`, which are used.
pub record Reserved (s : Pmm) (range : ℕ → Bool) (t : Pmm) : Type 0 where
  pub bytes : IsBytes t
  pub tests : (i : ℕ) → bitmap_test t i ≡ (if range i then 1 else bitmap_test s i)
  pub total : t.total_pages ≡ s.total_pages
  pub bitmap : t.bitmap ≡ s.bitmap
  pub counted : Counted t

module _ (s : Pmm) (page : ℕ) where
  reserve_one-IsBytes : IsBytes s → IsBytes (reserve_one page s)
  unfolding reserve_one
  reserve_one-IsBytes bytes a = ground (arith, bytes a, bitmap_set-IsBytes s bytes page a)

  reserve_one-tests :
      IsBytes s
      → (i : ℕ) → bitmap_test (reserve_one page s) i ≡ (if i == page then 1 else bitmap_test s i)
  unfolding reserve_one bitmap_set bitmap_test
  reserve_one-tests bytes i =
      ground (arith, bitmap_test-bitmap_set s bytes page i, bitmap_test-le s page)

  reserve_one_kept :
      ((reserve_one page s).total_pages ≡ s.total_pages)
      × ((reserve_one page s).bitmap ≡ s.bitmap)
      × ((reserve_one page s).free_pages
          ≡ (if bitmap_test s page == 0 then s.free_pages - 1 else s.free_pages))
  unfolding reserve_one bitmap_set
  reserve_one_kept = (ground arith, ground arith, ground arith)

  reserve_one-Counted : IsBytes s → page < s.total_pages → Counted s → Counted (reserve_one page s)
  reserve_one-Counted bytes h counted = elim (Bool-cases (bitmap_test s page == 0)) [
    | inl free ↦ ground (
      arith,
      reserve_one_kept,
      total,
      free_below-take (bitmap_test s) (bitmap_test (reserve_one page s)) s.total_pages page others
          (==→eq _ _ free) now h,
    )
    | inr used ↦ ground (
      arith,
      reserve_one_kept,
      total,
      free_below-ext (bitmap_test s) (bitmap_test (reserve_one page s)) s.total_pages
          (λ j lt. ground (arith, reserve_one-tests bytes j, bitmap_test-le s page)),
    )
  ]
    where
      total :
          free_below (bitmap_test (reserve_one page s)) (reserve_one page s).total_pages
          ≡ free_below (bitmap_test (reserve_one page s)) s.total_pages
      total = ap (free_below (bitmap_test (reserve_one page s))) reserve_one_kept.0

      others : (j : ℕ) → j ≢ page → bitmap_test (reserve_one page s) j ≡ bitmap_test s j
      others j ne = ground (arith, reserve_one-tests bytes j)

      now : bitmap_test (reserve_one page s) page ≡ 1
      now = ground (arith, reserve_one-tests bytes page)

reserve_one-Reserved :
    (s t : Pmm) (p k page : ℕ)
    → page ≡ p + k
    → page < s.total_pages
    → Reserved s (in_pages p k) t
    → Reserved s (in_pages p (k + 1)) (reserve_one page t)
unfolding in_pages
reserve_one-Reserved s t p k page e h r = record {
  bytes = reserve_one-IsBytes t page r.bytes;
  tests = λ i. ground (arith, reserve_one-tests t page r.bytes i, r.tests i);
  total = (reserve_one_kept t page).0 ∙ r.total;
  bitmap = (reserve_one_kept t page).1 ∙ r.bitmap;
  counted = reserve_one-Counted t page r.bytes (omega (arith, r.total)) r.counted;
}

Reserved-nothing : (s : Pmm) (p : ℕ) → IsBytes s → Counted s → Reserved s (in_pages p 0) s
unfolding in_pages
Reserved-nothing s p bytes counted = record {
  bytes = bytes;
  tests = λ i. ground arith;
  total = refl;
  bitmap = refl;
  counted = counted;
}

-- The pages that pass 4 marks.
abbrev pub own_first : Pmm → ℕ
own_first s = sub64 s.bitmap s.hhdm_base / page_size

abbrev pub own_count : Pmm → ℕ
own_count s = (s.bitmap_size + page_size - 1) / page_size

-- Pass 4 marks exactly the bitmap's pages, and keeps the counter right.
pub reserve_bitmap_lem :
    (s : Pmm)
    → IsBytes s
    → Counted s
    → own_first s + own_count s ≤ s.total_pages
    → Reserved s (in_pages (own_first s) (own_count s)) (reserve_bitmap s)
unfolding reserve_bitmap
reserve_bitmap_lem s bytes counted below =
    for_range_inv (λ k t. Reserved s (in_pages (own_first s) k) t)
      (λ p t. reserve_one (own_first s + p) t) (own_count s) 0 (own_count s) s
      (λ k t lt r. reserve_one-Reserved s t (own_first s) k _ refl (omega (arith, lt, below)) r)
      (omega arith) (Reserved-nothing s (own_first s) bytes counted)
