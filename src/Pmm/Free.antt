-- ===== src/Pmm/Free.antt =====
-- `pmm_free_page` of kernel/pmm.c, and what an allocation followed by a release comes to.
use lons_os.Base.{
  ℕ, ◌+◌, ◌*◌, ◌/◌, ◌<◌, ◌==◌, ◌≡◌, ◌≢◌, refl, sym, ap, ◌∙◌, inl, inr, arith, Bool-cases, ==→eq,
}
use lons_os.Machine.{page_size, u64}
use lons_os.Pmm.{Pmm, bitmap_clear, bitmap_test, pmm_alloc_page, pmm_free_page}
use lons_os.Pmm.Bitmap.{IsBytes, bitmap_test-bitmap_clear, bitmap_clear-IsBytes}
use lons_os.Pmm.Count.{free_below, free_below-le, free_below-take}
use lons_os.Pmm.Alloc.{IsValid, Took, Allocates, pmm_alloc_page_lem, pmm_alloc_page-IsValid}

free_kept :
    (ptr : ℕ) (s : Pmm)
    → ((pmm_free_page ptr s).total_pages ≡ s.total_pages)
      × ((pmm_free_page ptr s).bitmap ≡ s.bitmap)
      × ((pmm_free_page ptr s).free_pages ≡ u64 (s.free_pages + 1))
unfolding pmm_free_page bitmap_clear
free_kept ptr s = (refl, refl, refl)

free_page-IsBytes : (ptr : ℕ) (s : Pmm) → IsBytes s → IsBytes (pmm_free_page ptr s)
unfolding pmm_free_page
free_page-IsBytes ptr s bytes = bitmap_clear-IsBytes s bytes (ptr / page_size)

-- The page of `ptr` has gone from used to free, and no other page has changed.
pub record Gave (s : Pmm) (page : ℕ) (t : Pmm) : Type 0 where
  pub free : bitmap_test t page ≡ 0
  pub others : (j : ℕ) → j ≢ page → bitmap_test t j ≡ bitmap_test s j
  pub total : t.total_pages ≡ s.total_pages
  pub bitmap : t.bitmap ≡ s.bitmap
  pub count : t.free_pages ≡ s.free_pages + 1

module _ (s : Pmm) (v : IsValid s) (ptr : ℕ) (h : ptr / page_size < s.total_pages)
    (used : bitmap_test s (ptr / page_size) ≡ 1) where
  free_after : bitmap_test (pmm_free_page ptr s) (ptr / page_size) ≡ 0
  unfolding pmm_free_page bitmap_clear bitmap_test
  free_after =
      ground (arith, bitmap_test-bitmap_clear s v.bytes (ptr / page_size) (ptr / page_size))

  others_after :
      (j : ℕ) → j ≢ ptr / page_size → bitmap_test (pmm_free_page ptr s) j ≡ bitmap_test s j
  unfolding pmm_free_page bitmap_clear bitmap_test
  others_after j ne = ground (arith, bitmap_test-bitmap_clear s v.bytes (ptr / page_size) j)

  count_grows :
      free_below (bitmap_test (pmm_free_page ptr s)) s.total_pages
      ≡ free_below (bitmap_test s) s.total_pages + 1
  count_grows =
      free_below-take (bitmap_test (pmm_free_page ptr s)) (bitmap_test s) s.total_pages
        (ptr / page_size) (λ j ne. sym (others_after j ne)) free_after used h

  -- From a valid state, releasing a page that is in use frees that page and no other, adds one to
  -- the count, and leaves a valid state.
  pub pmm_free_page_lem :
      Gave s (ptr / page_size) (pmm_free_page ptr s) × IsValid (pmm_free_page ptr s)
  pmm_free_page_lem = (
    record {
      free = free_after;
      others = others_after;
      total = (free_kept ptr s).0;
      bitmap = (free_kept ptr s).1;
      count = counted;
    },
    record {
      bytes = bytes_after;
      placed = λ e. v.placed (sym (free_kept ptr s).1 ∙ e);
      small = omega (arith, free_kept ptr s, v.small);
      counted = omega (
        arith,
        counted,
        count_grows,
        v.counted,
        ap (free_below (bitmap_test (pmm_free_page ptr s))) (free_kept ptr s).0,
      );
    },
  )
    where
      counted : (pmm_free_page ptr s).free_pages ≡ s.free_pages + 1
      counted =
          omega (
            arith,
            free_kept ptr s,
            v.counted,
            v.small,
            free_below-le (bitmap_test s) s.total_pages,
          )

      bytes_after : IsBytes (pmm_free_page ptr s)
      bytes_after = free_page-IsBytes ptr s v.bytes

-- What the caller sees of a state: which pages are used, and the count of the free ones.
pub record SamePages (s t : Pmm) : Type 0 where
  pub pages : (j : ℕ) → bitmap_test t j ≡ bitmap_test s j
  pub count : t.free_pages ≡ s.free_pages
  pub total : t.total_pages ≡ s.total_pages

undo :
    (s t : Pmm)
    → IsValid s
    → IsValid t
    → (ptr i : ℕ) → ptr ≡ i * page_size
    → Took s i t
    → SamePages s (pmm_free_page ptr t)
undo s t v w ptr i e took = record {
  pages = λ j. elim (Bool-cases (j == i)) [
    | inl same ↦
        let at : j ≡ i = ==→eq j i same in
        ap (bitmap_test (pmm_free_page ptr t)) (at ∙ sym page)
        ∙ gave.free
        ∙ sym took.was_free
        ∙ ap (bitmap_test s) (sym at)
    | inr ne ↦
        let other : j ≢ i = ground arith in
        gave.others j (omega (arith, page)) ∙ took.others j other
  ];
  count = omega (arith, gave.count, took.count);
  total = omega (arith, gave.total, took.total);
}
  where
    page : ptr / page_size ≡ i
    page = omega arith

    gave : Gave t (ptr / page_size) (pmm_free_page ptr t)
    gave =
        (pmm_free_page_lem t w ptr (omega (arith, page, took.inside, took.total))
          (ap (bitmap_test t) page ∙ took.used)).0

undo_alloc :
    (s : Pmm) (out : ℕ × Pmm)
    → IsValid s
    → IsValid out.1
    → Allocates s 0 out
    → out.0 ≢ 0
    → SamePages s (pmm_free_page out.0 out.1)
undo_alloc s out v w (inl (i, f)) got = undo s out.1 v w out.0 i f.addr f.took
undo_alloc s out v w (inr n) got = absurd (got n.null)

-- From a valid state, an allocation that does not return NULL can be undone: releasing its page
-- gives back the use of every page, the free count and the number of pages.
pub pmm_free_page-alloc :
    (s : Pmm)
    → IsValid s
    → (pmm_alloc_page s).0 ≢ 0
    → SamePages s (pmm_free_page (pmm_alloc_page s).0 (pmm_alloc_page s).1)
pmm_free_page-alloc s v =
    undo_alloc s (pmm_alloc_page s) v (pmm_alloc_page-IsValid s v) (pmm_alloc_page_lem s v)
