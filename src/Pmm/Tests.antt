-- ===== src/Pmm/Tests.antt =====
-- Runs of the page allocator on small memories.
use lons_os.Base.{true, false, ◌&&◌, ℕ, ◌≡◌, ◌≢◌, refl, arith, List, [], ◌∷◌}
use lons_os.Base.Loops.{for_range}
use lons_os.Machine.{MemmapEntry}
use lons_os.Pmm.{
  Pmm, bitmap_set, bitmap_test, pmm_alloc_page, pmm_free_page, pmm_init, alloc_from, measure,
  highest_addr, place_bitmap, pmm_memset, fill_bitmap, reserve_bitmap, free_usable, free_entry,
  align_up, reserve_one, free_one, bitmap_clear,
}
use lons_os.Pmm.Alloc.{IsValid, Allocates, pmm_alloc_page_lem}
use lons_os.Pmm.Count.{free_below}
use lons_os.Pmm.Free.{Gave, SamePages, pmm_free_page_lem, pmm_free_page-alloc}
use lons_os.Pmm.Init.Spec.{usable_page, covers}
use lons_os.Pmm.Init.Result.{Initialised, pmm_init-Initialised}

-- Four pages, of which page 1 is free.
abbrev four_pages : Pmm
four_pages = record {
  mem = λ x. 253;
  bitmap = 65536;
  total_pages = 4;
  bitmap_size = 1;
  hhdm_base = 0;
  free_pages = 1;
}

four_pages-IsValid : IsValid four_pages
unfolding bitmap_test free_below
four_pages-IsValid = record {
  bytes = λ x. omega arith;
  placed = omega arith;
  small = omega arith;
  counted = refl;
}

pmm_alloc_page_lem_example : Allocates four_pages 0 (pmm_alloc_page four_pages)
pmm_alloc_page_lem_example = pmm_alloc_page_lem four_pages four_pages-IsValid

page_2_used : bitmap_test four_pages 2 ≡ 1
unfolding bitmap_test
page_2_used = refl

pmm_free_page_lem_example :
    Gave four_pages 2 (pmm_free_page 8192 four_pages) × IsValid (pmm_free_page 8192 four_pages)
pmm_free_page_lem_example =
    pmm_free_page_lem four_pages four_pages-IsValid 8192 (omega arith) page_2_used

pmm_alloc_page-four_pages : (pmm_alloc_page four_pages).0 ≡ 4096
unfolding pmm_alloc_page alloc_from bitmap_test
pmm_alloc_page-four_pages = refl

got_page : (pmm_alloc_page four_pages).0 ≢ 0
got_page = omega (arith, pmm_alloc_page-four_pages)

pmm_free_page-alloc_example :
    SamePages four_pages (pmm_free_page (pmm_alloc_page four_pages).0 (pmm_alloc_page four_pages).1)
pmm_free_page-alloc_example = pmm_free_page-alloc four_pages four_pages-IsValid got_page

-- A machine of four pages, whose last three are usable.
abbrev three_usable : List MemmapEntry
three_usable = record { base = 4096; length = 12288; type = 0 } ∷ []

abbrev cleared : Pmm
cleared = record {
  mem = λ x. 0;
  bitmap = 0;
  total_pages = 0;
  bitmap_size = 0;
  hhdm_base = 0;
  free_pages = 0;
}

bitmap_at : (pmm_init three_usable 0 cleared).bitmap ≡ 4096
unfolding pmm_init fill_bitmap place_bitmap measure highest_addr reserve_bitmap free_usable
    free_entry align_up reserve_one free_one bitmap_set bitmap_clear bitmap_test for_range
    pmm_memset
bitmap_at = refl

bitmap_found : (pmm_init three_usable 0 cleared).bitmap ≢ 0
bitmap_found = omega (arith, bitmap_at)

no_other :
    (i : ℕ)
    → (true && covers (record { base = 4096; length = 12288; type = 0 }) i) ≡ true
    → usable_page [] i ≡ false
unfolding usable_page
no_other i e = refl

pmm_init-Initialised_example :
    (e : MemmapEntry) × Initialised three_usable 0 e (pmm_init three_usable 0 cleared)
pmm_init-Initialised_example =
    pmm_init-Initialised three_usable 0 cleared (λ a. omega arith)
      (record { fits = omega arith; base_aligned = λ e. refl; length_aligned = λ e. refl }, tt)
      (no_other, tt) (omega arith) refl bitmap_found
