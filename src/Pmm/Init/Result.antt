-- ===== src/Pmm/Init/Result.antt =====
-- The whole of `pmm_init`: its four passes put together.
use lons_os.Base.{
  ℕ, zero, suc, ◌+◌, ◌/◌, ◌^◌, ◌≤◌, ◌<◌, ◌==◌, ◌≡◌, ◌≢◌, ◌⊎◌, refl, sym, ap, ◌∙◌, inl, inr, true,
  List, [], ◌∷◌, ltb, if◌then◌else◌, arith, Bool-cases, ==→eq,
}
use lons_os.Machine.{MemmapEntry, memmap_usable, page_size, u64, mask_down}
use lons_os.Pmm.{
  Pmm, align_up, entry_end, highest_addr, bitmap_test, measure, place_bitmap, free_usable,
  reserve_bitmap, fill_bitmap, pmm_init,
}
use lons_os.Pmm.Bitmap.{IsBytes}
use lons_os.Pmm.Count.{free_below}
use lons_os.Pmm.Alloc.{IsValid}
use lons_os.Pmm.Init.Spec.{All, In, All-In, covers, usable_page, in_pages, Disjoint, IsWhole}
use lons_os.Pmm.Init.Fill.{placed_at, place_bitmap_lem, bitmap_test-memset, memset-IsBytes}
use lons_os.Pmm.Init.Release.{Counted, IsBelow, free_usable-Released, free_usable-Counted, Released}
use lons_os.Pmm.Init.Reserve.{Reserved, own_first, own_count, reserve_bitmap_lem}

-- Pass 1: no entry ends above the result.
highest_addr-start : (es : List MemmapEntry) (h : ℕ) → h ≤ highest_addr es h
unfolding highest_addr
highest_addr-start [] h = omega arith
highest_addr-start (e ∷ es) h =
    ground (arith, highest_addr-start es (if ltb h (entry_end e) then entry_end e else h))

highest_addr-ge : (es : List MemmapEntry) (h : ℕ) → All (λ e. entry_end e ≤ highest_addr es h) es
unfolding highest_addr
highest_addr-ge [] h = tt
highest_addr-ge (e ∷ es) h = (
  ground (arith, highest_addr-start es (if ltb h (entry_end e) then entry_end e else h)),
  highest_addr-ge es (if ltb h (entry_end e) then entry_end e else h),
)

highest_addr-lt : (es : List MemmapEntry) (h : ℕ) → h < 2 ^ 64 → highest_addr es h < 2 ^ 64
unfolding highest_addr
highest_addr-lt [] h lt = lt
highest_addr-lt (e ∷ es) h lt =
    highest_addr-lt es (if ltb h (entry_end e) then entry_end e else h) (ground arith)

-- Whole entries below the highest address lie below the number of pages.
All-IsBelow :
    (es : List MemmapEntry) (top : ℕ)
    → All IsWhole es
    → All (λ e. entry_end e ≤ top) es
    → All (IsBelow (top / page_size)) es
unfolding align_up
All-IsBelow [] top whole ends = tt
All-IsBelow (e ∷ es) top whole ends = (λ usable. one usable, All-IsBelow es top whole.1 ends.1)
  where
    one :
        e.type ≡ memmap_usable
        → (align_up e.base page_size ≤ mask_down (entry_end e) page_size)
          × (entry_end e / page_size ≤ top / page_size)
    one usable = omega (arith, whole.0.fits, whole.0.base_aligned usable, ends.0)

usable_page-lt :
    (es : List MemmapEntry) (total i : ℕ)
    → All (IsBelow total) es
    → usable_page es i ≡ true
    → i < total
unfolding usable_page covers
usable_page-lt [] total i below h = cc
usable_page-lt (e ∷ es) total i below h = elim (Bool-cases (usable_page es i)) [
  | inl later ↦ usable_page-lt es total i below.1 later
  | inr here ↦ elim (Bool-cases (e.type == memmap_usable)) [
    | inl usable ↦ ground (arith, below.0 (==→eq _ _ usable))
    | inr other ↦ ground arith
  ]
]

free_below-full : (used : ℕ → ℕ) (n : ℕ) → ((i : ℕ) → i < n → used i ≡ 1) → free_below used n ≡ 0
unfolding free_below
free_below-full used zero h = refl
free_below-full used (suc n) h =
    omega (arith, h n (omega arith), free_below-full used n (λ i lt. h i (omega arith)))

-- What the four passes come to. `entry` is where the bitmap went.
pub record Initialised (es : List MemmapEntry) (hhdm : ℕ) (entry : MemmapEntry) (t : Pmm)
    : Type 0 where
  pub valid : IsValid t
  pub total : t.total_pages ≡ highest_addr es 0 / page_size
  pub home : In entry es
  pub home_usable : entry.type ≡ memmap_usable
  pub bitmap : t.bitmap ≡ u64 (entry.base + hhdm)
  pub room : (t.total_pages + 7) / 8 ≤ entry.length
  pub pages :
      (i : ℕ)
      → i < t.total_pages
      → bitmap_test t i ≡ (
          if in_pages (entry.base / page_size) (((t.total_pages + 7) / 8 + 4095) / page_size) i
          then 1
          else if usable_page es i
          then 0
          else 1)

module _ (es : List MemmapEntry) (hhdm : ℕ) (s : Pmm) (bytes : IsBytes s) (whole : All IsWhole es)
    (apart : Disjoint es) (small : hhdm < 2 ^ 64) where
  measured : Pmm
  measured = measure es hhdm s

  below : All (IsBelow measured.total_pages) es
  unfolding measured measure
  below = All-IsBelow es (highest_addr es 0) whole (highest_addr-ge es 0)

  total_small : measured.total_pages ≤ 2 ^ 52
  unfolding measured measure
  total_small = omega (arith, highest_addr-lt es 0 (omega arith))

  -- After passes 1 and 2, all pages used and none counted.
  module _ (e : MemmapEntry) where
    abbrev placed : Pmm
    placed = record (placed_at measured e) { free_pages = 0 }

    placed-IsBytes : IsBytes placed
    unfolding measured measure
    placed-IsBytes = memset-IsBytes measured (u64 (e.base + hhdm)) measured.bitmap_size bytes

    placed_full : (i : ℕ) → i < measured.total_pages → bitmap_test placed i ≡ 1
    unfolding measured measure
    placed_full i h = bitmap_test-memset placed measured.bitmap_size s.mem i refl (omega arith)

    placed-Counted : Counted placed
    placed-Counted = sym (free_below-full (bitmap_test placed) measured.total_pages placed_full)

    released : Released placed (usable_page es) (free_usable es placed)
    released = free_usable-Released es placed placed-IsBytes

    released-Counted : Counted (free_usable es placed)
    released-Counted =
        free_usable-Counted es placed placed-IsBytes total_small placed-Counted below apart
          (λ i h. placed_full i (usable_page-lt es measured.total_pages i below h))

    module _ (home : In e es) (usable : e.type ≡ memmap_usable)
        (room : measured.bitmap_size ≤ e.length) (set : u64 (e.base + hhdm) ≢ 0) where
      is_whole : IsWhole e
      is_whole = All-In IsWhole es whole home

      -- The bitmap's own pages are those from the entry's base on, and lie below the end.
      own_first_lem : own_first (free_usable es placed) ≡ e.base / page_size
      unfolding measured measure
      own_first_lem = omega (arith, released.bitmap, released.hhdm, is_whole.fits, small)

      own_below :
          own_first (free_usable es placed) + own_count (free_usable es placed)
          ≤ (free_usable es placed).total_pages
      own_below = omega (
        arith,
        own_first_lem,
        released.size,
        released.total,
        is_whole.fits,
        is_whole.base_aligned usable,
        is_whole.length_aligned usable,
        All-In (IsBelow measured.total_pages) es below home usable,
        room,
      )

      reserved :
          Reserved
            (free_usable es placed)
            (in_pages (own_first (free_usable es placed)) (own_count (free_usable es placed)))
            (reserve_bitmap (free_usable es placed))
      reserved =
          reserve_bitmap_lem (free_usable es placed) released.bytes released-Counted own_below

      total : (reserve_bitmap (free_usable es placed)).total_pages ≡ measured.total_pages
      total = reserved.total ∙ released.total

      count :
          own_count (free_usable es placed)
          ≡ (((reserve_bitmap (free_usable es placed)).total_pages + 7) / 8 + 4095) / page_size
      unfolding measured measure
      count = omega (arith, total, released.size)

      pages :
          (i : ℕ)
          → i < (reserve_bitmap (free_usable es placed)).total_pages
          → bitmap_test (reserve_bitmap (free_usable es placed)) i ≡ (
              if in_pages
                (e.base / page_size)
                ((((reserve_bitmap (free_usable es placed)).total_pages + 7) / 8 + 4095)
                  / page_size)
                i
              then 1
              else if usable_page es i
              then 0
              else 1)
      pages i h = ground (
        arith,
        reserved.tests i,
        released.tests i,
        placed_full i (omega (arith, total, h)),
        ap (λ (n : ℕ). in_pages n (own_count (free_usable es placed)) i) own_first_lem,
        ap (λ (n : ℕ). in_pages (e.base / page_size) n i) count,
      )

      finished : Initialised es hhdm e (reserve_bitmap (free_usable es placed))
      unfolding measured measure
      finished = record {
        valid = record {
          bytes = reserved.bytes;
          placed = λ q. set (sym (reserved.bitmap ∙ released.bitmap) ∙ q);
          small = omega (arith, reserved.total, released.total, total_small);
          counted = reserved.counted;
        };
        total = total;
        home = home;
        home_usable = usable;
        bitmap = reserved.bitmap ∙ released.bitmap;
        room = omega (arith, total, room);
        pages = pages;
      }

    finished_fill :
        In e es
        → e.type ≡ memmap_usable
        → measured.bitmap_size ≤ e.length
        → (fill_bitmap es (placed_at measured e)).bitmap ≢ 0
        → Initialised es hhdm e (fill_bitmap es (placed_at measured e))
    unfolding fill_bitmap measured measure
    finished_fill home usable room found = elim (Bool-cases (u64 (e.base + hhdm) == 0)) [
      | inl null ↦ absurd (found (rw null (==→eq _ _ null)))
      | inr set ↦ rw set (finished home usable room (ground arith))
    ]

  -- With no place found the bitmap stays null.
  nothing : s.bitmap ≡ 0 → (fill_bitmap es measured).bitmap ≡ 0
  unfolding fill_bitmap measured measure
  nothing fresh = rw fresh

  -- From a state whose bitmap is null, over whole entries of which usable ones do not overlap: if `pmm_init` finds a
  -- place for the bitmap, then the state is valid, and a page is free exactly if it lies in a usable
  -- entry and is none of the bitmap's own pages.
  pub pmm_init-Initialised :
      s.bitmap ≡ 0
      → (pmm_init es hhdm s).bitmap ≢ 0
      → (e : MemmapEntry) × Initialised es hhdm e (pmm_init es hhdm s)
  unfolding pmm_init measured
  pmm_init-Initialised fresh = finish (place_bitmap_lem es measured)
    where
      finish :
          (place_bitmap es measured ≡ measured)
            ⊎ ((e : MemmapEntry) × In e es
                × (e.type ≡ memmap_usable)
                × (measured.bitmap_size ≤ e.length)
                × (place_bitmap es measured ≡ placed_at measured e))
          → (fill_bitmap es (place_bitmap es measured)).bitmap ≢ 0
          → (e : MemmapEntry) × Initialised es hhdm e (fill_bitmap es (place_bitmap es measured))
      finish (inl same) = rw same (λ found. absurd (found (nothing fresh)))
      finish (inr (e, home, usable, room, at)) =
          rw at (λ found. (e, finished_fill e home usable room found))
