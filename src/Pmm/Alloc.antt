-- ===== src/Pmm/Alloc.antt =====
-- `pmm_alloc_page` of kernel/pmm.c.
use lons_os.Base.{
  ℕ, zero, suc, ◌+◌, ◌*◌, ◌^◌, ◌≤◌, ◌<◌, ◌==◌, ◌≡◌, ◌≢◌, ◌⊎◌, refl, sym, ap, ◌∙◌, inl, inr, arith,
  Bool-cases, ==→eq,
}
use lons_os.Machine.{page_size, sub64}
use lons_os.Pmm.{Pmm, bitmap_set, claim_page, bitmap_test, alloc_from, pmm_alloc_page}
use lons_os.Pmm.Bitmap.{IsBytes, bitmap_test-bitmap_set, bitmap_set-IsBytes, bitmap_test-le}
use lons_os.Pmm.Count.{free_below, free_below-le, free_below-take}

-- The state that `pmm_init` leaves: memory of bytes, a 64-bit address space of pages, a bitmap,
-- and a counter that is the number of free pages.
pub record IsValid (s : Pmm) : Type 0 where
  pub bytes : IsBytes s
  pub placed : s.bitmap ≢ 0
  pub small : s.total_pages ≤ 2 ^ 52
  pub counted : s.free_pages ≡ free_below (bitmap_test s) s.total_pages

-- Page `i` has gone from free to used, and no other page has changed.
pub record Took (s : Pmm) (i : ℕ) (t : Pmm) : Type 0 where
  pub inside : i < s.total_pages
  pub was_free : bitmap_test s i ≡ 0
  pub used : bitmap_test t i ≡ 1
  pub others : (j : ℕ) → j ≢ i → bitmap_test t j ≡ bitmap_test s j
  pub total : t.total_pages ≡ s.total_pages
  pub bitmap : t.bitmap ≡ s.bitmap
  pub count : t.free_pages + 1 ≡ s.free_pages

-- The first free page at or after `from`.
pub record FirstFree (s : Pmm) (from i : ℕ) (out : ℕ × Pmm) : Type 0 where
  pub addr : out.0 ≡ i * page_size
  pub took : Took s i out.1
  pub after : from ≤ i
  pub earlier : (j : ℕ) → from ≤ j → j < i → bitmap_test s j ≡ 1

-- NULL and the same state, when no page from `from` on is free.
pub record NoneFree (s : Pmm) (from : ℕ) (out : ℕ × Pmm) : Type 0 where
  pub null : out.0 ≡ 0
  pub same : out.1 ≡ s
  pub full : (j : ℕ) → from ≤ j → j < s.total_pages → bitmap_test s j ≡ 1

abbrev pub Allocates : Pmm → ℕ → ℕ × Pmm → Type 0
Allocates s from out = ((i : ℕ) × FirstFree s from i out) ⊎ NoneFree s from out

claim_page_kept :
    (i : ℕ) (s : Pmm)
    → ((claim_page i s).total_pages ≡ s.total_pages)
      × ((claim_page i s).bitmap ≡ s.bitmap)
      × ((claim_page i s).free_pages ≡ sub64 s.free_pages 1)
unfolding claim_page bitmap_set
claim_page_kept i s = (refl, refl, refl)

claim_page-IsBytes : (i : ℕ) (s : Pmm) → IsBytes s → IsBytes (claim_page i s)
unfolding claim_page
claim_page-IsBytes i s bytes = bitmap_set-IsBytes s bytes i

-- A used page before the scan's start extends what is known.
skip-earlier :
    (s : Pmm) (from i : ℕ)
    → ((j : ℕ) → from + 1 ≤ j → j < i → bitmap_test s j ≡ 1)
    → bitmap_test s from ≡ 1
    → (j : ℕ) → from ≤ j
    → j < i
    → bitmap_test s j ≡ 1
skip-earlier s from i later used j a b = elim (Bool-cases (j == from)) [
  | inl e ↦ rw (==→eq j from e) used
  | inr ne ↦ later j (ground arith) b
]

skip :
    {s : Pmm} {from : ℕ} {out : ℕ × Pmm}
    → Allocates s (from + 1) out
    → bitmap_test s from ≡ 1
    → Allocates s from out
skip {s} {from} (inl (i, f)) used = inl (
  i,
  record {
    addr = f.addr;
    took = f.took;
    after = omega (arith, f.after);
    earlier = skip-earlier s from i f.earlier used;
  },
)
skip {s} {from} (inr n) used =
    inr (record {
      null = n.null;
      same = n.same;
      full = skip-earlier s from s.total_pages n.full used;
    })

module _ (s : Pmm) (v : IsValid s) where
  module _ (i : ℕ) (h : i < s.total_pages) (free : bitmap_test s i ≡ 0) where
    used_after : bitmap_test (claim_page i s) i ≡ 1
    unfolding claim_page bitmap_set bitmap_test
    used_after = ground (arith, bitmap_test-bitmap_set s v.bytes i i)

    others_after : (j : ℕ) → j ≢ i → bitmap_test (claim_page i s) j ≡ bitmap_test s j
    unfolding claim_page bitmap_set bitmap_test
    others_after j ne = ground (arith, bitmap_test-bitmap_set s v.bytes i j)

    count_drops :
        free_below (bitmap_test s) s.total_pages
        ≡ free_below (bitmap_test (claim_page i s)) s.total_pages + 1
    count_drops =
        free_below-take (bitmap_test s) (bitmap_test (claim_page i s)) s.total_pages i others_after
          free used_after h

    pub claim_page-Took : Took s i (claim_page i s)
    claim_page-Took = record {
      inside = h;
      was_free = free;
      used = used_after;
      others = others_after;
      total = (claim_page_kept i s).0;
      bitmap = (claim_page_kept i s).1;
      count = omega (
        arith,
        claim_page_kept i s,
        count_drops,
        free_below-le (bitmap_test s) s.total_pages,
        v.small,
        v.counted,
      );
    }

    pub claim_page-IsValid : IsValid (claim_page i s)
    claim_page-IsValid = record {
      bytes = claim_page-IsBytes i s v.bytes;
      placed = λ e. v.placed (sym (claim_page_kept i s).1 ∙ e);
      small = omega (arith, claim_page_kept i s, v.small);
      counted = omega (
        arith,
        v.counted,
        claim_page-Took.count,
        count_drops,
        ap (free_below (bitmap_test (claim_page i s))) (claim_page_kept i s).0,
      );
    }

  alloc_from-Allocates : (n i : ℕ) → i + n ≡ s.total_pages → Allocates s i (alloc_from n i s)
  unfolding alloc_from
  alloc_from-Allocates zero i e =
      inr (record { null = refl; same = refl; full = λ j a b. absurd (omega arith) })
  alloc_from-Allocates (suc n) i e = elim (Bool-cases (bitmap_test s i == 0)) [
    | inl free ↦ rw free (
        inl (
          i,
          record {
            addr = omega (arith, v.small);
            took = claim_page-Took i (omega arith) (==→eq _ _ free);
            after = omega arith;
            earlier = λ j a b. absurd (omega arith);
          },
        ))
    | inr used ↦
        rw used
          (skip (alloc_from-Allocates n (i + 1) (omega arith)) (ground (arith, bitmap_test-le s i)))
  ]

  -- From a valid state, an allocation returns the address of the first free page, which is then
  -- used, with no other page changed and the count one less; or NULL and the same state, if every
  -- page is used.
  pub pmm_alloc_page_lem : Allocates s 0 (pmm_alloc_page s)
  unfolding pmm_alloc_page
  pmm_alloc_page_lem = alloc_from-Allocates s.total_pages 0 (omega arith)

alloc_from-IsValid :
    (s : Pmm) → IsValid s → (n i : ℕ) → i + n ≡ s.total_pages → IsValid (alloc_from n i s).1
unfolding alloc_from
alloc_from-IsValid s v zero i e = v
alloc_from-IsValid s v (suc n) i e = elim (Bool-cases (bitmap_test s i == 0)) [
  | inl free ↦ rw free (claim_page-IsValid s v i (omega arith) (==→eq _ _ free))
  | inr used ↦ rw used (alloc_from-IsValid s v n (i + 1) (omega arith))
]

-- Whatever it returns, an allocation leaves a valid state.
pub pmm_alloc_page-IsValid : (s : Pmm) → IsValid s → IsValid (pmm_alloc_page s).1
unfolding pmm_alloc_page
pmm_alloc_page-IsValid s v = alloc_from-IsValid s v s.total_pages 0 (omega arith)
