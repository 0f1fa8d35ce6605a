-- ===== src/Pmm/Init/Release.antt =====
-- Pass 3 of `pmm_init`: the pages of usable entries become free.
use lons_os.Base.{
  ℕ, ◌+◌, ◌-◌, ◌*◌, ◌/◌, ◌%◌, ◌^◌, ◌≤◌, ◌<◌, ◌==◌, ◌≡◌, ◌≢◌, refl, sym, ap, fun_ext, subst, ◌∙◌,
  inl, inr, Bool, true, false, ◌&&◌, ◌||◌, List, [], ◌∷◌, if◌then◌else◌, arith, Bool-cases, ==→eq,
}
use lons_os.Base.Loops.{for_range, for_range_inv}
use lons_os.Machine.{MemmapEntry, memmap_usable, page_size, u64, mask_down}
use lons_os.Pmm.{
  Pmm, bitmap_clear, bitmap_test, free_one, free_entry, free_usable, align_up, entry_end,
}
use lons_os.Pmm.Bitmap.{IsBytes, bitmap_test-bitmap_clear, bitmap_clear-IsBytes}
use lons_os.Pmm.Count.{free_below, free_below-le, free_below-take}
use lons_os.Pmm.Init.Spec.{All, covers, usable_page, in_pages, Disjoint}

-- `t` is `s` but for the pages of `range`, which are free.
pub record Released (s : Pmm) (range : ℕ → Bool) (t : Pmm) : Type 0 where
  pub bytes : IsBytes t
  pub tests : (i : ℕ) → bitmap_test t i ≡ (if range i then 0 else bitmap_test s i)
  pub total : t.total_pages ≡ s.total_pages
  pub bitmap : t.bitmap ≡ s.bitmap
  pub size : t.bitmap_size ≡ s.bitmap_size
  pub hhdm : t.hhdm_base ≡ s.hhdm_base

free_one-tests :
    (s : Pmm) (page i : ℕ)
    → IsBytes s
    → bitmap_test (free_one page s) i ≡ (if i == page then 0 else bitmap_test s i)
unfolding free_one bitmap_test bitmap_clear
free_one-tests s page i bytes = bitmap_test-bitmap_clear s bytes page i

free_one-IsBytes : (s : Pmm) (page : ℕ) → IsBytes s → IsBytes (free_one page s)
unfolding free_one
free_one-IsBytes s page bytes = bitmap_clear-IsBytes s bytes page

free_one_kept :
    (page : ℕ) (t : Pmm)
    → ((free_one page t).total_pages ≡ t.total_pages)
      × ((free_one page t).bitmap ≡ t.bitmap)
      × ((free_one page t).bitmap_size ≡ t.bitmap_size)
      × ((free_one page t).hhdm_base ≡ t.hhdm_base)
unfolding free_one bitmap_clear
free_one_kept page t = (refl, refl, refl, refl)

free_one_count : (page : ℕ) (s : Pmm) → (free_one page s).free_pages ≡ u64 (s.free_pages + 1)
unfolding free_one bitmap_clear
free_one_count page s = refl

free_one-Released :
    (s t : Pmm) (p k page : ℕ)
    → page ≡ p + k
    → Released s (in_pages p k) t
    → Released s (in_pages p (k + 1)) (free_one page t)
unfolding in_pages
free_one-Released s t p k page e r = record {
  bytes = free_one-IsBytes t page r.bytes;
  tests = λ i. ground (arith, free_one-tests t page i r.bytes, r.tests i);
  total = (free_one_kept page t).0 ∙ r.total;
  bitmap = (free_one_kept page t).1 ∙ r.bitmap;
  size = (free_one_kept page t).2 ∙ r.size;
  hhdm = (free_one_kept page t).3 ∙ r.hhdm;
}

Released-nothing : (s : Pmm) (p : ℕ) → IsBytes s → Released s (in_pages p 0) s
unfolding in_pages
Released-nothing s p bytes = record {
  bytes = bytes;
  tests = λ i. ground arith;
  total = refl;
  bitmap = refl;
  size = refl;
  hhdm = refl;
}

-- The counter is the number of free pages.
abbrev pub Counted : Pmm → Type 0
Counted s = s.free_pages ≡ free_below (bitmap_test s) s.total_pages

free_one-Counted :
    (s : Pmm) (page : ℕ)
    → IsBytes s
    → s.total_pages ≤ 2 ^ 52
    → Counted s
    → page < s.total_pages
    → bitmap_test s page ≡ 1
    → Counted (free_one page s)
free_one-Counted s page bytes small counted h used = omega (
  arith,
  counted,
  free_below-le (bitmap_test s) s.total_pages,
  free_one_count page s,
  ap (free_below (bitmap_test (free_one page s))) (free_one_kept page s).0,
  free_below-take (bitmap_test (free_one page s)) (bitmap_test s) s.total_pages page
      (λ j ne. other j ne) (ground (arith, free_one-tests s page page bytes)) used h,
)
  where
    other : (j : ℕ) → j ≢ page → bitmap_test s j ≡ bitmap_test (free_one page s) j
    other j ne = ground (arith, free_one-tests s page j bytes)

-- The loop over `n` pages from an aligned address.
abbrev release_run : ℕ → ℕ → Pmm → Pmm
release_run base n s = for_range n 0 (λ k t. free_one ((base + k * page_size) / page_size) t) s

release_run-Released :
    (base n : ℕ) (s : Pmm)
    → base % page_size ≡ 0
    → IsBytes s
    → Released s (in_pages (base / page_size) n) (release_run base n s)
release_run-Released base n s aligned bytes =
    for_range_inv (λ k t. Released s (in_pages (base / page_size) k) t)
      (λ k t. free_one ((base + k * page_size) / page_size) t) n 0 n s
      (λ k t lt r. free_one-Released s t (base / page_size) k _ (omega arith) r) (omega arith)
      (Released-nothing s (base / page_size) bytes)

release_run-Counted :
    (base n : ℕ) (s : Pmm)
    → base % page_size ≡ 0
    → IsBytes s
    → s.total_pages ≤ 2 ^ 52
    → Counted s
    → base / page_size + n ≤ s.total_pages
    → ((i : ℕ) → in_pages (base / page_size) n i ≡ true → bitmap_test s i ≡ 1)
    → Counted (release_run base n s)
unfolding in_pages
release_run-Counted base n s aligned bytes small counted below used =
    (for_range_inv (λ k t. Released s (in_pages (base / page_size) k) t × Counted t)
      (λ k t. free_one ((base + k * page_size) / page_size) t) n 0 n s
      (λ k t lt (r, c).
        let page : (base + k * page_size) / page_size ≡ base / page_size + k = omega arith in
        (
          free_one-Released s t (base / page_size) k _ page r,
          free_one-Counted t _ r.bytes (omega (arith, r.total, small)) c
              (omega (arith, r.total, below, page, lt))
              (ground (
                arith,
                r.tests ((base + k * page_size) / page_size),
                used ((base + k * page_size) / page_size),
              )),
        ))
      (omega arith) (Released-nothing s (base / page_size) bytes, counted)).1

align_up-aligned : (a : ℕ) → align_up a page_size % page_size ≡ 0
unfolding align_up
align_up-aligned a = omega arith

-- The rounds of the loop over an entry.
abbrev rounds : MemmapEntry → ℕ
rounds e =
    (mask_down (entry_end e) page_size - align_up e.base page_size + (page_size - 1)) / page_size

covers-in_pages :
    (e : MemmapEntry) (i : ℕ)
    → covers e i ≡ in_pages (align_up e.base page_size / page_size) (rounds e) i
unfolding covers in_pages
covers-in_pages e i = ground (arith, align_up-aligned e.base)

-- One usable entry: exactly the pages that lie whole in it are freed.
pub free_entry-Released :
    (e : MemmapEntry) (s : Pmm) → IsBytes s → Released s (covers e) (free_entry e s)
unfolding free_entry
free_entry-Released e s bytes =
    rw (fun_ext (covers-in_pages e)) (
      release_run-Released (align_up e.base page_size) (rounds e) s (align_up-aligned e.base) bytes)

-- If they were in use and are all below `total_pages`, the counter stays right.
pub free_entry-Counted :
    (e : MemmapEntry) (s : Pmm)
    → IsBytes s
    → s.total_pages ≤ 2 ^ 52
    → Counted s
    → align_up e.base page_size ≤ mask_down (entry_end e) page_size
    → entry_end e / page_size ≤ s.total_pages
    → ((i : ℕ) → covers e i ≡ true → bitmap_test s i ≡ 1)
    → Counted (free_entry e s)
unfolding free_entry
free_entry-Counted e s bytes small counted forward below used =
    release_run-Counted (align_up e.base page_size) (rounds e) s (align_up-aligned e.base) bytes
      small counted (omega (arith, align_up-aligned e.base))
      (λ i h. used i (covers-in_pages e i ∙ h))

-- All entries: the usable pages are freed.
Released-none : (s : Pmm) → IsBytes s → Released s (λ i. false) s
Released-none s bytes = record {
  bytes = bytes;
  tests = λ i. refl;
  total = refl;
  bitmap = refl;
  size = refl;
  hhdm = refl;
}

Released-both :
    (s t u : Pmm) (f g : ℕ → Bool)
    → Released s f t
    → Released t g u
    → Released s (λ i. f i || g i) u
Released-both s t u f g p q = record {
  bytes = q.bytes;
  tests = λ i. ground (arith, p.tests i, q.tests i);
  total = q.total ∙ p.total;
  bitmap = q.bitmap ∙ p.bitmap;
  size = q.size ∙ p.size;
  hhdm = q.hhdm ∙ p.hhdm;
}

Released-ext :
    {s t : Pmm} (f g : ℕ → Bool) → Released s f t → ((i : ℕ) → f i ≡ g i) → Released s g t
Released-ext {s} {t} f g r same = subst (λ h. Released s h t) (fun_ext same) r

abbrev usable_cover : MemmapEntry → ℕ → Bool
usable_cover e i = e.type == memmap_usable && covers e i

-- What pass 3 does with one entry.
abbrev visit : MemmapEntry → Pmm → Pmm
visit e s = if e.type == memmap_usable then free_entry e s else s

visit-Released : (e : MemmapEntry) (s : Pmm) → IsBytes s → Released s (usable_cover e) (visit e s)
visit-Released e s bytes = elim (Bool-cases (e.type == memmap_usable)) [
  | inl usable ↦
      rw usable
        (Released-ext (covers e) (usable_cover e) (free_entry-Released e s bytes) (λ i. rw usable))
  | inr other ↦
      rw other (Released-ext (λ i. false) (usable_cover e) (Released-none s bytes) (λ i. rw other))
]

-- Pass 3 frees exactly the pages of usable entries.
pub free_usable-Released :
    (es : List MemmapEntry) (s : Pmm) → IsBytes s → Released s (usable_page es) (free_usable es s)
unfolding free_usable usable_page
free_usable-Released [] s bytes = Released-none s bytes
free_usable-Released (e ∷ es) s bytes =
    let one = visit-Released e s bytes in
    Released-both s (visit e s) _ (usable_cover e) (usable_page es) one
      (free_usable-Released es (visit e s) one.bytes)

-- An entry of whole pages below the end of what is counted.
abbrev pub IsBelow : ℕ → MemmapEntry → Type 0
IsBelow total e =
    e.type ≡ memmap_usable
    → (align_up e.base page_size ≤ mask_down (entry_end e) page_size)
      × (entry_end e / page_size ≤ total)

visit-Counted :
    (e : MemmapEntry) (s : Pmm)
    → IsBytes s
    → s.total_pages ≤ 2 ^ 52
    → Counted s
    → IsBelow s.total_pages e
    → ((i : ℕ) → usable_cover e i ≡ true → bitmap_test s i ≡ 1)
    → Counted (visit e s)
visit-Counted e s bytes small counted below used = elim (Bool-cases (e.type == memmap_usable)) [
  | inl usable ↦
      let b = below (==→eq _ _ usable) in
      simp usable
        (free_entry-Counted e s bytes small counted b.0 b.1 (λ i h. used i (rw (usable, h))))
  | inr other ↦ simp other counted
]

-- Pass 3 keeps the counter right, if usable entries do not overlap and their pages were in use.
pub free_usable-Counted :
    (es : List MemmapEntry) (s : Pmm)
    → IsBytes s
    → s.total_pages ≤ 2 ^ 52
    → Counted s
    → All (IsBelow s.total_pages) es
    → Disjoint es
    → ((i : ℕ) → usable_page es i ≡ true → bitmap_test s i ≡ 1)
    → Counted (free_usable es s)
unfolding free_usable usable_page
free_usable-Counted [] s bytes small counted below apart used = counted
free_usable-Counted (e ∷ es) s bytes small counted below apart used =
    free_usable-Counted es (visit e s) one.bytes (omega (arith, one.total, small))
      (visit-Counted e s bytes small counted below.0 (λ i h. used i (rw h)))
      (subst (λ n. All (IsBelow n) es) (sym one.total) below.1) apart.1 still
  where
    one : Released s (usable_cover e) (visit e s)
    one = visit-Released e s bytes

    still : (i : ℕ) → usable_page es i ≡ true → bitmap_test (visit e s) i ≡ 1
    still i h = ground (arith, one.tests i, apart.0 i, used i)
