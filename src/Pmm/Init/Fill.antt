-- ===== src/Pmm/Init/Fill.antt =====
-- Pass 2 of `pmm_init`: the bitmap's place, and `pmm_memset`.
use lons_os.Base.{
  ℕ, ◌+◌, ◌/◌, ◌%◌, ◌≤◌, ◌<◌, ◌==◌, ◌≡◌, ◌⊎◌, refl, ap, inl, inr, ◌&&◌, List, [], ◌∷◌, ltb, leb,
  leb→le, if◌then◌else◌, arith, Bool-cases, ==→eq,
}
use lons_os.Base.Bits.{test_bit-ones}
use lons_os.Base.Loops.{for_range_inv}
use lons_os.Machine.{MemmapEntry, memmap_usable, Memory, write, u64}
use lons_os.Pmm.{Pmm, pmm_memset, place_bitmap, bitmap_test}
use lons_os.Pmm.Bitmap.{IsBytes}
use lons_os.Pmm.Init.Spec.{In}

-- Every byte of the range has the value, and no other byte has changed.
pub pmm_memset_lem :
    (ptr value size : ℕ) (mem : Memory) (a : ℕ)
    → pmm_memset ptr value size mem a ≡ (if leb ptr a && ltb a (ptr + size) then value else mem a)
unfolding pmm_memset
pmm_memset_lem ptr value size mem =
    for_range_inv (λ k m. (a : ℕ) → m a ≡ (if leb ptr a && ltb a (ptr + k) then value else mem a))
      (λ i m. write m (ptr + i) value) size 0 size mem (λ k m lt h a. ground (arith, h a))
      (omega arith) (λ a. ground arith)

-- A fresh bitmap says that every page is used.
pub bitmap_test-memset :
    (t : Pmm) (size : ℕ) (mem : Memory) (i : ℕ)
    → t.mem ≡ pmm_memset t.bitmap 0xFF size mem
    → i / 8 < size
    → bitmap_test t i ≡ 1
unfolding bitmap_test
bitmap_test-memset t size mem i e h = ground (
  arith,
  ap (λ (m : Memory). m (t.bitmap + i / 8)) e,
  pmm_memset_lem t.bitmap 0xFF size mem (t.bitmap + i / 8),
  test_bit-ones (i % 8),
)

pub memset-IsBytes : (s : Pmm) (at n : ℕ) → IsBytes s → (a : ℕ) → pmm_memset at 0xFF n s.mem a < 256
memset-IsBytes s at n bytes a = ground (arith, pmm_memset_lem at 0xFF n s.mem a, bytes a)

-- The state after the bitmap is placed at entry `e`.
abbrev pub placed_at : Pmm → MemmapEntry → Pmm
placed_at s e =
    let at = u64 (e.base + s.hhdm_base) in
    record s { bitmap = at; mem = pmm_memset at 0xFF s.bitmap_size s.mem }

-- Pass 2 finds no place and does nothing, or places the bitmap at a usable entry that holds it.
pub place_bitmap_lem :
    (es : List MemmapEntry) (s : Pmm)
    → (place_bitmap es s ≡ s)
      ⊎ ((e : MemmapEntry) × In e es
          × (e.type ≡ memmap_usable)
          × (s.bitmap_size ≤ e.length)
          × (place_bitmap es s ≡ placed_at s e))
unfolding place_bitmap
place_bitmap_lem [] s = inl refl
place_bitmap_lem (e ∷ es) s = elim (Bool-cases (e.type == memmap_usable)) [
  | inl usable ↦ elim (Bool-cases (leb s.bitmap_size e.length)) [
    | inl fits ↦ rw (usable, fits) (inr (e, inl refl, ==→eq _ _ usable, leb→le _ _ fits, refl))
    | inr small ↦ rw (usable, small) (later (place_bitmap_lem es s))
  ]
  | inr other ↦ rw other (later (place_bitmap_lem es s))
]
  where
    later :
        (place_bitmap es s ≡ s)
          ⊎ ((d : MemmapEntry) × In d es
              × (d.type ≡ memmap_usable)
              × (s.bitmap_size ≤ d.length)
              × (place_bitmap es s ≡ placed_at s d))
        → (place_bitmap es s ≡ s)
          ⊎ ((d : MemmapEntry) × In d (e ∷ es)
              × (d.type ≡ memmap_usable)
              × (s.bitmap_size ≤ d.length)
              × (place_bitmap es s ≡ placed_at s d))
    later (inl same) = inl same
    later (inr (d, i, u, f, q)) = inr (d, inr i, u, f, q)
