-- ===== src/Heap/Malloc.antt =====
-- What a caller of `kmalloc` may rely on, put together from the parts.
use lons_os.Base.{
  ℕ, ◌+◌, ◌-◌, ◌^◌, ◌≤◌, ◌<◌, ◌≡◌, ◌≢◌, ◌⊎◌, refl, subst, ◌∙◌, inl, inr, true, ◌&&◌, List, [], ◌∷◌,
  arith, leb, Bool-cases, Option, none, some,
}
use lons_os.Heap.{Heap, ok, align_size, kmalloc, header_size}
use lons_os.Heap.Chain.{Block, after, IsHeap}
use lons_os.Heap.Spec.{carve, keep, first_fit}
use lons_os.Heap.Alloc.{Mallocs, kmalloc_refines}
use lons_os.Heap.Compact.{Compact, first_fit-Compact}
use lons_os.Heap.Usage.{Allotted, first_fit-Allotted}

-- Every free block is smaller than `n`.
abbrev pub AllSmaller : ℕ → List Block → Type 0
AllSmaller n [] = Unit
AllSmaller n (b ∷ bs) = (b.free ≡ true → b.size < n) × AllSmaller n bs

keep-ne-none : (b : Block) (o : Option (ℕ × List Block)) → keep b o ≡ none → o ≡ none
keep-ne-none b none e = refl
keep-ne-none b (some x) e = cc

first_fit-none : (n a : ℕ) (bs : List Block) → first_fit n a bs ≡ none → AllSmaller n bs
unfolding first_fit
first_fit-none n a [] e = tt
first_fit-none n a (b ∷ bs) e = elim (Bool-cases (b.free && leb n b.size)) [
  | inl fits ↦ absurd (ground arith)
  | inr skip ↦ (
    λ free. ground arith,
    first_fit-none n (after a b) bs
        (keep-ne-none b (first_fit n (after a b) bs) ((rw skip refl) ∙ e)),
  )
]

-- The outcome of a request of `size` bytes: NULL, the same heap, and no free block that would
-- have done; or a heap of compact blocks in which the request has been granted.
pub record Granted (k : Heap) (bs : List Block) (size ptr : ℕ) (k' : Heap) : Type 0 where
  pub blocks : List Block
  pub heap : IsHeap k' blocks
  pub compact : Compact blocks
  pub allotted : Allotted k.heap_start bs size ptr blocks
  pub same_bytes : k'.mem ≡ k.mem
  pub same_start : k'.heap_start ≡ k.heap_start

abbrev pub Serves : Heap → List Block → ℕ → ℕ × Heap → Type 0
Serves k bs size (ptr, k') =
    ((ptr ≡ 0) × (k' ≡ k) × AllSmaller (align_size size) bs) ⊎ Granted k bs size ptr k'

align_size-ge : (size : ℕ) → size + 15 < 2 ^ 64 → size ≤ align_size size
unfolding align_size
align_size-ge size small = omega arith

Allotted-weaken :
    {a n m ptr : ℕ} {bs cs : List Block} → m ≤ n → Allotted a bs n ptr cs → Allotted a bs m ptr cs
Allotted-weaken h t = record {
  size = t.size;
  enough = omega (arith, h, t.enough);
  granted = t.granted;
  fresh = t.fresh;
  kept = t.kept;
  no_other = t.no_other;
}

-- On a compact heap, a request of 1 to 2^64 - 16 bytes ends without halting: with NULL and the
-- same heap only if every free block is smaller than the aligned size; otherwise with a block of at
-- least `size` bytes that was not in use, all other blocks in use where they were, the data bytes
-- untouched, and the heap compact.
pub kmalloc_lem :
    (k : Heap) (bs : List Block) (size : ℕ)
    → IsHeap k bs
    → Compact bs
    → size ≢ 0
    → size + 15 < 2 ^ 64
    → (out : ℕ × Heap) × (kmalloc size k ≡ ok out) × Serves k bs size out
kmalloc_lem k bs size v c ne small =
    answer (first_fit (align_size size) k.heap_start bs) refl (kmalloc_refines k bs size v ne)
  where
    answer :
        (o : Option (ℕ × List Block))
        → first_fit (align_size size) k.heap_start bs ≡ o
        → Mallocs o k bs (kmalloc size k)
        → (out : ℕ × Heap) × (kmalloc size k ≡ ok out) × Serves k bs size out
    answer none e got =
        ((0, k), got, inl (refl, refl, first_fit-none (align_size size) k.heap_start bs e))
    answer (some (ptr, cs)) e (h, got, heap) = (
      (ptr, record k { headers = h }),
      got,
      inr (record {
        blocks = cs;
        heap = heap;
        compact = first_fit-Compact (align_size size) k.heap_start bs ptr cs c e;
        allotted =
            Allotted-weaken (align_size-ge size small)
              (first_fit-Allotted (align_size size) k.heap_start bs ptr cs e);
        same_bytes = refl;
        same_start = refl;
      }),
    )

wraps_to_zero : (size : ℕ) → 2 ^ 64 - 15 ≤ size → size < 2 ^ 64 → align_size size ≡ 0
unfolding align_size
wraps_to_zero size big fits = omega arith

first_fit-zero :
    (a : ℕ) (b : Block) (bs : List Block)
    → b.free ≡ true
    → first_fit 0 a (b ∷ bs) ≡ some (a + header_size, carve 0 b bs)
unfolding first_fit
first_fit-zero a b bs free = ground arith

-- On a heap whose first block is free, a request of more than 2^64 - 16 bytes is given that block,
-- which is smaller than the request.
pub kmalloc_wraps :
    (k : Heap) (size : ℕ) (b : Block) (bs : List Block)
    → IsHeap k (b ∷ bs)
    → b.free ≡ true
    → 2 ^ 64 - 15 ≤ size
    → size < 2 ^ 64
    → (k' : Heap) × (kmalloc size k ≡ ok (k.heap_start + header_size, k')) × (b.size < size)
kmalloc_wraps k size b bs v free big fits =
    let (h, got, heap) =
      subst (λ o. Mallocs o k (b ∷ bs) (kmalloc size k)) first
        (kmalloc_refines k (b ∷ bs) size v (omega arith)) in
    (record k { headers = h }, got, omega (arith, v.filled, v.bounded, v.start_pos))
  where
    zero_size : align_size size ≡ 0
    zero_size = wraps_to_zero size big fits

    first :
        first_fit (align_size size) k.heap_start (b ∷ bs)
        ≡ some (k.heap_start + header_size, carve 0 b bs)
    first = rw zero_size (first_fit-zero k.heap_start b bs free)
