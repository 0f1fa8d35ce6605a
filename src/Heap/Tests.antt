-- ===== src/Heap/Tests.antt =====
-- Runs of the heap on a small chain.
use lons_os.Base.{
  ℕ, ◌-◌, ◌^◌, ◌≡◌, ◌<◌, refl, arith, List, [], ◌∷◌, true, false, ◌==◌, if◌then◌else◌,
}
use lons_os.Heap.{Heap, wiped, kmalloc, kfree, ok, align_size, Headers}
use lons_os.Heap.Chain.{Block, block, header, IsHeap}
use lons_os.Heap.Spec.{first_fit, release}
use lons_os.Heap.Alloc.{Mallocs, kmalloc_refines}
use lons_os.Heap.Release.{kfree_refines}
use lons_os.Heap.Compact.{Compact}
use lons_os.Heap.Malloc.{Serves, kmalloc_lem, kmalloc_wraps}
use lons_os.Heap.Free.{kfree_lem}

-- A block of 32 bytes in use at 4096, and behind it a free one of 200 bytes.
abbrev two_blocks : List Block
two_blocks = block 32 false ∷ block 200 true ∷ []

abbrev small_heap : Heap
small_heap = record {
  headers = λ x.
      if x == 4096
      then header (block 32 false) 4157 0
      else if x == 4157
      then header (block 200 true) 0 4096
      else wiped;
  mem = λ x. 0;
  heap_head = 4096;
  heap_start = 4096;
  heap_size = 290;
}

small_heap-IsHeap : IsHeap small_heap two_blocks
small_heap-IsHeap = record {
  chain = (refl, (refl, tt));
  head = refl;
  filled = refl;
  start_pos = omega arith;
  bounded = omega arith;
}

small_heap-Compact : Compact two_blocks
small_heap-Compact = (refl, (refl, tt))

kmalloc_refines_example :
    Mallocs
      (first_fit (align_size 20) 4096 two_blocks)
      small_heap
      two_blocks
      (kmalloc 20 small_heap)
kmalloc_refines_example = kmalloc_refines small_heap two_blocks 20 small_heap-IsHeap (omega arith)

kmalloc_lem_example :
    (out : ℕ × Heap) × (kmalloc 20 small_heap ≡ ok out) × Serves small_heap two_blocks 20 out
kmalloc_lem_example =
    kmalloc_lem small_heap two_blocks 20 small_heap-IsHeap small_heap-Compact (omega arith)
      (omega arith)

kfree_refines_example :
    (h : Headers) × (kfree 4125 small_heap ≡ ok (record small_heap { headers = h }))
    × IsHeap (record small_heap { headers = h }) (release [] (block 32 false) (block 200 true ∷ []))
kfree_refines_example =
    kfree_refines small_heap 4125 [] (block 32 false) (block 200 true ∷ []) small_heap-IsHeap refl
      refl

kfree_lem_example :
    (k' : Heap) × (kfree 4125 small_heap ≡ ok k')
    × IsHeap k' (release [] (block 32 false) (block 200 true ∷ []))
    × Compact (release [] (block 32 false) (block 200 true ∷ []))
    × (k'.mem ≡ small_heap.mem)
kfree_lem_example =
    kfree_lem small_heap 4125 [] (block 32 false) (block 200 true ∷ []) small_heap-IsHeap
      small_heap-Compact refl refl

abbrev free_heap : Heap
free_heap = record {
  headers = λ x. header (block 261 true) 0 0;
  mem = λ x. 0;
  heap_head = 4096;
  heap_start = 4096;
  heap_size = 290;
}

free_heap-IsHeap : IsHeap free_heap (block 261 true ∷ [])
free_heap-IsHeap = record {
  chain = (refl, tt);
  head = refl;
  filled = refl;
  start_pos = omega arith;
  bounded = omega arith;
}

kmalloc_wraps_example :
    (k' : Heap) × (kmalloc (2 ^ 64 - 1) free_heap ≡ ok (4125, k')) × (261 < 2 ^ 64 - 1)
kmalloc_wraps_example =
    kmalloc_wraps free_heap (2 ^ 64 - 1) (block 261 true) [] free_heap-IsHeap refl (omega arith)
      (omega arith)
