-- ===== src/Heap/Free.antt =====
-- What a caller of `kfree` may rely on, put together from the parts, and its guard.
use lons_os.Base.{
  ℕ, ◌+◌, ◌≡◌, refl, ap, ◌∙◌, Bool, true, false, List, ◌∷◌, ◌++◌, arith, if◌then◌else◌, eq_false,
}
use lons_os.Heap.{Heap, ok, halted, kfree, get_header, header_size}
use lons_os.Heap.Chain.{Block, span, IsHeap}
use lons_os.Heap.Spec.{release}
use lons_os.Heap.Release.{kfree_refines, cell_lem, end_lem, place}
use lons_os.Heap.Compact.{Compact, release-Compact}

-- On a compact heap with a block `b` in use behind the blocks `xs`, freeing the data address of
-- `b` ends without halting; the heap then holds what `release` gives, compact again, in the same
-- bytes, and the data bytes are untouched.
pub kfree_lem :
    (k : Heap) (ptr : ℕ) (xs : List Block) (b : Block) (ys : List Block)
    → IsHeap k (xs ++ b ∷ ys)
    → Compact (xs ++ b ∷ ys)
    → b.free ≡ false
    → ptr ≡ k.heap_start + span xs + header_size
    → (k' : Heap) × (kfree ptr k ≡ ok k')
      × IsHeap k' (release xs b ys)
      × Compact (release xs b ys)
      × (k'.mem ≡ k.mem)
kfree_lem k ptr xs b ys v c used e =
    let (h, got, heap) = kfree_refines k ptr xs b ys v used e in
    (record k { headers = h }, got, heap, release-Compact xs b ys c, refl)

-- On a heap with a free block `b` behind the blocks `xs`, freeing the data address of `b` halts.
pub kfree_twice :
    (k : Heap) (ptr : ℕ) (xs : List Block) (b : Block) (ys : List Block)
    → IsHeap k (xs ++ b ∷ ys)
    → b.free ≡ true
    → ptr ≡ k.heap_start + span xs + header_size
    → kfree ptr k ≡ halted
unfolding kfree
kfree_twice k ptr xs b ys v free e = rw (
  eq_false ptr 0 (omega (arith, e)),
  block_at,
  (cell_lem k xs b ys v).0,
  (cell_lem k xs b ys v).1 ∙ ap {B = ℕ} (λ (x : Bool). if x then 1 else 0) free,
)
  where
    block_at : get_header ptr ≡ place k xs b ys v
    block_at = omega (arith, e, end_lem k xs b ys v)
