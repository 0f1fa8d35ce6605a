-- ===== src/Heap/Spec.antt =====
-- What the heap promises, on the list of its blocks.
use lons_os.Base.{
  ℕ, ◌+◌, ◌-◌, true, false, ◌&&◌, List, [], ◌∷◌, Option, none, some, leb, if◌then◌else◌,
}
use lons_os.Heap.{header_size, heap_min_split}
use lons_os.Heap.Chain.{Block, block, after}

-- A block that is taken for `n` bytes, and the free rest if it is worth keeping.
unfoldable pub carve : ℕ → Block → List Block → List Block
carve n b bs =
    if leb (b.size - n) (header_size + heap_min_split)
    then block b.size false ∷ bs
    else block n false ∷ block (b.size - n - header_size) true ∷ bs

-- A result for the blocks behind `b`, as one for the list with `b`.
abbrev pub keep : Block → Option (ℕ × List Block) → Option (ℕ × List Block)
keep b none = none
keep b (some (ptr, cs)) = some (ptr, b ∷ cs)

-- The first free block of at least `n` bytes, with the data address and the new list.
unfoldable pub first_fit : ℕ → ℕ → List Block → Option (ℕ × List Block)
first_fit n a [] = none
first_fit n a (b ∷ bs) =
    let later = first_fit n (after a b) bs in
    if b.free && leb n b.size then some (a + header_size, carve n b bs) else keep b later

-- A freed block takes in a free block behind it: the block, and those behind it.
unfoldable pub absorb_next : Block → List Block → Block × List Block
absorb_next b [] = (b, [])
absorb_next b (c ∷ ys) =
    if c.free then (block (b.size + header_size + c.size) b.free, ys) else (b, c ∷ ys)

-- ... and is taken in by a free block before it.
unfoldable pub absorb_prev : List Block → Block → List Block → List Block
absorb_prev [] b ys = b ∷ ys
absorb_prev (w ∷ []) b ys =
    if w.free then block (w.size + header_size + b.size) w.free ∷ ys else w ∷ b ∷ ys
absorb_prev (w ∷ v ∷ xs) b ys = w ∷ absorb_prev (v ∷ xs) b ys

-- The blocks after the one behind `xs` is freed.
unfoldable pub release : List Block → Block → List Block → List Block
release xs b ys =
    let joined = absorb_next (block b.size true) ys in absorb_prev xs joined.0 joined.1
