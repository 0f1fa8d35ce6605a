-- ===== src/Heap/Split.antt =====
-- `split_block` and what `kmalloc` does with a block that fits: the chain afterwards.
use lons_os.Base.{
  ℕ, ◌+◌, ◌-◌, ◌^◌, ◌≤◌, ◌<◌, ◌==◌, ◌≡◌, ◌≢◌, refl, ap, sym, ◌∙◌, true, false, List, ◌∷◌, inl, inr,
  if◌then◌else◌, arith, leb, Bool-cases, eq_false, ==_iff,
}
use lons_os.Machine.{u64, sub64}
use lons_os.Heap.{Header, Headers, heap_magic, header_size, split_block, take_block, data_ptr}
use lons_os.Heap.Chain.{
  relink, link-cases, link-nonempty, Block, block, header, after, link, Seg, SameBelow, frame,
  Seg-at,
}
use lons_os.Heap.Spec.{carve}

-- Cell by cell, where the block is used whole ...
take_whole_at :
    (h : Headers) (a n : ℕ)
    → leb (sub64 (h a).size n) 93 ≡ true
    → (x : ℕ) → take_block a n h x ≡ (if x == a then record (h a) { free = 0 } else h x)
unfolding take_block split_block
take_whole_at h a n whole x = rw whole

-- ... and where it is split: the block, the new one, the one behind, and the rest.
take_split_at :
    (h : Headers) (a n new : ℕ)
    → leb (sub64 (h a).size n) 93 ≡ false
    → new ≡ u64 (data_ptr a + n)
    → new ≢ a
    → (h a).next ≢ a
    → (h a).next ≢ new
    → (x : ℕ)
    → take_block a n h x ≡ (
        if x == a
        then record (h a) { size = n; free = 0; next = new }
        else if x == new
        then record {
          size = sub64 (h a).size n - header_size;
          free = 1;
          magic = heap_magic;
          next = (h a).next;
          prev = a;
        }
        else if (h a).next == 0
        then h x
        else if x == (h a).next
        then record (h x) { prev = new }
        else h x)
unfolding take_block split_block
take_split_at h a n new split at ne next_a next_new x = rw (split, ← at) (ground arith)

module _ (h : Headers) (p a n : ℕ) (b : Block) (bs : List Block) (s : Seg h p a (b ∷ bs) 0) where
  -- A block that is used whole.
  take_whole :
      leb (sub64 (h a).size n) 93 ≡ true
      → Seg (take_block a n h) p a (block b.size false ∷ bs) 0 × SameBelow h (take_block a n h) a
  take_whole whole = (
    (
      ground (arith, take_whole_at h a n whole a) ∙ ap (λ (r : Header). record r { free = 0 }) s.0,
      frame h (take_block a n h) a (after a b) bs 0 s.1
          (λ x lo hi. ground (arith, take_whole_at h a n whole x)),
    ),
    λ x lt. ground (arith, take_whole_at h a n whole x),
  )

module _ (h : Headers) (p a n : ℕ) (b : Block) (bs : List Block) (s : Seg h p a (b ∷ bs) 0) where
  next_lem : (h a).next ≡ link (after a b) bs 0
  next_lem = ap (λ (r : Header). r.next) s.0

  size_lem : (h a).size ≡ b.size
  size_lem = ap (λ (r : Header). r.size) s.0

  module _ (pos : 0 < a) (fits : n ≤ b.size) (small : after a b < 2 ^ 64)
      (split : leb (b.size - n) 93 ≡ false) where
    next_apart : ((h a).next ≢ a) × ((h a).next ≢ a + header_size + n)
    next_apart = ground (arith, link-cases (after a b) bs, next_lem)

    cells :
        (x : ℕ)
        → take_block a n h x ≡ (
            if x == a
            then record (h a) { size = n; free = 0; next = a + header_size + n }
            else if x == a + header_size + n
            then record {
              size = sub64 (h a).size n - header_size;
              free = 1;
              magic = heap_magic;
              next = (h a).next;
              prev = a;
            }
            else if (h a).next == 0
            then h x
            else if x == (h a).next
            then record (h x) { prev = a + header_size + n }
            else h x)
    cells =
        take_split_at h a n (a + header_size + n) (ground (arith, size_lem)) (omega arith)
          (omega arith) next_apart.0 next_apart.1

    -- The new block lies behind the first, and ends where the old one did.
    abbrev new_block : Block
    new_block = block (b.size - n - header_size) true

    end_lem : after a b ≡ after (a + header_size + n) new_block
    end_lem = ground arith

    new_cell :
        take_block a n h (a + header_size + n)
        ≡ header new_block (link (after (a + header_size + n) new_block) bs 0) a
    new_cell = ground (
      arith,
      cells (a + header_size + n),
      size_lem,
      next_lem,
      ap (λ (x : ℕ). link x bs 0) end_lem,
    )

    next_ne : (x : ℕ) → after a b < x → (h a).next ≢ x
    next_ne x lt = omega (arith, next_lem, link-cases (after a b) bs)

    away : (x : ℕ) → after a b < x → take_block a n h x ≡ h x
    away x lt = ground (arith, cells x, next_ne x lt)

    behind :
        (x : ℕ)
        → (h a).next ≡ x
        → x ≡ after a b
        → take_block a n h x ≡ record (h x) { prev = a + header_size + n }
    behind x q e =
        cells x
        ∙ rw (
          eq_false x a (omega arith),
          eq_false x (a + header_size + n) (ground arith),
          eq_false (h a).next 0 (omega arith),
          (==_iff x (h a).next).1 (sym q),
        )

    rest_chain :
        Seg (take_block a n h) (a + header_size + n) (after (a + header_size + n) new_block) bs 0
    rest_chain = Seg-at (take_block a n h) (a + header_size + n) 0 bs end_lem (
        relink h (take_block a n h) a (a + header_size + n) (after a b) bs 0 s.1
          (λ ne. behind (after a b) (next_lem ∙ link-nonempty (after a b) bs ne) refl)
          (λ x lo hi. away x lo))

    take_split :
        Seg (take_block a n h) p a (block n false ∷ new_block ∷ bs) 0
        × SameBelow h (take_block a n h) a
    take_split = (
      (
        ground (arith, cells a)
            ∙ ap (λ (r : Header). record r { size = n; free = 0; next = a + header_size + n }) s.0,
        (new_cell, rest_chain),
      ),
      λ x lt. ground (arith, cells x, next_lem, link-cases (after a b) bs),
    )

-- What `kmalloc` does at a block that fits is the specification's `carve`.
pub take_block-carve :
    (h : Headers) (p a n : ℕ) (b : Block) (bs : List Block)
    → Seg h p a (b ∷ bs) 0
    → 0 < a
    → n ≤ b.size
    → after a b < 2 ^ 64
    → Seg (take_block a n h) p a (carve n b bs) 0 × SameBelow h (take_block a n h) a
unfolding carve
take_block-carve h p a n b bs s pos fits small = elim (Bool-cases (leb (b.size - n) 93)) [
  | inl whole ↦ rw whole (take_whole h p a n b bs s (ground (arith, size_lem h p a n b bs s)))
  | inr split ↦ rw split (take_split h p a n b bs s pos fits small split)
]
