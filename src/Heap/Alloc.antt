-- ===== src/Heap/Alloc.antt =====
-- `kmalloc` of kernel/heap.c does on the chain what `first_fit` does on the list of blocks.
use lons_os.Base.{
  ℕ, zero, suc, ◌+◌, ◌-◌, ◌^◌, ◌≤◌, ◌<◌, ◌≡◌, ◌≢◌, refl, ap, subst, sym, ◌∙◌, ◌&&◌, List, [], ◌∷◌,
  inl, inr, if◌then◌else◌, arith, length, leb, Bool-cases, Option, none, some, eq_false,
}
use lons_os.Heap.{
  Headers, Heap, Run, ok, ◌>>=◌, header_size, take_block, search_fit, kmalloc, data_ptr, align_size,
  rounds,
}
use lons_os.Heap.Chain.{Block, header, after, span, link, Seg, SameBelow, IsHeap, length-le-span}
use lons_os.Heap.Spec.{carve, keep, first_fit}
use lons_os.Heap.Split.{take_block-carve}

span-carve :
    (n : ℕ) (b : Block) (bs : List Block) → n ≤ b.size → span (carve n b bs) ≡ span (b ∷ bs)
unfolding carve
span-carve n b bs fits = ground arith

-- What a search that the specification answers by `o` returns on a chain of `bs` from `a`.
abbrev Finds : Option (ℕ × List Block) → Headers → ℕ → ℕ → List Block → Run (ℕ × Headers) → Type 0
Finds none h p a bs r = r ≡ ok (0, h)
Finds (some (ptr, cs)) h p a bs r =
    (g : Headers) × (r ≡ ok (ptr, g))
    × Seg g p a cs 0
    × SameBelow h g a
    × (link a cs 0 ≡ link a bs 0)
    × (span cs ≡ span bs)

Finds-keep :
    (o : Option (ℕ × List Block)) (h : Headers) (r : Run (ℕ × Headers)) (p a : ℕ) (b : Block)
    (bs : List Block)
    → h a ≡ header b (link (after a b) bs 0) p
    → Finds o h a (after a b) bs r
    → Finds (keep b o) h p a (b ∷ bs) r
Finds-keep none h r p a b bs cell f = f
Finds-keep (some (ptr, cs)) h r p a b bs cell (g, got, chain, below, same, sum) = (
  g,
  got,
  (below a (omega arith) ∙ cell ∙ ap (λ n. header b n p) (sym same), chain),
  λ x lt. below x (omega arith),
  refl,
  omega (arith, sum),
)

link-carve : (n a : ℕ) (b : Block) (bs : List Block) → link a (carve n b bs) 0 ≡ a
unfolding carve
link-carve n a b bs = elim (Bool-cases (leb (b.size - n) 93)) [ inl e ↦ rw e | inr e ↦ rw e ]

-- At a block, the search stops or goes on to the next.
search_fit_step :
    (fuel p a n : ℕ) (h : Headers) (b : Block) (next : ℕ)
    → h a ≡ header b next p
    → 0 < a
    → search_fit (suc fuel) a n h ≡ (
        if b.free && leb n b.size
        then ok (data_ptr a, take_block a n h)
        else search_fit fuel next n h)
unfolding search_fit
search_fit_step fuel p a n h b next cell pos =
    rw (eq_false a 0 (omega arith), cell) (elim (Bool-cases b.free) [ inl e ↦ rw e | inr e ↦ rw e ])

search_fit-Finds :
    (fuel p a n : ℕ) (h : Headers) (bs : List Block)
    → Seg h p a bs 0
    → 0 < a
    → a + span bs < 2 ^ 64
    → length bs < fuel
    → Finds (first_fit n a bs) h p a bs (search_fit fuel (link a bs 0) n h)
unfolding first_fit
search_fit-Finds zero p a n h bs s pos small room = elim room [ ]
search_fit-Finds (suc fuel) p a n h [] s pos small room = unfold search_fit in refl
search_fit-Finds (suc fuel) p a n h (b ∷ bs) s pos small room =
    rw (search_fit_step fuel p a n h b (link (after a b) bs 0) s.0 pos)
      (elim (Bool-cases (b.free && leb n b.size)) [
        | inl fits ↦ rw fits (found (ground arith))
        | inr skip ↦ rw skip (
            Finds-keep (first_fit n (after a b) bs) h _ p a b bs s.0 (
              search_fit-Finds fuel a (after a b) n h bs s.1 (omega arith) (omega arith)
                (omega arith)))
      ])
  where
    found :
        n ≤ b.size
        → Finds
            (some (a + header_size, carve n b bs))
            h
            p
            a
            (b ∷ bs)
            (ok (data_ptr a, take_block a n h))
    found fits =
        let (chain, below) = take_block-carve h p a n b bs s pos fits (omega arith) in
        (
          take_block a n h,
          ap (λ (q : ℕ). ok (q, take_block a n h)) (omega arith),
          chain,
          below,
          link-carve n a b bs,
          span-carve n b bs fits,
        )

-- What `kmalloc` of a size other than 0 returns, and how it leaves a heap of `bs`.
abbrev pub Mallocs : Option (ℕ × List Block) → Heap → List Block → Run (ℕ × Heap) → Type 0
Mallocs none k bs r = r ≡ ok (0, k)
Mallocs (some (ptr, cs)) k bs r =
    (h : Headers) × (r ≡ ok (ptr, record k { headers = h })) × IsHeap (record k { headers = h }) cs

Mallocs-Finds :
    (o : Option (ℕ × List Block)) (k : Heap) (bs : List Block) (r : Run (ℕ × Headers))
    → IsHeap k bs
    → Finds o k.headers 0 k.heap_start bs r
    → Mallocs o k bs (r >>= λ (ptr, h). ok (ptr, record k { headers = h }))
Mallocs-Finds none k bs r v found = rw found
Mallocs-Finds (some (ptr, cs)) k bs r v (h, got, chain, below, same, sum) = (
  h,
  rw got,
  record {
    chain = chain;
    head = v.head ∙ sym same;
    filled = sum ∙ v.filled;
    start_pos = v.start_pos;
    bounded = v.bounded;
  },
)

-- On a heap of blocks `bs`, `kmalloc` of a size other than 0 runs to its end without halting, and
-- answers as `first_fit` does for the aligned size: NULL and the same heap if no free block is
-- large enough, or else the data address of the first one, and a heap of the blocks that
-- `first_fit` leaves.
pub kmalloc_refines :
    (k : Heap) (bs : List Block) (size : ℕ)
    → IsHeap k bs
    → size ≢ 0
    → Mallocs (first_fit (align_size size) k.heap_start bs) k bs (kmalloc size k)
unfolding kmalloc
kmalloc_refines k bs size v ne = rw (eq_false size 0 ne) (
    Mallocs-Finds (first_fit (align_size size) k.heap_start bs) k bs _ v (
      subst
        (λ x.
          Finds answer k.headers 0 k.heap_start bs
            (search_fit (rounds k) x (align_size size) k.headers))
        (sym v.head)
        (search_fit-Finds (rounds k) 0 k.heap_start (align_size size) k.headers bs v.chain
          v.start_pos (omega (arith, v.filled, v.bounded))
          (omega (arith, v.filled, length-le-span bs)))))
  where
    answer : Option (ℕ × List Block)
    answer = first_fit (align_size size) k.heap_start bs
