-- ===== src/Heap/Release.antt =====
-- `kfree` of kernel/heap.c frees a block and does on the chain what the specification does on
-- the list.
use lons_os.Base.{
  ℕ, ◌+◌, ◌^◌, ◌<◌, ◌≡◌, ◌≢◌, refl, ap, sym, ◌∙◌, true, false, List, [], ◌∷◌, ◌++◌, if◌then◌else◌,
  arith, eq_false,
}
use lons_os.Machine.{write}
use lons_os.Heap.{
  Header, Headers, Heap, Run, ok, ◌>>=◌, heap_magic, header_size, coalesce_prev, coalesce, kfree,
  get_header,
}
use lons_os.Heap.Chain.{Block, block, after, span, span-append, Seg, IsHeap}
use lons_os.Heap.Spec.{absorb_next, release}
use lons_os.Heap.Merged.{Becomes, lift, and_then, free_step, whole, next_step, prev_any}

span-absorb_next : (b : Block) (ys : List Block) → span (whole (absorb_next b ys)) ≡ span (b ∷ ys)
unfolding absorb_next
span-absorb_next b [] = refl
span-absorb_next b (c ∷ ys) = ground arith

-- All that `kfree` does to the headers, once its checks have passed.
release_chain :
    (h : Headers) (a at : ℕ) (xs : List Block) (b : Block) (ys : List Block)
    → Seg h 0 a (xs ++ b ∷ ys) 0
    → at ≡ a + span xs
    → 0 < a
    → a + span (xs ++ b ∷ ys) < 2 ^ 64
    → Becomes h 0 a
        (xs ++ b ∷ ys)
        (release xs b ys)
        (ok (write h at (record (h at) { free = 1 })) >>= coalesce at)
unfolding coalesce release
release_chain h a at xs b ys s e pos small =
    and_then 0 a (xs ++ b ∷ ys) (xs ++ block b.size true ∷ ys) _ (coalesce at)
      (lift h 0 a at xs (b ∷ ys) (block b.size true ∷ ys) _ s e (λ q t. free_step h q at b ys t))
      (λ g s1.
        and_then 0 a (xs ++ block b.size true ∷ ys)
          (xs ++ whole (absorb_next (block b.size true) ys)) _ (coalesce_prev at)
          (lift g 0 a at xs (block b.size true ∷ ys) _ _ s1 e (λ q t.
            next_step g q at (block b.size true) ys t (omega (arith, e))
              (omega (arith, small, span-append xs (b ∷ ys)))))
          (λ g2 s2. prev_any g2 a at xs joined.0 joined.1 s2 e pos (
            omega (
              arith,
              span-append xs (b ∷ ys),
              span-append xs (whole joined),
              span-absorb_next (block b.size true) ys,
              small,
            ))))
  where
    joined : Block × List Block
    joined = absorb_next (block b.size true) ys

-- The header of a block in the chain.
cell_at :
    (h : Headers) (p a at : ℕ) (xs : List Block) (b : Block) (ys : List Block)
    → Seg h p a (xs ++ b ∷ ys) 0
    → at ≡ a + span xs
    → ((h at).magic ≡ heap_magic)
      × ((h at).free ≡ (if b.free then 1 else 0))
      × ((h at).size ≡ b.size)
cell_at h p a at [] b ys s e =
    let q : at ≡ a = omega (arith, e) in
    let cell = ap h q ∙ s.0 in
    (
      ap (λ (r : Header). r.magic) cell,
      ap (λ (r : Header). r.free) cell,
      ap (λ (r : Header). r.size) cell,
    )
cell_at h p a at (x ∷ xs) b ys s e = cell_at h a (after a x) at xs b ys s.1 (omega (arith, e))

-- `kfree` past its checks.
kfree_at :
    (k : Heap) (ptr at : ℕ)
    → ptr ≢ 0
    → get_header ptr ≡ at
    → (k.headers at).magic ≡ heap_magic
    → (k.headers at).free ≡ 0
    → kfree ptr k ≡ (
        ok (write k.headers at (record (k.headers at) { free = 1 })) >>= coalesce at >>= λ h.
        ok (record k { headers = h }))
unfolding kfree
kfree_at k ptr at ne e magic free = rw (eq_false ptr 0 ne, e, magic, free)

module _ (k : Heap) (xs : List Block) (b : Block) (ys : List Block)
    (v : IsHeap k (xs ++ b ∷ ys)) where
  abbrev pub place : ℕ
  place = k.heap_start + span xs

  pub end_lem : place + header_size + b.size + span ys < 2 ^ 64
  end_lem = omega (arith, v.filled, v.bounded, span-append xs (b ∷ ys))

  pub cell_lem :
      ((k.headers place).magic ≡ heap_magic)
      × ((k.headers place).free ≡ (if b.free then 1 else 0))
      × ((k.headers place).size ≡ b.size)
  cell_lem = cell_at k.headers 0 k.heap_start place xs b ys v.chain refl

  IsHeap-Becomes :
      (cs : List Block) (r : Run Headers)
      → Becomes k.headers 0 k.heap_start (xs ++ b ∷ ys) cs r
      → (h : Headers) × ((r >>= λ h. ok (record k { headers = h })) ≡ ok (record k { headers = h }))
        × IsHeap (record k { headers = h }) cs
  IsHeap-Becomes cs r (g, got, chain, below, same, sum) = (
    g,
    rw got,
    record {
      chain = chain;
      head = v.head ∙ sym same;
      filled = sum ∙ v.filled;
      start_pos = v.start_pos;
      bounded = v.bounded;
    },
  )

-- On a heap whose blocks are `xs`, a block `b` in use, and `ys`, `kfree` of the data address of
-- `b` ends without halting, and leaves a heap of the blocks that `release` gives: `b` is free and
-- is one with each neighbour that is free.
pub kfree_refines :
    (k : Heap) (ptr : ℕ) (xs : List Block) (b : Block) (ys : List Block)
    → IsHeap k (xs ++ b ∷ ys)
    → b.free ≡ false
    → ptr ≡ k.heap_start + span xs + header_size
    → (h : Headers) × (kfree ptr k ≡ ok (record k { headers = h }))
      × IsHeap (record k { headers = h }) (release xs b ys)
kfree_refines k ptr xs b ys v used e =
    rw
      (kfree_at k ptr (place k xs b ys v) (omega (arith, e)) (omega (arith, e, end_lem k xs b ys v))
        (cell_lem k xs b ys v).0 ((cell_lem k xs b ys v).1 ∙ rw used))
      (IsHeap-Becomes k xs b ys v (release xs b ys) _ (
        release_chain k.headers k.heap_start (place k xs b ys v) xs b ys v.chain refl v.start_pos
          (omega (arith, v.filled, v.bounded))))
