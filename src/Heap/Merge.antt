-- ===== src/Heap/Merge.antt =====
-- `coalesce` of kernel/heap.c: two neighbouring blocks become one, in the chain as in the list.
use lons_os.Base.{
  ℕ, ◌+◌, ◌^◌, ◌<◌, ◌==◌, ◌≡◌, ◌≢◌, refl, ap, sym, ◌∙◌, List, ◌∷◌, ◌⊎◌, if◌then◌else◌, arith,
  eq_false, ==_iff,
}
use lons_os.Machine.{u64}
use lons_os.Heap.{Header, Headers, header_size, merge, wiped}
use lons_os.Heap.Chain.{
  Block, block, header, after, link, link-cases, link-nonempty, Seg, Seg-at, SameBelow, relink,
}

-- Cell by cell: the high block, the low one, the one beyond, and the rest.
merge_at :
    (h : Headers) (low high : ℕ)
    → low ≢ high
    → (h high).next ≢ low
    → (h high).next ≢ high
    → (x : ℕ)
    → merge low high h x ≡ (
        if x == high
        then wiped
        else if x == low
        then record (h low) {
          size = u64 ((h low).size + header_size + (h high).size);
          next = (h high).next;
        }
        else if (h high).next == 0
        then h x
        else if x == (h high).next
        then record (h x) { prev = low }
        else h x)
unfolding merge
merge_at h low high apart beyond_low beyond_high x = ground arith

module _ (h : Headers) (p a : ℕ) (b c : Block) (bs : List Block)
    (s : Seg h p a (b ∷ c ∷ bs) 0) where
  abbrev high : ℕ
  high = after a b

  -- The block that the two become.
  abbrev both : Block
  both = block (b.size + header_size + c.size) b.free

  beyond_lem : (h high).next ≡ link (after high c) bs 0
  beyond_lem = ap (λ (r : Header). r.next) s.1.0

  module _ (pos : 0 < a) (small : after high c < 2 ^ 64) where
    cells :
        (x : ℕ)
        → merge a high h x ≡ (
            if x == high
            then wiped
            else if x == a
            then record (h a) {
              size = u64 ((h a).size + header_size + (h high).size);
              next = (h high).next;
            }
            else if (h high).next == 0
            then h x
            else if x == (h high).next
            then record (h x) { prev = a }
            else h x)
    cells =
        merge_at h a high (omega arith) (omega (arith, beyond_lem, link-cases (after high c) bs))
          (omega (arith, beyond_lem, link-cases (after high c) bs))

    end_lem : after high c ≡ after a both
    end_lem = omega arith

    low_cell : merge a high h a ≡ header both (link (after a both) bs 0) p
    low_cell =
        cells a
        ∙ rw (eq_false a high (omega arith), (==_iff a a).1 refl, s.0, s.1.0)
            (ground (arith, ap (λ (x : ℕ). link x bs 0) end_lem))

    elsewhere : (x : ℕ) → x ≢ high → x ≢ a → (h high).next ≢ x → merge a high h x ≡ h x
    elsewhere x ne_high ne_a ne_next = ground (arith, cells x)

    beyond :
        (x : ℕ)
        → (h high).next ≡ x
        → x ≡ after high c
        → merge a high h x ≡ record (h x) { prev = a }
    beyond x q e =
        cells x
        ∙ rw (
          eq_false x high (omega arith),
          eq_false x a (omega arith),
          eq_false (h high).next 0 (omega arith),
          (==_iff x (h high).next).1 (sym q),
        )

    far : ((h high).next ≡ 0) ⊎ (a < (h high).next)
    far = omega (arith, beyond_lem, link-cases (after high c) bs)

    before : (x : ℕ) → x < a → merge a high h x ≡ h x
    before x lt = ground (arith, cells x, far)

    pub merge-Seg : Seg (merge a high h) p a (both ∷ bs) 0 × SameBelow h (merge a high h) a
    merge-Seg = (
      (
        low_cell,
        Seg-at (merge a high h) a 0 bs end_lem (
            relink h (merge a high h) high a (after high c) bs 0 s.1.1
              (λ ne. beyond (after high c) (beyond_lem ∙ link-nonempty (after high c) bs ne) refl)
              (λ x lo hi.
                elsewhere x (omega arith) (omega arith)
                  (omega (arith, beyond_lem, link-cases (after high c) bs)))),
      ),
      λ x lt. before x lt,
    )
