-- ===== src/Heap/Held.antt =====
-- Where a block in use stands among the blocks of the heap, and that a release keeps the others.
use lons_os.Base.{
  ℕ, ◌+◌, ◌≡◌, ◌≢◌, refl, ap, subst, true, false, List, [], ◌∷◌, ◌++◌, inl, inr, arith, if_elim,
}
use lons_os.Heap.{header_size}
use lons_os.Heap.Chain.{Block, block, after, span}
use lons_os.Heap.Spec.{absorb_next, absorb_prev, release}
use lons_os.Heap.Usage.{InUse}

-- The blocks before it, the block, and those behind it.
pub record Stands (a : ℕ) (bs : List Block) (ptr n : ℕ) : Type 0 where
  pub before : List Block
  pub it : Block
  pub behind : List Block
  pub whole : bs ≡ before ++ it ∷ behind
  pub used : it.free ≡ false
  pub place : ptr ≡ a + span before + header_size

pub InUse-Stands : (a : ℕ) (bs : List Block) (ptr n : ℕ) → InUse a bs ptr n → Stands a bs ptr n
InUse-Stands a [] ptr n u = absurd u
InUse-Stands a (b ∷ bs) ptr n (inl (used, place, size)) = record {
  before = [];
  it = b;
  behind = bs;
  whole = refl;
  used = used;
  place = omega arith;
}
InUse-Stands a (b ∷ bs) ptr n (inr u) =
    let r = InUse-Stands (after a b) bs ptr n u in
    record {
      before = b ∷ r.before;
      it = r.it;
      behind = r.behind;
      whole = ap (λ l. b ∷ l) r.whole;
      used = r.used;
      place = omega (arith, r.place);
    }

InUse-at : {a b : ℕ} (bs : List Block) (q n : ℕ) → a ≡ b → InUse a bs q n → InUse b bs q n
InUse-at bs q n e u = subst (λ x. InUse x bs q n) e u

-- The block becomes free.
freed-InUse :
    (a : ℕ) (xs : List Block) (b : Block) (ys : List Block) (q n : ℕ)
    → q ≢ a + span xs + header_size
    → InUse a (xs ++ b ∷ ys) q n
    → InUse a (xs ++ block b.size true ∷ ys) q n
freed-InUse a [] b ys q n ne (inl here) = absurd (omega arith)
freed-InUse a [] b ys q n ne (inr later) = inr later
freed-InUse a (x ∷ xs) b ys q n ne (inl here) = inl here
freed-InUse a (x ∷ xs) b ys q n ne (inr later) =
    inr (freed-InUse (after a x) xs b ys q n (omega arith) later)

absorb_next-InUse :
    (a : ℕ) (b : Block) (ys : List Block) (q n : ℕ)
    → b.free ≡ true
    → InUse a (b ∷ ys) q n
    → InUse a ((absorb_next b ys).0 ∷ (absorb_next b ys).1) q n
unfolding absorb_next
absorb_next-InUse a b [] q n free u = u
absorb_next-InUse a b (c ∷ ys) q n free u =
    if_elim (λ (r : Block × List Block). InUse a (r.0 ∷ r.1) q n) c.free
      (block (b.size + header_size + c.size) b.free, ys) (b, c ∷ ys) (λ e. joined e u) (λ e. u)
  where
    joined :
        c.free ≡ true
        → InUse a (b ∷ c ∷ ys) q n
        → InUse a (block (b.size + header_size + c.size) b.free ∷ ys) q n
    joined e (inl here) = absurd (ground (arith, here.0, free))
    joined e (inr (inl here)) = absurd (ground (arith, here.0, e))
    joined e (inr (inr later)) = inr (InUse-at ys q n (omega arith) later)

-- `c` is a free block or one that has taken in a free block behind `b`.
absorb_prev-InUse :
    (a : ℕ) (xs : List Block) (b : Block) (ys : List Block) (q n : ℕ)
    → b.free ≡ true
    → InUse a (xs ++ b ∷ ys) q n
    → InUse a (absorb_prev xs b ys) q n
unfolding absorb_prev
absorb_prev-InUse a [] b ys q n free u = u
absorb_prev-InUse a (w ∷ []) b ys q n free u =
    if_elim (λ l. InUse a l q n) w.free (block (w.size + header_size + b.size) w.free ∷ ys)
      (w ∷ b ∷ ys) (λ e. joined e u) (λ e. u)
  where
    joined :
        w.free ≡ true
        → InUse a (w ∷ b ∷ ys) q n
        → InUse a (block (w.size + header_size + b.size) w.free ∷ ys) q n
    joined e (inl here) = absurd (ground (arith, here.0, e))
    joined e (inr (inl here)) = absurd (ground (arith, here.0, free))
    joined e (inr (inr later)) = inr (InUse-at ys q n (omega arith) later)
absorb_prev-InUse a (w ∷ v ∷ xs) b ys q n free (inl here) = inl here
absorb_prev-InUse a (w ∷ v ∷ xs) b ys q n free (inr later) =
    inr (absorb_prev-InUse (after a w) (v ∷ xs) b ys q n free later)

absorb_next-free : (b : Block) (ys : List Block) → (absorb_next b ys).0.free ≡ b.free
unfolding absorb_next
absorb_next-free b [] = refl
absorb_next-free b (c ∷ ys) =
    if_elim (λ (r : Block × List Block). r.0.free ≡ b.free) c.free
      (block (b.size + header_size + c.size) b.free, ys) (b, c ∷ ys) (λ e. refl) (λ e. refl)

behind-InUse :
    (a : ℕ) (xs : List Block) (b c : Block) (ys zs : List Block) (q n : ℕ)
    → ((d : ℕ) → InUse d (b ∷ ys) q n → InUse d (c ∷ zs) q n)
    → InUse a (xs ++ b ∷ ys) q n
    → InUse a (xs ++ c ∷ zs) q n
behind-InUse a [] b c ys zs q n step u = step a u
behind-InUse a (x ∷ xs) b c ys zs q n step (inl here) = inl here
behind-InUse a (x ∷ xs) b c ys zs q n step (inr later) =
    inr (behind-InUse (after a x) xs b c ys zs q n step later)

-- A block in use other than the one released is in use afterwards, where it was.
pub release-InUse :
    (a : ℕ) (xs : List Block) (b : Block) (ys : List Block) (q n : ℕ)
    → q ≢ a + span xs + header_size
    → InUse a (xs ++ b ∷ ys) q n
    → InUse a (release xs b ys) q n
unfolding release
release-InUse a xs b ys q n ne u =
    let freed = block b.size true in
    let joined = absorb_next freed ys in
    absorb_prev-InUse a xs joined.0 joined.1 q n (absorb_next-free freed ys) (
      behind-InUse a xs freed joined.0 ys joined.1 q n (λ d. absorb_next-InUse d freed ys q n refl)
        (freed-InUse a xs b ys q n ne u))
