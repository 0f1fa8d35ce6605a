-- ===== src/Heap/Compact.antt =====
-- No two neighbouring blocks of the heap are free: what coalescing is for.
use lons_os.Base.{
  ℕ, ◌+◌, ◌-◌, ◌≡◌, refl, subst, Bool, true, false, ◌&&◌, List, [], ◌∷◌, ◌++◌, inl, inr, arith, leb,
  Bool-cases, if_elim, Option, none, some,
}
use lons_os.Heap.{header_size}
use lons_os.Heap.Chain.{Block, block, after}
use lons_os.Heap.Spec.{carve, keep, first_fit, absorb_next, absorb_prev, release}

abbrev pub free_head : List Block → Bool
free_head [] = false
free_head (b ∷ bs) = b.free

abbrev pub Compact : List Block → Type 0
Compact [] = Unit
Compact (b ∷ bs) = ((b.free && free_head bs) ≡ false) × Compact bs

-- A result that is compact, and whose first block is free only if the old one was.
abbrev Tidy : List Block → Option (ℕ × List Block) → Type 0
Tidy bs none = Unit
Tidy bs (some (ptr, cs)) = Compact cs × ((free_head bs ≡ false) → free_head cs ≡ false)

Tidy-keep :
    (b : Block) (bs : List Block) (o : Option (ℕ × List Block))
    → Compact (b ∷ bs)
    → Tidy bs o
    → Tidy (b ∷ bs) (keep b o)
Tidy-keep b bs none c t = tt
Tidy-keep b bs (some (ptr, cs)) c t = ((ground (arith, t.1), t.0), λ e. e)

Tidy-carve :
    (n a : ℕ) (b : Block) (bs : List Block)
    → Compact (b ∷ bs)
    → b.free ≡ true
    → Tidy (b ∷ bs) (some (a, carve n b bs))
unfolding carve
Tidy-carve n a b bs c free = elim (Bool-cases (leb (b.size - n) 93)) [
  | inl whole ↦ rw whole ((refl, c.1), λ e. refl)
  | inr split ↦ rw split ((refl, (ground arith, c.1)), λ e. refl)
]

pub first_fit-Tidy : (n a : ℕ) (bs : List Block) → Compact bs → Tidy bs (first_fit n a bs)
unfolding first_fit
first_fit-Tidy n a [] c = tt
first_fit-Tidy n a (b ∷ bs) c =
    if_elim (Tidy (b ∷ bs)) (b.free && leb n b.size) _ _
      (λ e. Tidy-carve n (a + header_size) b bs c (ground arith))
      (λ e. Tidy-keep b bs (first_fit n (after a b) bs) c (first_fit-Tidy n (after a b) bs c.1))

-- The specification's allocation keeps a heap compact.
pub first_fit-Compact :
    (n a : ℕ) (bs : List Block) (ptr : ℕ) (cs : List Block)
    → Compact bs
    → first_fit n a bs ≡ some (ptr, cs)
    → Compact cs
first_fit-Compact n a bs ptr cs c e = (subst (Tidy bs) e (first_fit-Tidy n a bs c)).0

absorb_next-Compact :
    (b : Block) (ys : List Block)
    → Compact ys
    → (Compact ((absorb_next b ys).0 ∷ (absorb_next b ys).1)) × ((absorb_next b ys).0.free ≡ b.free)
unfolding absorb_next
absorb_next-Compact b [] c = ((ground arith, tt), refl)
absorb_next-Compact b (d ∷ ys) c =
    if_elim {A = Block × List Block} (λ p. Compact (p.0 ∷ p.1) × (p.0.free ≡ b.free)) d.free _ _
      (λ free. ((ground arith, c.1), refl)) (λ used. ((ground arith, c), refl))

free_head-absorb_prev :
    (v : Block) (xs : List Block) (b : Block) (ys : List Block)
    → free_head (absorb_prev (v ∷ xs) b ys) ≡ v.free
unfolding absorb_prev
free_head-absorb_prev v [] b ys =
    if_elim (λ l. free_head l ≡ v.free) v.free _ _ (λ free. refl) (λ used. refl)
free_head-absorb_prev v (x ∷ xs) b ys = refl

absorb_prev-Compact :
    (xs : List Block) (b : Block) (ys : List Block)
    → Compact xs
    → Compact (b ∷ ys)
    → b.free ≡ true
    → Compact (absorb_prev xs b ys)
unfolding absorb_prev
absorb_prev-Compact [] b ys c d f = d
absorb_prev-Compact (w ∷ []) b ys c d f =
    if_elim Compact w.free _ _ (λ free. (ground arith, d.1)) (λ used. (ground arith, d))
absorb_prev-Compact (w ∷ v ∷ xs) b ys c d f =
    (ground (arith, free_head-absorb_prev v xs b ys), absorb_prev-Compact (v ∷ xs) b ys c.1 d f)

Compact-front : (xs ys : List Block) → Compact (xs ++ ys) → Compact xs
Compact-front [] ys c = tt
Compact-front (x ∷ []) ys c = (ground arith, tt)
Compact-front (x ∷ v ∷ xs) ys c = (c.0, Compact-front (v ∷ xs) ys c.1)

Compact-back : (xs ys : List Block) → Compact (xs ++ ys) → Compact ys
Compact-back [] ys c = c
Compact-back (x ∷ xs) ys c = Compact-back xs ys c.1

-- The specification's release keeps a heap compact.
pub release-Compact :
    (xs : List Block) (b : Block) (ys : List Block)
    → Compact (xs ++ b ∷ ys)
    → Compact (release xs b ys)
unfolding release
release-Compact xs b ys c =
    let joined = absorb_next-Compact (block b.size true) ys (Compact-back xs (b ∷ ys) c).1 in
    absorb_prev-Compact xs _ _ (Compact-front xs (b ∷ ys) c) joined.0 joined.1
