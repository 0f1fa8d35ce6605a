-- ===== src/Heap/Usage.antt =====
-- The blocks in use: where they are, that they do not meet, and what allocation and release do
-- to them.
use lons_os.Base.{
  ℕ, ◌+◌, ◌-◌, ◌≤◌, ◌≡◌, ◌⊎◌, refl, subst, sym, true, false, ◌&&◌, List, [], ◌∷◌, inl, inr, arith,
  leb, if_elim, Option, none, some,
}
use lons_os.Heap.{header_size}
use lons_os.Heap.Chain.{Block, block, after, span}
use lons_os.Heap.Spec.{carve, keep, first_fit}

-- Among the blocks from `a` on, one in use has its `n` data bytes at `ptr`.
abbrev pub InUse : ℕ → List Block → ℕ → ℕ → Type 0
InUse a [] ptr n = ⊥
InUse a (b ∷ bs) ptr n =
    ((b.free ≡ false) × (ptr ≡ a + header_size) × (n ≡ b.size)) ⊎ InUse (after a b) bs ptr n

-- A block in use lies inside the bytes of the list.
pub InUse-bounds :
    (a : ℕ) (bs : List Block) (ptr n : ℕ)
    → InUse a bs ptr n
    → (a + header_size ≤ ptr) × (ptr + n ≤ a + span bs)
InUse-bounds a [] ptr n u = absurd u
InUse-bounds a (b ∷ bs) ptr n (inl here) = omega arith
InUse-bounds a (b ∷ bs) ptr n (inr later) = omega (arith, InUse-bounds (after a b) bs ptr n later)

-- Two blocks in use are the same, or the bytes of one lie before the header of the other.
pub InUse-apart :
    (a : ℕ) (bs : List Block) (p m q n : ℕ)
    → InUse a bs p m
    → InUse a bs q n
    → ((p ≡ q) × (m ≡ n)) ⊎ (p + m + header_size ≤ q) ⊎ (q + n + header_size ≤ p)
InUse-apart a [] p m q n u w = absurd u
InUse-apart a (b ∷ bs) p m q n (inl u) (inl w) = inl (omega arith)
InUse-apart a (b ∷ bs) p m q n (inl u) (inr w) =
    inr (inl (omega (arith, u.1, u.2, InUse-bounds (after a b) bs q n w)))
InUse-apart a (b ∷ bs) p m q n (inr u) (inl w) =
    inr (inr (omega (arith, w.1, w.2, InUse-bounds (after a b) bs p m u)))
InUse-apart a (b ∷ bs) p m q n (inr u) (inr w) = InUse-apart (after a b) bs p m q n u w

-- After an allocation of `n` bytes at `ptr`: the new block is large enough and was not in use, and
-- the blocks in use are the old ones, where they were, and the new one.
pub record Allotted (a : ℕ) (bs : List Block) (n ptr : ℕ) (cs : List Block) : Type 0 where
  pub size : ℕ
  pub enough : n ≤ size
  pub granted : InUse a cs ptr size
  pub fresh : (m : ℕ) → InUse a bs ptr m → ⊥
  pub kept : (q m : ℕ) → InUse a bs q m → InUse a cs q m
  pub no_other : (q m : ℕ) → InUse a cs q m → InUse a bs q m ⊎ ((q ≡ ptr) × (m ≡ size))

abbrev Allots : ℕ → List Block → ℕ → Option (ℕ × List Block) → Type 0
Allots a bs n none = Unit
Allots a bs n (some (ptr, cs)) = Allotted a bs n ptr cs × (a + header_size ≤ ptr)

Allots-keep :
    (a n : ℕ) (b : Block) (bs : List Block) (o : Option (ℕ × List Block))
    → Allots (after a b) bs n o
    → Allots a (b ∷ bs) n (keep b o)
Allots-keep a n b bs none t = tt
Allots-keep a n b bs (some (ptr, cs)) (t, far) = (
  record {
    size = t.size;
    enough = t.enough;
    granted = inr t.granted;
    fresh = fresh;
    kept = kept;
    no_other = other;
  },
  omega (arith, far),
)
  where
    fresh : (m : ℕ) → InUse a (b ∷ bs) ptr m → ⊥
    fresh m (inl here) = omega (arith, here.1, far)
    fresh m (inr later) = t.fresh m later

    kept : (q m : ℕ) → InUse a (b ∷ bs) q m → InUse a (b ∷ cs) q m
    kept q m (inl here) = inl here
    kept q m (inr later) = inr (t.kept q m later)

    grow :
        (q m : ℕ)
        → InUse (after a b) bs q m ⊎ ((q ≡ ptr) × (m ≡ t.size))
        → InUse a (b ∷ bs) q m ⊎ ((q ≡ ptr) × (m ≡ t.size))
    grow q m (inl old) = inl (inr old)
    grow q m (inr new) = inr new

    other : (q m : ℕ) → InUse a (b ∷ cs) q m → InUse a (b ∷ bs) q m ⊎ ((q ≡ ptr) × (m ≡ t.size))
    other q m (inl here) = inl (inl here)
    other q m (inr later) = grow q m (t.no_other q m later)

Allots-carve :
    (a n : ℕ) (b : Block) (bs : List Block)
    → b.free ≡ true
    → n ≤ b.size
    → Allotted a (b ∷ bs) n (a + header_size) (carve n b bs)
unfolding carve
Allots-carve a n b bs free fits =
    if_elim (Allotted a (b ∷ bs) n (a + header_size)) (leb (b.size - n) 93) _ _
      (λ whole. record {
        size = b.size;
        enough = fits;
        granted = inl (refl, refl, refl);
        fresh = fresh;
        kept = kept_whole;
        no_other = other_whole;
      })
      (λ split. record {
        size = n;
        enough = omega arith;
        granted = inl (refl, refl, refl);
        fresh = fresh;
        kept = kept_split (ground arith);
        no_other = other_split (ground arith);
      })
  where
    fresh : (m : ℕ) → InUse a (b ∷ bs) (a + header_size) m → ⊥
    fresh m (inl here) = cc
    fresh m (inr later) = omega (arith, InUse-bounds (after a b) bs (a + header_size) m later)

    kept_whole : (q m : ℕ) → InUse a (b ∷ bs) q m → InUse a (block b.size false ∷ bs) q m
    kept_whole q m (inl here) = cc
    kept_whole q m (inr later) = inr later

    other_whole :
        (q m : ℕ)
        → InUse a (block b.size false ∷ bs) q m
        → InUse a (b ∷ bs) q m ⊎ ((q ≡ a + header_size) × (m ≡ b.size))
    other_whole q m (inl here) = inr (here.1, here.2)
    other_whole q m (inr later) = inl (inr later)

    kept_split :
        after a b ≡ after (after a (block n false)) (block (b.size - n - header_size) true)
        → (q m : ℕ) → InUse a (b ∷ bs) q m
        → InUse a (block n false ∷ block (b.size - n - header_size) true ∷ bs) q m
    kept_split e q m (inl here) = cc
    kept_split e q m (inr later) = inr (inr (subst (λ (x : ℕ). InUse x bs q m) e later))

    other_split :
        after a b ≡ after (after a (block n false)) (block (b.size - n - header_size) true)
        → (q m : ℕ) → InUse a (block n false ∷ block (b.size - n - header_size) true ∷ bs) q m
        → InUse a (b ∷ bs) q m ⊎ ((q ≡ a + header_size) × (m ≡ n))
    other_split e q m (inl here) = inr (here.1, here.2)
    other_split e q m (inr (inl rest)) = cc
    other_split e q m (inr (inr later)) =
        inl (inr (subst (λ (x : ℕ). InUse x bs q m) (sym e) later))

first_fit-Allots : (n a : ℕ) (bs : List Block) → Allots a bs n (first_fit n a bs)
unfolding first_fit
first_fit-Allots n a [] = tt
first_fit-Allots n a (b ∷ bs) =
    if_elim (Allots a (b ∷ bs) n) (b.free && leb n b.size) _ _
      (λ e. (Allots-carve a n b bs (ground arith) (ground arith), omega arith))
      (λ e. Allots-keep a n b bs (first_fit n (after a b) bs) (first_fit-Allots n (after a b) bs))

pub first_fit-Allotted :
    (n a : ℕ) (bs : List Block) (ptr : ℕ) (cs : List Block)
    → first_fit n a bs ≡ some (ptr, cs)
    → Allotted a bs n ptr cs
first_fit-Allotted n a bs ptr cs e = (subst (Allots a bs n) e (first_fit-Allots n a bs)).0
