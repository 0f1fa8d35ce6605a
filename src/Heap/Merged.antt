-- ===== src/Heap/Merged.antt =====
-- What a step of `kfree` of kernel/heap.c makes of the list of headers, and that steps compose.
use lons_os.Base.{
  ℕ, ◌+◌, ◌^◌, ◌<◌, ◌≡◌, ◌≢◌, refl, ap, subst, sym, ◌∙◌, Bool, true, false, List, [], ◌∷◌, ◌++◌,
  inl, inr, if◌then◌else◌, arith, Bool-cases, eq_false, ==_iff,
}
use lons_os.Machine.{write}
use lons_os.Heap.{Header, Headers, Run, ok, ◌>>=◌, header_size, merge, coalesce_next, coalesce_prev}
use lons_os.Heap.Chain.{Block, block, header, after, span, link, Seg, Seg-at, SameBelow, frame}
use lons_os.Heap.Spec.{absorb_next, absorb_prev}
use lons_os.Heap.Merge.{merge-Seg}

-- A step that ends normally and turns the blocks `cs` from `a` on into `ds`, in the same bytes.
abbrev pub Becomes : Headers → ℕ → ℕ → List Block → List Block → Run Headers → Type 0
Becomes h p a cs ds r =
    (g : Headers) × (r ≡ ok g)
    × Seg g p a ds 0
    × SameBelow h g a
    × (link a ds 0 ≡ link a cs 0)
    × (span ds ≡ span cs)

-- A step on the blocks from `at` on is one on the blocks before them, too.
pub lift :
    (h : Headers) (p a at : ℕ) (xs cs ds : List Block) (r : Run Headers)
    → Seg h p a (xs ++ cs) 0
    → at ≡ a + span xs
    → ((q : ℕ) → Seg h q at cs 0 → Becomes h q at cs ds r)
    → Becomes h p a (xs ++ cs) (xs ++ ds) r
lift h p a at [] cs ds r s e step =
    let q : at ≡ a = omega (arith, e) in
    subst (λ (x : ℕ). Becomes h p x cs ds r) q (step p (Seg-at h p 0 cs (sym q) s))
lift h p a at (x ∷ xs) cs ds r s e step =
    let (g, got, chain, below, same, sum) =
      lift h a (after a x) at xs cs ds r s.1 (omega (arith, e)) step in
    (
      g,
      got,
      (below a (omega arith) ∙ s.0 ∙ ap (λ (n : ℕ). header x n p) (sym same), chain),
      λ y lt. below y (omega arith),
      refl,
      omega (arith, sum),
    )

-- Two steps in turn.
pub and_then :
    {h : Headers} (p a : ℕ) (cs ds es : List Block) {r : Run Headers} (f : Headers → Run Headers)
    → Becomes h p a cs ds r
    → ((g : Headers) → Seg g p a ds 0 → Becomes g p a ds es (f g))
    → Becomes h p a cs es (r >>= f)
and_then p a cs ds es f (g, got, chain, below, same, sum) next =
    let (g', got', chain', below', same', sum') = next g chain in
    (g', rw got got', chain', λ x lt. below' x lt ∙ below x lt, same' ∙ same, sum' ∙ sum)

stay : {h : Headers} (p a : ℕ) (cs : List Block) → Seg h p a cs 0 → Becomes h p a cs cs (ok h)
stay {h} p a cs s = (h, refl, s, λ x lt. refl, refl, refl)

-- `block->free = 1`
pub free_step :
    (h : Headers) (q at : ℕ) (b : Block) (ys : List Block)
    → Seg h q at (b ∷ ys) 0
    → Becomes h q at
        (b ∷ ys)
        (block b.size true ∷ ys)
        (ok (write h at (record (h at) { free = 1 })))
free_step h q at b ys s = (
  write h at (record (h at) { free = 1 }),
  refl,
  (
    rw ((==_iff at at).1 refl) (ap (λ (r : Header). record r { free = 1 }) s.0),
    frame h (write h at (record (h at) { free = 1 })) at (after at b) ys 0 s.1
        (λ x lo hi. ground arith),
  ),
  λ x lt. ground arith,
  refl,
  refl,
)

either :
    {h : Headers} (f : Bool) (p a : ℕ) (cs ds es : List Block) {r t : Run Headers}
    → Becomes h p a cs ds r
    → Becomes h p a cs es t
    → Becomes h p a cs (if f then ds else es) (if f then r else t)
either true p a cs ds es x y = x
either false p a cs ds es x y = y

abbrev pub whole : Block × List Block → List Block
whole p = p.0 ∷ p.1

whole-if :
    (f : Bool) (x y : Block × List Block)
    → whole (if f then x else y) ≡ (if f then whole x else whole y)
whole-if true x y = refl
whole-if false x y = refl

-- A merge of two neighbours, as a step.
merge_step :
    (h : Headers) (q at : ℕ) (b c : Block) (ys : List Block)
    → Seg h q at (b ∷ c ∷ ys) 0
    → 0 < at
    → at + span (b ∷ c ∷ ys) < 2 ^ 64
    → Becomes h q at
        (b ∷ c ∷ ys)
        (block (b.size + header_size + c.size) b.free ∷ ys)
        (ok (merge at (after at b) h))
merge_step h q at b c ys s pos small =
    let (chain, below) = merge-Seg h q at b c ys s pos (omega (arith, small)) in
    (merge at (after at b) h, refl, chain, below, refl, omega arith)

coalesce_next_at :
    (h : Headers) (at next : ℕ) (c : Block) (n : ℕ)
    → (h at).next ≡ next
    → next ≢ 0
    → h next ≡ header c n at
    → coalesce_next at h ≡ (if c.free then ok (merge at next h) else ok h)
unfolding coalesce_next
coalesce_next_at h at next c n e ne cell =
    rw (e, eq_false next 0 ne, cell) (elim (Bool-cases c.free) [ inl f ↦ rw f | inr f ↦ rw f ])

coalesce_prev_at :
    (h : Headers) (at prev : ℕ) (c : Block) (n p : ℕ)
    → (h at).prev ≡ prev
    → prev ≢ 0
    → h prev ≡ header c n p
    → coalesce_prev at h ≡ (if c.free then ok (merge prev at h) else ok h)
unfolding coalesce_prev
coalesce_prev_at h at prev c n p e ne cell =
    rw (e, eq_false prev 0 ne, cell) (elim (Bool-cases c.free) [ inl f ↦ rw f | inr f ↦ rw f ])

pub next_step :
    (h : Headers) (q at : ℕ) (b : Block) (ys : List Block)
    → Seg h q at (b ∷ ys) 0
    → 0 < at
    → at + span (b ∷ ys) < 2 ^ 64
    → Becomes h q at (b ∷ ys) (whole (absorb_next b ys)) (coalesce_next at h)
unfolding coalesce_next absorb_next
next_step h q at b [] s pos small = rw (ap (λ (r : Header). r.next) s.0) (stay q at (b ∷ []) s)
next_step h q at b (c ∷ ys) s pos small =
    rw
      (coalesce_next_at h at (after at b) c _ (ap (λ (r : Header). r.next) s.0) (omega arith) s.1.0)
      (subst
        (λ ds.
          Becomes h q at (b ∷ c ∷ ys) ds (if c.free then ok (merge at (after at b) h) else ok h))
        (sym (whole-if c.free (block (b.size + header_size + c.size) b.free, ys) (b, c ∷ ys)))
        (either c.free q at (b ∷ c ∷ ys) _ _ (merge_step h q at b c ys s pos small)
          (stay q at (b ∷ c ∷ ys) s)))

prev_step :
    (h : Headers) (p a at : ℕ) (xs : List Block) (b : Block) (ys : List Block)
    → Seg h p a (xs ++ b ∷ ys) 0
    → at ≡ a + span xs
    → xs ≢ []
    → 0 < a
    → a + span (xs ++ b ∷ ys) < 2 ^ 64
    → Becomes h p a (xs ++ b ∷ ys) (absorb_prev xs b ys) (coalesce_prev at h)
unfolding absorb_prev
prev_step h p a at [] b ys s e ne pos small = absurd (ne refl)
prev_step h p a at (w ∷ []) b ys s e ne pos small =
    let q : after a w ≡ at = omega (arith, e) in
    subst (λ (x : ℕ). Becomes h p a (w ∷ b ∷ ys) (absorb_prev (w ∷ []) b ys) (coalesce_prev x h)) q
      (rw
        (coalesce_prev_at h (after a w) a w _ p (ap (λ (r : Header). r.prev) s.1.0) (omega arith)
          s.0)
        (either w.free p a (w ∷ b ∷ ys) _ _ (merge_step h p a w b ys s pos small)
          (stay p a (w ∷ b ∷ ys) s)))
prev_step h p a at (w ∷ v ∷ xs) b ys s e ne pos small =
    let (g, got, chain, below, same, sum) =
      prev_step h a (after a w) at (v ∷ xs) b ys s.1 (omega (arith, e)) (λ q. cc) (omega arith)
        (omega (arith, small)) in
    (
      g,
      got,
      (below a (omega arith) ∙ s.0 ∙ ap (λ (n : ℕ). header w n p) (sym same), chain),
      λ y lt. below y (omega arith),
      refl,
      omega (arith, sum),
    )

-- The first block has none before it.
prev_none :
    (h : Headers) (a : ℕ) (b : Block) (ys : List Block)
    → Seg h 0 a (b ∷ ys) 0
    → coalesce_prev a h ≡ ok h
unfolding coalesce_prev
prev_none h a b ys s = rw (ap (λ (r : Header). r.prev) s.0)

pub prev_any :
    (h : Headers) (a at : ℕ) (xs : List Block) (b : Block) (ys : List Block)
    → Seg h 0 a (xs ++ b ∷ ys) 0
    → at ≡ a + span xs
    → 0 < a
    → a + span (xs ++ b ∷ ys) < 2 ^ 64
    → Becomes h 0 a (xs ++ b ∷ ys) (absorb_prev xs b ys) (coalesce_prev at h)
prev_any h a at [] b ys s e pos small =
    let q : at ≡ a = omega (arith, e) in
    unfold absorb_prev in (h, rw q (prev_none h a b ys s), s, λ x lt. refl, refl, refl)
prev_any h a at (x ∷ xs) b ys s e pos small =
    prev_step h 0 a at (x ∷ xs) b ys s e (λ q. cc) pos small
