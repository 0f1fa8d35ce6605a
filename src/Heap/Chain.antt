-- ===== src/Heap/Chain.antt =====
-- The blocks of the heap as a list: how they lie in memory, and what a change elsewhere leaves.
use lons_os.Base.{
  ◌⊎◌, inl, inr, ℕ, ◌+◌, ◌^◌, ◌≤◌, ◌<◌, ◌≡◌, ◌≢◌, refl, ap, subst, ◌∙◌, Bool, List, [], ◌∷◌, ◌++◌,
  if◌then◌else◌, arith, length,
}
use lons_os.Heap.{Header, Headers, Heap, heap_magic, header_size}

pub record Block : Type 0 where
  pub size : ℕ
  pub free : Bool

abbrev pub block : ℕ → Bool → Block
block n f = record { size = n; free = f }

-- The header of a block whose neighbours are at `next` and `prev`.
abbrev pub header : Block → ℕ → ℕ → Header
header b next prev = record {
  size = b.size;
  free = if b.free then 1 else 0;
  magic = heap_magic;
  next = next;
  prev = prev;
}

-- The address behind block `b` at `a`.
abbrev pub after : ℕ → Block → ℕ
after a b = a + header_size + b.size

-- The bytes that the blocks take.
abbrev pub span : List Block → ℕ
span [] = 0
span (b ∷ bs) = header_size + b.size + span bs

-- A pointer to blocks at `a`, if there are any, or else `n`.
abbrev pub link : ℕ → List Block → ℕ → ℕ
link a [] n = n
link a (b ∷ bs) n = a

-- The blocks `bs` lie one behind the other from `a` on, linked both ways; `p` is the block before
-- them and `n` the one behind.
abbrev pub Seg : Headers → ℕ → ℕ → List Block → ℕ → Type 0
Seg h p a [] n = Unit
Seg h p a (b ∷ bs) n = (h a ≡ header b (link (after a b) bs n) p) × Seg h a (after a b) bs n

-- The last of the blocks, or `p`.
abbrev pub last : ℕ → ℕ → List Block → ℕ
last p a [] = p
last p a (b ∷ bs) = last a (after a b) bs

-- `g` is `h` on the addresses of a range.
abbrev pub SameIn : Headers → Headers → ℕ → ℕ → Type 0
SameIn h g lo hi = (x : ℕ) → lo ≤ x → x < hi → g x ≡ h x

abbrev pub SameBelow : Headers → Headers → ℕ → Type 0
SameBelow h g hi = (x : ℕ) → x < hi → g x ≡ h x

-- A chain survives any change outside its own addresses.
pub frame :
    (h g : Headers) (p a : ℕ) (bs : List Block) (n : ℕ)
    → Seg h p a bs n
    → SameIn h g a (a + span bs)
    → Seg g p a bs n
frame h g p a [] n s same = tt
frame h g p a (b ∷ bs) n s same = (
  same a (omega arith) (omega arith) ∙ s.0,
  frame h g a (after a b) bs n s.1 (λ x lo hi. same x (omega arith) (omega arith)),
)

pub span-append : (xs ys : List Block) → span (xs ++ ys) ≡ span xs + span ys
span-append [] ys = omega arith
span-append (x ∷ xs) ys = omega (arith, span-append xs ys)

pub length-le-span : (bs : List Block) → length bs ≤ span bs
length-le-span [] = omega arith
length-le-span (b ∷ bs) = omega (arith, length-le-span bs)

pub Seg-at :
    (h : Headers) (p n : ℕ) (bs : List Block) {a b : ℕ} → a ≡ b → Seg h p a bs n → Seg h p b bs n
Seg-at h p n bs e s = subst (λ x. Seg h p x bs n) e s

-- The heap holds the blocks `bs`, and they fill it.
pub record IsHeap (k : Heap) (bs : List Block) : Type 0 where
  pub chain : Seg k.headers 0 k.heap_start bs 0
  pub head : k.heap_head ≡ link k.heap_start bs 0
  pub filled : span bs ≡ k.heap_size
  pub start_pos : 0 < k.heap_start
  pub bounded : k.heap_start + k.heap_size < 2 ^ 64

-- A chain whose first block is told of another predecessor, and is otherwise left alone.
pub relink :
    (h g : Headers) (q new a : ℕ) (bs : List Block) (n : ℕ)
    → Seg h q a bs n
    → (bs ≢ [] → g a ≡ record (h a) { prev = new })
    → ((x : ℕ) → a < x → x < a + span bs → g x ≡ h x)
    → Seg g new a bs n
relink h g q new a [] n s first rest = tt
relink h g q new a (b ∷ bs) n s first rest = (
  first (λ e. cc) ∙ ap (λ (r : Header). record r { prev = new }) s.0,
  frame h g a (after a b) bs n s.1 (λ x lo hi. rest x (omega arith) (omega arith)),
)

pub link-cases :
    (a : ℕ) (bs : List Block) → ((bs ≡ []) × (link a bs 0 ≡ 0)) ⊎ ((bs ≢ []) × (link a bs 0 ≡ a))
link-cases a [] = inl (refl, refl)
link-cases a (b ∷ bs) = inr (λ e. cc, refl)

pub link-nonempty : (a : ℕ) (bs : List Block) → bs ≢ [] → link a bs 0 ≡ a
link-nonempty a [] ne = absurd (ne refl)
link-nonempty a (b ∷ bs) ne = refl

pub link-append :
    (a : ℕ) (xs cs ds : List Block)
    → link (a + span xs) ds 0 ≡ link (a + span xs) cs 0
    → link a (xs ++ ds) 0 ≡ link a (xs ++ cs) 0
link-append a [] cs ds e = let z : a + span [] ≡ a = omega arith in rw z at e
link-append a (x ∷ xs) cs ds e = refl
