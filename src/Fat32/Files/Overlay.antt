-- ===== src/Fat32/Files/Overlay.antt =====
-- Bytes laid over other bytes: what a copy into a sector of kernel/fat32.c leaves at each place.
use lons_os.Base.{
  ℕ, zero, suc, ◌+◌, ◌-◌, ◌*◌, ◌<◌, ◌≤◌, ◌&&◌, ◌≡◌, ◌≢◌, ◌⊎◌, inl, inr, refl, sym, subst, ap, ◌∙◌,
  arith, List, [], ◌∷◌, if◌then◌else◌, length, take, drop, get_or, length-drop, Bool-cases, leb,
  ltb, if_elim, ltb→lt, ltb→le,
}
use lons_os.Machine.{write}
use lons_os.Machine.Bytes.{Buffer, put_list}

-- What lies at `x` once the bytes `vs` are put at `k`.
abbrev pub overlaid : ℕ → List ℕ → ℕ → ℕ → ℕ
overlaid k vs x old = if leb k x && ltb x (k + length vs) then get_or vs (x - k) 0 else old

put_list-apart :
    (vs : List ℕ) (k x : ℕ) (b : Buffer) → (x < k) ⊎ (k + length vs ≤ x) → put_list k vs b x ≡ b x
unfolding put_list
put_list-apart [] k x b h = refl
put_list-apart (v ∷ vs) k x b (inl h) =
    put_list-apart vs (k + 1) x (write b k v) (inl (omega arith)) ∙ ground arith
put_list-apart (v ∷ vs) k x b (inr h) =
    put_list-apart vs (k + 1) x (write b k v) (inr (omega arith)) ∙ ground arith

put_list-inside :
    (vs : List ℕ) (k i : ℕ) (b : Buffer) → i < length vs → put_list k vs b (k + i) ≡ get_or vs i 0
unfolding put_list
put_list-inside [] k i b h = absurd (omega arith)
put_list-inside (v ∷ vs) k zero b h =
    put_list-apart vs (k + 1) (k + 0) (write b k v) (inl (omega arith)) ∙ ground arith
put_list-inside (v ∷ vs) k (suc i) b h =
    ap (put_list (k + 1) vs (write b k v)) (omega arith)
    ∙ put_list-inside vs (k + 1) i (write b k v) (omega arith)

pub put_list-overlaid :
    (vs : List ℕ) (k x : ℕ) (b : Buffer) → put_list k vs b x ≡ overlaid k vs x (b x)
put_list-overlaid vs k x b = elim (Bool-cases (ltb x k)) [
  | inl below ↦ put_list-apart vs k x b (inl (ltb→lt _ _ below)) ∙ ground arith
  | inr above ↦ elim (Bool-cases (ltb x (k + length vs))) [
    | inl inside ↦
        ap (put_list k vs b) {y = k + (x - k)} (omega (arith, ltb→le x k above))
        ∙ put_list-inside vs k (x - k) b (omega (arith, ltb→le x k above, ltb→lt _ _ inside))
        ∙ ground arith
    | inr behind ↦ put_list-apart vs k x b (inr (ltb→le _ _ behind)) ∙ ground arith
  ]
]

get_or-drop : (n i : ℕ) (vs : List ℕ) → get_or (drop n vs) i 0 ≡ get_or vs (n + i) 0
get_or-drop zero i vs = ap (λ j. get_or vs j 0) (omega arith)
get_or-drop (suc n) i [] = refl
get_or-drop (suc n) i (v ∷ vs) =
    get_or-drop n i vs ∙ ap (λ j. get_or (v ∷ vs) j 0) {x = suc (n + i)} (omega arith)

get_or-take : (n i : ℕ) (vs : List ℕ) → i < n → get_or (take n vs) i 0 ≡ get_or vs i 0
get_or-take zero i vs h = absurd (omega arith)
get_or-take (suc n) i [] h = refl
get_or-take (suc n) zero (v ∷ vs) h = refl
get_or-take (suc n) (suc i) (v ∷ vs) h = get_or-take n i vs (omega arith)

pub take-nil : (n : ℕ) → take {A = ℕ} n [] ≡ []
take-nil zero = refl
take-nil (suc n) = refl

pub length-take-min : (n : ℕ) (vs : List ℕ) → n ≤ length vs → length (take n vs) ≡ n
length-take-min zero vs h = refl
length-take-min (suc n) [] h = absurd (omega arith)
length-take-min (suc n) (v ∷ vs) h = ap suc (length-take-min n vs (omega arith))

-- Bytes of a list.
abbrev pub AllBytes : List ℕ → Type 0
AllBytes vs = (i : ℕ) → get_or vs i 0 < 256

split_lem :
    (p c q x n a t g old : ℕ)
    → c ≤ n
    → (c ≡ n) ⊎ (q ≡ p + c)
    → (q ≡ p + c → q ≤ x → a ≡ g)
    → (x - p < c → t ≡ g)
    → (if leb q x && ltb x (q + (n - c)) then a else if leb p x && ltb x (p + c) then t else old)
      ≡ (if leb p x && ltb x (p + n) then g else old)
split_lem p c q x n a t g old h (inl e) behind before = grind (arith, before)
split_lem p c q x n a t g old h (inr e) behind before = grind (arith, behind e, before)

-- One sector's overlay and the one behind it are an overlay.
overlaid-split :
    (p c q x old : ℕ) (vs : List ℕ)
    → c ≤ length vs
    → (c ≡ length vs) ⊎ (q ≡ p + c)
    → overlaid q (drop c vs) x (overlaid p (take c vs) x old) ≡ overlaid p vs x old
overlaid-split p c q x old vs h at =
    rw (length-drop c vs, length-take-min c vs h)
      (split_lem p c q x (length vs) _ _ (get_or vs (x - p) 0) old h at
        (λ e low. get_or-drop c (x - q) vs ∙ ap (λ j. get_or vs j 0) (omega arith))
        (λ lt. get_or-take c (x - p) vs lt))

drop-take : (c k : ℕ) (vs : List ℕ) → drop c (take (c + k) vs) ≡ take k (drop c vs)
drop-take zero k vs = ap (λ n. take n vs) (omega arith)
drop-take (suc c) k [] = ap (drop {A = ℕ} (suc c)) (take-nil (suc c + k)) ∙ sym (take-nil k)
drop-take (suc c) k (v ∷ vs) =
    ap (λ n. drop (suc c) (take n (v ∷ vs))) {y = suc (c + k)} (omega arith) ∙ drop-take c k vs

take-take : (c k : ℕ) (vs : List ℕ) → take c (take (c + k) vs) ≡ take c vs
take-take zero k vs = refl
take-take (suc c) k [] = ap (take {A = ℕ} (suc c)) (take-nil (suc c + k))
take-take (suc c) k (v ∷ vs) =
    ap (λ n. take (suc c) (take n (v ∷ vs))) {y = suc (c + k)} (omega arith)
    ∙ ap (λ l. v ∷ l) (take-take c k vs)

-- The first bytes at `p` and the others at `q` are all of them at `p`.
pub overlaid-take :
    (p c q k x old : ℕ) (vs : List ℕ)
    → c + k ≤ length vs
    → (k ≡ 0) ⊎ (q ≡ p + c)
    → overlaid q (take k (drop c vs)) x (overlaid p (take c vs) x old)
      ≡ overlaid p (take (c + k) vs) x old
overlaid-take p c q k x old vs h at =
    sym (
      ap (λ l. overlaid q l x (overlaid p (take c (take (c + k) vs)) x old)) (drop-take c k vs)
      ∙ ap (λ l. overlaid q (take k (drop c vs)) x (overlaid p l x old)) (take-take c k vs))
    ∙ overlaid-split p c q x old (take (c + k) vs) (omega (arith, whole)) (ends at)
  where
    whole : length (take (c + k) vs) ≡ c + k
    whole = length-take-min (c + k) vs h

    ends : (k ≡ 0) ⊎ (q ≡ p + c) → (c ≡ length (take (c + k) vs)) ⊎ (q ≡ p + c)
    ends (inl e) = inl (omega (arith, whole))
    ends (inr e) = inr e

pub AllBytes-drop : (n : ℕ) (vs : List ℕ) → AllBytes vs → AllBytes (drop n vs)
AllBytes-drop n vs all i = subst (λ b. b < 256) (sym (get_or-drop n i vs)) (all (n + i))

pub AllBytes-take : (n : ℕ) (vs : List ℕ) → AllBytes vs → AllBytes (take n vs)
AllBytes-take zero vs all i = omega arith
AllBytes-take (suc n) [] all i = all i
AllBytes-take (suc n) (v ∷ vs) all zero = all 0
AllBytes-take (suc n) (v ∷ vs) all (suc i) = AllBytes-take n vs (λ j. all (suc j)) i

pub overlaid-lt : (k x old : ℕ) (vs : List ℕ) → AllBytes vs → old < 256 → overlaid k vs x old < 256
overlaid-lt k x old vs all h =
    if_elim (λ b. b < 256) (leb k x && ltb x (k + length vs)) (get_or vs (x - k) 0) old
      (λ e. all (x - k)) (λ e. h)

-- The same overlay in the sector and on the disk, and none in another sector.
pub overlaid-here :
    (lba off i old : ℕ) (vs : List ℕ)
    → overlaid off vs i old ≡ overlaid (lba * 512 + off) vs (lba * 512 + i) old
overlaid-here lba off i old vs =
    let shift : (lba * 512 + i) - (lba * 512 + off) ≡ i - off = omega arith in
    rw shift (ground arith)

pub overlaid-elsewhere :
    (l lba off i old : ℕ) (vs : List ℕ)
    → l ≢ lba
    → i < 512
    → off + length vs ≤ 512
    → overlaid (lba * 512 + off) vs (l * 512 + i) old ≡ old
overlaid-elsewhere l lba off i old vs ne h fits = ground arith
