-- ===== src/Ramfs/Bytes.antt =====
-- The copies of kernel/ramfs.c, byte by byte.
use lons_os.Base.{
  ℕ, zero, suc, ◌+◌, ◌≤◌, ◌<◌, ◌≡◌, ◌≢◌, ◌⊎◌, refl, ap, ap₂, ◌∙◌, arith, List, [], ◌∷◌, length,
  get_or, inl, inr,
}
use lons_os.Base.Loops.{for_range}
use lons_os.Machine.{write, Memory}
use lons_os.Ramfs.{put_bytes, get_bytes, r_memset, r_memcpy}

-- Bytes apart from those that are put stay, and those that are put are read.
pub put_bytes-apart :
    (bs : List ℕ) (dst x : ℕ) (m : Memory)
    → (x < dst) ⊎ (dst + length bs ≤ x)
    → put_bytes dst bs m x ≡ m x
unfolding put_bytes
put_bytes-apart [] dst x m h = refl
put_bytes-apart (b ∷ bs) dst x m (inl h) =
    put_bytes-apart bs (dst + 1) x (write m dst b) (inl (omega arith)) ∙ ground arith
put_bytes-apart (b ∷ bs) dst x m (inr h) =
    put_bytes-apart bs (dst + 1) x (write m dst b) (inr (omega arith)) ∙ ground arith

pub put_bytes-inside :
    (bs : List ℕ) (dst i : ℕ) (m : Memory)
    → i < length bs
    → put_bytes dst bs m (dst + i) ≡ get_or bs i 0
unfolding put_bytes
put_bytes-inside [] dst i m h = absurd (omega arith)
put_bytes-inside (b ∷ bs) dst zero m h =
    put_bytes-apart bs (dst + 1) (dst + 0) (write m dst b) (inl (omega arith)) ∙ ground arith
put_bytes-inside (b ∷ bs) dst (suc i) m h =
    ap (put_bytes (dst + 1) bs (write m dst b)) (omega arith)
    ∙ put_bytes-inside bs (dst + 1) i (write m dst b) (omega arith)

memset_from-apart :
    (n at ptr val x : ℕ) (m : Memory)
    → (x < ptr + at) ⊎ (ptr + at + n ≤ x)
    → for_range n at (λ i m. write m (ptr + i) val) m x ≡ m x
unfolding for_range
memset_from-apart zero at ptr val x m h = refl
memset_from-apart (suc n) at ptr val x m (inl h) =
    memset_from-apart n (at + 1) ptr val x (write m (ptr + at) val) (inl (omega arith))
    ∙ ground arith
memset_from-apart (suc n) at ptr val x m (inr h) =
    memset_from-apart n (at + 1) ptr val x (write m (ptr + at) val) (inr (omega arith))
    ∙ ground arith

memset_from-inside :
    (n at ptr val i : ℕ) (m : Memory)
    → i < n
    → for_range n at (λ i m. write m (ptr + i) val) m (ptr + (at + i)) ≡ val
unfolding for_range
memset_from-inside zero at ptr val i m h = absurd (omega arith)
memset_from-inside (suc n) at ptr val zero m h =
    memset_from-apart n (at + 1) ptr val (ptr + (at + 0)) (write m (ptr + at) val)
      (inl (omega arith))
    ∙ ground arith
memset_from-inside (suc n) at ptr val (suc i) m h =
    ap (for_range n (at + 1) (λ i m. write m (ptr + i) val) (write m (ptr + at) val)) (omega arith)
    ∙ memset_from-inside n (at + 1) ptr val i (write m (ptr + at) val) (omega arith)

pub r_memset-apart :
    (n ptr val x : ℕ) (m : Memory) → (x < ptr) ⊎ (ptr + n ≤ x) → r_memset ptr val n m x ≡ m x
unfolding r_memset
r_memset-apart n ptr val x m (inl h) = memset_from-apart n 0 ptr val x m (inl (omega arith))
r_memset-apart n ptr val x m (inr h) = memset_from-apart n 0 ptr val x m (inr (omega arith))

pub r_memset-inside : (n ptr val i : ℕ) (m : Memory) → i < n → r_memset ptr val n m (ptr + i) ≡ val
unfolding r_memset
r_memset-inside n ptr val i m h =
    ap (for_range n 0 (λ i m. write m (ptr + i) val) m) (omega arith)
    ∙ memset_from-inside n 0 ptr val i m h

-- The source lies apart from the target.
abbrev pub Apart : ℕ → ℕ → ℕ → ℕ → Type 0
Apart p m q n = (p + m ≤ q) ⊎ (q + n ≤ p)

memcpy_from-apart :
    (n at dst src x : ℕ) (m : Memory)
    → (x < dst + at) ⊎ (dst + at + n ≤ x)
    → for_range n at (λ i m. write m (dst + i) (m (src + i))) m x ≡ m x
unfolding for_range
memcpy_from-apart zero at dst src x m h = refl
memcpy_from-apart (suc n) at dst src x m (inl h) =
    memcpy_from-apart n (at + 1) dst src x (write m (dst + at) (m (src + at))) (inl (omega arith))
    ∙ ground arith
memcpy_from-apart (suc n) at dst src x m (inr h) =
    memcpy_from-apart n (at + 1) dst src x (write m (dst + at) (m (src + at))) (inr (omega arith))
    ∙ ground arith

memcpy_from-inside :
    (n at dst src i last : ℕ) (m : Memory)
    → i < n
    → last ≡ at + n
    → Apart dst last src last
    → for_range n at (λ i m. write m (dst + i) (m (src + i))) m (dst + (at + i))
      ≡ m (src + (at + i))
unfolding for_range
memcpy_from-inside zero at dst src i last m h e apart = absurd (omega arith)
memcpy_from-inside (suc n) at dst src zero last m h e apart =
    memcpy_from-apart n (at + 1) dst src (dst + (at + 0)) (write m (dst + at) (m (src + at)))
      (inl (omega arith))
    ∙ copied at dst src (dst + (at + 0)) m (omega arith)
    ∙ ap m (omega arith)
  where
    copied :
        (at dst src x : ℕ) (m : Memory)
        → x ≡ dst + at
        → write m (dst + at) (m (src + at)) x ≡ m (src + at)
    copied at dst src x m e = ground arith
memcpy_from-inside (suc n) at dst src (suc i) last m h e apart =
    let m1 = write m (dst + at) (m (src + at)) in
    ap (for_range n (at + 1) (λ i m. write m (dst + i) (m (src + i))) m1) (omega arith)
    ∙ memcpy_from-inside n (at + 1) dst src i last m1 (omega arith) (omega arith) apart
    ∙ other (src + (at + 1 + i)) (omega arith)
    ∙ ap m (omega arith)
  where
    other : (x : ℕ) → x ≢ dst + at → write m (dst + at) (m (src + at)) x ≡ m x
    other x ne = ground arith

pub r_memcpy-apart :
    (n dst src x : ℕ) (m : Memory) → (x < dst) ⊎ (dst + n ≤ x) → r_memcpy dst src n m x ≡ m x
unfolding r_memcpy
r_memcpy-apart n dst src x m (inl h) = memcpy_from-apart n 0 dst src x m (inl (omega arith))
r_memcpy-apart n dst src x m (inr h) = memcpy_from-apart n 0 dst src x m (inr (omega arith))

pub r_memcpy-inside :
    (n dst src i : ℕ) (m : Memory)
    → i < n
    → Apart dst n src n
    → r_memcpy dst src n m (dst + i) ≡ m (src + i)
unfolding r_memcpy
r_memcpy-inside n dst src i m h apart =
    ap (for_range n 0 (λ i m. write m (dst + i) (m (src + i))) m) (omega arith)
    ∙ memcpy_from-inside n 0 dst src i n m h (omega arith) apart
    ∙ ap m (omega arith)

-- A buffer that holds a list is read as the list.
pub get_bytes-list :
    (bs : List ℕ) (src : ℕ) (m : Memory)
    → ((i : ℕ) → i < length bs → m (src + i) ≡ get_or bs i 0)
    → get_bytes (length bs) src m ≡ bs
unfolding get_bytes
get_bytes-list [] src m h = refl
get_bytes-list (b ∷ bs) src m h =
    ap₂ ◌∷◌ (ap m (omega arith) ∙ h 0 (omega arith))
      (get_bytes-list bs (src + 1) m (λ i lt. ap m (omega arith) ∙ h (suc i) (omega arith)))
