-- ===== src/Machine/Bytes.antt =====
-- Little-endian fields of a buffer of bytes, which is a function of the offset.
use lons_os.Base.{
  ℕ, zero, suc, ◌+◌, ◌-◌, ◌*◌, ◌/◌, ◌%◌, ◌^◌, ◌<◌, ◌≡◌, ◌≢◌, arith, List, [], ◌∷◌, ltb, leb, ◌&&◌,
  ◌==◌, if◌then◌else◌,
}
use lons_os.Machine.{write}

abbrev pub Buffer : Type 0
Buffer = ℕ → ℕ

-- A buffer of bytes.
abbrev pub IsBytes : Buffer → Type 0
IsBytes b = (i : ℕ) → b i < 256

unfoldable pub le16 : Buffer → ℕ → ℕ
le16 b k = b k + b (k + 1) * 256

unfoldable pub le32 : Buffer → ℕ → ℕ
le32 b k = b k + b (k + 1) * 256 + b (k + 2) * 65536 + b (k + 3) * 16777216

unfoldable pub put16 : ℕ → ℕ → Buffer → Buffer
put16 k v b x = if x == k then v % 256 else if x == k + 1 then v / 256 % 256 else b x

unfoldable pub put32 : ℕ → ℕ → Buffer → Buffer
put32 k v b x =
    if x == k
    then v % 256
    else if x == k + 1
    then v / 256 % 256
    else if x == k + 2
    then v / 65536 % 256
    else if x == k + 3
    then v / 16777216 % 256
    else b x

-- `memset` of `n` bytes at `k`, and `memcpy` of `n` bytes at `k` from the offset `off` of `src`.
unfoldable pub fill_bytes : ℕ → ℕ → ℕ → Buffer → Buffer
fill_bytes k n v b x = if leb k x && ltb x (k + n) then v else b x

unfoldable pub copy_bytes : ℕ → ℕ → Buffer → ℕ → Buffer → Buffer
copy_bytes k n src off b x = if leb k x && ltb x (k + n) then src (off + (x - k)) else b x

-- The `n` bytes from `k` on, and a list of bytes put at `k`.
unfoldable pub bytes_at : ℕ → ℕ → Buffer → List ℕ
bytes_at zero k b = []
bytes_at (suc n) k b = b k ∷ bytes_at n (k + 1) b

unfoldable pub put_list : ℕ → List ℕ → Buffer → Buffer
put_list k [] b = b
put_list k (v ∷ vs) b = put_list (k + 1) vs (write b k v)

pub le32-put32_self : (k v : ℕ) (b : Buffer) → v < 2 ^ 32 → le32 (put32 k v b) k ≡ v
unfolding le32 put32
le32-put32_self k v b h = ground arith

pub le32-put32_apart :
    (k j v : ℕ) (b : Buffer) → j % 4 ≡ k % 4 → j ≢ k → le32 (put32 k v b) j ≡ le32 b j
unfolding le32 put32
le32-put32_apart k j v b e ne = ground arith

pub put32-IsBytes : (k v : ℕ) (b : Buffer) → IsBytes b → IsBytes (put32 k v b)
unfolding put32
put32-IsBytes k v b bytes i = ground (arith, bytes i)

pub le32-lt : (b : Buffer) (k : ℕ) → IsBytes b → le32 b k < 2 ^ 32
unfolding le32
le32-lt b k bytes = omega (arith, bytes k, bytes (k + 1), bytes (k + 2), bytes (k + 3))

-- Fields and changes at an offset depend on the bytes there alone.
pub le32_cong :
    (b c : Buffer) (k n : ℕ) → k + 3 < n → ((i : ℕ) → i < n → b i ≡ c i) → le32 b k ≡ le32 c k
unfolding le32
le32_cong b c k n h same = omega (
  arith,
  same k (omega arith),
  same (k + 1) (omega arith),
  same (k + 2) (omega arith),
  same (k + 3) (omega arith),
)

pub put32_cong : (b c : Buffer) (k v x : ℕ) → b x ≡ c x → put32 k v b x ≡ put32 k v c x
unfolding put32
put32_cong b c k v x e = ground arith
