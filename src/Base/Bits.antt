-- ===== src/Base/Bits.antt =====
-- One bit of a byte: what `|= 1 << k`, `&= ~(1 << k)` and `(b >> k) & 1` do, by evaluation at
-- every byte and position.
use Prim.Native.Nat.{ℕ, zero, suc, ◌-◌, ◌/◌, ◌%◌, ◌^◌, ◌<◌, bit_and, bit_or}
use mathlib.Core.Path.{◌≡◌, refl}
use mathlib.Core.Bool.{Bool, true, ◌&&◌}
use native.Mathlib.Omega.{arith}
use lons_os.Base.Tests.{◌==◌, ==_iff, ltb, ltb→lt, if◌then◌else◌}

-- Does a test hold at every number below a bound?
unfoldable pub all_below : ℕ → (ℕ → Bool) → Bool
all_below zero ok = true
all_below (suc top) ok = ok top && all_below top ok

pub all_below_sound :
    (bound : ℕ) (ok : ℕ → Bool) (k : ℕ) → all_below bound ok ≡ true → k < bound → ok k ≡ true
unfolding all_below
all_below_sound zero ok k all under = absurd (omega arith)
all_below_sound (suc top) ok k all under = ground (arith, all_below_sound top ok k)

-- Two functions that agree below `n`.
pub agree_below :
    (f g : ℕ → ℕ) (n : ℕ) → all_below n (λ x. f x == g x) ≡ true → (x : ℕ) → x < n → f x ≡ g x
agree_below f g n h x lt = (==_iff _ _).0 (all_below_sound n (λ x. f x == g x) x h lt)

-- `1 << k` in a byte, its complement, and the test of bit `k`.
abbrev pub bit_at : ℕ → ℕ
bit_at k = 2 ^ k

abbrev pub not_bit_at : ℕ → ℕ
not_bit_at k = 255 - 2 ^ k

abbrev pub test_bit : ℕ → ℕ → ℕ
test_bit b k = (b / 2 ^ k) % 2

-- Every byte at every pair of positions.
all_bits : (ℕ → ℕ → ℕ → Bool) → Bool
unfolding all_below
all_bits p = all_below 256 (λ b. all_below 8 (λ k. all_below 8 (λ j. p b k j)))

all_bits_sound :
    (p : ℕ → ℕ → ℕ → Bool) (b k j : ℕ)
    → all_bits p ≡ true
    → b < 256
    → k < 8
    → j < 8
    → p b k j ≡ true
unfolding all_bits
all_bits_sound p b k j h hb hk hj =
    all_below_sound 8 (λ j. p b k j) j
      (all_below_sound 8 (λ k. all_below 8 (λ j. p b k j)) k
        (all_below_sound 256 (λ b. all_below 8 (λ k. all_below 8 (λ j. p b k j))) b h hb) hk)
      hj

pub test_bit-bit_or :
    (b k j : ℕ)
    → b < 256
    → k < 8
    → j < 8
    → test_bit (bit_or b (bit_at k)) j ≡ (if j == k then 1 else test_bit b j)
unfolding all_bits
test_bit-bit_or b k j hb hk hj = (==_iff _ _).0 (
    all_bits_sound
      (λ b k j. test_bit (bit_or b (bit_at k)) j == (if j == k then 1 else test_bit b j)) b k j refl
      hb hk hj)

pub test_bit-bit_and :
    (b k j : ℕ)
    → b < 256
    → k < 8
    → j < 8
    → test_bit (bit_and b (not_bit_at k)) j ≡ (if j == k then 0 else test_bit b j)
unfolding all_bits
test_bit-bit_and b k j hb hk hj = (==_iff _ _).0 (
    all_bits_sound
      (λ b k j. test_bit (bit_and b (not_bit_at k)) j == (if j == k then 0 else test_bit b j)) b k j
      refl hb hk hj)

pub bit_or-lt : (b k : ℕ) → b < 256 → k < 8 → bit_or b (bit_at k) < 256
unfolding all_bits
bit_or-lt b k hb hk =
    ltb→lt _ _ (all_bits_sound (λ b k j. ltb (bit_or b (bit_at k)) 256) b k k refl hb hk hk)

pub bit_and-lt : (b k : ℕ) → b < 256 → k < 8 → bit_and b (not_bit_at k) < 256
unfolding all_bits
bit_and-lt b k hb hk =
    ltb→lt _ _ (all_bits_sound (λ b k j. ltb (bit_and b (not_bit_at k)) 256) b k k refl hb hk hk)

-- 0xFF has every bit.
pub test_bit-ones : (k : ℕ) → k < 8 → test_bit 0xFF k ≡ 1
unfolding all_below
test_bit-ones k h = (==_iff _ _).0 (all_below_sound 8 (λ k. test_bit 0xFF k == 1) k refl h)
