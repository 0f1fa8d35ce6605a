-- ===== src/Pmm/Count.antt =====
-- How many pages are free: the number that `free_pages` of kernel/pmm.c is to hold.
use lons_os.Base.{
  ℕ, zero, suc, ◌+◌, ◌-◌, ◌≤◌, ◌<◌, ◌==◌, ◌≡◌, ◌≢◌, refl, sym, ap, inl, inr, arith, Bool-cases,
  ==→eq,
}

-- The zeros of `used` below `n`.
unfoldable pub free_below : (ℕ → ℕ) → ℕ → ℕ
free_below used zero = 0
free_below used (suc n) = free_below used n + (1 - used n)

pub free_below-le : (used : ℕ → ℕ) (n : ℕ) → free_below used n ≤ n
unfolding free_below
free_below-le used zero = omega arith
free_below-le used (suc n) = omega (arith, free_below-le used n)

pub free_below-ext :
    (f g : ℕ → ℕ) (n : ℕ) → ((j : ℕ) → j < n → f j ≡ g j) → free_below f n ≡ free_below g n
unfolding free_below
free_below-ext f g zero same = refl
free_below-ext f g (suc n) same =
    omega (arith, same n (omega arith), free_below-ext f g n (λ j h. same j (omega arith)))

-- Taking one free page lowers the count by one.
pub free_below-take :
    (f g : ℕ → ℕ) (n i : ℕ)
    → ((j : ℕ) → j ≢ i → g j ≡ f j)
    → f i ≡ 0
    → g i ≡ 1
    → i < n
    → free_below f n ≡ free_below g n + 1
unfolding free_below
free_below-take f g zero i same was now h = absurd (omega arith)
free_below-take f g (suc n) i same was now h = elim (Bool-cases (n == i)) [
  | inl e ↦
      let last : n ≡ i = ==→eq n i e in
      omega (
        arith,
        free_below-ext f g n (λ j lt. sym (same j (omega arith))),
        ap f last,
        ap g last,
        was,
        now,
      )
  | inr ne ↦
      let other : n ≢ i = ground arith in
      omega (arith, same n other, free_below-take f g n i same was now (omega arith))
]
