-- ===== src/Pmm/Bitmap.antt =====
-- The bits of kernel/pmm.c: what setting and clearing one page does to the test of every page.
use lons_os.Base.{ℕ, ◌+◌, ◌/◌, ◌%◌, ◌≤◌, ◌<◌, ◌≡◌, ◌==◌, if◌then◌else◌, refl, arith}
use lons_os.Base.Bits.{test_bit-bit_or, test_bit-bit_and, bit_or-lt, bit_and-lt}
use lons_os.Pmm.{Pmm, bitmap_set, bitmap_clear, bitmap_test}

-- Memory holds bytes.
abbrev pub IsBytes : Pmm → Type 0
IsBytes s = (a : ℕ) → s.mem a < 256

module _ (s : Pmm) (bytes : IsBytes s) where
  pub bitmap_test-bitmap_set :
      (i j : ℕ) → bitmap_test (bitmap_set i s) j ≡ (if j == i then 1 else bitmap_test s j)
  unfolding bitmap_set bitmap_test
  bitmap_test-bitmap_set i j =
      ground (
        arith,
        test_bit-bit_or (s.mem (s.bitmap + i / 8)) (i % 8) (j % 8) (bytes (s.bitmap + i / 8)),
      )

  pub bitmap_test-bitmap_clear :
      (i j : ℕ) → bitmap_test (bitmap_clear i s) j ≡ (if j == i then 0 else bitmap_test s j)
  unfolding bitmap_clear bitmap_test
  bitmap_test-bitmap_clear i j = ground (
    arith,
    test_bit-bit_and (s.mem (s.bitmap + i / 8)) (i % 8) (j % 8) (bytes (s.bitmap + i / 8)),
  )

  pub bitmap_set-IsBytes : (i : ℕ) → IsBytes (bitmap_set i s)
  unfolding bitmap_set
  bitmap_set-IsBytes i a =
      ground
        (arith, bit_or-lt (s.mem (s.bitmap + i / 8)) (i % 8) (bytes (s.bitmap + i / 8)), bytes a)

  pub bitmap_clear-IsBytes : (i : ℕ) → IsBytes (bitmap_clear i s)
  unfolding bitmap_clear
  bitmap_clear-IsBytes i a =
      ground
        (arith, bit_and-lt (s.mem (s.bitmap + i / 8)) (i % 8) (bytes (s.bitmap + i / 8)), bytes a)

pub bitmap_test-le : (s : Pmm) (i : ℕ) → bitmap_test s i ≤ 1
unfolding bitmap_test
bitmap_test-le s i = omega arith

-- Setting or clearing a bit leaves every static variable alone.
abbrev pub Kept : Pmm → Pmm → Type 0
Kept s t = (t.total_pages ≡ s.total_pages) × (t.bitmap ≡ s.bitmap) × (t.free_pages ≡ s.free_pages)

pub bitmap_set-fields : (i : ℕ) (s : Pmm) → Kept s (bitmap_set i s)
unfolding bitmap_set
bitmap_set-fields i s = (refl, refl, refl)

pub bitmap_clear-fields : (i : ℕ) (s : Pmm) → Kept s (bitmap_clear i s)
unfolding bitmap_clear
bitmap_clear-fields i s = (refl, refl, refl)
