-- ===== src/Ramfs/Capacity.antt =====
-- How the buffer of a file grows.
use lons_os.Base.{ℕ, zero, suc, ◌*◌, ◌≤◌, arith, ltb, if_elim, ◌==◌, if◌then◌else◌}
use lons_os.Ramfs.{double_until, grown_capacity, max_filesize, initial_cap}

abbrev doubled : ℕ → ℕ → ℕ
doubled zero c = c
doubled (suc fuel) c = doubled fuel (c * 2)

-- The doublings reach the end, or use up the fuel.
double_until-doubled : (fuel c end : ℕ) → end ≤ doubled fuel c → end ≤ double_until fuel c end
unfolding double_until
double_until-doubled zero c end h = h
double_until-doubled (suc fuel) c end h =
    if_elim (λ r. end ≤ r) (ltb c end) _ _ (λ e. double_until-doubled fuel (c * 2) end h)
      (λ e. ground arith)

-- For an end within the largest file, the new capacity holds the end and is at most the largest
-- file.
pub grown_capacity_lem :
    (capacity end : ℕ)
    → end ≤ max_filesize
    → (end ≤ grown_capacity capacity end) × (grown_capacity capacity end ≤ max_filesize)
unfolding grown_capacity
grown_capacity_lem capacity end h = ground (
  arith,
  double_until-doubled 20 (if capacity == 0 then initial_cap else capacity * 2) end (ground arith),
)
