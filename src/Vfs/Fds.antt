-- ===== src/Vfs/Fds.antt =====
-- The table of open files: how a descriptor is chosen, used and given back.
use lons_os.Base.{
  ℕ, zero, suc, ◌+◌, ◌≤◌, ◌<◌, ◌≡◌, ◌≢◌, ◌⊎◌, refl, inl, inr, arith, ◌==◌, if◌then◌else◌,
  Bool-cases, ==→eq,
}
use lons_os.Base.Bits.{test_bit}
use lons_os.Machine.Signed.{ℤ, pos, negsuc}
use lons_os.Vfs.{Vfs, Fd, err_nospace, scan_fds, alloc_fd, open_node}

-- A scan finds the first unused descriptor, or shows that all are used.
abbrev pub Scans : ℕ → ℕ → (ℕ → Fd) → ℤ → Type 0
Scans n i table r =
    ((j : ℕ) × (r ≡ pos j)
      × (i ≤ j)
      × (j < i + n)
      × ((table j).used ≡ 0)
      × ((k : ℕ) → i ≤ k → k < j → (table k).used ≢ 0))
    ⊎ ((r ≡ negsuc 0) × ((k : ℕ) → i ≤ k → k < i + n → (table k).used ≢ 0))

Scans-suc :
    (n i : ℕ) (table : ℕ → Fd) (r : ℤ)
    → (table i).used ≢ 0
    → Scans n (i + 1) table r
    → Scans (suc n) i table r
Scans-suc n i table r used (inl (j, e, lo, hi, free, before)) = inl (
  j,
  e,
  omega arith,
  omega arith,
  free,
  λ k a b. elim (Bool-cases (k == i)) [
    | inl same ↦ let e : k ≡ i = ==→eq _ _ same in rw e used
    | inr other ↦ before k (ground arith) b
  ],
)
Scans-suc n i table r used (inr (e, all)) = inr (
  e,
  λ k a b. elim (Bool-cases (k == i)) [
    | inl same ↦ let e : k ≡ i = ==→eq _ _ same in rw e used
    | inr other ↦ all k (ground arith) (omega arith)
  ],
)

pub scan_fds-Scans : (n i : ℕ) (table : ℕ → Fd) → Scans n i table (scan_fds n i table)
unfolding scan_fds
scan_fds-Scans zero i table = inr (refl, λ k a b. absurd (omega arith))
scan_fds-Scans (suc n) i table = elim (Bool-cases ((table i).used == 0)) [
  | inl free ↦
      rw free
        (inl (i, refl, omega arith, omega arith, ==→eq _ _ free, λ k a b. absurd (omega arith)))
  | inr used ↦ rw used (Scans-suc n i table _ (ground arith) (scan_fds-Scans n (i + 1) table))
]

module _ {D : Type 0} where
  -- Where the flags put the offset of a file that is opened.
  abbrev pub start_offset : ℕ → ℕ → Vfs D → ℕ
  start_offset node flags s =
      if test_bit flags 3 == 1 then 0 else if test_bit flags 4 == 1 then (s.nodes node).size else 0

  -- A file opened on the least descriptor that was unused, or none unused and nothing changed.
  abbrev pub Opens : ℕ → ℕ → Vfs D → ℤ × Vfs D → Type 0
  Opens node flags s out =
      ((i : ℕ) × (out.0 ≡ pos i)
        × (3 ≤ i)
        × (i < 32)
        × ((s.fd_table i).used ≡ 0)
        × ((k : ℕ) → 3 ≤ k → k < i → (s.fd_table k).used ≢ 0)
        × (out.1.fd_table i
            ≡ record { used = 1; node = node; offset = start_offset node flags s; flags = flags })
        × ((k : ℕ) → k ≢ i → out.1.fd_table k ≡ s.fd_table k))
      ⊎ ((out.0 ≡ err_nospace) × (out.1 ≡ s) × ((k : ℕ) → 3 ≤ k → k < 32 → (s.fd_table k).used ≢ 0))

  Opens-Scans :
      (node flags : ℕ) (s : Vfs D)
      → Scans 29 3 s.fd_table (alloc_fd s)
      → Opens node flags s (open_node node flags s)
  unfolding open_node
  Opens-Scans node flags s (inl (j, e, lo, hi, free, before)) =
      rw e (inl (j, refl, lo, omega arith, free, before, ground arith, λ k ne. ground arith))
  Opens-Scans node flags s (inr (e, all)) = rw e (inr (refl, refl, all))

  -- Opening a node takes the least descriptor from 3 to 31 that was unused, with the offset that the flags
  -- ask for, and leaves the other descriptors alone; if all are used, it fails and changes nothing.
  pub open_node_lem : (node flags : ℕ) (s : Vfs D) → Opens node flags s (open_node node flags s)
  unfolding alloc_fd
  open_node_lem node flags s = Opens-Scans node flags s (scan_fds-Scans 29 3 s.fd_table)
