-- ===== src/Fat32/Alloc.antt =====
-- `fat_alloc`: the first free cluster, marked as the end of a chain and filled with zeros.
use lons_os.Base.{
  ℕ, ◌+◌, ◌-◌, ◌*◌, ◌/◌, ◌%◌, ◌^◌, ◌<◌, ◌≤◌, ◌==◌, ◌≡◌, ◌≢◌, ◌⊎◌, ap, ◌∙◌, arith, ◌&&◌,
  if◌then◌else◌, leb, ltb,
}
use lons_os.Machine.{u32}
use lons_os.Fat32.{BlockDevice, Fat, Geometry, cluster_to_lba, entry_sector, fat_set, end_of_chain}
use lons_os.Fat32.Disk.{Works}
use lons_os.Fat32.Table.{sector_of, entry, raw-SameDisk, SameDisk}

-- The layout of a volume: the table has an entry for each cluster, the clusters lie behind it, and
-- all of it lies below sector 2^28, which is what the driver can name.
pub record IsLaidOut (g : Geometry) : Type 0 where
  pub few : g.total_clusters + 2 ≤ 2 ^ 28
  pub behind : g.fat_lba + (g.total_clusters + 1) / 128 < g.data_lba
  pub nonempty : 0 < g.sectors_per_clus
  pub fits : g.data_lba + g.total_clusters * g.sectors_per_clus ≤ 2 ^ 28

-- The clusters of the volume.
abbrev pub OnVolume : Geometry → ℕ → Type 0
OnVolume g c = (2 ≤ c) × (c < g.total_clusters + 2)

-- The first sector of a cluster, as a sum that does not wrap.
abbrev pub first_sector : Geometry → ℕ → ℕ
first_sector g c = g.data_lba + (c - 2) * g.sectors_per_clus

room_lem : (c total spc : ℕ) → c < total → c * spc + spc ≤ total * spc
room_lem c total spc h = grind arith

module _ (g : Geometry) (laid : IsLaidOut g) (c : ℕ) (on : OnVolume g c) where
  pub first_sector-room : first_sector g c + g.sectors_per_clus ≤ 2 ^ 28
  first_sector-room =
      omega (arith, room_lem (c - 2) g.total_clusters g.sectors_per_clus (omega arith), laid.fits)

  pub cluster_to_lba-first_sector : cluster_to_lba c g ≡ first_sector g c
  unfolding cluster_to_lba
  cluster_to_lba-first_sector =
      let minus : u32 (c + 2 ^ 32 - 2) ≡ c - 2 = omega (arith, laid.few) in
      ap (λ (x : ℕ). u32 (g.data_lba + u32 (x * g.sectors_per_clus))) minus
      ∙ omega (arith, first_sector-room, laid.nonempty)

  -- No sector of the table belongs to a cluster.
  pub entry_sector-lt : (k : ℕ) → k < g.total_clusters + 2 → entry_sector k g < g.data_lba
  entry_sector-lt k h = omega (arith, laid.few, laid.behind, laid.fits)

module _ {D : Type 0} (dev : BlockDevice D) (ok : Works dev) where
  -- `n` sectors from `lba` on are filled with zeros, and nothing else has changed.
  pub record Zeroed (s : Fat D) (lba n : ℕ) (t : Fat D) : Type 0 where
    pub geometry : t.geometry ≡ s.geometry
    pub blank : (k : ℕ) → k < 512 → t.sect_buf k ≡ 0
    pub sectors :
        (l i : ℕ)
        → l < 2 ^ 28
        → i < 512
        → sector_of dev ok t l i
          ≡ (if leb lba l && ltb l (lba + n) then 0 else sector_of dev ok s l i)

  -- Cluster `c` was free; it is now the end of a chain and full of zeros. The other entries of the
  -- table, and the sectors of the other clusters, are as they were.
  pub record Took (g : Geometry) (s : Fat D) (c : ℕ) (t : Fat D) : Type 0 where
    pub on : OnVolume g c
    pub was_free : entry dev ok s c ≡ 0
    pub geometry : t.geometry ≡ g
    pub entries :
        (k : ℕ)
        → k < g.total_clusters + 2
        → entry dev ok t k ≡ (if k == c then end_of_chain else entry dev ok s k)
    pub zeros :
        (j i : ℕ)
        → j < g.sectors_per_clus
        → i < 512
        → sector_of dev ok t (first_sector g c + j) i ≡ 0
    pub others :
        (l i : ℕ)
        → g.data_lba ≤ l
        → (l < first_sector g c) ⊎ (first_sector g c + g.sectors_per_clus ≤ l)
        → l < 2 ^ 28
        → i < 512
        → sector_of dev ok t l i ≡ sector_of dev ok s l i

  module _ (s : Fat D) (laid : IsLaidOut s.geometry) (c : ℕ) (on : OnVolume s.geometry c) where
    abbrev marked : Fat D
    marked = fat_set dev c end_of_chain s

  abbrev entry_same :
      (s t : Fat D) → SameDisk dev ok s t → (k : ℕ) → entry dev ok t k ≡ entry dev ok s k
  entry_same s t same k = ap (λ (x : ℕ). x % 2 ^ 28) (raw-SameDisk dev ok s t same k)

  -- The first free cluster at or after `from`, or 0 and the same disk if none is free.
  abbrev pub Allocates : Fat D → ℕ → ℕ × Fat D → Type 0
  Allocates s from (c, t) =
      ((from ≤ c) × Took s.geometry s c t × ((k : ℕ) → from ≤ k → k < c → entry dev ok s k ≢ 0))
      ⊎ ((c ≡ 0)
          × SameDisk dev ok s t
          × ((k : ℕ) → from ≤ k → k < s.geometry.total_clusters + 2 → entry dev ok s k ≢ 0))
