-- ===== src/Fat32/Files/Content.antt =====
-- The contents of a chain of clusters, and what `fat32_read` takes of one of them.
use lons_os.Base.{
  ℕ, suc, ◌+◌, ◌-◌, ◌*◌, ◌^◌, ◌<◌, ◌≤◌, ◌≡◌, ◌⊎◌, inl, inr, sym, subst, ap, ap₂, ◌∙◌, arith, true,
  false, List, [], ◌∷◌, ◌++◌, if◌then◌else◌, Bool-cases, ltb,
}
use lons_os.Machine.{u32}
use lons_os.Machine.Bytes.{Buffer, bytes_at}
use lons_os.Fat32.{BlockDevice, Fat, Geometry, cluster_to_lba}
use lons_os.Fat32.Disk.{Works}
use lons_os.Fat32.Table.{SameDisk}
use lons_os.Fat32.Files.{Reading, read_sectors, read_cluster}
use lons_os.Fat32.Files.Copy.{
  min, bytes_at_cong, bytes_at-add, bytes_from, Copied, Copied-nothing, Copied-clus_off,
  read_sectors-Copied,
}

-- Clusters of at most 255 sectors, as the boot sector's byte has it.
pub record HasClusters (g : Geometry) : Type 0 where
  pub bytes : g.bytes_per_clus ≡ g.sectors_per_clus * 512
  pub nonempty : 0 < g.sectors_per_clus
  pub small : g.sectors_per_clus < 256

-- Behind a cluster of `b` bytes from `skipped` on nothing is left, or the offset lies behind it.
pub min-moved :
    (skipped off rem b m to left : ℕ)
    → skipped ≤ off
    → m ≡ min rem (b - (off - skipped))
    → to ≡ off + m
    → left + m ≡ rem
    → (left ≡ 0) ⊎ (skipped + b ≤ to)
min-moved skipped off rem b m to left low e f g =
    elim (Bool-cases (ltb rem (b - (off - skipped)))) [
      | inl less ↦ inl (ground arith)
      | inr more ↦ inr (ground arith)
    ]

pub suc_room : (n b : ℕ) → suc n * b ≡ b + n * b
suc_room n b = grind arith

module _ {D : Type 0} (dev : BlockDevice D) (works : Works dev) (s : Fat D) where
  abbrev pub cluster_bytes : ℕ → Buffer
  cluster_bytes c = bytes_from dev works s (cluster_to_lba c s.geometry)

  -- The bytes of the clusters, one after the other.
  unfoldable pub content : List ℕ → Buffer
  content [] k = 0
  content (c ∷ cs) k =
      if ltb k s.geometry.bytes_per_clus
      then cluster_bytes c k
      else content cs (k - s.geometry.bytes_per_clus)

  -- What comes of one cluster and what of those behind it.
  pub content-split :
      (c : ℕ) (cs : List ℕ) (rem from m next : ℕ)
      → m ≡ min rem (s.geometry.bytes_per_clus - from)
      → (rem - m ≡ 0) ⊎ (next + s.geometry.bytes_per_clus ≡ from + m)
      → bytes_at m from (cluster_bytes c) ++ bytes_at (rem - m) next (content cs)
        ≡ bytes_at rem from (content (c ∷ cs))
  unfolding content
  content-split c cs rem from m next e at =
      let whole : m + (rem - m) ≡ rem = ground arith in
      ap₂ ◌++◌ (bytes_at_cong m from from _ (content (c ∷ cs)) (λ i h. ground arith)) (
        bytes_at_cong (rem - m) next (from + m) (content cs) (content (c ∷ cs)) (λ i h.
          let moved : next + s.geometry.bytes_per_clus ≡ from + m = elim at [
            | inl z ↦ absurd (omega arith)
            | inr x ↦ x
          ] in
          let behind : ltb (from + m + i) s.geometry.bytes_per_clus ≡ false = ground arith in
          rw behind (ap (content cs) (omega arith))))
      ∙ bytes_at-add m (rem - m) from (content (c ∷ cs))
      ∙ ap (λ (x : ℕ). bytes_at x from (content (c ∷ cs))) whole

  -- What one cluster gives, at an offset of at least `skipped` if bytes are left.
  pub read_cluster-Copied :
      (c skipped : ℕ) (r : Reading D)
      → HasClusters s.geometry
      → SameDisk dev works s r.fat
      → r.offset < 2 ^ 32
      → (r.remaining ≡ 0) ⊎ (skipped ≤ r.offset)
      → Copied dev works s
          (cluster_bytes c)
          (r.offset - skipped)
          s.geometry.bytes_per_clus
          r
          (read_cluster dev c skipped r)
  unfolding read_cluster
  read_cluster-Copied c skipped r clusters same small at =
      let o = λ (g : Geometry).
        if ltb r.offset (skipped + g.bytes_per_clus)
        then read_sectors dev g.sectors_per_clus 0 (cluster_to_lba c g)
            (record r { clus_off = u32 (r.offset - skipped) })
        else (true, r) in
      subst
        (λ (g : Geometry).
          Copied dev works s (cluster_bytes c) (r.offset - skipped) s.geometry.bytes_per_clus r
            (o g))
        (sym same.geometry)
        (elim (Bool-cases (ltb r.offset (skipped + s.geometry.bytes_per_clus))) [
          | inr behind ↦ rw behind (Copied-nothing dev works s _ _ _ r same (ground (arith)))
          | inl here ↦
              let from : u32 (r.offset - skipped) ≡ r.offset - skipped = omega arith in
              let bound : u32 (r.offset - skipped) ≤ s.geometry.sectors_per_clus * 512 =
                ground (arith, clusters.bytes) in
              rw here (
                Copied-clus_off dev works s (cluster_bytes c) (r.offset - skipped)
                  (u32 (r.offset - skipped)) s.geometry.bytes_per_clus
                  (s.geometry.sectors_per_clus * 512) (u32 (r.offset - skipped)) r _ from
                  (sym clusters.bytes)
                  (read_sectors-Copied dev works s s.geometry.sectors_per_clus 0
                    s.geometry.sectors_per_clus (cluster_to_lba c s.geometry)
                    (record r { clus_off = u32 (r.offset - skipped) }) same (omega arith)
                    (omega (arith, clusters.small)) (inr (omega arith)) bound))
        ])
