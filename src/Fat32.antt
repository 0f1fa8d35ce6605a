-- ===== src/Fat32.antt =====
-- kernel/fat32.c: the state of the mounted file system, the sectors, the table of clusters (FAT)
-- and what it allocates and frees. The disk is a parameter: a read gives whether it worked and the
-- buffer after it. Fat32/Disk.antt says what a disk that works does.
pub mod Names
pub mod Entries
pub mod Nodes
pub mod Scan
pub mod Files
pub mod Tree
pub mod Disk
pub mod Device
pub mod Table
pub mod Alloc
pub mod Chain
mod Tests
use lons_os.Base.{
  ℕ, zero, suc, ◌+◌, ◌-◌, ◌*◌, ◌/◌, ◌%◌, ◌^◌, Bool, true, false, not, ◌&&◌, ◌||◌, Option, none,
  some, ltb, leb, ◌==◌, if◌then◌else◌,
}
use lons_os.Base.Loops.{for_range}
use lons_os.Machine.{u32}
use lons_os.Machine.Bytes.{Buffer, le32, put32, fill_bytes}

-- `ata_read_sectors(lba, 1, g_sect_buf)` and `ata_write_sectors(lba, 1, g_sect_buf)`.
pub record BlockDevice (D : Type 0) : Type 0 where
  pub read : ℕ → Buffer → D → (Bool × Buffer) × D
  pub write : ℕ → Buffer → D → Bool × D

-- The fields of `g_fat32`.
pub record Geometry : Type 0 where
  pub fat_lba : ℕ
  pub data_lba : ℕ
  pub root_cluster : ℕ
  pub sectors_per_clus : ℕ
  pub bytes_per_clus : ℕ
  pub total_clusters : ℕ
  pub mounted : ℕ

-- `g_fat32`, `g_sect_buf` and the disk.
pub record Fat (D : Type 0) : Type 0 where
  pub geometry : Geometry
  pub sect_buf : Buffer
  pub disk : D

abbrev pub fat_free : ℕ
fat_free = 0

-- What a masked entry of a last cluster holds.
abbrev pub end_of_chain : ℕ
end_of_chain = 0x0FFFFFFF

abbrev pub fat_bad : ℕ
fat_bad = 0x0FFFFFF7

abbrev pub fat_eoc : ℕ
fat_eoc = 0x0FFFFFF8

-- `cluster >= 2 && cluster < 0x0FFFFFF7`
abbrev pub in_chain : ℕ → Bool
in_chain cluster = leb 2 cluster && ltb cluster fat_bad

-- `data_lba + (cluster - 2) * sectors_per_clus` in 32 bits.
unfoldable pub cluster_to_lba : ℕ → Geometry → ℕ
cluster_to_lba cluster g = u32 (g.data_lba + u32 (u32 (cluster + 2 ^ 32 - 2) * g.sectors_per_clus))

-- The sector and the byte of a cluster's entry.
abbrev pub entry_sector : ℕ → Geometry → ℕ
entry_sector cluster g = u32 (g.fat_lba + u32 (cluster * 4) / 512)

abbrev pub entry_byte : ℕ → ℕ
entry_byte cluster = u32 (cluster * 4) % 512

module _ {D : Type 0} (dev : BlockDevice D) where
  unfoldable pub read_sector : ℕ → Fat D → Bool × Fat D
  read_sector lba s =
      let ((ok, buf), d) = dev.read lba s.sect_buf s.disk in
      (ok, record s { sect_buf = buf; disk = d })

  unfoldable pub write_sector : ℕ → Fat D → Bool × Fat D
  write_sector lba s = let (ok, d) = dev.write lba s.sect_buf s.disk in (ok, record s { disk = d })

  unfoldable pub fat_get : ℕ → Fat D → ℕ × Fat D
  fat_get cluster s =
      let (ok, t) = read_sector (entry_sector cluster s.geometry) s in
      (if ok then le32 t.sect_buf (entry_byte cluster) % 2 ^ 28 else end_of_chain, t)

  -- `(existing & 0xF0000000) | (value & 0x0FFFFFFF)` has no bit in common: it is a sum.
  unfoldable pub fat_set : ℕ → ℕ → Fat D → Fat D
  fat_set cluster value s =
      let sector = entry_sector cluster s.geometry in
      let at = entry_byte cluster in
      let (ok, t) = read_sector sector s in
      let existing = le32 t.sect_buf at in
      let new_entry = existing - existing % 2 ^ 28 + value % 2 ^ 28 in
      let (done, u) = write_sector sector (record t { sect_buf = put32 at new_entry t.sect_buf }) in
      if ok then u else t

  -- The zeros that `fat_alloc` writes to a cluster.
  unfoldable pub clear_cluster : ℕ → Fat D → Fat D
  clear_cluster cluster s =
      let lba = cluster_to_lba cluster s.geometry in
      for_range s.geometry.sectors_per_clus 0 (λ i t. (write_sector (u32 (lba + i)) t).1)
        (record s { sect_buf = fill_bytes 0 512 0 s.sect_buf })

  -- What `fat_alloc` does with a free cluster.
  unfoldable pub take_cluster : ℕ → Fat D → Fat D
  take_cluster cluster s = clear_cluster cluster (fat_set cluster end_of_chain s)

  -- The scan of `fat_alloc` from cluster `c` on, `n` to go.
  unfoldable pub alloc_from : ℕ → ℕ → Fat D → ℕ × Fat D
  alloc_from zero c s = (0, s)
  alloc_from (suc n) c s =
      let (entry, t) = fat_get c s in
      let rest = alloc_from n (c + 1) t in if entry == fat_free then (c, take_cluster c t) else rest

  -- `total_clusters + 2` is a 32-bit sum.
  unfoldable pub fat_alloc : Fat D → ℕ × Fat D
  fat_alloc s = alloc_from (u32 (s.geometry.total_clusters + 2) - 2) 2 s

  -- `none` is for fuel that runs out.
  unfoldable pub fat_free_chain : ℕ → ℕ → Fat D → Option (Fat D)
  fat_free_chain zero cluster s = none
  fat_free_chain (suc fuel) cluster s =
      let (next, t) = fat_get cluster s in
      let rest = fat_free_chain fuel next (fat_set cluster fat_free t) in
      if in_chain cluster then rest else some s
