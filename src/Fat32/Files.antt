-- ===== src/Fat32/Files.antt =====
-- kernel/fat32.c: reading and writing a file along its chain of clusters. Fuel counts the clusters;
-- `out_of_fuel` is for a chain that goes on longer.
pub mod Overlay
pub mod Put
pub mod Linked
pub mod Parts
pub mod PutAll
pub mod Skip
pub mod Write
pub mod Copy
pub mod Content
pub mod Read
use lons_os.Base.{
  ℕ, zero, suc, ◌+◌, ◌-◌, ◌*◌, ◌/◌, ◌%◌, Bool, true, false, not, ◌&&◌, ◌||◌, List, [], ◌∷◌, ◌++◌,
  Option, none, some, ltb, leb, ◌==◌, if◌then◌else◌, length, take, drop,
}
use lons_os.Machine.{u32, u64, write}
use lons_os.Machine.Bytes.{Buffer, bytes_at, put_list, put32}
use lons_os.Machine.Signed.{ℤ, pos, negsuc}
use lons_os.Heap.{Run, ok, out_of_fuel, ◌>>=◌}
use lons_os.Vfs.{Node, vfs_file, err_isdir, err_inval, err_nospace}
use lons_os.Fat32.{
  BlockDevice, Fat, Geometry, cluster_to_lba, read_sector, write_sector, fat_get, fat_alloc,
  in_chain,
}
use lons_os.Fat32.Entries.{Inode, put_first_cluster, patch_dirent, next_or_new}
use lons_os.Fat32.Nodes.{Fs, inode_of}

-- The variables of `fat32_read`; `out` has the bytes copied so far.
pub record Reading (D : Type 0) : Type 0 where
  pub fat : Fat D
  pub out : List ℕ
  pub offset : ℕ
  pub remaining : ℕ
  pub clus_off : ℕ

-- The variables of `fat32_write`; `src` has the `remaining` bytes. A null
-- buffer is not modelled.
pub record Writing (D : Type 0) : Type 0 where
  pub fat : Fat D
  pub src : List ℕ
  pub written : ℕ
  pub file_offset : ℕ

module _ {D : Type 0} (dev : BlockDevice D) where
  -- The part of a sector that is copied, once it is in the buffer.
  unfoldable pub copy_out : ℕ → Reading D → Reading D
  copy_out s r =
      let sect_start = u32 (s * 512) in
      let read_from = if ltb sect_start r.clus_off then r.clus_off - sect_start else 0 in
      let avail = 512 - read_from in
      let copy_n = if ltb r.remaining avail then r.remaining else avail in
      record r {
        out = r.out ++ bytes_at copy_n read_from r.fat.sect_buf;
        offset = r.offset + copy_n;
        remaining = r.remaining - copy_n;
        clus_off = u32 (r.clus_off + copy_n);
      }

  -- The sectors of a cluster from the `s`-th on; `false` is for one that cannot be read.
  unfoldable pub read_sectors : ℕ → ℕ → ℕ → Reading D → Bool × Reading D
  read_sectors zero s lba r = (true, r)
  read_sectors (suc n) s lba r =
      let (good, f) = read_sector dev (u32 (lba + s)) r.fat in
      let read = record r { fat = f } in
      let skip = read_sectors n (s + 1) lba r in
      let rest = read_sectors n (s + 1) lba (copy_out s read) in
      if r.remaining == 0
      then (true, r)
      else if leb (u32 (u32 (s * 512) + 512)) r.clus_off
      then skip
      else if good
      then rest
      else (false, read)

  -- One cluster; it is passed over if the offset lies behind it.
  unfoldable pub read_cluster : ℕ → ℕ → Reading D → Bool × Reading D
  read_cluster cluster bytes_skipped r =
      let g = r.fat.geometry in
      if ltb r.offset (bytes_skipped + g.bytes_per_clus)
      then read_sectors g.sectors_per_clus 0 (cluster_to_lba cluster g)
          (record r { clus_off = u32 (r.offset - bytes_skipped) })
      else (true, r)

  unfoldable pub read_clusters : ℕ → ℕ → ℕ → Reading D → Run (Bool × Reading D)
  read_clusters zero cluster bytes_skipped r = out_of_fuel
  read_clusters (suc fuel) cluster bytes_skipped r =
      let (good, t) = read_cluster cluster bytes_skipped r in
      let (next, f) = fat_get dev cluster t.fat in
      let rest =
        read_clusters fuel next (bytes_skipped + t.fat.geometry.bytes_per_clus)
          (record t { fat = f }) in
      if in_chain cluster && not (r.remaining == 0)
      then (if good then rest else ok (false, t))
      else ok (true, r)

  -- The result, the bytes copied to `buf` and the state.
  unfoldable pub fat32_read : ℕ → ℕ → ℕ → ℕ → Fs D → Run ((ℤ × List ℕ) × Fs D)
  fat32_read fuel node offset len s =
      let inode = inode_of node s in
      let available = inode.file_size - offset in
      let to_read = if ltb len available then len else available in
      let start : Reading D = record {
        fat = s.fat;
        out = [];
        offset = offset;
        remaining = to_read;
        clus_off = 0;
      } in
      if node == 0 || not ((s.nodes node).type == vfs_file)
      then ok ((err_isdir, []), s)
      else if leb inode.file_size offset
      then ok ((pos 0, []), s)
      else read_clusters fuel inode.first_cluster 0 start >>= λ (good, r). ok (
        (if good then pos (to_read - r.remaining) else err_inval, r.out),
        record s { fat = r.fat },
      )

  -- The sectors of a cluster from `sector_idx` on, `n` to go; `false` is for `goto done`.
  unfoldable pub write_sectors : ℕ → ℕ → ℕ → ℕ → Writing D → Bool × Writing D
  write_sectors zero sector_idx sector_off lba w = (true, w)
  write_sectors (suc n) sector_idx sector_off lba w =
      let room = 512 - sector_off in
      let copy_n = if ltb (length w.src) room then length w.src else room in
      let (good, t) = read_sector dev (u32 (lba + sector_idx)) w.fat in
      let changed = record t { sect_buf = put_list sector_off (take copy_n w.src) t.sect_buf } in
      let (done, u) = write_sector dev (u32 (lba + sector_idx)) changed in
      let rest = write_sectors n (sector_idx + 1) 0 lba (record {
        fat = u;
        src = drop copy_n w.src;
        written = w.written + copy_n;
        file_offset = w.file_offset + copy_n;
      }) in
      if length w.src == 0 then (true, w) else if good then rest else (false, record w { fat = t })

  -- `while (remaining > 0)`, with the cluster at hand and its first byte.
  unfoldable pub write_clusters : ℕ → ℕ → ℕ → Writing D → Run (Writing D)
  write_clusters zero cluster clus_base w = out_of_fuel
  write_clusters (suc fuel) cluster clus_base w =
      let g = w.fat.geometry in
      let clus_off = u32 (w.file_offset - clus_base) in
      let (good, t) =
        write_sectors (g.sectors_per_clus - clus_off / 512) (clus_off / 512) (clus_off % 512)
          (cluster_to_lba cluster g) w in
      let (found, f) = next_or_new dev cluster t.fat in
      if length w.src == 0
      then ok w
      else if not good || length t.src == 0
      then ok t
      else elim found [
        | none ↦ ok (record t { fat = f })
        | some next ↦ write_clusters fuel next (clus_base + g.bytes_per_clus) (record t { fat = f })
      ]

  -- The cluster that has `file_offset` and its first byte, or `none` if there is no room.
  unfoldable pub skip_clusters : ℕ → ℕ → ℕ → ℕ → Fat D → Run (Option (ℕ × ℕ) × Fat D)
  skip_clusters zero cluster clus_base file_offset s = out_of_fuel
  skip_clusters (suc fuel) cluster clus_base file_offset s =
      let bytes = s.geometry.bytes_per_clus in
      let (found, t) = next_or_new dev cluster s in
      if leb (clus_base + bytes) file_offset
      then elim found [
        | none ↦ ok (none, t)
        | some next ↦ skip_clusters fuel next (clus_base + bytes) file_offset t
      ]
      else ok (some (cluster, clus_base), s)

  -- A file without a cluster gets its first, which is noted in its entry on the disk.
  unfoldable pub first_cluster_of : ℕ → Fs D → ℕ × Fs D
  first_cluster_of node s =
      let at = (s.nodes node).fs_data in
      let inode = s.inodes at in
      let (c, f) = fat_alloc dev s.fat in
      if inode.first_cluster == 0
      then (if c == 0 then (0, record s { fat = f }) else (
        c,
        record s {
          fat = patch_dirent dev inode (λ off b. put_first_cluster off c b) f;
          inodes = write s.inodes at (record inode { first_cluster = c });
        },
      ))
      else (inode.first_cluster, s)

  -- The end of `fat32_write`: the size, in memory and on the disk, if the file has grown.
  unfoldable pub note_size : ℕ → ℕ → Fs D → Fs D
  note_size node new_end s =
      let at = (s.nodes node).fs_data in
      let inode = s.inodes at in
      if ltb inode.file_size new_end
      then record s {
        fat = patch_dirent dev inode (λ off b. put32 (off + 28) (u32 new_end) b) s.fat;
        nodes = write s.nodes node (record (s.nodes node) { size = u32 new_end });
        inodes = write s.inodes at (record inode { file_size = u32 new_end });
      }
      else s

  unfoldable pub fat32_write : ℕ → ℕ → ℕ → List ℕ → Fs D → Run (ℤ × Fs D)
  fat32_write fuel node offset src s =
      let (c, t) = first_cluster_of node s in
      if node == 0 || not ((s.nodes node).type == vfs_file)
      then ok (err_isdir, s)
      else if length src == 0
      then ok (pos 0, s)
      else if c == 0
      then ok (err_nospace, t)
      else skip_clusters fuel c 0 offset t.fat >>= λ (found, f). elim found [
        | none ↦ ok (err_nospace, record t { fat = f })
        | some (cluster, clus_base) ↦
            write_clusters fuel cluster clus_base
              (record { fat = f; src = src; written = 0; file_offset = offset })
            >>= λ w. ok (
              pos w.written,
              note_size node (u64 (offset + w.written)) (record t { fat = w.fat }),
            )
      ]
