-- ===== src/Fat32/Scan.antt =====
-- kernel/fat32.c: the scan of a directory and what looks through its children. A scan that runs out
-- of fuel is `out_of_fuel`: a table of clusters with a cycle makes the code run for ever.
use lons_os.Base.{
  ℕ, zero, suc, ◌+◌, ◌*◌, Bool, true, false, not, ◌&&◌, ◌||◌, List, ◌==◌, if◌then◌else◌, length,
  get_or,
}
use lons_os.Base.Bits.{test_bit}
use lons_os.Machine.{u32, write}
use lons_os.Machine.Bytes.{Buffer, bytes_at}
use lons_os.Heap.{Run, ok, out_of_fuel, ◌>>=◌}
use lons_os.Vfs.{vfs_file, vfs_dir}
use lons_os.Fat32.{BlockDevice, cluster_to_lba, read_sector, fat_get, in_chain}
use lons_os.Fat32.Names.{f_strncpy, parse_83_name, lfn_to_ascii}
use lons_os.Fat32.Entries.{attr_lfn, first_cluster_at, file_size_at}
use lons_os.Fat32.Nodes.{Fs, inode_of, not_dir, add_child, find_child, dir_cluster}

-- What a scan of a directory keeps from one entry to the next.
pub record Scan (D : Type 0) : Type 0 where
  pub fs : Fs D
  pub lfn_buf : Buffer
  pub lfn_pending : Bool

module _ {D : Type 0} where
  -- A part of a long name.
  unfoldable pub lfn_entry : ℕ → Scan D → Scan D
  lfn_entry off r =
      let first = test_bit (r.fs.fat.sect_buf off) 6 == 1 in
      let buf = if first then (λ i. 0) else r.lfn_buf in
      let pending = first || r.lfn_pending in
      record r {
        lfn_buf = if pending then lfn_to_ascii off r.fs.fat.sect_buf buf else buf;
        lfn_pending = pending;
      }

  -- The name of the entry at `off`: the long one if it was read and is not empty.
  unfoldable pub entry_name : ℕ → Scan D → List ℕ
  entry_name off r =
      let b = r.fs.fat.sect_buf in
      if r.lfn_pending && not (r.lfn_buf 0 == 0)
      then f_strncpy (bytes_at 256 0 r.lfn_buf) 256
      else parse_83_name (bytes_at 8 off b) (bytes_at 3 (off + 8) b)

  -- One entry of a directory; `true` is for the end of the directory.
  unfoldable pub scan_entry : ℕ → ℕ → ℕ → ℕ → ℕ → Scan D → Run (Bool × Scan D)
  scan_entry ops dir cluster sector e r =
      let off = e * 32 in
      let b = r.fs.fat.sect_buf in
      let attr = b (off + 11) in
      let skipped : Scan D = record r { lfn_pending = false } in
      let dirent_abs_off =
        u32 (u32 (cluster * r.fs.fat.geometry.bytes_per_clus) + (sector * 512 + off)) in
      if b off == 0
      then ok (true, r)
      else if b off == 0xE5
      then ok (false, skipped)
      else if attr == attr_lfn
      then ok (false, lfn_entry off r)
      else if test_bit attr 3 == 1
      then ok (false, skipped)
      else if b off == b'.'
      then ok (false, skipped)
      else (add_child ops dir (entry_name off r)
            (if test_bit attr 4 == 1 then vfs_dir else vfs_file) (first_cluster_at off b)
            (file_size_at off b) cluster dirent_abs_off r.fs
          >>= λ t. ok (false, record skipped { fs = t }))

  unfoldable pub scan_entries : ℕ → ℕ → ℕ → ℕ → ℕ → ℕ → Scan D → Run (Bool × Scan D)
  scan_entries ops dir cluster sector zero e r = ok (false, r)
  scan_entries ops dir cluster sector (suc n) e r =
      scan_entry ops dir cluster sector e r >>= λ (done, t).
      let rest = scan_entries ops dir cluster sector n (e + 1) t in
      if done then ok (true, t) else rest

module _ {D : Type 0} (dev : BlockDevice D) where
  -- The sectors of a cluster; one that cannot be read ends the cluster.
  unfoldable pub scan_sectors : ℕ → ℕ → ℕ → ℕ → ℕ → Scan D → Run (Bool × Scan D)
  scan_sectors ops dir cluster zero s r = ok (false, r)
  scan_sectors ops dir cluster (suc n) s r =
      let lba = cluster_to_lba cluster r.fs.fat.geometry in
      let (good, f) = read_sector dev (u32 (lba + s)) r.fs.fat in
      let t : Scan D = record r { fs = record (r.fs) { fat = f } } in
      if good
      then (scan_entries ops dir cluster s 16 0 t >>= λ (done, u).
          let rest = scan_sectors ops dir cluster n (s + 1) u in
          if done then ok (true, u) else rest)
      else ok (false, t)

  unfoldable pub scan_clusters : ℕ → ℕ → ℕ → ℕ → Scan D → Run (Fs D)
  scan_clusters zero ops dir cluster r = out_of_fuel
  scan_clusters (suc fuel) ops dir cluster r =
      if in_chain cluster
      then (scan_sectors ops dir cluster r.fs.fat.geometry.sectors_per_clus 0 r >>= λ (done, t).
          let (next, f) = fat_get dev cluster t.fs.fat in
          let rest =
            scan_clusters fuel ops dir next (record t { fs = record (t.fs) { fat = f } }) in
          if done then ok t.fs else rest)
      else ok r.fs

  -- `lfn_buf` is not read before the first part of a long name clears it.
  unfoldable pub load_dir_children : ℕ → ℕ → ℕ → Fs D → Run (Fs D)
  load_dir_children fuel ops dir s =
      let at = (s.nodes dir).fs_data in
      let t : Fs D = record s {
        inodes = write s.inodes at (record (s.inodes at) { children_loaded = 1 });
      } in
      if (s.inodes at).children_loaded == 0
      then scan_clusters fuel ops dir (dir_cluster (s.inodes at) s.fat.geometry)
          (record { fs = t; lfn_buf = λ i. 0; lfn_pending = false })
      else ok s

  unfoldable pub fat32_lookup : ℕ → ℕ → ℕ → List ℕ → Fs D → Run (ℕ × Fs D)
  fat32_lookup fuel ops dir name s =
      if not_dir dir s
      then ok (0, s)
      else load_dir_children fuel ops dir s >>= λ t.
          ok (find_child (inode_of dir t).children name t, t)

  -- The cast to `int` makes an index from 2^31 on negative: the code then reads before the array,
  -- and the model gives 0 there.
  unfoldable pub fat32_readdir_fn : ℕ → ℕ → ℕ → ℕ → Fs D → Run (ℕ × Fs D)
  fat32_readdir_fn fuel ops dir index s =
      if not_dir dir s
      then ok (0, s)
      else load_dir_children fuel ops dir s >>= λ t.
          ok (get_or (inode_of dir t).children index 0, t)

  unfoldable pub fat32_childcount : ℕ → ℕ → ℕ → Fs D → Run (ℕ × Fs D)
  fat32_childcount fuel ops dir s =
      if not_dir dir s
      then ok (0, s)
      else load_dir_children fuel ops dir s >>= λ t. ok (length (inode_of dir t).children, t)
