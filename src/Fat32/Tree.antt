-- ===== src/Fat32/Tree.antt =====
-- kernel/fat32.c: what changes the tree of directories, `fat32_create` and `fat32_unlink`, and
-- `fat32_mount`.
use lons_os.Base.{
  ℕ, zero, suc, ◌+◌, ◌-◌, ◌*◌, ◌/◌, ◌^◌, Bool, not, ◌&&◌, ◌||◌, List, [], ◌∷◌, Option, none, some,
  ltb, leb, ◌==◌, if◌then◌else◌, length,
}
use lons_os.Machine.{u32, write}
use lons_os.Machine.Bytes.{Buffer, le16, le32}
use lons_os.Machine.Signed.{ℤ, pos}
use lons_os.Heap.{Run, ok, halted, out_of_fuel, ◌>>=◌}
use lons_os.Vfs.{vfs_dir, err_inval}
use lons_os.Ramfs.{err_noempty, remove_child}
use lons_os.Fat32.{
  BlockDevice, Fat, Geometry, cluster_to_lba, in_chain, read_sector, fat_free_chain,
}
use lons_os.Fat32.Names.{make_83_name}
use lons_os.Fat32.Entries.{
  max_dir_children, put_dirent, patch_dirent, next_or_new, new_directory, fill_slot,
}
use lons_os.Fat32.Nodes.{Fs, release_at, make_node, inode_of, not_dir, adopt, dir_cluster}
use lons_os.Fat32.Scan.{load_dir_children, fat32_lookup}

-- The boot sector's geometry, or `none` if it is not one of FAT32.
unfoldable pub parse_bpb : Buffer → Option Geometry
parse_bpb b =
    let fat_lba = le16 b 14 in
    let data_lba = u32 (fat_lba + u32 (b 16 * le32 b 36)) in
    if not (le16 b 11 == 512)
    then none
    else if not (le16 b 22 == 0) || not (le16 b 17 == 0)
    then none
    else some (record {
      fat_lba = fat_lba;
      data_lba = data_lba;
      root_cluster = le32 b 44;
      sectors_per_clus = b 13;
      bytes_per_clus = b 13 * 512;
      total_clusters = u32 (le32 b 32 + 2 ^ 32 - data_lba) / b 13;
      mounted = 1;
    })

-- The new node is a child of `dir`, and in its cache if there is room.
unfoldable pub register : {D : Type 0} → ℕ → ℕ → Fs D → Fs D
register dir node s =
    if ltb (length (inode_of dir s).children) max_dir_children
    then adopt dir node s
    else record s { nodes = write s.nodes node (record (s.nodes node) { parent = dir }) }

module _ {D : Type 0} (dev : BlockDevice D) where
  -- The entry `put` in the first free slot from cluster `cluster` on, in a new cluster if the
  -- directory is full: its cluster and its offset, or `none`.
  unfoldable pub place_entry : ℕ → ℕ → (ℕ → Buffer → Buffer) → Fat D → Run (Option (ℕ × ℕ) × Fat D)
  place_entry zero cluster put s = out_of_fuel
  place_entry (suc fuel) cluster put s =
      let g = s.geometry in
      let (filled, t) = fill_slot dev g.sectors_per_clus (cluster_to_lba cluster g) 0 put s in
      let (next, u) = next_or_new dev cluster t in
      let rest = λ (next : ℕ). place_entry fuel next put u in
      if in_chain cluster
      then elim filled [
        | none ↦ elim next [ none ↦ ok (none, u) | some next ↦ rest next ]
        | some (sector, e) ↦
            ok (some (cluster, u32 (u32 (cluster * g.bytes_per_clus) + sector * 512 + e * 32)), t)
      ]
      else ok (none, s)

  abbrev pub free_chain : ℕ → ℕ → Fs D → Run (Fs D)
  free_chain fuel cluster s = elim (fat_free_chain dev fuel cluster s.fat) [
    | none ↦ out_of_fuel
    | some f ↦ ok (record s { fat = f })
  ]

  -- The entry on the disk, then the node; `new_cluster` is 0 for a file.
  unfoldable pub create_entry : ℕ → ℕ → ℕ → List ℕ → ℕ → ℕ → Fs D → Run (ℕ × Fs D)
  create_entry fuel ops dir name type new_cluster s =
      let (n83, e83) = make_83_name name in
      place_entry fuel (dir_cluster (inode_of dir s) s.fat.geometry)
        (λ e b. put_dirent e n83 e83 type new_cluster b) s.fat
      >>= λ (placed, f).
          let t = record s { fat = f } in
          elim placed [
            | none ↦
                (if type == vfs_dir && not (new_cluster == 0)
                  then free_chain fuel new_cluster t
                  else ok t)
                >>= λ u. ok (0, u)
            | some (dirent_cluster, dirent_off) ↦
                make_node ops name type new_cluster 0 dirent_cluster dirent_off t >>= λ (node, u).
                ok (node, if node == 0 then u else register dir node u)
          ]

  unfoldable pub fat32_create : ℕ → ℕ → ℕ → List ℕ → ℕ → Fs D → Run (ℕ × Fs D)
  fat32_create fuel ops dir name type s =
      if not_dir dir s
      then ok (0, s)
      else fat32_lookup dev fuel ops dir name s >>= λ (same, t).
          let (c, f) = new_directory dev (dir_cluster (inode_of dir t) t.fat.geometry) t.fat in
          let u = record t { fat = f } in
          if not (same == 0)
          then ok (0, t)
          else if type == vfs_dir
          then (if c == 0 then ok (0, u) else create_entry fuel ops dir name type c u)
          else create_entry fuel ops dir name type 0 t

  -- `fat32_unlink` behind its checks.
  unfoldable pub remove_entry : ℕ → ℕ → ℕ → Fs D → Run (ℤ × Fs D)
  remove_entry fuel parent node s =
      let at = (s.nodes parent).fs_data in
      let freed = (s.nodes node).fs_data in
      let inode = s.inodes freed in
      let t = record s { fat = patch_dirent dev inode (λ off b. write b off 0xE5) s.fat } in
      (if leb 2 inode.first_cluster then free_chain fuel inode.first_cluster t else ok t) >>= λ u.
      let p = u.inodes at in
      let v = record u {
        inodes = write u.inodes at (record p { children = remove_child node p.children });
      } in
      release_at freed v >>= λ w. release_at node w >>= λ x. ok (pos 0, x)

  unfoldable pub fat32_unlink : ℕ → ℕ → ℕ → ℕ → Fs D → Run (ℤ × Fs D)
  fat32_unlink fuel ops parent node s =
      if parent == 0 || node == 0
      then ok (err_inval, s)
      else if (s.nodes node).type == vfs_dir
      then (load_dir_children dev fuel ops node s >>= λ t.
          if ltb 0 (length (inode_of node t).children)
          then ok (err_noempty, t)
          else remove_entry fuel parent node t)
      else remove_entry fuel parent node s

  -- `present` is what `ata_is_present` returns. The division by `sectors_per_cluster` faults if
  -- that is 0, and the handler of the exception halts.
  unfoldable pub fat32_mount : Bool → ℕ → Fs D → Run (ℕ × Fs D)
  fat32_mount present ops s =
      let (good, f) = read_sector dev 0 s.fat in
      let t = record s { fat = f } in
      if not present
      then ok (0, s)
      else if not good
      then ok (0, t)
      else elim (parse_bpb f.sect_buf) [
        | none ↦ ok (0, t)
        | some g ↦
            if g.sectors_per_clus == 0
            then halted
            else (make_node ops (b'/' ∷ []) vfs_dir 0 0 0 0
                  (record t { fat = record f { geometry = g } })
                >>= λ (root, u). ok (
                  root,
                  if root == 0 then u else record u {
                    nodes = write u.nodes root (record (u.nodes root) { parent = root });
                  },
                ))
      ]
