-- ===== src/Fat32/Entries.antt =====
-- The entries of directories in kernel/fat32.c: their fields, and what writes one.
use lons_os.Base.{
  ℕ, zero, suc, [], ◌∷◌, ◌+◌, ◌*◌, ◌/◌, ◌%◌, ◌&&◌, ◌||◌, List, Option, none, some, ltb, leb, ◌==◌,
  if◌then◌else◌,
}
use lons_os.Machine.{u32, write}
use lons_os.Machine.Bytes.{Buffer, le16, le32, put16, put32, fill_bytes, put_list}
use lons_os.Vfs.{vfs_dir}
use lons_os.Fat32.{
  BlockDevice, Fat, cluster_to_lba, read_sector, write_sector, fat_get, fat_set, fat_alloc,
  end_of_chain, fat_eoc,
}

abbrev pub attr_volid : ℕ
attr_volid = 0x08

abbrev pub attr_dir : ℕ
attr_dir = 0x10

abbrev pub attr_archive : ℕ
attr_archive = 0x20

abbrev pub attr_lfn : ℕ
attr_lfn = 0x0F

-- FAT32_MAX_DIR_CHILDREN
abbrev pub max_dir_children : ℕ
max_dir_children = 128

-- `fat32_inode_t`; `child_count` is the length of the list.
pub record Inode : Type 0 where
  pub first_cluster : ℕ
  pub file_size : ℕ
  pub is_dir : ℕ
  pub parent_cluster : ℕ
  pub dirent_byte_off : ℕ
  pub children : List ℕ
  pub children_loaded : ℕ

-- `(first_cluster_high << 16) | first_cluster_low` of the entry at `off`.
unfoldable pub first_cluster_at : ℕ → Buffer → ℕ
first_cluster_at off b = le16 b (off + 20) * 65536 + le16 b (off + 26)

unfoldable pub put_first_cluster : ℕ → ℕ → Buffer → Buffer
put_first_cluster off c b = put16 (off + 26) (c % 65536) (put16 (off + 20) (c / 65536) b)

unfoldable pub file_size_at : ℕ → Buffer → ℕ
file_size_at off b = le32 b (off + 28)

-- The entry that `fat32_create` writes at a free slot, the `e`-th of the sector.
unfoldable pub put_dirent : ℕ → List ℕ → List ℕ → ℕ → ℕ → Buffer → Buffer
put_dirent e n83 e83 type new_cluster b =
    let off = e * 32 in
    let b1 = put_list (off + 8) e83 (put_list off n83 (fill_bytes off 32 0 b)) in
    let b2 = write b1 (off + 11) (if type == vfs_dir then attr_dir else attr_archive) in
    let b3 = put32 (off + 28) 0 (put_first_cluster off new_cluster b2) in
    if b3 off == 0 && ltb (e + 1) 16 then write b3 (off + 32) 0 else b3

-- "." or "..", as `fat32_create` writes them to a new directory; `dots` are the first bytes.
unfoldable pub put_dots : ℕ → List ℕ → ℕ → Buffer → Buffer
put_dots off dots c b =
    put_first_cluster off c
      (write (put_list off dots (fill_bytes off 11 b' ' b)) (off + 11) attr_dir)

-- The first free entry of the sector from the `e`-th on.
unfoldable pub free_entry : ℕ → ℕ → Buffer → Option ℕ
free_entry zero e b = none
free_entry (suc n) e b =
    let later = free_entry n (e + 1) b in
    if b (e * 32) == 0 || b (e * 32) == 0xE5 then some e else later

module _ {D : Type 0} (dev : BlockDevice D) where
  -- The entry of a file changes on the disk, if it can be read.
  unfoldable pub patch_dirent : Inode → (ℕ → Buffer → Buffer) → Fat D → Fat D
  patch_dirent inode patch s =
      let db = inode.dirent_byte_off % s.geometry.bytes_per_clus in
      let lba_de = u32 (cluster_to_lba inode.parent_cluster s.geometry + db / 512) in
      let (good, t) = read_sector dev lba_de s in
      let (done, u) =
        write_sector dev lba_de (record t { sect_buf = patch (db % 512) t.sect_buf }) in
      if good then u else t

  -- The cluster behind `cluster`: a new one if it is the last, and `none` if there is no room.
  unfoldable pub next_or_new : ℕ → Fat D → Option ℕ × Fat D
  next_or_new cluster s =
      let (next, t) = fat_get dev cluster s in
      let (new_c, u) = fat_alloc dev t in
      if leb fat_eoc next
      then (if new_c == 0
          then (none, u)
          else (some new_c, fat_set dev new_c end_of_chain (fat_set dev cluster new_c u)))
      else (some next, t)

  -- The cluster of a new directory, with its first two entries, and 0 if there is no room.
  unfoldable pub new_directory : ℕ → Fat D → ℕ × Fat D
  new_directory parent_c s =
      let (new_cluster, t) = fat_alloc dev s in
      let b1 = put_dots 0 (b'.' ∷ []) new_cluster (fill_bytes 0 512 0 t.sect_buf) in
      let b2 = put_dots 32 (b'.' ∷ b'.' ∷ []) parent_c b1 in
      let (done, u) =
        write_sector dev (cluster_to_lba new_cluster t.geometry) (record t { sect_buf = b2 }) in
      if new_cluster == 0 then (0, t) else (new_cluster, u)

  -- A slot in a cluster, from sector `s` on; the entry is written there by `put`.
  unfoldable pub fill_slot : ℕ → ℕ → ℕ → (ℕ → Buffer → Buffer) → Fat D → Option (ℕ × ℕ) × Fat D
  fill_slot zero lba s put f = (none, f)
  fill_slot (suc n) lba s put f =
      let (good, t) = read_sector dev (u32 (lba + s)) f in
      let later = fill_slot n lba (s + 1) put t in
      if good
      then elim (free_entry 16 0 t.sect_buf) [
        | none ↦ later
        | some e ↦ (
          some (s, e),
          (write_sector dev (u32 (lba + s)) (record t { sect_buf = put e t.sect_buf })).1,
        )
      ]
      else (none, t)
