-- ===== src/Fat32/Nodes.antt =====
-- kernel/fat32.c: nodes and inodes by their heap address, as in Ramfs.antt, and how they are made
-- and put into the cache of their directory.
use lons_os.Base.{ℕ, Bool, not, ◌||◌, List, [], ◌∷◌, ◌++◌, ltb, ◌==◌, if◌then◌else◌, length}
use lons_os.Machine.{write}
use lons_os.Heap.{Heap, Run, ok, ◌>>=◌, kzalloc, kfree}
use lons_os.Vfs.{Node, vfs_dir}
use lons_os.Vfs.Path.{name_max, vfs_strcmp}
use lons_os.Fat32.{Fat, Geometry}
use lons_os.Fat32.Names.{f_strncpy}
use lons_os.Fat32.Entries.{Inode, max_dir_children}

-- `sizeof(vfs_node_t)` and `sizeof(fat32_inode_t)`.
abbrev pub node_size : ℕ
node_size = 112

abbrev pub inode_size : ℕ
inode_size = 1056

abbrev pub f_strcmp : List ℕ → List ℕ → Bool
f_strcmp = vfs_strcmp

-- The first cluster of a directory; the root's inode has 0.
abbrev pub dir_cluster : Inode → Geometry → ℕ
dir_cluster inode g = if inode.first_cluster == 0 then g.root_cluster else inode.first_cluster

-- The driver's state with the nodes it has made.
pub record Fs (D : Type 0) : Type 0 where
  pub fat : Fat D
  pub heap : Heap
  pub nodes : ℕ → Node
  pub inodes : ℕ → Inode

module _ {D : Type 0} where
  abbrev pub on_heap : Fs D → Run (ℕ × Heap) → Run (ℕ × Fs D)
  on_heap s r = r >>= λ (ptr, k). ok (ptr, record s { heap = k })

  abbrev pub release_at : ℕ → Fs D → Run (Fs D)
  release_at ptr s = kfree ptr s.heap >>= λ k. ok (record s { heap = k })

  -- `make_node` behind both allocations.
  unfoldable pub init_node : ℕ → ℕ → ℕ → List ℕ → ℕ → Inode → Fs D → Fs D
  init_node ops node at name type inode s = record s {
    nodes = write s.nodes node (record {
      name = f_strncpy name name_max;
      type = type;
      size = inode.file_size;
      ops = ops;
      fs_data = at;
      parent = 0;
      mount = 0;
    });
    inodes = write s.inodes at inode;
  }

  unfoldable pub make_node : ℕ → List ℕ → ℕ → ℕ → ℕ → ℕ → ℕ → Fs D → Run (ℕ × Fs D)
  make_node ops name type first_cluster size parent_cluster dirent_off s =
      let inode : Inode = record {
        first_cluster = first_cluster;
        file_size = size;
        is_dir = if type == vfs_dir then 1 else 0;
        parent_cluster = parent_cluster;
        dirent_byte_off = dirent_off;
        children = [];
        children_loaded = 0;
      } in
      on_heap s (kzalloc node_size s.heap) >>= λ (node, t).
      if node == 0
      then ok (0, t)
      else on_heap t (kzalloc inode_size t.heap) >>= λ (at, u).
          if at == 0
          then (release_at node u >>= λ v. ok (0, v))
          else ok (node, init_node ops node at name type inode u)

  -- The inode of a node.
  abbrev pub inode_of : ℕ → Fs D → Inode
  inode_of node s = s.inodes (s.nodes node).fs_data

  -- `!dir || dir->type != VFS_DIR`
  abbrev pub not_dir : ℕ → Fs D → Bool
  not_dir dir s = dir == 0 || not ((s.nodes dir).type == vfs_dir)

  -- A node becomes a child: its parent, and the parent's cache.
  unfoldable pub adopt : ℕ → ℕ → Fs D → Fs D
  adopt dir child s =
      let at = (s.nodes dir).fs_data in
      let p = s.inodes at in
      record s {
        nodes = write s.nodes child (record (s.nodes child) { parent = dir });
        inodes = write s.inodes at (record p { children = p.children ++ (child ∷ []) });
      }

  -- The child that an entry describes, if there is room for it.
  unfoldable pub add_child : ℕ → ℕ → List ℕ → ℕ → ℕ → ℕ → ℕ → ℕ → Fs D → Run (Fs D)
  add_child ops dir name type first fsize cluster dirent_off s =
      if ltb (length (inode_of dir s).children) max_dir_children
      then (make_node ops name type first fsize cluster dirent_off s >>= λ (child, t).
          ok (if child == 0 then t else adopt dir child t))
      else ok s

  unfoldable pub find_child : List ℕ → List ℕ → Fs D → ℕ
  find_child [] name s = 0
  find_child (c ∷ cs) name s =
      let later = find_child cs name s in if f_strcmp (s.nodes c).name name then c else later
