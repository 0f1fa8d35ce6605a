-- ===== src/Ramfs.antt =====
-- kernel/ramfs.c: the file system in memory. Nodes and inodes are kept by their heap address and
-- the bytes of files lie in the heap's memory; what an allocation or release does is kernel/heap.c.
pub mod Capacity
pub mod Bytes
pub mod Store
pub mod Grow
pub mod Write
mod Tests
use lons_os.Base.{
  ℕ, zero, suc, ◌+◌, ◌-◌, ◌*◌, Bool, true, false, not, ◌&&◌, ◌||◌, List, [], ◌∷◌, ◌++◌, ltb, leb,
  ◌==◌, if◌then◌else◌, length, get_or,
}
use lons_os.Base.Loops.{for_range}
use lons_os.Machine.{u64, write, Memory}
use lons_os.Machine.Signed.{ℤ, pos, negsuc}
use lons_os.Heap.{Heap, Run, ok, ◌>>=◌, kmalloc, kzalloc, kfree}
use lons_os.Vfs.{Node, vfs_file, vfs_dir, err_isdir, err_nospace, err_inval}
use lons_os.Vfs.Path.{name_max, vfs_strcmp, vfs_strncpy}

abbrev pub max_children : ℕ
max_children = 64

abbrev pub max_filesize : ℕ
max_filesize = 524288

abbrev pub initial_cap : ℕ
initial_cap = 256

-- VFS_ERR_NOEMPTY
abbrev pub err_noempty : ℤ
err_noempty = negsuc 7

-- `sizeof(vfs_node_t)` and `sizeof(ramfs_inode_t)`.
abbrev pub node_size : ℕ
node_size = 112

abbrev pub inode_size : ℕ
inode_size = 552

-- `ramfs_inode_t`; `child_count` is the length of the list.
pub record Inode : Type 0 where
  pub type : ℕ
  pub data_at : ℕ
  pub size : ℕ
  pub capacity : ℕ
  pub children : List ℕ

pub record Ramfs : Type 0 where
  pub heap : Heap
  pub nodes : ℕ → Node
  pub inodes : ℕ → Inode

-- The heap's answer, put back into the state.
abbrev pub on_heap : Ramfs → Run (ℕ × Heap) → Run (ℕ × Ramfs)
on_heap s r = r >>= λ (ptr, k). ok (ptr, record s { heap = k })

abbrev pub release_at : ℕ → Ramfs → Run Ramfs
release_at ptr s = kfree ptr s.heap >>= λ k. ok (record s { heap = k })

-- `r_memcpy` of a buffer to `dst`, `r_memset`, and the bytes that a `r_memcpy` to a buffer reads.
unfoldable pub put_bytes : ℕ → List ℕ → Memory → Memory
put_bytes dst [] m = m
put_bytes dst (b ∷ bs) m = put_bytes (dst + 1) bs (write m dst b)

unfoldable pub r_memset : ℕ → ℕ → ℕ → Memory → Memory
r_memset ptr val n m = for_range n 0 (λ i m. write m (ptr + i) val) m

unfoldable pub r_memcpy : ℕ → ℕ → ℕ → Memory → Memory
r_memcpy dst src n m = for_range n 0 (λ i m. write m (dst + i) (m (src + i))) m

unfoldable pub get_bytes : ℕ → ℕ → Memory → List ℕ
get_bytes zero src m = []
get_bytes (suc n) src m = m src ∷ get_bytes n (src + 1) m

unfoldable pub alloc_node : ℕ → List ℕ → ℕ → Ramfs → Run (ℕ × Ramfs)
alloc_node ops name type s = on_heap s (kzalloc node_size s.heap) >>= λ (node, t). ok (
  node,
  if node == 0 then t else record t {
    nodes = write t.nodes node (record {
      name = vfs_strncpy name name_max;
      type = type;
      size = 0;
      ops = ops;
      fs_data = 0;
      parent = 0;
      mount = 0;
    });
  },
)

unfoldable pub alloc_inode : ℕ → Ramfs → Run (ℕ × Ramfs)
alloc_inode type s = on_heap s (kzalloc inode_size s.heap) >>= λ (inode, t). ok (
  inode,
  if inode == 0 then t else record t {
    inodes =
        write t.inodes inode
          (record { type = type; data_at = 0; size = 0; capacity = 0; children = [] });
  },
)

-- The inode of a node.
abbrev pub inode_of : ℕ → Ramfs → Inode
inode_of node s = s.inodes (s.nodes node).fs_data

-- `!dir || dir->type != VFS_DIR`
abbrev pub not_dir : ℕ → Ramfs → Bool
not_dir dir s = dir == 0 || not ((s.nodes dir).type == vfs_dir)

unfoldable pub find_child : List ℕ → List ℕ → Ramfs → ℕ
find_child [] name s = 0
find_child (c ∷ cs) name s =
    let later = find_child cs name s in if vfs_strcmp (s.nodes c).name name then c else later

unfoldable pub ramfs_lookup : ℕ → List ℕ → Ramfs → ℕ
ramfs_lookup dir name s = if not_dir dir s then 0 else find_child (inode_of dir s).children name s

-- The end of `ramfs_create`: the new node is linked and registered in its parent.
unfoldable pub register : ℕ → ℕ → ℕ → Ramfs → Ramfs
register dir node inode s =
    let at = (s.nodes dir).fs_data in
    let p = s.inodes at in
    record s {
      nodes = write s.nodes node (record (s.nodes node) { fs_data = inode; parent = dir });
      inodes = write s.inodes at (record p { children = p.children ++ (node ∷ []) });
    }

-- The first buffer of a file.
unfoldable pub first_buffer : ℕ → ℕ → Ramfs → Ramfs
first_buffer inode buffer s = record s {
  inodes =
      write s.inodes inode (record (s.inodes inode) { data_at = buffer; capacity = initial_cap });
  heap = record (s.heap) { mem = r_memset buffer 0 initial_cap s.heap.mem };
}

unfoldable pub create_inode : ℕ → ℕ → ℕ → Ramfs → Run (ℕ × Ramfs)
create_inode dir node type s = alloc_inode type s >>= λ (inode, t).
    if inode == 0
    then (release_at node t >>= λ u. ok (0, u))
    else if type == vfs_file
    then (on_heap t (kmalloc initial_cap t.heap) >>= λ (buffer, u).
        if buffer == 0
        then (release_at inode u >>= λ v. release_at node v >>= λ w. ok (0, w))
        else ok (node, register dir node inode (first_buffer inode buffer u)))
    else ok (node, register dir node inode t)

unfoldable pub ramfs_create : ℕ → ℕ → List ℕ → ℕ → Ramfs → Run (ℕ × Ramfs)
ramfs_create ops dir name type s =
    if not_dir dir s
    then ok (0, s)
    else if leb max_children (length (inode_of dir s).children)
    then ok (0, s)
    else if not (ramfs_lookup dir name s == 0)
    then ok (0, s)
    else alloc_node ops name type s >>= λ (node, t).
        if node == 0 then ok (0, t) else create_inode dir node type t

-- The result and the bytes read.
unfoldable pub ramfs_read : ℕ → ℕ → ℕ → Ramfs → ℤ × List ℕ
ramfs_read node offset len s =
    let inode = inode_of node s in
    let available = inode.size - offset in
    let to_read = if ltb len available then len else available in
    if node == 0 || not ((s.nodes node).type == vfs_file)
    then (err_isdir, [])
    else if leb inode.size offset
    then (pos 0, [])
    else (pos to_read, get_bytes to_read (inode.data_at + offset) s.heap.mem)

-- `while (new_cap < end) new_cap *= 2;`
unfoldable pub double_until : ℕ → ℕ → ℕ → ℕ
double_until zero new_cap end = new_cap
double_until (suc fuel) new_cap end =
    let more = double_until fuel (new_cap * 2) end in if ltb new_cap end then more else new_cap

-- The capacity that a buffer of `capacity` bytes grows to; 20 rounds reach 2^20.
unfoldable pub grown_capacity : ℕ → ℕ → ℕ
grown_capacity capacity end =
    let new_cap = double_until 20 (if capacity == 0 then initial_cap else capacity * 2) end in
    if ltb max_filesize new_cap then max_filesize else new_cap

-- The new buffer with the old bytes.
unfoldable pub move_data : ℕ → ℕ → ℕ → Ramfs → Run Ramfs
move_data at new_cap new_data s =
    let inode = s.inodes at in
    let mem = r_memset new_data 0 new_cap s.heap.mem in
    let inodes = write s.inodes at (record inode { data_at = new_data; capacity = new_cap }) in
    if inode.data_at == 0
    then ok (record s { inodes = inodes; heap = record (s.heap) { mem = mem } })
    else release_at inode.data_at (record s {
      inodes = inodes;
      heap = record (s.heap) { mem = r_memcpy new_data inode.data_at inode.size mem };
    })

-- The end of `ramfs_write`: the bytes, and the sizes if the file is longer.
unfoldable pub store_bytes : ℕ → ℕ → List ℕ → Ramfs → Ramfs
store_bytes node offset buf s =
    let at = (s.nodes node).fs_data in
    let inode = s.inodes at in
    let end = u64 (offset + length buf) in
    let t = record s {
      heap = record (s.heap) { mem = put_bytes (inode.data_at + offset) buf s.heap.mem };
    } in
    if ltb inode.size end
    then record t {
      inodes = write t.inodes at (record inode { size = end });
      nodes = write t.nodes node (record (t.nodes node) { size = end });
    }
    else t

unfoldable pub ramfs_write : ℕ → ℕ → List ℕ → Ramfs → Run (ℤ × Ramfs)
ramfs_write node offset buf s =
    let at = (s.nodes node).fs_data in
    let end = u64 (offset + length buf) in
    let new_cap = grown_capacity (s.inodes at).capacity end in
    if node == 0 || not ((s.nodes node).type == vfs_file)
    then ok (err_isdir, s)
    else if ltb max_filesize end
    then ok (err_nospace, s)
    else if ltb (s.inodes at).capacity end
    then (on_heap s (kmalloc new_cap s.heap) >>= λ (new_data, t).
        if new_data == 0
        then ok (err_nospace, t)
        else (move_data at new_cap new_data t >>= λ u.
            ok (pos (length buf), store_bytes node offset buf u)))
    else ok (pos (length buf), store_bytes node offset buf s)

-- The first `node` is taken out and the later children move down.
unfoldable pub remove_child : ℕ → List ℕ → List ℕ
remove_child node [] = []
remove_child node (c ∷ cs) = let rest = remove_child node cs in if c == node then cs else c ∷ rest

unfoldable pub ramfs_unlink : ℕ → ℕ → Ramfs → Run (ℤ × Ramfs)
ramfs_unlink parent node s =
    let at = (s.nodes parent).fs_data in
    let p = s.inodes at in
    let inode = inode_of node s in
    let freed = (s.nodes node).fs_data in
    let t = record s {
      inodes = write s.inodes at (record p { children = remove_child node p.children });
    } in
    let has_data = (s.nodes node).type == vfs_file && not (inode.data_at == 0) in
    if parent == 0 || node == 0
    then ok (err_inval, s)
    else if (s.nodes node).type == vfs_dir && ltb 0 (length inode.children)
    then ok (err_noempty, s)
    else (if has_data then release_at inode.data_at t else ok t) >>= λ u.
        release_at freed u >>= λ v. release_at node v >>= λ w. ok (pos 0, w)

unfoldable pub ramfs_readdir : ℕ → ℕ → Ramfs → ℕ
ramfs_readdir dir index s = if not_dir dir s then 0 else get_or (inode_of dir s).children index 0

unfoldable pub ramfs_childcount : ℕ → Ramfs → ℕ
ramfs_childcount dir s = if not_dir dir s then 0 else length (inode_of dir s).children

-- The root "/", which is its own parent, or 0.
unfoldable pub ramfs_init : ℕ → Ramfs → Run (ℕ × Ramfs)
ramfs_init ops s = alloc_inode vfs_dir s >>= λ (inode, t).
    if inode == 0
    then ok (0, t)
    else alloc_node ops (b'/' ∷ []) vfs_dir t >>= λ (root, u).
        if root == 0
        then (release_at inode u >>= λ v. ok (0, v))
        else ok (
          root,
          record u {
            nodes = write u.nodes root (record (u.nodes root) { fs_data = inode; parent = root });
          },
        )
