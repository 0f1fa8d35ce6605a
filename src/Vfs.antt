-- ===== src/Vfs.antt =====
-- kernel/vfs.c: path resolution, the table of open files and the operations on them. A node is an
-- entry of a table by its address, 0 for null; the operations of a file system, `vfs_ops_t`, are
-- a record, and a node's `ops` says which one is its own.
pub mod Path
pub mod Calls
pub mod Boot
pub mod Errors
pub mod Fds
pub mod Resolve
mod Tests
use lons_os.Base.{
  ℕ, zero, suc, ◌+◌, ◌-◌, Bool, true, false, ◌&&◌, ◌||◌, not, List, [], ◌∷◌, Option, none, some,
  ltb, leb, ◌==◌, if◌then◌else◌, length, take, drop,
}
use lons_os.Base.Bits.{test_bit}
use lons_os.Machine.{u64, write}
use lons_os.Machine.Signed.{ℤ, pos, negsuc, ◌+ℤ◌, is_negative, to_nat, to_int64}
use lons_os.Vfs.Path.{name_max, vfs_strcmp, vfs_strncpy, next_comp, last_slash}

abbrev pub vfs_file : ℕ
vfs_file = 1

abbrev pub vfs_dir : ℕ
vfs_dir = 2

abbrev pub vfs_max_fds : ℕ
vfs_max_fds = 32

abbrev pub err_noent : ℤ
err_noent = negsuc 0

abbrev pub err_exist : ℤ
err_exist = negsuc 1

abbrev pub err_notdir : ℤ
err_notdir = negsuc 2

abbrev pub err_isdir : ℤ
err_isdir = negsuc 3

abbrev pub err_nospace : ℤ
err_nospace = negsuc 4

abbrev pub err_badf : ℤ
err_badf = negsuc 5

abbrev pub err_inval : ℤ
err_inval = negsuc 6

-- `struct vfs_node`; what `fs_data` points to belongs to the file system.
pub record Node : Type 0 where
  pub name : List ℕ
  pub type : ℕ
  pub size : ℕ
  pub ops : ℕ
  pub fs_data : ℕ
  pub parent : ℕ
  pub mount : ℕ

-- `vfs_fd_t`.
pub record Fd : Type 0 where
  pub used : ℕ
  pub node : ℕ
  pub offset : ℕ
  pub flags : ℕ

-- The static variables, the nodes, and in `disk` what the file systems keep.
pub record Vfs (D : Type 0) : Type 0 where
  pub nodes : ℕ → Node
  pub vfs_root : ℕ
  pub cwd : ℕ
  pub fd_table : ℕ → Fd
  pub disk : D

-- `vfs_ops_t`. A read gives its result and the bytes that it puts into the buffer.
pub record Ops (S : Type 0) : Type 0 where
  pub lookup : ℕ → List ℕ → S → ℕ × S
  pub create : ℕ → List ℕ → ℕ → S → ℕ × S
  pub read : ℕ → ℕ → ℕ → S → (ℤ × List ℕ) × S
  pub write : ℕ → ℕ → List ℕ → S → ℤ × S
  pub unlink : ℕ → ℕ → S → ℤ × S
  pub readdir : ℕ → ℕ → S → ℕ × S
  pub childcount : ℕ → S → ℕ × S

-- `fd<0||fd>=VFS_MAX_FDS||!fd_table[fd].used`
unfoldable pub bad_fd : {D : Type 0} → ℤ → Vfs D → Bool
bad_fd fd s = is_negative fd || leb vfs_max_fds (to_nat fd) || (s.fd_table (to_nat fd)).used == 0

-- The first unused descriptor of the `n` from `i` on.
unfoldable pub scan_fds : ℕ → ℕ → (ℕ → Fd) → ℤ
scan_fds zero i table = negsuc 0
scan_fds (suc n) i table =
    let rest = scan_fds n (i + 1) table in if (table i).used == 0 then pos i else rest

unfoldable pub alloc_fd : {D : Type 0} → Vfs D → ℤ
alloc_fd s = scan_fds (vfs_max_fds - 3) 3 s.fd_table

abbrev pub closed : Fd → Fd
closed f = record f { used = 0; node = 0; offset = 0 }

unfoldable pub vfs_close : {D : Type 0} → ℤ → Vfs D → ℤ × Vfs D
vfs_close fd s =
    let i = to_nat fd in
    if bad_fd fd s
    then (err_badf, s)
    else (pos 0, record s { fd_table = write s.fd_table i (closed (s.fd_table i)) })

unfoldable pub vfs_seek : {D : Type 0} → ℤ → ℤ → ℕ → Vfs D → ℤ × Vfs D
vfs_seek fd offset whence s =
    let i = to_nat fd in
    let f = s.fd_table i in
    let no =
      if whence == 0
      then offset
      else if whence == 1
      then to_int64 f.offset +ℤ offset
      else to_int64 (s.nodes f.node).size +ℤ offset in
    if bad_fd fd s then (err_badf, s) else if leb 3 whence then (err_inval, s) else (
      pos (to_nat no),
      record s { fd_table = write s.fd_table i (record f { offset = to_nat no }) },
    )

-- What follows `alloc_fd` in `vfs_open`, for a node that is there.
unfoldable pub open_node : {D : Type 0} → ℕ → ℕ → Vfs D → ℤ × Vfs D
open_node node flags s =
    let fd = alloc_fd s in
    let i = to_nat fd in
    let trunc = test_bit flags 3 == 1 in
    let append = test_bit flags 4 == 1 in
    let at = if trunc then 0 else if append then (s.nodes node).size else 0 in
    let f : Fd = record { used = 1; node = node; offset = at; flags = flags } in
    let nodes =
      if trunc then write s.nodes node (record (s.nodes node) { size = 0 }) else s.nodes in
    if is_negative fd
    then (err_nospace, s)
    else (fd, record s { nodes = nodes; fd_table = write s.fd_table i f })

-- How one round of the walk in `vfs_resolve` ends: with a result, or with the node to go on from.
pub data Step (S : Type 0) : Type 0 where
  stop : ℕ → S → Step S
  go : ℕ → S → Step S

unfoldable pub null_or_empty : Option (List ℕ) → Bool
null_or_empty none = true
null_or_empty (some []) = true
null_or_empty (some (c ∷ cs)) = false

unfoldable pub is_null : Option (List ℕ) → Bool
is_null none = true
is_null (some cs) = false

unfoldable pub is_empty : List ℕ → Bool
is_empty [] = true
is_empty (c ∷ cs) = false

-- `path` as the C code has it after `next_comp`: the rest, or null.
abbrev pub rest_of : Option (List ℕ × List ℕ) → Option (List ℕ)
rest_of none = none
rest_of (some (c, r)) = some r

abbrev pub comp_of : Option (List ℕ × List ℕ) → List ℕ → List ℕ
comp_of none old = old
comp_of (some (c, r)) old = c

abbrev pub path_of : Option (List ℕ) → List ℕ
path_of none = []
path_of (some r) = r

-- Enter the mounted file system, if there is one.
abbrev pub follow : {D : Type 0} → ℕ → Vfs D → ℕ
follow node s = if (s.nodes node).mount == 0 then node else (s.nodes node).mount

-- `..`
abbrev pub go_up : {D : Type 0} → ℕ → Vfs D → ℕ
go_up cur s = let up = (s.nodes cur).parent in if not (up == 0) && not (up == cur) then up else cur

-- Each `vfs_resolve` has a buffer `comp` that starts uninitialised: `junk` is what it holds.
module _ {D : Type 0} (ops : ℕ → Ops (Vfs D)) (junk : List ℕ) where
  unfoldable pub resolve_step : List ℕ → Option (List ℕ) → ℕ → Vfs D → Step (Vfs D)
  resolve_step comp rest cur s =
      let (next, t) = (ops (s.nodes cur).ops).lookup cur comp s in
      if is_empty comp
      then stop cur s
      else if vfs_strcmp comp (b'.' ∷ [])
      then if is_null rest then stop cur s else go cur s
      else if vfs_strcmp comp (b'.' ∷ b'.' ∷ [])
      then if is_null rest then stop (go_up cur s) s else go (go_up cur s) s
      else if not ((s.nodes cur).type == vfs_dir)
      then stop 0 s
      else if next == 0
      then stop 0 t
      else if null_or_empty rest
      then stop (follow next t) t
      else go (follow next t) t

  -- The walk from `cur`; `comp` is what the buffer holds. `none` is for fuel that runs out.
  unfoldable pub resolve_loop : ℕ → List ℕ → List ℕ → ℕ → Vfs D → Option (ℕ × Vfs D)
  resolve_loop zero path comp cur s = none
  resolve_loop (suc fuel) path comp cur s =
      let found = next_comp path name_max in
      elim (resolve_step (comp_of found comp) (rest_of found) cur s) [
        | stop node t ↦ some (node, t)
        | go node t ↦ resolve_loop fuel (path_of (rest_of found)) (comp_of found comp) node t
      ]

  -- Every round but the last takes a byte of the path.
  unfoldable pub vfs_resolve : List ℕ → Vfs D → Option (ℕ × Vfs D)
  vfs_resolve [] s = some (s.cwd, s)
  vfs_resolve (c ∷ cs) s =
      let cur = if c == b'/' then s.vfs_root else s.cwd in
      resolve_loop (length (c ∷ cs) + 1) (c ∷ cs) junk (follow cur s) s

  -- The parent and the last name.
  unfoldable pub resolve_parent : List ℕ → Vfs D → Option (List ℕ × ℕ × Vfs D)
  resolve_parent path s = elim (last_slash path 0 none) [
    | none ↦ some (vfs_strncpy path name_max, s.cwd, s)
    | some zero ↦ some (vfs_strncpy (drop 1 path) name_max, s.vfs_root, s)
    | some (suc i) ↦ elim (vfs_resolve (take (i + 1) path) s) [
      | none ↦ none
      | some (node, t) ↦ some (vfs_strncpy (drop (i + 2) path) name_max, node, t)
    ]
  ]
