-- ===== src/Vfs/Calls.antt =====
-- The calls of kernel/vfs.c that take a path or reach the file system. `none` is for a path walk
-- that runs out of fuel; Vfs/Resolve.antt shows that none does.
use lons_os.Base.{
  ℕ, zero, suc, ◌+◌, not, List, [], ◌∷◌, Option, none, some, ltb, ◌==◌, if◌then◌else◌,
}
use lons_os.Base.Bits.{test_bit}
use lons_os.Machine.{u64, write}
use lons_os.Machine.Signed.{ℤ, pos, to_nat}
use lons_os.Vfs.{
  Vfs, Node, Ops, bad_fd, open_node, vfs_resolve, resolve_parent, vfs_file, vfs_dir, err_noent,
  err_exist, err_notdir, err_isdir, err_nospace, err_badf, err_inval,
}

-- `f->offset += n`, for n > 0.
abbrev pub advance : {D : Type 0} → ℕ → ℕ → Vfs D → Vfs D
advance i n s =
    let f = s.fd_table i in
    record s { fd_table = write s.fd_table i (record f { offset = u64 (f.offset + n) }) }

-- `if(f->offset>f->node->size) f->node->size=f->offset;`
abbrev pub extend : {D : Type 0} → ℕ → Vfs D → Vfs D
extend i s =
    let f = s.fd_table i in
    let n = s.nodes f.node in
    if ltb n.size f.offset
    then record s { nodes = write s.nodes f.node (record n { size = f.offset }) }
    else s

-- The root of a file system under a mount point, whose parent becomes its own.
unfoldable pub attach : {D : Type 0} → ℕ → ℕ → Vfs D → Vfs D
attach mp fs_root s =
    let nodes = write s.nodes mp (record (s.nodes mp) { mount = fs_root }) in
    let above = if (nodes mp).parent == 0 then s.vfs_root else (nodes mp).parent in
    record s { nodes = write nodes fs_root (record (nodes fs_root) { parent = above }) }

module _ {D : Type 0} (ops : ℕ → Ops (Vfs D)) (junk : List ℕ) where
  unfoldable pub vfs_mount : List ℕ → ℕ → Vfs D → Option (ℤ × Vfs D)
  vfs_mount path fs_root s =
      if fs_root == 0 then some (err_inval, s) else elim (vfs_resolve ops junk path s) [
        | none ↦ none
        | some (mp, t) ↦ some (
            if mp == 0
            then (err_noent, t)
            else if not ((t.nodes mp).type == vfs_dir)
            then (err_notdir, t)
            else (pos 0, attach mp fs_root t))
      ]

  -- A new node of a type under the parent that a path names: the shared part of `vfs_open` and
  -- `vfs_mkdir`.
  unfoldable pub make_node : List ℕ → ℕ → Vfs D → Option ((ℤ × ℕ) × Vfs D)
  make_node path type s = elim (resolve_parent ops junk path s) [
    | none ↦ none
    | some (name, parent, t) ↦
        let (node, u) = (ops (t.nodes parent).ops).create parent name type t in
        some (
          if parent == 0
          then ((err_noent, 0), t)
          else if not ((t.nodes parent).type == vfs_dir)
          then ((err_notdir, 0), t)
          else if node == 0
          then ((err_nospace, 0), u)
          else (
            (pos 0, node),
            record u { nodes = write u.nodes node (record (u.nodes node) { parent = parent }) },
          ))
  ]

  unfoldable pub vfs_open : List ℕ → ℕ → Vfs D → Option (ℤ × Vfs D)
  vfs_open path flags s = elim (vfs_resolve ops junk path s) [
    | none ↦ none
    | some (node, t) ↦
        let opened =
          if (t.nodes node).type == vfs_dir then (err_isdir, t) else open_node node flags t in
        let created : Option (ℤ × Vfs D) = elim (make_node path vfs_file t) [
          | none ↦ none
          | some ((e, made), u) ↦ some (if made == 0 then (e, u) else open_node made flags u)
        ] in
        if not (node == 0)
        then some opened
        else if test_bit flags 2 == 0
        then some (err_noent, t)
        else created
  ]

  unfoldable pub vfs_mkdir : List ℕ → Vfs D → Option (ℤ × Vfs D)
  vfs_mkdir path s = elim (vfs_resolve ops junk path s) [
    | none ↦ none
    | some (node, t) ↦
        let made : Option (ℤ × Vfs D) = elim (make_node path vfs_dir t) [
          | none ↦ none
          | some ((e, made), u) ↦ some (e, u)
        ] in
        if node == 0 then made else some (err_exist, t)
  ]

  unfoldable pub vfs_read : ℤ → ℕ → Vfs D → (ℤ × List ℕ) × Vfs D
  vfs_read fd len s =
      let i = to_nat fd in
      let f = s.fd_table i in
      let ((n, bytes), t) = (ops (s.nodes f.node).ops).read f.node f.offset len s in
      if bad_fd fd s
      then ((err_badf, []), s)
      else if ltb 0 (to_nat n)
      then ((n, bytes), advance i (to_nat n) t)
      else ((n, bytes), t)

  unfoldable pub vfs_write : ℤ → List ℕ → Vfs D → ℤ × Vfs D
  vfs_write fd buf s =
      let i = to_nat fd in
      let f = s.fd_table i in
      let (n, t) = (ops (s.nodes f.node).ops).write f.node f.offset buf s in
      if bad_fd fd s
      then (err_badf, s)
      else if ltb 0 (to_nat n)
      then (n, extend i (advance i (to_nat n) t))
      else (n, t)

  unfoldable pub vfs_unlink : List ℕ → Vfs D → Option (ℤ × Vfs D)
  vfs_unlink path s = elim (vfs_resolve ops junk path s) [
    | none ↦ none
    | some (node, t) ↦
        let parent = (t.nodes node).parent in
        some (
          if node == 0
          then (err_noent, t)
          else if node == t.vfs_root
          then (err_inval, t)
          else if parent == 0
          then (err_inval, t)
          else (ops (t.nodes parent).ops).unlink parent node t)
  ]

  -- The result, the type and the size.
  unfoldable pub vfs_stat : List ℕ → Vfs D → Option ((ℤ × ℕ × ℕ) × Vfs D)
  vfs_stat path s = elim (vfs_resolve ops junk path s) [
    | none ↦ none
    | some (node, t) ↦ some (
        if node == 0
        then ((err_noent, 0, 0), t)
        else ((pos 0, (t.nodes node).type, (t.nodes node).size), t))
  ]

  unfoldable pub vfs_chdir : List ℕ → Vfs D → Option (ℤ × Vfs D)
  vfs_chdir path s = elim (vfs_resolve ops junk path s) [
    | none ↦ none
    | some (node, t) ↦ some (
        if node == 0
        then (err_noent, t)
        else if not ((t.nodes node).type == vfs_dir)
        then (err_notdir, t)
        else (pos 0, record t { cwd = node }))
  ]

  -- The children that the callback gets, from index `i` on, `n` to go.
  unfoldable pub list_children : ℕ → ℕ → ℕ → Vfs D → List Node × Vfs D
  list_children zero i dir s = ([], s)
  list_children (suc n) i dir s =
      let (child, t) = (ops (s.nodes dir).ops).readdir dir i s in
      let (others, u) = list_children n (i + 1) dir t in
      (if child == 0 then others else t.nodes child ∷ others, u)

  unfoldable pub vfs_readdir : List ℕ → Vfs D → Option ((ℤ × List Node) × Vfs D)
  vfs_readdir path s = elim (vfs_resolve ops junk path s) [
    | none ↦ none
    | some (dir, t) ↦
        let (count, u) = (ops (t.nodes dir).ops).childcount dir t in
        let (children, v) = list_children count 0 dir u in
        some (
          if dir == 0
          then ((err_noent, []), t)
          else if not ((t.nodes dir).type == vfs_dir)
          then ((err_notdir, []), t)
          else ((pos count, children), v))
  ]
