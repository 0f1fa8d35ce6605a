-- ===== src/Vfs/Boot.antt =====
-- kernel/vfs.c: vfs_init, and the text of the working directory.
use lons_os.Base.{
  ℕ, zero, suc, ◌+◌, ◌-◌, not, ◌&&◌, ◌||◌, List, [], ◌∷◌, ◌++◌, Option, none, some, ltb, leb, ◌==◌,
  if◌then◌else◌, length, take,
}
use lons_os.Base.Loops.{for_range}
use lons_os.Machine.{write}
use lons_os.Machine.Signed.{is_negative, to_nat}
use lons_os.Vfs.{Vfs, Ops, vfs_max_fds, closed, vfs_close}
use lons_os.Vfs.Path.{name_max}
use lons_os.Vfs.Calls.{vfs_mkdir, vfs_open, vfs_write}

-- The names from `cur` up to the root, the outermost first, at most `n` of them.
unfoldable pub names_up : {D : Type 0} → ℕ → ℕ → List (List ℕ) → Vfs D → List (List ℕ)
names_up zero cur parts s = parts
names_up (suc n) cur parts s =
    let node = s.nodes cur in
    let more = names_up n node.parent (take (name_max - 1) node.name ∷ parts) s in
    if cur == 0 || cur == s.vfs_root then parts else more

-- The parts, each behind a slash, as far as the buffer goes.
unfoldable pub put_parts : List (List ℕ) → ℕ → List ℕ → List ℕ
put_parts [] max out = out
put_parts (part ∷ parts) max out =
    let more = put_parts parts max (out ++ b'/' ∷ take (max - 1 - (length out + 1)) part) in
    if ltb (length out) (max - 2) then more else out

-- The text put into a buffer of `max` bytes, for `max` > 0.
unfoldable pub vfs_getcwd : {D : Type 0} → ℕ → Vfs D → List ℕ
vfs_getcwd max s =
    let out = put_parts (names_up 16 s.cwd [] s) max [] in
    if s.cwd == s.vfs_root || length out == 0 then b'/' ∷ [] else out

abbrev pub vfs_get_root : {D : Type 0} → Vfs D → ℕ
vfs_get_root s = s.vfs_root

abbrev pub welcome_path : List ℕ
welcome_path =
    b'/' ∷ b'h' ∷ b'o' ∷ b'm' ∷ b'e' ∷ b'/' ∷ b'w' ∷ b'e' ∷ b'l' ∷ b'c' ∷ b'o' ∷ b'm' ∷ b'e' ∷ b'.'
    ∷ b't' ∷ b'x' ∷ b't' ∷ []

abbrev pub welcome : List ℕ
welcome =
    b'W' ∷ b'e' ∷ b'l' ∷ b'c' ∷ b'o' ∷ b'm' ∷ b'e' ∷ b' ' ∷ b't' ∷ b'o' ∷ b' ' ∷ b'L' ∷ b'o' ∷ b'n'
    ∷ b's' ∷ b' ' ∷ b'O' ∷ b'S' ∷ b'!' ∷ b'\n' ∷ b'T' ∷ b'y' ∷ b'p' ∷ b'e' ∷ b' ' ∷ b'\'' ∷ b'h'
    ∷ b'e' ∷ b'l' ∷ b'p' ∷ b'\'' ∷ b' ' ∷ b'f' ∷ b'o' ∷ b'r' ∷ b' ' ∷ b'c' ∷ b'o' ∷ b'm' ∷ b'm'
    ∷ b'a' ∷ b'n' ∷ b'd' ∷ b's' ∷ b'.' ∷ b'\n' ∷ []

abbrev pub version_path : List ℕ
version_path =
    b'/' ∷ b's' ∷ b'y' ∷ b's' ∷ b'/' ∷ b'v' ∷ b'e' ∷ b'r' ∷ b's' ∷ b'i' ∷ b'o' ∷ b'n' ∷ []

abbrev pub version : List ℕ
version =
    b'L' ∷ b'o' ∷ b'n' ∷ b's' ∷ b' ' ∷ b'O' ∷ b'S' ∷ b' ' ∷ b'v' ∷ b'0' ∷ b'.' ∷ b'1' ∷ b' ' ∷ b'-'
    ∷ b' ' ∷ b'S' ∷ b't' ∷ b'e' ∷ b'p' ∷ b' ' ∷ b'1' ∷ b'2' ∷ b' ' ∷ b'(' ∷ b'A' ∷ b'T' ∷ b'A'
    ∷ b' ' ∷ b'+' ∷ b' ' ∷ b'F' ∷ b'A' ∷ b'T' ∷ b'3' ∷ b'2' ∷ b')' ∷ b'\n' ∷ []

abbrev pub first_dirs : List (List ℕ)
first_dirs =
    (b'/' ∷ b'h' ∷ b'o' ∷ b'm' ∷ b'e' ∷ [])
    ∷ (b'/' ∷ b't' ∷ b'm' ∷ b'p' ∷ [])
    ∷ (b'/' ∷ b's' ∷ b'y' ∷ b's' ∷ [])
    ∷ (b'/' ∷ b'd' ∷ b'i' ∷ b's' ∷ b'k' ∷ [])
    ∷ []

module _ {D : Type 0} (ops : ℕ → Ops (Vfs D)) (junk : List ℕ) where
  unfoldable pub make_dirs : List (List ℕ) → Vfs D → Option (Vfs D)
  make_dirs [] s = some s
  make_dirs (path ∷ paths) s = elim (vfs_mkdir ops junk path s) [
    | none ↦ none
    | some (result, t) ↦ make_dirs paths t
  ]

  -- A new file with a text; a descriptor below 3 is an error.
  unfoldable pub write_file : List ℕ → List ℕ → Vfs D → Option (Vfs D)
  write_file path text s = elim (vfs_open ops junk path 6 s) [
    | none ↦ none
    | some (fd, t) ↦ some (
        if not (is_negative fd) && leb 3 (to_nat fd)
        then (vfs_close fd (vfs_write ops junk fd text t).1).1
        else t)
  ]

  -- `root` is what `ramfs_init` returns.
  unfoldable pub vfs_init : ℕ → Vfs D → Option (Vfs D)
  vfs_init root s =
      let table = for_range vfs_max_fds 0 (λ i t. write t i (closed (t i))) s.fd_table in
      elim (make_dirs first_dirs (record s { fd_table = table; vfs_root = root; cwd = root })) [
        | none ↦ none
        | some t ↦ elim (write_file welcome_path welcome t) [
          | none ↦ none
          | some u ↦ write_file version_path version u
        ]
      ]
