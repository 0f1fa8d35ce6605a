-- ===== src/Vfs/Path.antt =====
-- Paths: the string helpers of kernel/vfs.c. A C string is the list of its bytes before the 0.
use lons_os.Base.{
  ℕ, zero, suc, ◌+◌, ◌-◌, Bool, true, false, ◌&&◌, List, [], ◌∷◌, Option, none, some, ◌==◌,
  if◌then◌else◌, take,
}

abbrev pub name_max : ℕ
name_max = 64

-- `vfs_strcmp(a, b) == 0`
unfoldable pub vfs_strcmp : List ℕ → List ℕ → Bool
vfs_strcmp [] [] = true
vfs_strcmp [] (y ∷ ys) = false
vfs_strcmp (x ∷ xs) [] = false
vfs_strcmp (x ∷ xs) (y ∷ ys) = x == y && vfs_strcmp xs ys

abbrev pub vfs_strncpy : List ℕ → ℕ → List ℕ
vfs_strncpy s max = take (max - 1) s

-- `while (*path=='/') path++;`
unfoldable pub skip_slashes : List ℕ → List ℕ
skip_slashes [] = []
skip_slashes (c ∷ cs) = let rest = skip_slashes cs in if c == b'/' then rest else c ∷ cs

-- The bytes up to a slash, `room` of them at most, and what is left.
unfoldable pub copy_comp : ℕ → List ℕ → List ℕ × List ℕ
copy_comp zero path = ([], path)
copy_comp (suc room) [] = ([], [])
copy_comp (suc room) (c ∷ cs) =
    let more = copy_comp room cs in if c == b'/' then ([], c ∷ cs) else (c ∷ more.0, more.1)

-- The component and the rest, or `none` for the return of 0, which leaves `out` alone.
unfoldable pub next_comp : List ℕ → ℕ → Option (List ℕ × List ℕ)
next_comp path max = elim (skip_slashes path) [
  | [] ↦ none
  | c ∷ cs ↦ some (copy_comp (max - 1) (c ∷ cs))
]

-- The index of the last slash among `path`, whose first byte has index `i`.
unfoldable pub last_slash : List ℕ → ℕ → Option ℕ → Option ℕ
last_slash [] i found = found
last_slash (c ∷ cs) i found = last_slash cs (i + 1) (if c == b'/' then some i else found)
