-- ===== src/Vfs/Resolve.antt =====
-- The walk of `vfs_resolve`: it ends, and what a last component of two dots does.
use lons_os.Base.{
  ℕ, zero, suc, ◌+◌, ◌≤◌, ◌<◌, ◌≡◌, refl, arith, false, List, [], ◌∷◌, Option, none, some, ◌==◌,
  if◌then◌else◌, length, if_elim,
}
use lons_os.Vfs.{
  Vfs, Ops, Step, stop, go, resolve_step, resolve_loop, vfs_resolve, null_or_empty, is_null,
  is_empty, rest_of, comp_of, path_of, follow, go_up,
}
use lons_os.Vfs.Path.{name_max, vfs_strcmp, skip_slashes, copy_comp, next_comp}

copy_comp-length : (room : ℕ) (path : List ℕ) → length (copy_comp room path).1 ≤ length path
unfolding copy_comp
copy_comp-length zero path = omega arith
copy_comp-length (suc room) [] = omega arith
copy_comp-length (suc room) (c ∷ cs) = ground (arith, copy_comp-length room cs)

copy_comp-takes :
    (room c : ℕ) (cs : List ℕ)
    → (c == b'/') ≡ false
    → length (copy_comp (suc room) (c ∷ cs)).1 ≤ length cs
unfolding copy_comp
copy_comp-takes room c cs bare = ground (arith, copy_comp-length room cs)

skip_slashes-length : (path : List ℕ) → length (skip_slashes path) ≤ length path
unfolding skip_slashes
skip_slashes-length [] = omega arith
skip_slashes-length (c ∷ cs) = ground (arith, skip_slashes-length cs)

-- What is left after the slashes starts with another byte.
abbrev NoSlash : List ℕ → Type 0
NoSlash [] = Unit
NoSlash (c ∷ cs) = (c == b'/') ≡ false

skip_slashes-NoSlash : (path : List ℕ) → NoSlash (skip_slashes path)
unfolding skip_slashes
skip_slashes-NoSlash [] = tt
skip_slashes-NoSlash (c ∷ cs) =
    if_elim NoSlash (c == b'/') _ _ (λ e. skip_slashes-NoSlash cs) (λ e. e)

-- A component takes at least one byte of the path.
abbrev Shorter : List ℕ → Option (List ℕ × List ℕ) → Type 0
Shorter path none = Unit
Shorter path (some (c, rest)) = length rest < length path

copy-Shorter :
    (path q : List ℕ)
    → length q ≤ length path
    → NoSlash q
    → Shorter path (elim q [ [] ↦ none | c ∷ cs ↦ some (copy_comp 63 (c ∷ cs)) ])
copy-Shorter path [] le bare = tt
copy-Shorter path (c ∷ cs) le bare = omega (arith, copy_comp-takes 62 c cs bare, le)

next_comp-Shorter : (path : List ℕ) → Shorter path (next_comp path name_max)
unfolding next_comp
next_comp-Shorter path =
    copy-Shorter path (skip_slashes path) (skip_slashes-length path) (skip_slashes-NoSlash path)

-- A walk that did not run out of fuel.
abbrev pub Ends : {D : Type 0} → Option (ℕ × Vfs D) → Type 0
Ends {D} o = (out : ℕ × Vfs D) × (o ≡ some out)

module _ {D : Type 0} (ops : ℕ → Ops (Vfs D)) (junk : List ℕ) where
  -- The walk goes on only behind a component that was found.
  abbrev GoesOn : Option (List ℕ × List ℕ) → Step (Vfs D) → Type 0
  GoesOn none (stop node t) = Unit
  GoesOn none (go node t) = ⊥
  GoesOn (some found) step = Unit

  resolve_step-GoesOn :
      (found : Option (List ℕ × List ℕ)) (comp : List ℕ) (cur : ℕ) (s : Vfs D)
      → GoesOn found (resolve_step ops junk (comp_of found comp) (rest_of found) cur s)
  unfolding resolve_step is_null null_or_empty
  resolve_step-GoesOn (some found) comp cur s = tt
  resolve_step-GoesOn none comp cur s = ground arith

  round-Ends :
      (fuel : ℕ) (path comp : List ℕ) (found : Option (List ℕ × List ℕ)) (step : Step (Vfs D))
      → Shorter path found
      → GoesOn found step
      → ((q c : List ℕ) (node : ℕ) (t : Vfs D)
          → length q < length path
          → Ends (resolve_loop ops junk fuel q c node t))
      → Ends (elim step [
        | stop node t ↦ some (node, t)
        | go node t ↦
            resolve_loop ops junk fuel (path_of (rest_of found)) (comp_of found comp) node t
      ])
  round-Ends fuel path comp found (stop node t) short on more = ((node, t), refl)
  round-Ends fuel path comp none (go node t) short on more = absurd on
  round-Ends fuel path comp (some (c, rest)) (go node t) short on more = more rest c node t short

  resolve_loop-Ends :
      (fuel : ℕ) (path comp : List ℕ) (cur : ℕ) (s : Vfs D)
      → length path < fuel
      → Ends (resolve_loop ops junk fuel path comp cur s)
  unfolding resolve_loop
  resolve_loop-Ends zero path comp cur s lt = absurd (omega arith)
  resolve_loop-Ends (suc fuel) path comp cur s lt =
      let found = next_comp path name_max in
      round-Ends fuel path comp found
        (resolve_step ops junk (comp_of found comp) (rest_of found) cur s) (next_comp-Shorter path)
        (resolve_step-GoesOn found comp cur s)
        (λ q c node t short. resolve_loop-Ends fuel q c node t (omega arith))

  -- Every path is walked to an end, whatever the file systems answer.
  pub vfs_resolve-Ends : (path : List ℕ) (s : Vfs D) → Ends (vfs_resolve ops junk path s)
  unfolding vfs_resolve
  vfs_resolve-Ends [] s = ((s.cwd, s), refl)
  vfs_resolve-Ends (c ∷ cs) s =
      resolve_loop-Ends (length (c ∷ cs) + 1) (c ∷ cs) junk
        (follow (if c == b'/' then s.vfs_root else s.cwd) s) s (omega arith)

  -- The path ".." leads two levels up: behind the last component the walk sees the same two dots
  -- in its buffer once more.
  vfs_resolve-go_up :
      (s : Vfs D)
      → vfs_resolve ops junk (b'.' ∷ b'.' ∷ []) s ≡ some (go_up (go_up (follow s.cwd s) s) s, s)
  unfolding vfs_resolve resolve_loop resolve_step next_comp skip_slashes copy_comp vfs_strcmp
      is_empty is_null null_or_empty
  vfs_resolve-go_up s = refl
