-- ===== src/Shell/Args.antt =====
-- The words of a command line and the paths made of them, in kernel/kernel.c. A C string is the
-- list of its bytes before the 0.
use lons_os.Base.{
  ℕ, zero, suc, ◌-◌, Bool, true, false, ◌&&◌, List, [], ◌∷◌, ◌++◌, ◌==◌, if◌then◌else◌, take,
  length,
}
use lons_os.Vfs.{Vfs}
use lons_os.Vfs.Boot.{vfs_getcwd}

abbrev pub max_args : ℕ
max_args = 4

abbrev pub arg_max : ℕ
arg_max = 127

-- `k_strcmp(a, b) == 0`
unfoldable pub k_strcmp : List ℕ → List ℕ → Bool
k_strcmp [] [] = true
k_strcmp [] (y ∷ ys) = false
k_strcmp (x ∷ xs) [] = false
k_strcmp (x ∷ xs) (y ∷ ys) = x == y && k_strcmp xs ys

abbrev pub k_strncpy : List ℕ → ℕ → List ℕ
k_strncpy s m = take (m - 1) s

unfoldable pub skip_spaces : List ℕ → List ℕ
skip_spaces [] = []
skip_spaces (c ∷ cs) = let rest = skip_spaces cs in if c == b' ' then rest else c ∷ cs

-- The bytes up to a space, `room` of them at most, and what is left.
unfoldable pub take_word : ℕ → List ℕ → List ℕ × List ℕ
take_word zero line = ([], line)
take_word (suc room) [] = ([], [])
take_word (suc room) (c ∷ cs) =
    let more = take_word room cs in if c == b' ' then ([], c ∷ cs) else (c ∷ more.0, more.1)

-- The word at the start of a line, and the `others` in what is left.
unfoldable pub first_arg : (List ℕ → List (List ℕ)) → List ℕ → List (List ℕ)
first_arg others [] = []
first_arg others (c ∷ cs) = let (word, rest) = take_word arg_max (c ∷ cs) in word ∷ others rest

-- The words from a place in the line on, `n` of them at most.
unfoldable pub args_from : ℕ → List ℕ → List (List ℕ)
args_from zero line = []
args_from (suc n) line = first_arg (args_from n) (skip_spaces line)

-- `argv_buf`, of which `argc_g` is the length.
unfoldable pub parse_args : List ℕ → List (List ℕ)
parse_args line = args_from max_args line

-- The loop `while(c[sk]&&c[sk]!=' ')sk++;`.
unfoldable pub skip_word : List ℕ → List ℕ
skip_word [] = []
skip_word (c ∷ cs) = let rest = skip_word cs in if c == b' ' then c ∷ cs else rest

-- The text of `write` and `append`: two words of the line are skipped, as it stands.
unfoldable pub text_of : List ℕ → List ℕ
text_of line = skip_spaces (skip_word (skip_spaces (skip_word line)))

-- `out[cl-1]!='/'`, for a text that is not empty.
unfoldable pub ends_in_slash : List ℕ → Bool
ends_in_slash [] = true
ends_in_slash (c ∷ []) = c == b'/'
ends_in_slash (c ∷ d ∷ cs) = ends_in_slash (d ∷ cs)

-- `arg[0]=='/'`
unfoldable pub is_absolute : List ℕ → Bool
is_absolute [] = false
is_absolute (c ∷ cs) = c == b'/'

-- The text of the working directory, with a slash behind it.
unfoldable pub dir_prefix : List ℕ → List ℕ
dir_prefix dir = if ends_in_slash dir then dir else dir ++ b'/' ∷ []

-- The text in a buffer of `max` bytes; behind a directory of `max - 1` the 0 stands past its end.
unfoldable pub make_path : {D : Type 0} → List ℕ → ℕ → Vfs D → List ℕ
make_path arg max s =
    let out = dir_prefix (vfs_getcwd max s) in
    if is_absolute arg then k_strncpy arg max else out ++ k_strncpy arg (max - length out)
