-- ===== src/Fat32/Names.antt =====
-- The names of kernel/fat32.c: 8.3 names in a directory entry, and long names. A C string is the list
-- of its bytes before the 0.
pub mod RoundTrip
use lons_os.Base.{
  ℕ, zero, suc, ◌+◌, ◌-◌, ◌*◌, ◌%◌, ◌^◌, Bool, true, false, ◌&&◌, ◌||◌, List, [], ◌∷◌, ◌++◌, map,
  Option, none, some, leb, ◌==◌, if◌then◌else◌, take, drop,
}
use lons_os.Machine.{u64, write}
use lons_os.Machine.Bytes.{Buffer, le16, bytes_at}

-- The bytes before the first 0.
unfoldable pub until_zero : List ℕ → List ℕ
until_zero [] = []
until_zero (c ∷ cs) = let rest = until_zero cs in if c == 0 then [] else c ∷ rest

abbrev pub f_strncpy : List ℕ → ℕ → List ℕ
f_strncpy s max = take (max - 1) (until_zero s)

unfoldable pub f_toupper : ℕ → ℕ
f_toupper c = if leb b'a' c && leb c b'z' then c - 32 else c

unfoldable pub to_lower : ℕ → ℕ
to_lower c = if leb b'A' c && leb c b'Z' then c + 32 else c

-- `while (len > 0 && s[len - 1] == ' ') len--;`
unfoldable pub strip_spaces : List ℕ → List ℕ
strip_spaces [] = []
strip_spaces (c ∷ cs) = elim (strip_spaces cs) [
  | [] ↦ if c == b' ' then [] else c ∷ []
  | d ∷ ds ↦ c ∷ d ∷ ds
]

unfoldable pub dotted : List ℕ → List ℕ
dotted [] = []
dotted (c ∷ cs) = b'.' ∷ c ∷ cs

-- The name of an entry whose fields are `name` and `ext`.
unfoldable pub parse_83_name : List ℕ → List ℕ → List ℕ
parse_83_name name ext =
    map to_lower (strip_spaces name) ++ dotted (map to_lower (strip_spaces ext))

-- The index of the last dot among `name`, whose first byte has index `i`.
unfoldable pub last_dot : List ℕ → ℕ → Option ℕ → Option ℕ
last_dot [] i found = found
last_dot (c ∷ cs) i found = last_dot cs (i + 1) (if c == b'.' then some i else found)

-- `n` bytes: those of the list, as far as they go, and spaces.
unfoldable pub padded : ℕ → List ℕ → List ℕ
padded zero cs = []
padded (suc n) [] = b' ' ∷ padded n []
padded (suc n) (c ∷ cs) = c ∷ padded n cs

-- The parts before and behind the last dot.
unfoldable pub split_name : List ℕ → Option ℕ → List ℕ × List ℕ
split_name fname none = (fname, [])
split_name fname (some dot) = (take dot fname, drop (dot + 1) fname)

-- `name_out` and `ext_out`.
unfoldable pub make_83_name : List ℕ → List ℕ × List ℕ
make_83_name fname =
    let parts = split_name fname (last_dot fname 0 none) in
    (padded 8 (map f_toupper parts.0), padded 3 (map f_toupper parts.1))

-- The 13 characters of a long-name entry at `off`.
unfoldable pub words_at : ℕ → ℕ → Buffer → List ℕ
words_at zero k b = []
words_at (suc n) k b = le16 b k ∷ words_at n (k + 2) b

abbrev pub lfn_words : ℕ → Buffer → List ℕ
lfn_words off b = words_at 5 (off + 1) b ++ words_at 6 (off + 14) b ++ words_at 2 (off + 28) b

-- The three loops, up to a 0 or 0xFFFF; an offset before the array is one that wraps.
unfoldable pub put_words : List ℕ → ℕ → Buffer → Buffer
put_words [] at out = out
put_words (c ∷ cs) at out =
    let more = put_words cs (u64 (at + 1)) (write out at (c % 256)) in
    if c == 0 || c == 0xFFFF then write out at 0 else more

-- The characters of an entry go to the place that its number gives in `out`.
unfoldable pub lfn_to_ascii : ℕ → Buffer → Buffer → Buffer
lfn_to_ascii off b out = put_words (lfn_words off b) (u64 (b off % 64 * 13 + 2 ^ 64 - 13)) out
