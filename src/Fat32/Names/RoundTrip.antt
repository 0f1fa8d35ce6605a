-- ===== src/Fat32/Names/RoundTrip.antt =====
-- A short name in lower case survives the way to a directory entry and back.
use lons_os.Base.{
  ℕ, zero, suc, ◌+◌, ◌≤◌, ◌≡◌, ◌≢◌, refl, ap, ap₂, ◌∙◌, arith, false, ◌&&◌, List, [], ◌∷◌, ◌++◌,
  map, Option, none, some, leb, ◌==◌, take, drop, length, append-nil,
}
use lons_os.Fat32.Names.{
  f_toupper, to_lower, strip_spaces, dotted, parse_83_name, last_dot, padded, split_name,
  make_83_name,
}

-- A byte that a short name keeps: no dot, no space and no capital.
abbrev pub Plain : ℕ → Type 0
Plain c = (c ≢ b'.') × (c ≢ b' ') × ((leb b'A' c && leb c b'Z') ≡ false)

abbrev pub AllPlain : List ℕ → Type 0
AllPlain [] = Unit
AllPlain (c ∷ cs) = Plain c × AllPlain cs

to_lower-f_toupper : (c : ℕ) → Plain c → to_lower (f_toupper c) ≡ c
unfolding to_lower f_toupper
to_lower-f_toupper c p = ground arith

f_toupper-ne : (c : ℕ) → Plain c → (f_toupper c == b' ') ≡ false
unfolding f_toupper
f_toupper-ne c p = ground arith

map-to_lower : (cs : List ℕ) → AllPlain cs → map to_lower (map f_toupper cs) ≡ cs
map-to_lower [] p = refl
map-to_lower (c ∷ cs) (p, ps) = ap₂ ◌∷◌ (to_lower-f_toupper c p) (map-to_lower cs ps)

strip-spaces_only : (n : ℕ) → strip_spaces (padded n []) ≡ []
unfolding strip_spaces padded
strip-spaces_only zero = refl
strip-spaces_only (suc n) = rw (strip-spaces_only n) refl

strip-cons :
    (c : ℕ) (cs ds : List ℕ)
    → (c == b' ') ≡ false
    → strip_spaces cs ≡ ds
    → strip_spaces (c ∷ cs) ≡ c ∷ ds
unfolding strip_spaces
strip-cons c cs [] plain e = rw (e, plain) refl
strip-cons c cs (d ∷ ds) plain e = rw e refl

strip_spaces-padded :
    (n : ℕ) (cs : List ℕ)
    → AllPlain cs
    → length cs ≤ n
    → strip_spaces (padded n (map f_toupper cs)) ≡ map f_toupper cs
unfolding padded
strip_spaces-padded n [] p h = strip-spaces_only n
strip_spaces-padded zero (c ∷ cs) p h = absurd (omega arith)
strip_spaces-padded (suc n) (c ∷ cs) (p, ps) h =
    strip-cons (f_toupper c) (padded n (map f_toupper cs)) (map f_toupper cs) (f_toupper-ne c p)
      (strip_spaces-padded n cs ps (omega (arith, h)))

last_dot-plain :
    (cs : List ℕ) (i : ℕ) (found : Option ℕ) → AllPlain cs → last_dot cs i found ≡ found
unfolding last_dot
last_dot-plain [] i found p = refl
last_dot-plain (c ∷ cs) i found (p, ps) = ground (arith, p.0, last_dot-plain cs (i + 1) found ps)

dot-ne : (c : ℕ) → Plain c → (c == b'.') ≡ false
dot-ne c p = ground (arith, p.0)

last_dot-append :
    (cs ds : List ℕ) (i k : ℕ) (found : Option ℕ)
    → AllPlain cs
    → k ≡ i + length cs
    → last_dot (cs ++ ds) i found ≡ last_dot ds k found
unfolding last_dot
last_dot-append [] ds i k found p e = ap (λ (k : ℕ). last_dot ds k found) (omega arith)
last_dot-append (c ∷ cs) ds i k found (p, ps) e =
    ground (arith, dot-ne c p, last_dot-append cs ds (i + 1) k found ps (omega arith))

last_dot-dotted :
    (base ext : List ℕ) (k : ℕ)
    → AllPlain base
    → AllPlain ext
    → k ≡ length base
    → last_dot (base ++ b'.' ∷ ext) 0 none ≡ some k
unfolding last_dot
last_dot-dotted base ext k p q e =
    last_dot-append base (b'.' ∷ ext) 0 k none p (omega arith)
    ∙ last_dot-plain ext (k + 1) (some k) q

take-append_length : (cs ds : List ℕ) → take (length cs) (cs ++ ds) ≡ cs
take-append_length [] ds = refl
take-append_length (c ∷ cs) ds = ap (λ (l : List ℕ). c ∷ l) (take-append_length cs ds)

drop-append_length : (cs ds : List ℕ) (d k : ℕ) → k ≡ length cs + 1 → drop k (cs ++ d ∷ ds) ≡ ds
drop-append_length cs ds d zero e = absurd (omega arith)
drop-append_length [] ds d (suc k) e = let none_left : k ≡ 0 = omega arith in rw none_left refl
drop-append_length (c ∷ cs) ds d (suc k) e = drop-append_length cs ds d k (omega arith)

-- What is left of the split when the extension is empty or not.
split_name-dotted :
    (base ext : List ℕ)
    → AllPlain base
    → AllPlain ext
    → split_name (base ++ dotted ext) (last_dot (base ++ dotted ext) 0 none) ≡ (base, ext)
unfolding split_name dotted last_dot
split_name-dotted base [] p q = rw (append-nil base, last_dot-plain base 0 none p) refl
split_name-dotted base (e ∷ es) p q = rw (last_dot-dotted base (e ∷ es) (length base) p q refl) (
    ap₂ (λ (a b : List ℕ). (a, b)) (take-append_length base (b'.' ∷ e ∷ es))
      (drop-append_length base (e ∷ es) b'.' (length base + 1) refl))

lower-strip :
    (n : ℕ) (cs : List ℕ)
    → AllPlain cs
    → length cs ≤ n
    → map to_lower (strip_spaces (padded n (map f_toupper cs))) ≡ cs
lower-strip n cs p h = rw (strip_spaces-padded n cs p h) (map-to_lower cs p)

-- A name of at most 8 bytes, and an extension of at most 3, without capitals, dots and spaces: the
-- fields that `make_83_name` fills for it are read back by `parse_83_name` as the same name, with
-- the dot only when there is an extension.
pub parse_83_name-make_83_name :
    (base ext : List ℕ)
    → AllPlain base
    → AllPlain ext
    → length base ≤ 8
    → length ext ≤ 3
    → let fields = make_83_name (base ++ dotted ext) in
      parse_83_name fields.0 fields.1 ≡ base ++ dotted ext
unfolding parse_83_name make_83_name
parse_83_name-make_83_name base ext p q h k =
    rw (split_name-dotted base ext p q, lower-strip 8 base p h, lower-strip 3 ext q k) refl
