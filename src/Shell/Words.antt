-- ===== src/Shell/Words.antt =====
-- The words of a command line: kernel/kernel.c reads back what a line is made of.
use lons_os.Base.{
  ℕ, zero, suc, ◌<◌, ◌≤◌, ◌≡◌, ◌≢◌, refl, sym, ap, ◌∙◌, arith, List, [], ◌∷◌, ◌++◌, map, length,
  take, eq_false, ◌⊎◌, inl, inr,
}
use lons_os.Shell.Args.{
  skip_spaces, take_word, skip_word, first_arg, args_from, parse_args, text_of, arg_max,
}

-- No byte is a space.
pub data Solid : List ℕ → Type 0 where
  nil : Solid []
  cons : {c : ℕ} {cs : List ℕ} → c ≢ b' ' → Solid cs → Solid (c ∷ cs)

-- A byte at least, 127 at most, and no space.
abbrev pub IsWord : List ℕ → Type 0
IsWord w = (0 < length w) × (length w ≤ arg_max) × Solid w

abbrev pub spaces : ℕ → List ℕ
spaces zero = []
spaces (suc n) = b' ' ∷ spaces n

-- A text that ends or goes on with a space.
abbrev pub Ends : List ℕ → Type 0
Ends text = (text ≡ []) ⊎ ((more : List ℕ) × (text ≡ b' ' ∷ more))

-- A space and `n` more before each word, and `n` behind the last one.
abbrev pub words_then : List (ℕ × List ℕ) → ℕ → List ℕ
words_then [] n = spaces n
words_then ((m, w) ∷ ws) n = b' ' ∷ (spaces m ++ (w ++ words_then ws n))

-- A line that starts with `m` spaces and the word `w`.
abbrev pub line_of : ℕ → List ℕ → List (ℕ × List ℕ) → ℕ → List ℕ
line_of m w ws n = spaces m ++ (w ++ words_then ws n)

pub data AllWords : List (ℕ × List ℕ) → Type 0 where
  nil : AllWords []
  cons :
      {m : ℕ} {w : List ℕ} {ws : List (ℕ × List ℕ)}
      → IsWord w
      → AllWords ws
      → AllWords ((m, w) ∷ ws)

abbrev pub second : ℕ × List ℕ → List ℕ
second (m, w) = w

skip_spaces-spaces : (n : ℕ) (text : List ℕ) → skip_spaces (spaces n ++ text) ≡ skip_spaces text
unfolding skip_spaces
skip_spaces-spaces zero text = refl
skip_spaces-spaces (suc n) text = skip_spaces-spaces n text

skip_spaces-none : (n : ℕ) → skip_spaces (spaces n) ≡ []
unfolding skip_spaces
skip_spaces-none zero = refl
skip_spaces-none (suc n) = skip_spaces-none n

-- Nothing is skipped before a byte of a word.
skip_spaces-solid : (c : ℕ) (cs : List ℕ) → c ≢ b' ' → skip_spaces (c ∷ cs) ≡ c ∷ cs
unfolding skip_spaces
skip_spaces-solid c cs h = rw (eq_false c b' ' h) refl

-- What follows a word is a space or the end.
words_then-Ends : (ws : List (ℕ × List ℕ)) (n : ℕ) → Ends (words_then ws n)
words_then-Ends [] zero = inl refl
words_then-Ends [] (suc n) = inr (spaces n, refl)
words_then-Ends ((m, w) ∷ ws) n = inr (spaces m ++ (w ++ words_then ws n), refl)

take_word-end : (room : ℕ) (text : List ℕ) → Ends text → take_word room text ≡ ([], text)
unfolding take_word
take_word-end zero text e = refl
take_word-end (suc room) text (inl e) = rw e refl
take_word-end (suc room) text (inr (more, e)) = rw e refl

take_word-append :
    (room : ℕ) (w text : List ℕ)
    → length w ≤ room
    → Solid w
    → Ends text
    → take_word room (w ++ text) ≡ (w, text)
unfolding take_word
take_word-append room [] text h s e = take_word-end room text e
take_word-append zero (c ∷ cs) text h s e = absurd (omega arith)
take_word-append (suc room) (c ∷ cs) text h (Solid.cons nc s) e =
    rw (eq_false c b' ' nc, take_word-append room cs text (omega arith) s e) refl

args_from-spaces : (n m : ℕ) (text : List ℕ) → args_from n (spaces m ++ text) ≡ args_from n text
unfolding args_from
args_from-spaces zero m text = refl
args_from-spaces (suc n) m text = ap (first_arg (args_from n)) (skip_spaces-spaces m text)

args_from-none : (n m : ℕ) → args_from n (spaces m) ≡ []
unfolding args_from first_arg
args_from-none zero m = refl
args_from-none (suc n) m = ap (first_arg (args_from n)) (skip_spaces-none m)

args_from-word :
    (n : ℕ) (w text : List ℕ)
    → IsWord w
    → Ends text
    → args_from (suc n) (w ++ text) ≡ w ∷ args_from n text
unfolding args_from first_arg
args_from-word n [] text (some_byte, short, s) e = absurd (omega arith)
args_from-word n (c ∷ cs) text (some_byte, short, Solid.cons nc s) e =
    ap (first_arg (args_from n)) (skip_spaces-solid c (cs ++ text) nc)
    ∙ ap (λ (word, rest). word ∷ args_from n rest)
        (take_word-append arg_max (c ∷ cs) text short (Solid.cons nc s) e)

take-nil : (k : ℕ) → take {A = List ℕ} k [] ≡ []
take-nil zero = refl
take-nil (suc k) = refl

args_from-words_then :
    (k : ℕ) (ws : List (ℕ × List ℕ)) (n : ℕ)
    → AllWords ws
    → args_from k (words_then ws n) ≡ take k (map second ws)
unfolding args_from
args_from-words_then zero ws n a = refl
args_from-words_then (suc k) [] n a = args_from-none (suc k) n
args_from-words_then (suc k) ((m, w) ∷ ws) n (AllWords.cons h a) =
    args_from-spaces (suc k) (suc m) (w ++ words_then ws n)
    ∙ args_from-word k w (words_then ws n) h (words_then-Ends ws n)
    ∙ ap (λ l. w ∷ l) (args_from-words_then k ws n a)

-- A line of words of at most 127 bytes, with spaces before, between and behind them, is taken
-- apart into its first four words.
pub parse_args-line_of :
    (m : ℕ) (w : List ℕ) (ws : List (ℕ × List ℕ)) (n : ℕ)
    → IsWord w
    → AllWords ws
    → parse_args (line_of m w ws n) ≡ take 4 (w ∷ map second ws)
unfolding parse_args
parse_args-line_of m w ws n h a =
    args_from-spaces 4 m (w ++ words_then ws n)
    ∙ args_from-word 3 w (words_then ws n) h (words_then-Ends ws n)
    ∙ ap (λ l. w ∷ l) (args_from-words_then 3 ws n a)

skip_word-append : (w text : List ℕ) → Solid w → skip_word (w ++ b' ' ∷ text) ≡ b' ' ∷ text
unfolding skip_word
skip_word-append [] text Solid.nil = refl
skip_word-append (c ∷ cs) text (Solid.cons nc s) =
    rw (eq_false c b' ' nc) (skip_word-append cs text s)

-- A word, spaces, and what starts with another byte.
next_word :
    (w text : List ℕ) (n c : ℕ) (cs : List ℕ)
    → Solid w
    → text ≡ c ∷ cs
    → c ≢ b' '
    → skip_spaces (skip_word (w ++ b' ' ∷ (spaces n ++ text))) ≡ text
next_word w text n c cs s e nc =
    ap skip_spaces (skip_word-append w (spaces n ++ text) s)
    ∙ skip_spaces-spaces (suc n) text
    ∙ ap skip_spaces e
    ∙ skip_spaces-solid c cs nc
    ∙ sym e

-- A command, a file and a text with one or more spaces between them, behind `m` more.
abbrev pub stored_line : ℕ → List ℕ → ℕ → List ℕ → ℕ → List ℕ → List ℕ
stored_line m w i file j text =
    spaces m ++ (w ++ b' ' ∷ (spaces i ++ (file ++ b' ' ∷ (spaces j ++ text))))

-- What `text_of` makes of such a line, by the number of spaces before the command.
abbrev pub stored_text : ℕ → List ℕ → ℕ → List ℕ → List ℕ
stored_text zero file j text = text
stored_text (suc m) file j text = file ++ b' ' ∷ (spaces j ++ text)

text_of-solid :
    (w : List ℕ) (i : ℕ) (rest : List ℕ) (c : ℕ) (cs : List ℕ)
    → Solid w
    → rest ≡ c ∷ cs
    → c ≢ b' '
    → text_of (w ++ b' ' ∷ (spaces i ++ rest)) ≡ skip_spaces (skip_word rest)
unfolding text_of
text_of-solid w i rest c cs s e nc =
    ap (λ l. skip_spaces (skip_word l)) (next_word w rest i c cs s e nc)

text_of-spaces :
    (m : ℕ) (rest : List ℕ)
    → text_of (spaces (suc m) ++ rest) ≡ skip_spaces (skip_word (skip_spaces rest))
unfolding text_of skip_word
text_of-spaces m rest = ap (λ l. skip_spaces (skip_word l)) (skip_spaces-spaces (suc m) rest)

-- The text that `write` and `append` store is what stands behind the file's name, if the command
-- starts the line; behind spaces at the start of the line, it is the file's name and all that follows.
-- The three parts are not empty, the first two have no spaces and the text does not start with one.
pub text_of-stored_line :
    (m : ℕ) (a : ℕ) (w : List ℕ) (i : ℕ) (b : ℕ) (file : List ℕ) (j : ℕ) (c : ℕ) (text : List ℕ)
    → Solid (a ∷ w)
    → Solid (b ∷ file)
    → c ≢ b' '
    → text_of (stored_line m (a ∷ w) i (b ∷ file) j (c ∷ text))
      ≡ stored_text m (b ∷ file) j (c ∷ text)
text_of-stored_line zero a w i b file j c text sw (Solid.cons nb sf) nc =
    text_of-solid (a ∷ w) i (b ∷ file ++ b' ' ∷ (spaces j ++ c ∷ text)) b _ sw refl nb
    ∙ next_word (b ∷ file) (c ∷ text) j c text (Solid.cons nb sf) refl nc
text_of-stored_line (suc m) a w i b file j c text (Solid.cons na sw) (Solid.cons nb sf) nc =
    text_of-spaces m (a ∷ w ++ b' ' ∷ (spaces i ++ (b ∷ file ++ b' ' ∷ (spaces j ++ c ∷ text))))
    ∙ ap (λ l. skip_spaces (skip_word l))
        (skip_spaces-solid a (w ++ b' ' ∷ (spaces i ++ (b ∷ file ++ b' ' ∷ (spaces j ++ c ∷ text))))
          na)
    ∙ next_word (a ∷ w) (b ∷ file ++ b' ' ∷ (spaces j ++ c ∷ text)) i b _ (Solid.cons na sw) refl nb
