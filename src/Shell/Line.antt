-- ===== src/Shell/Line.antt =====
-- What the keys make of the command line, in kernel/kernel.c.
use lons_os.Base.{
  ℕ, zero, suc, ◌+◌, ◌-◌, ◌≤◌, ◌<◌, ◌==◌, ◌≡◌, ◌≢◌, refl, sym, ap, ap₂, ◌∙◌, subst, arith, if_elim,
  List, [], ◌∷◌, ◌++◌, length, ltb, ltb→lt, ltb→le, lt→ltb, eq_false, if◌then◌else◌, true, false,
}
use lons_os.Machine.{write}
use lons_os.Machine.Bytes.{Buffer, bytes_at}
use lons_os.Heap.{Run, ok, halted, out_of_fuel, ◌>>=◌}
use lons_os.Framebuffer.Console.{c_string}
use lons_os.Shell.{Shell, Kernel, say, shell_prompt}
use lons_os.Shell.Commands.{shell_run}
use lons_os.Shell.Keys.{
  insert_char, erase_char, edit_line, end_line, line_text, one_char, new_line, enter_line,
  shell_key, shell_keys,
}

-- A write behind the bytes adds one to them.
bytes_at-write_end :
    (n k j c : ℕ) (b : Buffer)
    → j ≡ k + n
    → bytes_at (suc n) k (write b j c) ≡ bytes_at n k b ++ (c ∷ [])
unfolding bytes_at
bytes_at-write_end zero k j c b e = ap₂ ◌∷◌ (ground arith) refl
bytes_at-write_end (suc n) k j c b e =
    ap₂ ◌∷◌ (ground arith) (bytes_at-write_end n (k + 1) j c b (omega arith))

bytes_at-write_apart :
    (n k j c : ℕ) (b : Buffer) → k + n ≤ j → bytes_at n k (write b j c) ≡ bytes_at n k b
unfolding bytes_at
bytes_at-write_apart zero k j c b h = refl
bytes_at-write_apart (suc n) k j c b h =
    ap₂ ◌∷◌ (ground arith) (bytes_at-write_apart n (k + 1) j c b (omega arith))

abbrev pub without_last : List ℕ → List ℕ
without_last [] = []
without_last (x ∷ []) = []
without_last (x ∷ y ∷ ys) = x ∷ without_last (y ∷ ys)

without_last-bytes_at :
    (n k : ℕ) (b : Buffer) → without_last (bytes_at (suc n) k b) ≡ bytes_at n k b
unfolding bytes_at
without_last-bytes_at zero k b = refl
without_last-bytes_at (suc n) k b = ap (λ l. b k ∷ l) (without_last-bytes_at n (k + 1) b)

length-bytes_at : (n k : ℕ) (b : Buffer) → length (bytes_at n k b) ≡ n
unfolding bytes_at
length-bytes_at zero k b = refl
length-bytes_at (suc n) k b = ap suc (length-bytes_at n (k + 1) b)

-- The bytes before the first 0.
c_string-bytes_at :
    (m n k : ℕ) (b : Buffer)
    → n < m
    → ((i : ℕ) → i < n → b (k + i) ≢ 0)
    → b (k + n) ≡ 0
    → c_string m k b ≡ bytes_at n k b
unfolding c_string bytes_at
c_string-bytes_at zero n k b h filled ends = absurd (omega arith)
c_string-bytes_at (suc m) zero k b h filled ends =
    let here : b k ≡ 0 = subst (λ i. b i ≡ 0) (omega arith) ends in rw here refl
c_string-bytes_at (suc m) (suc n) k b h filled ends =
    let here : b k ≢ 0 = subst (λ i. b i ≢ 0) (omega arith) (filled 0 (omega arith)) in
    rw (eq_false (b k) 0 here) (
      ap (λ l. b k ∷ l)
        (c_string-bytes_at m n (k + 1) b (omega arith)
          (λ i lt. subst (λ j. b j ≢ 0) (omega arith) (filled (i + 1) (omega arith)))
          (subst (λ j. b j ≡ 0) (omega arith) ends)))

-- The characters that wait for Enter.
abbrev pub line : {D : Type 0} → Shell D → List ℕ
line s = bytes_at s.input_len 0 s.input_line

-- They and a 0 have room in the array, and none of them is 0.
pub record Editing {D : Type 0} (s : Shell D) : Type 0 where
  pub short : s.input_len < 255
  pub filled : (i : ℕ) → i < s.input_len → s.input_line i ≢ 0

-- A key other than Enter that has a character.
abbrev pub Typable : ℕ → Type 0
Typable c = (c ≢ 0) × (c ≢ b'\n')

pub data AllTypable : List ℕ → Type 0 where
  nil : AllTypable []
  cons : {c : ℕ} {cs : List ℕ} → Typable c → AllTypable cs → AllTypable (c ∷ cs)

-- What a key makes of a line of text: Backspace takes its last character, another key goes to its
-- end, unless it has 254 characters.
abbrev pub typed : List ℕ → ℕ → List ℕ
typed text c =
    if c == 8 then without_last text else if ltb (length text) 254 then text ++ (c ∷ []) else text

abbrev pub typed_all : List ℕ → List ℕ → List ℕ
typed_all text [] = text
typed_all text (c ∷ cs) = typed_all (typed text c) cs

without_last-none : (n : ℕ) (b : Buffer) → n ≡ 0 → without_last (bytes_at n 0 b) ≡ bytes_at n 0 b
unfolding bytes_at
without_last-none n b e = subst (λ m. without_last (bytes_at m 0 b) ≡ bytes_at m 0 b) (sym e) refl

module _ {D : Type 0} where
  -- The state goes on editing, with the line that the key makes and the same files.
  record Edits (c : ℕ) (s t : Shell D) : Type 0 where
    text : line t ≡ typed (line s) c
    files : t.vfs ≡ s.vfs
    wid : t.term_wid ≡ s.term_wid
    editing : Editing t

  insert_char-Edits :
      (c : ℕ) (s : Shell D)
      → Typable c
      → Editing s
      → (c == 8) ≡ false
      → s.input_len < 254
      → Edits c s (insert_char c (say (one_char c) s))
  insert_char-Edits c s (nz, nl) v other room = record {
    text =
        rw (other, length-bytes_at s.input_len 0 s.input_line, lt→ltb s.input_len 254 room)
          (ap (λ n. bytes_at n 0 (write s.input_line s.input_len c)) (omega arith)
            ∙ bytes_at-write_end s.input_len 0 s.input_len c s.input_line (omega arith));
    files = refl;
    wid = refl;
    editing = record { short = omega arith; filled = λ i h. ground (arith, v.filled i, nz) };
  }

  erase_char-Edits :
      (c : ℕ) (s : Shell D)
      → Editing s
      → (c == 8) ≡ true
      → 0 < s.input_len
      → Edits c s (erase_char s)
  erase_char-Edits c s v back some = record {
    text = rw back (
        sym (
          ap (λ n. without_last (bytes_at n 0 s.input_line)) (omega arith)
          ∙ without_last-bytes_at (s.input_len - 1) 0 s.input_line));
    files = refl;
    wid = refl;
    editing = record { short = omega (arith, v.short); filled = λ i h. v.filled i (omega arith) };
  }

  -- No character to take, or no room for one.
  unchanged-Edits : (c : ℕ) (s : Shell D) → Editing s → typed (line s) c ≡ line s → Edits c s s
  unchanged-Edits c s v e = record { text = sym e; files = refl; wid = refl; editing = v }

  edit_line-Edits : (c : ℕ) (s : Shell D) → Typable c → Editing s → Edits c s (edit_line c s)
  unfolding edit_line
  edit_line-Edits c s t v =
      if_elim (Edits c s) (c == 8) (if ltb 0 s.input_len then erase_char s else s)
        (if ltb s.input_len 254 then insert_char c (say (one_char c) s) else s)
        (λ back.
          if_elim (Edits c s) (ltb 0 s.input_len) (erase_char s) s
            (λ h. erase_char-Edits c s v back (ltb→lt _ _ h))
            (λ h. unchanged-Edits c s v (
              rw back (
                without_last-none s.input_len s.input_line
                  (omega (arith, ltb→le 0 s.input_len h))))))
        (λ other.
          if_elim (Edits c s) (ltb s.input_len 254) (insert_char c (say (one_char c) s)) s
            (λ h. insert_char-Edits c s t v other (ltb→lt _ _ h))
            (λ h.
              unchanged-Edits c s v
                (rw (other, length-bytes_at s.input_len 0 s.input_line, h) refl)))

  -- What Enter runs, on the text and the state that the keys before it have left.
  abbrev runs : (k : Kernel D) → ℕ → List ℕ → Shell D → Run (Shell D)
  runs k fuel text s =
      shell_run k fuel text s >>= λ t. ok (shell_prompt (record t { input_len = 0 }))

  line_text-end_line : (s : Shell D) → Editing s → line_text (end_line s) ≡ line s
  line_text-end_line s v =
      c_string-bytes_at 256 s.input_len 0 (write s.input_line s.input_len 0)
        (omega (arith, v.short)) (λ i h. ground (arith, v.filled i)) (ground arith)
      ∙ bytes_at-write_apart s.input_len 0 s.input_len 0 s.input_line (omega arith)

  -- The keys and Enter run the shell on the edited line, in a state with the same files and the
  -- same window, and the next line is empty.
  abbrev pub Enters : (k : Kernel D) → ℕ → List ℕ → Shell D → Type 0
  Enters k fuel cs s =
      (u : Shell D) × (shell_keys k fuel (cs ++ (b'\n' ∷ [])) s
        ≡ runs k fuel (typed_all (line s) cs) u)
      × (u.vfs ≡ s.vfs)
      × (u.term_wid ≡ s.term_wid)

  module _ (k : Kernel D) (fuel : ℕ) where
    shell_key-enter :
        (s : Shell D) → Editing s → shell_key k fuel b'\n' s ≡ runs k fuel (line s) (new_line k s)
    unfolding shell_key enter_line
    shell_key-enter s v = ap (λ text. runs k fuel text (new_line k s)) (line_text-end_line s v)

    bind-ok : (r : Run (Shell D)) → (r >>= (λ t. ok t)) ≡ r
    bind-ok (ok t) = refl
    bind-ok halted = refl
    bind-ok out_of_fuel = refl

    shell_key-edit : (c : ℕ) (s : Shell D) → Typable c → shell_key k fuel c s ≡ ok (edit_line c s)
    unfolding shell_key
    shell_key-edit c s (nz, nl) = rw (eq_false c b'\n' nl) refl

    -- From an empty line or one that is being edited, keys with characters, Backspace among them, and
    -- then Enter run the command on the text that the keys make, of 254 characters at most, with
    -- the files and the terminal's window as they were, and end with the prompt for an empty line.
    pub shell_keys-Enters :
        (cs : List ℕ) (s : Shell D) → AllTypable cs → Editing s → Enters k fuel cs s
    unfolding shell_keys
    shell_keys-Enters [] s AllTypable.nil v =
        (new_line k s, bind-ok (shell_key k fuel b'\n' s) ∙ shell_key-enter s v, refl, refl)
    shell_keys-Enters (c ∷ cs) s (AllTypable.cons t ts) v =
        let e = edit_line-Edits c s t v in
        let (u, run, files, wid) = shell_keys-Enters cs (edit_line c s) ts e.editing in
        (
          u,
          ap (λ r. r >>= shell_keys k fuel (cs ++ (b'\n' ∷ []))) (shell_key-edit c s t)
              ∙ run
              ∙ ap (λ text. runs k fuel (typed_all text cs) u) e.text,
          files ∙ e.files,
          wid ∙ e.wid,
        )
