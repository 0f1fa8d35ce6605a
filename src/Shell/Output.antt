-- ===== src/Shell/Output.antt =====
-- What `cat` of kernel/kernel.c prints of the bytes of a read.
use lons_os.Base.{
  ℕ, zero, suc, ◌≤◌, ◌==◌, ◌||◌, ◌≡◌, refl, sym, ap, ◌∙◌, arith, Bool, true, false, List, [], ◌∷◌,
  ◌++◌, Option, none, some, if◌then◌else◌, if_elim, length, leb, Bool-cases, inl, inr,
}
use lons_os.Base.Text.{codes}
use lons_os.Machine.{write}
use lons_os.Framebuffer.{Framebuffer}
use lons_os.Gui.{Gui, Window, max_windows}
use lons_os.Gui.Text.{
  win_scroll, win_newline, at_end, moved_on, with_char, win_put, win_print, shown, print_shown,
  gui_print,
}
use lons_os.Shell.{Shell, say}
use lons_os.Shell.Cat.{take_line, after_line, cat_lines, line_room}

-- Window `wid` is shown in `t` as it is in `s`.
record Shown (wid : ℕ) (s t : Gui) : Type 0 where
  same : (t.windows wid).visible ≡ (s.windows wid).visible

Shown-trans : (wid : ℕ) (s t u : Gui) → Shown wid s t → Shown wid t u → Shown wid s u
Shown-trans wid s t u p q = record { same = q.same ∙ p.same }

change-Shown :
    (wid : ℕ) (s : Gui) (win : Window) (fb : Framebuffer)
    → win.visible ≡ (s.windows wid).visible
    → Shown wid s (record s { fb = fb; windows = write s.windows wid win })
change-Shown wid s win fb e = record { same = ground arith }

if-Shown :
    (wid : ℕ) (s : Gui) (b : Bool) (t u : Gui)
    → Shown wid s t
    → Shown wid s u
    → Shown wid s (if b then t else u)
if-Shown wid s true t u p q = p
if-Shown wid s false t u p q = q

win_scroll-Shown : (wid : ℕ) (s : Gui) → Shown wid s (win_scroll wid s)
unfolding win_scroll
win_scroll-Shown wid s = change-Shown wid s _ _ refl

win_newline-Shown : (wid : ℕ) (s : Gui) → Shown wid s (win_newline wid s)
unfolding win_newline
win_newline-Shown wid s =
    let moved = change-Shown wid s _ s.fb refl in
    if-Shown wid s _ _ _ (Shown-trans wid s _ _ moved (win_scroll-Shown wid _)) moved

win_put-Shown : (wid ch : ℕ) (s : Gui) → Shown wid s (win_put wid ch s)
unfolding win_put
win_put-Shown wid ch s =
    let t = with_char wid ch s in
    let moved = change-Shown wid s (moved_on (s.windows wid)) t.fb refl in
    if-Shown wid s (ch == b'\n') _ _ (win_newline-Shown wid s) (
      if-Shown wid s (at_end (moved_on (s.windows wid))) _ t
        (Shown-trans wid s t _ moved (win_newline-Shown wid t)) moved)

win_print-Shown : (wid : ℕ) (str : List ℕ) (s : Gui) → Shown wid s (win_print wid str s)
unfolding win_print
win_print-Shown wid [] s = record { same = refl }
win_print-Shown wid (ch ∷ str) s =
    Shown-trans wid s (win_put wid ch s) _ (win_put-Shown wid ch s)
      (win_print-Shown wid str (win_put wid ch s))

win_print-append :
    (wid : ℕ) (xs ys : List ℕ) (s : Gui)
    → win_print wid (xs ++ ys) s ≡ win_print wid ys (win_print wid xs s)
unfolding win_print
win_print-append wid [] ys s = refl
win_print-append wid (x ∷ xs) ys s = win_print-append wid xs ys (win_put wid x s)

gui_print-append :
    (wid : Option ℕ) (xs ys : List ℕ) (s : Gui)
    → gui_print wid (xs ++ ys) s ≡ gui_print wid ys (gui_print wid xs s)
unfolding gui_print shown print_shown
gui_print-append none xs ys s = refl
gui_print-append (some wid) xs ys s =
    elim (Bool-cases (leb max_windows wid || (s.windows wid).visible == 0)) [
      | inl hidden ↦ rw (hidden, hidden) refl
      | inr here ↦ rw (here, (win_print-Shown wid xs s).same, here) (win_print-append wid xs ys s)
    ]

pub say-append : {D : Type 0} (xs ys : List ℕ) (s : Shell D) → say (xs ++ ys) s ≡ say ys (say xs s)
say-append xs ys s = ap (λ g. record s { gui = g }) (gui_print-append s.term_wid xs ys s.gui)

-- The text with two spaces behind each newline.
abbrev pub indented : List ℕ → List ℕ
indented [] = []
indented (c ∷ cs) = if c == b'\n' then codes "\n  " ++ indented cs else c ∷ indented cs

indented-other : (c : ℕ) (cs : List ℕ) → (c == b'\n') ≡ false → indented (c ∷ cs) ≡ c ∷ indented cs
indented-other c cs e = rw e refl

-- A line and the rest of a text.
abbrev Splits : List ℕ → List ℕ × List ℕ → Type 0
Splits text (line, rest) = (indented text ≡ line ++ indented rest) × (length rest ≤ length text)

take_line-Splits : (room : ℕ) (text : List ℕ) → Splits text (take_line room text)
unfolding take_line
take_line-Splits zero text = (refl, omega arith)
take_line-Splits (suc room) [] = (refl, omega arith)
take_line-Splits (suc room) (c ∷ cs) =
    let (line, rest) = take_line room cs in
    let (split, short) = take_line-Splits room cs in
    if_elim (Splits (c ∷ cs)) (c == b'\n') ([], c ∷ cs) (c ∷ line, rest) (λ e. (refl, omega arith))
      (λ e. (indented-other c cs e ∙ ap (λ l. c ∷ l) split, omega (arith, short)))

-- The texts print the same from these states, and the second is no longer.
abbrev Follows : {D : Type 0} → List ℕ → Shell D → List ℕ × Shell D → Type 0
Follows text s (rest, t) =
    (say (indented text) s ≡ say (indented rest) t) × (length rest ≤ length text)

print_shown-nil : (wid : Option ℕ) (s : Gui) → print_shown wid [] s ≡ s
unfolding print_shown win_print
print_shown-nil none s = refl
print_shown-nil (some wid) s = refl

module _ {D : Type 0} where
  after_line-Follows : (rest : List ℕ) (s : Shell D) → Follows rest s (after_line rest s)
  unfolding after_line
  after_line-Follows [] s = (refl, omega arith)
  after_line-Follows (c ∷ cs) s =
      if_elim (Follows (c ∷ cs) s) (c == b'\n') (cs, say (codes "\n  ") s) (c ∷ cs, s)
        (λ e. (rw e (say-append (codes "\n  ") (indented cs) s), omega arith))
        (λ e. (refl, omega arith))

  -- A round takes a byte at least.
  round_shorter :
      (room c : ℕ) (cs : List ℕ) (s : Shell D)
      → length (after_line ((take_line (suc room) (c ∷ cs)).1) s).0 ≤ length cs
  unfolding take_line after_line
  round_shorter room c cs s = elim (Bool-cases (c == b'\n')) [
    | inl e ↦ rw (e, e) (omega arith)
    | inr e ↦
        let (line, rest) = take_line room cs in
        rw e (omega (arith, (take_line-Splits room cs).1, (after_line-Follows rest s).1))
  ]

  pub say-nil : (s : Shell D) → say [] s ≡ s
  unfolding gui_print
  say-nil s = ap (λ g. record s { gui = g }) (print_shown-nil (shown s.term_wid s.gui) s.gui)

  pub cat_lines-indented :
      (fuel : ℕ) (text : List ℕ) (s : Shell D)
      → length text ≤ fuel
      → cat_lines fuel text s ≡ say (indented text) s
  unfolding cat_lines
  cat_lines-indented zero [] s h = sym (say-nil s)
  cat_lines-indented zero (c ∷ cs) s h = absurd (omega arith)
  cat_lines-indented (suc fuel) [] s h = sym (say-nil s)
  cat_lines-indented (suc fuel) (c ∷ cs) s h =
      let (line, rest) = take_line line_room (c ∷ cs) in
      let (text, t) = after_line rest (say line s) in
      cat_lines-indented fuel text t (omega (arith, round_shorter 125 c cs (say line s)))
      ∙ sym ((after_line-Follows rest (say line s)).0)
      ∙ sym (say-append line (indented rest) s)
      ∙ ap (λ l. say l s) (sym ((take_line-Splits line_room (c ∷ cs)).0))
