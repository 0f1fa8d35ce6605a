-- ===== src/Gui/Kept.antt =====
-- What leaves the focus of the windows as it is.
use lons_os.Base.{
  ℕ, ◌<◌, ◌≡◌, ◌≢◌, ◌==◌, ◌∙◌, refl, sym, ap, Bool, true, false, ltb, List, [], ◌∷◌, Option, none,
  some, if◌then◌else◌, if_elim, Bool-cases, inl, inr, ==→eq,
}
use lons_os.Machine.{write}
use lons_os.Machine.Bytes.{Buffer}
use lons_os.Framebuffer.{Framebuffer}
use lons_os.Gui.{Gui, Window, max_windows, gui_window_draw, draw_frame}
use lons_os.Gui.Text.{
  win_scroll, win_newline, at_end, moved_on, with_char, win_put, print_shown, on_window, at_start,
  stepped_back, backspace_shown, win_print, shown, gui_print, gui_print_dec, win_backspace,
}

abbrev pub OneFocused : Gui → Type 0
OneFocused s = (n : ℕ) → n < max_windows → (s.windows n).focused ≢ 0 → s.focused_window ≡ some n

-- The focus of `t` is that of `s`.
pub record SameFocus (s t : Gui) : Type 0 where
  pub named : t.focused_window ≡ s.focused_window
  pub flags : (n : ℕ) → (t.windows n).focused ≡ (s.windows n).focused

SameFocus-refl : (s : Gui) → SameFocus s s
SameFocus-refl s = record { named = refl; flags = λ n. refl }

SameFocus-trans : (s t u : Gui) → SameFocus s t → SameFocus t u → SameFocus s u
SameFocus-trans s t u p q = record { named = q.named ∙ p.named; flags = λ n. q.flags n ∙ p.flags n }

pub SameFocus-OneFocused : (s t : Gui) → SameFocus s t → OneFocused s → OneFocused t
SameFocus-OneFocused s t same one n h f = same.named ∙ one n h (λ z. f (same.flags n ∙ z))

-- A window changes, but not whether it is focused.
pub change-SameFocus :
    (s : Gui) (wid : ℕ) (win : Window) (fb : Framebuffer)
    → win.focused ≡ (s.windows wid).focused
    → SameFocus s (record s { fb = fb; windows = write s.windows wid win })
change-SameFocus s wid win fb e = record {
  named = refl;
  flags = λ n. elim (Bool-cases (n == wid)) [
    | inl here ↦ rw here (e ∙ ap (λ (k : ℕ). (s.windows k).focused) (sym (==→eq _ _ here)))
    | inr other ↦ rw other refl
  ];
}

win_scroll-SameFocus : (wid : ℕ) (s : Gui) → SameFocus s (win_scroll wid s)
unfolding win_scroll
win_scroll-SameFocus wid s = change-SameFocus s wid _ _ refl

pub win_newline-SameFocus : (wid : ℕ) (s : Gui) → SameFocus s (win_newline wid s)
unfolding win_newline
win_newline-SameFocus wid s =
    let moved = change-SameFocus s wid _ s.fb refl in
    if_elim (SameFocus s) _ _ _ (λ e. SameFocus-trans s _ _ moved (win_scroll-SameFocus wid _))
      (λ e. moved)

if-SameFocus :
    (s : Gui) (b : Bool) (t u : Gui)
    → SameFocus s t
    → SameFocus s u
    → SameFocus s (if b then t else u)
if-SameFocus s true t u p q = p
if-SameFocus s false t u p q = q

win_put-SameFocus : (wid ch : ℕ) (s : Gui) → SameFocus s (win_put wid ch s)
unfolding win_put
win_put-SameFocus wid ch s =
    let t = with_char wid ch s in
    let moved = change-SameFocus s wid (moved_on (s.windows wid)) t.fb refl in
    if-SameFocus s (ch == b'\n') _ _ (win_newline-SameFocus wid s) (
      if-SameFocus s (at_end (moved_on (s.windows wid))) _ t
        (SameFocus-trans s t _ moved (win_newline-SameFocus wid t)) moved)

win_print-SameFocus : (wid : ℕ) (str : List ℕ) (s : Gui) → SameFocus s (win_print wid str s)
unfolding win_print
win_print-SameFocus wid [] s = SameFocus-refl s
win_print-SameFocus wid (ch ∷ str) s =
    SameFocus-trans s (win_put wid ch s) _ (win_put-SameFocus wid ch s)
      (win_print-SameFocus wid str (win_put wid ch s))

print_shown-SameFocus :
    (wid : Option ℕ) (str : List ℕ) (s : Gui) → SameFocus s (print_shown wid str s)
unfolding print_shown
print_shown-SameFocus none str s = SameFocus-refl s
print_shown-SameFocus (some wid) str s = win_print-SameFocus wid str s

pub gui_print-SameFocus :
    (wid : Option ℕ) (str : List ℕ) (s : Gui) → SameFocus s (gui_print wid str s)
unfolding gui_print
gui_print-SameFocus wid str s = print_shown-SameFocus (shown wid s) str s

pub gui_print_dec-SameFocus :
    (junk : Buffer) (wid : Option ℕ) (val : ℕ) (s : Gui)
    → SameFocus s (gui_print_dec junk wid val s)
unfolding gui_print_dec
gui_print_dec-SameFocus junk wid val s =
    if-SameFocus s (val == 0) _ _ (gui_print-SameFocus wid _ s) (gui_print-SameFocus wid _ s)

pub backspace_shown-SameFocus : (wid : Option ℕ) (s : Gui) → SameFocus s (backspace_shown wid s)
unfolding backspace_shown win_backspace
backspace_shown-SameFocus none s = SameFocus-refl s
backspace_shown-SameFocus (some wid) s =
    if-SameFocus s (at_start (s.windows wid)) s _ (SameFocus-refl s)
      (change-SameFocus s wid (stepped_back (s.windows wid)) _ refl)

pub on_window-SameFocus :
    (wid : Option ℕ) (change : ℕ → Gui → Gui) (s : Gui)
    → ((n : ℕ) → SameFocus s (change n s))
    → SameFocus s (on_window wid change s)
unfolding on_window
on_window-SameFocus none change s same = SameFocus-refl s
on_window-SameFocus (some n) change s same =
    if-SameFocus s (ltb n max_windows) (change n s) s (same n) (SameFocus-refl s)

pub gui_window_draw-SameFocus : (wid : ℕ) (s : Gui) → SameFocus s (gui_window_draw wid s)
unfolding gui_window_draw
gui_window_draw-SameFocus wid s =
    if-SameFocus s ((s.windows wid).visible == 0) s
      (record s { fb = draw_frame (s.windows wid) s.fb }) (SameFocus-refl s)
      (record { named = refl; flags = λ n. refl })
