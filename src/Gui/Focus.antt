-- ===== src/Gui/Focus.antt =====
-- At most one window is focused, and it is the one that `g_focused_window` names.
use lons_os.Base.{
  ℕ, ◌<◌, ◌≡◌, ◌==◌, ◌∙◌, refl, sym, ap, arith, Bool, false, ltb, List, [], ◌∷◌, Option, none, some,
  if◌then◌else◌, if_elim, Bool-cases, lt→ltb, inl, inr, ==→eq,
}
use lons_os.Machine.Bytes.{Buffer}
use lons_os.Gui.{
  Gui, max_windows, gui_init, gui_window_draw, free_slot, open_at, open_slot, gui_window_create,
  set_focused, unfocus, gui_window_focus, gui_redraw_area,
}
use lons_os.Gui.Text.{
  win_newline, clear_content, shown, gui_print, gui_print_hex, gui_print_dec, gui_set_color,
  gui_backspace, gui_newline, gui_clear_window,
}
use lons_os.Gui.Kept.{
  OneFocused, SameFocus-OneFocused, change-SameFocus, win_newline-SameFocus, gui_print-SameFocus,
  gui_print_dec-SameFocus, backspace_shown-SameFocus, on_window-SameFocus,
  gui_window_draw-SameFocus,
}

-- What clients call; a number of a window that has the focus set is one of the table, and a text
-- has what its array held before.
pub data Call : Type 0 where
  create : ℕ → ℕ → ℕ → ℕ → List ℕ → Call
  draw : ℕ → Call
  focus : (wid : ℕ) → wid < max_windows → Call
  unfocus_all : Call
  redraw_area : ℕ → ℕ → ℕ → ℕ → Call
  print : Option ℕ → List ℕ → Call
  print_hex : Buffer → Option ℕ → ℕ → Call
  print_dec : Buffer → Option ℕ → ℕ → Call
  set_color : Option ℕ → ℕ → Call
  backspace : Option ℕ → Call
  newline : Option ℕ → Call
  clear_window : Option ℕ → Call

unfoldable pub call : Call → Gui → Gui
call (create x y w h title) s = (gui_window_create x y w h title s).1
call (draw wid) s = gui_window_draw wid s
call (focus wid h) s = gui_window_focus (some wid) s
call unfocus_all s = gui_window_focus none s
call (redraw_area x y w h) s = gui_redraw_area x y w h s
call (print wid str) s = gui_print wid str s
call (print_hex junk wid val) s = gui_print_hex junk wid val s
call (print_dec junk wid val) s = gui_print_dec junk wid val s
call (set_color wid fg) s = gui_set_color wid fg s
call (backspace wid) s = gui_backspace wid s
call (newline wid) s = gui_newline wid s
call (clear_window wid) s = gui_clear_window wid s

unfoldable pub calls : List Call → Gui → Gui
calls [] s = s
calls (c ∷ cs) s = calls cs (call c s)

open_at-OneFocused :
    (wid x y w h : ℕ) (title : List ℕ) (s : Gui)
    → OneFocused s
    → OneFocused (open_at wid x y w h title s)
unfolding open_at
open_at-OneFocused wid x y w h title s one =
    SameFocus-OneFocused _ _ (gui_window_draw-SameFocus wid _) (λ n below f.
      elim (Bool-cases (n == wid)) [
        | inl here ↦ absurd (f (rw here refl))
        | inr other ↦ one n below (λ z. f (rw other z))
      ])

open_slot-OneFocused :
    (slot : Option ℕ) (x y w h : ℕ) (title : List ℕ) (s : Gui)
    → OneFocused s
    → OneFocused (open_slot slot x y w h title s).1
unfolding open_slot
open_slot-OneFocused none x y w h title s one = one
open_slot-OneFocused (some wid) x y w h title s one = open_at-OneFocused wid x y w h title s one

is_named : Option ℕ → ℕ → Bool
is_named none n = false
is_named (some m) n = m == n

-- A window that is not named is not focused.
unnamed-flags :
    (s : Gui) (n : ℕ)
    → OneFocused s
    → n < max_windows
    → is_named s.focused_window n ≡ false
    → (s.windows n).focused ≡ 0
unfolding is_named
unnamed-flags s n one below e = elim (Bool-cases ((s.windows n).focused == 0)) [
  | inl z ↦ ==→eq _ _ z
  | inr z ↦
      let named : (n == n) ≡ false =
        sym (ap (λ (o : Option ℕ). is_named o n) (one n below (λ w. absurd (ground (arith, w)))))
        ∙ e in
      absurd (ground arith)
]

-- The window that loses the focus.
unfocus-flags :
    (prev : Option ℕ) (s : Gui)
    → s.focused_window ≡ prev
    → OneFocused s
    → (n : ℕ) → n < max_windows
    → ((unfocus prev s).windows n).focused ≡ 0
unfolding unfocus is_named
unfocus-flags none s e one n below =
    unnamed-flags s n one below (ap (λ (o : Option ℕ). is_named o n) e)
unfocus-flags (some prev) s e one n below =
    let other : (prev == n) ≡ false → (s.windows n).focused ≡ 0 =
      λ ne. unnamed-flags s n one below (ap (λ (o : Option ℕ). is_named o n) e ∙ ne) in
    if_elim (λ (t : Gui). (t.windows n).focused ≡ 0) (ltb prev max_windows)
      (gui_window_draw prev (set_focused prev 0 s)) s
      (λ known.
        (gui_window_draw-SameFocus prev (set_focused prev 0 s)).flags n
        ∙ elim (Bool-cases (n == prev)) [
          | inl here ↦ rw here refl
          | inr ne ↦ rw ne (other (ground arith))
        ])
      (λ beyond. other (ground arith))

focus-flags :
    (wid : ℕ) (s : Gui)
    → OneFocused s
    → (n : ℕ) → n < max_windows
    → ((gui_window_focus (some wid) s).windows n).focused ≡ (if n == wid then 1 else 0)
unfolding gui_window_focus
focus-flags wid s one n below =
    let t = record (unfocus s.focused_window s) { focused_window = some wid } in
    (gui_window_draw-SameFocus wid (set_focused wid 1 t)).flags n ∙ elim (Bool-cases (n == wid)) [
      | inl here ↦ rw here refl
      | inr ne ↦ rw ne (unfocus-flags s.focused_window s refl one n below)
    ]

focus-named : (wid : ℕ) (s : Gui) → (gui_window_focus (some wid) s).focused_window ≡ some wid
unfolding gui_window_focus
focus-named wid s = (gui_window_draw-SameFocus wid _).named

focus-OneFocused : (wid : ℕ) (s : Gui) → OneFocused s → OneFocused (gui_window_focus (some wid) s)
focus-OneFocused wid s one n below f =
    let here : n ≡ wid = ground (arith, focus-flags wid s one n below, f) in
    focus-named wid s ∙ ap (λ (m : ℕ). some m) (sym here)

unfocus-OneFocused : (s : Gui) → OneFocused s → OneFocused (gui_window_focus none s)
unfolding gui_window_focus
unfocus-OneFocused s one n below f = absurd (f (unfocus-flags s.focused_window s refl one n below))

-- Every call keeps the invariant.
call-OneFocused : (c : Call) (s : Gui) → OneFocused s → OneFocused (call c s)
unfolding call gui_window_create gui_redraw_area gui_print_hex gui_set_color gui_backspace
    gui_newline gui_clear_window
call-OneFocused (create x y w h title) s one =
    open_slot-OneFocused (free_slot max_windows 0 s.windows) x y w h title s one
call-OneFocused (draw wid) s one = SameFocus-OneFocused s _ (gui_window_draw-SameFocus wid s) one
call-OneFocused (focus wid h) s one = focus-OneFocused wid s one
call-OneFocused unfocus_all s one = unfocus-OneFocused s one
call-OneFocused (redraw_area x y w h) s one = one
call-OneFocused (print wid str) s one = SameFocus-OneFocused s _ (gui_print-SameFocus wid str s) one
call-OneFocused (print_hex junk wid val) s one =
    SameFocus-OneFocused s _ (gui_print-SameFocus wid _ s) one
call-OneFocused (print_dec junk wid val) s one =
    SameFocus-OneFocused s _ (gui_print_dec-SameFocus junk wid val s) one
call-OneFocused (set_color wid fg) s one =
    SameFocus-OneFocused s _ (on_window-SameFocus wid _ s (λ n. change-SameFocus s n _ s.fb refl))
      one
call-OneFocused (backspace wid) s one =
    SameFocus-OneFocused s _ (backspace_shown-SameFocus (shown wid s) s) one
call-OneFocused (newline wid) s one =
    SameFocus-OneFocused s _
      (on_window-SameFocus wid win_newline s (λ n. win_newline-SameFocus n s)) one
call-OneFocused (clear_window wid) s one =
    SameFocus-OneFocused s _
      (on_window-SameFocus wid clear_content s (λ n. change-SameFocus s n _ _ refl)) one

calls-OneFocused : (cs : List Call) (s : Gui) → OneFocused s → OneFocused (calls cs s)
unfolding calls
calls-OneFocused [] s one = one
calls-OneFocused (c ∷ cs) s one = calls-OneFocused cs (call c s) (call-OneFocused c s one)

abbrev pub Exclusive : ℕ → Gui → Type 0
Exclusive wid s =
    (s.focused_window ≡ some wid)
    × ((n : ℕ) → n < max_windows → (s.windows n).focused ≡ (if n == wid then 1 else 0))

gui_init-OneFocused : (cs : List Call) (s : Gui) → OneFocused (calls cs (gui_init s))
unfolding gui_init
gui_init-OneFocused cs s =
    calls-OneFocused cs (gui_init s)
      (λ n below f. absurd (f (rw (lt→ltb n max_windows below) refl)))

-- After `gui_init`, any calls of which those that set the focus name one of the eight windows or
-- none, and then `gui_window_focus` of one of the eight: `g_focused_window` names this window, and
-- of the eight it is the one whose flag is set.
pub gui_window_focus-Exclusive :
    (cs : List Call) (s : Gui) (wid : ℕ)
    → wid < max_windows
    → Exclusive wid (gui_window_focus (some wid) (calls cs (gui_init s)))
gui_window_focus-Exclusive cs s wid h = (
  focus-named wid (calls cs (gui_init s)),
  focus-flags wid (calls cs (gui_init s)) (gui_init-OneFocused cs s),
)
