-- ===== src/Shell/Keys.antt =====
-- The editing of the command line in kernel/kernel.c.
use lons_os.Base.{ℕ, ◌+◌, ◌-◌, List, [], ◌∷◌, ltb, ◌==◌, if◌then◌else◌}
use lons_os.Machine.{write}
use lons_os.Heap.{Run, ok, ◌>>=◌}
use lons_os.Framebuffer.Console.{c_string}
use lons_os.Gui.Text.{gui_newline, gui_backspace}
use lons_os.Shell.{Shell, Kernel, say, shell_prompt}
use lons_os.Shell.Commands.{shell_run}

-- `input_line[input_len++]=c`, for input_len < 254.
abbrev pub insert_char : {D : Type 0} → ℕ → Shell D → Shell D
insert_char c s = record s {
  input_line = write s.input_line s.input_len c;
  input_len = s.input_len + 1;
}

abbrev pub erase_char : {D : Type 0} → Shell D → Shell D
erase_char s = record s { input_len = s.input_len - 1; gui = gui_backspace s.term_wid s.gui }

-- `input_line[input_len]=0`
abbrev pub end_line : {D : Type 0} → Shell D → Shell D
end_line s = record s { input_line = write s.input_line s.input_len 0 }

-- The C string in `input_line`.
abbrev pub line_text : {D : Type 0} → Shell D → List ℕ
line_text s = c_string 256 0 s.input_line

-- The characters that `s[2]={c,0}` holds.
unfoldable pub one_char : ℕ → List ℕ
one_char c = if c == 0 then [] else c ∷ []

-- Backspace and the keys that go into the line.
unfoldable pub edit_line : {D : Type 0} → ℕ → Shell D → Shell D
edit_line c s =
    if c == 8
    then (if ltb 0 s.input_len then erase_char s else s)
    else if ltb s.input_len 254
    then insert_char c (say (one_char c) s)
    else s

module _ {D : Type 0} (k : Kernel D) where
  abbrev pub new_line : Shell D → Shell D
  new_line s = let t = end_line s in record t { gui = gui_newline t.term_wid t.gui }

  -- The command on the line, and the prompt for the next one.
  unfoldable pub enter_line : ℕ → Shell D → Run (Shell D)
  enter_line fuel s = shell_run k fuel (line_text (end_line s)) (new_line s) >>= λ t.
      ok (shell_prompt (record t { input_len = 0 }))

  unfoldable pub shell_key : ℕ → ℕ → Shell D → Run (Shell D)
  shell_key fuel c s = if c == b'\n' then enter_line fuel s else ok (edit_line c s)

  -- The keys in turn.
  unfoldable pub shell_keys : ℕ → List ℕ → Shell D → Run (Shell D)
  shell_keys fuel [] s = ok s
  shell_keys fuel (c ∷ cs) s = shell_key fuel c s >>= shell_keys fuel cs
