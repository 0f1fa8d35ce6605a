-- ===== src/Shell/Cat.antt =====
-- The command `cat` of kernel/kernel.c.
use lons_os.Base.{ℕ, zero, suc, List, [], ◌∷◌, ltb, ◌==◌, if◌then◌else◌, take, length}
use lons_os.Base.Text.{codes, ◌|>◌}
use lons_os.Machine.Signed.{ℤ, to_nat, is_negative}
use lons_os.Heap.{Run, ok, out_of_fuel, ◌>>=◌}
use lons_os.Gui.{gui_winfg}
use lons_os.Vfs.{vfs_close}
use lons_os.Vfs.Calls.{vfs_open, vfs_read}
use lons_os.Shell.{Shell, Kernel, say, set_fg, say_error, usage, run_of, path_max}
use lons_os.Shell.Args.{make_path}

-- The C string at the start of a buffer.
unfoldable pub c_text : List ℕ → List ℕ
c_text [] = []
c_text (c ∷ cs) = let rest = c_text cs in if c == 0 then [] else c ∷ rest

abbrev pub line_room : ℕ
line_room = 126

-- The bytes that go into `lb`, and what is left.
unfoldable pub take_line : ℕ → List ℕ → List ℕ × List ℕ
take_line zero text = ([], text)
take_line (suc room) [] = ([], [])
take_line (suc room) (c ∷ cs) =
    let more = take_line room cs in if c == b'\n' then ([], c ∷ cs) else (c ∷ more.0, more.1)

-- `if(*p=='\n'){gui_print(term_wid,"\n  ");p++;}`
unfoldable pub after_line : {D : Type 0} → List ℕ → Shell D → List ℕ × Shell D
after_line [] s = ([], s)
after_line (c ∷ cs) s = if c == b'\n' then (cs, say (codes "\n  ") s) else (c ∷ cs, s)

-- The loop over what one read has brought; every round takes a byte of it.
unfoldable pub cat_lines : {D : Type 0} → ℕ → List ℕ → Shell D → Shell D
cat_lines zero text s = s
cat_lines (suc fuel) [] s = s
cat_lines (suc fuel) (c ∷ cs) s =
    let (line, rest) = take_line line_room (c ∷ cs) in
    let (text, t) = after_line rest (say line s) in cat_lines fuel text t

abbrev pub cat_text : {D : Type 0} → List ℕ → Shell D → Shell D
cat_text text s = cat_lines (length text) text (say (codes "  ") s)

module _ {D : Type 0} (k : Kernel D) where
  -- The loop over the reads.
  unfoldable pub cat_reads : ℕ → ℤ → Shell D → Run (Shell D)
  cat_reads zero fd s = out_of_fuel
  cat_reads (suc fuel) fd s =
      let ((n, bytes), v) = vfs_read k.ops k.path_junk fd 128 s.vfs in
      let t : Shell D = record s { vfs = v } in
      let rest = cat_reads fuel fd (cat_text (c_text (take (to_nat n) bytes)) t) in
      if ltb 0 (to_nat n) then rest else ok t

  unfoldable pub cat_opened : ℕ → ℤ → Shell D → Run (Shell D)
  cat_opened fuel fd s =
      if is_negative fd
      then ok (s |> say_error fd |> set_fg gui_winfg)
      else (cat_reads fuel fd (say (codes "\n") s) >>= λ t.
          ok (record (say (codes "\n") t) { vfs = (vfs_close fd t.vfs).1 }))

  -- With at most `fuel` reads.
  unfoldable pub run_cat : ℕ → List (List ℕ) → Shell D → Run (Shell D)
  run_cat fuel [] s = ok (usage (codes "\n  Usage: cat <file>\n") s)
  run_cat fuel (arg ∷ args) s =
      run_of (vfs_open k.ops k.path_junk (make_path arg path_max s.vfs) 1 s.vfs) >>= λ (fd, v).
      cat_opened fuel fd (record s { vfs = v })
