-- ===== src/Shell/Files.antt =====
-- The commands of kernel/kernel.c on files and directories. `args` are the words behind the command.
use lons_os.Base.{ℕ, List, [], ◌∷◌, ◌==◌, if◌then◌else◌}
use lons_os.Base.Text.{codes, ◌|>◌}
use lons_os.Machine.Signed.{ℤ, is_negative, to_nat}
use lons_os.Heap.{Run, ok, ◌>>=◌}
use lons_os.Gui.{gui_winfg}
use lons_os.Vfs.{Vfs, Node, vfs_dir, vfs_close}
use lons_os.Vfs.Calls.{vfs_open, vfs_write, vfs_mkdir, vfs_unlink, vfs_chdir, vfs_stat, vfs_readdir}
use lons_os.Vfs.Boot.{vfs_getcwd}
use lons_os.Vfs.Errors.{vfs_error_str}
use lons_os.Shell.{
  Shell, Kernel, say, set_fg, say_error, say_result, usage, run_of, is_ok, path_max, blue, green,
  red, grey, k_itoa, ls_children,
}
use lons_os.Shell.Args.{make_path, text_of}

-- The path of an argument, and the working directory if there is none.
unfoldable pub path_or_cwd : {D : Type 0} → List (List ℕ) → Vfs D → List ℕ
path_or_cwd [] s = vfs_getcwd path_max s
path_or_cwd (arg ∷ args) s = make_path arg path_max s

-- The path of an argument, and the root if there is none.
unfoldable pub path_or_root : {D : Type 0} → List (List ℕ) → Vfs D → List ℕ
path_or_root [] s = b'/' ∷ []
path_or_root (arg ∷ args) s = make_path arg path_max s

module _ {D : Type 0} (k : Kernel D) where
  abbrev ls_listed : ℤ → List Node → Shell D → Shell D
  ls_listed n children s =
      let t = ls_children k.digit_junk children s in
      if is_negative n
      then (s |> set_fg red |> say (codes "  ") |> say (vfs_error_str n) |> say (codes "\n"))
      else if to_nat n == 0
      then (t |> set_fg grey |> say (codes "  (empty)\n"))
      else t

  unfoldable pub run_ls : List (List ℕ) → Shell D → Run (Shell D)
  run_ls args s =
      let path = path_or_cwd args s.vfs in
      let t : Shell D = s |> set_fg grey |> say (codes "\n  ") |> say path |> say (codes ":\n") in
      run_of (vfs_readdir k.ops k.path_junk path t.vfs) >>= λ ((n, children), v).
      ok (record t { vfs = v } |> ls_listed n children |> set_fg gui_winfg)

  -- The text, a newline, and the end of the file.
  unfoldable pub write_line : ℤ → List ℕ → Vfs D → Vfs D
  write_line fd text v =
      let (n, v1) = vfs_write k.ops k.path_junk fd text v in
      let (m, v2) = vfs_write k.ops k.path_junk fd (b'\n' ∷ []) v1 in (vfs_close fd v2).1

  abbrev stored : List ℕ → List ℕ → List ℕ → ℤ → Shell D → Shell D
  stored done path text fd s =
      if is_negative fd
      then (s |> say_error fd |> set_fg gui_winfg)
      else (record s { vfs = write_line fd text s.vfs }
          |> set_fg green
          |> say done
          |> say path
          |> say (codes "\n")
          |> set_fg gui_winfg)

  -- What `write` and `append` share; `hint` is the usage and `done` the message.
  unfoldable pub store_text : ℕ → List ℕ → List ℕ → List ℕ → List (List ℕ) → Shell D → Run (Shell D)
  store_text flags hint done line [] s = ok (usage hint s)
  store_text flags hint done line (arg ∷ []) s = ok (usage hint s)
  store_text flags hint done line (arg ∷ word ∷ words) s =
      let path = make_path arg path_max s.vfs in
      run_of (vfs_open k.ops k.path_junk path flags s.vfs) >>= λ (fd, v).
      ok (stored done path (text_of line) fd (record s { vfs = v }))

  -- WRITE, CREATE and TRUNC; WRITE, CREATE and APPEND.
  unfoldable pub run_write : List ℕ → List (List ℕ) → Shell D → Run (Shell D)
  run_write line args s =
      store_text 14 (codes "\n  Usage: write <file> <text>\n") (codes "\n  Written to ") line args s

  unfoldable pub run_append : List ℕ → List (List ℕ) → Shell D → Run (Shell D)
  run_append line args s =
      store_text 22 (codes "\n  Usage: append <file> <text>\n") (codes "\n  Appended to ") line args
        s

  unfoldable pub run_mkdir : List (List ℕ) → Shell D → Run (Shell D)
  run_mkdir [] s = ok (usage (codes "\n  Usage: mkdir <dir>\n") s)
  run_mkdir (arg ∷ args) s =
      let path = make_path arg path_max s.vfs in
      run_of (vfs_mkdir k.ops k.path_junk path s.vfs) >>= λ (e, v).
      ok (say_result (codes "\n  Created: ") path e (record s { vfs = v }))

  unfoldable pub run_rm : List (List ℕ) → Shell D → Run (Shell D)
  run_rm [] s = ok (usage (codes "\n  Usage: rm <path>\n") s)
  run_rm (arg ∷ args) s =
      let path = make_path arg path_max s.vfs in
      run_of (vfs_unlink k.ops k.path_junk path s.vfs) >>= λ (e, v).
      ok (say_result (codes "\n  Deleted: ") path e (record s { vfs = v }))

  unfoldable pub run_cd : List (List ℕ) → Shell D → Run (Shell D)
  run_cd args s = run_of (vfs_chdir k.ops k.path_junk (path_or_root args s.vfs) s.vfs) >>= λ (e, v).
      let t : Shell D = record s { vfs = v } in
      ok (if is_ok e then t else (t |> say_error e |> set_fg gui_winfg))

  unfoldable pub run_pwd : Shell D → Shell D
  run_pwd s =
      s
      |> set_fg blue
      |> say (codes "\n  ")
      |> say (vfs_getcwd path_max s.vfs)
      |> say (codes "\n")
      |> set_fg gui_winfg

  abbrev stat_text : List ℕ → ℕ → ℕ → Shell D → Shell D
  stat_text path type size s =
      s
      |> set_fg blue
      |> say (codes "\n  Path: ")
      |> say path
      |> say (codes "\n  Type: ")
      |> say (if type == vfs_dir then codes "directory" else codes "file")
      |> say (codes "\n  Size: ")
      |> say (k_itoa k.digit_junk size)
      |> say (codes " bytes\n")
      |> set_fg gui_winfg

  unfoldable pub run_stat : List (List ℕ) → Shell D → Run (Shell D)
  run_stat [] s = ok (usage (codes "\n  Usage: stat <path>\n") s)
  run_stat (arg ∷ args) s =
      let path = make_path arg path_max s.vfs in
      run_of (vfs_stat k.ops k.path_junk path s.vfs) >>= λ ((e, type, size), v).
      let t : Shell D = record s { vfs = v } in
      ok (if is_ok e then stat_text path type size t else (t |> say_error e |> set_fg gui_winfg))
