-- ===== src/Shell/Commands.antt =====
-- The other commands of kernel/kernel.c, and the choice of a command.
use lons_os.Base.{ℕ, ◌*◌, ◌/◌, ◌%◌, List, [], ◌∷◌, ◌++◌, ◌==◌, if◌then◌else◌}
use lons_os.Base.Text.{codes, rule, ◌|>◌}
use lons_os.Machine.{u64}
use lons_os.Heap.{Run, ok, ◌>>=◌, heap_get_free}
use lons_os.Pmm.{pmm_get_free_pages}
use lons_os.Pit.{pit_get_seconds}
use lons_os.Rtc.{RtcTime, rtc_read, rtc_format_time, rtc_format_date}
use lons_os.Ata.{ata_is_present, ata_sector_count}
use lons_os.Gui.{gui_winfg}
use lons_os.Gui.Text.{gui_clear_window}
use lons_os.Shell.{Shell, Kernel, say, say_dec, set_fg, run_of, blue, green, red, amber, k_itoa}
use lons_os.Shell.Args.{parse_args, k_strcmp}
use lons_os.Shell.Cat.{run_cat, c_text}
use lons_os.Shell.Files.{
  run_ls, run_write, run_append, run_mkdir, run_rm, run_cd, run_pwd, run_stat,
}

-- The lines that `help` prints in the colour of text.
abbrev pub help_lines : List (List ℕ)
help_lines =
    codes "  ls [path]             list directory\n"
    ∷ codes "  cat <file>            print file\n"
    ∷ codes "  write <file> <text>   write to file\n"
    ∷ codes "  append <file> <text>  append to file\n"
    ∷ codes "  mkdir <dir>           make directory\n"
    ∷ codes "  rm <path>             delete\n"
    ∷ codes "  cd <dir>              change directory\n"
    ∷ codes "  pwd                   print cwd\n"
    ∷ codes "  stat <path>           file info\n"
    ∷ codes "  disk                  ATA disk info\n"
    ∷ codes "  mem / time / date / uptime / cls\n"
    ∷ []

unfoldable pub say_all : {D : Type 0} → List (List ℕ) → Shell D → Shell D
say_all [] s = s
say_all (text ∷ texts) s = say_all texts (say text s)

-- A title and the line under it.
abbrev pub heading : {D : Type 0} → List ℕ → ℕ → Shell D → Shell D
heading title n s =
    s |> set_fg blue |> say (title ++ codes "\n  " ++ rule n ++ codes "\n") |> set_fg gui_winfg

unfoldable pub run_help : {D : Type 0} → Shell D → Shell D
run_help s = s |> heading (codes "\n  Commands") 29 |> say_all help_lines

unfoldable pub run_cls : {D : Type 0} → Shell D → Shell D
run_cls s =
    record s { gui = gui_clear_window s.term_wid s.gui }
    |> set_fg green
    |> say (codes "  Lons OS Terminal\n")
    |> set_fg gui_winfg

module _ {D : Type 0} (k : Kernel D) where
  unfoldable pub run_disk : Shell D → Shell D
  run_disk s =
      let disk = k.ata s.vfs.disk in
      let size = ata_sector_count disk * 512 / 1024 / 1024 in
      let t = heading (codes "\n  Disk Info") 9 s in
      if ata_is_present disk == 0
      then (t
          |> set_fg amber
          |> say (codes "  No disk detected. Run QEMU with -hda disk.img\n")
          |> set_fg gui_winfg)
      else (t
          |> say (codes "  ATA disk: ")
          |> say (k_itoa k.digit_junk size)
          |> say (codes " MB\n")
          |> say (codes "  FAT32 mounted at /disk\n")
          |> say (codes "  Try: ls /disk   write /disk/hello.txt hi!\n")
          |> set_fg gui_winfg)

  unfoldable pub run_mem : Shell D → Run (Shell D)
  run_mem s =
      let free = u64 (pmm_get_free_pages (k.pmm s.vfs.disk) * 4096) in
      let t =
        s
        |> heading (codes "\n  Memory") 6
        |> say (codes "  RAM:  ")
        |> say_dec k.digit_junk (free / (1024 * 1024))
        |> say (codes " MB free\n")
        |> say (codes "  Heap: ") in
      heap_get_free (k.heap s.vfs.disk) >>= λ room.
      ok (t |> say_dec k.digit_junk (room / 1024) |> say (codes " KB free\n"))

  -- `time` and `date`: a label and the clock as `format` puts it.
  unfoldable pub run_clock : List ℕ → (RtcTime → List ℕ) → Shell D → Run (Shell D)
  run_clock label format s = run_of (rtc_read k.io k.rtc_rounds s.vfs.disk) >>= λ (t, d). ok (
      record s { vfs = record (s.vfs) { disk = d } }
      |> set_fg blue
      |> say label
      |> set_fg gui_winfg
      |> say (c_text (format t))
      |> say (codes "\n"))

  unfoldable pub run_uptime : Shell D → Shell D
  run_uptime s =
      let seconds = pit_get_seconds s.pit in
      let minutes = seconds / 60 in
      s
      |> set_fg blue
      |> say (codes "\n  Uptime: ")
      |> set_fg gui_winfg
      |> say_dec k.digit_junk (minutes / 60)
      |> say (codes "h ")
      |> say_dec k.digit_junk (minutes % 60)
      |> say (codes "m ")
      |> say_dec k.digit_junk (seconds % 60)
      |> say (codes "s\n")

  abbrev unknown : List ℕ → Shell D → Shell D
  unknown cmd s =
      s
      |> set_fg red
      |> say (codes "\n  Unknown: ")
      |> say cmd
      |> say (codes "  (type 'help')\n")
      |> set_fg gui_winfg

  -- The chain of tests on the first word.
  unfoldable pub run_command : ℕ → List ℕ → List ℕ → List (List ℕ) → Shell D → Run (Shell D)
  run_command fuel line cmd args s =
      if k_strcmp cmd (codes "help")
      then ok (run_help s)
      else if k_strcmp cmd (codes "disk")
      then ok (run_disk s)
      else if k_strcmp cmd (codes "ls")
      then run_ls k args s
      else if k_strcmp cmd (codes "cat")
      then run_cat k fuel args s
      else if k_strcmp cmd (codes "write")
      then run_write k line args s
      else if k_strcmp cmd (codes "append")
      then run_append k line args s
      else if k_strcmp cmd (codes "mkdir")
      then run_mkdir k args s
      else if k_strcmp cmd (codes "rm")
      then run_rm k args s
      else if k_strcmp cmd (codes "cd")
      then run_cd k args s
      else if k_strcmp cmd (codes "pwd")
      then ok (run_pwd k s)
      else if k_strcmp cmd (codes "stat")
      then run_stat k args s
      else if k_strcmp cmd (codes "mem")
      then run_mem s
      else if k_strcmp cmd (codes "cls")
      then ok (run_cls s)
      else if k_strcmp cmd (codes "time")
      then run_clock (codes "\n  Time: ") rtc_format_time s
      else if k_strcmp cmd (codes "date")
      then run_clock (codes "\n  Date: ") rtc_format_date s
      else if k_strcmp cmd (codes "uptime")
      then ok (run_uptime s)
      else ok (unknown cmd s)

  -- With at most `fuel` reads of a file.
  unfoldable pub shell_run : ℕ → List ℕ → Shell D → Run (Shell D)
  shell_run fuel line s = elim (parse_args line) [
    | [] ↦ ok s
    | cmd ∷ args ↦ run_command fuel line cmd args s
  ]
