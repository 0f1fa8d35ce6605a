-- ===== src/Shell.antt =====
-- kernel/kernel.c: the shell's state and what it prints. The file systems, the ports and what
-- else the commands look at come from the other parts of the kernel.
pub mod Args
pub mod Cat
pub mod Files
pub mod Commands
pub mod Keys
pub mod Line
pub mod Words
pub mod Decimal
pub mod Output
pub mod Reads
mod Tests
pub mod Desktop
use lons_os.Base.{
  ℕ, zero, suc, ◌+◌, ◌-◌, Bool, true, false, not, ◌&&◌, List, [], ◌∷◌, ◌++◌, Option, none, some,
  ◌==◌, if◌then◌else◌, length,
}
use lons_os.Base.Text.{codes, ◌|>◌}
use lons_os.Machine.{write}
use lons_os.Machine.Bytes.{Buffer}
use lons_os.Machine.Ports.{Ports}
use lons_os.Machine.Signed.{ℤ, pos, negsuc}
use lons_os.Heap.{Heap, Run, ok, out_of_fuel}
use lons_os.Pmm.{Pmm}
use lons_os.Pit.{Pit}
use lons_os.Ata.{Disk}
use lons_os.Framebuffer.Console.{dec_digits, c_string}
use lons_os.Gui.{Gui, gui_winfg}
use lons_os.Gui.Text.{gui_print, gui_print_dec, gui_set_color}
use lons_os.Vfs.{Vfs, Node, Ops, vfs_dir}
use lons_os.Vfs.Boot.{vfs_getcwd}
use lons_os.Vfs.Errors.{vfs_error_str}

abbrev pub path_max : ℕ
path_max = 256

-- What the shell uses of the rest of the kernel, whose state is `D`: the operations of the file
-- systems, the I/O ports, and where the state keeps the heap, the pages and the disk. The two
-- `junk` fields are what arrays hold before they are set, and `rtc_rounds` is the fuel of `rtc_read`.
pub record Kernel (D : Type 0) : Type 0 where
  pub ops : ℕ → Ops (Vfs D)
  pub io : Ports D
  pub heap : D → Heap
  pub pmm : D → Pmm
  pub ata : D → Disk
  pub path_junk : List ℕ
  pub digit_junk : Buffer
  pub rtc_rounds : ℕ

-- The static variables, with the windows, the file system and the timer. `cwd_display`,
-- `argv_buf` and `ls_wid_g` are set before each use: they are values here.
pub record Shell (D : Type 0) : Type 0 where
  pub gui : Gui
  pub vfs : Vfs D
  pub pit : Pit
  pub term_wid : Option ℕ
  pub input_line : Buffer
  pub input_len : ℕ

-- `gui_print(term_wid, str)` and `gui_set_color(term_wid, fg)`.
abbrev pub say : {D : Type 0} → List ℕ → Shell D → Shell D
say str s = record s { gui = gui_print s.term_wid str s.gui }

abbrev pub set_fg : {D : Type 0} → ℕ → Shell D → Shell D
set_fg fg s = record s { gui = gui_set_color s.term_wid fg s.gui }

abbrev pub say_dec : {D : Type 0} → Buffer → ℕ → Shell D → Shell D
say_dec junk v s = record s { gui = gui_print_dec junk s.term_wid v s.gui }

abbrev pub blue : ℕ
blue = 0x004488FF

abbrev pub green : ℕ
green = 0x0044FF88

abbrev pub red : ℕ
red = 0x00FF4444

abbrev pub grey : ℕ
grey = 0x00AAAAAA

abbrev pub amber : ℕ
amber = 0x00FFAA00

-- The number that `k_itoa` makes into text; `t[19]` is copied as it is, behind the digits.
unfoldable pub k_itoa : Buffer → ℕ → List ℕ
k_itoa junk v =
    let (i, t) = dec_digits 19 v (write junk 20 0) in
    if v == 0 then b'0' ∷ [] else c_string (21 - i) i t

unfoldable pub shell_prompt : {D : Type 0} → Shell D → Shell D
shell_prompt s =
    s
    |> set_fg blue
    |> say (codes "\n  ")
    |> say (vfs_getcwd path_max s.vfs)
    |> set_fg green
    |> say (codes " $ ")
    |> set_fg gui_winfg

-- The entry of a child, with `ls_wid_g` the terminal.
unfoldable pub ls_cb : {D : Type 0} → Buffer → Node → Shell D → Shell D
ls_cb junk child s =
    if child.type == vfs_dir
    then (s
        |> set_fg blue
        |> say (codes "  [DIR]  ")
        |> say child.name
        |> say (codes "/\n")
        |> set_fg gui_winfg)
    else (s
        |> set_fg gui_winfg
        |> say (codes "  [FILE] ")
        |> say child.name
        |> say (codes "  (")
        |> say (k_itoa junk child.size)
        |> say (codes "B)\n")
        |> set_fg gui_winfg)

unfoldable pub ls_children : {D : Type 0} → Buffer → List Node → Shell D → Shell D
ls_children junk [] s = s
ls_children junk (child ∷ children) s = ls_children junk children (ls_cb junk child s)

-- A message with the usage of a command.
abbrev pub usage : {D : Type 0} → List ℕ → Shell D → Shell D
usage text s = s |> set_fg red |> say text |> set_fg gui_winfg

-- A line with the text of an error.
abbrev pub say_error : {D : Type 0} → ℤ → Shell D → Shell D
say_error e s = s |> set_fg red |> say (codes "\n  ") |> say (vfs_error_str e) |> say (codes "\n")

abbrev pub is_ok : ℤ → Bool
is_ok (pos zero) = true
is_ok (pos (suc n)) = false
is_ok (negsuc n) = false

-- `int r = call(path)` and the message on it, `done` if it is VFS_OK.
abbrev pub say_result : {D : Type 0} → List ℕ → List ℕ → ℤ → Shell D → Shell D
say_result done path e s =
    if is_ok e
    then (s |> set_fg green |> say done |> say path |> say (codes "\n") |> set_fg gui_winfg)
    else (s |> say_error e |> set_fg gui_winfg)

-- A path walk that runs out of fuel.
abbrev pub run_of : {A : Type 0} → Option A → Run A
run_of none = out_of_fuel
run_of (some x) = ok x
