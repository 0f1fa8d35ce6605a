-- ===== src/Shell/Tests.antt =====
-- A session in the terminal, on a file system with one file.
use lons_os.Base.{ℕ, ◌≡◌, refl, length, take, drop, arith, List, [], ◌∷◌, none, some}
use lons_os.Base.Text.{codes}
use lons_os.Machine.Signed.{ℤ, pos, negsuc}
use lons_os.Machine.Ports.{registers}
use lons_os.Heap.{Heap, wiped}
use lons_os.Vfs.{Vfs, Node, Ops}
use lons_os.Shell.{Shell, Kernel}
use lons_os.Shell.Args.{parse_args, text_of}
use lons_os.Shell.Line.{AllTypable, Enters, shell_keys-Enters}
use lons_os.Shell.Words.{
  Solid, AllWords, line_of, stored_line, parse_args-line_of, text_of-stored_line,
}
use lons_os.Shell.Decimal.{PrintsDecimal, k_itoa_lem}
use lons_os.Shell.Reads.{NoZero, Prints, cat_reads-Prints}

-- The text of the file.
abbrev hello : List ℕ
hello = codes "a\nb"

abbrev reading : ℕ → ℕ → ℕ → Vfs (ℕ → ℕ) → (ℤ × List ℕ) × Vfs (ℕ → ℕ)
reading node off len v = ((pos (length (take len (drop off hello))), take len (drop off hello)), v)

abbrev one_file : Ops (Vfs (ℕ → ℕ))
one_file = record {
  lookup = λ dir name v. (0, v);
  create = λ dir name type v. (0, v);
  read = reading;
  write = λ node off buf v. (negsuc 4, v);
  unlink = λ dir node v. (negsuc 6, v);
  readdir = λ dir i v. (0, v);
  childcount = λ dir v. (0, v);
}

abbrev no_heap : Heap
no_heap = record {
  headers = λ x. wiped;
  mem = λ x. 0;
  heap_head = 0;
  heap_start = 1;
  heap_size = 0;
}

abbrev kernel : Kernel (ℕ → ℕ)
kernel = record {
  ops = λ i. one_file;
  io = registers;
  heap = λ d. no_heap;
  pmm = λ d. record {
    mem = d;
    bitmap = 0;
    total_pages = 0;
    bitmap_size = 0;
    hhdm_base = 0;
    free_pages = 0;
  };
  ata = λ d. record { disk_present = 0; disk_sectors = 0 };
  path_junk = [];
  digit_junk = λ i. 0;
  rtc_rounds = 1;
}

abbrev empty_node : Node
empty_node = record { name = []; type = 1; size = 3; ops = 0; fs_data = 0; parent = 0; mount = 0 }

-- One window, one file, and descriptor 3 open on it at the start.
abbrev fresh : Shell (ℕ → ℕ)
fresh = record {
  gui = record {
    fb = record { addr = λ i. 0; width = 8; height = 30; pitch = 32; bpp = 32 };
    windows = λ n. record {
      x = 0;
      y = 0;
      w = 100;
      h = 100;
      visible = 1;
      focused = 0;
      title = [];
      con_x = 2;
      con_y = 28;
      con_fg = 0;
      con_bg = 0;
    };
    focused_window = none;
  };
  vfs = record {
    nodes = λ a. empty_node;
    vfs_root = 1;
    cwd = 1;
    fd_table = λ i. record { used = 1; node = 2; offset = 0; flags = 1 };
    disk = λ i. 0;
  };
  pit = record {
    pit_ticks = 0;
    sched = record {
      tasks = λ i. record { rsp = 0; kstack_top = 0; state = 0; next = 0 };
      current_task = 0;
      task_list = 0;
      cpu = record {
        stack = λ i. 0;
        rsp = 0;
        rbp = 0;
        rbx = 0;
        r12 = 0;
        r13 = 0;
        r14 = 0;
        r15 = 0;
        rip = 0;
      };
    };
  };
  term_wid = some 0;
  input_line = λ i. 0;
  input_len = 0;
}

-- The keys l, x, Backspace and s.
abbrev keys : List ℕ
keys = b'l' ∷ b'x' ∷ 8 ∷ b's' ∷ []

shell_keys-Enters_example : Enters kernel 9 keys fresh
shell_keys-Enters_example =
    shell_keys-Enters kernel 9 keys fresh
      (AllTypable.cons (omega arith, omega arith)
        (AllTypable.cons (omega arith, omega arith)
          (AllTypable.cons (omega arith, omega arith)
            (AllTypable.cons (omega arith, omega arith) AllTypable.nil))))
      (record { short = omega arith; filled = λ i h. absurd (omega arith) })

abbrev cat_word : List ℕ
cat_word = codes "cat"

abbrev solid_cat : Solid cat_word
solid_cat = Solid.cons (omega arith) (Solid.cons (omega arith) (Solid.cons (omega arith) Solid.nil))

parse_args-line_of_example :
    parse_args (line_of 1 cat_word ((2, cat_word) ∷ []) 1) ≡ cat_word ∷ cat_word ∷ []
parse_args-line_of_example =
    parse_args-line_of 1 cat_word ((2, cat_word) ∷ []) 1 (omega arith, omega arith, solid_cat)
      (AllWords.cons (omega arith, omega arith, solid_cat) AllWords.nil)

-- "cat" names a command and a file here.
text_of-stored_line_example :
    text_of (stored_line 1 cat_word 0 cat_word 0 (codes "hi")) ≡ codes "cat hi"
text_of-stored_line_example =
    text_of-stored_line 1 b'c' (codes "at") 0 b'c' (codes "at") 0 b'h' (codes "i") solid_cat
      solid_cat (omega arith)

k_itoa_lem_example : PrintsDecimal (λ i. 7) 4096 (some 0) (fresh.gui)
k_itoa_lem_example = k_itoa_lem (λ i. 7) 4096 (some 0) fresh.gui (omega arith)

cat_reads-Prints_example : Prints kernel 1 3 hello fresh
cat_reads-Prints_example =
    cat_reads-Prints kernel 1 3 0 hello hello fresh
      (record {
        in_table = omega arith;
        used = omega arith;
        offset = refl;
        reads = λ off len v nodes disk. refl;
      })
      (NoZero.cons (omega arith) (NoZero.cons (omega arith) (NoZero.cons (omega arith) NoZero.nil)))
      (omega arith) refl (omega arith)
