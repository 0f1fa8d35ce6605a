-- ===== src/Lib.antt =====
-- Lons OS: the parts of the kernel under kernel/, each with its state, its operations and what
-- makes them correct. The code is C for a 64-bit machine; integers are natural numbers with the
-- wrap-around written out, static variables are the fields of a record that the functions take and
-- return, and the I/O instructions are a parameter, `Ports`, that any device can stand for.
--
-- The parts and their files:
--   Base       lists, Boolean tests, bits of a byte and counted loops that the others share.
--   Machine    words, memory by address, the I/O ports of kernel/io.h, and the memory map entry of
--              kernel/limine.h, a header of the boot loader.
--   Pmm        kernel/pmm.c, the page allocator: pmm_init with its four passes, pmm_alloc_page,
--              pmm_free_page. The loops run over the pages or entries they are given.
--   Heap       kernel/heap.c, heap_init, kmalloc, kzalloc, kfree, krealloc and the totals. Headers
--              are records by address and data bytes lie apart from them. `Run` is the outcome of a call: a
--              result, the `cli; hlt` loop, or fuel that ran out. A walk over the blocks has as many
--              rounds as the heap has bytes, and a block takes 29 bytes at least. Heap/Spec.antt is
--              the heap as a list of blocks, which the code is shown to implement.
--   Vmm        kernel/vmm.c, page tables as 64-bit words by address, over Pmm. No translation cache.
--   Vfs        kernel/vfs.c, path resolution, open files and the calls; the operations of a file
--              system, vfs_ops_t, are a record that any file system can fill. A path of n bytes is
--              walked in at most n + 1 rounds.
--   Ramfs      kernel/ramfs.c, the file system in memory, over Heap. The doubling of a capacity has
--              20 rounds, which reach twice the largest file.
--   Fat32      kernel/fat32.c, the file system on a disk: the table of clusters and what it
--              allocates and frees (Fat32.antt), names, entries, nodes, the scan of a directory,
--              reading and writing (Files), creating, deleting and mounting (Tree). The disk is a
--              parameter, `BlockDevice`. Fat32/Disk.antt says what one that works does with its
--              sectors, 2^28 of them as the driver names no more, and Fat32/Device.antt makes one of
--              the driver in Ata. Fuel counts the clusters of a chain: the code has no bound where a table has
--              a cycle. For a release two more rounds than the table has used entries are enough,
--              and for a read one more than the file has clusters.
--   Ata        kernel/ata.c, the disk driver; its waits have the 100000 rounds of the code. A drive that is
--              always ready is in Ata/Drive.antt.
--   Keyboard   kernel/keyboard.c, the interrupt handler and the ring buffer.
--   Mouse      kernel/mouse.c, packets, cursor position and set-up, and drawing (Mouse/Pointer.antt).
--   Rtc        kernel/rtc.c, reading, decoding and formatting the time. The wait for the clock has
--              fuel, since the code waits without a bound.
--   Pic        kernel/pic.c, the interrupt controllers.
--   Sched      kernel/sched.c and kernel/context_switch.S, the ring of tasks and the switch.
--   Pit        kernel/pit.c, the timer; a sleep has fuel, and what each wake-up brings is a parameter.
--   Idt        kernel/idt.c and kernel/gdt.c, the tables of gates and segments, the stubs and the
--              dispatch of hardware interrupts; Idt/Entry.antt has the saved registers and the
--              handler of exceptions. The addresses of the stubs are a parameter.
--   Framebuffer  kernel/framebuffer.c, pixels, shapes, text and the scrolling console; a pixel is
--              an entry by its index, also beyond the screen.
--   Gui        kernel/gui.c, the desktop, the windows, their frames and their text (Gui/Text.antt).
--   Shell      kernel/kernel.c, the shell: its state and output (Shell.antt), words and paths (Args),
--              the commands (Cat, Files, Commands), the line (Keys), and the terminal's window, the
--              clock, clicks and a round of the main loop (Desktop). What it uses of the rest of the
--              kernel is a record, `Kernel`. The fuel of a command counts the reads of `cat`.
-- Shell calls Vfs, Gui, Rtc, Pit, Heap, Pmm and Ata and takes keys from Keyboard and clicks from Mouse.
-- Vmm takes pages from Pmm, Ramfs and Fat32 take memory from Heap, and Vfs reaches a file system by its
-- operations; the handler in Idt passes interrupts to Keyboard, Mouse and Pit, which yields to Sched,
-- and acknowledges them with Pic. Gui draws on Framebuffer.
--
-- Not modelled: in kernel/fat32.c, a null buffer to write from and a negative index of an entry; in
-- kernel/gdt.c, the reload of the segment registers; in kernel/kernel.c, the part of _start that
-- calls the init functions and reports on the console. Caches, interrupts in the middle of a
-- function and the aliasing of memory between two parts are left out.
pub mod Ata
pub mod Base
pub mod Fat32
pub mod Framebuffer
pub mod Gui
pub mod Heap
pub mod Idt
pub mod Keyboard
pub mod Machine
pub mod Mouse
pub mod Pic
pub mod Pit
pub mod Pmm
pub mod Ramfs
pub mod Rtc
pub mod Sched
pub mod Shell
pub mod Vfs
pub mod Vmm
