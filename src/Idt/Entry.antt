-- ===== src/Idt/Entry.antt =====
-- The shared entry points of kernel/idt.c, isr_common and irq_common, with what they save on the
-- stack, and the handler of exceptions. The top of the stack is the head of the list.
use lons_os.Base.{ℕ, List, [], ◌∷◌, ltb, if◌then◌else◌, get_or, drop}
use lons_os.Base.Text.{codes, ◌|>◌}
use lons_os.Machine.Bytes.{Buffer}
use lons_os.Framebuffer.Console.{
  Console, fb_console_set_color, fb_console_print, fb_console_print_hex,
}

-- The general registers that are saved.
pub record Registers : Type 0 where
  pub rax : ℕ
  pub rbx : ℕ
  pub rcx : ℕ
  pub rdx : ℕ
  pub rsi : ℕ
  pub rdi : ℕ
  pub rbp : ℕ
  pub r8 : ℕ
  pub r9 : ℕ
  pub r10 : ℕ
  pub r11 : ℕ
  pub r12 : ℕ
  pub r13 : ℕ
  pub r14 : ℕ
  pub r15 : ℕ

unfoldable pub push_all : List ℕ → List ℕ → List ℕ
push_all [] stack = stack
push_all (v ∷ vs) stack = push_all vs (v ∷ stack)

-- The pushes, in the order of the code.
unfoldable pub save_registers : Registers → List ℕ → List ℕ
save_registers r stack =
    push_all
      (r.rax ∷ r.rbx ∷ r.rcx ∷ r.rdx ∷ r.rsi ∷ r.rdi ∷ r.rbp ∷ r.r8 ∷ r.r9 ∷ r.r10 ∷ r.r11 ∷ r.r12
        ∷ r.r13 ∷ r.r14 ∷ r.r15 ∷ [])
      stack

-- The pops, from r15 to rax, and `add $16, %rsp`.
unfoldable pub restore_registers : List ℕ → Registers × List ℕ
restore_registers stack = (
  record {
    r15 = get_or stack 0 0;
    r14 = get_or stack 1 0;
    r13 = get_or stack 2 0;
    r12 = get_or stack 3 0;
    r11 = get_or stack 4 0;
    r10 = get_or stack 5 0;
    r9 = get_or stack 6 0;
    r8 = get_or stack 7 0;
    rbp = get_or stack 8 0;
    rdi = get_or stack 9 0;
    rsi = get_or stack 10 0;
    rdx = get_or stack 11 0;
    rcx = get_or stack 12 0;
    rbx = get_or stack 13 0;
    rax = get_or stack 14 0;
  },
  drop 17 stack,
)

-- `interrupt_frame_t`.
pub record InterruptFrame : Type 0 where
  pub rax : ℕ
  pub rbx : ℕ
  pub rcx : ℕ
  pub rdx : ℕ
  pub rsi : ℕ
  pub rdi : ℕ
  pub rbp : ℕ
  pub r8 : ℕ
  pub r9 : ℕ
  pub r10 : ℕ
  pub r11 : ℕ
  pub r12 : ℕ
  pub r13 : ℕ
  pub r14 : ℕ
  pub r15 : ℕ
  pub vector : ℕ
  pub error_code : ℕ
  pub rip : ℕ
  pub cs : ℕ
  pub rflags : ℕ
  pub rsp : ℕ
  pub ss : ℕ

-- What the handlers read through `frame`, the stack pointer at their call.
unfoldable pub frame_at : List ℕ → InterruptFrame
frame_at stack = record {
  rax = get_or stack 0 0;
  rbx = get_or stack 1 0;
  rcx = get_or stack 2 0;
  rdx = get_or stack 3 0;
  rsi = get_or stack 4 0;
  rdi = get_or stack 5 0;
  rbp = get_or stack 6 0;
  r8 = get_or stack 7 0;
  r9 = get_or stack 8 0;
  r10 = get_or stack 9 0;
  r11 = get_or stack 10 0;
  r12 = get_or stack 11 0;
  r13 = get_or stack 12 0;
  r14 = get_or stack 13 0;
  r15 = get_or stack 14 0;
  vector = get_or stack 15 0;
  error_code = get_or stack 16 0;
  rip = get_or stack 17 0;
  cs = get_or stack 18 0;
  rflags = get_or stack 19 0;
  rsp = get_or stack 20 0;
  ss = get_or stack 21 0;
}

abbrev pub exception_names : List (List ℕ)
exception_names =
    codes "Division By Zero"
    ∷ codes "Debug"
    ∷ codes "Non-Maskable Interrupt"
    ∷ codes "Breakpoint"
    ∷ codes "Overflow"
    ∷ codes "Bound Range Exceeded"
    ∷ codes "Invalid Opcode"
    ∷ codes "Device Not Available"
    ∷ codes "Double Fault"
    ∷ codes "Coprocessor Segment Overrun"
    ∷ codes "Invalid TSS"
    ∷ codes "Segment Not Present"
    ∷ codes "Stack-Segment Fault"
    ∷ codes "General Protection Fault"
    ∷ codes "Page Fault"
    ∷ codes "Reserved"
    ∷ codes "x87 FPU Error"
    ∷ codes "Alignment Check"
    ∷ codes "Machine Check"
    ∷ codes "SIMD Floating-Point"
    ∷ codes "Virtualization"
    ∷ codes "Control Protection"
    ∷ codes "Reserved"
    ∷ codes "Reserved"
    ∷ codes "Reserved"
    ∷ codes "Reserved"
    ∷ codes "Reserved"
    ∷ codes "Reserved"
    ∷ codes "Hypervisor Injection"
    ∷ codes "VMM Communication"
    ∷ codes "Security Exception"
    ∷ codes "Reserved"
    ∷ []

abbrev pub fb_black : ℕ
fb_black = 0x00000000

abbrev pub fb_white : ℕ
fb_white = 0x00FFFFFF

abbrev pub fb_red : ℕ
fb_red = 0x00FF4444

-- A label and a number.
abbrev label_hex : Buffer → List ℕ → ℕ → Console → Console
label_hex junk label v c = c |> fb_console_print label |> fb_console_print_hex junk v

-- The console on which the machine halts.
unfoldable pub exception_handler : Buffer → InterruptFrame → Console → Console
exception_handler junk frame c =
    let name = if ltb frame.vector 32 then get_or exception_names frame.vector [] else [] in
    c
    |> fb_console_set_color fb_black fb_red
    |> fb_console_print (codes "\n !! KERNEL EXCEPTION !! \n")
    |> fb_console_set_color fb_white fb_black
    |> fb_console_print (codes " Exception : ")
    |> fb_console_print name
    |> label_hex junk (codes "\n Vector    : ") frame.vector
    |> label_hex junk (codes "\n Error Code: ") frame.error_code
    |> label_hex junk (codes "\n RIP       : ") frame.rip
    |> label_hex junk (codes "\n RSP       : ") frame.rsp
    |> label_hex junk (codes "\n RAX       : ") frame.rax
    |> fb_console_print (codes "\n")
