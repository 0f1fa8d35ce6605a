-- ===== src/Idt/Saved.antt =====
-- What the entry code of kernel/idt.c saves and restores, and what a handler reads.
use lons_os.Base.{ℕ, ◌≡◌, refl, List}
use lons_os.Idt.{isr_stub, irq_stub}
use lons_os.Idt.Entry.{
  Registers, InterruptFrame, push_all, save_registers, restore_registers, frame_at,
}

-- The fifteen register fields of a frame, as registers.
abbrev pub registers_of : InterruptFrame → Registers
registers_of f = record {
  rax = f.rax;
  rbx = f.rbx;
  rcx = f.rcx;
  rdx = f.rdx;
  rsi = f.rsi;
  rdi = f.rdi;
  rbp = f.rbp;
  r8 = f.r8;
  r9 = f.r9;
  r10 = f.r10;
  r11 = f.r11;
  r12 = f.r12;
  r13 = f.r13;
  r14 = f.r14;
  r15 = f.r15;
}

-- The registers in the reverse order of their names in the frame.
abbrev pub reversed : Registers → Registers
reversed r = record {
  rax = r.r15;
  rbx = r.r14;
  rcx = r.r13;
  rdx = r.r12;
  rsi = r.r11;
  rdi = r.r10;
  rbp = r.r9;
  r8 = r.r8;
  r9 = r.rbp;
  r10 = r.rdi;
  r11 = r.rsi;
  r12 = r.rdx;
  r13 = r.rcx;
  r14 = r.rbx;
  r15 = r.rax;
}

-- What the stubs save is restored, with the stack, if nothing has changed it; the frame that a handler
-- reads holds the registers in reverse, the last one saved as `rax`.
save_registers_lem :
    (n : ℕ) (r : Registers) (stack : List ℕ)
    → (restore_registers (save_registers r (irq_stub n stack)) ≡ (r, stack))
      × (registers_of (frame_at (save_registers r (irq_stub n stack))) ≡ reversed r)
      × (registers_of (frame_at (save_registers r (isr_stub n stack))) ≡ reversed r)
unfolding save_registers restore_registers frame_at push_all
save_registers_lem n r stack = (refl, refl, refl)
