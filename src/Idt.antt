-- ===== src/Idt.antt =====
-- kernel/idt.c and kernel/gdt.c: the tables of gates and segments, the entry stubs and the dispatch
-- of hardware interrupts. The addresses of the stubs are the linker's, a parameter, and loading a
-- table into the processor gives the record it is loaded with.
pub mod Gates
pub mod Entry
pub mod Saved
mod Tests
use lons_os.Base.{
  ℕ, suc, ◌+◌, ◌-◌, ◌*◌, ◌/◌, ◌%◌, ◌^◌, Bool, true, false, ◌||◌, ◌&&◌, List, [], ◌∷◌, ltb, leb,
  ◌==◌, if◌then◌else◌,
}
use lons_os.Base.Loops.{for_range}
use lons_os.Machine.{u16, u8, write}
use lons_os.Machine.Ports.{Ports}
use lons_os.Pic.{pic_send_eoi}
use lons_os.Pit.{Pit, pit_handler}
use lons_os.Keyboard.{Keyboard, kbd_irq_handler}
use lons_os.Mouse.{Mouse, mouse_handler_c}

abbrev pub gdt_kernel_code : ℕ
gdt_kernel_code = 0x08

-- `gdt_entry_t`.
pub record GdtEntry : Type 0 where
  pub limit_low : ℕ
  pub base_low : ℕ
  pub base_mid : ℕ
  pub access : ℕ
  pub granularity : ℕ
  pub base_high : ℕ

unfoldable pub make_entry : ℕ → ℕ → GdtEntry
make_entry access granularity = record {
  limit_low = 0;
  base_low = 0;
  base_mid = 0;
  access = access;
  granularity = granularity;
  base_high = 0;
}

-- `gdtr_t` and `idtr_t`.
pub record TableRegister : Type 0 where
  pub limit : ℕ
  pub base : ℕ

-- The table `gdt`, whose address is `at`, and what `lgdt` loads.
unfoldable pub gdt_init : ℕ → List GdtEntry × TableRegister
gdt_init at = (
  make_entry 0x00 0x00 ∷ make_entry 0x9A 0xA0 ∷ make_entry 0x92 0x00 ∷ [],
  record { limit = 3 * 8 - 1; base = at },
)

-- `idt_entry_t`.
pub record IdtEntry : Type 0 where
  pub offset_low : ℕ
  pub selector : ℕ
  pub ist : ℕ
  pub type_attr : ℕ
  pub offset_mid : ℕ
  pub offset_high : ℕ
  pub reserved : ℕ

unfoldable pub idt_set_gate : ℕ → ℕ → ℕ → ℕ → (ℕ → IdtEntry) → ℕ → IdtEntry
idt_set_gate num base sel flags idt = write idt num (record {
  offset_low = base % 65536;
  selector = sel;
  ist = 0;
  type_attr = flags;
  offset_mid = base / 65536 % 65536;
  offset_high = base / 2 ^ 32 % 2 ^ 32;
  reserved = 0;
})

-- The 48 calls: `stub n` is the address of `isr_stub_n` or `irq_stub_n`.
unfoldable pub idt_init : (ℕ → ℕ) → ℕ → (ℕ → IdtEntry) → (ℕ → IdtEntry) × TableRegister
idt_init stub at idt = (
  for_range 48 0 (λ n t. idt_set_gate n (stub n) gdt_kernel_code 0x8E t) idt,
  record { limit = 256 * 16 - 1; base = at },
)

-- The vectors of `STUB_ERR`.
abbrev pub stub_err : ℕ → Bool
stub_err n = n == 8 || (leb 10 n && leb n 14) || n == 17 || n == 21 || n == 29 || n == 30

-- What the stub of vector `n` pushes; the top of the stack is the head of the list.
unfoldable pub isr_stub : ℕ → List ℕ → List ℕ
isr_stub n stack = if stub_err n then n ∷ stack else n ∷ 0 ∷ stack

abbrev pub irq_stub : ℕ → List ℕ → List ℕ
irq_stub n stack = n ∷ 0 ∷ stack

-- The parts that hardware interrupts reach, and the size of the screen for the mouse.
pub record Handlers : Type 0 where
  pub pit : Pit
  pub keyboard : Keyboard
  pub mouse : Mouse
  pub width : ℕ
  pub height : ℕ

module _ {D : Type 0} (io : Ports D) where
  -- The `switch` of `irq_handler`.
  unfoldable pub dispatch : ℕ → Handlers → D → Handlers × D
  dispatch irq h d =
      let (pit, d0) = pit_handler io h.pit d in
      let (keyboard, d1) = kbd_irq_handler io h.keyboard d in
      let (mouse, d12) = mouse_handler_c io h.width h.height h.mouse d in
      if irq == 0
      then (record h { pit = pit }, d0)
      else if irq == 1
      then (record h { keyboard = keyboard }, d1)
      else if irq == 12
      then (record h { mouse = mouse }, d12)
      else (h, d)

  -- `frame->vector - 32` as a byte.
  unfoldable pub irq_handler : ℕ → Handlers → D → Handlers × D
  irq_handler vector h d =
      let irq = u8 (vector + 224) in let (t, d1) = dispatch irq h d in (t, pic_send_eoi io irq d1)
