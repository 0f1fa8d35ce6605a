-- ===== src/Idt/Tests.antt =====
-- A run of `idt_init` on an empty table, and an interrupt of the keyboard.
use lons_os.Base.{ℕ, ◌+◌, ◌*◌, ◌%◌, ◌^◌, arith}
use lons_os.Idt.{IdtEntry, idt_init}
use lons_os.Idt.Gates.{Filled, idt_init-Filled}

abbrev stubs : ℕ → ℕ
stubs n = 2 ^ 63 + n % 48 * 16

abbrev empty_idt : ℕ → IdtEntry
empty_idt n = record {
  offset_low = 0;
  selector = 0;
  ist = 0;
  type_attr = 0;
  offset_mid = 0;
  offset_high = 0;
  reserved = 0;
}

idt_init-Filled_example : Filled stubs empty_idt 48 (idt_init stubs 4096 empty_idt).0
idt_init-Filled_example = idt_init-Filled stubs 4096 empty_idt (λ n. omega arith)
