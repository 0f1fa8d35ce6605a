-- ===== src/Machine/Ports.antt =====
-- The I/O ports of kernel/io.h. The instructions are the machine's: a device is a state that
-- answers reads and takes writes.
use lons_os.Base.{ℕ}
use lons_os.Machine.{write}

pub record Ports (D : Type 0) : Type 0 where
  pub inb : ℕ → D → ℕ × D
  pub outb : ℕ → ℕ → D → D
  pub inw : ℕ → D → ℕ × D
  pub outw : ℕ → ℕ → D → D

-- Ports that hold what was written to them last, as the registers of a controller do.
abbrev pub registers : Ports (ℕ → ℕ)
registers = record {
  inb = λ port d. (d port, d);
  outb = λ port value d. write d port value;
  inw = λ port d. (d port, d);
  outw = λ port value d. write d port value;
}
