-- ===== src/Pic.antt =====
-- kernel/pic.c: the two interrupt controllers, over the I/O ports.
pub mod Masks
mod Tests
use lons_os.Base.{ℕ, ◌-◌, ltb, if◌then◌else◌, bit_and, bit_or}
use lons_os.Base.Bits.{bit_at, not_bit_at}
use lons_os.Machine.Ports.{Ports}

abbrev pub pic1_command : ℕ
pic1_command = 0x20

abbrev pub pic1_data : ℕ
pic1_data = 0x21

abbrev pub pic2_command : ℕ
pic2_command = 0xA0

abbrev pub pic2_data : ℕ
pic2_data = 0xA1

-- The port and the line on it.
abbrev pub irq_port : ℕ → ℕ
irq_port irq = if ltb irq 8 then pic1_data else pic2_data

abbrev pub irq_line : ℕ → ℕ
irq_line irq = if ltb irq 8 then irq else irq - 8

module _ {D : Type 0} (io : Ports D) where
  unfoldable pub pic_init : D → D
  pic_init d =
      let (a1, d1) = io.inb pic1_data d in
      let (a2, d2) = io.inb pic2_data d1 in
      let d3 = io.outb pic1_command 0x11 d2 in
      let d4 = io.outb pic2_command 0x11 d3 in
      let d5 = io.outb pic1_data 0x20 d4 in
      let d6 = io.outb pic2_data 0x28 d5 in
      let d7 = io.outb pic1_data 4 d6 in
      let d8 = io.outb pic2_data 2 d7 in
      let d9 = io.outb pic1_data 1 d8 in
      let d10 = io.outb pic2_data 1 d9 in
      let d11 = io.outb pic1_data 0xFB d10 in io.outb pic2_data 0xFF d11

  unfoldable pub pic_send_eoi : ℕ → D → D
  pic_send_eoi irq d =
      let d1 = if ltb irq 8 then d else io.outb pic2_command 0x20 d in io.outb pic1_command 0x20 d1

  unfoldable pub pic_unmask_irq : ℕ → D → D
  pic_unmask_irq irq d =
      let (mask, d1) = io.inb (irq_port irq) d in
      io.outb (irq_port irq) (bit_and mask (not_bit_at (irq_line irq))) d1

  unfoldable pub pic_mask_irq : ℕ → D → D
  pic_mask_irq irq d =
      let (mask, d1) = io.inb (irq_port irq) d in
      io.outb (irq_port irq) (bit_or mask (bit_at (irq_line irq))) d1
