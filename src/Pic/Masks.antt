-- ===== src/Pic/Masks.antt =====
-- The mask registers of the interrupt controllers.
use lons_os.Base.{ℕ, ◌<◌, ◌≡◌, arith, ◌==◌, if◌then◌else◌}
use lons_os.Base.Bits.{test_bit, test_bit-bit_and, test_bit-bit_or}
use lons_os.Machine.Ports.{registers}
use lons_os.Pic.{pic_mask_irq, pic_unmask_irq, irq_port, irq_line}

-- Whether interrupt `irq` is masked.
abbrev pub masked : (ℕ → ℕ) → ℕ → ℕ
masked d irq = test_bit (d (irq_port irq)) (irq_line irq)

-- On mask registers that hold bytes, unmasking an interrupt clears its mask and no other.
pub pic_unmask_irq_lem :
    (irq other : ℕ) (d : ℕ → ℕ)
    → irq < 16
    → other < 16
    → ((port : ℕ) → d port < 256)
    → masked (pic_unmask_irq registers irq d) other ≡ (if other == irq then 0 else masked d other)
unfolding pic_unmask_irq
pic_unmask_irq_lem irq other d h k bytes = ground (
  arith,
  bytes (irq_port irq),
  test_bit-bit_and (d (irq_port irq)) (irq_line irq) (irq_line other),
)

-- On mask registers that hold bytes, masking an interrupt sets its mask and no other.
pub pic_mask_irq_lem :
    (irq other : ℕ) (d : ℕ → ℕ)
    → irq < 16
    → other < 16
    → ((port : ℕ) → d port < 256)
    → masked (pic_mask_irq registers irq d) other ≡ (if other == irq then 1 else masked d other)
unfolding pic_mask_irq
pic_mask_irq_lem irq other d h k bytes = ground (
  arith,
  bytes (irq_port irq),
  test_bit-bit_or (d (irq_port irq)) (irq_line irq) (irq_line other),
)
