-- ===== src/Pic/Tests.antt =====
-- Runs of the interrupt masks.
use lons_os.Base.{ℕ, ◌≡◌, arith, ◌==◌, if◌then◌else◌}
use lons_os.Pic.{pic_unmask_irq}
use lons_os.Machine.Ports.{registers}
use lons_os.Pic.Masks.{masked, pic_unmask_irq_lem}

abbrev all_masked : ℕ → ℕ
all_masked port = 255

pic_unmask_irq_lem_example :
    masked (pic_unmask_irq registers 12 all_masked) 1 ≡ (if 1 == 12 then 0 else masked all_masked 1)
pic_unmask_irq_lem_example =
    pic_unmask_irq_lem 12 1 all_masked (omega arith) (omega arith) (λ port. omega arith)
