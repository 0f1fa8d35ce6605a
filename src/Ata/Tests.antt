-- ===== src/Ata/Tests.antt =====
-- Runs of the disk driver on a drive that is always ready.
use lons_os.Base.{ℕ, ◌+◌, ◌≡◌, refl, true}
use lons_os.Machine.Ports.{Ports}
use lons_os.Ata.{
  Disk, ata_read_sectors, read_loop, read_sector, ata_wait_ready, ata_wait_drq, wait_bit,
}

-- The status is 0x48, ready and with data, and every word is the number of those read before it.
abbrev ready_drive : Ports ℕ
ready_drive = record {
  inb = λ port d. (0x48, d);
  outb = λ port value d. d;
  inw = λ port d. (d, d + 1);
  outw = λ port value d. d;
}

abbrev disk : Disk
disk = record { disk_present = 1; disk_sectors = 16 }

read_ok : (ata_read_sectors ready_drive 3 1 (λ i. 0) disk 0).0.0 ≡ true
unfolding ata_read_sectors read_loop read_sector ata_wait_ready ata_wait_drq wait_bit
read_ok = refl
