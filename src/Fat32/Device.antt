-- ===== src/Fat32/Device.antt =====
-- The disk of kernel/fat32.c as the driver of kernel/ata.c gives it, and that it works on a drive.
use lons_os.Base.{ℕ, ◌+◌, ◌%◌, ap, ◌∙◌, arith}
use lons_os.Machine.{u32}
use lons_os.Machine.Bytes.{Buffer}
use lons_os.Machine.Ports.{Ports}
use lons_os.Ata.{Disk, ata_read_sectors, ata_write_sectors}
use lons_os.Ata.Drive.{
  Drive, drive_ports, present_disk, selected, store_words-read_words, read_words-store,
  write_words-store, ata_read_sectors_lem, ata_write_sectors_lem, number_lem,
}
use lons_os.Fat32.{BlockDevice}
use lons_os.Fat32.Disk.{Works}

-- `read_sector` and `write_sector`: calls of the driver for one sector and `g_sect_buf`.
unfoldable pub ata_device : {D : Type 0} → Ports D → Disk → BlockDevice D
ata_device io disk = record {
  read = λ lba b d. ata_read_sectors io lba 1 b disk d;
  write = λ lba b d. ata_write_sectors io lba 1 b disk d;
}

-- The driver on the drive, whatever its registers hold, reads and writes the bytes of the sector
-- that the number modulo 2^28 names, and no other.
unfoldable pub ata_device-Works : Works (ata_device drive_ports present_disk)
unfolding ata_device
ata_device-Works = record {
  sectors = λ d l i. d.store l i % 256;
  byte = λ d l i. omega arith;
  reads = λ lba b d. ap (λ x. x.0.0) (ata_read_sectors_lem lba b d);
  read_bytes = λ lba b d i h.
      ap (λ x. x.0.1 i) (ata_read_sectors_lem lba b d)
      ∙ store_words-read_words 256 0 i b (selected (u32 (lba + 0)) d) (omega arith)
      ∙ ground (arith, ap (λ l. d.store l i) (number_lem lba d));
  read_keeps = λ lba b d l i h.
      ap (λ x. x.1.store l i % 256) (ata_read_sectors_lem lba b d)
      ∙ ap (λ (s : ℕ → Buffer). s l i % 256) (read_words-store 256 (selected (u32 (lba + 0)) d));
  writes = λ lba b d. ap (λ x. x.0) (ata_write_sectors_lem lba b d);
  write_bytes = λ lba b d l i low h bytes.
      ap (λ x. x.1.store l i % 256) (ata_write_sectors_lem lba b d)
      ∙ ap (λ (x : ℕ). x % 256)
          (write_words-store 256 0 b (selected (u32 (lba + 0)) d) l i (omega arith)
            (λ x lt. bytes x (omega arith)))
      ∙ ground (arith, number_lem lba d, bytes i h);
}
