-- ===== src/Ata/Address.antt =====
-- The registers that name a sector.
use lons_os.Base.{ℕ, ◌+◌, ◌*◌, ◌%◌, ◌/◌, ◌^◌, ◌≡◌, arith}
use lons_os.Ata.{
  ata_lba_low, ata_lba_mid, ata_lba_high, ata_drive_head, ata_sector_cnt, ata_setup_lba28,
}
use lons_os.Machine.Ports.{registers}

-- The sector that the drive reads from the registers.
abbrev pub sector_of : (ℕ → ℕ) → ℕ
sector_of d =
    d ata_drive_head % 16 * 2 ^ 24 + d ata_lba_high * 2 ^ 16 + d ata_lba_mid * 2 ^ 8 + d ata_lba_low

-- On ports that hold what is written to them, the registers name the sector and the count, in LBA
-- mode on drive 0, for a sector below 2^28; a larger one is taken modulo 2^28.
pub ata_setup_lba28-sector_of :
    (lba count : ℕ) (d : ℕ → ℕ)
    → (sector_of (ata_setup_lba28 registers lba count d) ≡ lba % 2 ^ 28)
      × (ata_setup_lba28 registers lba count d ata_sector_cnt ≡ count)
      × (ata_setup_lba28 registers lba count d ata_drive_head / 16 ≡ 14)
unfolding ata_setup_lba28
ata_setup_lba28-sector_of lba count d = omega arith
