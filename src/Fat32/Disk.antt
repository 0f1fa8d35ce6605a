-- ===== src/Fat32/Disk.antt =====
-- What a disk that works does with its 2^28 sectors, the most that kernel/ata.c can name.
use lons_os.Base.{ℕ, ◌%◌, ◌^◌, ◌<◌, ◌==◌, ◌≡◌, true, if◌then◌else◌}
use lons_os.Machine.Bytes.{Buffer}
use lons_os.Fat32.{BlockDevice}

-- The sectors are 512 bytes that a read copies to the buffer and a write takes from it; each call
-- takes the sector number modulo 2^28, as `ata_setup_lba28` does, succeeds, and changes no other
-- sector. Fat32/Device.antt shows it of the driver.
pub record Works {D : Type 0} (dev : BlockDevice D) : Type 0 where
  pub sectors : D → ℕ → Buffer
  pub byte : (d : D) (l i : ℕ) → sectors d l i < 256
  pub reads : (lba : ℕ) (b : Buffer) (d : D) → (dev.read lba b d).0.0 ≡ true
  pub read_bytes :
      (lba : ℕ) (b : Buffer) (d : D) (i : ℕ)
      → i < 512
      → (dev.read lba b d).0.1 i ≡ sectors d (lba % 2 ^ 28) i
  pub read_keeps :
      (lba : ℕ) (b : Buffer) (d : D) (l i : ℕ)
      → i < 512
      → sectors (dev.read lba b d).1 l i ≡ sectors d l i
  pub writes : (lba : ℕ) (b : Buffer) (d : D) → (dev.write lba b d).0 ≡ true
  pub write_bytes :
      (lba : ℕ) (b : Buffer) (d : D) (l i : ℕ)
      → l < 2 ^ 28
      → i < 512
      → ((k : ℕ) → k < 512 → b k < 256)
      → sectors (dev.write lba b d).1 l i ≡ (if l == lba % 2 ^ 28 then b i else sectors d l i)
