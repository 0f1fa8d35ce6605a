-- ===== src/Ata.antt =====
-- kernel/ata.c: the PIO driver of the primary master disk, over the I/O ports. A result of 0 or -1
-- is a Boolean, true for 0.
pub mod Address
pub mod Drive
mod Tests
use lons_os.Base.{
  ℕ, zero, suc, ◌+◌, ◌*◌, ◌%◌, ◌/◌, ◌^◌, Bool, true, false, not, ◌&&◌, ◌||◌, List, [], ◌∷◌, ◌++◌,
  ◌==◌, if◌then◌else◌, get_or, take, drop,
}
use lons_os.Base.Bits.{test_bit}
use lons_os.Machine.{u8, u32}
use lons_os.Machine.Bytes.{Buffer, put16}
use lons_os.Machine.Ports.{Ports}

abbrev pub ata_data : ℕ
ata_data = 0x1F0

abbrev pub ata_sector_cnt : ℕ
ata_sector_cnt = 0x1F2

abbrev pub ata_lba_low : ℕ
ata_lba_low = 0x1F3

abbrev pub ata_lba_mid : ℕ
ata_lba_mid = 0x1F4

abbrev pub ata_lba_high : ℕ
ata_lba_high = 0x1F5

abbrev pub ata_drive_head : ℕ
ata_drive_head = 0x1F6

abbrev pub ata_status : ℕ
ata_status = 0x1F7

abbrev pub ata_command : ℕ
ata_command = 0x1F7

abbrev pub ata_control : ℕ
ata_control = 0x3F6

-- The rounds of a wait.
abbrev pub ata_timeout : ℕ
ata_timeout = 100000

-- The static variables.
pub record Disk : Type 0 where
  pub disk_present : ℕ
  pub disk_sectors : ℕ

abbrev pub ata_is_present : Disk → ℕ
ata_is_present disk = disk.disk_present

abbrev pub ata_sector_count : Disk → ℕ
ata_sector_count disk = disk.disk_sectors

-- `ptr[k]`, `ptr[k + 1]`, … of the words of a buffer, with an index of 32 bits: the words of a read
-- go there, the low byte first, and those of a write come from there.
unfoldable pub store_words : ℕ → List ℕ → Buffer → Buffer
store_words k [] b = b
store_words k (w ∷ ws) b = store_words (k + 1) ws (put16 (u32 k * 2) w b)

unfoldable pub fetch_words : ℕ → ℕ → Buffer → List ℕ
fetch_words zero k b = []
fetch_words (suc n) k b = (b (u32 k * 2) + 256 * b (u32 k * 2 + 1)) ∷ fetch_words n (k + 1) b

module _ {D : Type 0} (io : Ports D) where
  abbrev poll : ℕ → D → D
  poll port d = (io.inb port d).1

  unfoldable pub ata_delay400 : D → D
  ata_delay400 d = poll ata_control (poll ata_control (poll ata_control (poll ata_control d)))

  -- The loop of a wait: an error, or bit `bit` of the status with the value wanted.
  unfoldable pub wait_bit : ℕ → ℕ → ℕ → D → Bool × D
  wait_bit zero bit value d = (false, d)
  wait_bit (suc timeout) bit value d =
      let (s, d1) = io.inb ata_status d in
      let again = wait_bit timeout bit value d1 in
      if test_bit s 0 == 1
      then (false, d1)
      else if test_bit s bit == value
      then (true, d1)
      else again

  unfoldable pub ata_wait_ready : D → Bool × D
  ata_wait_ready d = wait_bit ata_timeout 7 0 d

  unfoldable pub ata_wait_drq : D → Bool × D
  ata_wait_drq d = wait_bit ata_timeout 3 1 d

  unfoldable pub ata_select_master : D → D
  ata_select_master d = ata_delay400 (io.outb ata_drive_head 0xE0 d)

  -- `0xE0 | x` is a sum for x < 16.
  unfoldable pub ata_setup_lba28 : ℕ → ℕ → D → D
  ata_setup_lba28 lba count d =
      let d1 = io.outb ata_drive_head (0xE0 + lba / 2 ^ 24 % 16) d in
      let d2 = io.outb ata_sector_cnt count d1 in
      let d3 = io.outb ata_lba_low (lba % 256) d2 in
      let d4 = io.outb ata_lba_mid (lba / 2 ^ 8 % 256) d3 in
      io.outb ata_lba_high (lba / 2 ^ 16 % 256) d4

  unfoldable pub read_words : ℕ → D → List ℕ × D
  read_words zero d = ([], d)
  read_words (suc n) d =
      let (w, d1) = io.inw ata_data d in let (ws, d2) = read_words n d1 in (w ∷ ws, d2)

  unfoldable pub write_words : List ℕ → D → D
  write_words [] d = d
  write_words (w ∷ ws) d = write_words ws (io.outw ata_data w d)

  -- One sector of a read; no words on an error.
  unfoldable pub read_sector : ℕ → D → (Bool × List ℕ) × D
  read_sector lba d =
      let (ready, d1) = ata_wait_ready d in
      let d2 = ata_delay400 (io.outb ata_command 0x20 (ata_setup_lba28 lba 1 d1)) in
      let (drq, d3) = ata_wait_drq d2 in
      let (words, d4) = read_words 256 d3 in
      if not ready
      then ((false, []), d1)
      else if not drq
      then ((false, []), d3)
      else ((true, words), ata_delay400 d4)

  -- The sectors from `i` on, `count` to go: each one's words go to the buffer, and those of the
  -- sectors before an error stay there.
  unfoldable pub read_loop : ℕ → ℕ → ℕ → Buffer → D → (Bool × Buffer) × D
  read_loop zero i lba buf d = ((true, buf), d)
  read_loop (suc count) i lba buf d =
      let ((ok, words), d1) = read_sector (u32 (lba + i)) d in
      let rest = read_loop count (i + 1) lba (store_words (i * 256) words buf) d1 in
      if ok then rest else ((false, buf), d1)

  unfoldable pub ata_read_sectors : ℕ → ℕ → Buffer → Disk → D → (Bool × Buffer) × D
  ata_read_sectors lba count buf disk d =
      if disk.disk_present == 0 then ((false, buf), d) else read_loop count 0 lba buf d

  unfoldable pub write_sector : ℕ → List ℕ → D → Bool × D
  write_sector lba words d =
      let (ready, d1) = ata_wait_ready d in
      let d2 = ata_delay400 (io.outb ata_command 0x30 (ata_setup_lba28 lba 1 d1)) in
      let (drq, d3) = ata_wait_drq d2 in
      let (flushed, d4) = ata_wait_ready (io.outb ata_command 0xE7 (write_words words d3)) in
      if not ready
      then (false, d1)
      else if not drq
      then (false, d3)
      else if not flushed
      then (false, d4)
      else (true, ata_delay400 d4)

  unfoldable pub write_loop : ℕ → ℕ → ℕ → Buffer → D → Bool × D
  write_loop zero i lba buf d = (true, d)
  write_loop (suc count) i lba buf d =
      let (ok, d1) = write_sector (u32 (lba + i)) (fetch_words 256 (i * 256) buf) d in
      let rest = write_loop count (i + 1) lba buf d1 in if ok then rest else (false, d1)

  unfoldable pub ata_write_sectors : ℕ → ℕ → Buffer → Disk → D → Bool × D
  ata_write_sectors lba count buf disk d =
      if disk.disk_present == 0 then (false, d) else write_loop count 0 lba buf d

  -- The part of `ata_init` behind the IDENTIFY command. The test of LBA_HIGH is not run when
  -- LBA_MID is not 0.
  unfoldable pub identify_drive : D → Disk × D
  identify_drive d =
      let no_disk : Disk = record { disk_present = 0; disk_sectors = 0 } in
      let (status, d1) = io.inb ata_status d in
      let (ready, d2) = ata_wait_ready d1 in
      let (mid, d3) = io.inb ata_lba_mid d2 in
      let (high, d4) = io.inb ata_lba_high d3 in
      let (drq, d5) = ata_wait_drq d4 in
      let (identify, d6) = read_words 256 d5 in
      let sectors = get_or identify 61 0 * 2 ^ 16 + get_or identify 60 0 in
      if status == 0
      then (no_disk, d1)
      else if not ready
      then (no_disk, d2)
      else if not (mid == 0)
      then (no_disk, d3)
      else if not (high == 0)
      then (no_disk, d4)
      else if not drq
      then (no_disk, d5)
      else if sectors == 0
      then (no_disk, d6)
      else (record { disk_present = 1; disk_sectors = sectors }, d6)

  unfoldable pub ata_init : D → Disk × D
  ata_init d =
      let no_disk : Disk = record { disk_present = 0; disk_sectors = 0 } in
      let (ready, d1) =
        ata_wait_ready (ata_delay400 (io.outb ata_control 0 (io.outb ata_control 4 d))) in
      let (selected, d2) = ata_wait_ready (ata_select_master d1) in
      let (status, d3) = io.inb ata_status d2 in
      let d4 = io.outb ata_lba_low 0 (io.outb ata_sector_cnt 0 d3) in
      let d5 = io.outb ata_lba_high 0 (io.outb ata_lba_mid 0 d4) in
      let found = identify_drive (ata_delay400 (io.outb ata_command 0xEC d5)) in
      if not ready
      then (no_disk, d1)
      else if not selected
      then (no_disk, d2)
      else if status == 0xFF || status == 0
      then (no_disk, d3)
      else found
