-- ===== src/Ata/Drive.antt =====
-- A drive of 2^28 sectors that is always ready, and what the driver of kernel/ata.c does on it with
-- one sector.
use lons_os.Base.{
  ℕ, zero, suc, ◌+◌, ◌-◌, ◌*◌, ◌%◌, ◌^◌, ◌<◌, ◌≤◌, ◌==◌, ◌≡◌, refl, ap, ◌∙◌, arith, true, ◌&&◌,
  List, ltb, leb, if◌then◌else◌, Bool-cases, inl, inr,
}
use lons_os.Machine.{u32, write}
use lons_os.Machine.Bytes.{Buffer, put16}
use lons_os.Machine.Ports.{Ports}
use lons_os.Ata.{
  Disk, ata_command, ata_delay400, wait_bit, ata_wait_ready, ata_wait_drq, ata_setup_lba28,
  read_words, write_words, read_sector, read_loop, write_sector, write_loop, ata_read_sectors,
  ata_write_sectors, store_words, fetch_words,
}
use lons_os.Ata.Address.{sector_of}

-- The registers, the word at hand, and the bytes.
pub record Drive : Type 0 where
  pub regs : ℕ → ℕ
  pub pos : ℕ
  pub store : ℕ → Buffer

-- A command starts at the first word of the sector that the registers name. The status is ready, with
-- data, and without an error.
abbrev pub drive_ports : Ports Drive
drive_ports = record {
  inb = λ port d. (0x48, d);
  outb = λ port value d.
      if port == ata_command
      then record d { pos = 0 }
      else record d { regs = write d.regs port value };
  inw = λ port d. (
    d.store (sector_of d.regs) (d.pos * 2) % 256
        + 256 * (d.store (sector_of d.regs) (d.pos * 2 + 1) % 256),
    record d { pos = d.pos + 1 },
  );
  outw = λ port value d. record d {
    pos = d.pos + 1;
    store =
        λ l i. if l == sector_of d.regs then put16 (d.pos * 2) value (d.store l) i else d.store l i;
  };
}

abbrev pub present_disk : Disk
present_disk = record { disk_present = 1; disk_sectors = 2 ^ 28 }

-- The drive behind a command for a sector.
abbrev pub selected : ℕ → Drive → Drive
selected lba d = record d { regs = (ata_setup_lba28 drive_ports lba 1 d).regs; pos = 0 }

pub selected-sector_of : (lba : ℕ) (d : Drive) → sector_of (selected lba d).regs ≡ lba % 2 ^ 28
unfolding ata_setup_lba28
selected-sector_of lba d = omega arith

command-selected :
    (lba c : ℕ) (d : Drive)
    → drive_ports.outb ata_command c (ata_setup_lba28 drive_ports lba 1 d) ≡ selected lba d
unfolding ata_setup_lba28
command-selected lba c d = refl

ready_lem : (d : Drive) → ata_wait_ready drive_ports d ≡ (true, d)
unfolding ata_wait_ready wait_bit
ready_lem d = refl

drq_lem : (d : Drive) → ata_wait_drq drive_ports d ≡ (true, d)
unfolding ata_wait_drq wait_bit
drq_lem d = refl

delay_lem : (d : Drive) → ata_delay400 drive_ports d ≡ d
unfolding ata_delay400
delay_lem d = refl

-- What a read of words leaves: the drive further on.
pub read_words-store : (n : ℕ) (d : Drive) → (read_words drive_ports n d).1.store ≡ d.store
unfolding read_words
read_words-store zero d = refl
read_words-store (suc n) d = read_words-store n (record d { pos = d.pos + 1 })

-- One word and those behind it, for a read and for a write of the bytes `f`.
word_in :
    (f b : ℕ → ℕ) (n p k i : ℕ)
    → (if leb ((k + 1) * 2) i && ltb i ((k + 1) * 2 + n * 2)
        then f ((p + 1) * 2 + (i - (k + 1) * 2)) % 256
        else put16 (k * 2) (f (p * 2) % 256 + 256 * (f (p * 2 + 1) % 256)) b i)
      ≡ (if leb (k * 2) i && ltb i (k * 2 + suc n * 2) then f (p * 2 + (i - k * 2)) % 256 else b i)
unfolding put16
word_in f b n p k i = elim (Bool-cases (i == k * 2)) [
  | inl low ↦
      let at : f (p * 2 + (i - k * 2)) ≡ f (p * 2) = ap f (ground arith) in ground (arith, at)
  | inr other ↦ elim (Bool-cases (i == k * 2 + 1)) [
    | inl high ↦
        let at : f (p * 2 + (i - k * 2)) ≡ f (p * 2 + 1) = ap f (ground arith) in ground (arith, at)
    | inr ne ↦ elim (Bool-cases (leb ((k + 1) * 2) i)) [
      | inl behind ↦
          let at : f ((p + 1) * 2 + (i - (k + 1) * 2)) ≡ f (p * 2 + (i - k * 2)) =
            ap f (ground arith) in
          ground (arith, at)
      | inr before ↦ ground arith
    ]
  ]
]

word_out :
    (f b : ℕ → ℕ) (n p k i : ℕ)
    → f (k * 2) < 256
    → f (k * 2 + 1) < 256
    → (if leb ((p + 1) * 2) i && ltb i ((p + 1) * 2 + n * 2)
        then f ((k + 1) * 2 + (i - (p + 1) * 2))
        else put16 (p * 2) (f (k * 2) + 256 * f (k * 2 + 1)) b i)
      ≡ (if leb (p * 2) i && ltb i (p * 2 + suc n * 2) then f (k * 2 + (i - p * 2)) else b i)
unfolding put16
word_out f b n p k i lo hi = elim (Bool-cases (i == p * 2)) [
  | inl low ↦
      let at : f (k * 2 + (i - p * 2)) ≡ f (k * 2) = ap f (ground arith) in ground (arith, at)
  | inr other ↦ elim (Bool-cases (i == p * 2 + 1)) [
    | inl high ↦
        let at : f (k * 2 + (i - p * 2)) ≡ f (k * 2 + 1) = ap f (ground arith) in ground (arith, at)
    | inr ne ↦ elim (Bool-cases (leb ((p + 1) * 2) i)) [
      | inl behind ↦
          let at : f ((k + 1) * 2 + (i - (p + 1) * 2)) ≡ f (k * 2 + (i - p * 2)) =
            ap f (ground arith) in
          ground (arith, at)
      | inr before ↦ ground arith
    ]
  ]
]

-- The words read lie in the buffer as the bytes of the sector.
pub store_words-read_words :
    (n k i : ℕ) (b : Buffer) (d : Drive)
    → k + n ≤ 2 ^ 32
    → store_words k (read_words drive_ports n d).0 b i ≡ (
        if leb (k * 2) i && ltb i (k * 2 + n * 2)
        then d.store (sector_of d.regs) (d.pos * 2 + (i - k * 2)) % 256
        else b i)
unfolding read_words store_words
store_words-read_words zero k i b d small = ground arith
store_words-read_words (suc n) k i b d small =
    let at : u32 k ≡ k = omega arith in
    rw (store_words, at)
      (store_words-read_words n (k + 1) i (put16 (k * 2) (drive_ports.inw 0x1F0 d).0 b)
          (record d { pos = d.pos + 1 }) (omega arith)
        ∙ word_in (d.store (sector_of d.regs)) b n d.pos k i)

-- The bytes written lie in the sector.
pub write_words-store :
    (n k : ℕ) (b : Buffer) (d : Drive) (l i : ℕ)
    → k + n ≤ 2 ^ 32
    → ((x : ℕ) → x < (k + n) * 2 → b x < 256)
    → (write_words drive_ports (fetch_words n k b) d).store l i ≡ (
        if l == sector_of d.regs && (leb (d.pos * 2) i && ltb i (d.pos * 2 + n * 2))
        then b (k * 2 + (i - d.pos * 2))
        else d.store l i)
unfolding write_words fetch_words
write_words-store zero k b d l i small bytes = ground arith
write_words-store (suc n) k b d l i small bytes =
    let at : u32 k ≡ k = omega arith in
    let w = b (k * 2) + 256 * b (k * 2 + 1) in
    let step =
      word_out b (d.store l) n d.pos k i (bytes (k * 2) (omega arith))
        (bytes (k * 2 + 1) (omega arith)) in
    rw at (
      write_words-store n (k + 1) b (drive_ports.outw 0x1F0 w d) l i (omega arith)
        (λ x h. bytes x (omega arith))
      ∙ elim (Bool-cases (l == sector_of d.regs)) [
        | inl here ↦ rw here step
        | inr other ↦ rw other refl
      ])

read_sector_lem :
    (lba : ℕ) (d : Drive)
    → read_sector drive_ports lba d ≡ (
      (true, (read_words drive_ports 256 (selected lba d)).0),
      (read_words drive_ports 256 (selected lba d)).1,
    )
unfolding read_sector
read_sector_lem lba d =
    rw
      (
        ready_lem d,
        command-selected lba 0x20 d,
        delay_lem (selected lba d),
        drq_lem (selected lba d),
      )
      (rw (delay_lem (read_words drive_ports 256 (selected lba d)).1) refl)

write_sector_lem :
    (lba : ℕ) (ws : List ℕ) (d : Drive)
    → write_sector drive_ports lba ws d
      ≡ (true, record (write_words drive_ports ws (selected lba d)) { pos = 0 })
unfolding write_sector
write_sector_lem lba ws d =
    let e : Drive = record (write_words drive_ports ws (selected lba d)) { pos = 0 } in
    rw
      (
        ready_lem d,
        command-selected lba 0x30 d,
        delay_lem (selected lba d),
        drq_lem (selected lba d),
        ready_lem e,
        delay_lem e,
      )
      refl

pub ata_read_sectors_lem :
    (lba : ℕ) (b : Buffer) (d : Drive)
    → ata_read_sectors drive_ports lba 1 b present_disk d ≡ (
      (true, store_words 0 (read_words drive_ports 256 (selected (u32 (lba + 0)) d)).0 b),
      (read_words drive_ports 256 (selected (u32 (lba + 0)) d)).1,
    )
unfolding ata_read_sectors read_loop
ata_read_sectors_lem lba b d = rw (read_sector_lem (u32 (lba + 0)) d) refl

pub ata_write_sectors_lem :
    (lba : ℕ) (b : Buffer) (d : Drive)
    → ata_write_sectors drive_ports lba 1 b present_disk d ≡ (
      true,
      record (write_words drive_ports (fetch_words 256 0 b) (selected (u32 (lba + 0)) d)) {
        pos = 0;
      },
    )
unfolding ata_write_sectors write_loop
ata_write_sectors_lem lba b d = rw (write_sector_lem (u32 (lba + 0)) (fetch_words 256 0 b) d) refl

-- The driver's 32-bit sum and the drive's 28 bits.
pub number_lem : (lba : ℕ) (d : Drive) → sector_of (selected (u32 (lba + 0)) d).regs ≡ lba % 2 ^ 28
number_lem lba d = selected-sector_of (u32 (lba + 0)) d ∙ omega arith
