-- ===== src/Fat32/Table.antt =====
-- The table of clusters as a function from clusters to entries.
use lons_os.Base.{
  ℕ, ◌+◌, ◌-◌, ◌*◌, ◌/◌, ◌%◌, ◌^◌, ◌<◌, ◌≤◌, ◌==◌, ◌≡◌, ◌≢◌, refl, sym, ap, ◌∙◌, arith,
  if◌then◌else◌, Bool-cases, inl, inr, ==→eq, eq_false,
}
use lons_os.Machine.{u32}
use lons_os.Machine.Bytes.{
  Buffer, le32, put32, le32_cong, put32_cong, le32-put32_self, le32-put32_apart, le32-lt,
}
use lons_os.Fat32.{
  BlockDevice, Geometry, Fat, entry_sector, entry_byte, read_sector, write_sector, fat_get, fat_set,
}
use lons_os.Fat32.Disk.{Works}

module _ {D : Type 0} (dev : BlockDevice D) (ok : Works dev) where
  -- A sector, its number taken modulo 2^28.
  abbrev pub sector_of : Fat D → ℕ → Buffer
  sector_of s lba = ok.sectors s.disk (lba % 2 ^ 28)

  -- The 32 bits of an entry, and the 28 that count.
  unfoldable pub raw : Fat D → ℕ → ℕ
  raw s c = le32 (sector_of s (entry_sector c s.geometry)) (entry_byte c)

  abbrev pub entry : Fat D → ℕ → ℕ
  entry s c = raw s c % 2 ^ 28

  -- The same geometry and the same bytes on the disk.
  pub record SameDisk (s t : Fat D) : Type 0 where
    pub geometry : t.geometry ≡ s.geometry
    pub bytes : (l i : ℕ) → i < 512 → sector_of t l i ≡ sector_of s l i

  entry_byte-lt : (c : ℕ) → entry_byte c + 3 < 512
  entry_byte-lt c = omega arith

  -- An entry depends on its own sector alone.
  pub raw_cong :
      (s t : Fat D) (c : ℕ)
      → t.geometry ≡ s.geometry
      → ((i : ℕ)
          → i < 512
          → sector_of t (entry_sector c s.geometry) i ≡ sector_of s (entry_sector c s.geometry) i)
      → raw t c ≡ raw s c
  unfolding raw
  raw_cong s t c kept same =
      ap (λ (g : Geometry). le32 (sector_of t (entry_sector c g)) (entry_byte c)) kept
      ∙ le32_cong _ _ (entry_byte c) 512 (entry_byte-lt c) same

  pub raw-SameDisk : (s t : Fat D) → SameDisk s t → (c : ℕ) → raw t c ≡ raw s c
  raw-SameDisk s t same c = raw_cong s t c same.geometry (same.bytes (entry_sector c s.geometry))

  pub fat_get-SameDisk : (c : ℕ) (s : Fat D) → SameDisk s (fat_get dev c s).1
  unfolding fat_get read_sector
  fat_get-SameDisk c s = record {
    geometry = refl;
    bytes = λ l i h. ok.read_keeps (entry_sector c s.geometry) s.sect_buf s.disk (l % 2 ^ 28) i h;
  }

  -- What `fat_get` answers.
  pub fat_get-entry : (c : ℕ) (s : Fat D) → (fat_get dev c s).0 ≡ entry s c
  unfolding fat_get read_sector raw
  fat_get-entry c s = rw (ok.reads (entry_sector c s.geometry) s.sect_buf s.disk) (
      ap (λ (x : ℕ). x % 2 ^ 28)
        (le32_cong _ _ (entry_byte c) 512 (entry_byte-lt c)
          (ok.read_bytes (entry_sector c s.geometry) s.sect_buf s.disk)))

  -- What `fat_set` writes: the four high bits are kept.
  abbrev pub set_value : Fat D → ℕ → ℕ → ℕ
  set_value s c v = raw s c - raw s c % 2 ^ 28 + v % 2 ^ 28

  pub fat_set-geometry : (c v : ℕ) (s : Fat D) → (fat_set dev c v s).geometry ≡ s.geometry
  unfolding fat_set read_sector write_sector
  fat_set-geometry c v s = rw (ok.reads (entry_sector c s.geometry) s.sect_buf s.disk) refl

  module _ (c v : ℕ) (s : Fat D) where
    at_sector : ℕ
    at_sector = entry_sector c s.geometry

    -- The buffer after the read, and what is written back.
    buf : Buffer
    buf = (dev.read at_sector s.sect_buf s.disk).0.1

    after_read : D
    after_read = (dev.read at_sector s.sect_buf s.disk).1

    field : ℕ
    field = le32 buf (entry_byte c)

    changed : Buffer
    changed = put32 (entry_byte c) (field - field % 2 ^ 28 + v % 2 ^ 28) buf

    fat_set-disk : (fat_set dev c v s).disk ≡ (dev.write at_sector changed after_read).1
    unfolding fat_set read_sector write_sector at_sector buf after_read field changed
    fat_set-disk = rw (ok.reads (entry_sector c s.geometry) s.sect_buf s.disk) refl

    buf_lem : (i : ℕ) → i < 512 → buf i ≡ sector_of s at_sector i
    unfolding buf
    buf_lem i h = ok.read_bytes at_sector s.sect_buf s.disk i h

    field_lem : field ≡ raw s c
    unfolding field raw at_sector
    field_lem = le32_cong _ _ (entry_byte c) 512 (entry_byte-lt c) buf_lem

    changed-lt : (k : ℕ) → k < 512 → changed k < 256
    unfolding changed put32
    changed-lt k h = ground (arith, buf_lem k, ok.byte s.disk (at_sector % 2 ^ 28) k)

    changed_lem :
        (i : ℕ)
        → i < 512
        → changed i ≡ put32 (entry_byte c) (set_value s c v) (sector_of s at_sector) i
    unfolding changed
    changed_lem i h =
        ap (λ (f : ℕ). put32 (entry_byte c) (f - f % 2 ^ 28 + v % 2 ^ 28) buf i) field_lem
        ∙ put32_cong buf (sector_of s at_sector) (entry_byte c) _ i (buf_lem i h)

    pub fat_set_bytes :
        (l i : ℕ)
        → i < 512
        → sector_of (fat_set dev c v s) l i ≡ (
            if l % 2 ^ 28 == entry_sector c s.geometry % 2 ^ 28
            then put32 (entry_byte c) (set_value s c v) (sector_of s l) i
            else sector_of s l i)
    unfolding at_sector after_read
    fat_set_bytes l i h =
        ap (λ (d : D). ok.sectors d (l % 2 ^ 28) i) fat_set-disk
        ∙ ok.write_bytes at_sector changed after_read (l % 2 ^ 28) i (omega arith) h changed-lt
        ∙ elim (Bool-cases (l % 2 ^ 28 == at_sector % 2 ^ 28)) [
          | inl e ↦ rw e (
              changed_lem i h
              ∙ ap (λ (k : ℕ). put32 (entry_byte c) (set_value s c v) (ok.sectors s.disk k) i)
                  (sym (==→eq _ _ e)))
          | inr e ↦ rw e (ok.read_keeps at_sector s.sect_buf s.disk (l % 2 ^ 28) i h)
        ]

  -- The clusters whose entries lie below sector 2^28.
  abbrev pub Addressed : Geometry → ℕ → Type 0
  Addressed g c = (c < 2 ^ 30) × (g.fat_lba + c / 128 < 2 ^ 28)

  -- The field of cluster `k` in the buffer that is written for cluster `c` in the same sector.
  raw-put32 :
      (c k v lba : ℕ) (b : Buffer)
      → c < 2 ^ 30
      → k < 2 ^ 30
      → lba + c / 128 < 2 ^ 28
      → lba + k / 128 < 2 ^ 28
      → u32 (lba + u32 (k * 4) / 512) % 2 ^ 28 ≡ u32 (lba + u32 (c * 4) / 512) % 2 ^ 28
      → v < 2 ^ 32
      → le32 (put32 (entry_byte c) v b) (entry_byte k)
        ≡ (if k == c then v else le32 b (entry_byte k))
  raw-put32 c k v lba b hc hk fc fk e lt = elim (Bool-cases (k == c)) [
    | inl same ↦
        let z : k ≡ c = ==→eq _ _ same in rw same (rw z (le32-put32_self (entry_byte c) v b lt))
    | inr other ↦
        let ne : k ≢ c = λ z. absurd (ground (arith, z)) in
        rw other (
          le32-put32_apart (entry_byte c) (entry_byte k) v b (omega arith)
            (λ z. ne (omega (arith, e, z, hc, hk, fc, fk))))
  ]

  raw-lt : (s : Fat D) (c : ℕ) → raw s c < 2 ^ 32
  unfolding raw
  raw-lt s c = le32-lt _ (entry_byte c) (ok.byte s.disk (entry_sector c s.geometry % 2 ^ 28))

  -- Setting an entry changes the 28 low bits of that entry, and no other entry.
  pub raw-fat_set :
      (c v : ℕ) (s : Fat D) (k : ℕ)
      → Addressed s.geometry c
      → Addressed s.geometry k
      → raw (fat_set dev c v s) k ≡ (if k == c then set_value s c v else raw s k)
  unfolding raw
  raw-fat_set c v s k hc hk =
      ap (λ (g : Geometry). le32 (sector_of (fat_set dev c v s) (entry_sector k g)) (entry_byte k))
        (fat_set-geometry c v s)
      ∙ elim (Bool-cases
          (entry_sector k s.geometry % 2 ^ 28 == entry_sector c s.geometry % 2 ^ 28)) [
            | inl e ↦
                le32_cong _
                  (put32 (entry_byte c) (set_value s c v) (sector_of s (entry_sector k s.geometry)))
                  (entry_byte k) 512 (entry_byte-lt k)
                  (λ i h. fat_set_bytes c v s (entry_sector k s.geometry) i h ∙ rw e refl)
                ∙ raw-put32 c k (set_value s c v) s.geometry.fat_lba _ hc.0 hk.0 hc.1 hk.1
                    (==→eq _ _ e) (omega (arith, raw-lt s c))
            | inr e ↦
                le32_cong _ (sector_of s (entry_sector k s.geometry)) (entry_byte k) 512
                  (entry_byte-lt k)
                  (λ i h. fat_set_bytes c v s (entry_sector k s.geometry) i h ∙ rw e refl)
                ∙ rw (eq_false k c (λ z. absurd (ground (arith, z)))) refl
          ]

  -- The table lies below sector 2^28, as far as a 28-bit cluster reaches.
  abbrev pub IsLow : Geometry → Type 0
  IsLow g = g.fat_lba + 2 ^ 21 ≤ 2 ^ 28

  pub entry-fat_set :
      (c v : ℕ) (s : Fat D) (k : ℕ)
      → IsLow s.geometry
      → c < 2 ^ 28
      → k < 2 ^ 28
      → entry (fat_set dev c v s) k ≡ (if k == c then v % 2 ^ 28 else entry s k)
  entry-fat_set c v s k low hc hk =
      ap (λ (x : ℕ). x % 2 ^ 28) (raw-fat_set c v s k (omega arith) (omega arith)) ∙ ground arith

  -- On a disk that works and a table below sector 2^28: an entry that is set is read back in its low
  -- 28 bits, and every other entry is read as before.
  pub fat_get-fat_set :
      (c v : ℕ) (s : Fat D) (k : ℕ)
      → IsLow s.geometry
      → c < 2 ^ 28
      → k < 2 ^ 28
      → (fat_get dev k (fat_set dev c v s)).0 ≡ (if k == c then v % 2 ^ 28 else (fat_get dev k s).0)
  fat_get-fat_set c v s k low hc hk =
      fat_get-entry k (fat_set dev c v s)
      ∙ entry-fat_set c v s k low hc hk
      ∙ ap (λ (x : ℕ). if k == c then v % 2 ^ 28 else x) (sym (fat_get-entry k s))
