-- ===== src/Fat32/Files/Put.antt =====
-- What the writing of one cluster in `fat32_write` of kernel/fat32.c puts on the disk.
use lons_os.Base.{
  ℕ, ◌%◌, zero, suc, ◌+◌, ◌-◌, ◌*◌, ◌^◌, ◌<◌, ◌≤◌, ◌==◌, ◌≡◌, ◌⊎◌, inl, inr, refl, sym, subst, ap,
  ◌∙◌, arith, Bool, true, length, take, drop, length-drop, drop-drop, Bool-cases, ltb, ==→eq,
}
use lons_os.Machine.{u32}
use lons_os.Machine.Bytes.{put_list}
use lons_os.Fat32.{BlockDevice, Fat, read_sector, write_sector}
use lons_os.Fat32.Disk.{Works}
use lons_os.Fat32.Table.{sector_of}
use lons_os.Fat32.Files.{Writing, write_sectors}
use lons_os.Fat32.Files.Copy.{min}
use lons_os.Fat32.Files.Overlay.{
  overlaid, put_list-overlaid, length-take-min, AllBytes, overlaid-take, AllBytes-drop,
  AllBytes-take, overlaid-lt, overlaid-here, overlaid-elsewhere,
}

module _ {D : Type 0} (dev : BlockDevice D) (works : Works dev) where
  -- Byte `i` of sector `l`, at `l * 512 + i` of the disk.
  abbrev pub disk_byte : Writing D → ℕ → ℕ → ℕ
  disk_byte w l i = sector_of dev works w.fat l i

  -- After the bytes are written from `place` of the disk on, `room` of them at most: all other bytes
  -- of the disk are those of before, and the bytes written are taken from the source and counted.
  pub record Put (place room : ℕ) (w : Writing D) (out : Bool × Writing D) : Type 0 where
    pub done : out.0 ≡ true
    pub src : out.1.src ≡ drop (min (length w.src) room) w.src
    pub written : out.1.written ≡ w.written + min (length w.src) room
    pub file_offset : out.1.file_offset ≡ w.file_offset + min (length w.src) room
    pub geometry : out.1.fat.geometry ≡ w.fat.geometry
    pub bytes :
        (l i : ℕ)
        → l < 2 ^ 28
        → i < 512
        → disk_byte out.1 l i
          ≡ overlaid place (take (min (length w.src) room) w.src) (l * 512 + i) (disk_byte w l i)

  Put-nothing :
      (place room : ℕ) (w : Writing D) → min (length w.src) room ≡ 0 → Put place room w (true, w)
  Put-nothing place room w e = record {
    done = refl;
    src = ap (λ n. drop n w.src) (sym e);
    written = omega (arith, e);
    file_offset = omega (arith, e);
    geometry = refl;
    bytes = λ l i hl h. rw e (ground arith);
  }

  -- The state behind one sector.
  abbrev put_sector : ℕ → ℕ → ℕ → Writing D → Writing D
  put_sector lba sector_off copy_n w =
      let t = (read_sector dev lba w.fat).1 in
      record {
        fat =
            (write_sector dev lba
              (record t { sect_buf = put_list sector_off (take copy_n w.src) t.sect_buf })).1;
        src = drop copy_n w.src;
        written = w.written + copy_n;
        file_offset = w.file_offset + copy_n;
      }

  put_sector-bytes :
      (lba off n : ℕ) (w : Writing D)
      → AllBytes w.src
      → off + n ≤ 512
      → n ≤ length w.src
      → lba < 2 ^ 28
      → (l i : ℕ) → l < 2 ^ 28
      → i < 512
      → disk_byte (put_sector lba off n w) l i
        ≡ overlaid (lba * 512 + off) (take n w.src) (l * 512 + i) (disk_byte w l i)
  unfolding read_sector write_sector
  put_sector-bytes lba off n w all fits enough hlba l i hl h =
      let f = w.fat in
      let d = (dev.read lba f.sect_buf f.disk).1 in
      let buf = (dev.read lba f.sect_buf f.disk).0.1 in
      let new = put_list off (take n w.src) buf in
      let part = take n w.src in
      let old : (k : ℕ) → k < 512 → buf k ≡ disk_byte w lba k =
        works.read_bytes lba f.sect_buf f.disk in
      let byte : (k : ℕ) → k < 512 → new k < 256 = λ k lt.
        subst (λ b. b < 256) (sym (put_list-overlaid part off k buf))
          (overlaid-lt off k (buf k) part (AllBytes-take n w.src all)
            (subst (λ b. b < 256) (sym (old k lt)) (works.byte f.disk (lba % 2 ^ 28) k))) in
      let number : (l % 2 ^ 28 == lba % 2 ^ 28) ≡ (l == lba) = ground arith in
      works.write_bytes lba new d (l % 2 ^ 28) i (omega arith) h byte
      ∙ elim (Bool-cases (l == lba)) [
        | inl here ↦
            rw (number, here)
              (put_list-overlaid part off i buf
                ∙ ap (overlaid off part i) (old i h)
                ∙ overlaid-here lba off i (disk_byte w lba i) part
                ∙ ap (λ s. overlaid (lba * 512 + off) part (s * 512 + i) (disk_byte w s i))
                    (sym (==→eq l lba here)))
        | inr other ↦
            rw (number, other)
              (works.read_keeps lba f.sect_buf f.disk (l % 2 ^ 28) i h
                ∙ sym (
                    overlaid-elsewhere l lba off i (disk_byte w l i) part (ground arith) h
                      (omega (arith, length-take-min n w.src enough))))
      ]

  AllBytes-put_sector :
      (lba off n : ℕ) (w : Writing D) → AllBytes w.src → AllBytes (put_sector lba off n w).src
  AllBytes-put_sector lba off n w all = AllBytes-drop n w.src all

  -- One sector and those behind it.
  Put-more :
      (lba off n next room : ℕ) (w : Writing D) (out : Bool × Writing D)
      → AllBytes w.src
      → off + n ≤ 512
      → n ≡ min (length w.src) (512 - off)
      → next ≡ (lba + 1) * 512
      → lba < 2 ^ 28
      → Put next room (put_sector lba off n w) out
      → Put (lba * 512 + off) (512 - off + room) w out
  unfolding read_sector write_sector
  Put-more lba off n next room w out all fits e at low p =
      let rest = min (length (drop n w.src)) room in
      let left : length (drop n w.src) ≡ length w.src - n = length-drop n w.src in
      let sum : n + rest ≡ min (length w.src) (512 - off + room) =
        rw left (sum_lem (length w.src) (512 - off) room n e) in
      record {
        done = p.done;
        src = p.src ∙ sym (drop-drop n rest w.src) ∙ ap (λ k. drop k w.src) sum;
        written = p.written ∙ omega (arith, sum);
        file_offset = p.file_offset ∙ omega (arith, sum);
        geometry = p.geometry;
        bytes = λ l i hl h.
            p.bytes l i hl h
            ∙ ap (overlaid next (take rest (drop n w.src)) (l * 512 + i))
                (put_sector-bytes lba off n w all fits (ground (arith, e)) low l i hl h)
            ∙ overlaid-take (lba * 512 + off) n next rest (l * 512 + i) (disk_byte w l i) w.src
                (ground (arith, sum)) (next_lem (length w.src) rest e (ap (λ k. min k room) left))
            ∙ ap (λ k. overlaid (lba * 512 + off) (take k w.src) (l * 512 + i) (disk_byte w l i))
                sum;
      }
    where
      sum_lem : (len r more n : ℕ) → n ≡ min len r → n + min (len - n) more ≡ min len (r + more)
      sum_lem len r more n e = ground arith

      next_lem :
          (len rest : ℕ)
          → n ≡ min len (512 - off)
          → rest ≡ min (len - n) room
          → (rest ≡ 0) ⊎ (next ≡ lba * 512 + off + n)
      next_lem len rest e r = elim (Bool-cases (ltb len (512 - off))) [
        | inl less ↦ inl (ground arith)
        | inr more ↦ inr (ground arith)
      ]

  read_sector-good : (lba : ℕ) (f : Fat D) → (read_sector dev lba f).0 ≡ true
  unfolding read_sector
  read_sector-good lba f = works.reads lba f.sect_buf f.disk

  -- Writing the sectors of a cluster from sector `lba + idx` on, `n` of them, with the first byte at `off`
  -- of the first one, to a disk that works, below sector 2^28, ends without an error: as many
  -- bytes of the source as there is room for lie on the disk from that place on, all other bytes of
  -- the disk are those of before, and the bytes written are taken from the source and counted.
  pub write_sectors-Put :
      (n idx off lba : ℕ) (w : Writing D)
      → AllBytes w.src
      → off < 512
      → lba + idx + n ≤ 2 ^ 28
      → Put ((lba + idx) * 512 + off) (n * 512 - off) w (write_sectors dev n idx off lba w)
  unfolding write_sectors
  write_sectors-Put zero idx off lba w all h fits =
      Put-nothing ((lba + idx) * 512 + off) (0 * 512 - off) w (ground arith)
  write_sectors-Put (suc n) idx off lba w all h fits = elim (Bool-cases (length w.src == 0)) [
    | inl nothing ↦ rw nothing (Put-nothing _ _ w (ground arith))
    | inr some_bytes ↦
        let lba1 = lba + idx in
        let same : u32 (lba + idx) ≡ lba + idx = omega arith in
        let n1 = min (length w.src) (512 - off) in
        let w1 = put_sector lba1 off n1 w in
        let room : 512 - off + (n * 512 - 0) ≡ suc n * 512 - off = omega arith in
        rw (some_bytes, same, read_sector-good lba1 w.fat, ← room)
          (Put-more lba1 off n1 ((lba + (idx + 1)) * 512 + 0) (n * 512 - 0) w
            (write_sectors dev n (idx + 1) 0 lba w1) all (ground arith) refl (omega arith)
            (omega arith)
            (write_sectors-Put n (idx + 1) 0 lba w1 (AllBytes-put_sector lba1 off n1 w all)
              (omega arith) (omega arith)))
  ]
