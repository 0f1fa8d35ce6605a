-- ===== src/Fat32/Files/Copy.antt =====
-- What `fat32_read` copies from the sectors of one cluster.
use lons_os.Base.{
  ℕ, ◌^◌, zero, suc, ◌+◌, ◌-◌, ◌*◌, ◌/◌, ◌%◌, ◌<◌, ◌≤◌, ◌==◌, ◌≡◌, ◌⊎◌, inl, inr, refl, sym, subst,
  ap, ap₂, ◌∙◌, arith, Bool, true, false, List, ◌∷◌, ◌++◌, append_assoc, append-nil, if◌then◌else◌,
  Bool-cases, leb, ltb,
}
use lons_os.Machine.{u32}
use lons_os.Machine.Bytes.{Buffer, bytes_at}
use lons_os.Fat32.{BlockDevice, Fat, read_sector}
use lons_os.Fat32.Disk.{Works}
use lons_os.Fat32.Table.{sector_of, SameDisk}
use lons_os.Fat32.Files.{Reading, copy_out, read_sectors}

abbrev pub min : ℕ → ℕ → ℕ
min a b = if ltb a b then a else b

-- What is copied up to `b` and then up to `l`.
min_split :
    (rem c b l : ℕ)
    → c ≤ b
    → b ≤ l
    → min rem (b - c) + min (rem - min rem (b - c)) (l - (c + min rem (b - c))) ≡ min rem (l - c)
min_split rem c b l h k = ground arith

min-right : (a b : ℕ) → min a b ≤ b
min-right a b = ground arith

pub min-le : (a b : ℕ) → min a b ≤ a
min-le a b = ground arith

pub bytes_at_cong :
    (n k j : ℕ) (b c : Buffer)
    → ((i : ℕ) → i < n → b (k + i) ≡ c (j + i))
    → bytes_at n k b ≡ bytes_at n j c
unfolding bytes_at
bytes_at_cong zero k j b c same = refl
bytes_at_cong (suc n) k j b c same =
    let first : b k ≡ c j =
      subst (λ (x : ℕ). b x ≡ c (j + 0)) (omega arith) (same 0 (omega arith))
      ∙ ap c (omega arith) in
    let rest =
      bytes_at_cong n (k + 1) (j + 1) b c
        (λ i h. ap b (omega arith) ∙ same (i + 1) (omega arith) ∙ ap c (omega arith)) in
    ap₂ ◌∷◌ first rest

pub bytes_at-add :
    (m n k : ℕ) (b : Buffer) → bytes_at m k b ++ bytes_at n (k + m) b ≡ bytes_at (m + n) k b
unfolding bytes_at
bytes_at-add zero n k b = ap₂ (λ (x y : ℕ). bytes_at x y b) (omega arith) (omega arith)
bytes_at-add (suc m) n k b =
    let grows : suc (m + n) ≡ suc m + n = omega arith in
    ap (λ (l : List ℕ). b k ∷ l)
      (ap (λ (x : ℕ). bytes_at m (k + 1) b ++ bytes_at n x b) (omega arith)
        ∙ bytes_at-add m n (k + 1) b)
    ∙ ap (λ (x : ℕ). bytes_at x k b) grows

module _ {D : Type 0} (dev : BlockDevice D) (ok : Works dev) (s : Fat D) where
  -- The bytes from sector `lba` on.
  abbrev pub bytes_from : ℕ → Buffer
  bytes_from lba j = sector_of dev ok s (u32 (lba + j / 512)) (j % 512)

  -- What is copied of `bytes`, from `from` up to `limit`.
  pub record Copied (bytes : Buffer) (from limit : ℕ) (r : Reading D) (o : Bool × Reading D)
      : Type 0 where
    pub count : ℕ
    pub enough : count ≡ min r.remaining (limit - from)
    pub good : o.0 ≡ true
    pub out : o.1.out ≡ r.out ++ bytes_at count from bytes
    pub offset : o.1.offset ≡ r.offset + count
    pub remaining : o.1.remaining + count ≡ r.remaining
    pub same : SameDisk dev ok s o.1.fat

  pub Copied-nothing :
      (bytes : Buffer) (from limit : ℕ) (r : Reading D)
      → SameDisk dev ok s r.fat
      → min r.remaining (limit - from) ≡ 0
      → Copied bytes from limit r (true, r)
  unfolding bytes_at
  Copied-nothing bytes from limit r same none_left = record {
    count = 0;
    enough = sym none_left;
    good = refl;
    out = sym (append-nil r.out);
    offset = omega arith;
    remaining = omega arith;
    same = same;
  }

  -- `clus_off` does not count.
  pub Copied-clus_off :
      (bytes : Buffer) (from at limit end x : ℕ) (r : Reading D) (o : Bool × Reading D)
      → at ≡ from
      → end ≡ limit
      → Copied bytes at end (record r { clus_off = x }) o
      → Copied bytes from limit r o
  Copied-clus_off bytes from at limit end x r o e f c = record {
    count = c.count;
    enough = c.enough ∙ ap₂ (λ (x y : ℕ). min r.remaining (y - x)) e f;
    good = c.good;
    out = c.out ∙ ap (λ (x : ℕ). r.out ++ bytes_at c.count x bytes) e;
    offset = c.offset;
    remaining = c.remaining;
    same = c.same;
  }

  -- The buffer with sector `i` from `lba` on.
  abbrev fetched : ℕ → ℕ → Reading D → Reading D
  fetched lba i r = record r { fat = (read_sector dev (u32 (lba + i)) r.fat).1 }

  module _ (n i lba : ℕ) (r : Reading D) (left : (r.remaining == 0) ≡ false) where
    read_sectors-skip :
        leb (u32 (u32 (i * 512) + 512)) r.clus_off ≡ true
        → read_sectors dev (suc n) i lba r ≡ read_sectors dev n (i + 1) lba r
    unfolding read_sectors
    read_sectors-skip behind = rw (left, behind) refl

    read_sectors-copy :
        leb (u32 (u32 (i * 512) + 512)) r.clus_off ≡ false
        → read_sectors dev (suc n) i lba r
          ≡ read_sectors dev n (i + 1) lba (copy_out dev i (fetched lba i r))
    unfolding read_sectors read_sector
    read_sectors-copy here =
        rw (left, here, ok.reads (u32 (lba + i)) r.fat.sect_buf r.fat.disk) refl

  read_sectors-stop :
      (n i lba : ℕ) (r : Reading D)
      → (r.remaining == 0) ≡ true
      → read_sectors dev (suc n) i lba r ≡ (true, r)
  unfolding read_sectors
  read_sectors-stop n i lba r left = rw left refl

  -- What `copy_out` does with sector `i` in the buffer, for an offset that lies in it.
  module _ (i lba : ℕ) (r : Reading D) (small : i < 4096) (low : i * 512 ≤ r.clus_off)
      (high : r.clus_off < i * 512 + 512) (same : SameDisk dev ok s r.fat) where
    abbrev count_here : ℕ
    count_here = min r.remaining (i * 512 + 512 - r.clus_off)

    copy_count :
        min r.remaining
          (512 - (if ltb (u32 (i * 512)) r.clus_off then r.clus_off - u32 (i * 512) else 0))
        ≡ count_here
    copy_count = ground arith

    copy_out-clus_off : (copy_out dev i (fetched lba i r)).clus_off ≡ r.clus_off + count_here
    unfolding copy_out
    copy_out-clus_off = rw copy_count (ground arith)

    copy_out-offset : (copy_out dev i (fetched lba i r)).offset ≡ r.offset + count_here
    unfolding copy_out
    copy_out-offset = ap (λ (x : ℕ). r.offset + x) copy_count

    copy_out-remaining : (copy_out dev i (fetched lba i r)).remaining ≡ r.remaining - count_here
    unfolding copy_out
    copy_out-remaining = ap (λ (x : ℕ). r.remaining - x) copy_count

    copy_out-same : SameDisk dev ok s (copy_out dev i (fetched lba i r)).fat
    unfolding copy_out read_sector
    copy_out-same = record {
      geometry = same.geometry;
      bytes = λ l k h.
          ok.read_keeps (u32 (lba + i)) r.fat.sect_buf r.fat.disk (l % 2 ^ 28) k h
          ∙ same.bytes l k h;
    }

    fetched_byte :
        (k : ℕ) → k < 512 → (fetched lba i r).fat.sect_buf k ≡ sector_of dev ok s (u32 (lba + i)) k
    unfolding read_sector
    fetched_byte k h =
        ok.read_bytes (u32 (lba + i)) r.fat.sect_buf r.fat.disk k h ∙ same.bytes (u32 (lba + i)) k h

    copy_out-out :
        (copy_out dev i (fetched lba i r)).out
        ≡ r.out ++ bytes_at count_here r.clus_off (bytes_from lba)
    unfolding copy_out
    copy_out-out =
        ap
          (λ (x : ℕ).
            r.out
            ++ bytes_at x (if ltb (u32 (i * 512)) r.clus_off then r.clus_off - u32 (i * 512) else 0)
                (fetched lba i r).fat.sect_buf)
          copy_count
        ∙ ap (λ (l : List ℕ). r.out ++ l)
            (bytes_at_cong count_here _ r.clus_off _ (bytes_from lba) (λ k h.
              let fits : r.clus_off + k < i * 512 + 512 = ground arith in
              fetched_byte _ (ground arith)
              ∙ ap₂ (λ (x y : ℕ). sector_of dev ok s (u32 (lba + x)) y) (omega arith)
                  (ground arith)))

    copy_out-end :
        ((copy_out dev i (fetched lba i r)).remaining ≡ 0)
        ⊎ ((i + 1) * 512 ≤ (copy_out dev i (fetched lba i r)).clus_off)
    copy_out-end = elim (Bool-cases (ltb r.remaining (i * 512 + 512 - r.clus_off))) [
      | inl less ↦ inl (copy_out-remaining ∙ rw less (omega arith))
      | inr more ↦ inr (
          subst (λ (x : ℕ). (i + 1) * 512 ≤ x) (sym copy_out-clus_off)
            (rw more (omega (arith, high))))
    ]

    -- What the sectors behind copy comes after what this one does.
    Copied-on :
        (last : ℕ) (o : Bool × Reading D)
        → i < last
        → Copied
            (bytes_from lba)
            (copy_out dev i (fetched lba i r)).clus_off
            (last * 512)
            (copy_out dev i (fetched lba i r))
            o
        → Copied (bytes_from lba) r.clus_off (last * 512) r o
    Copied-on last o more c = record {
      count = count_here + c.count;
      enough =
          ap (λ (x : ℕ). count_here + x)
            (c.enough
              ∙ ap₂ (λ (x y : ℕ). min x (last * 512 - y)) copy_out-remaining copy_out-clus_off)
          ∙ min_split r.remaining r.clus_off (i * 512 + 512) (last * 512) (omega (arith, high))
              (omega (arith, more));
      good = c.good;
      out =
          c.out
          ∙ ap₂ (λ (l : List ℕ) (x : ℕ). l ++ bytes_at c.count x (bytes_from lba)) copy_out-out
              copy_out-clus_off
          ∙ append_assoc r.out _ _
          ∙ ap (λ (l : List ℕ). r.out ++ l)
              (bytes_at-add count_here c.count r.clus_off (bytes_from lba));
      offset = omega (arith, c.offset, copy_out-offset);
      remaining =
          omega (
            arith,
            c.remaining,
            copy_out-remaining,
            min-le r.remaining (i * 512 + 512 - r.clus_off),
          );
      same = c.same;
    }

  -- From sector `i` on, `n` to go.
  pub read_sectors-Copied :
      (n i last lba : ℕ) (r : Reading D)
      → SameDisk dev ok s r.fat
      → i + n ≡ last
      → last < 4096
      → (r.remaining ≡ 0) ⊎ (i * 512 ≤ r.clus_off)
      → r.clus_off ≤ last * 512
      → Copied (bytes_from lba) r.clus_off (last * 512) r (read_sectors dev n i lba r)
  unfolding read_sectors
  read_sectors-Copied zero i last lba r same ends small at bound =
      Copied-nothing (bytes_from lba) r.clus_off (last * 512) r same (grind arith)
  read_sectors-Copied (suc n) i last lba r same ends small at bound =
      elim (Bool-cases (r.remaining == 0)) [
        | inl e ↦
            subst (Copied (bytes_from lba) r.clus_off (last * 512) r)
              (sym (read_sectors-stop n i lba r e))
              (Copied-nothing (bytes_from lba) r.clus_off (last * 512) r same (ground arith))
        | inr e ↦ elim (Bool-cases (leb (u32 (u32 (i * 512) + 512)) r.clus_off)) [
          | inl behind ↦
              subst (Copied (bytes_from lba) r.clus_off (last * 512) r)
                (sym (read_sectors-skip n i lba r e behind))
                (read_sectors-Copied n (i + 1) last lba r same (omega arith) small
                  (inr (ground arith)) bound)
          | inr here ↦
              let low : i * 512 ≤ r.clus_off = elim at [
                | inl z ↦ absurd (ground arith)
                | inr l ↦ l
              ] in
              let high : r.clus_off < i * 512 + 512 = ground arith in
              let few : i < 4096 = omega arith in
              let t = copy_out dev i (fetched lba i r) in
              subst (Copied (bytes_from lba) r.clus_off (last * 512) r)
                (sym (read_sectors-copy n i lba r e here))
                (Copied-on i lba r few low high same last _ (omega arith) (
                  read_sectors-Copied n (i + 1) last lba t (copy_out-same i lba r few low high same)
                    (omega arith) small (copy_out-end i lba r few low high same)
                    (subst (λ (x : ℕ). x ≤ last * 512)
                      (sym (copy_out-clus_off i lba r few low high same))
                      (omega (arith, min-right r.remaining (i * 512 + 512 - r.clus_off), high)))))
        ]
      ]
