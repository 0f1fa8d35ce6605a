-- ===== src/Fat32/Files/Parts.antt =====
-- The parts of a source that `fat32_write` of kernel/fat32.c puts into the clusters of a file.
use lons_os.Base.{
  ℕ, ◌^◌, ◌+◌, ◌-◌, ◌*◌, ◌<◌, ◌≡◌, refl, sym, ap, ap₂, ◌∙◌, arith, Bool, List, [], ◌∷◌, length,
  take, drop, length-drop, drop-nil,
}
use lons_os.Fat32.{BlockDevice, Geometry, cluster_to_lba}
use lons_os.Fat32.Disk.{Works}
use lons_os.Fat32.Table.{SameDisk}
use lons_os.Fat32.Files.{Writing}
use lons_os.Fat32.Files.Copy.{min}
use lons_os.Fat32.Files.Overlay.{overlaid, take-nil}
use lons_os.Fat32.Files.Put.{Put, disk_byte}

-- Bytes that are put at places, one after the other.
abbrev pub overlaid_all : List (ℕ × List ℕ) → ℕ → ℕ → ℕ
overlaid_all [] x old = old
overlaid_all ((p, vs) ∷ ps) x old = overlaid_all ps x (overlaid p vs x old)

-- The parts of `src` that go into the clusters `cs`, from byte `off` of the first one on.
abbrev pub parts : Geometry → ℕ → List ℕ → List ℕ → List (ℕ × List ℕ)
parts g off [] src = []
parts g off (c ∷ cs) src =
    let n = min (length src) (g.bytes_per_clus - off) in
    (cluster_to_lba c g * 512 + off, take n src) ∷ parts g 0 cs (drop n src)

parts-nothing :
    (g : Geometry) (off : ℕ) (cs : List ℕ) (x old : ℕ)
    → overlaid_all (parts g off cs []) x old ≡ old
parts-nothing g off [] x old = refl
parts-nothing g off (c ∷ cs) x old =
    let n : ℕ = min 0 (g.bytes_per_clus - off) in
    let p = cluster_to_lba c g * 512 + off in
    ap (λ vs. overlaid_all (parts g 0 cs (drop {A = ℕ} n [])) x (overlaid p vs x old)) (take-nil n)
    ∙ ap (λ vs. overlaid_all (parts g 0 cs vs) x (overlaid p [] x old)) (drop-nil n)
    ∙ parts-nothing g 0 cs x (overlaid p [] x old)
    ∙ ground arith

module _ {D : Type 0} (dev : BlockDevice D) (works : Works dev) where
  -- All bytes of the source lie in the clusters `cs`, from byte `off` of the first one on; all other
  -- bytes of the disk are those of before.
  pub record PutAll (off : ℕ) (cs : List ℕ) (w t : Writing D) : Type 0 where
    pub src : length t.src ≡ 0
    pub written : t.written ≡ w.written + length w.src
    pub bytes :
        (l i : ℕ)
        → l < 2 ^ 28
        → i < 512
        → disk_byte dev works t l i
          ≡ overlaid_all
              (parts w.fat.geometry off cs w.src)
              (l * 512 + i)
              (disk_byte dev works w l i)

  no_bytes : (vs : List ℕ) → length vs ≡ 0 → vs ≡ []
  no_bytes [] e = refl
  no_bytes (v ∷ vs) e = absurd (omega arith)

  -- The source ends in this cluster.
  pub last-PutAll :
      (off c : ℕ) (cs : List ℕ) (w : Writing D) (out : Bool × Writing D)
      → Put dev works
          (cluster_to_lba c w.fat.geometry * 512 + off)
          (w.fat.geometry.bytes_per_clus - off)
          w
          out
      → length out.1.src ≡ 0
      → PutAll off (c ∷ cs) w out.1
  last-PutAll off c cs w out p e =
      let n = min (length w.src) (w.fat.geometry.bytes_per_clus - off) in
      let none_left : drop n w.src ≡ [] = sym p.src ∙ no_bytes out.1.src e in
      record {
        src = e;
        written = p.written ∙ ground (arith, length-drop n w.src, ap length none_left);
        bytes = λ l i hl h.
            p.bytes l i hl h
            ∙ sym (
                ap
                  (λ vs. overlaid_all (parts w.fat.geometry 0 cs vs) (l * 512 + i) (
                    overlaid (cluster_to_lba c w.fat.geometry * 512 + off) (take n w.src)
                      (l * 512 + i) (disk_byte dev works w l i)))
                  none_left
                ∙ parts-nothing w.fat.geometry 0 cs (l * 512 + i) _);
      }

  -- It goes on in the next ones, once their entry is read.
  pub next-PutAll :
      (off c : ℕ) (cs : List ℕ) (w u t : Writing D) (out : Bool × Writing D)
      → Put dev works
          (cluster_to_lba c w.fat.geometry * 512 + off)
          (w.fat.geometry.bytes_per_clus - off)
          w
          out
      → u.src ≡ out.1.src
      → u.written ≡ out.1.written
      → SameDisk dev works out.1.fat u.fat
      → PutAll 0 cs u t
      → PutAll off (c ∷ cs) w t
  next-PutAll off c cs w u t out p same_src same_written same q =
      let n = min (length w.src) (w.fat.geometry.bytes_per_clus - off) in
      let left : u.src ≡ drop n w.src = same_src ∙ p.src in
      let counted : length u.src ≡ length w.src - n = ap length left ∙ length-drop n w.src in
      let g : u.fat.geometry ≡ w.fat.geometry = same.geometry ∙ p.geometry in
      record {
        src = q.src;
        written = q.written ∙ ground (arith, counted, same_written, p.written);
        bytes = λ l i hl h.
            q.bytes l i hl h
            ∙ ap₂
                (λ (vs : List ℕ) (k : Geometry).
                  overlaid_all (parts k 0 cs vs) (l * 512 + i) (disk_byte dev works u l i))
                left g
            ∙ ap (overlaid_all (parts w.fat.geometry 0 cs (drop n w.src)) (l * 512 + i))
                (same.bytes l i h ∙ p.bytes l i hl h);
      }
