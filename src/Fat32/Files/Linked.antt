-- ===== src/Fat32/Files/Linked.antt =====
-- Clusters that follow each other in the table of kernel/fat32.c, and what leaves that table as it is.
use lons_os.Base.{
  ℕ, ◌+◌, ◌%◌, ◌^◌, ◌<◌, ◌≤◌, ◌≡◌, sym, subst, ap, ◌∙◌, arith, false, List, [], ◌∷◌, leb, some,
}
use lons_os.Fat32.{BlockDevice, Fat, Geometry, cluster_to_lba, entry_sector, fat_get, fat_eoc}
use lons_os.Fat32.Disk.{Works}
use lons_os.Fat32.Entries.{next_or_new}
use lons_os.Fat32.Table.{sector_of, entry, raw_cong, SameDisk, fat_get-entry}

module _ {D : Type 0} (dev : BlockDevice D) (works : Works dev) where
  -- The clusters of the list follow each other in the table, whose sectors lie before the data.
  abbrev pub Linked : Fat D → ℕ → List ℕ → Type 0
  Linked s c [] = Unit
  Linked s c (d ∷ ds) =
      (entry dev works s c ≡ d)
      × (d < fat_eoc)
      × (entry_sector c s.geometry < s.geometry.data_lba)
      × Linked s d ds

  -- The clusters lie in the data and on the disk.
  abbrev pub InData : Geometry → List ℕ → Type 0
  InData g [] = Unit
  InData g (c ∷ cs) =
      (g.data_lba ≤ cluster_to_lba c g)
      × (cluster_to_lba c g + g.sectors_per_clus ≤ 2 ^ 28)
      × InData g cs

  -- The same table: what lies before the data.
  pub record SameTable (s t : Fat D) : Type 0 where
    pub geometry : t.geometry ≡ s.geometry
    pub bytes :
        (l i : ℕ)
        → l < s.geometry.data_lba
        → i < 512
        → sector_of dev works t l i ≡ sector_of dev works s l i

  pub SameTable-entry :
      (s t : Fat D) (c : ℕ)
      → SameTable s t
      → entry_sector c s.geometry < s.geometry.data_lba
      → entry dev works t c ≡ entry dev works s c
  SameTable-entry s t c same low =
      ap (λ (x : ℕ). x % 2 ^ 28)
        (raw_cong dev works s t c same.geometry
          (λ i h. same.bytes (entry_sector c s.geometry) i low h))

  -- The cluster behind one that is not the last.
  pub next_or_new-Linked :
      (c d : ℕ) (t : Fat D)
      → entry dev works t c ≡ d
      → d < fat_eoc
      → next_or_new dev c t ≡ (some d, (fat_get dev c t).1)
  unfolding next_or_new
  next_or_new-Linked c d t e low =
      let follows : leb fat_eoc (fat_get dev c t).0 ≡ false =
        ground (arith, fat_get-entry dev works c t, e) in
      rw follows (ap (λ n. (some n, (fat_get dev c t).1)) (fat_get-entry dev works c t ∙ e))

  pub SameTable-trans : (s t u : Fat D) → SameTable s t → SameTable t u → SameTable s u
  SameTable-trans s t u p q = record {
    geometry = q.geometry ∙ p.geometry;
    bytes = λ l i low h.
        q.bytes l i (subst (λ (g : Geometry). l < g.data_lba) (sym p.geometry) low) h
        ∙ p.bytes l i low h;
  }

  pub SameDisk-SameTable : (s t : Fat D) → SameDisk dev works s t → SameTable s t
  SameDisk-SameTable s t same = record {
    geometry = same.geometry;
    bytes = λ l i low h. same.bytes l i h;
  }

  pub Linked-SameTable :
      (s t : Fat D) (c : ℕ) (cs : List ℕ) → SameTable s t → Linked s c cs → Linked t c cs
  Linked-SameTable s t c [] same linked = tt
  Linked-SameTable s t c (d ∷ ds) same (e, low, before, linked) = (
    SameTable-entry s t c same before ∙ e,
    low,
    subst (λ (g : Geometry). entry_sector c g < g.data_lba) (sym same.geometry) before,
    Linked-SameTable s t d ds same linked,
  )
