-- ===== src/Fat32/Files/Skip.antt =====
-- The search of `fat32_write` of kernel/fat32.c for the cluster in which an offset lies.
use lons_os.Base.{
  ℕ, zero, suc, ◌+◌, ◌-◌, ◌*◌, ◌<◌, ◌≤◌, ◌≡◌, refl, sym, subst, ap, ◌∙◌, arith, true, false, List,
  [], ◌∷◌, if◌then◌else◌, length, Bool-cases, leb, inl, inr, leb→le, Option, some,
}
use lons_os.Heap.{Run, ok}
use lons_os.Fat32.{BlockDevice, Fat, Geometry, fat_get}
use lons_os.Fat32.Disk.{Works}
use lons_os.Fat32.Entries.{next_or_new}
use lons_os.Fat32.Table.{SameDisk, fat_get-SameDisk}
use lons_os.Fat32.Files.{skip_clusters}
use lons_os.Fat32.Files.Content.{suc_room}
use lons_os.Fat32.Files.Linked.{
  Linked, InData, SameDisk-SameTable, Linked-SameTable, next_or_new-Linked,
}
use lons_os.Fat32.Files.Parts.{parts}

-- The parts of `src` that go into the clusters, from byte `off` of all of them on.
abbrev pub parts_at : Geometry → ℕ → List ℕ → List ℕ → List (ℕ × List ℕ)
parts_at g off [] src = []
parts_at g off (c ∷ cs) src =
    if leb g.bytes_per_clus off
    then parts_at g (off - g.bytes_per_clus) cs src
    else parts g off (c ∷ cs) src

room_behind : (off len b n : ℕ) → b ≤ off → off + len ≤ suc n * b → (off - b) + len ≤ n * b
room_behind off len b n h room = grind (arith, suc_room n b)

module _ {D : Type 0} (dev : BlockDevice D) (works : Works dev) where
  SameDisk-trans :
      (s t u : Fat D) → SameDisk dev works s t → SameDisk dev works t u → SameDisk dev works s u
  SameDisk-trans s t u p q = record {
    geometry = q.geometry ∙ p.geometry;
    bytes = λ l i h. q.bytes l i h ∙ p.bytes l i h;
  }

  -- The cluster that has the offset, which is at `off` behind the start of `c`, and those behind it.
  pub record Found (off base c : ℕ) (cs : List ℕ) (len : ℕ) (s : Fat D)
      (r : Run (Option (ℕ × ℕ) × Fat D)) : Type 0 where
    pub cluster : ℕ
    pub first : ℕ
    pub behind : List ℕ
    pub fat : Fat D
    pub place : ℕ
    pub ends : r ≡ ok (some (cluster, first), fat)
    pub same : SameDisk dev works s fat
    pub linked : Linked dev works fat cluster behind
    pub located : InData dev works s.geometry (cluster ∷ behind)
    pub offset : first + place ≡ base + off
    pub inside : place < s.geometry.bytes_per_clus
    pub room : place + len ≤ suc (length behind) * s.geometry.bytes_per_clus
    pub fewer : length behind ≤ length cs
    pub same_parts :
        (src : List ℕ)
        → parts_at s.geometry off (c ∷ cs) src ≡ parts s.geometry place (cluster ∷ behind) src

  step_past :
      (fuel c d base at : ℕ) (s f : Fat D)
      → leb (base + s.geometry.bytes_per_clus) at ≡ true
      → next_or_new dev c s ≡ (some d, f)
      → skip_clusters dev (suc fuel) c base at s
        ≡ skip_clusters dev fuel d (base + s.geometry.bytes_per_clus) at f
  unfolding skip_clusters
  step_past fuel c d base at s f past next =
      rw (past, next)
        (ap
          (λ (x : Option ℕ × Fat D).
            skip_clusters dev fuel d (base + s.geometry.bytes_per_clus) at x.1)
          next)

  step_here :
      (fuel c base at : ℕ) (s : Fat D)
      → leb (base + s.geometry.bytes_per_clus) at ≡ false
      → skip_clusters dev (suc fuel) c base at s ≡ ok (some (c, base), s)
  unfolding skip_clusters
  step_here fuel c base at s here = rw here refl

  -- The cluster at hand has the offset.
  here-Found :
      (fuel base c off : ℕ) (cs : List ℕ) (len : ℕ) (s : Fat D)
      → Linked dev works s c cs
      → InData dev works s.geometry (c ∷ cs)
      → off < s.geometry.bytes_per_clus
      → off + len ≤ suc (length cs) * s.geometry.bytes_per_clus
      → Found off base c cs len s (skip_clusters dev (suc fuel) c base (base + off) s)
  here-Found fuel base c off cs len s linked located inside room =
      let first : leb s.geometry.bytes_per_clus off ≡ false = ground arith in
      record {
        cluster = c;
        first = base;
        behind = cs;
        fat = s;
        place = off;
        ends = step_here fuel c base (base + off) s (ground arith);
        same = record { geometry = refl; bytes = λ l i h. refl };
        linked = linked;
        located = located;
        offset = refl;
        inside = inside;
        room = room;
        fewer = omega arith;
        same_parts = λ src. rw first refl;
      }

  -- It lies behind, in one that the search from the next cluster finds.
  past-Found :
      (fuel base c d off : ℕ) (ds : List ℕ) (len : ℕ) (s f : Fat D)
      → s.geometry.bytes_per_clus ≤ off
      → next_or_new dev c s ≡ (some d, f)
      → SameDisk dev works s f
      → Found
          (off - s.geometry.bytes_per_clus)
          (base + s.geometry.bytes_per_clus)
          d
          ds
          len
          f
          (skip_clusters dev fuel d (base + s.geometry.bytes_per_clus) (base + off) f)
      → Found off base c (d ∷ ds) len s (skip_clusters dev (suc fuel) c base (base + off) s)
  past-Found fuel base c d off ds len s f past next same q =
      let later : leb s.geometry.bytes_per_clus off ≡ true = ground arith in
      record {
        cluster = q.cluster;
        first = q.first;
        behind = q.behind;
        fat = q.fat;
        place = q.place;
        ends = step_past fuel c d base (base + off) s f (ground arith) next ∙ q.ends;
        same = SameDisk-trans s f q.fat same q.same;
        linked = q.linked;
        located = subst (λ g. InData dev works g (q.cluster ∷ q.behind)) same.geometry q.located;
        offset = omega (arith, q.offset);
        inside = subst (λ (g : Geometry). q.place < g.bytes_per_clus) same.geometry q.inside;
        room =
            subst (λ (g : Geometry). q.place + len ≤ suc (length q.behind) * g.bytes_per_clus)
              same.geometry q.room;
        fewer = omega (arith, q.fewer);
        same_parts = λ src. rw later (
            subst
              (λ g.
                parts_at g (off - s.geometry.bytes_per_clus) (d ∷ ds) src
                ≡ parts g q.place (q.cluster ∷ q.behind) src)
              same.geometry (q.same_parts src));
      }

  pub skip_clusters-Found :
      (fuel base c off : ℕ) (cs : List ℕ) (len : ℕ) (s : Fat D)
      → Linked dev works s c cs
      → InData dev works s.geometry (c ∷ cs)
      → 0 < len
      → off + len ≤ suc (length cs) * s.geometry.bytes_per_clus
      → length cs < fuel
      → Found off base c cs len s (skip_clusters dev fuel c base (base + off) s)
  skip_clusters-Found zero base c off cs len s linked located filled room enough =
      absurd (omega arith)
  skip_clusters-Found (suc fuel) base c off [] len s linked located filled room enough =
      here-Found fuel base c off [] len s linked located (omega arith) room
  skip_clusters-Found (suc fuel) base c off (d ∷ ds) len s (e, short, before, linked)
        (low, high, located) filled room enough =
      elim (Bool-cases (leb s.geometry.bytes_per_clus off)) [
        | inl past ↦
            let b = s.geometry.bytes_per_clus in
            let f = (fat_get dev c s).1 in
            let same = fat_get-SameDisk dev works c s in
            let low_off : b ≤ off = leb→le b off past in
            let q =
              skip_clusters-Found fuel (base + b) d (off - b) ds len f
                (Linked-SameTable dev works s f d ds (SameDisk-SameTable dev works s f same) linked)
                (subst (λ g. InData dev works g (d ∷ ds)) (sym same.geometry) located) filled
                (subst (λ (g : Geometry). (off - b) + len ≤ suc (length ds) * g.bytes_per_clus)
                  (sym same.geometry) (room_behind off len b (suc (length ds)) low_off room))
                (omega arith) in
            past-Found fuel base c d off ds len s f low_off
              (next_or_new-Linked dev works c d s e short) same
              (subst
                (λ at.
                  Found (off - b) (base + b) d ds len f (skip_clusters dev fuel d (base + b) at f))
                {y = base + off} (omega arith) q)
        | inr here ↦
            here-Found fuel base c off (d ∷ ds) len s (e, short, before, linked)
              (low, high, located) (ground arith) room
      ]
