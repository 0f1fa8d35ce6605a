-- ===== src/Fat32/Files/Read.antt =====
-- `fat32_read` against the contents of the chain of clusters.
use lons_os.Base.{
  ℕ, zero, suc, ◌+◌, ◌-◌, ◌*◌, ◌%◌, ◌^◌, ◌<◌, ◌≤◌, ◌==◌, ◌≡◌, ◌≢◌, ◌⊎◌, inl, inr, refl, sym, subst,
  ap, ap₂, ◌∙◌, arith, Bool, true, false, ◌&&◌, List, [], ◌∷◌, ◌++◌, append_assoc, append-nil,
  Bool-cases, eq_false, leb, length, not,
}
use lons_os.Machine.Bytes.{Buffer, bytes_at}
use lons_os.Machine.Signed.{pos}
use lons_os.Heap.{Run, ok}
use lons_os.Vfs.{vfs_file}
use lons_os.Fat32.{BlockDevice, Fat, Geometry, fat_get, in_chain}
use lons_os.Fat32.Disk.{Works}
use lons_os.Fat32.Table.{entry, raw-SameDisk, SameDisk, fat_get-SameDisk, fat_get-entry}
use lons_os.Fat32.Chain.{Chain}
use lons_os.Fat32.Nodes.{Fs, inode_of}
use lons_os.Fat32.Files.{Reading, read_cluster, read_clusters, fat32_read}
use lons_os.Fat32.Files.Copy.{min}
use lons_os.Fat32.Files.Content.{
  HasClusters, min-moved, suc_room, content, content-split, read_cluster-Copied,
}

module _ {D : Type 0} (dev : BlockDevice D) (works : Works dev) (s : Fat D) where
  -- What `read_clusters` ends with.
  record Done (bytes : List ℕ) (r : Reading D) (o : Run (Bool × Reading D)) : Type 0 where
    last : Reading D
    ends : o ≡ ok (true, last)
    out : last.out ≡ r.out ++ bytes
    remaining : last.remaining ≡ 0
    same : SameDisk dev works s last.fat

  Done-now :
      (from : ℕ) (bytes : Buffer) (r : Reading D)
      → SameDisk dev works s r.fat
      → r.remaining ≡ 0
      → Done (bytes_at r.remaining from bytes) r (ok (true, r))
  unfolding bytes_at
  Done-now from bytes r same e = record {
    last = r;
    ends = refl;
    out = rw e (sym (append-nil r.out));
    remaining = e;
    same = same;
  }

  SameDisk-fat_get :
      (t : Fat D) (c : ℕ) → SameDisk dev works s t → SameDisk dev works s (fat_get dev c t).1
  SameDisk-fat_get t c same =
      let got = fat_get-SameDisk dev works c t in
      record {
        geometry = got.geometry ∙ same.geometry;
        bytes = λ l i h. got.bytes l i h ∙ same.bytes l i h;
      }

  next-entry :
      (t : Fat D) (c : ℕ) → SameDisk dev works s t → (fat_get dev c t).0 ≡ entry dev works s c
  next-entry t c same =
      fat_get-entry dev works c t ∙ ap (λ (x : ℕ). x % 2 ^ 28) (raw-SameDisk dev works s t same c)

  module _ (fuel c skipped : ℕ) (r : Reading D) where
    read_clusters-stop :
        (in_chain c && not (r.remaining == 0)) ≡ false
        → read_clusters dev (suc fuel) c skipped r ≡ ok (true, r)
    unfolding read_clusters
    read_clusters-stop e = rw e refl

    -- The state behind one cluster.
    abbrev beyond : Reading D
    beyond = record ((read_cluster dev c skipped r).1) {
      fat = (fat_get dev c (read_cluster dev c skipped r).1.fat).1;
    }

    read_clusters-go :
        (in_chain c && not (r.remaining == 0)) ≡ true
        → (read_cluster dev c skipped r).0 ≡ true
        → SameDisk dev works s (read_cluster dev c skipped r).1.fat
        → read_clusters dev (suc fuel) c skipped r
          ≡ read_clusters dev fuel
              (entry dev works s c)
              (skipped + s.geometry.bytes_per_clus)
              beyond
    unfolding read_clusters
    read_clusters-go e good same =
        rw (e, good)
          (ap₂
            (λ (x : ℕ) (g : Geometry). read_clusters dev fuel x (skipped + g.bytes_per_clus) beyond)
            (next-entry _ c same) same.geometry)

  module _ (clusters : HasClusters s.geometry) where
    read_clusters-Done :
        (fuel c : ℕ) (cs : List ℕ) (skipped : ℕ) (r : Reading D)
        → SameDisk dev works s r.fat
        → Chain (entry dev works s) c cs
        → length cs < fuel
        → (r.remaining ≡ 0) ⊎ (skipped ≤ r.offset)
        → r.offset + r.remaining ≤ skipped + length cs * s.geometry.bytes_per_clus
        → r.offset + r.remaining < 2 ^ 32
        → Done
            (bytes_at r.remaining (r.offset - skipped) (content dev works s cs))
            r
            (read_clusters dev fuel c skipped r)
    read_clusters-Done zero c cs skipped r same chain enough at room small = absurd (omega arith)
    read_clusters-Done (suc fuel) c [] skipped r same chain enough at room small =
        subst (Done (bytes_at r.remaining (r.offset - skipped) (content dev works s [])) r)
          (sym (read_clusters-stop fuel c skipped r (rw chain refl)))
          (Done-now (r.offset - skipped) (content dev works s []) r same (grind arith))
    read_clusters-Done (suc fuel) c (x ∷ cs) skipped r same (here, valid, rest) enough at room
          small =
        subst
          (λ (y : ℕ).
            Done (bytes_at r.remaining (r.offset - skipped) (content dev works s (y ∷ cs))) r
              (read_clusters dev (suc fuel) c skipped r))
          here
          (elim (Bool-cases (r.remaining == 0)) [
            | inl e ↦
                subst
                  (Done (bytes_at r.remaining (r.offset - skipped) (content dev works s (c ∷ cs)))
                    r)
                  (sym (read_clusters-stop fuel c skipped r (rw (valid, e) refl)))
                  (Done-now (r.offset - skipped) (content dev works s (c ∷ cs)) r same
                    (ground arith))
            | inr e ↦
                let copied =
                  read_cluster-Copied dev works s c skipped r clusters same (omega arith) at in
                let low : skipped ≤ r.offset = elim at [
                  | inl z ↦ absurd (ground arith)
                  | inr l ↦ l
                ] in
                let t = beyond fuel c skipped r in
                let left : t.remaining ≡ r.remaining - copied.count =
                  omega (arith, copied.remaining) in
                let moved =
                  min-moved skipped r.offset r.remaining s.geometry.bytes_per_clus copied.count
                    t.offset t.remaining low copied.enough copied.offset copied.remaining in
                let ih =
                  read_clusters-Done fuel (entry dev works s c) cs
                    (skipped + s.geometry.bytes_per_clus) t (SameDisk-fat_get _ c copied.same) rest
                    (omega arith) moved
                    (omega (
                      arith,
                      copied.offset,
                      copied.remaining,
                      suc_room (length cs) s.geometry.bytes_per_clus,
                    ))
                    (omega (arith, copied.offset, copied.remaining)) in
                record {
                  last = ih.last;
                  ends =
                      read_clusters-go fuel c skipped r (rw (valid, e) refl) copied.good copied.same
                      ∙ ih.ends;
                  out =
                      ih.out
                      ∙ ap₂
                          (λ (l : List ℕ) (x : ℕ).
                            l
                            ++ bytes_at x (t.offset - (skipped + s.geometry.bytes_per_clus))
                                (content dev works s cs))
                          copied.out left
                      ∙ append_assoc r.out _ _
                      ∙ ap (λ (l : List ℕ). r.out ++ l)
                          (content-split dev works s c cs r.remaining (r.offset - skipped)
                            copied.count _ copied.enough
                            (elim moved [
                              | inl z ↦ inl (omega arith)
                              | inr l ↦ inr (omega (arith, copied.offset))
                            ]));
                  remaining = ih.remaining;
                  same = ih.same;
                }
          ])

module _ {D : Type 0} (dev : BlockDevice D) (works : Works dev) where
  -- The length of what is read: `len`, cut to what the file has behind `offset`.
  abbrev pub read_length : ℕ → ℕ → ℕ → Fs D → ℕ
  read_length node offset len s = min len ((inode_of node s).file_size - offset)

  -- On a disk that works, for the node of a file whose chain of clusters `cs` has room for its
  -- size of less than 2^32, and fuel for more clusters than the chain has: `fat32_read` returns
  -- the number of bytes from `offset` to the end of the file or `len`, whichever is less, the
  -- bytes are those at these places in the clusters of the chain, one after the other, and the
  -- disk has the bytes it had.
  pub fat32_read-content :
      (fuel node offset len : ℕ) (cs : List ℕ) (s : Fs D)
      → HasClusters s.fat.geometry
      → node ≢ 0
      → (s.nodes node).type ≡ vfs_file
      → Chain (entry dev works s.fat) (inode_of node s).first_cluster cs
      → (inode_of node s).file_size ≤ length cs * s.fat.geometry.bytes_per_clus
      → (inode_of node s).file_size < 2 ^ 32
      → length cs < fuel
      → (f : Fat D) × ((fat32_read dev fuel node offset len s
            ≡ ok (
              (
                pos (read_length node offset len s),
                bytes_at (read_length node offset len s) offset (content dev works s.fat cs),
              ),
              record s { fat = f },
            ))
          × SameDisk dev works s.fat f)
  unfolding fat32_read bytes_at
  fat32_read-content fuel node offset len cs s clusters real file chain room small enough =
      elim (Bool-cases (leb (inode_of node s).file_size offset)) [
        | inl past ↦
            let none_left : read_length node offset len s ≡ 0 = ground arith in
            (
              s.fat,
              (
                rw (eq_false node 0 real, file, past, none_left) refl,
                record { geometry = refl; bytes = λ l i h. refl },
              ),
            )
        | inr within ↦
            let start : Reading D = record {
              fat = s.fat;
              out = [];
              offset = offset;
              remaining = read_length node offset len s;
              clus_off = 0;
            } in
            let n = read_length node offset len s in
            let bound : offset + n ≤ (inode_of node s).file_size = ground arith in
            let done =
              read_clusters-Done dev works s.fat clusters fuel (inode_of node s).first_cluster cs 0
                start (record { geometry = refl; bytes = λ l i h. refl }) chain enough
                (inr (omega arith)) (omega (arith, bound, room)) (omega (arith, bound, small)) in
            (
              done.last.fat,
              (
                rw (eq_false node 0 real, file, within, done.ends, done.remaining)
                    (ap₂ (λ (m : ℕ) (l : List ℕ). ok ((pos m, l), record s { fat = done.last.fat }))
                      (omega arith)
                      (done.out
                        ∙ ap (λ (x : ℕ). bytes_at n x (content dev works s.fat cs)) (omega arith))),
                done.same,
              ),
            )
      ]
