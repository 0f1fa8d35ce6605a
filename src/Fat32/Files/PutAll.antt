-- ===== src/Fat32/Files/PutAll.antt =====
-- What the loop of `fat32_write` of kernel/fat32.c puts on the disk, along the clusters of a file.
use lons_os.Base.{
  ℕ, zero, suc, ◌+◌, ◌-◌, ◌*◌, ◌/◌, ◌%◌, ◌^◌, ◌<◌, ◌≤◌, ◌==◌, ◌≡◌, ◌≢◌, inl, inr, refl, sym, subst,
  ap, ◌∙◌, arith, Bool, true, false, List, [], ◌∷◌, length, take, length-drop, Bool-cases, ==→eq,
  Option, some,
}
use lons_os.Machine.{u32}
use lons_os.Heap.{Run, ok}
use lons_os.Fat32.{BlockDevice, Fat, Geometry, cluster_to_lba, fat_get}
use lons_os.Fat32.Disk.{Works}
use lons_os.Fat32.Entries.{next_or_new}
use lons_os.Fat32.Table.{fat_get-SameDisk}
use lons_os.Fat32.Files.{Writing, write_sectors, write_clusters}
use lons_os.Fat32.Files.Content.{HasClusters, suc_room}
use lons_os.Fat32.Files.Copy.{min}
use lons_os.Fat32.Files.Overlay.{overlaid, AllBytes, AllBytes-drop}
use lons_os.Fat32.Files.Put.{Put, write_sectors-Put}
use lons_os.Fat32.Files.Linked.{
  Linked, InData, SameTable, SameTable-entry, next_or_new-Linked, SameTable-trans,
  SameDisk-SameTable, Linked-SameTable,
}
use lons_os.Fat32.Files.Parts.{PutAll, last-PutAll, next-PutAll}

module _ {D : Type 0} (dev : BlockDevice D) (works : Works dev) where
  overlaid-below : (p x old : ℕ) (vs : List ℕ) → x < p → overlaid p vs x old ≡ old
  overlaid-below p x old vs h = ground arith

  Put-SameTable :
      (place room : ℕ) (w : Writing D) (out : Bool × Writing D)
      → w.fat.geometry.data_lba * 512 ≤ place
      → w.fat.geometry.data_lba ≤ 2 ^ 28
      → Put dev works place room w out
      → SameTable dev works w.fat out.1.fat
  Put-SameTable place room w out above below p = record {
    geometry = p.geometry;
    bytes = λ l i low h.
        p.bytes l i (omega arith) h
        ∙ overlaid-below place (l * 512 + i) _ (take (min (length w.src) room) w.src) (omega arith);
  }

  abbrev cluster_out : ℕ → ℕ → Writing D → Bool × Writing D
  cluster_out c base w =
      let off = u32 (w.file_offset - base) in
      write_sectors dev (w.fat.geometry.sectors_per_clus - off / 512) (off / 512) (off % 512)
        (cluster_to_lba c w.fat.geometry) w

  -- One cluster.
  cluster_out-Put :
      (c base off : ℕ) (w : Writing D)
      → HasClusters w.fat.geometry
      → AllBytes w.src
      → off ≡ w.file_offset - base
      → off < w.fat.geometry.bytes_per_clus
      → cluster_to_lba c w.fat.geometry + w.fat.geometry.sectors_per_clus ≤ 2 ^ 28
      → Put dev works
          (cluster_to_lba c w.fat.geometry * 512 + off)
          (w.fat.geometry.bytes_per_clus - off)
          w
          (cluster_out c base w)
  cluster_out-Put c base off w g all e inside fits =
      let n = w.fat.geometry.sectors_per_clus in
      let lba = cluster_to_lba c w.fat.geometry in
      let same : u32 (w.file_offset - base) ≡ off = omega (arith, e, g.bytes, g.small) in
      let place : (lba + off / 512) * 512 + off % 512 ≡ lba * 512 + off = omega arith in
      let room : (n - off / 512) * 512 - off % 512 ≡ w.fat.geometry.bytes_per_clus - off =
        omega (arith, g.bytes) in
      rw same (
        subst
          (λ r.
            Put dev works (lba * 512 + off) r w
              (write_sectors dev (n - off / 512) (off / 512) (off % 512) lba w))
          room
          (subst
            (λ p.
              Put dev works p ((n - off / 512) * 512 - off % 512) w
                (write_sectors dev (n - off / 512) (off / 512) (off % 512) lba w))
            place
            (write_sectors-Put dev works (n - off / 512) (off / 512) (off % 512) lba w all
              (omega arith) (omega (arith, g.bytes)))))

  step_last :
      (fuel c base : ℕ) (w : Writing D)
      → (length w.src == 0) ≡ false
      → (cluster_out c base w).0 ≡ true
      → (length (cluster_out c base w).1.src == 0) ≡ true
      → write_clusters dev (suc fuel) c base w ≡ ok (cluster_out c base w).1
  unfolding write_clusters
  step_last fuel c base w some_bytes good last = rw (some_bytes, good, last) refl

  step_next :
      (fuel c base d : ℕ) (w : Writing D) (f : Fat D)
      → (length w.src == 0) ≡ false
      → (cluster_out c base w).0 ≡ true
      → (length (cluster_out c base w).1.src == 0) ≡ false
      → next_or_new dev c (cluster_out c base w).1.fat ≡ (some d, f)
      → write_clusters dev (suc fuel) c base w
        ≡ write_clusters dev fuel d
            (base + w.fat.geometry.bytes_per_clus)
            (record ((cluster_out c base w).1) { fat = f })
  unfolding write_clusters
  step_next fuel c base d w f some_bytes good more next =
      rw (some_bytes, good, more, next)
        (ap
          (λ (x : Option ℕ × Fat D).
            write_clusters dev fuel d (base + w.fat.geometry.bytes_per_clus)
              (record ((cluster_out c base w).1) { fat = x.1 }))
          next)

  abbrev pub Ends : ℕ → List ℕ → Writing D → Run (Writing D) → Type 0
  Ends off cs w r = (t : Writing D) × (r ≡ ok t) × PutAll dev works off cs w t

  last-Ends :
      (fuel c base off : ℕ) (cs : List ℕ) (w : Writing D)
      → Put dev works
          (cluster_to_lba c w.fat.geometry * 512 + off)
          (w.fat.geometry.bytes_per_clus - off)
          w
          (cluster_out c base w)
      → 0 < length w.src
      → length (cluster_out c base w).1.src ≡ 0
      → Ends off (c ∷ cs) w (write_clusters dev (suc fuel) c base w)
  last-Ends fuel c base off cs w p filled last = (
    (cluster_out c base w).1,
    step_last fuel c base w (ground arith) p.done (ground arith),
    last-PutAll dev works off c cs w (cluster_out c base w) p last,
  )

  -- All of it fits into one cluster.
  fits_here : (len b off : ℕ) → off + len ≤ suc 0 * b → len - min len (b - off) ≡ 0
  fits_here len b off h = ground arith

  -- The cluster is filled to its end if bytes are left.
  more_left :
      (len b off left : ℕ)
      → left ≡ len - min len (b - off)
      → left ≢ 0
      → (min len (b - off) ≡ b - off) × (left + (b - off) ≡ len)
  more_left len b off left e ne = ground arith

  pub room_left :
      (len left b off n : ℕ)
      → left + (b - off) ≡ len
      → off < b
      → off + len ≤ suc n * b
      → 0 + left ≤ n * b
  room_left len left b off n e inside room = grind (arith, suc_room n b)

  -- On a disk that works, for a source that is not empty and fits into the clusters from the one at hand
  -- on, which follow each other in a table that lies before the data, with the offset in the first
  -- of them: `length cs + 1` rounds are enough, and the loop ends with every byte of the source in
  -- its place, all of them counted, and all other bytes of the disk as before.
  pub write_clusters-PutAll :
      (fuel c base off : ℕ) (cs : List ℕ) (w : Writing D)
      → HasClusters w.fat.geometry
      → Linked dev works w.fat c cs
      → InData dev works w.fat.geometry (c ∷ cs)
      → AllBytes w.src
      → 0 < length w.src
      → w.file_offset ≡ base + off
      → off < w.fat.geometry.bytes_per_clus
      → off + length w.src ≤ suc (length cs) * w.fat.geometry.bytes_per_clus
      → length cs < fuel
      → Ends off (c ∷ cs) w (write_clusters dev fuel c base w)
  write_clusters-PutAll zero c base off cs w g linked located all filled at inside room enough =
      absurd (omega arith)
  write_clusters-PutAll (suc fuel) c base off [] w g linked (low, high, located) all filled at
        inside room enough =
      let p = cluster_out-Put c base off w g all (omega arith) inside high in
      last-Ends fuel c base off [] w p filled (
        omega (
          arith,
          ap length p.src,
          length-drop (min (length w.src) (w.fat.geometry.bytes_per_clus - off)) w.src,
          fits_here (length w.src) (w.fat.geometry.bytes_per_clus) off room,
        ))
  write_clusters-PutAll (suc fuel) c base off (d ∷ ds) w g (e, short, before, linked)
        (low, high, located) all filled at inside room enough =
      let out = cluster_out c base w in
      let bytes = w.fat.geometry.bytes_per_clus in
      let p = cluster_out-Put c base off w g all (omega arith) inside high in
      elim (Bool-cases (length out.1.src == 0)) [
        | inl last ↦ last-Ends fuel c base off (d ∷ ds) w p filled (==→eq _ _ last)
        | inr more ↦
            let t = out.1.fat in
            let f = (fat_get dev c t).1 in
            let u : Writing D = record (out.1) { fat = f } in
            let same = Put-SameTable _ _ w out (omega (arith, low)) (omega (arith, low, high)) p in
            let kept = fat_get-SameDisk dev works c t in
            let geo : f.geometry ≡ w.fat.geometry = kept.geometry ∙ p.geometry in
            let moved =
              more_left (length w.src) bytes off (length u.src)
                (ap length p.src ∙ length-drop _ w.src) (ground arith) in
            let (end, run, q) =
              write_clusters-PutAll fuel d (base + bytes) 0 ds u (subst HasClusters (sym geo) g)
                (Linked-SameTable dev works w.fat f d ds
                  (SameTable-trans dev works w.fat t f same (SameDisk-SameTable dev works t f kept))
                  linked)
                (subst (λ k. InData dev works k (d ∷ ds)) (sym geo) located)
                (subst AllBytes (sym p.src) (AllBytes-drop _ w.src all)) (ground arith)
                (p.file_offset ∙ omega (arith, at, moved))
                (subst (λ (k : Geometry). 0 < k.bytes_per_clus) (sym geo) (omega arith))
                (subst (λ (k : Geometry). 0 + length u.src ≤ suc (length ds) * k.bytes_per_clus)
                  (sym geo)
                  (room_left (length w.src) (length u.src) bytes off (suc (length ds)) moved.1
                    inside room))
                (omega arith) in
            (
              end,
              step_next fuel c base d w f (ground arith) p.done more (
                    next_or_new-Linked dev works c d t
                      (SameTable-entry dev works w.fat t c same before ∙ e) short)
                  ∙ run,
              next-PutAll dev works off c (d ∷ ds) w u end out p refl refl kept q,
            )
      ]
