-- ===== src/Ramfs/Write.antt =====
-- What `ramfs_write` of kernel/ramfs.c does to a file, and that `ramfs_read` gives it back.
use lons_os.Base.{
  ℕ, ◌+◌, ◌-◌, ◌≤◌, ◌<◌, ◌==◌, ◌&&◌, ◌||◌, not, ◌≡◌, ◌⊎◌, ◌^◌, true, false, refl, sym, ap, ◌∙◌,
  subst, arith, List, [], ◌∷◌, if◌then◌else◌, length, get_or, ltb, leb, inl, inr, Bool-cases,
  if_elim, eq_false, ltb→lt, ltb→le, lt→ltb,
}
use lons_os.Machine.{u64}
use lons_os.Machine.Signed.{ℤ, pos}
use lons_os.Vfs.{vfs_file, err_nospace}
use lons_os.Heap.{Heap, Run, ok, ◌>>=◌, kmalloc, align_size}
use lons_os.Heap.Chain.{Block}
use lons_os.Heap.Usage.{InUse, InUse-bounds}
use lons_os.Heap.Malloc.{AllSmaller, Serves, kmalloc_lem}
use lons_os.Ramfs.{
  Ramfs, inode_of, max_filesize, grown_capacity, on_heap, move_data, store_bytes, ramfs_write,
  ramfs_read,
}
use lons_os.Ramfs.Capacity.{grown_capacity_lem}
use lons_os.Ramfs.Bytes.{get_bytes-list}
use lons_os.Ramfs.Store.{
  FileIn, file_byte, written, new_size, Kept, Wrote, store_bytes-Stored, store-Wrote,
}
use lons_os.Ramfs.Grow.{Grew, move_data-Grew}

-- The bytes at the place of the write are those of the buffer.
written-lem :
    (offset i : ℕ) (buf : List ℕ) (old : ℕ → ℕ)
    → i < length buf
    → written offset buf old (offset + i) ≡ get_or buf i 0
written-lem offset i buf old h =
    let inside : (leb offset (offset + i) && ltb (offset + i) (offset + length buf)) ≡ true =
      ground arith in
    rw inside (ap (λ j. get_or buf j 0) (omega arith))

nothing_read :
    (buf : List ℕ) → length buf ≡ 0 → ◌≡◌ {A = ℤ × List ℕ} (pos 0, []) (pos (length buf), buf)
nothing_read [] e = refl
nothing_read (b ∷ bs) e = absurd (omega arith)

module _ (node offset : ℕ) (buf : List ℕ) (bs : List Block) (s t : Ramfs)
    (w : Wrote node offset buf bs s t) where
  long_enough : offset + length buf ≤ (inode_of node t).size
  long_enough = subst (λ n. offset + length buf ≤ n) (sym w.size) (ground arith)

  mem_lem :
      (i : ℕ)
      → i < length buf
      → t.heap.mem ((inode_of node t).data_at + offset + i) ≡ get_or buf i 0
  mem_lem i h =
      let inside : ltb (offset + i) (inode_of node t).size ≡ true =
        lt→ltb _ _ (omega (arith, long_enough)) in
      ap t.heap.mem {y = (inode_of node t).data_at + (offset + i)} (omega arith)
      ∙ sym (rw inside refl)
      ∙ w.bytes (offset + i)
      ∙ written-lem offset i buf (file_byte node s) h

  -- The bytes written are read back.
  ramfs_read-Wrote : ramfs_read node offset (length buf) t ≡ (pos (length buf), buf)
  unfolding ramfs_read
  ramfs_read-Wrote =
      let size = (inode_of node t).size in
      let available = size - offset in
      let is_file : (node == 0 || not ((t.nodes node).type == vfs_file)) ≡ false =
        ground (arith, w.file.real, w.file.type) in
      let to_read : (if ltb (length buf) available then length buf else available) ≡ length buf =
        ground (arith, long_enough) in
      rw (is_file, to_read)
        (elim (Bool-cases (leb size offset)) [
          | inl end ↦ rw end (nothing_read buf (ground (arith, long_enough)))
          | inr more ↦ rw more (
              ap (λ l. (pos (length buf), l))
                (get_bytes-list buf ((inode_of node t).data_at + offset) t.heap.mem mem_lem))
        ])

-- A write to the file as it has grown is one to the file before.
module _ (node offset : ℕ) (buf : List ℕ) (cap : ℕ) (bs : List Block) (s u t : Ramfs)
    (f : FileIn node bs s) (g : Grew node cap bs s u) (w : Wrote node offset buf g.blocks u t) where
  grown_others : Kept (inode_of node s).data_at bs s w.blocks t
  grown_others q n used ne =
      let (used1, same1) = g.others q n used ne in
      let (used2, same2) =
        w.others q n used1 (λ e. g.fresh n (subst (λ p. InUse s.heap.heap_start bs p n) e used)) in
      (used2, λ i lt. same2 i lt ∙ same1 i lt)

  Grew-Wrote : Wrote node offset buf bs s t
  Grew-Wrote = record {
    blocks = w.blocks;
    file = w.file;
    size = w.size ∙ ap (λ n. new_size n (offset + length buf)) g.size;
    bytes = λ i.
        w.bytes i
        ∙ ap
            (λ old.
              if leb offset i && ltb i (offset + length buf)
              then get_or buf (i - offset) 0
              else old)
            (g.bytes i);
    others = grown_others;
  }

-- The outcomes of a write. It is done, and a read of the place gives the bytes back; or there is no
-- space, for a file that is too long or for want of a free block, and nothing has changed.
abbrev pub Writes : ℕ → ℕ → List ℕ → List Block → Ramfs → Run (ℤ × Ramfs) → Type 0
Writes node offset buf bs s r =
    ((t : Ramfs) × (r ≡ ok (pos (length buf), t))
      × Wrote node offset buf bs s t
      × (ramfs_read node offset (length buf) t ≡ (pos (length buf), buf)))
    ⊎ ((r ≡ ok (err_nospace, s))
        × ((max_filesize < offset + length buf)
            ⊎ AllSmaller
                (align_size (grown_capacity (inode_of node s).capacity (offset + length buf))) bs))

module _ (node offset : ℕ) (buf : List ℕ) (bs : List Block) (s : Ramfs) (f : FileIn node bs s)
    (small : offset + length buf < 2 ^ 64) where
  abbrev end : ℕ
  end = offset + length buf

  abbrev at : ℕ
  at = (s.nodes node).fs_data

  abbrev new_cap : ℕ
  new_cap = grown_capacity (inode_of node s).capacity end

  done :
      (r : Run (ℤ × Ramfs)) (t : Ramfs)
      → r ≡ ok (pos (length buf), t)
      → Wrote node offset buf bs s t
      → Writes node offset buf bs s r
  done r t e w = inl (t, e, w, ramfs_read-Wrote node offset buf bs s t w)

  -- In the buffer as it is.
  in_place :
      end ≤ (inode_of node s).capacity → Wrote node offset buf bs s (store_bytes node offset buf s)
  in_place room =
      store-Wrote node offset buf bs s _ f (store_bytes-Stored node offset buf s small) room

  abbrev grow : Run (ℕ × Heap) → Run (ℤ × Ramfs)
  grow r = on_heap s r >>= λ (new_data, t).
      if new_data == 0
      then ok (err_nospace, t)
      else (move_data at new_cap new_data t >>= λ u.
          ok (pos (length buf), store_bytes node offset buf u))

  grow-Writes :
      (ptr : ℕ) (k : Heap)
      → end ≤ max_filesize
      → (inode_of node s).capacity < end
      → Serves s.heap bs new_cap (ptr, k)
      → Writes node offset buf bs s (grow (ok (ptr, k)))
  grow-Writes ptr k short longer (inl (null, same, none_fits)) =
      inr (rw null (ap (λ h. ok (err_nospace, record s { heap = h })) same), inr none_fits)
  grow-Writes ptr k short longer (inr g) =
      let caps = grown_capacity_lem (inode_of node s).capacity end short in
      let (u, run, grew) =
        move_data-Grew node new_cap ptr bs s k f g (omega (arith, caps, f.sized)) caps.1 in
      let w =
        store-Wrote node offset buf grew.blocks u _ grew.file
          (store_bytes-Stored node offset buf u small)
          (subst (λ c. end ≤ c) (sym grew.capacity) caps.0) in
      let bounds = InUse-bounds s.heap.heap_start g.blocks ptr g.allotted.size g.allotted.granted in
      done (grow (ok (ptr, k))) (store_bytes node offset buf u)
        (rw (eq_false ptr 0 (omega (arith, bounds, f.heap.start_pos)), run) refl)
        (Grew-Wrote node offset buf new_cap bs s u _ f grew w)

  grow-kmalloc :
      end ≤ max_filesize
      → (inode_of node s).capacity < end
      → Writes node offset buf bs s (grow (kmalloc new_cap s.heap))
  grow-kmalloc short longer =
      let caps = grown_capacity_lem (inode_of node s).capacity end short in
      let (out, run, served) =
        kmalloc_lem s.heap bs new_cap f.heap f.compact (omega (arith, caps))
          (omega (arith, caps)) in
      subst (λ r. Writes node offset buf bs s (grow r)) (sym run)
        (grow-Writes out.0 out.1 short longer served)

  -- A write to a file that lies in a compact heap, with an end below 2^64, ends. Either it returns
  -- the length of the buffer, and then the file lies in a compact heap again, its bytes at the place of
  -- the write are the buffer's, the others are those of before, 0 behind the old end, a read
  -- of the place gives the buffer back, and every other block in use is there with its bytes; or it
  -- returns NOSPACE and has changed nothing, where the end lies behind the largest file or all
  -- free blocks are smaller than the new capacity.
  pub ramfs_write-Writes : Writes node offset buf bs s (ramfs_write node offset buf s)
  unfolding ramfs_write
  ramfs_write-Writes =
      let is_file : (node == 0 || not ((s.nodes node).type == vfs_file)) ≡ false =
        ground (arith, f.real, f.type) in
      let same_end : u64 end ≡ end = omega arith in
      rw (is_file, same_end)
        (if_elim (Writes node offset buf bs s) (ltb max_filesize end) (ok (err_nospace, s))
          (if ltb (inode_of node s).capacity end
            then grow (kmalloc new_cap s.heap)
            else ok (pos (length buf), store_bytes node offset buf s))
          (λ long. inr (refl, inl (ltb→lt _ _ long)))
          (λ short.
            if_elim (Writes node offset buf bs s) (ltb (inode_of node s).capacity end)
              (grow (kmalloc new_cap s.heap)) (ok (pos (length buf), store_bytes node offset buf s))
              (λ longer. grow-kmalloc (ltb→le _ _ short) (ltb→lt _ _ longer))
              (λ fits. done _ _ refl (in_place (ltb→le _ _ fits)))))
