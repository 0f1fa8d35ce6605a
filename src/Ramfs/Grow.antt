-- ===== src/Ramfs/Grow.antt =====
-- The growth of a file's buffer in kernel/ramfs.c: the new block, the copy and the release.
use lons_os.Base.{
  ℕ, ◌+◌, ◌≤◌, ◌<◌, ◌≡◌, ◌≢◌, ◌⊎◌, refl, sym, ap, ◌∙◌, subst, arith, List, ◌∷◌, ◌++◌, ltb, inl, inr,
  Bool-cases, eq_false, ltb→lt,
}
use lons_os.Machine.{write, Memory}
use lons_os.Heap.{Heap, Headers, ok, header_size}
use lons_os.Heap.Chain.{Block, span, IsHeap}
use lons_os.Heap.Spec.{release}
use lons_os.Heap.Release.{kfree_refines}
use lons_os.Heap.Compact.{Compact, release-Compact}
use lons_os.Heap.Usage.{InUse, InUse-apart, InUse-bounds}
use lons_os.Heap.Malloc.{Granted}
use lons_os.Heap.Held.{Stands, InUse-Stands, release-InUse}
use lons_os.Ramfs.{Ramfs, Inode, inode_of, max_filesize, r_memset, r_memcpy, move_data}
use lons_os.Ramfs.Bytes.{Apart, r_memset-apart, r_memset-inside, r_memcpy-apart, r_memcpy-inside}
use lons_os.Ramfs.Store.{FileIn, file_byte, Kept, write_self}

-- The memory after the new buffer is cleared and the old bytes are copied.
abbrev moved : ℕ → ℕ → ℕ → ℕ → Memory → Memory
moved ptr cap old size m = r_memcpy ptr old size (r_memset ptr 0 cap m)

moved-copied :
    (ptr cap old size i : ℕ) (m : Memory)
    → i < size
    → size ≤ cap
    → Apart ptr cap old size
    → moved ptr cap old size m (ptr + i) ≡ m (old + i)
moved-copied ptr cap old size i m h fits apart =
    r_memcpy-inside size ptr old i (r_memset ptr 0 cap m) h (closer apart)
    ∙ r_memset-apart cap ptr 0 (old + i) m (outside apart)
  where
    closer : Apart ptr cap old size → Apart ptr size old size
    closer (inl a) = inl (omega arith)
    closer (inr a) = inr (omega arith)

    outside : Apart ptr cap old size → (old + i < ptr) ⊎ (ptr + cap ≤ old + i)
    outside (inl a) = inr (omega arith)
    outside (inr a) = inl (omega arith)

moved-clear :
    (ptr cap old size i : ℕ) (m : Memory)
    → size ≤ i
    → i < cap
    → moved ptr cap old size m (ptr + i) ≡ 0
moved-clear ptr cap old size i m low high =
    r_memcpy-apart size ptr old (ptr + i) (r_memset ptr 0 cap m) (inr (omega arith))
    ∙ r_memset-inside cap ptr 0 i m high

moved-apart :
    (ptr cap old size x : ℕ) (m : Memory)
    → size ≤ cap
    → (x < ptr) ⊎ (ptr + cap ≤ x)
    → moved ptr cap old size m x ≡ m x
moved-apart ptr cap old size x m fits (inl h) =
    r_memcpy-apart size ptr old x (r_memset ptr 0 cap m) (inl (omega arith))
    ∙ r_memset-apart cap ptr 0 x m (inl h)
moved-apart ptr cap old size x m fits (inr h) =
    r_memcpy-apart size ptr old x (r_memset ptr 0 cap m) (inr (omega arith))
    ∙ r_memset-apart cap ptr 0 x m (inr h)

-- After the growth to `cap` bytes: the same file with that capacity, at a block that was not in use,
-- and the other blocks.
pub record Grew (node cap : ℕ) (bs : List Block) (s u : Ramfs) : Type 0 where
  pub blocks : List Block
  pub file : FileIn node blocks u
  pub size : (inode_of node u).size ≡ (inode_of node s).size
  pub capacity : (inode_of node u).capacity ≡ cap
  pub bytes : (i : ℕ) → file_byte node u i ≡ file_byte node s i
  pub others : Kept (inode_of node s).data_at bs s blocks u
  pub fresh : (n : ℕ) → InUse s.heap.heap_start bs (inode_of node u).data_at n → ⊥
  pub same_node : u.nodes ≡ s.nodes

-- The inode of the file after the growth.
abbrev grown : ℕ → ℕ → Inode → Inode
grown ptr cap inode = record inode { data_at = ptr; capacity = cap }

-- The state at the end of the growth, by the headers that the release leaves.
abbrev grown_state : ℕ → ℕ → ℕ → Heap → Headers → Ramfs → Ramfs
grown_state node ptr cap k h s = record s {
  heap = record k {
    headers = h;
    mem = moved ptr cap (inode_of node s).data_at (inode_of node s).size k.mem;
  };
  inodes = write s.inodes (s.nodes node).fs_data (grown ptr cap (inode_of node s));
}

module _ (node cap ptr : ℕ) (bs : List Block) (s : Ramfs) (k : Heap) (f : FileIn node bs s)
    (g : Granted s.heap bs cap ptr k) (fits : (inode_of node s).size ≤ cap)
    (small : cap ≤ max_filesize) where
  abbrev old : ℕ
  old = (inode_of node s).data_at

  abbrev start : ℕ
  start = s.heap.heap_start

  -- The new block is another one than any that was in use, and apart from it.
  new_block_apart :
      (q n : ℕ) → InUse start bs q n → (ptr + cap + header_size ≤ q) ⊎ (q + n + header_size ≤ ptr)
  new_block_apart q n u = apart_of (
      InUse-apart start g.blocks ptr g.allotted.size q n g.allotted.granted (g.allotted.kept q n u))
    where
      apart_of :
          ((ptr ≡ q) × (g.allotted.size ≡ n))
            ⊎ (ptr + g.allotted.size + header_size ≤ q)
            ⊎ (q + n + header_size ≤ ptr)
          → (ptr + cap + header_size ≤ q) ⊎ (q + n + header_size ≤ ptr)
      apart_of (inl same) =
          absurd (g.allotted.fresh n (subst (λ p. InUse start bs p n) (sym same.0) u))
      apart_of (inr (inl after)) = inl (omega (arith, g.allotted.enough))
      apart_of (inr (inr before)) = inr before

  old-Apart : Apart ptr cap old (inode_of node s).size
  old-Apart = apart_of (new_block_apart old f.room f.held)
    where
      apart_of :
          (ptr + cap + header_size ≤ old) ⊎ (old + f.room + header_size ≤ ptr)
          → Apart ptr cap old (inode_of node s).size
      apart_of (inl after) = inl (omega arith)
      apart_of (inr before) = inr (omega (arith, f.sized, f.fits))

  stands : Stands start g.blocks old f.room
  stands = InUse-Stands start g.blocks old f.room (g.allotted.kept old f.room f.held)

  abbrev blocks_after : List Block
  blocks_after = release stands.before stands.it stands.behind

  -- A block in use other than the old one is still there after the release.
  still-InUse : (q n : ℕ) → q ≢ old → InUse start g.blocks q n → InUse start blocks_after q n
  still-InUse q n ne u =
      release-InUse start stands.before stands.it stands.behind q n (λ e. ne (e ∙ sym stands.place))
        (subst (λ l. InUse start l q n) stands.whole u)

  module _ (h : Headers)
      (released : IsHeap (grown_state node ptr cap k h s).heap blocks_after) where
    abbrev u : Ramfs
    u = grown_state node ptr cap k h s

    inode_lem : inode_of node u ≡ grown ptr cap (inode_of node s)
    inode_lem = write_self s.inodes (s.nodes node).fs_data (grown ptr cap (inode_of node s))

    mem_lem : (x : ℕ) → k.mem x ≡ s.heap.mem x
    mem_lem x = ap (λ m. m x) g.same_bytes

    copied_lem : (i : ℕ) → i < (inode_of node s).size → u.heap.mem (ptr + i) ≡ s.heap.mem (old + i)
    copied_lem i lt =
        moved-copied ptr cap old (inode_of node s).size i k.mem lt fits old-Apart
        ∙ mem_lem (old + i)

    others_lem : Kept old bs s blocks_after u
    others_lem q n used ne = (
      subst (λ a. InUse a blocks_after q n) (sym g.same_start)
          (still-InUse q n ne (g.allotted.kept q n used)),
      λ i lt.
          moved-apart ptr cap old (inode_of node s).size (q + i) k.mem fits
            (outside i lt (new_block_apart q n used))
          ∙ mem_lem (q + i),
    )
      where
        outside :
            (i : ℕ)
            → i < n
            → (ptr + cap + header_size ≤ q) ⊎ (q + n + header_size ≤ ptr)
            → (q + i < ptr) ⊎ (ptr + cap ≤ q + i)
        outside i lt (inl after) = inr (omega arith)
        outside i lt (inr before) = inl (omega arith)

    bytes_lem : (i : ℕ) → file_byte node u i ≡ file_byte node s i
    bytes_lem i = elim (Bool-cases (ltb i (inode_of node s).size)) [
      | inl inside ↦ rw (inode_lem, inside) (copied_lem i (ltb→lt _ _ inside))
      | inr behind ↦ rw (inode_lem, behind) refl
    ]

    ptr-InUse : InUse u.heap.heap_start blocks_after ptr g.allotted.size
    ptr-InUse =
        subst (λ a. InUse a blocks_after ptr g.allotted.size) (sym g.same_start)
          (still-InUse ptr g.allotted.size
            (λ e. g.allotted.fresh f.room (subst (λ p. InUse start bs p f.room) (sym e) f.held))
            g.allotted.granted)

    grew : Grew node cap bs s u
    grew = record {
      blocks = blocks_after;
      file = record {
        real = f.real;
        type = f.type;
        heap = released;
        compact =
            release-Compact stands.before stands.it stands.behind
              (subst Compact stands.whole g.compact);
        room = g.allotted.size;
        held =
            subst (λ (n : Inode). InUse u.heap.heap_start blocks_after n.data_at g.allotted.size)
              (sym inode_lem) ptr-InUse;
        fits =
            subst (λ (n : Inode). n.capacity ≤ g.allotted.size) (sym inode_lem) g.allotted.enough;
        sized = subst (λ (n : Inode). n.size ≤ n.capacity) (sym inode_lem) fits;
        bounded = subst (λ (n : Inode). n.capacity ≤ max_filesize) (sym inode_lem) small;
        clear =
            subst
              (λ (n : Inode).
                (i : ℕ) → n.size ≤ i → i < n.capacity → u.heap.mem (n.data_at + i) ≡ 0)
              (sym inode_lem)
              (λ i low high. moved-clear ptr cap old (inode_of node s).size i k.mem low high);
      };
      size = ap (λ (n : Inode). n.size) inode_lem;
      capacity = ap (λ (n : Inode). n.capacity) inode_lem;
      bytes = bytes_lem;
      others = others_lem;
      fresh =
          subst (λ (i : Inode). (n : ℕ) → InUse start bs i.data_at n → ⊥) (sym inode_lem)
            g.allotted.fresh;
      same_node = refl;
    }

  -- The heap that the old buffer is released from.
  abbrev copied_heap : Heap
  copied_heap = record k { mem = moved ptr cap old (inode_of node s).size k.mem }

  copied_heap-IsHeap : IsHeap copied_heap (stands.before ++ stands.it ∷ stands.behind)
  copied_heap-IsHeap =
      subst (λ l. IsHeap copied_heap l) stands.whole
        (record {
          chain = g.heap.chain;
          head = g.heap.head;
          filled = g.heap.filled;
          start_pos = g.heap.start_pos;
          bounded = g.heap.bounded;
        })

  -- The growth ends, in a state with the same file.
  pub move_data-Grew :
      (u : Ramfs) × (move_data (s.nodes node).fs_data cap ptr (record s { heap = k }) ≡ ok u)
      × Grew node cap bs s u
  unfolding move_data
  move_data-Grew =
      let (h, run, released) =
        kfree_refines copied_heap old stands.before stands.it stands.behind copied_heap-IsHeap
          stands.used
          (stands.place ∙ ap (λ a. a + span stands.before + header_size) (sym g.same_start)) in
      let bounds = InUse-bounds start bs old f.room f.held in
      (
        grown_state node ptr cap k h s,
        rw (eq_false old 0 (omega (arith, bounds, f.heap.start_pos)), run) refl,
        grew h released,
      )
