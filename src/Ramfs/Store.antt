-- ===== src/Ramfs/Store.antt =====
-- A file of kernel/ramfs.c in the heap, and what the end of `ramfs_write` does to it.
use lons_os.Base.{
  ℕ, ◌+◌, ◌-◌, ◌≤◌, ◌<◌, ◌&&◌, ◌≡◌, ◌≢◌, ◌⊎◌, ◌^◌, refl, sym, ap, ◌∙◌, subst, arith, List,
  if◌then◌else◌, length, get_or, ltb, leb, inl, inr, Bool-cases, ltb→lt, ltb→le,
}
use lons_os.Machine.{u64, write, Memory}
use lons_os.Vfs.{Node, vfs_file}
use lons_os.Heap.{Heap}
use lons_os.Heap.Chain.{Block, IsHeap}
use lons_os.Heap.Compact.{Compact}
use lons_os.Heap.Usage.{InUse, InUse-apart}
use lons_os.Ramfs.{Ramfs, Inode, inode_of, max_filesize, put_bytes, store_bytes}
use lons_os.Ramfs.Bytes.{put_bytes-apart, put_bytes-inside}

-- `node` is a file whose buffer is a block of the heap that is in use, and what is behind its
-- bytes in the buffer is 0.
pub record FileIn (node : ℕ) (bs : List Block) (s : Ramfs) : Type 0 where
  pub real : node ≢ 0
  pub type : (s.nodes node).type ≡ vfs_file
  pub heap : IsHeap s.heap bs
  pub compact : Compact bs
  pub room : ℕ
  pub held : InUse s.heap.heap_start bs (inode_of node s).data_at room
  pub fits : (inode_of node s).capacity ≤ room
  pub sized : (inode_of node s).size ≤ (inode_of node s).capacity
  pub bounded : (inode_of node s).capacity ≤ max_filesize
  pub clear :
      (i : ℕ)
      → (inode_of node s).size ≤ i
      → i < (inode_of node s).capacity
      → s.heap.mem ((inode_of node s).data_at + i) ≡ 0

-- Byte `i` of the file, 0 behind its end.
abbrev pub file_byte : ℕ → Ramfs → ℕ → ℕ
file_byte node s i =
    if ltb i (inode_of node s).size then s.heap.mem ((inode_of node s).data_at + i) else 0

-- Byte `i` once `buf` is written at `offset`.
abbrev pub written : ℕ → List ℕ → (ℕ → ℕ) → ℕ → ℕ
written offset buf old i =
    if leb offset i && ltb i (offset + length buf) then get_or buf (i - offset) 0 else old i

abbrev pub new_size : ℕ → ℕ → ℕ
new_size size end = if ltb size end then end else size

-- Another block in use is still in use, with the same bytes.
abbrev pub Kept : ℕ → List Block → Ramfs → List Block → Ramfs → Type 0
Kept at bs s cs t =
    (q n : ℕ)
    → InUse s.heap.heap_start bs q n
    → q ≢ at
    → InUse t.heap.heap_start cs q n × ((i : ℕ) → i < n → t.heap.mem (q + i) ≡ s.heap.mem (q + i))

-- After a write: the file in the blocks of the heap, its size, its bytes, and the other blocks.
pub record Wrote (node offset : ℕ) (buf : List ℕ) (bs : List Block) (s t : Ramfs) : Type 0 where
  pub blocks : List Block
  pub file : FileIn node blocks t
  pub size : (inode_of node t).size ≡ new_size (inode_of node s).size (offset + length buf)
  pub bytes : (i : ℕ) → file_byte node t i ≡ written offset buf (file_byte node s) i
  pub others : Kept (inode_of node s).data_at bs s blocks t

-- What `store_bytes` leaves, part by part.
pub record Stored (node offset : ℕ) (buf : List ℕ) (s t : Ramfs) : Type 0 where
  pub inode :
      inode_of node t
      ≡ record (inode_of node s) { size = new_size (inode_of node s).size (offset + length buf) }
  pub type : (t.nodes node).type ≡ (s.nodes node).type
  pub heap :
      t.heap
      ≡ record (s.heap) { mem = put_bytes ((inode_of node s).data_at + offset) buf s.heap.mem }

pub write_self : {A : Type 0} (m : ℕ → A) (a : ℕ) (v : A) → write m a v a ≡ v
write_self m a v = ground arith

pub store_bytes-Stored :
    (node offset : ℕ) (buf : List ℕ) (s : Ramfs)
    → offset + length buf < 2 ^ 64
    → Stored node offset buf s (store_bytes node offset buf s)
unfolding store_bytes
store_bytes-Stored node offset buf s small =
    let same : u64 (offset + length buf) ≡ offset + length buf = omega arith in
    rw same (elim (Bool-cases (ltb (inode_of node s).size (offset + length buf))) [
      | inl longer ↦ rw longer (record {
        inode = rw longer (
            ap (λ (m : Node). write s.inodes (s.nodes node).fs_data longer_inode m.fs_data)
              (write_self s.nodes node longer_node)
            ∙ write_self s.inodes (s.nodes node).fs_data longer_inode);
        type = ap (λ (m : Node). m.type) (write_self s.nodes node longer_node);
        heap = refl;
      })
      | inr not_longer ↦
          rw not_longer (record { inode = rw not_longer refl; type = refl; heap = refl })
    ])
  where
    longer_inode : Inode
    longer_inode = record (inode_of node s) { size = offset + length buf }

    longer_node : Node
    longer_node = record (s.nodes node) { size = offset + length buf }

-- A byte after the write, on the numbers alone.
byte_inside :
    (at size offset i : ℕ) (buf : List ℕ) (m : Memory) (old : ℕ → ℕ)
    → offset ≤ i
    → i < offset + length buf
    → (if ltb i (new_size size (offset + length buf))
        then put_bytes (at + offset) buf m (at + i)
        else 0)
      ≡ written offset buf old i
byte_inside at size offset i buf m old low high =
    let here : put_bytes (at + offset) buf m (at + i) ≡ get_or buf (i - offset) 0 =
      ap (put_bytes (at + offset) buf m) (omega arith)
      ∙ put_bytes-inside buf (at + offset) (i - offset) m (omega arith) in
    rw here (ground arith)

byte_outside :
    (at size cap offset i : ℕ) (buf : List ℕ) (m : Memory)
    → offset + length buf ≤ cap
    → (i < offset) ⊎ (offset + length buf ≤ i)
    → ((i : ℕ) → size ≤ i → i < cap → m (at + i) ≡ 0)
    → (if ltb i (new_size size (offset + length buf))
        then put_bytes (at + offset) buf m (at + i)
        else 0)
      ≡ written offset buf (λ i. if ltb i size then m (at + i) else 0) i
byte_outside at size cap offset i buf m room out clear =
    let there : put_bytes (at + offset) buf m (at + i) ≡ m (at + i) =
      put_bytes-apart buf (at + offset) (at + i) m (shifted out) in
    rw there (ground (arith, out, clear i))
  where
    shifted :
        (i < offset) ⊎ (offset + length buf ≤ i)
        → (at + i < at + offset) ⊎ (at + offset + length buf ≤ at + i)
    shifted (inl h) = inl (omega arith)
    shifted (inr h) = inr (omega arith)

byte_lem :
    (at size cap offset i : ℕ) (buf : List ℕ) (m : Memory)
    → offset + length buf ≤ cap
    → ((i : ℕ) → size ≤ i → i < cap → m (at + i) ≡ 0)
    → (if ltb i (new_size size (offset + length buf))
        then put_bytes (at + offset) buf m (at + i)
        else 0)
      ≡ written offset buf (λ i. if ltb i size then m (at + i) else 0) i
byte_lem at size cap offset i buf m room clear = elim (Bool-cases (ltb i offset)) [
  | inl below ↦ byte_outside at size cap offset i buf m room (inl (ltb→lt i offset below)) clear
  | inr above ↦ elim (Bool-cases (ltb i (offset + length buf))) [
    | inl inside ↦
        byte_inside at size offset i buf m (λ i. if ltb i size then m (at + i) else 0)
          (ltb→le i offset above) (ltb→lt _ _ inside)
    | inr behind ↦ byte_outside at size cap offset i buf m room (inr (ltb→le i _ behind)) clear
  ]
]

new_size-ge : (a b : ℕ) → (a ≤ new_size a b) × (b ≤ new_size a b)
new_size-ge a b = ground arith

new_size-le : (a b c : ℕ) → a ≤ c → b ≤ c → new_size a b ≤ c
new_size-le a b c h k = ground arith

module _ (node offset : ℕ) (buf : List ℕ) (bs : List Block) (s t : Ramfs) (f : FileIn node bs s)
    (st : Stored node offset buf s t)
    (room : offset + length buf ≤ (inode_of node s).capacity) where
  data_lem : (inode_of node t).data_at ≡ (inode_of node s).data_at
  data_lem = ap (λ (n : Inode). n.data_at) st.inode

  capacity_lem : (inode_of node t).capacity ≡ (inode_of node s).capacity
  capacity_lem = ap (λ (n : Inode). n.capacity) st.inode

  size_lem : (inode_of node t).size ≡ new_size (inode_of node s).size (offset + length buf)
  size_lem = ap (λ (n : Inode). n.size) st.inode

  start_lem : t.heap.heap_start ≡ s.heap.heap_start
  start_lem = ap (λ (h : Heap). h.heap_start) st.heap

  mem_lem : (x : ℕ) → t.heap.mem x ≡ put_bytes ((inode_of node s).data_at + offset) buf s.heap.mem x
  mem_lem x = ap (λ (h : Heap). h.mem x) st.heap

  heap_lem : IsHeap t.heap bs
  heap_lem =
      subst (λ h. IsHeap h bs) (sym st.heap)
        (record {
          chain = f.heap.chain;
          head = f.heap.head;
          filled = f.heap.filled;
          start_pos = f.heap.start_pos;
          bounded = f.heap.bounded;
        })

  held_lem : InUse t.heap.heap_start bs (inode_of node t).data_at f.room
  held_lem =
      subst (λ a. InUse a bs (inode_of node t).data_at f.room) (sym start_lem)
        (subst (λ p. InUse s.heap.heap_start bs p f.room) (sym data_lem) f.held)

  bytes_lem : (i : ℕ) → file_byte node t i ≡ written offset buf (file_byte node s) i
  bytes_lem i =
      rw (size_lem, data_lem, mem_lem ((inode_of node s).data_at + i))
        (byte_lem (inode_of node s).data_at (inode_of node s).size (inode_of node s).capacity offset
          i buf s.heap.mem room f.clear)

  -- Behind the end the bytes of the buffer are those of before.
  clear_lem :
      (i : ℕ)
      → (inode_of node t).size ≤ i
      → i < (inode_of node t).capacity
      → t.heap.mem ((inode_of node t).data_at + i) ≡ 0
  clear_lem i low high =
      let low1 = subst (λ n. n ≤ i) size_lem low in
      let grown = new_size-ge (inode_of node s).size (offset + length buf) in
      ap (λ p. t.heap.mem (p + i)) data_lem
      ∙ mem_lem ((inode_of node s).data_at + i)
      ∙ put_bytes-apart buf ((inode_of node s).data_at + offset) ((inode_of node s).data_at + i)
          s.heap.mem (inr (omega (arith, low1, grown)))
      ∙ f.clear i (omega (arith, low1, grown)) (subst (λ n. i < n) capacity_lem high)

  kept_lem : Kept (inode_of node s).data_at bs s bs t
  kept_lem q n u ne = (
    subst (λ a. InUse a bs q n) (sym start_lem) u,
    λ i h.
        mem_lem (q + i)
        ∙ put_bytes-apart buf ((inode_of node s).data_at + offset) (q + i) s.heap.mem (
            apart_lem i h
              (InUse-apart s.heap.heap_start bs (inode_of node s).data_at f.room q n f.held u)),
  )
    where
      apart_lem :
          (i : ℕ)
          → i < n
          → (((inode_of node s).data_at ≡ q) × (f.room ≡ n))
            ⊎ ((inode_of node s).data_at + f.room + 29 ≤ q)
            ⊎ (q + n + 29 ≤ (inode_of node s).data_at)
          → (q + i < (inode_of node s).data_at + offset)
            ⊎ ((inode_of node s).data_at + offset + length buf ≤ q + i)
      apart_lem i h (inl same) = absurd (ne (sym same.0))
      apart_lem i h (inr (inl after)) = inr (omega (arith, f.fits))
      apart_lem i h (inr (inr before)) = inl (omega arith)

  pub store-Wrote : Wrote node offset buf bs s t
  store-Wrote = record {
    blocks = bs;
    file = record {
      real = f.real;
      type = st.type ∙ f.type;
      heap = heap_lem;
      compact = f.compact;
      room = f.room;
      held = held_lem;
      fits = subst (λ c. c ≤ f.room) (sym capacity_lem) f.fits;
      sized =
          subst (λ c. (inode_of node t).size ≤ c) (sym capacity_lem)
            (subst (λ n. n ≤ (inode_of node s).capacity) (sym size_lem)
              (new_size-le (inode_of node s).size (offset + length buf) (inode_of node s).capacity
                f.sized room));
      bounded = subst (λ c. c ≤ max_filesize) (sym capacity_lem) f.bounded;
      clear = clear_lem;
    };
    size = size_lem;
    bytes = bytes_lem;
    others = kept_lem;
  }
