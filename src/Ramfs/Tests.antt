-- ===== src/Ramfs/Tests.antt =====
-- A write to a file that outgrows its buffer of 32 bytes.
use lons_os.Base.{refl, arith, List, [], ◌∷◌, true, false, ◌==◌, if◌then◌else◌, inl}
use lons_os.Heap.{Heap, wiped}
use lons_os.Heap.Chain.{Block, block, header, IsHeap}
use lons_os.Ramfs.{Ramfs, ramfs_write}
use lons_os.Ramfs.Store.{FileIn}
use lons_os.Ramfs.Write.{Writes, ramfs_write-Writes}

-- A block of 32 bytes in use at 4096, and behind it a free one of 200 bytes.
abbrev blocks : List Block
blocks = block 32 false ∷ block 200 true ∷ []

abbrev heap : Heap
heap = record {
  headers = λ x.
      if x == 4096
      then header (block 32 false) 4157 0
      else if x == 4157
      then header (block 200 true) 0 4096
      else wiped;
  mem = λ x. 0;
  heap_head = 4096;
  heap_start = 4096;
  heap_size = 290;
}

heap-IsHeap : IsHeap heap blocks
heap-IsHeap = record {
  chain = (refl, (refl, tt));
  head = refl;
  filled = refl;
  start_pos = omega arith;
  bounded = omega arith;
}

-- Node 7 is a file of 3 bytes, all 0.
abbrev disk : Ramfs
disk = record {
  heap = heap;
  nodes = λ a. record {
    name = b'f' ∷ [];
    type = 1;
    size = 3;
    ops = 0;
    fs_data = 8;
    parent = 1;
    mount = 0;
  };
  inodes = λ a. record { type = 1; data_at = 4125; size = 3; capacity = 32; children = [] };
}

disk-FileIn : FileIn 7 blocks disk
disk-FileIn = record {
  real = omega arith;
  type = refl;
  heap = heap-IsHeap;
  compact = (refl, (refl, tt));
  room = 32;
  held = inl (refl, refl, refl);
  fits = omega arith;
  sized = omega arith;
  bounded = omega arith;
  clear = λ i low high. refl;
}

-- The new buffer has 64 bytes.
ramfs_write-Writes_example :
    Writes 7 30 (1 ∷ 2 ∷ 3 ∷ []) blocks disk (ramfs_write 7 30 (1 ∷ 2 ∷ 3 ∷ []) disk)
ramfs_write-Writes_example =
    ramfs_write-Writes 7 30 (1 ∷ 2 ∷ 3 ∷ []) blocks disk disk-FileIn (omega arith)
