-- ===== src/Heap/Init.antt =====
-- kernel/heap.c: heap_init, which maps the pages of the heap and makes its first block.
use lons_os.Base.{ℕ, zero, suc, ◌+◌, ◌-◌, ◌/◌, Bool, true, false, ◌==◌, if◌then◌else◌}
use lons_os.Machine.{u64, sub64, page_size, write}
use lons_os.Pmm.{pmm_alloc_page}
use lons_os.Vmm.{Vmm, kernel_data, vmm_map_page}
use lons_os.Heap.{Heap, header_size, heap_magic}

-- The pages of the heap from `virt` on, `n` to go; `false` is for memory that ran out.
unfoldable pub map_pages : ℕ → ℕ → Vmm → Bool × Vmm
map_pages zero virt v = (true, v)
map_pages (suc n) virt v =
    let (phys, pmm) = pmm_alloc_page v.pmm in
    let t = record v { pmm = pmm } in
    let rest =
      map_pages n (u64 (virt + page_size))
        (vmm_map_page t.g_kernel_pagemap virt phys kernel_data t) in
    if phys == 0 then (false, t) else rest

-- One page for each 4096 bytes that have begun, for a size below 2^64 - 4095.
unfoldable pub heap_init : ℕ → ℕ → Heap → Vmm → Heap × Vmm
heap_init start initial_size k v =
    let pages = (initial_size + page_size - 1) / page_size in
    let (mapped, t) = map_pages pages start v in
    let k1 = record k { heap_start = start; heap_size = initial_size } in
    let k2 = record k1 {
      heap_head = start;
      headers = write k.headers start (record {
        size = sub64 initial_size header_size;
        free = 1;
        magic = heap_magic;
        next = 0;
        prev = 0;
      });
    } in
    (if mapped then k2 else k1, t)
