-- ===== src/Vmm.antt =====
-- kernel/vmm.c: page tables of four levels. A table is 512 words in memory, seen through the
-- direct map; the words are kept apart from the bytes of the page allocator's bitmap.
pub mod Walk
mod Tests
use lons_os.Base.{
  ℕ, zero, suc, ◌+◌, ◌-◌, ◌*◌, ◌/◌, ◌%◌, ◌^◌, bit_or, Bool, not, List, [], ◌∷◌, ◌==◌, if◌then◌else◌,
}
use lons_os.Base.Bits.{test_bit}
use lons_os.Base.Loops.{for_range}
use lons_os.Machine.{u64, page_size, mask_down, write, MemmapEntry}
use lons_os.Pmm.{Pmm, pmm_alloc_page}

-- The words by virtual address, the page allocator, `g_hhdm`, and the two results of `vmm_init`:
-- `g_kernel_pagemap` and what it loads into CR3.
pub record Vmm : Type 0 where
  pub words : ℕ → ℕ
  pub pmm : Pmm
  pub g_hhdm : ℕ
  pub g_kernel_pagemap : ℕ
  pub cr3 : ℕ

abbrev pub flag_present : ℕ
flag_present = 1

abbrev pub flag_writable : ℕ
flag_writable = 2

abbrev pub flag_user : ℕ
flag_user = 4

-- VMM_KERNEL_DATA
abbrev pub kernel_data : ℕ
kernel_data = 3

abbrev pub pml4_index : ℕ → ℕ
pml4_index addr = addr / 2 ^ 39 % 512

abbrev pub pdpt_index : ℕ → ℕ
pdpt_index addr = addr / 2 ^ 30 % 512

abbrev pub pd_index : ℕ → ℕ
pd_index addr = addr / 2 ^ 21 % 512

abbrev pub pt_index : ℕ → ℕ
pt_index addr = addr / 2 ^ 12 % 512

-- ENTRY_PHYS: `e & 0x000FFFFFFFFFF000`.
abbrev pub entry_phys : ℕ → ℕ
entry_phys e = mask_down (e % 2 ^ 52) 4096

-- `e & VMM_FLAG_PRESENT`, as 0 or 1.
abbrev pub present : ℕ → ℕ
present e = test_bit e 0

unfoldable pub phys_to_virt : ℕ → Vmm → ℕ
phys_to_virt phys s = u64 (phys + s.g_hhdm)

-- The address of a table's entry.
unfoldable pub entry_at : ℕ → ℕ → Vmm → ℕ
entry_at table index s = u64 (phys_to_virt table s + 8 * index)

-- The new table, or 0.
unfoldable pub alloc_table : Vmm → ℕ × Vmm
alloc_table s =
    let (phys, pmm) = pmm_alloc_page s.pmm in
    let t = record s { pmm = pmm } in
    let cleared = for_range 512 0 (λ i m. write m (entry_at phys i t) 0) t.words in
    if phys == 0 then (0, t) else (phys, record t { words = cleared })

unfoldable pub get_or_create_table : ℕ → ℕ → Vmm → ℕ × Vmm
get_or_create_table entry_ptr flags s =
    let entry = s.words entry_ptr in
    let (new_phys, t) = alloc_table s in
    if not (present entry == 0)
    then (entry_phys entry, s)
    else if new_phys == 0
    then (0, t)
    else (new_phys, record t { words = write t.words entry_ptr (bit_or new_phys flags) })

-- `pagemap` is its `pml4_phys`.
unfoldable pub vmm_map_page : ℕ → ℕ → ℕ → ℕ → Vmm → Vmm
vmm_map_page pagemap virt phys flags s =
    let iflags = if test_bit flags 2 == 0 then 3 else 7 in
    let (pdpt, s1) = get_or_create_table (entry_at pagemap (pml4_index virt) s) iflags s in
    let (pd, s2) = get_or_create_table (entry_at pdpt (pdpt_index virt) s1) iflags s1 in
    let (pt, s3) = get_or_create_table (entry_at pd (pd_index virt) s2) iflags s2 in
    if pdpt == 0
    then s1
    else if pd == 0
    then s2
    else if pt == 0
    then s3
    else record s3 { words = write s3.words (entry_at pt (pt_index virt) s3) (bit_or phys flags) }

-- The addresses of the entries on the way to a page.
abbrev pub pml4e_at : ℕ → ℕ → Vmm → ℕ
pml4e_at pagemap virt s = entry_at pagemap (pml4_index virt) s

abbrev pub pdpte_at : ℕ → ℕ → Vmm → ℕ
pdpte_at pagemap virt s =
    entry_at (entry_phys (s.words (pml4e_at pagemap virt s))) (pdpt_index virt) s

abbrev pub pde_at : ℕ → ℕ → Vmm → ℕ
pde_at pagemap virt s = entry_at (entry_phys (s.words (pdpte_at pagemap virt s))) (pd_index virt) s

abbrev pub pte_at : ℕ → ℕ → Vmm → ℕ
pte_at pagemap virt s = entry_at (entry_phys (s.words (pde_at pagemap virt s))) (pt_index virt) s

unfoldable pub vmm_unmap_page : ℕ → ℕ → Vmm → Vmm
vmm_unmap_page pagemap virt s =
    if present (s.words (pml4e_at pagemap virt s)) == 0
    then s
    else if present (s.words (pdpte_at pagemap virt s)) == 0
    then s
    else if present (s.words (pde_at pagemap virt s)) == 0
    then s
    else record s { words = write s.words (pte_at pagemap virt s) 0 }

unfoldable pub vmm_virt_to_phys : ℕ → ℕ → Vmm → ℕ
vmm_virt_to_phys pagemap virt s =
    let pte = s.words (pte_at pagemap virt s) in
    if present (s.words (pml4e_at pagemap virt s)) == 0
    then 0
    else if present (s.words (pdpte_at pagemap virt s)) == 0
    then 0
    else if present (s.words (pde_at pagemap virt s)) == 0
    then 0
    else if present pte == 0
    then 0
    else u64 (entry_phys pte + virt % 4096)

abbrev pub vmm_load : ℕ → Vmm → Vmm
vmm_load pagemap s = record s { cr3 = pagemap }

-- Mapping 1 of `vmm_init`: the pages of every entry. The bounds are multiples of the page size.
unfoldable pub map_entry : ℕ → MemmapEntry → Vmm → Vmm
map_entry hhdm_offset e s =
    let base = mask_down e.base 4096 in
    let top = mask_down (u64 (e.base + e.length + 0xFFF)) 4096 in
    for_range ((top - base) / page_size) 0
      (λ i t.
        let phys = base + i * page_size in
        vmm_map_page t.g_kernel_pagemap (u64 (phys + hhdm_offset)) phys kernel_data t)
      s

unfoldable pub map_entries : ℕ → List MemmapEntry → Vmm → Vmm
map_entries hhdm_offset [] s = s
map_entries hhdm_offset (e ∷ es) s = map_entries hhdm_offset es (map_entry hhdm_offset e s)

-- Mapping 2: the 64 MB of the kernel.
unfoldable pub map_kernel : ℕ → ℕ → Vmm → Vmm
map_kernel kernel_phys_base kernel_virt_base s =
    for_range (64 * 1024 * 1024 / page_size) 0
      (λ i t.
        vmm_map_page t.g_kernel_pagemap (u64 (kernel_virt_base + i * page_size))
          (u64 (kernel_phys_base + i * page_size)) kernel_data t)
      s

unfoldable pub vmm_init : ℕ → List MemmapEntry → ℕ → ℕ → Vmm → Vmm
vmm_init hhdm_offset memmap kernel_phys_base kernel_virt_base s =
    let (pml4, s1) = alloc_table (record s { g_hhdm = hhdm_offset }) in
    let s2 = record s1 { g_kernel_pagemap = pml4 } in
    let s3 = map_entries hhdm_offset memmap s2 in
    let s4 = map_kernel kernel_phys_base kernel_virt_base s3 in
    if pml4 == 0 then s2 else vmm_load s4.g_kernel_pagemap s4
