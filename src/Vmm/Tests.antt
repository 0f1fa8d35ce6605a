-- ===== src/Vmm/Tests.antt =====
-- A run of the page tables.
use lons_os.Base.{◌+◌, ◌≡◌, arith}
use lons_os.Vmm.{Vmm, entry_at, phys_to_virt, vmm_unmap_page, vmm_virt_to_phys}
use lons_os.Vmm.Walk.{IsApart, vmm_virt_to_phys-vmm_unmap_page}

-- Every table's first entry leads to the next page.
abbrev chain : Vmm
chain = record {
  words = λ x. x + 4099;
  pmm = record {
    mem = λ x. 255;
    bitmap = 65536;
    total_pages = 4;
    bitmap_size = 1;
    hhdm_base = 0;
    free_pages = 0;
  };
  g_hhdm = 0;
  g_kernel_pagemap = 4096;
  cr3 = 4096;
}

chain-IsApart : IsApart 4096 5 chain
unfolding entry_at phys_to_virt
chain-IsApart = omega arith

vmm_virt_to_phys-vmm_unmap_page_example : vmm_virt_to_phys 4096 5 (vmm_unmap_page 4096 5 chain) ≡ 0
vmm_virt_to_phys-vmm_unmap_page_example = vmm_virt_to_phys-vmm_unmap_page 4096 5 chain chain-IsApart
