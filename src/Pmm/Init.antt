-- ===== src/Pmm/Init.antt =====
-- `pmm_init` of kernel/pmm.c: which pages it leaves free, and that its counter is right.
pub mod Spec
pub mod Fill
pub mod Release
pub mod Reserve
pub mod Result
