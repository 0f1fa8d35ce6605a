-- ===== src/Machine.antt =====
-- What the kernel's C code takes from the machine: 64-bit unsigned arithmetic, page sizes, and
-- memory as bytes by virtual address. A mask of low bits is a remainder, `x & 0xFFF` is `x % 4096`,
-- and its complement is what is left, `x & ~0xFFF` is `x - x % 4096`.
pub mod Ports
pub mod Signed
pub mod Bytes
use lons_os.Base.{ℕ, ◌+◌, ◌-◌, ◌%◌, ◌^◌, ◌==◌, if◌then◌else◌}

abbrev pub u64 : ℕ → ℕ
u64 x = x % 2 ^ 64

abbrev pub u32 : ℕ → ℕ
u32 x = x % 2 ^ 32

abbrev pub u16 : ℕ → ℕ
u16 x = x % 2 ^ 16

abbrev pub u8 : ℕ → ℕ
u8 x = x % 256

-- `a - b` in 64 bits, for b < 2^64.
abbrev pub sub64 : ℕ → ℕ → ℕ
sub64 a b = (a + 2 ^ 64 - b) % 2 ^ 64

-- PAGE_SIZE of pmm.h.
abbrev pub page_size : ℕ
page_size = 4096

-- `x & ~(align - 1)` for a power of two.
abbrev pub mask_down : ℕ → ℕ → ℕ
mask_down x align = x - x % align

-- Bytes by address.
abbrev pub Memory : Type 0
Memory = ℕ → ℕ

abbrev pub write : {A : Type 0} → (ℕ → A) → ℕ → A → ℕ → A
write mem a v x = if x == a then v else mem x

-- `struct limine_memmap_entry` of limine.h: what the boot loader says of a range of addresses.
pub record MemmapEntry : Type 0 where
  pub base : ℕ
  pub length : ℕ
  pub type : ℕ

-- LIMINE_MEMMAP_USABLE
abbrev pub memmap_usable : ℕ
memmap_usable = 0
