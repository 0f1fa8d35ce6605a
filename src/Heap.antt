-- ===== src/Heap.antt =====
-- kernel/heap.c and kernel/heap.h: the kernel heap, a doubly linked list of blocks in memory.
-- Headers are kept as records by their address, data bytes by theirs; the theorems on the chain
-- show that the ranges of two blocks do not meet. A `cli; hlt` loop is the outcome `halted`.
pub mod Chain
pub mod Init
pub mod Spec
pub mod Split
pub mod Alloc
pub mod Merge
pub mod Merged
pub mod Release
pub mod Compact
pub mod Usage
pub mod Held
pub mod Malloc
pub mod Free
mod Tests
use lons_os.Base.{
  ℕ, zero, suc, ◌+◌, ◌-◌, ◌*◌, ◌%◌, ◌^◌, Bool, ◌&&◌, ◌||◌, not, ltb, leb, ◌==◌, if◌then◌else◌,
}
use lons_os.Base.Loops.{for_range}
use lons_os.Machine.{u64, sub64, mask_down, Memory, write}

-- `struct heap_block`.
pub record Header : Type 0 where
  pub size : ℕ
  pub free : ℕ
  pub magic : ℕ
  pub next : ℕ
  pub prev : ℕ

abbrev pub heap_magic : ℕ
heap_magic = 0xDEADC0DE

abbrev pub heap_min_split : ℕ
heap_min_split = 64

-- `sizeof(heap_block_t)`: the struct is packed, 8 + 1 + 4 + 8 + 8 bytes.
abbrev pub header_size : ℕ
header_size = 29

abbrev pub Headers : Type 0
Headers = ℕ → Header

abbrev pub wiped : Header
wiped = record { size = 0; free = 0; magic = 0; next = 0; prev = 0 }

-- The static variables, and the memory that they lead to.
pub record Heap : Type 0 where
  pub headers : Headers
  pub mem : Memory
  pub heap_head : ℕ
  pub heap_start : ℕ
  pub heap_size : ℕ

pub data Run (A : Type 0) : Type 0 where
  ok : A → Run A
  halted : Run A
  out_of_fuel : Run A

infixl 5 ◌>>=◌
abbrev pub ◌>>=◌ : {A B : Type 0} → Run A → (A → Run B) → Run B
ok a >>= f = f a
halted >>= f = halted
out_of_fuel >>= f = out_of_fuel

unfoldable pub heap_memset : ℕ → ℕ → ℕ → Memory → Memory
heap_memset ptr val n mem = for_range n 0 (λ i m. write m (ptr + i) val) mem

unfoldable pub heap_memcpy : ℕ → ℕ → ℕ → Memory → Memory
heap_memcpy dst src n mem = for_range n 0 (λ i m. write m (dst + i) (m (src + i))) mem

abbrev pub get_header : ℕ → ℕ
get_header ptr = sub64 ptr header_size

abbrev pub data_ptr : ℕ → ℕ
data_ptr block = u64 (block + header_size)

-- `validate_block`, before what follows it.
abbrev pub validate_block : {A : Type 0} → Headers → ℕ → Run A → Run A
validate_block h block rest = if (h block).magic == heap_magic then rest else halted

-- `if (p) p->prev = block;`
abbrev pub set_prev : ℕ → ℕ → Headers → Headers
set_prev p block h = if p == 0 then h else write h p (record (h p) { prev = block })

unfoldable pub split_block : ℕ → ℕ → Headers → Headers
split_block block size h =
    let remainder = sub64 (h block).size size in
    if leb remainder (header_size + heap_min_split)
    then h
    else (let new_block = u64 (data_ptr block + size) in
        let h1 = write h new_block (record {
          size = remainder - header_size;
          free = 1;
          magic = heap_magic;
          next = (h block).next;
          prev = block;
        }) in
        let h2 = set_prev (h1 block).next new_block h1 in
        write h2 block (record (h2 block) { size = size; next = new_block }))

-- The block at `low` takes in the one at `high` behind it: what both halves of `coalesce` do.
unfoldable pub merge : ℕ → ℕ → Headers → Headers
merge low high h =
    let beyond = (h high).next in
    let size = u64 ((h low).size + header_size + (h high).size) in
    let h1 = write h low (record (h low) { size = size; next = beyond }) in
    write (set_prev beyond low h1) high wiped

-- The two halves of `coalesce`.
unfoldable pub coalesce_next : ℕ → Headers → Run Headers
coalesce_next block h =
    let next = (h block).next in
    if next == 0 || (h next).free == 0
    then ok h
    else validate_block h next (ok (merge block next h))

unfoldable pub coalesce_prev : ℕ → Headers → Run Headers
coalesce_prev block h =
    let prev = (h block).prev in
    if prev == 0 || (h prev).free == 0
    then ok h
    else validate_block h prev (ok (merge prev block h))

unfoldable pub coalesce : ℕ → Headers → Run Headers
coalesce block h = coalesce_next block h >>= coalesce_prev block

-- `(size + 15) & ~15`
unfoldable pub align_size : ℕ → ℕ
align_size size = mask_down (u64 (size + 15)) 16

-- What `kmalloc` does at a block that fits.
unfoldable pub take_block : ℕ → ℕ → Headers → Headers
take_block current size h =
    let h1 = split_block current size h in write h1 current (record (h1 current) { free = 0 })

-- The first-fit search from `current`; the result is the data pointer or NULL.
unfoldable pub search_fit : ℕ → ℕ → ℕ → Headers → Run (ℕ × Headers)
search_fit zero current size h = out_of_fuel
search_fit (suc fuel) current size h =
    let rest = search_fit fuel (h current).next size h in
    let fits = not ((h current).free == 0) && leb size (h current).size in
    if current == 0
    then ok (0, h)
    else validate_block h current
        (if fits then ok (data_ptr current, take_block current size h) else rest)

-- Every block holds a header of 29 bytes, so the heap's bytes are more rounds than blocks.
abbrev pub rounds : Heap → ℕ
rounds k = k.heap_size + 1

unfoldable pub kmalloc : ℕ → Heap → Run (ℕ × Heap)
kmalloc size k =
    let found = search_fit (rounds k) k.heap_head (align_size size) k.headers in
    if size == 0 then ok (0, k) else found >>= λ (ptr, h). ok (ptr, record k { headers = h })

unfoldable pub kzalloc : ℕ → Heap → Run (ℕ × Heap)
kzalloc size k = kmalloc size k >>= λ (ptr, k').
    ok (ptr, if ptr == 0 then k' else record k' { mem = heap_memset ptr 0 size k'.mem })

unfoldable pub kfree : ℕ → Heap → Run Heap
kfree ptr k =
    let block = get_header ptr in
    let h = k.headers in
    if ptr == 0
    then ok k
    else validate_block h block (
        if (h block).free == 0
        then (coalesce block (write h block (record (h block) { free = 1 })) >>= λ h'.
            ok (record k { headers = h' }))
        else halted)

unfoldable pub krealloc : ℕ → ℕ → Heap → Run (ℕ × Heap)
krealloc ptr size k =
    let block = get_header ptr in
    let old = (k.headers block).size in
    if ptr == 0
    then kmalloc size k
    else if size == 0
    then (kfree ptr k >>= λ k'. ok (0, k'))
    else validate_block k.headers block (
        if leb size old
        then ok (ptr, k)
        else kmalloc size k >>= λ (new_ptr, k1).
            if new_ptr == 0
            then ok (0, k1)
            else kfree ptr (record k1 { mem = heap_memcpy new_ptr ptr old k1.mem }) >>= λ k2.
                ok (new_ptr, k2))

-- The walks of `heap_get_used` and `heap_get_free`: `which` is what `b->free` is compared with.
unfoldable pub sum_sizes : Bool → ℕ → ℕ → ℕ → Headers → Run ℕ
sum_sizes which zero b acc h = out_of_fuel
sum_sizes which (suc fuel) b acc h =
    let counted = if which then not ((h b).free == 0) else (h b).free == 0 in
    let rest =
      sum_sizes which fuel (h b).next (if counted then u64 (acc + (h b).size) else acc) h in
    if b == 0 then ok acc else rest

unfoldable pub heap_get_used : Heap → Run ℕ
heap_get_used k = sum_sizes Bool.false (rounds k) k.heap_head 0 k.headers

unfoldable pub heap_get_free : Heap → Run ℕ
heap_get_free k = sum_sizes Bool.true (rounds k) k.heap_head 0 k.headers

abbrev pub heap_get_total : Heap → ℕ
heap_get_total k = k.heap_size
