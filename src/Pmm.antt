-- ===== src/Pmm.antt =====
-- kernel/pmm.c: the bitmap allocator of physical pages. The static variables are the fields of a
-- record; the bitmap lies in memory, and a function that updates it returns the new state.
pub mod Bitmap
pub mod Count
pub mod Alloc
pub mod Free
pub mod Init
mod Tests
use lons_os.Base.{
  ℕ, zero, suc, ◌+◌, ◌-◌, ◌*◌, ◌/◌, ◌%◌, ◌^◌, bit_and, bit_or, Bool, List, [], ◌∷◌, ltb, leb, ◌==◌,
  if◌then◌else◌, not,
}
use lons_os.Base.Bits.{bit_at, not_bit_at, test_bit}
use lons_os.Base.Loops.{for_range}
use lons_os.Machine.{u64, sub64, page_size, mask_down, Memory, write, MemmapEntry, memmap_usable}

-- The static state; `bitmap` is the pointer, 0 for null, and `mem` what it points into.
pub record Pmm : Type 0 where
  pub mem : Memory
  pub bitmap : ℕ
  pub total_pages : ℕ
  pub bitmap_size : ℕ
  pub hhdm_base : ℕ
  pub free_pages : ℕ

-- `bitmap[page_index / 8]`
abbrev pub byte_addr : Pmm → ℕ → ℕ
byte_addr s page = s.bitmap + page / 8

unfoldable pub bitmap_set : ℕ → Pmm → Pmm
bitmap_set page s =
    let a = byte_addr s page in
    record s { mem = write s.mem a (bit_or (s.mem a) (bit_at (page % 8))) }

unfoldable pub bitmap_clear : ℕ → Pmm → Pmm
bitmap_clear page s =
    let a = byte_addr s page in
    record s { mem = write s.mem a (bit_and (s.mem a) (not_bit_at (page % 8))) }

-- 1 for a used page, 0 for a free one.
unfoldable pub bitmap_test : Pmm → ℕ → ℕ
bitmap_test s page = test_bit (s.mem (byte_addr s page)) (page % 8)

unfoldable pub pmm_memset : ℕ → ℕ → ℕ → Memory → Memory
pmm_memset ptr value size mem = for_range size 0 (λ i m. write m (ptr + i) value) mem

unfoldable pub align_up : ℕ → ℕ → ℕ
align_up addr align = mask_down (u64 (addr + align - 1)) align

-- `bitmap_set(i); free_pages--;`
unfoldable pub claim_page : ℕ → Pmm → Pmm
claim_page i s = let t = bitmap_set i s in record t { free_pages = sub64 t.free_pages 1 }

-- The scan of `pmm_alloc_page` from page `i`, with `n` pages to go.
unfoldable pub alloc_from : ℕ → ℕ → Pmm → ℕ × Pmm
alloc_from zero i s = (0, s)
alloc_from (suc n) i s =
    let rest = alloc_from n (i + 1) s in
    if bitmap_test s i == 0 then (u64 (i * page_size), claim_page i s) else rest

-- The physical address of the page, or 0 for NULL.
unfoldable pub pmm_alloc_page : Pmm → ℕ × Pmm
pmm_alloc_page s = alloc_from s.total_pages 0 s

unfoldable pub pmm_free_page : ℕ → Pmm → Pmm
pmm_free_page ptr s =
    let t = bitmap_clear (ptr / page_size) s in record t { free_pages = u64 (t.free_pages + 1) }

-- Pass 1 of `pmm_init`: the highest end of an entry.
abbrev pub entry_end : MemmapEntry → ℕ
entry_end e = u64 (e.base + e.length)

unfoldable pub highest_addr : List MemmapEntry → ℕ → ℕ
highest_addr [] highest = highest
highest_addr (e ∷ es) highest =
    highest_addr es (if ltb highest (entry_end e) then entry_end e else highest)

-- Pass 2: the bitmap goes to the first usable entry that is large enough, all pages used.
unfoldable pub place_bitmap : List MemmapEntry → Pmm → Pmm
place_bitmap [] s = s
place_bitmap (e ∷ es) s =
    let rest = place_bitmap es s in
    let at = u64 (e.base + s.hhdm_base) in
    if not (e.type == memmap_usable)
    then rest
    else if leb s.bitmap_size e.length
    then record s { bitmap = at; mem = pmm_memset at 0xFF s.bitmap_size s.mem }
    else rest

-- Pass 3: the pages of one usable entry. `base` and `end` are multiples of the page size, so
-- `addr` runs through them without wrapping.
unfoldable pub free_one : ℕ → Pmm → Pmm
free_one page s = let t = bitmap_clear page s in record t { free_pages = u64 (t.free_pages + 1) }

unfoldable pub free_entry : MemmapEntry → Pmm → Pmm
free_entry e s =
    let base = align_up e.base page_size in
    let end = mask_down (entry_end e) page_size in
    for_range ((end - base + (page_size - 1)) / page_size) 0
      (λ k t. free_one ((base + k * page_size) / page_size) t) s

unfoldable pub free_usable : List MemmapEntry → Pmm → Pmm
free_usable [] s = s
free_usable (e ∷ es) s = free_usable es (if e.type == memmap_usable then free_entry e s else s)

-- Pass 4: the bitmap's own pages.
unfoldable pub reserve_one : ℕ → Pmm → Pmm
reserve_one page s =
    if bitmap_test s page == 0
    then (let t = bitmap_set page s in
        if ltb 0 t.free_pages then record t { free_pages = t.free_pages - 1 } else t)
    else s

unfoldable pub reserve_bitmap : Pmm → Pmm
reserve_bitmap s =
    let phys_base = sub64 s.bitmap s.hhdm_base in
    let pages_used = (s.bitmap_size + page_size - 1) / page_size in
    for_range pages_used 0 (λ p t. reserve_one (phys_base / page_size + p) t) s

-- The sizes that pass 1 sets.
unfoldable pub measure : List MemmapEntry → ℕ → Pmm → Pmm
measure es hhdm_offset s =
    let pages = highest_addr es 0 / page_size in
    record s { hhdm_base = hhdm_offset; total_pages = pages; bitmap_size = (pages + 7) / 8 }

-- What follows pass 2: return if no place was found, else passes 3 and 4.
unfoldable pub fill_bitmap : List MemmapEntry → Pmm → Pmm
fill_bitmap es t =
    if t.bitmap == 0 then t else reserve_bitmap (free_usable es (record t { free_pages = 0 }))

unfoldable pub pmm_init : List MemmapEntry → ℕ → Pmm → Pmm
pmm_init es hhdm_offset s = fill_bitmap es (place_bitmap es (measure es hhdm_offset s))

abbrev pub pmm_get_total_pages : Pmm → ℕ
pmm_get_total_pages s = s.total_pages

abbrev pub pmm_get_free_pages : Pmm → ℕ
pmm_get_free_pages s = s.free_pages
