-- ===== src/Pmm/Init/Spec.antt =====
-- What `pmm_init` is to do with a memory map, page by page.
use lons_os.Base.{
  ℕ, ◌+◌, ◌/◌, ◌%◌, ◌^◌, ◌<◌, ◌==◌, ◌≡◌, ◌⊎◌, inl, inr, subst, sym, Bool, true, false, ◌&&◌, ◌||◌,
  List, [], ◌∷◌, ltb, leb,
}
use lons_os.Machine.{MemmapEntry, memmap_usable, page_size, mask_down}
use lons_os.Pmm.{align_up, entry_end}

-- Page `i` lies whole in the entry.
unfoldable pub covers : MemmapEntry → ℕ → Bool
covers e i =
    leb (align_up e.base page_size / page_size) i
    && ltb i (mask_down (entry_end e) page_size / page_size)

-- Page `i` lies whole in a usable entry.
unfoldable pub usable_page : List MemmapEntry → ℕ → Bool
usable_page [] i = false
usable_page (e ∷ es) i = (e.type == memmap_usable && covers e i) || usable_page es i

-- `n` pages from page `p` on.
unfoldable pub in_pages : ℕ → ℕ → ℕ → Bool
in_pages p n i = leb p i && ltb i (p + n)

-- What the boot protocol says of an entry: it ends inside the address space, and usable ones are
-- whole pages.
pub record IsWhole (e : MemmapEntry) : Type 0 where
  pub fits : e.base + e.length < 2 ^ 64
  pub base_aligned : e.type ≡ memmap_usable → e.base % page_size ≡ 0
  pub length_aligned : e.type ≡ memmap_usable → e.length % page_size ≡ 0

abbrev pub All {ℓ κ} : {A : Type ℓ} → (A → Type κ) → List A → Type κ
All P [] = Unit
All P (x ∷ xs) = P x × All P xs

abbrev pub In : MemmapEntry → List MemmapEntry → Type 0
In a [] = ⊥
In a (x ∷ xs) = (a ≡ x) ⊎ In a xs

pub All-In {κ} :
    (P : MemmapEntry → Type κ) {a : MemmapEntry} (xs : List MemmapEntry) → All P xs → In a xs → P a
All-In P [] all i = absurd i
All-In P (x ∷ xs) all (inl e) = subst P (sym e) all.0
All-In P (x ∷ xs) all (inr i) = All-In P xs all.1 i

-- Usable entries do not overlap.
abbrev pub Disjoint : List MemmapEntry → Type 0
Disjoint [] = Unit
Disjoint (e ∷ es) =
    ((i : ℕ) → (e.type == memmap_usable && covers e i) ≡ true → usable_page es i ≡ false)
    × Disjoint es
