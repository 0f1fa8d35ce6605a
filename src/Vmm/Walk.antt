-- ===== src/Vmm/Walk.antt =====
-- What the walk of `vmm_virt_to_phys` finds after a change of the tables.
use lons_os.Base.{
  ℕ, ◌+◌, ◌%◌, ◌≡◌, ◌≢◌, ◌⊎◌, if_elim, ◌∙◌, true, refl, arith, ◌==◌, if◌then◌else◌, inl, inr,
  eq_false, ==_iff,
}
use lons_os.Machine.{u64, write}
use lons_os.Vmm.{
  Vmm, entry_at, phys_to_virt, entry_phys, present, pml4e_at, pdpte_at, pde_at, pte_at, pdpt_index,
  pd_index, pt_index, vmm_unmap_page, vmm_virt_to_phys,
}

-- The last entry of the way to a page is none of the entries before it.
pub record IsApart (pagemap virt : ℕ) (s : Vmm) : Type 0 where
  pub from_pml4 : pml4e_at pagemap virt s ≢ pte_at pagemap virt s
  pub from_pdpt : pdpte_at pagemap virt s ≢ pte_at pagemap virt s
  pub from_pd : pde_at pagemap virt s ≢ pte_at pagemap virt s

-- The walk, over any words and any ways from an entry to the next.
abbrev look : (ℕ → ℕ) → (ℕ → ℕ) → (ℕ → ℕ) → (ℕ → ℕ) → ℕ → (ℕ → ℕ) → ℕ
look f3 f2 f1 result a4 w =
    if present (w a4) == 0
    then 0
    else if present (w (f3 (w a4))) == 0
    then 0
    else if present (w (f2 (w (f3 (w a4))))) == 0
    then 0
    else if present (w (f1 (w (f2 (w (f3 (w a4))))))) == 0
    then 0
    else result (w (f1 (w (f2 (w (f3 (w a4)))))))

look-write :
    (f3 f2 f1 result : ℕ → ℕ) (a4 : ℕ) (w : ℕ → ℕ) (x : ℕ)
    → a4 ≢ x
    → f3 (w a4) ≢ x
    → f2 (w (f3 (w a4))) ≢ x
    → f1 (w (f2 (w (f3 (w a4))))) ≡ x
    → look f3 f2 f1 result a4 (write w x 0) ≡ 0
look-write f3 f2 f1 result a4 w x n4 n3 n2 e =
    rw (eq_false a4 x n4, eq_false _ x n3, eq_false _ x n2, e, (==_iff x x).1 refl) (ground arith)

-- Nothing is found where an entry on the way is missing.
look-missing :
    (f3 f2 f1 result : ℕ → ℕ) (a4 : ℕ) (w : ℕ → ℕ)
    → ((present (w a4) == 0) ≡ true)
      ⊎ ((present (w (f3 (w a4))) == 0) ≡ true)
      ⊎ ((present (w (f2 (w (f3 (w a4))))) == 0) ≡ true)
    → look f3 f2 f1 result a4 w ≡ 0
look-missing f3 f2 f1 result a4 w (inl e) = rw e refl
look-missing f3 f2 f1 result a4 w (inr (inl e)) = rw e (ground arith)
look-missing f3 f2 f1 result a4 w (inr (inr e)) = rw e (ground arith)

module _ (pagemap virt : ℕ) (s : Vmm) where
  -- The ways of the code from an entry to the next, and to the result.
  abbrev to_pdpte : ℕ → ℕ
  to_pdpte e = entry_at (entry_phys e) (pdpt_index virt) s

  abbrev to_pde : ℕ → ℕ
  to_pde e = entry_at (entry_phys e) (pd_index virt) s

  abbrev to_pte : ℕ → ℕ
  to_pte e = entry_at (entry_phys e) (pt_index virt) s

  abbrev to_addr : ℕ → ℕ
  to_addr e = u64 (entry_phys e + virt % 4096)

  abbrev look_at : (ℕ → ℕ) → ℕ
  look_at w = look to_pdpte to_pde to_pte to_addr (pml4e_at pagemap virt s) w

  look_at_lem : (w : ℕ → ℕ) → vmm_virt_to_phys pagemap virt (record s { words = w }) ≡ look_at w
  unfolding vmm_virt_to_phys entry_at phys_to_virt
  look_at_lem w = refl

  missing :
      ((present (s.words (pml4e_at pagemap virt s)) == 0) ≡ true)
        ⊎ ((present (s.words (pdpte_at pagemap virt s)) == 0) ≡ true)
        ⊎ ((present (s.words (pde_at pagemap virt s)) == 0) ≡ true)
      → vmm_virt_to_phys pagemap virt s ≡ 0
  missing m =
      look_at_lem s.words
      ∙ look-missing to_pdpte to_pde to_pte to_addr (pml4e_at pagemap virt s) s.words m

  cleared :
      IsApart pagemap virt s
      → vmm_virt_to_phys pagemap virt (record s { words = write s.words (pte_at pagemap virt s) 0 })
        ≡ 0
  cleared apart =
      look_at_lem (write s.words (pte_at pagemap virt s) 0)
      ∙ look-write to_pdpte to_pde to_pte to_addr (pml4e_at pagemap virt s) s.words
          (pte_at pagemap virt s) apart.from_pml4 apart.from_pdpt apart.from_pd refl

  -- If the last entry of the way to a page is none of those before it, the page has no physical
  -- address after it is unmapped.
  pub vmm_virt_to_phys-vmm_unmap_page :
      IsApart pagemap virt s → vmm_virt_to_phys pagemap virt (vmm_unmap_page pagemap virt s) ≡ 0
  unfolding vmm_unmap_page
  vmm_virt_to_phys-vmm_unmap_page apart =
      if_elim Gone (present (s.words (pml4e_at pagemap virt s)) == 0) _ _ (λ e. missing (inl e))
        (λ e.
          if_elim Gone (present (s.words (pdpte_at pagemap virt s)) == 0) _ _
            (λ e. missing (inr (inl e)))
            (λ e.
              if_elim Gone (present (s.words (pde_at pagemap virt s)) == 0) _ _
                (λ e. missing (inr (inr e))) (λ e. cleared apart)))
    where
      Gone : Vmm → Type 0
      Gone t = vmm_virt_to_phys pagemap virt t ≡ 0
