-- ===== src/Idt/Gates.antt =====
-- The gates that `idt_init` sets lead to the stubs, and the frames of exceptions.
use lons_os.Base.{
  ℕ, ◌+◌, ◌*◌, ◌^◌, ◌<◌, ◌≤◌, ◌≡◌, ◌≢◌, ◌==◌, ◌∙◌, refl, sym, subst, arith, true, Bool-cases, inl,
  inr, eq_false, ==→eq,
}
use lons_os.Base.Loops.{for_range_inv}
use lons_os.Idt.{IdtEntry, idt_set_gate, idt_init, gdt_kernel_code}

-- The address that the processor reads from a gate.
unfoldable pub target : IdtEntry → ℕ
target g = g.offset_low + g.offset_mid * 65536 + g.offset_high * 2 ^ 32

-- An interrupt gate of the kernel's code segment, present, for ring 0, that leads to `address`.
pub record LeadsTo (address : ℕ) (g : IdtEntry) : Type 0 where
  pub target : target g ≡ address
  pub selector : g.selector ≡ gdt_kernel_code
  pub type_attr : g.type_attr ≡ 0x8E
  pub ist : g.ist ≡ 0
  pub reserved : g.reserved ≡ 0

-- The first `k` gates lead to their stubs, and the others are those of before.
abbrev pub Filled : (ℕ → ℕ) → (ℕ → IdtEntry) → ℕ → (ℕ → IdtEntry) → Type 0
Filled stub idt k t = (n : ℕ) → ((n < k) → LeadsTo (stub n) (t n)) × ((k ≤ n) → t n ≡ idt n)

eq_true : (n : ℕ) → (n == n) ≡ true
eq_true n = ground arith

idt_set_gate-LeadsTo :
    (n base : ℕ) (t : ℕ → IdtEntry)
    → base < 2 ^ 64
    → LeadsTo base (idt_set_gate n base gdt_kernel_code 0x8E t n)
unfolding idt_set_gate target
idt_set_gate-LeadsTo n base t h = rw (eq_true n) (record {
  target = omega arith;
  selector = refl;
  type_attr = refl;
  ist = refl;
  reserved = refl;
})

idt_set_gate-other :
    (n m base sel flags : ℕ) (t : ℕ → IdtEntry) → m ≢ n → idt_set_gate n base sel flags t m ≡ t m
unfolding idt_set_gate
idt_set_gate-other n m base sel flags t h = rw (eq_false m n h) refl

-- For stubs with 64-bit addresses: after `idt_init` the gates 0 to 47 are present interrupt gates of
-- the kernel's code segment that lead to their stubs, and those from 48 on are the ones of before.
pub idt_init-Filled :
    (stub : ℕ → ℕ) (at : ℕ) (idt : ℕ → IdtEntry)
    → ((n : ℕ) → stub n < 2 ^ 64)
    → Filled stub idt 48 (idt_init stub at idt).0
unfolding idt_init
idt_init-Filled stub at idt small =
    for_range_inv (λ k t. Filled stub idt k t) _ 48 0 48 idt
      (λ k t below filled n. elim (Bool-cases (n == k)) [
        | inl e ↦
            let here : n ≡ k = ==→eq _ _ e in
            (
              λ h.
                  subst
                    (λ (m : ℕ). LeadsTo (stub m) (idt_set_gate k (stub k) gdt_kernel_code 0x8E t m))
                    (sym here) (idt_set_gate-LeadsTo k (stub k) t (small k)),
              λ h. absurd (omega arith),
            )
        | inr e ↦
            let other : n ≢ k = λ z. absurd (ground arith) in
            let kept = idt_set_gate-other k n (stub k) gdt_kernel_code 0x8E t other in
            (
              λ h. subst (LeadsTo (stub n)) (sym kept) ((filled n).0 (omega arith)),
              λ h. kept ∙ (filled n).1 (omega arith),
            )
      ])
      (omega arith) (λ n. (λ h. absurd (omega arith), λ h. refl))
