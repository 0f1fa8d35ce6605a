-- ===== src/Fat32/Chain.antt =====
-- `fat_free_chain`: it ends on every table, and what it frees.
use lons_os.Base.{
  ℕ, zero, suc, ◌+◌, ◌%◌, ◌^◌, ◌<◌, ◌≤◌, ◌==◌, ◌≡◌, ◌≢◌, inl, inr, refl, sym, subst, ap, ◌∙◌, arith,
  Bool, true, false, ◌||◌, List, [], ◌∷◌, some, if◌then◌else◌, Bool-cases, ==→eq, length, eq_false,
}
use lons_os.Fat32.{BlockDevice, Fat, Geometry, in_chain, fat_bad, fat_get, fat_set, fat_free_chain}
use lons_os.Fat32.Disk.{Works}
use lons_os.Fat32.Table.{
  entry, raw-SameDisk, fat_get-SameDisk, fat_get-entry, entry-fat_set, fat_set-geometry, IsLow,
}

-- The clusters `cs` from `c` on, each the entry of the one before, up to one that is none.
abbrev pub Chain : (ℕ → ℕ) → ℕ → List ℕ → Type 0
Chain e c [] = in_chain c ≡ false
Chain e c (x ∷ xs) = (c ≡ x) × (in_chain c ≡ true) × Chain e (e c) xs

abbrev pub mem : ℕ → List ℕ → Bool
mem k [] = false
mem k (x ∷ xs) = k == x || mem k xs

abbrev pub Distinct : List ℕ → Type 0
Distinct [] = Unit
Distinct (x ∷ xs) = (mem x xs ≡ false) × Distinct xs

Chain-cong :
    (e f : ℕ → ℕ) (c : ℕ) (cs : List ℕ)
    → ((k : ℕ) → mem k cs ≡ true → in_chain k ≡ true → f k ≡ e k)
    → Chain e c cs
    → Chain f c cs
Chain-cong e f c [] same chain = chain
Chain-cong e f c (x ∷ xs) same (here, valid, rest) =
    let at : f c ≡ e c = same c (ground arith) valid in
    (here, valid, rw at (Chain-cong e f (e c) xs (λ k m. same k (ground arith)) rest))

-- How many of the entries below `n` are not 0.
unfoldable pub used_below : (ℕ → ℕ) → ℕ → ℕ
used_below e zero = 0
used_below e (suc n) = used_below e n + (if e n == 0 then 0 else 1)

pub used_below-le : (e : ℕ → ℕ) (n : ℕ) → used_below e n ≤ n
unfolding used_below
used_below-le e zero = omega arith
used_below-le e (suc n) = ground (arith, used_below-le e n)

used_below-same :
    (e f : ℕ → ℕ) (n : ℕ) → ((k : ℕ) → k < n → f k ≡ e k) → used_below f n ≡ used_below e n
unfolding used_below
used_below-same e f zero same = refl
used_below-same e f (suc n) same =
    ground (arith, used_below-same e f n (λ k h. same k (omega arith)), same n)

used_below-clear :
    (e f : ℕ → ℕ) (n c : ℕ)
    → c < n
    → e c ≢ 0
    → ((k : ℕ) → k < n → f k ≡ (if k == c then 0 else e k))
    → used_below f n + 1 ≡ used_below e n
unfolding used_below
used_below-clear e f zero c h used clear = absurd (omega arith)
used_below-clear e f (suc n) c h used clear = elim (Bool-cases (n == c)) [
  | inl same ↦
      let z : n ≡ c = ==→eq _ _ same in
      let before =
        used_below-same e f n
          (λ k lt. clear k (omega arith) ∙ rw (eq_false k c (omega arith)) refl) in
      ground (arith, before, clear n)
  | inr other ↦
      let before = used_below-clear e f n c (ground arith) used (λ k lt. clear k (omega arith)) in
      ground (arith, before, clear n)
]

mem-ne : (k x : ℕ) (xs : List ℕ) → mem k xs ≡ true → mem x xs ≡ false → k ≢ x
mem-ne k x xs m new e =
    let clash : true ≡ false = sym m ∙ ap (λ (y : ℕ). mem y xs) e ∙ new in absurd (ground arith)

in_chain-lt : (c : ℕ) → in_chain c ≡ true → c < fat_bad
in_chain-lt c valid = ground arith

module _ {D : Type 0} (dev : BlockDevice D) (ok : Works dev) where
  stops : (fuel c : ℕ) (s : Fat D) → in_chain c ≡ false → fat_free_chain dev (suc fuel) c s ≡ some s
  unfolding fat_free_chain
  stops fuel c s out = rw out refl

  stops_at_zero : (fuel : ℕ) (s : Fat D) → 0 < fuel → fat_free_chain dev fuel 0 s ≡ some s
  stops_at_zero zero s h = absurd (omega arith)
  stops_at_zero (suc fuel) s h = stops fuel 0 s refl

  -- One round of the loop.
  abbrev freed_one : ℕ → Fat D → Fat D
  freed_one c s = fat_set dev c 0 (fat_get dev c s).1

  freed_one-geometry : (c : ℕ) (s : Fat D) → (freed_one c s).geometry ≡ s.geometry
  freed_one-geometry c s =
      fat_set-geometry dev ok c 0 (fat_get dev c s).1 ∙ (fat_get-SameDisk dev ok c s).geometry

  freed_one-entry :
      (c : ℕ) (s : Fat D) (k : ℕ)
      → IsLow dev ok s.geometry
      → c < 2 ^ 28
      → k < 2 ^ 28
      → entry dev ok (freed_one c s) k ≡ (if k == c then 0 else entry dev ok s k)
  freed_one-entry c s k low hc hk =
      let got = fat_get-SameDisk dev ok c s in
      entry-fat_set dev ok c 0 (fat_get dev c s).1 k
        (omega (arith, ap (λ g. g.fat_lba) got.geometry)) hc hk
      ∙ ap (λ (x : ℕ). if k == c then 0 else x % 2 ^ 28)
          (raw-SameDisk dev ok s (fat_get dev c s).1 got k)

  freed_one-IsLow :
      (c : ℕ) (s : Fat D) → IsLow dev ok s.geometry → IsLow dev ok (freed_one c s).geometry
  freed_one-IsLow c s low =
      omega (arith, low, ap (λ (g : Geometry). g.fat_lba) (freed_one-geometry c s))

  -- The geometry is kept, the clusters of the list are free, and every other entry is as before.
  pub record Freed (s : Fat D) (cs : List ℕ) (t : Fat D) : Type 0 where
    pub geometry : t.geometry ≡ s.geometry
    pub entries :
        (k : ℕ) → k < 2 ^ 28 → entry dev ok t k ≡ (if mem k cs then 0 else entry dev ok s k)

  Freed-cons :
      (s t : Fat D) (c : ℕ) (cs : List ℕ)
      → IsLow dev ok s.geometry
      → c < 2 ^ 28
      → Freed (freed_one c s) cs t
      → Freed s (c ∷ cs) t
  Freed-cons s t c cs low hc f = record {
    geometry = f.geometry ∙ freed_one-geometry c s;
    entries = λ k hk. ground (arith, f.entries k hk, freed_one-entry c s k low hc hk);
  }

  fat_free_chain_step :
      (fuel c : ℕ) (s : Fat D)
      → in_chain c ≡ true
      → fat_free_chain dev (suc fuel) c s
        ≡ fat_free_chain dev fuel (entry dev ok s c) (freed_one c s)
  unfolding fat_free_chain
  fat_free_chain_step fuel c s valid =
      rw valid
        (ap (λ (next : ℕ). fat_free_chain dev fuel next (freed_one c s)) (fat_get-entry dev ok c s))

  -- On a disk that works, `fat_free_chain` of a chain of distinct clusters, with more rounds than
  -- clusters, frees these clusters and leaves every other entry as it was.
  pub fat_free_chain-Freed :
      (fuel c : ℕ) (cs : List ℕ) (s : Fat D)
      → IsLow dev ok s.geometry
      → Chain (entry dev ok s) c cs
      → Distinct cs
      → length cs < fuel
      → (t : Fat D) × (fat_free_chain dev fuel c s ≡ some t) × Freed s cs t
  fat_free_chain-Freed zero c cs s low chain distinct enough = absurd (omega arith)
  fat_free_chain-Freed (suc fuel) c [] s low chain distinct enough =
      (s, stops fuel c s chain, record { geometry = refl; entries = λ k hk. refl })
  fat_free_chain-Freed (suc fuel) c (x ∷ xs) s low (here, valid, rest) (new, distinct) enough =
      let hc : c < 2 ^ 28 = omega (arith, in_chain-lt c valid) in
      let other : (k : ℕ) → mem k xs ≡ true → k ≢ c = λ k m e. mem-ne k x xs m new (e ∙ here) in
      let chain : Chain (entry dev ok (freed_one c s)) (entry dev ok s c) xs =
        Chain-cong (entry dev ok s) (entry dev ok (freed_one c s)) (entry dev ok s c) xs
          (λ k m v.
            freed_one-entry c s k low hc (omega (arith, in_chain-lt k v))
            ∙ rw (eq_false k c (other k m)) refl)
          rest in
      let (t, runs, freed) =
        fat_free_chain-Freed fuel (entry dev ok s c) xs (freed_one c s) (freed_one-IsLow c s low)
          chain distinct (omega (arith, enough)) in
      (
        t,
        fat_free_chain_step fuel c s valid ∙ runs,
        subst (λ (y : ℕ). Freed s (y ∷ xs) t) here (Freed-cons s t c xs low hc freed),
      )

  -- The bound is a variable here, since the count must not run through the table.
  ends_below :
      (n : ℕ)
      → n ≡ fat_bad
      → (fuel c : ℕ) (s : Fat D) → IsLow dev ok s.geometry
      → used_below (entry dev ok s) n + 1 < fuel
      → (t : Fat D) × (fat_free_chain dev fuel c s ≡ some t)
  ends_below n z zero c s low enough = absurd (omega arith)
  ends_below n z (suc fuel) c s low enough = elim (Bool-cases (in_chain c)) [
    | inr out ↦ (s, stops fuel c s out)
    | inl valid ↦
        let hc : c < 2 ^ 28 = omega (arith, in_chain-lt c valid) in
        let step = fat_free_chain_step fuel c s valid in
        elim (Bool-cases (entry dev ok s c == 0)) [
          | inl free ↦
              let next : entry dev ok s c ≡ 0 = ==→eq _ _ free in
              (
                freed_one c s,
                step
                    ∙ ap (λ (k : ℕ). fat_free_chain dev fuel k (freed_one c s)) next
                    ∙ stops_at_zero fuel (freed_one c s) (omega (arith, enough)),
              )
          | inr used ↦
              let fewer =
                used_below-clear (entry dev ok s) (entry dev ok (freed_one c s)) n c
                  (omega (arith, in_chain-lt c valid, z)) (λ e. absurd (ground (arith, e)))
                  (λ k h. freed_one-entry c s k low hc (omega (arith, z))) in
              let (t, runs) =
                ends_below n z fuel (entry dev ok s c) (freed_one c s) (freed_one-IsLow c s low)
                  (omega (arith, fewer, enough)) in
              (t, step ∙ runs)
        ]
  ]

  -- However the entries lead, in circles or out of the table: `fat_free_chain` ends on a disk that
  -- works and a table below sector 2^28, within two more rounds than there are used entries.
  pub fat_free_chain-Ends :
      (fuel c : ℕ) (s : Fat D)
      → IsLow dev ok s.geometry
      → used_below (entry dev ok s) fat_bad + 1 < fuel
      → (t : Fat D) × (fat_free_chain dev fuel c s ≡ some t)
  fat_free_chain-Ends fuel c s low enough = ends_below fat_bad refl fuel c s low enough
