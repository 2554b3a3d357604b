-- ===== src/PageTable/Lookup.antt =====
-- The entry that an address has, by recursion on the indices of its tables.
use operating_systems_cs.Base.{
  ℕ, ◌≡◌, refl, false, ◌&&◌, Option, none, some, List, [], ◌∷◌, if◌then◌else◌, arith,
}
use operating_systems_cs.PageTable.{
  Machine, present, user, huge_test, pgd_index, pud_index, pmd_index, pte_index, descend,
  descend_pmd, get_pte,
}

abbrev pub indices : ℕ → List ℕ
indices addr = pgd_index addr ∷ pud_index addr ∷ pmd_index addr ∷ pte_index addr ∷ []

module _ {P : Type 0} where
  -- The entry that is found through the table `t` by the indices.
  unfoldable pub lookup : Machine P → ℕ → List ℕ → Option ℕ
  lookup m t [] = none
  lookup m t (i ∷ []) =
      if present (m.entry t i) && user (m.entry t i) then some (m.entry t i) else none
  lookup m t (i ∷ j ∷ r) = elim (descend m t i) [ none ↦ none | some s ↦ lookup m s (j ∷ r) ]

  -- The entry that `get_pte` finds.
  abbrev pub translate : Machine P → (pgd addr : ℕ) → Option ℕ
  translate m pgd addr = elim (get_pte m pgd addr) [
    | none ↦ none
    | some (t, i) ↦ some (m.entry t i)
  ]

  pub no_huge : (m : Machine P) (t i : ℕ) → descend_pmd m t i ≡ descend m t i
  no_huge m t i = let never : huge_test (m.entry t i) ≡ false = ground arith in rw never refl

  pub translate-eq-lookup :
      (m : Machine P) (pgd addr : ℕ) → translate m pgd addr ≡ lookup m pgd (indices addr)
  unfolding get_pte lookup
  translate-eq-lookup m pgd addr = ground (arith, no_huge m)

  pub lookup-pair :
      (m : Machine P) (t i j : ℕ) (r : List ℕ) (s : ℕ)
      → descend m t i ≡ some s
      → lookup m t (i ∷ j ∷ r) ≡ lookup m s (j ∷ r)
  unfolding lookup
  lookup-pair m t i j r s e = rw (e, lookup) refl
