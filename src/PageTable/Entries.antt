-- ===== src/PageTable/Entries.antt =====
-- The way to the entry that `get_pte` finds.
use operating_systems_cs.Base.{
  ℕ, ◌≡◌, ◌<◌, Bool, true, ◌&&◌, Option, some, List, [], ◌∷◌, arith, Option-cases, inl, inr, ap,
  ◌∙◌, sym, length, ap₂,
}
use operating_systems_cs.PageTable.{
  Machine, present, user, frame_of, descend, leaf_at, pgd_index, pud_index, pmd_index, pte_index,
  get_pte,
}
use operating_systems_cs.PageTable.Lookup.{no_huge}
use operating_systems_cs.PageTable.Tree.{IsTree}
use operating_systems_cs.PageTable.Write.{Reached}

-- The frame below a place is at the place below.
below :
    {P : Type 0} (in_use : P → ℕ → Bool) (kernel : List ℕ → Bool) (place : ℕ → Option (List ℕ))
    (pgd : ℕ) (m : Machine P) (tree : IsTree in_use kernel place pgd m) (t i s : ℕ) (p : List ℕ)
    → place t ≡ some p
    → length p < 3
    → descend m t i ≡ some s
    → place s ≡ some (i ∷ p)
below in_use kernel place pgd m tree t i s p at short way =
    let on : present (m.entry t i) ≡ true = ground arith in
    let by_user : user (m.entry t i) ≡ true = ground arith in
    let leads : frame_of (m.entry t i) ≡ s = ground arith in
    ap place (sym leads) ∙ tree.child t i p at short on by_user

leaf_found :
    {P : Type 0} (m : Machine P) (t i pt k : ℕ)
    → leaf_at m t i ≡ some (pt, k)
    → (t ≡ pt) × (i ≡ k) × ((present (m.entry pt k) && user (m.entry pt k)) ≡ true)
leaf_found m t i pt k e =
    let here : t ≡ pt = ground arith in
    let index : i ≡ k = ground arith in
    let on : (present (m.entry t i) && user (m.entry t i)) ≡ true = ground arith in
    (
      here,
      index,
      ap₂ (λ x y. present (m.entry x y) && user (m.entry x y)) (sym here) (sym index) ∙ on,
    )

module _ {P : Type 0} (in_use : P → ℕ → Bool) (kernel : List ℕ → Bool) (place : ℕ → Option (List ℕ))
    (pgd : ℕ) (m : Machine P) (tree : IsTree in_use kernel place pgd m) (addr : ℕ) where
  -- The entry that `get_pte` finds, and the way to it.
  pub record Entry (pt i : ℕ) : Type 0 where
    pub reached : Reached place pgd (pgd_index addr) (pud_index addr) (pmd_index addr) m pt
    pub index : i ≡ pte_index addr
    pub on : (present (m.entry pt i) && user (m.entry pt i)) ≡ true

  pub get_pte-Entry : (pt i : ℕ) → get_pte m pgd addr ≡ some (pt, i) → Entry pt i
  unfolding get_pte
  get_pte-Entry pt i found = elim (Option-cases (descend m pgd (pgd_index addr))) [
    | inl gone ↦ absurd (ground arith)
    | inr (pud, to_pud) ↦ elim (Option-cases (descend m pud (pud_index addr))) [
      | inl gone ↦ absurd (ground arith)
      | inr (pmd, to_pmd) ↦ elim (Option-cases (descend m pmd (pmd_index addr))) [
        | inl gone ↦ absurd (ground (arith, no_huge m))
        | inr (s, to_pt) ↦
            let leaf : leaf_at m s (pte_index addr) ≡ some (pt, i) = ground (arith, no_huge m) in
            let (here, index, on) = leaf_found m s (pte_index addr) pt i leaf in
            let to_pt' : descend m pmd (pmd_index addr) ≡ some pt = to_pt ∙ ap some here in
            let pud_at =
              below in_use kernel place pgd m tree pgd (pgd_index addr) pud [] tree.root
                (omega arith) to_pud in
            let pmd_at =
              below in_use kernel place pgd m tree pud (pud_index addr) pmd (pgd_index addr ∷ [])
                pud_at (omega arith) to_pmd in
            record {
              reached = record {
                at =
                    below in_use kernel place pgd m tree pmd (pmd_index addr) pt
                      (pud_index addr ∷ pgd_index addr ∷ []) pmd_at (omega arith) to_pt';
                pud = pud;
                pmd = pmd;
                pud_at = pud_at;
                pmd_at = pmd_at;
                to_pud = to_pud;
                to_pmd = to_pmd;
                to_pt = to_pt';
              };
              index = sym index;
              on = on;
            }
      ]
    ]
  ]
