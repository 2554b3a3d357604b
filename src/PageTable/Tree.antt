-- ===== src/PageTable/Tree.antt =====
-- The tables of a process form a tree, also when one is added.
use operating_systems_cs.Base.{
  ℕ, ◌+◌, ◌≡◌, refl, ◌<◌, Bool, true, false, ◌&&◌, ◌==◌, Option, none, some, List, [], ◌∷◌,
  if◌then◌else◌, arith, length, Bool-cases, inl, inr, ap, ◌∙◌, sym, subst,
}
use native.Mathlib.Decide.{ℕ_discrete}
use operating_systems_cs.PageTable.{Machine, present, user, frame_of, descend, update2}
use operating_systems_cs.PageTable.Lookup.{lookup}

-- `place` gives the indices, the last one first, that lead to a table from the page directory. An entry
-- that users may follow leads to the table at its place. Entries of the tables at places that `kernel`
-- leaves out are user entries, if they are present. Tables are frames in use.
pub record IsTree {P : Type 0} (in_use : P → ℕ → Bool) (kernel : List ℕ → Bool)
    (place : ℕ → Option (List ℕ)) (pgd : ℕ) (m : Machine P) : Type 0 where
  pub root : place pgd ≡ some []
  pub child :
      (t i : ℕ) (p : List ℕ)
      → place t ≡ some p
      → length p < 3
      → present (m.entry t i) ≡ true
      → user (m.entry t i) ≡ true
      → place (frame_of (m.entry t i)) ≡ some (i ∷ p)
  pub user_entries :
      (t i : ℕ) (p : List ℕ)
      → place t ≡ some p
      → length p < 3
      → kernel (i ∷ p) ≡ false
      → present (m.entry t i) ≡ true
      → user (m.entry t i) ≡ true
  pub tables_used : (t : ℕ) (p : List ℕ) → place t ≡ some p → in_use m.pt_pages t ≡ true

-- A table of zeros leads nowhere.
lookup_zeros :
    {P : Type 0} (m : Machine P) (t : ℕ) (is : List ℕ)
    → ((i : ℕ) → m.entry t i ≡ 0)
    → lookup m t is ≡ none
unfolding lookup
lookup_zeros m t [] zeros = refl
lookup_zeros m t (i ∷ []) zeros = ground (arith, zeros i)
lookup_zeros m t (i ∷ j ∷ r) zeros =
    let stops : descend m t i ≡ none = ground (arith, zeros i) in rw (stops, lookup) refl

-- Walks that go on at equal entries.
pub lookup_same :
    {P : Type 0} (m m' : Machine P) (t i j : ℕ) (r : List ℕ)
    → m'.entry t i ≡ m.entry t i
    → (present (m.entry t i) ≡ true
        → user (m.entry t i) ≡ true
        → lookup m' (frame_of (m.entry t i)) (j ∷ r) ≡ lookup m (frame_of (m.entry t i)) (j ∷ r))
    → lookup m' t (i ∷ j ∷ r) ≡ lookup m t (i ∷ j ∷ r)
unfolding lookup
lookup_same m m' t i j r e on = elim (Bool-cases (present (m.entry t i))) [
  | inl p ↦ elim (Bool-cases (user (m.entry t i))) [
    | inl u ↦ rw (e, p, u, lookup) (on p u)
    | inr u ↦ rw (e, p, u, lookup) refl
  ]
  | inr p ↦ rw (e, p, lookup) refl
]

lookup_gone :
    {P : Type 0} (m : Machine P) (t i j : ℕ) (r : List ℕ)
    → present (m.entry t i) ≡ false
    → lookup m t (i ∷ j ∷ r) ≡ none
unfolding lookup
lookup_gone m t i j r gone = rw (gone, lookup) refl

lookup_to_zeros :
    {P : Type 0} (m : Machine P) (t i j : ℕ) (r : List ℕ) (f : ℕ)
    → frame_of (m.entry t i) ≡ f
    → ((k : ℕ) → m.entry f k ≡ 0)
    → lookup m t (i ∷ j ∷ r) ≡ none
unfolding lookup
lookup_to_zeros m t i j r f leads zeros =
    elim (Bool-cases (present (m.entry t i) && user (m.entry t i))) [
      | inl on ↦
          rw (on, lookup)
            (lookup_zeros m (frame_of (m.entry t i)) (j ∷ r)
              (λ k. ap (λ x. m.entry x k) leads ∙ zeros k))
      | inr off ↦ rw (off, lookup) refl
    ]

module _ {P : Type 0} (in_use : P → ℕ → Bool) (kernel : List ℕ → Bool) (place : ℕ → Option (List ℕ))
    (pgd : ℕ) (m : Machine P) (tree : IsTree in_use kernel place pgd m) where
  -- One table has one place.
  pub one_place :
      (t s : ℕ) (p q : List ℕ) → place t ≡ some p → place s ≡ some q → t ≡ s → length p ≡ length q
  one_place t s p q a b e =
      let c : place s ≡ some p = subst (λ x. place x ≡ some p) e a in
      let d : p ≡ q = cc in ap length d

  pub new_apart :
      (t : ℕ) (p : List ℕ) (f : ℕ) → place t ≡ some p → place f ≡ none → (f == t) ≡ false
  new_apart t p f at free = elim (ℕ_discrete f t) [
    | yes e ↦ absurd (let c : place t ≡ none = subst (λ x. place x ≡ none) e free in cc)
    | no ne ↦ ground arith
  ]

  -- A walk whose tables are at their places is not changed by the write of a new table below an entry
  -- that was not present.
  pub lookup-new_table :
      (m' : Machine P) (t₀ i₀ f v : ℕ) (p₀ : List ℕ)
      → place t₀ ≡ some p₀
      → length p₀ < 3
      → present (m.entry t₀ i₀) ≡ false
      → place f ≡ none
      → frame_of v ≡ f
      → ((t i : ℕ) → m'.entry t i ≡ update2 (λ s j. if f == s then 0 else m.entry s j) t₀ i₀ v t i)
      → (is : List ℕ) (t : ℕ) (p : List ℕ) → place t ≡ some p
      → length p + length is ≡ 4
      → lookup m' t is ≡ lookup m t is
  unfolding lookup
  lookup-new_table m' t₀ i₀ f v p₀ at₀ short missing free leads wrote [] t p at len = refl
  lookup-new_table m' t₀ i₀ f v p₀ at₀ short missing free leads wrote (i ∷ []) t p at len =
      let apart : (f == t) ≡ false = new_apart t p f at free in
      let other : (t₀ == t) ≡ false = elim (ℕ_discrete t₀ t) [
        | yes e ↦ absurd (omega (arith, one_place t₀ t p₀ p at₀ at e))
        | no ne ↦ ground arith
      ] in
      let same : m'.entry t i ≡ m.entry t i = wrote t i ∙ rw (other, apart) refl in
      rw (same, lookup) refl
  lookup-new_table m' t₀ i₀ f v p₀ at₀ short missing free leads wrote (i ∷ j ∷ r) t p at len =
      let apart : (f == t) ≡ false = new_apart t p f at free in
      let apart₀ : (f == t₀) ≡ false = new_apart t₀ p₀ f at₀ free in
      elim (Bool-cases ((t₀ == t) && (i₀ == i))) [
        | inl here ↦
            let et : t₀ ≡ t = ground arith in
            let ei : i₀ ≡ i = ground arith in
            let gone : present (m.entry t i) ≡ false =
              subst (λ x. present (m.entry x i) ≡ false) et
                (subst (λ y. present (m.entry t₀ y) ≡ false) ei missing) in
            let not_parent : (t₀ == f) ≡ false = ground arith in
            let self : (f == f) ≡ true = ground arith in
            lookup_to_zeros m' t i j r f (ap frame_of (wrote t i ∙ rw here refl) ∙ leads)
              (λ k. wrote f k ∙ rw (not_parent, self) refl)
            ∙ sym (lookup_gone m t i j r gone)
        | inr elsewhere ↦
            let same : m'.entry t i ≡ m.entry t i = wrote t i ∙ rw (elsewhere, apart) refl in
            lookup_same m m' t i j r same (λ is_present is_user.
              lookup-new_table m' t₀ i₀ f v p₀ at₀ short missing free leads wrote (j ∷ r)
                (frame_of (m.entry t i)) (i ∷ p)
                (tree.child t i p at (omega arith) is_present is_user) (omega arith))
      ]
