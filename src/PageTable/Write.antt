-- ===== src/PageTable/Write.antt =====
-- What the write of the entry of a page changes.
use operating_systems_cs.Base.{
  ℕ, ◌+◌, ◌/◌, ◌%◌, ◌^◌, ◌≡◌, ◌≢◌, refl, ◌<◌, Bool, true, false, ◌&&◌, ◌==◌, Option, none, some,
  List, [], ◌∷◌, if◌then◌else◌, arith, length, Bool-cases, inl, inr, ap, ◌∙◌, sym, subst, ap₂,
}
use native.Mathlib.Decide.{ℕ_discrete}
use operating_systems_cs.PageTable.{
  Machine, present, user, frame_of, descend, update2, pgd_index, pud_index, pmd_index, pte_index,
}
use operating_systems_cs.PageTable.Lookup.{
  lookup, lookup-pair, indices, translate, translate-eq-lookup,
}
use operating_systems_cs.PageTable.Tree.{IsTree, one_place, lookup_same}

abbrev rev_onto : List ℕ → List ℕ → List ℕ
rev_onto [] p = p
rev_onto (i ∷ r) p = rev_onto r (i ∷ p)

-- The write of the entry of a page changes no walk that ends elsewhere.
pub lookup-set_entry :
    {P : Type 0} (in_use : P → ℕ → Bool) (kernel : List ℕ → Bool) (place : ℕ → Option (List ℕ))
    (pgd : ℕ) (m m' : Machine P) (tree : IsTree in_use kernel place pgd m) (pt k v : ℕ) (q : List ℕ)
    → place pt ≡ some q
    → length q ≡ 3
    → ((t i : ℕ) → m'.entry t i ≡ update2 m.entry pt k v t i)
    → (is : List ℕ) (t : ℕ) (p : List ℕ) → place t ≡ some p
    → length p + length is ≡ 4
    → rev_onto is p ≢ k ∷ q
    → lookup m' t is ≡ lookup m t is
unfolding lookup
lookup-set_entry in_use kernel place pgd m m' tree pt k v q at_pt deep wrote [] t p at len
      elsewhere =
    refl
lookup-set_entry in_use kernel place pgd m m' tree pt k v q at_pt deep wrote (i ∷ []) t p at len
      elsewhere =
    elim (Bool-cases ((pt == t) && (k == i))) [
      | inl here ↦ absurd (
          let et : pt ≡ t = ground arith in
          let ei : i ≡ k = ground arith in
          let c : place t ≡ some q = subst (λ x. place x ≡ some q) et at_pt in
          let ep : p ≡ q = cc in elsewhere (ap₂ (λ x xs. x ∷ xs) ei ep))
      | inr apart ↦
          let same : m'.entry t i ≡ m.entry t i = wrote t i ∙ rw apart refl in
          rw (same, lookup) refl
    ]
lookup-set_entry in_use kernel place pgd m m' tree pt k v q at_pt deep wrote (i ∷ j ∷ r) t p at len
      elsewhere =
    let other : (pt == t) ≡ false = elim (ℕ_discrete pt t) [
      | yes e ↦
          absurd (omega (arith, one_place in_use kernel place pgd m tree pt t q p at_pt at e, deep))
      | no ne ↦ ground arith
    ] in
    let same : m'.entry t i ≡ m.entry t i = wrote t i ∙ rw other refl in
    lookup_same m m' t i j r same (λ on by_user.
      lookup-set_entry in_use kernel place pgd m m' tree pt k v q at_pt deep wrote (j ∷ r)
        (frame_of (m.entry t i)) (i ∷ p) (tree.child t i p at (omega arith) on by_user)
        (omega arith) elsewhere)

-- A way that is not written over stays.
pub descend_kept :
    {P : Type 0} (m m' : Machine P) (t i s : ℕ)
    → descend m t i ≡ some s
    → m'.entry t i ≡ m.entry t i
    → descend m' t i ≡ some s
descend_kept m m' t i s way same = rw same way

-- The way to the last table of an address.
pub record Reached {P : Type 0} (place : ℕ → Option (List ℕ)) (pgd i4 i3 i2 : ℕ) (m : Machine P)
    (pt : ℕ) : Type 0 where
  pub at : place pt ≡ some (i2 ∷ i3 ∷ i4 ∷ [])
  pub pud : ℕ
  pub pmd : ℕ
  pub pud_at : place pud ≡ some (i4 ∷ [])
  pub pmd_at : place pmd ≡ some (i3 ∷ i4 ∷ [])
  pub to_pud : descend m pgd i4 ≡ some pud
  pub to_pmd : descend m pud i3 ≡ some pmd
  pub to_pt : descend m pmd i2 ≡ some pt

-- The page of an address, as far as `get_pte` reads it.
abbrev pub page_of : ℕ → ℕ
page_of addr = addr / 4096 % 2 ^ 36

page_of-indices :
    (a addr : ℕ)
    → pte_index a ≡ pte_index addr
    → pmd_index a ≡ pmd_index addr
    → pud_index a ≡ pud_index addr
    → pgd_index a ≡ pgd_index addr
    → page_of a ≡ page_of addr
page_of-indices a addr e1 e2 e3 e4 = omega arith

indices-page_of : (a addr : ℕ) → page_of a ≡ page_of addr → indices a ≡ indices addr
indices-page_of a addr e =
    let e1 : pte_index a ≡ pte_index addr = omega arith in
    let e2 : pmd_index a ≡ pmd_index addr = omega arith in
    let e3 : pud_index a ≡ pud_index addr = omega arith in
    let e4 : pgd_index a ≡ pgd_index addr = omega arith in cc

pub translate-page_of :
    {P : Type 0} (m : Machine P) (pgd a addr : ℕ)
    → page_of a ≡ page_of addr
    → translate m pgd a ≡ translate m pgd addr
translate-page_of m pgd a addr e =
    translate-eq-lookup m pgd a
    ∙ ap (lookup m pgd) (indices-page_of a addr e)
    ∙ sym (translate-eq-lookup m pgd addr)

module _ {P : Type 0} (in_use : P → ℕ → Bool) (kernel : List ℕ → Bool) (place : ℕ → Option (List ℕ))
    (pgd : ℕ) (m m' : Machine P) (tree : IsTree in_use kernel place pgd m) (pt addr v : ℕ)
    (reached : Reached place pgd (pgd_index addr) (pud_index addr) (pmd_index addr) m pt)
    (wrote : (t i : ℕ) → m'.entry t i ≡ update2 m.entry pt (pte_index addr) v t i) where
  apart : (t i : ℕ) (p : List ℕ) → place t ≡ some p → length p < 3 → m'.entry t i ≡ m.entry t i
  apart t i p at short =
      let other : (pt == t) ≡ false = elim (ℕ_discrete pt t) [
        | yes e ↦ absurd (
            omega (
              arith,
              one_place in_use kernel place pgd m tree pt t
                  (pmd_index addr ∷ pud_index addr ∷ pgd_index addr ∷ []) p reached.at at e,
            ))
        | no ne ↦ ground arith
      ] in
      wrote t i ∙ rw other refl

  translate_here : translate m' pgd addr ≡ (if present v && user v then some v else none)
  unfolding lookup
  translate_here =
      let self : ((pt == pt) && (pte_index addr == pte_index addr)) ≡ true = ground arith in
      let leaf : m'.entry pt (pte_index addr) ≡ v = wrote pt (pte_index addr) ∙ rw self refl in
      translate-eq-lookup m' pgd addr
      ∙ lookup-pair m' pgd (pgd_index addr) (pud_index addr) (pmd_index addr ∷ pte_index addr ∷ [])
          reached.pud
          (descend_kept m m' pgd (pgd_index addr) reached.pud reached.to_pud
            (apart pgd (pgd_index addr) [] tree.root (omega arith)))
      ∙ lookup-pair m' reached.pud (pud_index addr) (pmd_index addr) (pte_index addr ∷ [])
          reached.pmd
          (descend_kept m m' reached.pud (pud_index addr) reached.pmd reached.to_pmd
            (apart reached.pud (pud_index addr) (pgd_index addr ∷ []) reached.pud_at (omega arith)))
      ∙ lookup-pair m' reached.pmd (pmd_index addr) (pte_index addr) [] pt (
          descend_kept m m' reached.pmd (pmd_index addr) pt reached.to_pt (
            apart reached.pmd (pmd_index addr) (pud_index addr ∷ pgd_index addr ∷ []) reached.pmd_at
              (omega arith)))
      ∙ rw (leaf, lookup) refl

  translate_elsewhere : (a : ℕ) → page_of a ≢ page_of addr → translate m' pgd a ≡ translate m pgd a
  translate_elsewhere a other =
      translate-eq-lookup m' pgd a
      ∙ lookup-set_entry in_use kernel place pgd m m' tree pt (pte_index addr) v
          (pmd_index addr ∷ pud_index addr ∷ pgd_index addr ∷ []) reached.at refl wrote (indices a)
          pgd [] tree.root refl
          (λ e. other (
            let e1 : pte_index a ≡ pte_index addr = cc in
            let e2 : pmd_index a ≡ pmd_index addr = cc in
            let e3 : pud_index a ≡ pud_index addr = cc in
            let e4 : pgd_index a ≡ pgd_index addr = cc in page_of-indices a addr e1 e2 e3 e4))
      ∙ sym (translate-eq-lookup m pgd a)

  -- The page of the entry has what was written, every other page what it had.
  pub translate-write :
      (a : ℕ)
      → translate m' pgd a ≡ (
          if page_of a == page_of addr
          then (if present v && user v then some v else none)
          else translate m pgd a)
  translate-write a = elim (ℕ_discrete (page_of a) (page_of addr)) [
    | yes e ↦
        let is : (page_of a == page_of addr) ≡ true = ground arith in
        rw is (translate-page_of m' pgd a addr e ∙ translate_here)
    | no ne ↦
        let is : (page_of a == page_of addr) ≡ false = ground arith in
        rw is (translate_elsewhere a ne)
  ]

  -- The tables stay where they are.
  pub write-IsTree : m'.pt_pages ≡ m.pt_pages → IsTree in_use kernel place pgd m'
  write-IsTree pages = record {
    root = tree.root;
    child = λ t i p at short on by_user.
        let same = apart t i p at short in
        ap (λ e. place (frame_of e)) same
        ∙ tree.child t i p at short (ap present (sym same) ∙ on) (ap user (sym same) ∙ by_user);
    user_entries = λ t i p at short own on.
        let same = apart t i p at short in
        ap user same ∙ tree.user_entries t i p at short own (ap present (sym same) ∙ on);
    tables_used = λ t p at. ap (λ x. in_use x t) pages ∙ tree.tables_used t p at;
  }
