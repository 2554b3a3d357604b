-- ===== src/PageTable/Permissions.antt =====
-- What `change_permissions` does to the translation of every address.
use operating_systems_cs.Base.{
  ℕ, ◌+◌, ◌*◌, ◌/◌, ◌≡◌, refl, Bool, true, false, ◌&&◌, ◌==◌, Option, none, some, List,
  if◌then◌else◌, arith, Option-cases, Bool-cases, inl, inr, ap, ◌∙◌, sym,
}
use operating_systems_cs.PageTable.{
  Machine, present, user, frame_of, access_bits, update2, set_entry, change_permissions, get_pte,
}
use operating_systems_cs.PageTable.Lookup.{translate}
use operating_systems_cs.PageTable.Tree.{IsTree}
use operating_systems_cs.PageTable.Write.{write-IsTree, page_of, translate-write}
use operating_systems_cs.PageTable.Entries.{Entry, get_pte-Entry}

-- The entry of a page with the access bits of `prot`.
abbrev pub new_bits : (prot e : ℕ) → ℕ
new_bits prot e = e / 8 * 8 + access_bits prot

module _ {P : Type 0} (in_use : P → ℕ → Bool) (kernel : List ℕ → Bool) (place : ℕ → Option (List ℕ))
    (pgd : ℕ) (m : Machine P) (tree : IsTree in_use kernel place pgd m) (addr prot : ℕ) where
  new_bits-user : (e : ℕ) → (present (new_bits prot e) && user (new_bits prot e)) ≡ true
  new_bits-user e = ground arith

  kept_absent : get_pte m pgd addr ≡ none → change_permissions m pgd addr prot ≡ m
  unfolding change_permissions
  kept_absent gone = rw (change_permissions, gone) refl

  kept_shared :
      (pt i : ℕ)
      → get_pte m pgd addr ≡ some (pt, i)
      → (m.refcount (frame_of (m.entry pt i)) == 1) ≡ false
      → change_permissions m pgd addr prot ≡ m
  unfolding change_permissions
  kept_shared pt i found shared = rw (change_permissions, found, shared) refl

  changed :
      (pt i : ℕ)
      → get_pte m pgd addr ≡ some (pt, i)
      → (m.refcount (frame_of (m.entry pt i)) == 1) ≡ true
      → change_permissions m pgd addr prot ≡ set_entry m pt i (new_bits prot (m.entry pt i))
  unfolding change_permissions
  changed pt i found single = rw (change_permissions, found, single) refl

  written :
      (pt i : ℕ)
      → get_pte m pgd addr ≡ some (pt, i)
      → (a : ℕ)
      → translate (set_entry m pt i (new_bits prot (m.entry pt i))) pgd a ≡ (
          if page_of a == page_of addr
          then some (new_bits prot (m.entry pt i))
          else translate m pgd a)
  written pt i found a =
      let e : Entry in_use kernel place pgd m tree addr pt i =
        get_pte-Entry in_use kernel place pgd m tree addr pt i found in
      let v = new_bits prot (m.entry pt i) in
      let step =
        translate-write in_use kernel place pgd m (set_entry m pt i v) tree pt addr v e.reached
          (λ t j. ap (λ k. update2 m.entry pt k v t j) e.index) a in
      step ∙ rw (new_bits-user (m.entry pt i)) refl

  -- The translation of `a` when the page of the address has this entry.
  abbrev pub expected : Option ℕ → (a : ℕ) → Option ℕ
  expected none a = translate m pgd a
  expected (some e) a =
      if (page_of a == page_of addr) && (m.refcount (frame_of e) == 1)
      then some (new_bits prot e)
      else translate m pgd a

  one_user :
      (e a : ℕ)
      → (m.refcount (frame_of e) == 1) ≡ true
      → expected (some e) a
        ≡ (if page_of a == page_of addr then some (new_bits prot e) else translate m pgd a)
  one_user e a single = elim (Bool-cases (page_of a == page_of addr)) [
    | inl same ↦ rw (same, single) refl
    | inr other ↦ rw other refl
  ]

  many_users :
      (e a : ℕ) → (m.refcount (frame_of e) == 1) ≡ false → expected (some e) a ≡ translate m pgd a
  many_users e a shared = elim (Bool-cases (page_of a == page_of addr)) [
    | inl same ↦ rw (same, shared) refl
    | inr other ↦ rw other refl
  ]

  -- If the tables of a process form a tree, then `change_permissions` gives the page of the address the
  -- bits of `prot` where its frame has one reference, and changes no translation otherwise: a page that is
  -- shared keeps its bits, and so does every other page.
  pub translate-change_permissions :
      (a : ℕ)
      → translate (change_permissions m pgd addr prot) pgd a ≡ expected (translate m pgd addr) a
  translate-change_permissions a = elim (Option-cases (get_pte m pgd addr)) [
    | inl gone ↦
        let none_there : translate m pgd addr ≡ none = rw (translate, gone) refl in
        rw (kept_absent gone) (sym (ap (λ x. expected x a) none_there))
    | inr ((pt, i), found) ↦
        let there : translate m pgd addr ≡ some (m.entry pt i) = rw (translate, found) refl in
        elim (Bool-cases (m.refcount (frame_of (m.entry pt i)) == 1)) [
          | inl single ↦ rw (changed pt i found single) (
              written pt i found a
              ∙ sym (ap (λ x. expected x a) there ∙ one_user (m.entry pt i) a single))
          | inr shared ↦
              rw (kept_shared pt i found shared)
                (sym (ap (λ x. expected x a) there ∙ many_users (m.entry pt i) a shared))
        ]
  ]

  written-IsTree :
      (pt i : ℕ)
      → get_pte m pgd addr ≡ some (pt, i)
      → IsTree in_use kernel place pgd (set_entry m pt i (new_bits prot (m.entry pt i)))
  written-IsTree pt i found =
      let e : Entry in_use kernel place pgd m tree addr pt i =
        get_pte-Entry in_use kernel place pgd m tree addr pt i found in
      let v = new_bits prot (m.entry pt i) in
      write-IsTree in_use kernel place pgd m (set_entry m pt i v) tree pt addr v e.reached
        (λ t j. ap (λ k. update2 m.entry pt k v t j) e.index) refl

  -- The tables stay where they are, and so do the counts.
  pub change_permissions-IsTree :
      IsTree in_use kernel place pgd (change_permissions m pgd addr prot)
      × ((change_permissions m pgd addr prot).refcount ≡ m.refcount)
  change_permissions-IsTree = elim (Option-cases (get_pte m pgd addr)) [
    | inl gone ↦ rw (kept_absent gone) (tree, refl)
    | inr ((pt, i), found) ↦ elim (Bool-cases (m.refcount (frame_of (m.entry pt i)) == 1)) [
      | inl single ↦ rw (changed pt i found single) (written-IsTree pt i found, refl)
      | inr shared ↦ rw (kept_shared pt i found shared) (tree, refl)
    ]
  ]
