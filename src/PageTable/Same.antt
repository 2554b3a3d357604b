-- ===== src/PageTable/Same.antt =====
-- What is written to frames that are no tables of a process changes none of its translations.
use operating_systems_cs.Base.{
  ℕ, ◌+◌, ◌≡◌, refl, true, Option, some, List, [], ◌∷◌, arith, length, ap, ◌∙◌, sym, Bool,
}
use operating_systems_cs.PageTable.{
  Machine, present, user, frame_of, pgd_index, pud_index, pmd_index,
}
use operating_systems_cs.PageTable.Lookup.{lookup, indices, translate, translate-eq-lookup}
use operating_systems_cs.PageTable.Tree.{IsTree, lookup_same}
use operating_systems_cs.PageTable.Write.{Reached, descend_kept}

module _ {P : Type 0} (in_use : P → ℕ → Bool) (kernel : List ℕ → Bool) (place : ℕ → Option (List ℕ))
    (pgd : ℕ) (m m' : Machine P) (tree : IsTree in_use kernel place pgd m)
    (same : (t i : ℕ) (p : List ℕ) → place t ≡ some p → m'.entry t i ≡ m.entry t i) where
  lookup-same :
      (is : List ℕ) (t : ℕ) (p : List ℕ)
      → place t ≡ some p
      → length p + length is ≡ 4
      → lookup m' t is ≡ lookup m t is
  unfolding lookup
  lookup-same [] t p at len = refl
  lookup-same (i ∷ []) t p at len = rw (same t i p at, lookup) refl
  lookup-same (i ∷ j ∷ r) t p at len = lookup_same m m' t i j r (same t i p at) (λ on by_user.
      lookup-same (j ∷ r) (frame_of (m.entry t i)) (i ∷ p)
        (tree.child t i p at (omega arith) on by_user) (omega arith))

  pub translate-same : (a : ℕ) → translate m' pgd a ≡ translate m pgd a
  translate-same a =
      translate-eq-lookup m' pgd a
      ∙ lookup-same (indices a) pgd [] tree.root refl
      ∙ sym (translate-eq-lookup m pgd a)

  pub same-IsTree :
      ((t : ℕ) (p : List ℕ) → place t ≡ some p → in_use m'.pt_pages t ≡ true)
      → IsTree in_use kernel place pgd m'
  same-IsTree used = record {
    root = tree.root;
    child = λ t i p at short on by_user.
        let e = same t i p at in
        ap (λ x. place (frame_of x)) e
        ∙ tree.child t i p at short (ap present (sym e) ∙ on) (ap user (sym e) ∙ by_user);
    user_entries = λ t i p at short own on.
        let e = same t i p at in
        ap user e ∙ tree.user_entries t i p at short own (ap present (sym e) ∙ on);
    tables_used = used;
  }

  pub same-Reached :
      (addr pt : ℕ)
      → Reached place pgd (pgd_index addr) (pud_index addr) (pmd_index addr) m pt
      → Reached place pgd (pgd_index addr) (pud_index addr) (pmd_index addr) m' pt
  same-Reached addr pt r = record {
    at = r.at;
    pud = r.pud;
    pmd = r.pmd;
    pud_at = r.pud_at;
    pmd_at = r.pmd_at;
    to_pud =
        descend_kept m m' pgd (pgd_index addr) r.pud r.to_pud
          (same pgd (pgd_index addr) [] tree.root);
    to_pmd =
        descend_kept m m' r.pud (pud_index addr) r.pmd r.to_pmd
          (same r.pud (pud_index addr) (pgd_index addr ∷ []) r.pud_at);
    to_pt =
        descend_kept m m' r.pmd (pmd_index addr) pt r.to_pt
          (same r.pmd (pmd_index addr) (pud_index addr ∷ pgd_index addr ∷ []) r.pmd_at);
  }
