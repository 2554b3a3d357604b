-- ===== src/PageTable/Tables.antt =====
-- The tables that are made on the way to an entry.
use operating_systems_cs.Base.{
  ℕ, ◌/◌, ◌%◌, ◌≡◌, ◌<◌, ◌≤◌, Bool, true, false, Option, some, List, [], ◌∷◌, arith, length, ◌∙◌,
}
use operating_systems_cs.Frames.Source.{FrameSource}
use operating_systems_cs.PageTable.{
  Machine, present, descend, next_table, make_tables, pgd_index, pud_index, pmd_index,
}
use operating_systems_cs.PageTable.Lookup.{lookup}
use operating_systems_cs.PageTable.Tree.{IsTree}
use operating_systems_cs.PageTable.Write.{Reached, descend_kept}
use operating_systems_cs.PageTable.Grow.{Below, next_table-Below}

descend-present :
    {P : Type 0} (m : Machine P) (t i s : ℕ) → descend m t i ≡ some s → present (m.entry t i) ≡ true
descend-present m t i s way = ground arith

-- The three tables of an address are there, and every address still has the entry it had.
pub record Tables {P : Type 0} (in_use : P → ℕ → Bool) (kernel : List ℕ → Bool) (pgd i4 i3 i2 : ℕ)
    (m : Machine P) (pt : ℕ) (m' : Machine P) : Type 0 where
  pub place : ℕ → Option (List ℕ)
  pub tree : IsTree in_use kernel place pgd m'
  pub reached : Reached place pgd i4 i3 i2 m' pt
  pub walks : (is : List ℕ) → length is ≡ 4 → lookup m' pgd is ≡ lookup m pgd is
  pub user_region : (m'.user_pages ≡ m.user_pages) × (m'.refcount ≡ m.refcount)

-- What is asked of the bits that a new entry gets.
pub record AreUserBits (flags : ℕ) : Type 0 where
  pub small : flags < 4096
  pub odd : flags % 2 ≡ 1
  pub user_bit : flags / 4 % 2 ≡ 1

pub make_tables-Tables :
    (src : FrameSource) (kernel : List ℕ → Bool) (place : ℕ → Option (List ℕ)) (pgd : ℕ)
    (m : Machine src.Pages) (flags addr : ℕ)
    → IsTree src.in_use kernel place pgd m
    → AreUserBits flags
    → kernel (pgd_index addr ∷ []) ≡ false
    → kernel (pud_index addr ∷ pgd_index addr ∷ []) ≡ false
    → kernel (pmd_index addr ∷ pud_index addr ∷ pgd_index addr ∷ []) ≡ false
    → 3 ≤ src.room m.pt_pages
    → Tables src.in_use kernel pgd
        (pgd_index addr)
        (pud_index addr)
        (pmd_index addr)
        m
        (make_tables src flags m pgd addr).0
        (make_tables src flags m pgd addr).1
unfolding make_tables
make_tables-Tables src kernel place pgd m flags addr tree bits k4 k3 k2 room =
    let (pud, m1) = next_table src flags m pgd (pgd_index addr) in
    let b1 : Below src.in_use src.room kernel place pgd m pgd (pgd_index addr) [] pud m1 =
      next_table-Below src kernel place pgd m tree pgd (pgd_index addr) [] tree.root (omega arith)
        k4 flags bits.small bits.odd bits.user_bit (omega arith) in
    let (pmd, m2) = next_table src flags m1 pud (pud_index addr) in
    let b2 : Below src.in_use src.room kernel b1.place' pgd m1 pud (pud_index addr)
        (pgd_index addr ∷ []) pmd m2 =
      next_table-Below src kernel b1.place' pgd m1 b1.tree pud (pud_index addr)
        (pgd_index addr ∷ []) b1.there (omega arith) k3 flags bits.small bits.odd bits.user_bit
        (omega (arith, b1.left)) in
    let (pt, m3) = next_table src flags m2 pmd (pmd_index addr) in
    let b3 : Below src.in_use src.room kernel b2.place' pgd m2 pmd (pmd_index addr)
        (pud_index addr ∷ pgd_index addr ∷ []) pt m3 =
      next_table-Below src kernel b2.place' pgd m2 b2.tree pmd (pmd_index addr)
        (pud_index addr ∷ pgd_index addr ∷ []) b2.there (omega arith) k2 flags bits.small bits.odd
        bits.user_bit (omega (arith, b1.left, b2.left)) in
    let pgd2 = b1.grown pgd [] tree.root in
    let way2 =
      descend_kept m1 m2 pgd (pgd_index addr) pud b1.way (
        b2.kept pgd (pgd_index addr) [] pgd2
          (descend-present m1 pgd (pgd_index addr) pud b1.way)) in
    let way3 = descend_kept m2 m3 pgd (pgd_index addr) pud way2 (
      b3.kept pgd (pgd_index addr) [] (b2.grown pgd [] pgd2)
        (descend-present m2 pgd (pgd_index addr) pud way2)) in
    let pud3 = b2.grown pud (pgd_index addr ∷ []) b1.there in
    record {
      place = b3.place';
      tree = b3.tree;
      reached = record {
        at = b3.there;
        pud = pud;
        pmd = pmd;
        pud_at = b3.grown pud (pgd_index addr ∷ []) pud3;
        pmd_at = b3.grown pmd (pud_index addr ∷ pgd_index addr ∷ []) b2.there;
        to_pud = way3;
        to_pmd = descend_kept m2 m3 pud (pud_index addr) pmd b2.way (
            b3.kept pud (pud_index addr) (pgd_index addr ∷ []) pud3
              (descend-present m2 pud (pud_index addr) pmd b2.way));
        to_pt = b3.way;
      };
      walks = λ is len. b3.walks is len ∙ b2.walks is len ∙ b1.walks is len;
      user_region = (
        b3.user_region.0 ∙ b2.user_region.0 ∙ b1.user_region.0,
        b3.user_region.1 ∙ b2.user_region.1 ∙ b1.user_region.1,
      );
    }
