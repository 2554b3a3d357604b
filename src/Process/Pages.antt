-- ===== src/Process/Pages.antt =====
-- What the unmapping of several pages does to the translation of an address.
use operating_systems_cs.Base.{
  ℕ, zero, suc, ◌≡◌, ◌≢◌, refl, true, false, Bool, ◌==◌, Option, none, some, List, [], ◌∷◌, arith,
  get_elem?, ◌∙◌, sym, ap,
}
use native.Mathlib.Decide.{ℕ_discrete}
use operating_systems_cs.Frames.Source.{FrameSource}
use operating_systems_cs.PageTable.{Machine, pfn_unmap}
use operating_systems_cs.PageTable.Lookup.{translate}
use operating_systems_cs.PageTable.Tree.{IsTree}
use operating_systems_cs.PageTable.Write.{page_of}
use operating_systems_cs.PageTable.Unmap.{pfn_unmap-IsDropped, pfn_unmap-IsTree}
use operating_systems_cs.Process.{unmap_pages}

module _ (src : FrameSource) (kernel : List ℕ → Bool) (place : ℕ → Option (List ℕ)) (pgd : ℕ) where
  abbrev Tree : Machine src.Pages → Type 0
  Tree m = IsTree src.in_use kernel place pgd m

  one_page :
      (m : Machine src.Pages) (p a : ℕ)
      → Tree m
      → page_of a ≡ page_of p
      → translate (pfn_unmap src m pgd p) pgd a ≡ none
  one_page m p a tree same =
      let is : (page_of a == page_of p) ≡ true = ground arith in
      (pfn_unmap-IsDropped src kernel place pgd m tree p).0 a ∙ rw is refl

  other_page :
      (m : Machine src.Pages) (p a : ℕ)
      → Tree m
      → page_of a ≢ page_of p
      → translate (pfn_unmap src m pgd p) pgd a ≡ translate m pgd a
  other_page m p a tree other =
      let is : (page_of a == page_of p) ≡ false = ground arith in
      (pfn_unmap-IsDropped src kernel place pgd m tree p).0 a ∙ rw is refl

  pub unmap_pages-IsTree :
      (ps : List ℕ) (m : Machine src.Pages) → Tree m → Tree (unmap_pages src m pgd ps)
  unfolding unmap_pages
  unmap_pages-IsTree [] m tree = tree
  unmap_pages-IsTree (p ∷ r) m tree =
      unmap_pages-IsTree r (pfn_unmap src m pgd p) (pfn_unmap-IsTree src kernel place pgd m tree p)

  -- A page without a frame gets none.
  pub unmap_pages-none :
      (ps : List ℕ) (m : Machine src.Pages) (a : ℕ)
      → Tree m
      → translate m pgd a ≡ none
      → translate (unmap_pages src m pgd ps) pgd a ≡ none
  unfolding unmap_pages
  unmap_pages-none [] m a tree gone = gone
  unmap_pages-none (p ∷ r) m a tree gone =
      unmap_pages-none r (pfn_unmap src m pgd p) a (pfn_unmap-IsTree src kernel place pgd m tree p)
        (elim (ℕ_discrete (page_of a) (page_of p)) [
          | yes same ↦ one_page m p a tree same
          | no other ↦ other_page m p a tree other ∙ gone
        ])

  -- A page on the list loses its frame.
  pub unmap_pages_listed :
      (ps : List ℕ) (m : Machine src.Pages) (a k p : ℕ)
      → Tree m
      → get_elem? ps k ≡ some p
      → page_of a ≡ page_of p
      → translate (unmap_pages src m pgd ps) pgd a ≡ none
  unfolding unmap_pages
  unmap_pages_listed [] m a k p tree at same = absurd (ground arith)
  unmap_pages_listed (q ∷ r) m a zero p tree at same =
      let first : q ≡ p = ground arith in
      unmap_pages-none r (pfn_unmap src m pgd q) a (pfn_unmap-IsTree src kernel place pgd m tree q)
        (one_page m q a tree (same ∙ ap page_of (sym first)))
  unmap_pages_listed (q ∷ r) m a (suc k) p tree at same =
      unmap_pages_listed r (pfn_unmap src m pgd q) a k p
        (pfn_unmap-IsTree src kernel place pgd m tree q) at same

  -- Other pages keep theirs.
  pub unmap_pages_other :
      (ps : List ℕ) (m : Machine src.Pages) (a : ℕ)
      → Tree m
      → ((k p : ℕ) → get_elem? ps k ≡ some p → page_of a ≢ page_of p)
      → translate (unmap_pages src m pgd ps) pgd a ≡ translate m pgd a
  unfolding unmap_pages
  unmap_pages_other [] m a tree apart = refl
  unmap_pages_other (q ∷ r) m a tree apart =
      unmap_pages_other r (pfn_unmap src m pgd q) a (pfn_unmap-IsTree src kernel place pgd m tree q)
        (λ k p at. apart (suc k) p at)
      ∙ other_page m q a tree (apart 0 q refl)
