-- ===== src/Process/Release.antt =====
-- What `munmap` achieves for the address space and the page tables together.
use operating_systems_cs.Base.{
  ℕ, ◌+◌, ◌-◌, ◌*◌, ◌/◌, ◌%◌, ◌^◌, ◌≡◌, ◌≢◌, refl, true, false, Bool, ◌<◌, ◌≤◌, ltb, Option, none,
  some, List, [], arith, inl, inr, Bool-cases, get_elem?, ◌∙◌, sym, ap, ap₂, subst,
}
use operating_systems_cs.Frames.Source.{FrameSource}
use operating_systems_cs.MemoryMap.Areas.{
  area_start, area_end, AreaTable, page_round, each_page, each_page-get_elem?, page_size,
}
use operating_systems_cs.MemoryMap.View.{flags_at, within, IsSorted, Remapped}
use operating_systems_cs.MemoryMap.Unmap.{vm_area_unmap}
use operating_systems_cs.MemoryMap.Unmap.Calls.{unmap-Remapped}
use operating_systems_cs.PageTable.Lookup.{translate}
use operating_systems_cs.PageTable.Tree.{IsTree}
use operating_systems_cs.PageTable.Write.{page_of}
use operating_systems_cs.Process.{Process, munmap, unmap_pages}
use operating_systems_cs.Process.Cases.{vm_area_unmap-Ended}
use operating_systems_cs.Process.Pages.{
  unmap_pages-IsTree, unmap_pages-none, unmap_pages_listed, unmap_pages_other,
}

-- No user page is reached in the mapped region except through an area.
pub record IsCoherent (src : FrameSource) (kernel : List ℕ → Bool) (place : ℕ → Option (List ℕ))
    (pgd lo : ℕ) (p : Process src) : Type 0 where
  pub sorted : IsSorted lo p.table.vm_area
  pub tree : IsTree src.in_use kernel place pgd p.machine
  pub covered :
      (a : ℕ)
      → area_start ≤ a
      → a < area_end
      → flags_at p.table.vm_area a ≡ none
      → translate p.machine pgd a ≡ none

-- Each page of an aligned range is on the list.
listed :
    (addr stop a : ℕ)
    → stop ≤ 2 ^ 48
    → addr % 4096 ≡ 0
    → within addr stop a ≡ true
    → (k : ℕ) × (p : ℕ) × (get_elem? (each_page addr stop) k ≡ some p) × (page_of a ≡ page_of p)
listed addr stop a room aligned inside =
    let k = (a - addr) / 4096 in
    let p = addr + page_size * k in
    let early : ltb p stop ≡ true = ground arith in
    (k, p, each_page-get_elem? addr stop k (omega arith) ∙ rw early refl, ground arith)

not_listed :
    (addr stop a k p : ℕ)
    → stop ≤ 2 ^ 48
    → addr % 4096 ≡ 0
    → stop % 4096 ≡ 0
    → a < 2 ^ 48
    → within addr stop a ≡ false
    → get_elem? (each_page addr stop) k ≡ some p
    → page_of a ≢ page_of p
not_listed addr stop a k p room aligned end small outside at same =
    let which = each_page-get_elem? addr stop k (omega arith) in
    elim (Bool-cases (ltb (addr + page_size * k) stop)) [
      | inl early ↦
          let is : some (addr + page_size * k) ≡ some p = sym (which ∙ rw early refl) ∙ at in
          let here : addr + page_size * k ≡ p = ground arith in ground arith
      | inr late ↦ let is : none ≡ some p = sym (which ∙ rw late refl) ∙ at in ground arith
    ]

page_round-aligned : (n : ℕ) → page_round n % 4096 ≡ 0
unfolding page_round
page_round-aligned n = ground arith

module _ (src : FrameSource) (kernel : List ℕ → Bool) (place : ℕ → Option (List ℕ)) (pgd lo : ℕ)
    (p : Process src) (before : IsCoherent src kernel place pgd lo p) (addr : ℕ) where
  -- What the call leaves of the process, when it goes to these pages.
  abbrev finish : AreaTable → List ℕ → Process src
  finish t pages = record { table = t; machine = unmap_pages src p.machine pgd pages }

  -- The process is coherent, and pages outside the range have the frames that they had.
  pub record IsReleased (stop : ℕ) (p' : Process src) : Type 0 where
    pub coherent : IsCoherent src kernel place pgd lo p'
    pub others :
        (a : ℕ)
        → a < 2 ^ 48
        → within addr stop a ≡ false
        → translate p'.machine pgd a ≡ translate p.machine pgd a

  unchanged : (stop : ℕ) → IsReleased stop (finish p.table [])
  unfolding unmap_pages
  unchanged stop = record { coherent = before; others = λ a small outside. refl }

  released :
      (stop : ℕ) (t : AreaTable)
      → stop ≤ 2 ^ 48
      → addr % 4096 ≡ 0
      → stop % 4096 ≡ 0
      → Remapped lo addr stop (λ _. none) p.table t
      → IsReleased stop (finish t (each_page addr stop))
  released stop t room aligned end remapped = record {
    coherent = record {
      sorted = remapped.sorted;
      tree = unmap_pages-IsTree src kernel place pgd (each_page addr stop) p.machine before.tree;
      covered = λ a low high gone. elim (Bool-cases (within addr stop a)) [
        | inl inside ↦
            let (k, q, at, same) = listed addr stop a room aligned inside in
            unmap_pages_listed src kernel place pgd (each_page addr stop) p.machine a k q
              before.tree at same
        | inr outside ↦
            let was : flags_at p.table.vm_area a ≡ none =
              sym (remapped.flags a ∙ rw outside refl) ∙ gone in
            unmap_pages-none src kernel place pgd (each_page addr stop) p.machine a before.tree
              (before.covered a low high was)
      ];
    };
    others = λ a small outside.
        unmap_pages_other src kernel place pgd (each_page addr stop) p.machine a before.tree
          (λ k q at. not_listed addr stop a k q room aligned end small outside at);
  }

  -- If a process is coherent, so it is after `munmap` of a range that starts at a page and lies within
  -- 48-bit addresses, with a length that is not 0, whatever the call returns: the areas are in order, the
  -- tables form a tree, and no address of the mapped region that lies in no area has a frame. Pages outside
  -- the range keep their frames.
  pub munmap-IsReleased :
      (len : ℕ)
      → addr % 4096 ≡ 0
      → 0 < page_round len
      → addr + page_round len ≤ 2 ^ 48
      → IsReleased (addr + page_round len) (munmap src p pgd addr len).1
  unfolding munmap
  munmap-IsReleased len aligned pos room =
      let o = vm_area_unmap p.table addr len in
      let stop = addr + page_round len in
      let end : stop % 4096 ≡ 0 = omega (arith, page_round-aligned len) in
      elim (vm_area_unmap-Ended p.table addr len) [
        | inl (same, no_pages) ↦
            subst (IsReleased stop) (ap₂ finish (sym same) (sym no_pages)) (unchanged stop)
        | inr (ok, pages) ↦
            let remapped = unmap-Remapped lo p.table addr len before.sorted (omega arith) pos ok in
            let goes : each_page addr stop ≡ o.pages =
              ap (each_page addr) (omega arith) ∙ sym pages in
            subst (IsReleased stop) (ap (finish o.table) goes)
              (released stop o.table room aligned end remapped)
      ]
