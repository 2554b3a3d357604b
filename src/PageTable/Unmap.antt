-- ===== src/PageTable/Unmap.antt =====
-- What `pfn_unmap` and `change_permissions` do to the translation of every address.
use operating_systems_cs.Base.{
  ℕ, ◌+◌, ◌%◌, ◌≡◌, refl, Bool, true, false, ◌==◌, Option, none, some, List, if◌then◌else◌, arith,
  Option-cases, Bool-cases, inl, inr, ◌∙◌, sym, ap₂, subst,
}
use native.Mathlib.Decide.{ℕ_discrete}
use operating_systems_cs.Threads.{update}
use operating_systems_cs.Frames.Source.{FrameSource}
use operating_systems_cs.PageTable.{
  Machine, frame_of, update2, set_entry, drop_frame, pfn_unmap, get_pte,
}
use operating_systems_cs.PageTable.Lookup.{translate}
use operating_systems_cs.PageTable.Tree.{IsTree}
use operating_systems_cs.PageTable.Write.{page_of, translate-write, write-IsTree, translate-page_of}
use operating_systems_cs.PageTable.Entries.{Entry, get_pte-Entry}

-- What becomes of the frame of an entry that is cleared: its last reference frees it.
pub record IsDropped (src : FrameSource) (f : ℕ) (m m' : Machine src.Pages) : Type 0 where
  pub count :
      m'.refcount
      ≡ update m.refcount f (if m.refcount f == 1 then 0 else (m.refcount f + 255) % 256)
  pub freed : m'.user_pages ≡ (if m.refcount f == 1 then src.free m.user_pages f else m.user_pages)

module _ (src : FrameSource) (kernel : List ℕ → Bool) (place : ℕ → Option (List ℕ)) (pgd : ℕ)
    (m : Machine src.Pages) (tree : IsTree src.in_use kernel place pgd m) (addr : ℕ) where
  drop-entry : (f : ℕ) → (drop_frame src f m).entry ≡ m.entry
  drop-entry f = elim (Bool-cases (m.refcount f == 1)) [ inl e ↦ rw e refl | inr e ↦ rw e refl ]

  drop-IsDropped : (f : ℕ) → IsDropped src f m (drop_frame src f m)
  drop-IsDropped f = elim (Bool-cases (m.refcount f == 1)) [
    | inl e ↦ record { count = rw e refl; freed = rw e refl }
    | inr e ↦ record { count = rw e refl; freed = rw e refl }
  ]

  unmap_absent : get_pte m pgd addr ≡ none → pfn_unmap src m pgd addr ≡ m
  unfolding pfn_unmap
  unmap_absent gone = rw (pfn_unmap, gone) refl

  unmap_present :
      (pt i : ℕ)
      → get_pte m pgd addr ≡ some (pt, i)
      → pfn_unmap src m pgd addr ≡ set_entry (drop_frame src (frame_of (m.entry pt i)) m) pt i 0
  unfolding pfn_unmap
  unmap_present pt i found = rw (pfn_unmap, found) refl

  absent_page :
      translate m pgd addr ≡ none
      → (a : ℕ)
      → translate m pgd a ≡ (if page_of a == page_of addr then none else translate m pgd a)
  absent_page gone a = elim (ℕ_discrete (page_of a) (page_of addr)) [
    | yes e ↦
        let is : (page_of a == page_of addr) ≡ true = ground arith in
        rw is (translate-page_of m pgd a addr e ∙ gone)
    | no ne ↦ let is : (page_of a == page_of addr) ≡ false = ground arith in rw is refl
  ]

  cleared :
      (pt i : ℕ)
      → get_pte m pgd addr ≡ some (pt, i)
      → (a : ℕ)
      → translate (set_entry (drop_frame src (frame_of (m.entry pt i)) m) pt i 0) pgd a
        ≡ (if page_of a == page_of addr then none else translate m pgd a)
  cleared pt i found a =
      let e : Entry src.in_use kernel place pgd m tree addr pt i =
        get_pte-Entry src.in_use kernel place pgd m tree addr pt i found in
      let f = frame_of (m.entry pt i) in
      translate-write src.in_use kernel place pgd m (set_entry (drop_frame src f m) pt i 0) tree pt
        addr 0 e.reached (λ t j. ap₂ (λ g k. update2 g pt k 0 t j) (drop-entry f) e.index) a

  drop-pt_pages : (f : ℕ) → (drop_frame src f m).pt_pages ≡ m.pt_pages
  drop-pt_pages f = elim (Bool-cases (m.refcount f == 1)) [ inl e ↦ rw e refl | inr e ↦ rw e refl ]

  kept-IsTree :
      (pt i : ℕ)
      → get_pte m pgd addr ≡ some (pt, i)
      → IsTree src.in_use kernel place pgd
          (set_entry (drop_frame src (frame_of (m.entry pt i)) m) pt i 0)
  kept-IsTree pt i found =
      let e : Entry src.in_use kernel place pgd m tree addr pt i =
        get_pte-Entry src.in_use kernel place pgd m tree addr pt i found in
      let f = frame_of (m.entry pt i) in
      write-IsTree src.in_use kernel place pgd m (set_entry (drop_frame src f m) pt i 0) tree pt
        addr 0 e.reached (λ t j. ap₂ (λ g k. update2 g pt k 0 t j) (drop-entry f) e.index)
        (drop-pt_pages f)

  pub pfn_unmap-IsTree : IsTree src.in_use kernel place pgd (pfn_unmap src m pgd addr)
  pfn_unmap-IsTree = elim (Option-cases (get_pte m pgd addr)) [
    | inl gone ↦ rw (unmap_absent gone) tree
    | inr ((pt, i), found) ↦ rw (unmap_present pt i found) (kept-IsTree pt i found)
  ]

  -- If the tables of a process form a tree, then `pfn_unmap` removes the page of the address and keeps the
  -- translation of every other page. The frame of the page loses one reference and is given back to the
  -- allocator exactly when that was the last one.
  pub pfn_unmap-IsDropped :
      ((a : ℕ)
        → translate (pfn_unmap src m pgd addr) pgd a
          ≡ (if page_of a == page_of addr then none else translate m pgd a))
      × ((e : ℕ)
          → translate m pgd addr ≡ some e
          → IsDropped src (frame_of e) m (pfn_unmap src m pgd addr))
  pfn_unmap-IsDropped = elim (Option-cases (get_pte m pgd addr)) [
    | inl gone ↦
        let none_there : translate m pgd addr ≡ none = rw (translate, gone) refl in
        rw (unmap_absent gone) (
          absent_page none_there,
          λ e is. absurd (let c : some e ≡ none = sym is ∙ none_there in ground arith),
        )
    | inr ((pt, i), found) ↦
        let there : translate m pgd addr ≡ some (m.entry pt i) = rw (translate, found) refl in
        rw (unmap_present pt i found) (
          cleared pt i found,
          λ e is.
              let same : some (m.entry pt i) ≡ some e = sym there ∙ is in
              let entry_is : m.entry pt i ≡ e = ground arith in
              let d = drop-IsDropped (frame_of (m.entry pt i)) in
              subst
                (λ x.
                  IsDropped src (frame_of x) m
                    (set_entry (drop_frame src (frame_of (m.entry pt i)) m) pt i 0))
                entry_is (record { count = d.count; freed = d.freed }),
        )
  ]
