-- ===== src/CopyOnWrite/Private.antt =====
-- What `handle_cow_fault` achieves.
use operating_systems_cs.Base.{
  ℕ, ◌+◌, ◌≡◌, refl, ◌<◌, ◌≤◌, ◌^◌, Bool, true, false, ◌&&◌, ◌||◌, Option, none, some, List, arith,
  Bool-cases, Option-cases, inl, inr, ap, ◌∙◌, sym, subst,
}
use operating_systems_cs.Frames.Source.{FrameSource}
use operating_systems_cs.MemoryMap.Areas.{VmArea, page_size}
use operating_systems_cs.MemoryMap.View.{IsSorted}
use operating_systems_cs.PageTable.{Machine, present, user, frame_of, pte_index, get_pte}
use operating_systems_cs.PageTable.Lookup.{translate}
use operating_systems_cs.PageTable.Tree.{IsTree}
use operating_systems_cs.PageTable.Entries.{Entry, get_pte-Entry}
use operating_systems_cs.PageFault.{write_denied}
use operating_systems_cs.CopyOnWrite.{
  Segment, in_area, in_segment, Handled, refused, handled, own_frame, handle_cow_fault,
}
use operating_systems_cs.CopyOnWrite.Allowed.{may_write, checks-may_write}
use operating_systems_cs.CopyOnWrite.Copy.{IsPrivate, own_frame-IsPrivate}

-- A write is handled where the process may write, and refused elsewhere.
pub record IsHandled (src : FrameSource) (kernel : List ℕ → Bool) (place : ℕ → Option (List ℕ))
    (areas : List VmArea) (seg : Segment) (pgd cr2 e : ℕ) (m : Machine src.Pages)
    (answer : Handled src.Pages) : Type 0 where
  pub allowed :
      may_write areas seg cr2 ≡ true
      → (m' : Machine src.Pages) × (answer ≡ handled m') × IsPrivate src kernel place pgd cr2 e m m'
  pub forbidden : may_write areas seg cr2 ≡ false → answer ≡ refused

module _ (src : FrameSource) (kernel : List ℕ → Bool) (place : ℕ → Option (List ℕ)) (pgd : ℕ)
    (m : Machine src.Pages) (tree : IsTree src.in_use kernel place pgd m) (cr2 e : ℕ)
    (tables : (t : ℕ) (p : List ℕ) → place t ≡ some p → src.in_use m.user_pages t ≡ true)
    (there : translate m pgd cr2 ≡ some e) (small : e < 2 ^ 44) (page : place (frame_of e) ≡ none)
    (used : src.in_use m.user_pages (frame_of e) ≡ true) (room : 1 ≤ src.room m.user_pages) where
  at_entry :
      (pt i : ℕ)
      → get_pte m pgd cr2 ≡ some (pt, i)
      → IsPrivate src kernel place pgd cr2 e m (own_frame src m pt i)
  at_entry pt i found =
      let n : Entry src.in_use kernel place pgd m tree cr2 pt i =
        get_pte-Entry src.in_use kernel place pgd m tree cr2 pt i found in
      let read : translate m pgd cr2 ≡ some (m.entry pt i) = rw (translate, found) refl in
      let is : some (m.entry pt i) ≡ some e = sym read ∙ there in
      let entry_is : m.entry pt i ≡ e = ground arith in
      let here : m.entry pt (pte_index cr2) ≡ e = ap (m.entry pt) (sym n.index) ∙ entry_is in
      let shown : (present (m.entry pt (pte_index cr2)) && user (m.entry pt (pte_index cr2)))
          ≡ true =
        subst (λ k. (present (m.entry pt k) && user (m.entry pt k)) ≡ true) n.index n.on in
      let private =
        own_frame-IsPrivate src kernel place pgd m tree pt cr2 n.reached shown (omega (arith, here))
          (ap (λ x. place (frame_of x)) here ∙ page) tables
          (ap (λ x. src.in_use m.user_pages (frame_of x)) here ∙ used) room in
      subst (λ x. IsPrivate src kernel place pgd cr2 x m (own_frame src m pt i)) here
        (subst
          (λ k.
            IsPrivate src kernel place pgd cr2 (m.entry pt (pte_index cr2)) m
              (own_frame src m pt k))
          (sym n.index) private)

  -- If the areas are in order, the tables form a tree and are no frames that the user region has to give,
  -- and the page of the address has a frame of the user region that is no table, and the region has a frame
  -- left, then `handle_cow_fault` returns 1 for an address in a writable area, or in the data segment
  -- outside the areas: the page has a writable frame of its own with the same words, every other page and
  -- frame stays, and the frame it had loses a reference if it was shared. It returns -1 for any other
  -- address.
  pub handle_cow_fault-IsHandled :
      (lo : ℕ) (areas : List VmArea) (seg : Segment)
      → IsSorted lo areas
      → seg.next_free + page_size < 2 ^ 64
      → IsHandled src kernel place areas seg pgd cr2 e m (handle_cow_fault src areas seg m pgd cr2)
  unfolding handle_cow_fault
  handle_cow_fault-IsHandled lo areas seg sorted end =
      let checks = checks-may_write lo areas seg cr2 sorted end in
      elim (Bool-cases (in_area areas cr2 || in_segment seg cr2)) [
        | inr outside ↦
            rw outside (record {
              allowed = λ yes_there. absurd (ground arith);
              forbidden = λ not_there. refl;
            })
        | inl inside ↦ elim (Bool-cases (write_denied areas cr2)) [
          | inl denied ↦
              rw (inside, denied)
                (record {
                  allowed = λ yes_there. absurd (ground arith);
                  forbidden = λ not_there. refl;
                })
          | inr free ↦ elim (Option-cases (get_pte m pgd cr2)) [
            | inl gone ↦ absurd (
                let nothing : translate m pgd cr2 ≡ none = rw (translate, gone) refl in
                let c : none ≡ some e = sym nothing ∙ there in ground arith)
            | inr ((pt, i), found) ↦
                rw (inside, free, found)
                  (record {
                    allowed = λ yes_there. (own_frame src m pt i, refl, at_entry pt i found);
                    forbidden = λ not_there. absurd (ground arith);
                  })
          ]
        ]
      ]
