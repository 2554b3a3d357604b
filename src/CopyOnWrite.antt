-- ===== src/CopyOnWrite.antt =====
-- `handle_cow_fault` of Assignment3/Ass3/src/cfork.c: a write to a page that is present but read-only. The
-- words of a frame are its entries, whether it is a table or a page of a user.
pub mod Allowed
pub mod Copy
pub mod Private
mod Tests
use operating_systems_cs.Base.{
  ℕ, zero, suc, ◌+◌, ◌-◌, ◌*◌, ◌/◌, ◌%◌, ◌^◌, Bool, true, false, not, ◌&&◌, ◌||◌, ltb, leb, ◌==◌,
  Option, none, some, List, [], ◌∷◌, if◌then◌else◌, add64,
}
use operating_systems_cs.Threads.{update}
use operating_systems_cs.Frames.Source.{FrameSource}
use operating_systems_cs.MemoryMap.Areas.{VmArea, page_size}
use operating_systems_cs.MemoryMap.View.{within}
use operating_systems_cs.PageTable.{Machine, frame_of, get_pte, set_entry, alloc_user}
use operating_systems_cs.PageFault.{write_denied}

-- The loop over the areas that sets `flag`.
pub in_area : List VmArea → (cr2 : ℕ) → Bool
in_area [] cr2 = false
in_area (c ∷ r) cr2 = within c.vm_start c.vm_end cr2 || in_area r cr2

-- The loop over the pages of the data segment.
pub data_loop : (fuel vaddr next_free cr2 : ℕ) → Bool
data_loop zero vaddr next_free cr2 = false
data_loop (suc fuel) vaddr next_free cr2 =
    let rest = data_loop fuel (add64 vaddr page_size) next_free cr2 in
    if not (ltb vaddr next_free)
    then false
    else if within vaddr (add64 vaddr page_size) cr2
    then true
    else rest

-- The segment `mms[MM_SEG_DATA]`; each round goes on by a page, up to `next_free`.
pub record Segment : Type 0 where
  pub start : ℕ
  pub end : ℕ
  pub next_free : ℕ

abbrev pub in_segment : Segment → (cr2 : ℕ) → Bool
in_segment seg cr2 =
    data_loop ((seg.next_free - seg.start) / page_size + 1) seg.start seg.next_free cr2

-- `*entry & FLAG_MASK`, as the number of a frame.
abbrev pub masked_frame : ℕ → ℕ
masked_frame e = e / 4096 % 2 ^ 34

-- `memcpy` of a page.
abbrev pub copy_frame : {P : Type 0} → Machine P → (to from : ℕ) → Machine P
copy_frame m to from = record m { entry = λ t i. if to == t then m.entry from i else m.entry t i }

-- `crashed` is the access through the null pointer that `get_user_pte` returns.
pub data Handled (P : Type 0) : Type 0 where
  refused : Handled P
  crashed : Handled P
  handled : Machine P → Handled P

module _ (src : FrameSource) where
  -- The entry `i` of a table gets a frame of its own.
  pub own_frame : Machine src.Pages → (table i : ℕ) → Machine src.Pages
  own_frame m table i =
      let e = m.entry table i in
      let f = frame_of e in
      if m.refcount f == 1
      then set_entry m table i (e / 4 * 4 + 3)
      else let (g, m') =
          alloc_user src
            (record m { refcount = update m.refcount f ((m.refcount f + 255) % 256) }) in
        set_entry (copy_frame m' g (masked_frame (m'.entry table i))) table i (g * 4096 + 7)

  unfoldable pub handle_cow_fault :
      List VmArea → Segment → Machine src.Pages → (pgd cr2 : ℕ) → Handled src.Pages
  unfolding in_area data_loop write_denied get_pte own_frame
  handle_cow_fault areas seg m pgd cr2 =
      if not (in_area areas cr2 || in_segment seg cr2)
      then refused
      else if write_denied areas cr2
      then refused
      else elim (get_pte m pgd cr2) [
        | none ↦ crashed
        | some (table, i) ↦ handled (own_frame m table i)
      ]
