-- ===== src/FaultHandler.antt =====
-- `do_page_fault` of Assignment3/Ass3/src/entry.c: which part of the address space a fault belongs to, and
-- what is done there. The segments are those of `mms`; only the stack's `next_free` changes.
pub mod Served
mod Tests
use operating_systems_cs.Base.{
  ℕ, zero, suc, ◌+◌, ◌-◌, ◌*◌, ◌/◌, ◌%◌, ◌^◌, Bool, true, false, not, ◌&&◌, ltb, leb, ◌==◌, Option,
  none, some, List, if◌then◌else◌, sub64,
}
use operating_systems_cs.Frames.Source.{FrameSource}
use operating_systems_cs.MemoryMap.Areas.{VmArea, area_start, area_end, page_size}
use operating_systems_cs.PageTable.{Machine, install_page_table}
use operating_systems_cs.PageFault.{vm_area_pagefault}
use operating_systems_cs.CopyOnWrite.{Segment, Handled, refused, crashed, handled, handle_cow_fault}

pub record Segments : Type 0 where
  pub data_segment : Segment
  pub rodata : Segment
  pub stack : Segment

-- `signalled` is `SIGSEGV`, `stuck` the access through a null pointer in `handle_cow_fault`; `returned` has
-- `next_free` of the stack afterwards, and `endless` is a loop that runs out of fuel.
pub data Answer (P : Type 0) : Type 0 where
  signalled : Answer P
  stuck : Answer P
  returned : Machine P → (next_free : ℕ) → Answer P
  endless : Answer P

-- The test on the bounds of a segment.
abbrev pub is_inside : Segment → (cr2 : ℕ) → Bool
is_inside seg cr2 = leb seg.start cr2 && leb cr2 seg.end

abbrev pub page_start : ℕ → ℕ
page_start cr2 = cr2 / page_size * page_size

abbrev pub cow_answer : {P : Type 0} → (next_free : ℕ) → Handled P → Answer P
cow_answer n refused = signalled
cow_answer n crashed = stuck
cow_answer n (handled m) = returned m n

module _ (src : FrameSource) (pgd error_code : ℕ) where
  -- The loop that moves `next_free` of the stack down to the page of the fault.
  pub stack_loop :
      (fuel : ℕ) → Machine src.Pages → (next_free page : ℕ) → Option (Machine src.Pages)
  stack_loop zero m next_free page = none
  stack_loop (suc fuel) m next_free page =
      let next = sub64 next_free page_size in
      let rest = stack_loop fuel (install_page_table src m pgd next error_code) next page in
      if next_free == page then some m else rest

  -- The page of the fault is installed once more behind the loop.
  abbrev pub stack_answer : (page : ℕ) → Option (Machine src.Pages) → Answer src.Pages
  stack_answer page none = endless
  stack_answer page (some m) = returned (install_page_table src m pgd page error_code) page

  pub grow_stack : Machine src.Pages → (next_free cr2 : ℕ) → Answer src.Pages
  unfolding stack_loop
  grow_stack m next_free cr2 =
      stack_answer (page_start cr2)
        (stack_loop (suc ((next_free - page_start cr2) / page_size)) m next_free (page_start cr2))

  abbrev pub area_answer : (next_free : ℕ) → Option ℕ × Machine src.Pages → Answer src.Pages
  area_answer n (none, m) = signalled
  area_answer n (some _, m) = returned m n

  unfoldable pub do_page_fault :
      List VmArea → Segments → Machine src.Pages → (cr2 : ℕ) → Answer src.Pages
  unfolding grow_stack handle_cow_fault vm_area_pagefault
  do_page_fault areas mms m cr2 =
      let n = mms.stack.next_free in
      if error_code == 7
      then cow_answer n (handle_cow_fault src areas mms.data_segment m pgd cr2)
      else if error_code % 2 == 1
      then signalled
      else if is_inside mms.data_segment cr2
      then (if ltb cr2 mms.data_segment.next_free
          then returned (install_page_table src m pgd cr2 error_code) n
          else signalled)
      else if is_inside mms.rodata cr2
      then (if ltb cr2 mms.rodata.next_free && (error_code / 2 % 2 == 0)
          then returned (install_page_table src m pgd cr2 error_code) n
          else signalled)
      else if is_inside mms.stack cr2
      then (if ltb cr2 n then grow_stack m n cr2 else signalled)
      else if leb area_start cr2 && leb cr2 area_end
      then area_answer n (vm_area_pagefault src areas m pgd cr2 error_code)
      else signalled
