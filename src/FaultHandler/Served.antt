-- ===== src/FaultHandler/Served.antt =====
-- Which faults `do_page_fault` serves, and how far the stack grows.
use operating_systems_cs.Base.{
  ℕ, zero, suc, ◌+◌, ◌-◌, ◌*◌, ◌/◌, ◌%◌, ◌^◌, ◌≡◌, ◌⊎◌, refl, ◌<◌, Bool, true, false, not, ◌&&◌,
  ◌||◌, ltb, leb, ◌==◌, none, some, List, if◌then◌else◌, sub64, arith, Bool-cases, Option-cases,
  inl, inr, sym, ◌∙◌,
}
use operating_systems_cs.Frames.Source.{FrameSource}
use operating_systems_cs.MemoryMap.Areas.{VmArea, area_start, area_end, page_size}
use operating_systems_cs.MemoryMap.View.{IsSorted}
use operating_systems_cs.PageTable.{Machine, install_page_table, get_pte}
use operating_systems_cs.PageFault.{vm_area_pagefault, passes, write_denied}
use operating_systems_cs.PageFault.Allowed.{allowed, passes-allowed}
use operating_systems_cs.CopyOnWrite.{handle_cow_fault, in_area, in_segment}
use operating_systems_cs.CopyOnWrite.Allowed.{may_write, checks-may_write}
use operating_systems_cs.FaultHandler.{
  Segments, Answer, signalled, stuck, returned, is_inside, page_start, cow_answer, stack_loop,
  grow_stack, area_answer, do_page_fault,
}

-- The faults on absent pages that are served, by the parts of the address space.
abbrev pub may_fault : List VmArea → Segments → (cr2 error_code : ℕ) → Bool
may_fault areas mms cr2 error_code =
    if is_inside mms.data_segment cr2
    then ltb cr2 mms.data_segment.next_free
    else if is_inside mms.rodata cr2
    then ltb cr2 mms.rodata.next_free && (error_code / 2 % 2 == 0)
    else if is_inside mms.stack cr2
    then ltb cr2 mms.stack.next_free
    else allowed areas cr2 error_code

-- All faults that are served.
abbrev pub is_served : List VmArea → Segments → (cr2 error_code : ℕ) → Bool
is_served areas mms cr2 error_code =
    if error_code == 7
    then may_write areas mms.data_segment cr2
    else not (error_code % 2 == 1) && may_fault areas mms cr2 error_code

-- Where the stack begins after a fault.
abbrev pub stack_after : Segments → (cr2 error_code : ℕ) → ℕ
stack_after mms cr2 error_code =
    if not (error_code == 7)
      && not (is_inside mms.data_segment cr2)
      && not (is_inside mms.rodata cr2)
      && is_inside mms.stack cr2
    then page_start cr2
    else mms.stack.next_free

module _ (src : FrameSource) (pgd error_code : ℕ) where
  stack_loop-ends :
      (rounds : ℕ) (m : Machine src.Pages) (next_free page : ℕ)
      → next_free < 2 ^ 64
      → next_free ≡ page + page_size * rounds
      → (m' : Machine src.Pages) × (stack_loop src pgd error_code (suc rounds) m next_free page
          ≡ some m')
  unfolding stack_loop
  stack_loop-ends zero m next_free page small at =
      let here : (next_free == page) ≡ true = ground arith in (m, rw here refl)
  stack_loop-ends (suc rounds) m next_free page small at =
      let there : (next_free == page) ≡ false = ground arith in
      let (m', run) =
        stack_loop-ends rounds (install_page_table src m pgd (sub64 next_free page_size) error_code)
          (sub64 next_free page_size) page (omega arith) (omega (arith, at)) in
      (m', rw there run)

  grow_stack-ends :
      (m : Machine src.Pages) (next_free cr2 : ℕ)
      → next_free < 2 ^ 64
      → next_free % page_size ≡ 0
      → cr2 < next_free
      → (m' : Machine src.Pages) × (grow_stack src pgd error_code m next_free cr2
          ≡ returned m' (page_start cr2))
  unfolding grow_stack
  grow_stack-ends m next_free cr2 small aligned below =
      let (m', run) =
        stack_loop-ends ((next_free - page_start cr2) / page_size) m next_free (page_start cr2)
          small (omega (arith, aligned)) in
      (install_page_table src m' pgd (page_start cr2) error_code, rw (run, grow_stack) refl)

-- Where a fault is served, the stack afterwards begins where it should; all others get the signal.
-- `get_user_pte` finds no entry only where the page of a copy-on-write fault is absent.
pub record IsAnswered {P : Type 0} (served : Bool) (next_free : ℕ) (no_entry : Type 0)
    (answer : Answer P) : Type 0 where
  pub serves :
      served ≡ true
      → ((m' : Machine P) × (answer ≡ returned m' next_free)) ⊎ (no_entry × (answer ≡ stuck))
  pub signals : served ≡ false → answer ≡ signalled

served_by :
    {P : Type 0} (b : Bool) (n : ℕ) (no_entry : Type 0) (m' : Machine P) (answer : Answer P)
    → answer ≡ (if b then returned m' n else signalled)
    → IsAnswered b n no_entry answer
served_by b n no_entry m' answer e = record {
  serves = λ t. inl (m', e ∙ rw t refl);
  signals = λ t. e ∙ rw t refl;
}

module _ (src : FrameSource) (pgd error_code : ℕ) (areas : List VmArea) (mms : Segments)
    (m : Machine src.Pages) (cr2 lo : ℕ) (sorted : IsSorted lo areas)
    (data_end : mms.data_segment.next_free + page_size < 2 ^ 64)
    (stack_end : mms.stack.next_free < 2 ^ 64) (aligned : mms.stack.next_free % page_size ≡ 0) where
  abbrev NoEntry : Type 0
  NoEntry = (error_code ≡ 7) × (get_pte m pgd cr2 ≡ none)

  cow-IsAnswered :
      error_code ≡ 7
      → IsAnswered
          (may_write areas mms.data_segment cr2)
          mms.stack.next_free
          NoEntry
          (cow_answer mms.stack.next_free (handle_cow_fault src areas mms.data_segment m pgd cr2))
  unfolding handle_cow_fault
  cow-IsAnswered seven =
      let checks = checks-may_write lo areas mms.data_segment cr2 sorted data_end in
      elim (Bool-cases (in_area areas cr2 || in_segment mms.data_segment cr2)) [
        | inr outside ↦
            rw outside
              (record { serves = λ yes_there. absurd (ground arith); signals = λ not_there. refl })
        | inl inside ↦ elim (Bool-cases (write_denied areas cr2)) [
          | inl denied ↦
              rw (inside, denied)
                (record {
                  serves = λ yes_there. absurd (ground arith);
                  signals = λ not_there. refl;
                })
          | inr free ↦ elim (Option-cases (get_pte m pgd cr2)) [
            | inl gone ↦
                rw (inside, free, gone)
                  (record {
                    serves = λ yes_there. inr ((seven, refl), refl);
                    signals = λ not_there. absurd (ground arith);
                  })
            | inr ((pt, i), found) ↦
                rw (inside, free, found)
                  (record {
                    serves = λ yes_there. inl (_, refl);
                    signals = λ not_there. absurd (ground arith);
                  })
          ]
        ]
      ]

  stack-IsAnswered : IsAnswered (ltb cr2 mms.stack.next_free) (page_start cr2) NoEntry (
      if ltb cr2 mms.stack.next_free
      then grow_stack src pgd error_code m mms.stack.next_free cr2
      else signalled)
  stack-IsAnswered = elim (Bool-cases (ltb cr2 mms.stack.next_free)) [
    | inr above ↦ rw above (record { serves = λ t. absurd (ground arith); signals = λ t. refl })
    | inl below ↦
        let (m', run) =
          grow_stack-ends src pgd error_code m mms.stack.next_free cr2 stack_end aligned
            (ground arith) in
        rw below (record { serves = λ t. inl (m', run); signals = λ t. absurd (ground arith) })
  ]

  area-IsAnswered : IsAnswered (allowed areas cr2 error_code) mms.stack.next_free NoEntry (
      if leb area_start cr2 && leb cr2 area_end
      then area_answer src pgd error_code mms.stack.next_free
          (vm_area_pagefault src areas m pgd cr2 error_code)
      else signalled)
  unfolding vm_area_pagefault
  area-IsAnswered =
      let checks = passes-allowed lo cr2 error_code areas sorted in
      elim (Bool-cases (leb area_start cr2 && leb cr2 area_end)) [
        | inr outside ↦
            let no : allowed areas cr2 error_code ≡ false = ground arith in
            rw (outside, no) (record { serves = λ t. absurd (ground arith); signals = λ t. refl })
        | inl inside ↦ elim (Bool-cases (passes areas cr2 error_code)) [
          | inl pass ↦
              let yes_allowed : allowed areas cr2 error_code ≡ true = sym checks ∙ pass in
              rw (inside, pass, yes_allowed)
                (record { serves = λ t. inl (_, refl); signals = λ t. absurd (ground arith) })
          | inr stop ↦
              let no : allowed areas cr2 error_code ≡ false = sym checks ∙ stop in
              rw (inside, stop, no)
                (record { serves = λ t. absurd (ground arith); signals = λ t. refl })
        ]
      ]

  -- If the areas are in order, `next_free` of the data segment does not reach the last page of the 64-bit
  -- addresses, and `next_free` of the stack is the start of a page, then `do_page_fault` ends. It sends
  -- `SIGSEGV` exactly for the faults that are not to be served: a write to a present page (error code 7) that is neither in a
  -- writable area nor in the data segment, another fault on a present page, and a fault on an absent page
  -- that is in no segment below its `next_free` and in no area that allows the access, or a write to the
  -- read-only data. For all others it returns, and `next_free` of the stack is the start of the page if the
  -- fault was in the stack, and else as before; a write fault whose page has no entry goes through the null
  -- pointer.
  pub do_page_fault-IsAnswered :
      IsAnswered
        (is_served areas mms cr2 error_code)
        (stack_after mms cr2 error_code)
        NoEntry
        (do_page_fault src pgd error_code areas mms m cr2)
  unfolding do_page_fault
  do_page_fault-IsAnswered = elim (Bool-cases (error_code == 7)) [
    | inl cow ↦ rw cow (cow-IsAnswered (ground arith))
    | inr absent ↦ elim (Bool-cases (error_code % 2 == 1)) [
      | inl odd ↦
          rw (absent, odd) (record { serves = λ t. absurd (ground arith); signals = λ t. refl })
      | inr even ↦ elim (Bool-cases (is_inside mms.data_segment cr2)) [
        | inl in_data ↦
            rw (absent, even, in_data)
              (served_by (ltb cr2 mms.data_segment.next_free) mms.stack.next_free NoEntry
                (install_page_table src m pgd cr2 error_code) _ refl)
        | inr no_data ↦ elim (Bool-cases (is_inside mms.rodata cr2)) [
          | inl in_rodata ↦
              rw (absent, even, no_data, in_rodata)
                (served_by (ltb cr2 mms.rodata.next_free && (error_code / 2 % 2 == 0))
                  mms.stack.next_free NoEntry (install_page_table src m pgd cr2 error_code) _ refl)
          | inr no_rodata ↦ elim (Bool-cases (is_inside mms.stack cr2)) [
            | inl in_stack ↦ rw (absent, even, no_data, no_rodata, in_stack) stack-IsAnswered
            | inr no_stack ↦
                rw (absent, even, no_data, no_rodata, no_stack) (rw even at area-IsAnswered)
          ]
        ]
      ]
    ]
  ]
