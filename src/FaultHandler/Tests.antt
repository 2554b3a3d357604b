-- ===== src/FaultHandler/Tests.antt =====
-- A fault below the stack, and the theorem at it.
use operating_systems_cs.Base.{ℕ, ◌≡◌, refl, none, [], arith}
use operating_systems_cs.Frames.Source.{page_list_source}
use operating_systems_cs.PageTable.{get_pte}
use operating_systems_cs.PageTable.Sample.{sample}
use operating_systems_cs.FaultHandler.{Segments, do_page_fault}
use operating_systems_cs.FaultHandler.Served.{
  is_served, stack_after, IsAnswered, do_page_fault-IsAnswered,
}

-- The error code of a read of an absent page by a user.
abbrev user_read : ℕ
user_read = 4

-- The stack begins two pages below its end.
abbrev segments : Segments
segments = record {
  data_segment = record { start = 0x180000000; end = 0x1801fffff; next_free = 0x180002000 };
  rodata = record { start = 0x140000000; end = 0x17fffffff; next_free = 0x140001000 };
  stack = record { start = 0x7ff000000; end = 0x7ffffffff; next_free = 0x7fffff000 };
}

two_pages_down : stack_after segments 0x7ffffd010 user_read ≡ 0x7ffffd000
two_pages_down = refl

do_page_fault-IsAnswered_example :
    IsAnswered
      (is_served [] segments 0x7ffffd010 user_read)
      (stack_after segments 0x7ffffd010 user_read)
      ((user_read ≡ 7) × (get_pte sample 1 0x7ffffd010 ≡ none))
      (do_page_fault page_list_source 1 user_read [] segments sample 0x7ffffd010)
do_page_fault-IsAnswered_example =
    do_page_fault-IsAnswered page_list_source 1 user_read [] segments sample 0x7ffffd010 0 tt
      (omega arith) (omega arith) refl
