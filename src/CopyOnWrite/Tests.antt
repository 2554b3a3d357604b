-- ===== src/CopyOnWrite/Tests.antt =====
-- A page that two processes share, and a write to it.
use operating_systems_cs.Base.{ℕ, ◌≡◌, refl, true, some, List, [], ◌∷◌, arith, ◌==◌, if◌then◌else◌}
use operating_systems_cs.Frames.{PageList}
use operating_systems_cs.Frames.Source.{page_list_source}
use operating_systems_cs.MemoryMap.Areas.{VmArea, area}
use operating_systems_cs.PageTable.{Machine, get_pte}
use operating_systems_cs.PageTable.Tree.{IsTree}
use operating_systems_cs.PageTable.Sample.{
  sample, sample_place, sample-IsTree, os_entries, user_left,
}
use operating_systems_cs.CopyOnWrite.{Segment, handle_cow_fault}
use operating_systems_cs.CopyOnWrite.Private.{IsHandled, handle_cow_fault-IsHandled}

-- The frame 9000 has two users.
abbrev shared_sample : Machine PageList
shared_sample = record sample { refcount = λ f. if f == 9000 then 2 else 0 }

shared_sample-IsTree : IsTree page_list_source.in_use os_entries sample_place 1 shared_sample
shared_sample-IsTree = record {
  root = sample-IsTree.root;
  child = sample-IsTree.child;
  user_entries = sample-IsTree.user_entries;
  tables_used = sample-IsTree.tables_used;
}

abbrev data_segment : Segment
data_segment = record { start = 0x180000000; end = 0x180200000; next_free = 0x180001000 }

abbrev writable_area : List VmArea
writable_area = area 0x180200000 0x180202000 3 ∷ []

tables_apart :
    (t : ℕ) (p : List ℕ)
    → sample_place t ≡ some p
    → page_list_source.in_use shared_sample.user_pages t ≡ true
tables_apart t p at = ground arith

handle_cow_fault-IsHandled_example :
    IsHandled page_list_source os_entries sample_place writable_area data_segment 1 0x180200010
      36864007 shared_sample
      (handle_cow_fault page_list_source writable_area data_segment shared_sample 1 0x180200010)
unfolding get_pte
handle_cow_fault-IsHandled_example =
    handle_cow_fault-IsHandled page_list_source os_entries sample_place 1 shared_sample
      shared_sample-IsTree 0x180200010 36864007 tables_apart refl (omega arith) refl refl user_left
      0x180200000 writable_area data_segment (ground arith) (omega arith)
