-- ===== src/PageFault/Tests.antt =====
-- Page faults of a small process.
use operating_systems_cs.Base.{
  ℕ, ◌==◌, if◌then◌else◌, ◌≡◌, refl, true, Option, none, some, List, [], ◌∷◌, arith,
}
use operating_systems_cs.Frames.{PageList}
use operating_systems_cs.Frames.Source.{page_list_source}
use operating_systems_cs.MemoryMap.Areas.{VmArea, area}
use operating_systems_cs.MemoryMap.View.{IsSorted}
use operating_systems_cs.PageTable.{Machine}
use operating_systems_cs.PageTable.Sample.{region, os_entries, tables_left, user_left}
use operating_systems_cs.PageTable.Tree.{IsTree}
use operating_systems_cs.PageFault.{vm_area_pagefault}
use operating_systems_cs.PageFault.Install.{IsServed, vm_area_pagefault-IsServed}

-- Only the page directory is there, in frame 1.
abbrev fresh_process : Machine PageList
fresh_process = record {
  entry = λ t i. 0;
  refcount = λ f. 0;
  pt_pages = region 5;
  user_pages = region 10000;
  user_reg_pages = 0;
}

abbrev directory_only : ℕ → Option (List ℕ)
directory_only t = if t == 1 then some [] else none

directory_used :
    (t : ℕ) (p : List ℕ) → directory_only t ≡ some p → page_list_source.in_use (region 5) t ≡ true
directory_used t p at = ground arith

fresh_process-IsTree : IsTree page_list_source.in_use os_entries directory_only 1 fresh_process
fresh_process-IsTree = record {
  root = refl;
  child = λ t i p at short on by_user. absurd (ground arith);
  user_entries = λ t i p at short k on. absurd (ground arith);
  tables_used = directory_used;
}

abbrev two_areas : List VmArea
two_areas = area 0x180200000 0x180203000 3 ∷ area 0x180204000 0x180205000 1 ∷ []

two_areas-IsSorted : IsSorted 0x180200000 two_areas
two_areas-IsSorted = ground arith

vm_area_pagefault-IsServed_example :
    IsServed page_list_source os_entries two_areas 1 0x180201008 6 fresh_process
      (vm_area_pagefault page_list_source two_areas fresh_process 1 0x180201008 6).0
      (vm_area_pagefault page_list_source two_areas fresh_process 1 0x180201008 6).1
vm_area_pagefault-IsServed_example =
    vm_area_pagefault-IsServed page_list_source os_entries directory_only 1 fresh_process two_areas
      0x180200000 0x180201008 6 fresh_process-IsTree two_areas-IsSorted refl refl refl tables_left
      user_left

write_refused :
    (vm_area_pagefault page_list_source two_areas fresh_process 1 0x180204000 6).0 ≡ none
unfolding vm_area_pagefault
write_refused = refl
