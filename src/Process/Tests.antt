-- ===== src/Process/Tests.antt =====
-- A process with one area and one page of it, and a call of `munmap`.
use operating_systems_cs.Base.{
  ℕ, ◌+◌, ◌≡◌, refl, ◌<◌, ◌≤◌, Option, none, some, List, [], ◌∷◌, arith,
}
use operating_systems_cs.Frames.Source.{page_list_source}
use operating_systems_cs.MemoryMap.Areas.{area, area_start, area_end, page_round}
use operating_systems_cs.MemoryMap.View.{flags_at}
use operating_systems_cs.PageTable.Lookup.{translate}
use operating_systems_cs.PageTable.Sample.{
  only_page, sample, sample_place, sample-IsTree, os_entries, tables_left, user_left,
}
use operating_systems_cs.Process.{Process, munmap, page_fault, mprotect}
use operating_systems_cs.Process.Release.{IsCoherent, IsReleased, munmap-IsReleased}
use operating_systems_cs.MemoryMap.Protect.{vm_area_mprotect}
use operating_systems_cs.Process.Protect.{IsProtected, mprotect-IsProtected}
use operating_systems_cs.Process.Fault.{page_fault-IsCoherent}

-- The page at 0x180200000 has a frame, the second page of the area has none.
abbrev one_page : Process page_list_source
one_page = record {
  table = record { vm_area = area 0x180200000 0x180202000 3 ∷ []; num_vm_area = 1 };
  machine = sample;
}

one_page_covered :
    (a : ℕ)
    → area_start ≤ a
    → a < area_end
    → flags_at (area 0x180200000 0x180202000 3 ∷ []) a ≡ none
    → translate sample 1 a ≡ none
unfolding flags_at
one_page_covered a low high gone = only_page a high (ground arith)

one_page-IsCoherent : IsCoherent page_list_source os_entries sample_place 1 0x180200000 one_page
one_page-IsCoherent = record {
  sorted = ground arith;
  tree = sample-IsTree;
  covered = one_page_covered;
}

round_up : page_round 5000 ≡ 8192
unfolding page_round
round_up = refl

munmap-IsReleased_example :
    IsReleased page_list_source os_entries sample_place 1 0x180200000 one_page one_page-IsCoherent
      0x180200000
      (0x180200000 + page_round 5000)
      (munmap page_list_source one_page 1 0x180200000 5000).1
munmap-IsReleased_example =
    munmap-IsReleased page_list_source os_entries sample_place 1 0x180200000 one_page
      one_page-IsCoherent 0x180200000 5000 refl (omega (arith, round_up)) (omega (arith, round_up))

page_fault-IsCoherent_example :
    (place' : ℕ → Option (List ℕ)) × IsCoherent page_list_source os_entries place' 1 0x180200000
      (page_fault page_list_source one_page 1 0x180201010 6).1
page_fault-IsCoherent_example =
    page_fault-IsCoherent page_list_source os_entries sample_place 1 0x180200000 one_page
      one_page-IsCoherent (refl, refl, tt) 0x180201010 6 refl refl refl tables_left user_left

protected : (mprotect page_list_source one_page 1 0x180200000 8192 1).0 ≡ some 0
unfolding mprotect vm_area_mprotect page_round
protected = refl

mprotect-IsProtected_example :
    IsProtected page_list_source os_entries sample_place 1 0x180200000 1 sample
      (mprotect page_list_source one_page 1 0x180200000 8192 1).1.machine
unfolding page_round
mprotect-IsProtected_example =
    mprotect-IsProtected page_list_source os_entries sample_place 1 0x180200000 1 one_page 8192
      sample-IsTree (omega arith) (λ e. omega arith) protected
