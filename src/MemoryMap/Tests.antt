-- ===== src/MemoryMap/Tests.antt =====
-- Runs of the memory map on small address spaces, and its theorems at concrete inputs.
use mathlib.Core.Option
use operating_systems_cs.Base.{
  ℕ, ◌≡◌, ◌≢◌, ◌<◌, ◌⊎◌, refl, none, some, [], ◌∷◌, arith, length, get_elem?, ◌≤◌,
}
use operating_systems_cs.MemoryMap.Areas.{VmArea, area, AreaTable, failed, page_round, each_page}
use operating_systems_cs.MemoryMap.View.{flags_at, Remapped}
use operating_systems_cs.MemoryMap.Unmap.{vm_area_unmap}
use operating_systems_cs.MemoryMap.Unmap.Calls.{unmap-Remapped}
use operating_systems_cs.MemoryMap.Unmap.Errors.{Refusal, unmap-fails, unmap-limit, unmap-pages}
use operating_systems_cs.MemoryMap.Protect.{vm_area_mprotect}
use operating_systems_cs.MemoryMap.Protect.Correct.{IsMerged}
use operating_systems_cs.MemoryMap.Protect.Calls.{mprotect-Remapped}
use operating_systems_cs.MemoryMap.Protect.Range.{
  mprotect-mapped, mprotect_beyond_end, mprotect-IsMerged,
}
use operating_systems_cs.MemoryMap.Map.Call.{vm_area_map}
use operating_systems_cs.MemoryMap.Map.Call.Correct.{
  NewRange, map_anywhere-NewRange, map_at-NewRange,
}
use operating_systems_cs.MemoryMap.Map.Hint.Correct.{GrowsLast}
use operating_systems_cs.MemoryMap.Map.Call.Limit.{map_behind_last}
use operating_systems_cs.MemoryMap.Map.Call.Complete.{map_anywhere_succeeds}

abbrev first : VmArea
first = area 0x180200000 0x180202000 3

abbrev second : VmArea
second = area 0x180204000 0x180206000 1

abbrev two_areas : AreaTable
two_areas = record { vm_area = first ∷ second ∷ []; num_vm_area = 2 }

unmap_middle :
    (vm_area_unmap two_areas 0x180201000 0x3001).table.vm_area
    ≡ area 0x180200000 0x180201000 3 ∷ area 0x180205000 0x180206000 1 ∷ []
unfolding vm_area_unmap page_round each_page
unmap_middle = refl

unmap-Remapped_example :
    Remapped 0 0x180201000 0x180205000
      (λ _. none)
      two_areas
      (vm_area_unmap two_areas 0x180201000 0x3001).table
unfolding vm_area_unmap page_round each_page
unmap-Remapped_example =
    unmap-Remapped 0 two_areas 0x180201000 0x3001 (omega arith) (omega arith) (omega arith) refl

unmap-fails_example :
    (vm_area_unmap two_areas 0x1000 0x1000 ≡ failed two_areas) × Refusal two_areas 0x1000 0x1000
unfolding vm_area_unmap
unmap-fails_example = unmap-fails two_areas 0x1000 0x1000 refl

unmap-limit_example : length (vm_area_unmap two_areas 0x180200000 0x1000).table.vm_area ≤ 128
unmap-limit_example = unmap-limit two_areas 0x180200000 0x1000 (omega arith)

unmap_second_page :
    get_elem? (vm_area_unmap two_areas 0x180200000 0x2000).pages 1 ≡ some 0x180201000
unfolding vm_area_unmap page_round each_page
unmap_second_page = unmap-pages first (second ∷ []) 2 0x180200000 0x2000 1 (omega arith) refl

mprotect_middle :
    (vm_area_mprotect two_areas 0x180201000 0x1000 1).table.vm_area
    ≡ area 0x180200000 0x180201000 3 ∷ area 0x180201000 0x180202000 1 ∷ second ∷ []
unfolding vm_area_mprotect page_round each_page
mprotect_middle = refl

mprotect-Remapped_example :
    Remapped 0 0x180201000 0x180202000
      (Option.map (λ _. 1))
      two_areas
      (vm_area_mprotect two_areas 0x180201000 0x1000 1).table
unfolding vm_area_mprotect page_round each_page
mprotect-Remapped_example =
    mprotect-Remapped 0 two_areas 0x180201000 0x1000 1 (omega arith) (omega arith) refl

mprotect-mapped_example : flags_at two_areas.vm_area 0x180201080 ≢ none
unfolding vm_area_mprotect page_round each_page flags_at
mprotect-mapped_example =
    mprotect-mapped 0 two_areas 0x180201000 0x1000 1 (omega arith) (omega arith) refl (cc)
      0x180201080 (omega arith) (omega arith)

mprotect-IsMerged_example : IsMerged (vm_area_mprotect two_areas 0x180201000 0x1000 1).table.vm_area
unfolding vm_area_mprotect page_round each_page
mprotect-IsMerged_example = mprotect-IsMerged two_areas 0x180201000 0x1000 1 refl (omega arith)

protect_beyond_end :
    (vm_area_mprotect (record { vm_area = first ∷ []; num_vm_area = 1 }) 0x180201000 0x5000 1).ret
    ≡ some 0
unfolding page_round
protect_beyond_end =
    mprotect_beyond_end first 1 0x180201000 0x5000 1 (omega arith) (omega arith) (omega arith)
      (omega arith) (omega arith) (omega arith)

map_first_gap :
    (vm_area_map two_areas 0 0x1800 5 0).table.vm_area
    ≡ first ∷ area 0x180202000 0x180204000 5 ∷ second ∷ []
unfolding vm_area_map page_round
map_first_gap = refl

map_anywhere-NewRange_example :
    NewRange 0 0x180202000 0x2000 5 two_areas (vm_area_map two_areas 0 0x1800 5 0).table
unfolding vm_area_map page_round
map_anywhere-NewRange_example =
    map_anywhere-NewRange 0 two_areas 0x1800 5 0 0x180202000 (omega arith) (omega arith)
      (omega arith) (omega arith) (omega arith) refl

map_at-NewRange_example :
    (from : ℕ) × NewRange 0 from 0x1000 3 two_areas
      (vm_area_map two_areas 0x180203000 0x1000 3 0).table
    × ((0x180203000 ≡ from)
        ⊎ ((from ≡ 0x180203000) × GrowsLast 0x180203000 from 3 two_areas.vm_area))
unfolding vm_area_map page_round
map_at-NewRange_example =
    map_at-NewRange 0 two_areas 0x1000 3 0x180203000 0 0x180203000 (omega arith) (omega arith)
      (omega arith) (omega arith) (omega arith) (omega arith) refl

map_anywhere_succeeds_example :
    (r : ℕ) × ((vm_area_map two_areas 0 0x1800 5 0).ret ≡ some r)
    × NewRange 0 r 0x2000 5 two_areas (vm_area_map two_areas 0 0x1800 5 0).table
unfolding page_round flags_at
map_anywhere_succeeds_example =
    map_anywhere_succeeds 0 two_areas 0x1800 5 0 0x180206000 (omega arith) (omega arith)
      (omega arith) (omega arith) (omega arith) (omega arith) (omega arith) (omega arith)
      (λ y le lt. ground arith)

map_behind_last_example :
    ((vm_area_map two_areas 0x180206000 0x1000 1 0).ret ≡ some 0x180204000)
    × (0x180204000 < 0x180206000)
    × NewRange 0 0x180206000 0x1000 1 two_areas (vm_area_map two_areas 0x180206000 0x1000 1 0).table
unfolding page_round
map_behind_last_example =
    map_behind_last 0 two_areas 0x180204000 0x180206000 0x1000 1 0 (omega arith) (omega arith)
      (omega arith) (omega arith) (omega arith) (omega arith) (omega arith) (omega arith)
      (ground arith)
