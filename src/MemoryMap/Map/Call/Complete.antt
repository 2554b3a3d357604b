-- ===== src/MemoryMap/Map/Call/Complete.antt =====
-- When a call of `vm_area_map` without a hint succeeds.
use operating_systems_cs.Base.{ℕ, ◌+◌, ◌≡◌, refl, ◌<◌, ◌≤◌, true, some, arith, ◌^◌, length}
use operating_systems_cs.MemoryMap.Areas.{AreaTable, area_start, area_end, page_round}
use operating_systems_cs.MemoryMap.View.{IsSorted, EndsBy}
use operating_systems_cs.MemoryMap.Map.Gaps.{Attempt, placed, full, no_room, map_anywhere}
use operating_systems_cs.MemoryMap.Map.Gaps.Complete.{is_placed, IsFree, map_anywhere-is_placed}
use operating_systems_cs.MemoryMap.Map.Call.{finish, request, vm_area_map}
use operating_systems_cs.MemoryMap.Map.Call.Correct.{NewRange, map_anywhere-NewRange}

finish-ret :
    (t : AreaTable) (len flags : ℕ) (a : Attempt)
    → is_placed a ≡ true
    → (r : ℕ) × ((finish t len flags a).ret ≡ some r)
unfolding finish
finish-ret t len flags (placed r c) e = (r, refl)
finish-ret t len flags full e = absurd (ground arith)
finish-ret t len flags no_room e = absurd (ground arith)

-- If the process has fewer than 128 areas, they are in order and in the region, and some range of the
-- rounded length, which is positive and below 2^32, is free in the region, then a call of
-- `vm_area_map` without a hint returns an address, and maps the rounded length from that address on
-- with the given flags, on a range that was free; no other address changes.
pub map_anywhere_succeeds :
    (lo : ℕ) (t : AreaTable) (len prot flags x : ℕ)
    → lo ≤ area_start
    → IsSorted lo t.vm_area
    → EndsBy area_end t.vm_area
    → 0 < page_round len
    → page_round len < 2 ^ 32
    → length t.vm_area < 128
    → area_start ≤ x
    → x + page_round len ≤ area_end
    → IsFree t.vm_area x (page_round len)
    → (r : ℕ) × ((vm_area_map t 0 len prot flags).ret ≡ some r)
      × NewRange lo r (page_round len) prot t (vm_area_map t 0 len prot flags).table
unfolding vm_area_map
map_anywhere_succeeds lo t len prot flags x low s b pos small few above inside free =
    let found =
      map_anywhere-is_placed (request t len prot) pos small few x inside lo t.vm_area s b above
        free in
    let (r, e) =
      finish-ret t (page_round len) flags (map_anywhere (request t len prot) t.vm_area) found in
    (r, e, map_anywhere-NewRange lo t len prot flags r low s b pos small e)
