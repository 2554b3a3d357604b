-- ===== src/MemoryMap/Map/Call.antt =====
-- `vm_area_map` of Assignment3/Ass3/src/mmap.c, with the tests on its arguments.
pub mod Correct
pub mod Complete
pub mod Limit
use operating_systems_cs.Base.{
  ℕ, ◌%◌, ◌/◌, Bool, not, ◌&&◌, some, [], leb, ◌==◌, if◌then◌else◌, add64, length,
}
use operating_systems_cs.MemoryMap.Areas.{
  area_start, area_end, page_round, AreaTable, commit, Outcome, failed, each_page,
}
use operating_systems_cs.MemoryMap.Map.Gaps.{Request, Attempt, placed, full, no_room, map_anywhere}
use operating_systems_cs.MemoryMap.Map.Hint.{map_at}

-- `flags & MAP_FIXED` and `flags & MAP_POPULATE`.
abbrev pub is_fixed : ℕ → Bool
is_fixed flags = flags % 2 == 1

abbrev pub is_populate : ℕ → Bool
is_populate flags = flags / 2 % 2 == 1

-- Each `return -1` stands in front of the first change to the list, so a failed search has none to commit.
unfoldable pub finish : AreaTable → (len flags : ℕ) → Attempt → Outcome
finish t len flags (placed r c) = record {
  ret = some r;
  table = commit t c;
  pages = if is_populate flags then each_page r (add64 r len) else [];
}
finish t len flags full = failed t
finish t len flags no_room = failed t

abbrev pub request : AreaTable → ℕ → ℕ → Request
request t len prot = record { len = page_round len; prot = prot; cnt = length t.vm_area }

unfoldable pub vm_area_map : AreaTable → (addr len prot flags : ℕ) → Outcome
unfolding finish map_anywhere map_at
vm_area_map t addr len prot flags =
    if not (addr == 0) && not (leb area_start addr && leb addr area_end)
    then failed t
    else if not (addr == 0)
        && is_fixed flags
        && not (leb area_start addr && leb (add64 addr len) area_end)
    then failed t
    else finish t (page_round len) flags (
        if addr == 0
        then map_anywhere (request t len prot) t.vm_area
        else map_at (request t len prot) (is_fixed flags) addr t.vm_area)
