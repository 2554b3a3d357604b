-- ===== src/MemoryMap/Unmap.antt =====
-- `vm_area_unmap` of Assignment3/Ass3/src/mmap.c. `stop` is `addr+length`.
pub mod Correct
pub mod Calls
pub mod Errors
use operating_systems_cs.Base.{
  ℕ, ◌+◌, ◌≡◌, Bool, true, false, not, ◌&&◌, ◌||◌, Option, none, some, List, [], ◌∷◌, ltb, leb,
  ◌==◌, if◌then◌else◌, add64, length,
}
use operating_systems_cs.MemoryMap.Areas.{
  VmArea, area, area_start, area_end, page_round, Change, edited, allocate, deallocate, behind,
  AreaTable, commit, Outcome, failed, each_page,
}
use mathlib.Core.Option

-- The loop once `flag` is 1.
pub unmap_rest : ℕ → List VmArea → Change
unmap_rest stop [] = edited []
unmap_rest stop (c ∷ r) =
    let rest = unmap_rest stop r in
    if leb stop c.vm_start
    then edited (c ∷ r)
    else if ltb stop c.vm_end
    then edited (record c { vm_start = stop } ∷ r)
    else if c.vm_end == stop
    then deallocate (edited r)
    else deallocate rest

-- The loop while `flag` is 0; `none` is the early `return -1`.
pub unmap_loop : (cnt addr stop : ℕ) → List VmArea → Option Change
unfolding unmap_rest
unmap_loop cnt addr stop [] = some (edited [])
unmap_loop cnt addr stop (c ∷ r) =
    let rest = unmap_loop cnt addr stop r in
    if leb addr c.vm_start
    then some (
        if leb stop c.vm_start
        then edited (c ∷ r)
        else if ltb stop c.vm_end
        then edited (record c { vm_start = stop } ∷ r)
        else deallocate (unmap_rest stop r))
    else if ltb c.vm_start addr && ltb addr c.vm_end
    then (if ltb stop c.vm_end
        then (if cnt == 128
            then none
            else some (
                allocate
                  (edited (record c { vm_end = addr } ∷ area stop c.vm_end c.access_flags ∷ r))))
        else some (behind (record c { vm_end = addr }) (unmap_rest stop r)))
    else Option.map (behind c) rest

unfoldable pub unmap_areas : AreaTable → (addr len : ℕ) → Outcome
unfolding unmap_loop
unmap_areas t addr len = elim (unmap_loop (length t.vm_area) addr (add64 addr len) t.vm_area) [
  | none ↦ failed t
  | some c ↦ record { ret = some 0; table = commit t c; pages = each_page addr (add64 addr len) }
]

unfoldable pub vm_area_unmap : AreaTable → (addr len : ℕ) → Outcome
unfolding unmap_areas
vm_area_unmap t addr len =
    if not (addr == 0) && not (leb area_start addr && leb (add64 addr len) area_end)
    then failed t
    else elim t.vm_area [
      | [] ↦ record { ret = some 0; table = t; pages = [] }
      | _ ∷ _ ↦ unmap_areas t addr (page_round len)
    ]
