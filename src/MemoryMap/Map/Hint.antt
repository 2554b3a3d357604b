-- ===== src/MemoryMap/Map/Hint.antt =====
-- The walk for a hint address in `vm_area_map` of Assignment3/Ass3/src/mmap.c.
pub mod Correct
pub mod Walks
pub mod Elsewhere
use operating_systems_cs.Base.{
  ℕ, ◌+◌, Bool, true, false, ◌&&◌, List, [], ◌∷◌, ◌++◌, ltb, leb, ◌==◌, if◌then◌else◌, add64, sub64,
}
use operating_systems_cs.MemoryMap.Areas.{VmArea, area_start, area_end, Change, edited, allocate}
use operating_systems_cs.MemoryMap.Map.Gaps.{
  Request, Attempt, placed, full, no_room, or_else, then_behind, limited, new_area, place_front,
  fill_gap, search_gaps, search_below,
}

-- `taken` is `flag == 1` with `ret == -1`: the areas before `curr`, and those from `curr` on.
pub data Walk : Type 0 where
  settled : Attempt → Walk
  taken : (before at : List VmArea) → Walk

unfoldable pub walk_behind : VmArea → Walk → Walk
unfolding then_behind
walk_behind c (settled a) = settled (then_behind c a)
walk_behind c (taken before at) = taken (c ∷ before) at

-- The hint lies in front of the first area `c`.
unfoldable pub hint_front : Request → ℕ → VmArea → List VmArea → Walk
hint_front q addr c r =
    if ltb (add64 addr q.len) c.vm_start
    then settled (limited q addr (new_area q addr ∷ c ∷ r))
    else if add64 addr q.len == c.vm_start
    then settled (
        if c.access_flags == q.prot
        then placed (sub64 c.vm_start q.len)
            (edited (record c { vm_start = sub64 c.vm_start q.len } ∷ r))
        else limited q addr (new_area q addr ∷ c ∷ r))
    else taken [] (c ∷ r)

-- The hint lies strictly between the areas `c` and `n`.
unfoldable pub hint_between : Request → ℕ → (c n : VmArea) → List VmArea → Walk
hint_between q addr c n r =
    if ltb (add64 addr q.len) n.vm_start
    then settled (limited q addr (c ∷ new_area q addr ∷ n ∷ r))
    else if add64 addr q.len == n.vm_start
    then settled (
        if n.access_flags == q.prot
        then placed (sub64 n.vm_start q.len)
            (edited (c ∷ record n { vm_start = sub64 n.vm_start q.len } ∷ r))
        else limited q addr (c ∷ new_area q addr ∷ n ∷ r))
    else taken (c ∷ []) (n ∷ r)

-- What follows the loop, at the last area. Where the last area grows, the code returns its start.
unfoldable pub hint_last : Request → ℕ → VmArea → Walk
hint_last q addr c =
    if ltb area_end (add64 addr q.len)
    then taken (c ∷ []) []
    else if leb c.vm_start addr && ltb addr c.vm_end
    then taken [] (c ∷ [])
    else settled (
        if addr == c.vm_end
        then (if c.access_flags == q.prot
            then placed c.vm_start (edited (record c { vm_end = add64 c.vm_end q.len } ∷ []))
            else limited q c.vm_end (c ∷ new_area q c.vm_end ∷ []))
        else limited q addr (c ∷ new_area q addr ∷ []))

-- The hint is the end of `c`.
unfoldable pub hint_behind : Request → (c n : VmArea) → List VmArea → Walk
unfolding fill_gap
hint_behind q c n r = elim (fill_gap q c n r) [
  | no_room ↦ taken [] (c ∷ n ∷ r)
  | full ↦ settled full
  | placed ret e ↦ settled (placed ret e)
]

-- The loop over the areas.
unfoldable pub hint_loop : Request → ℕ → List VmArea → Walk
unfolding hint_last hint_behind hint_between walk_behind
hint_loop q addr [] = taken [] []
hint_loop q addr (c ∷ []) = hint_last q addr c
hint_loop q addr (c ∷ n ∷ r) =
    let rest = hint_loop q addr (n ∷ r) in
    if leb c.vm_start addr && ltb addr c.vm_end
    then taken [] (c ∷ n ∷ r)
    else if addr == c.vm_end
    then hint_behind q c n r
    else if ltb c.vm_end addr && ltb addr n.vm_start
    then hint_between q addr c n r
    else walk_behind c rest

unfoldable pub hint_walk : Request → ℕ → List VmArea → Walk
unfolding hint_front hint_loop
hint_walk q addr [] = settled (
    if ltb area_end (add64 addr q.len)
    then (if ltb area_end (add64 area_start q.len)
        then no_room
        else placed area_start (allocate (edited (new_area q area_start ∷ []))))
    else placed addr (allocate (edited (new_area q addr ∷ []))))
hint_walk q addr (c ∷ r) =
    if ltb addr c.vm_start then hint_front q addr c r else hint_loop q addr (c ∷ r)

unfoldable pub then_behind_all : List VmArea → Attempt → Attempt
unfolding then_behind
then_behind_all [] a = a
then_behind_all (c ∷ r) a = then_behind c (then_behind_all r a)

-- The hint was taken: the gaps from `curr` on, the front of the region, the gaps below the hint.
unfoldable pub map_elsewhere : Request → ℕ → (before at : List VmArea) → Attempt
unfolding search_gaps place_front search_below then_behind_all or_else
map_elsewhere q addr before at =
    or_else (then_behind_all before (search_gaps q at))
      (or_else (place_front q (before ++ at)) (search_below q addr (before ++ at)))

unfoldable pub map_at : Request → (fixed : Bool) → ℕ → List VmArea → Attempt
unfolding hint_walk map_elsewhere
map_at q fixed addr l = elim (hint_walk q addr l) [
  | settled a ↦ a
  | taken before at ↦ if fixed then no_room else map_elsewhere q addr before at
]
