-- ===== src/MemoryMap/Map/Gaps.antt =====
-- The searches for a free range in `vm_area_map` of Assignment3/Ass3/src/mmap.c.
pub mod Correct
pub mod Complete
use operating_systems_cs.Base.{
  ℕ, ◌+◌, Bool, true, false, ◌&&◌, List, [], ◌∷◌, ltb, leb, ◌==◌, if◌then◌else◌, add64, sub64,
}
use operating_systems_cs.MemoryMap.Areas.{
  VmArea, area, area_start, area_end, Change, edited, allocate, deallocate, behind,
}

-- The rounded length, the flags, and `cnt`, the number of areas at the call.
pub record Request : Type 0 where
  pub len : ℕ
  pub prot : ℕ
  pub cnt : ℕ

-- `placed` has the address that is returned; `full` is the `return -1` at 128 areas; `no_room` says
-- that the search goes on elsewhere.
pub data Attempt : Type 0 where
  placed : ℕ → Change → Attempt
  full : Attempt
  no_room : Attempt

unfoldable pub then_behind : VmArea → Attempt → Attempt
then_behind a (placed ret c) = placed ret (behind a c)
then_behind a full = full
then_behind a no_room = no_room

-- `b` is where the search goes on if `a` has found no room.
unfoldable pub or_else : Attempt → Attempt → Attempt
or_else (placed ret c) b = placed ret c
or_else full b = full
or_else no_room b = b

-- The areas `l` have one new area among them, unless the limit is reached.
abbrev pub limited : Request → ℕ → List VmArea → Attempt
limited q ret l = if leb 128 q.cnt then full else placed ret (allocate (edited l))

abbrev pub new_area : Request → ℕ → VmArea
new_area q s = area s (add64 s q.len) q.prot

-- In front of the first area, at the start of the region.
unfoldable pub place_front : Request → List VmArea → Attempt
place_front q [] = no_room
place_front q (t ∷ r) =
    if ltb (add64 q.len area_start) t.vm_start
    then limited q area_start (new_area q area_start ∷ t ∷ r)
    else if t.vm_start == add64 q.len area_start
    then (if t.access_flags == q.prot
        then placed area_start (edited (record t { vm_start = sub64 t.vm_start q.len } ∷ r))
        else limited q area_start (new_area q area_start ∷ t ∷ r))
    else no_room

-- Between an area and the next one, directly behind the first.
unfoldable pub fill_gap : Request → (c n : VmArea) → List VmArea → Attempt
fill_gap q c n r =
    let stop = add64 c.vm_end q.len in
    if ltb stop n.vm_start
    then (if c.access_flags == q.prot
        then placed (sub64 stop q.len) (edited (record c { vm_end = stop } ∷ n ∷ r))
        else limited q c.vm_end (c ∷ new_area q c.vm_end ∷ n ∷ r))
    else if stop == n.vm_start
    then (if q.prot == c.access_flags && q.prot == n.access_flags
        then placed c.vm_end (deallocate (edited (record c { vm_end = n.vm_end } ∷ r)))
        else if q.prot == c.access_flags
        then placed (sub64 n.vm_start q.len) (edited (record c { vm_end = n.vm_start } ∷ n ∷ r))
        else if q.prot == n.access_flags
        then placed c.vm_end (edited (c ∷ record n { vm_start = c.vm_end } ∷ r))
        else limited q c.vm_end (c ∷ new_area q c.vm_end ∷ n ∷ r))
    else no_room

-- Behind the last area, as far as the region goes.
unfoldable pub append_last : Request → VmArea → Attempt
append_last q c =
    let stop = add64 c.vm_end q.len in
    if ltb area_end stop
    then no_room
    else if c.access_flags == q.prot
    then placed (sub64 stop q.len) (edited (record c { vm_end = stop } ∷ []))
    else limited q c.vm_end (c ∷ new_area q c.vm_end ∷ [])

-- The first gap that is large enough, from the given area on.
unfoldable pub search_gaps : Request → List VmArea → Attempt
unfolding fill_gap append_last then_behind or_else
search_gaps q [] = no_room
search_gaps q (c ∷ []) = append_last q c
search_gaps q (c ∷ n ∷ r) = or_else (fill_gap q c n r) (then_behind c (search_gaps q (n ∷ r)))

-- The same, as long as an area ends below `addr`.
unfoldable pub search_below : Request → ℕ → List VmArea → Attempt
unfolding fill_gap append_last then_behind or_else
search_below q addr [] = no_room
search_below q addr (c ∷ []) = append_last q c
search_below q addr (c ∷ n ∷ r) =
    let rest = search_below q addr (n ∷ r) in
    if ltb c.vm_end addr then or_else (fill_gap q c n r) (then_behind c rest) else no_room

-- No hint: the front of the region, and then the first gap.
unfoldable pub map_anywhere : Request → List VmArea → Attempt
unfolding place_front search_gaps or_else
map_anywhere q [] =
    if ltb area_end (add64 area_start q.len)
    then no_room
    else placed area_start (allocate (edited (new_area q area_start ∷ [])))
map_anywhere q (c ∷ r) = or_else (place_front q (c ∷ r)) (search_gaps q (c ∷ r))
