-- ===== src/MemoryMap/Protect.antt =====
-- `vm_area_mprotect` of Assignment3/Ass3/src/mmap.c. `stop` is `addr+length`.
pub mod Correct
pub mod Calls
pub mod Range
use operating_systems_cs.Base.{
  ℕ, ◌+◌, Bool, true, false, not, ◌&&◌, ◌||◌, none, some, List, [], ◌∷◌, Option, ltb, leb, ◌==◌,
  if◌then◌else◌, add64, length,
}
use operating_systems_cs.MemoryMap.Areas.{
  VmArea, area, area_start, area_end, page_round, Change, edited, allocate, deallocate, behind,
  AreaTable, commit, Outcome, failed, each_page,
}

-- The check for a continuous range, once `flag` is 1; `prev_end` is `prev->vm_end`.
pub range_continues : (stop prev_end : ℕ) → List VmArea → Bool
range_continues stop prev_end [] = true
range_continues stop prev_end (c ∷ r) =
    let rest = range_continues stop c.vm_end r in
    if not (c.vm_start == prev_end)
    then false
    else if leb stop c.vm_end
    then true
    else elim r [ [] ↦ false | _ ∷ _ ↦ rest ]

-- The same check while `flag` is 0.
pub range_found : (addr stop : ℕ) → List VmArea → Bool
unfolding range_continues
range_found addr stop [] = true
range_found addr stop (c ∷ r) =
    let rest = range_found addr stop r in
    if leb c.vm_start addr && ltb addr c.vm_end
    then (if leb stop c.vm_end then true else range_continues stop c.vm_end r)
    else elim r [ [] ↦ false | n ∷ _ ↦ if ltb addr n.vm_start then false else rest ]

-- How many areas the range meets.
pub span_count : (addr stop : ℕ) → List VmArea → ℕ
span_count addr stop [] = 0
span_count addr stop (c ∷ r) =
    let rest = span_count addr stop r in
    if ltb addr c.vm_start
    then (if ltb c.vm_start stop && leb stop c.vm_end
        then 1
        else if leb c.vm_end stop
        then 1 + rest
        else rest)
    else if ltb addr c.vm_end
    then (if leb stop c.vm_end then 1 else 1 + rest)
    else rest

abbrev pub has_flags : ℕ → Option VmArea → Bool
has_flags prot none = false
has_flags prot (some c) = prot == c.access_flags

abbrev pub first_of_chain : List VmArea → Option VmArea
first_of_chain [] = none
first_of_chain (c ∷ r) = some c

-- The limit of 128 areas where the range meets one area.
pub one_allowed : (cnt addr stop prot : ℕ) (prev : Option VmArea) → List VmArea → Bool
one_allowed cnt addr stop prot prev [] = true
one_allowed cnt addr stop prot prev (c ∷ r) =
    let rest = one_allowed cnt addr stop prot (some c) r in
    if addr == c.vm_start
    then (if stop == c.vm_end
        then true
        else if c.access_flags == prot || has_flags prot prev
        then true
        else if leb 128 cnt
        then false
        else rest)
    else if ltb c.vm_start addr && ltb addr c.vm_end
    then (if stop == c.vm_end
        then (if c.access_flags == prot || has_flags prot (first_of_chain r)
            then true
            else if leb 128 cnt
            then false
            else rest)
        else if c.access_flags == prot
        then true
        else if leb 127 cnt
        then false
        else rest)
    else rest

-- The limit where the range meets two areas. With no next area the code would read through a null
-- pointer; the range then meets one area only.
pub two_allowed : (cnt addr stop prot : ℕ) → List VmArea → Bool
two_allowed cnt addr stop prot [] = true
two_allowed cnt addr stop prot (c ∷ r) =
    let rest = two_allowed cnt addr stop prot r in
    if addr == c.vm_start
    then true
    else if ltb c.vm_start addr && ltb addr c.vm_end
    then elim r [
      | [] ↦ true
      | n ∷ _ ↦
          if stop == n.vm_end
          then true
          else if c.access_flags == prot || n.access_flags == prot
          then true
          else if leb 128 cnt
          then false
          else rest
    ]
    else rest

pub protect_allowed : (addr stop prot : ℕ) → List VmArea → Bool
unfolding span_count one_allowed two_allowed
protect_allowed addr stop prot l =
    let span = span_count addr stop l in
    if span == 1
    then one_allowed (length l) addr stop prot none l
    else if span == 2
    then two_allowed (length l) addr stop prot l
    else true

-- The loop that sets the flags without merging, once `flag` is 1.
pub protect_rest : (stop prot : ℕ) → List VmArea → Change
protect_rest stop prot [] = edited []
protect_rest stop prot (c ∷ r) =
    let rest = protect_rest stop prot r in
    if ltb stop c.vm_end
    then (if c.access_flags == prot
        then edited (c ∷ r)
        else allocate (edited (area c.vm_start stop prot ∷ record c { vm_start = stop } ∷ r)))
    else if stop == c.vm_end
    then edited (record c { access_flags = prot } ∷ r)
    else behind (record c { access_flags = prot }) rest

-- The same loop while `flag` is 0. An area that is split off before the range goes on is the next
-- one that the loop meets, and it keeps its flags there.
pub protect_loop : (addr stop prot : ℕ) → List VmArea → Change
unfolding protect_rest
protect_loop addr stop prot [] = edited []
protect_loop addr stop prot (c ∷ r) =
    let rest = protect_loop addr stop prot r in
    if addr == c.vm_start
    then (if ltb stop c.vm_end
        then (if c.access_flags == prot
            then edited (c ∷ r)
            else allocate (edited (area addr stop prot ∷ record c { vm_start = stop } ∷ r)))
        else if stop == c.vm_end
        then edited (record c { access_flags = prot } ∷ r)
        else behind (record c { access_flags = prot }) (protect_rest stop prot r))
    else if ltb c.vm_start addr && ltb addr c.vm_end
    then (if ltb stop c.vm_end
        then (if c.access_flags == prot
            then edited (c ∷ r)
            else allocate (
                allocate (
                  edited (
                    record c { vm_end = addr }
                    ∷ area addr stop prot
                    ∷ area stop c.vm_end c.access_flags
                    ∷ r))))
        else if stop == c.vm_end
        then (if c.access_flags == prot
            then edited (c ∷ r)
            else allocate (edited (record c { vm_end = addr } ∷ area addr c.vm_end prot ∷ r)))
        else if c.access_flags == prot
        then behind c (protect_rest stop prot r)
        else allocate (
            behind (record c { vm_end = addr })
              (behind (area addr c.vm_end prot) (protect_rest stop prot r))))
    else behind c rest

-- The merge of touching areas with equal flags; the first argument is `prev`.
pub merge_from : VmArea → List VmArea → Change
merge_from p [] = edited (p ∷ [])
merge_from p (c ∷ r) = elim (p.vm_end == c.vm_start && p.access_flags == c.access_flags) [
  | true ↦ deallocate (merge_from (record p { vm_end = c.vm_end }) r)
  | false ↦ behind p (merge_from c r)
]

pub merge_areas : List VmArea → Change
unfolding merge_from
merge_areas [] = edited []
merge_areas (c ∷ r) = merge_from c r

abbrev pub then_merge : Change → Change
then_merge c =
    let m = merge_areas c.areas in
    record { areas = m.areas; allocated = c.allocated + m.allocated; freed = c.freed + m.freed }

-- Each round of the loop over the pages calls `change_permissions(current, addr, prot)`: with the start of
-- the range, not with the page of the round.
unfoldable pub same_page : (addr : ℕ) → List ℕ → List ℕ
same_page addr [] = []
same_page addr (i ∷ r) = addr ∷ same_page addr r

unfoldable pub protect_areas : AreaTable → (addr len prot : ℕ) → VmArea → Outcome
unfolding range_found protect_allowed protect_loop merge_areas same_page
protect_areas t addr len prot head =
    if ltb addr head.vm_start
    then failed t
    else if not (range_found addr (add64 addr len) t.vm_area)
    then failed t
    else if not (protect_allowed addr (add64 addr len) prot t.vm_area)
    then failed t
    else record {
      ret = some 0;
      table = commit t (then_merge (protect_loop addr (add64 addr len) prot t.vm_area));
      pages = same_page addr (each_page addr (add64 addr len));
    }

unfoldable pub vm_area_mprotect : AreaTable → (addr len prot : ℕ) → Outcome
unfolding protect_areas
vm_area_mprotect t addr len prot =
    if not (leb area_start addr && leb (add64 addr len) area_end)
    then failed t
    else if page_round len == 0
    then record { ret = some 0; table = t; pages = [] }
    else elim t.vm_area [ [] ↦ failed t | c ∷ _ ↦ protect_areas t addr (page_round len) prot c ]
