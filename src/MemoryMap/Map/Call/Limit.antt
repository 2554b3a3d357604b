-- ===== src/MemoryMap/Map/Call/Limit.antt =====
-- A call of `vm_area_map` with the end of the last area as its hint.
use operating_systems_cs.Base.{
  ℕ, ◌+◌, ◌≡◌, ◌≢◌, ◌<◌, ◌≤◌, false, Bool, not, ◌&&◌, none, some, List, [], ◌∷◌, arith, inl, inr,
  leb, ◌==◌, add64, ◌^◌, subst,
}
use operating_systems_cs.MemoryMap.Areas.{
  VmArea, Change, edited, AreaTable, area_start, area_end, page_round,
}
use operating_systems_cs.MemoryMap.View.{flags_at, IsSorted, EndsBy}
use operating_systems_cs.MemoryMap.Map.Gaps.{Request, placed, then_behind}
use operating_systems_cs.MemoryMap.Map.Hint.{
  Walk, settled, walk_behind, hint_last, hint_loop, hint_walk, map_at,
}
use operating_systems_cs.MemoryMap.Map.Hint.Correct.{GrowsLast}
use operating_systems_cs.MemoryMap.Map.Call.Correct.{NewRange, map_at-NewRange}
use operating_systems_cs.MemoryMap.Map.Call.{is_fixed, finish, request, vm_area_map}

-- The last area ends at `addr` and has the flags; all the others lie below it.
abbrev EndsAt : ℕ → ℕ → ℕ → List VmArea → Type 0
EndsAt start addr prot [] = ⊥
EndsAt start addr prot (c ∷ []) =
    (c.vm_start ≡ start) × (c.vm_end ≡ addr) × (c.vm_start < addr) × (c.access_flags ≡ prot)
EndsAt start addr prot (c ∷ n ∷ r) =
    (c.vm_start < addr) × (c.vm_end < addr) × (n.vm_start < addr) × EndsAt start addr prot (n ∷ r)

abbrev Placed : ℕ → Walk → Type 0
Placed ret w = (e : Change) × (w ≡ settled (placed ret e))

hint_loop_grows :
    (q : Request) (start addr : ℕ) (l : List VmArea)
    → addr + q.len ≤ area_end
    → EndsAt start addr q.prot l
    → Placed start (hint_loop q addr l)
unfolding hint_loop hint_last walk_behind then_behind
hint_loop_grows q start addr [] fits h = absurd h
hint_loop_grows q start addr (c ∷ []) fits h =
    (edited (record c { vm_end = add64 c.vm_end q.len } ∷ []), ground arith)
hint_loop_grows q start addr (c ∷ n ∷ r) fits h =
    let (e, ih) = hint_loop_grows q start addr (n ∷ r) fits h.3 in
    (record e { areas = c ∷ e.areas }, ground arith)

map_at-grows :
    (q : Request) (start addr : ℕ) (fixed : Bool) (l : List VmArea)
    → addr + q.len ≤ area_end
    → EndsAt start addr q.prot l
    → (e : Change) × (map_at q fixed addr l ≡ placed start e)
unfolding map_at hint_walk
map_at-grows q start addr fixed [] fits h = absurd h
map_at-grows q start addr fixed (c ∷ []) fits h =
    let (e, ih) = hint_loop_grows q start addr (c ∷ []) fits h in (e, ground arith)
map_at-grows q start addr fixed (c ∷ n ∷ r) fits h =
    let (e, ih) = hint_loop_grows q start addr (c ∷ n ∷ r) fits h in (e, ground arith)

below_last :
    (start addr prot lo : ℕ) (l : List VmArea)
    → IsSorted lo l
    → GrowsLast start addr prot l
    → lo < addr
below_last start addr prot lo [] s g = absurd g
below_last start addr prot lo (c ∷ []) s g = omega (arith, s, g)
below_last start addr prot lo (c ∷ n ∷ r) s g =
    omega (arith, s, below_last start addr prot c.vm_end (n ∷ r) s.2 g)

GrowsLast-EndsAt :
    (start addr prot lo : ℕ) (l : List VmArea)
    → IsSorted lo l
    → GrowsLast start addr prot l
    → EndsAt start addr prot l
GrowsLast-EndsAt start addr prot lo [] s g = absurd g
GrowsLast-EndsAt start addr prot lo (c ∷ []) s g =
    (omega (arith, g), omega (arith, g), omega (arith, s, g), omega (arith, g))
GrowsLast-EndsAt start addr prot lo (c ∷ n ∷ r) s g =
    let stop = below_last start addr prot c.vm_end (n ∷ r) s.2 g in
    let next = below_last start addr prot n.vm_start (n ∷ r) (omega arith, s.2.1, s.2.2) g in
    (omega (arith, s, stop), stop, next, GrowsLast-EndsAt start addr prot c.vm_end (n ∷ r) s.2 g)

start_below : (start addr prot : ℕ) (l : List VmArea) → EndsAt start addr prot l → start < addr
start_below start addr prot [] h = absurd h
start_below start addr prot (c ∷ []) h = omega (arith, h)
start_below start addr prot (c ∷ n ∷ r) h = start_below start addr prot (n ∷ r) h.3

last_mapped :
    (start addr prot : ℕ) (l : List VmArea) → EndsAt start addr prot l → flags_at l start ≢ none
unfolding flags_at
last_mapped start addr prot [] h = absurd h
last_mapped start addr prot (c ∷ []) h = ground arith
last_mapped start addr prot (c ∷ n ∷ r) h = ground (arith, last_mapped start addr prot (n ∷ r) h.3)

map_behind_last_ret :
    (t : AreaTable) (start addr len prot flags : ℕ)
    → area_start ≤ addr
    → addr + len ≤ area_end
    → addr + page_round len ≤ area_end
    → EndsAt start addr prot t.vm_area
    → (vm_area_map t addr len prot flags).ret ≡ some start
unfolding vm_area_map finish
map_behind_last_ret t start addr len prot flags above fits fits' h =
    let (e, done) =
      map_at-grows (request t len prot) start addr (is_fixed flags) t.vm_area fits' h in
    let given : (not (addr == 0) && not (leb area_start addr && leb addr area_end)) ≡ false =
      ground arith in
    let inside : (not (addr == 0)
          && is_fixed flags
          && not (leb area_start addr && leb (add64 addr len) area_end))
        ≡ false =
      ground arith in
    let hint : (addr == 0) ≡ false = ground arith in rw (given, inside, hint, done, vm_area_map)

-- If the areas are in order and in the region, the hint is the end of the last one, which has the
-- requested flags, and both the length and the rounded length, which is positive and below 2^32,
-- fit into the region behind the hint, then the call maps the rounded length from the hint on, which
-- was free, changes no other address, and returns the start of the last area, which is below the hint.
pub map_behind_last :
    (lo : ℕ) (t : AreaTable) (start addr len prot flags : ℕ)
    → lo ≤ area_start
    → IsSorted lo t.vm_area
    → EndsBy area_end t.vm_area
    → 0 < page_round len
    → page_round len < 2 ^ 32
    → area_start ≤ addr
    → addr + len ≤ area_end
    → addr + page_round len ≤ area_end
    → GrowsLast start addr prot t.vm_area
    → ((vm_area_map t addr len prot flags).ret ≡ some start)
      × (start < addr)
      × NewRange lo addr (page_round len) prot t (vm_area_map t addr len prot flags).table
map_behind_last lo t start addr len prot flags low s b pos small above fits fits' g =
    let h = GrowsLast-EndsAt start addr prot lo t.vm_area s g in
    let e = map_behind_last_ret t start addr len prot flags above fits fits' h in
    let (from, range, which) =
      map_at-NewRange lo t len prot addr flags start (omega arith) low s b pos small e in
    let at : from ≡ addr = elim which [
      | inl same ↦
          absurd
            (last_mapped start addr prot t.vm_area h (range.free start (omega arith) (omega arith)))
      | inr (here, grows) ↦ here
    ] in
    (
      e,
      start_below start addr prot t.vm_area h,
      subst (λ k. NewRange lo k (page_round len) prot t (vm_area_map t addr len prot flags).table)
          at range,
    )
