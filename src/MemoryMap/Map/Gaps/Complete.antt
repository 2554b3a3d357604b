-- ===== src/MemoryMap/Map/Gaps/Complete.antt =====
-- The search for a free range finds one where there is one.
use operating_systems_cs.Base.{
  ℕ, ◌+◌, ◌≡◌, refl, ◌<◌, ◌≤◌, Bool, true, false, none, List, [], ◌∷◌, arith, inl, inr, ◌⊎◌, ◌^◌,
  Bool-cases, leb,
}
use operating_systems_cs.MemoryMap.Areas.{VmArea, area_start, area_end}
use operating_systems_cs.MemoryMap.View.{flags_at, IsSorted, EndsBy}
use operating_systems_cs.MemoryMap.Map.Gaps.{
  Request, Attempt, placed, full, no_room, or_else, then_behind, place_front, fill_gap, append_last,
  search_gaps, map_anywhere,
}

abbrev pub is_placed : Attempt → Bool
is_placed (placed ret c) = true
is_placed full = false
is_placed no_room = false

-- No address of the `len` ones from `x` on is mapped.
abbrev pub IsFree : List VmArea → (x len : ℕ) → Type 0
IsFree l x len = (y : ℕ) → x ≤ y → y < x + len → flags_at l y ≡ none

-- A free range lies in front of the first area or behind it.
IsFree-beside :
    (c : VmArea) (r : List VmArea) (x len : ℕ)
    → 0 < len
    → c.vm_start < c.vm_end
    → IsFree (c ∷ r) x len
    → (x + len ≤ c.vm_start) ⊎ (c.vm_end ≤ x)
unfolding flags_at
IsFree-beside c r x len pos short free = elim (Bool-cases (leb (x + len) c.vm_start)) [
  | inl front ↦ inl (ground arith)
  | inr no_front ↦ elim (Bool-cases (leb c.vm_end x)) [
    | inl later ↦ inr (ground arith)
    | inr no_later ↦ elim (Bool-cases (leb c.vm_start x)) [
      | inl inside ↦ absurd (let z = free x (omega arith) (omega arith) in ground arith)
      | inr before ↦ absurd (let z = free c.vm_start (ground arith) (ground arith) in ground arith)
    ]
  ]
]

IsFree-tail : (c : VmArea) (r : List VmArea) (x len : ℕ) → IsFree (c ∷ r) x len → IsFree r x len
unfolding flags_at
IsFree-tail c r x len free y le lt = ground (arith, free y le lt)

module _ (q : Request) (pos : 0 < q.len) (small : q.len < 2 ^ 32) (few : q.cnt < 128) where
  then_behind-is_placed :
      (c : VmArea) (a : Attempt) → is_placed a ≡ true → is_placed (then_behind c a) ≡ true
  unfolding then_behind
  then_behind-is_placed c (placed r e) f = refl
  then_behind-is_placed c full f = absurd (ground arith)
  then_behind-is_placed c no_room f = absurd (ground arith)

  -- A gap that is large enough is taken.
  fill_gap-fits :
      (c n : VmArea) (r : List VmArea) (b : Attempt)
      → c.vm_end + q.len ≤ n.vm_start
      → c.vm_end ≤ area_end
      → is_placed (or_else (fill_gap q c n r) b) ≡ true
  unfolding fill_gap or_else
  fill_gap-fits c n r b fits end = ground arith

  -- A gap that is too small leaves the search to the rest.
  fill_gap-or_else :
      (c n : VmArea) (r : List VmArea) (b : Attempt)
      → is_placed b ≡ true
      → is_placed (or_else (fill_gap q c n r) b) ≡ true
  unfolding fill_gap or_else
  fill_gap-or_else c n r b rest = ground arith

  append_last-fits : (c : VmArea) → c.vm_end + q.len ≤ area_end → is_placed (append_last q c) ≡ true
  unfolding append_last
  append_last-fits c fits = ground arith

  place_front-fits :
      (c : VmArea) (r : List VmArea) (b : Attempt)
      → area_start + q.len ≤ c.vm_start
      → is_placed (or_else (place_front q (c ∷ r)) b) ≡ true
  unfolding place_front or_else
  place_front-fits c r b fits = ground arith

  place_front-or_else :
      (c : VmArea) (r : List VmArea) (b : Attempt)
      → is_placed b ≡ true
      → is_placed (or_else (place_front q (c ∷ r)) b) ≡ true
  unfolding place_front or_else
  place_front-or_else c r b rest = ground arith

  module _ (x : ℕ) (inside : x + q.len ≤ area_end) where
    search_gaps-is_placed :
        (lo : ℕ) (c : VmArea) (r : List VmArea)
        → IsSorted lo (c ∷ r)
        → EndsBy area_end (c ∷ r)
        → c.vm_end ≤ x
        → IsFree r x q.len
        → is_placed (search_gaps q (c ∷ r)) ≡ true
    unfolding search_gaps
    search_gaps-is_placed lo c [] s b le free = append_last-fits c (omega arith)
    search_gaps-is_placed lo c (n ∷ r) s b le free =
        elim (IsFree-beside n r x q.len pos s.2.1 free) [
          | inl front ↦ fill_gap-fits c n r _ (omega arith) b.0
          | inr later ↦ fill_gap-or_else c n r _ (
              then_behind-is_placed c (search_gaps q (n ∷ r))
                (search_gaps-is_placed c.vm_end n r s.2 b.1 later (IsFree-tail n r x q.len free)))
        ]

    pub map_anywhere-is_placed :
        (lo : ℕ) (l : List VmArea)
        → IsSorted lo l
        → EndsBy area_end l
        → area_start ≤ x
        → IsFree l x q.len
        → is_placed (map_anywhere q l) ≡ true
    unfolding map_anywhere
    map_anywhere-is_placed lo [] s b low free = ground arith
    map_anywhere-is_placed lo (c ∷ r) s b low free = elim (IsFree-beside c r x q.len pos s.1 free) [
      | inl front ↦ place_front-fits c r _ (omega arith)
      | inr later ↦
          place_front-or_else c r _
            (search_gaps-is_placed lo c r s b later (IsFree-tail c r x q.len free))
    ]
