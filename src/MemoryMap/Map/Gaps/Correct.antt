-- ===== src/MemoryMap/Map/Gaps/Correct.antt =====
-- What a search for a free range finds.
use operating_systems_cs.Base.{
  ℕ, ◌+◌, ◌≡◌, refl, ◌<◌, ◌≤◌, none, some, List, [], ◌∷◌, arith, if◌then◌else◌, length, inl, inr,
  Bool-cases, ltb, ◌^◌,
}
use operating_systems_cs.MemoryMap.Areas.{VmArea, Change, behind, area_start, area_end}
use operating_systems_cs.MemoryMap.View.{within, flags_at, IsSorted, EndsBy, flags_at-below}
use operating_systems_cs.MemoryMap.Map.Gaps.{
  Request, Attempt, placed, full, no_room, or_else, then_behind, place_front, fill_gap, append_last,
  search_gaps, search_below, map_anywhere,
}

-- The chain `c` is the chain `old` with the free range from `from` on mapped.
pub record Mapped (lo : ℕ) (q : Request) (from : ℕ) (old : List VmArea) (c : Change) : Type 0 where
  pub sorted : IsSorted lo c.areas
  pub ends : EndsBy area_end c.areas
  pub flags :
      (x : ℕ)
      → flags_at c.areas x ≡ (if within from (from + q.len) x then some q.prot else flags_at old x)
  pub free : (x : ℕ) → from ≤ x → x < from + q.len → flags_at old x ≡ none
  pub bounds : (lo ≤ from) × (from + q.len ≤ area_end)
  pub count : length c.areas + c.freed ≡ length old + c.allocated

module _ (lo : ℕ) (q : Request) (pos : 0 < q.len) (small : q.len < 2 ^ 32) where
  pub fill_gap-Mapped :
      (c n : VmArea) (r : List VmArea) (ret : ℕ) (e : Change)
      → IsSorted lo (c ∷ n ∷ r)
      → EndsBy area_end (c ∷ n ∷ r)
      → fill_gap q c n r ≡ placed ret e
      → Mapped lo q ret (c ∷ n ∷ r) e
  unfolding fill_gap flags_at
  fill_gap-Mapped c n r ret e s b h = record {
    sorted = ground arith;
    ends = ground arith;
    flags = λ x. ground (arith, flags_at-below n.vm_end x r);
    free = λ x p k. ground (arith, flags_at-below n.vm_end x r);
    bounds = ground arith;
    count = ground arith;
  }

  append_last-Mapped :
      (c : VmArea) (ret : ℕ) (e : Change)
      → IsSorted lo (c ∷ [])
      → EndsBy area_end (c ∷ [])
      → append_last q c ≡ placed ret e
      → Mapped lo q ret (c ∷ []) e
  unfolding append_last flags_at
  append_last-Mapped c ret e s b h = record {
    sorted = ground arith;
    ends = ground arith;
    flags = λ x. ground arith;
    free = λ x p k. ground arith;
    bounds = ground arith;
    count = ground arith;
  }

  place_front-Mapped :
      (l : List VmArea) (ret : ℕ) (e : Change)
      → lo ≤ area_start
      → IsSorted lo l
      → EndsBy area_end l
      → place_front q l ≡ placed ret e
      → Mapped lo q ret l e
  unfolding place_front flags_at
  place_front-Mapped [] ret e k s b h = absurd (cc)
  place_front-Mapped (c ∷ r) ret e k s b h = record {
    sorted = ground arith;
    ends = ground arith;
    flags = λ x. ground (arith, flags_at-below c.vm_end x r);
    free = λ x p m. ground (arith, flags_at-below c.vm_end x r);
    bounds = ground arith;
    count = ground arith;
  }

  pub Mapped-behind :
      (c : VmArea) (l : List VmArea) (from : ℕ) (e : Change)
      → IsSorted lo (c ∷ l)
      → c.vm_end ≤ area_end
      → Mapped c.vm_end q from l e
      → Mapped lo q from (c ∷ l) (behind c e)
  unfolding flags_at
  Mapped-behind c l from e s b m = record {
    sorted = (s.0, s.1, m.sorted);
    ends = (b, m.ends);
    flags = λ x. ground (arith, m.flags x, m.bounds);
    free = λ x p k. ground (arith, m.free x, m.bounds);
    bounds = omega (arith, m.bounds);
    count = omega (arith, m.count);
  }

-- An attempt that places the range has mapped it.
abbrev pub Fits : ℕ → Request → List VmArea → Attempt → Type 0
Fits lo q l (placed ret e) = Mapped lo q ret l e
Fits lo q l full = Unit {0}
Fits lo q l no_room = Unit {0}

pub Fits-intro :
    (lo : ℕ) (q : Request) (l : List VmArea) (a : Attempt)
    → ((ret : ℕ) (e : Change) → a ≡ placed ret e → Mapped lo q ret l e)
    → Fits lo q l a
Fits-intro lo q l (placed ret e) h = h ret e refl
Fits-intro lo q l full h = tt
Fits-intro lo q l no_room h = tt

pub Fits-or_else :
    (lo : ℕ) (q : Request) (l : List VmArea) (a b : Attempt)
    → Fits lo q l a
    → Fits lo q l b
    → Fits lo q l (or_else a b)
unfolding or_else
Fits-or_else lo q l (placed ret e) b f g = f
Fits-or_else lo q l full b f g = tt
Fits-or_else lo q l no_room b f g = g

module _ (q : Request) (pos : 0 < q.len) (small : q.len < 2 ^ 32) where
  pub Fits-then_behind :
      (lo : ℕ) (c : VmArea) (l : List VmArea) (a : Attempt)
      → IsSorted lo (c ∷ l)
      → c.vm_end ≤ area_end
      → Fits c.vm_end q l a
      → Fits lo q (c ∷ l) (then_behind c a)
  unfolding then_behind
  Fits-then_behind lo c l (placed r e) s b f = Mapped-behind lo q pos small c l r e s b f
  Fits-then_behind lo c l full s b f = tt
  Fits-then_behind lo c l no_room s b f = tt

  pub fill_gap-Fits :
      (lo : ℕ) (c n : VmArea) (r : List VmArea)
      → IsSorted lo (c ∷ n ∷ r)
      → EndsBy area_end (c ∷ n ∷ r)
      → Fits lo q (c ∷ n ∷ r) (fill_gap q c n r)
  fill_gap-Fits lo c n r s b =
      Fits-intro lo q (c ∷ n ∷ r) (fill_gap q c n r)
        λ ret e h. fill_gap-Mapped lo q pos small c n r ret e s b h

  append_last-Fits :
      (lo : ℕ) (c : VmArea)
      → IsSorted lo (c ∷ [])
      → EndsBy area_end (c ∷ [])
      → Fits lo q (c ∷ []) (append_last q c)
  append_last-Fits lo c s b =
      Fits-intro lo q (c ∷ []) (append_last q c)
        λ ret e h. append_last-Mapped lo q pos small c ret e s b h

  pub search_gaps-Fits :
      (lo : ℕ) (l : List VmArea) → IsSorted lo l → EndsBy area_end l → Fits lo q l (search_gaps q l)
  unfolding search_gaps
  search_gaps-Fits lo [] s b = tt
  search_gaps-Fits lo (c ∷ []) s b = append_last-Fits lo c s b
  search_gaps-Fits lo (c ∷ n ∷ r) s b =
      Fits-or_else lo q _ (fill_gap q c n r) _ (fill_gap-Fits lo c n r s b) (
        Fits-then_behind lo c (n ∷ r) (search_gaps q (n ∷ r)) s b.0
          (search_gaps-Fits c.vm_end (n ∷ r) s.2 b.1))

  pub search_below-Fits :
      (lo addr : ℕ) (l : List VmArea)
      → IsSorted lo l
      → EndsBy area_end l
      → Fits lo q l (search_below q addr l)
  unfolding search_below
  search_below-Fits lo addr [] s b = tt
  search_below-Fits lo addr (c ∷ []) s b = append_last-Fits lo c s b
  search_below-Fits lo addr (c ∷ n ∷ r) s b = elim (Bool-cases (ltb c.vm_end addr)) [
    | inr stop ↦ rw (stop, search_below) tt
    | inl more ↦
        rw (more, search_below)
          (Fits-or_else lo q _ (fill_gap q c n r) _ (fill_gap-Fits lo c n r s b) (
            Fits-then_behind lo c (n ∷ r) (search_below q addr (n ∷ r)) s b.0
              (search_below-Fits c.vm_end addr (n ∷ r) s.2 b.1)))
  ]

  pub place_front-Fits :
      (lo : ℕ) (l : List VmArea)
      → lo ≤ area_start
      → IsSorted lo l
      → EndsBy area_end l
      → Fits lo q l (place_front q l)
  place_front-Fits lo l k s b =
      Fits-intro lo q l (place_front q l)
        λ ret e h. place_front-Mapped lo q pos small l ret e k s b h

  pub map_anywhere-Fits :
      (lo : ℕ) (l : List VmArea)
      → lo ≤ area_start
      → IsSorted lo l
      → EndsBy area_end l
      → Fits lo q l (map_anywhere q l)
  unfolding map_anywhere flags_at
  map_anywhere-Fits lo [] k s b = Fits-intro lo q [] _ λ ret e h. record {
    sorted = ground arith;
    ends = ground arith;
    flags = λ x. ground arith;
    free = λ x p m. refl;
    bounds = ground arith;
    count = ground arith;
  }
  map_anywhere-Fits lo (c ∷ r) k s b =
      Fits-or_else lo q (c ∷ r) (place_front q (c ∷ r)) (search_gaps q (c ∷ r))
        (place_front-Fits lo (c ∷ r) k s b) (search_gaps-Fits lo (c ∷ r) s b)
