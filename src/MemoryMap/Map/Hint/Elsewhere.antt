-- ===== src/MemoryMap/Map/Hint/Elsewhere.antt =====
-- Where a range goes whose hint address is given, the fallback of a taken hint included.
use operating_systems_cs.Base.{
  ℕ, ◌+◌, refl, ◌<◌, ◌≤◌, true, false, Bool, List, [], ◌∷◌, ◌++◌, arith, if◌then◌else◌, inl, inr,
  Bool-cases, ltb, add64, ◌^◌, subst,
}
use operating_systems_cs.MemoryMap.Areas.{VmArea, area_start, area_end, edited, allocate}
use operating_systems_cs.MemoryMap.View.{flags_at, IsSorted, EndsBy}
use operating_systems_cs.MemoryMap.Map.Gaps.{
  Request, Attempt, placed, no_room, new_area, place_front, search_gaps,
}
use operating_systems_cs.MemoryMap.Map.Gaps.Correct.{
  Mapped, Fits, Fits-or_else, Fits-then_behind, search_gaps-Fits, search_below-Fits,
  place_front-Fits,
}
use operating_systems_cs.MemoryMap.Map.Hint.{
  Walk, settled, taken, hint_walk, then_behind_all, map_elsewhere, map_at,
}
use operating_systems_cs.MemoryMap.Map.Hint.Correct.{
  HintFits, WalkFits, HintFits-of, hint_front-WalkFits,
}
use operating_systems_cs.MemoryMap.Map.Hint.Walks.{hint_loop-WalkFits}

module _ (q : Request) (pos : 0 < q.len) (small : q.len < 2 ^ 32) where
  Fits-then_behind_all :
      (lo : ℕ) (before at : List VmArea) (a : Attempt)
      → IsSorted lo (before ++ at)
      → EndsBy area_end (before ++ at)
      → ((lo' : ℕ) → IsSorted lo' at → EndsBy area_end at → Fits lo' q at a)
      → Fits lo q (before ++ at) (then_behind_all before a)
  unfolding then_behind_all
  Fits-then_behind_all lo [] at a s b f = f lo s b
  Fits-then_behind_all lo (c ∷ r) at a s b f =
      Fits-then_behind q pos small lo c (r ++ at) (then_behind_all r a) s b.0
        (Fits-then_behind_all c.vm_end r at a s.2 b.1 f)

  map_elsewhere-Fits :
      (lo addr : ℕ) (before at : List VmArea)
      → lo ≤ area_start
      → IsSorted lo (before ++ at)
      → EndsBy area_end (before ++ at)
      → Fits lo q (before ++ at) (map_elsewhere q addr before at)
  unfolding map_elsewhere
  map_elsewhere-Fits lo addr before at k s b =
      Fits-or_else lo q _ (then_behind_all before (search_gaps q at)) _
        (Fits-then_behind_all lo before at (search_gaps q at) s b
          λ lo' s' b'. search_gaps-Fits q pos small lo' at s' b')
        (Fits-or_else lo q _ (place_front q (before ++ at)) _
          (place_front-Fits q pos small lo (before ++ at) k s b)
          (search_below-Fits q pos small lo addr (before ++ at) s b))

  alone-Mapped :
      (lo from : ℕ)
      → lo ≤ from
      → from + q.len ≤ area_end
      → Mapped lo q from [] (allocate (edited (new_area q from ∷ [])))
  unfolding flags_at
  alone-Mapped lo from k fits = record {
    sorted = ground arith;
    ends = ground arith;
    flags = λ x. ground arith;
    free = λ x p m. refl;
    bounds = ground arith;
    count = ground arith;
  }

  module _ (lo addr : ℕ) (low : lo ≤ area_start) (above : area_start ≤ addr)
      (high : addr ≤ area_end) where
    hint_walk-WalkFits :
        (l : List VmArea)
        → IsSorted lo l
        → EndsBy area_end l
        → WalkFits lo q addr l (hint_walk q addr l)
    unfolding hint_walk
    hint_walk-WalkFits [] s b = elim (Bool-cases (ltb area_end (add64 addr q.len))) [
      | inr fits ↦
          rw (fits, hint_walk)
            (HintFits-of lo q addr [] (placed addr _)
              (alone-Mapped lo addr (omega arith) (ground arith)))
      | inl beyond ↦ elim (Bool-cases (ltb area_end (add64 area_start q.len))) [
        | inl large ↦ rw (beyond, large, hint_walk) tt
        | inr fits ↦
            rw (beyond, fits, hint_walk)
              (HintFits-of lo q addr [] (placed area_start _)
                (alone-Mapped lo area_start low (ground arith)))
      ]
    ]
    hint_walk-WalkFits (c ∷ r) s b = elim (Bool-cases (ltb addr c.vm_start)) [
      | inl front ↦
          rw (front, hint_walk)
            (hint_front-WalkFits q pos small addr high lo c r (omega arith) (ground arith) s b)
      | inr behind ↦
          rw (behind, hint_walk)
            (hint_loop-WalkFits q pos small addr high lo c r (ground arith) s b)
    ]

    pub map_at-HintFits :
        (fixed : Bool) (l : List VmArea)
        → IsSorted lo l
        → EndsBy area_end l
        → HintFits lo q addr l (map_at q fixed addr l)
    unfolding map_at
    map_at-HintFits fixed l s b = by_walk (hint_walk q addr l) (hint_walk-WalkFits l s b) fixed
      where
        by_walk :
            (w : Walk)
            → WalkFits lo q addr l w
            → (fixed : Bool)
            → HintFits lo q addr l (elim w [
              | settled a ↦ a
              | taken before at ↦ if fixed then no_room else map_elsewhere q addr before at
            ])
        by_walk (settled a) f fixed = f
        by_walk (taken before at) f true = tt
        by_walk (taken before at) f false =
            HintFits-of lo q addr l (map_elsewhere q addr before at) (
              subst (λ t. Fits lo q t (map_elsewhere q addr before at)) f
                (map_elsewhere-Fits lo addr before at low (rw f s) (rw f b)))
