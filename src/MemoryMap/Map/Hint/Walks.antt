-- ===== src/MemoryMap/Map/Hint/Walks.antt =====
-- Where the whole walk for a hint address places a range.
use operating_systems_cs.Base.{
  ℕ, ◌+◌, ◌≡◌, refl, ◌<◌, ◌≤◌, true, false, Bool, List, [], ◌∷◌, arith, if◌then◌else◌, inl, inr,
  Bool-cases, ltb, leb, ◌==◌, add64, ◌&&◌, ◌^◌, sym,
}
use operating_systems_cs.MemoryMap.Areas.{VmArea, area_end, edited, allocate}
use operating_systems_cs.MemoryMap.View.{flags_at, IsSorted, EndsBy}
use operating_systems_cs.MemoryMap.Map.Gaps.{
  Request, Attempt, placed, full, no_room, limited, new_area, fill_gap,
}
use operating_systems_cs.MemoryMap.Map.Gaps.Correct.{Mapped, Fits, fill_gap-Fits}
use operating_systems_cs.MemoryMap.Map.Hint.{settled, taken, hint_last, hint_behind, hint_loop}
use operating_systems_cs.MemoryMap.Map.Hint.Correct.{
  HintMapped, HintFits, WalkFits, HintFits-of, WalkFits-behind, hint_between-WalkFits,
}

module _ (q : Request) (pos : 0 < q.len) (small : q.len < 2 ^ 32) (addr : ℕ)
    (high : addr ≤ area_end) where
  last_grown :
      (lo : ℕ) (c : VmArea)
      → addr ≡ c.vm_end
      → addr + q.len ≤ area_end
      → c.access_flags ≡ q.prot
      → IsSorted lo (c ∷ [])
      → HintMapped lo q addr c.vm_start
          (c ∷ [])
          (edited (record c { vm_end = add64 c.vm_end q.len } ∷ []))
  unfolding flags_at
  last_grown lo c at fits same s = record {
    from = addr;
    mapped = record {
      sorted = ground arith;
      ends = ground arith;
      flags = λ x. ground arith;
      free = λ x p m. ground arith;
      bounds = ground arith;
      count = ground arith;
    };
    returned = inr (refl, (refl, at, sym same));
  }

  last_added :
      (lo from : ℕ) (c : VmArea)
      → c.vm_end ≤ from
      → from + q.len ≤ area_end
      → IsSorted lo (c ∷ [])
      → Mapped lo q from (c ∷ []) (allocate (edited (c ∷ new_area q from ∷ [])))
  unfolding flags_at
  last_added lo from c at fits s = record {
    sorted = ground arith;
    ends = ground arith;
    flags = λ x. ground arith;
    free = λ x p m. ground arith;
    bounds = ground arith;
    count = ground arith;
  }

  limited-HintFits :
      (lo from : ℕ) (l m : List VmArea)
      → Mapped lo q from l (allocate (edited m))
      → HintFits lo q addr l (limited q from m)
  limited-HintFits lo from l m f = by_limit (leb 128 q.cnt)
    where
      by_limit :
          (b : Bool) → HintFits lo q addr l (if b then full else placed from (allocate (edited m)))
      by_limit true = tt
      by_limit false = record { from = from; mapped = f; returned = inl refl }

  hint_last-WalkFits :
      (lo : ℕ) (c : VmArea)
      → c.vm_start ≤ addr
      → IsSorted lo (c ∷ [])
      → EndsBy area_end (c ∷ [])
      → WalkFits lo q addr (c ∷ []) (hint_last q addr c)
  unfolding hint_last
  hint_last-WalkFits lo c k s b = elim (Bool-cases (ltb area_end (add64 addr q.len))) [
    | inl beyond ↦ rw (beyond, hint_last) refl
    | inr fits ↦ elim (Bool-cases (leb c.vm_start addr && ltb addr c.vm_end)) [
      | inl inside ↦ rw (fits, inside, hint_last) refl
      | inr outside ↦ elim (Bool-cases (addr == c.vm_end)) [
        | inr apart ↦
            rw (fits, outside, apart, hint_last)
              (limited-HintFits lo addr (c ∷ []) _
                (last_added lo addr c (ground arith) (ground arith) s))
        | inl at ↦ elim (Bool-cases (c.access_flags == q.prot)) [
          | inr other ↦
              rw (fits, outside, at, other, hint_last)
                (limited-HintFits lo c.vm_end (c ∷ []) _
                  (last_added lo c.vm_end c (omega arith) (ground arith) s))
          | inl same ↦
              rw (fits, outside, at, same, hint_last)
                (last_grown lo c (ground arith) (ground arith) (ground arith) s)
        ]
      ]
    ]
  ]

  hint_behind-WalkFits :
      (lo : ℕ) (c n : VmArea) (r : List VmArea)
      → IsSorted lo (c ∷ n ∷ r)
      → EndsBy area_end (c ∷ n ∷ r)
      → WalkFits lo q addr (c ∷ n ∷ r) (hint_behind q c n r)
  unfolding hint_behind
  hint_behind-WalkFits lo c n r s b =
      by_attempt (fill_gap q c n r) (fill_gap-Fits q pos small lo c n r s b)
    where
      by_attempt :
          (a : Attempt)
          → Fits lo q (c ∷ n ∷ r) a
          → WalkFits lo q addr (c ∷ n ∷ r) (elim a [
            | no_room ↦ taken [] (c ∷ n ∷ r)
            | full ↦ settled full
            | placed ret e ↦ settled (placed ret e)
          ])
      by_attempt (placed ret e) f = HintFits-of lo q addr _ (placed ret e) f
      by_attempt full f = tt
      by_attempt no_room f = refl

  pub hint_loop-WalkFits :
      (lo : ℕ) (c : VmArea) (r : List VmArea)
      → c.vm_start ≤ addr
      → IsSorted lo (c ∷ r)
      → EndsBy area_end (c ∷ r)
      → WalkFits lo q addr (c ∷ r) (hint_loop q addr (c ∷ r))
  unfolding hint_loop
  hint_loop-WalkFits lo c [] k s b = hint_last-WalkFits lo c k s b
  hint_loop-WalkFits lo c (n ∷ r) k s b =
      elim (Bool-cases (leb c.vm_start addr && ltb addr c.vm_end)) [
        | inl inside ↦ rw (inside, hint_loop) refl
        | inr outside ↦ elim (Bool-cases (addr == c.vm_end)) [
          | inl at ↦ rw (outside, at, hint_loop) (hint_behind-WalkFits lo c n r s b)
          | inr apart ↦ elim (Bool-cases (ltb c.vm_end addr && ltb addr n.vm_start)) [
            | inl between ↦
                rw (outside, apart, between, hint_loop)
                  (hint_between-WalkFits q pos small addr high lo c n r (ground arith)
                    (ground arith) s b)
            | inr later ↦
                rw (outside, apart, later, hint_loop)
                  (WalkFits-behind q pos small addr high lo c n r (hint_loop q addr (n ∷ r)) s b.0
                    (hint_loop-WalkFits c.vm_end n r (ground arith) s.2 b.1))
          ]
        ]
      ]
