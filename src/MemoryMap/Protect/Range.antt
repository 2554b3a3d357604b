-- ===== src/MemoryMap/Protect/Range.antt =====
-- Which ranges `vm_area_mprotect` accepts, and what it leaves where it fails.
use native.Mathlib.Decide.{dec_lt}
use operating_systems_cs.Base.{
  ℕ, ◌+◌, ◌-◌, ◌≡◌, refl, true, ◌<◌, ◌≤◌, ◌^◌, none, some, List, [], ◌∷◌, arith, inl, inr, add64,
  ◌≢◌,
}
use operating_systems_cs.MemoryMap.Areas.{VmArea, AreaTable, page_round, area_start, area_end}
use operating_systems_cs.MemoryMap.View.{IsSorted, flags_at}
use operating_systems_cs.MemoryMap.Protect.{
  range_continues, range_found, protect_allowed, protect_areas, vm_area_mprotect, span_count,
  one_allowed,
}
use operating_systems_cs.MemoryMap.Protect.Correct.{
  range_continues-inv, range_found-inv, StartsBy, IsMerged,
}
use operating_systems_cs.MemoryMap.Protect.Calls.{
  table, mprotect-Cases, protect_areas-inv, merge_areas-IsMerged,
}

IsMapped : List VmArea → ℕ → ℕ → Type 0
IsMapped l from stop = (x : ℕ) → from ≤ x → x < stop → flags_at l x ≢ none

range_continues-mapped :
    (stop prev_end : ℕ) (l : List VmArea)
    → IsSorted prev_end l
    → prev_end < stop
    → range_continues stop prev_end l ≡ true
    → flags_at l (stop - 1) ≢ none
    → (x : ℕ) → prev_end ≤ x
    → x < stop
    → flags_at l x ≢ none
unfolding flags_at
range_continues-mapped stop pe [] s h e last x a b = absurd (last refl)
range_continues-mapped stop pe (c ∷ r) s h e last x a b =
    let (start, next) = range_continues-inv stop pe c r e in
    elim (dec_lt x c.vm_end) [
      | yes here ↦ ground arith
      | no beyond ↦
          let ih =
            range_continues-mapped stop c.vm_end r s.2 (omega arith) (ground arith) (ground arith) x
              (omega arith) b in
          ground arith
    ]

range_found-mapped :
    (addr stop lo : ℕ) (l : List VmArea)
    → IsSorted lo l
    → addr < stop
    → StartsBy addr l
    → range_found addr stop l ≡ true
    → flags_at l (stop - 1) ≢ none
    → (x : ℕ) → addr ≤ x
    → x < stop
    → flags_at l x ≢ none
unfolding flags_at
range_found-mapped addr stop lo [] s h b e last x p q = absurd (last refl)
range_found-mapped addr stop lo (c ∷ r) s h b e last x p q =
    elim (range_found-inv addr stop c r b e) [
      | inr (before, e', b') ↦
          let ih = range_found-mapped addr stop c.vm_end r s.2 h b' e' (ground arith) x p q in
          ground arith
      | inl (here, next) ↦ elim (dec_lt x c.vm_end) [
        | yes inside ↦ ground arith
        | no beyond ↦
            let ih =
              range_continues-mapped stop c.vm_end r s.2 (omega arith) (ground arith) (ground arith)
                x (omega arith) q in
            ground arith
      ]
    ]

by_chain-mapped :
    (lo : ℕ) (l : List VmArea) (n addr len prot : ℕ)
    → IsSorted lo l
    → addr + page_round len < 2 ^ 64
    → (vm_area_mprotect (table l n) addr len prot).ret ≡ some 0
    → flags_at l (addr + page_round len - 1) ≢ none
    → (x : ℕ) → addr ≤ x
    → x < addr + page_round len
    → flags_at l x ≢ none
by_chain-mapped lo [] n addr len prot s fits e last x a b = unfold flags_at in absurd (last refl)
by_chain-mapped lo (c ∷ r) n addr len prot s fits e last x a b =
    elim (mprotect-Cases (c ∷ r) n addr len prot) [
      | inl f ↦ absurd (ground arith)
      | inr (inl (z, same)) ↦ absurd (omega arith)
      | inr (inr (ne, work)) ↦
          let (low, found, done) =
            protect_areas-inv (c ∷ r) n addr (page_round len) prot c (rw work at e) in
          let stop : add64 addr (page_round len) ≡ addr + page_round len = omega arith in
          range_found-mapped addr (addr + page_round len) lo (c ∷ r) s (omega arith) low
            (rw stop at found) last x a b
    ]

-- A call of `vm_area_mprotect` that returns 0 found every address of the range mapped, if the last
-- address of the range is mapped.
pub mprotect-mapped :
    (lo : ℕ) (t : AreaTable) (addr len prot : ℕ)
    → IsSorted lo t.vm_area
    → addr + page_round len < 2 ^ 64
    → (vm_area_mprotect t addr len prot).ret ≡ some 0
    → flags_at t.vm_area (addr + page_round len - 1) ≢ none
    → (x : ℕ) → addr ≤ x
    → x < addr + page_round len
    → flags_at t.vm_area x ≢ none
mprotect-mapped lo t = by_chain-mapped lo t.vm_area t.num_vm_area

-- In an address space of one area, a range that begins in the area and runs beyond its end is
-- accepted, provided that it stays in the mmap region and that the first part can be split off.
pub mprotect_beyond_end :
    (c : VmArea) (n addr len prot : ℕ)
    → c.vm_start ≤ addr
    → addr < c.vm_end
    → area_start ≤ addr
    → addr + len ≤ area_end
    → c.vm_end < addr + page_round len
    → addr + page_round len < 2 ^ 64
    → (vm_area_mprotect (table (c ∷ []) n) addr len prot).ret ≡ some 0
unfolding vm_area_mprotect protect_areas range_found range_continues protect_allowed span_count
    one_allowed
mprotect_beyond_end c n addr len prot a b start end beyond fits = ground arith

-- After a successful call with a length that is not 0, no two touching areas have equal flags.
pub mprotect-IsMerged :
    (t : AreaTable) (addr len prot : ℕ)
    → (vm_area_mprotect t addr len prot).ret ≡ some 0
    → page_round len ≢ 0
    → IsMerged (vm_area_mprotect t addr len prot).table.vm_area
mprotect-IsMerged t addr len prot e ne = by_list t.vm_area t.num_vm_area e
  where
    by_list :
        (l : List VmArea) (n : ℕ)
        → (vm_area_mprotect (table l n) addr len prot).ret ≡ some 0
        → IsMerged (vm_area_mprotect (table l n) addr len prot).table.vm_area
    by_list [] n e = elim (mprotect-Cases [] n addr len prot) [
      | inl f ↦ absurd (ground arith)
      | inr (z, same) ↦ absurd (ne z)
    ]
    by_list (c ∷ r) n e = elim (mprotect-Cases (c ∷ r) n addr len prot) [
      | inl f ↦ absurd (ground arith)
      | inr (inl (z, same)) ↦ absurd (ne z)
      | inr (inr (_, work)) ↦
          let (low, found, done) =
            protect_areas-inv (c ∷ r) n addr (page_round len) prot c (rw work at e) in
          rw (work, done) (merge_areas-IsMerged _)
    ]
