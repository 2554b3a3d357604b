-- ===== src/MemoryMap/Map/Call/Correct.antt =====
-- What a call of `vm_area_map` does to the address space.
use operating_systems_cs.Base.{
  ℕ, ◌+◌, ◌≡◌, ◌≢◌, ◌<◌, ◌≤◌, false, not, ◌&&◌, none, some, arith, inl, inr, ◌⊎◌, Bool-cases, leb,
  ◌==◌, add64, ◌^◌,
}
use operating_systems_cs.MemoryMap.Areas.{
  Change, AreaTable, commit, area_start, area_end, page_round,
}
use operating_systems_cs.MemoryMap.View.{flags_at, IsSorted, EndsBy, Remapped, commit-counter}
use operating_systems_cs.MemoryMap.Map.Gaps.{Attempt, placed, full, no_room, map_anywhere}
use operating_systems_cs.MemoryMap.Map.Gaps.Correct.{Mapped, Fits, map_anywhere-Fits}
use operating_systems_cs.MemoryMap.Map.Hint.{map_at}
use operating_systems_cs.MemoryMap.Map.Hint.Correct.{HintFits, GrowsLast}
use operating_systems_cs.MemoryMap.Map.Hint.Elsewhere.{map_at-HintFits}
use operating_systems_cs.MemoryMap.Map.Call.{is_fixed, finish, request, vm_area_map}

-- The `len` addresses from `from` on were free, and are mapped with the flags; the rest is as it was.
pub record NewRange (lo from len prot : ℕ) (t t' : AreaTable) : Type 0 where
  pub remapped : Remapped lo from (from + len) (λ _. some prot) t t'
  pub free : (x : ℕ) → from ≤ x → x < from + len → flags_at t.vm_area x ≡ none
  pub bounds : (lo ≤ from) × (from + len ≤ area_end)
  pub ends : EndsBy area_end t'.vm_area

module _ (lo : ℕ) (t : AreaTable) (len prot : ℕ) where
  Mapped-NewRange :
      (from : ℕ) (c : Change)
      → Mapped lo (request t len prot) from t.vm_area c
      → NewRange lo from (page_round len) prot t (commit t c)
  Mapped-NewRange from c m = record {
    remapped = record { sorted = m.sorted; flags = m.flags; counter = commit-counter t c m.count };
    free = m.free;
    bounds = m.bounds;
    ends = m.ends;
  }

  finish-Fits :
      (flags : ℕ) (a : Attempt) {r : ℕ}
      → (finish t (page_round len) flags a).ret ≡ some r
      → Fits lo (request t len prot) t.vm_area a
      → NewRange lo r (page_round len) prot t (finish t (page_round len) flags a).table
  unfolding finish
  finish-Fits flags (placed ret c) {r} e f =
      let same : ret ≡ r = cc in rw (← same) (Mapped-NewRange ret c f)
  finish-Fits flags full e f = absurd (cc)
  finish-Fits flags no_room e f = absurd (cc)

  finish-HintFits :
      (flags addr : ℕ) (a : Attempt) {r : ℕ}
      → (finish t (page_round len) flags a).ret ≡ some r
      → HintFits lo (request t len prot) addr t.vm_area a
      → (from : ℕ) × NewRange lo from
          (page_round len)
          prot
          t
          (finish t (page_round len) flags a).table
        × ((r ≡ from) ⊎ ((from ≡ addr) × GrowsLast r from prot t.vm_area))
  unfolding finish
  finish-HintFits flags addr (placed ret c) {r} e f =
      let same : ret ≡ r = cc in (f.from, Mapped-NewRange f.from c f.mapped, rw (← same) f.returned)
  finish-HintFits flags addr full e f = absurd (cc)
  finish-HintFits flags addr no_room e f = absurd (cc)

  -- A call of `vm_area_map` without a hint that returns an address maps the rounded length from
  -- that address on with the given flags. The range was free and lies in the region, and no other
  -- address changes.
  pub map_anywhere-NewRange :
      (flags r : ℕ)
      → lo ≤ area_start
      → IsSorted lo t.vm_area
      → EndsBy area_end t.vm_area
      → 0 < page_round len
      → page_round len < 2 ^ 32
      → (vm_area_map t 0 len prot flags).ret ≡ some r
      → NewRange lo r (page_round len) prot t (vm_area_map t 0 len prot flags).table
  unfolding vm_area_map
  map_anywhere-NewRange flags r low s b pos small e =
      finish-Fits flags (map_anywhere (request t len prot) t.vm_area) e
        (map_anywhere-Fits (request t len prot) pos small lo t.vm_area low s b)

  map_hint :
      (addr flags : ℕ)
      → addr ≢ 0
      → (vm_area_map t addr len prot flags).ret ≢ none
      → (area_start ≤ addr)
        × (addr ≤ area_end)
        × (vm_area_map t addr len prot flags
            ≡ finish t
                (page_round len)
                flags
                (map_at (request t len prot) (is_fixed flags) addr t.vm_area))
  unfolding vm_area_map
  map_hint addr flags ne e =
      let given : (addr == 0) ≡ false = ground arith in
      elim (Bool-cases (leb area_start addr && leb addr area_end)) [
        | inr out ↦ absurd (e (rw (given, out, vm_area_map)))
        | inl inside ↦
            elim (Bool-cases
              (is_fixed flags && not (leb area_start addr && leb (add64 addr len) area_end))) [
                | inl out ↦ absurd (e (rw (given, inside, out, vm_area_map)))
                | inr fits ↦ (ground arith, ground arith, rw (given, inside, fits, vm_area_map))
              ]
      ]

  -- A call of `vm_area_map` with a hint that returns an address maps the rounded length with the
  -- given flags, on a range that was free and lies in the region, and no other address changes. The
  -- address returned is where the range begins, or the range begins at the hint, behind the last
  -- area of the process, which has the same flags, and the address returned is that area's start.
  pub map_at-NewRange :
      (addr flags r : ℕ)
      → addr ≢ 0
      → lo ≤ area_start
      → IsSorted lo t.vm_area
      → EndsBy area_end t.vm_area
      → 0 < page_round len
      → page_round len < 2 ^ 32
      → (vm_area_map t addr len prot flags).ret ≡ some r
      → (from : ℕ) × NewRange lo from
          (page_round len)
          prot
          t
          (vm_area_map t addr len prot flags).table
        × ((r ≡ from) ⊎ ((from ≡ addr) × GrowsLast r from prot t.vm_area))
  map_at-NewRange addr flags r ne low s b pos small e =
      let (above, high, done) = map_hint addr flags ne (ground arith) in
      rw done (
        finish-HintFits flags addr _ (rw done at e) (
          map_at-HintFits (request t len prot) pos small lo addr low above high (is_fixed flags)
            t.vm_area s b))
