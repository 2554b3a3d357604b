-- ===== src/MemoryMap/Protect/Calls.antt =====
-- What a call of `vm_area_mprotect` does to the address space.
use mathlib.Core.Option
use operating_systems_cs.Base.{
  ℕ, ◌+◌, ◌≡◌, refl, true, ◌<◌, ◌≤◌, ◌^◌, some, Option, List, [], ◌∷◌, arith, inl, inr, ◌==◌,
  Bool-cases, ltb, leb, ◌&&◌, add64, ◌≢◌, ◌∙◌, ◌⊎◌,
}
use operating_systems_cs.MemoryMap.Areas.{
  VmArea, Change, AreaTable, commit, failed, page_round, area_start, area_end,
}
use operating_systems_cs.MemoryMap.View.{IsSorted, Remapped, commit-counter}
use operating_systems_cs.MemoryMap.Protect.{
  range_found, protect_allowed, protect_loop, merge_areas, then_merge, protect_areas,
  vm_area_mprotect,
}
use operating_systems_cs.MemoryMap.Protect.Correct.{
  Protected, protect_loop-Protected, Merged, merge_from-Merged, merge_from-IsMerged, IsMerged,
}

abbrev pub table : List VmArea → ℕ → AreaTable
table l n = record { vm_area = l; num_vm_area = n }

merge_areas-Merged : (lo : ℕ) (l : List VmArea) → IsSorted lo l → Merged lo l (merge_areas l)
unfolding merge_areas
merge_areas-Merged lo [] s = record {
  sorted = tt;
  flags = λ x. refl;
  count = refl;
  allocated = refl;
}
merge_areas-Merged lo (c ∷ r) s = merge_from-Merged lo c r s

pub merge_areas-IsMerged : (l : List VmArea) → IsMerged (merge_areas l).areas
unfolding merge_areas
merge_areas-IsMerged [] = tt
merge_areas-IsMerged (c ∷ r) = merge_from-IsMerged c r

then_merge-Protected :
    {lo addr stop prot : ℕ} {l : List VmArea} {c : Change}
    → Protected lo addr stop prot l c
    → Protected lo addr stop prot l (then_merge c)
then_merge-Protected {lo} {c} p =
    let m = merge_areas-Merged lo c.areas p.sorted in
    record {
      sorted = m.sorted;
      flags = λ x. m.flags x ∙ p.flags x;
      count = omega (arith, p.count, m.count, m.allocated);
    }

Protected-Remapped :
    {lo addr stop prot n : ℕ} {l : List VmArea} {c : Change}
    → Protected lo addr stop prot l c
    → Remapped lo addr stop (Option.map (λ _. prot)) (table l n) (commit (table l n) c)
Protected-Remapped {n} {l} {c} p = record {
  sorted = p.sorted;
  flags = p.flags;
  counter = commit-counter (table l n) c p.count;
}

-- What the checks of a call that returns 0 have established.
pub protect_areas-inv :
    (l : List VmArea) (n addr len prot : ℕ) (head : VmArea)
    → (protect_areas (table l n) addr len prot head).ret ≡ some 0
    → (head.vm_start ≤ addr)
      × (range_found addr (add64 addr len) l ≡ true)
      × ((protect_areas (table l n) addr len prot head).table
          ≡ commit (table l n) (then_merge (protect_loop addr (add64 addr len) prot l)))
unfolding protect_areas
protect_areas-inv l n addr len prot head e = elim (Bool-cases (ltb addr head.vm_start)) [
  | inl low ↦ absurd (cc (rw low at e))
  | inr high ↦ elim (Bool-cases (range_found addr (add64 addr len) l)) [
    | inr gap ↦ absurd (ground arith)
    | inl found ↦ elim (Bool-cases (protect_allowed addr (add64 addr len) prot l)) [
      | inr full ↦ absurd (ground arith)
      | inl room ↦ (ground arith, found, rw (high, found, room))
    ]
  ]
]

protect_call :
    (lo n addr len prot : ℕ) (c : VmArea) (r : List VmArea)
    → IsSorted lo (c ∷ r)
    → addr + page_round len < 2 ^ 64
    → page_round len ≢ 0
    → (protect_areas (table (c ∷ r) n) addr (page_round len) prot c).ret ≡ some 0
    → Remapped lo addr
        (addr + page_round len)
        (Option.map (λ _. prot))
        (table (c ∷ r) n)
        (protect_areas (table (c ∷ r) n) addr (page_round len) prot c).table
protect_call lo n addr len prot c r s fits ne e =
    let (low, found, done) = protect_areas-inv (c ∷ r) n addr (page_round len) prot c e in
    let stop : add64 addr (page_round len) ≡ addr + page_round len = omega arith in
    rw (done, stop)
      (Protected-Remapped (
        then_merge-Protected (
          protect_loop-Protected lo addr (addr + page_round len) prot (c ∷ r) s (omega arith) low
            (rw stop at found))))

Remapped-empty :
    (lo addr : ℕ) (want : Option ℕ → Option ℕ) (t : AreaTable)
    → IsSorted lo t.vm_area
    → Remapped lo addr (addr + 0) want t t
Remapped-empty lo addr want t s = record { sorted = s; flags = λ x. ground arith; counter = refl }

-- The call returns before the loops, or is the work on a chain that is not empty.
abbrev pub Cases : List VmArea → (n addr len prot : ℕ) → Type 0
Cases [] n addr len prot =
    (vm_area_mprotect (table [] n) addr len prot ≡ failed (table [] n))
    ⊎ ((page_round len ≡ 0) × ((vm_area_mprotect (table [] n) addr len prot).table ≡ table [] n))
Cases (c ∷ r) n addr len prot =
    (vm_area_mprotect (table (c ∷ r) n) addr len prot ≡ failed (table (c ∷ r) n))
    ⊎ ((page_round len ≡ 0)
        × ((vm_area_mprotect (table (c ∷ r) n) addr len prot).table ≡ table (c ∷ r) n))
    ⊎ ((page_round len ≢ 0)
        × (vm_area_mprotect (table (c ∷ r) n) addr len prot
            ≡ protect_areas (table (c ∷ r) n) addr (page_round len) prot c))

pub mprotect-Cases : (l : List VmArea) (n addr len prot : ℕ) → Cases l n addr len prot
unfolding vm_area_mprotect
mprotect-Cases [] n addr len prot =
    elim (Bool-cases (leb area_start addr && leb (add64 addr len) area_end)) [
      | inr out ↦ inl (rw out)
      | inl inside ↦ elim (Bool-cases (page_round len == 0)) [
        | inl empty ↦ inr (ground arith, rw (inside, empty))
        | inr pages ↦ inl (rw (inside, pages))
      ]
    ]
mprotect-Cases (c ∷ r) n addr len prot =
    elim (Bool-cases (leb area_start addr && leb (add64 addr len) area_end)) [
      | inr out ↦ inl (rw out)
      | inl inside ↦ elim (Bool-cases (page_round len == 0)) [
        | inl empty ↦ inr (inl (ground arith, rw (inside, empty)))
        | inr pages ↦ inr (inr (ground arith, rw (inside, pages)))
      ]
    ]

Remapped-unchanged :
    (lo addr len : ℕ) (want : Option ℕ → Option ℕ) (t t' : AreaTable)
    → IsSorted lo t.vm_area
    → len ≡ 0
    → t' ≡ t
    → Remapped lo addr (addr + len) want t t'
Remapped-unchanged lo addr len want t t' s z e = rw (e, z) (Remapped-empty lo addr want t s)

by_chain :
    (lo : ℕ) (l : List VmArea) (n addr len prot : ℕ)
    → IsSorted lo l
    → addr + page_round len < 2 ^ 64
    → (vm_area_mprotect (table l n) addr len prot).ret ≡ some 0
    → Remapped lo addr
        (addr + page_round len)
        (Option.map (λ _. prot))
        (table l n)
        (vm_area_mprotect (table l n) addr len prot).table
by_chain lo [] n addr len prot s fits e = elim (mprotect-Cases [] n addr len prot) [
  | inl f ↦ absurd (ground arith)
  | inr (z, same) ↦ Remapped-unchanged lo addr (page_round len) _ _ _ s z same
]
by_chain lo (c ∷ r) n addr len prot s fits e = elim (mprotect-Cases (c ∷ r) n addr len prot) [
  | inl f ↦ absurd (ground arith)
  | inr (inl (z, same)) ↦ Remapped-unchanged lo addr (page_round len) _ _ _ s z same
  | inr (inr (ne, work)) ↦ rw work (protect_call lo n addr len prot c r s fits ne (rw work at e))
]

-- For a sorted table and a range that does not wrap: after an mprotect that returns 0 the mapped
-- addresses of the rounded range have the new flags, every other address is as before, and the list
-- is sorted with its counter in step.
pub mprotect-Remapped :
    (lo : ℕ) (t : AreaTable) (addr len prot : ℕ)
    → IsSorted lo t.vm_area
    → addr + page_round len < 2 ^ 64
    → (vm_area_mprotect t addr len prot).ret ≡ some 0
    → Remapped lo addr
        (addr + page_round len)
        (Option.map (λ _. prot))
        t
        (vm_area_mprotect t addr len prot).table
mprotect-Remapped lo t addr len prot s fits e =
    by_chain lo t.vm_area t.num_vm_area addr len prot s fits e
