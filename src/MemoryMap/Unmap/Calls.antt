-- ===== src/MemoryMap/Unmap/Calls.antt =====
-- What a call of `vm_area_unmap` does to the address space.
use operating_systems_cs.Base.{
  ℕ, ◌+◌, ◌≡◌, refl, true, false, Bool, ◌<◌, ◌^◌, ◌||◌, none, some, List, [], ◌∷◌, arith, length,
  inl, inr, ◌==◌, Bool-cases, Option-cases, leb, ◌&&◌, add64,
}
use operating_systems_cs.MemoryMap.Areas.{
  VmArea, Change, AreaTable, commit, failed, page_round, area_start, area_end,
}
use operating_systems_cs.MemoryMap.View.{IsSorted, Remapped, commit-counter, flags_at}
use operating_systems_cs.MemoryMap.Unmap.{unmap_loop, unmap_areas, vm_area_unmap}
use operating_systems_cs.MemoryMap.Unmap.Correct.{Cleared, unmap_loop-Cleared}

abbrev pub table : List VmArea → ℕ → AreaTable
table l n = record { vm_area = l; num_vm_area = n }

-- The test at the head of the function.
abbrev pub is_valid_range : ℕ → ℕ → Bool
is_valid_range addr len = (addr == 0) || (leb area_start addr && leb (add64 addr len) area_end)

Cleared-Remapped :
    {lo addr stop n : ℕ} {l : List VmArea} {c : Change}
    → Cleared lo addr stop l c
    → Remapped lo addr stop (λ _. none) (table l n) (commit (table l n) c)
Cleared-Remapped {n} {l} {c} p = record {
  sorted = p.sorted;
  flags = p.flags;
  counter = commit-counter (table l n) c p.count;
}

unmap_areas-Remapped :
    (lo : ℕ) (t : AreaTable) (addr len : ℕ)
    → IsSorted lo t.vm_area
    → addr + len < 2 ^ 64
    → 0 < len
    → (unmap_areas t addr len).ret ≡ some 0
    → Remapped lo addr (addr + len) (λ _. none) t (unmap_areas t addr len).table
unfolding unmap_areas
unmap_areas-Remapped lo t addr len s fits pos e =
    let stop : add64 addr len ≡ addr + len = omega arith in
    elim (Option-cases (unmap_loop (length t.vm_area) addr (add64 addr len) t.vm_area)) [
      | inl refused ↦ absurd (ground arith)
      | inr (c, done) ↦
          rw (done, unmap_areas)
            (Cleared-Remapped (
              unmap_loop-Cleared (length t.vm_area) lo addr (addr + len) t.vm_area c s (omega arith)
                (rw stop at done)))
    ]

Remapped-none : (lo addr stop n : ℕ) → Remapped lo addr stop (λ _. none) (table [] n) (table [] n)
unfolding flags_at
Remapped-none lo addr stop n = record { sorted = tt; flags = λ x. ground arith; counter = refl }

pub unmap_valid :
    (c : VmArea) (r : List VmArea) (n addr len : ℕ)
    → is_valid_range addr len ≡ true
    → vm_area_unmap (table (c ∷ r) n) addr len ≡ unmap_areas (table (c ∷ r) n) addr (page_round len)
unfolding vm_area_unmap
unmap_valid c r n addr len v = ground arith

pub unmap_invalid :
    (t : AreaTable) (addr len : ℕ)
    → is_valid_range addr len ≡ false
    → vm_area_unmap t addr len ≡ failed t
unfolding vm_area_unmap
unmap_invalid t addr len v = ground arith

pub unmap_nothing :
    (n addr len : ℕ)
    → is_valid_range addr len ≡ true
    → vm_area_unmap (table [] n) addr len ≡ record { ret = some 0; table = table [] n; pages = [] }
unfolding vm_area_unmap
unmap_nothing n addr len v = ground arith

by_chain :
    (lo : ℕ) (l : List VmArea) (n addr len : ℕ)
    → IsSorted lo l
    → addr + page_round len < 2 ^ 64
    → 0 < page_round len
    → (vm_area_unmap (table l n) addr len).ret ≡ some 0
    → Remapped lo addr
        (addr + page_round len)
        (λ _. none)
        (table l n)
        (vm_area_unmap (table l n) addr len).table
by_chain lo l n addr len s fits pos e = elim (Bool-cases (is_valid_range addr len)) [
  | inr out ↦ absurd (cc (rw (unmap_invalid (table l n) addr len out) at e))
  | inl valid ↦ in_range l s e valid
]
  where
    in_range :
        (l : List VmArea)
        → IsSorted lo l
        → (vm_area_unmap (table l n) addr len).ret ≡ some 0
        → is_valid_range addr len ≡ true
        → Remapped lo addr
            (addr + page_round len)
            (λ _. none)
            (table l n)
            (vm_area_unmap (table l n) addr len).table
    in_range [] s e valid = rw (unmap_nothing n addr len valid) (Remapped-none lo addr _ n)
    in_range (c ∷ r) s e valid =
        let same = unmap_valid c r n addr len valid in
        rw same (
          unmap_areas-Remapped lo (table (c ∷ r) n) addr (page_round len) s fits pos (rw same at e))

-- After a call of `vm_area_unmap` that returns 0, with a length that is not 0 and a range that does
-- not wrap round, no address of the range is mapped, every other address has the flags that it had,
-- the areas are still in order and apart, and the counter has moved with their number.
pub unmap-Remapped :
    (lo : ℕ) (t : AreaTable) (addr len : ℕ)
    → IsSorted lo t.vm_area
    → addr + page_round len < 2 ^ 64
    → 0 < page_round len
    → (vm_area_unmap t addr len).ret ≡ some 0
    → Remapped lo addr (addr + page_round len) (λ _. none) t (vm_area_unmap t addr len).table
unmap-Remapped lo t = by_chain lo t.vm_area t.num_vm_area
