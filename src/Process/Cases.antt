-- ===== src/Process/Cases.antt =====
-- The ways in which `vm_area_unmap` ends.
use operating_systems_cs.Base.{
  ℕ, ◌≡◌, refl, true, some, List, [], ◌∷◌, length, inl, inr, Bool-cases, Option-cases, add64, ◌⊎◌,
}
use operating_systems_cs.MemoryMap.Areas.{AreaTable, page_round, each_page, Outcome}
use operating_systems_cs.MemoryMap.Unmap.{unmap_loop, unmap_areas, vm_area_unmap}
use operating_systems_cs.MemoryMap.Unmap.Calls.{
  table, is_valid_range, unmap_valid, unmap_invalid, unmap_nothing,
}

-- Nothing changes, or the call succeeds with the pages of the range.
abbrev pub Ended : AreaTable → (addr stop : ℕ) → Outcome → Type 0
Ended t addr stop o =
    ((o.table ≡ t) × (o.pages ≡ [])) ⊎ ((o.ret ≡ some 0) × (o.pages ≡ each_page addr stop))

unmap_areas-Ended :
    (t : AreaTable) (addr len : ℕ) → Ended t addr (add64 addr len) (unmap_areas t addr len)
unfolding unmap_areas
unmap_areas-Ended t addr len =
    elim (Option-cases (unmap_loop (length t.vm_area) addr (add64 addr len) t.vm_area)) [
      | inl refused ↦ rw (refused, unmap_areas) (inl (refl, refl))
      | inr (c, done) ↦ rw (done, unmap_areas) (inr (refl, refl))
    ]

in_range-Ended :
    (l : List _) (n addr len : ℕ)
    → is_valid_range addr len ≡ true
    → Ended (table l n) addr (add64 addr (page_round len)) (vm_area_unmap (table l n) addr len)
in_range-Ended [] n addr len valid = rw (unmap_nothing n addr len valid) (inl (refl, refl))
in_range-Ended (c ∷ r) n addr len valid =
    rw (unmap_valid c r n addr len valid)
      (unmap_areas-Ended (table (c ∷ r) n) addr (page_round len))

pub vm_area_unmap-Ended :
    (t : AreaTable) (addr len : ℕ)
    → Ended t addr (add64 addr (page_round len)) (vm_area_unmap t addr len)
vm_area_unmap-Ended t addr len = elim (Bool-cases (is_valid_range addr len)) [
  | inl valid ↦ in_range-Ended t.vm_area t.num_vm_area addr len valid
  | inr out ↦ rw (unmap_invalid t addr len out) (inl (refl, refl))
]
