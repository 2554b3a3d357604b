-- ===== src/MemoryMap/Unmap/Errors.antt =====
-- When `vm_area_unmap` fails, what it then leaves, and the limit of 128 areas.
use operating_systems_cs.Base.{
  ℕ, ◌+◌, ◌*◌, ◌≡◌, ◌⊎◌, true, false, ◌<◌, ◌≤◌, ◌^◌, none, some, List, [], ◌∷◌, arith,
  if◌then◌else◌, length, inl, inr, ◌==◌, Bool-cases, Option-cases, ltb, add64, get_elem?, ◌∙◌,
}
use operating_systems_cs.MemoryMap.Areas.{
  VmArea, Change, AreaTable, failed, page_round, page_size, each_page-get_elem?,
}
use operating_systems_cs.MemoryMap.Unmap.{unmap_rest, unmap_loop, unmap_areas, vm_area_unmap}
use operating_systems_cs.MemoryMap.Unmap.Calls.{
  table, is_valid_range, unmap_valid, unmap_invalid, unmap_nothing,
}

-- An area that contains the range with addresses left on both sides.
abbrev pub Splits : ℕ → ℕ → List VmArea → Type 0
Splits addr stop [] = ⊥
Splits addr stop (c ∷ r) =
    ((c.vm_start < addr) × (addr < c.vm_end) × (stop < c.vm_end)) ⊎ Splits addr stop r

-- `none` comes only from a split at 128 areas.
unmap_loop-none :
    (cnt addr stop : ℕ) (l : List VmArea)
    → unmap_loop cnt addr stop l ≡ none
    → (cnt ≡ 128) × Splits addr stop l
unfolding unmap_loop
unmap_loop-none cnt addr stop [] e = absurd (cc)
unmap_loop-none cnt addr stop (a ∷ r) e = elim (Option-cases (unmap_loop cnt addr stop r)) [
  | inl refused ↦ ground (arith, unmap_loop-none cnt addr stop r refused)
  | inr (c', e') ↦ ground arith
]

unmap_rest-length : (stop : ℕ) (l : List VmArea) → length (unmap_rest stop l).areas ≤ length l
unfolding unmap_rest
unmap_rest-length stop [] = omega arith
unmap_rest-length stop (c ∷ r) = ground (arith, unmap_rest-length stop r)

unmap_loop-length :
    (cnt addr stop : ℕ) (l : List VmArea) (c : Change)
    → unmap_loop cnt addr stop l ≡ some c
    → length c.areas ≤ length l + (if cnt == 128 then 0 else 1)
unfolding unmap_loop
unmap_loop-length cnt addr stop [] c e = ground arith
unmap_loop-length cnt addr stop (a ∷ r) c e = elim (Option-cases (unmap_loop cnt addr stop r)) [
  | inl refused ↦ ground (arith, unmap_rest-length stop r)
  | inr (c', e') ↦ ground (arith, unmap_rest-length stop r, unmap_loop-length cnt addr stop r c' e')
]

unmap_areas-length :
    (t : AreaTable) (addr len : ℕ)
    → length t.vm_area ≤ 128
    → length (unmap_areas t addr len).table.vm_area ≤ 128
unfolding unmap_areas
unmap_areas-length t addr len h =
    elim (Option-cases (unmap_loop (length t.vm_area) addr (add64 addr len) t.vm_area)) [
      | inl refused ↦ rw (refused, unmap_areas) h
      | inr (c, done) ↦
          rw (done, unmap_areas)
            (ground
              (arith, unmap_loop-length (length t.vm_area) addr (add64 addr len) t.vm_area c done))
    ]

-- Why `vm_area_unmap` returned -1, and that it changed nothing.
abbrev pub Refusal : AreaTable → ℕ → ℕ → Type 0
Refusal t addr len =
    (is_valid_range addr len ≡ false)
    ⊎ ((length t.vm_area ≡ 128) × Splits addr (add64 addr (page_round len)) t.vm_area)

unmap_areas-none :
    (t : AreaTable) (addr len : ℕ)
    → (unmap_areas t addr len).ret ≡ none
    → (unmap_areas t addr len ≡ failed t)
      × (length t.vm_area ≡ 128)
      × Splits addr (add64 addr len) t.vm_area
unfolding unmap_areas
unmap_areas-none t addr len e =
    elim (Option-cases (unmap_loop (length t.vm_area) addr (add64 addr len) t.vm_area)) [
      | inl refused ↦
          let (full, split) =
            unmap_loop-none (length t.vm_area) addr (add64 addr len) t.vm_area refused in
          (rw (refused, unmap_areas), full, split)
      | inr (c, done) ↦ absurd (cc (rw (done, unmap_areas) at e))
    ]

-- A call of `vm_area_unmap` that returns -1 changes nothing, and it does so only for a range that
-- is not in the mmap region, or at 128 areas for a range that would split an area in two.
pub unmap-fails :
    (t : AreaTable) (addr len : ℕ)
    → (vm_area_unmap t addr len).ret ≡ none
    → (vm_area_unmap t addr len ≡ failed t) × Refusal t addr len
unmap-fails t addr len e = elim (Bool-cases (is_valid_range addr len)) [
  | inr out ↦ (unmap_invalid t addr len out, inl out)
  | inl valid ↦ by_chain t.vm_area e valid
]
  where
    by_chain :
        (l : List VmArea)
        → (vm_area_unmap (table l t.num_vm_area) addr len).ret ≡ none
        → is_valid_range addr len ≡ true
        → (vm_area_unmap (table l t.num_vm_area) addr len ≡ failed (table l t.num_vm_area))
          × Refusal (table l t.num_vm_area) addr len
    by_chain [] e valid = absurd (cc (rw (unmap_nothing t.num_vm_area addr len valid) at e))
    by_chain (c ∷ r) e valid =
        let same = unmap_valid c r t.num_vm_area addr len valid in
        let (left, full, split) =
          unmap_areas-none (table (c ∷ r) t.num_vm_area) addr (page_round len) (rw same at e) in
        (same ∙ left, inr (full, split))

-- No call of `vm_area_unmap` takes a process over the limit of 128 areas.
pub unmap-limit :
    (t : AreaTable) (addr len : ℕ)
    → length t.vm_area ≤ 128
    → length (vm_area_unmap t addr len).table.vm_area ≤ 128
unmap-limit t addr len h = elim (Bool-cases (is_valid_range addr len)) [
  | inr out ↦ rw (unmap_invalid t addr len out) h
  | inl valid ↦ by_chain t.vm_area h valid
]
  where
    by_chain :
        (l : List VmArea)
        → length l ≤ 128
        → is_valid_range addr len ≡ true
        → length (vm_area_unmap (table l t.num_vm_area) addr len).table.vm_area ≤ 128
    by_chain [] h valid = rw (unmap_nothing t.num_vm_area addr len valid) h
    by_chain (c ∷ r) h valid =
        rw (unmap_valid c r t.num_vm_area addr len valid)
          (unmap_areas-length (table (c ∷ r) t.num_vm_area) addr (page_round len) h)

unmap_areas-pages :
    (t : AreaTable) (addr len k : ℕ)
    → addr + len + page_size ≤ 2 ^ 64
    → (unmap_areas t addr len).ret ≡ some 0
    → get_elem? (unmap_areas t addr len).pages k
      ≡ (if ltb (page_size * k) len then some (addr + page_size * k) else none)
unfolding unmap_areas
unmap_areas-pages t addr len k fits e =
    elim (Option-cases (unmap_loop (length t.vm_area) addr (add64 addr len) t.vm_area)) [
      | inl refused ↦ absurd (cc (rw (refused, unmap_areas) at e))
      | inr (c, done) ↦
          let stop : add64 addr len ≡ addr + len = omega arith in
          rw (done, unmap_areas, stop)
            (rw (each_page-get_elem? addr (addr + len) k (omega arith)) (ground arith))
    ]

-- A successful call of `vm_area_unmap` on a process with areas calls `pfn_unmap` for the pages of
-- the range, one after the other from its start, and for no other, if the range ends at least a
-- page below the top of the 64-bit addresses.
pub unmap-pages :
    (c : VmArea) (r : List VmArea) (n addr len k : ℕ)
    → addr + page_round len + page_size ≤ 2 ^ 64
    → (vm_area_unmap (table (c ∷ r) n) addr len).ret ≡ some 0
    → get_elem? (vm_area_unmap (table (c ∷ r) n) addr len).pages k
      ≡ (if ltb (page_size * k) (page_round len) then some (addr + page_size * k) else none)
unmap-pages c r n addr len k fits e = elim (Bool-cases (is_valid_range addr len)) [
  | inr out ↦ absurd (cc (rw (unmap_invalid (table (c ∷ r) n) addr len out) at e))
  | inl valid ↦
      let same = unmap_valid c r n addr len valid in
      rw same (unmap_areas-pages (table (c ∷ r) n) addr (page_round len) k fits (rw same at e))
]
