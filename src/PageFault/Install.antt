-- ===== src/PageFault/Install.antt =====
-- What a page fault in the mapped areas achieves.
use operating_systems_cs.Base.{
  ℕ, ◌≡◌, refl, ◌≤◌, Bool, true, false, Option, none, some, List, [], ◌∷◌, arith, Bool-cases, inl,
  inr, ◌∙◌, sym,
}
use operating_systems_cs.Frames.Source.{FrameSource}
use operating_systems_cs.MemoryMap.Areas.{VmArea}
use operating_systems_cs.MemoryMap.View.{IsSorted}
use operating_systems_cs.PageTable.{Machine, access_bits, pgd_index, pud_index, pmd_index}
use operating_systems_cs.PageTable.Tree.{IsTree}
use operating_systems_cs.PageTable.Tables.{AreUserBits}
use operating_systems_cs.PageTable.Install.{IsInstalled, install-IsInstalled}
use operating_systems_cs.PageFault.{vm_area_pagefault, passes}
use operating_systems_cs.PageFault.Allowed.{allowed, passes-allowed}

-- A fault that the areas allow is served with a page; any other is refused, and changes nothing.
pub record IsServed (src : FrameSource) (kernel : List ℕ → Bool) (areas : List VmArea)
    (pgd addr error_code : ℕ) (m : Machine src.Pages) (answer : Option ℕ) (m' : Machine src.Pages)
    : Type 0 where
  pub served :
      allowed areas addr error_code ≡ true
      → (answer ≡ some 1) × IsInstalled src kernel pgd addr (access_bits error_code) m m'
  pub refused : allowed areas addr error_code ≡ false → (answer ≡ none) × (m' ≡ m)

access_bits-AreUserBits : (error_code : ℕ) → AreUserBits (access_bits error_code)
access_bits-AreUserBits error_code = record {
  small = omega arith;
  odd = omega arith;
  user_bit = omega arith;
}

table_bits : AreUserBits 7
table_bits = record { small = omega arith; odd = refl; user_bit = refl }

module _ (src : FrameSource) (kernel : List ℕ → Bool) (place : ℕ → Option (List ℕ)) (pgd : ℕ)
    (m : Machine src.Pages) (areas : List VmArea) (lo addr error_code : ℕ)
    (tree : IsTree src.in_use kernel place pgd m) (sorted : IsSorted lo areas)
    (k4 : kernel (pgd_index addr ∷ []) ≡ false)
    (k3 : kernel (pud_index addr ∷ pgd_index addr ∷ []) ≡ false)
    (k2 : kernel (pmd_index addr ∷ pud_index addr ∷ pgd_index addr ∷ []) ≡ false) where
  -- If the areas are in order, the tables form a tree whose entries outside the kernel's are user entries,
  -- the entries on the way to the address are not the kernel's, and three frames for tables and one for the user are left, then `vm_area_pagefault` serves exactly the
  -- faults of absent pages in an area, for a write in an area with write access: the page gets a frame that
  -- was not in use, with the bits of the access, so that a page installed for a read is read-only also
  -- in an area with write access, every other page stays, and the tables still form such a tree. Any other fault returns -1 and
  -- changes nothing.
  pub vm_area_pagefault-IsServed :
      3 ≤ src.room m.pt_pages
      → 1 ≤ src.room m.user_pages
      → IsServed src kernel areas pgd addr error_code m
          (vm_area_pagefault src areas m pgd addr error_code).0
          (vm_area_pagefault src areas m pgd addr error_code).1
  unfolding vm_area_pagefault
  vm_area_pagefault-IsServed tables_left frames_left =
      let checks = passes-allowed lo addr error_code areas sorted in
      let page =
        install-IsInstalled src kernel place pgd m 7 (access_bits error_code) addr tree table_bits
          (access_bits-AreUserBits error_code) k4 k3 k2 tables_left frames_left in
      elim (Bool-cases (passes areas addr error_code)) [
        | inl pass ↦ rw pass (record {
          served = λ yes_allowed. (refl, page);
          refused = λ no_allowed.
              absurd (let c : true ≡ false = sym pass ∙ checks ∙ no_allowed in ground arith);
        })
        | inr fail ↦ rw fail (record {
          served = λ yes_allowed.
              absurd (let c : true ≡ false = sym yes_allowed ∙ sym checks ∙ fail in ground arith);
          refused = λ no_allowed. (refl, refl);
        })
      ]
