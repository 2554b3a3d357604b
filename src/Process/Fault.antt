-- ===== src/Process/Fault.antt =====
-- A page fault keeps the address space and the page tables of a process in step.
use operating_systems_cs.Base.{
  ℕ, ◌/◌, ◌%◌, ◌≡◌, refl, true, false, Bool, ◌<◌, ◌≤◌, ◌==◌, Option, none, List, [], ◌∷◌, arith,
  inl, inr, Bool-cases, ◌∙◌, sym, ap, subst,
}
use operating_systems_cs.Frames.Source.{FrameSource}
use operating_systems_cs.MemoryMap.Areas.{VmArea, area_end}
use operating_systems_cs.MemoryMap.View.{flags_at}
use operating_systems_cs.PageTable.{Machine, pgd_index, pud_index, pmd_index, access_bits}
use operating_systems_cs.PageTable.Write.{page_of}
use operating_systems_cs.PageTable.Install.{IsInstalled}
use operating_systems_cs.PageFault.{vm_area_pagefault}
use operating_systems_cs.PageFault.Allowed.{allowed, is_some}
use operating_systems_cs.PageFault.Install.{IsServed, vm_area_pagefault-IsServed}
use operating_systems_cs.Process.{Process, page_fault}
use operating_systems_cs.Process.Release.{IsCoherent}

-- Areas of whole pages.
abbrev pub IsAligned : List VmArea → Type 0
IsAligned [] = Unit {0}
IsAligned (c ∷ r) = (c.vm_start % 4096 ≡ 0) × (c.vm_end % 4096 ≡ 0) × IsAligned r

flags_at-page :
    (l : List VmArea) (a b : ℕ) → IsAligned l → a / 4096 ≡ b / 4096 → flags_at l a ≡ flags_at l b
unfolding flags_at
flags_at-page [] a b aligned same = refl
flags_at-page (c ∷ r) a b aligned same = ground (arith, flags_at-page r a b)

-- A fault is only served where an area is.
allowed-some :
    (l : List VmArea) (addr error_code : ℕ)
    → allowed l addr error_code ≡ true
    → (is_some (flags_at l addr) ≡ true) × (addr < area_end)
allowed-some l addr error_code yes_allowed = ground arith

module _ (src : FrameSource) (kernel : List ℕ → Bool) (place : ℕ → Option (List ℕ)) (pgd lo : ℕ)
    (p : Process src) (before : IsCoherent src kernel place pgd lo p)
    (aligned : IsAligned p.table.vm_area) (addr error_code : ℕ)
    (k4 : kernel (pgd_index addr ∷ []) ≡ false)
    (k3 : kernel (pud_index addr ∷ pgd_index addr ∷ []) ≡ false)
    (k2 : kernel (pmd_index addr ∷ pud_index addr ∷ pgd_index addr ∷ []) ≡ false) where
  abbrev with_machine : Machine src.Pages → Process src
  with_machine m = record { table = p.table; machine = m }

  installed :
      (m : Machine src.Pages)
      → allowed p.table.vm_area addr error_code ≡ true
      → (page : IsInstalled src kernel pgd addr (access_bits error_code) p.machine m)
      → IsCoherent src kernel page.place pgd lo (with_machine m)
  installed m yes_allowed page =
      let (there, high_end) = allowed-some p.table.vm_area addr error_code yes_allowed in
      record {
        sorted = before.sorted;
        tree = page.tree;
        covered = λ a low high gone. elim (Bool-cases (page_of a == page_of addr)) [
          | inl same ↦
              let flags = flags_at-page p.table.vm_area a addr aligned (ground arith) in
              absurd (
                let lost : is_some none ≡ true = ap is_some (sym gone ∙ flags) ∙ there in
                ground arith)
          | inr other ↦ page.translated a ∙ rw other (before.covered a low high gone)
        ];
      }

  -- If a process with areas of whole pages is coherent, the entries on the way to the address are not the
  -- kernel's, and three frames for tables and one for the user are left, then it is coherent after a page fault, served or refused, with its tables at the places of
  -- some tree: no address outside the areas gets a frame.
  pub page_fault-IsCoherent :
      3 ≤ src.room p.machine.pt_pages
      → 1 ≤ src.room p.machine.user_pages
      → (place' : ℕ → Option (List ℕ)) × IsCoherent src kernel place' pgd lo
          (page_fault src p pgd addr error_code).1
  unfolding page_fault
  page_fault-IsCoherent tables_left frames_left =
      let (ret, m) = vm_area_pagefault src p.table.vm_area p.machine pgd addr error_code in
      let s : IsServed src kernel p.table.vm_area pgd addr error_code p.machine ret m =
        vm_area_pagefault-IsServed src kernel place pgd p.machine p.table.vm_area lo addr error_code
          before.tree before.sorted k4 k3 k2 tables_left frames_left in
      elim (Bool-cases (allowed p.table.vm_area addr error_code)) [
        | inl yes_allowed ↦
            let page = (s.served yes_allowed).1 in (page.place, installed m yes_allowed page)
        | inr no_allowed ↦ (
          place,
          subst (λ x. IsCoherent src kernel place pgd lo (with_machine x))
              (sym (s.refused no_allowed).1) before,
        )
      ]
