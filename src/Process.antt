-- ===== src/Process.antt =====
-- Memory areas and page tables of one process together: `munmap`, which is `vm_area_unmap` of
-- Assignment3/Ass3/src/mmap.c with the calls of `pfn_unmap` at its end, `mprotect`, which is
-- `vm_area_mprotect` with its calls of `change_permissions`, and `page_fault`, which is
-- `vm_area_pagefault` of the same file on the areas of the process.
pub mod Cases
pub mod Pages
pub mod Release
pub mod Fault
pub mod Protect
mod Tests
use operating_systems_cs.Base.{ℕ, Option, List, [], ◌∷◌}
use operating_systems_cs.Frames.Source.{FrameSource}
use operating_systems_cs.MemoryMap.Areas.{AreaTable}
use operating_systems_cs.MemoryMap.Unmap.{vm_area_unmap}
use operating_systems_cs.MemoryMap.Protect.{vm_area_mprotect}
use operating_systems_cs.PageTable.{Machine, pfn_unmap, change_permissions}
use operating_systems_cs.PageFault.{vm_area_pagefault}

module _ (src : FrameSource) where
  pub record Process : Type 0 where
    pub table : AreaTable
    pub machine : Machine src.Pages

  -- `for(unsigned long i = addr; i < addr + length; i += 4096) pfn_unmap(current, i)`
  pub unmap_pages : Machine src.Pages → (pgd : ℕ) → List ℕ → Machine src.Pages
  unfolding pfn_unmap
  unmap_pages m pgd [] = m
  unmap_pages m pgd (a ∷ r) = unmap_pages (pfn_unmap src m pgd a) pgd r

  unfoldable pub munmap : Process → (pgd addr len : ℕ) → Option ℕ × Process
  unfolding vm_area_unmap unmap_pages
  munmap p pgd addr len =
      let o = vm_area_unmap p.table addr len in
      (o.ret, record { table = o.table; machine = unmap_pages p.machine pgd o.pages })

  unfoldable pub page_fault : Process → (pgd addr error_code : ℕ) → Option ℕ × Process
  unfolding vm_area_pagefault
  page_fault p pgd addr error_code =
      let (ret, m) = vm_area_pagefault src p.table.vm_area p.machine pgd addr error_code in
      (ret, record p { machine = m })

  -- The loop at the end of `vm_area_mprotect`.
  pub protect_pages : Machine src.Pages → (pgd prot : ℕ) → List ℕ → Machine src.Pages
  unfolding change_permissions
  protect_pages m pgd prot [] = m
  protect_pages m pgd prot (a ∷ r) = protect_pages (change_permissions m pgd a prot) pgd prot r

  unfoldable pub mprotect : Process → (pgd addr len prot : ℕ) → Option ℕ × Process
  unfolding vm_area_mprotect protect_pages
  mprotect p pgd addr len prot =
      let o = vm_area_mprotect p.table addr len prot in
      (o.ret, record { table = o.table; machine = protect_pages p.machine pgd prot o.pages })
