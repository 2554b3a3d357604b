-- ===== src/PageFault.antt =====
-- `vm_area_pagefault` of Assignment3/Ass3/src/mmap.c: the checks against the memory areas of the process,
-- and the installation of the page.
pub mod Allowed
pub mod Install
mod Tests
use operating_systems_cs.Base.{
  ℕ, zero, suc, ◌+◌, ◌-◌, ◌*◌, ◌/◌, ◌%◌, ◌^◌, Bool, true, false, not, ◌&&◌, ◌||◌, ltb, leb, ◌==◌,
  Option, none, some, List, [], ◌∷◌, if◌then◌else◌,
}
use operating_systems_cs.Frames.Source.{FrameSource}
use operating_systems_cs.PageTable.{Machine, access_bits, install}
use operating_systems_cs.MemoryMap.Areas.{VmArea, area_start, area_end}
use operating_systems_cs.MemoryMap.View.{within}

-- The loop that looks for the address in the gaps behind the areas: whether it returns -1.
pub in_gap : List VmArea → (addr : ℕ) → Bool
in_gap [] addr = false
in_gap (c ∷ []) addr = leb c.vm_end addr
in_gap (c ∷ n ∷ r) addr = (leb c.vm_end addr && ltb addr n.vm_start) || in_gap (n ∷ r) addr

-- The loop that looks for an area at the address without write access.
unfoldable pub write_denied : List VmArea → (addr : ℕ) → Bool
write_denied [] addr = false
write_denied (c ∷ r) addr =
    (within c.vm_start c.vm_end addr && not (c.access_flags / 2 % 2 == 1)) || write_denied r addr

-- The checks at the head of the function: whether none of them returns -1.
pub passes : List VmArea → (addr error_code : ℕ) → Bool
unfolding in_gap write_denied
passes [] addr error_code = false
passes (c ∷ r) addr error_code =
    leb area_start addr
    && ltb addr area_end
    && not (error_code % 2 == 1)
    && not (ltb addr c.vm_start)
    && not (in_gap (c ∷ r) addr)
    && not ((error_code / 2 % 2 == 1) && write_denied (c ∷ r) addr)

-- `none` for the result -1.
unfoldable pub vm_area_pagefault :
    (src : FrameSource)
    → List VmArea
    → Machine src.Pages
    → (pgd addr error_code : ℕ) → Option ℕ × Machine src.Pages
unfolding passes install
vm_area_pagefault src areas m pgd addr error_code =
    if passes areas addr error_code
    then (some 1, install src 7 (access_bits error_code) m pgd addr)
    else (none, m)
