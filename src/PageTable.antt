-- ===== src/PageTable.antt =====
-- The page tables of gemOS (Assignment3/Ass3/src): `get_pte`, `pfn_unmap`, `change_permissions` and
-- `alloc_pfn` of mmap.c, `install_page_table` of entry.c, and the reference counts of page.c. Frame `t`
-- read as a table has the 512 entries `entry t i`. The frame allocator is an interface.
pub mod Lookup
pub mod Tree
pub mod Grow
pub mod Write
pub mod Same
pub mod Tables
pub mod Install
pub mod Entries
pub mod Unmap
pub mod Permissions
pub mod Sample
mod Tests
use operating_systems_cs.Base.{
  ℕ, zero, suc, ◌+◌, ◌-◌, ◌*◌, ◌/◌, ◌%◌, ◌^◌, Bool, true, false, not, ◌&&◌, ◌||◌, ltb, leb, ◌==◌,
  Option, none, some, if◌then◌else◌,
}
use operating_systems_cs.Threads.{update}
use operating_systems_cs.Frames.Source.{FrameSource}

-- The page tables in memory, the counts of page.c (`u8`), the two regions, and a counter of `stats`.
pub record Machine (P : Type 0) : Type 0 where
  pub entry : ℕ → ℕ → ℕ
  pub refcount : ℕ → ℕ
  pub pt_pages : P
  pub user_pages : P
  pub user_reg_pages : ℕ

-- `*entry & 0x1`, `*entry & 0x4`, and the test `(*entry & 0x80) == 1`.
abbrev pub present : ℕ → Bool
present e = e % 2 == 1

abbrev pub user : ℕ → Bool
user e = e / 4 % 2 == 1

abbrev pub huge_test : ℕ → Bool
huge_test e = e / 128 % 2 * 128 == 1

-- `(*entry >> PTE_SHIFT) & 0xFFFFFFFF`
abbrev pub frame_of : ℕ → ℕ
frame_of e = e / 4096 % 2 ^ 32

abbrev pub pgd_index : ℕ → ℕ
pgd_index addr = addr / 2 ^ 39 % 512

abbrev pub pud_index : ℕ → ℕ
pud_index addr = addr / 2 ^ 30 % 512

abbrev pub pmd_index : ℕ → ℕ
pmd_index addr = addr / 2 ^ 21 % 512

abbrev pub pte_index : ℕ → ℕ
pte_index addr = addr / 2 ^ 12 % 512

abbrev pub update2 : (ℕ → ℕ → ℕ) → ℕ → ℕ → ℕ → ℕ → ℕ → ℕ
update2 f t i v s j = if (t == s) && (i == j) then v else f s j

-- `0x5 | (prot & 0x2)`
abbrev pub access_bits : ℕ → ℕ
access_bits prot = 5 + prot / 2 % 2 * 2

module _ {P : Type 0} where
  -- The table that a user entry leads to.
  abbrev pub descend : Machine P → (table i : ℕ) → Option ℕ
  descend m table i =
      if present (m.entry table i) && user (m.entry table i)
      then some (frame_of (m.entry table i))
      else none

  abbrev pub descend_pmd : Machine P → (table i : ℕ) → Option ℕ
  descend_pmd m table i = if huge_test (m.entry table i) then none else descend m table i

  -- The place of the entry, or `NULL`.
  abbrev pub leaf_at : Machine P → (table i : ℕ) → Option (ℕ × ℕ)
  leaf_at m table i =
      if present (m.entry table i) && user (m.entry table i) then some (table, i) else none

  unfoldable pub get_pte : Machine P → (pgd addr : ℕ) → Option (ℕ × ℕ)
  get_pte m pgd addr = elim (descend m pgd (pgd_index addr)) [
    | none ↦ none
    | some pud ↦ elim (descend m pud (pud_index addr)) [
      | none ↦ none
      | some pmd ↦ elim (descend_pmd m pmd (pmd_index addr)) [
        | none ↦ none
        | some pt ↦ leaf_at m pt (pte_index addr)
      ]
    ]
  ]

  abbrev pub set_entry : Machine P → (table i v : ℕ) → Machine P
  set_entry m table i v = record m { entry = update2 m.entry table i v }

  -- A frame with one user gets the flags of `prot`; a shared one keeps its own.
  unfoldable pub change_permissions : Machine P → (pgd addr prot : ℕ) → Machine P
  unfolding get_pte
  change_permissions m pgd addr prot = elim (get_pte m pgd addr) [
    | none ↦ m
    | some (table, i) ↦
        if m.refcount (frame_of (m.entry table i)) == 1
        then set_entry m table i (m.entry table i / 8 * 8 + access_bits prot)
        else m
  ]

module _ (src : FrameSource) where
  -- `os_pfn_alloc(OS_PT_REG)`: the page is filled with zeros; 0 where it is out of memory.
  abbrev pub alloc_table : Machine src.Pages → ℕ × Machine src.Pages
  alloc_table m = elim (src.alloc m.pt_pages) [
    | none ↦ (0, m)
    | some (f, pages) ↦
        (f, record m { pt_pages = pages; entry = λ t i. if f == t then 0 else m.entry t i })
  ]

  -- `os_pfn_alloc(USER_REG)`
  abbrev pub alloc_user : Machine src.Pages → ℕ × Machine src.Pages
  alloc_user m = elim (src.alloc m.user_pages) [
    | none ↦ (0, m)
    | some (f, pages) ↦ (
      f,
      record m {
        user_pages = pages;
        refcount = update m.refcount f 1;
        user_reg_pages = (m.user_reg_pages + 1) % 2 ^ 64;
      },
    )
  ]

  -- `os_pfn_free(USER_REG, pfn)`
  abbrev pub free_user : ℕ → Machine src.Pages → Machine src.Pages
  free_user f m = record m {
    user_pages = src.free m.user_pages f;
    refcount = update m.refcount f 0;
    user_reg_pages = (m.user_reg_pages + 2 ^ 64 - 1) % 2 ^ 64;
  }

  -- The table below an entry, which is made where it is missing.
  pub next_table : (flags : ℕ) → Machine src.Pages → (table i : ℕ) → ℕ × Machine src.Pages
  next_table flags m table i =
      let fresh = alloc_table m in
      if present (m.entry table i)
      then (frame_of (m.entry table i), m)
      else (fresh.0, set_entry (fresh.1) table i (fresh.0 * 4096 + flags))

  -- The tables on the way to the entry of an address, and the last of them.
  unfoldable pub make_tables :
      (flags : ℕ) → Machine src.Pages → (pgd addr : ℕ) → ℕ × Machine src.Pages
  unfolding next_table
  make_tables flags m pgd addr =
      let (pud, m1) = next_table flags m pgd (pgd_index addr) in
      let (pmd, m2) = next_table flags m1 pud (pud_index addr) in
      next_table flags m2 pmd (pmd_index addr)

  -- The tables are made with `flags`, and the page with the bits `access`.
  unfoldable pub install :
      (flags access : ℕ) → Machine src.Pages → (pgd addr : ℕ) → Machine src.Pages
  unfolding make_tables
  install flags access m pgd addr =
      let (table, m') = make_tables flags m pgd addr in
      let (f, m'') = alloc_user m' in set_entry m'' table (pte_index addr) (f * 4096 + access)

  abbrev pub alloc_pfn : Machine src.Pages → (pgd addr prot : ℕ) → Machine src.Pages
  alloc_pfn m pgd addr prot = install 7 (access_bits prot) m pgd addr

  -- In `install_page_table` the tables get the bits of the page.
  abbrev pub install_page_table : Machine src.Pages → (pgd addr error_code : ℕ) → Machine src.Pages
  install_page_table m pgd addr error_code =
      install (access_bits error_code) (access_bits error_code) m pgd addr

  -- What happens to the frame of an entry that is cleared.
  abbrev pub drop_frame : ℕ → Machine src.Pages → Machine src.Pages
  drop_frame f m =
      if m.refcount f == 1
      then free_user f m
      else record m { refcount = update m.refcount f ((m.refcount f + 255) % 256) }

  unfoldable pub pfn_unmap : Machine src.Pages → (pgd addr : ℕ) → Machine src.Pages
  unfolding get_pte
  pfn_unmap m pgd addr = elim (get_pte m pgd addr) [
    | none ↦ m
    | some (table, i) ↦ set_entry (drop_frame (frame_of (m.entry table i)) m) table i 0
  ]
