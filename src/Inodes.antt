-- ===== src/Inodes.antt =====
-- The inode table of gemOS of Assignment2 and the opening of regular files: `flat_lookup_inode`,
-- `get_free_inode`, `flat_create_inode` and `flat_remove_inode` of fs.c, and `do_regular_file_open` of
-- file.c. A file name is the list of its characters in front of the zero.
pub mod Names
pub mod Open
mod Tests
use operating_systems_cs.Base.{
  ℕ, zero, suc, ◌+◌, ◌-◌, ◌/◌, ◌%◌, ◌^◌, Bool, true, false, not, ◌&&◌, ◌||◌, ltb, leb, ◌==◌, Option,
  none, some, List, [], ◌∷◌, length, if◌then◌else◌,
}
use operating_systems_cs.Threads.{update}
use operating_systems_cs.Files.{
  File, Store, FileTable, Errno, einval, eacces, eothers, enomem, Result, ok, error, fault, Opened,
}
use operating_systems_cs.Files.Make.{open_inode}
use operating_systems_cs.Regular.{Inode, file_size_max, may_read, may_write}

-- `is_valid` is an `int`, and the rest of the inode is what reading and writing use.
pub record Slot : Type 0 where
  pub is_valid : ℕ
  pub filename : List ℕ
  pub ref_count : ℕ
  pub inode : Inode

-- `num_files` is an `int`.
pub record SuperBlock : Type 0 where
  pub num_files : ℕ
  pub inode : ℕ → Slot

abbrev pub num_inodes : ℕ
num_inodes = 32

-- `strcmp` gives 0.
pub same_name : List ℕ → List ℕ → Bool
same_name [] [] = true
same_name [] (y ∷ ys) = false
same_name (x ∷ xs) [] = false
same_name (x ∷ xs) (y ∷ ys) = let rest = same_name xs ys in if x == y then rest else false

abbrev pub has_name : Slot → List ℕ → Bool
has_name n name = not (n.is_valid == 0) && same_name n.filename name

-- The loop over the inodes from `i` on.
pub lookup_loop : (rounds i : ℕ) → SuperBlock → List ℕ → Option ℕ
unfolding same_name
lookup_loop zero i sb name = none
lookup_loop (suc rounds) i sb name =
    let rest = lookup_loop rounds (i + 1) sb name in
    if has_name (sb.inode i) name then some i else rest

-- The number of the inode; `flat_get_inode_no` has the same loop.
abbrev pub flat_lookup_inode : SuperBlock → List ℕ → Option ℕ
flat_lookup_inode = lookup_loop num_inodes 0

pub free_loop : (rounds i : ℕ) → SuperBlock → Option ℕ
free_loop zero i sb = none
free_loop (suc rounds) i sb =
    let rest = free_loop rounds (i + 1) sb in if (sb.inode i).is_valid == 0 then some i else rest

abbrev pub get_free_inode : SuperBlock → Option ℕ
get_free_inode = free_loop num_inodes 0

abbrev pub new_slot : Slot → List ℕ → (mode : ℕ) → Slot
new_slot n name mode = record n {
  is_valid = 1;
  filename = name;
  ref_count = 0;
  inode = record n.inode { mode = mode; max_pos = n.inode.s_pos; file_size = 0 };
}

abbrev pub with_slot : SuperBlock → ℕ → Slot → SuperBlock
with_slot sb i n = record sb {
  num_files = (sb.num_files + 1) % 2 ^ 32;
  inode = update sb.inode i n;
}

-- `none` is the return value -1. The mode is a `u32`.
unfoldable pub flat_create_inode : SuperBlock → List ℕ → (mode : ℕ) → Option (ℕ × SuperBlock)
unfolding lookup_loop free_loop
flat_create_inode sb name mode = elim (flat_lookup_inode sb name) [
  | some _ ↦ none
  | none ↦ elim (get_free_inode sb) [
    | none ↦ none
    | some i ↦ some (i, with_slot sb i (new_slot (sb.inode i) name (mode % 2 ^ 32)))
  ]
]

-- The guard of the source holds for a null pointer only, so that the reference count is not tested.
unfoldable pub flat_remove_inode : SuperBlock → ℕ → SuperBlock
flat_remove_inode sb i = record sb {
  num_files = (sb.num_files + 2 ^ 32 - 1) % 2 ^ 32;
  inode = update sb.inode i (record (sb.inode i) {
    is_valid = 0;
    filename = [];
    inode = record (sb.inode i).inode {
      mode = 0;
      max_pos = (sb.inode i).inode.s_pos;
      file_size = 0;
    };
  });
}

-- `flags & O_CREAT`
abbrev pub creates : ℕ → Bool
creates flags = flags / 8 % 2 == 1

abbrev pub created : SuperBlock → Option (ℕ × SuperBlock) → SuperBlock × Result ℕ
created sb none = (sb, error enomem)
created sb (some (i, sb')) = (sb', ok i)

-- The inode that is opened, and the table afterwards.
abbrev pub find_inode : SuperBlock → List ℕ → (flags mode : ℕ) → SuperBlock × Result ℕ
find_inode sb name flags mode =
    if creates flags
    then elim (flat_lookup_inode sb name) [
      | none ↦ created sb (flat_create_inode sb name mode)
      | some i ↦ (sb, error eothers)
    ]
    else elim (flat_lookup_inode sb name) [ none ↦ (sb, error einval) | some i ↦ (sb, ok i) ]

-- The flags ask for more than the mode of the inode allows.
abbrev pub is_denied : (flags mode : ℕ) → Bool
is_denied flags mode =
    (may_read flags && not (may_read mode)) || (may_write flags && not (may_write mode))

abbrev pub open_found :
    SuperBlock → Store → FileTable → (flags a : ℕ) → File → Result ℕ → Result Opened
open_found sb s files flags a page (ok i) =
    if ltb file_size_max (sb.inode i).inode.file_size
    then error eothers
    else if is_denied flags (sb.inode i).inode.mode
    then error eacces
    else open_inode s files i flags a page
open_found sb s files flags a page (error e) = error e
open_found sb s files flags a page fault = fault

-- The inode table and the result of the call: a new inode stays where the call fails later. `a` is the
-- page for the file object.
unfoldable pub do_regular_file_open :
    SuperBlock
    → Store
    → FileTable
    → (name : List ℕ) → (flags mode a : ℕ) → File
    → SuperBlock × Result Opened
unfolding lookup_loop flat_create_inode open_inode
do_regular_file_open sb s files name flags mode a page =
    if leb 256 (length name)
    then (sb, error eothers)
    else let (sb', found) = find_inode sb name flags mode in
      (sb', open_found sb' s files flags a page found)
