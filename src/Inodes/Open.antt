-- ===== src/Inodes/Open.antt =====
-- What `do_regular_file_open` does.
use operating_systems_cs.Base.{
  ℕ, ◌≡◌, ◌≢◌, ◌<◌, ◌≤◌, true, false, ◌==◌, none, some, List, length, if◌then◌else◌,
}
use operating_systems_cs.Files.{
  File, Store, FileTable, max_open_files, Errno, einval, eacces, eothers, enomem, Result, ok, error,
  Opened, unused_from,
}
use operating_systems_cs.Files.Make.{regular_file}
use operating_systems_cs.Regular.{file_size_max}
use operating_systems_cs.Inodes.{SuperBlock, flat_lookup_inode, get_free_inode, creates, is_denied}

-- The name stands for the inode `i` in the new table, and every other name for the inode of before.
pub record IsNamed (sb sb' : SuperBlock) (name : List ℕ) (i : ℕ) : Type 0 where
  pub found : flat_lookup_inode sb' name ≡ some i
  pub others :
      (other : List ℕ) → other ≢ name → flat_lookup_inode sb' other ≡ flat_lookup_inode sb other

-- A descriptor that was unused points to a new file object, at the start of the inode, with the flags.
pub record IsOpened (s : Store) (files : FileTable) (i flags a : ℕ) (page : File) (o : Opened)
    : Type 0 where
  pub was_unused : files o.fd ≡ none
  pub in_table : (3 ≤ o.fd) × (o.fd < max_open_files)
  pub points : (k : ℕ) → o.files k ≡ (if o.fd == k then some a else files k)
  pub object : o.store.file a ≡ some (regular_file page i flags)
  pub same_objects : (b : ℕ) → a ≢ b → o.store.file b ≡ s.file b

-- Why an open fails, with its error number and the inode table afterwards.
pub data Failure (sb : SuperBlock) (files : FileTable) (name : List ℕ) (flags : ℕ)
    : SuperBlock → Errno → Type 0 where
  long_name : 256 ≤ length name → Failure sb files name flags sb eothers
  already_there :
      (i : ℕ)
      → creates flags ≡ true
      → flat_lookup_inode sb name ≡ some i
      → Failure sb files name flags sb eothers
  no_inode :
      creates flags ≡ true
      → flat_lookup_inode sb name ≡ none
      → get_free_inode sb ≡ none
      → Failure sb files name flags sb enomem
  not_there :
      creates flags ≡ false
      → flat_lookup_inode sb name ≡ none
      → Failure sb files name flags sb einval
  too_large :
      {sb' : SuperBlock} (i : ℕ)
      → IsNamed sb sb' name i
      → file_size_max < (sb'.inode i).inode.file_size
      → Failure sb files name flags sb' eothers
  not_allowed :
      {sb' : SuperBlock} (i : ℕ)
      → IsNamed sb sb' name i
      → is_denied flags (sb'.inode i).inode.mode ≡ true
      → Failure sb files name flags sb' eacces
  no_descriptor :
      {sb' : SuperBlock} (i : ℕ)
      → IsNamed sb sb' name i
      → unused_from files 3 ≡ max_open_files
      → Failure sb files name flags sb' einval

-- The result of an open, and the inode table afterwards.
pub data Outcome (sb : SuperBlock) (s : Store) (files : FileTable) (name : List ℕ) (flags a : ℕ)
    (page : File) : SuperBlock × Result Opened → Type 0 where
  succeeds :
      {sb' : SuperBlock} {o : Opened} (i : ℕ)
      → IsNamed sb sb' name i
      → is_denied flags (sb'.inode i).inode.mode ≡ false
      → IsOpened s files i flags a page o
      → Outcome sb s files name flags a page (sb', ok o)
  fails :
      {sb' : SuperBlock} {e : Errno}
      → Failure sb files name flags sb' e
      → Outcome sb s files name flags a page (sb', error e)
