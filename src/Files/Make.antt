-- ===== src/Files/Make.antt =====
-- New file objects, pipes and descriptors, and the calls of a process: `alloc_file`,
-- `create_standard_IO` and `open_standard_IO` of file.c, `alloc_pipe_info` and `create_pipe` of pipe.c, and
-- `do_close` of entry.c. An address that `os_page_alloc` gives is an argument, and so is what the page has
-- held before: pages are not cleared.
use operating_systems_cs.Base.{ℕ, ◌+◌, ◌%◌, ◌^◌, not, ltb, ◌==◌, none, some, if◌then◌else◌}
use operating_systems_cs.Threads.{update}
use operating_systems_cs.Files.{
  File, PipeInfo, Store, FileTable, max_open_files, o_read, o_write, pipe_type, einval, Result, ok,
  error, fault, generic_close, first_unused, unused_from, Opened, add_reference,
}

abbrev pub stdin : ℕ
stdin = 0

abbrev pub alloc_file : Store → (a : ℕ) → (page : File) → Store
alloc_file s a page = record s {
  file = update s.file a (some page);
  file_objects = (s.file_objects + 1) % 2 ^ 64;
}

abbrev pub standard_file : File → (type : ℕ) → File
standard_file page type = record page {
  type = type;
  mode = if type == stdin then o_read else o_write;
  ref_count = 1;
}

abbrev pub create_standard_io : Store → (a : ℕ) → (page : File) → (type : ℕ) → Store
create_standard_io s a page type = alloc_file s a (standard_file page type)

-- The search for an unused descriptor from 3 on does not stop at the end of the table.
abbrev pub place_at : FileTable → (b : ℕ) → Store → (fd : ℕ) → Result Opened
place_at files b s fd =
    if fd == max_open_files
    then fault
    else ok (record { store = s; files = update files fd (some b); fd = fd })

abbrev pub place_standard : FileTable → (b : ℕ) → Result Store → Result Opened
place_standard files b (ok s) = place_at files b s (unused_from files 3)
place_standard files b (error e) = error e
place_standard files b fault = fault

unfoldable pub open_standard_io : Store → FileTable → (type a : ℕ) → (page : File) → Result Opened
unfolding add_reference
open_standard_io s files type a page = elim (files type) [
  | none ↦ ok (record {
    store = create_standard_io s a page type;
    files = update files type (some a);
    fd = type;
  })
  | some b ↦ place_standard files b (add_reference s b)
]

abbrev pub regular_type : ℕ
regular_type = 3

abbrev pub regular_file : File → (inode flags : ℕ) → File
regular_file page inode flags = record page {
  type = regular_type;
  mode = flags % 2 ^ 32;
  offp = 0;
  ref_count = 1;
  inode = some inode;
  pipe = none;
}

-- The end of `do_regular_file_open`, where the inode is known.
unfoldable pub open_inode : Store → FileTable → (inode flags a : ℕ) → (page : File) → Result Opened
unfolding first_unused
open_inode s files inode flags a page =
    let fd = unused_from files 3 in
    if fd == max_open_files
    then error einval
    else ok (record {
      store = alloc_file s a (regular_file page inode flags);
      files = update files fd (some a);
      fd = fd;
    })

-- The buffer keeps what its page has held.
abbrev pub alloc_pipe_info : Store → (p : ℕ) → (page : PipeInfo) → Store
alloc_pipe_info s p page = record s { pipe = update s.pipe p (some page) }

abbrev pub pipe_file : File → (p mode : ℕ) → File
pipe_file page p mode = record page {
  type = pipe_type;
  mode = mode;
  ref_count = 1;
  inode = none;
  pipe = some p;
}

abbrev pub new_pipe : PipeInfo → PipeInfo
new_pipe page = record page {
  read_pos = 0;
  write_pos = 0;
  buffer_offset = 0;
  is_ropen = 1;
  is_wopen = 1;
}

-- What `create_pipe` takes from the allocator: two pages for file objects, and the page of the pipe.
pub record PipePages : Type 0 where
  pub reader : ℕ
  pub writer : ℕ
  pub pipe : ℕ
  pub reader_page : File
  pub writer_page : File
  pub pipe_page : PipeInfo

pub record PipeMade : Type 0 where
  pub store : Store
  pub files : FileTable
  pub read_fd : ℕ
  pub write_fd : ℕ

abbrev pub with_pipe : Store → PipePages → Store
with_pipe s g =
    alloc_pipe_info
      (alloc_file (alloc_file s g.reader (pipe_file g.reader_page g.pipe o_read)) g.writer
        (pipe_file g.writer_page g.pipe o_write))
      g.pipe (new_pipe g.pipe_page)

-- The two file objects are there whenever `alloc_file` returns, so the tests on them are left out.
unfoldable pub create_pipe : Store → FileTable → PipePages → Result PipeMade
unfolding first_unused
create_pipe s files g =
    let fd0 = unused_from files 3 in
    let fd1 = unused_from files (fd0 + 1) in
    if fd0 == max_open_files
    then error einval
    else if fd1 == max_open_files
    then error einval
    else ok (record {
      store = with_pipe s g;
      files = update (update files fd0 (some g.reader)) fd1 (some g.writer);
      read_fd = fd0;
      write_fd = fd1;
    })

abbrev pub with_files : FileTable → Result Store → Result (Store × FileTable)
with_files files (ok s) = ok (s, files)
with_files files (error e) = error e
with_files files fault = fault

-- There is no test that the descriptor lies in the table.
unfoldable pub do_close : Store → FileTable → (fd : ℕ) → Result (Store × FileTable)
unfolding generic_close
do_close s files fd = if not (ltb fd max_open_files) then fault else elim (files fd) [
  | none ↦ error einval
  | some a ↦ with_files (update files fd none) (generic_close s (some a))
]
