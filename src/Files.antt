-- ===== src/Files.antt =====
-- File objects, pipes and descriptors of gemOS (Assignment2/OS_CS330_Assignment_2-master-.../gemOS/
-- src): `struct file`, `struct pipe_info` (include/file.h), the `files` table of a process, and
-- file.c. Pointers are numbers; the store says which objects are allocated.
pub mod Refs
pub mod Dup
pub mod Fork
pub mod Make
pub mod Sound
pub mod Close
pub mod Fresh
pub mod Standard
pub mod Calls
pub mod Safe
pub mod Exit
pub mod System
mod Tests
use operating_systems_cs.Base.{
  ℕ, zero, suc, ◌+◌, ◌-◌, ◌%◌, ◌^◌, Bool, true, false, not, ◌&&◌, ◌||◌, ltb, leb, ◌==◌, Option,
  none, some, if◌then◌else◌,
}
use operating_systems_cs.Threads.{update}

-- `type`, `mode`, `offp` and `ref_count` are `u32`.
pub record File : Type 0 where
  pub type : ℕ
  pub mode : ℕ
  pub offp : ℕ
  pub ref_count : ℕ
  pub inode : Option ℕ
  pub pipe : Option ℕ

pub record PipeInfo : Type 0 where
  pub read_pos : ℕ
  pub write_pos : ℕ
  pub pipe_buff : ℕ → ℕ
  pub buffer_offset : ℕ
  pub is_ropen : ℕ
  pub is_wopen : ℕ

-- `file_objects` is the counter of `stats`, a `u64`.
pub record Store : Type 0 where
  pub file : ℕ → Option File
  pub pipe : ℕ → Option PipeInfo
  pub file_objects : ℕ

-- The table `files` of a process: a pointer or `NULL` for each descriptor.
abbrev pub FileTable : Type 0
FileTable = ℕ → Option ℕ

abbrev pub max_open_files : ℕ
max_open_files = 32

abbrev pub o_read : ℕ
o_read = 1

abbrev pub o_write : ℕ
o_write = 2

abbrev pub pipe_type : ℕ
pipe_type = 4

pub data Errno : Type 0 where
  einval eacces eothers enomem : Errno

-- `fault` is a read through a null or dangling pointer.
pub data Result (A : Type 0) : Type 0 where
  ok : A → Result A
  error : Errno → Result A
  fault : Result A

abbrev pub free_pipe_info : Store → ℕ → Store
free_pipe_info s p = record s { pipe = update s.pipe p none }

abbrev pub free_file_object : Store → ℕ → Store
free_file_object s f = record s {
  file = update s.file f none;
  file_objects = (s.file_objects + 2 ^ 64 - 1) % 2 ^ 64;
}

-- The flags of a pipe whose end of the given mode is closed.
abbrev pub close_end : ℕ → PipeInfo → PipeInfo
close_end mode p =
    if mode == o_read
    then record p { is_ropen = 0 }
    else if mode == o_write
    then record p { is_wopen = 0 }
    else p

-- The last reference to the end of a pipe goes.
pub close_pipe : Store → File → Result Store
close_pipe s f = elim f.pipe [
  | none ↦ fault
  | some a ↦ elim (s.pipe a) [
    | none ↦ fault
    | some p ↦
        let p' = close_end f.mode p in
        ok (
          if (p'.is_wopen == 0) && (p'.is_ropen == 0)
          then free_pipe_info s a
          else record s { pipe = update s.pipe a (some p') })
  ]
]

abbrev pub free_after : ℕ → Result Store → Result Store
free_after a (ok s) = ok (free_file_object s a)
free_after a (error e) = error e
free_after a fault = fault

unfoldable pub generic_close : Store → Option ℕ → Result Store
unfolding close_pipe
generic_close s none = error einval
generic_close s (some a) = elim (s.file a) [
  | none ↦ fault
  | some f ↦
      if f.ref_count == 1
      then free_after a (if f.type == pipe_type then close_pipe s f else ok s)
      else ok (record s {
        file =
            update s.file a (some (record f { ref_count = (f.ref_count + 2 ^ 32 - 1) % 2 ^ 32 }));
      })
]

-- The loop that looks for an unused descriptor from `fd` on; it stops at `max_open_files`.
pub first_unused : ℕ → FileTable → ℕ → ℕ
first_unused zero files fd = fd
first_unused (suc rounds) files fd =
    let rest = first_unused rounds files (fd + 1) in elim (files fd) [ none ↦ fd | some _ ↦ rest ]

abbrev pub unused_from : FileTable → ℕ → ℕ
unused_from files fd = first_unused (max_open_files - fd) files fd

-- `ref_count++` of the object at `a`.
pub add_reference : Store → ℕ → Result Store
add_reference s a = elim (s.file a) [
  | none ↦ fault
  | some f ↦ ok (record s {
    file = update s.file a (some (record f { ref_count = (f.ref_count + 1) % 2 ^ 32 }));
  })
]

pub record Opened : Type 0 where
  pub store : Store
  pub files : FileTable
  pub fd : ℕ

abbrev pub with_table : FileTable → ℕ → Result Store → Result Opened
with_table t fd (ok s) = ok (record { store = s; files = t; fd = fd })
with_table t fd (error e) = error e
with_table t fd fault = fault

-- `oldfd` is the pattern of an `int`, so a negative one is not below the limit.
unfoldable pub fd_dup : Store → FileTable → (oldfd : ℕ) → Result Opened
unfolding first_unused add_reference
fd_dup s files oldfd = if not (ltb oldfd max_open_files) then error einval else elim (files oldfd) [
  | none ↦ error einval
  | some a ↦
      let fd = unused_from files 0 in
      if fd == max_open_files
      then error einval
      else with_table (update files fd (some a)) fd (add_reference s a)
]

-- `generic_close` of the object at the new descriptor, if there is one. Its result is not used.
abbrev pub close_first : Store → Option ℕ → Result Store
close_first s none = ok s
close_first s (some a) = generic_close s (some a)

abbrev pub dup_onto : FileTable → (newfd a : ℕ) → Result Store → Result Opened
dup_onto files newfd a (ok s) = with_table (update files newfd (some a)) newfd (add_reference s a)
dup_onto files newfd a (error e) = error e
dup_onto files newfd a fault = fault

unfoldable pub fd_dup2 : Store → FileTable → (oldfd newfd : ℕ) → Result Opened
unfolding generic_close add_reference
fd_dup2 s files oldfd newfd =
    if not (ltb oldfd max_open_files)
    then error einval
    else if not (ltb newfd max_open_files)
    then error einval
    else elim (files oldfd) [
      | none ↦ error einval
      | some a ↦
          if oldfd == newfd
          then ok (record { store = s; files = files; fd = newfd })
          else dup_onto files newfd a (close_first s (files newfd))
    ]

-- `do_file_fork`: one more reference for each descriptor of the child in use, from `i` on.
pub fork_loop : ℕ → ℕ → FileTable → Store → Result Store
fork_loop zero i files s = ok s
fork_loop (suc n) i files s = elim (files i) [
  | none ↦ fork_loop n (i + 1) files s
  | some a ↦ elim (add_reference s a) [
    | ok s' ↦ fork_loop n (i + 1) files s'
    | error e ↦ error e
    | fault ↦ fault
  ]
]

unfoldable pub do_file_fork : FileTable → Store → Result Store
unfolding fork_loop add_reference
do_file_fork = fork_loop max_open_files 0

-- `do_file_exit`: every descriptor in use is closed and set to `NULL`.
pub exit_loop : ℕ → ℕ → FileTable → Store → Result (Store × FileTable)
exit_loop zero i files s = ok (s, files)
exit_loop (suc n) i files s = elim (files i) [
  | none ↦ exit_loop n (i + 1) files s
  | some a ↦ elim (generic_close s (some a)) [
    | ok s' ↦ exit_loop n (i + 1) (update files i none) s'
    | error e ↦ error e
    | fault ↦ fault
  ]
]

unfoldable pub do_file_exit : FileTable → Store → Result (Store × FileTable)
unfolding exit_loop generic_close
do_file_exit = exit_loop max_open_files 0
