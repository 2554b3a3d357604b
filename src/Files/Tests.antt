-- ===== src/Files/Tests.antt =====
-- A process with three descriptors, and the theorems at it.
use operating_systems_cs.Base.{◌+◌, ◌≡◌, refl, none, some, ltb, arith, if◌then◌else◌}
use operating_systems_cs.Threads.{update, total}
use operating_systems_cs.Files.{
  first_unused, File, Store, FileTable, Opened, ok, fd_dup, do_file_fork,
}
use operating_systems_cs.Files.Refs.{IsCounted, references}
use operating_systems_cs.Files.Dup.{IsDup, fd_dup-IsDup}
use operating_systems_cs.Files.Make.{PipePages, with_pipe, create_pipe}
use operating_systems_cs.Files.Sound.{IsSound}
use operating_systems_cs.Files.Calls.{make_pipe, run_call}
use operating_systems_cs.Files.System.{
  Processes, calls, forks, no_files, at_boot, run_event, Reach, start, later, system_references,
  IsSafeEvent, run_event-IsSafe,
}
use operating_systems_cs.Files.Fork.{do_file_fork-IsCounted}

-- The descriptors 0 and 1 point to the objects 0 and 1.
abbrev two_files : FileTable
two_files fd = if ltb fd 2 then some fd else none

abbrev file_once : File
file_once = record { type = 3; mode = 1; offp = 0; ref_count = 1; inode = some 7; pipe = none }

abbrev two_objects : Store
two_objects = record {
  file = λ a. if ltb a 2 then some file_once else none;
  pipe = λ _. none;
  file_objects = 2;
}

two_files-IsCounted : IsCounted (λ _. 0) two_objects two_files
unfolding total
two_files-IsCounted a = ground arith

fd_dup-IsDup_example :
    (o : Opened) × (fd_dup two_objects two_files 1 ≡ ok o) × IsDup (λ _. 0) two_files 1 o
unfolding first_unused
fd_dup-IsDup_example =
    fd_dup-IsDup (λ _. 0) two_objects two_files 1 1 two_files-IsCounted (λ b. omega arith)
      (omega arith) refl (omega arith)

do_file_fork-two_files :
    (s' : Store) × (do_file_fork two_files two_objects ≡ ok s')
    × IsCounted (λ b. 0 + references two_files b) s' two_files
do_file_fork-two_files =
    do_file_fork-IsCounted (λ _. 0) two_objects two_files two_files-IsCounted (λ b. omega arith)

-- A process makes a pipe and forks; then it closes the end that it reads from.
abbrev blank_page : File
blank_page = record { type = 9; mode = 9; offp = 9; ref_count = 9; inode = some 9; pipe = some 9 }

abbrev three_pages : PipePages
three_pages = record {
  reader = 1;
  writer = 2;
  pipe = 3;
  reader_page = blank_page;
  writer_page = blank_page;
  pipe_page = record {
    read_pos = 9;
    write_pos = 9;
    pipe_buff = λ _. 9;
    buffer_offset = 9;
    is_ropen = 9;
    is_wopen = 9;
  };
}

abbrev with_ends : FileTable
with_ends = update (update no_files 3 (some 1)) 4 (some 2)

abbrev piped_processes : Processes
piped_processes = record {
  store = with_pipe at_boot.store three_pages;
  tables = update at_boot.tables 0 with_ends;
}

piped_processes-Reach : Reach piped_processes
unfolding run_event run_call create_pipe first_unused
piped_processes-Reach =
    later start (calls 0 (make_pipe three_pages))
      (
        omega arith,
        record { no_reader = refl; no_writer = refl; apart = omega arith; no_pipe = refl },
      )
      refl

run_event-IsSafe_example :
    IsSound (system_references piped_processes) piped_processes.store
    × IsSafeEvent (run_event piped_processes (forks 0 1))
run_event-IsSafe_example =
    run_event-IsSafe piped_processes (forks 0 1) piped_processes-Reach
      (omega arith, omega arith, λ k lt. refl)
