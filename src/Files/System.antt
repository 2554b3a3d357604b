-- ===== src/Files/System.antt =====
-- All processes together: their calls, fork and exit, in any order.
use operating_systems_cs.Base.{
  ℕ, zero, suc, ◌+◌, ◌-◌, ◌*◌, ◌^◌, ◌≡◌, refl, ◌<◌, ◌≤◌, none, arith, subst, sym,
}
use operating_systems_cs.Threads.{update, total, total-update, le-total, total-eq_zero}
use operating_systems_cs.Files.{
  Store, FileTable, max_open_files, Errno, Result, ok, error, fault, do_file_fork, do_file_exit,
}
use operating_systems_cs.Files.Refs.{points_to, references, references-bound}
use operating_systems_cs.Files.Fork.{no_descriptors}
use operating_systems_cs.Files.Sound.{IsSound, IsSound-refs}
use operating_systems_cs.Files.Calls.{
  descriptor_counts, Call, run_call, IsValidCall, IsSafe, refused, returned, all_references,
}
use operating_systems_cs.Files.Safe.{run_call-IsSafe}
use operating_systems_cs.Files.Exit.{fork_loop-IsSound, exit_loop-IsSound}

abbrev pub max_processes : ℕ
max_processes = 7

-- The descriptors of each process.
pub record Processes : Type 0 where
  pub store : Store
  pub tables : ℕ → FileTable

pub data Event : Type 0 where
  calls : (i : ℕ) → Call → Event
  forks : (parent child : ℕ) → Event
  exits : (i : ℕ) → Event

abbrev pub no_files : FileTable
no_files _ = none

abbrev pub at_boot : Processes
at_boot = record {
  store = record { file = λ _. none; pipe = λ _. none; file_objects = 0 };
  tables = λ _. no_files;
}

abbrev pub with_table_of : Processes → ℕ → Result (Store × FileTable) → Result Processes
with_table_of p i (ok (s, files)) = ok (record { store = s; tables = update p.tables i files })
with_table_of p i (error e) = error e
with_table_of p i fault = fault

-- The child of a fork has a copy of the parent's table.
abbrev pub with_child : Processes → (child : ℕ) → FileTable → Result Store → Result Processes
with_child p child files (ok s) = ok (record { store = s; tables = update p.tables child files })
with_child p child files (error e) = error e
with_child p child files fault = fault

unfoldable pub run_event : Processes → Event → Result Processes
unfolding run_call do_file_fork do_file_exit
run_event p (calls i c) = with_table_of p i (run_call p.store (p.tables i) c)
run_event p (forks parent child) =
    with_child p child (p.tables parent) (do_file_fork (p.tables parent) p.store)
run_event p (exits i) = with_table_of p i (do_file_exit (p.tables i) p.store)

-- The process of the child was unused.
abbrev pub IsValidEvent : Processes → Event → Type 0
IsValidEvent p (calls i c) = (i < max_processes) × IsValidCall p.store (p.tables i) c
IsValidEvent p (forks parent child) =
    (parent < max_processes)
    × (child < max_processes)
    × ((k : ℕ) → k < max_open_files → p.tables child k ≡ none)
IsValidEvent p (exits i) = i < max_processes

-- The states that the processes reach; an event that fails changes nothing.
pub data Reach : Processes → Type 0 where
  start : Reach at_boot
  later :
      {p q : Processes} → Reach p → (e : Event) → IsValidEvent p e → run_event p e ≡ ok q → Reach q

-- The descriptors of all processes that point to `a`.
abbrev pub system_references : Processes → ℕ → ℕ
system_references p a = total (λ files. references files a) max_processes p.tables

-- The event fails, or leaves a state with a sound store.
pub data IsSafeEvent : Result Processes → Type 0 where
  refused_event : {e : Errno} → IsSafeEvent (error e)
  returned_event : {p : Processes} → IsSound (system_references p) p.store → IsSafeEvent (ok p)

total-bound_by :
    (n : ℕ) (tables : ℕ → FileTable) (a : ℕ)
    → total (λ files. references files a) n tables ≤ max_open_files * n
unfolding total
total-bound_by zero tables a = omega arith
total-bound_by (suc n) tables a =
    omega (arith, total-bound_by n tables a, references-bound (tables n) a)

no_references :
    (files : FileTable) (a : ℕ)
    → ((k : ℕ) → k < max_open_files → files k ≡ none)
    → references files a ≡ 0
no_references files a closed =
    total-eq_zero (points_to a) max_open_files files (λ k lt. rw (closed k lt) refl)

module _ (p : Processes) (v : IsSound (system_references p) p.store) where
  -- The references from the other processes.
  elsewhere : ℕ → ℕ → ℕ
  elsewhere i a = system_references p a - references (p.tables i) a

  split :
      (i a : ℕ)
      → i < max_processes
      → elsewhere i a + references (p.tables i) a ≡ system_references p a
  unfolding elsewhere
  split i a lt = omega (arith, le-total (λ files. references files a) max_processes p.tables i lt)

  own-IsSound :
      (i : ℕ) → i < max_processes → IsSound (all_references (elsewhere i) (p.tables i)) p.store
  own-IsSound i lt = IsSound-refs _ _ p.store (λ a. sym (split i a lt)) v

  few_elsewhere : (i a : ℕ) → elsewhere i a + 40 < 2 ^ 32
  unfolding elsewhere
  few_elsewhere i a = omega (arith, total-bound_by max_processes p.tables a)

  -- A process whose table changes.
  table_changes :
      (i : ℕ) (files : FileTable) (s : Store)
      → i < max_processes
      → IsSound (all_references (elsewhere i) files) s
      → IsSound (system_references (record { store = s; tables = update p.tables i files })) s
  table_changes i files s lt = IsSound-refs _ _ s (λ a.
      omega
        (arith, split i a lt, total-update (λ t. references t a) max_processes p.tables i files lt))

  call-IsSafe :
      (i : ℕ) (r : Result (Store × FileTable))
      → i < max_processes
      → IsSafe (elsewhere i) r
      → IsSafeEvent (with_table_of p i r)
  call-IsSafe i _ lt refused = refused_event
  call-IsSafe i _ lt (returned {s} {files} sound) =
      returned_event (table_changes i files s lt sound)

  -- A child that was unused gets a table.
  child_counts :
      (child : ℕ) (files : FileTable) (s : Store) (a : ℕ)
      → child < max_processes
      → ((k : ℕ) → k < max_open_files → p.tables child k ≡ none)
      → system_references (record { store = s; tables = update p.tables child files }) a
        ≡ system_references p a + references files a
  child_counts child files s a lt closed = omega (
    arith,
    no_references (p.tables child) a closed,
    total-update (λ t. references t a) max_processes p.tables child files lt,
  )

  fork-IsSafe :
      (parent child : ℕ)
      → IsValidEvent p (forks parent child)
      → IsSafeEvent (with_child p child (p.tables parent) (do_file_fork (p.tables parent) p.store))
  unfolding do_file_fork
  fork-IsSafe parent child valid =
      let (refs', s', run, sound, counts) =
        fork_loop-IsSound max_open_files 0 (p.tables parent) p.store (system_references p) v
          (λ k a lt used. omega (
            arith,
            descriptor_counts (p.tables parent) k a lt used,
            le-total (λ files. references files a) max_processes p.tables parent valid.0,
          ))
          (λ a. omega (arith, total-bound_by max_processes p.tables a)) in
      rw run (
        returned_event (
          IsSound-refs _ _ s'
            (λ a. omega (
              arith,
              counts a,
              no_descriptors a (p.tables parent),
              child_counts child (p.tables parent) s' a valid.1 valid.2,
            ))
            sound))

  exit-IsSafe :
      (i : ℕ)
      → i < max_processes
      → IsSafeEvent (with_table_of p i (do_file_exit (p.tables i) p.store))
  unfolding do_file_exit
  exit-IsSafe i lt =
      let (s', files', run, sound, all) =
        exit_loop-IsSound (elsewhere i) (few_elsewhere i) max_open_files 0 (p.tables i) p.store
          (omega arith) (own-IsSound i lt) (λ k low. absurd (omega arith)) in
      rw run (returned_event (table_changes i files' s' lt sound))

event-IsSafe :
    (p : Processes) (e : Event)
    → IsSound (system_references p) p.store
    → IsValidEvent p e
    → IsSafeEvent (run_event p e)
unfolding run_event
event-IsSafe p (calls i c) v valid = call-IsSafe p v i (run_call p.store (p.tables i) c) valid.0 (
    run_call-IsSafe (elsewhere p v i) p.store (p.tables i) c (own-IsSound p v i valid.0)
      (few_elsewhere p v i) valid.1)
event-IsSafe p (forks parent child) v valid = fork-IsSafe p v parent child valid
event-IsSafe p (exits i) v valid = exit-IsSafe p v i valid

at_boot-IsSound : IsSound (system_references at_boot) at_boot.store
at_boot-IsSound = record {
  counted = λ a. sym (
      total-eq_zero (λ files. references files a) max_processes (λ _. no_files)
        (λ i lt. no_references no_files a (λ k lt'. refl)));
  live = λ a f e. absurd (cc);
  ends = λ a f e. absurd (cc);
  single = λ a b f g e. absurd (cc);
}

returned-IsSound :
    (r : Result Processes) (q : Processes)
    → IsSafeEvent r
    → r ≡ ok q
    → IsSound (system_references q) q.store
returned-IsSound _ q refused_event e = absurd (cc)
returned-IsSound _ q (returned_event {p} sound) e =
    let same : p ≡ q = cc in subst (λ x. IsSound (system_references x) x.store) same sound

Reach-IsSound : (p : Processes) → Reach p → IsSound (system_references p) p.store
Reach-IsSound _ start = at_boot-IsSound
Reach-IsSound _ (later {p} {q} r e valid run) =
    returned-IsSound (run_event p e) q (event-IsSafe p e (Reach-IsSound p r) valid) run

-- In every state that up to seven processes reach from boot by dup, dup2, close, pipe, open, fork
-- and exit, in any order, the store is sound: the count of every file
-- object is the number of descriptors of all processes that point to it, no object is left without
-- one, and the end of a pipe is open while there is a file object for it. Each further event fails with
-- an error number or leaves such a state; none follows a null or dangling pointer. A descriptor to close
-- lies in the table, the pages of new objects are not in use, there is a place for standard input or
-- output, and the child of a fork has no open files before.
pub run_event-IsSafe :
    (p : Processes) (e : Event)
    → Reach p
    → IsValidEvent p e
    → IsSound (system_references p) p.store × IsSafeEvent (run_event p e)
run_event-IsSafe p e r valid = (Reach-IsSound p r, event-IsSafe p e (Reach-IsSound p r) valid)
