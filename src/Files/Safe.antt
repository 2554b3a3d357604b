-- ===== src/Files/Safe.antt =====
-- Each call of a process is safe.
use operating_systems_cs.Base.{
  ℕ, zero, suc, ◌+◌, ◌-◌, ◌^◌, ◌≡◌, refl, ◌<◌, ◌≤◌, false, not, ltb, ◌==◌, none, some, arith, subst,
  Bool-cases, Option-cases, inl, inr, sym, ◌∙◌, ap,
}
use mathlib.Core.Path.{fun_ext}
use operating_systems_cs.Threads.{update}
use operating_systems_cs.Files.{
  File, Store, FileTable, max_open_files, ok, add_reference, first_unused, unused_from, fd_dup,
  fd_dup2, dup_onto,
}
use operating_systems_cs.Files.Make.{
  PipePages, create_pipe, do_close, standard_file, regular_file, open_inode, open_standard_io,
  place_at, place_standard,
}
use operating_systems_cs.Files.Refs.{first_unused_lem}
use operating_systems_cs.Files.Sound.{IsSound}
use operating_systems_cs.Files.Fresh.{IsFresh, with_pipe-IsSound}
use operating_systems_cs.Files.Standard.{alloc_file-IsSound}
use operating_systems_cs.Files.Calls.{
  Call, dup, dup2, close, make_pipe, standard, regular, with_opened, run_call, IsValidCall, IsSafe,
  refused, returned, all_references, set_descriptor, descriptor_counts, take_descriptor,
  drop_descriptor,
}

first_unused-range :
    (rounds : ℕ) (files : FileTable) (fd : ℕ)
    → (fd ≤ first_unused rounds files fd) × (first_unused rounds files fd ≤ fd + rounds)
unfolding first_unused
first_unused-range zero files fd = (omega arith, omega arith)
first_unused-range (suc rounds) files fd =
    let (low, high) = first_unused-range rounds files (fd + 1) in
    elim (Option-cases (files fd)) [
      | inl free ↦ rw (free, first_unused) (omega arith, omega arith)
      | inr (a, used) ↦ rw (used, first_unused) (omega arith, omega arith)
    ]

-- The search from a descriptor of the table on.
pub search :
    (files : FileTable) (fd : ℕ)
    → fd ≤ max_open_files
    → (unused_from files fd == max_open_files) ≡ false
    → (fd ≤ unused_from files fd)
      × (unused_from files fd < max_open_files)
      × (files (unused_from files fd) ≡ none)
search files fd le found =
    let (low, high) = first_unused-range (max_open_files - fd) files fd in
    let below : unused_from files fd < max_open_files = ground arith in
    (low, below, first_unused_lem (max_open_files - fd) files fd (omega arith))

open_standard_io_again :
    (s : Store) (files : FileTable) (type a b : ℕ) (page : File)
    → files type ≡ some b
    → open_standard_io s files type a page ≡ place_standard files b (add_reference s b)
unfolding open_standard_io
open_standard_io_again s files type a b page used = rw (used, open_standard_io) refl

module _ (others : ℕ → ℕ) (s : Store) (files : FileTable)
    (v : IsSound (all_references others files) s) (small : (b : ℕ) → others b + 40 < 2 ^ 32) where
  dup-IsSafe : (oldfd : ℕ) → IsSafe others (run_call s files (dup oldfd))
  unfolding run_call fd_dup
  dup-IsSafe oldfd = elim (Bool-cases (not (ltb oldfd max_open_files))) [
    | inl bad ↦ rw bad refused
    | inr valid ↦ elim (Option-cases (files oldfd)) [
      | inl closed ↦ rw (valid, closed) refused
      | inr (a, used) ↦ elim (Bool-cases (unused_from files 0 == max_open_files)) [
        | inl full ↦ rw (valid, used, full) refused
        | inr found ↦
            let (low, below, free) = search files 0 (omega arith) found in
            let pos = descriptor_counts files oldfd a (ground arith) used in
            let (s', run, sound) =
              take_descriptor others s files v small (unused_from files 0) a below free
                (omega arith) in
            rw (valid, used, found, run) (returned sound)
      ]
    ]
  ]

  close-IsSafe : (fd : ℕ) → fd < max_open_files → IsSafe others (run_call s files (close fd))
  unfolding run_call do_close
  close-IsSafe fd lt =
      let valid : not (ltb fd max_open_files) ≡ false = ground arith in
      elim (Option-cases (files fd)) [
        | inl closed ↦ rw (valid, closed) refused
        | inr (a, used) ↦
            let (s', run, sound) = drop_descriptor others s files v small fd a lt used in
            rw (valid, used, run) (returned sound)
      ]

  pipe-IsSafe : (g : PipePages) → IsFresh s g → IsSafe others (run_call s files (make_pipe g))
  unfolding run_call create_pipe
  pipe-IsSafe g fresh = elim (Bool-cases (unused_from files 3 == max_open_files)) [
    | inl full ↦ rw full refused
    | inr found ↦
        let (low, below, free) = search files 3 (omega arith) found in
        elim (Bool-cases (unused_from files (unused_from files 3 + 1) == max_open_files)) [
          | inl full ↦ rw (found, full) refused
          | inr found' ↦
              let fd0 = unused_from files 3 in
              let fd1 = unused_from files (fd0 + 1) in
              let (low', below', free') =
                search files (unused_from files 3 + 1) (omega arith) found' in
              let files0 = update files fd0 (some g.reader) in
              let apart : (fd0 == fd1) ≡ false = ground arith in
              let free1 : files0 fd1 ≡ none = rw apart free' in
              rw (found, found')
                (returned (
                  with_pipe-IsSound (all_references others files) _ s g v fresh (λ b. omega (
                    arith,
                    set_descriptor files fd0 none (some g.reader) b below free,
                    set_descriptor files0 fd1 none (some g.writer) b below' free1,
                  ))))
        ]
  ]

  place_at-IsSafe :
      (b : ℕ) (s' : Store) (fd : ℕ)
      → (fd == max_open_files) ≡ false
      → IsSound (all_references others (update files fd (some b))) s'
      → IsSafe others (with_opened (place_at files b s' fd))
  place_at-IsSafe b s' fd found sound = rw found (returned sound)

  standard-IsSafe :
      (type a : ℕ) (page : File)
      → type < 3
      → s.file a ≡ none
      → unused_from files 3 < max_open_files
      → IsSafe others (with_opened (open_standard_io s files type a page))
  unfolding open_standard_io
  standard-IsSafe type a page std fresh room = elim (Option-cases (files type)) [
    | inl closed ↦
        rw (closed, with_opened)
          (returned (
            alloc_file-IsSound (all_references others files) _ s a (standard_file page type) v fresh
              (λ t. omega (arith, t)) refl
              (λ b. omega (arith, set_descriptor files type none (some a) b (omega arith) closed))))
    | inr (b, used) ↦
        let found : (unused_from files 3 == max_open_files) ≡ false = ground arith in
        let (low, below, free) = search files 3 (omega arith) found in
        let pos = descriptor_counts files type b (omega arith) used in
        let (s', run, sound) =
          take_descriptor others s files v small (unused_from files 3) b below free (omega arith) in
        subst (λ r. IsSafe others (with_opened r))
          (sym
            (open_standard_io_again s files type a b page used ∙ ap (place_standard files b) run))
          (place_at-IsSafe b s' (unused_from files 3) found sound)
  ]

  regular-IsSafe :
      (inode flags a : ℕ) (page : File)
      → s.file a ≡ none
      → IsSafe others (with_opened (open_inode s files inode flags a page))
  unfolding open_inode
  regular-IsSafe inode flags a page fresh =
      elim (Bool-cases (unused_from files 3 == max_open_files)) [
        | inl full ↦ rw (full, with_opened) refused
        | inr found ↦
            let (low, below, free) = search files 3 (omega arith) found in
            rw (found, with_opened)
              (returned (
                alloc_file-IsSound (all_references others files) _ s a
                  (regular_file page inode flags) v fresh (λ t. omega (arith, t)) refl
                  (λ b. omega (
                    arith,
                    set_descriptor files (unused_from files 3) none (some a) b below free,
                  ))))
      ]

  -- The table where the new descriptor of `dup2` has been closed.
  dup2_rest :
      (oldfd newfd a : ℕ) (s1 : Store) (files1 : FileTable)
      → IsSound (all_references others files1) s1
      → newfd < max_open_files
      → files1 newfd ≡ none
      → 0 < all_references others files1 a
      → ((k : ℕ) → update files1 newfd (some a) k ≡ update files newfd (some a) k)
      → IsSafe others (with_opened (dup_onto files newfd a (ok s1)))
  unfolding add_reference
  dup2_rest oldfd newfd a s1 files1 v1 lt free pos same =
      let (s', run, sound) = take_descriptor others s1 files1 v1 small newfd a lt free pos in
      let tables : update files1 newfd (some a) ≡ update files newfd (some a) = fun_ext same in
      rw run (returned (subst (λ t. IsSound (all_references others t) s') tables sound))

  dup2-IsSafe : (oldfd newfd : ℕ) → IsSafe others (run_call s files (dup2 oldfd newfd))
  unfolding run_call fd_dup2
  dup2-IsSafe oldfd newfd = elim (Bool-cases (not (ltb oldfd max_open_files))) [
    | inl bad ↦ rw bad refused
    | inr valid ↦ elim (Bool-cases (not (ltb newfd max_open_files))) [
      | inl bad ↦ rw (valid, bad) refused
      | inr valid' ↦ elim (Option-cases (files oldfd)) [
        | inl closed ↦ rw (valid, valid', closed) refused
        | inr (a, used) ↦ elim (Bool-cases (oldfd == newfd)) [
          | inl same ↦ rw (valid, valid', used, same) (returned v)
          | inr other ↦
              let pos = descriptor_counts files oldfd a (ground arith) used in
              let lt : newfd < max_open_files = ground arith in
              elim (Option-cases (files newfd)) [
                | inl unused ↦
                    rw (valid, valid', used, other, unused)
                      (dup2_rest oldfd newfd a s files v lt unused (omega arith) (λ k. refl))
                | inr (c, taken) ↦
                    let (s1, run, sound) =
                      drop_descriptor others s files v small newfd c lt taken in
                    let files1 = update files newfd none in
                    let still : files1 oldfd ≡ some a =
                      (let n : (newfd == oldfd) ≡ false = ground arith in rw n used) in
                    rw (valid, valid', used, other, taken, run)
                      (dup2_rest oldfd newfd a s1 files1 sound lt (ground arith)
                        (let p = descriptor_counts files1 oldfd a (ground arith) still in
                          omega arith)
                        (λ k. ground arith))
              ]
        ]
      ]
    ]
  ]

-- If the store is sound, and there are fewer than 2^32 - 40 references to any object from elsewhere, then
-- each of dup, dup2, close, pipe and open fails with an error number
-- or leaves a sound store: the count of every file object is the number of descriptors that point to it,
-- no object is left without one, and the end of a pipe is open while there is a file object for it. A
-- call never follows a null or dangling pointer. The descriptor to close lies in the table, the pages
-- of a new pipe or file object are not in use, and there is a place for standard input or output.
pub run_call-IsSafe :
    (others : ℕ → ℕ) (s : Store) (files : FileTable) (c : Call)
    → IsSound (all_references others files) s
    → ((b : ℕ) → others b + 40 < 2 ^ 32)
    → IsValidCall s files c
    → IsSafe others (run_call s files c)
unfolding run_call
run_call-IsSafe others s files (dup oldfd) v small valid = dup-IsSafe others s files v small oldfd
run_call-IsSafe others s files (dup2 oldfd newfd) v small valid =
    dup2-IsSafe others s files v small oldfd newfd
run_call-IsSafe others s files (close fd) v small valid =
    close-IsSafe others s files v small fd valid
run_call-IsSafe others s files (make_pipe g) v small valid =
    pipe-IsSafe others s files v small g valid
run_call-IsSafe others s files (standard type a page) v small valid =
    standard-IsSafe others s files v small type a page valid.0 valid.1 valid.2
run_call-IsSafe others s files (regular inode flags a page) v small valid =
    regular-IsSafe others s files v small inode flags a page valid
