-- ===== src/Files/Calls.antt =====
-- The calls of one process on its descriptors: none goes through a dangling pointer, and each keeps the
-- store sound.
use operating_systems_cs.Base.{ℕ, ◌+◌, ◌^◌, ◌≡◌, ◌<◌, Option, none, some, arith, ap}
use operating_systems_cs.Threads.{update, total-update, le-total}
use operating_systems_cs.Files.{
  File, Store, FileTable, max_open_files, Errno, Result, ok, error, fault, add_reference,
  generic_close, unused_from, Opened, fd_dup, fd_dup2,
}
use operating_systems_cs.Files.Make.{
  PipePages, PipeMade, create_pipe, do_close, open_standard_io, open_inode,
}
use operating_systems_cs.Files.Refs.{points_to, references, references-bound}
use operating_systems_cs.Files.Sound.{IsSound, IsSound-refs}
use operating_systems_cs.Files.Close.{add_reference-IsSound, generic_close-IsSound}
use operating_systems_cs.Files.Fresh.{IsFresh}

pub data Call : Type 0 where
  dup : (oldfd : ℕ) → Call
  dup2 : (oldfd newfd : ℕ) → Call
  close : (fd : ℕ) → Call
  make_pipe : PipePages → Call
  standard : (type a : ℕ) → File → Call
  regular : (inode flags a : ℕ) → File → Call

abbrev pub with_opened : Result Opened → Result (Store × FileTable)
with_opened (ok o) = ok (o.store, o.files)
with_opened (error e) = error e
with_opened fault = fault

abbrev pub piped : Result PipeMade → Result (Store × FileTable)
piped (ok o) = ok (o.store, o.files)
piped (error e) = error e
piped fault = fault

-- The store and the table after a call.
unfoldable pub run_call : Store → FileTable → Call → Result (Store × FileTable)
unfolding fd_dup fd_dup2 do_close create_pipe open_standard_io open_inode
run_call s files (dup oldfd) = with_opened (fd_dup s files oldfd)
run_call s files (dup2 oldfd newfd) = with_opened (fd_dup2 s files oldfd newfd)
run_call s files (close fd) = do_close s files fd
run_call s files (make_pipe g) = piped (create_pipe s files g)
run_call s files (standard type a page) = with_opened (open_standard_io s files type a page)
run_call s files (regular inode flags a page) = with_opened (open_inode s files inode flags a page)

-- What a call relies on: the allocator gives pages that are not in use, the descriptor to close lies in
-- the table, and standard input or output has a place in it.
abbrev pub IsValidCall : Store → FileTable → Call → Type 0
IsValidCall s files (dup oldfd) = Unit {0}
IsValidCall s files (dup2 oldfd newfd) = Unit {0}
IsValidCall s files (close fd) = fd < max_open_files
IsValidCall s files (make_pipe g) = IsFresh s g
IsValidCall s files (standard type a page) =
    (type < 3) × (s.file a ≡ none) × (unused_from files 3 < max_open_files)
IsValidCall s files (regular inode flags a page) = s.file a ≡ none

-- The references to `a` of this process and of the others.
abbrev pub all_references : (others : ℕ → ℕ) → FileTable → ℕ → ℕ
all_references others files a = others a + references files a

-- The call fails, or leaves a sound store.
pub data IsSafe (others : ℕ → ℕ) : Result (Store × FileTable) → Type 0 where
  refused : {e : Errno} → IsSafe others (error e)
  returned :
      {s : Store} {files : FileTable}
      → IsSound (all_references others files) s
      → IsSafe others (ok (s, files))

-- A descriptor that changes.
pub set_descriptor :
    (files : FileTable) (fd : ℕ) (old new : Option ℕ) (b : ℕ)
    → fd < max_open_files
    → files fd ≡ old
    → references (update files fd new) b + points_to b old ≡ references files b + points_to b new
set_descriptor files fd old new b lt e =
    omega (arith, total-update (points_to b) max_open_files files fd new lt, ap (points_to b) e)

pub descriptor_counts :
    (files : FileTable) (fd a : ℕ)
    → fd < max_open_files
    → files fd ≡ some a
    → 0 < references files a
descriptor_counts files fd a lt e =
    let one : points_to a (files fd) ≡ 1 = rw e (ground arith) in
    omega (arith, le-total (points_to a) max_open_files files fd lt, one)

module _ (others : ℕ → ℕ) (s : Store) (files : FileTable)
    (v : IsSound (all_references others files) s) (small : (b : ℕ) → others b + 40 < 2 ^ 32) where
  -- A descriptor that was unused takes a reference of an object that has one.
  pub take_descriptor :
      (fd a : ℕ)
      → fd < max_open_files
      → files fd ≡ none
      → 0 < all_references others files a
      → (s' : Store) × (add_reference s a ≡ ok s')
        × IsSound (all_references others (update files fd (some a))) s'
  take_descriptor fd a lt free pos =
      let (s', run, sound) =
        add_reference-IsSound (all_references others files) s a v pos
          (omega (arith, small a, references-bound files a)) in
      (
        s',
        run,
        IsSound-refs _ _ s' (λ b. omega (arith, set_descriptor files fd none (some a) b lt free))
            sound,
      )

  pub drop_descriptor :
      (fd a : ℕ)
      → fd < max_open_files
      → files fd ≡ some a
      → (s' : Store) × (generic_close s (some a) ≡ ok s')
        × IsSound (all_references others (update files fd none)) s'
  drop_descriptor fd a lt used =
      generic_close-IsSound (all_references others files)
        (all_references others (update files fd none)) s a v
        (λ b. omega (arith, set_descriptor files fd (some a) none b lt used))
        (omega (arith, small a, references-bound files a))
