-- ===== src/Files/Fork.antt =====
-- `do_file_fork` gives the child's descriptors their references.
use operating_systems_cs.Base.{
  ℕ, zero, suc, ◌+◌, ◌^◌, ◌≡◌, refl, ◌<◌, some, arith, ap, Option-cases, inl, inr,
}
use operating_systems_cs.Threads.{total, le-total}
use operating_systems_cs.Files.{Store, FileTable, max_open_files, ok, fork_loop, do_file_fork}
use operating_systems_cs.Files.Refs.{
  points_to, points_to-bound, references, references-bound, ref_count, IsCounted, add_reference_lem,
}
use operating_systems_cs.Files.Dup.{add_succeeds}

pub total_suc :
    (b i : ℕ) (files : FileTable)
    → total (points_to b) (i + 1) files ≡ points_to b (files i) + total (points_to b) i files
unfolding total
total_suc b i files = let e : i + 1 ≡ suc i = omega arith in rw e refl

pub no_descriptors : (b : ℕ) (files : FileTable) → total (points_to b) 0 files ≡ 0
unfolding total
no_descriptors b files = refl

-- The loop from the descriptor `i` on, when every object in use by a descriptor has a reference.
fork_loop_lem :
    (n i : ℕ) (files : FileTable) (s : Store)
    → ((k a : ℕ) → k < i + n → files k ≡ some a → 0 < ref_count (s.file a))
    → ((a : ℕ) → ref_count (s.file a) + n + 1 < 2 ^ 32)
    → (s' : Store) × (fork_loop n i files s ≡ ok s')
      × ((b : ℕ)
          → ref_count (s'.file b) + total (points_to b) i files
            ≡ ref_count (s.file b) + total (points_to b) (i + n) files)
unfolding fork_loop
fork_loop_lem zero i files s live small =
    (s, refl, λ b. let e : i + 0 ≡ i = omega arith in rw e refl)
fork_loop_lem (suc n) i files s live small = elim (Option-cases (files i)) [
  | inl free ↦
      let (s', run, counts) =
        fork_loop_lem n (i + 1) files s (λ k a lt. live k a (omega arith))
          (λ a. omega (arith, small a)) in
      (
        s',
        rw (free, fork_loop) run,
        λ b.
            let none_here : points_to b (files i) ≡ 0 = rw free refl in
            let end : total (points_to b) (i + 1 + n) files
                ≡ total (points_to b) (i + suc n) files =
              ap (λ t. total (points_to b) t files) (omega arith) in
            omega (arith, counts b, total_suc b i files, none_here, end),
      )
  | inr (a, used) ↦
      let (s1, added) = add_succeeds s a (live i a (omega arith) used) in
      let more = add_reference_lem s s1 a added (omega (arith, small a)) in
      let (s', run, counts) =
        fork_loop_lem n (i + 1) files s1
          (λ k c lt u. omega (arith, more c, live k c (omega arith) u))
          (λ c. omega (arith, more c, small c, points_to-bound c (some a))) in
      (
        s',
        rw (used, added, fork_loop) run,
        λ b.
            let one_here : points_to b (files i) ≡ points_to b (some a) = ap (points_to b) used in
            let end : total (points_to b) (i + 1 + n) files
                ≡ total (points_to b) (i + suc n) files =
              ap (λ t. total (points_to b) t files) (omega arith) in
            omega (arith, counts b, total_suc b i files, one_here, end, more b),
      )
]

-- If the reference counts are right for the parent's descriptors, and there are fewer than 2^32 - 80
-- references to any object from elsewhere, `do_file_fork` of a child with the same descriptors
-- succeeds, and the counts are right with the parent's and the child's descriptors.
pub do_file_fork-IsCounted :
    (others : ℕ → ℕ) (s : Store) (files : FileTable)
    → IsCounted others s files
    → ((b : ℕ) → others b + 80 < 2 ^ 32)
    → (s' : Store) × (do_file_fork files s ≡ ok s')
      × IsCounted (λ b. others b + references files b) s' files
unfolding do_file_fork
do_file_fork-IsCounted others s files counted small =
    let (s', run, counts) =
      fork_loop_lem max_open_files 0 files s
        (λ k a lt used.
          let here : points_to a (files k) ≡ 1 = rw used (ground arith) in
          omega (arith, counted a, le-total (points_to a) max_open_files files k lt, here))
        (λ a. omega (arith, counted a, small a, references-bound files a)) in
    (s', run, λ b. omega (arith, counts b, counted b, no_descriptors b files))
