-- ===== src/Files/Exit.antt =====
-- Fork and exit keep the store sound.
use operating_systems_cs.Base.{
  ℕ, zero, suc, ◌+◌, ◌^◌, ◌≡◌, refl, ◌<◌, ◌≤◌, true, false, ◌==◌, none, some, arith, Option-cases,
  inl, inr, ap,
}
use native.Mathlib.Decide.{ℕ_discrete}
use operating_systems_cs.Threads.{update, total}
use operating_systems_cs.Files.{Store, FileTable, max_open_files, ok, fork_loop, exit_loop}
use operating_systems_cs.Files.Refs.{points_to, points_to-bound}
use operating_systems_cs.Files.Fork.{total_suc}
use operating_systems_cs.Files.Sound.{IsSound}
use operating_systems_cs.Files.Close.{add_reference-IsSound}
use operating_systems_cs.Files.Calls.{all_references, drop_descriptor}

-- The loop of `do_file_fork` from the descriptor `i` on.
pub fork_loop-IsSound :
    (n i : ℕ) (files : FileTable) (s : Store) (refs : ℕ → ℕ)
    → IsSound refs s
    → ((k a : ℕ) → k < i + n → files k ≡ some a → 0 < refs a)
    → ((a : ℕ) → refs a + n + 1 < 2 ^ 32)
    → (refs' : ℕ → ℕ) × (s' : Store) × (fork_loop n i files s ≡ ok s')
      × IsSound refs' s'
      × ((b : ℕ)
          → refs' b + total (points_to b) i files ≡ refs b + total (points_to b) (i + n) files)
unfolding fork_loop
fork_loop-IsSound zero i files s refs v live small =
    (refs, s, refl, v, λ b. let e : i + 0 ≡ i = omega arith in rw e refl)
fork_loop-IsSound (suc n) i files s refs v live small = elim (Option-cases (files i)) [
  | inl free ↦
      let (refs', s', run, sound, counts) =
        fork_loop-IsSound n (i + 1) files s refs v (λ k a lt. live k a (omega arith))
          (λ a. omega (arith, small a)) in
      (
        refs',
        s',
        rw (free, fork_loop) run,
        sound,
        λ b.
            let none_here : points_to b (files i) ≡ 0 = rw free refl in
            let end : total (points_to b) (i + 1 + n) files
                ≡ total (points_to b) (i + suc n) files =
              ap (λ t. total (points_to b) t files) (omega arith) in
            omega (arith, counts b, total_suc b i files, none_here, end),
      )
  | inr (a, used) ↦
      let (s1, added, v1) =
        add_reference-IsSound refs s a v (live i a (omega arith) used) (omega (arith, small a)) in
      let (refs', s', run, sound, counts) =
        fork_loop-IsSound n (i + 1) files s1 (λ b. refs b + points_to b (some a)) v1
          (λ k c lt u. omega (arith, live k c (omega arith) u))
          (λ c. omega (arith, small c, points_to-bound c (some a))) in
      (
        refs',
        s',
        rw (used, added, fork_loop) run,
        sound,
        λ b.
            let one_here : points_to b (files i) ≡ points_to b (some a) = ap (points_to b) used in
            let end : total (points_to b) (i + 1 + n) files
                ≡ total (points_to b) (i + suc n) files =
              ap (λ t. total (points_to b) t files) (omega arith) in
            omega (arith, counts b, total_suc b i files, one_here, end),
      )
]

-- The loop of `do_file_exit` from the descriptor `i` on.
pub exit_loop-IsSound :
    (others : ℕ → ℕ) (small : (b : ℕ) → others b + 40 < 2 ^ 32) (n i : ℕ) (files : FileTable)
    (s : Store)
    → i + n ≤ max_open_files
    → IsSound (all_references others files) s
    → ((k : ℕ) → k < i → files k ≡ none)
    → (s' : Store) × (files' : FileTable) × (exit_loop n i files s ≡ ok (s', files'))
      × IsSound (all_references others files') s'
      × ((k : ℕ) → k < i + n → files' k ≡ none)
unfolding exit_loop
exit_loop-IsSound others small zero i files s le v closed =
    (s, files, refl, v, λ k lt. closed k (omega arith))
exit_loop-IsSound others small (suc n) i files s le v closed = elim (Option-cases (files i)) [
  | inl free ↦
      let (s', files', run, sound, all) =
        exit_loop-IsSound others small n (i + 1) files s (omega arith) v
          (λ k lt. elim (ℕ_discrete k i) [ yes y ↦ rw y free | no m ↦ closed k (omega arith) ]) in
      (s', files', rw (free, exit_loop) run, sound, λ k lt. all k (omega arith))
  | inr (a, used) ↦
      let (s1, run1, v1) = drop_descriptor others s files v small i a (omega arith) used in
      let (s', files', run, sound, all) =
        exit_loop-IsSound others small n (i + 1) (update files i none) s1 (omega arith) v1 (λ k lt.
          elim (ℕ_discrete i k) [
            | yes y ↦ let t : (i == k) ≡ true = ground arith in rw t refl
            | no m ↦ let t : (i == k) ≡ false = ground arith in rw t (closed k (omega arith))
          ]) in
      (s', files', rw (used, run1, exit_loop) run, sound, λ k lt. all k (omega arith))
]
