-- ===== src/Scheduler/Pick.antt =====
-- Which process is picked.
use operating_systems_cs.Base.{
  ℕ, zero, suc, ◌+◌, ◌-◌, ◌%◌, ◌≡◌, refl, ◌<◌, ◌≤◌, ◌⊎◌, inl, inr, true, if◌then◌else◌, arith,
  Bool-cases, ap, ◌∙◌, sym,
}
use native.Mathlib.Decide.{ℕ_discrete}
use operating_systems_cs.Scheduler.{ProcessState, ready, is_ready, max_processes, pick_next_context}

-- The process that is asked in the round `j` of the search.
abbrev pub candidate : ℕ → ℕ → ℕ
candidate own j = (own + j) % 6 + 1

-- The first ready process among `n` candidates from the round `j` on, or the swapper.
pub first_ready : (ℕ → ProcessState) → (own : ℕ) → (n j : ℕ) → ℕ
first_ready state own zero j = 0
first_ready state own (suc n) j =
    if is_ready (state (candidate own j)) then candidate own j else first_ready state own n (j + 1)

-- From a process of the table, `pick_next_context` chooses the first ready process in the round that
-- starts behind the current one and leaves out the swapper, and the swapper if none is ready.
pub pick_next_context-eq-first_ready :
    (state : ℕ → ProcessState) (own : ℕ)
    → own < max_processes
    → pick_next_context state own ≡ first_ready state own 6 0
unfolding pick_next_context first_ready
pick_next_context-eq-first_ready state zero lt = ground arith
pick_next_context-eq-first_ready state (suc zero) lt = ground arith
pick_next_context-eq-first_ready state (suc (suc zero)) lt = ground arith
pick_next_context-eq-first_ready state (suc (suc (suc zero))) lt = ground arith
pick_next_context-eq-first_ready state (suc (suc (suc (suc zero)))) lt = ground arith
pick_next_context-eq-first_ready state (suc (suc (suc (suc (suc zero))))) lt = ground arith
pick_next_context-eq-first_ready state (suc (suc (suc (suc (suc (suc zero)))))) lt = ground arith
pick_next_context-eq-first_ready state (suc (suc (suc (suc (suc (suc (suc n))))))) lt =
    absurd (omega arith)

-- A candidate that is ready is the first one, or another comes before it.
first_ready_lem :
    (state : ℕ → ProcessState) (own n j k : ℕ)
    → k < n
    → is_ready (state (candidate own (j + k))) ≡ true
    → (i : ℕ) × (i ≤ k) × (first_ready state own n j ≡ candidate own (j + i))
unfolding first_ready
first_ready_lem state own zero j k lt r = absurd (omega arith)
first_ready_lem state own (suc n) j zero lt r =
    let e : j + 0 ≡ j = omega arith in (0, omega arith, rw (rw e at r, e) refl)
first_ready_lem state own (suc n) j (suc k) lt r =
    let e : j + suc k ≡ j + 1 + k = omega arith in
    let (i, le, got) = first_ready_lem state own n (j + 1) k (omega arith) (rw e at r) in
    elim (Bool-cases (is_ready (state (candidate own j)))) [
      | inl now ↦ (0, omega arith, rw now (ap (candidate own) (omega arith)))
      | inr later ↦ (suc i, omega arith, rw later (got ∙ ap (candidate own) (omega arith)))
    ]

-- The process that is picked is not one that waits.
pub picked_ready :
    (state : ℕ → ProcessState) (own n j p : ℕ)
    → first_ready state own n j ≡ p
    → 0 < p
    → is_ready (state p) ≡ true
unfolding first_ready
picked_ready state own zero j p e pos = absurd (omega arith)
picked_ready state own (suc n) j p e pos = elim (Bool-cases (is_ready (state (candidate own j)))) [
  | inl here ↦
      let at : candidate own j ≡ p = sym (rw here refl) ∙ e in
      ap (λ x. is_ready (state x)) (sym at) ∙ here
  | inr later ↦ picked_ready state own n (j + 1) p (sym (rw later refl) ∙ e) pos
]

pub first_ready-small :
    (state : ℕ → ProcessState) (own n j : ℕ) → first_ready state own n j < max_processes
unfolding first_ready
first_ready-small state own zero j = omega arith
first_ready-small state own (suc n) j = elim (Bool-cases (is_ready (state (candidate own j)))) [
  | inl here ↦ rw here (omega arith)
  | inr later ↦ rw later (first_ready-small state own n (j + 1))
]

-- The round in which the process `q` is asked.
abbrev pub distance : ℕ → ℕ → ℕ
distance own q = (q + 5 - own) % 6

-- A ready process is picked, or one that comes nearer to it in the round.
pub pick_next_context-nearer :
    (state : ℕ → ProcessState) (own q : ℕ)
    → own < max_processes
    → 0 < q
    → q < max_processes
    → state q ≡ ready
    → (pick_next_context state own < max_processes)
      × ((pick_next_context state own ≡ q)
          ⊎ (distance (pick_next_context state own) q < distance own q))
pick_next_context-nearer state own q lt pos below r =
    let at : candidate own (0 + distance own q) ≡ q = omega arith in
    let asked : is_ready (state (candidate own (0 + distance own q))) ≡ true = rw (at, r) refl in
    let (i, le, got) = first_ready_lem state own 6 0 (distance own q) (omega arith) asked in
    let picked : pick_next_context state own ≡ candidate own i =
      pick_next_context-eq-first_ready state own lt ∙ got ∙ ap (candidate own) (omega arith) in
    (omega (arith, picked), nearer i le picked)
  where
    nearer :
        (i : ℕ)
        → i ≤ distance own q
        → pick_next_context state own ≡ candidate own i
        → (pick_next_context state own ≡ q)
          ⊎ (distance (pick_next_context state own) q < distance own q)
    nearer i le picked = elim (ℕ_discrete i (distance own q)) [
      | yes there ↦ inl (omega (arith, picked))
      | no before ↦ inr (omega (arith, picked))
    ]

-- The process that runs after `n` more choices, the first of them in the states `at 0`.
pub after : (at : ℕ → ℕ → ProcessState) (own n : ℕ) → ℕ
after at own zero = own
after at own (suc n) = after (λ t. at (suc t)) (pick_next_context (at 0) own) n

fair_within :
    (d : ℕ) (at : ℕ → ℕ → ProcessState) (own q : ℕ)
    → own < max_processes
    → 0 < q
    → q < max_processes
    → ((t : ℕ) → t < d → at t q ≡ ready)
    → distance own q < d
    → (n : ℕ) × (n < d) × (after at own (suc n) ≡ q)
unfolding after
fair_within zero at own q lt pos below r near = absurd (omega arith)
fair_within (suc d) at own q lt pos below r near =
    let (small, which) = pick_next_context-nearer (at 0) own q lt pos below (r 0 (omega arith)) in
    elim which [
      | inl now ↦ (0, omega arith, now)
      | inr nearer ↦
          let (n, le, got) =
            fair_within d (λ t. at (suc t)) (pick_next_context (at 0) own) q small pos below
              (λ t le. r (suc t) (omega arith)) (omega arith) in
          (suc n, omega arith, got)
    ]

-- A process that stays ready is picked within six choices of the scheduler, whatever the states of the
-- others are at each choice.
pub pick_next_context_fair :
    (at : ℕ → ℕ → ProcessState) (own q : ℕ)
    → own < max_processes
    → 0 < q
    → q < max_processes
    → ((t : ℕ) → t < 6 → at t q ≡ ready)
    → (n : ℕ) × (n < 6) × (after at own (suc n) ≡ q)
pick_next_context_fair at own q lt pos below r = fair_within 6 at own q lt pos below r (omega arith)
