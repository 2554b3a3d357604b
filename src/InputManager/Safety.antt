-- ===== src/InputManager/Safety.antt =====
-- Operations on one key run one after the other, in the order of the file, and the threads never
-- all sleep.
use operating_systems_cs.Base.{
  ℕ, zero, suc, ◌+◌, ◌≡◌, ◌≢◌, refl, ◌<◌, ◌≤◌, ◌⊎◌, Bool, true, false, arith, inl, inr, Bool-cases,
  sym, subst,
}
use native.Mathlib.Decide.{ℕ_discrete, dec_lt}
use operating_systems_cs.InputManager.{
  Operation, System, Thread, reading, waiting, processing, processed, exited, checked_slots, init,
  Reach,
}
use operating_systems_cs.InputManager.Order.{is_running, is_busy, running-busy}
use operating_systems_cs.InputManager.Invariant.{IsNumbered}
use operating_systems_cs.InputManager.Reachable.{Reach-Inv}

-- A thread that is neither waiting nor at its end.
abbrev pub is_moving : Thread → Bool
is_moving reading = true
is_moving waiting = false
is_moving processing = true
is_moving processed = true
is_moving exited = false

-- A thread that is neither in `pthread_cond_wait` nor at its end, or that has been woken from the wait.
abbrev pub IsAwake : System → ℕ → Type 0
IsAwake s t = (is_moving (s.thread t) ≡ true) ⊎ ((s.thread t ≡ waiting) × (s.woken t ≡ true))

-- What is found among the threads below `k`.
data Found (s : System) (k : ℕ) : Type 0 where
  mover : (t : ℕ) → t < k → IsAwake s t → Found s k
  ended : ((t : ℕ) → t < k → s.thread t ≡ exited) → Found s k
  least :
      (t : ℕ)
      → t < k
      → s.thread t ≡ waiting
      → s.woken t ≡ false
      → ((u : ℕ) → u < k → is_busy (s.thread u) ≡ true → (s.operation t).id ≤ (s.operation u).id)
      → Found s k

-- One more thread, which waits and is not woken.
find_waiting :
    (s : System) (k : ℕ) → s.thread k ≡ waiting → s.woken k ≡ false → Found s k → Found s (k + 1)
find_waiting s k here still (mover t lt m) = mover t (omega arith) m
find_waiting s k here still (ended all) = least k (omega arith) here still (λ u lt b.
    elim (ℕ_discrete u k) [
      | yes same ↦ rw same (omega arith)
      | no other ↦ absurd (let e = all u (omega arith) in ground arith)
    ])
find_waiting s k here still (least t lt w down small) =
    elim (dec_lt (s.operation k).id (s.operation t).id) [
      | yes less ↦ least k (omega arith) here still (λ u lt' b. elim (ℕ_discrete u k) [
        | yes same ↦ rw same (omega arith)
        | no other ↦ omega (arith, small u (omega arith) b)
      ])
      | no more ↦ least t (omega arith) w down (λ u lt' b. elim (ℕ_discrete u k) [
        | yes same ↦ rw same (omega arith)
        | no other ↦ small u (omega arith) b
      ])
    ]

-- One more thread, which has ended.
find_exited : (s : System) (k : ℕ) → s.thread k ≡ exited → Found s k → Found s (k + 1)
find_exited s k here (mover t lt m) = mover t (omega arith) m
find_exited s k here (ended all) =
    ended
      (λ u lt. elim (ℕ_discrete u k) [ yes same ↦ rw same here | no other ↦ all u (omega arith) ])
find_exited s k here (least t lt w down small) = least t (omega arith) w down (λ u lt' b.
    elim (ℕ_discrete u k) [ yes same ↦ absurd (ground arith) | no other ↦ small u (omega arith) b ])

find_next : (s : System) (k : ℕ) (w : Thread) → s.thread k ≡ w → Found s k → Found s (k + 1)
find_next s k reading here f = mover k (omega arith) (inl (rw here refl))
find_next s k waiting here f = elim (Bool-cases (s.woken k)) [
  | inl up ↦ mover k (omega arith) (inr (here, up))
  | inr still ↦ find_waiting s k here still f
]
find_next s k processing here f = mover k (omega arith) (inl (rw here refl))
find_next s k processed here f = mover k (omega arith) (inl (rw here refl))
find_next s k exited here f = find_exited s k here f

find : (s : System) (k : ℕ) → Found s k
find s zero = ended (λ t lt. absurd (omega arith))
find s (suc k) = subst (Found s) (omega arith) (find_next s k (s.thread k) refl (find s k))

module _ (memory : ℕ → ℕ) (mapped size n : ℕ) (numbered : IsNumbered memory mapped size)
    (few : n ≤ checked_slots) (table_size : ℕ) (old : ℕ → Operation) (s : System)
    (r : Reach memory n (init mapped size table_size old) s) where
  -- If the ids of the records in the file increase and there are at most 32 threads, then in every
  -- reachable state, while a thread is between the return of `read_op` and the end of `done_one`, each
  -- other thread whose operation has the same key still waits in `read_op`, and has a larger id.
  pub read_op_orders :
      (t u : ℕ)
      → is_running (s.thread t) ≡ true
      → is_busy (s.thread u) ≡ true
      → t ≢ u
      → (s.operation t).key ≡ (s.operation u).key
      → (s.thread u ≡ waiting) × ((s.operation t).id < (s.operation u).id)
  read_op_orders t u running busy apart same =
      let v = Reach-Inv memory mapped size n numbered few table_size old s r in
      let less = v.ordered.first t u running busy apart same in
      (
        waits (s.thread u) refl busy (elim (Bool-cases (is_running (s.thread u))) [
          | inl too ↦ absurd (
              let more =
                v.ordered.first u t too (running-busy (s.thread t) running) (λ e. apart (sym e))
                  (sym same) in
              omega (arith, less, more))
          | inr idle ↦ idle
        ]),
        less,
      )
    where
      waits :
          (w : Thread)
          → s.thread u ≡ w
          → is_busy w ≡ true
          → is_running w ≡ false
          → s.thread u ≡ waiting
      waits reading e b i = absurd (ground arith)
      waits waiting e b i = e
      waits processing e b i = absurd (ground arith)
      waits processed e b i = absurd (ground arith)
      waits exited e b i = absurd (ground arith)

  -- If the ids of the records in the file increase and there are at most 32 threads, then in every
  -- reachable state where some thread has not ended, there is a thread that has not ended and is not
  -- in `pthread_cond_wait`, or that a broadcast or a return without one has woken from it: the
  -- threads never all sleep.
  pub read_op_progress : (i : ℕ) → i < n → s.thread i ≢ exited → (t : ℕ) × (t < n) × IsAwake s t
  read_op_progress i lt active = elim (find s n) [
    | mover t below awake ↦ (t, below, awake)
    | ended all ↦ absurd (active (all i lt))
    | least t below w down small ↦ absurd (
        let v = Reach-Inv memory mapped size n numbered few table_size old s r in
        let (j, busy, less) = v.blocked t w down in
        elim (dec_lt j n) [
          | yes low ↦ omega (arith, small j low busy, less)
          | no high ↦ let e = v.above j (omega arith) in ground arith
        ])
  ]
