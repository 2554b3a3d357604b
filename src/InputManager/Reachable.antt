-- ===== src/InputManager/Reachable.antt =====
-- The invariant holds in every state that the threads reach.
use operating_systems_cs.Base.{
  ℕ, zero, suc, ◌+◌, ◌≡◌, ◌≢◌, refl, ◌<◌, ◌≤◌, Bool, true, false, ltb, none, some, arith, inl, inr,
  Bool-cases, Option-cases, sym, ◌∙◌, subst, if◌then◌else◌,
}
use operating_systems_cs.Threads.{update}
use operating_systems_cs.BlockHash.{load_bytes}
use operating_systems_cs.HashTable.{Table, Run, done, asserted, out_of_fuel}
use operating_systems_cs.InputManager.{
  Operation, System, Thread, reading, waiting, processing, processed, exited, copy_op, with_data,
  flag_loop, checked_slots, check_slots, take_op, read_op, run_op, process_op, done_one, step_from,
  process, init, Reach, start, later, wakes,
}
use operating_systems_cs.InputManager.Order.{is_busy}
use operating_systems_cs.InputManager.Invariant.{
  next_at, at_start, behind, IsNumbered, Inv, next_at-le, with_data-id, update_self, update-update,
}
use operating_systems_cs.InputManager.Operations.{run_op-keeps}
use operating_systems_cs.InputManager.Steps.{
  run-Inv, leave-Inv, enter-Inv, check_slots-Inv, abort-Inv, wake-Inv,
}

-- The test of the slots does not look at where the threads stand.
flag_loop-thread :
    (rounds i : ℕ) (s : System) (op : Operation) (thread : ℕ → Thread) (woken : ℕ → Bool)
    → flag_loop rounds i (record s { thread = thread; woken = woken }) op ≡ flag_loop rounds i s op
unfolding flag_loop
flag_loop-thread zero i s op thread woken = refl
flag_loop-thread (suc rounds) i s op thread woken =
    rw (flag_loop-thread rounds (i + 1) s op thread woken) refl

check_slots-thread :
    (t : ℕ) (s : System) (w : Thread) (b : Bool)
    → check_slots t (record s { thread = update s.thread t w; woken = update s.woken t b })
      ≡ check_slots t s
unfolding check_slots
check_slots-thread t s w b =
    rw
      (
        flag_loop-thread checked_slots 0 s (s.operation t) (update s.thread t w)
            (update s.woken t b),
        update-update s.thread t w
            (if flag_loop checked_slots 0 s (s.operation t) then waiting else processing),
        update-update s.woken t b false,
      )
      refl

module _ (memory : ℕ → ℕ) (mapped size n : ℕ) (numbered : IsNumbered memory mapped size)
    (few : n ≤ checked_slots) where
  module _ (s : System) (v : Inv memory mapped size n s) (t : ℕ) (lt : t < n) where
    empty_slot : is_busy (s.thread t) ≡ false → s.input.being_processed t ≡ none
    empty_slot idle = v.slots t ∙ rw idle refl

    -- A thread that is not in blocks nobody.
    others_blocked :
        is_busy (s.thread t) ≡ false
        → (u : ℕ) → t ≢ u
        → s.thread u ≡ waiting
        → s.woken u ≡ false
        → (j : ℕ) × (t ≢ j)
          × (is_busy (s.thread j) ≡ true)
          × ((s.operation j).id < (s.operation u).id)
    others_blocked idle u ne e still =
        let (j, b, less) = v.blocked u e still in (j, (λ z. ground arith), b, less)

    done_one-Inv : Inv memory mapped size n (done_one t s)
    done_one-Inv =
        subst (λ o. Inv memory mapped size n (record (done_one t s) { operation = o }))
          (update_self s.operation t)
          (leave-Inv memory mapped size n s v t lt s.input.curr reading (s.operation t)
            (update s.input.being_processed t none) s.aborted (done_one t s).woken refl
            (ground arith) (λ u ne. ground arith) v.at_record (λ q e le. refl)
            (λ u ne e still. absurd (ground arith)))

    process_op-Inv : s.thread t ≡ processing → Inv memory mapped size n (process_op t s)
    process_op-Inv here = run_from (run_op s.table (s.operation t)) refl
      where
        run_from :
            (r : Run (Table × Operation))
            → run_op s.table (s.operation t) ≡ r
            → Inv memory mapped size n (process_op t s)
        run_from (done (h, op)) e =
            let keeps = run_op-keeps s.table h (s.operation t) op e in
            rw (e, process_op)
              (run-Inv memory mapped size n s v t lt h processed op s.woken (ground arith) refl
                keeps.0 keeps.1
                (λ r u b ne same.
                  let first = v.ordered.first t u (ground arith) b ne (sym keeps.1 ∙ same) in
                  omega (arith, first, keeps.0))
                (λ e still. absurd (ground arith)) (λ u ne. refl))
        run_from asserted e = rw (e, process_op) (abort-Inv memory mapped size n s v)
        run_from out_of_fuel e = rw (e, process_op) v

    leaves-Inv :
        is_busy (s.thread t) ≡ false
        → Inv memory mapped size n (record s { thread = update s.thread t exited })
    leaves-Inv idle =
        subst
          (λ o.
            Inv memory mapped size n
              (record s { operation = o; thread = update s.thread t exited }))
          (update_self s.operation t)
          (leave-Inv memory mapped size n s v t lt s.input.curr exited (s.operation t)
            s.input.being_processed s.aborted s.woken refl (empty_slot idle) (λ u ne. refl)
            v.at_record (λ q e le. refl) (others_blocked idle))

    take_op-Inv :
        (curr : ℕ) (op : Operation)
        → is_busy (s.thread t) ≡ false
        → next_at memory s.input.curr ≡ some curr
        → op.id ≡ load_bytes 8 memory s.input.curr
        → Inv memory mapped size n
            (take_op t curr (record s { operation = update s.operation t op }))
    unfolding take_op
    take_op-Inv curr op idle e id = elim (Bool-cases (ltb (s.input.mapped + s.input.size) curr)) [
      | inl outside ↦ rw outside (
          leave-Inv memory mapped size n s v t lt curr exited op s.input.being_processed s.aborted
            s.woken refl (empty_slot idle) (λ u ne. refl) (behind v.at_record e)
            (λ q e' le.
              absurd (
                let beyond = next_at-le memory curr q e' in ground (arith, v.mapped_at, v.of_size)))
            (others_blocked idle))
      | inr inside ↦
          let s' = record s {
            input = record s.input {
              curr = curr;
              being_processed = update s.input.being_processed t (some t);
            };
            operation = update s.operation t op;
            thread = update s.thread t waiting;
            woken = update s.woken t true;
          } in
          let v' : Inv memory mapped size n s' =
            enter-Inv memory mapped size n s v t lt curr op idle numbered e
              (ground (arith, v.mapped_at, v.of_size)) id in
          rw inside (
            subst (Inv memory mapped size n)
              (check_slots-thread t (record s' { thread = s.thread; woken = s.woken }) waiting true)
              (check_slots-Inv memory mapped size n s' v' t few lt (ground arith)))
    ]

    read_op-Inv : s.thread t ≡ reading → Inv memory mapped size n (read_op memory t s)
    unfolding read_op
    read_op-Inv here =
        let idle : is_busy (s.thread t) ≡ false = ground arith in
        elim (Bool-cases (ltb (s.input.mapped + s.input.size) s.input.curr)) [
          | inl outside ↦ rw outside (leaves-Inv idle)
          | inr inside ↦
              let op = copy_op memory (s.operation t) s.input.curr in
              elim (Option-cases (next_at memory s.input.curr)) [
                | inl bad ↦
                    rw (inside, bad)
                      (subst
                        (λ w. Inv memory mapped size n (record s {
                          operation = update s.operation t (with_data op s.input.curr);
                          thread = w;
                          aborted = true;
                        }))
                        (update_self s.thread t)
                        (leave-Inv memory mapped size n s v t lt s.input.curr (s.thread t)
                          (with_data op s.input.curr) s.input.being_processed true s.woken idle
                          (empty_slot idle) (λ u ne. refl) v.at_record (λ q e le. refl)
                          (others_blocked idle)))
                | inr (curr, good) ↦
                    rw (inside, good)
                      (take_op-Inv curr (with_data op s.input.curr) idle good
                        (with_data-id op s.input.curr))
              ]
        ]

    step_from-Inv :
        (w : Thread) → s.thread t ≡ w → Inv memory mapped size n (step_from memory t w s)
    step_from-Inv reading here = read_op-Inv here
    step_from-Inv waiting here = elim (Bool-cases (s.woken t)) [
      | inl up ↦ rw up (check_slots-Inv memory mapped size n s v t few lt (ground arith))
      | inr asleep ↦ rw asleep v
    ]
    step_from-Inv processing here = process_op-Inv here
    step_from-Inv processed here = done_one-Inv
    step_from-Inv exited here = v

    process-Inv : Inv memory mapped size n (process memory t s)
    unfolding process
    process-Inv = either s.aborted
      where
        either :
            (ended : Bool)
            → Inv memory mapped size n (if ended then s else step_from memory t (s.thread t) s)
        either true = v
        either false = step_from-Inv (s.thread t) refl

  init-Inv :
      (table_size : ℕ) (old : ℕ → Operation)
      → Inv memory mapped size n (init mapped size table_size old)
  init-Inv table_size old = record {
    mapped_at = refl;
    of_size = refl;
    at_record = at_start;
    slots = λ t. refl;
    older = λ t q b e le. absurd (ground arith);
    ordered = record {
      first = λ t u r b ne same. absurd (ground arith);
      distinct = λ t u a b ne same. absurd (ground arith);
    };
    blocked = λ t e still. absurd (ground arith);
    above = λ t le. refl;
  }

  pub Reach-Inv :
      (table_size : ℕ) (old : ℕ → Operation) (s : System)
      → Reach memory n (init mapped size table_size old) s
      → Inv memory mapped size n s
  Reach-Inv table_size old _ start = init-Inv table_size old
  Reach-Inv table_size old _ (later {s} r t lt) = process-Inv s (Reach-Inv table_size old s r) t lt
  Reach-Inv table_size old _ (wakes {s} r t e) =
      wake-Inv memory mapped size n s t (Reach-Inv table_size old s r)
