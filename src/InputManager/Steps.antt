-- ===== src/InputManager/Steps.antt =====
-- Every step of a thread keeps the invariant.
use operating_systems_cs.Base.{
  ℕ, ◌+◌, ◌≡◌, ◌≢◌, refl, ◌<◌, ◌≤◌, Bool, true, false, Option, none, some, arith, inl, inr,
  Bool-cases, ◌∙◌, sym, subst, if◌then◌else◌,
}
use native.Mathlib.Decide.{ℕ_discrete, dec_lt}
use operating_systems_cs.Threads.{update}
use operating_systems_cs.BlockHash.{load_bytes}
use operating_systems_cs.HashTable.{Table}
use operating_systems_cs.InputManager.{
  Operation, System, Thread, waiting, processing, conflicts_at, flag_loop, checked_slots,
  check_slots, wake,
}
use operating_systems_cs.InputManager.Slots.{flag_loop-clear, flag_loop-set, conflict-busy}
use operating_systems_cs.InputManager.Order.{
  is_running, is_busy, leave-IsOrdered, enter-IsOrdered, run-IsOrdered, IsBlocked, run-IsBlocked,
  apart-IsBlocked,
}
use operating_systems_cs.InputManager.Invariant.{
  next_at, Records, behind, IsNumbered, Inv, update_self,
}

-- A thread that gets on, with its slot as it was.
module _ (memory : ℕ → ℕ) (mapped size n : ℕ) (s : System) (v : Inv memory mapped size n s) (t : ℕ)
    (lt : t < n) where
  pub run-Inv :
      (h : Table) (w : Thread) (op : Operation) (woken : ℕ → Bool)
      → is_busy (s.thread t) ≡ true
      → is_busy w ≡ true
      → op.id ≡ (s.operation t).id
      → op.key ≡ (s.operation t).key
      → (is_running w ≡ true
          → (u : ℕ) → is_busy (s.thread u) ≡ true
          → t ≢ u
          → op.key ≡ (s.operation u).key
          → op.id < (s.operation u).id)
      → (w ≡ waiting → woken t ≡ false → IsBlocked s.thread s.operation t)
      → ((u : ℕ) → t ≢ u → woken u ≡ s.woken u)
      → Inv memory mapped size n (record s {
        table = h;
        operation = update s.operation t op;
        thread = update s.thread t w;
        woken = woken;
      })
  run-Inv h w op woken here busy same_id same_key smallest asleep others = record {
    mapped_at = v.mapped_at;
    of_size = v.of_size;
    at_record = v.at_record;
    slots = λ u. elim (ℕ_discrete t u) [
      | yes y ↦ ground (arith, v.slots u)
      | no k ↦ ground (arith, v.slots u)
    ];
    older = λ u q b e le. elim (ℕ_discrete t u) [
      | yes y ↦ ground (arith, v.older t q here e le)
      | no k ↦ ground (arith, v.older u q)
    ];
    ordered = run-IsOrdered s.thread s.operation v.ordered t w op here same_id same_key smallest;
    blocked = λ u e still.
        run-IsBlocked s.thread s.operation t w op u busy same_id (elim (ℕ_discrete t u) [
          | yes y ↦
              subst (IsBlocked s.thread s.operation) y
                (asleep (ground arith) (subst (λ k. woken k ≡ false) (sym y) still))
          | no k ↦ v.blocked u (ground arith) (sym (others u k) ∙ still)
        ]);
    above = λ u le. ground (arith, v.above u le);
  }

  pub leave-Inv :
      (curr : ℕ) (w : Thread) (op : Operation) (slots : ℕ → Option ℕ) (a : Bool) (woken : ℕ → Bool)
      → is_busy w ≡ false
      → slots t ≡ none
      → ((u : ℕ) → t ≢ u → slots u ≡ s.input.being_processed u)
      → Records memory mapped curr
      → ((q : ℕ) → next_at memory curr ≡ some q → q ≤ mapped + size → curr ≡ s.input.curr)
      → ((u : ℕ)
          → t ≢ u
          → s.thread u ≡ waiting
          → woken u ≡ false
          → (j : ℕ) × (t ≢ j)
            × (is_busy (s.thread j) ≡ true)
            × ((s.operation j).id < (s.operation u).id))
      → Inv memory mapped size n (record s {
        input = record s.input { curr = curr; being_processed = slots };
        operation = update s.operation t op;
        thread = update s.thread t w;
        woken = woken;
        aborted = a;
      })
  leave-Inv curr w op slots a woken idle empty others at_record same asleep = record {
    mapped_at = v.mapped_at;
    of_size = v.of_size;
    at_record = at_record;
    slots = λ u. elim (ℕ_discrete t u) [
      | yes y ↦
          subst (λ k. slots k ≡ (if is_busy (update s.thread t w k) then some k else none)) y
            (empty ∙ ground arith)
      | no k ↦ others u k ∙ ground (arith, v.slots u)
    ];
    older = λ u q b e le. elim (ℕ_discrete t u) [
      | yes y ↦ absurd (ground arith)
      | no k ↦
          let c = same q e le in
          let b' : is_busy (s.thread u) ≡ true = ground arith in
          let o = v.older u q b' (subst (λ p. next_at memory p ≡ some q) c e) le in
          rw c (ground arith)
    ];
    ordered = leave-IsOrdered s.thread s.operation v.ordered t w op idle;
    blocked = λ u e still. elim (ℕ_discrete t u) [
      | yes y ↦ absurd (ground arith)
      | no k ↦
          let (j, far, b, less) = asleep u k (ground arith) still in
          apart-IsBlocked s.thread s.operation t w op u j k far b less
    ];
    above = λ u le. ground (arith, v.above u le);
  }

  pub enter-Inv :
      (curr : ℕ) (op : Operation)
      → is_busy (s.thread t) ≡ false
      → IsNumbered memory mapped size
      → next_at memory s.input.curr ≡ some curr
      → curr ≤ mapped + size
      → op.id ≡ load_bytes 8 memory s.input.curr
      → Inv memory mapped size n (record s {
        input = record s.input {
          curr = curr;
          being_processed = update s.input.being_processed t (some t);
        };
        operation = update s.operation t op;
        thread = update s.thread t waiting;
        woken = update s.woken t true;
      })
  enter-Inv curr op idle numbered e inside id = record {
    mapped_at = v.mapped_at;
    of_size = v.of_size;
    at_record = behind v.at_record e;
    slots = λ u. elim (ℕ_discrete t u) [ yes y ↦ ground arith | no k ↦ ground (arith, v.slots u) ];
    older = λ u q b e' le.
        let more = numbered s.input.curr curr q v.at_record e e' le in
        elim (ℕ_discrete t u) [
          | yes y ↦ ground arith
          | no k ↦
              let b' : is_busy (s.thread u) ≡ true = ground arith in
              let o = v.older u curr b' e inside in ground arith
        ];
    ordered =
        enter-IsOrdered s.thread s.operation v.ordered t op
          (λ u b. let o = v.older u curr b e inside in omega (arith, o, id));
    blocked = λ u e' still. elim (ℕ_discrete t u) [
      | yes y ↦ absurd (ground arith)
      | no k ↦
          let (j, b, less) = v.blocked u (ground arith) (ground arith) in
          apart-IsBlocked s.thread s.operation t waiting op u j k (λ z. ground arith) b less
    ];
    above = λ u le. ground (arith, v.above u le);
  }

-- A thread that waits and finds no conflict has the smallest id on its key.
no_conflict_smallest :
    (memory : ℕ → ℕ) (mapped size n : ℕ) (s : System) (v : Inv memory mapped size n s) (t : ℕ)
    → n ≤ checked_slots
    → is_busy (s.thread t) ≡ true
    → flag_loop checked_slots 0 s (s.operation t) ≡ false
    → (u : ℕ) → is_busy (s.thread u) ≡ true
    → t ≢ u
    → (s.operation t).key ≡ (s.operation u).key
    → (s.operation t).id < (s.operation u).id
no_conflict_smallest memory mapped size n s v t few here clear u b ne same = elim (dec_lt u n) [
  | no high ↦ absurd (let w = v.above u (omega arith) in ground arith)
  | yes low ↦
      let quiet =
        flag_loop-clear checked_slots 0 s (s.operation t) clear u (omega arith) (omega arith) in
      let slot : s.input.being_processed u ≡ some u = v.slots u ∙ rw b refl in
      let quiet' : conflicts_at s (s.operation t) (some u) ≡ false =
        subst (λ o. conflicts_at s (s.operation t) o ≡ false) slot quiet in
      let differ = v.ordered.distinct t u here b ne in ground arith
]

pub check_slots-Inv :
    (memory : ℕ → ℕ) (mapped size n : ℕ) (s : System) (v : Inv memory mapped size n s) (t : ℕ)
    → n ≤ checked_slots
    → t < n
    → is_busy (s.thread t) ≡ true
    → Inv memory mapped size n (check_slots t s)
unfolding check_slots
check_slots-Inv memory mapped size n s v t few lt here =
    let next = if flag_loop checked_slots 0 s (s.operation t) then waiting else processing in
    let b : is_busy next ≡ true = elim (Bool-cases (flag_loop checked_slots 0 s (s.operation t))) [
      | inl set ↦ rw set refl
      | inr clear ↦ rw clear refl
    ] in
    subst
      (λ o. Inv memory mapped size n (record s {
        operation = o;
        thread = update s.thread t next;
        woken = update s.woken t false;
      }))
      (update_self s.operation t)
      (run-Inv memory mapped size n s v t lt s.table next (s.operation t) (update s.woken t false)
        here b refl refl
        (λ r. elim (Bool-cases (flag_loop checked_slots 0 s (s.operation t))) [
          | inl set ↦ absurd (let z = (rw set at r) in ground arith)
          | inr clear ↦ no_conflict_smallest memory mapped size n s v t few here clear
        ])
        (λ e still. elim (Bool-cases (flag_loop checked_slots 0 s (s.operation t))) [
          | inr clear ↦ absurd (let z = (rw clear at e) in ground arith)
          | inl set ↦
              let (j, lt, hit) = flag_loop-set checked_slots 0 s (s.operation t) set in
              let (busy, less) = conflict-busy s (s.operation t) j (v.slots j) hit in
              (j, busy, less)
        ])
        (λ u k. ground arith))

pub abort-Inv :
    (memory : ℕ → ℕ) (mapped size n : ℕ) (s : System)
    → Inv memory mapped size n s
    → Inv memory mapped size n (record s { aborted = true })
abort-Inv memory mapped size n s v = record {
  mapped_at = v.mapped_at;
  of_size = v.of_size;
  at_record = v.at_record;
  slots = v.slots;
  older = v.older;
  ordered = v.ordered;
  blocked = v.blocked;
  above = v.above;
}

-- A return of `pthread_cond_wait`.
pub wake-Inv :
    (memory : ℕ → ℕ) (mapped size n : ℕ) (s : System) (t : ℕ)
    → Inv memory mapped size n s
    → Inv memory mapped size n (wake t s)
wake-Inv memory mapped size n s t v = record {
  mapped_at = v.mapped_at;
  of_size = v.of_size;
  at_record = v.at_record;
  slots = v.slots;
  older = v.older;
  ordered = v.ordered;
  blocked = λ u e still. v.blocked u e (ground arith);
  above = v.above;
}
