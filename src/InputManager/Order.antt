-- ===== src/InputManager/Order.antt =====
-- The order in which threads run operations on the same key.
use operating_systems_cs.Base.{ℕ, ◌≡◌, ◌≢◌, refl, ◌<◌, Bool, true, false, arith}
use native.Mathlib.Decide.{ℕ_discrete}
use operating_systems_cs.Threads.{update}
use operating_systems_cs.InputManager.{
  Operation, Thread, reading, waiting, processing, processed, exited,
}

-- The thread is behind `read_op`, and in front of `done_one`.
abbrev pub is_running : Thread → Bool
is_running reading = false
is_running waiting = false
is_running processing = true
is_running processed = true
is_running exited = false

-- The slot of the thread points to its operation.
abbrev pub is_busy : Thread → Bool
is_busy reading = false
is_busy waiting = true
is_busy processing = true
is_busy processed = true
is_busy exited = false

pub running-busy : (w : Thread) → is_running w ≡ true → is_busy w ≡ true
running-busy reading e = absurd (ground arith)
running-busy waiting e = refl
running-busy processing e = refl
running-busy processed e = refl
running-busy exited e = absurd (ground arith)

-- A thread that runs an operation has the smallest id among the operations on its key.
pub record IsOrdered (thread : ℕ → Thread) (operation : ℕ → Operation) : Type 0 where
  pub first :
      (t u : ℕ)
      → is_running (thread t) ≡ true
      → is_busy (thread u) ≡ true
      → t ≢ u
      → (operation t).key ≡ (operation u).key
      → (operation t).id < (operation u).id
  pub distinct :
      (t u : ℕ)
      → is_busy (thread t) ≡ true
      → is_busy (thread u) ≡ true
      → t ≢ u
      → (operation t).id ≢ (operation u).id

-- Another operation that is registered is older.
abbrev pub IsBlocked : (thread : ℕ → Thread) → (operation : ℕ → Operation) → ℕ → Type 0
IsBlocked thread operation u =
    (j : ℕ) × (is_busy (thread j) ≡ true) × ((operation j).id < (operation u).id)

-- A thread that stays in blocks the same threads, and is blocked by the same threads.
pub run-IsBlocked :
    (thread : ℕ → Thread) (operation : ℕ → Operation) (t : ℕ) (w : Thread) (op : Operation) (u : ℕ)
    → is_busy w ≡ true
    → op.id ≡ (operation t).id
    → IsBlocked thread operation u
    → IsBlocked (update thread t w) (update operation t op) u
run-IsBlocked thread operation t w op u busy same (j, b, less) =
    (j, ground arith, elim (ℕ_discrete t u) [ yes y ↦ ground arith | no k ↦ ground arith ])

-- A thread that is not the one that changes blocks the same other threads.
pub apart-IsBlocked :
    (thread : ℕ → Thread) (operation : ℕ → Operation) (t : ℕ) (w : Thread) (op : Operation)
    (u j : ℕ)
    → t ≢ u
    → t ≢ j
    → is_busy (thread j) ≡ true
    → (operation j).id < (operation u).id
    → IsBlocked (update thread t w) (update operation t op) u
apart-IsBlocked thread operation t w op u j other far b less = (j, ground arith, ground arith)

module _ (thread : ℕ → Thread) (operation : ℕ → Operation) (o : IsOrdered thread operation)
    (t : ℕ) where
  -- A thread leaves.
  pub leave-IsOrdered :
      (w : Thread) (op : Operation)
      → is_busy w ≡ false
      → IsOrdered (update thread t w) (update operation t op)
  leave-IsOrdered w op idle = record {
    first = λ a b ra bb ne same. elim (ℕ_discrete t a) [
      | yes y ↦
          absurd (let z : is_running w ≡ true = ground arith in ground (arith, running-busy w z))
      | no n ↦ elim (ℕ_discrete t b) [
        | yes y ↦ absurd (ground arith)
        | no k ↦ ground (arith, o.first a b)
      ]
    ];
    distinct = λ a b ba bb ne. elim (ℕ_discrete t a) [
      | yes y ↦ absurd (ground arith)
      | no n ↦ elim (ℕ_discrete t b) [
        | yes y ↦ absurd (ground arith)
        | no k ↦ ground (arith, o.distinct a b)
      ]
    ];
  }

  -- A thread comes with a larger id than all others, and waits.
  pub enter-IsOrdered :
      (op : Operation)
      → ((u : ℕ) → is_busy (thread u) ≡ true → (operation u).id < op.id)
      → IsOrdered (update thread t waiting) (update operation t op)
  enter-IsOrdered op largest = record {
    first = λ a b ra bb ne same. elim (ℕ_discrete t a) [
      | yes y ↦ absurd (ground arith)
      | no n ↦ elim (ℕ_discrete t b) [
        | yes y ↦
            let r : is_running (thread a) ≡ true = ground arith in
            ground (arith, largest a (running-busy (thread a) r))
        | no k ↦ ground (arith, o.first a b)
      ]
    ];
    distinct = λ a b ba bb ne. elim (ℕ_discrete t a) [
      | yes y ↦ elim (ℕ_discrete t b) [
        | yes z ↦ absurd (omega arith)
        | no k ↦ ground (arith, largest b)
      ]
      | no n ↦ elim (ℕ_discrete t b) [
        | yes y ↦ ground (arith, largest a)
        | no k ↦ ground (arith, o.distinct a b)
      ]
    ];
  }

  -- A thread that is in goes on when every other operation on its key has another or a larger id.
  pub run-IsOrdered :
      (w : Thread) (op : Operation)
      → is_busy (thread t) ≡ true
      → op.id ≡ (operation t).id
      → op.key ≡ (operation t).key
      → (is_running w ≡ true
          → (u : ℕ) → is_busy (thread u) ≡ true
          → t ≢ u
          → op.key ≡ (operation u).key
          → op.id < (operation u).id)
      → IsOrdered (update thread t w) (update operation t op)
  run-IsOrdered w op here same_id same_key smallest = record {
    first = λ a b ra bb ne same. elim (ℕ_discrete t a) [
      | yes y ↦ elim (ℕ_discrete t b) [
        | yes z ↦ absurd (omega arith)
        | no k ↦ let r : is_running w ≡ true = ground arith in ground (arith, smallest r b)
      ]
      | no n ↦ elim (ℕ_discrete t b) [
        | yes y ↦
            let r : is_running (thread a) ≡ true = ground arith in
            let k : (operation a).key ≡ (operation t).key = ground arith in
            ground (arith, o.first a t r here (omega arith) k)
        | no k ↦ ground (arith, o.first a b)
      ]
    ];
    distinct = λ a b ba bb ne. elim (ℕ_discrete t a) [
      | yes y ↦ elim (ℕ_discrete t b) [
        | yes z ↦ absurd (omega arith)
        | no k ↦
            let r : is_busy (thread b) ≡ true = ground arith in
            ground (arith, o.distinct t b here r (omega arith))
      ]
      | no n ↦ elim (ℕ_discrete t b) [
        | yes y ↦
            let r : is_busy (thread a) ≡ true = ground arith in
            ground (arith, o.distinct a t r here (omega arith))
        | no k ↦ ground (arith, o.distinct a b)
      ]
    ];
  }
