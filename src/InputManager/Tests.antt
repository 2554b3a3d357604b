-- ===== src/InputManager/Tests.antt =====
-- Two operations on one key, and the theorems at them.
use operating_systems_cs.Base.{
  ℕ, ◌≡◌, refl, ◌<◌, ◌≤◌, ◌⊎◌, true, false, some, arith, inl, inr, ◌==◌, if◌then◌else◌, subst,
}
use operating_systems_cs.BlockHash.{load_bytes}
use operating_systems_cs.HashTable.{init_hashtable}
use operating_systems_cs.InputManager.{
  Operation, System, waiting, processing, process, init, Reach, start, later,
}
use operating_systems_cs.InputManager.Invariant.{
  next_at, Records, at_start, behind, IsNumbered, next_at-le,
}
use operating_systems_cs.InputManager.Safety.{IsAwake, read_op_orders, read_op_progress}

-- A `PUT` of the key 5 with id 1 and no data, and a `GET` of it with id 2.
abbrev two_records : ℕ → ℕ
two_records a =
    if a == 1000
    then 1
    else if a == 1008
    then 5
    else if a == 1024
    then 2
    else if a == 1032
    then 5
    else if a == 1040
    then 1
    else 0

first_end : next_at two_records 1000 ≡ some 1024
unfolding load_bytes
first_end = refl

second_end : next_at two_records 1024 ≡ some 1044
unfolding load_bytes
second_end = refl

places : (p : ℕ) → Records two_records 1000 p → (p ≡ 1000) ⊎ ((p ≡ 1024) ⊎ (1044 ≤ p))
places _ at_start = inl refl
places _ (behind {p} {q} r e) = elim (places p r) [
  | inl here ↦ inr (
      inl (
        let f : next_at two_records 1000 ≡ some q =
          subst (λ x. next_at two_records x ≡ some q) here e in
        ground (arith, first_end)))
  | inr (inl here) ↦
      let f : next_at two_records 1024 ≡ some q =
        subst (λ x. next_at two_records x ≡ some q) here e in
      inr (inr (ground (arith, second_end)))
  | inr (inr far) ↦ inr (inr (omega (arith, next_at-le two_records p q e)))
]

two_records-IsNumbered : IsNumbered two_records 1000 44
unfolding load_bytes
two_records-IsNumbered p q r at e e' le = elim (places p at) [
  | inl here ↦
      let f : next_at two_records 1000 ≡ some q =
        subst (λ x. next_at two_records x ≡ some q) here e in
      let g : q ≡ 1024 = ground (arith, first_end) in rw (here, g) (omega arith)
  | inr (inl here) ↦
      let f : next_at two_records 1024 ≡ some q =
        subst (λ x. next_at two_records x ≡ some q) here e in
      let g : q ≡ 1044 = ground (arith, second_end) in
      absurd (omega (arith, next_at-le two_records q r e'))
  | inr (inr far) ↦
      absurd (omega (arith, next_at-le two_records p q e, next_at-le two_records q r e'))
]

abbrev garbage : ℕ → Operation
garbage _ = record { id = 7; key = 5; op_type = 9; datalen = 3; content = 1 }

abbrev empty : System
empty = init 1000 44 4 garbage

-- Thread 0 has the first operation, and thread 1 the second one.
abbrev both_read : System
both_read = process two_records 1 (process two_records 0 empty)

both_read-Reach : Reach two_records 2 empty both_read
both_read-Reach = later (later start 0 (omega arith)) 1 (omega arith)

read_op_orders_example :
    (both_read.thread 1 ≡ waiting) × ((both_read.operation 0).id < (both_read.operation 1).id)
unfolding process load_bytes
read_op_orders_example =
    read_op_orders two_records 1000 44 2 two_records-IsNumbered (omega arith) 4 garbage both_read
      both_read-Reach 0 1 refl refl (omega arith) refl

-- Thread 0 has run its operation, and the broadcast has woken thread 1.
abbrev one_done : System
one_done = process two_records 0 (process two_records 0 both_read)

one_done-Reach : Reach two_records 2 empty one_done
one_done-Reach = later (later both_read-Reach 0 (omega arith)) 0 (omega arith)

wakes_next : (one_done.thread 1 ≡ waiting) × (one_done.woken 1 ≡ true)
unfolding process load_bytes init_hashtable
wakes_next = (refl, refl)

sleeps_before : (both_read.thread 1 ≡ waiting) × (both_read.woken 1 ≡ false)
unfolding process load_bytes
sleeps_before = (refl, refl)

read_op_progress_example : (t : ℕ) × (t < 2) × IsAwake one_done t
unfolding process load_bytes init_hashtable
read_op_progress_example =
    read_op_progress two_records 1000 44 2 two_records-IsNumbered (omega arith) 4 garbage one_done
      one_done-Reach 1 (omega arith) (ground arith)

-- The thread with `tnum` 33 is not seen: its operation and that of thread 0 run at the same time.
unseen_slot :
    ((process two_records 0 (process two_records 32 empty)).thread 0 ≡ processing)
    × ((process two_records 0 (process two_records 32 empty)).thread 32 ≡ processing)
unfolding process load_bytes
unseen_slot = (refl, refl)
