-- ===== src/InputManager.antt =====
-- The threads of the hash table program of Assignment4/ass4: `read_op` and `done_one` of
-- 170635/parallel_hash.c, and `process` and `main` of part-3/main.c. What a thread does between
-- `pthread_mutex_lock` and `pthread_mutex_unlock` or `pthread_cond_wait` is one step.
pub mod Slots
pub mod Order
pub mod Invariant
pub mod Operations
pub mod Steps
pub mod Reachable
pub mod Safety
mod Tests
use operating_systems_cs.Base.{
  ℕ, zero, suc, ◌+◌, ◌<◌, ◌≡◌, Bool, true, false, ◌&&◌, ◌||◌, ltb, ◌==◌, Option, none, some,
  if◌then◌else◌,
}
use operating_systems_cs.Threads.{update}
use operating_systems_cs.BlockHash.{load_bytes}
use operating_systems_cs.HashTable.{
  Table, Run, done, asserted, out_of_fuel, init_hashtable, lookup, insert_update, purge_key,
}

-- `id` and `key` are `unsigned long`, `op_type` and `datalen` are `unsigned`, `content` is the
-- pointer `data`.
pub record Operation : Type 0 where
  pub id : ℕ
  pub key : ℕ
  pub op_type : ℕ
  pub datalen : ℕ
  pub content : ℕ

abbrev pub put : ℕ
put = 0

abbrev pub get : ℕ
get = 1

abbrev pub del : ℕ
del = 2

-- `mapped` is the pointer `data`. `being_processed` has the number of the thread whose operation a slot points to, or nothing for `NULL`.
pub record InputManager : Type 0 where
  pub mapped : ℕ
  pub curr : ℕ
  pub size : ℕ
  pub being_processed : ℕ → Option ℕ

-- The file is mapped at `data`; `main` has cleared the structure.
abbrev pub init_input_manager : (mapped size : ℕ) → InputManager
init_input_manager mapped size = record {
  mapped = mapped;
  curr = mapped;
  size = size;
  being_processed = λ _. none;
}

-- Where a thread stands: in front of `read_op`, in `pthread_cond_wait`, behind `read_op`, behind the
-- operation on the table, or at its end.
pub data Thread : Type 0 where
  reading waiting processing processed exited : Thread

abbrev pub in_wait : Thread → Bool
in_wait reading = false
in_wait waiting = true
in_wait processing = false
in_wait processed = false
in_wait exited = false

-- `woken` holds of a thread whose `pthread_cond_wait` may return. `aborted` is a failed `assert`, which
-- ends the program.
pub record System : Type 0 where
  pub input : InputManager
  pub table : Table
  pub operation : ℕ → Operation
  pub thread : ℕ → Thread
  pub woken : ℕ → Bool
  pub aborted : Bool

-- The start that `main` makes; the operations are what `malloc` gave.
abbrev pub init : (mapped size table_size : ℕ) → (ℕ → Operation) → System
init mapped size table_size old = record {
  input = init_input_manager mapped size;
  table = init_hashtable table_size;
  operation = old;
  thread = λ _. reading;
  woken = λ _. false;
  aborted = false;
}

-- `memcpy` of an operation up to its data pointer.
abbrev pub copy_op : (memory : ℕ → ℕ) → Operation → (p : ℕ) → Operation
copy_op memory op p = record op {
  id = load_bytes 8 memory p;
  key = load_bytes 8 memory (p + 8);
  op_type = load_bytes 4 memory (p + 16);
  datalen = load_bytes 4 memory (p + 20);
}

-- The data of a `PUT` follow its record, and then the next record; the records of `GET` and `DEL` end in
-- front of the length. No other number is an operation.
abbrev pub next_curr : Operation → (p : ℕ) → Option ℕ
next_curr op p =
    if (op.op_type == get) || (op.op_type == del)
    then some (p + 20)
    else if op.op_type == put
    then some (p + 24 + op.datalen)
    else none

abbrev pub with_data : Operation → (p : ℕ) → Operation
with_data op p = if op.op_type == put then record op { content = p + 24 } else op

-- The test of `read_op` for the slot of another operation.
abbrev pub conflicts_at : System → Operation → Option ℕ → Bool
conflicts_at s op none = false
conflicts_at s op (some a) = ((s.operation a).key == op.key) && ltb (s.operation a).id op.id

-- The loop over the slots from `i` on.
pub flag_loop : (rounds i : ℕ) → System → Operation → Bool
flag_loop zero i s op = false
flag_loop (suc rounds) i s op =
    let rest = flag_loop rounds (i + 1) s op in
    if conflicts_at s op (s.input.being_processed i) then true else rest

abbrev pub checked_slots : ℕ
checked_slots = 32

-- The thread waits until it is woken, or leaves `read_op`.
pub check_slots : ℕ → System → System
unfolding flag_loop
check_slots t s =
    let next = if flag_loop checked_slots 0 s (s.operation t) then waiting else processing in
    record s { thread = update s.thread t next; woken = update s.woken t false }

-- `read_op` returns -1, or stores the pointer to the operation.
pub take_op : ℕ → (curr : ℕ) → System → System
unfolding check_slots
take_op t curr s =
    let i = record s.input { curr = curr } in
    if ltb (i.mapped + i.size) curr
    then record s { input = i; thread = update s.thread t exited }
    else check_slots t
        (record s { input = record i { being_processed = update i.being_processed t (some t) } })

-- `read_op` up to its first wait or its return.
pub read_op : (memory : ℕ → ℕ) → ℕ → System → System
unfolding take_op load_bytes
read_op memory t s =
    let i = s.input in
    if ltb (i.mapped + i.size) i.curr
    then record s { thread = update s.thread t exited }
    else let op = copy_op memory (s.operation t) i.curr in
      let s' = record s { operation = update s.operation t (with_data op i.curr) } in
      elim (next_curr op i.curr) [
        | none ↦ record s' { aborted = true }
        | some curr ↦ take_op t curr s'
      ]

-- The switch of `process` over the operation: the table and the operation afterwards.
abbrev pub with_found : Table → Operation → Run (Option (ℕ × ℕ)) → Run (Table × Operation)
with_found h op (done none) = done (h, op)
with_found h op (done (some (datalen, content))) =
    done (h, record op { datalen = datalen; content = content })
with_found h op asserted = asserted
with_found h op out_of_fuel = out_of_fuel

abbrev pub with_inserted : Operation → Run Table → Run (Table × Operation)
with_inserted op (done h) = done (h, op)
with_inserted op asserted = asserted
with_inserted op out_of_fuel = out_of_fuel

abbrev pub with_purged : Operation → Run (Table × Bool) → Run (Table × Operation)
with_purged op (done (h, _)) = done (h, op)
with_purged op asserted = asserted
with_purged op out_of_fuel = out_of_fuel

pub run_op : Table → Operation → Run (Table × Operation)
unfolding lookup insert_update purge_key
run_op h op =
    if op.op_type == get
    then with_found h op (lookup h op.key)
    else if op.op_type == put
    then with_inserted op (
        insert_update h
          (record { id = op.id; key = op.key; datalen = op.datalen; content = op.content }))
    else if op.op_type == del
    then with_purged op (purge_key h op.key)
    else asserted

abbrev pub process_op : ℕ → System → System
process_op t s = elim (run_op s.table (s.operation t)) [
  | done (h, op) ↦ record s {
    table = h;
    operation = update s.operation t op;
    thread = update s.thread t processed;
  }
  | asserted ↦ record s { aborted = true }
  | out_of_fuel ↦ s
]

-- `pthread_cond_broadcast`: all threads that wait may go on.
abbrev pub broadcast : System → System
broadcast s = record s { woken = λ u. if in_wait (s.thread u) then true else s.woken u }

abbrev pub done_one : ℕ → System → System
done_one t s = broadcast (record s {
  input = record s.input { being_processed = update s.input.being_processed t none };
  thread = update s.thread t reading;
})

abbrev pub step_from : (memory : ℕ → ℕ) → ℕ → Thread → System → System
step_from memory t reading s = read_op memory t s
step_from memory t waiting s = if s.woken t then check_slots t s else s
step_from memory t processing s = process_op t s
step_from memory t processed s = done_one t s
step_from memory t exited s = s

-- One step of thread `t`.
unfoldable pub process : (memory : ℕ → ℕ) → ℕ → System → System
unfolding run_op read_op check_slots
process memory t s = if s.aborted then s else step_from memory t (s.thread t) s

-- `pthread_cond_wait` may also return without a broadcast.
abbrev pub wake : ℕ → System → System
wake t s = record s { woken = update s.woken t true }

-- The steps of the threads 0 to `n - 1`, in any order, and returns of `pthread_cond_wait` at any time.
pub data Reach (memory : ℕ → ℕ) (n : ℕ) (first : System) : System → Type 0 where
  start : Reach memory n first first
  later :
      {s : System}
      → Reach memory n first s
      → (t : ℕ) → t < n
      → Reach memory n first (process memory t s)
  wakes :
      {s : System}
      → Reach memory n first s
      → (t : ℕ) → s.thread t ≡ waiting
      → Reach memory n first (wake t s)
