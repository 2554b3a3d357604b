-- ===== src/RwLock.antt =====
-- The reader-writer lock of Assignment4/ass4/170635/rwlock.c, with `atomic_add` and `rwlock_t` of
-- Assignment4/ass4/part-2/common.h. A `long` is its 64-bit pattern. A thread does one atomic access
-- in a step.
pub mod Invariant
pub mod Safety
mod Tests
use operating_systems_cs.Base.{
  ℕ, ◌+◌, ◌-◌, ◌*◌, ◌%◌, ◌^◌, ◌≡◌, ◌<◌, Bool, true, false, ◌||◌, ltb, leb, ◌==◌, if◌then◌else◌,
}
use operating_systems_cs.Threads.{update}

-- What `atomic_add` returns: the sign of the new value.
pub data Sign : Type 0 where
  negative null positive : Sign

pub sign : ℕ → Sign
sign v = if leb (2 ^ 63) v then negative else if v == 0 then null else positive

abbrev pub unit : ℕ
unit = 0x1000000000000

-- The new value of `*ptr`; `val` is given as a 64-bit pattern.
pub atomic_add : ℕ → ℕ → ℕ
atomic_add value val = (value + val) % 2 ^ 64

abbrev pub minus : ℕ → ℕ
minus k = 2 ^ 64 - k

abbrev pub init_rwlock : ℕ
init_rwlock = unit

-- Where a thread stands: outside; before, in and behind the first `atomic_add` of a lock function.
pub data Pc : Type 0 where
  idle : Pc
  write_try write_undo write_wait writing : Pc
  read_try read_undo reading : Pc

-- The `while` test of `write_lock`: the thread enters if the sum is 0.
pub write_lock_try : ℕ → Pc × ℕ
unfolding sign atomic_add
write_lock_try v =
    let v' = atomic_add v (minus unit) in
    elim (sign v') [
      | null ↦ (writing, v')
      | negative ↦ (write_undo, v')
      | positive ↦ (write_undo, v')
    ]

pub write_lock_undo : ℕ → Pc × ℕ
unfolding atomic_add
write_lock_undo v = (write_wait, atomic_add v unit)

-- `while( lock->value < 0x1000000000000) sched_yield();`, a signed comparison.
pub write_lock_wait : ℕ → Pc × ℕ
write_lock_wait v = if leb (2 ^ 63) v || ltb v unit then (write_wait, v) else (write_try, v)

pub write_unlock : ℕ → Pc × ℕ
unfolding atomic_add
write_unlock v = (idle, atomic_add v unit)

-- The `while` test of `read_lock`: the thread enters unless the sum is negative.
pub read_lock_try : ℕ → Pc × ℕ
unfolding sign atomic_add
read_lock_try v =
    let v' = atomic_add v (minus 1) in
    elim (sign v') [ negative ↦ (read_undo, v') | null ↦ (reading, v') | positive ↦ (reading, v') ]

pub read_lock_undo : ℕ → Pc × ℕ
unfolding atomic_add
read_lock_undo v = (read_try, atomic_add v 1)

pub read_unlock : ℕ → Pc × ℕ
unfolding atomic_add
read_unlock v = (idle, atomic_add v 1)

-- Which lock an idle thread takes next.
pub data Choice : Type 0 where
  to_read to_write : Choice

-- One step of a thread, given the value of the lock.
unfoldable pub step : Choice → Pc → ℕ → Pc × ℕ
unfolding write_lock_try write_lock_undo write_lock_wait write_unlock read_lock_try read_lock_undo
    read_unlock
step to_write idle v = (write_try, v)
step to_read idle v = (read_try, v)
step c write_try v = write_lock_try v
step c write_undo v = write_lock_undo v
step c write_wait v = write_lock_wait v
step c writing v = write_unlock v
step c read_try v = read_lock_try v
step c read_undo v = read_lock_undo v
step c reading v = read_unlock v

pub record System : Type 0 where
  pub value : ℕ
  pub pc : ℕ → Pc

abbrev pub init : System
init = record { value = init_rwlock; pc = λ _. idle }

abbrev pub run_thread : Choice → ℕ → System → System
run_thread c i s = record {
  value = (step c (s.pc i) s.value).1;
  pc = update s.pc i (step c (s.pc i) s.value).0;
}

-- `n` threads that take and release the lock in any order.
pub data Reach (n : ℕ) : System → Type 0 where
  start : Reach n init
  later : {s : System} → Reach n s → (c : Choice) (i : ℕ) → i < n → Reach n (run_thread c i s)
