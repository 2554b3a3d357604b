-- ===== src/RwLock/Tests.antt =====
-- Two threads at the lock, and its theorems at their states.
use operating_systems_cs.Base.{ℕ, zero, suc, ◌≡◌, ◌≢◌, ◌↔◌, ◌<◌, refl, arith}
use operating_systems_cs.RwLock.{
  idle, writing, reading, read_undo, to_read, to_write, System, init, run_thread, Reach, start,
  later, step, init_rwlock, read_lock_try, write_lock_try,
}
use operating_systems_cs.RwLock.Invariant.{write_debt, read_debt}
use operating_systems_cs.RwLock.Safety.{mutual_exclusion, quiescent, NoDebt, try_enters_iff}

-- Thread 0 writes, and thread 1 has failed to read.
abbrev contended : System
contended =
    run_thread to_read 1 (run_thread to_read 1 (run_thread to_write 0 (run_thread to_write 0 init)))

contended-Reach : Reach 2 contended
contended-Reach =
    later
      (later (later (later start to_write 0 (omega arith)) to_write 0 (omega arith)) to_read 1
        (omega arith))
      to_read 1 (omega arith)

contended_reader : contended.pc 1 ≡ read_undo
unfolding step
contended_reader = refl

mutual_exclusion_example : (contended.pc 1 ≢ writing) × (contended.pc 1 ≢ reading)
unfolding step
mutual_exclusion_example =
    mutual_exclusion (omega arith) contended-Reach 0 1 (omega arith) (omega arith) (omega arith)
      refl

-- Thread 0 has locked and unlocked.
abbrev released : System
released = run_thread to_write 0 (run_thread to_write 0 (run_thread to_write 0 init))

released-Reach : Reach 1 released
released-Reach =
    later (later (later start to_write 0 (omega arith)) to_write 0 (omega arith)) to_write 0
      (omega arith)

released_quiet : (i : ℕ) → i < 1 → released.pc i ≡ idle
unfolding step
released_quiet zero h = refl
released_quiet (suc i) h = absurd (omega arith)

quiescent_example : released.value ≡ init_rwlock
quiescent_example = quiescent (omega arith) released-Reach released_quiet

try_enters_iff_example :
    (((read_lock_try contended.value).0 ≡ reading) ↔ NoDebt write_debt 2 contended)
    × (((write_lock_try contended.value).0 ≡ writing)
        ↔ (NoDebt write_debt 2 contended × NoDebt read_debt 2 contended))
try_enters_iff_example = try_enters_iff (omega arith) contended-Reach
