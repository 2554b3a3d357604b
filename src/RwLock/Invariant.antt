-- ===== src/RwLock/Invariant.antt =====
-- The lock's value counts the threads that have subtracted from it.
use operating_systems_cs.Base.{ℕ, ◌+◌, ◌*◌, ◌%◌, ◌^◌, ◌≡◌, refl, ◌<◌, ◌≤◌, arith, ◌⊎◌, inl}
use operating_systems_cs.Threads.{total, total-update, total-bound, total-eq_zero, total_mono}
use operating_systems_cs.RwLock.{
  unit, Pc, idle, write_undo, writing, read_undo, reading, Choice, to_read, to_write, step, System,
  run_thread, Reach, start, later,
}

-- Who holds the lock, and who has subtracted from its value.
abbrev pub writes : Pc → ℕ
writes writing = 1
writes _ = 0

abbrev pub reads : Pc → ℕ
reads reading = 1
reads _ = 0

abbrev pub write_debt : Pc → ℕ
write_debt writing = 1
write_debt write_undo = 1
write_debt _ = 0

abbrev pub read_debt : Pc → ℕ
read_debt reading = 1
read_debt read_undo = 1
read_debt _ = 0

abbrev pub max_threads : ℕ
max_threads = 64

pub record Counts (value ws rs wd rd : ℕ) : Type 0 where
  pub fits : value < 2 ^ 64
  pub owed : (value + unit * wd + rd) % 2 ^ 64 ≡ unit
  pub one_writer : ws ≤ 1
  pub alone : (ws ≡ 0) ⊎ (rs ≡ 0)

-- What holds of the counts of any `n ≤ 64` threads.
pub record Bounded (ws rs wd rd : ℕ) : Type 0 where
  pub writers : ws ≤ wd
  pub readers : rs ≤ rd
  pub few_writers : wd ≤ max_threads
  pub few_readers : rd ≤ max_threads

abbrev pub Inv : ℕ → System → Type 0
Inv n s =
    Counts s.value (total writes n s.pc) (total reads n s.pc) (total write_debt n s.pc)
      (total read_debt n s.pc)

-- A step changes each count by what the thread had and has.
step-Counts :
    (c : Choice) (p : Pc) (v ws rs wd rd ws' rs' wd' rd' : ℕ)
    → Counts v ws rs wd rd
    → Bounded ws rs wd rd
    → Bounded ws' rs' wd' rd'
    → ws' + writes p ≡ ws + writes (step c p v).0
    → rs' + reads p ≡ rs + reads (step c p v).0
    → wd' + write_debt p ≡ wd + write_debt (step c p v).0
    → rd' + read_debt p ≡ rd + read_debt (step c p v).0
    → Counts (step c p v).1 ws' rs' wd' rd'
unfolding step
step-Counts to_read idle v ws rs wd rd ws' rs' wd' rd' k b b' e f g h = ground arith
step-Counts to_write idle v ws rs wd rd ws' rs' wd' rd' k b b' e f g h = ground arith
step-Counts c p v ws rs wd rd ws' rs' wd' rd' k b b' e f g h = ground arith

pub Inv-Bounded :
    {n : ℕ} (s : System)
    → n ≤ max_threads
    → Bounded
        (total writes n s.pc)
        (total reads n s.pc)
        (total write_debt n s.pc)
        (total read_debt n s.pc)
Inv-Bounded {n} s few = record {
  writers = total_mono writes write_debt (λ p. ground arith) n s.pc;
  readers = total_mono reads read_debt (λ p. ground arith) n s.pc;
  few_writers = omega (arith, total-bound write_debt (λ p. ground arith) n s.pc);
  few_readers = omega (arith, total-bound read_debt (λ p. ground arith) n s.pc);
}

run_thread-Inv :
    {n : ℕ} (s : System) (c : Choice) (i : ℕ)
    → n ≤ max_threads
    → i < n
    → Inv n s
    → Inv n (run_thread c i s)
run_thread-Inv {n} s c i few lt inv =
    step-Counts c (s.pc i) s.value _ _ _ _ _ _ _ _ inv (Inv-Bounded s few)
      (Inv-Bounded (run_thread c i s) few) (total-update writes n s.pc i _ lt)
      (total-update reads n s.pc i _ lt) (total-update write_debt n s.pc i _ lt)
      (total-update read_debt n s.pc i _ lt)

idle_total : (w : Pc → ℕ) (n : ℕ) → w idle ≡ 0 → total w n (λ _. idle) ≡ 0
idle_total w n h = total-eq_zero w n (λ _. idle) (λ _ _. h)

-- Every state that at most 64 threads can reach satisfies the invariant.
pub Reach-Inv : {n : ℕ} {s : System} → n ≤ max_threads → Reach n s → Inv n s
Reach-Inv {n} few start = record {
  fits = omega arith;
  owed = omega (arith, idle_total write_debt n refl, idle_total read_debt n refl);
  one_writer = omega (arith, idle_total writes n refl);
  alone = inl (idle_total writes n refl);
}
Reach-Inv few (later {s} r c i lt) = run_thread-Inv s c i few lt (Reach-Inv few r)
