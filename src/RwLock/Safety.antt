-- ===== src/RwLock/Safety.antt =====
-- Who can be inside the lock together, and who gets in.
use operating_systems_cs.Base.{ℕ, ◌≡◌, ◌≢◌, ◌↔◌, ◌<◌, ◌≤◌, arith, ap}
use operating_systems_cs.Threads.{total, total-eq_zero, le-total, two-le_total}
use operating_systems_cs.RwLock.{
  Pc, idle, writing, reading, System, Reach, init_rwlock, read_lock_try, write_lock_try,
}
use operating_systems_cs.RwLock.Invariant.{
  writes, reads, write_debt, read_debt, max_threads, Counts, Bounded, Inv, Inv-Bounded, Reach-Inv,
}

-- With at most 64 threads, while a thread holds the lock for writing no other thread holds it, for
-- reading or for writing.
pub mutual_exclusion :
    {n : ℕ} {s : System}
    → n ≤ max_threads
    → Reach n s
    → (i j : ℕ) → i < n
    → j < n
    → i ≢ j
    → s.pc i ≡ writing
    → (s.pc j ≢ writing) × (s.pc j ≢ reading)
mutual_exclusion {n} {s} few r i j a b other w = (
  λ w'. omega (
    arith,
    two-le_total writes n s.pc i j a b other,
    ap writes w,
    ap writes w',
    (Reach-Inv few r).one_writer,
  ),
  λ q. omega (
    arith,
    le-total writes n s.pc i a,
    le-total reads n s.pc j b,
    ap writes w,
    ap reads q,
    (Reach-Inv few r).alone,
  ),
)

-- When none of the threads holds the lock or waits for it, its value is the initial one.
pub quiescent :
    {n : ℕ} {s : System}
    → n ≤ max_threads
    → Reach n s
    → ((i : ℕ) → i < n → s.pc i ≡ idle)
    → s.value ≡ init_rwlock
quiescent {n} {s} few r quiet = omega (
  arith,
  inv.fits,
  inv.owed,
  total-eq_zero write_debt n s.pc (λ i h. ap write_debt (quiet i h)),
  total-eq_zero read_debt n s.pc (λ i h. ap read_debt (quiet i h)),
)
  where
    inv : Inv n s
    inv = Reach-Inv few r

abbrev pub NoDebt : (Pc → ℕ) → ℕ → System → Type 0
NoDebt debt n s = (i : ℕ) → i < n → debt (s.pc i) ≡ 0

NoDebt-total : (w : Pc → ℕ) (n : ℕ) (s : System) → total w n s.pc ≡ 0 → NoDebt w n s
NoDebt-total w n s h i lt = omega (arith, le-total w n s.pc i lt)

read_enters :
    (v ws rs wd rd : ℕ)
    → Counts v ws rs wd rd
    → Bounded ws rs wd rd
    → ((read_lock_try v).0 ≡ reading) ↔ (wd ≡ 0)
unfolding read_lock_try
read_enters v ws rs wd rd k b = (λ e. ground arith, λ e. ground arith)

write_enters :
    (v ws rs wd rd : ℕ)
    → Counts v ws rs wd rd
    → Bounded ws rs wd rd
    → ((write_lock_try v).0 ≡ writing) ↔ ((wd ≡ 0) × (rd ≡ 0))
unfolding write_lock_try
write_enters v ws rs wd rd k b = (λ e. ground arith, λ e. ground arith)

-- When the test of `read_lock` lets a thread in.
read_lock-enters :
    {n : ℕ} {s : System}
    → n ≤ max_threads
    → Reach n s
    → ((read_lock_try s.value).0 ≡ reading) ↔ NoDebt write_debt n s
read_lock-enters {n} {s} few r = (
  λ e. NoDebt-total write_debt n s (both.0 e),
  λ quiet. both.1 (total-eq_zero write_debt n s.pc quiet),
)
  where
    both : ((read_lock_try s.value).0 ≡ reading) ↔ (total write_debt n s.pc ≡ 0)
    both = read_enters s.value _ _ _ _ (Reach-Inv few r) (Inv-Bounded s few)

-- When the test of `write_lock` lets a thread in.
write_lock-enters :
    {n : ℕ} {s : System}
    → n ≤ max_threads
    → Reach n s
    → ((write_lock_try s.value).0 ≡ writing) ↔ (NoDebt write_debt n s × NoDebt read_debt n s)
write_lock-enters {n} {s} few r = (
  λ e. (NoDebt-total write_debt n s (both.0 e).0, NoDebt-total read_debt n s (both.0 e).1),
  λ (w, q). both.1 (total-eq_zero write_debt n s.pc w, total-eq_zero read_debt n s.pc q),
)
  where
    both :
        ((write_lock_try s.value).0 ≡ writing)
        ↔ ((total write_debt n s.pc ≡ 0) × (total read_debt n s.pc ≡ 0))
    both = write_enters s.value _ _ _ _ (Reach-Inv few r) (Inv-Bounded s few)

-- In every reachable state of at most 64 threads the test of `read_lock` lets a thread in exactly
-- when no thread is writing or about to undo a failed attempt to write, and the test of `write_lock`
-- exactly when no thread is reading or writing, or about to undo a failed attempt to read or write.
pub try_enters_iff :
    {n : ℕ} {s : System}
    → n ≤ max_threads
    → Reach n s
    → (((read_lock_try s.value).0 ≡ reading) ↔ NoDebt write_debt n s)
      × (((write_lock_try s.value).0 ≡ writing) ↔ (NoDebt write_debt n s × NoDebt read_debt n s))
try_enters_iff few r = (read_lock-enters few r, write_lock-enters few r)
