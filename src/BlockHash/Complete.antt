-- ===== src/BlockHash/Complete.antt =====
-- The array when all workers have ended.
use operating_systems_cs.Base.{
  ℕ, ◌+◌, ◌-◌, ◌*◌, ◌≡◌, ◌≢◌, refl, ◌<◌, ◌≤◌, inl, inr, ltb, leb, if◌then◌else◌, arith, subst,
  Bool-cases, ap,
}
use operating_systems_cs.Threads.{total, total-update}
use operating_systems_cs.BlockHash.{
  step_from, Input, endptr, hash_count, Worker, ready, hashing, exited, System, Reach, hashit,
}
use operating_systems_cs.BlockHash.Invariant.{block_hash, Claimed, Holds, Inv, Reach-Inv}

Claimed-done :
    (f : Input) (n : ℕ) (hashes : ℕ → ℕ) (worker : ℕ → Worker) (k : ℕ)
    → ((i : ℕ) → i < n → worker i ≡ exited)
    → Claimed f n hashes worker k
    → hashes k ≡ block_hash f k
Claimed-done f n hashes worker k done (inl h) = h
Claimed-done f n hashes worker k done (inr (i, lt, e)) = absurd (let z = done i lt in cc)

-- When at least one worker was started and all of them have ended, in whatever order they ran, the
-- array holds the hash of each block of the file at the index of the block, and every other number of
-- the array is as it was.
pub hashit_complete :
    {f : Input} {n : ℕ} {old : ℕ → ℕ} {s : System}
    → 0 < n
    → Reach f n old s
    → ((i : ℕ) → i < n → s.worker i ≡ exited)
    → (k : ℕ) → s.hashes k ≡ (if ltb k (hash_count f) then block_hash f k else old k)
unfolding hash_count
hashit_complete {f} {n} {old} {s} pos r done k =
    let inv = Reach-Inv r in
    let all_taken : endptr f ≤ s.dataptr = subst (Holds f s) (done 0 pos) (inv.holds 0) in
    let whole : s.optr ≡ hash_count f = ground (arith, inv.at, inv.bounded) in
    elim (Bool-cases (ltb k (hash_count f))) [
      | inl below ↦
          rw below
            (Claimed-done f n s.hashes s.worker k done (inv.claimed k (ground (arith, whole))))
      | inr above ↦ rw above (inv.untouched k (ground (arith, whole)))
    ]

-- The steps that a worker still makes beyond those for blocks that are not taken yet.
abbrev pub steps_left : Worker → ℕ
steps_left ready = 1
steps_left (hashing cptr chash) = 2
steps_left exited = 0

-- The steps that the workers still make in all.
abbrev pub remaining : Input → ℕ → System → ℕ
remaining f n s = 2 * (hash_count f - s.optr) + total steps_left n s.worker

taken_in_time :
    (f : Input) (n : ℕ) (old : ℕ → ℕ) (s : System)
    → Inv f n old s
    → s.dataptr < endptr f
    → s.optr < hash_count f
unfolding hash_count
taken_in_time f n old s inv lt = ground (arith, inv.at)

-- Every step of a worker that has not ended takes one from the steps that remain: two for each
-- block that is not taken, two for a worker that holds a block, and one for a worker at the head of its
-- loop.
pub remaining-hashit :
    {f : Input} {n : ℕ} {old : ℕ → ℕ} {s : System} (i : ℕ)
    → Reach f n old s
    → i < n
    → s.worker i ≢ exited
    → remaining f n (hashit f i s) + 1 ≡ remaining f n s
unfolding hashit
remaining-hashit {f} {n} {old} {s} i r lt busy = go (s.worker i) refl
  where
    go : (w : Worker) → s.worker i ≡ w → remaining f n (step_from f i w s) + 1 ≡ remaining f n s
    go ready e = elim (Bool-cases (leb (endptr f) s.dataptr)) [
      | inl ended ↦
          rw ended (omega (arith, total-update steps_left n s.worker i exited lt, ap steps_left e))
      | inr more ↦ rw more (
          omega (
            arith,
            taken_in_time f n old s (Reach-Inv r) (ground arith),
            total-update steps_left n s.worker i (hashing s.dataptr s.optr) lt,
            ap steps_left e,
          ))
    ]
    go (hashing cptr chash) e =
        omega (arith, total-update steps_left n s.worker i ready lt, ap steps_left e)
    go exited e = absurd (busy e)
