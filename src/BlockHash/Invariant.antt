-- ===== src/BlockHash/Invariant.antt =====
-- Which block each entry of the array belongs to.
use operating_systems_cs.Base.{
  ℕ, ◌+◌, ◌*◌, ◌≡◌, ◌≢◌, refl, ◌<◌, ◌≤◌, ◌⊎◌, inl, inr, true, false, leb, ◌==◌, arith, Bool-cases,
  ap, sym, subst, ap₂,
}
use native.Mathlib.Decide.{ℕ_discrete}
use operating_systems_cs.Threads.{update}
use operating_systems_cs.BlockHash.{
  Input, endptr, block_size, calculate_and_store_hash, hash_count, Worker, ready, hashing, exited,
  System, init, store_hash, step_from, hashit, Reach, start, later,
}

-- The hash of block `k`.
abbrev pub block_hash : Input → ℕ → ℕ
block_hash f k = calculate_and_store_hash f.memory (f.buff + block_size * k) (endptr f)

-- What a worker holds.
abbrev pub Holds : Input → System → Worker → Type 0
Holds f s ready = Unit {0}
Holds f s (hashing cptr chash) = (cptr ≡ f.buff + block_size * chash) × (chash < s.optr)
Holds f s exited = endptr f ≤ s.dataptr

-- An entry whose block was taken has its hash, or a worker has still to store it.
abbrev pub Claimed : Input → ℕ → (ℕ → ℕ) → (ℕ → Worker) → ℕ → Type 0
Claimed f n hashes worker k =
    (hashes k ≡ block_hash f k)
    ⊎ ((i : ℕ) × (i < n) × (worker i ≡ hashing (f.buff + block_size * k) k))

pub record Inv (f : Input) (n : ℕ) (old : ℕ → ℕ) (s : System) : Type 0 where
  pub at : s.dataptr ≡ f.buff + block_size * s.optr
  pub bounded : s.optr ≤ hash_count f
  pub holds : (i : ℕ) → Holds f s (s.worker i)
  pub claimed : (k : ℕ) → k < s.optr → Claimed f n s.hashes s.worker k
  pub untouched : (k : ℕ) → s.optr ≤ k → s.hashes k ≡ old k

init-Inv : (f : Input) (n : ℕ) (old : ℕ → ℕ) → Inv f n old (init f old)
init-Inv f n old = record {
  at = omega arith;
  bounded = omega arith;
  holds = λ i. tt;
  claimed = λ k lt. absurd (omega arith);
  untouched = λ k le. refl;
}

-- What a worker holds it still holds when more blocks are taken.
Holds-mono :
    (f : Input) (s t : System) (w : Worker)
    → s.optr ≤ t.optr
    → s.dataptr ≤ t.dataptr
    → Holds f s w
    → Holds f t w
Holds-mono f s t ready le le' h = tt
Holds-mono f s t (hashing cptr chash) le le' h = (h.0, omega (arith, h.1))
Holds-mono f s t exited le le' h = omega (arith, h)

Holds-update :
    (f : Input) (s : System) (worker : ℕ → Worker) (i : ℕ) (w : Worker)
    → Holds f s w
    → ((j : ℕ) → Holds f s (worker j))
    → (j : ℕ) → Holds f s (update worker i w j)
Holds-update f s worker i w h hs j = elim (Bool-cases (i == j)) [
  | inl same ↦ rw same h
  | inr other ↦ rw other (hs j)
]

-- A worker that does not hold the block of `k` may go on.
Claimed-update :
    (f : Input) (n : ℕ) (hashes : ℕ → ℕ) (worker : ℕ → Worker) (i k : ℕ) (w : Worker)
    → worker i ≢ hashing (f.buff + block_size * k) k
    → Claimed f n hashes worker k
    → Claimed f n hashes (update worker i w) k
Claimed-update f n hashes worker i k w free (inl h) = inl h
Claimed-update f n hashes worker i k w free (inr (j, lt, e)) = elim (ℕ_discrete i j) [
  | yes same ↦
      absurd (free (subst (λ t. worker t ≡ hashing (f.buff + block_size * k) k) (sym same) e))
  | no other ↦ let apart : (i == j) ≡ false = ground arith in inr (j, lt, rw apart e)
]

-- A hash that is stored for another block changes nothing.
Claimed-store :
    (f : Input) (n : ℕ) (hashes : ℕ → ℕ) (worker : ℕ → Worker) (chash k v : ℕ)
    → chash ≢ k
    → Claimed f n hashes worker k
    → Claimed f n (update hashes chash v) worker k
Claimed-store f n hashes worker chash k v other (inl h) =
    let miss : (chash == k) ≡ false = ground arith in inl (rw miss h)
Claimed-store f n hashes worker chash k v other (inr busy) = inr busy

module _ (f : Input) (n : ℕ) (old : ℕ → ℕ) (s : System) (i : ℕ) (below : i < n)
    (inv : Inv f n old s) where
  exit-Inv :
      s.worker i ≡ ready
      → endptr f ≤ s.dataptr
      → Inv f n old (record s { worker = update s.worker i exited })
  exit-Inv at_head le = record {
    at = inv.at;
    bounded = inv.bounded;
    holds = λ j.
        Holds-mono f s (record s { worker = update s.worker i exited }) (update s.worker i exited j)
          (omega arith) (omega arith) (Holds-update f s s.worker i exited le inv.holds j);
    claimed = λ k lt. Claimed-update f n s.hashes s.worker i k exited (cc) (inv.claimed k lt);
    untouched = inv.untouched;
  }

  abbrev next_state : System
  next_state = record s {
    dataptr = s.dataptr + block_size;
    optr = s.optr + 1;
    worker = update s.worker i (hashing s.dataptr s.optr);
  }

  take-Inv : s.worker i ≡ ready → s.dataptr < endptr f → Inv f n old next_state
  unfolding hash_count
  take-Inv at_head lt = record {
    at = omega (arith, inv.at);
    bounded = ground (arith, inv.at, inv.bounded);
    holds =
        Holds-update f next_state s.worker i (hashing s.dataptr s.optr) (inv.at, omega arith)
          (λ j. Holds-mono f s next_state (s.worker j) (omega arith) (omega arith) (inv.holds j));
    claimed = λ k lt'. elim (ℕ_discrete k s.optr) [
      | yes same ↦
          let self : (i == i) ≡ true = ground arith in
          let own_block : hashing s.dataptr s.optr ≡ hashing (f.buff + block_size * k) k =
            ap₂ hashing (omega (arith, inv.at)) (sym same) in
          inr (i, below, rw self own_block)
      | no other ↦
          Claimed-update f n s.hashes s.worker i k (hashing s.dataptr s.optr) (cc)
            (inv.claimed k (omega arith))
    ];
    untouched = λ k le. inv.untouched k (omega arith);
  }

  store-Inv :
      (cptr chash : ℕ) → s.worker i ≡ hashing cptr chash → Inv f n old (store_hash f i cptr chash s)
  store-Inv cptr chash at_work = record {
    at = inv.at;
    bounded = inv.bounded;
    holds = λ j.
        Holds-mono f s (store_hash f i cptr chash s) (update s.worker i ready j) (omega arith)
          (omega arith) (Holds-update f s s.worker i ready tt inv.holds j);
    claimed = λ k lt. elim (ℕ_discrete chash k) [
      | yes same ↦
          let hit : (chash == k) ≡ true = ground arith in
          let place : cptr ≡ f.buff + block_size * k = omega (arith, own.0) in
          inl (rw hit (ap (λ p. calculate_and_store_hash f.memory p (endptr f)) place))
      | no other ↦
          Claimed-store f n s.hashes (update s.worker i ready) chash k _ other
            (Claimed-update f n s.hashes s.worker i k ready (λ e. other (cc)) (inv.claimed k lt))
    ];
    untouched = λ k le.
        let miss : (chash == k) ≡ false = ground (arith, own.1) in rw miss (inv.untouched k le);
  }
    where
      own : Holds f s (hashing cptr chash)
      own = subst (Holds f s) at_work (inv.holds i)

-- One step of a worker keeps the invariant.
hashit-Inv :
    (f : Input) (n : ℕ) (old : ℕ → ℕ) (s : System) (i : ℕ)
    → i < n
    → Inv f n old s
    → Inv f n old (hashit f i s)
unfolding hashit
hashit-Inv f n old s i below inv = go (s.worker i) refl
  where
    go : (w : Worker) → s.worker i ≡ w → Inv f n old (step_from f i w s)
    go ready e = elim (Bool-cases (leb (endptr f) s.dataptr)) [
      | inl ended ↦ rw ended (exit-Inv f n old s i below inv e (ground arith))
      | inr more ↦ rw more (take-Inv f n old s i below inv e (ground arith))
    ]
    go (hashing cptr chash) e = store-Inv f n old s i below inv cptr chash e
    go exited e = inv

pub Reach-Inv : {f : Input} {n : ℕ} {old : ℕ → ℕ} {s : System} → Reach f n old s → Inv f n old s
Reach-Inv {f} {n} {old} start = init-Inv f n old
Reach-Inv {f} {n} {old} (later {s} r i lt) = hashit-Inv f n old s i lt (Reach-Inv r)
