-- ===== src/BlockHash.antt =====
-- The threaded block hash of Assignment4/ass4: `calculate_and_store_hash` and the set-up of `main` in
-- part-1/main.c, and the worker `hashit` of 170635/thread_func.c. What a worker does between
-- `pthread_mutex_lock` and `pthread_mutex_unlock` is one step, and so is the work outside the lock.
pub mod Invariant
pub mod Complete
mod Tests
use operating_systems_cs.Base.{
  ℕ, zero, suc, ◌+◌, ◌-◌, ◌*◌, ◌/◌, ◌%◌, ◌^◌, ◌<◌, ltb, leb, ◌==◌, if◌then◌else◌,
}
use operating_systems_cs.Threads.{update}

abbrev pub block_size : ℕ
block_size = 64

-- The little-endian number in the `n` bytes from `p` on.
unfoldable pub load_bytes : ℕ → (ℕ → ℕ) → ℕ → ℕ
load_bytes zero memory p = 0
load_bytes (suc n) memory p = memory p + 256 * load_bytes n memory (p + 1)

-- `while(count--)`, which ends early where fewer than eight bytes are left.
pub hash_loop : (count hashval p endptr : ℕ) (memory : ℕ → ℕ) → ℕ
hash_loop zero hashval p endptr memory = hashval
hash_loop (suc count) hashval p endptr memory =
    let rest = hash_loop count ((hashval + load_bytes 8 memory p) % 2 ^ 64) (p + 8) endptr memory in
    if ltb (endptr - p) 8 then hashval else rest

unfoldable pub calculate_and_store_hash : (memory : ℕ → ℕ) → (p endptr : ℕ) → ℕ
unfolding hash_loop load_bytes
calculate_and_store_hash memory p endptr = hash_loop (block_size / 8) 0 p endptr memory

-- The mapped file: `size` bytes from `buff` on.
pub record Input : Type 0 where
  pub memory : ℕ → ℕ
  pub buff : ℕ
  pub size : ℕ

abbrev pub endptr : Input → ℕ
endptr f = f.buff + f.size

pub hash_count : Input → ℕ
hash_count f = f.size / block_size + (if f.size % block_size == 0 then 0 else 1)

-- Where a worker stands: at the head of its loop, behind the lock with `cptr` and with the index of
-- `chash`, or at its end.
pub data Worker : Type 0 where
  ready : Worker
  hashing : (cptr chash : ℕ) → Worker
  exited : Worker

-- `dataptr`, the index of `optr` in `hashes`, the array, and the workers.
pub record System : Type 0 where
  pub dataptr : ℕ
  pub optr : ℕ
  pub hashes : ℕ → ℕ
  pub worker : ℕ → Worker

-- The start that `main` makes; `malloc` leaves any numbers in the array.
abbrev pub init : Input → (hashes : ℕ → ℕ) → System
init f hashes = record { dataptr = f.buff; optr = 0; hashes = hashes; worker = λ _. ready }

-- The part inside the lock.
abbrev pub take_block : Input → ℕ → System → System
take_block f i s =
    if leb (endptr f) s.dataptr then record s { worker = update s.worker i exited } else record s {
      dataptr = s.dataptr + block_size;
      optr = s.optr + 1;
      worker = update s.worker i (hashing s.dataptr s.optr);
    }

abbrev pub store_hash : Input → ℕ → (cptr chash : ℕ) → System → System
store_hash f i cptr chash s = record s {
  hashes = update s.hashes chash (calculate_and_store_hash f.memory cptr (endptr f));
  worker = update s.worker i ready;
}

abbrev pub step_from : Input → ℕ → Worker → System → System
step_from f i ready s = take_block f i s
step_from f i (hashing cptr chash) s = store_hash f i cptr chash s
step_from f i exited s = s

-- One step of worker `i`.
unfoldable pub hashit : Input → ℕ → System → System
hashit f i s = step_from f i (s.worker i) s

-- The workers 0 to `n - 1`, in any order.
pub data Reach (f : Input) (n : ℕ) (hashes : ℕ → ℕ) : System → Type 0 where
  start : Reach f n hashes (init f hashes)
  later : {s : System} → Reach f n hashes s → (i : ℕ) → i < n → Reach f n hashes (hashit f i s)
