-- ===== src/BlockHash/Tests.antt =====
-- A file of 70 bytes and two workers.
use operating_systems_cs.Base.{ℕ, zero, suc, ◌≡◌, ◌≢◌, refl, ◌<◌, ◌+◌, arith}
use operating_systems_cs.BlockHash.{
  Input, System, init, hash_count, exited, Reach, start, later, hashit,
}
use operating_systems_cs.BlockHash.Invariant.{block_hash}
use operating_systems_cs.BlockHash.Complete.{hashit_complete, remaining, remaining-hashit}

abbrev file : Input
file = record { memory = λ a. a; buff = 4096; size = 70 }

abbrev empty_array : ℕ → ℕ
empty_array k = 7

-- Worker 0 takes the first block, worker 1 takes the second and stores it, then worker 0 stores.
abbrev two_taken : System
two_taken = hashit file 1 (hashit file 0 (init file empty_array))

abbrev finished : System
finished = hashit file 1 (hashit file 0 (hashit file 0 (hashit file 1 two_taken)))

two_taken-Reach : Reach file 2 empty_array two_taken
two_taken-Reach = later (later start 0 (omega arith)) 1 (omega arith)

finished-Reach : Reach file 2 empty_array finished
finished-Reach =
    later (later (later (later two_taken-Reach 1 (omega arith)) 0 (omega arith)) 0 (omega arith)) 1
      (omega arith)

all_exited : (i : ℕ) → i < 2 → finished.worker i ≡ exited
unfolding hashit
all_exited zero h = refl
all_exited (suc zero) h = refl
all_exited (suc (suc i)) h = absurd (omega arith)

hashit_complete_example : finished.hashes 1 ≡ block_hash file 1
unfolding hash_count
hashit_complete_example = hashit_complete (omega arith) finished-Reach all_exited 1

still_hashing : two_taken.worker 0 ≢ exited
unfolding hashit
still_hashing e = cc

remaining-hashit_example :
    remaining file 2 (hashit file 0 two_taken) + 1 ≡ remaining file 2 two_taken
remaining-hashit_example = remaining-hashit 0 two_taken-Reach (omega arith) still_hashing
