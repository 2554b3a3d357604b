-- ===== src/InputManager/Invariant.antt =====
-- What the threads keep while they read the file.
use operating_systems_cs.Base.{
  ℕ, ◌+◌, ◌≡◌, ◌<◌, ◌≤◌, true, false, Option, none, some, arith, if◌then◌else◌,
}
use mathlib.Core.Path.{fun_ext}
use native.Mathlib.Decide.{ℕ_discrete}
use operating_systems_cs.Threads.{update}
use operating_systems_cs.BlockHash.{load_bytes}
use operating_systems_cs.InputManager.{
  Operation, System, reading, waiting, copy_op, next_curr, with_data,
}
use operating_systems_cs.InputManager.Order.{is_busy, IsOrdered, IsBlocked}

abbrev blank : Operation
blank = record { id = 0; key = 0; op_type = 0; datalen = 0; content = 0 }

-- Where the record behind the one at `p` begins.
abbrev pub next_at : (memory : ℕ → ℕ) → (p : ℕ) → Option ℕ
next_at memory p = next_curr (copy_op memory blank p) p

-- The positions that follow each other from the first one on.
pub data Records (memory : ℕ → ℕ) (mapped : ℕ) : ℕ → Type 0 where
  at_start : Records memory mapped mapped
  behind : {p q : ℕ} → Records memory mapped p → next_at memory p ≡ some q → Records memory mapped q

-- The ids of the records that end inside the file increase.
abbrev pub IsNumbered : (memory : ℕ → ℕ) → (mapped size : ℕ) → Type 0
IsNumbered memory mapped size =
    (p q r : ℕ)
    → Records memory mapped p
    → next_at memory p ≡ some q
    → next_at memory q ≡ some r
    → r ≤ mapped + size
    → load_bytes 8 memory p < load_bytes 8 memory q

pub record Inv (memory : ℕ → ℕ) (mapped size n : ℕ) (s : System) : Type 0 where
  pub mapped_at : s.input.mapped ≡ mapped
  pub of_size : s.input.size ≡ size
  pub at_record : Records memory mapped s.input.curr
  pub slots : (t : ℕ) → s.input.being_processed t ≡ (if is_busy (s.thread t) then some t else none)
  pub older :
      (t q : ℕ)
      → is_busy (s.thread t) ≡ true
      → next_at memory s.input.curr ≡ some q
      → q ≤ mapped + size
      → (s.operation t).id < load_bytes 8 memory s.input.curr
  pub ordered : IsOrdered s.thread s.operation
  pub blocked :
      (t : ℕ) → s.thread t ≡ waiting → s.woken t ≡ false → IsBlocked s.thread s.operation t
  pub above : (t : ℕ) → n ≤ t → s.thread t ≡ reading

pub next_at-le : (memory : ℕ → ℕ) (p q : ℕ) → next_at memory p ≡ some q → p < q
next_at-le memory p q e = ground arith

pub with_data-id : (op : Operation) (p : ℕ) → (with_data op p).id ≡ op.id
with_data-id op p = ground arith

pub update_self {ℓ} : {A : Type ℓ} (f : ℕ → A) (t : ℕ) → update f t (f t) ≡ f
update_self f t =
    fun_ext
      (λ u. elim (ℕ_discrete t u) [ yes same ↦ rw same (ground arith) | no other ↦ ground arith ])

pub update-update {ℓ} :
    {A : Type ℓ} (f : ℕ → A) (t : ℕ) (a b : A) → update (update f t a) t b ≡ update f t b
update-update f t a b =
    fun_ext (λ u. elim (ℕ_discrete t u) [ yes same ↦ ground arith | no other ↦ ground arith ])
