-- ===== src/Threads.antt =====
-- Families indexed by thread number: update of one thread, and sums over the first `n` threads.
use operating_systems_cs.Base.{
  ℕ, zero, suc, ◌+◌, ◌≡◌, ◌≢◌, refl, ◌<◌, ◌≤◌, arith, ◌==◌, if◌then◌else◌, ltb,
}
use native.Mathlib.Decide.{ℕ_discrete}

abbrev pub update {ℓ} : {A : Type ℓ} → (ℕ → A) → ℕ → A → ℕ → A
update states i new j = if i == j then new else states j

-- The weights of the members 0 to `count - 1`.
unfoldable pub total {ℓ} : {A : Type ℓ} → (weight : A → ℕ) → (count : ℕ) → (states : ℕ → A) → ℕ
total weight zero states = 0
total weight (suc count) states = weight (states count) + total weight count states

module _ {ℓ} {A : Type ℓ} (weight : A → ℕ) where
  -- An update of any member, also of one that is not counted.
  update_any :
      (states : ℕ → A) (i : ℕ) (new : A) (count : ℕ)
      → total weight count (update states i new) + (if ltb i count then weight (states i) else 0)
        ≡ (if ltb i count then weight new else 0) + total weight count states
  unfolding total
  update_any states i new zero = ground arith
  update_any states i new (suc count) = ground (arith, update_any states i new count)

  pub total-update :
      (count : ℕ) (states : ℕ → A) (i : ℕ) (new : A)
      → i < count
      → total weight count (update states i new) + weight (states i)
        ≡ total weight count states + weight new
  total-update count states i new below = ground (arith, update_any states i new count)

  pub total-bound :
      ((state : A) → weight state ≤ 1)
      → (count : ℕ) (states : ℕ → A) → total weight count states ≤ count
  unfolding total
  total-bound small zero states = omega arith
  total-bound small (suc count) states =
      omega (arith, total-bound small count states, small (states count))

  pub total-eq_zero :
      (n : ℕ) (states : ℕ → A)
      → ((i : ℕ) → i < n → weight (states i) ≡ 0)
      → total weight n states ≡ 0
  unfolding total
  total-eq_zero zero states h = refl
  total-eq_zero (suc n) states h =
      omega (arith, total-eq_zero n states (λ i k. h i (omega arith)), h n (omega arith))

  pub le-total :
      (n : ℕ) (states : ℕ → A) (i : ℕ) → i < n → weight (states i) ≤ total weight n states
  unfolding total
  le-total zero states i h = elim h [ ]
  le-total (suc n) states i h = elim (ℕ_discrete i n) [
    | yes last ↦ rw last (omega arith)
    | no other ↦ omega (arith, le-total n states i (omega arith))
  ]

  pub two-le_total :
      (n : ℕ) (states : ℕ → A) (i j : ℕ)
      → i < n
      → j < n
      → i ≢ j
      → weight (states i) + weight (states j) ≤ total weight n states
  unfolding total
  two-le_total zero states i j h k ne = elim h [ ]
  two-le_total (suc n) states i j h k ne = elim (ℕ_discrete i n) [
    | yes last ↦ rw last (omega (arith, le-total n states j (omega arith)))
    | no other ↦ elim (ℕ_discrete j n) [
      | yes last' ↦ rw last' (omega (arith, le-total n states i (omega arith)))
      | no other' ↦ omega (arith, two-le_total n states i j (omega arith) (omega arith) ne)
    ]
  ]

pub total_mono {ℓ} :
    {A : Type ℓ} (v weight : A → ℕ)
    → ((a : A) → v a ≤ weight a)
    → (n : ℕ) (states : ℕ → A) → total v n states ≤ total weight n states
unfolding total
total_mono v weight h zero states = omega arith
total_mono v weight h (suc n) states = omega (arith, total_mono v weight h n states, h (states n))
