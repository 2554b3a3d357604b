-- ===== src/Pipe/Loops.antt =====
-- What the loops of `pipe_read` and `pipe_write` store.
use operating_systems_cs.Base.{
  ℕ, zero, suc, ◌+◌, ◌-◌, ◌≡◌, refl, ◌<◌, ◌≤◌, true, false, ltb, ◌==◌, List, [], ◌∷◌, ◌++◌, arith,
  if◌then◌else◌, ap, ap₂, ◌∙◌, Bool-cases, inl, inr,
}
use native.Mathlib.Decide.{dec_lt}
use operating_systems_cs.Threads.{update}
use operating_systems_cs.Pipe.{pipe_max_size, read_loop, shift_loop, write_loop}

-- `n` bytes of a memory from an address on.
pub bytes : (ℕ → ℕ) → ℕ → ℕ → List ℕ
bytes f from zero = []
bytes f from (suc n) = f from ∷ bytes f (from + 1) n

pub bytes-append :
    (f : ℕ → ℕ) (from m n : ℕ) → bytes f from (m + n) ≡ bytes f from m ++ bytes f (from + m) n
unfolding bytes
bytes-append f from zero n = ap₂ (bytes f) {x = from} (omega arith) (omega arith)
bytes-append f from (suc m) n =
    let e : suc m + n ≡ suc (m + n) = omega arith in
    rw e (
      ap (λ r. f from ∷ r)
        (bytes-append f (from + 1) m n
          ∙ ap (λ t. bytes f (from + 1) m ++ bytes f t n) (omega arith)))

pub bytes-eq :
    (f g : ℕ → ℕ) (from to n : ℕ)
    → ((k : ℕ) → k < n → f (from + k) ≡ g (to + k))
    → bytes f from n ≡ bytes g to n
unfolding bytes
bytes-eq f g from to zero h = refl
bytes-eq f g from to (suc n) h =
    ap₂ (λ x r. x ∷ r) (ap f (omega arith) ∙ h 0 (omega arith) ∙ ap g (omega arith))
      (bytes-eq f g (from + 1) (to + 1) n
        (λ k lt. ap f (omega arith) ∙ h (k + 1) (omega arith) ∙ ap g (omega arith)))

-- What the loops have stored.
pub read_loop_lem :
    (fuel limit start count : ℕ) (source : ℕ → ℕ) (i j : ℕ) (buff : ℕ → ℕ)
    → i ≡ start + j
    → j ≤ count
    → start + count ≤ limit
    → count - j < fuel
    → (out : ℕ → ℕ) × (read_loop fuel limit start count source i j buff
        ≡ (out, start + count, count))
      × ((k : ℕ)
          → out k
            ≡ (if ltb k j then buff k else if ltb k count then source (start + k) else buff k))
unfolding read_loop
read_loop_lem zero limit start count source i j buff at le lim enough = absurd (omega arith)
read_loop_lem (suc fuel) limit start count source i j buff at le lim enough =
    elim (dec_lt j count) [
      | yes more ↦
          let (out, run, has) =
            read_loop_lem fuel limit start count source (i + 1) (j + 1) (update buff j (source i))
              (omega arith) (omega arith) lim (omega arith) in
          let inside : ltb i limit ≡ true = ground arith in
          let going : (i - start == count) ≡ false = ground arith in
          (out, rw (inside, going) run, λ k. rw (at) (ground (arith, has k)))
      | no done ↦
          let at_end : (i - start == count) ≡ true = ground arith in
          let same : ◌≡◌ {A = (ℕ → ℕ) × ℕ × ℕ} (buff, i, j) (buff, start + count, count) =
            ap₂ (λ a b. (buff, a, b)) (omega arith) (omega arith) in
          (
            buff,
            elim (Bool-cases (ltb i limit)) [ inl y ↦ rw (y, at_end) same | inr n ↦ rw n same ],
            λ k. ground arith,
          )
    ]

pub write_loop_lem :
    (fuel start count : ℕ) (source : ℕ → ℕ) (i j : ℕ) (buff : ℕ → ℕ)
    → i ≡ start + j
    → j ≤ count
    → start + count ≤ pipe_max_size
    → count - j < fuel
    → (out : ℕ → ℕ) × (write_loop fuel count source i j buff ≡ (out, start + count, count))
      × ((k : ℕ)
          → out k ≡ (
              if ltb k i
              then buff k
              else if ltb k (start + count)
              then source (k - start)
              else buff k))
unfolding write_loop
write_loop_lem zero start count source i j buff at le lim enough = absurd (omega arith)
write_loop_lem (suc fuel) start count source i j buff at le lim enough = elim (dec_lt j count) [
  | yes more ↦
      let (out, run, has) =
        write_loop_lem fuel start count source (i + 1) (j + 1) (update buff i (source j))
          (omega arith) (omega arith) lim (omega arith) in
      let inside : ltb i pipe_max_size ≡ true = ground arith in
      let going : (j == count) ≡ false = ground arith in
      (out, rw (inside, going) run, λ k. ground (arith, has k))
  | no done ↦
      let at_end : (j == count) ≡ true = ground arith in
      let same : ◌≡◌ {A = (ℕ → ℕ) × ℕ × ℕ} (buff, i, j) (buff, start + count, count) =
        ap₂ (λ a b. (buff, a, b)) (omega arith) (omega arith) in
      (
        buff,
        elim (Bool-cases (ltb i pipe_max_size)) [ inl y ↦ rw (y, at_end) same | inr n ↦ rw n same ],
        λ k. ground arith,
      )
]

pub shift_loop_lem :
    (fuel limit j i : ℕ) (buff : ℕ → ℕ)
    → j ≤ i
    → i ≤ limit
    → limit - i < fuel
    → (k : ℕ)
    → shift_loop fuel limit j i buff k
      ≡ (if ltb k (i - j) then buff k else if ltb k (limit - j) then buff (k + j) else buff k)
unfolding shift_loop
shift_loop_lem zero limit j i buff le lim enough k = absurd (omega arith)
shift_loop_lem (suc fuel) limit j i buff le lim enough k = elim (dec_lt i limit) [
  | yes more ↦
      let ih =
        shift_loop_lem fuel limit j (i + 1) (update buff (i - j) (buff i)) (omega arith)
          (omega arith) (omega arith) k in
      ground (arith, ih)
  | no done ↦ ground arith
]
