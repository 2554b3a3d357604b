-- ===== src/InputManager/Slots.antt =====
-- The loop over the slots.
use operating_systems_cs.Base.{
  ℕ, zero, suc, ◌+◌, ◌≡◌, ◌<◌, ◌≤◌, Bool, true, false, arith, inl, inr, Bool-cases, subst, ◌∙◌,
  refl, some, none, if◌then◌else◌,
}
use native.Mathlib.Decide.{ℕ_discrete}
use operating_systems_cs.InputManager.{System, Operation, flag_loop, conflicts_at}
use operating_systems_cs.InputManager.Order.{is_busy}

abbrev pub conflicts : System → Operation → ℕ → Bool
conflicts s op j = conflicts_at s op (s.input.being_processed j)

pub flag_loop-clear :
    (rounds i : ℕ) (s : System) (op : Operation)
    → flag_loop rounds i s op ≡ false
    → (j : ℕ) → i ≤ j
    → j < i + rounds
    → conflicts s op j ≡ false
unfolding flag_loop
flag_loop-clear zero i s op e j le lt = absurd (omega arith)
flag_loop-clear (suc rounds) i s op e j le lt = elim (Bool-cases (conflicts s op i)) [
  | inl hit ↦ absurd (let z = (rw hit at e) in ground arith)
  | inr free ↦ elim (ℕ_discrete i j) [
    | yes here ↦ subst (λ k. conflicts s op k ≡ false) here free
    | no later ↦ flag_loop-clear rounds (i + 1) s op (rw free at e) j (omega arith) (omega arith)
  ]
]

pub flag_loop-set :
    (rounds i : ℕ) (s : System) (op : Operation)
    → flag_loop rounds i s op ≡ true
    → (j : ℕ) × (j < i + rounds) × (conflicts s op j ≡ true)
unfolding flag_loop
flag_loop-set zero i s op e = absurd (ground arith)
flag_loop-set (suc rounds) i s op e = elim (Bool-cases (conflicts s op i)) [
  | inl hit ↦ (i, omega arith, hit)
  | inr free ↦
      let (j, lt, hit) = flag_loop-set rounds (i + 1) s op (rw free at e) in (j, omega arith, hit)
]

-- The slot of a thread that is not busy does not conflict.
pub conflict-busy :
    (s : System) (op : Operation) (j : ℕ)
    → s.input.being_processed j ≡ (if is_busy (s.thread j) then some j else none)
    → conflicts s op j ≡ true
    → (is_busy (s.thread j) ≡ true) × ((s.operation j).id < op.id)
conflict-busy s op j slot hit = elim (Bool-cases (is_busy (s.thread j))) [
  | inl busy ↦
      let at : s.input.being_processed j ≡ some j = slot ∙ rw busy refl in
      let hit' : conflicts_at s op (some j) ≡ true =
        subst (λ o. conflicts_at s op o ≡ true) at hit in
      (busy, ground arith)
  | inr idle ↦ absurd (
      let at : s.input.being_processed j ≡ none = slot ∙ rw idle refl in
      let hit' : conflicts_at s op none ≡ true = subst (λ o. conflicts_at s op o ≡ true) at hit in
      ground arith)
]
