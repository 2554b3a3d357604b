-- ===== src/Inodes/Names.antt =====
-- The names in the inode table.
use operating_systems_cs.Base.{
  ℕ, zero, suc, ◌+◌, ◌≡◌, ◌≢◌, refl, ◌<◌, ◌≤◌, true, false, ◌==◌, none, some, List, [], ◌∷◌,
  if◌then◌else◌, arith, Bool-cases, inl, inr, ap, ap₂, sym, ◌∙◌, subst,
}
use native.Mathlib.Decide.{ℕ_discrete}
use operating_systems_cs.Threads.{update}
use operating_systems_cs.Inodes.{
  Slot, SuperBlock, num_inodes, same_name, has_name, lookup_loop, flat_lookup_inode, free_loop,
  get_free_inode, new_slot, with_slot,
}

pub same_name_refl : (xs : List ℕ) → same_name xs xs ≡ true
unfolding same_name
same_name_refl [] = refl
same_name_refl (x ∷ xs) = let t : (x == x) ≡ true = ground arith in rw t (same_name_refl xs)

pub same_name-eq : (xs ys : List ℕ) → same_name xs ys ≡ true → xs ≡ ys
unfolding same_name
same_name-eq [] [] e = refl
same_name-eq [] (y ∷ ys) e = absurd (ground arith)
same_name-eq (x ∷ xs) [] e = absurd (ground arith)
same_name-eq (x ∷ xs) (y ∷ ys) e = elim (ℕ_discrete x y) [
  | yes same ↦
      let t : (x == y) ≡ true = ground arith in
      ap₂ (λ a b. a ∷ b) same (same_name-eq xs ys (rw t at e))
  | no other ↦
      absurd (let t : (x == y) ≡ false = ground arith in let z = (rw t at e) in ground arith)
]

-- An inode that is free.
pub free_loop_lem :
    (rounds i : ℕ) (sb : SuperBlock) (j : ℕ)
    → free_loop rounds i sb ≡ some j
    → (i ≤ j) × (j < i + rounds) × ((sb.inode j).is_valid ≡ 0)
unfolding free_loop
free_loop_lem zero i sb j e = absurd (ground arith)
free_loop_lem (suc rounds) i sb j e = elim (ℕ_discrete (sb.inode i).is_valid 0) [
  | yes free ↦
      let t : ((sb.inode i).is_valid == 0) ≡ true = ground arith in
      let same : some i ≡ some j = rw t at e in
      let at : i ≡ j = ground arith in
      (omega (arith, at), omega (arith, at), subst (λ k. (sb.inode k).is_valid ≡ 0) at free)
  | no used ↦
      let t : ((sb.inode i).is_valid == 0) ≡ false = ground arith in
      let (low, high, free) = free_loop_lem rounds (i + 1) sb j (rw t at e) in
      (omega (arith, low), omega (arith, high), free)
]

-- Two tables that have the name in the same places.
pub lookup_loop-same :
    (rounds i : ℕ) (sb sb' : SuperBlock) (name : List ℕ)
    → ((k : ℕ) → has_name (sb.inode k) name ≡ has_name (sb'.inode k) name)
    → lookup_loop rounds i sb name ≡ lookup_loop rounds i sb' name
unfolding lookup_loop
lookup_loop-same zero i sb sb' name same = refl
lookup_loop-same (suc rounds) i sb sb' name same =
    ap₂ (λ b rest. if b then some i else rest) (same i)
      (lookup_loop-same rounds (i + 1) sb sb' name same)

-- A name that was nowhere is found where it is put.
pub lookup_loop-put :
    (rounds i : ℕ) (sb : SuperBlock) (name : List ℕ) (j : ℕ) (n : Slot) (files : ℕ)
    → lookup_loop rounds i sb name ≡ none
    → i ≤ j
    → j < i + rounds
    → has_name n name ≡ true
    → lookup_loop rounds i (record { num_files = files; inode = update sb.inode j n }) name ≡ some j
unfolding lookup_loop
lookup_loop-put zero i sb name j n files e low high named = absurd (omega arith)
lookup_loop-put (suc rounds) i sb name j n files e low high named =
    elim (Bool-cases (has_name (sb.inode i) name)) [
      | inl hit ↦ absurd (let z = (rw hit at e) in ground arith)
      | inr miss ↦ elim (ℕ_discrete j i) [
        | yes here ↦
            let t : (j == i) ≡ true = ground arith in
            let h : has_name (update sb.inode j n i) name ≡ true = rw t named in
            ap
              (λ b.
                if b
                then some i
                else lookup_loop rounds (i + 1)
                    (record { num_files = files; inode = update sb.inode j n }) name)
              h
            ∙ ap some (sym here)
        | no later ↦
            let t : (j == i) ≡ false = ground arith in
            let h : has_name (update sb.inode j n i) name ≡ false = rw t miss in
            ap
              (λ b.
                if b
                then some i
                else lookup_loop rounds (i + 1)
                    (record { num_files = files; inode = update sb.inode j n }) name)
              h
            ∙ lookup_loop-put rounds (i + 1) sb name j n files (rw miss at e) (omega arith)
                (omega arith) named
      ]
    ]

has_name_other :
    (n : Slot) (name other : List ℕ) (mode : ℕ)
    → other ≢ name
    → n.is_valid ≡ 0
    → has_name n other ≡ has_name (new_slot n name mode) other
has_name_other n name other mode ne free =
    let t : (n.is_valid == 0) ≡ true = ground arith in
    elim (Bool-cases (same_name name other)) [
      | inl same ↦ absurd (ne (sym (same_name-eq name other same)))
      | inr differs ↦ rw (t, differs) refl
    ]

module _ (sb : SuperBlock) (name : List ℕ) (mode j : ℕ) (absent : flat_lookup_inode sb name ≡ none)
    (found : get_free_inode sb ≡ some j) where
  pub lookup_new :
      flat_lookup_inode (with_slot sb j (new_slot (sb.inode j) name mode)) name ≡ some j
  lookup_new =
      let (low, high, free) = free_loop_lem num_inodes 0 sb j found in
      lookup_loop-put num_inodes 0 sb name j (new_slot (sb.inode j) name mode) _ absent
        (omega arith) (omega arith) (same_name_refl name)

  pub lookup_other :
      (other : List ℕ)
      → other ≢ name
      → flat_lookup_inode (with_slot sb j (new_slot (sb.inode j) name mode)) other
        ≡ flat_lookup_inode sb other
  lookup_other other ne =
      let (low, high, free) = free_loop_lem num_inodes 0 sb j found in
      lookup_loop-same num_inodes 0 _ sb other (λ k. elim (ℕ_discrete j k) [
        | yes here ↦
            let t : (j == k) ≡ true = ground arith in
            let same = has_name_other (sb.inode j) name other mode ne free in
            rw t (sym same ∙ ap (λ x. has_name (sb.inode x) other) here)
        | no away ↦ let t : (j == k) ≡ false = ground arith in rw t refl
      ])
