-- ===== src/MemoryMap/Protect/Correct.antt =====
-- The chain after `vm_area_mprotect`.
use mathlib.Core.Option
use native.Mathlib.Decide.{dec_lt}
use operating_systems_cs.Base.{
  ℕ, ◌+◌, ◌≡◌, refl, true, false, ◌<◌, ◌≤◌, ◌⊎◌, ◌&&◌, List, [], ◌∷◌, arith, if◌then◌else◌, length,
  inl, inr, ◌==◌, Bool-cases,
}
use operating_systems_cs.MemoryMap.Areas.{VmArea, Change}
use operating_systems_cs.MemoryMap.View.{
  within, flags_at, IsSorted, flags_at-below, IsSorted-weaken,
}
use operating_systems_cs.MemoryMap.Protect.{
  range_continues, range_found, protect_rest, protect_loop, merge_from,
}

-- Mapped addresses of the range get the flags, and nothing else changes.
pub record Protected (lo addr stop prot : ℕ) (old : List VmArea) (c : Change) : Type 0 where
  pub sorted : IsSorted lo c.areas
  pub flags :
      (x : ℕ)
      → flags_at c.areas x
        ≡ (if within addr stop x then Option.map (λ _. prot) (flags_at old x) else flags_at old x)
  pub count : length c.areas + c.freed ≡ length old + c.allocated

pub range_continues-inv :
    (stop prev_end : ℕ) (c : VmArea) (r : List VmArea)
    → range_continues stop prev_end (c ∷ r) ≡ true
    → (c.vm_start ≡ prev_end) × (stop ≤ c.vm_end ⊎ (range_continues stop c.vm_end r ≡ true))
unfolding range_continues
range_continues-inv stop prev_end c [] e = ground arith
range_continues-inv stop prev_end c (d ∷ r) e = ground arith

module _ (addr stop prot : ℕ) (c : VmArea) (r : List VmArea) where
  rest_last :
      IsSorted c.vm_start (c ∷ r)
      → addr ≤ c.vm_start
      → c.vm_start < stop
      → stop ≤ c.vm_end
      → Protected c.vm_start addr stop prot (c ∷ r) (protect_rest stop prot (c ∷ r))
  unfolding protect_rest flags_at
  rest_last s a h k = record {
    sorted = ground arith;
    flags = λ x. ground (arith, flags_at-below c.vm_end x r);
    count = ground arith;
  }

  rest_more :
      IsSorted c.vm_start (c ∷ r)
      → addr ≤ c.vm_start
      → c.vm_end < stop
      → Protected c.vm_end addr stop prot r (protect_rest stop prot r)
      → Protected c.vm_start addr stop prot (c ∷ r) (protect_rest stop prot (c ∷ r))
  unfolding protect_rest flags_at
  rest_more s a h ih = record {
    sorted = ground (arith, ih.sorted);
    flags = λ x. ground (arith, ih.flags x);
    count = ground (arith, ih.count);
  }

Protected-weaken :
    {lo lo' addr stop prot : ℕ} {l : List VmArea} {c : Change}
    → lo' ≤ lo
    → Protected lo addr stop prot l c
    → Protected lo' addr stop prot l c
Protected-weaken {lo} {lo'} {c} h p = record {
  sorted = IsSorted-weaken lo lo' c.areas h p.sorted;
  flags = p.flags;
  count = p.count;
}

protect_rest-Protected :
    (addr lo stop prot : ℕ) (l : List VmArea)
    → IsSorted lo l
    → addr ≤ lo
    → lo < stop
    → range_continues stop lo l ≡ true
    → Protected lo addr stop prot l (protect_rest stop prot l)
protect_rest-Protected addr lo stop prot [] s a h e =
    unfold protect_rest flags_at in record { sorted = tt; flags = λ x. ground arith; count = refl }
protect_rest-Protected addr lo stop prot (c ∷ r) s a h e =
    let (start, next) = range_continues-inv stop lo c r e in
    Protected-weaken s.0 (elim (dec_lt c.vm_end stop) [
      | yes more ↦
          rest_more addr stop prot c r (ground arith) (omega arith) more
            (protect_rest-Protected addr c.vm_end stop prot r s.2 (omega arith) more (ground arith))
      | no last ↦
          rest_last addr stop prot c r (ground arith) (omega arith) (omega arith) (omega arith)
    ])

abbrev pub StartsBy : ℕ → List VmArea → Type 0
StartsBy addr [] = Unit {0}
StartsBy addr (c ∷ r) = c.vm_start ≤ addr

pub range_found-inv :
    (addr stop : ℕ) (c : VmArea) (r : List VmArea)
    → c.vm_start ≤ addr
    → range_found addr stop (c ∷ r) ≡ true
    → ((addr < c.vm_end) × (stop ≤ c.vm_end ⊎ (range_continues stop c.vm_end r ≡ true)))
      ⊎ ((c.vm_end ≤ addr) × (range_found addr stop r ≡ true) × StartsBy addr r)
unfolding range_found
range_found-inv addr stop c [] h e = ground arith
range_found-inv addr stop c (d ∷ r) h e = ground arith

module _ (lo addr stop prot : ℕ) (c : VmArea) (r : List VmArea) (s : IsSorted lo (c ∷ r))
    (ordered : addr < stop) where
  loop_later :
      c.vm_end ≤ addr
      → Protected c.vm_end addr stop prot r (protect_loop addr stop prot r)
      → Protected lo addr stop prot (c ∷ r) (protect_loop addr stop prot (c ∷ r))
  unfolding protect_loop flags_at
  loop_later h ih = record {
    sorted = ground (arith, ih.sorted);
    flags = λ x. ground (arith, ih.flags x);
    count = ground (arith, ih.count);
  }

  loop_inside :
      c.vm_start ≤ addr
      → addr < c.vm_end
      → stop ≤ c.vm_end
      → Protected lo addr stop prot (c ∷ r) (protect_loop addr stop prot (c ∷ r))
  unfolding protect_loop flags_at
  loop_inside a b k = record {
    sorted = ground arith;
    flags = λ x. ground (arith, flags_at-below c.vm_end x r);
    count = ground arith;
  }

  loop_across :
      c.vm_start ≤ addr
      → addr < c.vm_end
      → c.vm_end < stop
      → Protected c.vm_end addr stop prot r (protect_rest stop prot r)
      → Protected lo addr stop prot (c ∷ r) (protect_loop addr stop prot (c ∷ r))
  unfolding protect_loop flags_at
  loop_across a b k rest = record {
    sorted = ground (arith, rest.sorted);
    flags = λ x. ground (arith, rest.flags x);
    count = ground (arith, rest.count);
  }

pub protect_loop-Protected :
    (lo addr stop prot : ℕ) (l : List VmArea)
    → IsSorted lo l
    → addr < stop
    → StartsBy addr l
    → range_found addr stop l ≡ true
    → Protected lo addr stop prot l (protect_loop addr stop prot l)
protect_loop-Protected lo addr stop prot [] s h b e =
    unfold protect_loop flags_at in record { sorted = tt; flags = λ x. ground arith; count = refl }
protect_loop-Protected lo addr stop prot (c ∷ r) s h b e =
    elim (range_found-inv addr stop c r b e) [
      | inr (before, e', b') ↦
          loop_later lo addr stop prot c r s h before
            (protect_loop-Protected c.vm_end addr stop prot r s.2 h b' e')
      | inl (here, next) ↦ elim (dec_lt c.vm_end stop) [
        | yes more ↦
            loop_across lo addr stop prot c r s h b here more (
              protect_rest-Protected addr c.vm_end stop prot r s.2 (omega arith) more
                (ground arith))
        | no last ↦ loop_inside lo addr stop prot c r s h b here (omega arith)
      ]
    ]

-- Merging changes no flags, and leaves no two touching areas with equal flags.
abbrev pub IsMerged : List VmArea → Type 0
IsMerged [] = Unit {0}
IsMerged (c ∷ []) = Unit {0}
IsMerged (c ∷ d ∷ r) =
    ((c.vm_end == d.vm_start && c.access_flags == d.access_flags) ≡ false) × IsMerged (d ∷ r)

pub record Merged (lo : ℕ) (old : List VmArea) (c : Change) : Type 0 where
  pub sorted : IsSorted lo c.areas
  pub flags : (x : ℕ) → flags_at c.areas x ≡ flags_at old x
  pub count : length c.areas + c.freed ≡ length old
  pub allocated : c.allocated ≡ 0

pub merge_from-Merged :
    (lo : ℕ) (p : VmArea) (l : List VmArea)
    → IsSorted lo (p ∷ l)
    → Merged lo (p ∷ l) (merge_from p l)
unfolding merge_from flags_at
merge_from-Merged lo p [] s = record {
  sorted = ground arith;
  flags = λ x. refl;
  count = ground arith;
  allocated = refl;
}
merge_from-Merged lo p (c ∷ r) s =
    elim (Bool-cases (p.vm_end == c.vm_start && p.access_flags == c.access_flags)) [
      | inl join ↦
          let ih = merge_from-Merged lo (record p { vm_end = c.vm_end }) r (ground arith) in
          rw (join, merge_from)
            (record {
              sorted = ih.sorted;
              flags = λ x. ground (arith, ih.flags x);
              count = ground (arith, ih.count);
              allocated = ground (arith, ih.allocated);
            })
      | inr apart ↦
          let ih = merge_from-Merged p.vm_end c r s.2 in
          rw (apart, merge_from)
            (record {
              sorted = ground (arith, ih.sorted);
              flags = λ x. ground (arith, ih.flags x);
              count = ground (arith, ih.count);
              allocated = ground (arith, ih.allocated);
            })
    ]

abbrev HeadedBy : VmArea → List VmArea → Type 0
HeadedBy p [] = ⊥
HeadedBy p (c ∷ r) = (c.vm_start ≡ p.vm_start) × (c.access_flags ≡ p.access_flags)

merge_from-HeadedBy : (p : VmArea) (l : List VmArea) → HeadedBy p (merge_from p l).areas
unfolding merge_from
merge_from-HeadedBy p [] = (refl, refl)
merge_from-HeadedBy p (c ∷ r) =
    elim (Bool-cases (p.vm_end == c.vm_start && p.access_flags == c.access_flags)) [
      | inl join ↦ rw (join, merge_from) (merge_from-HeadedBy (record p { vm_end = c.vm_end }) r)
      | inr apart ↦ rw (apart, merge_from) (refl, refl)
    ]

IsMerged-cons :
    (p c : VmArea) (l : List VmArea)
    → (p.vm_end == c.vm_start && p.access_flags == c.access_flags) ≡ false
    → HeadedBy c l
    → IsMerged l
    → IsMerged (p ∷ l)
IsMerged-cons p c [] apart h m = tt
IsMerged-cons p c (d ∷ r) apart h m = (rw (h.0, h.1) apart, m)

pub merge_from-IsMerged : (p : VmArea) (l : List VmArea) → IsMerged (merge_from p l).areas
unfolding merge_from
merge_from-IsMerged p [] = tt
merge_from-IsMerged p (c ∷ r) =
    elim (Bool-cases (p.vm_end == c.vm_start && p.access_flags == c.access_flags)) [
      | inl join ↦ rw (join, merge_from) (merge_from-IsMerged (record p { vm_end = c.vm_end }) r)
      | inr apart ↦
          rw (apart, merge_from)
            (IsMerged-cons p c (merge_from c r).areas apart (merge_from-HeadedBy c r)
              (merge_from-IsMerged c r))
    ]
