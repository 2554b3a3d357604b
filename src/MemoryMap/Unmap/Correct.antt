-- ===== src/MemoryMap/Unmap/Correct.antt =====
-- The chain after `vm_area_unmap`.
use operating_systems_cs.Base.{
  ℕ, ◌+◌, ◌≡◌, refl, ◌<◌, ◌≤◌, none, some, List, [], ◌∷◌, arith, if◌then◌else◌, length,
  Option-cases, inl, inr,
}
use native.Mathlib.Decide.{dec_le, dec_lt}
use operating_systems_cs.MemoryMap.Areas.{VmArea, Change, behind}
use operating_systems_cs.MemoryMap.View.{
  within, flags_at, IsSorted, flags_at-below, IsSorted-weaken,
}
use operating_systems_cs.MemoryMap.Unmap.{unmap_rest, unmap_loop}

pub record Cleared (lo addr stop : ℕ) (old : List VmArea) (c : Change) : Type 0 where
  pub sorted : IsSorted lo c.areas
  pub flags : (x : ℕ) → flags_at c.areas x ≡ (if within addr stop x then none else flags_at old x)
  pub count : length c.areas + c.freed ≡ length old + c.allocated

unmap_rest-Cleared :
    (lo addr stop : ℕ) (l : List VmArea)
    → IsSorted lo l
    → addr ≤ lo
    → lo ≤ stop
    → Cleared lo addr stop l (unmap_rest stop l)
unfolding unmap_rest flags_at
unmap_rest-Cleared lo addr stop [] s h k = record {
  sorted = tt;
  flags = λ x. ground arith;
  count = refl;
}
unmap_rest-Cleared lo addr stop (c ∷ r) s h k = elim (dec_lt c.vm_end stop) [
  | yes more ↦
      let ih = unmap_rest-Cleared c.vm_end addr stop r s.2 (omega arith) (omega arith) in
      record {
        sorted = ground (arith, ih.sorted, IsSorted-weaken c.vm_end lo (unmap_rest stop r).areas);
        flags = λ x. ground (arith, ih.flags x);
        count = ground (arith, ih.count);
      }
  | no last ↦ record {
    sorted = ground (arith, IsSorted-weaken c.vm_end lo r);
    flags = λ x. ground (arith, flags_at-below c.vm_end x r);
    count = ground arith;
  }
]

pub unmap_loop-Cleared :
    (cnt lo addr stop : ℕ) (l : List VmArea) (c : Change)
    → IsSorted lo l
    → addr < stop
    → unmap_loop cnt addr stop l ≡ some c
    → Cleared lo addr stop l c
unfolding unmap_loop flags_at
unmap_loop-Cleared cnt lo addr stop [] c s h e = record {
  sorted = ground arith;
  flags = λ x. ground arith;
  count = ground arith;
}
unmap_loop-Cleared cnt lo addr stop (a ∷ r) c s h e = elim (dec_le a.vm_end addr) [
  | yes before ↦ elim (Option-cases (unmap_loop cnt addr stop r)) [
    | inl refused ↦ absurd (ground arith)
    | inr (c', e') ↦
        let ih = unmap_loop-Cleared cnt a.vm_end addr stop r c' s.2 h e' in
        let e'' : c ≡ behind a c' = ground arith in
        rw e'' (record {
          sorted = ground (arith, ih.sorted);
          flags = λ x. ground (arith, ih.flags x);
          count = ground (arith, ih.count);
        })
  ]
  | no inside ↦ elim (dec_le a.vm_end stop) [
    | yes more ↦
        let rest = unmap_rest-Cleared a.vm_end addr stop r s.2 (omega arith) (omega arith) in
        record {
          sorted = ground (
            arith,
            rest.sorted,
            IsSorted-weaken a.vm_end lo (unmap_rest stop r).areas,
            IsSorted-weaken a.vm_end addr (unmap_rest stop r).areas,
          );
          flags = λ x. ground (arith, rest.flags x);
          count = ground (arith, rest.count);
        }
    | no last ↦ record {
      sorted = ground arith;
      flags = λ x. ground (arith, flags_at-below a.vm_end x r);
      count = ground arith;
    }
  ]
]
