-- ===== src/PageFault/Allowed.antt =====
-- The checks of the page fault against what the areas say of the address.
use operating_systems_cs.Base.{
  ℕ, ◌+◌, ◌/◌, ◌%◌, ◌≡◌, refl, ◌<◌, ◌≤◌, Bool, true, false, not, ◌&&◌, ltb, leb, ◌==◌, Option, none,
  some, List, [], ◌∷◌, arith, Bool-cases, inl, inr, ap, sym,
}
use native.Mathlib.Decide.{dec_lt}
use operating_systems_cs.MemoryMap.Areas.{VmArea, area_start, area_end}
use operating_systems_cs.MemoryMap.View.{within, flags_at, IsSorted, flags_at-below}
use operating_systems_cs.PageFault.{in_gap, write_denied, passes}

abbrev pub is_some : Option ℕ → Bool
is_some none = false
is_some (some f) = true

abbrev pub may_not_write : Option ℕ → Bool
may_not_write none = false
may_not_write (some f) = not (f / 2 % 2 == 1)

-- The addresses at which a fault is served: they lie in an area, which allows a write if the access is one.
abbrev pub allowed : List VmArea → (addr error_code : ℕ) → Bool
allowed areas addr error_code =
    leb area_start addr
    && ltb addr area_end
    && not (error_code % 2 == 1)
    && is_some (flags_at areas addr)
    && not ((error_code / 2 % 2 == 1) && may_not_write (flags_at areas addr))

in_gap_below : (lo addr : ℕ) (l : List VmArea) → IsSorted lo l → addr < lo → in_gap l addr ≡ false
unfolding in_gap
in_gap_below lo addr [] s lt = refl
in_gap_below lo addr (c ∷ []) s lt = ground arith
in_gap_below lo addr (c ∷ n ∷ r) s lt =
    let (a, b, t) = s in
    let later = in_gap_below c.vm_end addr (n ∷ r) t (omega arith) in
    let before : leb c.vm_end addr ≡ false = ground arith in rw (before, later) refl

in_gap-flags_at :
    (lo addr : ℕ) (c : VmArea) (r : List VmArea)
    → IsSorted lo (c ∷ r)
    → c.vm_start ≤ addr
    → in_gap (c ∷ r) addr ≡ not (is_some (flags_at (c ∷ r) addr))
unfolding in_gap flags_at
in_gap-flags_at lo addr c [] s le = ground arith
in_gap-flags_at lo addr c (n ∷ r) s le =
    let (a, b, t) = s in
    let (x, y, z) = t in
    elim (dec_lt addr c.vm_end) [
      | yes here ↦
          let later = in_gap_below c.vm_end addr (n ∷ r) t here in
          let before : leb c.vm_end addr ≡ false = ground arith in
          let inside : within c.vm_start c.vm_end addr ≡ true = ground arith in
          rw (before, later, inside) refl
      | no past ↦
          let outside : within c.vm_start c.vm_end addr ≡ false = ground arith in
          let behind : leb c.vm_end addr ≡ true = ground arith in
          elim (dec_lt addr n.vm_start) [
            | yes gap ↦
                let nothing = flags_at-below n.vm_start addr (n ∷ r) (omega arith, y, z) gap in
                let before : ltb addr n.vm_start ≡ true = ground arith in
                rw (outside, behind, before) (sym (ap (λ f. not (is_some f)) nothing))
            | no further ↦
                let after : ltb addr n.vm_start ≡ false = ground arith in
                rw (outside, behind, after) (in_gap-flags_at c.vm_end addr n r t (omega arith))
          ]
    ]

write_denied_below :
    (lo addr : ℕ) (l : List VmArea) → IsSorted lo l → addr < lo → write_denied l addr ≡ false
unfolding write_denied
write_denied_below lo addr [] s lt = refl
write_denied_below lo addr (c ∷ r) s lt = ground (arith, write_denied_below c.vm_end addr r)

pub write_denied-flags_at :
    (lo addr : ℕ) (l : List VmArea)
    → IsSorted lo l
    → write_denied l addr ≡ may_not_write (flags_at l addr)
unfolding write_denied flags_at
write_denied-flags_at lo addr [] s = refl
write_denied-flags_at lo addr (c ∷ r) s =
    let (a, b, t) = s in
    elim (Bool-cases (within c.vm_start c.vm_end addr)) [
      | inl here ↦
          let rest = write_denied_below c.vm_end addr r t (ground arith) in
          rw (here, rest) (ground arith)
      | inr elsewhere ↦ rw elsewhere (write_denied-flags_at c.vm_end addr r t)
    ]

both_fail : (a b c d e f : Bool) → (a && b && c && not true && d && e) ≡ (a && b && c && false && f)
both_fail a b c d e f = ground arith

same_checks :
    (a b c d e : Bool) → (a && b && c && not false && not (not d) && e) ≡ (a && b && c && d && e)
same_checks a b c d e = ground arith

pub passes-allowed :
    (lo addr error_code : ℕ) (l : List VmArea)
    → IsSorted lo l
    → passes l addr error_code ≡ allowed l addr error_code
unfolding passes
passes-allowed lo addr error_code [] s =
    let nothing : is_some (flags_at [] addr) ≡ false =
      ap is_some (flags_at-below (addr + 1) addr [] tt (omega arith)) in
    ground arith
passes-allowed lo addr error_code (c ∷ r) s = elim (dec_lt addr c.vm_start) [
  | yes lt ↦
      let (a, b, t) = s in
      let nothing : is_some (flags_at (c ∷ r) addr) ≡ false =
        ap is_some (flags_at-below c.vm_start addr (c ∷ r) (omega arith, b, t) lt) in
      let early : ltb addr c.vm_start ≡ true = ground arith in
      rw (early, nothing)
        (both_fail (leb area_start addr) (ltb addr area_end) (not (error_code % 2 == 1))
          (not (in_gap (c ∷ r) addr)) (not ((error_code / 2 % 2 == 1) && write_denied (c ∷ r) addr))
          (not ((error_code / 2 % 2 == 1) && may_not_write (flags_at (c ∷ r) addr))))
  | no ge ↦
      let on : ltb addr c.vm_start ≡ false = ground arith in
      let gaps = in_gap-flags_at lo addr c r s (omega arith) in
      let writes = write_denied-flags_at lo addr (c ∷ r) s in
      rw (on, gaps, writes)
        (same_checks (leb area_start addr) (ltb addr area_end) (not (error_code % 2 == 1))
          (is_some (flags_at (c ∷ r) addr))
          (not ((error_code / 2 % 2 == 1) && may_not_write (flags_at (c ∷ r) addr))))
]
