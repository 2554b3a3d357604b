-- ===== src/MemoryMap/Map/Hint/Correct.antt =====
-- Where the walk for a hint address places a range.
use operating_systems_cs.Base.{
  ℕ, ◌≡◌, refl, ◌<◌, ◌≤◌, List, [], ◌∷◌, ◌++◌, arith, inl, ◌⊎◌, ◌^◌, ap,
}
use operating_systems_cs.MemoryMap.Areas.{VmArea, Change, area_end}
use operating_systems_cs.MemoryMap.View.{flags_at, IsSorted, EndsBy, flags_at-below}
use operating_systems_cs.MemoryMap.Map.Gaps.{Request, Attempt, placed, full, no_room, then_behind}
use operating_systems_cs.MemoryMap.Map.Gaps.Correct.{Mapped, Mapped-behind, Fits, Fits-intro}
use operating_systems_cs.MemoryMap.Map.Hint.{
  Walk, settled, taken, walk_behind, hint_front, hint_between,
}

-- The last area runs from `ret` to `from` and has the flags.
abbrev pub GrowsLast : (ret from prot : ℕ) → List VmArea → Type 0
GrowsLast ret from prot [] = ⊥
GrowsLast ret from prot (c ∷ []) = (ret ≡ c.vm_start) × (from ≡ c.vm_end) × (prot ≡ c.access_flags)
GrowsLast ret from prot (c ∷ n ∷ r) = GrowsLast ret from prot (n ∷ r)

-- The range is mapped, and the address returned is where it begins, unless the last area has grown.
pub record HintMapped (lo : ℕ) (q : Request) (addr ret : ℕ) (old : List VmArea) (e : Change)
    : Type 0 where
  pub from : ℕ
  pub mapped : Mapped lo q from old e
  pub returned : (ret ≡ from) ⊎ ((from ≡ addr) × GrowsLast ret from q.prot old)

abbrev pub HintFits : ℕ → Request → ℕ → List VmArea → Attempt → Type 0
HintFits lo q addr l (placed ret e) = HintMapped lo q addr ret l e
HintFits lo q addr l full = Unit {0}
HintFits lo q addr l no_room = Unit {0}

abbrev pub WalkFits : ℕ → Request → ℕ → List VmArea → Walk → Type 0
WalkFits lo q addr l (settled a) = HintFits lo q addr l a
WalkFits lo q addr l (taken before at) = before ++ at ≡ l

pub HintFits-of :
    (lo : ℕ) (q : Request) (addr : ℕ) (l : List VmArea) (a : Attempt)
    → Fits lo q l a
    → HintFits lo q addr l a
HintFits-of lo q addr l (placed ret e) f = record { from = ret; mapped = f; returned = inl refl }
HintFits-of lo q addr l full f = tt
HintFits-of lo q addr l no_room f = tt

WalkFits-intro :
    (lo : ℕ) (q : Request) (addr : ℕ) (l : List VmArea) (w : Walk)
    → ((ret : ℕ) (e : Change) → w ≡ settled (placed ret e) → Mapped lo q ret l e)
    → ((before at : List VmArea) → w ≡ taken before at → before ++ at ≡ l)
    → WalkFits lo q addr l w
WalkFits-intro lo q addr l (settled a) h k =
    HintFits-of lo q addr l a (Fits-intro lo q l a λ ret e eq. h ret e (ap settled eq))
WalkFits-intro lo q addr l (taken before at) h k = k before at refl

module _ (q : Request) (pos : 0 < q.len) (small : q.len < 2 ^ 32) (addr : ℕ)
    (high : addr ≤ area_end) where
  pub WalkFits-behind :
      (lo : ℕ) (c n : VmArea) (r : List VmArea) (w : Walk)
      → IsSorted lo (c ∷ n ∷ r)
      → c.vm_end ≤ area_end
      → WalkFits c.vm_end q addr (n ∷ r) w
      → WalkFits lo q addr (c ∷ n ∷ r) (walk_behind c w)
  unfolding walk_behind then_behind
  WalkFits-behind lo c n r (settled (placed ret e)) s b f = record {
    from = f.from;
    mapped = Mapped-behind lo q pos small c (n ∷ r) f.from e s b f.mapped;
    returned = f.returned;
  }
  WalkFits-behind lo c n r (settled full) s b f = tt
  WalkFits-behind lo c n r (settled no_room) s b f = tt
  WalkFits-behind lo c n r (taken before at) s b f = ap (λ t. c ∷ t) f

  hint_front-Mapped :
      (lo : ℕ) (c : VmArea) (r : List VmArea) (ret : ℕ) (e : Change)
      → lo ≤ addr
      → addr < c.vm_start
      → IsSorted lo (c ∷ r)
      → EndsBy area_end (c ∷ r)
      → hint_front q addr c r ≡ settled (placed ret e)
      → Mapped lo q ret (c ∷ r) e
  unfolding hint_front flags_at
  hint_front-Mapped lo c r ret e k g s b h = record {
    sorted = ground arith;
    ends = ground arith;
    flags = λ x. ground (arith, flags_at-below c.vm_end x r);
    free = λ x p m. ground (arith, flags_at-below c.vm_end x r);
    bounds = ground arith;
    count = ground arith;
  }

  hint_between-Mapped :
      (lo : ℕ) (c n : VmArea) (r : List VmArea) (ret : ℕ) (e : Change)
      → c.vm_end < addr
      → addr < n.vm_start
      → IsSorted lo (c ∷ n ∷ r)
      → EndsBy area_end (c ∷ n ∷ r)
      → hint_between q addr c n r ≡ settled (placed ret e)
      → Mapped lo q ret (c ∷ n ∷ r) e
  unfolding hint_between flags_at
  hint_between-Mapped lo c n r ret e k g s b h = record {
    sorted = ground arith;
    ends = ground arith;
    flags = λ x. ground (arith, flags_at-below n.vm_end x r);
    free = λ x p m. ground (arith, flags_at-below n.vm_end x r);
    bounds = ground arith;
    count = ground arith;
  }

  pub hint_front-WalkFits :
      (lo : ℕ) (c : VmArea) (r : List VmArea)
      → lo ≤ addr
      → addr < c.vm_start
      → IsSorted lo (c ∷ r)
      → EndsBy area_end (c ∷ r)
      → WalkFits lo q addr (c ∷ r) (hint_front q addr c r)
  unfolding hint_front
  hint_front-WalkFits lo c r k g s b =
      WalkFits-intro lo q addr (c ∷ r) (hint_front q addr c r)
        (λ ret e. hint_front-Mapped lo c r ret e k g s b) (λ before at h. ground arith)

  pub hint_between-WalkFits :
      (lo : ℕ) (c n : VmArea) (r : List VmArea)
      → c.vm_end < addr
      → addr < n.vm_start
      → IsSorted lo (c ∷ n ∷ r)
      → EndsBy area_end (c ∷ n ∷ r)
      → WalkFits lo q addr (c ∷ n ∷ r) (hint_between q addr c n r)
  unfolding hint_between
  hint_between-WalkFits lo c n r k g s b =
      WalkFits-intro lo q addr (c ∷ n ∷ r) (hint_between q addr c n r)
        (λ ret e. hint_between-Mapped lo c n r ret e k g s b) (λ before at h. ground arith)
