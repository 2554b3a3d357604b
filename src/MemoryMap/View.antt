-- ===== src/MemoryMap/View.antt =====
-- What a chain of areas stands for: the access flags at each mapped address.
use operating_systems_cs.Base.{
  ℕ, ◌+◌, ◌≡◌, refl, ◌<◌, ◌≤◌, Bool, ◌&&◌, Option, none, some, List, [], ◌∷◌, arith, ltb, leb,
  if◌then◌else◌, ◌%◌, ◌^◌, length,
}
use operating_systems_cs.MemoryMap.Areas.{VmArea, Change, AreaTable, commit}

abbrev pub within : ℕ → ℕ → ℕ → Bool
within s e x = leb s x && ltb x e

-- The flags of the first area that contains the address.
unfoldable pub flags_at : List VmArea → ℕ → Option ℕ
flags_at [] x = none
flags_at (c ∷ r) x = if within c.vm_start c.vm_end x then some c.access_flags else flags_at r x

-- Non-empty areas in order of address, from `lo` on, with no overlap.
abbrev pub IsSorted : ℕ → List VmArea → Type 0
IsSorted lo [] = Unit {0}
IsSorted lo (c ∷ r) = (lo ≤ c.vm_start) × (c.vm_start < c.vm_end) × IsSorted c.vm_end r

-- No area ends beyond `hi`.
abbrev pub EndsBy : ℕ → List VmArea → Type 0
EndsBy hi [] = Unit {0}
EndsBy hi (c ∷ r) = (c.vm_end ≤ hi) × EndsBy hi r

pub IsSorted-weaken : (lo lo' : ℕ) (l : List VmArea) → lo' ≤ lo → IsSorted lo l → IsSorted lo' l
IsSorted-weaken lo lo' [] h s = tt
IsSorted-weaken lo lo' (c ∷ r) h s = ground arith

pub flags_at-below : (lo x : ℕ) (l : List VmArea) → IsSorted lo l → x < lo → flags_at l x ≡ none
unfolding flags_at
flags_at-below lo x [] s h = refl
flags_at-below lo x (c ∷ r) s h = ground (arith, flags_at-below c.vm_end x r)

-- An address space after an operation on the range from `addr` to `stop`: the flags there are given
-- by `want`, no other address changes, and the system's counter moves with the number of areas.
pub record Remapped (lo addr stop : ℕ) (want : Option ℕ → Option ℕ) (t t' : AreaTable)
    : Type 0 where
  pub sorted : IsSorted lo t'.vm_area
  pub flags :
      (x : ℕ)
      → flags_at t'.vm_area x
        ≡ (if within addr stop x then want (flags_at t.vm_area x) else flags_at t.vm_area x)
  pub counter :
      (t'.num_vm_area + length t.vm_area) % 2 ^ 64 ≡ (t.num_vm_area + length t'.vm_area) % 2 ^ 64

pub commit-counter :
    (t : AreaTable) (c : Change)
    → length c.areas + c.freed ≡ length t.vm_area + c.allocated
    → ((commit t c).num_vm_area + length t.vm_area) % 2 ^ 64
      ≡ (t.num_vm_area + length c.areas) % 2 ^ 64
commit-counter t c h = omega arith
