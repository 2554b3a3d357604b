-- ===== src/CopyOnWrite/Allowed.antt =====
-- Which faults the handler serves.
use operating_systems_cs.Base.{
  ℕ, zero, suc, ◌+◌, ◌-◌, ◌*◌, ◌/◌, ◌^◌, ◌≡◌, refl, ◌<◌, Bool, true, not, ◌&&◌, ◌||◌, ltb, Option,
  none, some, List, [], ◌∷◌, if◌then◌else◌, add64, arith,
}
use native.Mathlib.Decide.{dec_lt}
use operating_systems_cs.MemoryMap.Areas.{VmArea, page_size}
use operating_systems_cs.MemoryMap.View.{within, flags_at, IsSorted}
use operating_systems_cs.PageFault.{write_denied}
use operating_systems_cs.PageFault.Allowed.{is_some, may_not_write, write_denied-flags_at}
use operating_systems_cs.CopyOnWrite.{in_area, data_loop, Segment, in_segment}

in_area-flags_at : (l : List VmArea) (cr2 : ℕ) → in_area l cr2 ≡ is_some (flags_at l cr2)
unfolding in_area flags_at
in_area-flags_at [] cr2 = refl
in_area-flags_at (c ∷ r) cr2 = ground (arith, in_area-flags_at r cr2)

-- The end of the last page that begins below `next_free`.
abbrev pub pages_end : Segment → ℕ
pages_end seg = seg.start + (seg.next_free - seg.start + 4095) / 4096 * 4096

data_loop-within :
    (fuel vaddr next_free cr2 : ℕ)
    → next_free + page_size < 2 ^ 64
    → next_free < vaddr + page_size * fuel
    → data_loop fuel vaddr next_free cr2
      ≡ within vaddr (vaddr + (next_free - vaddr + 4095) / 4096 * 4096) cr2
unfolding data_loop
data_loop-within zero vaddr next_free cr2 room enough = ground arith
data_loop-within (suc fuel) vaddr next_free cr2 room enough = elim (dec_lt vaddr next_free) [
  | no ge ↦ ground arith
  | yes lt ↦
      let step : add64 vaddr page_size ≡ vaddr + page_size = omega arith in
      let ih = data_loop-within fuel (vaddr + page_size) next_free cr2 room (omega arith) in
      let more : ltb vaddr next_free ≡ true = ground arith in rw (more, step, ih) (ground arith)
]

-- What the process may write at an address: a writable area, or the data segment outside the areas.
abbrev pub may_write : List VmArea → Segment → (cr2 : ℕ) → Bool
may_write areas seg cr2 =
    if is_some (flags_at areas cr2)
    then not (may_not_write (flags_at areas cr2))
    else within seg.start (pages_end seg) cr2

choose :
    (f : Option ℕ) (b : Bool)
    → ((is_some f || b) && not (may_not_write f)) ≡ (if is_some f then not (may_not_write f) else b)
choose none b = ground arith
choose (some f) b = refl

pub checks-may_write :
    (lo : ℕ) (areas : List VmArea) (seg : Segment) (cr2 : ℕ)
    → IsSorted lo areas
    → seg.next_free + page_size < 2 ^ 64
    → ((in_area areas cr2 || in_segment seg cr2) && not (write_denied areas cr2))
      ≡ may_write areas seg cr2
checks-may_write lo areas seg cr2 sorted room =
    let area = in_area-flags_at areas cr2 in
    let denied = write_denied-flags_at lo cr2 areas sorted in
    let segment =
      data_loop-within ((seg.next_free - seg.start) / page_size + 1) seg.start seg.next_free cr2
        room (omega arith) in
    rw (area, denied, segment) (choose (flags_at areas cr2) (within seg.start (pages_end seg) cr2))
