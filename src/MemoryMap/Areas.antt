-- ===== src/MemoryMap/Areas.antt =====
-- `struct vm_area` (include/context.h), the constants and the two allocation helpers of
-- include/mmap.h, and the page loops of mmap.c. A chain of areas through `vm_next` is a list.
use operating_systems_cs.Base.{
  ℕ, zero, suc, ◌+◌, ◌-◌, ◌*◌, ◌/◌, ◌%◌, ◌^◌, ◌≡◌, ◌<◌, ◌≤◌, Option, none, some, List, [], ◌∷◌,
  arith, ltb, ◌==◌, Bool-cases, inl, inr, if◌then◌else◌, add64, get_elem?,
}

-- Addresses are `unsigned long`, flags are `u32`.
pub record VmArea : Type 0 where
  pub vm_start : ℕ
  pub vm_end : ℕ
  pub access_flags : ℕ

abbrev pub area : ℕ → ℕ → ℕ → VmArea
area s e p = record { vm_start = s; vm_end = e; access_flags = p }

abbrev pub area_start : ℕ
area_start = 0x180200000

abbrev pub area_end : ℕ
area_end = 0x7FE000000

abbrev pub page_size : ℕ
page_size = 4096

-- `if((length>>12)<<12 != length) length = (((length>>12) + 1)<<12)`, on the 64-bit pattern to
-- which C converts the `int` in each sum with an address. For the lengths 2^31 - 4095 to 2^31 - 1
-- the sum in the source overflows the `int`, which C leaves undefined; here they give 2^31.
unfoldable pub page_round : ℕ → ℕ
page_round n = if (n / 4096) * 4096 == n then n else ((n / 4096 + 1) * 4096) % 2 ^ 64

-- A chain after some calls of `alloc_vm_area` and `dealloc_vm_area`, which are counted.
pub record Change : Type 0 where
  pub areas : List VmArea
  pub allocated : ℕ
  pub freed : ℕ

abbrev pub edited : List VmArea → Change
edited l = record { areas = l; allocated = 0; freed = 0 }

-- `alloc_vm_area` counts one more area in `stats->num_vm_area`.
abbrev pub allocate : Change → Change
allocate c = record c { allocated = c.allocated + 1 }

-- `dealloc_vm_area` counts one area less.
abbrev pub deallocate : Change → Change
deallocate c = record c { freed = c.freed + 1 }

abbrev pub behind : VmArea → Change → Change
behind a c = record c { areas = a ∷ c.areas }

-- The areas of a process, and the system's counter of areas, a `u64`.
pub record AreaTable : Type 0 where
  pub vm_area : List VmArea
  pub num_vm_area : ℕ

abbrev pub commit : AreaTable → Change → AreaTable
commit t c = record {
  vm_area = c.areas;
  num_vm_area = (t.num_vm_area + c.allocated + (2 ^ 64 * c.freed - c.freed)) % 2 ^ 64;
}

-- `ret` is `none` where the code returns -1; `pages` are the addresses for which it calls its page
-- table routine, in order.
pub record Outcome : Type 0 where
  pub ret : Option ℕ
  pub table : AreaTable
  pub pages : List ℕ

abbrev pub failed : AreaTable → Outcome
failed t = record { ret = none; table = t; pages = [] }

-- `for(unsigned long i = addr; i < stop; i += 4096)`, the addresses that the body sees.
page_loop : ℕ → ℕ → ℕ → List ℕ
page_loop zero i stop = []
page_loop (suc fuel) i stop =
    let rest = page_loop fuel (add64 i page_size) stop in if ltb i stop then i ∷ rest else []

unfoldable pub each_page : ℕ → ℕ → List ℕ
unfolding page_loop
each_page addr stop = page_loop ((stop - addr) / page_size + 1) addr stop

page_loop-get_elem? :
    (fuel i stop k : ℕ)
    → stop + page_size ≤ 2 ^ 64
    → stop < i + page_size * fuel
    → get_elem? (page_loop fuel i stop) k
      ≡ (if ltb (i + page_size * k) stop then some (i + page_size * k) else none)
unfolding page_loop
page_loop-get_elem? zero i stop k room fuel = ground arith
page_loop-get_elem? (suc f) i stop zero room fuel = ground arith
page_loop-get_elem? (suc f) i stop (suc k) room fuel = elim (Bool-cases (ltb i stop)) [
  | inl more ↦ ground (arith, page_loop-get_elem? f (add64 i page_size) stop k)
  | inr done ↦ ground arith
]

-- The page loop makes one call for each page that begins in the range, and none beyond.
pub each_page-get_elem? :
    (addr stop k : ℕ)
    → stop + page_size ≤ 2 ^ 64
    → get_elem? (each_page addr stop) k
      ≡ (if ltb (addr + page_size * k) stop then some (addr + page_size * k) else none)
unfolding each_page
each_page-get_elem? addr stop k room =
    page_loop-get_elem? ((stop - addr) / page_size + 1) addr stop k room (omega arith)
