-- ===== src/Frames.antt =====
-- The allocator of page frames in memory.c of gemOS (Assignment3/Ass3/src): `struct page_list`,
-- `get_free_page`, the bookkeeping of `os_pfn_alloc`, and `os_page_free`. Page `i` of a region has bit
-- `i % 32` of word `i / 32` of the region's bitmap.
pub mod Scan
pub mod Fresh
pub mod Source
pub mod Answer
mod Tests
use operating_systems_cs.Base.{
  ℕ, zero, suc, ◌+◌, ◌-◌, ◌*◌, ◌/◌, ◌%◌, ◌^◌, Option, none, some, Bool, true, false, ◌&&◌, ◌||◌,
  ltb, leb, ◌==◌, if◌then◌else◌,
}
use operating_systems_cs.Threads.{update}

pub record PageList : Type 0 where
  pub size : ℕ
  pub free_pages : ℕ
  pub last_free_pos : ℕ
  pub start_address : ℕ
  pub bitmap : ℕ → Bool

-- `for(bit=0; bit<32; ++bit)`, with `n` rounds left, in the word whose first bit is `base`.
pub bit_loop : (n bit base : ℕ) (bitmap : ℕ → Bool) → ℕ
bit_loop zero bit base bitmap = bit
bit_loop (suc n) bit base bitmap =
    let next = bit_loop n (bit + 1) base bitmap in if bitmap (base + bit) then next else bit

-- `*scanner == 0xffffffff`
abbrev pub word_full : (ℕ → Bool) → ℕ → Bool
word_full bitmap word = bit_loop 32 0 (word * 32) bitmap == 32

pub scan_loop : (fuel pos limit : ℕ) (bitmap : ℕ → Bool) → ℕ
unfolding bit_loop
scan_loop zero pos limit bitmap = pos
scan_loop (suc fuel) pos limit bitmap =
    let next = scan_loop fuel (pos + 1) limit bitmap in
    if word_full bitmap pos && ltb pos limit then next else pos

-- `size_in_u32`
abbrev pub size_in_u32 : PageList → ℕ
size_in_u32 l = l.size / 256

-- Each round moves on by one word, below the limit.
abbrev pub scan : PageList → ℕ
scan l = scan_loop (size_in_u32 l + 1 - l.last_free_pos) l.last_free_pos (size_in_u32 l) l.bitmap

abbrev pub next_pos : PageList → ℕ
next_pos l = if leb (size_in_u32 l) (scan l) then 0 else scan l

-- The page that is taken, counted from the start of the region.
abbrev pub next_page : PageList → ℕ
next_page l = next_pos l * 32 + bit_loop 32 0 (next_pos l * 32) l.bitmap

abbrev pub first_frame : PageList → ℕ
first_frame l = l.start_address / 4096

pub get_free_page : PageList → ℕ × PageList
unfolding scan_loop
get_free_page l = (
  (next_page l + first_frame l) % 2 ^ 32,
  record l {
    bitmap = update l.bitmap (next_page l) true;
    last_free_pos = next_pos l;
    free_pages = l.free_pages - 1;
  },
)

-- `os_pfn_alloc` as far as it concerns the region; `none` where it is out of memory.
unfoldable pub pfn_alloc : PageList → Option (ℕ × PageList)
unfolding get_free_page
pfn_alloc l = if l.free_pages == 0 then none else some (get_free_page l)

-- `os_page_free`: an address outside the region is only reported.
unfoldable pub page_free : PageList → (paddress : ℕ) → PageList
page_free l paddress =
    if leb paddress l.start_address || leb (l.start_address + l.size * 4096 % 2 ^ 32) paddress
    then l
    else record l {
      bitmap = update l.bitmap ((paddress - l.start_address) / 4096 % 2 ^ 32) false;
      free_pages = (l.free_pages + 1) % 2 ^ 32;
    }
