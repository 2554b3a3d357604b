-- ===== src/Frames/Source.antt =====
-- What the page tables need of an allocator of frames, and the allocator of memory.c as one.
use operating_systems_cs.Base.{
  ℕ, zero, suc, ◌+◌, ◌-◌, ◌*◌, ◌/◌, ◌^◌, ◌≡◌, refl, ◌<◌, ◌≤◌, Bool, true, false, not, ◌&&◌, ltb,
  ◌==◌, if◌then◌else◌, arith, Bool-cases, inl, inr, ap₂, Option, some,
}
use mathlib.Core.Path.{fun_ext}
use operating_systems_cs.Threads.{update, total, total-update}
use operating_systems_cs.Frames.{PageList, first_frame, get_free_page, pfn_alloc, page_free}
use operating_systems_cs.Frames.Fresh.{in_reach, IsFresh, get_free_page-IsFresh}

-- A frame that was not in use is given out and marked, which uses one place up.
pub record Granted {Pages : Type 0} (in_use : Pages → ℕ → Bool) (room : Pages → ℕ)
    (answer : Option (ℕ × Pages)) (s : Pages) : Type 0 where
  pub frame : ℕ
  pub next : Pages
  pub granted : answer ≡ some (frame, next)
  pub small : frame < 2 ^ 32
  pub fresh : in_use s frame ≡ false
  pub marks : (f : ℕ) → in_use next f ≡ (if frame == f then true else in_use s f)
  pub left : room s ≤ room next + 1

-- With room left, `alloc` grants a frame.
pub record FrameSource : Type 1 where
  pub Pages : Type 0
  pub alloc : Pages → Option (ℕ × Pages)
  pub free : Pages → ℕ → Pages
  pub in_use : Pages → ℕ → Bool
  pub room : Pages → ℕ
  pub alloc-Granted : (s : Pages) → 0 < room s → Granted in_use room (alloc s) s

-- A frame of the region is in use when its bit is set.
abbrev pub frame_used : PageList → ℕ → Bool
frame_used l f = if ltb f (first_frame l) then true else l.bitmap (f - first_frame l)

abbrev pub weight : Bool → ℕ
weight b = if b then 1 else 0

abbrev pub free_in_reach : PageList → ℕ → Bool
free_in_reach l i = in_reach l i && not (l.bitmap i)

-- How many free pages one search looks through.
abbrev pub pages_left : PageList → ℕ
pages_left l = total weight (l.size / 256 * 32) (free_in_reach l)

-- Where the count is positive there is such a page.
counted : (n : ℕ) (f : ℕ → Bool) → 0 < total weight n f → (i : ℕ) × (i < n) × (f i ≡ true)
unfolding total
counted zero f pos = absurd (omega arith)
counted (suc n) f pos = elim (Bool-cases (f n)) [
  | inl here ↦ (n, omega arith, here)
  | inr not_here ↦ let (i, lt, e) = counted n f (ground (arith, not_here)) in (i, omega arith, e)
]

pub pages_left-IsFresh :
    (l : PageList) → 0 < pages_left l → IsFresh l (get_free_page l).0 (get_free_page l).1
pages_left-IsFresh l pos =
    let (i, lt, e) = counted (l.size / 256 * 32) (free_in_reach l) pos in
    get_free_page-IsFresh l i (ground arith) (ground arith)

still_free :
    (l l' : PageList) (frame : ℕ) (fresh : IsFresh l frame l') (i : ℕ)
    → free_in_reach l' i ≡ update (free_in_reach l) fresh.page false i
still_free l l' frame fresh i = ground (
  arith,
  fresh.marked i,
  fresh.first i,
  fresh.within,
  fresh.was_free,
  fresh.moved,
  fresh.same_region,
)

-- The count goes down by one.
pages_left_step :
    (l l' : PageList) (frame : ℕ) → IsFresh l frame l' → pages_left l ≤ pages_left l' + 1
pages_left_step l l' frame fresh =
    let taken =
      total-update weight (l.size / 256 * 32) (free_in_reach l) fresh.page false
        (ground (arith, fresh.within)) in
    let same : free_in_reach l' ≡ update (free_in_reach l) fresh.page false =
      fun_ext (still_free l l' frame fresh) in
    let size : l'.size / 256 * 32 ≡ l.size / 256 * 32 = omega (arith, fresh.same_region.0) in
    let left : pages_left l'
        ≡ total weight (l.size / 256 * 32) (update (free_in_reach l) fresh.page false) =
      ap₂ (total weight) size same in
    ground (arith, taken, left)

-- How many calls in a row are sure to find a free page: `free_pages`, or the free pages that one search
-- looks through where these are fewer. Free pages elsewhere in the region do not count. It is 0
-- where the region goes beyond the 32-bit frame numbers.
abbrev pub frames_left : PageList → ℕ
frames_left l =
    if ltb (2 ^ 32) (l.size / 256 * 32 + first_frame l)
    then 0
    else if ltb l.free_pages (pages_left l)
    then l.free_pages
    else pages_left l

alloc_runs : (l : PageList) → 0 < frames_left l → pfn_alloc l ≡ some (get_free_page l)
unfolding pfn_alloc
alloc_runs l pos = let some_left : (l.free_pages == 0) ≡ false = ground arith in rw some_left refl

free_pages_step : (l : PageList) → (get_free_page l).1.free_pages ≡ l.free_pages - 1
unfolding get_free_page
free_pages_step l = refl

-- The number of a fresh frame does not wrap.
fresh_number :
    (l l' : PageList) (frame : ℕ)
    → 0 < frames_left l
    → (fresh : IsFresh l frame l') → frame ≡ fresh.page + first_frame l
fresh_number l l' frame pos fresh = ground (arith, fresh.frame_at, fresh.within)

fresh_frame :
    (l l' : PageList) (frame page : ℕ)
    → frame ≡ page + first_frame l
    → l.bitmap page ≡ false
    → frame_used l frame ≡ false
fresh_frame l l' frame page at free =
    let back : frame - first_frame l ≡ page = omega (arith, at) in
    let above : ltb frame (first_frame l) ≡ false = ground (arith, at) in rw (above, back) free

-- While `free_pages` is positive, a page is free among those of the words from `last_free_pos` on in
-- the first `size >> 8` words of the bitmap, and the frame numbers of these words fit 32 bits,
-- `os_pfn_alloc` grants a frame of the region that was not in use, and marks that frame and no
-- other. The smaller of `free_pages` and the number of those free pages goes down by at most one.
-- Nothing is said of a call that finds no free page there.
pub pfn_alloc-Granted :
    (l : PageList) → 0 < frames_left l → Granted frame_used frames_left (pfn_alloc l) l
pfn_alloc-Granted l pos =
    let frame = (get_free_page l).0 in
    let l' = (get_free_page l).1 in
    let fresh : IsFresh l frame l' = pages_left-IsFresh l (ground arith) in
    let number = fresh_number l l' frame pos fresh in
    record {
      frame = frame;
      next = l';
      granted = alloc_runs l pos;
      small = omega (arith, fresh.frame_at);
      fresh = fresh_frame l l' frame fresh.page number fresh.was_free;
      marks = λ f. ground (arith, number, fresh.same_region, fresh.marked (f - first_frame l));
      left = ground (arith, free_pages_step l, fresh.same_region, pages_left_step l l' frame fresh);
    }

-- The allocator of memory.c.
abbrev pub page_list_source : FrameSource
page_list_source = record {
  Pages = PageList;
  alloc = pfn_alloc;
  free = λ l f. page_free l (f * 4096);
  in_use = frame_used;
  room = frames_left;
  alloc-Granted = pfn_alloc-Granted;
}
