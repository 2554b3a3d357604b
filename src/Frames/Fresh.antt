-- ===== src/Frames/Fresh.antt =====
-- When the allocator gives out a page that is free, and when it does not.
use operating_systems_cs.Base.{
  ℕ, ◌+◌, ◌-◌, ◌*◌, ◌/◌, ◌%◌, ◌^◌, ◌≡◌, refl, ◌<◌, ◌≤◌, Bool, true, false, ◌&&◌, ltb, leb, ◌==◌,
  if◌then◌else◌, arith,
}
use native.Mathlib.Decide.{dec_lt}
use operating_systems_cs.Frames.{
  PageList, bit_loop, word_full, size_in_u32, scan, next_pos, next_page, first_frame, get_free_page,
}
use operating_systems_cs.Frames.Scan.{StopsAt, word_stop, Scanned, scan_loop-Scanned}

-- The pages of the words from `last_free_pos` on, in the first `size >> 8` words of the bitmap: what
-- one search is to look through, an eighth of the region at most.
abbrev pub in_reach : PageList → ℕ → Bool
in_reach l i = leb (l.last_free_pos * 32) i && ltb i (l.size / 256 * 32)

-- What a successful search gives: the first clear bit in reach, which is set from then on.
pub record IsFresh (l : PageList) (frame : ℕ) (l' : PageList) : Type 0 where
  pub page : ℕ
  pub frame_at : frame ≡ (page + first_frame l) % 2 ^ 32
  pub within : in_reach l page ≡ true
  pub was_free : l.bitmap page ≡ false
  pub first : (i : ℕ) → in_reach l i ≡ true → i < page → l.bitmap i ≡ true
  pub marked : (i : ℕ) → l'.bitmap i ≡ (if page == i then true else l.bitmap i)
  pub moved : (l.last_free_pos ≤ l'.last_free_pos) × (l'.last_free_pos * 32 ≤ page)
  pub same_region : (l'.size ≡ l.size) × (l'.start_address ≡ l.start_address)

scanned :
    (l : PageList)
    → l.last_free_pos ≤ size_in_u32 l
    → Scanned l.bitmap l.last_free_pos (size_in_u32 l) (scan l)
scanned l le =
    scan_loop-Scanned (size_in_u32 l + 1 - l.last_free_pos) l.last_free_pos (size_in_u32 l) l.bitmap
      le (omega arith)

-- If a page in reach of the scan is free, `get_free_page` gives out the first such page and marks it,
-- and no other page changes its mark.
pub get_free_page-IsFresh :
    (l : PageList) (i : ℕ)
    → in_reach l i ≡ true
    → l.bitmap i ≡ false
    → IsFresh l (get_free_page l).0 (get_free_page l).1
unfolding get_free_page
get_free_page-IsFresh l i reach free =
    let s = scanned l (ground arith) in
    let below : scan l < size_in_u32 l = elim (dec_lt (scan l) (size_in_u32 l)) [
      | yes lt ↦ lt
      | no ge ↦ absurd (let full : l.bitmap i ≡ true = s.full i (ground arith) (ground arith) in cc)
    ] in
    let here : next_pos l ≡ scan l = ground arith in
    let word : StopsAt l.bitmap (next_pos l * 32) (next_pos l * 32 + 32) (next_page l) =
      word_stop l.bitmap (next_pos l) in
    let some_free : word_full l.bitmap (next_pos l) ≡ false = rw here (s.not_full below) in
    let short : next_page l < next_pos l * 32 + 32 = ground (arith, word.end) in
    record {
      page = next_page l;
      frame_at = refl;
      within = ground (arith, s.start, word.start);
      was_free = word.clear short;
      first = λ j r lt. elim (dec_lt j (scan l * 32)) [
        | yes before ↦ s.full j (ground arith) before
        | no later ↦ word.full j (omega (arith, here)) lt
      ];
      marked = λ j. refl;
      moved = (omega (arith, s.start, here), word.start);
      same_region = (refl, refl);
    }

-- A full scan ends at the limit.
pub scan_to_limit :
    (l : PageList)
    → l.last_free_pos ≤ size_in_u32 l
    → ((i : ℕ) → in_reach l i ≡ true → l.bitmap i ≡ true)
    → size_in_u32 l ≤ scan l
scan_to_limit l le full = elim (dec_lt (scan l) (size_in_u32 l)) [
  | no ge ↦ omega arith
  | yes lt ↦
      let s = scanned l le in
      let word = word_stop l.bitmap (scan l) in
      let bit = bit_loop 32 0 (scan l * 32) l.bitmap in
      let short : bit < 32 = ground (arith, s.not_full lt, word.end) in
      absurd (
        let used : l.bitmap (scan l * 32 + bit) ≡ true =
          full (scan l * 32 + bit) (ground (arith, s.start)) in
        let free : l.bitmap (scan l * 32 + bit) ≡ false = word.clear (omega arith) in cc)
]

next_page_again :
    (l : PageList)
    → l.last_free_pos ≤ size_in_u32 l
    → ((i : ℕ) → in_reach l i ≡ true → l.bitmap i ≡ true)
    → ((i : ℕ) → i < 32 → l.bitmap i ≡ true)
    → next_page l ≡ 32
next_page_again l le full first =
    let limit = scan_to_limit l le full in
    let again : next_pos l ≡ 0 = ground arith in
    let word : StopsAt l.bitmap (next_pos l * 32) (next_pos l * 32 + 32) (next_page l) =
      word_stop l.bitmap (next_pos l) in
    elim (dec_lt (next_page l) 32) [
      | no ge ↦ omega (arith, word.end)
      | yes lt ↦ absurd (
          let used : l.bitmap (next_page l) ≡ true = first (next_page l) lt in
          let free : l.bitmap (next_page l) ≡ false = word.clear (omega arith) in cc)
    ]

-- If no page in reach of the scan is free and the first 32 pages of the region are in use, the search
-- starts again at the first word without looking further: `get_free_page` gives out page 32, even where
-- that page is in use.
pub get_free_page_again :
    (l : PageList)
    → l.last_free_pos ≤ size_in_u32 l
    → ((i : ℕ) → in_reach l i ≡ true → l.bitmap i ≡ true)
    → ((i : ℕ) → i < 32 → l.bitmap i ≡ true)
    → (get_free_page l).0 ≡ (32 + first_frame l) % 2 ^ 32
unfolding get_free_page
get_free_page_again l le full first = omega (arith, next_page_again l le full first)
