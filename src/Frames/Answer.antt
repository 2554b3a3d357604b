-- ===== src/Frames/Answer.antt =====
-- Every answer of the allocator of memory.c, also where its search finds no free page.
use mathlib.Core.Option
use operating_systems_cs.Base.{
  ℕ, zero, suc, ◌+◌, ◌*◌, ◌/◌, ◌%◌, ◌^◌, ◌≡◌, ◌≢◌, refl, ◌<◌, ◌≤◌, ◌⊎◌, Bool, true, false, ◌==◌,
  arith, Bool-cases, inl, inr, Option, none, some,
}
use native.Mathlib.Decide.{ℕ_discrete, dec_lt}
use operating_systems_cs.Threads.{total}
use operating_systems_cs.Frames.{
  PageList, next_pos, next_page, first_frame, get_free_page, pfn_alloc,
}
use operating_systems_cs.Frames.Scan.{StopsAt, word_stop}
use operating_systems_cs.Frames.Fresh.{in_reach, scan_to_limit}
use operating_systems_cs.Frames.Source.{
  Granted, frame_used, weight, free_in_reach, pages_left, frames_left, pfn_alloc-Granted,
}

-- The search has started again at the first word and looked at this word only: the page is the first free
-- one of the word, or page 32 of the region where the word is full.
pub record Restarted (l : PageList) (answer : Option (ℕ × PageList)) : Type 0 where
  pub page : ℕ
  pub granted : Option.map (λ r. r.0) answer ≡ some ((page + first_frame l) % 2 ^ 32)
  pub first : StopsAt l.bitmap 0 32 page

-- Where the count is 0 there is no such page.
none_counted : (n : ℕ) (f : ℕ → Bool) → total weight n f ≡ 0 → (i : ℕ) → i < n → f i ≡ false
unfolding total
none_counted zero f e i lt = absurd (omega arith)
none_counted (suc n) f e i lt = elim (ℕ_discrete i n) [
  | yes here ↦ rw here (ground arith)
  | no below ↦ none_counted n f (ground arith) i (omega arith)
]

all_in_use : (l : PageList) → pages_left l ≡ 0 → (i : ℕ) → in_reach l i ≡ true → l.bitmap i ≡ true
all_in_use l e i reach =
    let quiet = none_counted (l.size / 256 * 32) (free_in_reach l) e i (ground arith) in
    ground arith

search_restarts :
    (l : PageList)
    → l.last_free_pos ≤ l.size / 256
    → l.free_pages ≢ 0
    → pages_left l ≡ 0
    → Restarted l (pfn_alloc l)
unfolding pfn_alloc get_free_page
search_restarts l le some_left e =
    let limit = scan_to_limit l le (all_in_use l e) in
    let again : next_pos l ≡ 0 = ground arith in
    let word : StopsAt l.bitmap (next_pos l * 32) (next_pos l * 32 + 32) (next_page l) =
      word_stop l.bitmap (next_pos l) in
    let given : (l.free_pages == 0) ≡ false = ground arith in
    record {
      page = next_page l;
      granted = rw given refl;
      first = record {
        start = omega arith;
        end = omega (arith, word.end);
        full = λ i a b. word.full i (omega arith) b;
        clear = λ lt. word.clear (omega arith);
      };
    }

-- If `last_free_pos` is at most `size >> 8`, and the frame numbers of the first `size >> 8` words fit 32
-- bits, `os_pfn_alloc` answers in one of three ways. With `free_pages` 0 it is out of memory. With
-- `free_pages` positive and a free page in the words from `last_free_pos` on, among the first
-- `size >> 8` words, it grants a frame of the region that was not in use, and marks that frame and no
-- other. With `free_pages` positive and no free page there, it gives the first free page of the first
-- word, or page 32, in use or not, where the first word is full.
pub pfn_alloc_cases :
    (l : PageList)
    → l.last_free_pos ≤ l.size / 256
    → l.size / 256 * 32 + first_frame l ≤ 2 ^ 32
    → ((l.free_pages ≡ 0) × (pfn_alloc l ≡ none))
      ⊎ (((l.free_pages ≢ 0) × (0 < pages_left l) × Granted frame_used frames_left (pfn_alloc l) l)
          ⊎ ((l.free_pages ≢ 0) × (pages_left l ≡ 0) × Restarted l (pfn_alloc l)))
unfolding pfn_alloc
pfn_alloc_cases l le fits = elim (Bool-cases (l.free_pages == 0)) [
  | inl spent ↦ inl (ground arith, rw spent refl)
  | inr given ↦
      let some_left : l.free_pages ≢ 0 = ground arith in
      elim (dec_lt 0 (pages_left l)) [
        | yes found ↦ inr (inl (some_left, found, pfn_alloc-Granted l (ground arith)))
        | no nothing ↦
            let e : pages_left l ≡ 0 = omega arith in
            inr (inr (some_left, e, search_restarts l le some_left e))
      ]
]
