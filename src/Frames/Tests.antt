-- ===== src/Frames/Tests.antt =====
-- Runs of the frame allocator.
use operating_systems_cs.Base.{ℕ, ◌*◌, ◌+◌, ◌%◌, ◌^◌, ◌≡◌, ◌≢◌, ◌⊎◌, none, refl, ◌<◌, ltb, arith}
use operating_systems_cs.Frames.{PageList, get_free_page, pfn_alloc, first_frame}
use operating_systems_cs.Frames.Fresh.{get_free_page_again}
use operating_systems_cs.Frames.Source.{Granted, frame_used, pages_left, frames_left}
use operating_systems_cs.Frames.Answer.{Restarted, pfn_alloc_cases}

-- 512 pages, of which the first `n` are in use.
abbrev used_up_to : ℕ → PageList
used_up_to n = record {
  size = 512;
  free_pages = 512;
  last_free_pos = 0;
  start_address = 100 * 4096;
  bitmap = λ i. ltb i n;
}

pfn_alloc_cases_example :
    (((used_up_to 40).free_pages ≡ 0) × (pfn_alloc (used_up_to 40) ≡ none))
    ⊎ ((((used_up_to 40).free_pages ≢ 0)
          × (0 < pages_left (used_up_to 40))
          × Granted frame_used frames_left (pfn_alloc (used_up_to 40)) (used_up_to 40))
        ⊎ (((used_up_to 40).free_pages ≢ 0)
            × (pages_left (used_up_to 40) ≡ 0)
            × Restarted (used_up_to 40) (pfn_alloc (used_up_to 40))))
pfn_alloc_cases_example = pfn_alloc_cases (used_up_to 40) (omega arith) (omega arith)

gives_page_32 : (get_free_page (used_up_to 100)).0 ≡ (32 + first_frame (used_up_to 100)) % 2 ^ 32
gives_page_32 =
    get_free_page_again (used_up_to 100) (omega arith) (λ i reach. ground arith)
      (λ i lt. ground arith)

takes_next : (get_free_page (used_up_to 40)).0 ≡ 140
unfolding get_free_page
takes_next = refl
