-- ===== src/PageTable/Sample.antt =====
-- The page tables of a small process.
use operating_systems_cs.Base.{
  ℕ, ltb, ◌+◌, ◌/◌, ◌*◌, ◌≡◌, ◌≢◌, refl, ◌<◌, ◌≤◌, Bool, true, false, ◌&&◌, ◌==◌, Option, none,
  some, List, [], ◌∷◌, if◌then◌else◌, arith, length,
}
use operating_systems_cs.Threads.{total}
use operating_systems_cs.Frames.{PageList}
use operating_systems_cs.Frames.Source.{frame_used, frames_left}
use operating_systems_cs.PageTable.{Machine, get_pte, present, user, frame_of}
use operating_systems_cs.PageTable.Lookup.{translate}
use operating_systems_cs.PageTable.Tree.{IsTree}

-- A region of 256 pages from the frame `first` on, none of them in use.
abbrev pub region : ℕ → PageList
region first = record {
  size = 256;
  free_pages = 256;
  last_free_pos = 0;
  start_address = first * 4096;
  bitmap = λ i. false;
}

-- Page 0x180200 has frame 9000; the tables are the frames 1 to 4.
abbrev pub sample_entry : ℕ → ℕ → ℕ
sample_entry t i =
    if (t == 1) && (i == 0)
    then 2 * 4096 + 7
    else if (t == 2) && (i == 6)
    then 3 * 4096 + 7
    else if (t == 3) && (i == 1)
    then 4 * 4096 + 7
    else if (t == 4) && (i == 0)
    then 9000 * 4096 + 7
    else 0

abbrev pub sample : Machine PageList
sample = record {
  entry = sample_entry;
  refcount = λ f. if f == 9000 then 1 else 0;
  pt_pages = region 5;
  user_pages = region 10000;
  user_reg_pages = 1;
}

abbrev pub sample_place : ℕ → Option (List ℕ)
sample_place t =
    if t == 1
    then some []
    else if t == 2
    then some (0 ∷ [])
    else if t == 3
    then some (6 ∷ 0 ∷ [])
    else if t == 4
    then some (1 ∷ 6 ∷ 0 ∷ [])
    else none

-- The entries that `copy_os_pts` shares.
abbrev pub os_entries : List ℕ → Bool
os_entries (i ∷ j ∷ []) = ltb i 4 && (j == 0)
os_entries p = false

sample_used : (t : ℕ) (p : List ℕ) → sample_place t ≡ some p → frame_used (region 5) t ≡ true
sample_used t p at = ground arith

sample_user : (t i : ℕ) → present (sample_entry t i) ≡ true → user (sample_entry t i) ≡ true
sample_user t i on = ground arith

sample_child :
    (t i : ℕ) (p : List ℕ)
    → sample_place t ≡ some p
    → length p < 3
    → present (sample_entry t i) ≡ true
    → sample_place (frame_of (sample_entry t i)) ≡ some (i ∷ p)
sample_child t i p at short on = ground arith

pub sample-IsTree : IsTree frame_used os_entries sample_place 1 sample
sample-IsTree = record {
  root = refl;
  child = λ t i p at short on by_user. sample_child t i p at short on;
  user_entries = λ t i p at short k on. sample_user t i on;
  tables_used = sample_used;
}

pub tables_left : 3 ≤ frames_left (region 5)
unfolding total
tables_left = omega arith

pub user_left : 1 ≤ frames_left (region 10000)
unfolding total
user_left = omega arith

-- The process has one page in the mapped region.
pub only_page : (a : ℕ) → a < 0x7FE000000 → a / 4096 ≢ 0x180200 → translate sample 1 a ≡ none
unfolding get_pte
only_page a high other = ground arith
