-- ===== src/Files/Refs.antt =====
-- How many descriptors point to a file object, and its reference count.
use operating_systems_cs.Base.{
  ℕ, zero, suc, ◌+◌, ◌%◌, ◌^◌, ◌≡◌, ◌<◌, ◌≤◌, ◌==◌, Option, none, some, if◌then◌else◌, arith, subst,
  Bool-cases, Option-cases, inl, inr,
}
use operating_systems_cs.Threads.{update, total, total-bound}
use operating_systems_cs.Files.{
  File, Store, FileTable, max_open_files, ok, add_reference, first_unused,
}

abbrev pub points_to : ℕ → Option ℕ → ℕ
points_to a none = 0
points_to a (some b) = if b == a then 1 else 0

-- The descriptors of a process that point to `a`.
abbrev pub references : FileTable → ℕ → ℕ
references files a = total (points_to a) max_open_files files

abbrev pub ref_count : Option File → ℕ
ref_count none = 0
ref_count (some f) = f.ref_count

-- The count of each file object is the number of descriptors that point to it, in this process and
-- in `others`; an object that is not allocated has none.
abbrev pub IsCounted : (others : ℕ → ℕ) → Store → FileTable → Type 0
IsCounted others s files = (a : ℕ) → ref_count (s.file a) ≡ others a + references files a

pub points_to-bound : (a : ℕ) (o : Option ℕ) → points_to a o ≤ 1
points_to-bound a none = omega arith
points_to-bound a (some b) = ground arith

pub references-bound : (files : FileTable) (a : ℕ) → references files a ≤ max_open_files
references-bound files a = total-bound (points_to a) (points_to-bound a) max_open_files files

ok-eq : (s s' : Store) → ok s ≡ ok s' → s ≡ s'
ok-eq s s' e = cc

-- The object at `a` with one more reference.
abbrev pub one_more : File → File
one_more f = record f { ref_count = (f.ref_count + 1) % 2 ^ 32 }

one_more-count :
    (files : ℕ → Option File) (a : ℕ) (f : File) (b : ℕ)
    → files a ≡ some f
    → f.ref_count + 1 < 2 ^ 32
    → ref_count (update files a (some (one_more f)) b) ≡ ref_count (files b) + points_to b (some a)
one_more-count files a f b y small = elim (Bool-cases (a == b)) [
  | inl same ↦
      let at : a ≡ b = ground arith in
      let here : files b ≡ some f = subst (λ t. files t ≡ some f) at y in
      rw (same, here) (ground arith)
  | inr other ↦ rw other (omega arith)
]

-- What one more reference does to the counts.
pub add_reference_lem :
    (s s' : Store) (a : ℕ)
    → add_reference s a ≡ ok s'
    → ref_count (s.file a) + 1 < 2 ^ 32
    → (b : ℕ) → ref_count (s'.file b) ≡ ref_count (s.file b) + points_to b (some a)
unfolding add_reference
add_reference_lem s s' a e small b = elim (Option-cases (s.file a)) [
  | inl z ↦ absurd (cc (rw (z, add_reference) at e))
  | inr (f, y) ↦
      rw (← ok-eq _ s' (rw (y, add_reference) at e)) (one_more-count s.file a f b y (rw y at small))
]

-- The descriptor that the search ends at is unused, if it is below the limit.
pub first_unused_lem :
    (rounds : ℕ) (files : FileTable) (fd : ℕ)
    → first_unused rounds files fd < fd + rounds
    → files (first_unused rounds files fd) ≡ none
unfolding first_unused
first_unused_lem zero files fd lt = absurd (omega arith)
first_unused_lem (suc rounds) files fd lt = elim (Option-cases (files fd)) [
  | inl free ↦ rw (free, first_unused) free
  | inr (a, used) ↦
      rw (used, first_unused)
        (first_unused_lem rounds files (fd + 1) (omega (arith, (rw (used, first_unused) at lt))))
]
