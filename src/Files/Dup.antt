-- ===== src/Files/Dup.antt =====
-- `fd_dup` keeps the reference counts.
use operating_systems_cs.Base.{
  ℕ, ◌+◌, ◌^◌, ◌≡◌, refl, ◌<◌, false, not, ltb, ◌==◌, none, some, if◌then◌else◌, arith,
  Option-cases, inl, inr,
}
use operating_systems_cs.Threads.{update, total-update, le-total}
use operating_systems_cs.Files.{
  Store, FileTable, max_open_files, ok, add_reference, unused_from, Opened, fd_dup,
}
use operating_systems_cs.Files.Refs.{
  points_to, references-bound, ref_count, IsCounted, one_more, add_reference_lem, first_unused_lem,
}

-- An object that has a reference is allocated, and takes one more.
pub add_succeeds :
    (s : Store) (a : ℕ) → 0 < ref_count (s.file a) → (s' : Store) × (add_reference s a ≡ ok s')
unfolding add_reference
add_succeeds s a pos = elim (Option-cases (s.file a)) [
  | inl z ↦ absurd (let no_count : ref_count (s.file a) ≡ 0 = rw z refl in omega (arith, no_count))
  | inr (f, y) ↦
      (record s { file = update s.file a (some (one_more f)) }, rw (y, add_reference) refl)
]

-- So does an object that a descriptor points to.
add_reference-succeeds :
    (others : ℕ → ℕ) (s : Store) (files : FileTable) (fd a : ℕ)
    → IsCounted others s files
    → fd < max_open_files
    → files fd ≡ some a
    → (s' : Store) × (add_reference s a ≡ ok s')
add_reference-succeeds others s files fd a counted lt used =
    let pointed : points_to a (files fd) ≡ 1 = rw used (ground arith) in
    add_succeeds s a
      (omega (arith, counted a, le-total (points_to a) max_open_files files fd lt, pointed))

-- What `fd_dup` gives: a descriptor that was unused points to the object of the old one, the others are
-- as before, and the reference counts are right.
pub record IsDup (others : ℕ → ℕ) (files : FileTable) (oldfd : ℕ) (o : Opened) : Type 0 where
  pub was_unused : files o.fd ≡ none
  pub points : (k : ℕ) → o.files k ≡ (if o.fd == k then files oldfd else files k)
  pub counted : IsCounted others o.store o.files

-- If the reference counts are right and there are fewer than 2^32 - 40 references to any object from
-- elsewhere, `fd_dup` of a descriptor in use succeeds when some descriptor is unused: one that was
-- unused then points to the same object, and the reference counts are right again.
pub fd_dup-IsDup :
    (others : ℕ → ℕ) (s : Store) (files : FileTable) (oldfd a : ℕ)
    → IsCounted others s files
    → ((b : ℕ) → others b + 40 < 2 ^ 32)
    → oldfd < max_open_files
    → files oldfd ≡ some a
    → unused_from files 0 < max_open_files
    → (o : Opened) × (fd_dup s files oldfd ≡ ok o) × IsDup others files oldfd o
unfolding fd_dup
fd_dup-IsDup others s files oldfd a counted small lt used room =
    let (s', added) = add_reference-succeeds others s files oldfd a counted lt used in
    let fd = unused_from files 0 in
    let free : files fd ≡ none = first_unused_lem max_open_files files 0 (omega arith) in
    let valid : not (ltb oldfd max_open_files) ≡ false = ground arith in
    let found : (fd == max_open_files) ≡ false = ground arith in
    (
      record { store = s'; files = update files fd (some a); fd = fd },
      rw (valid, used, found, added) refl,
      record {
        was_unused = free;
        points = λ k. rw used refl;
        counted = λ b.
            let no_point : points_to b (files fd) ≡ 0 = rw free refl in
            omega (
              arith,
              add_reference_lem s s' a added
                  (omega (arith, counted a, small a, references-bound files a)) b,
              counted b,
              total-update (points_to b) max_open_files files fd (some a) room,
              no_point,
            );
      },
    )
