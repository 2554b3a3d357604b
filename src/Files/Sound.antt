-- ===== src/Files/Sound.antt =====
-- When the store fits the references to it: the counts are right, every object has a reference, and the
-- end of a pipe that a file object stands for is open and is no other object's.
use operating_systems_cs.Base.{
  ℕ, ◌≡◌, ◌≢◌, refl, ◌<◌, Bool, true, false, not, ◌==◌, Option, some, if◌then◌else◌, arith, subst,
  sym, ◌∙◌, ap,
}
use native.Mathlib.Decide.{ℕ_discrete}
use operating_systems_cs.Threads.{update}
use operating_systems_cs.Files.{File, PipeInfo, Store, pipe_type, o_read, o_write}
use operating_systems_cs.Files.Refs.{ref_count}

abbrev pub is_open : (mode : ℕ) → PipeInfo → Bool
is_open mode q =
    if mode == o_read
    then not (q.is_ropen == 0)
    else if mode == o_write
    then not (q.is_wopen == 0)
    else false

-- The pipe of a file object, with its end open.
pub record IsEnd (pipe : ℕ → Option PipeInfo) (f : File) : Type 0 where
  pub at : ℕ
  pub info : PipeInfo
  pub points : f.pipe ≡ some at
  pub there : pipe at ≡ some info
  pub opened : is_open f.mode info ≡ true

pub record IsSound (refs : ℕ → ℕ) (s : Store) : Type 0 where
  pub counted : (a : ℕ) → ref_count (s.file a) ≡ refs a
  pub live : (a : ℕ) (f : File) → s.file a ≡ some f → 0 < f.ref_count
  pub ends : (a : ℕ) (f : File) → s.file a ≡ some f → f.type ≡ pipe_type → IsEnd s.pipe f
  pub single :
      (a b : ℕ) (f g : File)
      → s.file a ≡ some f
      → s.file b ≡ some g
      → f.type ≡ pipe_type
      → g.type ≡ pipe_type
      → f.mode ≡ g.mode
      → f.pipe ≡ g.pipe
      → a ≡ b

pub IsSound-refs :
    (refs refs' : ℕ → ℕ) (s : Store)
    → ((a : ℕ) → refs a ≡ refs' a)
    → IsSound refs s
    → IsSound refs' s
IsSound-refs refs refs' s same v = record {
  counted = λ a. v.counted a ∙ same a;
  live = v.live;
  ends = v.ends;
  single = v.single;
}

some-eq {ℓ} : {A : Type ℓ} (x y : A) → some x ≡ some y → x ≡ y
some-eq x y e = cc

-- The object at `a` with another count is still the same file.
module _ (refs refs' : ℕ → ℕ) (s : Store) (v : IsSound refs s) (a : ℕ) (f : File)
    (here : s.file a ≡ some f) (count : ℕ) where
  abbrev recounted : ℕ → Option File
  recounted = update s.file a (some (record f { ref_count = count }))

  -- An object of the new store is one of the old store but for the count.
  before :
      (b : ℕ) (g : File)
      → recounted b ≡ some g
      → (g' : File) × (s.file b ≡ some g')
        × (g.type ≡ g'.type)
        × (g.mode ≡ g'.mode)
        × (g.pipe ≡ g'.pipe)
        × ((a ≡ b) → g.ref_count ≡ count)
        × ((a ≢ b) → g ≡ g')
  before b g e = elim (ℕ_discrete a b) [
    | yes y ↦
        let z : record f { ref_count = count } ≡ g = some-eq _ _ (ground (arith, e)) in
        (
          f,
          subst (λ k. s.file k ≡ some f) y here,
          ap (λ x. x.type) (sym z),
          ap (λ x. x.mode) (sym z),
          ap (λ x. x.pipe) (sym z),
          (λ _. ap (λ x. x.ref_count) (sym z)),
          (λ n. absurd (n y)),
        )
    | no n ↦ (g, ground (arith, e), refl, refl, refl, (λ y. absurd (n y)), (λ _. refl))
  ]

  pub recount-IsSound :
      (count ≡ refs' a)
      → 0 < count
      → ((b : ℕ) → a ≢ b → refs b ≡ refs' b)
      → IsSound refs' (record s { file = recounted })
  recount-IsSound right pos same = record {
    counted = λ b. elim (ℕ_discrete a b) [
      | yes y ↦ subst (λ k. ref_count (recounted k) ≡ refs' k) y (ground arith)
      | no n ↦ ground (arith, v.counted b, same b)
    ];
    live = λ b g e.
        let (g', old, t, m, p, c, o) = before b g e in
        elim (ℕ_discrete a b) [ yes y ↦ omega (arith, c y) | no n ↦ rw (o n) (v.live b g' old) ];
    ends = λ b g e is_pipe.
        let (g', old, t, m, p, c, o) = before b g e in
        let w = v.ends b g' old (sym t ∙ is_pipe) in
        record {
          at = w.at;
          info = w.info;
          points = p ∙ w.points;
          there = w.there;
          opened = rw m w.opened;
        };
    single = λ b c g h e e' tg th same_mode same_pipe.
        let (g', old, t, m, p, _, _) = before b g e in
        let (h', old', t', m', p', _, _) = before c h e' in
        v.single b c g' h' old old' (sym t ∙ tg) (sym t' ∙ th) (sym m ∙ same_mode ∙ m')
          (sym p ∙ same_pipe ∙ p');
  }
