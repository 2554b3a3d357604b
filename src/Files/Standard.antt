-- ===== src/Files/Standard.antt =====
-- A new file object that is no pipe keeps the store sound.
use operating_systems_cs.Base.{
  ℕ, ◌+◌, ◌≡◌, ◌≢◌, refl, ◌<◌, true, false, ◌==◌, Option, none, some, arith, subst, sym, ◌∙◌, ap,
}
use native.Mathlib.Decide.{ℕ_discrete}
use operating_systems_cs.Files.{File, Store, pipe_type}
use operating_systems_cs.Files.Make.{alloc_file}
use operating_systems_cs.Files.Refs.{points_to, ref_count}
use operating_systems_cs.Files.Sound.{IsEnd, IsSound}

module _ (refs refs' : ℕ → ℕ) (s : Store) (a : ℕ) (new : File) (v : IsSound refs s)
    (fresh : s.file a ≡ none) (plain : new.type ≢ pipe_type) (once : new.ref_count ≡ 1)
    (more : (b : ℕ) → refs' b ≡ refs b + points_to b (some a)) where
  abbrev made : ℕ → Option File
  made = (alloc_file s a new).file

  -- A file object is the new one, which is no pipe, or an old one.
  data IsMade (b : ℕ) (f : File) : Type 0 where
    the_new : a ≡ b → f.type ≢ pipe_type → f.ref_count ≡ 1 → IsMade b f
    older : s.file b ≡ some f → IsMade b f

  made_cases : (b : ℕ) (f : File) → made b ≡ some f → IsMade b f
  made_cases b f e = elim (ℕ_discrete a b) [
    | yes y ↦
        let t : (a == b) ≡ true = ground arith in
        let z : some (new) ≡ some f = rw t at e in
        let is : new ≡ f = cc in
        the_new y (λ t'. plain (ap (λ x. x.type) is ∙ t')) (ap (λ x. x.ref_count) (sym is) ∙ once)
    | no n ↦ let t : (a == b) ≡ false = ground arith in older (rw t at e)
  ]

  made_live : (b : ℕ) (f : File) → IsMade b f → 0 < f.ref_count
  made_live b f (the_new y t c) = omega (arith, c)
  made_live b f (older e) = v.live b f e

  made-IsEnd : (b : ℕ) (f : File) → IsMade b f → f.type ≡ pipe_type → IsEnd s.pipe f
  made-IsEnd b f (the_new y t c) is_pipe = absurd (t is_pipe)
  made-IsEnd b f (older e) is_pipe = v.ends b f e is_pipe

  made_single :
      (b c : ℕ) (f h : File)
      → IsMade b f
      → IsMade c h
      → f.type ≡ pipe_type
      → h.type ≡ pipe_type
      → f.mode ≡ h.mode
      → f.pipe ≡ h.pipe
      → b ≡ c
  made_single b c f h (the_new y n _) m t t' = absurd (n t)
  made_single b c f h (older e) (the_new y n _) t t' = absurd (n t')
  made_single b c f h (older e) (older e') t t' = v.single b c f h e e' t t'

  pub alloc_file-IsSound : IsSound refs' (alloc_file s a new)
  alloc_file-IsSound = record {
    counted = λ b. elim (ℕ_discrete a b) [
      | yes y ↦
          let none_yet : ref_count (s.file a) ≡ 0 = rw fresh refl in
          let k : ref_count (made a) ≡ refs' a = ground (arith, more a, v.counted a, once) in
          subst (λ k. ref_count (made k) ≡ refs' k) y k
      | no n ↦ ground (arith, more b, v.counted b)
    ];
    live = λ b f e. made_live b f (made_cases b f e);
    ends = λ b f e. made-IsEnd b f (made_cases b f e);
    single = λ b c f h e e'. made_single b c f h (made_cases b f e) (made_cases c h e');
  }
