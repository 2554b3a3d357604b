-- ===== src/Files/Fresh.antt =====
-- New objects keep the store sound.
use operating_systems_cs.Base.{
  ℕ, ◌+◌, ◌≡◌, ◌≢◌, ◌⊎◌, refl, ◌<◌, true, false, ◌==◌, Option, none, some, arith, subst, inl, inr,
  sym, ◌∙◌, ap,
}
use native.Mathlib.Decide.{ℕ_discrete}
use operating_systems_cs.Files.{File, Store, pipe_type, o_read, o_write}
use operating_systems_cs.Files.Make.{PipePages, with_pipe, pipe_file, new_pipe}
use operating_systems_cs.Files.Refs.{points_to, ref_count}
use operating_systems_cs.Files.Sound.{IsEnd, IsSound}

-- The pages are not in use.
pub record IsFresh (s : Store) (g : PipePages) : Type 0 where
  pub no_reader : s.file g.reader ≡ none
  pub no_writer : s.file g.writer ≡ none
  pub apart : g.reader ≢ g.writer
  pub no_pipe : s.pipe g.pipe ≡ none

some_inj {ℓ} : {A : Type ℓ} (x y : A) → some x ≡ some y → x ≡ y
some_inj x y e = cc

module _ (refs refs' : ℕ → ℕ) (s : Store) (g : PipePages) (v : IsSound refs s) (fresh : IsFresh s g)
    (more : (b : ℕ)
      → refs' b ≡ refs b + points_to b (some g.reader) + points_to b (some g.writer)) where
  abbrev made : ℕ → Option File
  made = (with_pipe s g).file

  data IsMade (b : ℕ) (f : File) : Type 0 where
    the_reader : g.reader ≡ b → pipe_file g.reader_page g.pipe o_read ≡ f → IsMade b f
    the_writer : g.writer ≡ b → pipe_file g.writer_page g.pipe o_write ≡ f → IsMade b f
    older : s.file b ≡ some f → IsMade b f

  made_cases : (b : ℕ) (f : File) → made b ≡ some f → IsMade b f
  made_cases b f e = elim (ℕ_discrete g.writer b) [
    | yes y ↦
        the_writer y (some_inj _ _ (let t : (g.writer == b) ≡ true = ground arith in (rw t at e)))
    | no n ↦
        let t : (g.writer == b) ≡ false = ground arith in
        elim (ℕ_discrete g.reader b) [
          | yes y ↦
              the_reader y
                (some_inj _ _ (let u : (g.reader == b) ≡ true = ground arith in (rw (t, u) at e)))
          | no m ↦ let u : (g.reader == b) ≡ false = ground arith in older (rw (t, u) at e)
        ]
  ]

  -- The old pipes are not the new one.
  other_pipe : (b : ℕ) (f : File) → s.file b ≡ some f → f.type ≡ pipe_type → f.pipe ≢ some g.pipe
  other_pipe b f e t p =
      let x = v.ends b f e t in
      let at : x.at ≡ g.pipe = some_inj _ _ (sym x.points ∙ p) in
      let gone : none ≡ some x.info = sym fresh.no_pipe ∙ ap s.pipe (sym at) ∙ x.there in
      ground arith

  new-IsEnd :
      (f : File)
      → f.pipe ≡ some g.pipe
      → (f.mode ≡ o_read) ⊎ (f.mode ≡ o_write)
      → IsEnd (with_pipe s g).pipe f
  new-IsEnd f p m = record {
    at = g.pipe;
    info = new_pipe g.pipe_page;
    points = p;
    there = ground arith;
    opened = elim m [ inl r ↦ rw r refl | inr w ↦ rw w refl ];
  }

  made-IsEnd : (b : ℕ) (f : File) → IsMade b f → f.type ≡ pipe_type → IsEnd (with_pipe s g).pipe f
  made-IsEnd b f (the_reader y z) t =
      new-IsEnd f (ap (λ x. x.pipe) (sym z)) (inl (ap (λ x. x.mode) (sym z)))
  made-IsEnd b f (the_writer y z) t =
      new-IsEnd f (ap (λ x. x.pipe) (sym z)) (inr (ap (λ x. x.mode) (sym z)))
  made-IsEnd b f (older e) t =
      let x = v.ends b f e t in
      record {
        at = x.at;
        info = x.info;
        points = x.points;
        there =
            let ne : (g.pipe == x.at) ≡ false = elim (ℕ_discrete g.pipe x.at) [
              | yes y ↦ absurd (other_pipe b f e t (x.points ∙ ap some (sym y)))
              | no n ↦ ground arith
            ] in
            rw ne x.there;
        opened = x.opened;
      }

  made_single :
      (b c : ℕ) (f h : File)
      → IsMade b f
      → IsMade c h
      → f.type ≡ pipe_type
      → h.type ≡ pipe_type
      → f.mode ≡ h.mode
      → f.pipe ≡ h.pipe
      → b ≡ c
  made_single b c f h (older e) (older e') t t' m p = v.single b c f h e e' t t' m p
  made_single b c f h (older e) (the_reader y z) t t' m p =
      absurd (other_pipe b f e t (p ∙ ap (λ x. x.pipe) (sym z)))
  made_single b c f h (older e) (the_writer y z) t t' m p =
      absurd (other_pipe b f e t (p ∙ ap (λ x. x.pipe) (sym z)))
  made_single b c f h (the_reader y z) (older e) t t' m p =
      absurd (other_pipe c h e t' (sym p ∙ ap (λ x. x.pipe) (sym z)))
  made_single b c f h (the_writer y z) (older e) t t' m p =
      absurd (other_pipe c h e t' (sym p ∙ ap (λ x. x.pipe) (sym z)))
  made_single b c f h (the_reader y z) (the_reader y' z') t t' m p = sym y ∙ y'
  made_single b c f h (the_writer y z) (the_writer y' z') t t' m p = sym y ∙ y'
  made_single b c f h (the_reader y z) (the_writer y' z') t t' m p =
      absurd
        (let e : 1 ≡ 2 = ap (λ x. x.mode) z ∙ m ∙ ap (λ x. x.mode) (sym z') in omega (arith, e))
  made_single b c f h (the_writer y z) (the_reader y' z') t t' m p =
      absurd
        (let e : 2 ≡ 1 = ap (λ x. x.mode) z ∙ m ∙ ap (λ x. x.mode) (sym z') in omega (arith, e))

  made_live : (b : ℕ) (f : File) → IsMade b f → 0 < f.ref_count
  made_live b f (the_reader y z) =
      let e : 1 ≡ f.ref_count = ap (λ x. x.ref_count) z in omega (arith, e)
  made_live b f (the_writer y z) =
      let e : 1 ≡ f.ref_count = ap (λ x. x.ref_count) z in omega (arith, e)
  made_live b f (older e) = v.live b f e

  made_count : (b : ℕ) → ref_count (made b) ≡ refs' b
  made_count b =
      let r : ref_count (s.file g.reader) ≡ 0 = rw fresh.no_reader refl in
      let w : ref_count (s.file g.writer) ≡ 0 = rw fresh.no_writer refl in
      elim (ℕ_discrete g.writer b) [
        | yes y ↦
            let a : ref_count (made g.writer) ≡ refs' g.writer =
              ground (arith, more g.writer, v.counted g.writer, fresh.apart) in
            subst (λ k. ref_count (made k) ≡ refs' k) y a
        | no n ↦ elim (ℕ_discrete g.reader b) [
          | yes y ↦
              let a : ref_count (made g.reader) ≡ refs' g.reader =
                ground (arith, more g.reader, v.counted g.reader, fresh.apart) in
              subst (λ k. ref_count (made k) ≡ refs' k) y a
          | no m ↦ ground (arith, more b, v.counted b)
        ]
      ]

  pub with_pipe-IsSound : IsSound refs' (with_pipe s g)
  with_pipe-IsSound = record {
    counted = made_count;
    live = λ b f e. made_live b f (made_cases b f e);
    ends = λ b f e. made-IsEnd b f (made_cases b f e);
    single = λ b c f h e e'. made_single b c f h (made_cases b f e) (made_cases c h e');
  }
