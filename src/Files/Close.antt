-- ===== src/Files/Close.antt =====
-- One more reference, and one less, keep the store sound.
use operating_systems_cs.Base.{
  ℕ, ◌+◌, ◌-◌, ◌%◌, ◌^◌, ◌≡◌, ◌≢◌, refl, ◌<◌, true, false, ◌&&◌, ◌==◌, Option, none, some,
  if◌then◌else◌, arith, subst, Bool-cases, Option-cases, inl, inr, sym, ◌∙◌, ap,
}
use native.Mathlib.Decide.{ℕ_discrete}
use operating_systems_cs.Threads.{update}
use operating_systems_cs.Files.{
  File, PipeInfo, Store, pipe_type, ok, add_reference, close_end, close_pipe, free_file_object,
  free_pipe_info, generic_close, free_after,
}
use operating_systems_cs.Files.Refs.{points_to, ref_count}
use operating_systems_cs.Files.Sound.{is_open, IsEnd, IsSound, recount-IsSound}

-- An object with a reference is allocated.
pub referenced :
    (refs : ℕ → ℕ) (s : Store) (a : ℕ)
    → IsSound refs s
    → 0 < refs a
    → (f : File) × (s.file a ≡ some f)
referenced refs s a v pos = elim (Option-cases (s.file a)) [
  | inl gone ↦
      absurd (let z : ref_count (s.file a) ≡ 0 = rw gone refl in omega (arith, z, v.counted a))
  | inr there ↦ there
]

pub add_reference-IsSound :
    (refs : ℕ → ℕ) (s : Store) (a : ℕ)
    → IsSound refs s
    → 0 < refs a
    → refs a + 1 < 2 ^ 32
    → (s' : Store) × (add_reference s a ≡ ok s') × IsSound (λ b. refs b + points_to b (some a)) s'
unfolding add_reference
add_reference-IsSound refs s a v pos small =
    let (f, here) = referenced refs s a v pos in
    let count : f.ref_count ≡ refs a = sym (ap ref_count here) ∙ v.counted a in
    (
      record s {
        file = update s.file a (some (record f { ref_count = (f.ref_count + 1) % 2 ^ 32 }));
      },
      rw (here, add_reference) refl,
      recount-IsSound refs (λ b. refs b + points_to b (some a)) s v a f here
          ((f.ref_count + 1) % 2 ^ 32) (ground (arith, count)) (omega (arith, count))
          (λ b ne. ground arith),
    )

-- Closing an end leaves the other end as it was.
other_end :
    (m n : ℕ) (q : PipeInfo)
    → is_open m q ≡ true
    → is_open n q ≡ true
    → m ≢ n
    → is_open n (close_end m q) ≡ true
other_end m n q a b ne = elim (ℕ_discrete m 1) [ yes y ↦ ground arith | no z ↦ ground arith ]

open_not_closed :
    (n : ℕ) (q : PipeInfo) → is_open n q ≡ true → ((q.is_wopen == 0) && (q.is_ropen == 0)) ≡ false
open_not_closed n q o = ground arith

-- The object at `a` goes, and the pipes of the others keep their ends.
module _ (refs refs' : ℕ → ℕ) (s : Store) (v : IsSound refs s) (a : ℕ) (gone : refs' a ≡ 0)
    (same : (b : ℕ) → a ≢ b → refs b ≡ refs' b) where
  old_file : (b : ℕ) (g : File) → update s.file a none b ≡ some g → (a ≢ b) × (s.file b ≡ some g)
  old_file b g e = elim (ℕ_discrete a b) [
    | yes y ↦ absurd (ground (arith, e))
    | no n ↦ (n, ground (arith, e))
  ]

  remove-IsSound :
      (pipes : ℕ → Option PipeInfo) (count : ℕ)
      → ((b : ℕ) (g : File) → a ≢ b → s.file b ≡ some g → g.type ≡ pipe_type → IsEnd pipes g)
      → IsSound refs' (record s { file = update s.file a none; pipe = pipes; file_objects = count })
  remove-IsSound pipes count ends = record {
    counted = λ b. elim (ℕ_discrete a b) [
      | yes y ↦ ground arith
      | no n ↦ ground (arith, v.counted b, same b)
    ];
    live = λ b g e. v.live b g (old_file b g e).1;
    ends = λ b g e. ends b g (old_file b g e).0 (old_file b g e).1;
    single = λ b c g h e e'. v.single b c g h (old_file b g e).1 (old_file c h e').1;
  }

  -- The end of another object when the end of `f` is closed.
  module _ (f : File) (here : s.file a ≡ some f) (is_pipe : f.type ≡ pipe_type)
      (w : IsEnd s.pipe f) where
    shared_open :
        (b : ℕ) (g : File)
        → a ≢ b
        → s.file b ≡ some g
        → g.type ≡ pipe_type
        → (x : IsEnd s.pipe g) → x.at ≡ w.at
        → is_open g.mode (close_end f.mode w.info) ≡ true
    shared_open b g ne there piped x same_at =
        let one : some x.info ≡ some w.info = sym x.there ∙ ap s.pipe same_at ∙ w.there in
        let info : x.info ≡ w.info = cc in
        let same_pipe : f.pipe ≡ g.pipe = w.points ∙ ap some (sym same_at) ∙ sym x.points in
        other_end f.mode g.mode w.info w.opened (subst (λ q. is_open g.mode q ≡ true) info x.opened)
          (λ m. ne (v.single a b f g here there is_pipe piped m same_pipe))

    keep-IsEnd :
        (b : ℕ) (g : File)
        → a ≢ b
        → s.file b ≡ some g
        → g.type ≡ pipe_type
        → IsEnd (update s.pipe w.at (some (close_end f.mode w.info))) g
    keep-IsEnd b g ne there piped =
        let x = v.ends b g there piped in
        elim (ℕ_discrete w.at x.at) [
          | yes y ↦ record {
            at = w.at;
            info = close_end f.mode w.info;
            points = x.points ∙ ap some (sym y);
            there = ground arith;
            opened = shared_open b g ne there piped x (sym y);
          }
          | no n ↦ record {
            at = x.at;
            info = x.info;
            points = x.points;
            there =
                let e : update s.pipe w.at (some (close_end f.mode w.info)) x.at ≡ s.pipe x.at =
                  ground arith in
                e ∙ x.there;
            opened = x.opened;
          }
        ]

    lose_pipe :
        (((close_end f.mode w.info).is_wopen == 0) && ((close_end f.mode w.info).is_ropen == 0))
          ≡ true
        → (b : ℕ) (g : File) → a ≢ b
        → s.file b ≡ some g
        → g.type ≡ pipe_type
        → IsEnd (update s.pipe w.at none) g
    lose_pipe closed b g ne there piped =
        let x = v.ends b g there piped in
        elim (ℕ_discrete w.at x.at) [
          | yes y ↦ absurd (
              let z =
                open_not_closed g.mode (close_end f.mode w.info)
                  (shared_open b g ne there piped x (sym y)) in
              let c : true ≡ false = sym closed ∙ z in ground arith)
          | no n ↦ record {
            at = x.at;
            info = x.info;
            points = x.points;
            there =
                let e : update s.pipe w.at none x.at ≡ s.pipe x.at = ground arith in e ∙ x.there;
            opened = x.opened;
          }
        ]

    close_last_pipe : (s' : Store) × (free_after a (close_pipe s f) ≡ ok s') × IsSound refs' s'
    unfolding close_pipe
    close_last_pipe =
        elim (Bool-cases (
          ((close_end f.mode w.info).is_wopen == 0) && ((close_end f.mode w.info).is_ropen == 0))) [
            | inl closed ↦ (
              free_file_object (free_pipe_info s w.at) a,
              rw (w.points, w.there, closed, close_pipe) refl,
              remove-IsSound (update s.pipe w.at none) _ (lose_pipe closed),
            )
            | inr still ↦ (
              free_file_object
                  (record s { pipe = update s.pipe w.at (some (close_end f.mode w.info)) }) a,
              rw (w.points, w.there, still, close_pipe) refl,
              remove-IsSound (update s.pipe w.at (some (close_end f.mode w.info))) _ keep-IsEnd,
            )
          ]

  close_last :
      (f : File)
      → s.file a ≡ some f
      → (s' : Store) × (free_after a (if f.type == pipe_type then close_pipe s f else ok s) ≡ ok s')
        × IsSound refs' s'
  close_last f here = elim (ℕ_discrete f.type pipe_type) [
    | yes is_pipe ↦
        let t : (f.type == pipe_type) ≡ true = ground arith in
        rw t (close_last_pipe f here is_pipe (v.ends a f here is_pipe))
    | no other ↦
        let t : (f.type == pipe_type) ≡ false = ground arith in
        rw t (free_file_object s a, refl, remove-IsSound s.pipe _ (λ b g ne. v.ends b g))
  ]

-- `generic_close` of an object that has a reference takes one reference from it.
pub generic_close-IsSound :
    (refs refs' : ℕ → ℕ) (s : Store) (a : ℕ)
    → IsSound refs s
    → ((b : ℕ) → refs b ≡ refs' b + points_to b (some a))
    → refs a < 2 ^ 32
    → (s' : Store) × (generic_close s (some a) ≡ ok s') × IsSound refs' s'
unfolding generic_close
generic_close-IsSound refs refs' s a v less small =
    let (f, here) = referenced refs s a v (ground (arith, less a)) in
    let count : f.ref_count ≡ refs a = sym (ap ref_count here) ∙ v.counted a in
    elim (ℕ_discrete f.ref_count 1) [
      | yes last ↦
          let t : (f.ref_count == 1) ≡ true = ground arith in
          let (s', run, sound) =
            close_last refs refs' s v a (ground (arith, less a, count))
              (λ b ne. ground (arith, less b)) f here in
          (s', rw (here, t, generic_close) run, sound)
      | no more ↦
          let t : (f.ref_count == 1) ≡ false = ground arith in
          (
            record s {
              file =
                  update s.file a
                    (some (record f { ref_count = (f.ref_count + 2 ^ 32 - 1) % 2 ^ 32 }));
            },
            rw (here, t, generic_close) refl,
            recount-IsSound refs refs' s v a f here ((f.ref_count + 2 ^ 32 - 1) % 2 ^ 32)
                (ground (arith, count, less a)) (ground (arith, count, v.live a f here))
                (λ b ne. ground (arith, less b)),
          )
    ]
