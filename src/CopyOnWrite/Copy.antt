-- ===== src/CopyOnWrite/Copy.antt =====
-- What `own_frame` does to the frame and the entry of a page.
use operating_systems_cs.Base.{
  ℕ, ◌+◌, ◌*◌, ◌/◌, ◌%◌, ◌^◌, ◌≡◌, ◌≢◌, refl, ◌<◌, ◌≤◌, Bool, true, false, ◌&&◌, ◌==◌, Option, none,
  some, List, [], ◌∷◌, if◌then◌else◌, arith, Bool-cases, Option-cases, inl, inr, ◌∙◌, sym, subst,
}
use native.Mathlib.Decide.{ℕ_discrete}
use operating_systems_cs.Threads.{update}
use operating_systems_cs.Frames.Source.{FrameSource, Granted}
use operating_systems_cs.PageTable.{
  Machine, present, user, frame_of, pgd_index, pud_index, pmd_index, pte_index, set_entry,
  alloc_user, update2,
}
use operating_systems_cs.PageTable.Lookup.{translate}
use operating_systems_cs.PageTable.Tree.{IsTree}
use operating_systems_cs.PageTable.Write.{Reached, page_of, translate-write, write-IsTree}
use operating_systems_cs.PageTable.Same.{translate-same, same-IsTree, same-Reached}
use operating_systems_cs.CopyOnWrite.{own_frame, copy_frame, masked_frame}

-- The page of `addr`, whose entry was `e`, has a frame of its own that the process may write, with the
-- words of the frame it had. Other pages keep their frames; every frame but the new one and the tables
-- keeps its words. The frame it had loses a reference unless it was the only one.
pub record IsPrivate (src : FrameSource) (kernel : List ℕ → Bool) (place : ℕ → Option (List ℕ))
    (pgd addr e : ℕ) (m m' : Machine src.Pages) : Type 0 where
  pub frame : ℕ
  pub bits : ℕ
  pub writable : (bits < 4096) × (bits % 2 ≡ 1) × (bits / 2 % 2 ≡ 1) × (bits / 4 % 2 ≡ 1)
  pub translated :
      (a : ℕ)
      → translate m' pgd a
        ≡ (if page_of a == page_of addr then some (frame * 4096 + bits) else translate m pgd a)
  pub words : (i : ℕ) → m'.entry frame i ≡ m.entry (frame_of e) i
  pub others : (s i : ℕ) → place s ≡ none → s ≢ frame → m'.entry s i ≡ m.entry s i
  pub alone : m'.refcount frame ≡ 1
  pub counts :
      (s : ℕ)
      → s ≢ frame
      → m'.refcount s ≡ (if s == frame_of e then (m.refcount s + 255) % 256 else m.refcount s)
  pub tree : IsTree src.in_use kernel place pgd m'

not_a_table :
    (place : ℕ → Option (List ℕ)) (s t : ℕ) (p : List ℕ)
    → place s ≡ none
    → place t ≡ some p
    → (t == s) ≡ false
not_a_table place s t p free at = elim (ℕ_discrete t s) [
  | yes same ↦ absurd (let c : place s ≡ some p = subst (λ x. place x ≡ some p) same at in cc)
  | no ne ↦ ground arith
]

same_number : (n : ℕ) → (n == n) ≡ true
same_number n = ground arith

module _ (src : FrameSource) (kernel : List ℕ → Bool) (place : ℕ → Option (List ℕ)) (pgd : ℕ)
    (m : Machine src.Pages) (tree : IsTree src.in_use kernel place pgd m) (pt addr : ℕ)
    (reached : Reached place pgd (pgd_index addr) (pud_index addr) (pmd_index addr) m pt)
    (on : (present (m.entry pt (pte_index addr)) && user (m.entry pt (pte_index addr))) ≡ true)
    (small : m.entry pt (pte_index addr) < 2 ^ 44)
    (page : place (frame_of (m.entry pt (pte_index addr))) ≡ none) where
  abbrev old : ℕ
  old = m.entry pt (pte_index addr)

  -- A write of the entry changes no word of a frame that is no table.
  set_elsewhere :
      (v s i : ℕ) (f : ℕ → ℕ → ℕ) → place s ≡ none → update2 f pt (pte_index addr) v s i ≡ f s i
  set_elsewhere v s i f free =
      rw
        (not_a_table place s pt (pmd_index addr ∷ pud_index addr ∷ pgd_index addr ∷ []) free
          reached.at)
        refl

  -- The only user of a frame gets the bit for writing.
  made_writable :
      m.refcount (frame_of old) ≡ 1
      → IsPrivate src kernel place pgd addr old m
          (set_entry m pt (pte_index addr) (old / 4 * 4 + 3))
  made_writable alone =
      let v = old / 4 * 4 + 3 in
      let m' = set_entry m pt (pte_index addr) v in
      let write =
        translate-write src.in_use kernel place pgd m m' tree pt addr v reached (λ t i. refl) in
      let shown : (present v && user v) ≡ true = ground arith in
      let parts : frame_of old * 4096 + v % 4096 ≡ v = omega arith in
      record {
        frame = frame_of old;
        bits = v % 4096;
        writable = (omega arith, omega arith, omega arith, ground arith);
        translated = λ a. write a ∙ rw (shown, parts) refl;
        words = λ i. set_elsewhere v (frame_of old) i m.entry page;
        others = λ s i free ne. set_elsewhere v s i m.entry free;
        alone = alone;
        counts = λ s ne. let is : (s == frame_of old) ≡ false = ground arith in rw is refl;
        tree =
            write-IsTree src.in_use kernel place pgd m m' tree pt addr v reached (λ t i. refl) refl;
      }

  module _ (g : Granted src.in_use src.room (src.alloc m.user_pages) m.user_pages)
      (fresh : place g.frame ≡ none) (apart : g.frame ≢ frame_of old) where
    -- The machine with the copy of the page, before its entry is written.
    abbrev with_copy : Machine src.Pages
    with_copy =
        copy_frame
          (record m {
            user_pages = g.next;
            refcount =
                update (update m.refcount (frame_of old) ((m.refcount (frame_of old) + 255) % 256))
                  g.frame 1;
            user_reg_pages = (m.user_reg_pages + 1) % 2 ^ 64;
          })
          g.frame (masked_frame old)

    tables_kept : (t i : ℕ) (p : List ℕ) → place t ≡ some p → with_copy.entry t i ≡ m.entry t i
    tables_kept t i p at =
        let other : (g.frame == t) ≡ false = elim (ℕ_discrete g.frame t) [
          | yes same ↦
              absurd (let c : place t ≡ none = subst (λ x. place x ≡ none) same fresh in cc)
          | no ne ↦ ground arith
        ] in
        rw other refl

    copied :
        IsPrivate src kernel place pgd addr old m
          (set_entry with_copy pt (pte_index addr) (g.frame * 4096 + 7))
    copied =
        let v = g.frame * 4096 + 7 in
        let m' = set_entry with_copy pt (pte_index addr) v in
        let tree' =
          same-IsTree src.in_use kernel place pgd m with_copy tree tables_kept tree.tables_used in
        let reached' =
          same-Reached src.in_use kernel place pgd m with_copy tree tables_kept addr pt reached in
        let write =
          translate-write src.in_use kernel place pgd with_copy m' tree' pt addr v reached'
            (λ t i. refl) in
        let shown : (present v && user v) ≡ true = ground arith in
        let self = same_number g.frame in
        let source : masked_frame old ≡ frame_of old = omega arith in
        record {
          frame = g.frame;
          bits = 7;
          writable = (omega arith, refl, refl, refl);
          translated = λ a.
              write a
              ∙ rw
                  (shown, translate-same src.in_use kernel place pgd m with_copy tree tables_kept a)
                  refl;
          words = λ i. set_elsewhere v g.frame i with_copy.entry fresh ∙ rw (self, source) refl;
          others = λ s i free ne.
              let other : (g.frame == s) ≡ false = ground arith in
              set_elsewhere v s i with_copy.entry free ∙ rw other refl;
          alone = rw self refl;
          counts = λ s ne. ground arith;
          tree =
              write-IsTree src.in_use kernel place pgd with_copy m' tree' pt addr v reached'
                (λ t i. refl) refl;
        }

  -- The entry gets a frame of its own, while the user region has one.
  pub own_frame-IsPrivate :
      ((t : ℕ) (p : List ℕ) → place t ≡ some p → src.in_use m.user_pages t ≡ true)
      → src.in_use m.user_pages (frame_of old) ≡ true
      → 1 ≤ src.room m.user_pages
      → IsPrivate src kernel place pgd addr old m (own_frame src m pt (pte_index addr))
  unfolding own_frame
  own_frame-IsPrivate tables used room = elim (Bool-cases (m.refcount (frame_of old) == 1)) [
    | inl alone ↦ rw alone (made_writable (ground arith))
    | inr shared ↦
        let g = src.alloc-Granted m.user_pages room in
        let fresh : place g.frame ≡ none = elim (Option-cases (place g.frame)) [
          | inl e ↦ e
          | inr (p, e) ↦ absurd (
              let taken : src.in_use m.user_pages g.frame ≡ true = tables g.frame p e in
              let free : src.in_use m.user_pages g.frame ≡ false = g.fresh in cc)
        ] in
        let apart : g.frame ≢ frame_of old = λ same.
          (let free : src.in_use m.user_pages (frame_of old) ≡ false =
              subst (λ x. src.in_use m.user_pages x ≡ false) same g.fresh in
            let clash : true ≡ false = sym used ∙ free in ground arith) in
        rw (shared, alloc_user, g.granted) (copied g fresh apart)
  ]
