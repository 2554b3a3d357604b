-- ===== src/PageTable/Grow.antt =====
-- One more table keeps the tree, and what the other addresses lead to.
use operating_systems_cs.Base.{
  ℕ, ◌+◌, ◌*◌, ◌/◌, ◌%◌, ◌≡◌, refl, ◌<◌, ◌≤◌, Bool, true, false, ◌&&◌, ◌==◌, Option, none, some,
  List, [], ◌∷◌, if◌then◌else◌, arith, length, Option-cases, Bool-cases, inl, inr, ap, ◌∙◌, sym,
  subst, ap₂, ◌⊎◌,
}
use operating_systems_cs.Threads.{update}
use operating_systems_cs.Frames.Source.{FrameSource, Granted}
use operating_systems_cs.PageTable.{
  Machine, present, user, frame_of, descend, set_entry, alloc_table, next_table,
}
use operating_systems_cs.PageTable.Lookup.{lookup}
use operating_systems_cs.PageTable.Tree.{IsTree, new_apart, lookup-new_table}

-- A table that was found or made below the table `t`.
pub record Below {P : Type 0} (in_use : P → ℕ → Bool) (room : P → ℕ) (kernel : List ℕ → Bool)
    (place : ℕ → Option (List ℕ)) (pgd : ℕ) (m : Machine P) (t i : ℕ) (p : List ℕ) (s : ℕ)
    (m' : Machine P) : Type 0 where
  pub place' : ℕ → Option (List ℕ)
  pub tree : IsTree in_use kernel place' pgd m'
  pub there : place' s ≡ some (i ∷ p)
  pub grown : (u : ℕ) (q : List ℕ) → place u ≡ some q → place' u ≡ some q
  pub way : descend m' t i ≡ some s
  pub kept :
      (u k : ℕ) (q : List ℕ)
      → place u ≡ some q
      → present (m.entry u k) ≡ true
      → m'.entry u k ≡ m.entry u k
  pub walks : (is : List ℕ) → length is ≡ 4 → lookup m' pgd is ≡ lookup m pgd is
  pub user_region : (m'.user_pages ≡ m.user_pages) × (m'.refcount ≡ m.refcount)
  pub left : room m.pt_pages ≤ room m'.pt_pages + 1

module _ (src : FrameSource) (kernel : List ℕ → Bool) (place : ℕ → Option (List ℕ)) (pgd : ℕ)
    (m : Machine src.Pages) (tree : IsTree src.in_use kernel place pgd m) (t i : ℕ) (p : List ℕ)
    (at : place t ≡ some p) (short : length p < 3) (own : kernel (i ∷ p) ≡ false) where
  found :
      present (m.entry t i) ≡ true
      → Below src.in_use src.room kernel place pgd m t i p (frame_of (m.entry t i)) m
  found here =
      let u = tree.user_entries t i p at short own here in
      record {
        place' = place;
        tree = tree;
        there = tree.child t i p at short here u;
        grown = λ u q e. e;
        way = rw (here, u) refl;
        kept = λ u k q e f. refl;
        walks = λ is len. refl;
        user_region = (refl, refl);
        left = omega arith;
      }

  -- The machine with a fresh table `f` below the entry.
  abbrev pub with_table : (flags f : ℕ) → src.Pages → Machine src.Pages
  with_table flags f pages =
      set_entry (record m { pt_pages = pages; entry = λ s j. if f == s then 0 else m.entry s j }) t
        i (f * 4096 + flags)

  module _ (flags : ℕ) (g : Granted src.in_use src.room (src.alloc m.pt_pages) m.pt_pages)
      (small : flags < 4096) (odd : flags % 2 ≡ 1) (user_bit : flags / 4 % 2 ≡ 1)
      (missing : present (m.entry t i) ≡ false) where
    abbrev new_machine : Machine src.Pages
    new_machine = with_table flags g.frame g.next

    abbrev new_place : ℕ → Option (List ℕ)
    new_place = update place g.frame (some (i ∷ p))

    abbrev new_entry : ℕ
    new_entry = g.frame * 4096 + flags

    no_place : place g.frame ≡ none
    no_place = elim (Option-cases (place g.frame)) [
      | inl e ↦ e
      | inr (q, e) ↦ absurd (
          let used : src.in_use m.pt_pages g.frame ≡ true = tree.tables_used g.frame q e in
          let fresh : src.in_use m.pt_pages g.frame ≡ false = g.fresh in cc)
    ]

    apart : (u : ℕ) (q : List ℕ) → place u ≡ some q → (g.frame == u) ≡ false
    apart u q e = new_apart src.in_use kernel place pgd m tree u q g.frame e no_place

    leads : frame_of new_entry ≡ g.frame
    leads = omega (arith, g.small, small)

    grown : (u : ℕ) (q : List ℕ) → place u ≡ some q → new_place u ≡ some q
    grown u q e = rw (apart u q e) e

    there : new_place g.frame ≡ some (i ∷ p)
    there = let self : (g.frame == g.frame) ≡ true = ground arith in rw self refl

    -- What an entry of a table with a place is: zero, the new one, or an old one.
    entry_cases :
        (u k : ℕ) (q : List ℕ)
        → new_place u ≡ some q
        → (new_machine.entry u k ≡ 0)
          ⊎ ((new_machine.entry u k ≡ new_entry) × (i ∷ p ≡ k ∷ q))
          ⊎ ((new_machine.entry u k ≡ m.entry u k) × (place u ≡ some q))
    entry_cases u k q e = elim (Bool-cases (g.frame == u)) [
      | inl new ↦
          let other : (t == u) ≡ false = ground (arith, apart t p at) in inl (rw (other, new) refl)
      | inr old ↦
          let e' : place u ≡ some q = rw old at e in
          elim (Bool-cases ((t == u) && (i == k))) [
            | inl here ↦
                let et : t ≡ u = ground arith in
                let ei : i ≡ k = ground arith in
                let c : place u ≡ some p = subst (λ x. place x ≡ some p) et at in
                let ep : p ≡ q = cc in inr (inl (rw here refl, ap₂ (λ x xs. x ∷ xs) ei ep))
            | inr elsewhere ↦ inr (inr (rw (elsewhere, old) refl, e'))
          ]
    ]

    new_child :
        (u k : ℕ) (q : List ℕ)
        → new_place u ≡ some q
        → length q < 3
        → present (new_machine.entry u k) ≡ true
        → user (new_machine.entry u k) ≡ true
        → new_place (frame_of (new_machine.entry u k)) ≡ some (k ∷ q)
    new_child u k q e lt on by_user = elim (entry_cases u k q e) [
      | inl z ↦ absurd (ground arith)
      | inr (inl (v, same)) ↦ ap new_place (ap frame_of v ∙ leads) ∙ there ∙ ap some same
      | inr (inr (v, e')) ↦
          ap new_place (ap frame_of v)
          ∙ grown (frame_of (m.entry u k)) (k ∷ q)
              (tree.child u k q e' lt (sym (ap present v) ∙ on) (sym (ap user v) ∙ by_user))
    ]

    new_user_entries :
        (u k : ℕ) (q : List ℕ)
        → new_place u ≡ some q
        → length q < 3
        → kernel (k ∷ q) ≡ false
        → present (new_machine.entry u k) ≡ true
        → user (new_machine.entry u k) ≡ true
    new_user_entries u k q e lt not_kernel on = elim (entry_cases u k q e) [
      | inl z ↦ absurd (ground arith)
      | inr (inl (v, same)) ↦ ap user v ∙ ground arith
      | inr (inr (v, e')) ↦
          ap user v ∙ tree.user_entries u k q e' lt not_kernel (sym (ap present v) ∙ on)
    ]

    new_tables_used : (u : ℕ) (q : List ℕ) → new_place u ≡ some q → src.in_use g.next u ≡ true
    new_tables_used u q e = elim (Bool-cases (g.frame == u)) [
      | inl new ↦ g.marks u ∙ rw new refl
      | inr old ↦ g.marks u ∙ rw old (tree.tables_used u q (rw old at e))
    ]

    new_way : descend new_machine t i ≡ some g.frame
    new_way =
        let here : ((t == t) && (i == i)) ≡ true = ground arith in
        let on : (present new_entry && user new_entry) ≡ true = ground arith in
        rw (here, on) (ap some leads)

    new_kept :
        (u k : ℕ) (q : List ℕ)
        → place u ≡ some q
        → present (m.entry u k) ≡ true
        → new_machine.entry u k ≡ m.entry u k
    new_kept u k q e on = elim (Bool-cases ((t == u) && (i == k))) [
      | inl here ↦
          let et : t ≡ u = ground arith in
          let ei : i ≡ k = ground arith in
          absurd (
            let gone : present (m.entry u k) ≡ false =
              subst (λ x. present (m.entry x k) ≡ false) et
                (subst (λ y. present (m.entry t y) ≡ false) ei missing) in
            cc)
      | inr elsewhere ↦ rw (elsewhere, apart u q e) refl
    ]

    made : Below src.in_use src.room kernel place pgd m t i p g.frame new_machine
    made = record {
      place' = new_place;
      tree = record {
        root = grown pgd [] tree.root;
        child = new_child;
        user_entries = new_user_entries;
        tables_used = new_tables_used;
      };
      there = there;
      grown = grown;
      way = new_way;
      kept = λ u k q e on. new_kept u k q e on;
      walks = λ is len.
          lookup-new_table src.in_use kernel place pgd m tree new_machine t i g.frame new_entry p at
            short missing no_place leads (λ u k. refl) is pgd [] tree.root (omega arith);
      user_region = (refl, refl);
      left = g.left;
    }

  -- The table below an entry is found, or made while frames are left.
  pub next_table-Below :
      (flags : ℕ)
      → flags < 4096
      → flags % 2 ≡ 1
      → flags / 4 % 2 ≡ 1
      → 0 < src.room m.pt_pages
      → Below src.in_use src.room kernel place pgd m t i p
          (next_table src flags m t i).0
          (next_table src flags m t i).1
  unfolding next_table
  next_table-Below flags small odd user_bit room = elim (Bool-cases (present (m.entry t i))) [
    | inl here ↦ rw here (found here)
    | inr missing ↦
        let g = src.alloc-Granted m.pt_pages room in
        rw (missing, g.granted, alloc_table) (made flags g small odd user_bit missing)
  ]
