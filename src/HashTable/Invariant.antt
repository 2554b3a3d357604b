-- ===== src/HashTable/Invariant.antt =====
-- What keeps every key of the table within reach of its probe.
use native.Mathlib.Decide.{dec_lt, ℕ_discrete}
use operating_systems_cs.Base.{
  ℕ, ◌≡◌, ◌≢◌, refl, ◌<◌, Bool, true, false, ◌==◌, arith, if◌then◌else◌, ◌^◌, ◌∙◌, sym, ap,
}
use operating_systems_cs.Threads.{update, total, total-eq_zero}
use operating_systems_cs.HashTable.{Entry, Table, is_used, hashfunc, init_hashtable, empty_entry}
use operating_systems_cs.HashTable.Probe.{slot, is_blocked, Stopped}

-- The slot `i` is `d` places behind the first slot of `key`, and all slots in between are in use
-- or were once.
pub record Reachable (h : Table) (key i : ℕ) : Type 0 where
  pub d : ℕ
  pub within : d < h.table_size
  pub at : i ≡ slot h (hashfunc key h.table_size) d
  pub chain : (j : ℕ) → j < d → is_used (h.table (slot h (hashfunc key h.table_size) j)) ≡ true

abbrev pub occupied : Entry → ℕ
occupied e = if e.key == 0 then 0 else 1

pub record IsValid (h : Table) : Type 0 where
  pub size_pos : 0 < h.table_size
  pub size_max : h.table_size < 2 ^ 32
  pub reachable : (i : ℕ) → i < h.table_size → (h.table i).key ≢ 0 → Reachable h (h.table i).key i
  pub unique :
      (i j : ℕ)
      → i < h.table_size
      → j < h.table_size
      → (h.table i).key ≢ 0
      → (h.table i).key ≡ (h.table j).key
      → i ≡ j
  pub counted : h.used ≡ total occupied h.table_size h.table

-- The probe for a key stops at a slot of the key if one can be reached.
pub stops_at_key :
    (h : Table) (key hashval i ctr : ℕ) (moved : Bool)
    → hashval ≡ hashfunc key h.table_size
    → Reachable h key i
    → (h.table i).key ≡ key
    → Stopped h key hashval ctr moved
    → (h.table ctr).key ≡ key
stops_at_key h key hashval i ctr moved e r k s = elim (dec_lt s.d r.d) [
  | yes before ↦
      let used : is_used (h.table ctr) ≡ true =
        ap (λ t. is_used (h.table t)) (s.at ∙ ap (λ t. slot h t s.d) e) ∙ r.chain s.d before in
      ground (arith, s.open_slot (omega (arith, r.within)))
  | no after ↦ elim (ℕ_discrete s.d r.d) [
    | yes same ↦
        ap (λ t. (h.table t).key)
          (s.at
            ∙ ap (λ t. slot h t s.d) e
            ∙ ap (λ t. slot h (hashfunc key h.table_size) t) same
            ∙ sym r.at)
        ∙ k
    | no beyond ↦
        let blocked : is_blocked (h.table i) key ≡ true =
          ap (λ t. is_blocked (h.table t) key) (r.at ∙ ap (λ t. slot h t r.d) (sym e))
          ∙ s.passed r.d (omega arith) in
        absurd (ground arith)
  ]
]

-- One slot rewritten, and the count of used slots.
abbrev pub replace : Table → ℕ → Entry → ℕ → Table
replace h ctr e u = record h { used = u; table = update h.table ctr e }

Reachable-replace :
    (h : Table) (ctr : ℕ) (e : Entry) (u key i : ℕ)
    → is_used e ≡ true
    → Reachable h key i
    → Reachable (replace h ctr e u) key i
Reachable-replace h ctr e u key i used r = record {
  d = r.d;
  within = r.within;
  at = r.at;
  chain = λ j lt. ground (arith, r.chain j lt);
}

module _ (h : Table) (ctr : ℕ) (e : Entry) (u : ℕ) (v : IsValid h) (used : is_used e ≡ true)
    (reach : e.key ≢ 0 → Reachable h e.key ctr)
    (fresh : (i : ℕ)
      → i < h.table_size
      → i ≢ ctr
      → (h.table i).key ≢ 0
      → (h.table i).key ≢ e.key) where
  all-Reachable :
      (i : ℕ)
      → i < h.table_size
      → (update h.table ctr e i).key ≢ 0
      → Reachable (replace h ctr e u) (update h.table ctr e i).key i
  all-Reachable i lt ne = elim (ℕ_discrete ctr i) [
    | yes same ↦
        let here : (ctr == i) ≡ true = ground arith in
        rw here
          (Reachable-replace h ctr e u e.key i used (rw (← same) (reach (λ z. ne (rw here z)))))
    | no other ↦
        let away : (ctr == i) ≡ false = ground arith in
        rw away (
          Reachable-replace h ctr e u (h.table i).key i used
            (v.reachable i lt (λ z. ne (rw away z))))
  ]

  pub IsValid-replace :
      u ≡ total occupied h.table_size (update h.table ctr e) → IsValid (replace h ctr e u)
  IsValid-replace counted = record {
    size_pos = v.size_pos;
    size_max = v.size_max;
    reachable = all-Reachable;
    unique = λ i j a b ne same. ground (arith, v.unique i j a b, fresh i a, fresh j b);
    counted = counted;
  }

-- The table that `init_hashtable` makes is valid, for a size that an `unsigned` holds.
pub init_hashtable-IsValid : (size : ℕ) → 0 < size → size < 2 ^ 32 → IsValid (init_hashtable size)
unfolding init_hashtable
init_hashtable-IsValid size pos small = record {
  size_pos = pos;
  size_max = small;
  reachable = λ i lt ne. absurd (ne refl);
  unique = λ i j a b ne same. absurd (ne refl);
  counted = sym (total-eq_zero occupied size (λ _. empty_entry) (λ i lt. refl));
}
