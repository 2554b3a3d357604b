-- ===== src/HashTable/Insert.antt =====
-- `insert_update` keeps the table valid and changes the content of one key.
use operating_systems_cs.Base.{
  ℕ, ◌+◌, ◌%◌, ◌^◌, ◌≡◌, ◌≢◌, refl, ◌<◌, Bool, true, false, not, ◌&&◌, ◌||◌, ◌==◌, some, arith, inl,
  inr, Bool-cases, ◌⊎◌, ◌∙◌, ap, sym, ltb, if◌then◌else◌,
}
use operating_systems_cs.Threads.{update, total, total-update}
use operating_systems_cs.HashTable.{
  Entry, Table, Op, done, hashfunc, lookup, put_update, put_fresh, put_at, insert_update,
}
use operating_systems_cs.HashTable.Probe.{Stopped, start_probe-Stopped, slot_lem, hashfunc-lt}
use operating_systems_cs.HashTable.Invariant.{
  Reachable, IsValid, IsValid-replace, stops_at_key, replace, occupied,
}
use operating_systems_cs.HashTable.Lookup.{ctr_in_table, lookup-Holds, lookup-replace}

-- What a call that returns has checked, where its loop stopped, and what it wrote.
pub record Inserted (h : Table) (op : Op) (h' : Table) : Type 0 where
  pub room : h.used < h.table_size
  pub key_pos : op.key ≢ 0
  pub ctr : ℕ
  pub moved : Bool
  pub stopped : Stopped h op.key (hashfunc op.key h.table_size) ctr moved
  pub not_round : ((ctr == hashfunc op.key h.table_size) && moved) ≡ false
  pub written :
      (((h.table ctr).key ≡ op.key) × (h' ≡ put_update h op ctr))
      ⊎ (((h.table ctr).key ≡ 0) × (h' ≡ put_fresh h op ctr))

put_at-cases :
    (h : Table) (op : Op) (ctr : ℕ) (h' : Table)
    → put_at h op ctr ≡ done h'
    → (((h.table ctr).key ≡ op.key) × (h' ≡ put_update h op ctr))
      ⊎ (((h.table ctr).key ≡ 0) × (h' ≡ put_fresh h op ctr))
put_at-cases h op ctr h' e = elim (Bool-cases ((h.table ctr).key == op.key)) [
  | inl hit ↦ inl (ground arith, sym (done-eq (rw hit at e)))
  | inr miss ↦ elim (Bool-cases ((h.table ctr).key == 0)) [
    | inl empty ↦ inr (ground arith, sym (done-eq (rw (miss, empty) at e)))
    | inr full ↦ absurd (cc (rw (miss, full) at e))
  ]
]
  where
    done-eq : {a b : Table} → done a ≡ done b → a ≡ b
    done-eq p = cc

insert_update-Inserted :
    (h : Table) (op : Op) (h' : Table)
    → 0 < h.table_size
    → insert_update h op ≡ done h'
    → Inserted h op h'
unfolding insert_update
insert_update-Inserted h op h' pos e =
    let (ctr, moved, run, s) = start_probe-Stopped h op.key pos in
    elim (Bool-cases (not (ltb h.used h.table_size) || (op.key == 0))) [
      | inl bad ↦ absurd (cc (rw (bad, insert_update) at e))
      | inr good ↦ elim (Bool-cases ((ctr == hashfunc op.key h.table_size) && moved)) [
        | inl round ↦ absurd (cc (rw (good, run, round, insert_update) at e))
        | inr stops ↦ record {
          room = ground arith;
          key_pos = ground arith;
          ctr = ctr;
          moved = moved;
          stopped = s;
          not_round = stops;
          written = put_at-cases h op ctr h' (rw (good, run, stops, insert_update) at e);
        }
      ]
    ]

-- A loop that has not made a whole round has stopped at a slot that its key can reach.
Stopped-Reachable :
    (h : Table) (key ctr : ℕ) (moved : Bool)
    → 0 < h.table_size
    → Stopped h key (hashfunc key h.table_size) ctr moved
    → ((ctr == hashfunc key h.table_size) && moved) ≡ false
    → Reachable h key ctr
Stopped-Reachable h key ctr moved pos s stops = record {
  d = s.d;
  within = ground (
    arith,
    s.at,
    s.has_moved,
    hashfunc-lt key h.table_size pos,
    slot_lem h.table_size (hashfunc key h.table_size) s.d,
  );
  at = s.at;
  chain = λ j lt. ground (arith, s.passed j lt);
}

module _ (h : Table) (op : Op) (h' : Table) (v : IsValid h) (w : Inserted h op h') where
  open w use {ctr, moved, stopped}

  ctr_within : ctr < h.table_size
  ctr_within = ctr_in_table h op.key _ ctr moved v.size_pos stopped

  reach : Reachable h op.key ctr
  reach = Stopped-Reachable h op.key ctr moved v.size_pos stopped w.not_round

  -- No other slot has the key.
  alone : (i : ℕ) → i < h.table_size → i ≢ ctr → (h.table i).key ≢ 0 → (h.table i).key ≢ op.key
  alone i lt other ne same =
      let hit : (h.table ctr).key ≡ op.key =
        stops_at_key h op.key _ i ctr moved refl (rw same at (v.reachable i lt ne)) same stopped in
      other (v.unique i ctr lt ctr_within ne (same ∙ sym hit))

  abbrev written_entry : Entry
  written_entry = record {
    id = op.id % 2 ^ 32;
    datalen = op.datalen;
    key = op.key;
    content = op.content;
  }

  -- Both writes put the same entry into the slot; a fresh one counts.
  abbrev new_used : ℕ
  new_used = if (h.table ctr).key == op.key then h.used else h.used + 1

  as_replace : h' ≡ replace h ctr written_entry new_used
  as_replace = elim w.written [
    | inl (hit, e) ↦
        let kept : new_used ≡ h.used = ground arith in
        e
        ∙ ap (λ k. replace h ctr (record written_entry { key = k }) h.used) hit
        ∙ ap (replace h ctr written_entry) (sym kept)
    | inr (empty, e) ↦
        let more : (h.used + 1) % 2 ^ 32 ≡ new_used =
          ground (arith, w.room, v.size_max, w.key_pos) in
        e ∙ ap (replace h ctr written_entry) more
  ]

  counted : new_used ≡ total occupied h.table_size (update h.table ctr written_entry)
  counted = ground (
    arith,
    v.counted,
    w.written,
    w.key_pos,
    total-update occupied h.table_size h.table ctr written_entry ctr_within,
  )

  replaced-IsValid : IsValid (replace h ctr written_entry new_used)
  replaced-IsValid =
      IsValid-replace h ctr written_entry new_used v (ground (arith, w.key_pos)) (λ _. reach) alone
        counted

  inserted-IsValid : IsValid h'
  inserted-IsValid = rw as_replace replaced-IsValid

  inserted-lookup :
      (key : ℕ)
      → key ≢ 0
      → lookup h' key
        ≡ (if key == op.key then done (some (op.datalen, op.content)) else lookup h key)
  inserted-lookup key ne = rw as_replace (elim (Bool-cases (key == op.key)) [
    | inl same ↦
        let here : (ctr == ctr) ≡ true = ground arith in
        rw same (
          lookup-Holds (replace h ctr written_entry new_used) key op.datalen op.content ctr
            replaced-IsValid ne
            (record {
              within = ctr_within;
              has_key = rw here (ground arith);
              has_datalen = rw here refl;
              has_content = rw here refl;
            }))
    | inr other ↦ rw other (
        lookup-replace h ctr new_used key written_entry v replaced-IsValid ne
          (ground (arith, w.written)) (ground arith))
  ])

-- A call of `insert_update` that returns leaves a valid table valid: each key can still be reached
-- from its first slot, stands in one slot only, and `used` counts the slots with a key.
pub insert_update-IsValid :
    (h : Table) (op : Op) (h' : Table) → IsValid h → insert_update h op ≡ done h' → IsValid h'
insert_update-IsValid h op h' v e =
    inserted-IsValid h op h' v (insert_update-Inserted h op h' v.size_pos e)

-- After a call of `insert_update` on a valid table that returns, `lookup` of the key of the operation
-- gives its data,
-- and `lookup` of any other key that is not 0 gives what it gave before.
pub lookup-insert_update :
    (h : Table) (op : Op) (h' : Table) (key : ℕ)
    → IsValid h
    → insert_update h op ≡ done h'
    → key ≢ 0
    → lookup h' key ≡ (if key == op.key then done (some (op.datalen, op.content)) else lookup h key)
lookup-insert_update h op h' key v e =
    inserted-lookup h op h' v (insert_update-Inserted h op h' v.size_pos e) key
