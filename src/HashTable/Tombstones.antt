-- ===== src/HashTable/Tombstones.antt =====
-- Deleted slots are not used again: a table can refuse a key although it has room.
use native.Mathlib.Decide.{dec_lt, ℕ_discrete}
use operating_systems_cs.Base.{
  ℕ, zero, suc, ◌+◌, ◌-◌, ◌≡◌, ◌≢◌, ◌↔◌, ◌⊎◌, ◌<◌, Bool, true, false, not, ◌&&◌, ◌||◌, ◌==◌, arith,
  inl, inr, Bool-cases, ◌∙◌, ap, ltb,
}
use operating_systems_cs.HashTable.{
  Entry, Table, Op, done, asserted, hashfunc, insert_update, put_update, put_fresh,
}
use operating_systems_cs.HashTable.Probe.{
  slot, is_blocked, Stopped, start_probe-Stopped, slot_lem, hashfunc-lt,
}
use operating_systems_cs.HashTable.Lookup.{ctr_in_table}

-- Where no slot is open for the key, the assertion behind the loop fails.
pub insert_update-full :
    (h : Table) (op : Op)
    → 0 < h.table_size
    → ((i : ℕ) → i < h.table_size → is_blocked (h.table i) op.key ≡ true)
    → insert_update h op ≡ asserted
unfolding insert_update
insert_update-full h op pos blocked =
    let (ctr, moved, run, s) = start_probe-Stopped h op.key pos in
    let here = blocked ctr (ctr_in_table h op.key _ ctr moved pos s) in
    let round : ((ctr == hashfunc op.key h.table_size) && moved) ≡ true = ground (
      arith,
      s.at,
      s.within,
      s.has_moved,
      s.open_slot,
      hashfunc-lt op.key h.table_size pos,
      slot_lem h.table_size (hashfunc op.key h.table_size) s.d,
    ) in
    elim (Bool-cases (not (ltb h.used h.table_size) || (op.key == 0))) [
      | inl bad ↦ rw (bad, insert_update)
      | inr good ↦ rw (good, run, round, insert_update)
    ]

-- A slot is some number of places behind any other.
slot_distance :
    (h : Table) (hashval i : ℕ)
    → hashval < h.table_size
    → i < h.table_size
    → (j : ℕ) × (j < h.table_size) × (slot h hashval j ≡ i)
slot_distance h hashval i lt in_table = elim (dec_lt i hashval) [
  | yes before ↦ (
    i + h.table_size - hashval,
    omega arith,
    slot_lem h.table_size hashval (i + h.table_size - hashval) lt (omega arith) ∙ ground arith,
  )
  | no behind ↦ (
    i - hashval,
    omega arith,
    slot_lem h.table_size hashval (i - hashval) lt (omega arith) ∙ ground arith,
  )
]

-- A probe that could stop somewhere does not make a whole round.
open_slot-stops :
    (h : Table) (key hashval ctr i : ℕ) (moved : Bool)
    → hashval < h.table_size
    → (s : Stopped h key hashval ctr moved) → i < h.table_size
    → is_blocked (h.table i) key ≡ false
    → s.d < h.table_size
open_slot-stops h key hashval ctr i moved lt s in_table free = elim (dec_lt s.d h.table_size) [
  | yes below ↦ below
  | no above ↦
      let (j, j-lt, e) = slot_distance h hashval i lt in_table in
      absurd
        (cc (s.passed j (omega (arith, s.within)), free, ap (λ t. is_blocked (h.table t) key) e))
]

-- It returns if some slot is open for the key.
insert_update-returns :
    (h : Table) (op : Op) (i : ℕ)
    → op.key ≢ 0
    → h.used < h.table_size
    → i < h.table_size
    → is_blocked (h.table i) op.key ≡ false
    → (h' : Table) × (insert_update h op ≡ done h')
unfolding insert_update
insert_update-returns h op i key_pos room in_table free =
    let (ctr, moved, run, s) = start_probe-Stopped h op.key (omega arith) in
    let lt = hashfunc-lt op.key h.table_size (omega arith) in
    let below = open_slot-stops h op.key _ ctr i moved lt s in_table free in
    let here = s.open_slot below in
    let good : (not (ltb h.used h.table_size) || (op.key == 0)) ≡ false = ground arith in
    let stops : ((ctr == hashfunc op.key h.table_size) && moved) ≡ false =
      ground (arith, s.at, s.has_moved, slot_lem h.table_size (hashfunc op.key h.table_size) s.d) in
    elim (Bool-cases ((h.table ctr).key == op.key)) [
      | inl hit ↦ (put_update h op ctr, rw (good, run, stops, hit, insert_update))
      | inr miss ↦ (
        put_fresh h op ctr,
        rw (good, run, stops, miss, never_used (h.table ctr) op.key here miss, insert_update),
      )
    ]
  where
    never_used :
        (e : Entry) (key : ℕ)
        → is_blocked e key ≡ false
        → (e.key == key) ≡ false
        → (e.key == 0) ≡ true
    never_used e key a b = ground arith

-- Some slot is open for a key, or none is.
open_or_full :
    (h : Table) (key n : ℕ)
    → ((i : ℕ) × (i < n) × (is_blocked (h.table i) key ≡ false))
      ⊎ ((i : ℕ) → i < n → is_blocked (h.table i) key ≡ true)
open_or_full h key zero = inr (λ i lt. absurd (omega arith))
open_or_full h key (suc n) = elim (Bool-cases (is_blocked (h.table n) key)) [
  | inr free ↦ inl (n, omega arith, free)
  | inl full ↦ elim (open_or_full h key n) [
    | inl (i, lt, free) ↦ inl (i, omega arith, free)
    | inr below ↦ inr (λ i lt. elim (ℕ_discrete i n) [
      | yes last ↦ rw last full
      | no other ↦ below i (omega arith)
    ])
  ]
]

-- For a key that is not 0, in a table whose `used` is below its size, `insert_update` returns exactly
-- if some slot of the table was never used or has the key, and the assertion behind its loop fails
-- exactly if every slot has had a key and has not this one.
pub insert_update_iff :
    (h : Table) (op : Op)
    → op.key ≢ 0
    → h.used < h.table_size
    → (((h' : Table) × (insert_update h op ≡ done h'))
        ↔ ((i : ℕ) × (i < h.table_size) × (is_blocked (h.table i) op.key ≡ false)))
      × ((insert_update h op ≡ asserted)
          ↔ ((i : ℕ) → i < h.table_size → is_blocked (h.table i) op.key ≡ true))
insert_update_iff h op key_pos room = (
  (
    λ (h', e). elim (open_or_full h op.key h.table_size) [
      | inl place ↦ place
      | inr full ↦ let fails = insert_update-full h op (omega arith) full in absurd (cc)
    ],
    λ (i, lt, free). insert_update-returns h op i key_pos room lt free,
  ),
  (
    λ e. elim (open_or_full h op.key h.table_size) [
      | inl (i, lt, free) ↦
          let (h', returned) = insert_update-returns h op i key_pos room lt free in absurd (cc)
      | inr full ↦ full
    ],
    insert_update-full h op (omega arith),
  ),
)
