-- ===== src/HashTable/Tests.antt =====
-- A small table, and the theorems at it.
use operating_systems_cs.Base.{
  ℕ, ◌≡◌, ◌↔◌, refl, ◌<◌, Bool, true, false, none, some, arith, zero, suc,
}
use operating_systems_cs.HashTable.{
  Table, Op, done, asserted, init_hashtable, lookup, insert_update, purge_key, put_fresh, deleted,
}
use operating_systems_cs.HashTable.Probe.{is_blocked}
use operating_systems_cs.HashTable.Invariant.{IsValid, init_hashtable-IsValid}
use operating_systems_cs.HashTable.Lookup.{IsAbsent, Holds, lookup-finds}
use operating_systems_cs.HashTable.Insert.{insert_update-IsValid, lookup-insert_update}
use operating_systems_cs.HashTable.Purge.{Purged, purge_key-Purged}
use operating_systems_cs.HashTable.Tombstones.{insert_update-full, insert_update_iff}

abbrev op5 : Op
op5 = record { id = 1; key = 5; datalen = 7; content = 100 }

abbrev op9 : Op
op9 = record { id = 2; key = 9; datalen = 8; content = 200 }

abbrev one_key : Table
one_key = put_fresh (init_hashtable 4) op5 1

insert_one : insert_update (init_hashtable 4) op5 ≡ done one_key
unfolding insert_update init_hashtable
insert_one = refl

one_key-IsValid : IsValid one_key
one_key-IsValid =
    insert_update-IsValid (init_hashtable 4) op5 one_key
      (init_hashtable-IsValid 4 (omega arith) (omega arith)) insert_one

insert_update-IsValid_example : IsValid (put_fresh one_key op9 2)
unfolding insert_update init_hashtable
insert_update-IsValid_example =
    insert_update-IsValid one_key op9 (put_fresh one_key op9 2) one_key-IsValid refl

lookup-insert_update_example : lookup (put_fresh one_key op9 2) 5 ≡ lookup one_key 5
unfolding insert_update init_hashtable
lookup-insert_update_example =
    lookup-insert_update one_key op9 (put_fresh one_key op9 2) 5 one_key-IsValid refl (omega arith)

no_nine : IsAbsent one_key 9
unfolding init_hashtable
no_nine i h = ground arith

lookup-finds_example :
    ((i datalen content : ℕ)
      → Holds one_key 5 datalen content i
      → lookup one_key 5 ≡ done (some (datalen, content)))
    × ((lookup one_key 5 ≡ done none) ↔ IsAbsent one_key 5)
lookup-finds_example = lookup-finds one_key 5 one_key-IsValid (omega arith)

lookup_five : lookup one_key 5 ≡ done (some (7, 100))
unfolding init_hashtable
lookup_five =
    (lookup-finds one_key 5 one_key-IsValid (omega arith)).0 1 7 100
      (record { within = omega arith; has_key = refl; has_datalen = refl; has_content = refl })

lookup_nine : lookup one_key 9 ≡ done none
lookup_nine = (lookup-finds one_key 9 one_key-IsValid (omega arith)).1.1 no_nine

purge_key-Purged_example :
    (out : Table × Bool) × (purge_key one_key 5 ≡ done out)
    × Purged one_key 5 one_key-IsValid (omega arith) out
purge_key-Purged_example = purge_key-Purged one_key 5 one_key-IsValid (omega arith)

-- Two slots: one has held a key that is gone, one has the key 2.
abbrev worn : Table
worn = record {
  table_size = 2;
  used = 1;
  table = elim [
    | zero ↦ record { id = 3; datalen = 1; key = 2; content = 1 }
    | suc i ↦ record { id = deleted; datalen = 0; key = 0; content = 0 }
  ];
}

worn_blocked : (i : ℕ) → i < 2 → is_blocked (worn.table i) 4 ≡ true
worn_blocked zero h = refl
worn_blocked (suc i) h = refl

insert_update_iff_example :
    (((h' : Table) × (insert_update one_key op9 ≡ done h'))
      ↔ ((i : ℕ) × (i < 4) × (is_blocked (one_key.table i) 9 ≡ false)))
    × ((insert_update one_key op9 ≡ asserted)
        ↔ ((i : ℕ) → i < 4 → is_blocked (one_key.table i) 9 ≡ true))
unfolding init_hashtable
insert_update_iff_example = insert_update_iff one_key op9 (omega arith) (omega arith)

insert_worn : insert_update worn (record { id = 4; key = 4; datalen = 1; content = 1 }) ≡ asserted
insert_worn =
    insert_update-full worn (record { id = 4; key = 4; datalen = 1; content = 1 }) (omega arith)
      worn_blocked
