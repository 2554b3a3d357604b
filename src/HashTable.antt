-- ===== src/HashTable.antt =====
-- The open-addressing hash table of Assignment4/ass4/part-3: `hash_entry_t`, `hash_t`, `hashfunc` of
-- common.h, and `lookup`, `insert_update`, `purge_key` of serial_hash.c and of
-- Assignment4/ass4/170635/parallel_hash.c, run without another thread in between.
pub mod Probe
pub mod Invariant
pub mod Lookup
pub mod Insert
pub mod Purge
pub mod Tombstones
mod Tests
use operating_systems_cs.Base.{
  ℕ, zero, suc, ◌+◌, ◌-◌, ◌%◌, ◌/◌, ◌^◌, Bool, true, false, not, ◌&&◌, ◌||◌, ltb, ◌==◌, Option,
  none, some, if◌then◌else◌,
}
use operating_systems_cs.Threads.{update}

-- `id` and `datalen` are `unsigned`, `key` is `unsigned long`, `content` is the pointer `data`.
pub record Entry : Type 0 where
  pub id : ℕ
  pub datalen : ℕ
  pub key : ℕ
  pub content : ℕ

-- The slots from `table_size` on are not part of the table.
pub record Table : Type 0 where
  pub table_size : ℕ
  pub used : ℕ
  pub table : ℕ → Entry

pub record Op : Type 0 where
  pub id : ℕ
  pub key : ℕ
  pub datalen : ℕ
  pub content : ℕ

-- `asserted` is a failed `assert`.
pub data Run (A : Type 0) : Type 0 where
  done : A → Run A
  asserted : Run A
  out_of_fuel : Run A

-- `key >> 32` plus `key & 0xffffffff`, modulo the size, as an `unsigned`.
unfoldable pub hashfunc : ℕ → ℕ → ℕ
hashfunc key size = ((key / 2 ^ 32 + key % 2 ^ 32) % 2 ^ 64) % size

-- `(unsigned) -1`
abbrev pub deleted : ℕ
deleted = 2 ^ 32 - 1

abbrev pub is_used : Entry → Bool
is_used e = not (e.key == 0) || (e.id == deleted)

abbrev pub empty_entry : Entry
empty_entry = record { id = 0; datalen = 0; key = 0; content = 0 }

unfoldable pub init_hashtable : ℕ → Table
init_hashtable size = record { table_size = size; used = 0; table = λ _. empty_entry }

-- The probe loop from the counter `ctr`, where `moved` is `cnt != 0`: where it stops, and `cnt` then.
unfoldable pub probe : ℕ → (h : Table) (key hashval ctr : ℕ) (moved : Bool) → Option (ℕ × Bool)
probe zero h key hashval ctr moved = none
probe (suc fuel) h key hashval ctr moved =
    let rest = probe fuel h key hashval ((ctr + 1) % h.table_size) true in
    if is_used (h.table ctr)
      && not ((h.table ctr).key == key)
      && (not (ctr == hashval) || not moved)
    then rest
    else some (ctr, moved)

-- A full round takes one test for each slot and one for the first slot again.
abbrev pub start_probe : Table → ℕ → Option (ℕ × Bool)
start_probe h key =
    probe (h.table_size + 1) h key (hashfunc key h.table_size) (hashfunc key h.table_size) false

-- `none` is the return value -1.
unfoldable pub lookup : Table → ℕ → Run (Option (ℕ × ℕ))
unfolding probe hashfunc
lookup h key = elim (start_probe h key) [
  | none ↦ out_of_fuel
  | some (ctr, moved) ↦
      if (h.table ctr).key == key
      then done (some ((h.table ctr).datalen, (h.table ctr).content))
      else done none
]

abbrev pub put_update : Table → Op → ℕ → Table
put_update h op ctr = record h {
  table = update h.table ctr (record {
    id = op.id % 2 ^ 32;
    datalen = op.datalen;
    key = (h.table ctr).key;
    content = op.content;
  });
}

abbrev pub put_fresh : Table → Op → ℕ → Table
put_fresh h op ctr = record h {
  used = (h.used + 1) % 2 ^ 32;
  table =
      update h.table ctr
        (record { id = op.id % 2 ^ 32; datalen = op.datalen; key = op.key; content = op.content });
}

-- What follows the loop in both versions of `insert_update`.
abbrev pub put_at : Table → Op → ℕ → Run Table
put_at h op ctr =
    if (h.table ctr).key == op.key
    then done (put_update h op ctr)
    else if (h.table ctr).key == 0
    then done (put_fresh h op ctr)
    else asserted

-- The serial version: `assert(ctr != hashval - 1)`, on `unsigned` numbers.
pub insert_update_serial : Table → Op → Run Table
unfolding probe hashfunc
insert_update_serial h op =
    if not (ltb h.used h.table_size) || (op.key == 0)
    then asserted
    else elim (start_probe h op.key) [
      | none ↦ out_of_fuel
      | some (ctr, moved) ↦
          if ctr == (hashfunc op.key h.table_size + 2 ^ 32 - 1) % 2 ^ 32
          then asserted
          else put_at h op ctr
    ]

-- The parallel version: `assert(ctr != hashval || cnt==0)`.
unfoldable pub insert_update : Table → Op → Run Table
unfolding probe hashfunc
insert_update h op =
    if not (ltb h.used h.table_size) || (op.key == 0)
    then asserted
    else elim (start_probe h op.key) [
      | none ↦ out_of_fuel
      | some (ctr, moved) ↦
          if (ctr == hashfunc op.key h.table_size) && moved then asserted else put_at h op ctr
    ]

abbrev pub remove_at : Table → ℕ → Table
remove_at h ctr = record h {
  used = (h.used + 2 ^ 32 - 1) % 2 ^ 32;
  table = update h.table ctr (record { id = deleted; datalen = 0; key = 0; content = 0 });
}

-- The new table, and whether the key was there; the code returns 0 or -1.
unfoldable pub purge_key : Table → ℕ → Run (Table × Bool)
unfolding probe hashfunc
purge_key h key = elim (start_probe h key) [
  | none ↦ out_of_fuel
  | some (ctr, moved) ↦
      if (h.table ctr).key == key then done (remove_at h ctr, true) else done (h, false)
]
