-- ===== src/HashTable/Probe.antt =====
-- Where the probe loop stops.
use native.Mathlib.Decide.{dec_lt, ℕ_discrete}
use native.Mathlib.Nat.{mod-eq_of_lt, mod-eq-sub-mod, mod-add-mod, mod-lt}
use operating_systems_cs.Base.{
  ℕ, zero, suc, ◌+◌, ◌-◌, ◌%◌, ◌≡◌, refl, ◌<◌, ◌≤◌, Bool, true, false, not, ◌&&◌, ◌||◌, ◌==◌, some,
  arith, inl, inr, Bool-cases, if◌then◌else◌, ltb, ◌∙◌, ap, sym,
}
use operating_systems_cs.HashTable.{Entry, Table, is_used, probe, start_probe, hashfunc}

-- The slot that is `d` places behind the slot `hashval`.
abbrev pub slot : Table → ℕ → ℕ → ℕ
slot h hashval d = (hashval + d) % h.table_size

abbrev pub is_blocked : Entry → ℕ → Bool
is_blocked e key = is_used e && not (e.key == key)

-- The loop passed `d` slots that are used by other keys, and stopped at the next one, or it made
-- a whole round.
pub record Stopped (h : Table) (key hashval ctr : ℕ) (moved : Bool) : Type 0 where
  pub d : ℕ
  pub within : d ≤ h.table_size
  pub at : ctr ≡ slot h hashval d
  pub passed : (j : ℕ) → j < d → is_blocked (h.table (slot h hashval j)) key ≡ true
  pub open_slot : d < h.table_size → is_blocked (h.table ctr) key ≡ false
  pub has_moved : moved ≡ not (d == 0)

pub slot_lem :
    (size hashval d : ℕ)
    → hashval < size
    → d ≤ size
    → (hashval + d) % size ≡ (if ltb (hashval + d) size then hashval + d else hashval + d - size)
slot_lem size hashval d lt le = elim (dec_lt (hashval + d) size) [
  | yes below ↦ rw (mod-eq_of_lt below) (ground arith)
  | no above ↦ mod-eq-sub-mod (omega arith) ∙ mod-eq_of_lt (omega arith) ∙ ground arith
]

slot_next :
    (size hashval d : ℕ)
    → hashval < size
    → d < size
    → ((hashval + d) % size + 1) % size ≡ (hashval + suc d) % size
slot_next size hashval d lt le = mod-add-mod (hashval + d) size 1 ∙ ap (λ t. t % size) (omega arith)

-- The loop goes on from the slot `d` when it is blocked and not the first one again.
abbrev goes_on : Table → ℕ → ℕ → ℕ → Bool
goes_on h key hashval d =
    is_used (h.table (slot h hashval d))
    && not ((h.table (slot h hashval d)).key == key)
    && (not (slot h hashval d == hashval) || not (not (d == 0)))

goes_on_iff :
    (h : Table) (key hashval d : ℕ)
    → hashval < h.table_size
    → d ≤ h.table_size
    → goes_on h key hashval d ≡ (is_blocked (h.table (slot h hashval d)) key && ltb d h.table_size)
goes_on_iff h key hashval d lt le = ground (arith, slot_lem h.table_size hashval d)

passed_more :
    (h : Table) (key hashval d : ℕ)
    → ((j : ℕ) → j < d → is_blocked (h.table (slot h hashval j)) key ≡ true)
    → is_blocked (h.table (slot h hashval d)) key ≡ true
    → (j : ℕ) → j < suc d
    → is_blocked (h.table (slot h hashval j)) key ≡ true
passed_more h key hashval d passed last j lt = elim (ℕ_discrete j d) [
  | yes same ↦ rw same last
  | no other ↦ passed j (omega arith)
]

not_first : (d : ℕ) → not (suc d == 0) ≡ true
not_first d = ground arith

probe-Stopped :
    (fuel : ℕ) (h : Table) (key hashval d : ℕ)
    → hashval < h.table_size
    → d ≤ h.table_size
    → h.table_size < fuel + d
    → ((j : ℕ) → j < d → is_blocked (h.table (slot h hashval j)) key ≡ true)
    → (ctr : ℕ) × (moved : Bool) × (probe fuel h key hashval (slot h hashval d) (not (d == 0))
        ≡ some (ctr, moved))
      × Stopped h key hashval ctr moved
unfolding probe
probe-Stopped zero h key hashval d lt le enough passed = absurd (omega arith)
probe-Stopped (suc fuel) h key hashval d lt le enough passed =
    let split = goes_on_iff h key hashval d lt le in
    elim (Bool-cases (is_blocked (h.table (slot h hashval d)) key && ltb d h.table_size)) [
      | inr stop ↦ (
        slot h hashval d,
        not (d == 0),
        rw (split ∙ stop, probe),
        record {
          d = d;
          within = le;
          at = refl;
          passed = passed;
          open_slot = ground arith;
          has_moved = refl;
        },
      )
      | inl more ↦
          let (ctr, moved, run, stopped) =
            probe-Stopped fuel h key hashval (suc d) lt (ground arith) (omega arith)
              (passed_more h key hashval d passed (ground arith)) in
          (
            ctr,
            moved,
            rw (split ∙ more, probe, slot_next h.table_size hashval d lt (ground arith))
                (rw (not_first d) at run),
            stopped,
          )
    ]

pub hashfunc-lt : (key size : ℕ) → 0 < size → hashfunc key size < size
unfolding hashfunc
hashfunc-lt key size pos = mod-lt _ pos

slot-zero : (h : Table) (hashval : ℕ) → hashval < h.table_size → slot h hashval 0 ≡ hashval
slot-zero h hashval lt = ap (λ t. t % h.table_size) (omega arith) ∙ mod-eq_of_lt lt

from_first :
    (h : Table) (key hashval : ℕ)
    → hashval < h.table_size
    → (ctr : ℕ) × (moved : Bool) × (probe (h.table_size + 1) h key hashval (slot h hashval 0) false
        ≡ some (ctr, moved))
      × Stopped h key hashval ctr moved
from_first h key hashval lt =
    probe-Stopped (h.table_size + 1) h key hashval 0 lt (omega arith) (omega arith)
      (λ j k. absurd (omega arith))

-- The loop of an operation stops, within the rounds that it is given.
pub start_probe-Stopped :
    (h : Table) (key : ℕ)
    → 0 < h.table_size
    → (ctr : ℕ) × (moved : Bool) × (start_probe h key ≡ some (ctr, moved))
      × Stopped h key (hashfunc key h.table_size) ctr moved
start_probe-Stopped h key pos =
    let lt = hashfunc-lt key h.table_size pos in
    let (ctr, moved, run, stopped) = from_first h key (hashfunc key h.table_size) lt in
    (
      ctr,
      moved,
      ap (λ t. probe (h.table_size + 1) h key (hashfunc key h.table_size) t false)
            (sym (slot-zero h (hashfunc key h.table_size) lt))
          ∙ run,
      stopped,
    )
