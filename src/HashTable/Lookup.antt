-- ===== src/HashTable/Lookup.antt =====
-- `lookup` finds what the table holds.
use native.Mathlib.Decide.{ℕ_discrete}
use native.Mathlib.Nat.{mod-lt}
use operating_systems_cs.Base.{
  ℕ, ◌+◌, ◌≡◌, ◌≢◌, ◌↔◌, refl, ◌<◌, Bool, true, false, ◌==◌, none, some, arith, inl, inr, ◌⊎◌, ◌∙◌,
  sym,
}
use operating_systems_cs.HashTable.{Entry, Table, done, hashfunc, lookup}
use operating_systems_cs.HashTable.Probe.{Stopped, start_probe-Stopped}
use operating_systems_cs.HashTable.Invariant.{IsValid, stops_at_key, replace}

pub ctr_in_table :
    (h : Table) (key hashval ctr : ℕ) (moved : Bool)
    → 0 < h.table_size
    → Stopped h key hashval ctr moved
    → ctr < h.table_size
ctr_in_table h key hashval ctr moved pos s = omega (arith, s.at, mod-lt (hashval + s.d) pos)

-- The slot holds the key and the content.
pub record Holds (h : Table) (key datalen content i : ℕ) : Type 0 where
  pub within : i < h.table_size
  pub has_key : (h.table i).key ≡ key
  pub has_datalen : (h.table i).datalen ≡ datalen
  pub has_content : (h.table i).content ≡ content

abbrev pub IsAbsent : Table → ℕ → Type 0
IsAbsent h key = (i : ℕ) → i < h.table_size → (h.table i).key ≢ key

-- What a probe shows: the slot of the key, or that there is none.
pub probe_finds :
    (h : Table) (key ctr : ℕ) (moved : Bool)
    → IsValid h
    → key ≢ 0
    → Stopped h key (hashfunc key h.table_size) ctr moved
    → (h.table ctr).key ≢ key
    → IsAbsent h key
probe_finds h key ctr moved v ne s miss i lt k =
    let r = v.reachable i lt (λ z. ne (sym k ∙ z)) in
    miss (stops_at_key h key (hashfunc key h.table_size) i ctr moved refl (rw k at r) k s)

-- In a valid table `lookup` of a key that is not 0 returns the length and the data of the slot that
-- holds the key.
pub lookup-Holds :
    (h : Table) (key datalen content i : ℕ)
    → IsValid h
    → key ≢ 0
    → Holds h key datalen content i
    → lookup h key ≡ done (some (datalen, content))
unfolding lookup
lookup-Holds h key datalen content i v ne p =
    let (ctr, moved, run, s) = start_probe-Stopped h key v.size_pos in
    let r = v.reachable i p.within (λ z. ne (sym p.has_key ∙ z)) in
    let hit : (h.table ctr).key ≡ key =
      stops_at_key h key (hashfunc key h.table_size) i ctr moved refl (rw p.has_key at r) p.has_key
        s in
    let same : i ≡ ctr =
      v.unique i ctr p.within (ctr_in_table h key _ ctr moved v.size_pos s)
        (λ z. ne (sym p.has_key ∙ z)) (p.has_key ∙ sym hit) in
    let here : ((h.table ctr).key == key) ≡ true = ground arith in
    rw (run, here, lookup) (rw (← same) (rw (p.has_datalen, p.has_content)))

-- In a valid table `lookup` of a key that is not 0 returns -1 if no slot holds the key.
pub lookup-IsAbsent : (h : Table) (key : ℕ) → IsValid h → IsAbsent h key → lookup h key ≡ done none
unfolding lookup
lookup-IsAbsent h key v away =
    let (ctr, moved, run, s) = start_probe-Stopped h key v.size_pos in
    let miss : ((h.table ctr).key == key) ≡ false =
      ground (arith, away ctr (ctr_in_table h key _ ctr moved v.size_pos s)) in
    rw (run, miss, lookup)

-- A key is held by a slot, or absent.
pub held_or_IsAbsent :
    (h : Table) (key : ℕ)
    → IsValid h
    → key ≢ 0
    → ((i : ℕ) × Holds h key (h.table i).datalen (h.table i).content i) ⊎ IsAbsent h key
held_or_IsAbsent h key v ne =
    let (ctr, moved, run, s) = start_probe-Stopped h key v.size_pos in
    elim (ℕ_discrete (h.table ctr).key key) [
      | yes hit ↦ inl (
        ctr,
        record {
          within = ctr_in_table h key _ ctr moved v.size_pos s;
          has_key = hit;
          has_datalen = refl;
          has_content = refl;
        },
      )
      | no miss ↦ inr (probe_finds h key ctr moved v ne s miss)
    ]

-- A slot that is rewritten to another key, from another key, leaves a lookup as it was.
pub lookup-replace :
    (h : Table) (ctr u key : ℕ) (e : Entry)
    → IsValid h
    → IsValid (replace h ctr e u)
    → key ≢ 0
    → (h.table ctr).key ≢ key
    → e.key ≢ key
    → lookup (replace h ctr e u) key ≡ lookup h key
lookup-replace h ctr u key e v v' ne old new = elim (held_or_IsAbsent h key v ne) [
  | inl (i, p) ↦
      let away : (ctr == i) ≡ false = ground (arith, p.has_key) in
      lookup-Holds (replace h ctr e u) key (h.table i).datalen (h.table i).content i v' ne (record {
        within = p.within;
        has_key = rw away p.has_key;
        has_datalen = rw away refl;
        has_content = rw away refl;
      })
      ∙ sym (lookup-Holds h key _ _ i v ne p)
  | inr absent ↦
      lookup-IsAbsent (replace h ctr e u) key v' (λ i lt. ground (arith, absent i lt))
      ∙ sym (lookup-IsAbsent h key v absent)
]

-- In a valid table, `lookup` of a key that is not 0 gives the data of a slot that holds the key, and
-- returns -1 exactly if no slot holds it.
pub lookup-finds :
    (h : Table) (key : ℕ)
    → IsValid h
    → key ≢ 0
    → ((i datalen content : ℕ)
        → Holds h key datalen content i
        → lookup h key ≡ done (some (datalen, content)))
      × ((lookup h key ≡ done none) ↔ IsAbsent h key)
lookup-finds h key v ne = (
  λ i datalen content. lookup-Holds h key datalen content i v ne,
  (
    λ e. elim (held_or_IsAbsent h key v ne) [
      | inl (i, p) ↦ let found = lookup-Holds h key _ _ i v ne p in absurd (cc)
      | inr away ↦ away
    ],
    lookup-IsAbsent h key v,
  ),
)
