-- ===== src/HashTable/Purge.antt =====
-- `purge_key` keeps the table valid and removes one key.
use operating_systems_cs.Base.{
  ℕ, ◌+◌, ◌-◌, ◌%◌, ◌^◌, ◌≡◌, ◌≢◌, refl, ◌<◌, Bool, true, false, ◌==◌, none, some, arith, inl, inr,
  Bool-cases, ◌↔◌, ◌∙◌, ap, if◌then◌else◌,
}
use operating_systems_cs.Threads.{update, total, total-update, le-total, total-bound}
use operating_systems_cs.HashTable.{Entry, Table, done, lookup, remove_at, purge_key, deleted}
use operating_systems_cs.HashTable.Probe.{start_probe-Stopped}
use operating_systems_cs.HashTable.Invariant.{IsValid, IsValid-replace, occupied}
use operating_systems_cs.HashTable.Lookup.{
  ctr_in_table, IsAbsent, probe_finds, lookup-Holds, lookup-replace, lookup-IsAbsent,
}

abbrev tombstone : Entry
tombstone = record { id = deleted; datalen = 0; key = 0; content = 0 }

module _ (h : Table) (key : ℕ) (v : IsValid h) (ne : key ≢ 0) where
  module _ (ctr : ℕ) (within : ctr < h.table_size) (hit : (h.table ctr).key ≡ key) where
    removed_count :
        (h.used + 2 ^ 32 - 1) % 2 ^ 32 ≡ total occupied h.table_size (update h.table ctr tombstone)
    removed_count = ground (
      arith,
      v.counted,
      v.size_max,
      total-update occupied h.table_size h.table ctr tombstone within,
      le-total occupied h.table_size h.table ctr within,
      total-bound occupied (λ e. ground arith) h.table_size h.table,
    )

    removed-IsValid : IsValid (remove_at h ctr)
    removed-IsValid =
        IsValid-replace h ctr tombstone _ v refl (λ z. absurd (z refl)) (λ i lt other full. full)
          removed_count

    removed-lookup :
        (k : ℕ) → k ≢ 0 → lookup (remove_at h ctr) k ≡ (if k == key then done none else lookup h k)
    removed-lookup k kne = elim (Bool-cases (k == key)) [
      | inl same ↦ rw same (
          lookup-IsAbsent (remove_at h ctr) k removed-IsValid
            (λ i lt. ground (arith, v.unique i ctr lt within)))
      | inr other ↦
          rw other
            (lookup-replace h ctr _ k tombstone v removed-IsValid kne (ground arith) (ground arith))
    ]

  -- What a call of `purge_key` does.
  pub record Purged (out : Table × Bool) : Type 0 where
    pub valid : IsValid out.0
    pub lookups : (k : ℕ) → k ≢ 0 → lookup out.0 k ≡ (if k == key then done none else lookup h k)
    pub found : (out.1 ≡ false) ↔ (lookup h key ≡ done none)

  lookup_self :
      (ctr : ℕ)
      → ctr < h.table_size
      → (h.table ctr).key ≡ key
      → lookup h key ≡ done (some ((h.table ctr).datalen, (h.table ctr).content))
  lookup_self ctr lt hit =
      lookup-Holds h key _ _ ctr v ne
        (record { within = lt; has_key = hit; has_datalen = refl; has_content = refl })

  absent_lookup :
      IsAbsent h key → (k : ℕ) → k ≢ 0 → lookup h k ≡ (if k == key then done none else lookup h k)
  absent_lookup away k kne = elim (Bool-cases (k == key)) [
    | inl same ↦
        let e : k ≡ key = ground arith in rw same (ap (lookup h) e ∙ lookup-IsAbsent h key v away)
    | inr other ↦ rw other
  ]

  -- In a valid table, for a key that is not 0, `purge_key` returns. Then `lookup` of the key fails,
  -- `lookup` of any other key that is not 0 gives what it gave before, the table is valid, and -1
  -- is returned exactly when `lookup` would have failed before.
  pub purge_key-Purged : (out : Table × Bool) × (purge_key h key ≡ done out) × Purged out
  unfolding purge_key
  purge_key-Purged =
      let (ctr, moved, run, s) = start_probe-Stopped h key v.size_pos in
      let within = ctr_in_table h key _ ctr moved v.size_pos s in
      elim (Bool-cases ((h.table ctr).key == key)) [
        | inl here ↦
            let hit : (h.table ctr).key ≡ key = ground arith in
            (
              (remove_at h ctr, true),
              rw (run, here, purge_key),
              record {
                valid = removed-IsValid ctr within hit;
                lookups = removed-lookup ctr within hit;
                found = (λ f. absurd (cc), λ f. absurd (cc (lookup_self ctr within hit)));
              },
            )
        | inr miss ↦
            let away = probe_finds h key ctr moved v ne s (ground arith) in
            (
              (h, false),
              rw (run, miss, purge_key),
              record {
                valid = v;
                lookups = absent_lookup away;
                found = (λ _. lookup-IsAbsent h key v away, λ _. refl);
              },
            )
      ]
