-- ===== src/InputManager/Operations.antt =====
-- What `process` keeps of an operation while it runs it on the table.
use operating_systems_cs.Base.{ℕ, ◌≡◌, Bool, ◌==◌, Option, none, some, arith, inl, inr, Bool-cases}
use operating_systems_cs.HashTable.{
  Table, Run, done, asserted, out_of_fuel, lookup, insert_update, purge_key,
}
use operating_systems_cs.InputManager.{
  Operation, get, put, del, run_op, with_found, with_inserted, with_purged,
}

-- An operation on the table keeps the id and the key.
pub run_op-keeps :
    (h h' : Table) (op op' : Operation)
    → run_op h op ≡ done (h', op')
    → (op'.id ≡ op.id) × (op'.key ≡ op.key)
unfolding run_op
run_op-keeps h h' op op' e = elim (Bool-cases (op.op_type == get)) [
  | inl g ↦ found (lookup h op.key) (rw g at e)
  | inr g ↦ elim (Bool-cases (op.op_type == put)) [
    | inl p ↦
        inserted
          (insert_update h
            (record { id = op.id; key = op.key; datalen = op.datalen; content = op.content }))
          (rw (g, p) at e)
    | inr p ↦ elim (Bool-cases (op.op_type == del)) [
      | inl d ↦ purged (purge_key h op.key) (rw (g, p, d) at e)
      | inr d ↦ absurd (let z = rw (g, p, d) at e in ground arith)
    ]
  ]
]
  where
    found :
        (r : Run (Option (ℕ × ℕ)))
        → with_found h op r ≡ done (h', op')
        → (op'.id ≡ op.id) × (op'.key ≡ op.key)
    found (done none) e = ground arith
    found (done (some (a, b))) e = ground arith
    found asserted e = absurd (ground arith)
    found out_of_fuel e = absurd (ground arith)

    inserted :
        (r : Run Table)
        → with_inserted op r ≡ done (h', op')
        → (op'.id ≡ op.id) × (op'.key ≡ op.key)
    inserted (done a) e = ground arith
    inserted asserted e = absurd (ground arith)
    inserted out_of_fuel e = absurd (ground arith)

    purged :
        (r : Run (Table × Bool))
        → with_purged op r ≡ done (h', op')
        → (op'.id ≡ op.id) × (op'.key ≡ op.key)
    purged (done (a, b)) e = ground arith
    purged asserted e = absurd (ground arith)
    purged out_of_fuel e = absurd (ground arith)
