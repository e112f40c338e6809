-- ===== src/Daemon/Db/Queue.antt =====
-- process_db_writer_batch: the waiting writes become one transaction.
use shachain2pc.Base.{
  ℕ, suc, ◌+◌, ◌≡◌, ◌⊎◌, inl, inr, ok, err, Bool-cases, refl, sym, ap, ◌∙◌, Bool, true, false, ◌||◌,
  List, [], ◌∷◌, ◌++◌, length, All, arith,
}
use shachain2pc.Daemon.Record.{Mutation, DbDurability, eventual, immediate}
use shachain2pc.Daemon.State.{DaemonError}
use shachain2pc.Daemon.Db.{
  DbCrypto, Table, WriteOp, batch, flush, Collected, stronger, collect_write_op, collect_ops,
  nothing_collected, is_immediate, is_nothing, apply_mutations, process_db_writer_batch,
}
use shachain2pc.Daemon.Db.Records.{
  IsDbCrypto, Records, apply_records, HasKey, Stores, apply_mutations-Stores,
}

-- The mutations of the waiting writes, in order.
abbrev pub op_mutations : List WriteOp → List Mutation
op_mutations [] = []
op_mutations (batch ms d ∷ ops) = ms ++ op_mutations ops
op_mutations (flush ∷ ops) = op_mutations ops

abbrev pub flushes : List WriteOp → ℕ
flushes [] = 0
flushes (batch ms d ∷ ops) = flushes ops
flushes (flush ∷ ops) = suc (flushes ops)

-- Some write is a flush or asks for immediate durability.
abbrev pub any_immediate : List WriteOp → Bool
any_immediate [] = false
any_immediate (batch ms d ∷ ops) = is_immediate d || any_immediate ops
any_immediate (flush ∷ ops) = true

append_assoc : (xs ys zs : List Mutation) → (xs ++ ys) ++ zs ≡ xs ++ (ys ++ zs)
append_assoc [] ys zs = refl
append_assoc (x ∷ xs) ys zs = ap (λ l. x ∷ l) (append_assoc xs ys zs)

append_nil : (xs : List Mutation) → xs ++ [] ≡ xs
append_nil [] = refl
append_nil (x ∷ xs) = ap (λ l. x ∷ l) (append_nil xs)

or_assoc_immediate :
    (c d : DbDurability) (b : Bool)
    → (is_immediate (stronger c d) || b) ≡ (is_immediate c || (is_immediate d || b))
or_assoc_immediate eventual eventual b = refl
or_assoc_immediate eventual immediate b = refl
or_assoc_immediate immediate eventual b = refl
or_assoc_immediate immediate immediate b = refl

or_true : (b : Bool) → (b || true) ≡ true
or_true true = refl
or_true false = refl

collect_ops_lem :
    (ops : List WriteOp) (c : Collected)
    → ((collect_ops ops c).mutations ≡ c.mutations ++ op_mutations ops)
      × ((collect_ops ops c).acks ≡ c.acks + flushes ops)
      × (is_immediate (collect_ops ops c).durability
          ≡ (is_immediate c.durability || any_immediate ops))
unfolding collect_ops collect_write_op
collect_ops_lem [] c =
    (sym (append_nil c.mutations), omega arith, or_false (is_immediate c.durability))
  where
    or_false : (b : Bool) → b ≡ (b || false)
    or_false true = refl
    or_false false = refl
collect_ops_lem (batch ms d ∷ ops) c =
    let (all, acks, durable) = collect_ops_lem ops (collect_write_op (batch ms d) c) in
    (
      all ∙ append_assoc c.mutations ms (op_mutations ops),
      acks,
      durable ∙ or_assoc_immediate c.durability d (any_immediate ops),
    )
collect_ops_lem (flush ∷ ops) c =
    let (all, acks, durable) = collect_ops_lem ops (collect_write_op flush c) in
    (all, omega (arith, acks), durable ∙ sym (or_true (is_immediate c.durability)))

-- A transaction that fails: the table stays, and the flushes are answered with the error.
failed_batch :
    {Byte : Type 0} (crypto : DbCrypto Byte) (nonces : ℕ → List Byte) (e : DaemonError)
    (ops : List WriteOp) (t : Table crypto)
    → ((process_db_writer_batch crypto nonces (err e) ops t).0 ≡ t)
      × ((process_db_writer_batch crypto nonces (err e) ops t).1.0 ≡ flushes ops)
      × ((flushes ops ≡ 0) ⊎ ((process_db_writer_batch crypto nonces (err e) ops t).1.1 ≡ err e))
unfolding process_db_writer_batch apply_mutations
failed_batch crypto nonces e ops t =
    let (all, acks, durable) = collect_ops_lem ops nothing_collected in
    let c : Collected = collect_ops ops nothing_collected in
    elim (Bool-cases (is_nothing c)) [
      | inl idle ↦ (
        rw (idle, no_mutations c.mutations (ground arith)) refl,
        acks ∙ omega arith,
        inl (ground arith),
      )
      | inr busy ↦ (rw busy refl, acks ∙ omega arith, inr (rw busy refl))
    ]
  where
    no_mutations : (ms : List Mutation) → length ms ≡ 0 → ms ≡ []
    no_mutations [] h = refl
    no_mutations (m ∷ ms) h = absurd (omega arith)

committed_batch :
    {Byte : Type 0} (crypto : DbCrypto Byte) (nonces : ℕ → List Byte) (ops : List WriteOp)
    (t : Table crypto)
    → process_db_writer_batch crypto nonces (ok tt) ops t ≡ (
      apply_mutations crypto nonces (collect_ops ops nothing_collected).mutations t,
      ((collect_ops ops nothing_collected).acks, ok tt),
      ok (is_immediate (collect_ops ops nothing_collected).durability),
    )
unfolding process_db_writer_batch
committed_batch crypto nonces ops t =
    elim (Bool-cases (is_nothing (collect_ops ops nothing_collected))) [
      | inl idle ↦ rw idle refl
      | inr busy ↦ rw busy refl
    ]

-- Where the cryptography keeps its promises and the keys fit their widths, the waiting writes, taken
-- as one transaction that is committed, leave a table that stores the records after all their
-- mutations in order; each flush is answered with success, and the transaction is durable at once
-- exactly when a write asked for it. A transaction that fails leaves the table, and each flush, where
-- there is one, is answered with its error.
pub process_db_writer_batch-Stores :
    {Byte : Type 0} (crypto : DbCrypto Byte) (nonces : ℕ → List Byte) (e : DaemonError)
    (ops : List WriteOp) (t : Table crypto) (rs : Records)
    → IsDbCrypto crypto
    → ((i : ℕ) → length (nonces i) ≡ 12)
    → All HasKey (op_mutations ops)
    → Stores crypto t rs
    → Stores crypto
        (process_db_writer_batch crypto nonces (ok tt) ops t).0
        (apply_records (op_mutations ops) rs)
      × ((process_db_writer_batch crypto nonces (ok tt) ops t).1.0 ≡ flushes ops)
      × ((process_db_writer_batch crypto nonces (ok tt) ops t).1.1 ≡ ok tt)
      × ((process_db_writer_batch crypto nonces (ok tt) ops t).2 ≡ ok (any_immediate ops))
      × ((process_db_writer_batch crypto nonces (err e) ops t).0 ≡ t)
      × ((process_db_writer_batch crypto nonces (err e) ops t).1.0 ≡ flushes ops)
      × ((flushes ops ≡ 0) ⊎ ((process_db_writer_batch crypto nonces (err e) ops t).1.1 ≡ err e))
process_db_writer_batch-Stores crypto nonces e ops t rs laws h keys s =
    let (all, acks, durable) = collect_ops_lem ops nothing_collected in
    let run = committed_batch crypto nonces ops t in
    let (same, answered, failed) = failed_batch crypto nonces e ops t in
    (
      rw (run, all) (apply_mutations-Stores crypto laws nonces (op_mutations ops) t rs h keys s),
      ap (λ r. r.1.0) run ∙ acks ∙ omega arith,
      ap (λ r. r.1.1) run,
      ap (λ r. r.2) run ∙ ap ok durable,
      same,
      answered,
      failed,
    )
