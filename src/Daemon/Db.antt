-- ===== src/Daemon/Db.antt =====
-- The database of rust/crates/shachain2pc-daemon/src/db.rs: stored keys, encrypted records,
-- apply_mutations, the writer's batches, load_redb_state and plain_db_mutations. The table of redb is
-- a map from stored keys to values; what it answers to a transaction is an argument, and one that
-- fails changes nothing. HMAC, AES-GCM and serde_json are the parameter `DbCrypto`; a value is a list of
-- its bytes, which are not read. Random nonces are an argument, one for each write.
pub mod Records
pub mod Load
pub mod Keys
pub mod Mirror
pub mod Writes
pub mod Sections
pub mod Queue
pub mod Tests
use native.Mathlib.Decide.{ℕ_discrete}
use shachain2pc.Base.{
  ℕ, zero, suc, ◌+◌, ◌*◌, ◌/◌, ◌%◌, ◌^◌, Bool, true, false, not, ◌&&◌, ◌||◌, ◌==◌, ltb,
  if◌then◌else◌, List, [], ◌∷◌, ◌++◌, map, length, take, drop, Option, none, some, Result, ok, err,
  ◌>>=◌, ◌>>◌, guard, ensure, map_err,
}
use shachain2pc.Base.Map.{get, put, remove}
use shachain2pc.Types.Value.{bytes_to_hex}
use shachain2pc.MpcTypes.{Bytes-discrete}
use shachain2pc.Flow.Handshake.{codes}
use shachain2pc.Daemon.Record.{
  ChannelRecord, ChannelScalars, WireRecord, empty_channel_record, apply_scalars, scalars,
  StoredPayload, meta, channel_payload, secret_payload, frontier_payload, StoredRecord,
  stored_record, LogicalKey, logical_key, Mutation, upsert, delete, DbDurability, eventual,
  immediate, upsert_channel_mutation, upsert_secret_mutation, upsert_frontier_mutation,
}
use shachain2pc.Daemon.State.{
  DaemonError, bad_stored_key, truncated_value, bad_logical_key, bad_verifier,
}

-- `to_hex(REDB_META_VERIFIER)`.
unfoldable pub verifier_hex : List ℕ
unfolding bytes_to_hex
verifier_hex = bytes_to_hex (codes "shachain2pc daemon redb verifier v1")

-- `to_be_bytes` of a word of `n` bytes.
unfoldable pub be_bytes : ℕ → ℕ → List ℕ
be_bytes zero v = []
be_bytes (suc n) v = be_bytes n (v / 256) ++ v % 256 ∷ []

unfoldable pub canonical_bytes : LogicalKey → List ℕ
unfolding be_bytes
canonical_bytes k = k.record_type ∷ (be_bytes 8 k.channel_index ++ be_bytes 8 k.sub_id)

-- What the daemon keeps of its channels.
abbrev pub PlainDb : Type 0
PlainDb = List (ℕ × ChannelRecord)

abbrev pub meta_record : StoredRecord
meta_record = stored_record 0 0 0 (meta verifier_hex)

abbrev pub decided : {P : Type 0} → Dec P → Bool
decided (yes p) = true
decided (no n) = false

abbrev pub is_meta : StoredPayload → Bool
is_meta (meta hex) = decided (Bytes-discrete hex verifier_hex)
is_meta _ = false

unfoldable pub validate_meta_record : StoredRecord → Result DaemonError (Unit {0})
validate_meta_record r =
    guard (r.record_type == 0 && r.channel_index == 0 && r.sub_id == 0 && is_meta r.payload)
      bad_verifier

-- `db.channels.entry(..).or_insert_with(empty_channel_record)`.
abbrev pub or_empty : Option ChannelRecord → ChannelRecord
or_empty none = empty_channel_record
or_empty (some c) = c

unfoldable pub entry : ℕ → PlainDb → ChannelRecord
unfolding empty_channel_record
entry ch db = or_empty (get ℕ_discrete ch db)

unfoldable pub apply_payload : StoredRecord → StoredPayload → PlainDb → Result DaemonError PlainDb
unfolding entry apply_scalars validate_meta_record
apply_payload r (meta hex) db = validate_meta_record r >> ok db
apply_payload r (channel_payload s) db =
    guard (r.record_type == 1 && r.sub_id == 0) bad_logical_key
    >> ok (put ℕ_discrete r.channel_index (apply_scalars (entry r.channel_index db) s) db)
apply_payload r (secret_payload hex) db =
    guard (r.record_type == 2) bad_logical_key
    >> let c = entry r.channel_index db in
      ok (
        put ℕ_discrete r.channel_index
          (record c { known_secrets = put ℕ_discrete r.sub_id hex c.known_secrets }) db)
apply_payload r (frontier_payload w) db =
    guard (r.record_type == 3) bad_logical_key
    >> let c = entry r.channel_index db in
      ok (
        put ℕ_discrete r.channel_index
          (record c { frontier_nodes = put ℕ_discrete r.sub_id w c.frontier_nodes }) db)

unfoldable pub apply_stored_record : PlainDb → StoredRecord → Result DaemonError PlainDb
unfolding apply_payload
apply_stored_record db r = apply_payload r r.payload db

unfoldable pub secret_upserts : ℕ → List (ℕ × List ℕ) → List Mutation
unfolding upsert_secret_mutation
secret_upserts ch [] = []
secret_upserts ch ((index, hex) ∷ m) = upsert_secret_mutation ch index hex ∷ secret_upserts ch m

unfoldable pub frontier_upserts : ℕ → List (ℕ × WireRecord) → List Mutation
unfolding upsert_frontier_mutation
frontier_upserts ch [] = []
frontier_upserts ch ((mask, w) ∷ m) = upsert_frontier_mutation ch mask w ∷ frontier_upserts ch m

unfoldable pub plain_db_mutations : PlainDb → List Mutation
unfolding secret_upserts frontier_upserts upsert_channel_mutation
plain_db_mutations [] = []
plain_db_mutations ((ch, c) ∷ db) =
    upsert_channel_mutation ch c
    ∷ (secret_upserts ch c.known_secrets
        ++ (frontier_upserts ch c.frontier_nodes ++ plain_db_mutations db))

-- `WriteOp`: a batch, or a flush that waits for its answer.
pub data WriteOp : Type 0 where
  batch : List Mutation → DbDurability → WriteOp
  flush : WriteOp

-- What the writer has collected: the mutations, the number of answers due, the durability.
pub record Collected : Type 0 where
  pub mutations : List Mutation
  pub acks : ℕ
  pub durability : DbDurability

abbrev pub stronger : DbDurability → DbDurability → DbDurability
stronger d immediate = immediate
stronger d eventual = d

unfoldable pub collect_write_op : WriteOp → Collected → Collected
collect_write_op (batch ms d) c = record c {
  mutations = c.mutations ++ ms;
  durability = stronger c.durability d;
}
collect_write_op flush c = record c { acks = suc c.acks; durability = immediate }

abbrev pub is_nothing : Collected → Bool
is_nothing c = length c.mutations == 0 && c.acks == 0

unfoldable pub collect_ops : List WriteOp → Collected → Collected
unfolding collect_write_op
collect_ops [] c = c
collect_ops (op ∷ ops) c = collect_ops ops (collect_write_op op c)

abbrev pub nothing_collected : Collected
nothing_collected = record { mutations = []; acks = 0; durability = eventual }

abbrev pub is_immediate : DbDurability → Bool
is_immediate immediate = true
is_immediate eventual = false

-- The functions of other packages. `hmac` and the cipher have their keys; `seal` gives the tag and the
-- ciphertext.
pub record DbCrypto (Byte : Type 0) : Type 0 where
  pub hmac : List ℕ → List ℕ
  pub seal : List Byte → List ℕ → List Byte → List Byte × List Byte
  pub unseal : List Byte → List ℕ → List Byte → List Byte → Result DaemonError (List Byte)
  pub to_json : StoredRecord → List Byte
  pub from_json : List Byte → Result DaemonError StoredRecord

module _ {Byte : Type 0} (crypto : DbCrypto Byte) where
  abbrev pub Table : Type 0
  Table = List (List ℕ × List Byte)

  unfoldable pub stored_key : LogicalKey → List ℕ
  unfolding canonical_bytes
  stored_key k = crypto.hmac (canonical_bytes k)

  -- Nonce, tag and ciphertext; the stored key is authenticated with them.
  unfoldable pub encrypt_stored_record : List Byte → List ℕ → StoredRecord → List Byte
  encrypt_stored_record nonce key r =
      let (tag, ciphertext) = crypto.seal nonce key (crypto.to_json r) in
      nonce ++ (tag ++ ciphertext)

  unfoldable pub decrypt_stored_record : List ℕ → List Byte → Result DaemonError StoredRecord
  decrypt_stored_record key value = do
    guard (length key == 32) bad_stored_key
    guard (not (ltb (length value) (12 + 16))) truncated_value
    plaintext ← crypto.unseal (take 12 value) key (drop (12 + 16) value) (take 16 (drop 12 value))
    crypto.from_json plaintext

  unfoldable pub apply_mutation : List Byte → Mutation → Table → Table
  unfolding stored_key encrypt_stored_record
  apply_mutation nonce (upsert k r) t =
      put Bytes-discrete (stored_key k) (encrypt_stored_record nonce (stored_key k) r) t
  apply_mutation nonce (delete k) t = remove Bytes-discrete (stored_key k) t

  -- The mutations of a transaction; the n-th takes the n-th nonce.
  unfoldable pub apply_mutations : (ℕ → List Byte) → List Mutation → Table → Table
  unfolding apply_mutation
  apply_mutations nonces [] t = t
  apply_mutations nonces (m ∷ ms) t =
      apply_mutations (λ i. nonces (suc i)) ms (apply_mutation (nonces 0) m t)

  -- A transaction that fails leaves the table.
  abbrev pub settle : Result DaemonError (Unit {0}) → Table → Table → Table
  settle (ok _) before after = after
  settle (err e) before after = before

  -- The writes that are waiting, as one transaction, where `committed` is what the database answers
  -- to it: the table after it, how many flushes are answered and with what, and whether it is
  -- durable at once.
  unfoldable pub process_db_writer_batch :
      (ℕ → List Byte)
      → Result DaemonError (Unit {0})
      → List WriteOp
      → Table
      → Table × (ℕ × Result DaemonError (Unit {0})) × Result (Unit {0}) Bool
  unfolding collect_ops apply_mutations
  process_db_writer_batch nonces committed ops t =
      let c = collect_ops ops nothing_collected in
      let result = if is_nothing c then ok tt else committed in
      (
        settle result t (apply_mutations nonces c.mutations t),
        (c.acks, result),
        map_err (λ e. tt) result >> ok (is_immediate c.durability),
      )

  unfoldable pub checkpoint_database : (ℕ → List Byte) → Table → Table
  unfolding apply_mutations
  checkpoint_database nonces t =
      apply_mutations nonces (upsert (logical_key 0 0 0) meta_record ∷ []) t

  abbrev pub checked_meta :
      List Byte → Table → List ℕ → Option (List Byte) → Result DaemonError Table
  checked_meta nonce t key none =
      ok (put Bytes-discrete key (encrypt_stored_record nonce key meta_record) t)
  checked_meta nonce t key (some value) =
      decrypt_stored_record key value >>= validate_meta_record >> ok t

  unfoldable pub ensure_meta_record : List Byte → Table → Result DaemonError Table
  unfolding stored_key
  ensure_meta_record nonce t =
      let key = stored_key (logical_key 0 0 0) in
      checked_meta nonce t key (get Bytes-discrete key t)

  -- The loop of `load_redb_state` over the entries.
  unfoldable pub load_entries : Table → PlainDb → Result DaemonError PlainDb
  unfolding decrypt_stored_record apply_stored_record
  load_entries [] db = ok db
  load_entries ((key, value) ∷ t) db = do
    r ← decrypt_stored_record key value
    db' ← apply_stored_record db r
    load_entries t db'

  unfoldable pub load_redb_state : Table → Result DaemonError PlainDb
  unfolding load_entries
  load_redb_state t = load_entries t []

  -- `migrate_legacy_db`, on an empty database.
  unfoldable pub migrate_legacy_db :
      List Byte → (ℕ → List Byte) → PlainDb → Result DaemonError Table
  unfolding ensure_meta_record apply_mutations plain_db_mutations
  migrate_legacy_db nonce nonces db =
      ensure_meta_record nonce [] >>= λ t. ok (apply_mutations nonces (plain_db_mutations db) t)
