-- ===== src/Daemon/Db/Mirror.antt =====
-- Records that mirror the channels in memory, what keeps them so, and what loading them gives.
use native.Mathlib.Decide.{ℕ_discrete}
use shachain2pc.Base.{ℕ, ◌≡◌, refl, ap, ◌∙◌, List, [], map, Option, none, some, ok}
use shachain2pc.Base.Map.{get}
use shachain2pc.Daemon.Record.{
  ChannelRecord, WireRecord, empty_channel_record, scalars, channel_payload, secret_payload,
  frontier_payload, StoredRecord, stored_record, logical_key,
}
use shachain2pc.Daemon.Db.{PlainDb, DbCrypto, Table, entry, load_redb_state}
use shachain2pc.Daemon.Db.Records.{
  LogicalKey-discrete, Records, load_records, Stores, load_entries-Stores,
}
use shachain2pc.Daemon.Db.Load.{
  Item, item_entry, Distinct, channel_scalars, secret_of, frontier_of, load_items,
}
use shachain2pc.Daemon.Db.Keys.{
  after_scalars-at_key, after_secret-at_key, after_frontier-at_key, scalars_or, secret_or,
  frontier_or,
}

abbrev pub record_of_channel : ℕ → Option ChannelRecord → Option StoredRecord
record_of_channel ch none = none
record_of_channel ch (some c) = some (stored_record 1 ch 0 (channel_payload (scalars c)))

abbrev pub record_of_secret : ℕ → ℕ → Option (List ℕ) → Option StoredRecord
record_of_secret ch i none = none
record_of_secret ch i (some hex) = some (stored_record 2 ch i (secret_payload hex))

abbrev pub record_of_node : ℕ → ℕ → Option WireRecord → Option StoredRecord
record_of_node ch m none = none
record_of_node ch m (some w) = some (stored_record 3 ch m (frontier_payload w))

-- Under every key of a channel, a secret or a node stands what the memory has of it.
pub record Mirrors (rs : Records) (db : PlainDb) : Type 0 where
  pub channels :
      (j : ℕ)
      → get LogicalKey-discrete (logical_key 1 j 0) rs ≡ record_of_channel j (get ℕ_discrete j db)
  pub secrets :
      (j i : ℕ)
      → get LogicalKey-discrete (logical_key 2 j i) rs ≡ record_of_secret j i (secret_of j i db)
  pub nodes :
      (j i : ℕ)
      → get LogicalKey-discrete (logical_key 3 j i) rs ≡ record_of_node j i (frontier_of j i db)

-- Two databases with the same channels, but for the order of their maps.
pub record Agrees (db db' : PlainDb) : Type 0 where
  pub settings : (j : ℕ) → channel_scalars j db ≡ channel_scalars j db'
  pub secrets : (j i : ℕ) → secret_of j i db ≡ secret_of j i db'
  pub nodes : (j i : ℕ) → frontier_of j i db ≡ frontier_of j i db'

scalars_back :
    (j : ℕ) (o : Option ChannelRecord) (db : PlainDb)
    → get ℕ_discrete j db ≡ o
    → scalars_or (record_of_channel j o) (channel_scalars j []) ≡ channel_scalars j db
unfolding entry get
scalars_back j none db e = rw e refl
scalars_back j (some c) db e = rw e refl

secret_back : (j i : ℕ) (o : Option (List ℕ)) → secret_or (record_of_secret j i o) none ≡ o
secret_back j i none = refl
secret_back j i (some hex) = refl

node_back : (j i : ℕ) (o : Option WireRecord) → frontier_or (record_of_node j i o) none ≡ o
node_back j i none = refl
node_back j i (some w) = refl

-- Records that mirror the memory, in any order and each key once, load to the memory.
load_records-Agrees :
    (xs : List Item) (db : PlainDb)
    → Distinct (map item_entry xs)
    → Mirrors (map item_entry xs) db
    → (out : PlainDb) × (load_records (map item_entry xs) [] ≡ ok out) × Agrees out db
unfolding entry get empty_channel_record
load_records-Agrees xs db d m =
    let (out, loaded, s, k, f) = load_items xs [] in
    (
      out,
      loaded,
      record {
        settings = λ j.
            s j
            ∙ after_scalars-at_key j xs (channel_scalars j []) d
            ∙ ap (λ o. scalars_or o (channel_scalars j [])) (m.channels j)
            ∙ scalars_back j (get ℕ_discrete j db) db refl;
        secrets = λ j i.
            k j i
            ∙ after_secret-at_key j i xs none d
            ∙ ap (λ o. secret_or o none) (m.secrets j i)
            ∙ secret_back j i (secret_of j i db);
        nodes = λ j i.
            f j i
            ∙ after_frontier-at_key j i xs none d
            ∙ ap (λ o. frontier_or o none) (m.nodes j i)
            ∙ node_back j i (frontier_of j i db);
      },
    )

-- Reopening the database gives the memory back: a table that stores records which mirror the
-- channels, in any order and each key once, loads without an error, and every channel then has the
-- settings, the secrets and the frontier nodes that it has in memory.
pub load_redb_state-Agrees :
    {Byte : Type 0} (crypto : DbCrypto Byte) (t : Table crypto) (xs : List Item) (db : PlainDb)
    → Stores crypto t (map item_entry xs)
    → Distinct (map item_entry xs)
    → Mirrors (map item_entry xs) db
    → (out : PlainDb) × (load_redb_state crypto t ≡ ok out) × Agrees out db
unfolding load_redb_state
load_redb_state-Agrees crypto t xs db s d m =
    let (out, loaded, agrees) = load_records-Agrees xs db d m in
    (out, load_entries-Stores crypto t (map item_entry xs) [] s ∙ loaded, agrees)
