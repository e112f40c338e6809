-- ===== src/Daemon/Db/Tests.antt =====
-- A database with a cipher that only tags, of which each byte of a text is a record.
use native.Mathlib.Decide.{ℕ_discrete}
use shachain2pc.Base.{
  ℕ, ◌≡◌, ◌≢◌, ◌⊎◌, refl, sym, ap, subst, ◌∙◌, true, false, List, [], ◌∷◌, ◌++◌, map, length-append,
  replicate, take, Option, none, some, Result, ok, err, arith,
}
use shachain2pc.Base.Map.{get, put, put-cons_ne, get-cons_ne}
use shachain2pc.Base.Reads.{take-append}
use shachain2pc.Daemon.Record.{
  ChannelRecord, WireRecord, Wires, LogicalKey, empty_channel_record, StoredRecord, stored_record,
  scalars, Mutation, upsert, delete, immediate, eventual, upsert_channel_mutation,
  upsert_frontier_mutation, secret_payload, logical_key,
}
use shachain2pc.Daemon.State.{
  DaemonState, DaemonError, bad_json, find_channel, set_channel, write_batch,
}
use shachain2pc.Daemon.Db.{
  DbCrypto, Table, WriteOp, batch, flush, process_db_writer_batch, load_redb_state, PlainDb, entry,
  apply_mutations,
}
use shachain2pc.Daemon.Db.Records.{
  IsDbCrypto, apply_records, apply_record, Stores, LogicalKey-discrete, apply_mutations-Stores,
}
use shachain2pc.Daemon.Db.Load.{Item, channel_item, frontier_item, item_entry, Distinct}
use shachain2pc.Daemon.Db.Mirror.{Mirrors, Agrees, load_redb_state-Agrees}
use shachain2pc.Types.Index.{alice}
use shachain2pc.Daemon.Frontier.{store_node_locked, bound_wires}
use shachain2pc.Daemon.Channels.{enable_channel_locked, enabled_channel, EnableChannelRequest}
use shachain2pc.Daemon.Db.Sections.{
  Batch, Config, left_lock, only_batch, store, enable, send, Moves, moves, no_move, InOrder,
  WillMirror, Moves-WillMirror,
}
use shachain2pc.Daemon.Db.Writes.{upsert_channel-Mirrors, upsert_frontier-Mirrors}
use shachain2pc.Daemon.Db.Queue.{op_mutations, process_db_writer_batch-Stores}

abbrev Letter : Type 0
Letter = Option StoredRecord

abbrev read_letter : List Letter → Result DaemonError StoredRecord
read_letter (some r ∷ rest) = ok r
read_letter _ = err bad_json

abbrev plain : DbCrypto Letter
plain = record {
  hmac = λ xs. xs ++ replicate 15 0;
  seal = λ nonce key text. (replicate 16 none, text);
  unseal = λ nonce key text tag. ok text;
  to_json = λ r. some r ∷ [];
  from_json = read_letter;
}

plain-IsDbCrypto : IsDbCrypto plain
plain-IsDbCrypto = record {
  hmac_length = λ xs h. omega (arith, length-append xs (replicate 15 0), h);
  hmac_injective = λ xs ys h k e.
      sym (take-append xs (replicate 15 0) 17 h)
      ∙ ap (take 17) e
      ∙ take-append ys (replicate 15 0) 17 k;
  tag_length = λ nonce key text. refl;
  unseal_seal = λ nonce key text. refl;
  from_to_json = λ r. refl;
}

abbrev nonce : ℕ → List Letter
nonce i = replicate 12 none

abbrev secret_record : StoredRecord
secret_record = stored_record 2 1 6 (secret_payload (5 ∷ []))

abbrev ops : List WriteOp
ops =
    batch (upsert (logical_key 2 1 6) secret_record ∷ []) eventual
    ∷ flush
    ∷ batch (delete (logical_key 2 1 7) ∷ []) eventual
    ∷ []

process_db_writer_batch-Stores_example :
    Stores plain
      (process_db_writer_batch plain nonce (ok tt) ops []).0
      (apply_records (op_mutations ops) [])
    × ((process_db_writer_batch plain nonce (ok tt) ops []).1.0 ≡ 1)
    × ((process_db_writer_batch plain nonce (ok tt) ops []).1.1 ≡ ok tt)
    × ((process_db_writer_batch plain nonce (ok tt) ops []).2 ≡ ok true)
    × ((process_db_writer_batch plain nonce (err bad_json) ops []).0 ≡ [])
    × ((process_db_writer_batch plain nonce (err bad_json) ops []).1.0 ≡ 1)
    × ((◌≡◌ {A = ℕ} 1 0)
        ⊎ ((process_db_writer_batch plain nonce (err bad_json) ops []).1.1 ≡ err bad_json))
process_db_writer_batch-Stores_example =
    process_db_writer_batch-Stores plain nonce bad_json ops [] [] plain-IsDbCrypto (λ i. refl)
      (omega arith) tt

-- A new channel and one node of it.
abbrev new_channel : ChannelRecord
new_channel = record {
  enabled = true;
  last_observed_next_reveal_index = none;
  precompute_target = 3;
  ssp_target = 40;
  delta_lifetime_checked_units_cap = 10;
  frontier_nodes = [];
  known_secrets = [];
  estimated_checked_units = 0;
  attempted_checked_units = 0;
  failed_precompute_jobs = 0;
}

abbrev a_node : WireRecord
a_node = record {
  public_binding_hex = 1 ∷ [];
  local_binding_hex = 2 ∷ [];
  wires = record { lambda = 1 ∷ []; mac = []; key = [] };
}

abbrev with_a_node : ChannelRecord
with_a_node = record new_channel { frontier_nodes = (5, a_node) ∷ [] }

abbrev items : List Item
items = channel_item 1 (scalars new_channel) ∷ frontier_item 1 5 a_node ∷ []

abbrev mutations : List Mutation
mutations = upsert_channel_mutation 1 new_channel ∷ upsert_frontier_mutation 1 5 a_node ∷ []

nothing-Mirrors : Mirrors [] []
unfolding get entry empty_channel_record
nothing-Mirrors = record { channels = λ j. refl; secrets = λ j i. refl; nodes = λ j i. refl }

channel-Mirrors :
    Mirrors (apply_records (upsert_channel_mutation 1 new_channel ∷ []) []) ((1, new_channel) ∷ [])
unfolding apply_records put entry get empty_channel_record
channel-Mirrors = upsert_channel-Mirrors 1 new_channel [] [] nothing-Mirrors refl refl

records_are_items : apply_records mutations [] ≡ map item_entry items
unfolding apply_records apply_record put upsert_channel_mutation upsert_frontier_mutation scalars
records_are_items =
    put-cons_ne LogicalKey-discrete (logical_key 3 1 5) (logical_key 1 1 0) _ _ []
      (λ e. three_ne_one (ap (λ k. LogicalKey.record_type k) e))
  where
    three_ne_one : ◌≢◌ {A = ℕ} 3 1
    three_ne_one = omega arith

items-Mirrors : Mirrors (map item_entry items) ((1, with_a_node) ∷ [])
unfolding put apply_records get ℕ_discrete
items-Mirrors =
    subst (λ rs. Mirrors rs ((1, with_a_node) ∷ [])) records_are_items
      (upsert_frontier-Mirrors 1 5 a_node _ _ channel-Mirrors refl)

items-Distinct : Distinct (map item_entry items)
unfolding get
items-Distinct = (
  get-cons_ne LogicalKey-discrete (logical_key 1 1 0) (logical_key 3 1 5) _ []
      (λ e. one_ne_three (ap (λ k. LogicalKey.record_type k) e)),
  (refl, tt),
)
  where
    one_ne_three : ◌≢◌ {A = ℕ} 1 3
    one_ne_three = omega arith

abbrev table : Table plain
table = apply_mutations plain nonce mutations []

table-Stores : Stores plain table (map item_entry items)
unfolding upsert_channel_mutation upsert_frontier_mutation
table-Stores = subst (Stores plain table) records_are_items (
    apply_mutations-Stores plain plain-IsDbCrypto nonce mutations [] [] (λ i. refl) (omega arith)
      tt)

load_redb_state-Agrees_example :
    (out : PlainDb) × (load_redb_state plain table ≡ ok out) × Agrees out ((1, with_a_node) ∷ [])
load_redb_state-Agrees_example =
    load_redb_state-Agrees plain table items ((1, with_a_node) ∷ []) table-Stores items-Distinct
      items-Mirrors

abbrev running : DaemonState
running = record {
  role = alice;
  cookie = 7 ∷ [];
  max_ram_bytes = 0;
  workers = 1;
  precompute = 3;
  channels = (1, new_channel) ∷ [];
  active_jobs = [];
  next_job_id = 1;
  writer_open = true;
  writes = (upsert_channel_mutation 1 new_channel ∷ [], immediate) ∷ [];
  notified = false;
}

abbrev hash : List ℕ → List ℕ
hash xs = []

abbrev no_wires : Wires
no_wires = record { lambda = []; mac = []; key = [] }

abbrev second : EnableChannelRequest
second = record {
  channel_index = 2;
  precompute = 0;
  ssp_target = 0;
  delta_lifetime_checked_units_cap = 0;
}

-- A node is stored and a channel enabled before either batch is queued.
abbrev after_store : Config
after_store = left_lock eventual (store_node_locked hash 1 5 no_wires running) []

abbrev after_enable : Config
after_enable =
    left_lock immediate (only_batch (enable_channel_locked second after_store.0)) after_store.1

abbrev node_batch : List Mutation
node_batch = upsert_frontier_mutation 1 5 (bound_wires hash alice 1 5 new_channel no_wires) ∷ []

abbrev enable_batch : List Mutation
enable_batch = upsert_channel_mutation 2 (enabled_channel second 3 none) ∷ []

abbrev both_wait : List Batch
both_wait = (node_batch, eventual) ∷ (enable_batch, immediate) ∷ []

abbrev after_send : Config
after_send = ((write_batch node_batch eventual after_enable.0).1, (enable_batch, immediate) ∷ [])

waiting_both : after_enable ≡ (after_enable.0, both_wait)
unfolding store_node_locked enable_channel_locked find_channel get set_channel put ℕ_discrete
waiting_both = refl

interleaved : Moves hash (running, []) after_send
unfolding store_node_locked enable_channel_locked find_channel get set_channel put ℕ_discrete
interleaved =
    moves (running, []) after_store after_send (store 1 5 no_wires running [])
      (moves after_store after_enable after_send (enable second after_store.0 after_store.1) (
        moves after_enable after_send after_send
          (send [] node_batch eventual ((enable_batch, immediate) ∷ []) after_enable.0)
          (no_move after_send)))

interleaved-InOrder : InOrder hash (running, []) after_send interleaved
unfolding interleaved
interleaved-InOrder = (tt, (tt, (refl, tt)))

Moves-WillMirror_example : WillMirror hash [] after_send
unfolding find_channel get ℕ_discrete apply_records
Moves-WillMirror_example =
    Moves-WillMirror hash [] (running, []) after_send interleaved interleaved-InOrder
      (refl, channel-Mirrors)
