-- ===== src/Daemon/Db/Writes.antt =====
-- The mutations that the daemon writes keep the records a mirror of the channels in memory.
use native.Mathlib.Decide.{ℕ_discrete}
use shachain2pc.Base.{
  ℕ, ◌≡◌, ◌≢◌, refl, sym, ap, ap₂, ◌∙◌, List, [], ◌∷◌, ◌++◌, Option, none, some, arith,
}
use shachain2pc.Base.Map.{get, put, get-put_self, get-put_ne}
use shachain2pc.Daemon.Record.{
  ChannelRecord, WireRecord, scalars, channel_payload, frontier_payload, StoredRecord,
  stored_record, LogicalKey, logical_key, Mutation, DbDurability, upsert_channel_mutation,
  upsert_frontier_mutation,
}
use shachain2pc.Daemon.State.{DaemonState}
use shachain2pc.Daemon.Channels.{EnableChannelRequest, enabled_channel}
use shachain2pc.Daemon.Db.{PlainDb, or_empty, entry}
use shachain2pc.Daemon.Db.Records.{LogicalKey-discrete, Records, apply_record, apply_records}
use shachain2pc.Daemon.Db.Load.{frontier_of, view_kept}
use shachain2pc.Daemon.Db.Mirror.{Mirrors, record_of_channel, record_of_secret, record_of_node}

-- A record of another kind is not changed.
kind_kept :
    (k j : LogicalKey) (r : StoredRecord) (rs : Records)
    → j.record_type ≢ k.record_type
    → get LogicalKey-discrete k (put LogicalKey-discrete j r rs) ≡ get LogicalKey-discrete k rs
kind_kept k j r rs n =
    get-put_ne LogicalKey-discrete j k r rs (λ e. n (ap (λ x. LogicalKey.record_type x) e))

-- The settings of a channel are written with its record.
pub upsert_channel-Mirrors :
    (ch : ℕ) (c : ChannelRecord) (rs : Records) (db : PlainDb)
    → Mirrors rs db
    → c.known_secrets ≡ (entry ch db).known_secrets
    → c.frontier_nodes ≡ (entry ch db).frontier_nodes
    → Mirrors (apply_record (upsert_channel_mutation ch c) rs) (put ℕ_discrete ch c db)
unfolding apply_record upsert_channel_mutation
upsert_channel-Mirrors ch c rs db m e f = record {
  channels = λ j. elim (ℕ_discrete ch j) [
    | yes h ↦
        ap
          (λ (n : ℕ). get LogicalKey-discrete (logical_key 1 n 0) (
            put LogicalKey-discrete (logical_key 1 ch 0)
              (stored_record 1 ch 0 (channel_payload (scalars c))) rs))
          (sym h)
        ∙ get-put_self LogicalKey-discrete (logical_key 1 ch 0) _ rs
        ∙ ap₂ record_of_channel h (
            sym (
              ap (λ (n : ℕ). get ℕ_discrete n (put ℕ_discrete ch c db)) (sym h)
              ∙ get-put_self ℕ_discrete ch c db))
    | no n ↦
        get-put_ne LogicalKey-discrete (logical_key 1 ch 0) (logical_key 1 j 0) _ rs
          (λ x. n (ap (λ k. LogicalKey.channel_index k) x))
        ∙ m.channels j
        ∙ ap (record_of_channel j) (sym (get-put_ne ℕ_discrete ch j c db n))
  ];
  secrets = λ j i.
      kind_kept (logical_key 2 j i) (logical_key 1 ch 0) _ rs (omega arith)
      ∙ m.secrets j i
      ∙ ap (record_of_secret j i) (
          sym (
            view_kept (λ d. get ℕ_discrete i d.known_secrets) ch j c db (ap (get ℕ_discrete i) e)));
  nodes = λ j i.
      kind_kept (logical_key 3 j i) (logical_key 1 ch 0) _ rs (omega arith)
      ∙ m.nodes j i
      ∙ ap (record_of_node j i) (
          sym (
            view_kept (λ d. get ℕ_discrete i d.frontier_nodes) ch j c db
              (ap (get ℕ_discrete i) f)));
}

abbrev with_node : ℕ → WireRecord → ChannelRecord → ChannelRecord
with_node mask w c = record c { frontier_nodes = put ℕ_discrete mask w c.frontier_nodes }

entry-put_self : (ch : ℕ) (c : ChannelRecord) (db : PlainDb) → entry ch (put ℕ_discrete ch c db) ≡ c
unfolding entry
entry-put_self ch c db = ap or_empty (get-put_self ℕ_discrete ch c db)

entry-put_ne :
    (ch j : ℕ) (c : ChannelRecord) (db : PlainDb)
    → ch ≢ j
    → entry j (put ℕ_discrete ch c db) ≡ entry j db
unfolding entry
entry-put_ne ch j c db n = ap or_empty (get-put_ne ℕ_discrete ch j c db n)

node_written :
    (ch mask j i : ℕ) (w : WireRecord) (c : ChannelRecord) (rs : Records) (db : PlainDb)
    → Mirrors rs db
    → entry ch db ≡ c
    → Dec (ch ≡ j)
    → Dec (mask ≡ i)
    → get LogicalKey-discrete (logical_key 3 j i) (
        put LogicalKey-discrete
          (logical_key 3 ch mask)
          (stored_record 3 ch mask (frontier_payload w))
          rs)
      ≡ record_of_node j i (frontier_of j i (put ℕ_discrete ch (with_node mask w c) db))
node_written ch mask j i w c rs db m here (yes h) (yes g) =
    let r : StoredRecord = stored_record 3 ch mask (frontier_payload w) in
    let at : Option WireRecord = frontier_of ch mask (put ℕ_discrete ch (with_node mask w c) db) in
    let written : at ≡ some w =
      ap (λ d. get ℕ_discrete mask (ChannelRecord.frontier_nodes d))
        (entry-put_self ch (with_node mask w c) db)
      ∙ get-put_self ℕ_discrete mask w c.frontier_nodes in
    ap₂
      (λ (n k : ℕ).
        get LogicalKey-discrete (logical_key 3 n k)
          (put LogicalKey-discrete (logical_key 3 ch mask) r rs))
      (sym h) (sym g)
    ∙ get-put_self LogicalKey-discrete (logical_key 3 ch mask) r rs
    ∙ ap (record_of_node ch mask) (sym written)
    ∙ ap₂
        (λ (n k : ℕ).
          record_of_node n k (frontier_of n k (put ℕ_discrete ch (with_node mask w c) db)))
        h g
node_written ch mask j i w c rs db m here (no n) e =
    get-put_ne LogicalKey-discrete (logical_key 3 ch mask) (logical_key 3 j i) _ rs
      (λ x. n (ap (λ k. LogicalKey.channel_index k) x))
    ∙ m.nodes j i
    ∙ ap (λ d. record_of_node j i (get ℕ_discrete i (ChannelRecord.frontier_nodes d)))
        (sym (entry-put_ne ch j (with_node mask w c) db n))
node_written ch mask j i w c rs db m here (yes h) (no n) =
    let other : get ℕ_discrete i (put ℕ_discrete mask w c.frontier_nodes)
        ≡ get ℕ_discrete i c.frontier_nodes =
      get-put_ne ℕ_discrete mask i w c.frontier_nodes n in
    get-put_ne LogicalKey-discrete (logical_key 3 ch mask) (logical_key 3 j i) _ rs
      (λ x. n (ap (λ k. LogicalKey.sub_id k) x))
    ∙ m.nodes j i
    ∙ ap (record_of_node j i) (
        ap (λ (k : ℕ). frontier_of k i db) (sym h)
        ∙ ap (λ d. get ℕ_discrete i (ChannelRecord.frontier_nodes d)) here
        ∙ sym other
        ∙ ap (λ d. get ℕ_discrete i (ChannelRecord.frontier_nodes d))
            (sym (entry-put_self ch (with_node mask w c) db))
        ∙ ap (λ (k : ℕ). frontier_of k i (put ℕ_discrete ch (with_node mask w c) db)) h)

-- A node is written with its own record.
pub upsert_frontier-Mirrors :
    (ch mask : ℕ) (w : WireRecord) (rs : Records) (db : PlainDb) {c : ChannelRecord}
    → Mirrors rs db
    → get ℕ_discrete ch db ≡ some c
    → Mirrors (apply_record (upsert_frontier_mutation ch mask w) rs) (
        put ℕ_discrete ch (record c { frontier_nodes = put ℕ_discrete mask w c.frontier_nodes }) db)
unfolding apply_record upsert_frontier_mutation scalars entry
upsert_frontier-Mirrors ch mask w rs db {c} m found =
    let c' : ChannelRecord = record c { frontier_nodes = put ℕ_discrete mask w c.frontier_nodes } in
    let r : StoredRecord = stored_record 3 ch mask (frontier_payload w) in
    let here : entry ch db ≡ c = ap or_empty found in
    record {
      channels = λ j.
          kind_kept (logical_key 1 j 0) (logical_key 3 ch mask) r rs (omega arith)
          ∙ m.channels j
          ∙ elim (ℕ_discrete ch j) [
            | yes h ↦
                ap (λ (n : ℕ). record_of_channel j (get ℕ_discrete n db)) (sym h)
                ∙ ap (record_of_channel j) found
                ∙ sym (
                    ap (λ (n : ℕ). record_of_channel j (get ℕ_discrete n (put ℕ_discrete ch c' db)))
                      (sym h)
                    ∙ ap (record_of_channel j) (get-put_self ℕ_discrete ch c' db))
            | no n ↦ ap (record_of_channel j) (sym (get-put_ne ℕ_discrete ch j c' db n))
          ];
      secrets = λ j i.
          kind_kept (logical_key 2 j i) (logical_key 3 ch mask) r rs (omega arith)
          ∙ m.secrets j i
          ∙ ap (record_of_secret j i) (
              sym (
                view_kept (λ d. get ℕ_discrete i d.known_secrets) ch j c' db
                  (ap (λ d. get ℕ_discrete i (ChannelRecord.known_secrets d)) (sym here))));
      nodes =
          λ j i. node_written ch mask j i w c rs db m here (ℕ_discrete ch j) (ℕ_discrete mask i);
    }

-- The mutations of the batches that wait for the writer, in order.
abbrev pub queued : List (List Mutation × DbDurability) → List Mutation
queued [] = []
queued ((ms, d) ∷ writes) = ms ++ queued writes

-- What the database will hold when the queue is written mirrors the memory.
abbrev pub WillMirror : Records → DaemonState → Type 0
WillMirror rs s = Mirrors (apply_records (queued s.writes) rs) s.channels

pub append_nil : (xs : List Mutation) → xs ++ [] ≡ xs
append_nil [] = refl
append_nil (x ∷ xs) = ap (λ l. x ∷ l) (append_nil xs)

pub apply_records-append :
    (xs ys : List Mutation) (rs : Records)
    → apply_records (xs ++ ys) rs ≡ apply_records ys (apply_records xs rs)
unfolding apply_records
apply_records-append [] ys rs = refl
apply_records-append (x ∷ xs) ys rs = apply_records-append xs ys (apply_record x rs)

pub queued-append :
    (ws : List (List Mutation × DbDurability)) (ms : List Mutation) (d : DbDurability)
    (rs : Records)
    → apply_records (queued (ws ++ (ms, d) ∷ [])) rs
      ≡ apply_records ms (apply_records (queued ws) rs)
unfolding apply_records
queued-append [] ms d rs = ap (λ l. apply_records l rs) (append_nil ms)
queued-append ((ns, c) ∷ ws) ms d rs =
    apply_records-append ns (queued (ws ++ (ms, d) ∷ [])) rs
    ∙ queued-append ws ms d (apply_records ns rs)
    ∙ ap (apply_records ms) (sym (apply_records-append ns (queued ws) rs))

-- The settings that enable_channel gives leave the secrets and the nodes.
pub enabled_maps :
    (r : EnableChannelRequest) (configured ch : ℕ) (db : PlainDb)
    → ((enabled_channel r configured (get ℕ_discrete ch db)).known_secrets
        ≡ (entry ch db).known_secrets)
      × ((enabled_channel r configured (get ℕ_discrete ch db)).frontier_nodes
          ≡ (entry ch db).frontier_nodes)
unfolding enabled_channel entry
enabled_maps r configured ch db = by_found (get ℕ_discrete ch db)
  where
    by_found :
        (o : Option ChannelRecord)
        → ((enabled_channel r configured o).known_secrets ≡ (or_empty o).known_secrets)
          × ((enabled_channel r configured o).frontier_nodes ≡ (or_empty o).frontier_nodes)
    by_found none = (refl, refl)
    by_found (some c) = (refl, refl)
