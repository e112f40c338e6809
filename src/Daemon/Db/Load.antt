-- ===== src/Daemon/Db/Load.antt =====
-- load_redb_state: what a channel is after the records are loaded, in whatever order they come.
use mathlib.Core.Logic.{ite}
use native.Mathlib.Decide.{ℕ_discrete}
use shachain2pc.Base.{ℕ, ◌≡◌, refl, sym, ap, ◌∙◌, true, List, [], ◌∷◌, map, Option, none, some, ok}
use shachain2pc.Base.Map.{get, put, get-put_self, get-put_ne}
use shachain2pc.MpcTypes.{Bytes-discrete}
use shachain2pc.Daemon.Record.{
  ChannelRecord, ChannelScalars, WireRecord, apply_scalars, scalars, meta, channel_payload,
  secret_payload, frontier_payload, StoredRecord, stored_record, LogicalKey, logical_key,
}
use shachain2pc.Daemon.Db.{
  PlainDb, decided, is_meta, apply_payload, meta_record, verifier_hex, validate_meta_record, entry,
  apply_stored_record,
}
use shachain2pc.Daemon.Db.Records.{LogicalKey-discrete, Records, load_records}

-- The records that the daemon writes.
pub data Item : Type 0 where
  meta_item : Item
  channel_item : ℕ → ChannelScalars → Item
  secret_item : ℕ → ℕ → List ℕ → Item
  frontier_item : ℕ → ℕ → WireRecord → Item

abbrev pub item_entry : Item → LogicalKey × StoredRecord
item_entry meta_item = (logical_key 0 0 0, meta_record)
item_entry (channel_item ch s) = (logical_key 1 ch 0, stored_record 1 ch 0 (channel_payload s))
item_entry (secret_item ch i hex) = (logical_key 2 ch i, stored_record 2 ch i (secret_payload hex))
item_entry (frontier_item ch m w) = (logical_key 3 ch m, stored_record 3 ch m (frontier_payload w))

-- No key comes twice.
abbrev pub Distinct : Records → Type 0
Distinct [] = Unit
Distinct ((k, r) ∷ rs) = (get LogicalKey-discrete k rs ≡ none) × Distinct rs

-- What an item says of a channel, or what was there.
abbrev pub item_scalars : ℕ → Item → ChannelScalars → ChannelScalars
item_scalars j (channel_item ch s) d = ite (ℕ_discrete ch j) s d
item_scalars j _ d = d

abbrev pub item_secret : ℕ → ℕ → Item → Option (List ℕ) → Option (List ℕ)
item_secret j i (secret_item ch k hex) d =
    ite (ℕ_discrete ch j) (ite (ℕ_discrete k i) (some hex) d) d
item_secret j i _ d = d

abbrev pub item_frontier : ℕ → ℕ → Item → Option WireRecord → Option WireRecord
item_frontier j i (frontier_item ch k w) d =
    ite (ℕ_discrete ch j) (ite (ℕ_discrete k i) (some w) d) d
item_frontier j i _ d = d

abbrev pub channel_scalars : ℕ → PlainDb → ChannelScalars
channel_scalars j db = scalars (entry j db)

abbrev pub secret_of : ℕ → ℕ → PlainDb → Option (List ℕ)
secret_of j i db = get ℕ_discrete i (entry j db).known_secrets

abbrev pub frontier_of : ℕ → ℕ → PlainDb → Option WireRecord
frontier_of j i db = get ℕ_discrete i (entry j db).frontier_nodes

pub entry-put :
    (ch j : ℕ) (c : ChannelRecord) (db : PlainDb)
    → entry j (put ℕ_discrete ch c db) ≡ ite (ℕ_discrete ch j) c (entry j db)
unfolding entry
entry-put ch j c db =
    elim (ℕ_discrete ch j) as (λ d. entry j (put ℕ_discrete ch c db) ≡ ite d c (entry j db)) [
      | yes e ↦ rw (sym e, get-put_self ℕ_discrete ch c db) refl
      | no n ↦ rw (get-put_ne ℕ_discrete ch j c db n) refl
    ]

-- The database with one more item.
abbrev Adds : PlainDb → Item → PlainDb → Type 0
Adds db x db' =
    ((j : ℕ) → channel_scalars j db' ≡ item_scalars j x (channel_scalars j db))
    × ((j i : ℕ) → secret_of j i db' ≡ item_secret j i x (secret_of j i db))
    × ((j i : ℕ) → frontier_of j i db' ≡ item_frontier j i x (frontier_of j i db))

abbrev with_channel : ℕ → (ChannelRecord → ChannelRecord) → PlainDb → PlainDb
with_channel ch f db = put ℕ_discrete ch (f (entry ch db)) db

pub get-put_cases :
    {V : Type 0} (k i : ℕ) (v : V) (m : List (ℕ × V))
    → get ℕ_discrete i (put ℕ_discrete k v m) ≡ ite (ℕ_discrete k i) (some v) (get ℕ_discrete i m)
get-put_cases k i v m =
    elim (ℕ_discrete k i)
      as (λ d. get ℕ_discrete i (put ℕ_discrete k v m) ≡ ite d (some v) (get ℕ_discrete i m)) [
        | yes e ↦
            ap (λ (n : ℕ). get ℕ_discrete n (put ℕ_discrete k v m)) (sym e)
            ∙ get-put_self ℕ_discrete k v m
        | no n ↦ get-put_ne ℕ_discrete k i v m n
      ]

-- A view of a channel after a write of one.
pub view_put :
    {A : Type 0} (f : ChannelRecord → A) (ch j : ℕ) (c : ChannelRecord) (db : PlainDb) (v : A)
    → (ch ≡ j → f c ≡ v)
    → f (entry j (put ℕ_discrete ch c db)) ≡ ite (ℕ_discrete ch j) v (f (entry j db))
view_put f ch j c db v e = ap f (entry-put ch j c db) ∙ split (ℕ_discrete ch j)
  where
    split : (d : Dec (ch ≡ j)) → f (ite d c (entry j db)) ≡ ite d v (f (entry j db))
    split (yes h) = e h
    split (no n) = refl

pub view_kept :
    {A : Type 0} (f : ChannelRecord → A) (ch j : ℕ) (c : ChannelRecord) (db : PlainDb)
    → f c ≡ f (entry ch db)
    → f (entry j (put ℕ_discrete ch c db)) ≡ f (entry j db)
view_kept f ch j c db e =
    view_put f ch j c db (f (entry j db)) (λ h. e ∙ ap (λ (n : ℕ). f (entry n db)) h)
    ∙ same (ℕ_discrete ch j)
  where
    same : (d : Dec (ch ≡ j)) → ite d (f (entry j db)) (f (entry j db)) ≡ f (entry j db)
    same (yes h) = refl
    same (no n) = refl

meta_is_meta : is_meta (meta verifier_hex) ≡ true
meta_is_meta = elim (Bytes-discrete verifier_hex verifier_hex) as (λ d. decided d ≡ true) [
  | yes e ↦ refl
  | no n ↦ absurd (n refl)
]

meta_valid : (db : PlainDb) → apply_stored_record db meta_record ≡ ok db
unfolding apply_stored_record apply_payload validate_meta_record
meta_valid db = rw meta_is_meta refl

apply_item :
    (x : Item) (db : PlainDb)
    → (db' : PlainDb) × (apply_stored_record db (item_entry x).1 ≡ ok db') × Adds db x db'
unfolding apply_stored_record apply_payload scalars apply_scalars
apply_item meta_item db = (db, meta_valid db, ((λ j. refl), (λ j i. refl), λ j i. refl))
apply_item (channel_item ch s) db = (
  put ℕ_discrete ch (apply_scalars (entry ch db) s) db,
  refl,
  (
    (λ j. view_put scalars ch j (apply_scalars (entry ch db) s) db s (λ h. refl)),
    (λ j i.
        view_kept (λ c. get ℕ_discrete i c.known_secrets) ch j (apply_scalars (entry ch db) s) db
          refl),
    λ j i.
        view_kept (λ c. get ℕ_discrete i c.frontier_nodes) ch j (apply_scalars (entry ch db) s) db
          refl,
  ),
)
apply_item (secret_item ch k hex) db =
    let c = entry ch db in
    let c' : ChannelRecord = record c { known_secrets = put ℕ_discrete k hex c.known_secrets } in
    (
      put ℕ_discrete ch c' db,
      refl,
      (
        (λ j. view_kept scalars ch j c' db refl),
        (λ j i.
            view_put (λ d. get ℕ_discrete i d.known_secrets) ch j c' db _
              (λ h.
                get-put_cases k i hex c.known_secrets
                ∙ ap (λ (n : ℕ). ite (ℕ_discrete k i) (some hex) (secret_of n i db)) h)),
        λ j i. view_kept (λ d. get ℕ_discrete i d.frontier_nodes) ch j c' db refl,
      ),
    )
apply_item (frontier_item ch k w) db =
    let c = entry ch db in
    let c' : ChannelRecord = record c { frontier_nodes = put ℕ_discrete k w c.frontier_nodes } in
    (
      put ℕ_discrete ch c' db,
      refl,
      (
        (λ j. view_kept scalars ch j c' db refl),
        (λ j i. view_kept (λ d. get ℕ_discrete i d.known_secrets) ch j c' db refl),
        λ j i.
            view_put (λ d. get ℕ_discrete i d.frontier_nodes) ch j c' db _
              (λ h.
                get-put_cases k i w c.frontier_nodes
                ∙ ap (λ (n : ℕ). ite (ℕ_discrete k i) (some w) (frontier_of n i db)) h),
      ),
    )

-- The items in order, over what was there.
unfoldable pub after_scalars : ℕ → List Item → ChannelScalars → ChannelScalars
after_scalars j [] d = d
after_scalars j (x ∷ xs) d = after_scalars j xs (item_scalars j x d)

unfoldable pub after_secret : ℕ → ℕ → List Item → Option (List ℕ) → Option (List ℕ)
after_secret j i [] d = d
after_secret j i (x ∷ xs) d = after_secret j i xs (item_secret j i x d)

unfoldable pub after_frontier : ℕ → ℕ → List Item → Option WireRecord → Option WireRecord
after_frontier j i [] d = d
after_frontier j i (x ∷ xs) d = after_frontier j i xs (item_frontier j i x d)

pub load_items :
    (xs : List Item) (db : PlainDb)
    → (db' : PlainDb) × (load_records (map item_entry xs) db ≡ ok db')
      × ((j : ℕ) → channel_scalars j db' ≡ after_scalars j xs (channel_scalars j db))
      × ((j i : ℕ) → secret_of j i db' ≡ after_secret j i xs (secret_of j i db))
      × ((j i : ℕ) → frontier_of j i db' ≡ after_frontier j i xs (frontier_of j i db))
unfolding load_records after_scalars after_secret after_frontier
load_items [] db = (db, refl, (λ j. refl), (λ j i. refl), λ j i. refl)
load_items (x ∷ xs) db =
    let (db₁, applied, (s₁, k₁, f₁)) = apply_item x db in
    let (db₂, loaded, s₂, k₂, f₂) = load_items xs db₁ in
    (
      db₂,
      rw applied loaded,
      (λ j. s₂ j ∙ ap (after_scalars j xs) (s₁ j)),
      (λ j i. k₂ j i ∙ ap (after_secret j i xs) (k₁ j i)),
      λ j i. f₂ j i ∙ ap (after_frontier j i xs) (f₁ j i),
    )
