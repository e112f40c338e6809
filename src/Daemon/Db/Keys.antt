-- ===== src/Daemon/Db/Keys.antt =====
-- What loading gives is what the records under each key say.
use mathlib.Core.Logic.{ite}
use native.Mathlib.Decide.{ℕ_discrete}
use shachain2pc.Base.{
  ℕ, ◌≡◌, ◌≢◌, refl, sym, ap, ap₂, ◌∙◌, List, [], ◌∷◌, map, Option, none, some, arith,
}
use shachain2pc.Base.Map.{get, get-cons_self, get-cons_ne}
use shachain2pc.Daemon.Record.{
  ChannelScalars, WireRecord, channel_payload, secret_payload, frontier_payload, StoredRecord,
  LogicalKey, logical_key,
}
use shachain2pc.Daemon.Db.Records.{LogicalKey-discrete, Records}
use shachain2pc.Daemon.Db.Load.{
  Item, meta_item, channel_item, secret_item, frontier_item, item_entry, Distinct, after_scalars,
  after_secret, after_frontier,
}

-- What the record under a key says, or what was there.
abbrev pub scalars_or : Option StoredRecord → ChannelScalars → ChannelScalars
scalars_or none d = d
scalars_or (some r) d = elim r.payload [ channel_payload s ↦ s | _ ↦ d ]

abbrev pub secret_or : Option StoredRecord → Option (List ℕ) → Option (List ℕ)
secret_or none d = d
secret_or (some r) d = elim r.payload [ secret_payload hex ↦ some hex | _ ↦ d ]

abbrev pub frontier_or : Option StoredRecord → Option WireRecord → Option WireRecord
frontier_or none d = d
frontier_or (some r) d = elim r.payload [ frontier_payload w ↦ some w | _ ↦ d ]

abbrev pub at_key : LogicalKey → List Item → Option StoredRecord
at_key k xs = get LogicalKey-discrete k (map item_entry xs)

other_kind :
    (k j : LogicalKey) (r : StoredRecord) (rs : Records)
    → k.record_type ≢ j.record_type
    → get LogicalKey-discrete k ((j, r) ∷ rs) ≡ get LogicalKey-discrete k rs
other_kind k j r rs n =
    get-cons_ne LogicalKey-discrete k j r rs (λ e. n (ap (λ x. LogicalKey.record_type x) e))

pub after_scalars-at_key :
    (j : ℕ) (xs : List Item) (d : ChannelScalars)
    → Distinct (map item_entry xs)
    → after_scalars j xs d ≡ scalars_or (at_key (logical_key 1 j 0) xs) d
unfolding after_scalars get
after_scalars-at_key j [] d h = refl
after_scalars-at_key j (meta_item ∷ xs) d h =
    after_scalars-at_key j xs d h.1
    ∙ ap (λ o. scalars_or o d) (sym (other_kind (logical_key 1 j 0) _ _ _ (omega arith)))
after_scalars-at_key j (secret_item ch i hex ∷ xs) d h =
    after_scalars-at_key j xs d h.1
    ∙ ap (λ o. scalars_or o d) (sym (other_kind (logical_key 1 j 0) _ _ _ (omega arith)))
after_scalars-at_key j (frontier_item ch i w ∷ xs) d h =
    after_scalars-at_key j xs d h.1
    ∙ ap (λ o. scalars_or o d) (sym (other_kind (logical_key 1 j 0) _ _ _ (omega arith)))
after_scalars-at_key j (channel_item ch s ∷ xs) d h =
    elim (ℕ_discrete ch j)
      as (λ t.
        after_scalars j xs (ite t s d)
        ≡ scalars_or (at_key (logical_key 1 j 0) (channel_item ch s ∷ xs)) d) [
          | yes e ↦
              after_scalars-at_key j xs s h.1
              ∙ ap (λ o. scalars_or o s)
                  (ap (λ (n : ℕ). at_key (logical_key 1 n 0) xs) (sym e) ∙ h.0)
              ∙ ap (λ o. scalars_or o d)
                  (sym (
                    get-cons_self LogicalKey-discrete (logical_key 1 j 0) _ _ _
                      (ap (λ (n : ℕ). logical_key 1 n 0) (sym e))))
          | no n ↦
              after_scalars-at_key j xs d h.1
              ∙ ap (λ o. scalars_or o d)
                  (sym (
                    get-cons_ne LogicalKey-discrete (logical_key 1 j 0) _ _ _
                      (λ e. n (sym (ap (λ k. LogicalKey.channel_index k) e)))))
        ]

split_secret :
    (j i ch k : ℕ) (xs : List Item) (v : (List ℕ)) (d : Option (List ℕ))
    → Distinct (map item_entry (secret_item ch k v ∷ xs))
    → ((o : Option (List ℕ)) → after_secret j i xs o ≡ secret_or (at_key (logical_key 2 j i) xs) o)
    → (t : Dec (ch ≡ j)) (u : Dec (k ≡ i))
    → after_secret j i xs (ite t (ite u (some v) d) d)
      ≡ secret_or (at_key (logical_key 2 j i) (secret_item ch k v ∷ xs)) d
split_secret j i ch k xs v d h ih (yes e) (yes f) =
    ih (some v)
    ∙ ap (λ o. secret_or o (some v))
        (ap₂ (λ (n m : ℕ). at_key (logical_key 2 n m) xs) (sym e) (sym f) ∙ h.0)
    ∙ ap (λ o. secret_or o d)
        (sym (
          get-cons_self LogicalKey-discrete (logical_key 2 j i) _ _ _
            (ap₂ (λ (n m : ℕ). logical_key 2 n m) (sym e) (sym f))))
split_secret j i ch k xs v d h ih (no n) u =
    ih d
    ∙ ap (λ o. secret_or o d)
        (sym (
          get-cons_ne LogicalKey-discrete (logical_key 2 j i) _ _ _
            (λ e. n (sym (ap (λ q. LogicalKey.channel_index q) e)))))
split_secret j i ch k xs v d h ih (yes e) (no n) =
    ih d
    ∙ ap (λ o. secret_or o d)
        (sym (
          get-cons_ne LogicalKey-discrete (logical_key 2 j i) _ _ _
            (λ e. n (sym (ap (λ q. LogicalKey.sub_id q) e)))))

pub after_secret-at_key :
    (j i : ℕ) (xs : List Item) (d : Option (List ℕ))
    → Distinct (map item_entry xs)
    → after_secret j i xs d ≡ secret_or (at_key (logical_key 2 j i) xs) d
unfolding after_secret get
after_secret-at_key j i [] d h = refl
after_secret-at_key j i (meta_item ∷ xs) d h =
    after_secret-at_key j i xs d h.1
    ∙ ap (λ o. secret_or o d) (sym (other_kind (logical_key 2 j i) _ _ _ (omega arith)))
after_secret-at_key j i (channel_item ch s ∷ xs) d h =
    after_secret-at_key j i xs d h.1
    ∙ ap (λ o. secret_or o d) (sym (other_kind (logical_key 2 j i) _ _ _ (omega arith)))
after_secret-at_key j i (frontier_item ch k w ∷ xs) d h =
    after_secret-at_key j i xs d h.1
    ∙ ap (λ o. secret_or o d) (sym (other_kind (logical_key 2 j i) _ _ _ (omega arith)))
after_secret-at_key j i (secret_item ch k v ∷ xs) d h =
    split_secret j i ch k xs v d h (λ o. after_secret-at_key j i xs o h.1) (ℕ_discrete ch j)
      (ℕ_discrete k i)

split_frontier :
    (j i ch k : ℕ) (xs : List Item) (v : WireRecord) (d : Option WireRecord)
    → Distinct (map item_entry (frontier_item ch k v ∷ xs))
    → ((o : Option WireRecord)
        → after_frontier j i xs o ≡ frontier_or (at_key (logical_key 3 j i) xs) o)
    → (t : Dec (ch ≡ j)) (u : Dec (k ≡ i))
    → after_frontier j i xs (ite t (ite u (some v) d) d)
      ≡ frontier_or (at_key (logical_key 3 j i) (frontier_item ch k v ∷ xs)) d
split_frontier j i ch k xs v d h ih (yes e) (yes f) =
    ih (some v)
    ∙ ap (λ o. frontier_or o (some v))
        (ap₂ (λ (n m : ℕ). at_key (logical_key 3 n m) xs) (sym e) (sym f) ∙ h.0)
    ∙ ap (λ o. frontier_or o d)
        (sym (
          get-cons_self LogicalKey-discrete (logical_key 3 j i) _ _ _
            (ap₂ (λ (n m : ℕ). logical_key 3 n m) (sym e) (sym f))))
split_frontier j i ch k xs v d h ih (no n) u =
    ih d
    ∙ ap (λ o. frontier_or o d)
        (sym (
          get-cons_ne LogicalKey-discrete (logical_key 3 j i) _ _ _
            (λ e. n (sym (ap (λ q. LogicalKey.channel_index q) e)))))
split_frontier j i ch k xs v d h ih (yes e) (no n) =
    ih d
    ∙ ap (λ o. frontier_or o d)
        (sym (
          get-cons_ne LogicalKey-discrete (logical_key 3 j i) _ _ _
            (λ e. n (sym (ap (λ q. LogicalKey.sub_id q) e)))))

pub after_frontier-at_key :
    (j i : ℕ) (xs : List Item) (d : Option WireRecord)
    → Distinct (map item_entry xs)
    → after_frontier j i xs d ≡ frontier_or (at_key (logical_key 3 j i) xs) d
unfolding after_frontier get
after_frontier-at_key j i [] d h = refl
after_frontier-at_key j i (meta_item ∷ xs) d h =
    after_frontier-at_key j i xs d h.1
    ∙ ap (λ o. frontier_or o d) (sym (other_kind (logical_key 3 j i) _ _ _ (omega arith)))
after_frontier-at_key j i (channel_item ch s ∷ xs) d h =
    after_frontier-at_key j i xs d h.1
    ∙ ap (λ o. frontier_or o d) (sym (other_kind (logical_key 3 j i) _ _ _ (omega arith)))
after_frontier-at_key j i (secret_item ch k w ∷ xs) d h =
    after_frontier-at_key j i xs d h.1
    ∙ ap (λ o. frontier_or o d) (sym (other_kind (logical_key 3 j i) _ _ _ (omega arith)))
after_frontier-at_key j i (frontier_item ch k v ∷ xs) d h =
    split_frontier j i ch k xs v d h (λ o. after_frontier-at_key j i xs o h.1) (ℕ_discrete ch j)
      (ℕ_discrete k i)
