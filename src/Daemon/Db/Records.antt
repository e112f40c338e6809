-- ===== src/Daemon/Db/Records.antt =====
-- The encrypted table is a map from logical keys to records.
use native.Mathlib.Decide.{ℕ_discrete}
use native.Mathlib.Nat.{pow-suc}
use mathlib.Core.Path.{fun_ext}
use shachain2pc.Base.{
  ℕ, zero, suc, ◌+◌, ◌*◌, ◌/◌, ◌%◌, ◌^◌, ◌<◌, ◌≡◌, ◌≢◌, refl, sym, ap, ◌∙◌, ◌==◌, ltb, not, true,
  List, [], ◌∷◌, ◌++◌, length, length-append, take, drop, All, Result, ok, ◌>>=◌, arith,
}
use shachain2pc.Base.Map.{put, remove, put-cons_self, put-cons_ne, remove-cons_self, remove-cons_ne}
use shachain2pc.Base.Reads.{take-append, drop-append, front_equal}
use shachain2pc.MpcTypes.{Bytes-discrete}
use shachain2pc.Daemon.Record.{StoredRecord, LogicalKey, logical_key, Mutation, upsert, delete}
use shachain2pc.Daemon.State.{DaemonError}
use shachain2pc.Daemon.Db.{
  be_bytes, canonical_bytes, DbCrypto, Table, stored_key, encrypt_stored_record,
  decrypt_stored_record, apply_mutation, apply_mutations, PlainDb, apply_stored_record,
  load_entries,
}

unfoldable pub LogicalKey-discrete : Discrete LogicalKey
LogicalKey-discrete = hlevel ℕ_discrete

-- A key whose numbers fit a byte and two words of 64 bits.
abbrev pub IsKey : LogicalKey → Type 0
IsKey k = (k.record_type < 256) × (k.channel_index < 2 ^ 64) × (k.sub_id < 2 ^ 64)

length-be_bytes : (n v : ℕ) → length (be_bytes n v) ≡ n
unfolding be_bytes
length-be_bytes zero v = refl
length-be_bytes (suc n) v =
    omega (arith, length-append (be_bytes n (v / 256)) (v % 256 ∷ []), length-be_bytes n (v / 256))

first_or_zero : List ℕ → ℕ
first_or_zero [] = 0
first_or_zero (x ∷ xs) = x

be_bytes_injective : (n v w : ℕ) → v < 256 ^ n → w < 256 ^ n → be_bytes n v ≡ be_bytes n w → v ≡ w
unfolding be_bytes first_or_zero
be_bytes_injective zero v w p q e = omega arith
be_bytes_injective (suc n) v w p q e =
    let more : 256 ^ suc n ≡ 256 ^ n * 256 = pow-suc 256 n in
    let (high, low) =
      front_equal n (be_bytes n (v / 256)) (be_bytes n (w / 256)) _ _ (length-be_bytes n (v / 256))
        (length-be_bytes n (w / 256)) e in
    omega (
      arith,
      ap first_or_zero low,
      be_bytes_injective n (v / 256) (w / 256) (omega arith) (omega arith) high,
    )

canonical_bytes_injective :
    (j k : LogicalKey) → IsKey j → IsKey k → canonical_bytes j ≡ canonical_bytes k → j ≡ k
unfolding canonical_bytes first_or_zero
canonical_bytes_injective j k (t, c, i) (u, d, l) e =
    let kinds : j.record_type ≡ k.record_type = ap first_or_zero e in
    let (channels, subs) =
      front_equal 8 (be_bytes 8 j.channel_index) (be_bytes 8 k.channel_index) _ _
        (length-be_bytes 8 j.channel_index) (length-be_bytes 8 k.channel_index) (ap (drop 1) e) in
    let same_channel = be_bytes_injective 8 j.channel_index k.channel_index c d channels in
    let same_sub = be_bytes_injective 8 j.sub_id k.sub_id i l subs in
    λ x. logical_key (kinds x) (same_channel x) (same_sub x)

length-canonical_bytes : (k : LogicalKey) → length (canonical_bytes k) ≡ 17
unfolding canonical_bytes
length-canonical_bytes k = omega (
  arith,
  length-append (be_bytes 8 k.channel_index) (be_bytes 8 k.sub_id),
  length-be_bytes 8 k.channel_index,
  length-be_bytes 8 k.sub_id,
)

-- What the code relies on of HMAC-SHA-256, AES-GCM and serde_json.
pub record IsDbCrypto {Byte : Type 0} (crypto : DbCrypto Byte) : Type 0 where
  pub hmac_length : (xs : List ℕ) → length xs ≡ 17 → length (crypto.hmac xs) ≡ 32
  pub hmac_injective :
      (xs ys : List ℕ) → length xs ≡ 17 → length ys ≡ 17 → crypto.hmac xs ≡ crypto.hmac ys → xs ≡ ys
  pub tag_length :
      (nonce : List Byte) (key : List ℕ) (text : List Byte)
      → length (crypto.seal nonce key text).0 ≡ 16
  pub unseal_seal :
      (nonce : List Byte) (key : List ℕ) (text : List Byte)
      → crypto.unseal nonce key (crypto.seal nonce key text).1 (crypto.seal nonce key text).0
        ≡ ok text
  pub from_to_json : (r : StoredRecord) → crypto.from_json (crypto.to_json r) ≡ ok r

drop_nil : {A : Type 0} (n : ℕ) → ◌≡◌ {A = List A} (drop n []) []
drop_nil zero = refl
drop_nil (suc n) = refl

drop_sum : {A : Type 0} (n m : ℕ) (xs : List A) → drop (n + m) xs ≡ drop m (drop n xs)
drop_sum zero m xs = let same : 0 + m ≡ m = omega arith in rw same refl
drop_sum (suc n) m [] = drop_nil (suc n + m) ∙ sym (drop_nil m)
drop_sum (suc n) m (x ∷ xs) =
    let more : suc n + m ≡ suc (n + m) = omega arith in rw more (drop_sum n m xs)

module _ {Byte : Type 0} (crypto : DbCrypto Byte) (laws : IsDbCrypto crypto) where
  stored_key_injective :
      (j k : LogicalKey) → IsKey j → IsKey k → stored_key crypto j ≡ stored_key crypto k → j ≡ k
  unfolding stored_key
  stored_key_injective j k p q e = canonical_bytes_injective j k p q (
      laws.hmac_injective (canonical_bytes j) (canonical_bytes k) (length-canonical_bytes j)
        (length-canonical_bytes k) e)

  -- A record reads back from what it is encrypted to.
  pub decrypt_stored_record-encrypt_stored_record :
      (nonce : List Byte) (k : LogicalKey) (r : StoredRecord)
      → length nonce ≡ 12
      → decrypt_stored_record crypto
          (stored_key crypto k)
          (encrypt_stored_record crypto nonce (stored_key crypto k) r)
        ≡ ok r
  unfolding decrypt_stored_record encrypt_stored_record stored_key
  decrypt_stored_record-encrypt_stored_record nonce k r h =
      let key : List ℕ = crypto.hmac (canonical_bytes k) in
      let sealed = crypto.seal nonce key (crypto.to_json r) in
      let tag_size = laws.tag_length nonce key (crypto.to_json r) in
      let key_size : (length key == 32) ≡ true =
        ground (arith, laws.hmac_length (canonical_bytes k) (length-canonical_bytes k)) in
      let whole : not (ltb (length (nonce ++ (sealed.0 ++ sealed.1))) (12 + 16)) ≡ true = ground (
        arith,
        length-append nonce (sealed.0 ++ sealed.1),
        length-append sealed.0 sealed.1,
        h,
        tag_size,
      ) in
      let front = take-append nonce (sealed.0 ++ sealed.1) 12 h in
      let back = drop-append nonce (sealed.0 ++ sealed.1) 12 h in
      let tag = ap (take 16) back ∙ take-append sealed.0 sealed.1 16 tag_size in
      let text =
        drop_twice nonce (sealed.0 ++ sealed.1)
        ∙ ap (drop 16) back
        ∙ drop-append sealed.0 sealed.1 16 tag_size in
      rw (key_size, whole, front, tag, text, laws.unseal_seal nonce key (crypto.to_json r))
        (laws.from_to_json r)
    where
      drop_twice : (xs ys : List Byte) → drop (12 + 16) (xs ++ ys) ≡ drop 16 (drop 12 (xs ++ ys))
      drop_twice xs ys = drop_sum 12 16 (xs ++ ys)

-- The record store that the table stands for.
abbrev pub Records : Type 0
Records = List (LogicalKey × StoredRecord)

unfoldable pub apply_record : Mutation → Records → Records
unfolding LogicalKey-discrete
apply_record (upsert k r) rs = put LogicalKey-discrete k r rs
apply_record (delete k) rs = remove LogicalKey-discrete k rs

unfoldable pub apply_records : List Mutation → Records → Records
unfolding apply_record
apply_records [] rs = rs
apply_records (m ∷ ms) rs = apply_records ms (apply_record m rs)

abbrev pub mutation_key : Mutation → LogicalKey
mutation_key (upsert k r) = k
mutation_key (delete k) = k

abbrev pub HasKey : Mutation → Type 0
HasKey m = IsKey (mutation_key m)

-- `load_entries` on the records themselves.
unfoldable pub load_records : Records → PlainDb → Result DaemonError PlainDb
load_records [] db = ok db
load_records ((k, r) ∷ rs) db = apply_stored_record db r >>= load_records rs

module _ {Byte : Type 0} (crypto : DbCrypto Byte) where
  -- Entry by entry, the table has the stored key of the record's key and a value that decrypts to it.
  abbrev pub Stores : Table crypto → Records → Type 0
  Stores [] [] = Unit
  Stores [] (e ∷ rs) = ⊥
  Stores (e ∷ t) [] = ⊥
  Stores ((key, value) ∷ t) ((k, r) ∷ rs) =
      (key ≡ stored_key crypto k)
      × (decrypt_stored_record crypto key value ≡ ok r)
      × IsKey k
      × Stores t rs

module _ {Byte : Type 0} (crypto : DbCrypto Byte) (laws : IsDbCrypto crypto) where
  put-Stores :
      (t : Table crypto) (rs : Records) (k : LogicalKey) (r : StoredRecord) (value : List Byte)
      → Stores crypto t rs
      → IsKey k
      → decrypt_stored_record crypto (stored_key crypto k) value ≡ ok r
      → Stores crypto
          (put Bytes-discrete (stored_key crypto k) value t)
          (put LogicalKey-discrete k r rs)
  unfolding put
  put-Stores [] [] k r value s p e = (refl, e, p, tt)
  put-Stores [] (x ∷ rs) k r value s p e = absurd s
  put-Stores (x ∷ t) [] k r value s p e = absurd s
  put-Stores ((key, old) ∷ t) ((j, q) ∷ rs) k r value (same, reads, own, rest) p e =
      elim (LogicalKey-discrete k j) [
        | yes h ↦
            let here : stored_key crypto k ≡ key = ap (stored_key crypto) h ∙ sym same in
            rw
              (
                put-cons_self Bytes-discrete (stored_key crypto k) key value old t here,
                put-cons_self LogicalKey-discrete k j r q rs h,
              )
              (refl, e, p, rest)
        | no n ↦
            let there : stored_key crypto k ≢ key =
              λ h. n (stored_key_injective crypto laws k j p own (h ∙ same)) in
            rw
              (
                put-cons_ne Bytes-discrete (stored_key crypto k) key value old t there,
                put-cons_ne LogicalKey-discrete k j r q rs n,
              )
              (same, reads, own, put-Stores t rs k r value rest p e)
      ]

  remove-Stores :
      (t : Table crypto) (rs : Records) (k : LogicalKey)
      → Stores crypto t rs
      → IsKey k
      → Stores crypto
          (remove Bytes-discrete (stored_key crypto k) t)
          (remove LogicalKey-discrete k rs)
  unfolding remove
  remove-Stores [] [] k s p = tt
  remove-Stores [] (x ∷ rs) k s p = absurd s
  remove-Stores (x ∷ t) [] k s p = absurd s
  remove-Stores ((key, old) ∷ t) ((j, q) ∷ rs) k (same, reads, own, rest) p =
      elim (LogicalKey-discrete k j) [
        | yes h ↦
            let here : stored_key crypto k ≡ key = ap (stored_key crypto) h ∙ sym same in
            rw
              (
                remove-cons_self Bytes-discrete (stored_key crypto k) key old t here,
                remove-cons_self LogicalKey-discrete k j q rs h,
              )
              (remove-Stores t rs k rest p)
        | no n ↦
            let there : stored_key crypto k ≢ key =
              λ h. n (stored_key_injective crypto laws k j p own (h ∙ same)) in
            rw
              (
                remove-cons_ne Bytes-discrete (stored_key crypto k) key old t there,
                remove-cons_ne LogicalKey-discrete k j q rs n,
              )
              (same, reads, own, remove-Stores t rs k rest p)
      ]

  -- The encrypted table refines the record store: where HMAC does not collide, the cipher opens what
  -- it sealed and the JSON reads back, a table that stores some records stores, after any mutations of
  -- keys that fit their widths, the records after those mutations.
  pub apply_mutations-Stores :
      (nonces : ℕ → List Byte) (ms : List Mutation) (t : Table crypto) (rs : Records)
      → ((i : ℕ) → length (nonces i) ≡ 12)
      → All HasKey ms
      → Stores crypto t rs
      → Stores crypto (apply_mutations crypto nonces ms t) (apply_records ms rs)
  unfolding apply_mutations apply_mutation apply_records apply_record
  apply_mutations-Stores nonces [] t rs h a s = s
  apply_mutations-Stores nonces (upsert k r ∷ ms) t rs h a s =
      apply_mutations-Stores (λ i. nonces (suc i)) ms _ _ (λ i. h (suc i)) a.1
        (put-Stores t rs k r _ s a.0
          (decrypt_stored_record-encrypt_stored_record crypto laws (nonces 0) k r (h 0)))
  apply_mutations-Stores nonces (delete k ∷ ms) t rs h a s =
      apply_mutations-Stores (λ i. nonces (suc i)) ms _ _ (λ i. h (suc i)) a.1
        (remove-Stores t rs k s a.0)

-- Loading a table is loading the records that it stores.
pub load_entries-Stores :
    {Byte : Type 0} (crypto : DbCrypto Byte) (t : Table crypto) (rs : Records) (db : PlainDb)
    → Stores crypto t rs
    → load_entries crypto t db ≡ load_records rs db
unfolding load_entries load_records
load_entries-Stores crypto [] [] db s = refl
load_entries-Stores crypto [] (e ∷ rs) db s = absurd s
load_entries-Stores crypto (e ∷ t) [] db s = absurd s
load_entries-Stores crypto ((key, value) ∷ t) ((k, r) ∷ rs) db (same, reads, own, rest) = rw reads (
    ap (λ f. apply_stored_record db r >>= f)
      (fun_ext (λ db'. load_entries-Stores crypto t rs db' rest)))
