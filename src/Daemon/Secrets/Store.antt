-- ===== src/Daemon/Secrets/Store.antt =====
-- What derive_known returns, before and after store_known_secret.
use native.Mathlib.Decide.{ℕ_discrete}
use shachain2pc.Base.{
  ℕ, ◌-◌, ◌≡◌, refl, sym, ap, ◌∙◌, ◌⊎◌, inl, inr, Bool, if◌then◌else◌, List, [], none, some, ok,
  err,
}
use shachain2pc.Base.Map.{get, get-remove_self}
use shachain2pc.Types.Index.{Index48, IsIndex}
use shachain2pc.Types.Value.{Value32, IsValue}
use shachain2pc.Shachain.{derive_from_known, generate_from_seed}
use shachain2pc.Daemon.Record.{ChannelRecord}
use shachain2pc.Daemon.State.{DaemonState, find_channel, set_channel, writer_stopped}
use shachain2pc.Daemon.Secrets.{
  scan_secrets, store_secret, new_secrets, with_secrets, derive_known, derive_in,
  store_known_secret,
}
use shachain2pc.Daemon.Batch.{
  find_channel-set_channel, find_channel-write_and_wake, write_and_wake-append,
}
use shachain2pc.Daemon.Secrets.Scan.{
  ScanGives, scan_secrets-ScanGives, new_secrets-AreSecrets, new_secrets-AnyGives,
}
use shachain2pc.Daemon.Secrets.Kept.{
  Gives, AnyGives, Gives_secret, secret_at, AreSecrets, find_derived-AreSecrets,
  find_derived-AnyGives,
}

-- Where every secret that the channel keeps is the one of the seed at its index, `derive_known`
-- returns no other secret than the one of the seed at the requested index.
pub derive_known-generate_from_seed :
    (digest : List ℕ → List ℕ) (seed : Value32) (ch : ℕ) (requested : Index48) (s : DaemonState)
    {c : ChannelRecord} {x : Value32}
    → find_channel ch s ≡ some c
    → AreSecrets digest seed c.known_secrets
    → (derive_known digest ch requested s).0 ≡ ok (some x)
    → x ≡ generate_from_seed digest seed requested
unfolding derive_known
derive_known-generate_from_seed digest seed ch requested s {c} hc h e =
    (find_derived-AreSecrets digest seed requested.value c.known_secrets h
      (sym (ap (λ o. derive_in digest requested.value o) hc) ∙ e)).0

-- What a call of `store_known_secret` leaves of the channel.
stored_channel :
    (digest : List ℕ → List ℕ) (seed : Value32) (ch : ℕ) (index : Index48) (next : ℕ)
    (s : DaemonState) {c : ChannelRecord}
    → find_channel ch s ≡ some c
    → AreSecrets digest seed c.known_secrets
    → (scan : Bool × List ℕ) × (scan_secrets digest index.value
          (secret_at digest seed index.value)
          c.known_secrets
          []
        ≡ ok scan)
      × ScanGives digest seed index.value c.known_secrets scan
      × (find_channel ch
            (store_known_secret digest ch index next (secret_at digest seed index.value) s).1
          ≡ some (
              with_secrets index.value next
                (new_secrets index.value (secret_at digest seed index.value) scan c.known_secrets)
                c))
      × ((store_known_secret digest ch index next (secret_at digest seed index.value) s).0
          ≡ (if s.writer_open then ok tt else err writer_stopped))
unfolding store_known_secret store_secret set_channel
stored_channel digest seed ch index next s {c} hc h =
    let (scan, es, g) = scan_secrets-ScanGives digest seed index.value c.known_secrets [] h tt in
    (
      scan,
      es,
      g,
      rw (hc, es) (find_channel-write_and_wake ch _ _ _ ∙ find_channel-set_channel ch _ s),
      rw (hc, es) (write_and_wake-append _ _ _ _ _),
    )

-- Storing a secret keeps the invariant: where the channel keeps only secrets of the seed, a call of
-- `store_known_secret` with the seed's secret at an index returns `Ok` (an error where the database
-- writer has stopped), the channel then keeps only secrets of the seed, has no frontier node at the
-- index, and its last observed index is the expected one less 1, or 0.
pub store_known_secret-AreSecrets :
    (digest : List ℕ → List ℕ) (seed : Value32) (ch : ℕ) (index : Index48) (next : ℕ)
    (s : DaemonState) {c : ChannelRecord}
    → find_channel ch s ≡ some c
    → AreSecrets digest seed c.known_secrets
    → IsIndex index
    → IsValue (generate_from_seed digest seed index)
    → ((store_known_secret digest ch index next (generate_from_seed digest seed index) s).0
        ≡ (if s.writer_open then ok tt else err writer_stopped))
      × (c' : ChannelRecord) × (find_channel ch
            (store_known_secret digest ch index next (generate_from_seed digest seed index) s).1
          ≡ some c')
      × AreSecrets digest seed c'.known_secrets
      × (get ℕ_discrete index.value c'.frontier_nodes ≡ none)
      × (c'.last_observed_next_reveal_index ≡ some (next - 1))
store_known_secret-AreSecrets digest seed ch index next s {c} hc h hi hv =
    let (scan, es, g, found, out) = stored_channel digest seed ch index next s hc h in
    (
      out,
      _,
      found,
      new_secrets-AreSecrets digest seed index.value scan c.known_secrets hi hv h,
      get-remove_self ℕ_discrete index.value c.frontier_nodes,
      refl,
    )

-- Why `derive_known` has the secret.
why_known :
    (digest : List ℕ → List ℕ) (seed : Value32) (ch : ℕ) (index requested : Index48)
    (s : DaemonState) {c : ChannelRecord} {x : Value32}
    → find_channel ch s ≡ some c
    → AreSecrets digest seed c.known_secrets
    → ((derive_known digest ch requested s).0 ≡ ok (some x))
      ⊎ (derive_from_known digest index.value (generate_from_seed digest seed index) requested.value
          ≡ some x)
    → (x ≡ secret_at digest seed requested.value)
      × (AnyGives digest seed requested.value c.known_secrets
          ⊎ Gives digest seed index.value requested.value)
unfolding derive_known
why_known digest seed ch index requested s {c} hc h (inl e) =
    let (same, any) =
      find_derived-AreSecrets digest seed requested.value c.known_secrets h
        (sym (ap (λ o. derive_in digest requested.value o) hc) ∙ e) in
    (same, inl any)
why_known digest seed ch index requested s {x = x} hc h (inr e) =
    (Gives_secret digest seed index.value requested.value e, inr (x, e))

-- Storing a secret loses nothing: where the channel keeps only secrets of the seed, an index whose
-- secret `derive_known` returns before the call, or that the stored secret gives, is one whose
-- secret `derive_known` returns after `store_known_secret`, and it is the same secret.
pub store_known_secret-derive_known :
    (digest : List ℕ → List ℕ) (seed : Value32) (ch : ℕ) (index : Index48) (next : ℕ)
    (requested : Index48) (s : DaemonState) {c : ChannelRecord} {x : Value32}
    → find_channel ch s ≡ some c
    → AreSecrets digest seed c.known_secrets
    → IsIndex index
    → IsIndex requested
    → ((derive_known digest ch requested s).0 ≡ ok (some x))
      ⊎ (derive_from_known digest index.value (generate_from_seed digest seed index) requested.value
          ≡ some x)
    → IsValue (generate_from_seed digest seed index)
    → (derive_known digest ch requested
        (store_known_secret digest ch index next (generate_from_seed digest seed index) s).1).0
      ≡ ok (some x)
unfolding derive_known
store_known_secret-derive_known digest seed ch index next requested s {c} {x} hc h hi hr before hv =
    let (scan, es, g, found, out) = stored_channel digest seed ch index next s hc h in
    let kept = new_secrets-AreSecrets digest seed index.value scan c.known_secrets hi hv h in
    let (same, gives) = why_known digest seed ch index requested s hc h before in
    rw (found, same)
      (find_derived-AnyGives digest seed requested.value _ kept (
        new_secrets-AnyGives digest seed index.value requested.value scan c.known_secrets hi hr h g
          gives))
