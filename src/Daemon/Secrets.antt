-- ===== src/Daemon/Secrets.antt =====
-- derive_known and store_known_secret of rust/crates/shachain2pc-daemon/src/state.rs: the revealed
-- secrets of a channel. `digest` is SHA-256.
pub mod Kept
pub mod Scan
pub mod Store
use native.Mathlib.Decide.{ℕ_discrete}
use shachain2pc.Base.{
  ℕ, ◌-◌, Bool, true, false, if◌then◌else◌, List, [], ◌∷◌, ◌++◌, map, Option, none, some, Result,
  ok, err, ◌>>=◌, map_err,
}
use shachain2pc.Base.Map.{put, remove}
use shachain2pc.Types.Index.{Index48}
use shachain2pc.Types.Value.{Value32, value_from_hex, to_hex}
use shachain2pc.Shachain.{derive_from_known}
use shachain2pc.Daemon.Record.{
  ChannelRecord, Mutation, eventual, upsert_channel_mutation, upsert_secret_mutation,
  delete_secret_mutation, delete_frontier_mutation,
}
use shachain2pc.Daemon.State.{
  DaemonError, DaemonState, St, parse, channel_or_error, find_channel, set_channel, write_and_wake,
}

unfoldable pub Value32-discrete : Discrete Value32
Value32-discrete = hlevel ℕ_discrete

-- `derived == Some(secret)`.
abbrev pub is_secret : Option Value32 → Value32 → Bool
is_secret none v = false
is_secret (some u) v = elim (Value32-discrete u v) [ yes _ ↦ true | no _ ↦ false ]

-- `last_observed_next_reveal_index` after a reveal at which `next` was expected.
abbrev pub with_secrets : ℕ → ℕ → List (ℕ × List ℕ) → ChannelRecord → ChannelRecord
with_secrets index next secrets c = record c {
  known_secrets = secrets;
  frontier_nodes = remove ℕ_discrete index c.frontier_nodes;
  last_observed_next_reveal_index = some (next - 1);
}

unfoldable pub remove_all : List ℕ → List (ℕ × List ℕ) → List (ℕ × List ℕ)
remove_all [] m = m
remove_all (k ∷ ks) m = remove_all ks (remove ℕ_discrete k m)

-- The secrets after `if !redundant { .. }`, and the mutations that this pushes.
unfoldable pub new_secrets : ℕ → Value32 → Bool × List ℕ → List (ℕ × List ℕ) → List (ℕ × List ℕ)
unfolding remove_all
new_secrets index secret (true, drops) m = m
new_secrets index secret (false, drops) m =
    put ℕ_discrete index (to_hex secret) (remove_all drops m)

unfoldable pub secret_mutations : ℕ → ℕ → Value32 → Bool × List ℕ → List Mutation
secret_mutations ch index secret (true, drops) = []
secret_mutations ch index secret (false, drops) =
    upsert_secret_mutation ch index (to_hex secret) ∷ map (delete_secret_mutation ch) drops

module _ (digest : List ℕ → List ℕ) where
  abbrev pub first_derived :
      Option Value32 → Result DaemonError (Option Value32) → Result DaemonError (Option Value32)
  first_derived (some out) rest = ok (some out)
  first_derived none rest = rest

  -- The loop of `derive_known`.
  unfoldable pub find_derived : ℕ → List (ℕ × List ℕ) → Result DaemonError (Option Value32)
  find_derived requested [] = ok none
  find_derived requested ((from_index, hex) ∷ m) =
      let rest = find_derived requested m in
      map_err parse (value_from_hex hex) >>= λ secret.
      first_derived (derive_from_known digest from_index secret requested) rest

  abbrev pub derive_in : ℕ → Option ChannelRecord → Result DaemonError (Option Value32)
  derive_in requested none = ok none
  derive_in requested (some c) = find_derived requested c.known_secrets

  unfoldable pub derive_known : ℕ → Index48 → St (Option Value32)
  derive_known ch requested s = (derive_in requested.value (find_channel ch s), s)

  -- The loop of `store_known_secret`: whether the secret is redundant, and the keys to drop.
  unfoldable pub scan_secrets :
      ℕ → Value32 → List (ℕ × List ℕ) → List ℕ → Result DaemonError (Bool × List ℕ)
  scan_secrets index secret [] drops = ok (false, drops)
  scan_secrets index secret ((i, hex) ∷ m) drops = map_err parse (value_from_hex hex) >>= λ stored.
      let next = scan_secrets index secret m (
        if is_secret (derive_from_known digest index secret i) stored
        then drops ++ i ∷ []
        else drops) in
      if is_secret (derive_from_known digest i stored index) secret then ok (true, drops) else next

  -- The critical section: the channel after the call and the batch that it sends.
  unfoldable pub store_secret :
      ℕ → Index48 → ℕ → Value32 → ChannelRecord → Result DaemonError (ChannelRecord × List Mutation)
  unfolding new_secrets secret_mutations scan_secrets
  store_secret ch index next secret c =
      scan_secrets index.value secret c.known_secrets [] >>= λ scan.
      let c' =
        with_secrets index.value next (new_secrets index.value secret scan c.known_secrets) c in
      ok (
        c',
        secret_mutations ch index.value secret scan
            ++ delete_frontier_mutation ch index.value ∷ upsert_channel_mutation ch c' ∷ [],
      )

  abbrev commit_secret : ℕ → Result DaemonError (ChannelRecord × List Mutation) → St (Unit {0})
  commit_secret ch (err e) s = (err e, s)
  commit_secret ch (ok (c, mutations)) s = write_and_wake mutations eventual (set_channel ch c s)

  unfoldable pub store_known_secret : ℕ → Index48 → ℕ → Value32 → St (Unit {0})
  unfolding store_secret
  store_known_secret ch index next secret s =
      commit_secret ch (channel_or_error (find_channel ch s) >>= store_secret ch index next secret)
        s
