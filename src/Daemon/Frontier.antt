-- ===== src/Daemon/Frontier.antt =====
-- The frontier nodes of a channel, in rust/crates/shachain2pc-daemon/src: the bindings of
-- helpers.rs; load_node, store_node, next_missing_frontier, reconcile_with_peer and the effective
-- target of state.rs. `sha256` is a parameter; the peer's answers are arguments.
pub mod Missing
pub mod Reconcile
use native.Mathlib.Decide.{ℕ_discrete}
use shachain2pc.Base.{
  ℕ, zero, suc, ◌+◌, min, Bool, true, false, not, ◌&&◌, ◌==◌, if◌then◌else◌, List, [], ◌∷◌, ◌++◌,
  map, Option, none, some, Result, ok, err, ◌>>=◌, ◌>>◌, guard,
}
use shachain2pc.Base.Map.{get, put, remove}
use shachain2pc.Types.Index.{Role, party_id, max_index}
use shachain2pc.Types.Value.{bytes_to_hex}
use shachain2pc.MpcTypes.{Bytes-discrete}
use shachain2pc.Flow.Handshake.{codes, le_bytes}
use shachain2pc.Daemon.Record.{
  Wires, WireRecord, ChannelRecord, Mutation, eventual, upsert_frontier_mutation,
  delete_frontier_mutation,
}
use shachain2pc.Daemon.State.{
  DaemonError, DaemonState, St, panicked, security_parameters_differ, channel_or_error,
  find_channel, set_channel, write_batch, then_write,
}

-- `PeerFrontierConfig` of src/db.rs.
pub record PeerFrontierConfig : Type 0 where
  pub channel_enabled : Bool
  pub precompute : ℕ
  pub workers : ℕ
  pub effective_workers : ℕ
  pub ssp_target : ℕ
  pub delta_lifetime_checked_units_cap : ℕ

abbrev protocol_version : ℕ
protocol_version = 1

module _ (sha256 : List ℕ → List ℕ) where
  unfoldable pub public_binding : ℕ → ℕ → ℕ → ℕ → List ℕ
  public_binding channel_index mask ssp_target cap = sha256 (
      codes "shachain2pc frontier public binding v1"
      ++ le_bytes 8 channel_index
      ++ le_bytes 8 mask
      ++ le_bytes 4 ssp_target
      ++ le_bytes 8 cap
      ++ le_bytes 4 protocol_version)

  unfoldable pub local_binding : Role → List ℕ → List ℕ
  local_binding role public =
      sha256 (codes "shachain2pc frontier local binding v1" ++ public ++ party_id role ∷ [])

  -- `binding_pair` of a channel that exists, as hexadecimal text.
  unfoldable pub binding_pair : Role → ℕ → ℕ → ChannelRecord → List ℕ × List ℕ
  unfolding public_binding local_binding
  binding_pair role ch mask c =
      let public = public_binding ch mask c.ssp_target c.delta_lifetime_checked_units_cap in
      (bytes_to_hex public, bytes_to_hex (local_binding role public))

  -- `record.public_binding_hex == .. && record.local_binding_hex == ..`.
  abbrev same_bytes : List ℕ → List ℕ → Bool
  same_bytes a b = elim (Bytes-discrete a b) [ yes _ ↦ true | no _ ↦ false ]

  abbrev pub has_bindings : List ℕ × List ℕ → WireRecord → Bool
  has_bindings (public, local) r =
      same_bytes r.public_binding_hex public && same_bytes r.local_binding_hex local

  abbrev pub bound_record : List ℕ × List ℕ → Option WireRecord → Option WireRecord
  bound_record pair none = none
  bound_record pair (some r) = if has_bindings pair r then some r else none

  abbrev pub is_some : Option WireRecord → Bool
  is_some none = false
  is_some (some r) = true

  -- The record at a mask, where its bindings are the current ones.
  unfoldable pub current_node : Role → ℕ → ℕ → ChannelRecord → Option WireRecord
  unfolding binding_pair
  current_node role ch mask c =
      bound_record (binding_pair role ch mask c) (get ℕ_discrete mask c.frontier_nodes)

  abbrev wires_of : Option WireRecord → Option Wires
  wires_of none = none
  wires_of (some r) = some r.wires

  abbrev load_from : Role → ℕ → ℕ → Option ChannelRecord → Option Wires
  load_from role ch mask none = none
  load_from role ch mask (some c) = wires_of (current_node role ch mask c)

  unfoldable pub load_node : ℕ → ℕ → St (Option Wires)
  unfolding current_node
  load_node ch mask s = (ok (load_from s.role ch mask (find_channel ch s)), s)

  unfoldable pub bound_wires : Role → ℕ → ℕ → ChannelRecord → Wires → WireRecord
  unfolding binding_pair
  bound_wires role ch mask c wires =
      let (public, local) = binding_pair role ch mask c in
      record { public_binding_hex = public; local_binding_hex = local; wires = wires }

  abbrev pub insert_node : ℕ → WireRecord → ChannelRecord → ChannelRecord
  insert_node mask r c = record c { frontier_nodes = put ℕ_discrete mask r c.frontier_nodes }

  -- `binding_pair` comes before the test that the channel exists, and panics.
  abbrev store_in : ℕ → ℕ → Wires → Option ChannelRecord → St (List Mutation)
  store_in ch mask wires none s = (err panicked, s)
  store_in ch mask wires (some c) s =
      let r = bound_wires s.role ch mask c wires in
      (ok (upsert_frontier_mutation ch mask r ∷ []), set_channel ch (insert_node mask r c) s)

  -- `store_node` up to `drop(inner)`: the batch, and the state that the lock guards.
  unfoldable pub store_node_locked : ℕ → ℕ → Wires → St (List Mutation)
  unfolding bound_wires
  store_node_locked ch mask wires s = store_in ch mask wires (find_channel ch s) s

  unfoldable pub store_node : ℕ → ℕ → Wires → St (Unit {0})
  unfolding store_node_locked
  store_node ch mask wires s = then_write eventual (store_node_locked ch mask wires s)

  -- The loop over `1..=effective_precompute.min(MAX_INDEX)`, from `index` on.
  unfoldable pub first_missing : Role → ℕ → ChannelRecord → ℕ → ℕ → Option ℕ
  first_missing role ch c index zero = none
  first_missing role ch c index (suc n) =
      let rest = first_missing role ch c (index + 1) n in
      if is_some (current_node role ch index c) then rest else some index

  abbrev missing_in : Role → ℕ → ℕ → Option ChannelRecord → Option ℕ
  missing_in role ch effective none = none
  missing_in role ch effective (some c) = first_missing role ch c 1 (min effective max_index)

  unfoldable pub next_missing_frontier : ℕ → ℕ → St (Option ℕ)
  unfolding first_missing
  next_missing_frontier ch effective s =
      (ok (missing_in s.role ch effective (find_channel ch s)), s)

-- `validate_peer_security_params`, then the least of the three targets.
unfoldable pub effective_precompute_target : ℕ → PeerFrontierConfig → St ℕ
effective_precompute_target ch peer s = (
  (do
    c ← channel_or_error (find_channel ch s)
    guard
        (peer.ssp_target == c.ssp_target
          && peer.delta_lifetime_checked_units_cap == c.delta_lifetime_checked_units_cap)
        security_parameters_differ
    ok (min (min c.precompute_target s.precompute) peer.precompute)),
  s,
)

-- The peer's nodes as a map: a later node at a mask replaces an earlier one.
unfoldable pub collect_nodes : List (ℕ × List ℕ) → List (ℕ × List ℕ) → List (ℕ × List ℕ)
collect_nodes peer [] = peer
collect_nodes peer ((mask, binding) ∷ nodes) =
    collect_nodes (put ℕ_discrete mask binding peer) nodes

abbrev is_peer_binding : Option (List ℕ) → List ℕ → Bool
is_peer_binding none binding = false
is_peer_binding (some b) binding = elim (Bytes-discrete b binding) [ yes _ ↦ true | no _ ↦ false ]

-- The masks of the nodes that the peer does not have with the same public binding.
unfoldable pub stale_masks : List (ℕ × List ℕ) → List (ℕ × WireRecord) → List ℕ
stale_masks peer [] = []
stale_masks peer ((mask, node) ∷ m) =
    let rest = stale_masks peer m in
    if is_peer_binding (get ℕ_discrete mask peer) node.public_binding_hex then rest else mask ∷ rest

unfoldable pub remove_nodes : List ℕ → List (ℕ × WireRecord) → List (ℕ × WireRecord)
remove_nodes [] m = m
remove_nodes (mask ∷ masks) m = remove_nodes masks (remove ℕ_discrete mask m)

abbrev reconcile_in : ℕ → List (ℕ × List ℕ) → Option ChannelRecord → St (Unit {0})
reconcile_in ch peer none s = (ok tt, s)
reconcile_in ch peer (some c) s =
    let masks = stale_masks peer c.frontier_nodes in
    write_batch (map (delete_frontier_mutation ch) masks) eventual
      (set_channel ch (record c { frontier_nodes = remove_nodes masks c.frontier_nodes }) s)

-- The critical section of `reconcile_with_peer`, with the nodes of an enabled peer.
unfoldable pub reconcile_with_peer : ℕ → List (ℕ × List ℕ) → St (Unit {0})
unfolding collect_nodes stale_masks remove_nodes
reconcile_with_peer ch nodes s =
    let peer = collect_nodes [] nodes in reconcile_in ch peer (find_channel ch s) s
