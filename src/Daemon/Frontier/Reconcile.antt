-- ===== src/Daemon/Frontier/Reconcile.antt =====
-- What reconcile_with_peer leaves of the stored nodes.
use native.Mathlib.Decide.{ℕ_discrete}
use shachain2pc.Base.{
  ℕ, ◌≡◌, ◌≢◌, refl, sym, ap, subst, ◌∙◌, inl, inr, true, false, List, [], ◌∷◌, Option, none, some,
  arith, All, Bool-cases,
}
use shachain2pc.Base.Map.{get, remove, get-remove_self, get-remove_ne}
use shachain2pc.MpcTypes.{Bytes-discrete}
use shachain2pc.Daemon.Record.{WireRecord, ChannelRecord}
use shachain2pc.Daemon.State.{DaemonState, find_channel}
use shachain2pc.Daemon.Batch.{find_channel-set_channel, find_channel-write_batch}
use shachain2pc.Daemon.Frontier.{
  stale_masks, remove_nodes, collect_nodes, reconcile_with_peer, is_peer_binding,
}

is_peer_binding-true : (o : Option (List ℕ)) (b : List ℕ) → is_peer_binding o b ≡ true → o ≡ some b
unfolding Bytes-discrete
is_peer_binding-true none b e = absurd (ground arith)
is_peer_binding-true (some a) b e = ground arith

get-remove_nodes :
    (masks : List ℕ) (j : ℕ) (m : List (ℕ × WireRecord)) {r : WireRecord}
    → get ℕ_discrete j (remove_nodes masks m) ≡ some r
    → (get ℕ_discrete j m ≡ some r) × All (λ k. k ≢ j) masks
unfolding remove_nodes
get-remove_nodes [] j m e = (e, tt)
get-remove_nodes (k ∷ masks) j m e =
    let (before, others) = get-remove_nodes masks j (remove ℕ_discrete k m) e in
    elim (ℕ_discrete k j) [
      | yes same ↦ absurd (
          let gone : get ℕ_discrete j (remove ℕ_discrete k m) ≡ none =
            subst (λ i. get ℕ_discrete i (remove ℕ_discrete k m) ≡ none) same
              (get-remove_self ℕ_discrete k m) in
          ground arith)
      | no n ↦ (sym (get-remove_ne ℕ_discrete k j m n) ∙ before, (n, others))
    ]

stale_masks-kept :
    (peer : List (ℕ × List ℕ)) (m : List (ℕ × WireRecord)) (j : ℕ) {r : WireRecord}
    → get ℕ_discrete j m ≡ some r
    → All (λ k. k ≢ j) (stale_masks peer m)
    → get ℕ_discrete j peer ≡ some r.public_binding_hex
unfolding stale_masks get
stale_masks-kept peer [] j e h = absurd (ground arith)
stale_masks-kept peer ((k, node) ∷ m) j {r} e h =
    elim (Bool-cases (is_peer_binding (get ℕ_discrete k peer) node.public_binding_hex)) [
      | inl b ↦
          let there = is_peer_binding-true (get ℕ_discrete k peer) node.public_binding_hex b in
          let h' : All (λ k. k ≢ j) (stale_masks peer m) =
            subst (λ l. All (λ k. k ≢ j) l) (skips b) h in
          elim (ℕ_discrete k j) [
            | yes same ↦
                let eq : node ≡ r = ground arith in
                subst (λ i. get ℕ_discrete i peer ≡ some node.public_binding_hex) same there
                ∙ ap (λ (n : WireRecord). some n.public_binding_hex) eq
            | no n ↦ stale_masks-kept peer m j {r = r} (ground arith) h'
          ]
      | inr b ↦
          let h' : All (λ k. k ≢ j) (k ∷ stale_masks peer m) =
            subst (λ l. All (λ k. k ≢ j) l) (drops b) h in
          stale_masks-kept peer m j {r = r} (let n = h'.0 in ground arith) h'.1
    ]
  where
    skips :
        is_peer_binding (get ℕ_discrete k peer) node.public_binding_hex ≡ true
        → stale_masks peer ((k, node) ∷ m) ≡ stale_masks peer m
    skips b = rw b refl

    drops :
        is_peer_binding (get ℕ_discrete k peer) node.public_binding_hex ≡ false
        → stale_masks peer ((k, node) ∷ m) ≡ k ∷ stale_masks peer m
    drops b = rw b refl

-- A node that `reconcile_with_peer` leaves at a mask was there before, and the peer's last
-- answer for this mask is its public binding.
pub reconcile_with_peer-agrees :
    (ch mask : ℕ) (nodes : List (ℕ × List ℕ)) (s : DaemonState) {c c' : ChannelRecord}
    {r : WireRecord}
    → find_channel ch s ≡ some c
    → find_channel ch (reconcile_with_peer ch nodes s).1 ≡ some c'
    → get ℕ_discrete mask c'.frontier_nodes ≡ some r
    → (get ℕ_discrete mask c.frontier_nodes ≡ some r)
      × (get ℕ_discrete mask (collect_nodes [] nodes) ≡ some r.public_binding_hex)
unfolding reconcile_with_peer
reconcile_with_peer-agrees ch mask nodes s {c} {c' = c'} {r = r} hc hc' e =
    let found : find_channel ch (reconcile_with_peer ch nodes s).1
        ≡ some (record c {
          frontier_nodes =
              remove_nodes (stale_masks (collect_nodes [] nodes) c.frontier_nodes) c.frontier_nodes;
        }) =
      rw hc (find_channel-write_batch ch _ _ _ ∙ find_channel-set_channel ch _ s) in
    let masks = stale_masks (collect_nodes [] nodes) c.frontier_nodes in
    let here : get ℕ_discrete mask (remove_nodes masks c.frontier_nodes) ≡ some r = ground arith in
    let (before, others) = get-remove_nodes masks mask c.frontier_nodes here in
    (before, stale_masks-kept (collect_nodes [] nodes) c.frontier_nodes mask before others)
