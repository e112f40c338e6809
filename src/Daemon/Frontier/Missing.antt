-- ===== src/Daemon/Frontier/Missing.antt =====
-- What store_node and next_missing_frontier make of the stored nodes.
use mathlib.Core.Logic.{ite}
use native.Mathlib.Decide.{ℕ_discrete}
use shachain2pc.Base.{
  ℕ, zero, suc, ◌+◌, ◌-◌, ◌≤◌, ◌<◌, min, ◌≡◌, ◌≢◌, refl, ap, subst, ◌∙◌, inl, inr, true, List, [],
  ◌∷◌, Option, none, some, ok, arith, All, Bool-cases, Option-cases,
}
use shachain2pc.Base.Map.{get-put_self, get-put_ne}
use shachain2pc.Types.Index.{Role, max_index}
use shachain2pc.Daemon.Record.{Wires, WireRecord, ChannelRecord, Mutation, DbDurability}
use shachain2pc.Daemon.State.{DaemonState, find_channel, set_channel, write_batch}
use shachain2pc.Daemon.Batch.{find_channel-set_channel, find_channel-write_batch}
use shachain2pc.Daemon.Frontier.{
  binding_pair, bound_record, is_some, current_node, load_node, store_node, store_node_locked,
  bound_wires, insert_node, first_missing, next_missing_frontier,
}

role-write_batch :
    (ms : List Mutation) (d : DbDurability) (s : DaemonState) → (write_batch ms d s).1.role ≡ s.role
unfolding write_batch
role-write_batch [] d s = refl
role-write_batch (m ∷ ms) d s = elim (Bool-cases s.writer_open) [
  | inl e ↦ rw e refl
  | inr e ↦ rw e refl
]

module _ (sha256 : List ℕ → List ℕ) where
  bound_record-bound_wires :
      (role : Role) (ch mask : ℕ) (c : ChannelRecord) (w : Wires)
      → bound_record sha256
          (binding_pair sha256 role ch mask c)
          (some (bound_wires sha256 role ch mask c w))
        ≡ some (bound_wires sha256 role ch mask c w)
  unfolding bound_wires
  bound_record-bound_wires role ch mask c w = ground arith

  -- The channel after a node was stored has it, and the nodes at the other masks as before.
  current_node-insert_self :
      (role : Role) (ch mask : ℕ) (c : ChannelRecord) (w : Wires)
      → current_node sha256 role ch mask
          (insert_node sha256 mask (bound_wires sha256 role ch mask c w) c)
        ≡ some (bound_wires sha256 role ch mask c w)
  unfolding current_node binding_pair
  current_node-insert_self role ch mask c w =
      rw (get-put_self ℕ_discrete mask (bound_wires sha256 role ch mask c w) c.frontier_nodes)
        (bound_record-bound_wires role ch mask c w)

  current_node-insert_ne :
      (role : Role) (ch mask j : ℕ) (c : ChannelRecord) (r : WireRecord)
      → mask ≢ j
      → current_node sha256 role ch j (insert_node sha256 mask r c)
        ≡ current_node sha256 role ch j c
  unfolding current_node binding_pair
  current_node-insert_ne role ch mask j c r n =
      rw (get-put_ne ℕ_discrete mask j r c.frontier_nodes n) refl

  -- What is left of the channel and the role after a node is stored.
  stored_node :
      (ch mask : ℕ) (w : Wires) (s : DaemonState) {c : ChannelRecord}
      → find_channel ch s ≡ some c
      → (find_channel ch (store_node sha256 ch mask w s).1
          ≡ some (insert_node sha256 mask (bound_wires sha256 s.role ch mask c w) c))
        × ((store_node sha256 ch mask w s).1.role ≡ s.role)
  unfolding store_node store_node_locked set_channel
  stored_node ch mask w s {c} hc = (
    rw hc (find_channel-write_batch ch _ _ _ ∙ find_channel-set_channel ch _ s),
    rw hc (role-write_batch _ _ _),
  )

  -- On a channel that exists, a stored node is loaded with its wires.
  pub store_node-load_node_self :
      (ch mask : ℕ) (w : Wires) (s : DaemonState) {c : ChannelRecord}
      → find_channel ch s ≡ some c
      → (load_node sha256 ch mask (store_node sha256 ch mask w s).1).0 ≡ ok (some w)
  unfolding load_node bound_wires
  store_node-load_node_self ch mask w s {c} hc =
      let (found, role) = stored_node ch mask w s hc in
      rw (found, role, current_node-insert_self s.role ch mask c w) refl

  pub store_node-load_node_ne :
      (ch mask j : ℕ) (w : Wires) (s : DaemonState) {c : ChannelRecord}
      → find_channel ch s ≡ some c
      → mask ≢ j
      → (load_node sha256 ch j (store_node sha256 ch mask w s).1).0 ≡ (load_node sha256 ch j s).0
  unfolding load_node
  store_node-load_node_ne ch mask j w s {c} hc n =
      let (found, role) = stored_node ch mask w s hc in
      rw
        (
          found,
          role,
          hc,
          current_node-insert_ne s.role ch mask j c (bound_wires sha256 s.role ch mask c w) n,
        )
        refl

  -- Storing a node at a mask makes the call `load_node` for this mask return its wires, and changes
  -- no other mask of the channel, where the channel exists.
  pub store_node-load_node :
      (ch mask j : ℕ) (w : Wires) (s : DaemonState) {c : ChannelRecord}
      → find_channel ch s ≡ some c
      → (load_node sha256 ch j (store_node sha256 ch mask w s).1).0
        ≡ ite (ℕ_discrete mask j) (ok (some w)) ((load_node sha256 ch j s).0)
  store_node-load_node ch mask j w s {c} hc =
      elim (ℕ_discrete mask j)
        as (λ d.
          (load_node sha256 ch j (store_node sha256 ch mask w s).1).0
          ≡ ite d (ok (some w)) ((load_node sha256 ch j s).0)) [
            | yes e ↦
                subst
                  (λ k. (load_node sha256 ch k (store_node sha256 ch mask w s).1).0 ≡ ok (some w)) e
                  (store_node-load_node_self ch mask w s hc)
            | no n ↦ store_node-load_node_ne ch mask j w s hc n
          ]

  -- The numbers `from, .., from + n - 1`.
  abbrev pub count_up : ℕ → ℕ → List ℕ
  count_up i zero = []
  count_up i (suc n) = i ∷ count_up (i + 1) n

  -- A node with the current bindings is stored at the mask.
  abbrev pub IsStored : Role → ℕ → ChannelRecord → ℕ → Type 0
  IsStored role ch c i = is_some sha256 (current_node sha256 role ch i c) ≡ true

  first_missing-some :
      (role : Role) (ch : ℕ) (c : ChannelRecord) (i n : ℕ) {k : ℕ}
      → first_missing sha256 role ch c i n ≡ some k
      → (i ≤ k)
        × (k < i + n)
        × (current_node sha256 role ch k c ≡ none)
        × All (IsStored role ch c) (count_up i (k - i))
  unfolding first_missing
  first_missing-some role ch c i zero e = absurd (ground arith)
  first_missing-some role ch c i (suc n) {k} e =
      elim (Option-cases (current_node sha256 role ch i c)) [
        | inl h ↦
            let same : i ≡ k = ground arith in
            let empty : 0 ≡ k - i = omega arith in
            (
              omega arith,
              omega arith,
              subst (λ j. current_node sha256 role ch j c ≡ none) same h,
              subst (λ d. All (IsStored role ch c) (count_up i d)) empty tt,
            )
        | inr (r, h) ↦
            let later : first_missing sha256 role ch c (i + 1) n ≡ some k = ground arith in
            let (a, b, m, all) = first_missing-some role ch c (i + 1) n {k = k} later in
            let more : suc (k - (i + 1)) ≡ k - i = omega arith in
            (
              omega arith,
              omega arith,
              m,
              subst (λ d. All (IsStored role ch c) (count_up i d)) more
                  (ap (is_some sha256) h, all),
            )
      ]

  first_missing-none :
      (role : Role) (ch : ℕ) (c : ChannelRecord) (i n : ℕ)
      → first_missing sha256 role ch c i n ≡ none
      → All (IsStored role ch c) (count_up i n)
  unfolding first_missing
  first_missing-none role ch c i zero e = tt
  first_missing-none role ch c i (suc n) e = elim (Option-cases (current_node sha256 role ch i c)) [
    | inl h ↦ absurd (ground arith)
    | inr (r, h) ↦ (ap (is_some sha256) h, first_missing-none role ch c (i + 1) n (ground arith))
  ]

  -- What a search for the next frontier index returns: the least index from 1 on that has no node
  -- with the current bindings, or none where the indices up to the target all have one.
  abbrev pub IsNext : Role → ℕ → ChannelRecord → ℕ → Option ℕ → Type 0
  IsNext role ch c effective none = All (IsStored role ch c) (count_up 1 (min effective max_index))
  IsNext role ch c effective (some k) =
      (1 ≤ k)
      × (k ≤ effective)
      × (k ≤ max_index)
      × (current_node sha256 role ch k c ≡ none)
      × All (IsStored role ch c) (count_up 1 (k - 1))

  -- On a channel that exists, `next_missing_frontier` returns the least index from 1 up to the
  -- target and the greatest index that has no node with the current bindings, and no index only
  -- where all of them have one.
  pub next_missing_frontier-IsNext :
      (ch effective : ℕ) (s : DaemonState) {c : ChannelRecord} {next : Option ℕ}
      → find_channel ch s ≡ some c
      → (next_missing_frontier sha256 ch effective s).0 ≡ ok next
      → IsNext s.role ch c effective next
  unfolding next_missing_frontier
  next_missing_frontier-IsNext ch effective s {c = c} {next = none} hc e =
      first_missing-none s.role ch c 1 (min effective max_index) (ground arith)
  next_missing_frontier-IsNext ch effective s {c = c} {next = some k} hc e =
      let (a, b, m, all) =
        first_missing-some s.role ch c 1 (min effective max_index) {k = k} (ground arith) in
      (a, omega arith, omega arith, m, all)
