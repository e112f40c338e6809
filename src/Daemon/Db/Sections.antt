-- ===== src/Daemon/Db/Sections.antt =====
-- Calls of store_node and enable_channel side by side: each has a section under the daemon's lock,
-- which changes the memory and gives a batch, and queues the batch after the lock is free.
use native.Mathlib.Decide.{ℕ_discrete}
use shachain2pc.Base.{
  ℕ, ◌≡◌, refl, subst, List, [], ◌∷◌, ◌++◌, true, Result, ok, err, inl, inr, Option-cases,
}
use shachain2pc.Base.Map.{get}
use shachain2pc.Daemon.Record.{Wires, Mutation, DbDurability, immediate, eventual}
use shachain2pc.Daemon.State.{DaemonState, DaemonError, find_channel, set_channel, write_batch}
use shachain2pc.Daemon.Frontier.{store_node_locked}
use shachain2pc.Daemon.Channels.{
  EnableChannelRequest, enabled_channel, enable_channel_locked, Answer,
}
use shachain2pc.Daemon.Db.Records.{Records, apply_records}
use shachain2pc.Daemon.Db.Mirror.{Mirrors}
use shachain2pc.Daemon.Db.Writes.{
  queued, queued-append, apply_records-append, upsert_frontier-Mirrors, upsert_channel-Mirrors,
  enabled_maps,
}

abbrev pub Batch : Type 0
Batch = List Mutation × DbDurability

-- The daemon, and the batches of calls that have left the lock and not queued them yet, in the order
-- of their sections.
abbrev pub Config : Type 0
Config = DaemonState × List Batch

-- A section that fails has no batch.
abbrev pub left_lock :
    DbDurability → Result DaemonError (List Mutation) × DaemonState → List Batch → Config
left_lock d (ok ms, s) waiting = (s, waiting ++ (ms, d) ∷ [])
left_lock d (err e, s) waiting = (s, waiting)

abbrev pub only_batch :
    Result DaemonError Answer × DaemonState → Result DaemonError (List Mutation) × DaemonState
only_batch (ok (response, ms), s) = (ok ms, s)
only_batch (err e, s) = (err e, s)

module _ (sha256 : List ℕ → List ℕ) where
  -- A section of a call, or the queueing of the batch of any call that waits.
  pub data Move : Config → Config → Type 0 where
    store :
        (ch mask : ℕ) (wires : Wires) (s : DaemonState) (waiting : List Batch)
        → Move (s, waiting) (left_lock eventual (store_node_locked sha256 ch mask wires s) waiting)
    enable :
        (r : EnableChannelRequest) (s : DaemonState) (waiting : List Batch)
        → Move (s, waiting) (left_lock immediate (only_batch (enable_channel_locked r s)) waiting)
    send :
        (before : List Batch) (ms : List Mutation) (d : DbDurability) (after : List Batch)
        (s : DaemonState)
        → Move (s, before ++ (ms, d) ∷ after) ((write_batch ms d s).1, before ++ after)

  pub data Moves : Config → Config → Type 0 where
    no_move : (c : Config) → Moves c c
    moves : (c d e : Config) → Move c d → Moves d e → Moves c e

  -- The batch that is queued is the one that has waited longest.
  abbrev pub SendsFirst : (c d : Config) → Move c d → Type 0
  SendsFirst _ _ (store ch mask wires s waiting) = Unit
  SendsFirst _ _ (enable r s waiting) = Unit
  SendsFirst _ _ (send before ms d after s) = before ≡ []

  abbrev pub InOrder : (c d : Config) → Moves c d → Type 0
  InOrder _ _ (no_move c) = Unit
  InOrder _ _ (moves c d e move rest) = SendsFirst c d move × InOrder d e rest

  -- The writer runs, and the database mirrors the memory once the queue and then the waiting
  -- batches are written.
  abbrev pub WillMirror : Records → Config → Type 0
  WillMirror rs c =
      (c.0.writer_open ≡ true)
      × Mirrors (apply_records (queued c.1) (apply_records (queued c.0.writes) rs)) c.0.channels

  store-WillMirror :
      (ch mask : ℕ) (wires : Wires) (rs : Records) (s : DaemonState) (waiting : List Batch)
      → WillMirror rs (s, waiting)
      → WillMirror rs (left_lock eventual (store_node_locked sha256 ch mask wires s) waiting)
  unfolding store_node_locked find_channel set_channel apply_records
  store-WillMirror ch mask wires rs s waiting (running, m) =
      elim (Option-cases (get ℕ_discrete ch s.channels)) [
        | inl e ↦ simp e (running, m)
        | inr (c, e) ↦
            simp (e, queued-append waiting _ _ (apply_records (queued s.writes) rs))
              ((
                running,
                upsert_frontier-Mirrors ch mask _
                    (apply_records (queued waiting) (apply_records (queued s.writes) rs)) s.channels
                    m e,
              ))
      ]

  enable-WillMirror :
      (r : EnableChannelRequest) (rs : Records) (s : DaemonState) (waiting : List Batch)
      → WillMirror rs (s, waiting)
      → WillMirror rs (left_lock immediate (only_batch (enable_channel_locked r s)) waiting)
  unfolding enable_channel_locked find_channel set_channel apply_records
  enable-WillMirror r rs s waiting (running, m) =
      let (secrets, nodes) = enabled_maps r s.precompute r.channel_index s.channels in
      simp (queued-append waiting _ _ (apply_records (queued s.writes) rs)) (
        (
          running,
          upsert_channel-Mirrors r.channel_index
              (enabled_channel r s.precompute (get ℕ_discrete r.channel_index s.channels))
              (apply_records (queued waiting) (apply_records (queued s.writes) rs)) s.channels m
              secrets nodes,
        ))

  send-WillMirror :
      (ms : List Mutation) (d : DbDurability) (after : List Batch) (rs : Records) (s : DaemonState)
      → WillMirror rs (s, (ms, d) ∷ after)
      → WillMirror rs ((write_batch ms d s).1, after)
  unfolding write_batch
  send-WillMirror [] d after rs s h = h
  send-WillMirror (m ∷ ms) d after rs s (running, h) = rw running (
      simp (queued-append s.writes (m ∷ ms) d rs) (
        (
          refl,
          subst (λ l. Mirrors l s.channels)
              (apply_records-append (m ∷ ms) (queued after) (apply_records (queued s.writes) rs)) h,
        )))

  Move-WillMirror :
      (rs : Records) (c d : Config) (move : Move c d)
      → SendsFirst c d move
      → WillMirror rs c
      → WillMirror rs d
  Move-WillMirror rs _ _ (store ch mask wires s waiting) first h =
      store-WillMirror ch mask wires rs s waiting h
  Move-WillMirror rs _ _ (enable r s waiting) first h = enable-WillMirror r rs s waiting h
  Move-WillMirror rs _ _ (send [] ms d after s) first h = send-WillMirror ms d after rs s h
  Move-WillMirror rs _ _ (send (b ∷ before) ms d after s) first h = absurd (cc)

  -- Calls of store_node and enable_channel, on any channels and with their sections and the queueing
  -- of their batches interleaved in any way in which the batches are queued in the order of the
  -- sections, keep the database a mirror of the memory: if the queued batches and then the waiting ones
  -- bring the records to what the memory holds, so they do after the calls, where the writer runs.
  pub Moves-WillMirror :
      (rs : Records) (c d : Config) (run : Moves c d)
      → InOrder c d run
      → WillMirror rs c
      → WillMirror rs d
  Moves-WillMirror rs _ _ (no_move c) order h = h
  Moves-WillMirror rs _ _ (moves c d e move rest) (first, order) h =
      Moves-WillMirror rs d e rest order (Move-WillMirror rs c d move first h)
