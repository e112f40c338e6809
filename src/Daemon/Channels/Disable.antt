-- ===== src/Daemon/Channels/Disable.antt =====
-- What disable_channel does when it answers.
use shachain2pc.Base.{ℕ, ◌≡◌, ◌≢◌, true, false, [], ◌∷◌, ◌++◌, map, some}
use shachain2pc.Daemon.Record.{
  ChannelRecord, immediate, upsert_channel_mutation, delete_frontier_mutation,
}
use shachain2pc.Daemon.State.{DaemonState, find_channel, set_channel}
use shachain2pc.Daemon.Precompute.{any_job}
use shachain2pc.Daemon.Channels.{ChannelResponse, channel_response, masks}

-- The channel as it is afterwards.
abbrev pub disabled_channel : ChannelRecord → ChannelRecord
disabled_channel c = record c { enabled = false; frontier_nodes = [] }

-- What an answer of `disable_channel` says of the call and of the state after it.
pub record Disabled (ch : ℕ) (c : ChannelRecord) (s t : DaemonState) (response : ChannelResponse)
    : Type 0 where
  pub no_job : any_job ch s.active_jobs ≡ false
  pub shown : response ≡ channel_response ch (disabled_channel c)
  pub stored : find_channel ch t ≡ some (disabled_channel c)
  pub others : (j : ℕ) → ch ≢ j → find_channel j t ≡ find_channel j s
  pub queued :
      t.writes
      ≡ s.writes
        ++ (
          upsert_channel_mutation ch (disabled_channel c)
              ∷ map (delete_frontier_mutation ch) (masks c.frontier_nodes),
          immediate,
        )
          ∷ []
  pub woken : t.notified ≡ true

-- The state after a call that answers.
abbrev after_disable : ℕ → ChannelRecord → DaemonState → DaemonState
after_disable ch c s = record (set_channel ch (disabled_channel c) s) {
  writes =
      s.writes
      ++ (
        upsert_channel_mutation ch (disabled_channel c)
            ∷ map (delete_frontier_mutation ch) (masks c.frontier_nodes),
        immediate,
      )
        ∷ [];
  notified = true;
}
