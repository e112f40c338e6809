-- ===== src/Daemon/Channels/Enable.antt =====
-- What enable_channel does when it answers.
use native.Mathlib.Decide.{ℕ_discrete}
use shachain2pc.Base.{
  ℕ, ◌≡◌, ◌≢◌, refl, sym, ap, ◌∙◌, ◌==◌, if◌then◌else◌, inl, inr, true, List, [], ◌∷◌, ◌++◌, Option,
  none, some, Result, ok, err, arith, ensure-yes, ok_injective, Bool-cases,
}
use shachain2pc.Base.Map.{get, get-put_self, get-put_ne}
use shachain2pc.MpcTypes.{Bytes-discrete}
use shachain2pc.Daemon.Record.{ChannelRecord, immediate, upsert_channel_mutation}
use shachain2pc.Daemon.State.{
  DaemonState, DaemonError, bad_cookie, find_channel, set_channel, write_batch, wake_scheduler,
}
use shachain2pc.Daemon.Channels.{
  check_cookie, enable_channel, enable_channel_locked, enabled_channel, EnableChannelRequest,
  ChannelResponse, channel_response,
}

-- A channel of which a request has changed the settings alone: a 0 keeps the target and the cap, and
-- asks for the daemon's number of nodes.
pub record IsEnabled (r : EnableChannelRequest) (configured : ℕ) (c c' : ChannelRecord)
    : Type 0 where
  pub enabled : c'.enabled ≡ true
  pub precompute : c'.precompute_target ≡ (if r.precompute == 0 then configured else r.precompute)
  pub ssp_target : c'.ssp_target ≡ (if r.ssp_target == 0 then c.ssp_target else r.ssp_target)
  pub cap : c'.delta_lifetime_checked_units_cap ≡ (
      if r.delta_lifetime_checked_units_cap == 0
      then c.delta_lifetime_checked_units_cap
      else r.delta_lifetime_checked_units_cap)
  pub nodes : c'.frontier_nodes ≡ c.frontier_nodes
  pub secrets : c'.known_secrets ≡ c.known_secrets
  pub last : c'.last_observed_next_reveal_index ≡ c.last_observed_next_reveal_index
  pub estimated : c'.estimated_checked_units ≡ c.estimated_checked_units
  pub attempted : c'.attempted_checked_units ≡ c.attempted_checked_units
  pub failed : c'.failed_precompute_jobs ≡ c.failed_precompute_jobs

enabled_channel-IsEnabled :
    (r : EnableChannelRequest) (configured : ℕ) (c : ChannelRecord)
    → IsEnabled r configured c (enabled_channel r configured (some c))
unfolding enabled_channel
enabled_channel-IsEnabled r configured c = record {
  enabled = refl;
  precompute = refl;
  ssp_target = refl;
  cap = refl;
  nodes = refl;
  secrets = refl;
  last = refl;
  estimated = refl;
  attempted = refl;
  failed = refl;
}

-- What an answer of `enable_channel` says of the state after the call.
pub record Enabled (r : EnableChannelRequest) (c c' : ChannelRecord) (s t : DaemonState)
    (response : ChannelResponse) : Type 0 where
  pub settings : IsEnabled r s.precompute c c'
  pub shown : response ≡ channel_response r.channel_index c'
  pub stored : find_channel r.channel_index t ≡ some c'
  pub others : (j : ℕ) → r.channel_index ≢ j → find_channel j t ≡ find_channel j s
  pub queued :
      t.writes ≡ s.writes ++ (upsert_channel_mutation r.channel_index c' ∷ [], immediate) ∷ []
  pub woken : t.notified ≡ true

abbrev after_enable : ℕ → ChannelRecord → DaemonState → DaemonState
after_enable ch c s = record (set_channel ch c s) {
  writes = s.writes ++ (upsert_channel_mutation ch c ∷ [], immediate) ∷ [];
  notified = true;
}

enable_channel-run :
    (k : List ℕ) (r : EnableChannelRequest) (s : DaemonState) {c : ChannelRecord}
    → find_channel r.channel_index s ≡ some c
    → k ≡ s.cookie
    → s.writer_open ≡ true
    → enable_channel (some k) (ok tt) r s ≡ (
      ok (channel_response r.channel_index (enabled_channel r s.precompute (some c))),
      after_enable r.channel_index (enabled_channel r s.precompute (some c)) s,
    )
unfolding enable_channel enable_channel_locked check_cookie wake_scheduler write_batch set_channel
enable_channel-run k r s {c} hc y w =
    rw (ensure-yes (Bytes-discrete k s.cookie) bad_cookie y, hc, w) refl

enabled_lem :
    (r : EnableChannelRequest) (c : ChannelRecord) (s : DaemonState)
    (run : Result DaemonError ChannelResponse × DaemonState) {response : ChannelResponse}
    → run ≡ (
      ok (channel_response r.channel_index (enabled_channel r s.precompute (some c))),
      after_enable r.channel_index (enabled_channel r s.precompute (some c)) s,
    )
    → run.0 ≡ ok response
    → Enabled r c (enabled_channel r s.precompute (some c)) s run.1 response
unfolding find_channel set_channel
enabled_lem r c s run same e =
    let c' : ChannelRecord = enabled_channel r s.precompute (some c) in
    record {
      settings = enabled_channel-IsEnabled r s.precompute c;
      shown = ok_injective (sym e ∙ ap (λ r. r.0) same);
      stored =
          ap (λ x. get ℕ_discrete r.channel_index x.1.channels) same
          ∙ get-put_self ℕ_discrete r.channel_index c' s.channels;
      others = λ i n.
          ap (λ x. get ℕ_discrete i x.1.channels) same
          ∙ get-put_ne ℕ_discrete r.channel_index i c' s.channels n;
      queued = ap (λ x. x.1.writes) same;
      woken = ap (λ x. x.1.notified) same;
    }

-- A call of `enable_channel` on a known channel that answers had the daemon's cookie and a flush that
-- went well. After it the channel is enabled, with the settings of the request and all else that it
-- had, as the response shows; the other channels are what they were, and one batch more is queued,
-- durable at once, which writes the channel.
pub enable_channel-Enabled :
    (cookie : Option (List ℕ)) (flushed : Result DaemonError (Unit {0})) (r : EnableChannelRequest)
    (s : DaemonState) {c : ChannelRecord} {response : ChannelResponse}
    → find_channel r.channel_index s ≡ some c
    → (enable_channel cookie flushed r s).0 ≡ ok response
    → (cookie ≡ some s.cookie)
      × (flushed ≡ ok tt)
      × (c' : ChannelRecord) × Enabled r c c' s (enable_channel cookie flushed r s).1 response
unfolding enable_channel enable_channel_locked check_cookie Bytes-discrete wake_scheduler
    write_batch set_channel
enable_channel-Enabled none flushed r s {c} hc e = absurd (ground arith)
enable_channel-Enabled (some k) (err f) r s {c} hc e = elim (Bytes-discrete k s.cookie) [
  | no n ↦ absurd (ground arith)
  | yes y ↦ elim (Bool-cases s.writer_open) [
    | inl w ↦ absurd (ground arith)
    | inr w ↦ absurd (ground arith)
  ]
]
enable_channel-Enabled (some k) (ok _) r s {c} hc e = elim (Bytes-discrete k s.cookie) [
  | no n ↦ absurd (ground arith)
  | yes y ↦ elim (Bool-cases s.writer_open) [
    | inl w ↦ (
      ap some y,
      refl,
      enabled_channel r s.precompute (some c),
      enabled_lem r c s (enable_channel (some k) (ok tt) r s) (enable_channel-run k r s hc y w) e,
    )
    | inr w ↦ absurd (ground arith)
  ]
]
