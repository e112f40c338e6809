-- ===== src/Daemon/Channels.antt =====
-- The handlers set_config, enable_channel and disable_channel of
-- rust/crates/shachain2pc-daemon/src/services.rs, with check_cookie of src/state.rs there and
-- channel_response of src/helpers.rs. What the writer answers to a flush is the argument `flushed`.
pub mod Disable
pub mod Enable
use shachain2pc.Base.{
  ℕ, max, Bool, true, false, ◌==◌, if◌then◌else◌, List, [], ◌∷◌, map, length, Option, none, some,
  Result, ok, err, ensure,
}
use shachain2pc.MpcTypes.{Bytes-discrete}
use shachain2pc.Daemon.Record.{
  WireRecord, ChannelRecord, Mutation, immediate, empty_channel_record, default_ssp_target,
  default_delta_cap, upsert_channel_mutation, delete_frontier_mutation,
}
use shachain2pc.Daemon.State.{
  DaemonError, St, missing_cookie, bad_cookie, channel_has_job, channel_not_enabled, writer_stopped,
  find_channel, set_channel, write_batch, wake_scheduler, ◌>>=◌, ◌>>◌, done,
}
use shachain2pc.Daemon.Precompute.{any_job}

-- The metadata `x-shachain-cookie` of a request.
abbrev cookie_matches : Option (List ℕ) → List ℕ → Result DaemonError (Unit {0})
cookie_matches none expected = err missing_cookie
cookie_matches (some cookie) expected = ensure (Bytes-discrete cookie expected) bad_cookie

unfoldable pub check_cookie : Option (List ℕ) → St (Unit {0})
check_cookie cookie s = (cookie_matches cookie s.cookie, s)

-- A writer that has stopped answers nothing.
abbrev pub flush : Result DaemonError (Unit {0}) → St (Unit {0})
flush flushed s = (if s.writer_open then flushed else err writer_stopped, s)

pub record ChannelResponse : Type 0 where
  pub channel_index : ℕ
  pub enabled : Bool
  pub precompute : ℕ
  pub ssp_target : ℕ
  pub delta_lifetime_checked_units_cap : ℕ
  pub frontier_nodes : ℕ
  pub known_secrets : ℕ
  pub estimated_checked_units : ℕ
  pub attempted_checked_units : ℕ
  pub failed_precompute_jobs : ℕ

unfoldable pub channel_response : ℕ → ChannelRecord → ChannelResponse
channel_response index c = record {
  channel_index = index;
  enabled = c.enabled;
  precompute = c.precompute_target;
  ssp_target = c.ssp_target;
  delta_lifetime_checked_units_cap = c.delta_lifetime_checked_units_cap;
  frontier_nodes = length c.frontier_nodes;
  known_secrets = length c.known_secrets;
  estimated_checked_units = c.estimated_checked_units;
  attempted_checked_units = c.attempted_checked_units;
  failed_precompute_jobs = c.failed_precompute_jobs;
}

-- What a handler's section under the lock gives: the response and the batch.
abbrev pub Answer : Type 0
Answer = ChannelResponse × List Mutation

-- The end of a handler, after the lock: the batch, the flush and the scheduler.
abbrev pub then_save : Result DaemonError (Unit {0}) → Answer → St ChannelResponse
then_save flushed (response, ms) =
    write_batch ms immediate >> flush flushed >> wake_scheduler >> done response

pub record SetConfigRequest : Type 0 where
  pub max_ram_bytes : Option ℕ
  pub workers : Option ℕ
  pub precompute : Option ℕ

abbrev or_else : Option ℕ → ℕ → ℕ
or_else none old = old
or_else (some new) old = new

abbrev or_workers : Option ℕ → ℕ → ℕ
or_workers none old = old
or_workers (some new) old = max new 1

abbrev apply_config : SetConfigRequest → St (Unit {0})
apply_config r s = (
  ok tt,
  record s {
    max_ram_bytes = or_else r.max_ram_bytes s.max_ram_bytes;
    workers = or_workers r.workers s.workers;
    precompute = or_else r.precompute s.precompute;
  },
)

unfoldable pub set_config : Option (List ℕ) → SetConfigRequest → St (Unit {0})
unfolding check_cookie wake_scheduler
set_config cookie r = check_cookie cookie >> apply_config r >> wake_scheduler

-- A 0 asks for the default, or for the value that is there.
pub record EnableChannelRequest : Type 0 where
  pub channel_index : ℕ
  pub precompute : ℕ
  pub ssp_target : ℕ
  pub delta_lifetime_checked_units_cap : ℕ

abbrev if_zero : ℕ → ℕ → ℕ
if_zero v default = if v == 0 then default else v

-- `entry(key).or_insert_with(..)`.
abbrev entry_or_new : EnableChannelRequest → ℕ → Option ChannelRecord → ChannelRecord
entry_or_new r default_precompute (some c) = c
entry_or_new r default_precompute none = record empty_channel_record {
  enabled = true;
  precompute_target = default_precompute;
  ssp_target = if_zero r.ssp_target default_ssp_target;
  delta_lifetime_checked_units_cap = if_zero r.delta_lifetime_checked_units_cap default_delta_cap;
}

unfoldable pub enabled_channel : EnableChannelRequest → ℕ → Option ChannelRecord → ChannelRecord
unfolding empty_channel_record
enabled_channel r configured found =
    let default_precompute = if_zero r.precompute configured in
    let c = entry_or_new r default_precompute found in
    record c {
      enabled = true;
      precompute_target = default_precompute;
      ssp_target = if_zero r.ssp_target c.ssp_target;
      delta_lifetime_checked_units_cap =
          if_zero r.delta_lifetime_checked_units_cap c.delta_lifetime_checked_units_cap;
    }

-- `enable_channel` from the lock to `drop(inner)`.
unfoldable pub enable_channel_locked : EnableChannelRequest → St Answer
unfolding enabled_channel channel_response
enable_channel_locked r s =
    let c = enabled_channel r s.precompute (find_channel r.channel_index s) in
    (
      ok (channel_response r.channel_index c, upsert_channel_mutation r.channel_index c ∷ []),
      set_channel r.channel_index c s,
    )

unfoldable pub enable_channel :
    Option (List ℕ) → Result DaemonError (Unit {0}) → EnableChannelRequest → St ChannelResponse
unfolding check_cookie enable_channel_locked
enable_channel cookie flushed r =
    check_cookie cookie >> (enable_channel_locked r >>= then_save flushed)

abbrev pub masks : List (ℕ × WireRecord) → List ℕ
masks m = map (λ (mask, node). mask) m

abbrev disable_found : ℕ → Option ChannelRecord → St Answer
disable_found ch none s = (err channel_not_enabled, s)
disable_found ch (some c) s =
    let c' = record c { enabled = false; frontier_nodes = [] } in
    (
      ok (
        channel_response ch c',
        upsert_channel_mutation ch c' ∷ map (delete_frontier_mutation ch) (masks c.frontier_nodes),
      ),
      set_channel ch c' s,
    )

-- `disable_channel` from the lock to `drop(inner)`.
unfoldable pub disable_channel_locked : ℕ → St Answer
unfolding any_job channel_response
disable_channel_locked ch s =
    if any_job ch s.active_jobs
    then (err channel_has_job, s)
    else disable_found ch (find_channel ch s) s

-- The cached session of the channel, which the handler also drops, is not part of the state.
unfoldable pub disable_channel :
    Option (List ℕ) → Result DaemonError (Unit {0}) → ℕ → St ChannelResponse
unfolding check_cookie disable_channel_locked
disable_channel cookie flushed ch =
    check_cookie cookie >> (disable_channel_locked ch >>= then_save flushed)
