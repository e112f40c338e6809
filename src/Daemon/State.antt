-- ===== src/Daemon/State.antt =====
-- The daemon's shared state (DaemonState and Inner of rust/crates/shachain2pc-daemon/src/lib.rs),
-- the operations as functions on it, and the database queue (write_batch of src/db.rs there).
-- The lock makes each critical section one step. An operation of several sections is their sequence,
-- with nothing of another call between them.
use native.Mathlib.Decide.{ℕ_discrete}
use shachain2pc.Base.{
  ℕ, ◌+◌, ◌-◌, ◌^◌, min, max, Bool, true, if◌then◌else◌, List, [], ◌∷◌, ◌++◌, Option, none, some,
  Result, ok, err,
}
use shachain2pc.Base.Map.{get, put}
use shachain2pc.Types.Hex.{ParseError}
use shachain2pc.Types.Index.{Role}
use shachain2pc.Daemon.Record.{ChannelRecord, JobId, JobRecord, Mutation, DbDurability}

-- The errors by their messages. `panicked` is an `expect` that fails.
pub data DaemonError : Type 0 where
  channel_not_enabled channel_disabled writer_stopped panicked : DaemonError
  job_already_active no_shared_worker workers_busy : DaemonError
  cap_exceeded security_parameters_differ : DaemonError
  missing_cookie bad_cookie channel_has_job : DaemonError
  bad_stored_key truncated_value bad_logical_key bad_verifier : DaemonError
  bad_open bad_json : DaemonError
  parse : ParseError → DaemonError

pub record DaemonState : Type 0 where
  pub role : Role
  pub cookie : List ℕ
  pub max_ram_bytes : ℕ
  pub workers : ℕ
  pub precompute : ℕ
  pub channels : List (ℕ × ChannelRecord)
  pub active_jobs : List (JobId × JobRecord)
  pub next_job_id : ℕ
  pub writer_open : Bool
  pub writes : List (List Mutation × DbDurability)
  pub notified : Bool

-- An operation: its result and the state after it.
abbrev pub St : Type 0 → Type 0
St A = DaemonState → Result DaemonError A × DaemonState

abbrev pub bind_st {κ} :
    {A : Type 0} {B : Type κ}
    → (A → DaemonState → Result DaemonError B × DaemonState)
    → Result DaemonError A
    → DaemonState
    → Result DaemonError B × DaemonState
bind_st k (ok a) s = k a s
bind_st k (err e) s = (err e, s)

infixl 5 ◌>>=◌ ◌>>◌
abbrev pub ◌>>=◌ : {A B : Type 0} → St A → (A → St B) → St B
◌>>=◌ m k s = bind_st k (m s).0 (m s).1

abbrev pub ◌>>◌ : {B : Type 0} → St (Unit {0}) → St B → St B
m >> k = m >>= λ _. k

abbrev pub done : {A : Type 0} → A → St A
done a s = (ok a, s)

unfoldable pub sat_add : ℕ → ℕ → ℕ
sat_add a b = min (a + b) (2 ^ 64 - 1)

unfoldable pub find_channel : ℕ → DaemonState → Option ChannelRecord
find_channel ch s = get ℕ_discrete ch s.channels

unfoldable pub set_channel : ℕ → ChannelRecord → DaemonState → DaemonState
set_channel ch c s = record s { channels = put ℕ_discrete ch c s.channels }

-- `ok_or_else(|| NotFound("channel is not enabled"))`.
abbrev pub channel_or_error : Option ChannelRecord → Result DaemonError ChannelRecord
channel_or_error none = err channel_not_enabled
channel_or_error (some c) = ok c

-- Batches are queued; an empty one is not, and a stopped writer refuses.
abbrev queue_batch :
    List Mutation → DbDurability → DaemonState → Result DaemonError (Unit {0}) × DaemonState
queue_batch [] d s = (ok tt, s)
queue_batch (m ∷ ms) d s =
    if s.writer_open
    then (ok tt, record s { writes = s.writes ++ (m ∷ ms, d) ∷ [] })
    else (err writer_stopped, s)

unfoldable pub write_batch : List Mutation → DbDurability → St (Unit {0})
write_batch ms d s = queue_batch ms d s

unfoldable pub wake_scheduler : St (Unit {0})
wake_scheduler s = (ok tt, record s { notified = true })

-- `resource_model(..).effective_workers`.
unfoldable pub effective_workers : DaemonState → ℕ
effective_workers s = max s.workers 1

-- The end of an operation whose section under the lock gave the batch: the lock is free before the
-- batch is queued.
abbrev pub then_write :
    DbDurability
    → Result DaemonError (List Mutation) × DaemonState
    → Result DaemonError (Unit {0}) × DaemonState
then_write d (ok ms, s) = write_batch ms d s
then_write d (err e, s) = (err e, s)

-- The end of an operation: `write_batch(..).await?`, then `wake_scheduler()`.
unfoldable pub write_and_wake : List Mutation → DbDurability → St (Unit {0})
unfolding write_batch wake_scheduler
write_and_wake ms d = write_batch ms d >> wake_scheduler
