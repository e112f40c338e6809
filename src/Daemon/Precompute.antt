-- ===== src/Daemon/Precompute.antt =====
-- The precompute jobs of rust/crates/shachain2pc-daemon/src/state.rs: their admission, for the own
-- side and for the peer's, and their end. The worker count that `resource_model` returned before
-- the lock is an argument.
pub mod Budget
pub mod Steps
pub mod Reach
use native.Mathlib.Decide.{ℕ_discrete}
use shachain2pc.Base.{
  ℕ, zero, suc, ◌+◌, min, max, Bool, true, false, not, ◌&&◌, ◌||◌, ◌==◌, ltb, leb, if◌then◌else◌,
  length, List, [], ◌∷◌, Option, none, some, Result, ok, err, ◌>>=◌, ◌>>◌, guard,
}
use shachain2pc.Base.Map.{get, put, remove}
use shachain2pc.Types.Index.{Index48}
use shachain2pc.Daemon.Record.{
  Wires, ChannelRecord, JobId, JobId-discrete, JobRecord, precompute_job, target_job, eventual,
  upsert_channel_mutation, upsert_frontier_mutation,
}
use shachain2pc.Daemon.State.{
  DaemonError, DaemonState, St, panicked, channel_disabled, job_already_active, no_shared_worker,
  workers_busy, cap_exceeded, security_parameters_differ, channel_or_error, sat_add, find_channel,
  set_channel, write_batch, write_and_wake, wake_scheduler, done,
}
use shachain2pc.Daemon.Frontier.{
  PeerFrontierConfig, is_some, current_node, bound_wires, insert_node,
}

pub data PrecomputeStart : Type 0 where
  already_stored : PrecomputeStart
  run : JobId → ℕ → PrecomputeStart

-- `GrpcJobDescriptor` of src/db.rs.
pub record GrpcJobDescriptor : Type 0 where
  pub job_id : List ℕ
  pub channel_index : ℕ
  pub target_index : ℕ
  pub ssp : ℕ
  pub ssp_target : ℕ
  pub delta_lifetime_checked_units_cap : ℕ
  pub digest : List ℕ

-- `active_jobs.values().any(|job| job.channel_index == channel_index)`.
unfoldable pub any_job : ℕ → List (JobId × JobRecord) → Bool
any_job ch [] = false
any_job ch ((id, job) ∷ jobs) = job.channel_index == ch || any_job ch jobs

-- The sum of the planned units of the channel's jobs. It is read where there are none.
unfoldable pub reserved : ℕ → List (JobId × JobRecord) → ℕ
reserved ch [] = 0
reserved ch ((id, job) ∷ jobs) =
    (if job.channel_index == ch then job.planned_checked_units else 0) + reserved ch jobs

abbrev pub used : ℕ → List (JobId × JobRecord) → ℕ → ChannelRecord → ℕ
used ch jobs planned c = sat_add (sat_add c.estimated_checked_units (reserved ch jobs)) planned

abbrev worker_count : ℕ → PeerFrontierConfig → ℕ
worker_count workers peer = min workers (min peer.effective_workers (max peer.workers 1))

-- The tests of `begin_precompute_jobstream` after the one for a stored node.
unfoldable pub admit_job :
    ℕ
    → ℕ
    → PeerFrontierConfig
    → ℕ
    → List (JobId × JobRecord)
    → ChannelRecord
    → Result DaemonError (Unit {0})
unfolding any_job reserved sat_add
admit_job workers ch peer planned jobs c = do
  guard (not (any_job ch jobs)) job_already_active
  guard (not (worker_count workers peer == 0)) no_shared_worker
  guard (ltb (length jobs) (worker_count workers peer)) workers_busy
  guard (leb (used ch jobs planned c) c.delta_lifetime_checked_units_cap) cap_exceeded

-- The tests of `begin_incoming_precompute_target`.
unfoldable pub admit_incoming :
    ℕ
    → GrpcJobDescriptor
    → ℕ
    → List (JobId × JobRecord)
    → ChannelRecord
    → Result DaemonError (Unit {0})
unfolding any_job reserved sat_add
admit_incoming workers d planned jobs c = do
  guard c.enabled channel_disabled
  guard
      (d.ssp_target == c.ssp_target
        && d.delta_lifetime_checked_units_cap == c.delta_lifetime_checked_units_cap)
      security_parameters_differ
  guard (ltb (length jobs) workers) workers_busy
  guard (not (any_job d.channel_index jobs)) job_already_active
  guard (leb (used d.channel_index jobs planned c) c.delta_lifetime_checked_units_cap) cap_exceeded

abbrev pub add_attempt : ℕ → ChannelRecord → ChannelRecord
add_attempt planned c = record c {
  attempted_checked_units = sat_add c.attempted_checked_units planned;
}

abbrev pub add_failure : ChannelRecord → ChannelRecord
add_failure c = record c { failed_precompute_jobs = sat_add c.failed_precompute_jobs 1 }

-- An admitted job: the attempt is counted and the job is active.
unfoldable pub start_job : ℕ → JobId → ℕ → ℕ → ChannelRecord → DaemonState → DaemonState
unfolding sat_add set_channel
start_job ch id target planned c s =
    let job : JobRecord = record {
      channel_index = ch;
      target = target;
      planned_checked_units = planned;
    } in
    record (set_channel ch (add_attempt planned c) s) {
      active_jobs = put JobId-discrete id job s.active_jobs;
    }

abbrev pub save_attempt : ℕ → ℕ → ChannelRecord → St (Unit {0})
save_attempt ch planned c =
    write_batch (upsert_channel_mutation ch (add_attempt planned c) ∷ []) eventual

abbrev pub and_return :
    {A : Type 0}
    → A
    → Result DaemonError (Unit {0}) × DaemonState
    → Result DaemonError A × DaemonState
and_return a (ok _, s) = (ok a, s)
and_return a (err e, s) = (err e, s)

-- `new` is the end of the call, for an enabled channel that does not have the node.
abbrev pub begin_choice :
    Bool
    → Bool
    → DaemonState
    → Result DaemonError PrecomputeStart × DaemonState
    → Result DaemonError PrecomputeStart × DaemonState
begin_choice false present s new = (err channel_disabled, s)
begin_choice true true s new = (ok already_stored, s)
begin_choice true false s new = new

abbrev pub if_enabled :
    Bool → DaemonState → Result DaemonError ℕ × DaemonState → Result DaemonError ℕ × DaemonState
if_enabled false s new = (err channel_disabled, s)
if_enabled true s new = new

module _ (sha256 : List ℕ → List ℕ) where
  abbrev begin_new :
      ℕ
      → ℕ
      → ℕ
      → ChannelRecord
      → DaemonState
      → Result DaemonError (Unit {0})
      → Result DaemonError PrecomputeStart × DaemonState
  begin_new ch target planned c s (err e) = (err e, s)
  begin_new ch target planned c s (ok _) =
      let number = sat_add s.next_job_id 1 in
      let id = precompute_job ch number in
      and_return (run id planned) (
        save_attempt ch planned c
          (start_job ch id target planned c (record s { next_job_id = number })))

  abbrev begin_in :
      ℕ
      → ℕ
      → Index48
      → PeerFrontierConfig
      → ℕ
      → Result DaemonError ChannelRecord
      → St PrecomputeStart
  begin_in workers ch index peer planned (err e) s = (err e, s)
  begin_in workers ch index peer planned (ok c) s =
      let new =
        begin_new ch index.value planned c s (admit_job workers ch peer planned s.active_jobs c) in
      begin_choice c.enabled (is_some sha256 (current_node sha256 s.role ch index.value c)) s new

  unfoldable pub begin_precompute_jobstream :
      ℕ → ℕ → Index48 → PeerFrontierConfig → ℕ → St PrecomputeStart
  unfolding admit_job start_job
  begin_precompute_jobstream workers ch index peer planned s =
      begin_in workers ch index peer planned (channel_or_error (find_channel ch s)) s

  abbrev finish_in : ℕ → JobId → ℕ → ℕ → Wires → Option ChannelRecord → St ℕ
  finish_in ch id planned mask wires none s = (err panicked, s)
  finish_in ch id planned mask wires (some c) s =
      let r = bound_wires sha256 s.role ch mask c wires in
      let c' = record (insert_node sha256 mask r c) {
        estimated_checked_units = sat_add c.estimated_checked_units planned;
      } in
      let s' = record (set_channel ch c' s) {
        active_jobs = remove JobId-discrete id s.active_jobs;
      } in
      if_enabled c.enabled s (
        and_return 1 (
          write_and_wake (upsert_frontier_mutation ch mask r ∷ upsert_channel_mutation ch c' ∷ [])
            eventual s'))

  unfoldable pub store_precomputed_target_wires_and_finish_job : ℕ → JobId → ℕ → ℕ → Wires → St ℕ
  unfolding bound_wires
  store_precomputed_target_wires_and_finish_job ch id planned mask wires s =
      finish_in ch id planned mask wires (find_channel ch s) s

abbrev incoming_in :
    ℕ
    → GrpcJobDescriptor
    → Index48
    → ℕ
    → Result DaemonError ChannelRecord
    → DaemonState
    → Result DaemonError (Unit {0})
    → Result DaemonError JobId × DaemonState
incoming_in workers d index planned (err e) s admitted = (err e, s)
incoming_in workers d index planned (ok c) s (err e) = (err e, s)
incoming_in workers d index planned (ok c) s (ok _) =
    let id = target_job d.job_id index.value in
    and_return id (
      save_attempt d.channel_index planned c (start_job d.channel_index id index.value planned c s))

unfoldable pub begin_incoming_precompute_target : ℕ → GrpcJobDescriptor → Index48 → ℕ → St JobId
unfolding admit_incoming start_job
begin_incoming_precompute_target workers d index planned s =
    let channel = channel_or_error (find_channel d.channel_index s) in
    incoming_in workers d index planned channel s
      (channel >>= admit_incoming workers d planned s.active_jobs)

abbrev failed_in : ℕ → ℕ → Result DaemonError ChannelRecord → St (Unit {0})
failed_in ch planned (err e) s = (err e, s)
failed_in ch planned (ok c) s =
    let c' = add_failure (add_attempt planned c) in
    write_batch (upsert_channel_mutation ch c' ∷ []) eventual (set_channel ch c' s)

unfoldable pub record_failed_precompute_attempt : ℕ → ℕ → St (Unit {0})
record_failed_precompute_attempt ch planned s =
    failed_in ch planned (channel_or_error (find_channel ch s)) s

-- The failure is counted on the channel of the job, where there is one.
abbrev pub count_failure : ℕ → Option ChannelRecord → DaemonState → DaemonState
count_failure ch none s = (write_batch [] eventual s).1
count_failure ch (some c) s =
    let c' = add_failure c in
    (write_batch (upsert_channel_mutation ch c' ∷ []) eventual (set_channel ch c' s)).1

-- The outcome of the batch is ignored (`let _ =`), but the scheduler is woken.
abbrev pub finish_found : Bool → Option JobRecord → DaemonState → DaemonState
finish_found failed none s = record (write_batch [] eventual s).1 { notified = true }
finish_found false (some job) s = record (write_batch [] eventual s).1 { notified = true }
finish_found true (some job) s =
    record (count_failure job.channel_index (find_channel job.channel_index s) s) {
      notified = true;
    }

unfoldable pub finish_job : JobId → Bool → DaemonState → DaemonState
finish_job id failed s =
    finish_found failed (get JobId-discrete id s.active_jobs)
      (record s { active_jobs = remove JobId-discrete id s.active_jobs })
