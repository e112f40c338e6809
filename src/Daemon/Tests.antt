-- ===== src/Daemon/Tests.antt =====
-- A daemon with one channel and one job.
use mathlib.Core.Logic.{ite}
use native.Mathlib.Decide.{ℕ_discrete}
use shachain2pc.Base.{◌≤◌, ◌≡◌, refl, inr, true, false, [], ◌∷◌, none, some, Result, ok, arith}
use shachain2pc.Base.Map.{get, put}
use shachain2pc.Types.Index.{alice}
use shachain2pc.Types.Value.{hex_pairs, bytes_to_hex, zero_value, to_hex, IsValue, value_from_hex}
use shachain2pc.Types.ValueText.{value_from_hex-to_hex}
use shachain2pc.Types.Tests.{sevens, sevens-IsValue}
use shachain2pc.Shachain.{
  derive_from_known, derive_bits, derive_bit, set_bits_desc, bits_below, not_u64, trailing_zeros,
  generate_from_seed,
}
use shachain2pc.Shachain.Tests.{all_seven, index_4, index_5, index_6, seed_4, seed_6, derive_4_5}
use shachain2pc.Daemon.Record.{
  ChannelRecord, JobRecord, JobId-discrete, precompute_job, Wires, WireRecord,
}
use shachain2pc.Daemon.State.{
  wake_scheduler, DaemonState, DaemonError, find_channel, sat_add, set_channel, write_batch,
}
use shachain2pc.Types.Hex.{hex_nibble, nibble_hex}
use shachain2pc.MpcTypes.{Bytes-discrete}
use shachain2pc.Daemon.Secrets.{find_derived, derive_known, store_known_secret}
use shachain2pc.Daemon.Secrets.Kept.{AreSecrets}
use shachain2pc.Daemon.Secrets.Store.{
  derive_known-generate_from_seed, store_known_secret-AreSecrets, store_known_secret-derive_known,
}
use shachain2pc.Daemon.Frontier.{
  load_node, store_node, next_missing_frontier, first_missing, reconcile_with_peer, collect_nodes,
  current_node, stale_masks, remove_nodes,
}
use shachain2pc.Daemon.Frontier.Reconcile.{reconcile_with_peer-agrees}
use shachain2pc.Daemon.Frontier.Missing.{store_node-load_node, next_missing_frontier-IsNext, IsNext}
use shachain2pc.Daemon.Channels.{
  check_cookie, enable_channel, enable_channel_locked, enabled_channel, EnableChannelRequest,
  channel_response,
}
use shachain2pc.Daemon.Channels.Enable.{enable_channel-Enabled, Enabled}
use shachain2pc.Daemon.Precompute.{
  finish_job, reserved, store_precomputed_target_wires_and_finish_job,
}
use shachain2pc.Daemon.Precompute.Budget.{IsWithinCap, IsWithin, channel_jobs}
use shachain2pc.Daemon.Precompute.Reach.{
  Steps, and_then, none_more, finish, store, StoreOwnJobs, Steps-IsWithinCap,
}

abbrev node : WireRecord
node = record {
  public_binding_hex = 1 ∷ [];
  local_binding_hex = 2 ∷ [];
  wires = record { lambda = 1 ∷ []; mac = []; key = [] };
}

abbrev channel : ChannelRecord
channel = record {
  enabled = true;
  last_observed_next_reveal_index = none;
  precompute_target = 3;
  ssp_target = 40;
  delta_lifetime_checked_units_cap = 10;
  frontier_nodes = (2, node) ∷ [];
  known_secrets = (6, to_hex sevens) ∷ [];
  estimated_checked_units = 4;
  attempted_checked_units = 4;
  failed_precompute_jobs = 0;
}

abbrev a_job : JobRecord
a_job = record { channel_index = 1; target = 2; planned_checked_units = 5 }

abbrev daemon : DaemonState
daemon = record {
  role = alice;
  cookie = [];
  max_ram_bytes = 0;
  workers = 1;
  precompute = 3;
  channels = (1, channel) ∷ [];
  active_jobs = (precompute_job 1 1, a_job) ∷ [];
  next_job_id = 1;
  writer_open = true;
  writes = [];
  notified = false;
}

found : find_channel 1 daemon ≡ some channel
unfolding find_channel get ℕ_discrete
found = refl

kept : AreSecrets all_seven zero_value channel.known_secrets
kept = ((omega arith, rw seed_6 (value_from_hex-to_hex sevens sevens-IsValue)), tt)

gives_sevens : (derive_known all_seven 1 index_6 daemon).0 ≡ ok (some sevens)
unfolding derive_known find_derived find_channel get ℕ_discrete value_from_hex hex_pairs hex_nibble
    to_hex bytes_to_hex nibble_hex derive_from_known derive_bits derive_bit set_bits_desc bits_below
    not_u64 trailing_zeros
gives_sevens = refl

derive_known-generate_from_seed_example : sevens ≡ generate_from_seed all_seven zero_value index_6
derive_known-generate_from_seed_example =
    derive_known-generate_from_seed all_seven zero_value 1 index_6 daemon found kept gives_sevens

four_IsValue : IsValue (generate_from_seed all_seven zero_value index_4)
four_IsValue = rw seed_4 sevens-IsValue

store_known_secret-AreSecrets_example :
    ((store_known_secret all_seven 1 index_4 3
        (generate_from_seed all_seven zero_value index_4)
        daemon).0
      ≡ ok tt)
    × (c' : ChannelRecord) × (find_channel 1
          (store_known_secret all_seven 1 index_4 3
            (generate_from_seed all_seven zero_value index_4)
            daemon).1
        ≡ some c')
    × AreSecrets all_seven zero_value c'.known_secrets
    × (get ℕ_discrete 4 c'.frontier_nodes ≡ none)
    × (c'.last_observed_next_reveal_index ≡ some 2)
store_known_secret-AreSecrets_example =
    store_known_secret-AreSecrets all_seven zero_value 1 index_4 3 daemon found kept (omega arith)
      four_IsValue

store_known_secret-derive_known_example :
    (derive_known all_seven 1 index_5
      (store_known_secret all_seven 1 index_4 3
        (generate_from_seed all_seven zero_value index_4)
        daemon).1).0
    ≡ ok (some sevens)
store_known_secret-derive_known_example =
    store_known_secret-derive_known all_seven zero_value 1 index_4 3 index_5 daemon found kept
      (omega arith) (omega arith) (inr derive_4_5) four_IsValue

abbrev some_wires : Wires
some_wires = record { lambda = 1 ∷ 0 ∷ []; mac = []; key = [] }

store_node-load_node_example :
    (load_node all_seven 1 3 (store_node all_seven 1 3 some_wires daemon).1).0
    ≡ ite (ℕ_discrete 3 3) (ok (some some_wires)) ((load_node all_seven 1 3 daemon).0)
store_node-load_node_example = store_node-load_node all_seven 1 3 3 some_wires daemon found

one_missing : (next_missing_frontier all_seven 1 3 daemon).0 ≡ ok (some 1)
unfolding next_missing_frontier first_missing current_node get find_channel ℕ_discrete
one_missing = refl

next_missing_frontier-IsNext_example : IsNext all_seven alice 1 channel 3 (some 1)
next_missing_frontier-IsNext_example =
    next_missing_frontier-IsNext all_seven 1 3 daemon found one_missing

reconciled : find_channel 1 (reconcile_with_peer 1 ((2, 1 ∷ []) ∷ []) daemon).1 ≡ some channel
unfolding reconcile_with_peer find_channel get set_channel write_batch collect_nodes stale_masks
    remove_nodes put ℕ_discrete Bytes-discrete
reconciled = refl

node_stored : get ℕ_discrete 2 channel.frontier_nodes ≡ some node
unfolding get ℕ_discrete
node_stored = refl

reconcile_with_peer-agrees_example :
    (get ℕ_discrete 2 channel.frontier_nodes ≡ some node)
    × (get ℕ_discrete 2 (collect_nodes [] ((2, 1 ∷ []) ∷ [])) ≡ some (1 ∷ []))
reconcile_with_peer-agrees_example =
    reconcile_with_peer-agrees 1 2 ((2, 1 ∷ []) ∷ []) daemon found reconciled node_stored

daemon-IsWithinCap : IsWithinCap daemon
unfolding find_channel get reserved channel_jobs sat_add
daemon-IsWithinCap ch =
    elim (ℕ_discrete 1 ch)
      as (λ d.
        IsWithin ch ((precompute_job 1 1, a_job) ∷ []) (ite d (some channel) none)
        × (channel_jobs ch ((precompute_job 1 1, a_job) ∷ []) ≤ 1)) [
          | yes e ↦ (ground arith, ground arith)
          | no n ↦ (tt, ground arith)
        ]

abbrev after_store : DaemonState
after_store =
    (store_precomputed_target_wires_and_finish_job all_seven 1 (precompute_job 1 1) 5 2 some_wires
      daemon).1

abbrev after_finish : DaemonState
after_finish = finish_job (precompute_job 1 2) true after_store

abbrev stored_and_finished : Steps all_seven daemon after_finish
stored_and_finished =
    and_then daemon after_store after_finish (store 1 (precompute_job 1 1) 5 2 some_wires daemon) (
      and_then after_store after_finish after_finish (finish (precompute_job 1 2) true after_store)
        (none_more after_finish))

stores_own : StoreOwnJobs all_seven daemon after_finish stored_and_finished
unfolding get JobId-discrete ℕ_discrete
stores_own = ((2, refl), (tt, tt))

Steps-IsWithinCap_example : IsWithinCap after_finish
Steps-IsWithinCap_example =
    Steps-IsWithinCap all_seven daemon after_finish stored_and_finished stores_own
      daemon-IsWithinCap

abbrev idle : DaemonState
idle = record daemon { active_jobs = [] }

idle_found : find_channel 1 idle ≡ some channel
unfolding find_channel get ℕ_discrete
idle_found = refl

abbrev request : EnableChannelRequest
request = record {
  channel_index = 1;
  precompute = 0;
  ssp_target = 0;
  delta_lifetime_checked_units_cap = 20;
}

abbrev raised : ChannelRecord
raised = record channel { delta_lifetime_checked_units_cap = 20 }

enable_idle : (enable_channel (some []) (ok tt) request idle).0 ≡ ok (channel_response 1 raised)
unfolding enable_channel enable_channel_locked check_cookie enabled_channel find_channel get
    set_channel put write_batch wake_scheduler ℕ_discrete Bytes-discrete
enable_idle = refl

enable_channel-Enabled_example :
    (some [] ≡ some idle.cookie)
    × (◌≡◌ {A = Result DaemonError (Unit {0})} (ok tt) (ok tt))
    × (c' : ChannelRecord) × Enabled request channel c' idle
        (enable_channel (some []) (ok tt) request idle).1
        (channel_response 1 raised)
enable_channel-Enabled_example =
    enable_channel-Enabled (some []) (ok tt) request idle idle_found enable_idle
