-- ===== src/Daemon/Record.antt =====
-- The records of rust/crates/shachain2pc-daemon/src/db.rs: what the daemon keeps of its channels
-- and jobs, and the mutations that it sends to its database. A map key is the number whose decimal
-- text the source writes (`channel_key`, `node_key`), so it always parses.
use native.Mathlib.Decide.{ℕ_discrete}
use shachain2pc.Base.{ℕ, ◌^◌, Bool, false, List, [], Option, none}

abbrev pub default_ssp_target : ℕ
default_ssp_target = 40

abbrev pub default_delta_cap : ℕ
default_delta_cap = 2 ^ 32

-- `SerializableWires`: the blocks are byte lists.
pub record Wires : Type 0 where
  pub lambda : List ℕ
  pub mac : List (List ℕ)
  pub key : List (List ℕ)

pub record WireRecord : Type 0 where
  pub public_binding_hex : List ℕ
  pub local_binding_hex : List ℕ
  pub wires : Wires

pub record ChannelRecord : Type 0 where
  pub enabled : Bool
  pub last_observed_next_reveal_index : Option ℕ
  pub precompute_target : ℕ
  pub ssp_target : ℕ
  pub delta_lifetime_checked_units_cap : ℕ
  pub frontier_nodes : List (ℕ × WireRecord)
  pub known_secrets : List (ℕ × List ℕ)
  pub estimated_checked_units : ℕ
  pub attempted_checked_units : ℕ
  pub failed_precompute_jobs : ℕ

-- A channel before anything of it was loaded.
unfoldable pub empty_channel_record : ChannelRecord
empty_channel_record = record {
  enabled = false;
  last_observed_next_reveal_index = none;
  precompute_target = 0;
  ssp_target = default_ssp_target;
  delta_lifetime_checked_units_cap = default_delta_cap;
  frontier_nodes = [];
  known_secrets = [];
  estimated_checked_units = 0;
  attempted_checked_units = 0;
  failed_precompute_jobs = 0;
}

-- The texts that name jobs: `precompute-{channel}-{number}` and `{job}-target-{index}`.
pub data JobId : Type 0 where
  precompute_job : ℕ → ℕ → JobId
  target_job : List ℕ → ℕ → JobId

unfoldable pub JobId-discrete : Discrete JobId
JobId-discrete = hlevel ℕ_discrete

-- `kind` is always "precompute"; of `state` the target index is kept.
pub record JobRecord : Type 0 where
  pub channel_index : ℕ
  pub target : ℕ
  pub planned_checked_units : ℕ

pub record ChannelScalars : Type 0 where
  pub enabled : Bool
  pub last_observed_next_reveal_index : Option ℕ
  pub precompute_target : ℕ
  pub ssp_target : ℕ
  pub delta_lifetime_checked_units_cap : ℕ
  pub estimated_checked_units : ℕ
  pub attempted_checked_units : ℕ
  pub failed_precompute_jobs : ℕ

pub data StoredPayload : Type 0 where
  meta : List ℕ → StoredPayload
  channel_payload : ChannelScalars → StoredPayload
  secret_payload : List ℕ → StoredPayload
  frontier_payload : WireRecord → StoredPayload

pub record StoredRecord : Type 0 where
  pub record_type : ℕ
  pub channel_index : ℕ
  pub sub_id : ℕ
  pub payload : StoredPayload

pub record LogicalKey : Type 0 where
  pub record_type : ℕ
  pub channel_index : ℕ
  pub sub_id : ℕ

pub data Mutation : Type 0 where
  upsert : LogicalKey → StoredRecord → Mutation
  delete : LogicalKey → Mutation

pub data DbDurability : Type 0 where
  eventual immediate : DbDurability

abbrev pub logical_key : ℕ → ℕ → ℕ → LogicalKey
logical_key t c i = record { record_type = t; channel_index = c; sub_id = i }

abbrev pub stored_record : ℕ → ℕ → ℕ → StoredPayload → StoredRecord
stored_record t c i p = record { record_type = t; channel_index = c; sub_id = i; payload = p }

unfoldable pub scalars : ChannelRecord → ChannelScalars
scalars c = record {
  enabled = c.enabled;
  last_observed_next_reveal_index = c.last_observed_next_reveal_index;
  precompute_target = c.precompute_target;
  ssp_target = c.ssp_target;
  delta_lifetime_checked_units_cap = c.delta_lifetime_checked_units_cap;
  estimated_checked_units = c.estimated_checked_units;
  attempted_checked_units = c.attempted_checked_units;
  failed_precompute_jobs = c.failed_precompute_jobs;
}

unfoldable pub apply_scalars : ChannelRecord → ChannelScalars → ChannelRecord
apply_scalars c s = record c {
  enabled = s.enabled;
  last_observed_next_reveal_index = s.last_observed_next_reveal_index;
  precompute_target = s.precompute_target;
  ssp_target = s.ssp_target;
  delta_lifetime_checked_units_cap = s.delta_lifetime_checked_units_cap;
  estimated_checked_units = s.estimated_checked_units;
  attempted_checked_units = s.attempted_checked_units;
  failed_precompute_jobs = s.failed_precompute_jobs;
}

-- RECORD_META, RECORD_CHANNEL, RECORD_SECRET and RECORD_FRONTIER are 0 to 3.
unfoldable pub upsert_channel_mutation : ℕ → ChannelRecord → Mutation
unfolding scalars
upsert_channel_mutation ch c =
    upsert (logical_key 1 ch 0) (stored_record 1 ch 0 (channel_payload (scalars c)))

unfoldable pub upsert_secret_mutation : ℕ → ℕ → List ℕ → Mutation
upsert_secret_mutation ch index hex =
    upsert (logical_key 2 ch index) (stored_record 2 ch index (secret_payload hex))

unfoldable pub upsert_frontier_mutation : ℕ → ℕ → WireRecord → Mutation
upsert_frontier_mutation ch mask r =
    upsert (logical_key 3 ch mask) (stored_record 3 ch mask (frontier_payload r))

unfoldable pub delete_secret_mutation : ℕ → ℕ → Mutation
delete_secret_mutation ch index = delete (logical_key 2 ch index)

unfoldable pub delete_frontier_mutation : ℕ → ℕ → Mutation
delete_frontier_mutation ch mask = delete (logical_key 3 ch mask)
