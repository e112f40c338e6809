-- ===== src/Daemon/Precompute/Reach.antt =====
-- The precompute operations as steps, in any order, and what holds of the states they reach.
use shachain2pc.Base.{
  ℕ, ◌≤◌, ◌≡◌, refl, sym, ◌∙◌, subst, inl, inr, Bool, true, false, List, [], ◌∷◌, Option, none,
  some, Option-cases, arith,
}
use shachain2pc.Base.Map.{get, remove}
use shachain2pc.Types.Index.{Index48}
use shachain2pc.Daemon.Record.{
  ChannelRecord, JobId, JobId-discrete, JobRecord, Mutation, eventual, Wires,
  upsert_channel_mutation,
}
use shachain2pc.Daemon.State.{DaemonState, find_channel, set_channel, sat_add, write_batch}
use shachain2pc.Daemon.Batch.{
  find_channel-set_channel, find_channel-set_channel_ne, find_channel-write_batch,
  active_jobs-write_batch,
}
use shachain2pc.Daemon.Frontier.{PeerFrontierConfig}
use shachain2pc.Daemon.Precompute.{
  reserved, begin_precompute_jobstream, GrpcJobDescriptor, begin_incoming_precompute_target,
  store_precomputed_target_wires_and_finish_job, finish_job, record_failed_precompute_attempt,
  add_attempt, add_failure, count_failure, finish_found,
}
use shachain2pc.Daemon.Precompute.Budget.{
  channel_jobs, reserved-remove, IsWithin, IsWithinCap, IsWithinCap-update, IsWithin-fewer,
}
use shachain2pc.Daemon.Precompute.Steps.{
  begin_precompute_jobstream-IsWithinCap, begin_incoming_precompute_target-IsWithinCap,
  store_precomputed-IsWithinCap,
}

-- A channel whose used units and cap stay, written in a batch.
counted-IsWithinCap :
    (ch : ℕ) (c c' : ChannelRecord) (ms : List Mutation) (s : DaemonState)
    → find_channel ch s ≡ some c
    → c'.estimated_checked_units ≡ c.estimated_checked_units
    → c'.delta_lifetime_checked_units_cap ≡ c.delta_lifetime_checked_units_cap
    → IsWithinCap s
    → IsWithinCap (write_batch ms eventual (set_channel ch c' s)).1
unfolding sat_add set_channel
counted-IsWithinCap ch c c' ms s hc est cap h =
    let jobs = active_jobs-write_batch ms eventual (set_channel ch c' s) in
    let (w, one) = h ch in
    let before : IsWithin ch s.active_jobs (some c) = subst (IsWithin ch s.active_jobs) hc w in
    let within : IsWithin ch s.active_jobs (some c') = omega arith in
    IsWithinCap-update ch c' s (write_batch ms eventual (set_channel ch c' s)).1
      (find_channel-write_batch ch ms eventual _ ∙ find_channel-set_channel ch _ s)
      (λ j n. find_channel-write_batch j ms eventual _ ∙ find_channel-set_channel_ne ch j _ s n)
      (subst (λ l. IsWithin ch l (some c')) (sym jobs) within)
      (subst (λ l. channel_jobs ch l ≤ 1) (sym jobs) one)
      (λ j n.
        subst
          (λ l.
            (reserved j l ≤ reserved j s.active_jobs)
            × (channel_jobs j l ≤ channel_jobs j s.active_jobs))
          (sym jobs) (omega arith, omega arith))
      h

record_failed-IsWithinCap :
    (ch planned : ℕ) (s : DaemonState)
    → IsWithinCap s
    → IsWithinCap (record_failed_precompute_attempt ch planned s).1
unfolding record_failed_precompute_attempt
record_failed-IsWithinCap ch planned s h = elim (Option-cases (find_channel ch s)) [
  | inl e ↦ simp e h
  | inr (c, e) ↦ simp e (
      counted-IsWithinCap ch c (add_failure (add_attempt planned c))
        (upsert_channel_mutation ch (add_failure (add_attempt planned c)) ∷ []) s e refl refl h)
]

-- A job that ends without its units being used.
dropped-IsWithinCap :
    (id : JobId) (s : DaemonState)
    → IsWithinCap s
    → IsWithinCap (record s { active_jobs = remove JobId-discrete id s.active_jobs })
unfolding find_channel sat_add
dropped-IsWithinCap id s h ch =
    let (r, n) = reserved-remove ch id s.active_jobs in
    let (w, one) = h ch in (IsWithin-fewer ch s.active_jobs _ (find_channel ch s) r w, omega arith)

notified-IsWithinCap :
    (s : DaemonState) → IsWithinCap s → IsWithinCap (record s { notified = true })
unfolding find_channel
notified-IsWithinCap s h = h

count_failure-IsWithinCap :
    (ch : ℕ) (s : DaemonState)
    → IsWithinCap s
    → IsWithinCap (count_failure ch (find_channel ch s) s)
unfolding write_batch
count_failure-IsWithinCap ch s h = elim (Option-cases (find_channel ch s)) [
  | inl e ↦ simp e h
  | inr (c, e) ↦ simp e (
      counted-IsWithinCap ch c (add_failure c) (upsert_channel_mutation ch (add_failure c) ∷ []) s e
        refl refl h)
]

finish_found-IsWithinCap :
    (failed : Bool) (o : Option JobRecord) (s : DaemonState)
    → IsWithinCap s
    → IsWithinCap (finish_found failed o s)
unfolding write_batch
finish_found-IsWithinCap failed none s h = notified-IsWithinCap s h
finish_found-IsWithinCap false (some job) s h = notified-IsWithinCap s h
finish_found-IsWithinCap true (some job) s h =
    notified-IsWithinCap _ (count_failure-IsWithinCap job.channel_index s h)

finish_job-IsWithinCap :
    (id : JobId) (failed : Bool) (s : DaemonState)
    → IsWithinCap s
    → IsWithinCap (finish_job id failed s)
unfolding finish_job
finish_job-IsWithinCap id failed s h =
    finish_found-IsWithinCap failed _ _ (dropped-IsWithinCap id s h)

module _ (sha256 : List ℕ → List ℕ) where
  -- One operation, on any arguments.
  pub data Step : DaemonState → DaemonState → Type 0 where
    begin :
        (workers ch : ℕ) (index : Index48) (peer : PeerFrontierConfig) (planned : ℕ)
        (s : DaemonState)
        → Step s (begin_precompute_jobstream sha256 workers ch index peer planned s).1
    begin_incoming :
        (workers : ℕ) (d : GrpcJobDescriptor) (index : Index48) (planned : ℕ) (s : DaemonState)
        → Step s (begin_incoming_precompute_target workers d index planned s).1
    store :
        (ch : ℕ) (id : JobId) (planned mask : ℕ) (wires : Wires) (s : DaemonState)
        → Step s (store_precomputed_target_wires_and_finish_job sha256 ch id planned mask wires s).1
    finish : (id : JobId) (failed : Bool) (s : DaemonState) → Step s (finish_job id failed s)
    fail :
        (ch planned : ℕ) (s : DaemonState)
        → Step s (record_failed_precompute_attempt ch planned s).1

  pub data Steps : DaemonState → DaemonState → Type 0 where
    none_more : (s : DaemonState) → Steps s s
    and_then : (s t u : DaemonState) → Step s t → Steps t u → Steps s u

  -- The job that a step stores is active, on the channel that it stores to and with the units that
  -- it counts there.
  abbrev pub StoresOwnJob : (s t : DaemonState) → Step s t → Type 0
  StoresOwnJob _ _ (begin workers ch index peer planned s) = Unit
  StoresOwnJob _ _ (begin_incoming workers d index planned s) = Unit
  StoresOwnJob _ _ (store ch id planned mask wires s) =
      (target : ℕ) × (get JobId-discrete id s.active_jobs
        ≡ some (record { channel_index = ch; target = target; planned_checked_units = planned }))
  StoresOwnJob _ _ (finish id failed s) = Unit
  StoresOwnJob _ _ (fail ch planned s) = Unit

  abbrev pub StoreOwnJobs : (s t : DaemonState) → Steps s t → Type 0
  StoreOwnJobs _ _ (none_more s) = Unit
  StoreOwnJobs _ _ (and_then s t u step steps) = StoresOwnJob s t step × StoreOwnJobs t u steps

  Step-IsWithinCap :
      (s t : DaemonState) (step : Step s t) → StoresOwnJob s t step → IsWithinCap s → IsWithinCap t
  Step-IsWithinCap _ _ (begin workers ch index peer planned s) own h =
      begin_precompute_jobstream-IsWithinCap sha256 workers ch index peer planned s h
  Step-IsWithinCap _ _ (begin_incoming workers d index planned s) own h =
      begin_incoming_precompute_target-IsWithinCap workers d index planned s h
  Step-IsWithinCap _ _ (store ch id planned mask wires s) (target, active) h =
      store_precomputed-IsWithinCap sha256 ch id planned mask target wires s active h
  Step-IsWithinCap _ _ (finish id failed s) own h = finish_job-IsWithinCap id failed s h
  Step-IsWithinCap _ _ (fail ch planned s) own h = record_failed-IsWithinCap ch planned s h

  -- The precompute operations, in any order and any number, keep every channel within its cap, where
  -- each job that is stored is active on the channel that it is stored to, with the units counted: if
  -- before them the units used and reserved on every channel do not exceed its cap and there is at
  -- most one active job on it, then so it is after them.
  pub Steps-IsWithinCap :
      (s t : DaemonState) (steps : Steps s t)
      → StoreOwnJobs s t steps
      → IsWithinCap s
      → IsWithinCap t
  Steps-IsWithinCap _ _ (none_more s) own h = h
  Steps-IsWithinCap _ _ (and_then s t u step steps) (own, owns) h =
      Steps-IsWithinCap t u steps owns (Step-IsWithinCap s t step own h)
