-- ===== src/Daemon/Precompute/Steps.antt =====
-- Each operation of the daemon keeps the channels within their caps.
use shachain2pc.Base.{
  ℕ, ◌≤◌, ◌≡◌, ◌≢◌, refl, sym, ◌∙◌, subst, inl, inr, Bool, true, false, ==_ne, ==_refl, List, some,
  Option-cases, arith, Result, ok, err, Result-cases,
}
use shachain2pc.Base.Map.{get, put, remove}
use shachain2pc.Types.Index.{Index48}
use shachain2pc.Daemon.Record.{
  ChannelRecord, JobId, JobId-discrete, JobRecord, precompute_job, target_job, Mutation, eventual,
  Wires,
}
use shachain2pc.Daemon.State.{
  DaemonState, DaemonError, find_channel, set_channel, sat_add, write_batch, write_and_wake,
}
use shachain2pc.Daemon.Batch.{
  find_channel-set_channel, find_channel-set_channel_ne, find_channel-write_batch,
  active_jobs-write_batch, find_channel-write_and_wake, active_jobs-write_and_wake,
}
use shachain2pc.Daemon.Frontier.{PeerFrontierConfig, insert_node, bound_wires}
use shachain2pc.Daemon.Precompute.{
  PrecomputeStart, begin_choice, if_enabled, run, any_job, reserved, start_job, add_attempt,
  admit_job, admit_incoming, and_return, used, begin_precompute_jobstream, GrpcJobDescriptor,
  begin_incoming_precompute_target, save_attempt, store_precomputed_target_wires_and_finish_job,
}
use shachain2pc.Daemon.Precompute.Budget.{
  share, count_one, channel_jobs, any_job-none, reserved-put, reserved-remove,
  reserved-remove_found, IsWithin, IsWithinCap, IsWithinCap-same, IsWithinCap-update,
}

-- A job that was admitted is within the cap.
started-IsWithinCap :
    (ch : ℕ) (id : JobId) (target planned : ℕ) (c : ChannelRecord) (ms : List Mutation)
    (s : DaemonState)
    → find_channel ch s ≡ some c
    → any_job ch s.active_jobs ≡ false
    → used ch s.active_jobs planned c ≤ c.delta_lifetime_checked_units_cap
    → IsWithinCap s
    → IsWithinCap (write_batch ms eventual (start_job ch id target planned c s)).1
unfolding start_job sat_add find_channel set_channel
started-IsWithinCap ch id target planned c ms s hc free room h =
    let job : JobRecord = record {
      channel_index = ch;
      target = target;
      planned_checked_units = planned;
    } in
    let s' = start_job ch id target planned c s in
    let jobs = active_jobs-write_batch ms eventual s' in
    let (none_reserved, none_active) = any_job-none ch s.active_jobs free in
    let (more, one) = reserved-put ch id job s.active_jobs in
    let held : share ch job ≡ planned = rw (==_refl ch) refl in
    let counted : count_one ch job ≡ 1 = rw (==_refl ch) refl in
    let within : IsWithin ch (put JobId-discrete id job s.active_jobs)
        (some (add_attempt planned c)) =
      omega arith in
    IsWithinCap-update ch (add_attempt planned c) s (write_batch ms eventual s').1
      (find_channel-write_batch ch ms eventual s' ∙ find_channel-set_channel ch _ s)
      (λ j n. find_channel-write_batch j ms eventual s' ∙ find_channel-set_channel_ne ch j _ s n)
      (subst (λ l. IsWithin ch l (some (add_attempt planned c))) (sym jobs) within)
      (subst (λ l. channel_jobs ch l ≤ 1) (sym jobs) (omega arith))
      (λ j n.
        subst
          (λ l.
            (reserved j l ≤ reserved j s.active_jobs)
            × (channel_jobs j l ≤ channel_jobs j s.active_jobs))
          (sym jobs) (others j n))
      h
  where
    others :
        (j : ℕ)
        → ch ≢ j
        → (reserved j (start_job ch id target planned c s).active_jobs ≤ reserved j s.active_jobs)
          × (channel_jobs j (start_job ch id target planned c s).active_jobs
              ≤ channel_jobs j s.active_jobs)
    others j n =
        let job : JobRecord = record {
          channel_index = ch;
          target = target;
          planned_checked_units = planned;
        } in
        let (more, one) = reserved-put j id job s.active_jobs in
        let held : share j job ≡ 0 = rw (==_ne ch j n) refl in
        let counted : count_one j job ≡ 0 = rw (==_ne ch j n) refl in (omega arith, omega arith)

find_channel-numbered :
    (n ch : ℕ) (s : DaemonState)
    → find_channel ch (record s { next_job_id = n }) ≡ find_channel ch s
unfolding find_channel
find_channel-numbered n ch s = refl

-- Operations return their batch's outcome with its state.
and_return-state :
    {A : Type 0} (a : A) (r : Result DaemonError (Unit {0}) × DaemonState)
    → (and_return a r).1 ≡ r.1
and_return-state a (ok _, s) = refl
and_return-state a (err e, s) = refl

saved-IsWithinCap :
    {A : Type 0} (ch : ℕ) (id : JobId) (target planned : ℕ) (c : ChannelRecord) (s : DaemonState)
    (a : A)
    → find_channel ch s ≡ some c
    → any_job ch s.active_jobs ≡ false
    → used ch s.active_jobs planned c ≤ c.delta_lifetime_checked_units_cap
    → IsWithinCap s
    → IsWithinCap (and_return a (save_attempt ch planned c (start_job ch id target planned c s))).1
saved-IsWithinCap ch id target planned c s a hc free room h =
    subst IsWithinCap (sym (and_return-state a _))
      (started-IsWithinCap ch id target planned c _ s hc free room h)

-- What the admission tests establish.
admit_job-room :
    (workers ch : ℕ) (peer : PeerFrontierConfig) (planned : ℕ) (jobs : List (JobId × JobRecord))
    (c : ChannelRecord) {u : Unit {0}}
    → admit_job workers ch peer planned jobs c ≡ ok u
    → (any_job ch jobs ≡ false) × (used ch jobs planned c ≤ c.delta_lifetime_checked_units_cap)
unfolding admit_job
admit_job-room workers ch peer planned jobs c e = (ground arith, ground arith)

admit_incoming-room :
    (workers : ℕ) (d : GrpcJobDescriptor) (planned : ℕ) (jobs : List (JobId × JobRecord))
    (c : ChannelRecord) {u : Unit {0}}
    → admit_incoming workers d planned jobs c ≡ ok u
    → (any_job d.channel_index jobs ≡ false)
      × (used d.channel_index jobs planned c ≤ c.delta_lifetime_checked_units_cap)
unfolding admit_incoming
admit_incoming-room workers d planned jobs c e = (ground arith, ground arith)

-- A job that ends, its units now counted as used.
finished-IsWithinCap :
    {A : Type 0} (ch : ℕ) (id : JobId) (planned target : ℕ) (c c' : ChannelRecord)
    (ms : List Mutation) (s : DaemonState) (a : A)
    → find_channel ch s ≡ some c
    → c'.estimated_checked_units ≡ sat_add c.estimated_checked_units planned
    → c'.delta_lifetime_checked_units_cap ≡ c.delta_lifetime_checked_units_cap
    → get JobId-discrete id s.active_jobs
      ≡ some (record { channel_index = ch; target = target; planned_checked_units = planned })
    → IsWithinCap s
    → IsWithinCap
        (and_return a (
          write_and_wake ms eventual (record (set_channel ch c' s) {
            active_jobs = remove JobId-discrete id s.active_jobs;
          }))).1
unfolding sat_add find_channel set_channel
finished-IsWithinCap ch id planned target c c' ms s a hc est cap active h =
    let s' : DaemonState = record (set_channel ch c' s) {
      active_jobs = remove JobId-discrete id s.active_jobs;
    } in
    let jobs = active_jobs-write_and_wake ms eventual s' in
    let back = reserved-remove_found ch id s.active_jobs active in
    let held : share ch
          (record { channel_index = ch; target = target; planned_checked_units = planned })
        ≡ planned =
      rw (==_refl ch) refl in
    let (r, n) = reserved-remove ch id s.active_jobs in
    let (w, one) = h ch in
    let before : IsWithin ch s.active_jobs (some c) = subst (IsWithin ch s.active_jobs) hc w in
    let within : IsWithin ch (remove JobId-discrete id s.active_jobs) (some c') = omega arith in
    subst IsWithinCap (sym (and_return-state a _)) (
      IsWithinCap-update ch c' s (write_and_wake ms eventual s').1
        (find_channel-write_and_wake ch ms eventual s' ∙ find_channel-set_channel ch _ s)
        (λ j n.
          find_channel-write_and_wake j ms eventual s' ∙ find_channel-set_channel_ne ch j _ s n)
        (subst (λ l. IsWithin ch l (some c')) (sym jobs) within)
        (subst (λ l. channel_jobs ch l ≤ 1) (sym jobs) (omega arith))
        (λ j n.
          subst
            (λ l.
              (reserved j l ≤ reserved j s.active_jobs)
              × (channel_jobs j l ≤ channel_jobs j s.active_jobs))
            (sym jobs) (reserved-remove j id s.active_jobs))
        h)

begin_choice-IsWithinCap :
    (enabled present : Bool) (s : DaemonState)
    (new : Result DaemonError PrecomputeStart × DaemonState)
    → IsWithinCap new.1
    → IsWithinCap s
    → IsWithinCap (begin_choice enabled present s new).1
begin_choice-IsWithinCap false present s new h k = k
begin_choice-IsWithinCap true true s new h k = k
begin_choice-IsWithinCap true false s new h k = h

if_enabled-IsWithinCap :
    (enabled : Bool) (s : DaemonState) (new : Result DaemonError ℕ × DaemonState)
    → IsWithinCap new.1
    → IsWithinCap s
    → IsWithinCap (if_enabled enabled s new).1
if_enabled-IsWithinCap false s new h k = k
if_enabled-IsWithinCap true s new h k = h

module _ (sha256 : List ℕ → List ℕ) where
  pub begin_precompute_jobstream-IsWithinCap :
      (workers ch : ℕ) (index : Index48) (peer : PeerFrontierConfig) (planned : ℕ) (s : DaemonState)
      → IsWithinCap s
      → IsWithinCap (begin_precompute_jobstream sha256 workers ch index peer planned s).1
  unfolding begin_precompute_jobstream
  begin_precompute_jobstream-IsWithinCap workers ch index peer planned s h =
      elim (Option-cases (find_channel ch s)) [
        | inl e ↦ subst IsWithinCap (rw e refl) h
        | inr (c, e) ↦ elim (Result-cases (admit_job workers ch peer planned s.active_jobs c)) [
          | inr (x, g) ↦ simp (e, g) (begin_choice-IsWithinCap _ _ s (err x, s) h h)
          | inl (u, g) ↦
              let (free, room) = admit_job-room workers ch peer planned s.active_jobs c g in
              let id = precompute_job ch (sat_add s.next_job_id 1) in
              let s' = record s { next_job_id = sat_add s.next_job_id 1 } in
              simp (e, g)
                (begin_choice-IsWithinCap _ _ s _
                  (saved-IsWithinCap ch id index.value planned c s' (run id planned)
                    (find_channel-numbered _ ch s ∙ e) free room
                    (IsWithinCap-same s s' (λ j. find_channel-numbered _ j s) refl h))
                  h)
        ]
      ]

  -- The job that ends gives its units to the ones used.
  pub store_precomputed-IsWithinCap :
      (ch : ℕ) (id : JobId) (planned mask target : ℕ) (wires : Wires) (s : DaemonState)
      → get JobId-discrete id s.active_jobs
        ≡ some (record { channel_index = ch; target = target; planned_checked_units = planned })
      → IsWithinCap s
      → IsWithinCap
          (store_precomputed_target_wires_and_finish_job sha256 ch id planned mask wires s).1
  unfolding store_precomputed_target_wires_and_finish_job
  store_precomputed-IsWithinCap ch id planned mask target wires s active h =
      elim (Option-cases (find_channel ch s)) [
        | inl e ↦ simp e h
        | inr (c, e) ↦ simp e (
            if_enabled-IsWithinCap c.enabled s _
              (finished-IsWithinCap ch id planned target c
                (record (insert_node sha256 mask (bound_wires sha256 s.role ch mask c wires) c) {
                  estimated_checked_units = sat_add c.estimated_checked_units planned;
                })
                _ s 1 e refl refl active h)
              h)
      ]

pub begin_incoming_precompute_target-IsWithinCap :
    (workers : ℕ) (d : GrpcJobDescriptor) (index : Index48) (planned : ℕ) (s : DaemonState)
    → IsWithinCap s
    → IsWithinCap (begin_incoming_precompute_target workers d index planned s).1
unfolding begin_incoming_precompute_target
begin_incoming_precompute_target-IsWithinCap workers d index planned s h =
    elim (Option-cases (find_channel d.channel_index s)) [
      | inl e ↦ subst IsWithinCap (simp e refl) h
      | inr (c, e) ↦ elim (Result-cases (admit_incoming workers d planned s.active_jobs c)) [
        | inr (x, g) ↦ subst IsWithinCap (simp (e, g) refl) h
        | inl (u, g) ↦
            let (free, room) = admit_incoming-room workers d planned s.active_jobs c g in
            let id = target_job d.job_id index.value in
            simp (e, g)
              (saved-IsWithinCap d.channel_index id index.value planned c s id e free room h)
      ]
    ]
