-- ===== src/Daemon/Precompute/Budget.antt =====
-- The reservations of active jobs, and the units that a channel may use.
use mathlib.Core.Logic.{ite}
use native.Mathlib.Decide.{ℕ_discrete}
use shachain2pc.Base.{
  ℕ, ◌+◌, ◌≤◌, ◌≡◌, ◌≢◌, refl, sym, subst, inl, inr, false, ◌==◌, if◌then◌else◌, List, [], ◌∷◌,
  Option, none, some, Bool-cases, arith,
}
use shachain2pc.Base.Map.{get, put, remove}
use shachain2pc.Daemon.Record.{ChannelRecord, JobId, JobId-discrete, JobRecord}
use shachain2pc.Daemon.State.{DaemonState, find_channel, sat_add}
use shachain2pc.Daemon.Precompute.{any_job, reserved}

-- The units that a job holds of a channel.
abbrev pub share : ℕ → JobRecord → ℕ
share ch job = if job.channel_index == ch then job.planned_checked_units else 0

abbrev pub count_one : ℕ → JobRecord → ℕ
count_one ch job = if job.channel_index == ch then 1 else 0

-- The number of active jobs of a channel.
unfoldable pub channel_jobs : ℕ → List (JobId × JobRecord) → ℕ
channel_jobs ch [] = 0
channel_jobs ch ((id, job) ∷ jobs) = count_one ch job + channel_jobs ch jobs

pub any_job-none :
    (ch : ℕ) (jobs : List (JobId × JobRecord))
    → any_job ch jobs ≡ false
    → (reserved ch jobs ≡ 0) × (channel_jobs ch jobs ≡ 0)
unfolding any_job reserved channel_jobs
any_job-none ch [] e = (refl, refl)
any_job-none ch ((id, job) ∷ jobs) e = elim (Bool-cases (job.channel_index == ch)) [
  | inl b ↦ absurd (ground arith)
  | inr b ↦ let (r, n) = any_job-none ch jobs (ground arith) in (ground arith, ground arith)
]

pub reserved-put :
    (ch : ℕ) (id : JobId) (job : JobRecord) (jobs : List (JobId × JobRecord))
    → (reserved ch (put JobId-discrete id job jobs) ≤ share ch job + reserved ch jobs)
      × (channel_jobs ch (put JobId-discrete id job jobs) ≤ count_one ch job + channel_jobs ch jobs)
unfolding put reserved channel_jobs
reserved-put ch id job [] = (omega arith, omega arith)
reserved-put ch id job ((i, other) ∷ jobs) =
    let (r, n) = reserved-put ch id job jobs in
    elim (JobId-discrete i id)
      as (λ d.
        (reserved ch (ite d ((id, job) ∷ jobs) ((i, other) ∷ put JobId-discrete id job jobs))
          ≤ share ch job + reserved ch ((i, other) ∷ jobs))
        × (channel_jobs ch (ite d ((id, job) ∷ jobs) ((i, other) ∷ put JobId-discrete id job jobs))
            ≤ count_one ch job + channel_jobs ch ((i, other) ∷ jobs))) [
              | yes e ↦ (omega arith, omega arith)
              | no e ↦ (omega arith, omega arith)
            ]

pub reserved-remove :
    (ch : ℕ) (id : JobId) (jobs : List (JobId × JobRecord))
    → (reserved ch (remove JobId-discrete id jobs) ≤ reserved ch jobs)
      × (channel_jobs ch (remove JobId-discrete id jobs) ≤ channel_jobs ch jobs)
unfolding remove reserved channel_jobs
reserved-remove ch id [] = (omega arith, omega arith)
reserved-remove ch id ((i, other) ∷ jobs) =
    let (r, n) = reserved-remove ch id jobs in
    elim (JobId-discrete i id)
      as (λ d.
        (reserved ch
            (ite d (remove JobId-discrete id jobs) ((i, other) ∷ remove JobId-discrete id jobs))
          ≤ reserved ch ((i, other) ∷ jobs))
        × (channel_jobs ch
              (ite d (remove JobId-discrete id jobs) ((i, other) ∷ remove JobId-discrete id jobs))
            ≤ channel_jobs ch ((i, other) ∷ jobs))) [
              | yes e ↦ (omega arith, omega arith)
              | no e ↦ (omega arith, omega arith)
            ]

-- A job that ends gives back what it holds.
pub reserved-remove_found :
    (ch : ℕ) (id : JobId) (jobs : List (JobId × JobRecord)) {job : JobRecord}
    → get JobId-discrete id jobs ≡ some job
    → share ch job + reserved ch (remove JobId-discrete id jobs) ≤ reserved ch jobs
unfolding get remove reserved
reserved-remove_found ch id [] e = absurd (ground arith)
reserved-remove_found ch id ((i, other) ∷ jobs) {job} e =
    let (r, n) = reserved-remove ch id jobs in
    let rest = remove JobId-discrete id jobs in
    (elim (JobId-discrete i id)
        as (λ d.
          ite d (some other) (get JobId-discrete id jobs) ≡ some job
          → share ch job + reserved ch (ite d rest ((i, other) ∷ rest))
            ≤ share ch other + reserved ch jobs) [
              | yes same ↦ λ found.
                  let eq : job ≡ other = ground arith in
                  subst (λ o. share ch job + reserved ch rest ≤ share ch o + reserved ch jobs) eq
                    (omega arith)
              | no differ ↦ λ found.
                  let later = reserved-remove_found ch id jobs {job = job} found in omega arith
            ])
      e

-- `IsWithin` of a channel: what is used and what is reserved does not exceed the cap.
abbrev pub IsWithin : ℕ → List (JobId × JobRecord) → Option ChannelRecord → Type 0
IsWithin ch jobs none = Unit
IsWithin ch jobs (some c) =
    sat_add c.estimated_checked_units (reserved ch jobs) ≤ c.delta_lifetime_checked_units_cap

-- On every channel the units used and the units reserved by active jobs do not exceed its cap, and
-- there is at most one active job.
abbrev pub IsWithinCap : DaemonState → Type 0
IsWithinCap s =
    (ch : ℕ) → IsWithin ch s.active_jobs (find_channel ch s) × (channel_jobs ch s.active_jobs ≤ 1)

pub IsWithin-fewer :
    (ch : ℕ) (jobs jobs' : List (JobId × JobRecord)) (o : Option ChannelRecord)
    → reserved ch jobs' ≤ reserved ch jobs
    → IsWithin ch jobs o
    → IsWithin ch jobs' o
unfolding sat_add
IsWithin-fewer ch jobs jobs' none h w = tt
IsWithin-fewer ch jobs jobs' (some c) h w = omega arith

-- A step that keeps the channels and the jobs.
pub IsWithinCap-same :
    (s t : DaemonState)
    → ((ch : ℕ) → find_channel ch t ≡ find_channel ch s)
    → t.active_jobs ≡ s.active_jobs
    → IsWithinCap s
    → IsWithinCap t
IsWithinCap-same s t same jobs h ch =
    subst (λ l. IsWithin ch l (find_channel ch t) × (channel_jobs ch l ≤ 1)) (sym jobs)
      (subst (λ o. IsWithin ch s.active_jobs o × (channel_jobs ch s.active_jobs ≤ 1))
        (sym (same ch)) (h ch))

-- A step that changes one channel, and reserves nothing on the others.
pub IsWithinCap-update :
    (ch : ℕ) (c : ChannelRecord) (s t : DaemonState)
    → find_channel ch t ≡ some c
    → ((j : ℕ) → ch ≢ j → find_channel j t ≡ find_channel j s)
    → IsWithin ch t.active_jobs (some c)
    → channel_jobs ch t.active_jobs ≤ 1
    → ((j : ℕ)
        → ch ≢ j
        → (reserved j t.active_jobs ≤ reserved j s.active_jobs)
          × (channel_jobs j t.active_jobs ≤ channel_jobs j s.active_jobs))
    → IsWithinCap s
    → IsWithinCap t
unfolding sat_add
IsWithinCap-update ch c s t here others within one fewer h j = elim (ℕ_discrete ch j) [
  | yes e ↦
      subst (λ k. IsWithin k t.active_jobs (find_channel k t) × (channel_jobs k t.active_jobs ≤ 1))
        e (subst (IsWithin ch t.active_jobs) (sym here) within, one)
  | no n ↦
      let (r, k) = fewer j n in
      let (w, o) = h j in
      (
        subst (IsWithin j t.active_jobs) (sym (others j n))
            (IsWithin-fewer j s.active_jobs t.active_jobs (find_channel j s) r w),
        omega arith,
      )
]
