-- ===== src/Daemon/Batch.antt =====
-- The channels and the outcome after set_channel, write_batch and wake_scheduler.
use native.Mathlib.Decide.{ℕ_discrete}
use shachain2pc.Base.{
  ℕ, ◌≡◌, ◌≢◌, refl, inl, inr, if◌then◌else◌, Bool-cases, List, [], ◌∷◌, ◌++◌, some, ok, err,
}
use shachain2pc.Base.Map.{get-put_self, get-put_ne}
use shachain2pc.Daemon.Record.{ChannelRecord, Mutation, DbDurability}
use shachain2pc.Daemon.State.{
  DaemonState, find_channel, set_channel, write_and_wake, write_batch, writer_stopped,
  wake_scheduler,
}

pub find_channel-set_channel :
    (ch : ℕ) (c : ChannelRecord) (s : DaemonState) → find_channel ch (set_channel ch c s) ≡ some c
unfolding find_channel set_channel
find_channel-set_channel ch c s = get-put_self ℕ_discrete ch c s.channels

pub find_channel-write_and_wake :
    (j : ℕ) (ms : List Mutation) (d : DbDurability) (s : DaemonState)
    → find_channel j (write_and_wake ms d s).1 ≡ find_channel j s
unfolding find_channel write_and_wake write_batch wake_scheduler
find_channel-write_and_wake j [] d s = refl
find_channel-write_and_wake j (m ∷ ms) d s = elim (Bool-cases s.writer_open) [
  | inl e ↦ rw e refl
  | inr e ↦ rw e refl
]

-- The outcome of an operation is that of its batch.
pub write_and_wake_ok :
    (m : Mutation) (ms : List Mutation) (d : DbDurability) (s : DaemonState)
    → (write_and_wake (m ∷ ms) d s).0 ≡ (if s.writer_open then ok tt else err writer_stopped)
unfolding write_and_wake write_batch wake_scheduler
write_and_wake_ok m ms d s = elim (Bool-cases s.writer_open) [
  | inl e ↦ rw e refl
  | inr e ↦ rw e refl
]

pub write_and_wake-append :
    (xs : List Mutation) (m : Mutation) (ms : List Mutation) (d : DbDurability) (s : DaemonState)
    → (write_and_wake (xs ++ m ∷ ms) d s).0 ≡ (if s.writer_open then ok tt else err writer_stopped)
write_and_wake-append [] m ms d s = write_and_wake_ok m ms d s
write_and_wake-append (x ∷ xs) m ms d s = write_and_wake_ok x (xs ++ m ∷ ms) d s

pub find_channel-set_channel_ne :
    (ch j : ℕ) (c : ChannelRecord) (s : DaemonState)
    → ch ≢ j
    → find_channel j (set_channel ch c s) ≡ find_channel j s
unfolding find_channel set_channel
find_channel-set_channel_ne ch j c s n = get-put_ne ℕ_discrete ch j c s.channels n

pub find_channel-write_batch :
    (j : ℕ) (ms : List Mutation) (d : DbDurability) (s : DaemonState)
    → find_channel j (write_batch ms d s).1 ≡ find_channel j s
unfolding find_channel write_batch
find_channel-write_batch j [] d s = refl
find_channel-write_batch j (m ∷ ms) d s = elim (Bool-cases s.writer_open) [
  | inl e ↦ rw e refl
  | inr e ↦ rw e refl
]

-- Batches leave the jobs as they are.
pub active_jobs-write_batch :
    (ms : List Mutation) (d : DbDurability) (s : DaemonState)
    → (write_batch ms d s).1.active_jobs ≡ s.active_jobs
unfolding write_batch
active_jobs-write_batch [] d s = refl
active_jobs-write_batch (m ∷ ms) d s = elim (Bool-cases s.writer_open) [
  | inl e ↦ rw e refl
  | inr e ↦ rw e refl
]

pub active_jobs-write_and_wake :
    (ms : List Mutation) (d : DbDurability) (s : DaemonState)
    → (write_and_wake ms d s).1.active_jobs ≡ s.active_jobs
unfolding write_and_wake write_batch wake_scheduler
active_jobs-write_and_wake [] d s = refl
active_jobs-write_and_wake (m ∷ ms) d s = elim (Bool-cases s.writer_open) [
  | inl e ↦ rw e refl
  | inr e ↦ rw e refl
]
