-- ===== src/State/Invariant.antt =====
-- What holds of the owner's state between two steps.
pub mod Records
pub mod Shown
pub mod Closing
pub mod Room
pub mod Adding
pub mod Expiring
pub mod Ticking
pub mod Commands
pub mod Dispatch
pub mod Runs
use sysc_notify.Base.{
  ℕ, suc, ◌+◌, ◌-◌, ◌*◌, ◌^◌, ◌%◌, ◌≤◌, ◌<◌, ◌≡◌, Bool, true, false, List, [], ◌∷◌, Option, none,
  some, Text, length, Distinct,
}
use sysc_notify.Base.Map.{keys, Entries}
use sysc_notify.Protocol.Types.{Delta, Snapshot, max_active_notifications, millisecond}
use sysc_notify.Protocol.Validate
use sysc_notify.History.Store
use sysc_notify.History.Store.Keeps.{IsStore}
use sysc_notify.State.Types.{Event, Tracked, Env, OwnerState}

-- The longest duration: an int32 of milliseconds.
abbrev pub max_duration : ℕ
max_duration = (2 ^ 31 - 1) * millisecond

-- A record under its id, at the instant `t`: a running deadline is at most a full duration ahead, a
-- paused record has at most its duration left.
pub record IsEntry (t id : ℕ) (r : Tracked) : Type 0 where
  pub named : r.notification.id ≡ id
  pub valid : Validate.notification r.notification ≡ none
  pub bounded : r.duration ≤ max_duration
  pub timed : r.has_deadline ≡ true → 0 < r.duration
  pub running : r.has_deadline ≡ true → r.deadline ≤ t + r.duration
  pub paused : r.has_deadline ≡ false → r.remaining ≤ r.duration

pub record Sound (t : ℕ) (m : List (ℕ × Tracked)) : Type 0 where
  pub distinct : Distinct (keys m)
  pub few : length m ≤ max_active_notifications
  pub entries : Entries (IsEntry t) m

-- The store, and the instant of the next sweep: without a store there is none.
abbrev pub Stored : Option Store.Store → ℕ → Type 0
Stored none sweep = sweep ≡ 0
Stored (some store) sweep = IsStore store

-- The sequence number after an event.
abbrev pub sequence_after : ℕ → Event → ℕ
sequence_after n e = elim e.delta [ none ↦ n | some d ↦ (n + 1) % 2 ^ 64 ]

abbrev pub DeltaFits : ℕ → ℕ → Option Delta → Type 0
DeltaFits n sequence none = Unit {0}
DeltaFits n sequence (some d) = (sequence ≡ (n + 1) % 2 ^ 64) × (Validate.delta d ≡ none)

abbrev pub SnapshotFits : ℕ → ℕ → Option Snapshot → Type 0
SnapshotFits n sequence none = Unit {0}
SnapshotFits n sequence (some s) = (sequence ≡ n) × (s.sequence ≡ n) × (Validate.snapshot s ≡ none)

-- An event that continues a log which stands at the sequence number `n`.
abbrev pub Fits : ℕ → Event → Type 0
Fits n e = DeltaFits n e.sequence e.delta × SnapshotFits n e.sequence e.snapshot

-- A log that leads from one sequence number to another.
abbrev pub Follows : ℕ → List Event → ℕ → Type 0
Follows a [] b = a ≡ b
Follows a (e ∷ es) b = Fits a e × Follows (sequence_after a e) es b

-- A log is kept where there is a sink.
abbrev pub LoggedBy : Option (List Event → Event → Bool) → List Event → ℕ → Type 0
LoggedBy none published sequence = Unit {0}
LoggedBy (some accepts) published sequence = Follows 0 published sequence

-- The invariant, at the instant `t` of the current reading of the clock.
pub record Inv (env : Env) (t : ℕ) (s : OwnerState) : Type 0 where
  pub sound : Sound t s.records
  pub ordered : keys s.records ≡ s.order
  pub next_small : s.next_id < 2 ^ 32
  pub past : t ≤ env.now s.reads
  pub stored : Stored s.history s.next_history_sweep
  pub logged : LoggedBy env.sink s.published s.sequence

-- The clock does not go backwards. (The source reads a monotonic clock.)
abbrev pub Monotone : Env → Type 0
Monotone env = (k : ℕ) → env.now k ≤ env.now (suc k)
