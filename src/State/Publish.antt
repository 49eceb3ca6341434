-- ===== src/State/Publish.antt =====
-- owner.go: `publish`, `publishDelta` and `snapshot`.
use sysc_notify.Base.{ℕ, ◌+◌, ◌%◌, ◌^◌, Bool, true, List, [], ◌∷◌, ◌++◌, Option, none, some, ◌>>=◌}
use sysc_notify.Base.Map.{get}
use sysc_notify.Protocol.Types.{Notification, Snapshot, Delta, DeltaKind, HistoryEntry, Lifetime}
use sysc_notify.History.Store
use sysc_notify.State.Types.{Event, Tracked, Env, OwnerState, clock_now}
use sysc_notify.State.Lifetimes.{lifetimes_of}

-- A delta with its kind alone.
abbrev pub delta_of : DeltaKind → Delta
delta_of kind = record {
  kind = kind;
  notification = none;
  lifetime = none;
  history = none;
  id = 0;
  ids = [];
  close_reason = 0;
}

-- `Event{}`.
abbrev pub zero_event : Event
zero_event = record {
  sequence = 0;
  delta = none;
  action = none;
  reply = none;
  snapshot = none;
  generation = 0;
}

abbrev pub closed_delta : ℕ → ℕ → Delta
closed_delta id reason = record (delta_of DeltaKind.closed) { id = id; close_reason = reason }

abbrev pub history_removed_delta : ℕ → Delta
history_removed_delta id = record (delta_of DeltaKind.history_removed) { id = id }

abbrev pub history_added_delta : HistoryEntry → Delta
history_added_delta entry = record (delta_of DeltaKind.history_added) { history = some entry }

abbrev pub record_delta : DeltaKind → Notification → Lifetime → Delta
record_delta kind n l = record (delta_of kind) { notification = some n; lifetime = some l }

unfoldable pub active_of : List ℕ → List (ℕ × Tracked) → Option (List Notification)
active_of [] records = some []
active_of (id ∷ ids) records = do
  r ← get id records
  rest ← active_of ids records
  some (r.notification ∷ rest)

abbrev pub history_of : Option Store.Store → List HistoryEntry
history_of none = []
history_of (some store) = Store.entries store

-- The sink's answer, and the events that it has been given; a nil sink takes everything and gets
-- nothing.
abbrev pub answer : Option (List Event → Event → Bool) → List Event → Event → Bool
answer none published event = true
answer (some accepts) published event = accepts published event

abbrev pub log_of : Option (List Event → Event → Bool) → List Event → Event → List Event
log_of none published event = published
log_of (some accepts) published event = published ++ event ∷ []

module _ (env : Env) where
  -- The answer of the sink, and the state after.
  unfoldable pub publish : Event → OwnerState → Bool × OwnerState
  publish event s = (
    answer env.sink s.published event,
    record s { published = log_of env.sink s.published event },
  )

  unfoldable pub publish_delta : Delta → OwnerState → OwnerState
  unfolding publish
  publish_delta delta s =
      let sequence = (s.sequence + 1) % 2 ^ 64 in
      (publish (record zero_event { sequence = sequence; delta = some delta })
        (record s { sequence = sequence })).1

  -- `none` is a nil dereference: an id of `order` with no record.
  unfoldable pub snapshot : OwnerState → Option (Snapshot × OwnerState)
  unfolding active_of lifetimes_of
  snapshot s = do
    let (now, s') = clock_now env s
    lifetimes ← lifetimes_of s.order s.records now
    active ← active_of s.order s.records
    some (
      record {
        sequence = s.sequence;
        active = active;
        lifetimes = lifetimes;
        history = history_of s.history;
      },
      s',
    )
