-- ===== src/State/Active.antt =====
-- owner.go: what adds and replaces active notifications: `evictCapacityVictim`, `burstDuplicate`,
-- `takenIDs`, `addWithProducerKey` and `add`.
use sysc_notify.Base.{
  ℕ, ◌+◌, ◌-◌, Bool, true, false, not, ◌&&◌, List, [], ◌∷◌, ◌++◌, Option, none, some, Text, text_eq,
  is_empty, length, ltb, leb, ◌==◌, if◌then◌else◌, Result, ok, err, ◌>>=◌,
}
use sysc_notify.Base.Map.{get, put, keys}
use sysc_notify.Protocol.Types.{
  DeltaKind, PresentationState, max_active_notifications, urgency_critical, close_undefined,
}
use sysc_notify.Notify.Model.{Candidate, resolve_id}
use sysc_notify.History.Image.{PreparedImage}
use sysc_notify.History.Store
use sysc_notify.State.Types.{
  Error, Outcome, nothing, Tracked, Env, OwnerState, notification_burst_window,
}
use sysc_notify.State.Lifetimes.{
  lifetime, notification_from_candidate, validate_candidate, candidate_duration,
}
use sysc_notify.State.Publish.{publish_delta, record_delta}
use sysc_notify.State.Close.{release_producer, close}

-- The first id of `order` whose record matches, or 0. A missing record is a nil dereference.
unfoldable pub choose : (Tracked → Bool) → List ℕ → List (ℕ × Tracked) → Option ℕ
choose match [] records = some 0
choose match (id ∷ ids) records = do
  r ← get id records
  let rest = choose match ids records
  if match r then some id else rest

abbrev pub expires_uncritical : Tracked → Bool
expires_uncritical r = not (r.notification.urgency == urgency_critical) && ltb 0 r.duration

abbrev pub is_uncritical : Tracked → Bool
is_uncritical r = not (r.notification.urgency == urgency_critical)

abbrev pub first_or_zero : List ℕ → ℕ
first_or_zero [] = 0
first_or_zero (id ∷ _) = id

unfoldable pub victim : OwnerState → Option ℕ
unfolding choose
victim s = do
  expiring ← choose expires_uncritical s.order s.records
  let other = choose is_uncritical s.order s.records
  uncritical ← (if expiring == 0 then other else some expiring)
  some (if uncritical == 0 then first_or_zero s.order else uncritical)

unfoldable pub same_burst_key : Candidate → Candidate → Bool
same_burst_key a b =
    text_eq a.app_name b.app_name
    && text_eq a.summary b.summary
    && text_eq a.body b.body
    && (a.urgency == b.urgency)

-- Whether a record is a duplicate of the candidate that was received within the burst window.
unfoldable pub in_burst : Candidate → ℕ → Tracked → Bool
unfolding same_burst_key
in_burst c now r =
    is_empty r.producer_key
    && same_burst_key r.candidate c
    && leb r.last_received now
    && leb (now - r.last_received) notification_burst_window

-- The later of the match found so far and a record: `existing.lastReceived.After(duplicate...)`.
abbrev newer : Option Tracked → Tracked → Option Tracked
newer none r = some r
newer (some best) r = if ltb best.last_received r.last_received then some r else some best

-- The loop of `burstDuplicate` runs from the end of `order`, so the ids that follow come first.
unfoldable pub burst_match : Candidate → ℕ → List ℕ → List (ℕ × Tracked) → Option Tracked
unfolding in_burst
burst_match c now [] records = none
burst_match c now (id ∷ ids) records =
    let later = burst_match c now ids records in
    elim (get id records) [
      | none ↦ later
      | some r ↦ if in_burst c now r then newer later r else later
    ]

unfoldable pub burst_duplicate : Candidate → ℕ → OwnerState → ℕ
unfolding burst_match
burst_duplicate c now s = elim (burst_match c now s.order s.records) [
  | none ↦ 0
  | some r ↦ r.notification.id
]

unfoldable pub history_ids : Option Store.Store → List ℕ
history_ids none = []
history_ids (some store) = Store.ids store

unfoldable pub taken_ids : OwnerState → List ℕ
unfolding history_ids
taken_ids s = keys s.records ++ history_ids s.history

-- The record of a new notification before its deadline is set.
unfoldable pub new_record : ℕ → Candidate → Text → Option PreparedImage → ℕ → Tracked
unfolding notification_from_candidate candidate_duration
new_record id c key prepared now = record {
  notification = notification_from_candidate id c now;
  candidate = c;
  history_image = prepared;
  producer_key = key;
  duration = candidate_duration c;
  state = PresentationState.suppressed;
  displayed = false;
  remaining = candidate_duration c;
  deadline = 0;
  has_deadline = false;
  last_received = now;
}

-- The deadline of a record with a duration.
unfoldable pub start : Tracked → ℕ → Tracked
start r now =
    if ltb 0 r.duration then record r { deadline = now + r.duration; has_deadline = true } else r

-- A queued or hovered presentation stays paused.
abbrev pub is_paused : PresentationState → Bool
is_paused PresentationState.queued = true
is_paused PresentationState.hovered = true
is_paused _ = false

unfoldable pub replacement : Tracked → Tracked → ℕ → Tracked
unfolding start
replacement r existing now =
    let r' = record r { state = existing.state; displayed = existing.displayed } in
    if is_paused existing.state then r' else start r' now

module _ (env : Env) where
  unfoldable pub evict_capacity_victim : OwnerState → Option OwnerState
  unfolding victim
  evict_capacity_victim s = do
    id ← victim s
    some (if id == 0 then s else (close env id close_undefined s).1)

  unfoldable pub make_room : OwnerState → Option OwnerState
  unfolding evict_capacity_victim
  make_room s =
      if length s.records == max_active_notifications then evict_capacity_victim s else some s

  unfoldable pub insert_record : ℕ → Tracked → ℕ → OwnerState → OwnerState
  insert_record id r now s =
      publish_delta env (record_delta DeltaKind.added r.notification (lifetime r now))
        (record s { records = put id r s.records; order = s.order ++ id ∷ [] })

  -- `none` besides a nil dereference: the search for an id does not end.
  unfoldable pub add_new :
      Candidate
      → Text
      → Option PreparedImage
      → ℕ
      → OwnerState
      → Option (Result Error Outcome × OwnerState)
  unfolding make_room insert_record new_record start taken_ids
  add_new c key prepared now s = do
    s' ← make_room s
    (id, next) ← resolve_id 0 s'.next_id (taken_ids s')
    some (
      ok (record nothing { id = id }),
      insert_record id (start (new_record id c key prepared now) now) now
          (record s' { next_id = next }),
    )

  unfoldable pub replace_record : ℕ → Tracked → ℕ → OwnerState → OwnerState
  replace_record id r now s =
      publish_delta env (record_delta DeltaKind.replaced r.notification (lifetime r now))
        (record s { records = put id r s.records })

  unfoldable pub release_other : Tracked → Text → ℕ → OwnerState → OwnerState
  release_other existing key id s =
      if text_eq existing.producer_key key
      then s
      else record s { producer_ids = release_producer existing.producer_key id s.producer_ids }

  unfoldable pub add_over :
      Tracked
      → ℕ
      → Candidate
      → Text
      → Option PreparedImage
      → ℕ
      → OwnerState
      → Result Error Outcome × OwnerState
  unfolding replace_record release_other replacement new_record
  add_over existing id c key prepared now s = (
    ok (record nothing { id = id; replaced = true }),
    replace_record id (replacement (new_record id c key prepared now) existing now) now
        (release_other existing key id s),
  )

  unfoldable pub add_with_producer_key :
      Candidate
      → Text
      → Option PreparedImage
      → ℕ
      → OwnerState
      → Option (Result Error Outcome × OwnerState)
  unfolding add_new add_over validate_candidate
  add_with_producer_key c key prepared now s = elim (validate_candidate c now) [
    | some e ↦ some (err e, s)
    | none ↦ elim (get c.replaces_id s.records) [
      | none ↦ add_new c key prepared now s
      | some existing ↦ some (add_over existing c.replaces_id c key prepared now s)
    ]
  ]

  unfoldable pub add :
      Candidate → Option PreparedImage → ℕ → OwnerState → Option (Result Error Outcome × OwnerState)
  unfolding add_with_producer_key burst_duplicate
  add c prepared now s =
      let id = if c.replaces_id == 0 then burst_duplicate c now s else c.replaces_id in
      add_with_producer_key (record c { replaces_id = id }) [] prepared now s
