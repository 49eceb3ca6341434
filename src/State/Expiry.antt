-- ===== src/State/Expiry.antt =====
-- internal/state/expiry.go: the presentation lease, pausing and resuming of deadlines, and the timer.
use sysc_notify.Base.{
  ℕ, ◌+◌, ◌-◌, Bool, true, false, not, ◌&&◌, ◌||◌, List, [], ◌∷◌, Option, none, some, ltb, leb,
  text_eq, ◌==◌, if◌then◌else◌, ◌>>=◌,
}
use sysc_notify.Base.Map.{get, put}
use sysc_notify.Protocol.Types
use sysc_notify.Protocol.Types.{
  Presentation, PresentationState, hovered, visible, queued, suppressed, close_expired,
}
use sysc_notify.Protocol.Validate
use sysc_notify.History.Store
use sysc_notify.State.Types.{
  Error, protocol, stale, zero_generation, Tracked, Env, OwnerState, clock_now, presentation_lease,
  history_sweep,
}
use sysc_notify.State.Close.{publish_removed, close}

abbrev pub same_state : PresentationState → PresentationState → Bool
same_state hovered hovered = true
same_state visible visible = true
same_state queued queued = true
same_state suppressed suppressed = true
same_state (PresentationState.unknown t) (PresentationState.unknown u) = text_eq t u
same_state _ _ = false

-- Stops the clock of a record: `remaining = max(0, deadline.Sub(now))`.
unfoldable pub pause : Tracked → ℕ → Tracked
pause r now =
    if r.has_deadline then record r { remaining = r.deadline - now; has_deadline = false } else r

unfoldable pub resume : Tracked → ℕ → Tracked
resume r now = record r { deadline = now + r.remaining; has_deadline = true }

-- The switch at the end of `setPresentation`, for a record that has a duration and its new state.
unfoldable pub enter : PresentationState → PresentationState → Tracked → ℕ → Tracked
unfolding resume
enter previous queued r now = if r.displayed then r else record r { remaining = r.duration }
enter previous hovered r now = record r { displayed = true }
enter previous visible r now =
    if r.displayed
    then resume r now
    else if same_state previous queued
    then resume (record r { displayed = true; remaining = r.duration }) now
    else resume (record r { displayed = true }) now
enter previous suppressed r now = resume r now
enter previous (PresentationState.unknown t) r now = r

unfoldable pub set_presentation : Tracked → PresentationState → ℕ → Tracked
unfolding pause enter
set_presentation r next now =
    if same_state r.state next
    then r
    else let r' = record (pause r now) { state = next } in
      if r.duration == 0 then r' else enter r.state next r' now

abbrev pub mentions : ℕ → List Presentation → Bool
mentions id [] = false
mentions id (p ∷ ps) = p.id == id || mentions id ps

-- The state that the presenter reports for an id, the last report of it counting; suppressed if none.
unfoldable pub reported : ℕ → List Presentation → PresentationState
reported id [] = suppressed
reported id (p ∷ ps) =
    let later = reported id ps in
    if mentions id ps then later else if p.id == id then p.state else suppressed

-- Runs over the ids of `order` and moves each record to the state that is given for its id. A
-- missing record is a nil dereference.
unfoldable pub present_all :
    (ℕ → PresentationState) → ℕ → List ℕ → List (ℕ × Tracked) → Option (List (ℕ × Tracked))
unfolding set_presentation
present_all next now [] records = some records
present_all next now (id ∷ ids) records = do
  r ← get id records
  present_all next now ids (put id (set_presentation r (next id) now) records)

unfoldable pub clear_presentation : ℕ → OwnerState → Option OwnerState
unfolding present_all
clear_presentation now s = do
  records ← present_all (λ _. suppressed) now s.order s.records
  some (record s { records = records; presenter_generation = 0; lease_deadline = 0 })

abbrev renewal : List Presentation → Types.Command
renewal presentations = record {
  kind = Types.CommandKind.presentation_renew;
  id = 0;
  ids = [];
  action_key = [];
  text = [];
  presentations = presentations;
  producer = none;
}

-- The tests of `renew` before it changes anything.
unfoldable pub renew_refusal : ℕ → List Presentation → OwnerState → Option Error
renew_refusal generation presentations s =
    if generation == 0
    then some zero_generation
    else elim (Validate.command (renewal presentations)) [
      | some fault ↦ some (protocol fault)
      | none ↦
          if not (s.accepted_generation == 0) && ltb generation s.accepted_generation
          then some stale
          else if s.presenter_retired && generation == s.accepted_generation
          then some stale
          else none
    ]

-- Another presenter's view is dropped before the new one takes over.
unfoldable pub hand_over : ℕ → ℕ → OwnerState → Option OwnerState
unfolding clear_presentation
hand_over generation now s =
    if not (s.presenter_generation == 0) && not (generation == s.presenter_generation)
    then clear_presentation now s
    else some s

unfoldable pub install : ℕ → List Presentation → ℕ → OwnerState → Option OwnerState
unfolding hand_over reported
install generation presentations now s = do
  s' ← hand_over generation now s
  records ← present_all (λ id. reported id presentations) now s'.order s'.records
  some (record s' {
    records = records;
    accepted_generation = generation;
    presenter_retired = false;
    presenter_generation = generation;
    lease_deadline = now + presentation_lease;
  })

unfoldable pub renew : ℕ → List Presentation → ℕ → OwnerState → Option (Option Error × OwnerState)
unfolding renew_refusal install
renew generation presentations now s = elim (renew_refusal generation presentations s) [
  | some e ↦ some (some e, s)
  | none ↦ do s' ← install generation presentations now s; some (none, s')
]

abbrev pub is_due : ℕ → Option Tracked → Bool
is_due now none = false
is_due now (some r) = r.has_deadline && leb r.deadline now

-- The earlier of two instants, 0 being none.
abbrev pub earlier : ℕ → ℕ → ℕ
earlier next at = if next == 0 || ltb at next then at else next

abbrev pub first_deadline : OwnerState → ℕ
first_deadline s =
    if s.lease_deadline == 0
    then s.next_history_sweep
    else earlier s.next_history_sweep s.lease_deadline

unfoldable pub next_deadline : ℕ → List ℕ → List (ℕ × Tracked) → Option ℕ
next_deadline next [] records = some next
next_deadline next (id ∷ ids) records = do
  r ← get id records
  next_deadline (if r.has_deadline then earlier next r.deadline else next) ids records

module _ (env : Env) where
  unfoldable pub sweep_store : ℕ → Option Store.Store → OwnerState → Option OwnerState
  sweep_store now none s = none
  sweep_store now (some store) s =
      let (removed, store') = Store.sweep now store in
      let s' = publish_removed env removed (record s { history = some store' }) in
      some (record s' { next_history_sweep = now + history_sweep })

  unfoldable pub sweep_due : ℕ → OwnerState → Option OwnerState
  unfolding sweep_store
  sweep_due now s =
      if not (s.next_history_sweep == 0) && leb s.next_history_sweep now
      then sweep_store now s.history s
      else some s

  unfoldable pub lease_due : ℕ → OwnerState → Option OwnerState
  unfolding clear_presentation
  lease_due now s =
      if not (s.lease_deadline == 0) && leb s.lease_deadline now
      then clear_presentation s.lease_deadline s
      else some s

  unfoldable pub close_due : ℕ → List ℕ → OwnerState → OwnerState
  close_due now [] s = s
  close_due now (id ∷ ids) s =
      close_due now ids
        (if is_due now (get id s.records) then (close env id close_expired s).1 else s)

  unfoldable pub handle_timer : OwnerState → Option OwnerState
  unfolding sweep_due lease_due close_due
  handle_timer s = do
    let (now, s1) = clock_now env s
    s2 ← sweep_due now s1
    s3 ← lease_due now s2
    some (close_due now s3.order s3)

  unfoldable pub reset_timer : OwnerState → Option OwnerState
  unfolding next_deadline
  reset_timer s = do
    next ← next_deadline (first_deadline s) s.order s.records
    let (now, s') = clock_now env s
    some (if next == 0 then record s { timer = none } else record s' { timer = some (next - now) })
