-- ===== src/Tests.antt =====
-- One concrete daemon: a clock that gains a second with every reading, a sink that takes every event,
-- and a codec without pictures; two notifications, one of them urgent.
mod Parts
mod Wire
mod Serving
mod Calls
mod Images
use sysc_notify.Base.{
  Result, ok, err, ℕ, ◌+◌, ◌-◌, ◌*◌, ◌^◌, ◌≤◌, ◌<◌, ◌≡◌, refl, ◌⊎◌, inr, ◌↔◌, true, false, ◌||◌,
  List, [], ◌∷◌, ◌++◌, Option, none, some, codes, valid_utf8, pos, arith, All, length, take,
  contains, ◌==◌, Distinct,
}
use sysc_notify.Base.Map.{get}
use sysc_notify.Protocol.Types.{ProducerRequest, HistoryEntry, Snapshot, hovered, visible, second}
use sysc_notify.Protocol.Validate
use sysc_notify.Protocol.Validate.Ids.{Named, validate_ids_iff}
use sysc_notify.Protocol.Frame.{Writer, frame, FrameFault, read_frame, write_frame}
use sysc_notify.Protocol.Frame.Roundtrip.{write_frame-read_frame}
use sysc_notify.Notify.Model.{Candidate, next_id, resolve_loop, resolve_id}
use sysc_notify.Notify.Fresh.{Fresh, resolve_id-Fresh}
use sysc_notify.History.Image.{Codec}
use sysc_notify.History.Store
use sysc_notify.History.Store.Keeps.{IsStore, add-Kept, Kept}
use sysc_notify.History.Store.Seen.{Seen, mark_seen-IsStore}
use sysc_notify.History.Store.Accounts.{sweep-exact, remove-exact, insert-exact}
use sysc_notify.State.Types.{
  Error, Outcome, nothing, stale, CommandKind, Command, Tracked, Env, OwnerState, clock_now,
}
use sysc_notify.State.Lifetimes.{
  lifetimes_of, validate_candidate, notification_from_candidate, candidate_duration,
}
use sysc_notify.State.Active.{new_record, start}
use sysc_notify.State.Expiry.{set_presentation, is_due, handle_timer, reset_timer}
use sysc_notify.State.Producers.{publish_producer}
use sysc_notify.State.Commands.{is_gated, execute}
use sysc_notify.State.Publish
use sysc_notify.State.Run.{Request, run, run_from, step, initial}
use sysc_notify.State.Invariant.{IsEntry, Inv, Monotone}
use sysc_notify.State.Invariant.Records.{start-IsEntry}
use sysc_notify.State.Invariant.Adding.{Returns}
use sysc_notify.State.Invariant.Shown.{snapshot-valid}
use sysc_notify.State.Invariant.Runs.{run-Inv, step-Inv, execute-Returns, IsRequest, Steps}
use sysc_notify.State.Fencing.{run_from-stale}
use sysc_notify.State.Active.{victim, is_uncritical}
use sysc_notify.State.Eviction.{victim-is_uncritical}
use sysc_notify.State.Keyed.{publish_producer-same}
use sysc_notify.State.Timing.{set_presentation-hover, reset_timer-armed, handle_timer-due}

abbrev no_pictures : Codec
no_pictures = record {
  decode_png = λ bytes. none;
  encode_png = λ picture. none;
  sha256_hex = λ bytes. [];
  measure = λ entry. some 200;
  overhead = 28;
}

abbrev daemon : Env
daemon = record {
  now = λ k. (k + 1) * second;
  sink = some (λ published event. true);
  codec = no_pictures;
}

ticks : Monotone daemon
ticks k = omega arith

abbrev mail : Candidate
mail = record {
  app_name = codes "mail";
  app_icon = [];
  summary = codes "new message";
  body = [];
  replaces_id = 0;
  actions = [];
  urgency = 1;
  expire_timeout = pos 5000;
  transient = false;
  private = false;
  resident = false;
  desktop_entry = [];
  category = [];
  value = none;
  inline_reply = false;
  reply_placeholder = [];
  image = none;
  image_rejected = false;
  sender = record { name = []; pid = 0; lineage = [] };
}

abbrev command_of : CommandKind → ℕ → Command
command_of kind id = record {
  kind = kind;
  candidate = mail;
  prepared_history_image = none;
  producer = none;
  id = id;
  action_key = [];
  reply_text = [];
  generation = 0;
  next_generation = 0;
  ids = [];
  presentations = [];
}

abbrev empty_store : Store.Store
empty_store = record { entries = []; dirty = false; write_gen = 0; worker_gen = 0 }

empty_store-IsStore : IsStore empty_store
empty_store-IsStore = record {
  good = record { distinct = tt; entries = tt };
  bounded = omega arith;
}

abbrev a_day : List Request
a_day =
    Request.command (command_of CommandKind.add 0)
    ∷ Request.snapshot
    ∷ Request.tick
    ∷ Request.command (command_of CommandKind.dismiss 1)
    ∷ []

a_day-IsRequest : All IsRequest a_day
a_day-IsRequest = ((omega arith, tt), (tt, (tt, ((omega arith, tt), tt))))

run-Inv_example :
    (s : OwnerState) × (t : ℕ) × (run daemon (some empty_store) a_day ≡ some s) × Inv daemon t s
run-Inv_example = run-Inv daemon (some empty_store) a_day ticks empty_store-IsStore a_day-IsRequest

-- The state with one active notification, received at the second second.
abbrev tracked : Tracked
tracked = start (new_record 1 mail [] none (2 * second)) (2 * second)

abbrev one_active : OwnerState
one_active = record (initial daemon (some empty_store)) {
  reads = 2;
  records = (1, tracked) ∷ [];
  order = 1 ∷ [];
  next_id = 2;
}

mail_accepted : validate_candidate mail (2 * second) ≡ none
unfolding validate_candidate notification_from_candidate Validate.notification
    Validate.validate_text Validate.check_actions valid_utf8
mail_accepted = refl

tracked-IsEntry : IsEntry (2 * second) 1 tracked
tracked-IsEntry = start-IsEntry (2 * second) 1 mail [] none (λ e. cc) (omega arith) mail_accepted

one_active-Inv : Inv daemon (2 * second) one_active
unfolding initial
one_active-Inv = record {
  sound = record { distinct = (refl, tt); few = omega arith; entries = (tracked-IsEntry, tt) };
  ordered = refl;
  next_small = omega arith;
  past = omega arith;
  stored = empty_store-IsStore;
  logged = refl;
}

step-Inv_example : Steps daemon ticks (2 * second) (step daemon Request.tick one_active)
step-Inv_example = step-Inv daemon ticks (2 * second) Request.tick one_active tt one_active-Inv

snapshot-valid_example :
    (shot : Snapshot) × (Publish.snapshot daemon one_active
      ≡ some (shot, (clock_now daemon one_active).1))
    × (Validate.snapshot shot ≡ none)
    × (shot.sequence ≡ 0)
unfolding initial
snapshot-valid_example = snapshot-valid daemon (2 * second) one_active one_active-Inv

tracked-runs : tracked.has_deadline ≡ true
unfolding start new_record candidate_duration
tracked-runs = refl

handle_timer-due_example :
    (s' : OwnerState) × (handle_timer daemon one_active ≡ some s')
    × ((id : ℕ) → is_due (3 * second) (get id s'.records) ≡ false)
handle_timer-due_example = handle_timer-due daemon ticks (2 * second) one_active one_active-Inv

tracked-Started : 0 < tracked.deadline
unfolding start new_record candidate_duration
tracked-Started = omega arith

reset_timer-armed_example :
    (s' : OwnerState) × (d : ℕ) × (reset_timer daemon one_active ≡ some s')
    × (s'.timer ≡ some d)
    × (d ≤ tracked.deadline - 3 * second)
unfolding get
reset_timer-armed_example =
    reset_timer-armed daemon ticks (2 * second) one_active 1 tracked one_active-Inv
      ((λ e. tracked-Started), tt) refl tracked-runs

abbrev shown : Tracked
shown = record tracked { state = visible; displayed = true }

tracked-timed : 0 < shown.duration
unfolding start new_record candidate_duration
tracked-timed = omega arith

set_presentation-hover_example :
    let r' = set_presentation (set_presentation shown hovered (3 * second)) visible (9 * second) in
    (r'.has_deadline ≡ true)
    × (r'.deadline ≡ 9 * second + (shown.deadline - 3 * second))
    × (r'.state ≡ visible)
set_presentation-hover_example =
    set_presentation-hover shown (3 * second) (9 * second) refl tracked-runs tracked-timed

-- The presenter of generation 3 has been superseded by that of generation 5.
abbrev superseded : OwnerState
superseded = record one_active { accepted_generation = 5 }

abbrev late_dismiss : Command
late_dismiss = record (command_of CommandKind.dismiss 1) { generation = 3 }

snapshot_run :
    run_from daemon superseded (Request.snapshot ∷ []) ≡ some (record superseded { reads = 3 })
unfolding run_from step Publish.snapshot lifetimes_of Publish.active_of get initial
snapshot_run = refl

abbrev late_renewal : Command
late_renewal = record late_dismiss { kind = CommandKind.presentation_renew }

run_from-stale_example :
    ((is_gated CommandKind.presentation_renew ≡ true)
      × (execute daemon late_renewal (record superseded { reads = 3 })
          ≡ some (err stale, record superseded { reads = 3 })))
    ⊎ ((CommandKind.presentation_renew ≡ CommandKind.presentation_renew)
        × (e : Error) × (execute daemon late_renewal (record superseded { reads = 3 })
            ≡ some (err e, (clock_now daemon (record superseded { reads = 3 })).1)))
run_from-stale_example =
    run_from-stale daemon superseded (record superseded { reads = 3 }) (Request.snapshot ∷ [])
      late_renewal snapshot_run (inr refl) (λ e. cc) (omega arith)

late_dismiss_refused :
    execute daemon late_dismiss (record superseded { reads = 3 })
    ≡ some (err stale, record superseded { reads = 3 })
unfolding execute initial
late_dismiss_refused = refl

abbrev battery : ProducerRequest
battery = record {
  key = codes "battery";
  app_name = codes "power";
  summary = codes "low";
  body = [];
  urgency = 2;
  expire_timeout_ms = pos 0;
  value = some (pos 9);
}

abbrev state_of : Option (Result Error Outcome × OwnerState) → OwnerState
state_of none = one_active
state_of (some p) = p.1

-- The state after the battery is announced, and after it is announced again.
abbrev announced : OwnerState
announced = state_of (publish_producer daemon (some battery) (3 * second) one_active)

abbrev announced_again : OwnerState
announced_again = state_of (publish_producer daemon (some battery) (4 * second) announced)

publish_producer-announced :
    publish_producer daemon (some battery) (3 * second) one_active
    ≡ some (ok (record nothing { id = 2 }), announced)
unfolding publish_producer Validate.producer_request Validate.validate_text valid_utf8
    sysc_notify.State.Active.add_with_producer_key Validate.notification Validate.check_actions get
    sysc_notify.Base.Names.get initial resolve_id resolve_loop Store.ids
publish_producer-announced = refl

publish_producer-announced_again :
    publish_producer daemon (some battery) (4 * second) announced
    ≡ some (ok (record nothing { id = 2; replaced = true }), announced_again)
unfolding publish_producer Validate.producer_request Validate.validate_text valid_utf8
    sysc_notify.State.Active.add_with_producer_key Validate.notification Validate.check_actions get
    sysc_notify.Base.Names.get initial resolve_id resolve_loop Store.ids Publish.publish_delta
    sysc_notify.Base.Map.put sysc_notify.Base.Names.put
publish_producer-announced_again = refl

abbrev again : Outcome
again = record nothing { id = 2; replaced = true }

publish_producer-same_example :
    (again.id ≡ (record nothing { id = 2 }).id) × (again.replaced ≡ true)
publish_producer-same_example =
    publish_producer-same daemon battery battery (3 * second) (4 * second) one_active announced
      announced_again (record nothing { id = 2 }) again refl publish_producer-announced
      publish_producer-announced_again

tracked-is_uncritical : is_uncritical tracked ≡ true
unfolding start new_record notification_from_candidate candidate_duration
tracked-is_uncritical = refl

victim-is_uncritical_example :
    (v : ℕ) × (q : Tracked) × (victim one_active ≡ some v)
    × (get v one_active.records ≡ some q)
    × (is_uncritical q ≡ true)
unfolding get
victim-is_uncritical_example =
    victim-is_uncritical daemon (2 * second) one_active 1 tracked one_active-Inv refl
      tracked-is_uncritical
