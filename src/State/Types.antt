-- ===== src/State/Types.antt =====
-- internal/state/owner.go: commands, events and the state of the owner goroutine. An instant is its
-- nanoseconds since Go's zero time, 0 being `time.Time{}`; a duration is in nanoseconds.
use sysc_notify.Base.{ℕ, suc, ◌*◌, Bool, List, [], Option, Text}
use sysc_notify.Protocol.Types.{
  Notification, Lifetime, Snapshot, Delta, Presentation, PresentationState, ProducerRequest, second,
}
use sysc_notify.Protocol.Validate.{Fault}
use sysc_notify.Notify.Model.{Candidate}
use sysc_notify.History.Image.{Codec, PreparedImage}
use sysc_notify.History.Store.{Store}

abbrev pub default_timeout : ℕ
default_timeout = 5 * second

abbrev pub presentation_lease : ℕ
presentation_lease = 6 * second

abbrev pub history_sweep : ℕ
history_sweep = 60 * second

abbrev pub notification_burst_window : ℕ
notification_burst_window = 5 * second

pub data Error : Type 0 where
  not_found stale : Error
  protocol : Fault → Error
  invalid_expiry missing_producer unknown_action no_inline_reply history_unavailable : Error
  history_failed unpublished_resync unknown_command zero_generation : Error
  joined : Error → Error → Error

pub record ActionEvent : Type 0 where
  pub id : ℕ
  pub key : Text

pub record ReplyEvent : Type 0 where
  pub id : ℕ
  pub text : Text

pub record Event : Type 0 where
  pub sequence : ℕ
  pub delta : Option Delta
  pub action : Option ActionEvent
  pub reply : Option ReplyEvent
  pub snapshot : Option Snapshot
  pub generation : ℕ

pub data CommandKind : Type 0 where
  add close_requested dismiss invoke_action submit_reply presentation_renew : CommandKind
  presenter_lost dismiss_all history_clear history_remove history_mark_seen : CommandKind
  producer_publish producer_close presenter_resync : CommandKind
  unknown : ℕ → CommandKind

pub record Command : Type 0 where
  pub kind : CommandKind
  pub candidate : Candidate
  pub prepared_history_image : Option PreparedImage
  pub producer : Option ProducerRequest
  pub id : ℕ
  pub action_key : Text
  pub reply_text : Text
  pub generation : ℕ
  pub next_generation : ℕ
  pub ids : List ℕ
  pub presentations : List Presentation

-- `Result` of the source.
pub record Outcome : Type 0 where
  pub id : ℕ
  pub replaced : Bool
  pub lifetimes : List Lifetime

-- The struct `record` of the source.
pub record Tracked : Type 0 where
  pub notification : Notification
  pub candidate : Candidate
  pub history_image : Option PreparedImage
  pub producer_key : Text
  pub duration : ℕ
  pub state : PresentationState
  pub displayed : Bool
  pub remaining : ℕ
  pub deadline : ℕ
  pub has_deadline : Bool
  pub last_received : ℕ

-- The interfaces of the owner. `now k` is the k-th reading of the clock. `sink` is absent or says
-- what `Publish` answers for an event, given the events published before it.
pub record Env : Type 0 where
  pub now : ℕ → ℕ
  pub sink : Option (List Event → Event → Bool)
  pub codec : Codec

-- `reads` counts the readings of the clock and `published` lists the sink's events, the oldest
-- first. `timer` is the duration of the timer that is armed.
pub record OwnerState : Type 0 where
  pub reads : ℕ
  pub published : List Event
  pub history : Option Store
  pub records : List (ℕ × Tracked)
  pub producer_ids : List (Text × ℕ)
  pub order : List ℕ
  pub next_id : ℕ
  pub sequence : ℕ
  pub presenter_generation : ℕ
  pub accepted_generation : ℕ
  pub presenter_retired : Bool
  pub lease_deadline : ℕ
  pub timer : Option ℕ
  pub next_history_sweep : ℕ

abbrev pub nothing : Outcome
nothing = record { id = 0; replaced = Bool.false; lifetimes = [] }

module _ (env : Env) where
  -- `s.clock.Now()`: the reading, and the state after it.
  abbrev pub clock_now : OwnerState → ℕ × OwnerState
  clock_now s = (env.now s.reads, record s { reads = suc s.reads })
