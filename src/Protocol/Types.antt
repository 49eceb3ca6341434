-- ===== src/Protocol/Types.antt =====
-- protocol/types.go: the limits, the messages of the presenter socket and the records they carry.
-- Strings are byte sequences, an instant is its nanoseconds since Go's zero time, and a string type
-- with named constants is a data type with one more constructor for any other string.
use sysc_notify.Base.{ℕ, ◌*◌, ◌^◌, Bool, List, Option, Text, ℤ}

abbrev pub protocol_major : ℕ
protocol_major = 1

abbrev pub protocol_minor : ℕ
protocol_minor = 2

abbrev pub max_active_notifications : ℕ
max_active_notifications = 128

abbrev pub max_body_bytes : ℕ
max_body_bytes = 16 * 2 ^ 10

abbrev pub max_action_pairs : ℕ
max_action_pairs = 6

abbrev pub max_wire_image_long_edge : ℕ
max_wire_image_long_edge = 512

abbrev pub max_wire_image_bytes : ℕ
max_wire_image_bytes = 2 ^ 20

abbrev pub max_lineage_entries : ℕ
max_lineage_entries = 16

abbrev pub max_history_entries : ℕ
max_history_entries = 100

abbrev pub max_producer_key_bytes : ℕ
max_producer_key_bytes = 128

-- Nanoseconds.
abbrev pub second : ℕ
second = 1_000_000_000

abbrev pub millisecond : ℕ
millisecond = 1_000_000

-- Seven days.
abbrev pub history_retention : ℕ
history_retention = 7 * 24 * 3600 * second

pub data Kind : Type 0 where
  hello snapshot added replaced closed : Kind
  history_added history_removed history_seen history_cleared : Kind
  command reply : Kind
  unknown : Text → Kind

pub record Envelope : Type 0 where
  pub kind : Kind
  pub request_id : ℕ
  pub sequence : ℕ
  pub payload : Text

pub record Hello : Type 0 where
  pub major : ℕ
  pub minor : ℕ
  pub role : Text
  pub capabilities : List Text

-- `Urgency` is a uint8: low, normal and critical are 0, 1 and 2.
abbrev pub urgency_normal : ℕ
urgency_normal = 1

abbrev pub urgency_critical : ℕ
urgency_critical = 2

pub record Action : Type 0 where
  pub key : Text
  pub label : Text

pub record Process : Type 0 where
  pub pid : ℕ
  pub start_time : ℕ

-- `contents` is the field `Data`.
pub record Image : Type 0 where
  pub media_type : Text
  pub width : ℕ
  pub height : ℕ
  pub contents : Text

pub record Notification : Type 0 where
  pub id : ℕ
  pub app_name : Text
  pub app_icon : Text
  pub desktop_entry : Text
  pub summary : Text
  pub body : Text
  pub actions : List Action
  pub urgency : ℕ
  pub category : Text
  pub timestamp : ℕ
  pub expire_timeout_ms : ℤ
  pub image : Option Image
  pub value : Option ℤ
  pub inline_reply : Bool
  pub reply_placeholder : Text
  pub sender_lineage : List Process

pub record HistoryEntry : Type 0 where
  pub id : ℕ
  pub seen : Bool
  pub app_name : Text
  pub app_icon : Text
  pub desktop_entry : Text
  pub summary : Text
  pub body : Text
  pub urgency : ℕ
  pub category : Text
  pub timestamp : ℕ
  pub image : Option Image

-- `CloseReason` is a uint32.
abbrev pub close_expired : ℕ
close_expired = 1

abbrev pub close_dismissed : ℕ
close_dismissed = 2

abbrev pub close_requested : ℕ
close_requested = 3

abbrev pub close_undefined : ℕ
close_undefined = 4

pub record Lifetime : Type 0 where
  pub id : ℕ
  pub duration_ms : ℕ
  pub remaining_ms : ℕ
  pub running : Bool

pub record Snapshot : Type 0 where
  pub sequence : ℕ
  pub active : List Notification
  pub lifetimes : List Lifetime
  pub history : List HistoryEntry

pub data DeltaKind : Type 0 where
  added replaced closed : DeltaKind
  history_added history_removed history_seen history_cleared : DeltaKind
  unknown : Text → DeltaKind

pub record Delta : Type 0 where
  pub kind : DeltaKind
  pub notification : Option Notification
  pub lifetime : Option Lifetime
  pub history : Option HistoryEntry
  pub id : ℕ
  pub ids : List ℕ
  pub close_reason : ℕ

pub data PresentationState : Type 0 where
  hovered visible queued suppressed : PresentationState
  unknown : Text → PresentationState

pub record Presentation : Type 0 where
  pub id : ℕ
  pub state : PresentationState

pub data CommandKind : Type 0 where
  presentation_renew action dismiss reply : CommandKind
  history_clear history_remove history_mark_seen dismiss_all : CommandKind
  producer_publish producer_close : CommandKind
  unknown : Text → CommandKind

pub record ProducerRequest : Type 0 where
  pub key : Text
  pub app_name : Text
  pub summary : Text
  pub body : Text
  pub urgency : ℕ
  pub expire_timeout_ms : ℤ
  pub value : Option ℤ

pub record Command : Type 0 where
  pub kind : CommandKind
  pub id : ℕ
  pub ids : List ℕ
  pub action_key : Text
  pub text : Text
  pub presentations : List Presentation
  pub producer : Option ProducerRequest

pub data ErrorCode : Type 0 where
  invalid not_found stale busy unavailable : ErrorCode
  unknown : Text → ErrorCode

pub record ProtocolError : Type 0 where
  pub code : ErrorCode
  pub message : Text

pub record Reply : Type 0 where
  pub ok : Bool
  pub error : Option ProtocolError
  pub lifetimes : List Lifetime
  pub id : ℕ
  pub replaced : Bool
