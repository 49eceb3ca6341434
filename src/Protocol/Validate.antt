-- ===== src/Protocol/Validate.antt =====
-- protocol/validate.go: what a message must satisfy. An error is a `Fault`, named for its message;
-- `none` is a nil error. Go visits the text fields of a record in an unspecified order (a map
-- literal); here they are visited in the order in which they are written, which only decides which
-- of several bad fields is named.
pub mod Ids
pub mod Snapshots
use Prim.Native.String.{String}
use sysc_notify.Base.{
  ℕ, suc, ◌+◌, ◌^◌, ◌-◌, Bool, true, false, not, ◌&&◌, ◌||◌, List, [], ◌∷◌, Option, none, some,
  Text, ℤ, pos, codes, text_eq, is_empty, valid_utf8, length, contains, remove_first, ltb, leb,
  ◌==◌, ltb_ℤ, if◌then◌else◌, is_some, reject, ◌then_check◌, check_all,
}
use sysc_notify.Base.Names.{contains_text}
use sysc_notify.Protocol.Types
use sysc_notify.Protocol.Types.{
  Envelope, Hello, Action, Process, Image, Notification, HistoryEntry, Lifetime, Snapshot,
  DeltaKind, Delta, PresentationState, Presentation, CommandKind, ProducerRequest, Command,
  ErrorCode, ProtocolError, Reply, protocol_major, protocol_minor, max_active_notifications,
  max_body_bytes, max_action_pairs, max_wire_image_long_edge, max_wire_image_bytes,
  max_lineage_entries, max_history_entries, max_producer_key_bytes, urgency_critical, close_expired,
  close_undefined,
}

pub data Fault : Type 0 where
  invalid_payload hello_correlation snapshot_request_id invalid_sequence invalid_request_id : Fault
  unknown_message_kind sequence_gap : Fault
  incompatible_major unsupported_minor unexpected_role duplicate_capability : Fault
  record_limit lifetime_count duplicate_active unknown_lifetime missing_lifetime : Fault
  duplicate_history : Fault
  zero_id invalid_urgency zero_timestamp too_many_actions duplicate_action value_range : Fault
  long_lineage invalid_process invalid_timeout : Fault
  media_type image_dimensions image_size history_identity : Fault
  no_record_lifetime mismatched_lifetime invalid_closed no_record unknown_delta_kind : Fault
  invalid_renewal invalid_presentation duplicate_presentation no_producer : Fault
  unknown_command_kind : Fault
  reply_outcome error_lifetimes error_code duplicate_lifetime : Fault
  remaining_exceeds_duration persistent_running : Fault
  id_list_length duplicate_id : Fault
  not_utf8 text_length : String → Fault

unfoldable pub validate_text : String → Text → ℕ → Bool → Option Fault
validate_text name value limit empty_ok =
    if not (valid_utf8 value)
    then some (not_utf8 name)
    else if not empty_ok && is_empty value || ltb limit (length value)
    then some (text_length name)
    else none

abbrev pub urgency_valid : ℕ → Bool
urgency_valid u = leb u urgency_critical

abbrev pub close_reason_valid : ℕ → Bool
close_reason_valid r = leb close_expired r && leb r close_undefined

abbrev pub state_valid : PresentationState → Bool
state_valid (PresentationState.unknown t) = false
state_valid _ = true

abbrev pub code_valid : ErrorCode → Bool
code_valid (ErrorCode.unknown t) = false
code_valid _ = true

-- Each key is looked for among the keys before it.
unfoldable pub check_ids : List ℕ → List ℕ → Option Fault
check_ids seen [] = none
check_ids seen (id ∷ ids) =
    reject (id == 0) zero_id
    then_check reject (contains id seen) duplicate_id
    then_check check_ids (id ∷ seen) ids

unfoldable pub validate_ids : List ℕ → ℕ → Option Fault
validate_ids ids limit =
    reject (length ids == 0 || ltb limit (length ids)) id_list_length then_check check_ids [] ids

unfoldable pub validate_next_sequence : ℕ → ℕ → Option Fault
validate_next_sequence previous next =
    reject (previous == 2 ^ 64 - 1 || not (next == previous + 1)) sequence_gap

abbrev pub value_out_of_range : Option ℤ → Bool
value_out_of_range none = false
value_out_of_range (some v) = ltb_ℤ v (pos 0) || ltb_ℤ (pos 100) v

abbrev by_kind : Types.Kind → Envelope → Option Fault
by_kind Types.Kind.hello e =
    reject (not (e.request_id == 0) || not (e.sequence == 0)) hello_correlation
by_kind Types.Kind.snapshot e = reject (not (e.request_id == 0)) snapshot_request_id
by_kind Types.Kind.command e =
    reject (e.request_id == 0 || not (e.sequence == 0)) invalid_request_id
by_kind Types.Kind.reply e = reject (e.request_id == 0 || not (e.sequence == 0)) invalid_request_id
by_kind (Types.Kind.unknown t) e = some unknown_message_kind
by_kind _ e = reject (e.sequence == 0 || not (e.request_id == 0)) invalid_sequence

-- `json.Valid` is a parameter.
unfoldable pub envelope : (Text → Bool) → Envelope → Option Fault
envelope json_valid e =
    reject (length e.payload == 0 || not (json_valid e.payload)) invalid_payload
    then_check by_kind e.kind e

check_capabilities : List Text → List Text → Option Fault
check_capabilities seen [] = none
check_capabilities seen (c ∷ cs) =
    validate_text "capability" c max_body_bytes false
    then_check reject (contains_text c seen) duplicate_capability
    then_check check_capabilities (c ∷ seen) cs

unfoldable pub hello : Hello → Text → Option Fault
unfolding check_capabilities
hello h role =
    reject (not (h.major == protocol_major)) incompatible_major
    then_check reject (ltb protocol_minor h.minor) unsupported_minor
    then_check reject (not (text_eq h.role role)) unexpected_role
    then_check check_capabilities [] h.capabilities

unfoldable pub action : Action → Option Fault
action a =
    validate_text "action key" a.key max_body_bytes false
    then_check validate_text "action label" a.label max_body_bytes true

unfoldable pub image : Image → Option Fault
image i =
    reject (not (text_eq i.media_type (codes "image/png"))) media_type
    then_check reject
        (i.width == 0
          || i.height == 0
          || ltb max_wire_image_long_edge i.width
          || ltb max_wire_image_long_edge i.height)
        image_dimensions
    then_check reject (length i.contents == 0 || ltb max_wire_image_bytes (length i.contents))
        image_size

abbrev pub optional_image : Option Image → Option Fault
optional_image none = none
optional_image (some i) = image i

unfoldable pub check_actions : List Text → List Action → Option Fault
check_actions seen [] = none
check_actions seen (a ∷ rest) =
    action a
    then_check reject (contains_text a.key seen) duplicate_action
    then_check check_actions (a.key ∷ seen) rest

abbrev pub check_process : Process → Option Fault
check_process p = reject (p.pid == 0 || p.start_time == 0) invalid_process

abbrev text_ok : String → Text → Option Fault
text_ok name value = validate_text name value max_body_bytes true

unfoldable pub notification : Notification → Option Fault
notification n =
    reject (n.id == 0) zero_id
    then_check reject (not (urgency_valid n.urgency)) invalid_urgency
    then_check reject (n.timestamp == 0) zero_timestamp
    then_check text_ok "app name" n.app_name
    then_check text_ok "app icon" n.app_icon
    then_check text_ok "desktop entry" n.desktop_entry
    then_check text_ok "summary" n.summary
    then_check text_ok "body" n.body
    then_check text_ok "category" n.category
    then_check text_ok "reply placeholder" n.reply_placeholder
    then_check reject (ltb max_action_pairs (length n.actions)) too_many_actions
    then_check check_actions [] n.actions
    then_check optional_image n.image
    then_check reject (value_out_of_range n.value) value_range
    then_check reject (ltb max_lineage_entries (length n.sender_lineage)) long_lineage
    then_check check_all check_process n.sender_lineage

unfoldable pub producer_request : ProducerRequest → Option Fault
producer_request p =
    validate_text "producer key" p.key max_producer_key_bytes false
    then_check text_ok "producer app name" p.app_name
    then_check text_ok "producer summary" p.summary
    then_check text_ok "producer body" p.body
    then_check reject (not (urgency_valid p.urgency)) invalid_urgency
    then_check reject (ltb_ℤ p.expire_timeout_ms (ℤ.negsuc 0)) invalid_timeout
    then_check reject (value_out_of_range p.value) value_range

unfoldable pub history_entry : HistoryEntry → Option Fault
history_entry h =
    reject (h.id == 0 || h.timestamp == 0 || not (urgency_valid h.urgency)) history_identity
    then_check text_ok "app name" h.app_name
    then_check text_ok "app icon" h.app_icon
    then_check text_ok "desktop entry" h.desktop_entry
    then_check text_ok "summary" h.summary
    then_check text_ok "body" h.body
    then_check text_ok "category" h.category
    then_check optional_image h.image

unfoldable pub lifetime : Lifetime → Option Fault
lifetime l =
    reject (l.id == 0) zero_id
    then_check reject (ltb l.duration_ms l.remaining_ms) remaining_exceeds_duration
    then_check reject (l.duration_ms == 0 && l.running) persistent_running

unfoldable pub check_active : List ℕ → List Notification → Option Fault
check_active seen [] = none
check_active seen (n ∷ ns) =
    notification n
    then_check reject (contains n.id seen) duplicate_active
    then_check check_active (n.id ∷ seen) ns

abbrev pub active_ids : List Notification → List ℕ
active_ids [] = []
active_ids (n ∷ ns) = n.id ∷ active_ids ns

-- `open` holds the active ids for which no lifetime was seen yet.
unfoldable pub check_lifetimes : List ℕ → List Lifetime → Option Fault
check_lifetimes waiting [] = reject (not (length waiting == 0)) missing_lifetime
check_lifetimes waiting (l ∷ ls) =
    lifetime l
    then_check reject (not (contains l.id waiting)) unknown_lifetime
    then_check check_lifetimes (remove_first l.id waiting) ls

unfoldable pub check_history : List ℕ → List HistoryEntry → Option Fault
check_history seen [] = none
check_history seen (h ∷ hs) =
    history_entry h
    then_check reject (contains h.id seen) duplicate_history
    then_check check_history (h.id ∷ seen) hs

unfoldable pub snapshot : Snapshot → Option Fault
snapshot s =
    reject
      (ltb max_active_notifications (length s.active) || ltb max_history_entries (length s.history))
      record_limit
    then_check reject (not (length s.lifetimes == length s.active)) lifetime_count
    then_check check_active [] s.active
    then_check check_lifetimes (active_ids s.active) s.lifetimes
    then_check check_history [] s.history

abbrev optional_history : Option HistoryEntry → Option Fault
optional_history none = some no_record
optional_history (some h) = history_entry h

abbrev record_and_lifetime : Option Notification → Option Lifetime → Option Fault
record_and_lifetime (some n) (some l) =
    notification n then_check lifetime l then_check reject (not (l.id == n.id)) mismatched_lifetime
record_and_lifetime (some n) none = some no_record_lifetime
record_and_lifetime none l = some no_record_lifetime

abbrev by_delta_kind : DeltaKind → Delta → Option Fault
by_delta_kind DeltaKind.added d = record_and_lifetime d.notification d.lifetime
by_delta_kind DeltaKind.replaced d = record_and_lifetime d.notification d.lifetime
by_delta_kind DeltaKind.closed d =
    reject (d.id == 0 || not (close_reason_valid d.close_reason)) invalid_closed
by_delta_kind DeltaKind.history_added d = optional_history d.history
by_delta_kind DeltaKind.history_removed d = reject (d.id == 0) zero_id
by_delta_kind DeltaKind.history_seen d = validate_ids d.ids max_history_entries
by_delta_kind DeltaKind.history_cleared d = none
by_delta_kind (DeltaKind.unknown t) d = some unknown_delta_kind

unfoldable pub delta : Delta → Option Fault
delta d = by_delta_kind d.kind d

unfoldable pub check_presentations : List ℕ → List Presentation → Option Fault
check_presentations seen [] = none
check_presentations seen (p ∷ ps) =
    reject (p.id == 0 || not (state_valid p.state)) invalid_presentation
    then_check reject (contains p.id seen) duplicate_presentation
    then_check check_presentations (p.id ∷ seen) ps

abbrev optional_producer : Option ProducerRequest → Option Fault
optional_producer none = some no_producer
optional_producer (some p) = producer_request p

abbrev by_command_kind : CommandKind → Command → Option Fault
by_command_kind CommandKind.presentation_renew c =
    reject (length c.presentations == 0 || ltb max_active_notifications (length c.presentations))
      invalid_renewal
    then_check check_presentations [] c.presentations
by_command_kind CommandKind.action c =
    reject (c.id == 0) zero_id
    then_check validate_text "action key" c.action_key max_body_bytes false
by_command_kind CommandKind.dismiss c = reject (c.id == 0) zero_id
by_command_kind CommandKind.reply c =
    reject (c.id == 0) zero_id then_check validate_text "reply text" c.text max_body_bytes true
by_command_kind CommandKind.history_clear c = none
by_command_kind CommandKind.dismiss_all c = none
by_command_kind CommandKind.history_remove c = validate_ids c.ids max_history_entries
by_command_kind CommandKind.history_mark_seen c = validate_ids c.ids max_history_entries
by_command_kind CommandKind.producer_publish c = optional_producer c.producer
by_command_kind CommandKind.producer_close c = optional_producer c.producer
by_command_kind (CommandKind.unknown t) c = some unknown_command_kind

unfoldable pub command : Command → Option Fault
command c = by_command_kind c.kind c

unfoldable pub check_reply_lifetimes : List ℕ → List Lifetime → Option Fault
check_reply_lifetimes seen [] = none
check_reply_lifetimes seen (l ∷ ls) =
    lifetime l
    then_check reject (contains l.id seen) duplicate_lifetime
    then_check check_reply_lifetimes (l.id ∷ seen) ls

abbrev by_outcome : Option ProtocolError → Reply → Option Fault
by_outcome (some e) r =
    reject (not (length r.lifetimes == 0)) error_lifetimes
    then_check reject (not (code_valid e.code)) error_code
    then_check validate_text "error message" e.message max_body_bytes true
by_outcome none r = check_reply_lifetimes [] r.lifetimes

unfoldable pub reply : Reply → Option Fault
reply r =
    reject (if r.ok then is_some r.error else not (is_some r.error)) reply_outcome
    then_check by_outcome r.error r
