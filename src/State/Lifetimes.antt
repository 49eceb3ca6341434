-- ===== src/State/Lifetimes.antt =====
-- The lifetimes that the presenter is shown, and what a notification is made of: owner.go's
-- `lifetime`, `lifetimes`, `durationMilliseconds`, `notificationFromCandidate`, `candidateDuration`,
-- `validateCandidate` and `historyEntry`. The clone helpers copy what a value already is here.
use sysc_notify.Base.{
  ℕ, zero, suc, ◌+◌, ◌-◌, ◌*◌, ◌/◌, ◌%◌, ◌^◌, false, ◌&&◌, List, [], ◌∷◌, Option, none, some, ℤ,
  pos, negsuc, ltb_ℤ, ltb, ◌==◌, if◌then◌else◌, ◌>>=◌,
}
use sysc_notify.Base.Map.{get}
use sysc_notify.Protocol.Types.{
  Notification, Lifetime, HistoryEntry, Image, millisecond, urgency_critical,
}
use sysc_notify.Protocol.Validate
use sysc_notify.Notify.Model.{Candidate}
use sysc_notify.State.Types.{Error, protocol, invalid_expiry, Tracked, default_timeout}

unfoldable pub duration_milliseconds : ℕ → ℕ
duration_milliseconds d = if d == 0 then 0 else (d + millisecond - 1) / millisecond % 2 ^ 32

-- Truncated subtraction is `max(0, deadline.Sub(now))`.
unfoldable pub lifetime : Tracked → ℕ → Lifetime
unfolding duration_milliseconds
lifetime r now = record {
  id = r.notification.id;
  duration_ms = duration_milliseconds r.duration;
  remaining_ms = duration_milliseconds (if r.has_deadline then r.deadline - now else r.remaining);
  running = r.has_deadline && ltb 0 r.duration;
}

-- `lifetimes` over the ids of `order`. A missing record is a nil dereference.
unfoldable pub lifetimes_of : List ℕ → List (ℕ × Tracked) → ℕ → Option (List Lifetime)
lifetimes_of [] records now = some []
lifetimes_of (id ∷ ids) records now = do
  r ← get id records
  rest ← lifetimes_of ids records now
  some (lifetime r now ∷ rest)

unfoldable pub notification_from_candidate : ℕ → Candidate → ℕ → Notification
notification_from_candidate id c now = record {
  id = id;
  app_name = c.app_name;
  app_icon = c.app_icon;
  desktop_entry = c.desktop_entry;
  summary = c.summary;
  body = c.body;
  actions = c.actions;
  urgency = c.urgency;
  category = c.category;
  timestamp = now;
  expire_timeout_ms = c.expire_timeout;
  image = c.image;
  value = c.value;
  inline_reply = c.inline_reply;
  reply_placeholder = c.reply_placeholder;
  sender_lineage = c.sender.lineage;
}

unfoldable pub validate_candidate : Candidate → ℕ → Option Error
unfolding notification_from_candidate
validate_candidate c now =
    if ltb_ℤ c.expire_timeout (negsuc 0)
    then some invalid_expiry
    else elim (Validate.notification (notification_from_candidate 1 c now)) [
      | none ↦ none
      | some fault ↦ some (protocol fault)
    ]

-- Timeouts below -1, which `validate_candidate` refuses, would give negative durations: 0 here.
abbrev timeout_duration : ℤ → ℕ → ℕ
timeout_duration (pos ms) urgency = ms * millisecond
timeout_duration (negsuc zero) urgency = if urgency == urgency_critical then 0 else default_timeout
timeout_duration (negsuc (suc n)) urgency = 0

unfoldable pub candidate_duration : Candidate → ℕ
candidate_duration c = timeout_duration c.expire_timeout c.urgency

unfoldable pub history_entry_of : Notification → ℕ → Option Image → HistoryEntry
history_entry_of n closed_at image = record {
  id = n.id;
  seen = false;
  app_name = n.app_name;
  app_icon = n.app_icon;
  desktop_entry = n.desktop_entry;
  summary = n.summary;
  body = n.body;
  urgency = n.urgency;
  category = n.category;
  timestamp = closed_at;
  image = image;
}
