-- ===== src/Presenter/Connection.antt =====
-- internal/presenter/connection.go: the state of one connection and the operations on it. Each runs
-- under the connection's mutex, so it is one step. The socket, the context and the wake-up channel
-- are left out: they say when a step is taken, not what it does.
pub mod Writer
pub mod Bounds
pub mod Unblocked
pub mod View
pub mod Enqueued
pub mod Written
pub mod Gapless
pub mod Session
pub mod Given
pub mod CatchUp
use sysc_notify.Base.{
  ℕ, ◌+◌, ◌-◌, ◌*◌, ◌^◌, ◌%◌, Bool, true, false, not, ◌||◌, List, [], ◌∷◌, ◌++◌, Option, none, some,
  Text, length, is_some, ltb, leb, ◌==◌, if◌then◌else◌, ◌>>=◌,
}
use sysc_notify.Protocol.Validate.{Fault, validate_next_sequence}

abbrev pub max_presenter_queue_messages : ℕ
max_presenter_queue_messages = 256

abbrev pub max_presenter_decoded_bytes : ℕ
max_presenter_decoded_bytes = 32 * 2 ^ 20

-- A reply has the sequence number 0.
pub record Outbound : Type 0 where
  pub bytes : Text
  pub sequence : ℕ

-- A frame that the writer has put on the socket: what the queue held, a snapshot with its sequence
-- number, or a reply that was parked.
pub data Sent : Type 0 where
  queued : Outbound → Sent
  snapshot : ℕ → Text → Sent
  parked : Text → Sent

-- Where the writer stands in its loop; it stops with the message that it could not write, which it
-- does not release.
pub data Phase : Type 0 where
  checking_reply checking_resync selecting : Phase
  writing : Outbound → Phase
  stopped : Option Outbound → Phase

-- `phase` and `wire` are the writer's: its place, and what it has written, the oldest first.
pub record Connection : Type 0 where
  pub generation : ℕ
  pub producer : Bool
  pub queue : List Outbound
  pub pending : List Outbound
  pub queued_messages : ℕ
  pub queued_bytes : ℕ
  pub last_sequence : ℕ
  pub last_request_id : ℕ
  pub active : Bool
  pub failed : Bool
  pub resync_needed : Bool
  pub resync_scheduled : Bool
  pub resync_frame : Option Text
  pub resync_seq : ℕ
  pub resync_tail : List Outbound
  pub resync_tail_bytes : ℕ
  pub reply_hold : Option Text
  pub phase : Phase
  pub wire : List Sent

unfoldable pub new_connection : ℕ → Connection
new_connection generation = record {
  generation = generation;
  producer = false;
  queue = [];
  pending = [];
  queued_messages = 0;
  queued_bytes = 0;
  last_sequence = 0;
  last_request_id = 0;
  active = false;
  failed = false;
  resync_needed = false;
  resync_scheduled = false;
  resync_frame = none;
  resync_seq = 0;
  resync_tail = [];
  resync_tail_bytes = 0;
  reply_hold = none;
  phase = checking_reply;
  wire = [];
}

-- Room for a message; `none` is the answer false.
unfoldable pub reserve : Outbound → Connection → Option Connection
reserve m c =
    if leb max_presenter_queue_messages c.queued_messages
      || ltb max_presenter_decoded_bytes (c.queued_bytes + length m.bytes)
    then none
    else some (record c {
      queued_messages = c.queued_messages + 1;
      queued_bytes = c.queued_bytes + length m.bytes;
    })

unfoldable pub reserve_tail : Outbound → Connection → Option Connection
reserve_tail m c =
    if leb max_presenter_queue_messages (length c.resync_tail)
      || ltb max_presenter_decoded_bytes (c.resync_tail_bytes + length m.bytes)
    then none
    else some (record c { resync_tail_bytes = c.resync_tail_bytes + length m.bytes })

unfoldable pub release : Outbound → Connection → Connection
release m c = record c {
  queued_messages = c.queued_messages - 1;
  queued_bytes = c.queued_bytes - length m.bytes;
}

-- `c.queue <- message`. `none` is a full channel.
unfoldable pub send : Outbound → Connection → Option Connection
send m c =
    if ltb (length c.queue) max_presenter_queue_messages
    then some (record c { queue = c.queue ++ m ∷ [] })
    else none

abbrev pub fail : Connection → Connection
fail c = record c { failed = true }

unfoldable pub prepare : Outbound → Connection → Bool × Connection
unfolding reserve
prepare m c = if c.failed then (false, fail c) else elim (reserve m c) [
  | none ↦ (false, fail c)
  | some c' ↦ (true, record c' { pending = c'.pending ++ m ∷ [] })
]

-- The loop of `activate` over the messages that came during the handshake. `none` is a send that
-- blocks for ever, since the mutex is held.
unfoldable pub activate_pending : ℕ → List Outbound → Connection → Option (Bool × Connection)
activate_pending sequence [] c = some (true, c)
activate_pending sequence (m ∷ ms) c =
    let older = activate_pending sequence ms (release m c) in
    let newer =
      (send m (record c { last_sequence = m.sequence }) >>= activate_pending sequence ms) in
    if leb m.sequence sequence
    then older
    else elim (validate_next_sequence c.last_sequence m.sequence) [
      | some fault ↦ some (false, fail c)
      | none ↦ newer
    ]

abbrev pub activated : Bool × Connection → Bool × Connection
activated (false, c) = (false, c)
activated (true, c) = (true, record c { pending = []; active = true })

unfoldable pub activate : ℕ → Connection → Option (Bool × Connection)
unfolding activate_pending
activate sequence c =
    if c.failed
    then some (false, c)
    else activate_pending sequence c.pending (record c { last_sequence = sequence }) >>= λ r.
        some (activated r)

-- Whether this call must ask for the snapshot, and the connection after it.
unfoldable pub begin_resync : Connection → Bool × Connection
begin_resync c =
    (not c.resync_scheduled, record c { resync_needed = true; resync_scheduled = true })

-- A delta while a snapshot is due: superseded by the snapshot, or part of the tail that follows it.
unfoldable pub extend_tail : Outbound → Connection → Bool × Bool × Connection
unfolding reserve_tail
extend_tail m c = elim c.resync_frame [
  | none ↦ (true, false, c)
  | some frame ↦
      if not (m.sequence == (c.resync_seq + length c.resync_tail + 1) % 2 ^ 64)
      then (false, false, fail c)
      else elim (reserve_tail m c) [
        | none ↦ (false, false, fail c)
        | some c' ↦ (true, false, record c' { resync_tail = c'.resync_tail ++ m ∷ [] })
      ]
]

abbrev pub overflow : Connection → Bool × Bool × Connection
overflow c = let (resync, c') = begin_resync c in (true, resync, c')

unfoldable pub queue_delta : Outbound → Connection → Bool × Bool × Connection
unfolding reserve release send begin_resync
queue_delta m c = elim (reserve m c) [
  | none ↦ overflow c
  | some c' ↦
      let c'' = record c' { last_sequence = m.sequence } in
      elim (send m c'') [ none ↦ overflow (release m c'') | some d ↦ (true, false, d) ]
]

-- Whether the connection is usable, whether the caller must arrange a resync, and the connection.
unfoldable pub enqueue_delta : Outbound → Connection → Bool × Bool × Connection
unfolding extend_tail queue_delta
enqueue_delta m c =
    if c.failed || not c.active
    then (false, false, c)
    else if c.resync_needed
    then extend_tail m c
    else elim (validate_next_sequence c.last_sequence m.sequence) [
      | some fault ↦ (false, false, fail c)
      | none ↦ queue_delta m c
    ]

unfoldable pub enqueue_snapshot : Text → ℕ → Connection → Bool × Connection
enqueue_snapshot frame sequence c =
    if c.failed || not c.active || not c.resync_needed || is_some c.resync_frame
    then (false, c)
    else (true, record c { resync_frame = some frame; resync_seq = sequence })

-- What comes of a reply: it waits for the one that is parked, or `enqueue` returns.
pub data Admission : Type 0 where
  waits : Admission
  returns : Bool → Admission

abbrev pub reply_message : Text → Outbound
reply_message bytes = record { bytes = bytes; sequence = 0 }

-- Onto the queue, or into the hold if there is no room.
unfoldable pub place_reply : Text → Connection → Connection
unfolding reserve release send
place_reply bytes c = elim (reserve (reply_message bytes) c) [
  | none ↦ record c { reply_hold = some bytes }
  | some c' ↦ elim (send (reply_message bytes) c') [
    | some d ↦ d
    | none ↦ record (release (reply_message bytes) c') { reply_hold = some bytes }
  ]
]

unfoldable pub enqueue : Text → Connection → Admission × Connection
unfolding place_reply
enqueue bytes c =
    if c.failed || not c.active
    then (returns false, fail c)
    else if is_some c.reply_hold
    then (waits, c)
    else (returns true, place_reply bytes c)
