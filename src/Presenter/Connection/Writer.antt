-- ===== src/Presenter/Connection/Writer.antt =====
-- connection.go: the writer's loop, `takeReply` and `takeResync`, and the connection in action.
use sysc_notify.Base.{
  ℕ, ◌+◌, ◌%◌, ◌^◌, Bool, true, false, not, List, [], ◌∷◌, ◌++◌, Option, none, some, Text, length,
  ◌==◌, if◌then◌else◌, ◌>>=◌,
}
use sysc_notify.Presenter.Connection.{
  Outbound, Sent, queued, snapshot, parked, Phase, checking_reply, checking_resync, selecting,
  stopped, writing, Connection, release, send, fail, enqueue_delta, enqueue_snapshot, enqueue,
}

unfoldable pub take_reply : Connection → Option Text × Connection
take_reply c = elim c.reply_hold [
  | none ↦ (none, c)
  | some frame ↦ (some frame, record c { reply_hold = none })
]

-- The tail moves onto the queue. `none` is a send that blocks for ever.
unfoldable pub move_tail : List Outbound → Connection → Option Connection
unfolding send
move_tail [] c = some c
move_tail (m ∷ ms) c = do
  c' ← send m c
  move_tail ms (record c' {
    queued_messages = c'.queued_messages + 1;
    queued_bytes = c'.queued_bytes + length m.bytes;
  })

abbrev pub rebased : ℕ → Connection → Connection
rebased sequence c = record c {
  resync_frame = none;
  last_sequence = sequence;
  resync_tail = [];
  resync_tail_bytes = 0;
  resync_seq = 0;
  resync_needed = false;
  resync_scheduled = false;
}

-- The snapshot to write, with its sequence number, if it is there and the queue is empty.
unfoldable pub take_resync : Connection → Option (Option (ℕ × Text) × Connection)
unfolding move_tail
take_resync c = elim c.resync_frame [
  | none ↦ some (none, c)
  | some frame ↦
      if not (length c.queue == 0)
      then some (none, c)
      else move_tail c.resync_tail c >>= λ c'.
          some (
            some (c.resync_seq, frame),
            rebased ((c.resync_seq + length c.resync_tail) % 2 ^ 64) c',
          )
]

-- `protocol.WriteFrame`: the frame is on the wire, or the connection fails and the writer returns.
abbrev pub write : Bool → Sent → Connection → Connection
write true frame c = record c { wire = c.wire ++ frame ∷ [] }
write false frame c = record (fail c) { phase = stopped none }

abbrev pub at_reply : Connection → Connection
at_reply c = record c { phase = checking_reply }

abbrev pub write_reply : Bool → Option Text × Connection → Connection
write_reply fine (none, c) = record c { phase = checking_resync }
write_reply fine (some frame, c) = write fine (parked frame) c

abbrev pub write_resync : Bool → Option (ℕ × Text) × Connection → Connection
write_resync fine (none, c) = record c { phase = selecting }
write_resync fine (some (sequence, frame), c) = write fine (snapshot sequence frame) (at_reply c)

-- `case message := <-c.queue`.
abbrev pub receive : List Outbound → Connection → Connection
receive [] c = c
receive (m ∷ ms) c = record c { queue = ms; phase = writing m }

abbrev pub write_message : Bool → Outbound → Connection → Connection
write_message true m c = release m (at_reply (write true (queued m) c))
write_message false m c = record (fail c) { phase = stopped (some m) }

-- One step of the writer from its phase; in a `select` with the queue it receives, unless `woken`.
unfoldable pub write_phase : Phase → Bool → Bool → Connection → Option Connection
unfolding take_reply take_resync release
write_phase checking_reply fine woken c = some (write_reply fine (take_reply c))
write_phase checking_resync fine woken c = take_resync c >>= λ r. some (write_resync fine r)
write_phase selecting fine true c = some (at_reply c)
write_phase selecting fine false c = some (receive c.queue c)
write_phase (writing m) fine woken c = some (write_message fine m c)
write_phase (stopped lost) fine woken c = some c

-- `case <-c.closed`.
abbrev pub left_select : Phase → Phase
left_select selecting = stopped none
left_select phase = phase

-- What happens to a connection that is active: a delta, the snapshot that was asked for, a reply, a
-- step of the writer (with the luck of its write), the writer's return on `closed`, a failure.
pub data Action : Type 0 where
  delta : Outbound → Action
  resynced : Text → ℕ → Action
  reply : Text → Action
  write_step : Bool → Bool → Action
  closed : Action
  failure : Action

unfoldable pub act : Action → Connection → Option Connection
unfolding enqueue_delta enqueue_snapshot enqueue write_phase
act (delta m) c = some (enqueue_delta m c).2
act (resynced frame sequence) c = some (enqueue_snapshot frame sequence c).1
act (reply bytes) c = some (enqueue bytes c).1
act (write_step fine woken) c = write_phase c.phase fine woken c
act closed c = some (if c.failed then record c { phase = left_select c.phase } else c)
act failure c = some (fail c)

unfoldable pub act_all : List Action → Connection → Option Connection
unfolding act
act_all [] c = some c
act_all (a ∷ rest) c = act a c >>= act_all rest
