-- ===== src/Presenter/Connection/Unblocked.antt =====
-- connection.go: nothing that happens to an active connection blocks under its mutex, and the limits
-- on what it holds are kept.
use sysc_notify.Base.{
  ℕ, ◌+◌, ◌^◌, ◌%◌, ◌≤◌, ◌≡◌, refl, ap, ◌∙◌, inl, inr, Bool, true, false, List, [], ◌∷◌, ◌++◌,
  Option, none, some, Text, arith, length, is_some, ◌==◌, if◌then◌else◌, Bool-cases, Option-cases,
}
use sysc_notify.Presenter.Connection.{
  max_presenter_queue_messages, max_presenter_decoded_bytes, Outbound, Phase, checking_reply,
  checking_resync, selecting, stopped, writing, Connection, release, send, enqueue_snapshot,
}
use sysc_notify.Presenter.Connection.Writer.{
  take_reply, move_tail, rebased, take_resync, write_resync, receive, write_phase, left_select,
  Action, delta, resynced, reply, write_step, closed, failure, act, act_all,
}
use sysc_notify.Presenter.Connection.Bounds.{
  weight, weight_none, weight-append_one, length-append_one, flying, Bounded, enqueue_delta-Bounded,
  enqueue-Bounded,
}

-- The tail fits the queue that it is moved to.
move_tail-Bounded :
    (ms : List Outbound) (c : Connection)
    → Bounded c
    → c.queued_messages + length ms ≤ max_presenter_queue_messages
    → c.queued_bytes + weight ms ≤ max_presenter_decoded_bytes
    → (c' : Connection) × (move_tail ms c ≡ some c') × Bounded c' × (c'.phase ≡ c.phase)
unfolding move_tail
move_tail-Bounded [] c b few light = (c, refl, b, refl)
move_tail-Bounded (m ∷ ms) c b few light =
    let there = record c {
      queue = c.queue ++ m ∷ [];
      queued_messages = c.queued_messages + 1;
      queued_bytes = c.queued_bytes + length m.bytes;
    } in
    let (c', went, kept, same) =
      move_tail-Bounded ms there
        (ground (arith, weight-append_one c.queue m, length-append_one c.queue m))
        (omega (arith, few)) (omega (arith, light)) in
    let sent : send m c ≡ some (record c { queue = c.queue ++ m ∷ [] }) =
      unfold send in ground arith in
    (c', rw sent went, kept, same)

take_resync-Bounded :
    (c : Connection)
    → Bounded c
    → flying c.phase ≡ []
    → (frame : Option (ℕ × Text)) × (c' : Connection) × (take_resync c ≡ some (frame, c'))
      × Bounded c'
      × (c'.phase ≡ c.phase)
unfolding take_resync
take_resync-Bounded c b idle = elim (Option-cases c.resync_frame) [
  | inl e ↦ (none, c, ground arith, b, refl)
  | inr (frame, e) ↦ elim (Bool-cases (length c.queue == 0)) [
    | inr busy ↦ (none, c, ground arith, b, refl)
    | inl empty ↦
        let no_flight : length (flying c.phase) ≡ 0 = ap length idle in
        let no_pending : length c.pending ≡ 0 = b.settled (b.due (ap is_some e)) in
        let no_queue : length c.queue ≡ 0 = ground (arith, empty) in
        let (c', moved, kept, same) =
          move_tail-Bounded c.resync_tail c b
            (omega (arith, b.messages, b.tail_few, no_flight, no_pending, no_queue))
            (omega (
              arith,
              b.bytes,
              b.tail_bytes,
              b.tail_light,
              ap weight idle,
              weight_none c.queue no_queue,
              weight_none c.pending no_pending,
            )) in
        (
          some (c.resync_seq, frame),
          rebased ((c.resync_seq + length c.resync_tail) % 2 ^ 64) c',
          ground (arith, moved),
          record {
            messages = kept.messages;
            bytes = kept.bytes;
            few = kept.few;
            light = kept.light;
            tail_few = omega arith;
            tail_bytes = refl;
            tail_light = omega arith;
            settled = kept.settled;
            due = λ e. cc;
          },
          same,
        )
  ]
]

wrote :
    (fine : Bool) (frame : Option (ℕ × Text)) (c : Connection)
    → c.phase ≡ checking_resync
    → Bounded c
    → Bounded (write_resync fine (frame, c))
wrote fine none c e b = ground arith
wrote true (some (n, frame)) c e b = ground arith
wrote false (some (n, frame)) c e b = ground arith

receive-Bounded :
    (q : List Outbound) (c : Connection)
    → c.phase ≡ selecting
    → c.queue ≡ q
    → Bounded c
    → Bounded (receive q c)
receive-Bounded [] c e same b = b
receive-Bounded (m ∷ q) c e same b = ground (arith, ap length same, ap weight same)

write_phase-Bounded :
    (p : Phase) (fine woken : Bool) (c : Connection)
    → c.phase ≡ p
    → Bounded c
    → (c' : Connection) × (write_phase p fine woken c ≡ some c') × Bounded c'
unfolding write_phase take_reply release
write_phase-Bounded checking_reply fine woken c e b = (_, refl, ground arith)
write_phase-Bounded checking_resync fine woken c e b =
    let (frame, c', taken, kept, same) = take_resync-Bounded c b (ap flying e) in
    (write_resync fine (frame, c'), rw taken, wrote fine frame c' (same ∙ e) kept)
write_phase-Bounded selecting fine true c e b = (_, refl, ground arith)
write_phase-Bounded selecting fine false c e b = (_, refl, receive-Bounded c.queue c e refl b)
write_phase-Bounded (writing m) fine woken c e b = (_, refl, ground arith)
write_phase-Bounded (stopped lost) fine woken c e b = (c, refl, b)

closed-Bounded :
    (c : Connection)
    → Bounded c
    → Bounded (if c.failed then record c { phase = left_select c.phase } else c)
closed-Bounded c b = ground arith

-- Nothing that happens to a connection blocks under its mutex, and afterwards the counters are the
-- messages and bytes held, at most 256 messages and 32 MiB in the queue, and as much in the tail.
pub act-Bounded :
    (a : Action) (c : Connection) → Bounded c → (c' : Connection) × (act a c ≡ some c') × Bounded c'
unfolding act enqueue_snapshot
act-Bounded (delta m) c b = (_, refl, enqueue_delta-Bounded m c b)
act-Bounded (resynced frame n) c b = (_, refl, ground arith)
act-Bounded (reply bytes) c b = (_, refl, enqueue-Bounded bytes c b)
act-Bounded (write_step fine woken) c b = write_phase-Bounded c.phase fine woken c refl b
act-Bounded closed c b = (_, refl, closed-Bounded c b)
act-Bounded failure c b = (_, refl, ground arith)

-- From a connection whose counters are right and within the limits, whatever happens to it once it is
-- active, no send blocks under its mutex; afterwards the counters are again the messages and bytes
-- that it holds, at most 256 and 32 MiB, and the tail of a snapshot is at most as large.
pub act_all-Bounded :
    (actions : List Action) (c : Connection)
    → Bounded c
    → (c' : Connection) × (act_all actions c ≡ some c') × Bounded c'
unfolding act_all
act_all-Bounded [] c b = (c, refl, b)
act_all-Bounded (a ∷ actions) c b =
    let (there, once, kept) = act-Bounded a c b in
    let (c', rest, held) = act_all-Bounded actions there kept in (c', rw once rest, held)
