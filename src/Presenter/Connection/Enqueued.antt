-- ===== src/Presenter/Connection/Enqueued.antt =====
-- connection.go: what is queued continues what the presenter will have read.
use sysc_notify.Base.{
  ℕ, ◌+◌, ◌-◌, ◌^◌, ◌<◌, ◌≡◌, refl, ap, sym, ◌∙◌, true, false, [], ◌∷◌, ◌++◌, none, some, Text,
  arith, length, length-append, is_some,
}
use mathlib.Core.List.{append_assoc}
use sysc_notify.Protocol.Validate.{validate_next_sequence}
use sysc_notify.Presenter.Connection.{
  max_presenter_queue_messages, Outbound, Connection, reserve, reserve_tail, release, send,
  begin_resync, extend_tail, queue_delta, enqueue_delta, enqueue_snapshot, place_reply, enqueue,
  reply_message,
}
use sysc_notify.Presenter.Connection.Bounds.{flying}
use sysc_notify.Presenter.Connection.View.{next, advance, advance-append_one, next-valid, Ahead}

overflow-Ahead :
    (v last messages bytes : ℕ) (c : Connection)
    → Ahead v c
    → Ahead v (record c {
      last_sequence = last;
      queued_messages = messages;
      queued_bytes = bytes;
      resync_needed = true;
      resync_scheduled = true;
    })
overflow-Ahead v last messages bytes c a = record {
  reached = a.reached;
  reach = a.reach;
  level = λ e. cc;
  calm = λ e. cc;
  clean = a.clean;
  follows = a.follows;
  short = a.short;
  low = a.low;
}

-- One more message behind the queue.
pub send-Ahead :
    (v w last messages bytes : ℕ) (m : Outbound) (c : Connection) (a : Ahead v c)
    → next a.reached m ≡ some w
    → (c.resync_needed ≡ false → w ≡ last)
    → Ahead v (record c {
      last_sequence = last;
      queue = c.queue ++ m ∷ [];
      queued_messages = messages;
      queued_bytes = bytes;
    })
send-Ahead v w last messages bytes m c a step even = record {
  reached = w;
  reach =
      ap (advance v) (sym (append_assoc (flying c.phase) c.queue (m ∷ [])))
      ∙ advance-append_one v a.reached (flying c.phase ++ c.queue) m a.reach
      ∙ step;
  level = even;
  calm = a.calm;
  clean = a.clean;
  follows = a.follows;
  short = a.short;
  low = a.low;
}

queue_delta-Ahead :
    (v : ℕ) (m : Outbound) (c : Connection)
    → c.resync_needed ≡ false
    → validate_next_sequence c.last_sequence m.sequence ≡ none
    → Ahead v c
    → Ahead v (queue_delta m c).2
unfolding queue_delta reserve send begin_resync release
queue_delta-Ahead v m c fine valid a =
    let from : next a.reached m ≡ some m.sequence =
      rw (a.level fine) (next-valid c.last_sequence m valid) in
    ground (
      arith,
      overflow-Ahead v c.last_sequence c.queued_messages c.queued_bytes c a,
      overflow-Ahead v m.sequence (c.queued_messages + 1 - 1)
          (c.queued_bytes + length m.bytes - length m.bytes) c a,
      send-Ahead v m.sequence m.sequence (c.queued_messages + 1) (c.queued_bytes + length m.bytes) m
          c a from (λ _. refl),
    )

-- One more message behind the snapshot.
tail-Ahead :
    (v bytes : ℕ) (m : Outbound) (c : Connection)
    → c.resync_needed ≡ true
    → is_some c.resync_frame ≡ true
    → m.sequence ≡ c.resync_seq + length c.resync_tail + 1
    → length c.resync_tail < max_presenter_queue_messages
    → Ahead v c
    → Ahead v (record c { resync_tail = c.resync_tail ++ m ∷ []; resync_tail_bytes = bytes })
tail-Ahead v bytes m c due framed right few a = record {
  reached = a.reached;
  reach = a.reach;
  level = a.level;
  calm = a.calm;
  clean = λ e. cc;
  follows =
      advance-append_one c.resync_seq (c.resync_seq + length c.resync_tail) c.resync_tail m
        a.follows
      ∙ ground (arith, right, length-append c.resync_tail (m ∷ []));
  short = omega (arith, few, length-append c.resync_tail (m ∷ []));
  low = a.low;
}

extend_tail-Ahead :
    (v : ℕ) (m : Outbound) (c : Connection)
    → c.resync_needed ≡ true
    → Ahead v c
    → Ahead v (extend_tail m c).2
unfolding extend_tail reserve_tail
extend_tail-Ahead v m c due a =
    let longer = tail-Ahead v (c.resync_tail_bytes + length m.bytes) m c due in
    ground (arith, longer, a.low, a.short)

pub enqueue_delta-Ahead :
    (v : ℕ) (m : Outbound) (c : Connection) → Ahead v c → Ahead v (enqueue_delta m c).2
unfolding enqueue_delta
enqueue_delta-Ahead v m c a = ground (arith, extend_tail-Ahead v m c, queue_delta-Ahead v m c)

pub enqueue-Ahead :
    (v : ℕ) (bytes : Text) (c : Connection) → Ahead v c → Ahead v (enqueue bytes c).1
unfolding enqueue place_reply reserve send release
enqueue-Ahead v bytes c a = ground (
  arith,
  send-Ahead v a.reached c.last_sequence (c.queued_messages + 1) (c.queued_bytes + length bytes)
      (reply_message bytes) c a refl a.level,
)

pub snapshot-Ahead :
    (v n : ℕ) (frame : Text) (c : Connection)
    → n + max_presenter_queue_messages + 1 < 2 ^ 64
    → Ahead v c
    → Ahead v (enqueue_snapshot frame n c).1
unfolding enqueue_snapshot
snapshot-Ahead v n frame c low a = ground (arith, based)
  where
    based :
        c.resync_needed ≡ true
        → c.resync_frame ≡ none
        → Ahead v (record c { resync_frame = some frame; resync_seq = n })
    based due unframed = record {
      reached = a.reached;
      reach = a.reach;
      level = a.level;
      calm = λ e. cc;
      clean = λ e. cc;
      follows = rw (a.clean unframed) (ground arith);
      short = a.short;
      low = λ e. low;
    }
