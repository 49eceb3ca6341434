-- ===== src/Presenter/Connection/Written.antt =====
-- connection.go: what the writer sends continues the presenter's view.
use sysc_notify.Base.{
  ℕ, ◌+◌, ◌-◌, ◌^◌, ◌%◌, ◌≤◌, ◌≡◌, refl, ap, sym, subst, ◌∙◌, ◌⊎◌, inl, inr, Bool, true, false,
  List, [], ◌∷◌, ◌++◌, Option, none, some, Text, arith, length, length-append, is_some, ◌==◌,
  Bool-cases, Option-cases,
}
use mathlib.Core.List.{append_assoc, append-nil}
use mathlib.Core.Option.{some-injective}
use sysc_notify.Presenter.Connection.{
  max_presenter_queue_messages, Outbound, queued, snapshot, parked, Phase, checking_reply,
  checking_resync, selecting, stopped, writing, Connection, release, send,
}
use sysc_notify.Presenter.Connection.Writer.{
  take_reply, move_tail, rebased, take_resync, write_reply, write_resync, receive, write_message,
  write_phase,
}
use sysc_notify.Presenter.Connection.Bounds.{weight, flying}
use sysc_notify.Presenter.Connection.View.{
  advance, view, view-append_one, Ahead, Gapless, advance-first, moved-Ahead, idle_reach,
}

-- The whole tail moves, in order.
move_tail-moves :
    (ms : List Outbound) (c : Connection)
    → length c.queue + length ms ≤ max_presenter_queue_messages
    → move_tail ms c
      ≡ some (record c {
        queue = c.queue ++ ms;
        queued_messages = c.queued_messages + length ms;
        queued_bytes = c.queued_bytes + weight ms;
      })
unfolding move_tail
move_tail-moves [] c few = ground (arith, append-nil c.queue)
move_tail-moves (m ∷ ms) c few =
    let there = record c {
      queue = c.queue ++ m ∷ [];
      queued_messages = c.queued_messages + 1;
      queued_bytes = c.queued_bytes + length m.bytes;
    } in
    let sent : send m c ≡ some (record c { queue = c.queue ++ m ∷ [] }) =
      unfold send in ground arith in
    let rest = move_tail-moves ms there (omega (arith, few, length-append c.queue (m ∷ []))) in
    rw sent (ground (arith, rest, append_assoc c.queue (m ∷ []) ms))

length-nil : (ms : List Outbound) → length ms ≡ 0 → ms ≡ []
length-nil [] e = refl
length-nil (m ∷ ms) e = ground (arith, e)

-- What `take_resync` leaves when the snapshot is due.
abbrev pub swapped : Connection → Connection
swapped c = rebased ((c.resync_seq + length c.resync_tail) % 2 ^ 64) (record c {
  queue = c.queue ++ c.resync_tail;
  queued_messages = c.queued_messages + length c.resync_tail;
  queued_bytes = c.queued_bytes + weight c.resync_tail;
})

pub take_resync-swapped :
    (c : Connection) (frame : Text)
    → c.resync_frame ≡ some frame
    → length c.queue ≡ 0
    → length c.resync_tail ≤ max_presenter_queue_messages
    → take_resync c ≡ some (some (c.resync_seq, frame), swapped c)
unfolding take_resync
take_resync-swapped c frame framed empty short =
    let moves = move_tail-moves c.resync_tail c (omega (arith, empty, short)) in
    ground (arith, framed, empty, moves)

pub take_resync-waits :
    (c : Connection)
    → (c.resync_frame ≡ none) ⊎ ((length c.queue == 0) ≡ false)
    → take_resync c ≡ some (none, c)
unfolding take_resync
take_resync-waits c e = ground arith

-- The snapshot is on the wire and its tail is queued, or its loss has stopped the writer.
write_resync-Gapless :
    (base v : ℕ) (c : Connection) (fine : Bool) (frame : Text)
    → c.resync_frame ≡ some frame
    → length c.queue ≡ 0
    → view base c.wire ≡ some v
    → Ahead v c
    → Gapless base (write_resync fine (some (c.resync_seq, frame), swapped c))
write_resync-Gapless base v c false frame framed empty seen a = record {
  at = v;
  seen = seen;
  ahead = inl refl;
}
write_resync-Gapless base v c true frame framed empty seen a = record {
  at = c.resync_seq;
  seen = view-append_one base v c.wire (snapshot c.resync_seq frame) seen;
  ahead = inr (record {
    reached = c.resync_seq + length c.resync_tail;
    reach =
        ap (λ q. advance c.resync_seq (q ++ c.resync_tail)) (length-nil c.queue empty) ∙ a.follows;
    level = λ e. ground (arith, a.low (ap is_some framed), a.short);
    calm = λ e. refl;
    clean = λ e. refl;
    follows = refl;
    short = omega arith;
    low = λ e. cc;
  });
}

-- What the writer has received is on the wire, or its loss has stopped the writer.
write_message-Gapless :
    (base v : ℕ) (c : Connection) (fine : Bool) (m : Outbound)
    → c.phase ≡ writing m
    → view base c.wire ≡ some v
    → Ahead v c
    → Gapless base (write_message fine m c)
unfolding release
write_message-Gapless base v c false m there seen a = record {
  at = v;
  seen = seen;
  ahead = inr (
      moved-Ahead v v true (stopped (some m)) c.queue c.reply_hold c.queued_messages c.queued_bytes
        c.wire c a (ap (λ p. advance v (flying p ++ c.queue)) (sym there) ∙ a.reach));
}
write_message-Gapless base v c true m there seen a =
    let (k, step, rest) =
      advance-first v a.reached m c.queue
        (ap (λ p. advance v (flying p ++ c.queue)) (sym there) ∙ a.reach) in
    record {
      at = k;
      seen = view-append_one base v c.wire (queued m) seen ∙ step;
      ahead = inr (
          moved-Ahead v k c.failed checking_reply c.queue c.reply_hold (c.queued_messages - 1)
            (c.queued_bytes - length m.bytes) (c.wire ++ queued m ∷ []) c a rest);
    }

take_reply-held : (c : Connection) → take_reply c ≡ (c.reply_hold, record c { reply_hold = none })
unfolding take_reply
take_reply-held c = ground arith

write_reply-Gapless :
    (base v : ℕ) (hold : Option Text) (c : Connection) (fine : Bool)
    → c.phase ≡ checking_reply
    → view base c.wire ≡ some v
    → Ahead v c
    → Gapless base (write_reply fine (hold, record c { reply_hold = none }))
write_reply-Gapless base v none c fine there seen a = record {
  at = v;
  seen = seen;
  ahead = inr (
      moved-Ahead v v c.failed checking_resync c.queue none c.queued_messages c.queued_bytes c.wire
        c a (idle_reach v checking_reply c a there refl));
}
write_reply-Gapless base v (some frame) c false there seen a = record {
  at = v;
  seen = seen;
  ahead = inl refl;
}
write_reply-Gapless base v (some frame) c true there seen a = record {
  at = v;
  seen = view-append_one base v c.wire (parked frame) seen;
  ahead = inr (
      moved-Ahead v v c.failed c.phase c.queue none c.queued_messages c.queued_bytes
        (c.wire ++ parked frame ∷ []) c a a.reach);
}

receive-Gapless :
    (base v : ℕ) (q : List Outbound) (c : Connection)
    → c.queue ≡ q
    → c.phase ≡ selecting
    → view base c.wire ≡ some v
    → Ahead v c
    → Gapless base (receive q c)
receive-Gapless base v [] c same there seen a = record { at = v; seen = seen; ahead = inr a }
receive-Gapless base v (m ∷ q) c same there seen a = record {
  at = v;
  seen = seen;
  ahead = inr (
      moved-Ahead v v c.failed (writing m) q c.reply_hold c.queued_messages c.queued_bytes c.wire c
        a (ap (advance v) (sym same) ∙ idle_reach v selecting c a there refl));
}

pub write_phase-Gapless :
    (base v : ℕ) (p : Phase) (fine woken : Bool) (c c' : Connection)
    → c.phase ≡ p
    → write_phase p fine woken c ≡ some c'
    → view base c.wire ≡ some v
    → Ahead v c
    → Gapless base c'
unfolding write_phase
write_phase-Gapless base v checking_reply fine woken c c' there e seen a =
    subst (Gapless base) (ap (write_reply fine) (sym (take_reply-held c)) ∙ some-injective _ _ e)
      (write_reply-Gapless base v c.reply_hold c fine there seen a)
write_phase-Gapless base v checking_resync fine woken c c' there e seen a =
    elim (Option-cases c.resync_frame) [
      | inl unframed ↦ waits (inl unframed)
      | inr (frame, framed) ↦ elim (Bool-cases (length c.queue == 0)) [
        | inr busy ↦ waits (inr busy)
        | inl empty ↦
            let no_queue : length c.queue ≡ 0 = ground (arith, empty) in
            let swap = take_resync-swapped c frame framed no_queue a.short in
            subst (Gapless base)
              (some-injective _ _ (after (some (c.resync_seq, frame), swapped c) swap))
              (write_resync-Gapless base v c fine frame framed no_queue seen a)
      ]
    ]
  where
    after :
        (r : Option (ℕ × Text) × Connection)
        → take_resync c ≡ some r
        → some (write_resync fine r) ≡ some c'
    after r taken = ground (arith, e, taken)

    waits : (c.resync_frame ≡ none) ⊎ ((length c.queue == 0) ≡ false) → Gapless base c'
    waits why =
        subst (Gapless base) (some-injective _ _ (after (none, c) (take_resync-waits c why)))
          (record {
            at = v;
            seen = seen;
            ahead = inr (
                moved-Ahead v v c.failed selecting c.queue c.reply_hold c.queued_messages
                  c.queued_bytes c.wire c a (idle_reach v checking_resync c a there refl));
          })
write_phase-Gapless base v selecting fine true c c' there e seen a =
    subst (Gapless base) (some-injective _ _ e) (record {
      at = v;
      seen = seen;
      ahead = inr (
          moved-Ahead v v c.failed checking_reply c.queue c.reply_hold c.queued_messages
            c.queued_bytes c.wire c a (idle_reach v selecting c a there refl));
    })
write_phase-Gapless base v selecting fine false c c' there e seen a =
    subst (Gapless base) (some-injective _ _ e) (receive-Gapless base v c.queue c refl there seen a)
write_phase-Gapless base v (writing m) fine woken c c' there e seen a =
    subst (Gapless base) (some-injective _ _ e) (write_message-Gapless base v c fine m there seen a)
write_phase-Gapless base v (stopped lost) fine woken c c' there e seen a =
    subst (Gapless base) (some-injective _ _ e) (record { at = v; seen = seen; ahead = inr a })
