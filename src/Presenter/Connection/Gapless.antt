-- ===== src/Presenter/Connection/Gapless.antt =====
-- connection.go: no action on a connection makes a gap in what the presenter reads.
use sysc_notify.Base.{
  ℕ, ◌+◌, ◌^◌, ◌<◌, ◌≡◌, refl, ap, sym, subst, ◌∙◌, inl, inr, Bool, true, false, List, [], ◌∷◌,
  none, some, Text, arith, All, if◌then◌else◌, Option-cases,
}
use mathlib.Core.Option.{some-injective}
use sysc_notify.Presenter.Connection.{
  max_presenter_queue_messages, Outbound, Phase, checking_reply, checking_resync, selecting,
  stopped, writing, Connection, reserve, reserve_tail, release, send, begin_resync, extend_tail,
  queue_delta, enqueue_delta, enqueue_snapshot, place_reply, enqueue,
}
use sysc_notify.Presenter.Connection.Writer.{
  write_phase, left_select, Action, delta, resynced, reply, write_step, closed, failure, act,
  act_all,
}
use sysc_notify.Presenter.Connection.View.{view, Ahead, Gapless, is_low, moved-Ahead}
use sysc_notify.Presenter.Connection.Enqueued.{enqueue_delta-Ahead, enqueue-Ahead, snapshot-Ahead}
use sysc_notify.Presenter.Connection.Written.{write_phase-Gapless}

-- What only queues leaves the writer where it is.
queueing-Gapless :
    (base : ℕ) (c c' : Connection)
    → c'.wire ≡ c.wire
    → c'.phase ≡ c.phase
    → ((v : ℕ) → Ahead v c → Ahead v c')
    → Gapless base c
    → Gapless base c'
queueing-Gapless base c c' same_wire same_phase keep g = record {
  at = g.at;
  seen = ap (view base) same_wire ∙ g.seen;
  ahead = elim g.ahead [ inl gone ↦ inl (same_phase ∙ gone) | inr a ↦ inr (keep g.at a) ];
}

enqueue_delta-wire :
    (m : Outbound) (c : Connection)
    → ((enqueue_delta m c).2.wire ≡ c.wire) × ((enqueue_delta m c).2.phase ≡ c.phase)
unfolding enqueue_delta extend_tail queue_delta reserve reserve_tail send begin_resync release
enqueue_delta-wire m c = ground arith

enqueue-wire :
    (bytes : Text) (c : Connection)
    → ((enqueue bytes c).1.wire ≡ c.wire) × ((enqueue bytes c).1.phase ≡ c.phase)
unfolding enqueue place_reply reserve send release
enqueue-wire bytes c = ground arith

enqueue_snapshot-wire :
    (frame : Text) (n : ℕ) (c : Connection)
    → ((enqueue_snapshot frame n c).1.wire ≡ c.wire)
      × ((enqueue_snapshot frame n c).1.phase ≡ c.phase)
unfolding enqueue_snapshot
enqueue_snapshot-wire frame n c = ground arith

left-Gapless :
    (base : ℕ) (p : Phase) (c : Connection)
    → c.phase ≡ p
    → Gapless base c
    → Gapless base (record c { phase = left_select c.phase })
left-Gapless base p c there g =
    subst (λ q. Gapless base (record c { phase = q })) (ap left_select (sym there)) (go p there)
  where
    same : (p : Phase) → c.phase ≡ p → Gapless base (record c { phase = p })
    same p there = subst (λ q. Gapless base (record c { phase = q })) there g

    go : (p : Phase) → c.phase ≡ p → Gapless base (record c { phase = left_select p })
    go checking_reply there = same checking_reply there
    go checking_resync there = same checking_resync there
    go selecting there = record { at = g.at; seen = g.seen; ahead = inl refl }
    go (writing m) there = same (writing m) there
    go (stopped lost) there = same (stopped lost) there

closed-Gapless :
    (base : ℕ) (c : Connection)
    → Gapless base c
    → Gapless base (if c.failed then record c { phase = left_select c.phase } else c)
closed-Gapless base c g = go c.failed
  where
    go : (gone : Bool) → Gapless base (if gone then record c { phase = left_select c.phase } else c)
    go true = left-Gapless base c.phase c refl g
    go false = g

act-Gapless :
    (base : ℕ) (a : Action) (c c' : Connection)
    → is_low a ≡ true
    → act a c ≡ some c'
    → Gapless base c
    → Gapless base c'
unfolding act
act-Gapless base (delta m) c c' low e g =
    let (wire, phase) = enqueue_delta-wire m c in
    subst (Gapless base) (some-injective _ _ e)
      (queueing-Gapless base c (enqueue_delta m c).2 wire phase (λ v. enqueue_delta-Ahead v m c) g)
act-Gapless base (resynced frame n) c c' low e g =
    let (wire, phase) = enqueue_snapshot-wire frame n c in
    let near : n + max_presenter_queue_messages + 1 < 2 ^ 64 = ground (arith, low) in
    subst (Gapless base) (some-injective _ _ e) (
      queueing-Gapless base c (enqueue_snapshot frame n c).1 wire phase
        (λ v. snapshot-Ahead v n frame c near) g)
act-Gapless base (reply bytes) c c' low e g =
    let (wire, phase) = enqueue-wire bytes c in
    subst (Gapless base) (some-injective _ _ e)
      (queueing-Gapless base c (enqueue bytes c).1 wire phase (λ v. enqueue-Ahead v bytes c) g)
act-Gapless base (write_step fine woken) c c' low e g = elim g.ahead [
  | inl gone ↦ subst (Gapless base) (ended gone) g
  | inr a ↦ write_phase-Gapless base g.at c.phase fine woken c c' refl e g.seen a
]
  where
    ended : c.phase ≡ stopped none → c ≡ c'
    ended gone =
        unfold write_phase in
        some-injective _ _ (ap (λ p. write_phase p fine woken c) (sym gone) ∙ e)
act-Gapless base closed c c' low e g =
    subst (Gapless base) (some-injective _ _ e) (closed-Gapless base c g)
act-Gapless base failure c c' low e g = subst (Gapless base) (some-injective _ _ e) (record {
  at = g.at;
  seen = g.seen;
  ahead = elim g.ahead [
    | inl gone ↦ inl gone
    | inr a ↦ inr (
        moved-Ahead g.at g.at true c.phase c.queue c.reply_hold c.queued_messages c.queued_bytes
          c.wire c a a.reach)
  ];
})

pub act_all-Gapless :
    (base : ℕ) (actions : List Action) (c c' : Connection)
    → All (λ a. is_low a ≡ true) actions
    → act_all actions c ≡ some c'
    → Gapless base c
    → Gapless base c'
unfolding act_all
act_all-Gapless base [] c c' low e g = subst (Gapless base) (some-injective _ _ e) g
act_all-Gapless base (a ∷ actions) c c' low e g = elim (Option-cases (act a c)) [
  | inl stuck ↦ ground arith
  | inr (d, once) ↦
      act_all-Gapless base actions d c' low.1 (ground (arith, e, once))
        (act-Gapless base a c d low.0 once g)
]
