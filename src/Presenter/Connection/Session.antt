-- ===== src/Presenter/Connection/Session.antt =====
-- connection.go: a connection from its start, as the presenter sees it.
use sysc_notify.Base.{
  ℕ, ◌+◌, ◌-◌, ◌≡◌, refl, ap, sym, subst, ◌∙◌, inl, inr, Bool, true, false, List, [], ◌∷◌, ◌++◌,
  Option, none, some, arith, length, All, leb, Bool-cases, Option-cases,
}
use mathlib.Core.Option.{some-injective}
use sysc_notify.Protocol.Validate.{validate_next_sequence}
use sysc_notify.Presenter.Connection.{
  Outbound, checking_reply, selecting, Connection, new_connection, reserve, release, send, prepare,
  activate_pending, activate,
}
use sysc_notify.Presenter.Connection.Writer.{Action, act_all}
use sysc_notify.Presenter.Connection.Bounds.{
  flying, Bounded, activate-Bounded, prepare-Bounded, new_connection-Bounded,
}
use sysc_notify.Presenter.Connection.Unblocked.{act_all-Bounded}
use sysc_notify.Presenter.Connection.View.{
  next, advance, view, next-valid, Ahead, Gapless, is_low, moved-Ahead, idle_reach,
}
use sysc_notify.Presenter.Connection.Enqueued.{send-Ahead}
use sysc_notify.Presenter.Connection.Gapless.{act_all-Gapless}

-- The deltas that came during the handshake.
unfoldable pub prepare_all : List Outbound → Connection → Connection
unfolding prepare
prepare_all [] c = c
prepare_all (m ∷ ms) c = prepare_all ms (prepare m c).1

-- Nothing has been queued or written.
record Unused (c : Connection) : Type 0 where
  pub quiet : (c.phase ≡ checking_reply) × (c.wire ≡ []) × (c.queue ≡ [])
  pub current : c.resync_needed ≡ false
  pub unframed : (c.resync_frame ≡ none) × (c.resync_tail ≡ [])

prepare-Unused : (m : Outbound) (c : Connection) → Unused c → Unused (prepare m c).1
unfolding prepare reserve
prepare-Unused m c u = ground arith

prepare_all-Unused : (ms : List Outbound) (c : Connection) → Unused c → Unused (prepare_all ms c)
unfolding prepare_all
prepare_all-Unused [] c u = u
prepare_all-Unused (m ∷ ms) c u = prepare_all-Unused ms (prepare m c).1 (prepare-Unused m c u)

Unused-Ahead : (n : ℕ) (c : Connection) → Unused c → Ahead n (record c { last_sequence = n })
Unused-Ahead n c u = record {
  reached = n;
  reach = ap (λ p. advance n (flying p ++ c.queue)) u.quiet.0 ∙ ap (advance n) u.quiet.2;
  level = λ e. refl;
  calm = λ e. u.unframed.0;
  clean = λ e. u.unframed.1;
  follows =
      ap (advance c.resync_seq) u.unframed.1
      ∙ ground arith
      ∙ ap (λ ms. some (c.resync_seq + length ms)) (sym u.unframed.1);
  short = omega (arith, ap length u.unframed.1);
  low = λ e. ground (arith, e, u.unframed.0);
}

send-queues :
    (m : Outbound) (c d : Connection)
    → send m c ≡ some d
    → record c { queue = c.queue ++ m ∷ [] } ≡ d
unfolding send
send-queues m c d e = ground (arith, e)

activate_pending-Ahead :
    (v n : ℕ) (ms : List Outbound) (c c' : Connection)
    → activate_pending n ms c ≡ some (true, c')
    → c.resync_needed ≡ false
    → Ahead v c
    → Ahead v c' × (c'.wire ≡ c.wire)
unfolding activate_pending release
activate_pending-Ahead v n [] c c' e fine a =
    let same : c ≡ c' = ap (λ r. r.1) (some-injective (true, c) (true, c') e) in
    (subst (Ahead v) same a, ap (λ d. d.wire) (sym same))
activate_pending-Ahead v n (m ∷ ms) c c' e fine a = elim (Bool-cases (leb m.sequence n)) [
  | inl old ↦ activate_pending-Ahead v n ms (release m c) c' (ground (arith, e, old)) fine (
      moved-Ahead v v c.failed c.phase c.queue c.reply_hold (c.queued_messages - 1)
        (c.queued_bytes - length m.bytes) c.wire c a a.reach)
  | inr new ↦ elim (Option-cases (validate_next_sequence c.last_sequence m.sequence)) [
    | inr (fault, gap) ↦ ground (arith, e, new, gap)
    | inl valid ↦ elim (Option-cases (send m (record c { last_sequence = m.sequence }))) [
      | inl full ↦ ground (arith, e, new, valid, full)
      | inr (d, sent) ↦
          let there = record c { last_sequence = m.sequence; queue = c.queue ++ m ∷ [] } in
          let same : there ≡ d = send-queues m (record c { last_sequence = m.sequence }) d sent in
          let step : next a.reached m ≡ some m.sequence =
            rw (a.level fine) (next-valid c.last_sequence m valid) in
          let onward : activate_pending n ms there ≡ some (true, c') =
            ap (activate_pending n ms) same ∙ ground (arith, e, new, valid, sent) in
          activate_pending-Ahead v n ms there c' onward fine (
            send-Ahead v m.sequence m.sequence c.queued_messages c.queued_bytes m c a step
              (λ _. refl))
    ]
  ]
]

activate-Gapless :
    (n : ℕ) (c c' : Connection) → Unused c → activate n c ≡ some (true, c') → Gapless n c'
unfolding activate
activate-Gapless n c c' u e =
    elim (Option-cases (activate_pending n c.pending (record c { last_sequence = n }))) [
      | inl stuck ↦ ground (arith, e, stuck)
      | inr ((false, d), went) ↦ ground (arith, e, went)
      | inr ((true, d), went) ↦
          let (a, wire) =
            activate_pending-Ahead n n c.pending (record c { last_sequence = n }) d went u.current
              (Unused-Ahead n c u) in
          let same : record d { pending = []; active = true } ≡ c' = ground (arith, e, went) in
          subst (Gapless n) same (record {
            at = n;
            seen = ap (view n) (wire ∙ u.quiet.1);
            ahead = inr (record {
              reached = a.reached;
              reach = a.reach;
              level = a.level;
              calm = a.calm;
              clean = a.clean;
              follows = a.follows;
              short = a.short;
              low = a.low;
            });
          })
    ]

-- A connection from its start to its activation at a snapshot's sequence number.
unfoldable pub open_session : ℕ → ℕ → List Outbound → Option (Bool × Connection)
unfolding new_connection prepare_all activate
open_session generation sequence early =
    activate sequence (prepare_all early (new_connection generation))

new_connection-Unused : (generation : ℕ) → Unused (new_connection generation)
unfolding new_connection
new_connection-Unused generation = record {
  quiet = (refl, refl, refl);
  current = refl;
  unframed = (refl, refl);
}

prepare-inactive :
    (m : Outbound) (c : Connection) → c.active ≡ false → (prepare m c).1.active ≡ false
unfolding prepare reserve
prepare-inactive m c early = ground (arith, early)

prepare_all-Bounded :
    (ms : List Outbound) (c : Connection)
    → c.active ≡ false
    → Bounded c
    → Bounded (prepare_all ms c)
unfolding prepare_all
prepare_all-Bounded [] c early b = b
prepare_all-Bounded (m ∷ ms) c early b =
    prepare_all-Bounded ms (prepare m c).1 (prepare-inactive m c early)
      (prepare-Bounded m c early b)

pub open_session-Bounded :
    (generation sequence : ℕ) (early : List Outbound)
    → (r : Bool) × (c : Connection) × (open_session generation sequence early ≡ some (r, c))
      × (r ≡ true → Bounded c)
unfolding open_session
open_session-Bounded generation sequence early =
    activate-Bounded sequence (prepare_all early (new_connection generation)) (
      prepare_all-Bounded early (new_connection generation) (unfold new_connection in refl)
        (new_connection-Bounded generation))

opened :
    (generation sequence : ℕ) (early : List Outbound) (c : Connection)
    → open_session generation sequence early ≡ some (true, c)
    → Bounded c × Gapless sequence c
opened generation sequence early c e =
    let (r, d, went, kept) = open_session-Bounded generation sequence early in
    let same : (r, d) ≡ (true, c) = some-injective _ _ (sym went ∙ e) in
    (
      subst Bounded (ap (λ q. q.1) same) (kept (ap (λ q. q.0) same)),
      activate-Gapless sequence (prepare_all early (new_connection generation)) c
          (prepare_all-Unused early (new_connection generation) (new_connection-Unused generation))
          (unfold open_session in e),
    )

-- From the activation of a connection on, whatever deltas, replies and snapshots (with sequence numbers
-- below 2^64 - 257) come, whatever fails and however far the writer gets, no call blocks, and the
-- frames written so far give the presenter no gap: read from the snapshot it was activated at, each
-- delta has the number after the last one or the last snapshot.
pub view-act_all :
    (generation sequence : ℕ) (early : List Outbound) (actions : List Action) (c : Connection)
    → open_session generation sequence early ≡ some (true, c)
    → All (λ a. is_low a ≡ true) actions
    → (c' : Connection) × (v : ℕ) × (act_all actions c ≡ some c') × (view sequence c'.wire ≡ some v)
view-act_all generation sequence early actions c e low =
    let (b, g) = opened generation sequence early c e in
    let (c', went, kept) = act_all-Bounded actions c b in
    let g' = act_all-Gapless sequence actions c c' low went g in (c', g'.at, went, g'.seen)

-- Under the same conditions, when the writer waits on an empty queue and no resync is due, the
-- presenter has reached `last_sequence`.
pub view_drained :
    (generation sequence : ℕ) (early : List Outbound) (actions : List Action) (c c' : Connection)
    (v : ℕ)
    → open_session generation sequence early ≡ some (true, c)
    → All (λ a. is_low a ≡ true) actions
    → act_all actions c ≡ some c'
    → view sequence c'.wire ≡ some v
    → c'.phase ≡ selecting
    → c'.queue ≡ []
    → c'.resync_needed ≡ false
    → v ≡ c'.last_sequence
view_drained generation sequence early actions c c' v e low went seen idle drained current =
    let (b, g) = opened generation sequence early c e in
    let g' = act_all-Gapless sequence actions c c' low went g in
    let same : g'.at ≡ v = some-injective _ _ (sym g'.seen ∙ seen) in
    elim g'.ahead [
      | inl gone ↦ ground (arith, gone, idle)
      | inr a ↦
          let queue_empty = idle_reach g'.at selecting c' a idle refl in
          sym same
          ∙ some-injective _ _ (ap (advance g'.at) (sym drained) ∙ queue_empty)
          ∙ a.level current
    ]
