-- ===== src/Presenter/Connection/CatchUp.antt =====
-- connection.go: a connection from its handshake until it is drained.
use sysc_notify.Base.{
  ℕ, ◌≡◌, refl, ap, sym, subst, ◌∙◌, inl, inr, true, false, List, [], ◌∷◌, ◌++◌, none, some, arith,
  All, leb, Bool-cases, Option-cases,
}
use mathlib.Core.Option.{some-injective}
use mathlib.Core.List.{append_assoc, append-nil}
use sysc_notify.Protocol.Validate.{validate_next_sequence}
use sysc_notify.Presenter.Connection.{
  Outbound, selecting, Connection, new_connection, reserve, release, send, prepare,
  activate_pending, activate,
}
use sysc_notify.Presenter.Connection.Writer.{Action, act_all}
use sysc_notify.Presenter.Connection.View.{view, is_low}
use sysc_notify.Presenter.Connection.Session.{prepare_all, open_session, view_drained}
use sysc_notify.Presenter.Connection.Given.{given_early, given, InOrder, Given, act_all-Given}

-- What the handshake's messages leave.
record Early (last : ℕ) (c : Connection) : Type 0 where
  pub last_given : c.last_sequence ≡ last
  pub current : c.resync_needed ≡ false
  pub unframed : c.resync_frame ≡ none
  pub untailed : c.resync_tail ≡ []

activate_pending-Early :
    (n last : ℕ) (ms : List Outbound) (c c' : Connection)
    → activate_pending n ms c ≡ some (true, c')
    → Early last c
    → Early (given_early n last ms) c'
unfolding activate_pending release
activate_pending-Early n last [] c c' e k =
    subst (Early last) (ap (λ r. r.1) (some-injective (true, c) (true, c') e)) k
activate_pending-Early n last (m ∷ ms) c c' e k = elim (Bool-cases (leb m.sequence n)) [
  | inl old ↦ rw old (
      activate_pending-Early n last ms (release m c) c' (ground (arith, e, old))
        (unfold release in ground (arith, k)))
  | inr new ↦ elim (Option-cases (validate_next_sequence c.last_sequence m.sequence)) [
    | inr (fault, gap) ↦ ground (arith, e, new, gap)
    | inl valid ↦ elim (Option-cases (send m (record c { last_sequence = m.sequence }))) [
      | inl full ↦ ground (arith, e, new, valid, full)
      | inr (d, sent) ↦ rw new (
          activate_pending-Early n m.sequence ms d c' (ground (arith, e, new, valid, sent))
            (unfold send in ground (arith, k, sent)))
    ]
  ]
]

-- What a connection in its handshake holds, unless it has failed.
prepare_all-pending :
    (ms : List Outbound) (c : Connection)
    → (prepare_all ms c).failed ≡ false
    → ((prepare_all ms c).pending ≡ c.pending ++ ms) × (c.failed ≡ false)
unfolding prepare_all
prepare_all-pending [] c e = (sym (append-nil c.pending), e)
prepare_all-pending (m ∷ ms) c e =
    let (all, live) = prepare_all-pending ms (prepare m c).1 e in
    let (one, before) = prepared live in
    (all ∙ ap (λ q. q ++ ms) one ∙ append_assoc c.pending (m ∷ []) ms, before)
  where
    prepared :
        (prepare m c).1.failed ≡ false
        → ((prepare m c).1.pending ≡ c.pending ++ m ∷ []) × (c.failed ≡ false)
    prepared live = unfold prepare in unfold reserve in ground (arith, live)

prepare_all-Early :
    (ms : List Outbound) (n : ℕ) (c : Connection)
    → Early n (record c { last_sequence = n })
    → Early n (record (prepare_all ms c) { last_sequence = n })
unfolding prepare_all
prepare_all-Early [] n c k = k
prepare_all-Early (m ∷ ms) n c k =
    prepare_all-Early ms n (prepare m c).1 (unfold prepare in unfold reserve in ground (arith, k))

activate-Given :
    (n : ℕ) (c c' : Connection)
    → activate n c ≡ some (true, c')
    → Early n (record c { last_sequence = n })
    → (c.failed ≡ false) × Given (given_early n n c.pending) c'
unfolding activate
activate-Given n c c' e k =
    elim (Option-cases (activate_pending n c.pending (record c { last_sequence = n }))) [
      | inl stuck ↦ ground (arith, e, stuck)
      | inr ((false, d), went) ↦ ground (arith, e, went)
      | inr ((true, d), went) ↦
          let same : record d { pending = []; active = true } ≡ c' = ground (arith, e, went) in
          let early =
            activate_pending-Early n n c.pending (record c { last_sequence = n }) d went k in
          (
            ground (arith, e),
            subst (Given (given_early n n c.pending)) same (ground (arith, early)),
          )
    ]

open_session-Given :
    (generation n : ℕ) (early : List Outbound) (c : Connection)
    → open_session generation n early ≡ some (true, c)
    → Given (given_early n n early) c
unfolding open_session
open_session-Given generation n early c e =
    let start = new_connection generation in
    let fresh : Early n (record start { last_sequence = n }) =
      unfold new_connection in
      record { last_given = refl; current = refl; unframed = refl; untailed = refl } in
    let (live, k) =
      activate-Given n (prepare_all early start) c e (prepare_all-Early early n start fresh) in
    let held : (prepare_all early start).pending ≡ early =
      (prepare_all-pending early start live).0 ∙ unfold new_connection in refl in
    subst (λ ms. Given (given_early n n ms) c) held k

-- For a session as in `view-act_all`, whose snapshots each have the number of the last delta given
-- before them, and that has not failed: when the writer waits on an empty queue and no resync is due,
-- the presenter has reached the last number that the connection was given, by the snapshot of the
-- handshake, a delta during the handshake that is later than it, or a delta after the activation.
pub view_catches_up :
    (generation sequence : ℕ) (early : List Outbound) (actions : List Action) (c c' : Connection)
    (v : ℕ)
    → open_session generation sequence early ≡ some (true, c)
    → All (λ a. is_low a ≡ true) actions
    → InOrder (given_early sequence sequence early) actions
    → act_all actions c ≡ some c'
    → view sequence c'.wire ≡ some v
    → c'.failed ≡ false
    → c'.phase ≡ selecting
    → c'.queue ≡ []
    → c'.resync_needed ≡ false
    → v ≡ given (given_early sequence sequence early) actions
view_catches_up generation sequence early actions c c' v e low order went seen live idle drained
      current =
    let start = open_session-Given generation sequence early c e in
    let k = act_all-Given (given_early sequence sequence early) actions c c' low order went start in
    view_drained generation sequence early actions c c' v e low went seen idle drained current
    ∙ k.level live current
