-- ===== src/Presenter/Connection/Given.antt =====
-- connection.go: what a connection was given, and what it has of it.
use sysc_notify.Base.{
  ℕ, ◌+◌, ◌^◌, ◌≤◌, ◌<◌, ◌≡◌, subst, inl, inr, Bool, true, false, List, [], ◌∷◌, none, some, Text,
  arith, length, length-append, is_some, All, leb, ◌==◌, if◌then◌else◌, Bool-cases, Option-cases,
}
use mathlib.Core.Option.{some-injective}
use sysc_notify.Presenter.Connection.{
  max_presenter_queue_messages, Outbound, Phase, checking_reply, checking_resync, selecting,
  stopped, writing, Connection, reserve, reserve_tail, release, send, begin_resync, extend_tail,
  queue_delta, enqueue_delta, enqueue_snapshot, place_reply, enqueue,
}
use sysc_notify.Presenter.Connection.Writer.{
  take_reply, write_resync, write_phase, Action, delta, resynced, reply, write_step, closed,
  failure, act, act_all,
}
use sysc_notify.Presenter.Connection.View.{is_low}
use sysc_notify.Presenter.Connection.Written.{swapped, take_resync-swapped, take_resync-waits}

-- The last number that a connection was given, if it was at `g` before: by the deltas during the
-- handshake that are later than the snapshot at `n`,
abbrev pub given_early : ℕ → ℕ → List Outbound → ℕ
given_early n g [] = g
given_early n g (m ∷ ms) = given_early n (if leb m.sequence n then g else m.sequence) ms

-- and by the deltas that come afterwards.
abbrev pub given : ℕ → List Action → ℕ
given g [] = g
given g (delta m ∷ rest) = given m.sequence rest
given g (_ ∷ rest) = given g rest

-- Each snapshot has the number of the last delta before it, as the owner sends them in one order.
abbrev pub InOrder : ℕ → List Action → Type 0
InOrder g [] = Unit
InOrder g (delta m ∷ rest) = InOrder m.sequence rest
InOrder g (resynced frame n ∷ rest) = (n ≡ g) × InOrder g rest
InOrder g (_ ∷ rest) = InOrder g rest

-- A connection that was given the numbers up to `g`: unless it has failed, it has put the last one into
-- its queue, or behind the snapshot that is due.
pub record Given (g : ℕ) (c : Connection) : Type 0 where
  pub active : c.active ≡ true
  pub calm : c.resync_needed ≡ false → c.resync_frame ≡ none
  pub clean : c.resync_frame ≡ none → c.resync_tail ≡ []
  pub short : length c.resync_tail ≤ max_presenter_queue_messages
  pub low : is_some c.resync_frame ≡ true → c.resync_seq + max_presenter_queue_messages + 1 < 2 ^ 64
  pub level : c.failed ≡ false → c.resync_needed ≡ false → c.last_sequence ≡ g
  pub covered :
      c.failed ≡ false → is_some c.resync_frame ≡ true → c.resync_seq + length c.resync_tail ≡ g

extend_tail-Given :
    (g : ℕ) (m : Outbound) (c : Connection)
    → c.resync_needed ≡ true
    → Given g c
    → Given m.sequence (extend_tail m c).2
unfolding extend_tail reserve_tail
extend_tail-Given g m c due k = ground (arith, due, k, length-append c.resync_tail (m ∷ []))

queue_delta-Given :
    (g : ℕ) (m : Outbound) (c : Connection)
    → c.resync_needed ≡ false
    → Given g c
    → Given m.sequence (queue_delta m c).2
unfolding queue_delta reserve release send begin_resync
queue_delta-Given g m c fine k = ground (arith, fine, k)

delta-Given :
    (g : ℕ) (m : Outbound) (c : Connection) → Given g c → Given m.sequence (enqueue_delta m c).2
unfolding enqueue_delta
delta-Given g m c k = ground (arith, k, extend_tail-Given g m c, queue_delta-Given g m c)

snapshot-Given :
    (g n : ℕ) (frame : Text) (c : Connection)
    → n + max_presenter_queue_messages + 1 < 2 ^ 64
    → n ≡ g
    → Given g c
    → Given g (enqueue_snapshot frame n c).1
unfolding enqueue_snapshot
snapshot-Given g n frame c low same k = ground (arith, low, same, k)

reply-Given : (g : ℕ) (bytes : Text) (c : Connection) → Given g c → Given g (enqueue bytes c).1
unfolding enqueue place_reply reserve release send
reply-Given g bytes c k = ground (arith, k)

write_resync-Given :
    (g : ℕ) (fine : Bool) (frame : Text) (c : Connection)
    → c.resync_frame ≡ some frame
    → Given g c
    → Given g (write_resync fine (some (c.resync_seq, frame), swapped c))
write_resync-Given g fine frame c framed k = ground (arith, framed, k)

write_phase-Given :
    (g : ℕ) (p : Phase) (fine woken : Bool) (c c' : Connection)
    → write_phase p fine woken c ≡ some c'
    → Given g c
    → Given g c'
unfolding write_phase
write_phase-Given g checking_reply fine woken c c' e k = unfold take_reply in ground (arith, e, k)
write_phase-Given g checking_resync fine woken c c' e k = elim (Option-cases c.resync_frame) [
  | inl unframed ↦ ground (arith, e, k, take_resync-waits c (inl unframed))
  | inr (frame, framed) ↦ elim (Bool-cases (length c.queue == 0)) [
    | inr busy ↦ ground (arith, e, k, take_resync-waits c (inr busy))
    | inl empty ↦
        let swap = take_resync-swapped c frame framed (ground (arith, empty)) k.short in
        let there : write_resync fine (some (c.resync_seq, frame), swapped c) ≡ c' =
          ground (arith, e, swap) in
        subst (Given g) there (write_resync-Given g fine frame c framed k)
  ]
]
write_phase-Given g selecting fine true c c' e k = ground (arith, e, k)
write_phase-Given g selecting fine false c c' e k = ground (arith, e, k)
write_phase-Given g (writing m) fine woken c c' e k = unfold release in ground (arith, e, k)
write_phase-Given g (stopped lost) fine woken c c' e k = ground (arith, e, k)

pub act_all-Given :
    (g : ℕ) (actions : List Action) (c c' : Connection)
    → All (λ a. is_low a ≡ true) actions
    → InOrder g actions
    → act_all actions c ≡ some c'
    → Given g c
    → Given (given g actions) c'
unfolding act_all act
act_all-Given g [] c c' low order e k = subst (Given g) (some-injective _ _ e) k
act_all-Given g (delta m ∷ rest) c c' low order e k =
    act_all-Given m.sequence rest _ c' low.1 order e (delta-Given g m c k)
act_all-Given g (resynced frame n ∷ rest) c c' low order e k =
    let near : n + max_presenter_queue_messages + 1 < 2 ^ 64 = ground (arith, low.0) in
    act_all-Given g rest _ c' low.1 order.1 e (snapshot-Given g n frame c near order.0 k)
act_all-Given g (reply bytes ∷ rest) c c' low order e k =
    act_all-Given g rest _ c' low.1 order e (reply-Given g bytes c k)
act_all-Given g (write_step fine woken ∷ rest) c c' low order e k =
    elim (Option-cases (write_phase c.phase fine woken c)) [
      | inl stuck ↦ ground (arith, e, stuck)
      | inr (d, once) ↦
          act_all-Given g rest d c' low.1 order (ground (arith, e, once))
            (write_phase-Given g c.phase fine woken c d once k)
    ]
act_all-Given g (closed ∷ rest) c c' low order e k =
    act_all-Given g rest _ c' low.1 order e (ground (arith, k))
act_all-Given g (failure ∷ rest) c c' low order e k =
    act_all-Given g rest _ c' low.1 order e (ground (arith, k))
