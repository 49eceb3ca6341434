-- ===== src/Presenter/Connection/View.antt =====
-- connection.go: what a presenter reads off the wire, and what a connection still owes it.
use sysc_notify.Base.{
  ℕ, ◌+◌, ◌^◌, ◌≤◌, ◌<◌, ◌≡◌, ap, sym, ◌∙◌, ◌⊎◌, inl, inr, Bool, true, false, List, [], ◌∷◌, ◌++◌,
  Option, none, some, Text, arith, length, is_some, ltb, ◌==◌, if◌then◌else◌, Option-cases, ◌>>=◌,
}
use sysc_notify.Protocol.Validate.{validate_next_sequence}
use sysc_notify.Presenter.Connection.{
  max_presenter_queue_messages, Outbound, Sent, queued, snapshot, parked, Phase, stopped,
  Connection,
}
use sysc_notify.Presenter.Connection.Writer.{Action, resynced}
use sysc_notify.Presenter.Connection.Bounds.{flying}

-- A presenter at sequence `n` reads a message: a reply leaves it there, a delta must be the next.
abbrev pub next : ℕ → Outbound → Option ℕ
next n m = if m.sequence == 0 then some n else if m.sequence == n + 1 then some m.sequence else none

abbrev pub advance : ℕ → List Outbound → Option ℕ
advance n [] = some n
advance n (m ∷ ms) = next n m >>= λ k. advance k ms

abbrev pub see : ℕ → Sent → Option ℕ
see n (queued m) = next n m
see n (snapshot sequence frame) = some sequence
see n (parked frame) = some n

-- The sequence that it has reached after a stream of frames; `none` is a gap.
abbrev pub view : ℕ → List Sent → Option ℕ
view n [] = some n
view n (frame ∷ frames) = see n frame >>= λ k. view k frames

pub view-append_one :
    (n v : ℕ) (frames : List Sent) (frame : Sent)
    → view n frames ≡ some v
    → view n (frames ++ frame ∷ []) ≡ see v frame
view-append_one n v [] frame e = ground arith
view-append_one n v (x ∷ frames) frame e = elim (Option-cases (see n x)) [
  | inl gap ↦ ground arith
  | inr (k, step) ↦ rw step (view-append_one k v frames frame (ground arith))
]

pub advance-append_one :
    (n w : ℕ) (ms : List Outbound) (m : Outbound)
    → advance n ms ≡ some w
    → advance n (ms ++ m ∷ []) ≡ next w m
advance-append_one n w [] m e = ground arith
advance-append_one n w (x ∷ ms) m e = elim (Option-cases (next n x)) [
  | inl gap ↦ ground arith
  | inr (k, step) ↦ rw step (advance-append_one k w ms m (ground arith))
]

-- The next sequence number, as the connection checks it, is the next for the presenter.
pub next-valid :
    (n : ℕ) (m : Outbound) → validate_next_sequence n m.sequence ≡ none → next n m ≡ some m.sequence
unfolding validate_next_sequence
next-valid n m e = ground arith

-- While its writer runs, a connection still owes the presenter at `v` what it has in flight, in the
-- queue and behind the snapshot.
pub record Ahead (v : ℕ) (c : Connection) : Type 0 where
  pub reached : ℕ
  pub reach : advance v (flying c.phase ++ c.queue) ≡ some reached
  pub level : c.resync_needed ≡ false → reached ≡ c.last_sequence
  pub calm : c.resync_needed ≡ false → c.resync_frame ≡ none
  pub clean : c.resync_frame ≡ none → c.resync_tail ≡ []
  pub follows : advance c.resync_seq c.resync_tail ≡ some (c.resync_seq + length c.resync_tail)
  pub short : length c.resync_tail ≤ max_presenter_queue_messages
  pub low : is_some c.resync_frame ≡ true → c.resync_seq + max_presenter_queue_messages + 1 < 2 ^ 64

-- The presenter's view of what is written, and how the connection goes on from there.
pub record Gapless (base : ℕ) (c : Connection) : Type 0 where
  pub at : ℕ
  pub seen : view base c.wire ≡ some at
  pub ahead : (c.phase ≡ stopped none) ⊎ Ahead at c

-- A snapshot's sequence number is far from the largest.
abbrev pub is_low : Action → Bool
is_low (resynced frame n) = ltb (n + max_presenter_queue_messages + 1) (2 ^ 64)
is_low _ = true

pub advance-first :
    (v w : ℕ) (m : Outbound) (q : List Outbound)
    → advance v (m ∷ q) ≡ some w
    → (k : ℕ) × (next v m ≡ some k) × (advance k q ≡ some w)
advance-first v w m q e = elim (Option-cases (next v m)) [
  | inl gap ↦ ground arith
  | inr (k, step) ↦ (k, step, ground arith)
]

-- An Ahead connection whose writer has moved to another phase and another place in the queue.
pub moved-Ahead :
    (v v' : ℕ) (gone : Bool) (p : Phase) (q : List Outbound) (hold : Option Text)
    (messages bytes : ℕ) (wire : List Sent) (c : Connection) (a : Ahead v c)
    → advance v' (flying p ++ q) ≡ some a.reached
    → Ahead v' (record c {
      failed = gone;
      phase = p;
      queue = q;
      reply_hold = hold;
      queued_messages = messages;
      queued_bytes = bytes;
      wire = wire;
    })
moved-Ahead v v' gone p q hold messages bytes wire c a same = record {
  reached = a.reached;
  reach = same;
  level = a.level;
  calm = a.calm;
  clean = a.clean;
  follows = a.follows;
  short = a.short;
  low = a.low;
}

pub idle_reach :
    (v : ℕ) (p : Phase) (c : Connection) (a : Ahead v c)
    → c.phase ≡ p
    → flying p ≡ []
    → advance v c.queue ≡ some a.reached
idle_reach v p c a there idle =
    ap (λ f. advance v (f ++ c.queue)) (sym (ap flying there ∙ idle)) ∙ a.reach
