-- ===== src/Tests/Wire.antt =====
-- The theorems on a presenter's connection, applied to one session, and a run of its writer.
use sysc_notify.Base.{
  ℕ, suc, zero, ◌+◌, ◌≡◌, refl, true, false, List, [], ◌∷◌, ◌++◌, Option, none, some, arith,
}
use sysc_notify.Presenter.Connection.{
  Outbound, Sent, queued, parked, checking_reply, selecting, Connection, reserve, release, send,
  place_reply, reply_message,
}
use sysc_notify.Presenter.Connection.Writer.{Action, delta, resynced, reply, write_step, act_all}
use sysc_notify.Presenter.Connection.Bounds.{Bounded}
use sysc_notify.Presenter.Connection.Unblocked.{act_all-Bounded}
use sysc_notify.Presenter.Connection.View.{view}
use sysc_notify.Presenter.Connection.Session.{open_session, view-act_all}
use sysc_notify.Presenter.Connection.CatchUp.{view_catches_up}
use sysc_notify.Protocol.Validate.{validate_next_sequence}

abbrev change : ℕ → Outbound
change n = record { bytes = n ∷ []; sequence = n }

-- Activated at 3, with the change 4 queued and the change 3 released.
abbrev ready : Connection
ready = record {
  generation = 7;
  producer = false;
  queue = change 4 ∷ [];
  pending = [];
  queued_messages = 1;
  queued_bytes = 1;
  last_sequence = 4;
  last_request_id = 0;
  active = true;
  failed = false;
  resync_needed = false;
  resync_scheduled = false;
  resync_frame = none;
  resync_seq = 0;
  resync_tail = [];
  resync_tail_bytes = 0;
  reply_hold = none;
  phase = checking_reply;
  wire = [];
}

ready_opens : open_session 7 3 (change 3 ∷ change 4 ∷ []) ≡ some (true, ready)
unfolding open_session validate_next_sequence release send
ready_opens = refl

ready-Bounded : Bounded ready
ready-Bounded = record {
  messages = refl;
  bytes = refl;
  few = omega arith;
  light = omega arith;
  tail_few = omega arith;
  tail_bytes = refl;
  tail_light = omega arith;
  settled = λ e. refl;
  due = λ e. refl;
}

abbrev day : List Action
day =
    delta (change 5)
    ∷ reply (80 ∷ [])
    ∷ resynced (81 ∷ []) 9
    ∷ write_step true false
    ∷ write_step true false
    ∷ write_step true false
    ∷ write_step true true
    ∷ []

act_all-Bounded_example : (c' : Connection) × (act_all day ready ≡ some c') × Bounded c'
act_all-Bounded_example = act_all-Bounded day ready ready-Bounded

view-act_all_example :
    (c' : Connection) × (v : ℕ) × (act_all day ready ≡ some c') × (view 3 c'.wire ≡ some v)
view-act_all_example =
    view-act_all 7 3 (change 3 ∷ change 4 ∷ []) day ready ready_opens
      (refl, (refl, (refl, (refl, (refl, (refl, (refl, _)))))))

-- A change comes, and the writer sends the two and comes to wait.
abbrev turn : List Action
turn =
    write_step true false
    ∷ write_step true false
    ∷ delta (change 5)
    ∷ write_step true false
    ∷ write_step true false
    ∷ write_step true false
    ∷ write_step true false
    ∷ write_step true false
    ∷ write_step true false
    ∷ write_step true false
    ∷ write_step true false
    ∷ []

abbrev idle : Connection
idle = record ready {
  queue = [];
  queued_messages = 0;
  queued_bytes = 0;
  last_sequence = 5;
  phase = selecting;
  wire = queued (change 4) ∷ queued (change 5) ∷ [];
}

idle_comes : act_all turn ready ≡ some idle
unfolding act_all validate_next_sequence reserve send
idle_comes = refl

view_catches_up_example : ◌≡◌ {A = ℕ} 5 5
view_catches_up_example =
    view_catches_up 7 3 (change 3 ∷ change 4 ∷ []) turn ready idle 5 ready_opens
      (refl, (refl, (refl, (refl, (refl, (refl, (refl, (refl, (refl, (refl, (refl, _))))))))))) tt
      idle_comes refl refl refl refl refl

abbrev changes : ℕ → ℕ → List Outbound
changes zero n = []
changes (suc k) n = change n ∷ changes k (n + 1)

-- A queue of 255 changes and, last, the reply 100.
abbrev full : Connection
full = record ready {
  queue = change 4 ∷ changes 254 5 ++ reply_message (100 ∷ []) ∷ [];
  queued_messages = 256;
  queued_bytes = 256;
  last_sequence = 258;
}

abbrev wire_of : Option Connection → List Sent
wire_of none = []
wire_of (some c) = c.wire

-- The reply 101 is parked, and written before the reply 100 that came first.
replies_overtake :
    wire_of (act_all (reply (101 ∷ []) ∷ write_step true false ∷ []) full) ≡ parked (101 ∷ []) ∷ []
unfolding act_all place_reply reserve
replies_overtake = refl
