-- ===== src/Fdo/Order.antt =====
-- internal/fdo/order.go: tickets that put the calls of one sender back into the order in which they
-- arrived. A Go map from senders to counters is a function, 0 where there is no entry, as a lookup
-- answers it; so deleting an entry is setting it to 0. Each step is what runs under the mutex. `asleep`
-- is the condition variable: `Wait` puts a call to sleep, and it goes on only after a `Broadcast`, which
-- wakes all of them.
pub mod Fifo
pub mod Turns
pub mod Fair
use sysc_notify.Base.{
  ℕ, ◌+◌, ◌^◌, ◌%◌, Bool, true, false, not, ◌||◌, ◌&&◌, List, [], ◌∷◌, Option, none, some, Text,
  codes, text_eq, ◌==◌, if◌then◌else◌,
}

-- The headers that the order reads; `none` is a header of another type. Senders are numbered.
pub record Message : Type 0 where
  pub method_call : Bool
  pub path : Option Text
  pub interface : Option Text
  pub member : Text
  pub signature : Text
  pub sender : Option ℕ

abbrev names : Option Text → Text → Bool
names none t = false
names (some s) t = text_eq s t

abbrev object_path : Text
object_path = codes "/org/freedesktop/Notifications"

abbrev interface_name : Text
interface_name = codes "org.freedesktop.Notifications"

abbrev pub notify_signature : Text
notify_signature = codes "susssasa{sv}i"

abbrev pub close_signature : Text
close_signature = codes "u"

unfoldable pub is_ticketed : Message → Bool
is_ticketed m =
    if not m.method_call || not (names m.path object_path) || not (names m.interface interface_name)
    then false
    else if text_eq m.member (codes "Notify")
    then text_eq m.signature notify_signature
    else if text_eq m.member (codes "CloseNotification")
    then text_eq m.signature close_signature
    else false

pub record CallOrder : Type 0 where
  pub issued : ℕ → ℕ
  pub turn : ℕ → ℕ
  pub tickets : ℕ → Option ℕ
  pub asleep : ℕ → Bool
  pub closed : Bool

unfoldable pub new_call_order : CallOrder
new_call_order = record {
  issued = λ a. 0;
  turn = λ a. 0;
  tickets = λ m. none;
  asleep = λ m. false;
  closed = false;
}

abbrev pub put {ℓ} : {A : Type ℓ} → ℕ → A → (ℕ → A) → ℕ → A
put h a f k = if k == h then a else f k

abbrev increment : ℕ → ℕ
increment n = (n + 1) % 2 ^ 64

abbrev pub issue : ℕ → ℕ → CallOrder → CallOrder
issue id a o = record o {
  issued = put a (increment (o.issued a)) o.issued;
  tickets = put id (some (o.issued a)) o.tickets;
}

abbrev pub sent_by : Option ℕ → ℕ → CallOrder → CallOrder
sent_by none id o = o
sent_by (some a) id o = if o.closed then o else issue id a o

-- `Observe`, for the message that `id` names.
unfoldable pub observe : Message → ℕ → CallOrder → CallOrder
unfolding is_ticketed
observe m id o = if is_ticketed m then sent_by m.sender id o else o

-- What `Enter` comes to: the call waits with its ticket, has its turn, which it will give up, or passes
-- with nothing to give up.
pub data Entry : Type 0 where
  waits : ℕ → Entry
  has_turn : ℕ → Entry
  passes : Entry

-- The loop of `Enter`, each time that it looks.
unfoldable pub look : ℕ → ℕ → CallOrder → Entry
look a ticket o =
    if o.closed then passes else if o.turn a == ticket then has_turn ticket else waits ticket

-- `cond.Wait`, where the loop finds that it must wait.
abbrev pub sleeps : ℕ → Entry → CallOrder → CallOrder
sleeps id (waits t) o = record o { asleep = put id true o.asleep }
sleeps id _ o = o

-- `cond.Broadcast`.
abbrev pub broadcast : CallOrder → CallOrder
broadcast o = record o { asleep = λ m. false }

unfoldable pub enter : Option ℕ → ℕ → CallOrder → Entry × CallOrder
unfolding look
enter none id o = (passes, o)
enter (some a) id o = elim (o.tickets id) [
  | none ↦ (passes, o)
  | some ticket ↦
      let o' = record o { tickets = put id none o.tickets } in
      (look a ticket o', sleeps id (look a ticket o') o')
]

unfoldable pub advance : ℕ → CallOrder → CallOrder
advance a o =
    let turn = increment (o.turn a) in
    broadcast (
      if turn == o.issued a
      then record o { turn = put a 0 o.turn; issued = put a 0 o.issued }
      else record o { turn = put a turn o.turn })

unfoldable pub close : CallOrder → CallOrder
close o = broadcast (record o { closed = true; tickets = λ m. none })

-- A call: not yet observed, observed and dispatched, waiting, in its turn, past `Enter` with no turn,
-- at its end.
pub data Call : Type 0 where
  unseen dispatched : Call
  waiting inside : ℕ → Call
  through ended : Call

abbrev pub call_of : Entry → Call
call_of (waits t) = waiting t
call_of (has_turn t) = inside t
call_of passes = through

-- The calls of a bus, each message with a number of its own.
pub record Bus : Type 0 where
  pub order : CallOrder
  pub call : ℕ → Call

unfoldable pub new_bus : Bus
unfolding new_call_order
new_bus = record { order = new_call_order; call = λ m. unseen }

-- What comes next for a message: it arrives, its handler enters, looks again if it is not asleep, ends; or
-- the server closes.
pub data Step : Type 0 where
  arrives enters wakes ends : ℕ → Step
  closes : Step

abbrev pub entered : ℕ → Bus → Entry × CallOrder → Bus
entered id b (e, o) = record { order = o; call = put id (call_of e) b.call }

abbrev pub release : Option ℕ → CallOrder → CallOrder
release none o = o
release (some a) o = advance a o

abbrev pub sender_looks : Option ℕ → ℕ → CallOrder → Entry
sender_looks none ticket o = passes
sender_looks (some a) ticket o = look a ticket o

-- What a call finds once it is awake.
abbrev pub looks_again : ℕ → Entry → Bus → Bus
looks_again id e b = entered id b (e, sleeps id e b.order)

module _ (message : ℕ → Message) where
  abbrev pub arrive : Call → ℕ → Bus → Bus
  arrive unseen id b = record {
    order = observe (message id) id b.order;
    call = put id dispatched b.call;
  }
  arrive _ id b = b

  abbrev pub admit : Call → ℕ → Bus → Bus
  admit dispatched id b = entered id b (enter (message id).sender id b.order)
  admit _ id b = b

  abbrev pub wake : Call → ℕ → Bus → Bus
  wake (waiting t) id b =
      if b.order.asleep id then b else looks_again id (sender_looks (message id).sender t b.order) b
  wake _ id b = b

  abbrev pub finish : Call → ℕ → Bus → Bus
  finish (inside t) id b = record {
    order = release (message id).sender b.order;
    call = put id ended b.call;
  }
  finish through id b = record b { call = put id ended b.call }
  finish _ id b = b

  unfoldable pub step : Step → Bus → Bus
  unfolding observe look enter advance close
  step (arrives id) b = arrive (b.call id) id b
  step (enters id) b = admit (b.call id) id b
  step (wakes id) b = wake (b.call id) id b
  step (ends id) b = finish (b.call id) id b
  step closes b = record b { order = close b.order }

  unfoldable pub run : List Step → Bus → Bus
  unfolding step
  run [] b = b
  run (a ∷ rest) b = run rest (step a b)
