-- ===== src/Fdo/Order/Turns.antt =====
-- order.go: the calls of one sender take their turns in the order in which they arrived.
use sysc_notify.Base.{
  ℕ, suc, ◌+◌, ◌^◌, ◌<◌, ◌≡◌, refl, ap, sym, subst, ◌∙◌, inl, inr, Bool, true, false, List, [], ◌∷◌,
  ◌++◌, Option, none, some, ◌==◌, ◌&&◌, if◌then◌else◌, length, arith, Option-cases,
}
use mathlib.Core.Option.{some-injective}
use mathlib.Core.List.{append_assoc}
use sysc_notify.Fdo.Order.{
  Message, is_ticketed, put, issue, sent_by, observe, Entry, waits, has_turn, passes, look, enter,
  sleeps, looks_again, advance, close, Call, unseen, dispatched, waiting, inside, through, ended,
  Bus, new_bus, Step, arrives, enters, wakes, ends, closes, entered, release, sender_looks, arrive,
  admit, wake, finish, step, run,
}
use sysc_notify.Fdo.Order.Fifo.{
  nth, held, ticket_of, is_unseen, sender_of, Fifo, new_bus-Fifo, issued-Fifo, moved-Fifo,
  finished-Fifo,
}

-- The calls of each sender that have got a ticket, and those of them that have had their turn.
pub record Log : Type 0 where
  pub arrived : ℕ → List ℕ
  pub finished : ℕ → List ℕ

abbrev pub no_calls : Log
no_calls = record { arrived = λ a. []; finished = λ a. [] }

pub nth_zero : (xs : List ℕ) (x : ℕ) → nth xs 0 ≡ some x → (rest : List ℕ) × (xs ≡ x ∷ rest)
nth_zero [] x e = ground (arith, e)
nth_zero (y ∷ ys) x e = (ys, ground (arith, e))

module _ (message : ℕ → Message) where
  abbrev pub note_arrival : Option ℕ → Bool → ℕ → Log → Log
  note_arrival (some a) true id l = record l { arrived = put a (l.arrived a ++ id ∷ []) l.arrived }
  note_arrival _ _ id l = l

  abbrev pub note_end : Option ℕ → ℕ → Log → Log
  note_end (some a) id l = record l { finished = put a (l.finished a ++ id ∷ []) l.finished }
  note_end none id l = l

  abbrev pub arrives_at : Call → ℕ → Log → Log
  arrives_at unseen id l = note_arrival (message id).sender (is_ticketed (message id)) id l
  arrives_at _ id l = l

  abbrev pub ends_at : Call → ℕ → Log → Log
  ends_at (inside t) id l = note_end (message id).sender id l
  ends_at _ id l = l

  abbrev pub note : Step → Bus → Log → Log
  note (arrives id) b l = arrives_at (b.call id) id l
  note (ends id) b l = ends_at (b.call id) id l
  note _ b l = l

  abbrev pub log : List Step → Bus → Log → Log
  log [] b l = l
  log (a ∷ rest) b l = log rest (step message a b) (note a b l)

  -- A bus whose order is open, with its queues.
  pub record Ordered (n : ℕ) (b : Bus) (l : Log) : Type 0 where
    pub queue : ℕ → List ℕ
    pub fifo : Fifo message n queue b
    pub accounts : (a : ℕ) → l.arrived a ≡ l.finished a ++ queue a

  later-Ordered : (n : ℕ) (b : Bus) (l : Log) → Ordered n b l → Ordered (n + 1) b l
  later-Ordered n b l o = record {
    queue = o.queue;
    fifo = record {
      open_order = o.fifo.open_order;
      count = o.fifo.count;
      small = λ a. omega (arith, o.fifo.small a);
      numbered = o.fifo.numbered;
      placed = o.fifo.placed;
      first = o.fifo.first;
      awake = o.fifo.awake;
      fresh = o.fifo.fresh;
    };
    accounts = o.accounts;
  }

  -- What has no sender has no ticket.
  unsent :
      (n : ℕ) (q : ℕ → List ℕ) (b : Bus) (id : ℕ)
      → Fifo message n q b
      → sender_of message id ≡ none
      → ticket_of b id ≡ none
  unsent n q b id f e = elim (Option-cases (ticket_of b id)) [
    | inl nothing ↦ nothing
    | inr (t, holds) ↦ let (a, s, after, found) = f.placed id t holds in ground (arith, s, e)
  ]

  -- A call moves on, and the queues stay.
  moved-Ordered :
      (n : ℕ) (b : Bus) (l : Log) (id : ℕ) (p : Call) (tickets : ℕ → Option ℕ) (asleep : ℕ → Bool)
      → is_unseen p ≡ false
      → ((id' : ℕ) → (id' == id) ≡ false → tickets id' ≡ b.order.tickets id')
      → ((id' : ℕ) → (id' == id) ≡ false → asleep id' ≡ b.order.asleep id')
      → held p (tickets id) ≡ ticket_of b id
      → ((t a : ℕ) → p ≡ inside t → sender_of message id ≡ some a → t ≡ b.order.turn a)
      → ((t a : ℕ)
          → p ≡ waiting t
          → sender_of message id ≡ some a
          → (asleep id && b.order.turn a == t) ≡ false)
      → Ordered n b l
      → Ordered
          (n + 1)
          (record {
            order = record b.order { tickets = tickets; asleep = asleep };
            call = put id p b.call;
          })
          l
  moved-Ordered n b l id p tickets asleep seen others apart same turn woken o =
      later-Ordered n _ l (record {
        queue = o.queue;
        fifo =
            moved-Fifo message n o.queue b id p tickets asleep seen others apart same turn woken
              o.fifo;
        accounts = o.accounts;
      })

  arrive-Ordered :
      (n : ℕ) (p : Call) (b : Bus) (id : ℕ) (l : Log)
      → n + 1 < 2 ^ 64
      → b.call id ≡ p
      → Ordered n b l
      → Ordered (n + 1) (arrive message p id b) (arrives_at p id l)
  unfolding observe
  arrive-Ordered n unseen b id l few new o = go (is_ticketed (message id)) (message id).sender refl
    where
      blank : b.order.tickets id ≡ ticket_of b id
      blank = o.fifo.fresh id (ap is_unseen new) ∙ sym (ap (λ p. held p (b.order.tickets id)) new)

      quiet : Ordered (n + 1) (record { order = b.order; call = put id dispatched b.call }) l
      quiet =
          moved-Ordered n b l id dispatched b.order.tickets b.order.asleep refl (λ id' e. refl)
            (λ id' e. refl) blank (λ t a e. ground (arith, e)) (λ t a e. ground (arith, e)) o

      go :
          (ordered : Bool) (from : Option ℕ)
          → (message id).sender ≡ from
          → Ordered
              (n + 1)
              (record {
                order = if ordered then sent_by from id b.order else b.order;
                call = put id dispatched b.call;
              })
              (note_arrival from ordered id l)
      go false none e = quiet
      go false (some a) e = quiet
      go true none e = quiet
      go true (some a) e =
          subst
            (λ c.
              Ordered (n + 1)
                (record {
                  order = if c then b.order else issue id a b.order;
                  call = put id dispatched b.call;
                })
                (note_arrival (some a) true id l))
            (sym o.fifo.open_order)
            (record {
              queue = put a (o.queue a ++ id ∷ []) o.queue;
              fifo = issued-Fifo message n o.queue b id a few new e o.fifo;
              accounts = λ a'.
                  ground (arith, o.accounts a', append_assoc (l.finished a) (o.queue a) (id ∷ []));
            })
  arrive-Ordered n _ b id l few e o = later-Ordered n b l o

  look-Ordered :
      (n : ℕ) (b : Bus) (l : Log) (id t a : ℕ) (tickets : ℕ → Option ℕ)
      → ((id' : ℕ) → (id' == id) ≡ false → tickets id' ≡ b.order.tickets id')
      → ticket_of b id ≡ some t
      → sender_of message id ≡ some a
      → Ordered n b l
      → Ordered
          (n + 1)
          (looks_again id
            (look a t (record b.order { tickets = tickets }))
            (record b { order = record b.order { tickets = tickets } }))
          l
  unfolding look
  look-Ordered n b l id t a tickets others holds from o =
      subst (λ e. Ordered (n + 1) (after e) l) (sym plain) (go (b.order.turn a == t) refl)
    where
      after : Entry → Bus
      after e = looks_again id e (record b { order = record b.order { tickets = tickets } })

      plain :
          look a t (record b.order { tickets = tickets })
          ≡ (if b.order.turn a == t then has_turn t else waits t)
      plain = ground (arith, o.fifo.open_order)

      go :
          (now : Bool)
          → (b.order.turn a == t) ≡ now
          → Ordered (n + 1) (after (if now then has_turn t else waits t)) l
      go true e =
          moved-Ordered n b l id (inside t) tickets b.order.asleep refl others (λ id' e. refl)
            (sym holds) (λ t' a' same s. ground (arith, e, same, s, from))
            (λ t' a' same s. ground (arith, same)) o
      go false e =
          moved-Ordered n b l id (waiting t) tickets (put id true b.order.asleep) refl others
            (λ id' e. ground (arith, e)) (sym holds) (λ t' a' same s. ground (arith, same))
            (λ t' a' same s. ground (arith, e, same, s, from)) o

  admit-Ordered :
      (n : ℕ) (p : Call) (b : Bus) (id : ℕ) (l : Log)
      → b.call id ≡ p
      → Ordered n b l
      → Ordered (n + 1) (admit message p id b) l
  unfolding enter
  admit-Ordered n dispatched b id l there o = go (message id).sender refl
    where
      now : ticket_of b id ≡ b.order.tickets id
      now = ap (λ p. held p (b.order.tickets id)) there

      pass :
          ticket_of b id ≡ none
          → Ordered (n + 1) (record { order = b.order; call = put id through b.call }) l
      pass nothing =
          moved-Ordered n b l id through b.order.tickets b.order.asleep refl (λ id' e. refl)
            (λ id' e. refl) (sym nothing) (λ t a e s. ground (arith, e))
            (λ t a e s. ground (arith, e)) o

      draw :
          (a : ℕ) (ticket : Option ℕ)
          → (message id).sender ≡ some a
          → b.order.tickets id ≡ ticket
          → Ordered (n + 1) (entered id b (enter (some a) id b.order)) l
      draw a none e nothing =
          let same : (passes, b.order) ≡ enter (some a) id b.order = ground (arith, nothing) in
          subst (λ r. Ordered (n + 1) (entered id b r) l) same (pass (now ∙ nothing))
      draw a (some t) e ticket =
          let o' = record b.order { tickets = put id none b.order.tickets } in
          let same : (look a t o', sleeps id (look a t o') o') ≡ enter (some a) id b.order =
            ground (arith, ticket) in
          subst (λ r. Ordered (n + 1) (entered id b r) l) same
            (look-Ordered n b l id t a (put id none b.order.tickets)
              (λ id' apart. ground (arith, apart)) (now ∙ ticket) e o)

      go :
          (from : Option ℕ)
          → (message id).sender ≡ from
          → Ordered (n + 1) (entered id b (enter from id b.order)) l
      go none e = pass (unsent n o.queue b id o.fifo e)
      go (some a) e = draw a (b.order.tickets id) e refl
  admit-Ordered n _ b id l e o = later-Ordered n b l o

  either-Ordered :
      (n : ℕ) (c : Bool) (b b' : Bus) (l : Log)
      → Ordered n b l
      → Ordered n b' l
      → Ordered n (if c then b else b') l
  either-Ordered n true b b' l first second = first
  either-Ordered n false b b' l first second = second

  wake-Ordered :
      (n : ℕ) (p : Call) (b : Bus) (id : ℕ) (l : Log)
      → b.call id ≡ p
      → Ordered n b l
      → Ordered (n + 1) (wake message p id b) l
  wake-Ordered n (waiting t) b id l there o = go (message id).sender refl
    where
      holds : ticket_of b id ≡ some t
      holds = ap (λ p. held p (b.order.tickets id)) there

      go :
          (from : Option ℕ)
          → (message id).sender ≡ from
          → Ordered
              (n + 1)
              (if b.order.asleep id then b else looks_again id (sender_looks from t b.order) b)
              l
      go none e = ground (arith, holds, unsent n o.queue b id o.fifo e)
      go (some a) e =
          either-Ordered (n + 1) (b.order.asleep id) b _ l (later-Ordered n b l o)
            (look-Ordered n b l id t a b.order.tickets (λ id' e. refl) holds e o)
  wake-Ordered n _ b id l e o = later-Ordered n b l o

  finish-Ordered :
      (n : ℕ) (p : Call) (b : Bus) (id : ℕ) (l : Log)
      → n + 1 < 2 ^ 64
      → b.call id ≡ p
      → Ordered n b l
      → Ordered (n + 1) (finish message p id b) (ends_at p id l)
  finish-Ordered n (inside t) b id l few there o = go (message id).sender refl
    where
      holds : ticket_of b id ≡ some t
      holds = ap (λ p. held p (b.order.tickets id)) there

      first_of : (a : ℕ) → (message id).sender ≡ some a → (rest : List ℕ) × (o.queue a ≡ id ∷ rest)
      first_of a e =
          let (a', s, after, found) = o.fifo.placed id t holds in
          let same : a' ≡ a = some-injective _ _ (sym s ∙ e) in
          let now : t ≡ b.order.turn a = o.fifo.first id t a there e in
          nth_zero (o.queue a) id (ground (arith, same, now, found))

      go :
          (from : Option ℕ)
          → (message id).sender ≡ from
          → Ordered
              (n + 1)
              (record { order = release from b.order; call = put id ended b.call })
              (note_end from id l)
      go none e = ground (arith, holds, unsent n o.queue b id o.fifo e)
      go (some a) e =
          let (rest, front) = first_of a e in
          later-Ordered n _ _ (record {
            queue = put a rest o.queue;
            fifo =
                finished-Fifo message n o.queue rest b id t a (omega (arith, few)) there e front
                  o.fifo;
            accounts = λ a'.
                ground (arith, o.accounts a', append_assoc (l.finished a) (id ∷ []) rest, front);
          })
  finish-Ordered n through b id l few there o =
      moved-Ordered n b l id ended b.order.tickets b.order.asleep refl (λ id' e. refl)
        (λ id' e. refl) (sym (ap (λ p. held p (b.order.tickets id)) there))
        (λ t a e s. ground (arith, e)) (λ t a e s. ground (arith, e)) o
  finish-Ordered n _ b id l few e o = later-Ordered n b l o

  step-Ordered :
      (n : ℕ) (a : Step) (b : Bus) (l : Log)
      → n + 1 < 2 ^ 64
      → (step message a b).order.closed ≡ false
      → Ordered n b l
      → Ordered (n + 1) (step message a b) (note a b l)
  unfolding step close
  step-Ordered n (arrives id) b l few still o = arrive-Ordered n (b.call id) b id l few refl o
  step-Ordered n (enters id) b l few still o = admit-Ordered n (b.call id) b id l refl o
  step-Ordered n (wakes id) b l few still o = wake-Ordered n (b.call id) b id l refl o
  step-Ordered n (ends id) b l few still o = finish-Ordered n (b.call id) b id l few refl o
  step-Ordered n closes b l few still o = cc

  arrive-closed :
      (p : Call) (id : ℕ) (b : Bus) → (arrive message p id b).order.closed ≡ b.order.closed
  unfolding observe
  arrive-closed p id b = ground arith

  admit-closed :
      (p : Call) (id : ℕ) (b : Bus) → (admit message p id b).order.closed ≡ b.order.closed
  unfolding enter look
  admit-closed p id b = ground arith

  finish-closed :
      (p : Call) (id : ℕ) (b : Bus) → (finish message p id b).order.closed ≡ b.order.closed
  unfolding advance
  finish-closed p id b = ground arith

  wake-closed : (p : Call) (id : ℕ) (b : Bus) → (wake message p id b).order.closed ≡ b.order.closed
  wake-closed p id b = ground arith

  -- A closed order stays closed.
  step-open :
      (a : Step) (b : Bus) → (step message a b).order.closed ≡ false → b.order.closed ≡ false
  unfolding step close
  step-open (arrives id) b e = sym (arrive-closed (b.call id) id b) ∙ e
  step-open (enters id) b e = sym (admit-closed (b.call id) id b) ∙ e
  step-open (wakes id) b e = sym (wake-closed (b.call id) id b) ∙ e
  step-open (ends id) b e = sym (finish-closed (b.call id) id b) ∙ e
  step-open closes b e = cc

  run-open :
      (steps : List Step) (b : Bus)
      → (run message steps b).order.closed ≡ false
      → b.order.closed ≡ false
  unfolding run
  run-open [] b e = e
  run-open (a ∷ steps) b e = step-open a b (run-open steps (step message a b) e)

  pub run-Ordered :
      (n : ℕ) (steps : List Step) (b : Bus) (l : Log)
      → n + length steps < 2 ^ 64
      → (run message steps b).order.closed ≡ false
      → Ordered n b l
      → Ordered (n + length steps) (run message steps b) (log steps b l)
  unfolding run
  run-Ordered n [] b l few still o =
      let same : n ≡ n + 0 = omega arith in subst (λ k. Ordered k b l) same o
  run-Ordered n (a ∷ steps) b l few still o =
      let there = step message a b in
      let same : n + 1 + length steps ≡ n + suc (length steps) = omega arith in
      subst (λ k. Ordered k (run message steps there) (log steps there (note a b l))) same
        (run-Ordered (n + 1) steps there (note a b l) (omega (arith, few)) still
          (step-Ordered n a b l (omega (arith, few)) (run-open steps there still) o))

  pub begun-Ordered :
      (steps : List Step)
      → length steps < 2 ^ 64
      → (run message steps new_bus).order.closed ≡ false
      → Ordered (length steps) (run message steps new_bus) (log steps new_bus no_calls)
  begun-Ordered steps few still =
      let none_yet : 0 + length steps ≡ length steps = omega arith in
      subst (λ k. Ordered k (run message steps new_bus) (log steps new_bus no_calls)) none_yet
        (run-Ordered 0 steps new_bus no_calls (omega (arith, few)) still
          (record { queue = λ a. []; fifo = new_bus-Fifo message; accounts = λ a. refl }))
