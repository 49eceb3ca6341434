-- ===== src/Fdo/Order/Fair.antt =====
-- order.go: what the order promises to the calls of a sender.
use sysc_notify.Base.{
  ℕ, ◌^◌, ◌<◌, ◌≡◌, refl, ap, sym, ◌∙◌, false, List, [], ◌∷◌, ◌++◌, some, length, arith,
}
use mathlib.Core.Option.{some-injective}
use sysc_notify.Fdo.Order.{
  Message, Call, dispatched, waiting, inside, Bus, new_bus, Step, enters, wakes, run, step, enter,
  look,
}
use sysc_notify.Fdo.Order.Fifo.{nth, ticket_of}
use sysc_notify.Fdo.Order.Turns.{no_calls, log, begun-Ordered, nth_zero}

-- After any run of fewer than 2^64 steps that leaves the order open, a call that has its turn is the
-- first of its sender's calls that arrived and have not finished: the calls of one sender take their
-- turns in the order of their arrival, one at a time.
pub turn-first :
    (message : ℕ → Message) (steps : List Step) (id t a : ℕ)
    → length steps < 2 ^ 64
    → (run message steps new_bus).order.closed ≡ false
    → (run message steps new_bus).call id ≡ inside t
    → (message id).sender ≡ some a
    → (rest : List ℕ) × ((log message steps new_bus no_calls).arrived a
        ≡ (log message steps new_bus no_calls).finished a ++ id ∷ rest)
turn-first message steps id t a few still now from =
    let o = begun-Ordered message steps few still in
    let holds : ticket_of (run message steps new_bus) id ≡ some t = ground (arith, now) in
    let (a', s, after, found) = o.fifo.placed id t holds in
    let same : a' ≡ a = some-injective _ _ (sym s ∙ from) in
    let turn = o.fifo.first id t a now from in
    let (rest, front) = nth_zero (o.queue a) id (ground (arith, same, turn, found)) in
    (rest, o.accounts a ∙ ap (λ q. (log message steps new_bus no_calls).finished a ++ q) front)

append-cancel : (xs ys zs : List ℕ) → xs ++ ys ≡ xs ++ zs → ys ≡ zs
append-cancel [] ys zs e = e
append-cancel (x ∷ xs) ys zs e = append-cancel xs ys zs (ground (arith, e))

module _ (message : ℕ → Message) (id t a : ℕ) (b : Bus) where
  enters_in :
      b.call id ≡ dispatched
      → (message id).sender ≡ some a
      → b.order.tickets id ≡ some t
      → b.order.turn a ≡ t
      → b.order.closed ≡ false
      → (step message (enters id) b).call id ≡ inside t
  unfolding step enter look
  enters_in there from ticket turn still = ground (arith, there, from, ticket, turn, still)

  wakes_in :
      b.call id ≡ waiting t
      → (message id).sender ≡ some a
      → b.order.turn a ≡ t
      → b.order.closed ≡ false
      → b.order.asleep id ≡ false
      → (step message (wakes id) b).call id ≡ inside t
  unfolding step look
  wakes_in there from turn still awake = ground (arith, there, from, turn, still, awake)

  wakes_stay : b.call id ≡ inside t → (step message (wakes id) b).call id ≡ inside t
  unfolding step
  wakes_stay there = ground (arith, there)

  waits_still : b.call id ≡ waiting t → step message (enters id) b ≡ b
  unfolding step
  waits_still there = ground (arith, there)

  enters_stay : b.call id ≡ inside t → (step message (enters id) b).call id ≡ inside t
  unfolding step
  enters_stay there = ground (arith, there)

-- After any run of fewer than 2^64 steps that leaves the order open, the first of a sender's calls that
-- arrived and have not finished is not asleep: it gets its turn as soon as its handler goes on, entering
-- or looking again.
pub first-enters :
    (message : ℕ → Message) (steps : List Step) (id a : ℕ) (rest : List ℕ)
    → length steps < 2 ^ 64
    → (run message steps new_bus).order.closed ≡ false
    → (log message steps new_bus no_calls).arrived a
      ≡ (log message steps new_bus no_calls).finished a ++ id ∷ rest
    → (t : ℕ) × ((run message (enters id ∷ wakes id ∷ []) (run message steps new_bus)).call id
        ≡ inside t)
first-enters message steps id a rest few still first =
    let b = run message steps new_bus in
    let o = begun-Ordered message steps few still in
    let queue : o.queue a ≡ id ∷ rest =
      append-cancel ((log message steps new_bus no_calls).finished a) (o.queue a) (id ∷ rest)
        (sym (o.accounts a) ∙ first) in
    let (holds, from) = o.fifo.numbered a 0 id (ap (λ q. nth q 0) queue) in
    let now : ticket_of b id ≡ some (b.order.turn a) = ground (arith, holds) in
    (b.order.turn a, unfold run in go (b.call id) refl now from)
  where
    go :
        (p : Call)
        → (run message steps new_bus).call id ≡ p
        → ticket_of (run message steps new_bus) id ≡ some ((run message steps new_bus).order.turn a)
        → (message id).sender ≡ some a
        → (step message (wakes id) (step message (enters id) (run message steps new_bus))).call id
          ≡ inside ((run message steps new_bus).order.turn a)
    go dispatched there holds from =
        let b = run message steps new_bus in
        let ticket : b.order.tickets id ≡ some (b.order.turn a) = ground (arith, there, holds) in
        wakes_stay message id (b.order.turn a) a (step message (enters id) b)
          (enters_in message id (b.order.turn a) a b there from ticket refl still)
    go (waiting t) there holds from =
        let b = run message steps new_bus in
        let turn : t ≡ b.order.turn a = ground (arith, there, holds) in
        let stays = waits_still message id t a b there in
        let unslept = (begun-Ordered message steps few still).fifo.awake id t a there from in
        let awake : b.order.asleep id ≡ false = ground (arith, unslept, turn) in
        ap (λ c. (step message (wakes id) c).call id) stays
        ∙ wakes_in message id (b.order.turn a) a b (there ∙ ap waiting turn) from refl still awake
    go (inside t) there holds from =
        let b = run message steps new_bus in
        let turn : t ≡ b.order.turn a = ground (arith, there, holds) in
        wakes_stay message id (b.order.turn a) a (step message (enters id) b)
          (enters_stay message id (b.order.turn a) a b (there ∙ ap inside turn))
    go _ there holds from = ground (arith, there, holds)
