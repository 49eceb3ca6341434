-- ===== src/Fdo/Order/Fifo.antt =====
-- order.go: the calls of one sender stand in a queue, in the order in which they arrived.
use sysc_notify.Base.{
  ℕ, zero, suc, ◌+◌, ◌-◌, ◌^◌, ◌<◌, ◌≤◌, ◌≡◌, refl, ap, sym, ◌∙◌, inl, inr, Bool, true, false, List,
  [], ◌∷◌, ◌++◌, Option, none, some, ◌==◌, ◌&&◌, if◌then◌else◌, length, length-append, arith,
  Bool-cases,
}
use mathlib.Core.Option.{some-injective}
use sysc_notify.Fdo.Order.{
  Message, issue, put, advance, Call, unseen, dispatched, waiting, inside, ended, Bus, new_bus,
}

abbrev pub nth : List ℕ → ℕ → Option ℕ
nth [] k = none
nth (x ∷ xs) zero = some x
nth (x ∷ xs) (suc k) = nth xs k

pub nth-append_one :
    (xs : List ℕ) (x k : ℕ) → nth (xs ++ x ∷ []) k ≡ (if k == length xs then some x else nth xs k)
nth-append_one [] x zero = refl
nth-append_one [] x (suc k) = ground arith
nth-append_one (y ∷ xs) x zero = ground arith
nth-append_one (y ∷ xs) x (suc k) = nth-append_one xs x k ∙ ground arith

pub nth-length : (xs : List ℕ) (k : ℕ) → length xs ≤ k → nth xs k ≡ none
nth-length [] k e = refl
nth-length (x ∷ xs) zero e = ground (arith, e)
nth-length (x ∷ xs) (suc k) e = nth-length xs k (omega (arith, e))

-- The ticket that a call holds.
abbrev pub held : Call → Option ℕ → Option ℕ
held dispatched ticket = ticket
held (waiting t) ticket = some t
held (inside t) ticket = some t
held _ ticket = none

abbrev pub ticket_of : Bus → ℕ → Option ℕ
ticket_of b id = held (b.call id) (b.order.tickets id)

abbrev pub is_unseen : Call → Bool
is_unseen unseen = true
is_unseen _ = false

module _ (message : ℕ → Message) where
  abbrev pub sender_of : ℕ → Option ℕ
  sender_of id = (message id).sender

  -- The queue `q a` of each sender: its calls that hold a ticket, from the one whose turn it is.
  pub record Fifo (n : ℕ) (q : ℕ → List ℕ) (b : Bus) : Type 0 where
    pub open_order : b.order.closed ≡ false
    pub count : (a : ℕ) → b.order.turn a + length (q a) ≡ b.order.issued a
    pub small : (a : ℕ) → b.order.issued a ≤ n
    pub numbered :
        (a k id : ℕ)
        → nth (q a) k ≡ some id
        → (ticket_of b id ≡ some (b.order.turn a + k)) × (sender_of id ≡ some a)
    pub placed :
        (id t : ℕ)
        → ticket_of b id ≡ some t
        → (a : ℕ) × (sender_of id ≡ some a)
          × (b.order.turn a ≤ t)
          × (nth (q a) (t - b.order.turn a) ≡ some id)
    pub first : (id t a : ℕ) → b.call id ≡ inside t → sender_of id ≡ some a → t ≡ b.order.turn a
    -- No call sleeps through its turn.
    pub awake :
        (id t a : ℕ)
        → b.call id ≡ waiting t
        → sender_of id ≡ some a
        → (b.order.asleep id && b.order.turn a == t) ≡ false
    pub fresh : (id : ℕ) → is_unseen (b.call id) ≡ true → b.order.tickets id ≡ none

  pub new_bus-Fifo : Fifo 0 (λ a. []) new_bus
  unfolding new_bus
  new_bus-Fifo = record {
    open_order = refl;
    count = λ a. refl;
    small = λ a. omega arith;
    numbered = λ a k id e. cc;
    placed = λ id t e. cc;
    first = λ id t a e s. cc;
    awake = λ id t a e s. cc;
    fresh = λ id e. refl;
  }

  -- A ticket for the message `id` of the sender `a`.
  pub issued-Fifo :
      (n : ℕ) (q : ℕ → List ℕ) (b : Bus) (id a : ℕ)
      → n + 1 < 2 ^ 64
      → b.call id ≡ unseen
      → sender_of id ≡ some a
      → Fifo n q b
      → Fifo
          (n + 1)
          (put a (q a ++ id ∷ []) q)
          (record { order = issue id a b.order; call = put id dispatched b.call })
  issued-Fifo n q b id a few new from f = record {
    open_order = f.open_order;
    count = λ a'. ground (arith, f.count a', f.small a', length-append (q a) (id ∷ []));
    small = λ a'. ground (arith, f.small a');
    numbered = λ a' k id' e.
        ground (
          arith,
          e,
          new,
          from,
          nth-append_one (q a) id k,
          f.numbered a' k id',
          f.count a,
          f.small a,
        );
    placed = λ id' t e. elim (Bool-cases (id' == id)) [
      | inl same ↦
          let this : id' ≡ id = ground (arith, same) in
          let last : t ≡ b.order.issued a = ground (arith, e, same) in
          (
            a,
            ap sender_of this ∙ from,
            ground (arith, f.count a, last),
            ground (arith, last, this, f.count a, nth-append_one (q a) id (t - b.order.turn a)),
          )
      | inr other ↦
          let (a', s', after, found) = f.placed id' t (ground (arith, e, other)) in
          let within = nth-length (q a) (t - b.order.turn a') in
          (
            a',
            s',
            after,
            ground (arith, found, within, nth-append_one (q a) id (t - b.order.turn a')),
          )
    ];
    first = λ id' t a' e s. ground (arith, e, f.first id' t a', s);
    awake = λ id' t a' e s. ground (arith, e, f.awake id' t a', s);
    fresh = λ id' e. ground (arith, e, f.fresh id');
  }

  -- A call moves on with the ticket that it has.
  pub moved-Fifo :
      (n : ℕ) (q : ℕ → List ℕ) (b : Bus) (id : ℕ) (p : Call) (tickets : ℕ → Option ℕ)
      (asleep : ℕ → Bool)
      → is_unseen p ≡ false
      → ((id' : ℕ) → (id' == id) ≡ false → tickets id' ≡ b.order.tickets id')
      → ((id' : ℕ) → (id' == id) ≡ false → asleep id' ≡ b.order.asleep id')
      → held p (tickets id) ≡ ticket_of b id
      → ((t a : ℕ) → p ≡ inside t → sender_of id ≡ some a → t ≡ b.order.turn a)
      → ((t a : ℕ)
          → p ≡ waiting t
          → sender_of id ≡ some a
          → (asleep id && b.order.turn a == t) ≡ false)
      → Fifo n q b
      → Fifo n q (record {
        order = record b.order { tickets = tickets; asleep = asleep };
        call = put id p b.call;
      })
  moved-Fifo n q b id p tickets asleep seen others apart same turn woken f = record {
    open_order = f.open_order;
    count = f.count;
    small = f.small;
    numbered = λ a k id' e. ground (arith, same, others id', f.numbered a k id' e);
    placed = λ id' t e. f.placed id' t (ground (arith, same, others id', e));
    first = λ id' t a e s. ground (arith, e, s, turn t a, f.first id' t a);
    awake = λ id' t a e s. ground (arith, e, s, apart id', woken t a, f.awake id' t a);
    fresh = λ id' e. ground (arith, e, seen, others id', f.fresh id');
  }

  nth_later :
      (xs : List ℕ) (x y k : ℕ)
      → nth (x ∷ xs) k ≡ some y
      → (y == x) ≡ false
      → (0 < k) × (nth xs (k - 1) ≡ some y)
  nth_later xs x y zero e apart = ground (arith, e, apart)
  nth_later xs x y (suc k) e apart =
      let same : suc k - 1 ≡ k = omega arith in (omega arith, ap (nth xs) same ∙ e)

  -- The call whose turn it was is over.
  pub finished-Fifo :
      (n : ℕ) (q : ℕ → List ℕ) (rest : List ℕ) (b : Bus) (id t a : ℕ)
      → n < 2 ^ 64
      → b.call id ≡ inside t
      → sender_of id ≡ some a
      → q a ≡ id ∷ rest
      → Fifo n q b
      → Fifo n (put a rest q) (record { order = advance a b.order; call = put id ended b.call })
  unfolding advance
  finished-Fifo n q rest b id t a few turn from queue f =
      let now : t ≡ b.order.turn a = f.first id t a turn from in
      let total : b.order.turn a + suc (length rest) ≡ b.order.issued a =
        ap (λ q. b.order.turn a + length q) (sym queue) ∙ f.count a in
      let bound = f.small a in
      let held_now : ticket_of b id ≡ some t = ground (arith, turn) in
      let head : (k : ℕ) → nth (q a) k ≡ nth (id ∷ rest) k = λ k. ap (λ xs. nth xs k) queue in
      let shifted : (k : ℕ) → nth (q a) (suc k) ≡ nth rest k = λ k. head (suc k) in
      record {
        open_order = ground (arith, f.open_order);
        count = λ a'. ground (arith, total, bound, few, f.count a');
        small = λ a'. ground (arith, f.small a');
        numbered = λ a' k id' e. elim (Bool-cases (a' == a)) [
          | inl same ↦
              let in_rest : nth rest k ≡ some id' = ground (arith, e, same) in
              let before = f.numbered a (suc k) id' (shifted k ∙ in_rest) in
              ground
                (arith, same, before, held_now, now, total, few, bound, nth-length rest k, in_rest)
          | inr other ↦
              let before = f.numbered a' k id' (ground (arith, e, other)) in
              let apart : (id' == id) ≡ false = ground (arith, before, from, other) in
              ground (arith, other, before, apart)
        ];
        placed = λ id' t' e.
            let apart : (id' == id) ≡ false = ground (arith, e) in
            let (a', s', after, found) = f.placed id' t' (ground (arith, e, apart)) in
            elim (Bool-cases (a' == a)) [
              | inr other ↦ (a', s', ground (arith, other, after), ground (arith, other, found))
              | inl same ↦
                  let here : nth (id ∷ rest) (t' - b.order.turn a) ≡ some id' =
                    sym (head (t' - b.order.turn a)) ∙ ground (arith, same, found) in
                  let (beyond, place) = nth_later rest id id' (t' - b.order.turn a) here apart in
                  let later : b.order.turn a < t' = omega (arith, beyond) in
                  let full = nth-length rest (t' - b.order.turn a - 1) in
                  (
                    a',
                    s',
                    ground (arith, same, later, total, bound, few, place, full),
                    ground (arith, same, later, total, bound, few, place, full),
                  )
            ];
        first = λ id' t' a' e s.
            let apart : (id' == id) ≡ false = ground (arith, e) in
            let inside_then : b.call id' ≡ inside t' = ground (arith, e, apart) in
            let when = f.first id' t' a' inside_then s in
            let (a'', s', after, found) = f.placed id' t' (ground (arith, inside_then)) in
            let same_sender : a'' ≡ a' = some-injective _ _ (sym s' ∙ s) in
            elim (Bool-cases (a' == a)) [
              | inr other ↦ ground (arith, other, when)
              | inl same ↦
                  let there : a'' ≡ a = ground (arith, same, same_sender) in
                  let here : nth (id ∷ rest) (t' - b.order.turn a) ≡ some id' =
                    sym (head (t' - b.order.turn a)) ∙ ground (arith, there, found) in
                  let (beyond, place) = nth_later rest id id' (t' - b.order.turn a) here apart in
                  ground (arith, when, same, beyond)
            ];
        awake = λ id' t' a' e s. ground (arith, e);
        fresh = λ id' e. ground (arith, e, f.fresh id');
      }
