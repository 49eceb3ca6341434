-- ===== src/State/Timing.antt =====
-- The timer and the deadlines: what is due is closed, what is not due is waited for, and a paused
-- deadline is resumed with the time that it had left.
use sysc_notify.Base.{
  ℕ, suc, ◌+◌, ◌-◌, ◌≤◌, ◌<◌, ◌≡◌, refl, ap, sym, ◌∙◌, inl, inr, true, false, List, [], ◌∷◌, none,
  some, arith, contains, ◌==◌, ==_iff, if◌then◌else◌, is_some, Bool-cases, Option-cases,
}
use sysc_notify.Base.Map.{get, get-delete, get_missing, is_some-get, keys, Entries, Entries-get}
use sysc_notify.Protocol.Types.{hovered, visible, close_expired}
use sysc_notify.State.Types.{Tracked, Env, OwnerState}
use sysc_notify.State.Close.{close}
use sysc_notify.State.Expiry.{
  pause, resume, enter, set_presentation, is_due, earlier, first_deadline, next_deadline, close_due,
  handle_timer, reset_timer,
}
use sysc_notify.State.Invariant.{Inv, Monotone}
use sysc_notify.State.Invariant.Closing.{close-Inv}
use sysc_notify.State.Invariant.Room.{close-records}
use sysc_notify.State.Invariant.Expiring.{order-Within, next_deadline-total}
use sysc_notify.State.Invariant.Ticking.{advance-Inv, sweep_due-Goes, lease_due-Goes}

false≢true : false ≡ true → ⊥
false≢true e = cc

-- Hovering over a visible notification stops its clock, and the clock goes on from there when the
-- pointer leaves: at `u` it has the time left that it had at `t`.
pub set_presentation-hover :
    (r : Tracked) (t u : ℕ)
    → r.state ≡ visible
    → r.has_deadline ≡ true
    → 0 < r.duration
    → let r' = set_presentation (set_presentation r hovered t) visible u in
      (r'.has_deadline ≡ true) × (r'.deadline ≡ u + (r.deadline - t)) × (r'.state ≡ visible)
unfolding set_presentation pause enter resume
set_presentation-hover r t u shown running timed = ground arith

-- Every running deadline is later than the zero time.
abbrev pub Started : ℕ → Tracked → Type 0
Started id r = r.has_deadline ≡ true → 0 < r.deadline

-- The search for the next instant never goes back to none, nor later.
next_deadline-below :
    (next at : ℕ) (ids : List ℕ) (m : List (ℕ × Tracked))
    → Entries Started m
    → next_deadline next ids m ≡ some at
    → 0 < next
    → (0 < at) × (at ≤ next)
unfolding next_deadline
next_deadline-below next at [] m s h positive = ground arith
next_deadline-below next at (id ∷ ids) m s h positive = elim (Option-cases (get id m)) [
  | inl e ↦ absurd (false≢true (ap is_some (rw (e, next_deadline) at h)))
  | inr (r, e) ↦
      let started = Entries-get Started id m s e in
      let (low, high) =
        next_deadline-below (if r.has_deadline then earlier next r.deadline else next) at ids m s
          (rw (e, next_deadline) at h) (ground (arith, started)) in
      (low, ground (arith, started, high))
]

next_deadline-reaches :
    (next at id : ℕ) (ids : List ℕ) (m : List (ℕ × Tracked)) (r : Tracked)
    → Entries Started m
    → next_deadline next ids m ≡ some at
    → contains id ids ≡ true
    → get id m ≡ some r
    → r.has_deadline ≡ true
    → (0 < at) × (at ≤ r.deadline)
unfolding next_deadline
next_deadline-reaches next at id [] m r s h there found running = cc
next_deadline-reaches next at id (j ∷ ids) m r s h there found running =
    elim (Bool-cases (j == id)) [
      | inl same ↦
          let e : get j m ≡ some r = ap (λ i. get i m) ((==_iff j id).0 same) ∙ found in
          let started = Entries-get Started id m s found running in
          let (low, high) =
            next_deadline-below (earlier next r.deadline) at ids m s
              (rw running at (rw (e, next_deadline) at h)) (ground (arith, started)) in
          (low, ground (arith, started, high))
      | inr other ↦ elim (Option-cases (get j m)) [
        | inl e ↦ absurd (false≢true (ap is_some (rw (e, next_deadline) at h)))
        | inr (q, e) ↦
            next_deadline-reaches (if q.has_deadline then earlier next q.deadline else next) at id
              ids m r s (rw (e, next_deadline) at h) (rw other at there) found running
      ]
    ]

differ :
    (now j id : ℕ) (m : List (ℕ × Tracked))
    → is_due now (get j m) ≡ false
    → is_due now (get id m) ≡ true
    → (j == id) ≡ false
differ now j id m early late = elim (Bool-cases (j == id)) [
  | inr other ↦ other
  | inl same ↦
      absurd (false≢true (sym early ∙ ap (λ i. is_due now (get i m)) ((==_iff j id).0 same) ∙ late))
]

module _ (env : Env) (mono : Monotone env) (t : ℕ) where
  -- The timer is armed for every running deadline. In a state that satisfies the invariant, in which
  -- every running deadline is later than the zero time, `resetTimer` arms the timer to fire no later
  -- than the deadline of any notification, or at once if that is past.
  pub reset_timer-armed :
      (s : OwnerState) (id : ℕ) (r : Tracked)
      → Inv env t s
      → Entries Started s.records
      → get id s.records ≡ some r
      → r.has_deadline ≡ true
      → (s' : OwnerState) × (d : ℕ) × (reset_timer env s ≡ some s')
        × (s'.timer ≡ some d)
        × (d ≤ r.deadline - env.now s.reads)
  unfolding reset_timer
  reset_timer-armed s id r inv started found running =
      let (at, e) =
        next_deadline-total env t (first_deadline s) s.order s.records (order-Within env t s inv)
          inv.sound.entries in
      let listed : contains id s.order ≡ true =
        rw (← inv.ordered) (sym (is_some-get id s.records) ∙ ap is_some found) in
      let (low, high) =
        next_deadline-reaches (first_deadline s) at id s.order s.records r started e listed found
          running in
      let armed : (at == 0) ≡ false = ground arith in
      (
        record s { reads = suc s.reads; timer = some (at - env.now s.reads) },
        at - env.now s.reads,
        rw (e, reset_timer) (rw armed refl),
        refl,
        omega (arith, high),
      )

  -- What is still due after the loop was due before it, and is not in the list.
  close_due-left :
      (now id : ℕ) (ids : List ℕ) (s : OwnerState)
      → Inv env t s
      → is_due now (get id (close_due env now ids s).records) ≡ true
      → (is_due now (get id s.records) ≡ true) × (contains id ids ≡ false)
  unfolding close_due
  close_due-left now id [] s inv due = (due, refl)
  close_due-left now id (j ∷ ids) s inv due = elim (Option-cases (get j s.records)) [
    | inl e ↦
        let (was, apart) = close_due-left now id ids s inv (rw (e, close_due) at due) in
        (was, rw (differ now j id s.records (ap (is_due now) e) was) apart)
    | inr (r, e) ↦ elim (Bool-cases (is_due now (some r))) [
      | inr early ↦
          let (was, apart) =
            close_due-left now id ids s inv (rw early at (rw (e, close_due) at due)) in
          (was, rw (differ now j id s.records (ap (is_due now) e ∙ early) was) apart)
      | inl late ↦
          let s' = (close env j close_expired s).1 in
          let (was, apart) =
            close_due-left now id ids s'
              (close-Inv env mono t j close_expired s (omega arith) (omega arith) inv)
              (rw late at (rw (e, close_due) at due)) in
          let gone : get id s'.records ≡ (if j == id then none else get id s.records) =
            rw (close-records env j close_expired s r e)
              (get-delete j id s.records inv.sound.distinct) in
          elim (Bool-cases (j == id)) [
            | inl same ↦ absurd (false≢true (sym (ap (is_due now) (rw same at gone)) ∙ was))
            | inr other ↦ (sym (ap (is_due now) (rw other at gone)) ∙ was, rw other apart)
          ]
    ]
  ]

module _ (env : Env) (mono : Monotone env) (t : ℕ) where
  none_left :
      (now id : ℕ) (s : OwnerState)
      → Inv env now s
      → is_due now (get id (close_due env now s.order s).records) ≡ false
  none_left now id s inv =
      elim (Bool-cases (is_due now (get id (close_due env now s.order s).records))) [
        | inr fine ↦ fine
        | inl due ↦
            let (was, apart) = close_due-left env mono now now id s.order s inv due in
            let absent : contains id (keys s.records) ≡ false = rw inv.ordered apart in
            absurd (false≢true (sym (ap (is_due now) (get_missing id s.records absent)) ∙ was))
      ]

  -- A tick of the timer leaves nothing that is due: after `handleTimer` no notification has a running
  -- deadline that is not after the instant of the tick.
  pub handle_timer-due :
      (s : OwnerState)
      → Inv env t s
      → (s' : OwnerState) × (handle_timer env s ≡ some s')
        × ((id : ℕ) → is_due (env.now s.reads) (get id s'.records) ≡ false)
  unfolding handle_timer
  handle_timer-due s inv =
      let now = env.now s.reads in
      let (s2, swept, inv2) = sweep_due-Goes env mono now now _ (advance-Inv env t s mono inv) in
      let (s3, left, inv3) = lease_due-Goes env mono now now s2 (omega arith) inv2 in
      (
        close_due env now s3.order s3,
        rw (swept, handle_timer) (rw left refl),
        λ id. none_left now id s3 inv3,
      )
