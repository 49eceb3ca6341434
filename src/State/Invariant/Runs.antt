-- ===== src/State/Invariant/Runs.antt =====
-- Every step of the owner returns and keeps the invariant, and so does every run from the start.
use sysc_notify.Base.{
  ℕ, ◌+◌, ◌^◌, ◌%◌, max, ◌≤◌, ◌<◌, ◌≡◌, refl, inl, inr, Bool, List, [], ◌∷◌, Option, none, some,
  arith, All, Option-cases, err,
}
use sysc_notify.Protocol.Types.{close_requested, close_dismissed}
use sysc_notify.History.Store
use sysc_notify.State.Types.{Event, CommandKind, Command, Env, OwnerState, clock_now}
use sysc_notify.State.Commands.{gate_presenter, dispatch, execute}
use sysc_notify.State.Invariant.{Stored, LoggedBy, Inv, Monotone}
use sysc_notify.State.Invariant.Shown.{snapshot-valid}
use sysc_notify.State.Invariant.Closing.{clock_now-Inv, close-Inv}
use sysc_notify.State.Invariant.Adding.{Returns, add-Returns}
use sysc_notify.State.Invariant.Ticking.{advance-Inv}
use sysc_notify.State.Invariant.Commands.{
  IsCommand, done-Returns, clear_history-Inv, remove_history-Inv, mark_history_seen-Inv,
  presenter_lost-Returns,
}
use sysc_notify.State.Invariant.Dispatch.{
  publish_producer-Returns, close_producer-Returns, invoke_action-Inv, submit_reply-Inv,
  dismiss_all-Inv, presentation_renew-Returns, presenter_resync-Returns,
}
use sysc_notify.State.Invariant.Ticking.{reset_timer-Goes, handle_timer-Goes}
use sysc_notify.State.Run.{Request, Response, next_after, initial, step, run_from, run}

-- The requests of a run: its commands come from the bus and from the socket.
abbrev pub IsRequest : Request → Type 0
IsRequest (Request.command c) = IsCommand c
IsRequest _ = Unit {0}

module _ (env : Env) (mono : Monotone env) where
  dispatch-Returns :
      (t : ℕ) (kind : CommandKind) (c : Command) (s : OwnerState)
      → IsCommand c
      → Inv env t s
      → Returns env t (dispatch env kind c t s)
  unfolding dispatch
  dispatch-Returns t CommandKind.add c s h inv =
      add-Returns env mono t c.candidate c.prepared_history_image s h.0 inv
  dispatch-Returns t CommandKind.producer_publish c s h inv =
      publish_producer-Returns env mono t c.producer s h.1 inv
  dispatch-Returns t CommandKind.producer_close c s h inv =
      close_producer-Returns env mono t c.producer s inv
  dispatch-Returns t CommandKind.close_requested c s h inv =
      done-Returns env t _
        (close-Inv env mono t c.id close_requested s (omega arith) (omega arith) inv)
  dispatch-Returns t CommandKind.dismiss c s h inv =
      done-Returns env t _
        (close-Inv env mono t c.id close_dismissed s (omega arith) (omega arith) inv)
  dispatch-Returns t CommandKind.invoke_action c s h inv =
      done-Returns env t _ (invoke_action-Inv env mono t c.id c.action_key s inv)
  dispatch-Returns t CommandKind.submit_reply c s h inv =
      done-Returns env t _ (submit_reply-Inv env mono t c.id c.reply_text s inv)
  dispatch-Returns t CommandKind.presentation_renew c s h inv =
      presentation_renew-Returns env mono t c s inv
  dispatch-Returns t CommandKind.presenter_lost c s h inv = presenter_lost-Returns env t c s inv
  dispatch-Returns t CommandKind.dismiss_all c s h inv =
      done-Returns env t _ (dismiss_all-Inv env mono t s.order none s inv)
  dispatch-Returns t CommandKind.history_clear c s h inv =
      done-Returns env t _ (clear_history-Inv env t s inv)
  dispatch-Returns t CommandKind.history_remove c s h inv =
      done-Returns env t _ (remove_history-Inv env t c.ids s inv)
  dispatch-Returns t CommandKind.history_mark_seen c s h inv =
      done-Returns env t _ (mark_history_seen-Inv env t c.ids s inv)
  dispatch-Returns t CommandKind.presenter_resync c s h inv =
      presenter_resync-Returns env mono t c s inv
  dispatch-Returns t (CommandKind.unknown k) c s h inv = (_, s, refl, inv)

  -- A command of any kind, from any state that satisfies the invariant, is answered: the owner does not
  -- panic and does not hang. The state that it leaves satisfies the invariant, at the time of the
  -- command's own reading of the clock or, for a refused command, at the time before.
  pub execute-Returns :
      (t : ℕ) (c : Command) (s : OwnerState)
      → IsCommand c
      → Inv env t s
      → (u : ℕ) × (t ≤ u) × Returns env u (execute env c s)
  unfolding execute
  execute-Returns t c s h inv = elim (Option-cases (gate_presenter c s)) [
    | inr (e, refused) ↦ (t, omega arith, (err e, s, rw (refused, execute) refl, inv))
    | inl taken ↦ (
      env.now s.reads,
      inv.past,
      rw (taken, execute)
          (dispatch-Returns (env.now s.reads) c.kind c _ h (advance-Inv env t s mono inv)),
    )
  ]

  -- A step that may panic does not.
  abbrev pub Steps : ℕ → Option (Response × OwnerState) → Type 0
  Steps t o =
      (r : Response) × (s : OwnerState) × (u : ℕ) × (o ≡ some (r, s)) × (t ≤ u) × Inv env u s

  -- A step, of a command with the timer after it, of a snapshot or of a tick, does not panic and does
  -- not hang, and keeps the invariant: valid and distinct records, at most 128, listed in `order`; a
  -- valid store; and a log of events whose deltas are valid and numbered without a gap.
  pub step-Inv :
      (t : ℕ) (q : Request) (s : OwnerState) → IsRequest q → Inv env t s → Steps t (step env q s)
  unfolding step
  step-Inv t (Request.command c) s h inv =
      let (u, later, (r, s1, given, inv1)) = execute-Returns t c s h inv in
      let (s2, armed, inv2) = reset_timer-Goes env mono u s1 inv1 in
      (Response.result r, s2, u, rw (given, step) (rw armed refl), later, inv2)
  step-Inv t Request.snapshot s h inv =
      let (shot, taken, valid, at) = snapshot-valid env t s inv in
      (
        Response.shot shot,
        (clock_now env s).1,
        t,
        rw taken refl,
        omega arith,
        clock_now-Inv env mono t s inv,
      )
  step-Inv t Request.tick s h inv =
      let (s1, handled, inv1) = handle_timer-Goes env mono t s inv in
      let (s2, armed, inv2) = reset_timer-Goes env mono (env.now s.reads) s1 inv1 in
      (Response.silent, s2, env.now s.reads, rw (handled, step) (rw armed refl), inv.past, inv2)

  run_from-Inv :
      (t : ℕ) (s : OwnerState) (qs : List Request)
      → All IsRequest qs
      → Inv env t s
      → (s' : OwnerState) × (u : ℕ) × (run_from env s qs ≡ some s') × Inv env u s'
  unfolding run_from
  run_from-Inv t s [] h inv = (s, t, refl, inv)
  run_from-Inv t s (q ∷ qs) h inv =
      let (r, s1, u, went, later, inv1) = step-Inv t q s h.0 inv in
      let (s2, v, ran, inv2) = run_from-Inv u s1 qs h.1 inv1 in
      (s2, v, rw (went, run_from) ran, inv2)

  next_after-small : (next : ℕ) (ids : List ℕ) → next < 2 ^ 32 → next_after next ids < 2 ^ 32
  unfolding next_after
  next_after-small next [] h = h
  next_after-small next (id ∷ ids) h =
      next_after-small (max next ((id + 1) % 2 ^ 32)) ids (omega (arith, h))

  start : (sink : Option (List Event → Event → Bool)) → LoggedBy sink [] 0
  start none = tt
  start (some accepts) = refl

  pub initial-Inv :
      (history : Option Store.Store) → Stored history 0 → Inv env 0 (initial env history)
  unfolding initial
  initial-Inv none h = record {
    sound = record { distinct = tt; few = omega arith; entries = tt };
    ordered = refl;
    next_small = omega arith;
    past = omega arith;
    stored = h;
    logged = start env.sink;
  }
  initial-Inv (some store) h = record {
    sound = record { distinct = tt; few = omega arith; entries = tt };
    ordered = refl;
    next_small = next_after-small 1 (Store.ids store) (omega arith);
    past = omega arith;
    stored = h;
    logged = start env.sink;
  }

-- The owner never panics and never hangs. For a clock that does not go backwards, started without a
-- history store or with a valid one, every sequence of commands (with int32 timeouts), snapshots and
-- ticks runs to its end and leaves a state that satisfies the invariant.
pub run-Inv :
    (env : Env) (history : Option Store.Store) (qs : List Request)
    → Monotone env
    → Stored history 0
    → All IsRequest qs
    → (s : OwnerState) × (t : ℕ) × (run env history qs ≡ some s) × Inv env t s
unfolding run
run-Inv env history qs mono stored h =
    let (s0, armed, inv0) =
      reset_timer-Goes env mono 0 (initial env history) (initial-Inv env mono history stored) in
    let (s, t, ran, inv) = run_from-Inv env mono 0 s0 qs h inv0 in (s, t, rw (armed, run) ran, inv)
