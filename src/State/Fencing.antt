-- ===== src/State/Fencing.antt =====
-- The generations of presenters only go forward, so a command of a superseded presenter stays refused.
pub mod Handlers
pub mod Dispatch
use sysc_notify.Base.{
  ℕ, zero, suc, ◌+◌, ◌-◌, ◌≤◌, ◌<◌, ◌≡◌, refl, ap, sym, ◌∙◌, ◌≢◌, ◌⊎◌, inl, inr, Bool, true, false,
  not, ◌&&◌, ◌||◌, List, [], ◌∷◌, Option, none, some, Text, arith, length, text_eq, contains, ltb,
  leb, ◌==◌, if◌then◌else◌, is_some, Bool-cases, Option-cases, subst, Result, ok, err, ◌>>=◌,
}
use sysc_notify.Base.Map.{get}
use sysc_notify.Base.Names
use sysc_notify.Protocol.Types.{
  HistoryEntry, Delta, Presentation, ProducerRequest, max_active_notifications, close_requested,
  close_dismissed, close_expired, close_undefined, PresentationState, suppressed,
}
use sysc_notify.Protocol.Validate
use sysc_notify.Notify.Model.{Candidate, resolve_id}
use sysc_notify.History.Image.{HistoryFault, PreparedImage}
use sysc_notify.History.Store
use sysc_notify.State.Types.{
  Error, stale, Event, CommandKind, Command, Outcome, Tracked, Env, OwnerState, clock_now,
}
use sysc_notify.State.Lifetimes.{lifetimes_of, validate_candidate}
use sysc_notify.State.Publish.{
  active_of, publish, publish_delta, history_removed_delta, closed_delta, snapshot,
}
use sysc_notify.State.Close.{
  record_closed, publish_removed, publish_added, settle, keep_closed, forget, close,
}
use sysc_notify.State.Active.{
  victim, evict_capacity_victim, taken_ids, make_room, insert_record, add_new, replace_record,
  release_other, add_over, burst_duplicate, add_with_producer_key, add,
}
use sysc_notify.State.Expiry.{
  reported, present_all, clear_presentation, renew_refusal, hand_over, install, renew, is_due,
  first_deadline, next_deadline, sweep_store, sweep_due, lease_due, close_due, handle_timer,
  reset_timer,
}
use sysc_notify.State.Producers.{
  optional_id, bound_id, producer_candidate, bind_producer, publish_request, publish_producer,
  close_bound, close_request, close_producer,
}
use sysc_notify.State.Commands.{
  is_gated, require_presenter, gate_presenter, done, has_action, join, reply_command,
  close_unless_resident, invoke_action, reply_to, submit_reply, dismiss_all, publish_unless_empty,
  clear_history, remove_history, mark_store, mark_history_seen, answer_renewal, presentation_renew,
  advance_generation, presenter_lost, presenter_resync, dispatch, execute,
}
use sysc_notify.State.Run.{Request, Response, step, run_from}
use sysc_notify.State.Fencing.Handlers.{
  Keeps, Holds, publish_removed-accepted, close-accepted, add_with_producer_key-Holds,
  publish_producer-Holds, close_producer-Holds, invoke_action-accepted, submit_reply-accepted,
  dismiss_all-accepted, clear_history-accepted, remove_history-accepted, mark_history_seen-accepted,
  clear_presentation-Keeps,
}
use sysc_notify.State.Fencing.Dispatch.{execute-Holds, renew_refusal-later}

module _ (env : Env) where
  reset_timer-Keeps : (s : OwnerState) → Keeps s.accepted_generation (reset_timer env s)
  unfolding reset_timer
  reset_timer-Keeps s = elim (Option-cases (next_deadline (first_deadline s) s.order s.records)) [
    | inl e ↦ rw (e, reset_timer) tt
    | inr (at, e) ↦ elim (Bool-cases (at == 0)) [
      | inl never ↦ rw (e, reset_timer) (rw never (omega arith))
      | inr some_time ↦ rw (e, reset_timer) (rw some_time (omega arith))
    ]
  ]

  sweep_due-Keeps : (now : ℕ) (s : OwnerState) → Keeps s.accepted_generation (sweep_due env now s)
  unfolding sweep_due sweep_store
  sweep_due-Keeps now s =
      elim (Bool-cases (not (s.next_history_sweep == 0) && leb s.next_history_sweep now)) [
        | inr later ↦ rw (later, sweep_due) (omega arith)
        | inl due ↦ elim (Option-cases s.history) [
          | inl e ↦ rw (due, sweep_due) (rw e tt)
          | inr (store, e) ↦
              rw (due, sweep_due)
                (rw e (
                  omega (
                    arith,
                    publish_removed-accepted env (Store.sweep now store).0
                        (record s { history = some (Store.sweep now store).1 }),
                  )))
        ]
      ]

  lease_due-Keeps : (now : ℕ) (s : OwnerState) → Keeps s.accepted_generation (lease_due env now s)
  unfolding lease_due
  lease_due-Keeps now s =
      elim (Bool-cases (not (s.lease_deadline == 0) && leb s.lease_deadline now)) [
        | inr later ↦ rw (later, lease_due) (omega arith)
        | inl due ↦ rw (due, lease_due) (clear_presentation-Keeps env s.lease_deadline s)
      ]

  close_due-accepted :
      (now : ℕ) (ids : List ℕ) (s : OwnerState)
      → (close_due env now ids s).accepted_generation ≡ s.accepted_generation
  unfolding close_due
  close_due-accepted now [] s = refl
  close_due-accepted now (id ∷ ids) s = elim (Bool-cases (is_due now (get id s.records))) [
    | inr later ↦ rw (later, close_due) (close_due-accepted now ids s)
    | inl due ↦
        rw (due, close_due)
          (close_due-accepted now ids (close env id close_expired s).1
            ∙ close-accepted env id close_expired s)
  ]

  handle_timer-Keeps : (s : OwnerState) → Keeps s.accepted_generation (handle_timer env s)
  unfolding handle_timer
  handle_timer-Keeps s =
      let now = env.now s.reads in
      let s1 = (clock_now env s).1 in
      elim (Option-cases (sweep_due env now s1)) [
        | inl e ↦ rw (e, handle_timer) tt
        | inr (s2, e) ↦ elim (Option-cases (lease_due env now s2)) [
          | inl missing ↦ rw (e, handle_timer) (rw missing tt)
          | inr (s3, left) ↦
              rw (e, handle_timer)
                (rw left (
                  omega (
                    arith,
                    subst (Keeps s.accepted_generation) e (sweep_due-Keeps now s1),
                    subst (Keeps s2.accepted_generation) left (lease_due-Keeps now s2),
                    close_due-accepted now s3.order s3,
                  )))
        ]
      ]

  timed-Holds :
      (g : ℕ) (r : Response) (s : OwnerState)
      → g ≤ s.accepted_generation
      → Holds g (do s' ← reset_timer env s; some (r, s'))
  timed-Holds g r s h = elim (Option-cases (reset_timer env s)) [
    | inl e ↦ rw e tt
    | inr (s', e) ↦
        rw e (omega (arith, h, subst (Keeps s.accepted_generation) e (reset_timer-Keeps s)))
  ]

  step-Holds : (q : Request) (s : OwnerState) → Holds s.accepted_generation (step env q s)
  unfolding step snapshot
  step-Holds (Request.command c) s = elim (Option-cases (execute env c s)) [
    | inl e ↦ rw (e, step) tt
    | inr (p, e) ↦
        rw (e, step)
          (timed-Holds s.accepted_generation (Response.result p.0) p.1
            (subst (Holds s.accepted_generation) e (execute-Holds env c s)))
  ]
  step-Holds Request.snapshot s =
      elim (Option-cases (lifetimes_of s.order s.records (env.now s.reads))) [
        | inl e ↦ rw (e, snapshot) tt
        | inr (ls, e) ↦ elim (Option-cases (active_of s.order s.records)) [
          | inl missing ↦ rw (e, snapshot) (rw missing tt)
          | inr (ns, found) ↦ rw (e, snapshot) (rw found (omega arith))
        ]
      ]
  step-Holds Request.tick s = elim (Option-cases (handle_timer env s)) [
    | inl e ↦ rw (e, step) tt
    | inr (s', e) ↦
        rw (e, step)
          (timed-Holds s.accepted_generation Response.silent s'
            (subst (Keeps s.accepted_generation) e (handle_timer-Keeps s)))
  ]

  run_from-Keeps :
      (s : OwnerState) (qs : List Request) → Keeps s.accepted_generation (run_from env s qs)
  unfolding run_from
  run_from-Keeps s [] = omega arith
  run_from-Keeps s (q ∷ qs) = elim (Option-cases (step env q s)) [
    | inl e ↦ rw (e, run_from) tt
    | inr (p, e) ↦
        rw (e, run_from)
          (later (run_from env p.1 qs) (subst (Holds s.accepted_generation) e (step-Holds q s))
            (run_from-Keeps p.1 qs))
  ]
    where
      later : {g h : ℕ} (o : Option OwnerState) → g ≤ h → Keeps h o → Keeps g o
      later none low k = tt
      later (some s') low k = omega (arith, low, k)

  -- A renewal of an old generation is refused: as stale, or because it is not a valid command.
  renew_refusal-old :
      (generation : ℕ) (presentations : List Presentation) (s : OwnerState)
      → generation < s.accepted_generation
      → (e : Error) × (renew_refusal generation presentations s ≡ some e)
  renew_refusal-old generation presentations s old =
      elim (Option-cases (renew_refusal generation presentations s)) [
        | inr refused ↦ refused
        | inl taken ↦
            absurd (omega (arith, old, renew_refusal-later env generation presentations s taken))
      ]

  presentation_renew-refused :
      (c : Command) (now : ℕ) (e : Error) (s : OwnerState)
      → renew_refusal c.generation c.presentations s ≡ some e
      → presentation_renew env c now s ≡ some (err e, s)
  unfolding presentation_renew answer_renewal
  presentation_renew-refused c now e s refused =
      let kept : renew c.generation c.presentations now s ≡ some (some e, s) =
        unfold renew in rw (refused, renew) refl in
      rw (kept, presentation_renew) refl

  execute-refused :
      (c : Command) (e : Error) (s : OwnerState)
      → c.kind ≡ CommandKind.presentation_renew
      → renew_refusal c.generation c.presentations s ≡ some e
      → execute env c s ≡ some (err e, (clock_now env s).1)
  unfolding execute
  execute-refused c e s renews refused =
      let ungated : gate_presenter c s ≡ none = unfold gate_presenter in ground (arith, renews) in
      let s1 = (clock_now env s).1 in
      let same : renew_refusal c.generation c.presentations s1 ≡ some e =
        unfold renew_refusal in refused in
      rw (ungated, execute)
        (ap (λ k. dispatch env k c (env.now s.reads) s1) renews
          ∙ unfold dispatch in presentation_renew-refused c (env.now s.reads) e s1 same)

  -- A superseded presenter stays locked out. Once the accepted generation is past `g`, then after any
  -- further run every command that carries the generation `g` and is gated, `g` not being 0, is refused
  -- as stale and leaves the state as it is; and a renewal that carries `g` is refused, and leaves the
  -- state as it is but for its reading of the clock.
  pub run_from-stale :
      (s s' : OwnerState) (qs : List Request) (c : Command)
      → run_from env s qs ≡ some s'
      → (is_gated c.kind ≡ true) ⊎ (c.kind ≡ CommandKind.presentation_renew)
      → c.generation ≢ 0
      → c.generation < s.accepted_generation
      → ((is_gated c.kind ≡ true) × (execute env c s' ≡ some (err stale, s')))
        ⊎ ((c.kind ≡ CommandKind.presentation_renew)
            × (e : Error) × (execute env c s' ≡ some (err e, (clock_now env s').1)))
  unfolding execute gate_presenter require_presenter
  run_from-stale s s' qs c ran from real old =
      let later : s.accepted_generation ≤ s'.accepted_generation =
        subst (Keeps s.accepted_generation) ran (run_from-Keeps s qs) in
      elim from [
        | inl gated ↦
            let refused : gate_presenter c s' ≡ some stale = ground (arith, later) in
            inl (gated, rw (refused, execute) refl)
        | inr renews ↦
            let (e, refused) =
              renew_refusal-old c.generation c.presentations s' (omega (arith, old, later)) in
            inr (renews, e, execute-refused c e s' renews refused)
      ]
