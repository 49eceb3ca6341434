-- ===== src/State/Fencing/Dispatch.antt =====
-- owner.go's `do`: no command moves the accepted generation back.
use sysc_notify.Base.{
  ℕ, ◌≤◌, ◌≡◌, inl, inr, not, ◌&&◌, List, [], Option, none, some, arith, ◌==◌, if◌then◌else◌,
  Bool-cases, Option-cases, subst,
}
use sysc_notify.Protocol.Types.{Presentation, close_requested, close_dismissed}
use sysc_notify.State.Types.{Error, CommandKind, Command, Env, OwnerState, clock_now}
use sysc_notify.State.Lifetimes.{lifetimes_of}
use sysc_notify.State.Publish.{active_of, publish, snapshot}
use sysc_notify.State.Active.{burst_duplicate, add}
use sysc_notify.State.Expiry.{
  reported, present_all, clear_presentation, renew_refusal, hand_over, install, renew,
}
use sysc_notify.State.Commands.{
  gate_presenter, done, answer_renewal, presentation_renew, advance_generation, presenter_lost,
  presenter_resync, dispatch, execute,
}
use sysc_notify.State.Fencing.Handlers.{
  Keeps, Holds, close-accepted, add_with_producer_key-Holds, publish_producer-Holds,
  close_producer-Holds, invoke_action-accepted, submit_reply-accepted, dismiss_all-accepted,
  clear_history-accepted, remove_history-accepted, mark_history_seen-accepted,
  clear_presentation-Keeps,
}

module _ (env : Env) where
  done-Holds :
      (g : ℕ) (p : Option Error × OwnerState) → p.1.accepted_generation ≡ g → Holds g (done p)
  done-Holds g (none, s) h = omega (arith, h)
  done-Holds g (some e, s) h = omega (arith, h)

  -- A renewal that is not refused has a generation that is not older.
  pub renew_refusal-later :
      (generation : ℕ) (presentations : List Presentation) (s : OwnerState)
      → renew_refusal generation presentations s ≡ none
      → s.accepted_generation ≤ generation
  unfolding renew_refusal
  renew_refusal-later generation presentations s h = ground arith

  install-Keeps :
      (generation : ℕ) (presentations : List Presentation) (now : ℕ) (s : OwnerState)
      → Keeps generation (install generation presentations now s)
  unfolding install
  install-Keeps generation presentations now s = elim (Option-cases (hand_over generation now s)) [
    | inl e ↦ rw (e, install) tt
    | inr (s', e) ↦
        elim (Option-cases
          (present_all (λ id. reported id presentations) now s'.order s'.records)) [
            | inl missing ↦ rw (e, install) (rw missing tt)
            | inr (m, found) ↦ rw (e, install) (rw found (omega arith))
          ]
  ]

  renew-Holds :
      (generation : ℕ) (presentations : List Presentation) (now : ℕ) (s : OwnerState)
      → Holds s.accepted_generation (renew generation presentations now s)
  unfolding renew
  renew-Holds generation presentations now s =
      elim (Option-cases (renew_refusal generation presentations s)) [
        | inr (e, refused) ↦ rw (refused, renew) (omega arith)
        | inl taken ↦ elim (Option-cases (install generation presentations now s)) [
          | inl e ↦ rw (taken, renew) (rw e tt)
          | inr (s', e) ↦
              rw (taken, renew)
                (rw e (
                  omega (
                    arith,
                    renew_refusal-later generation presentations s taken,
                    subst (Keeps generation) e (install-Keeps generation presentations now s),
                  )))
        ]
      ]

  answer_renewal-Holds :
      (g now : ℕ) (p : Option Error × OwnerState)
      → g ≤ p.1.accepted_generation
      → Holds g (answer_renewal env now p)
  unfolding answer_renewal
  answer_renewal-Holds g now (some e, s) h = h
  answer_renewal-Holds g now (none, s) h =
      elim (Option-cases (lifetimes_of s.order s.records now)) [
        | inl e ↦ rw (e, answer_renewal) tt
        | inr (ls, e) ↦ rw (e, answer_renewal) h
      ]

  presentation_renew-Holds :
      (c : Command) (now : ℕ) (s : OwnerState)
      → Holds s.accepted_generation (presentation_renew env c now s)
  unfolding presentation_renew
  presentation_renew-Holds c now s =
      elim (Option-cases (renew c.generation c.presentations now s)) [
        | inl e ↦ rw (e, presentation_renew) tt
        | inr (p, e) ↦
            rw (e, presentation_renew)
              (answer_renewal-Holds s.accepted_generation now p (
                subst (Holds s.accepted_generation) e
                  (renew-Holds c.generation c.presentations now s)))
      ]

  advance_generation-later :
      (c : Command) (s : OwnerState)
      → s.accepted_generation ≤ (advance_generation env c s).accepted_generation
  unfolding advance_generation
  advance_generation-later c s = ground arith

  presenter_lost-Holds :
      (c : Command) (now : ℕ) (s : OwnerState)
      → Holds s.accepted_generation (presenter_lost env c now s)
  unfolding presenter_lost
  presenter_lost-Holds c now s =
      elim (Bool-cases (not (c.generation == 0) && c.generation == s.presenter_generation)) [
        | inr other ↦ rw (other, presenter_lost) (advance_generation-later c s)
        | inl lost ↦ elim (Option-cases (clear_presentation now s)) [
          | inl e ↦ rw (lost, presenter_lost) (rw e tt)
          | inr (s', e) ↦
              rw (lost, presenter_lost)
                (rw e (
                  omega (
                    arith,
                    subst (Keeps s.accepted_generation) e (clear_presentation-Keeps env now s),
                    advance_generation-later c s',
                  )))
        ]
      ]

  presenter_resync-Holds :
      (c : Command) (s : OwnerState) → Holds s.accepted_generation (presenter_resync env c s)
  unfolding presenter_resync snapshot publish
  presenter_resync-Holds c s =
      elim (Option-cases (lifetimes_of s.order s.records (env.now s.reads))) [
        | inl e ↦ rw (e, presenter_resync) tt
        | inr (ls, e) ↦ elim (Option-cases (active_of s.order s.records)) [
          | inl missing ↦ rw (e, presenter_resync) (rw missing tt)
          | inr (ns, found) ↦ rw (e, presenter_resync) (rw found (omega arith))
        ]
      ]

  dispatch-Holds :
      (kind : CommandKind) (c : Command) (now : ℕ) (s : OwnerState)
      → Holds s.accepted_generation (dispatch env kind c now s)
  unfolding dispatch add
  dispatch-Holds CommandKind.add c now s =
      add_with_producer_key-Holds env
        (record c.candidate {
          replaces_id =
              if c.candidate.replaces_id == 0
              then burst_duplicate c.candidate now s
              else c.candidate.replaces_id;
        })
        [] c.prepared_history_image now s
  dispatch-Holds CommandKind.producer_publish c now s = publish_producer-Holds env c.producer now s
  dispatch-Holds CommandKind.producer_close c now s = close_producer-Holds env c.producer s
  dispatch-Holds CommandKind.close_requested c now s =
      done-Holds _ _ (close-accepted env c.id close_requested s)
  dispatch-Holds CommandKind.dismiss c now s =
      done-Holds _ _ (close-accepted env c.id close_dismissed s)
  dispatch-Holds CommandKind.invoke_action c now s =
      done-Holds _ _ (invoke_action-accepted env c.id c.action_key s)
  dispatch-Holds CommandKind.submit_reply c now s =
      done-Holds _ _ (submit_reply-accepted env c.id c.reply_text s)
  dispatch-Holds CommandKind.presentation_renew c now s = presentation_renew-Holds c now s
  dispatch-Holds CommandKind.presenter_lost c now s = presenter_lost-Holds c now s
  dispatch-Holds CommandKind.dismiss_all c now s =
      done-Holds _ _ (dismiss_all-accepted env s.order none s)
  dispatch-Holds CommandKind.history_clear c now s = done-Holds _ _ (clear_history-accepted env s)
  dispatch-Holds CommandKind.history_remove c now s =
      done-Holds _ _ (remove_history-accepted env c.ids s)
  dispatch-Holds CommandKind.history_mark_seen c now s =
      done-Holds _ _ (mark_history_seen-accepted env c.ids s)
  dispatch-Holds CommandKind.presenter_resync c now s = presenter_resync-Holds c s
  dispatch-Holds (CommandKind.unknown k) c now s = omega arith

  pub execute-Holds : (c : Command) (s : OwnerState) → Holds s.accepted_generation (execute env c s)
  unfolding execute
  execute-Holds c s = elim (Option-cases (gate_presenter c s)) [
    | inr (e, refused) ↦ rw (refused, execute) (omega arith)
    | inl taken ↦
        rw (taken, execute) (dispatch-Holds c.kind c (env.now s.reads) (clock_now env s).1)
  ]
