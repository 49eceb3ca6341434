-- ===== src/State/Invariant/Dispatch.antt =====
-- The command handlers that close or add notifications keep the invariant.
use sysc_notify.Base.{
  ℕ, ◌≡◌, refl, inl, inr, List, [], ◌∷◌, Option, none, some, Text, arith, Within-refl, ◌==◌,
  Bool-cases, Option-cases, Result, ok, err, ◌>>=◌,
}
use sysc_notify.Base.Map.{get, keys}
use sysc_notify.Base.Names
use sysc_notify.Protocol.Types.{Snapshot, ProducerRequest, close_requested, close_dismissed}
use sysc_notify.Protocol.Validate
use sysc_notify.State.Types.{Error, Command, Outcome, nothing, Tracked, Env, OwnerState, clock_now}
use sysc_notify.State.Publish.{zero_event, publish}
use sysc_notify.State.Close.{close}
use sysc_notify.State.Expiry.{renew}
use sysc_notify.State.Producers.{
  bind_producer, optional_id, bound_id, producer_candidate, publish_request, publish_producer,
  close_bound, close_request, close_producer,
}
use sysc_notify.State.Commands.{
  has_action, reply_command, close_unless_resident, invoke_action, reply_to, submit_reply,
  dismiss_all, answer_renewal, presentation_renew, presenter_resync,
}
use sysc_notify.State.Invariant.{Inv, Monotone}
use sysc_notify.State.Invariant.Shown.{lifetimes_of-total, snapshot-valid}
use sysc_notify.State.Invariant.Closing.{clock_now-Inv, close-Inv}
use sysc_notify.State.Invariant.Adding.{Returns, producers-Inv, add_with_producer_key-Returns}
use sysc_notify.State.Invariant.Expiring.{renew-Goes}
use sysc_notify.State.Invariant.Commands.{IsProducer, publish-Inv}

module _ (env : Env) (t : ℕ) where
  bind_producer-Returns :
      (key : Text) (o : Option (Result Error Outcome × OwnerState))
      → Returns env t o
      → Returns env t (do r ← o; some (bind_producer key r))
  bind_producer-Returns key o (err e, s, given, inv) = (err e, s, rw given refl, inv)
  bind_producer-Returns key o (ok r, s, given, inv) = (
    ok r,
    record s { producer_ids = Names.put key r.id s.producer_ids },
    rw given refl,
    producers-Inv env t s _ inv,
  )

  resync-Inv :
      (shot : Snapshot) (generation : ℕ) (s : OwnerState)
      → Validate.snapshot shot ≡ none
      → shot.sequence ≡ s.sequence
      → Inv env t s
      → Inv env t
          (publish env
            (record zero_event {
              sequence = shot.sequence;
              snapshot = some shot;
              generation = generation;
            })
            s).1
  resync-Inv shot generation s valid at inv =
      publish-Inv env t
        (record zero_event {
          sequence = shot.sequence;
          snapshot = some shot;
          generation = generation;
        })
        s refl (tt, (at, at, valid)) inv

module _ (env : Env) (mono : Monotone env) (t : ℕ) where
  publish_request-Returns :
      (p : ProducerRequest) (s : OwnerState)
      → IsProducer (some p)
      → Inv env t s
      → Returns env t (publish_request env p t s)
  unfolding publish_request producer_candidate
  publish_request-Returns p s small inv = elim (Option-cases (Validate.producer_request p)) [
    | inr (fault, e) ↦ (err (Error.protocol fault), s, rw (e, publish_request) refl, inv)
    | inl e ↦
        let (id, bindings) = bound_id p.key s in
        rw (e, publish_request)
          (bind_producer-Returns env t p.key _ (
            add_with_producer_key-Returns env mono t (producer_candidate p id) p.key none
              (record s { producer_ids = bindings }) small (producers-Inv env t s bindings inv)))
  ]

  pub publish_producer-Returns :
      (p : Option ProducerRequest) (s : OwnerState)
      → IsProducer p
      → Inv env t s
      → Returns env t (publish_producer env p t s)
  unfolding publish_producer
  publish_producer-Returns none s small inv = (_, s, refl, inv)
  publish_producer-Returns (some p) s small inv = publish_request-Returns p s small inv

  close_bound-Returns :
      (key : Text) (id : ℕ) (s : OwnerState)
      → Inv env t s
      → Returns env t (close_bound env key id s)
  unfolding close_bound
  close_bound-Returns key id s inv = elim (Bool-cases (id == 0)) [
    | inl free ↦ rw (free, close_bound) (_, s, refl, inv)
    | inr bound ↦ elim (Option-cases (get id s.records)) [
      | inl gone ↦ rw (bound, close_bound) (rw gone (_, _, refl, producers-Inv env t s _ inv))
      | inr (r, found) ↦
          rw (bound, close_bound)
            (rw found (
              _,
              _,
              refl,
              close-Inv env mono t id close_requested s (omega arith) (omega arith) inv,
            ))
    ]
  ]

  pub close_producer-Returns :
      (p : Option ProducerRequest) (s : OwnerState)
      → Inv env t s
      → Returns env t (close_producer env p s)
  unfolding close_producer close_request
  close_producer-Returns none s inv = (_, s, refl, inv)
  close_producer-Returns (some p) s inv = elim (Option-cases (Validate.producer_request p)) [
    | inr (fault, e) ↦ rw (e, close_request) (_, s, refl, inv)
    | inl e ↦
        rw (e, close_request)
          (close_bound-Returns p.key (optional_id (Names.get p.key s.producer_ids)) s inv)
  ]

  close_unless_resident-Inv :
      (id : ℕ) (r : Tracked) (s : OwnerState)
      → Inv env t s
      → Inv env t (close_unless_resident env id r s).1
  unfolding close_unless_resident
  close_unless_resident-Inv id r s inv = elim (Bool-cases r.candidate.resident) [
    | inl stays ↦ rw (stays, close_unless_resident) inv
    | inr goes ↦
        rw (goes, close_unless_resident)
          (close-Inv env mono t id close_dismissed s (omega arith) (omega arith) inv)
  ]

  pub invoke_action-Inv :
      (id : ℕ) (key : Text) (s : OwnerState)
      → Inv env t s
      → Inv env t (invoke_action env id key s).1
  unfolding invoke_action
  invoke_action-Inv id key s inv = elim (Option-cases (get id s.records)) [
    | inl e ↦ rw (e, invoke_action) inv
    | inr (r, e) ↦ elim (Bool-cases (has_action key r.notification.actions)) [
      | inr unknown ↦ rw (e, invoke_action) (rw unknown inv)
      | inl known ↦
          rw (e, invoke_action)
            (rw known (
              close_unless_resident-Inv id r _ (
                publish-Inv env t
                  (record zero_event { action = some (record { id = id; key = key }) }) s refl
                  (tt, tt) inv)))
    ]
  ]

  pub submit_reply-Inv :
      (id : ℕ) (text : Text) (s : OwnerState)
      → Inv env t s
      → Inv env t (submit_reply env id text s).1
  unfolding submit_reply reply_to
  submit_reply-Inv id text s inv = elim (Option-cases (Validate.command (reply_command id text))) [
    | inr (fault, e) ↦ rw (e, submit_reply) inv
    | inl valid ↦ elim (Option-cases (get id s.records)) [
      | inl e ↦ rw (valid, submit_reply) (rw (e, reply_to) inv)
      | inr (r, e) ↦ elim (Bool-cases r.candidate.inline_reply) [
        | inr mute ↦ rw (valid, submit_reply) (rw (e, reply_to) (rw mute inv))
        | inl asked ↦
            rw (valid, submit_reply)
              (rw (e, reply_to)
                (rw asked (
                  close_unless_resident-Inv id r _ (
                    publish-Inv env t
                      (record zero_event { reply = some (record { id = id; text = text }) }) s refl
                      (tt, tt) inv))))
      ]
    ]
  ]

  pub dismiss_all-Inv :
      (ids : List ℕ) (e : Option Error) (s : OwnerState)
      → Inv env t s
      → Inv env t (dismiss_all env ids e s).1
  unfolding dismiss_all
  dismiss_all-Inv [] e s inv = inv
  dismiss_all-Inv (id ∷ ids) e s inv =
      dismiss_all-Inv ids _ (close env id close_dismissed s).1
        (close-Inv env mono t id close_dismissed s (omega arith) (omega arith) inv)

  pub presentation_renew-Returns :
      (c : Command) (s : OwnerState) → Inv env t s → Returns env t (presentation_renew env c t s)
  unfolding presentation_renew answer_renewal
  presentation_renew-Returns c s inv =
      answered (renew-Goes env t c.generation c.presentations s inv)
    where
      answered :
          ((e : Option Error) × (s' : OwnerState) × (renew c.generation c.presentations t s
              ≡ some (e, s'))
            × Inv env t s')
          → Returns env t (presentation_renew env c t s)
      answered (some e, s', given, inv') = (err e, s', rw (given, presentation_renew) refl, inv')
      answered (none, s', given, inv') =
          let (ls, timed, _, _) =
            lifetimes_of-total t t s'.order s'.records (omega arith)
              (rw (← inv'.ordered) (Within-refl (keys s'.records))) inv'.sound.entries in
          (
            ok (record nothing { lifetimes = ls }),
            s',
            rw (given, presentation_renew) (rw (timed, answer_renewal) refl),
            inv',
          )

  pub presenter_resync-Returns :
      (c : Command) (s : OwnerState) → Inv env t s → Returns env t (presenter_resync env c s)
  unfolding presenter_resync
  presenter_resync-Returns c s inv =
      let (shot, taken, valid, at) = snapshot-valid env t s inv in
      rw (taken, presenter_resync)
        (
          _,
          _,
          refl,
          resync-Inv env t shot c.generation (clock_now env s).1 valid at
              (clock_now-Inv env mono t s inv),
        )
