-- ===== src/State/Fencing/Handlers.antt =====
-- owner.go: no handler of a command moves the accepted generation back.
use sysc_notify.Base.{
  ℕ, ◌≤◌, ◌≡◌, refl, ◌∙◌, inl, inr, ◌||◌, List, [], ◌∷◌, Option, none, some, Text, arith, length,
  ◌==◌, Bool-cases, Option-cases, subst, Result, ok, err, ◌>>=◌,
}
use sysc_notify.Base.Map.{get}
use sysc_notify.Base.Names
use sysc_notify.Protocol.Types.{
  HistoryEntry, ProducerRequest, max_active_notifications, close_requested, close_dismissed,
  close_undefined, suppressed,
}
use sysc_notify.Protocol.Validate
use sysc_notify.Notify.Model.{Candidate, resolve_id}
use sysc_notify.History.Image.{HistoryFault, PreparedImage}
use sysc_notify.History.Store
use sysc_notify.State.Types.{Error, Outcome, Tracked, Env, OwnerState}
use sysc_notify.State.Lifetimes.{validate_candidate}
use sysc_notify.State.Publish.{publish, publish_delta, history_removed_delta}
use sysc_notify.State.Close.{
  record_closed, publish_removed, publish_added, settle, keep_closed, forget, close,
}
use sysc_notify.State.Active.{
  victim, evict_capacity_victim, taken_ids, make_room, insert_record, add_new, replace_record,
  release_other, add_over, add_with_producer_key,
}
use sysc_notify.State.Expiry.{present_all, clear_presentation}
use sysc_notify.State.Producers.{
  optional_id, bound_id, producer_candidate, bind_producer, publish_request, publish_producer,
  close_bound, close_request, close_producer,
}
use sysc_notify.State.Commands.{
  has_action, reply_command, close_unless_resident, invoke_action, reply_to, submit_reply,
  dismiss_all, clear_history, remove_history, mark_store, mark_history_seen,
}

-- The accepted generation is at least `g` afterwards, if there is an afterwards.
abbrev pub Keeps : ℕ → Option OwnerState → Type 0
Keeps g none = Unit {0}
Keeps g (some s) = g ≤ s.accepted_generation

abbrev pub Holds : {A : Type 0} → ℕ → Option (A × OwnerState) → Type 0
Holds g none = Unit {0}
Holds g (some p) = g ≤ p.1.accepted_generation

module _ (env : Env) where
  pub publish_removed-accepted :
      (ids : List ℕ) (s : OwnerState)
      → (publish_removed env ids s).accepted_generation ≡ s.accepted_generation
  unfolding publish_removed publish_delta publish
  publish_removed-accepted [] s = refl
  publish_removed-accepted (id ∷ ids) s =
      publish_removed-accepted ids (publish_delta env (history_removed_delta id) s)

  publish_added-accepted :
      (entry : HistoryEntry) (s : OwnerState)
      → (publish_added env entry s).accepted_generation ≡ s.accepted_generation
  unfolding publish_added publish_delta publish
  publish_added-accepted entry s = ground arith

  settle-accepted :
      (p : Result HistoryFault (HistoryEntry × List ℕ) × Store.Store) (s : OwnerState)
      → (settle env p s).accepted_generation ≡ s.accepted_generation
  unfolding settle
  settle-accepted (err fault, store) s = refl
  settle-accepted (ok (entry, removed), store) s =
      publish_added-accepted entry _ ∙ publish_removed-accepted removed _

  keep_closed-accepted :
      (r : Tracked) (s : OwnerState)
      → (keep_closed env r s).accepted_generation ≡ s.accepted_generation
  unfolding keep_closed
  keep_closed-accepted r s = elim (Option-cases s.history) [
    | inl e ↦ rw (e, keep_closed)
    | inr (store, e) ↦ elim (Bool-cases (r.candidate.transient || r.candidate.private)) [
      | inl left_out ↦ rw (e, keep_closed) (rw left_out)
      | inr kept ↦
          rw (e, keep_closed)
            (rw kept (settle-accepted (record_closed env r (env.now s.reads) store) _))
    ]
  ]

  pub close-accepted :
      (id reason : ℕ) (s : OwnerState)
      → (close env id reason s).1.accepted_generation ≡ s.accepted_generation
  unfolding close forget publish_delta publish
  close-accepted id reason s = elim (Option-cases (get id s.records)) [
    | inl e ↦ rw (e, close)
    | inr (r, e) ↦ rw (e, close) (keep_closed-accepted r _)
  ]

  make_room-Keeps : (s : OwnerState) → Keeps s.accepted_generation (make_room env s)
  unfolding make_room evict_capacity_victim
  make_room-Keeps s = elim (Bool-cases (length s.records == max_active_notifications)) [
    | inr room ↦ rw (room, make_room) (omega arith)
    | inl full ↦ elim (Option-cases (victim s)) [
      | inl e ↦ rw (full, make_room) (rw (e, evict_capacity_victim) tt)
      | inr (id, e) ↦ elim (Bool-cases (id == 0)) [
        | inl nobody ↦
            rw (full, make_room) (rw (e, evict_capacity_victim) (rw nobody (omega arith)))
        | inr chosen ↦
            rw (full, make_room)
              (rw (e, evict_capacity_victim)
                (rw chosen (omega (arith, close-accepted id close_undefined s))))
      ]
    ]
  ]

  pub add_with_producer_key-Holds :
      (c : Candidate) (key : Text) (image : Option PreparedImage) (now : ℕ) (s : OwnerState)
      → Holds s.accepted_generation (add_with_producer_key env c key image now s)
  unfolding add_with_producer_key add_new add_over insert_record replace_record release_other
      publish_delta publish
  add_with_producer_key-Holds c key image now s = elim (Option-cases (validate_candidate c now)) [
    | inr (e, refused) ↦ rw (refused, add_with_producer_key) (omega arith)
    | inl accepted ↦ elim (Option-cases (get c.replaces_id s.records)) [
      | inr (existing, found) ↦ rw (accepted, add_with_producer_key) (rw found (released existing))
      | inl absent ↦ rw (accepted, add_with_producer_key) (rw absent (added s))
    ]
  ]
    where
      released :
          (existing : Tracked)
          → s.accepted_generation
            ≤ (release_other env existing key c.replaces_id s).accepted_generation
      released existing = ground arith

      added : (s : OwnerState) → Holds s.accepted_generation (add_new env c key image now s)
      added s = elim (Option-cases (make_room env s)) [
        | inl e ↦ rw (e, add_new) tt
        | inr (s', e) ↦ elim (Option-cases (resolve_id 0 s'.next_id (taken_ids s'))) [
          | inl endless ↦ rw (e, add_new) (rw endless tt)
          | inr (p, found) ↦
              rw (e, add_new) (rw found (subst (Keeps s.accepted_generation) e (make_room-Keeps s)))
        ]
      ]

  pub publish_producer-Holds :
      (p : Option ProducerRequest) (now : ℕ) (s : OwnerState)
      → Holds s.accepted_generation (publish_producer env p now s)
  unfolding publish_producer publish_request
  publish_producer-Holds none now s = omega arith
  publish_producer-Holds (some p) now s = elim (Option-cases (Validate.producer_request p)) [
    | inr (fault, e) ↦ rw (e, publish_request) (omega arith)
    | inl e ↦
        let (id, bindings) = bound_id p.key s in
        rw (e, publish_request)
          (bound
            (add_with_producer_key env (producer_candidate p id) p.key none now
              (record s { producer_ids = bindings }))
            (add_with_producer_key-Holds (producer_candidate p id) p.key none now
              (record s { producer_ids = bindings })))
  ]
    where
      bound :
          (o : Option (Result Error Outcome × OwnerState))
          → Holds s.accepted_generation o
          → Holds s.accepted_generation (do r ← o; some (bind_producer p.key r))
      bound none h = tt
      bound (some (err e, s')) h = h
      bound (some (ok r, s')) h = h

  pub close_producer-Holds :
      (p : Option ProducerRequest) (s : OwnerState)
      → Holds s.accepted_generation (close_producer env p s)
  unfolding close_producer close_request close_bound
  close_producer-Holds none s = omega arith
  close_producer-Holds (some p) s =
      ground
        (arith, close-accepted (optional_id (Names.get p.key s.producer_ids)) close_requested s)

  close_unless_resident-accepted :
      (id : ℕ) (r : Tracked) (s : OwnerState)
      → (close_unless_resident env id r s).1.accepted_generation ≡ s.accepted_generation
  unfolding close_unless_resident
  close_unless_resident-accepted id r s = ground (arith, close-accepted id close_dismissed s)

  pub invoke_action-accepted :
      (id : ℕ) (key : Text) (s : OwnerState)
      → (invoke_action env id key s).1.accepted_generation ≡ s.accepted_generation
  unfolding invoke_action publish
  invoke_action-accepted id key s = elim (Option-cases (get id s.records)) [
    | inl e ↦ rw (e, invoke_action)
    | inr (r, e) ↦ elim (Bool-cases (has_action key r.notification.actions)) [
      | inr unknown ↦ rw (e, invoke_action) (rw unknown)
      | inl known ↦ rw (e, invoke_action) (rw known (close_unless_resident-accepted id r _))
    ]
  ]

  pub submit_reply-accepted :
      (id : ℕ) (text : Text) (s : OwnerState)
      → (submit_reply env id text s).1.accepted_generation ≡ s.accepted_generation
  unfolding submit_reply reply_to publish
  submit_reply-accepted id text s = elim (Option-cases (Validate.command (reply_command id text))) [
    | inr (fault, e) ↦ rw (e, submit_reply)
    | inl valid ↦ elim (Option-cases (get id s.records)) [
      | inl e ↦ rw (valid, submit_reply) (rw (e, reply_to))
      | inr (r, e) ↦ elim (Bool-cases r.candidate.inline_reply) [
        | inr mute ↦ rw (valid, submit_reply) (rw (e, reply_to) (rw mute))
        | inl asked ↦
            rw (valid, submit_reply)
              (rw (e, reply_to) (rw asked (close_unless_resident-accepted id r _)))
      ]
    ]
  ]

  pub dismiss_all-accepted :
      (ids : List ℕ) (e : Option Error) (s : OwnerState)
      → (dismiss_all env ids e s).1.accepted_generation ≡ s.accepted_generation
  unfolding dismiss_all
  dismiss_all-accepted [] e s = refl
  dismiss_all-accepted (id ∷ ids) e s =
      dismiss_all-accepted ids _ (close env id close_dismissed s).1
      ∙ close-accepted id close_dismissed s

  pub clear_history-accepted :
      (s : OwnerState) → (clear_history env s).1.accepted_generation ≡ s.accepted_generation
  unfolding clear_history publish_delta publish
  clear_history-accepted s = ground arith

  pub remove_history-accepted :
      (ids : List ℕ) (s : OwnerState)
      → (remove_history env ids s).1.accepted_generation ≡ s.accepted_generation
  unfolding remove_history
  remove_history-accepted ids s = elim (Option-cases s.history) [
    | inl e ↦ rw (e, remove_history)
    | inr (store, e) ↦
        rw (e, remove_history) (publish_removed-accepted (Store.remove ids store).0 _)
  ]

  pub mark_history_seen-accepted :
      (ids : List ℕ) (s : OwnerState)
      → (mark_history_seen env ids s).1.accepted_generation ≡ s.accepted_generation
  unfolding mark_history_seen mark_store publish_delta publish
  mark_history_seen-accepted ids s = ground arith

  pub clear_presentation-Keeps :
      (now : ℕ) (s : OwnerState) → Keeps s.accepted_generation (clear_presentation now s)
  unfolding clear_presentation
  clear_presentation-Keeps now s =
      elim (Option-cases (present_all (λ _. suppressed) now s.order s.records)) [
        | inl e ↦ rw (e, clear_presentation) tt
        | inr (m, e) ↦ rw (e, clear_presentation) (omega arith)
      ]
