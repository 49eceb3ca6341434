-- ===== src/State/Keyed.antt =====
-- owner.go's producers: one key stands for one notification, which is replaced, not doubled.
use sysc_notify.Base.{
  ℕ, ◌≡◌, refl, ap, ◌∙◌, inl, inr, true, List, Option, none, some, Text, text_eq_refl, arith,
  if◌then◌else◌, is_some, Option-cases, subst, Result, ok, err, ◌>>=◌,
}
use sysc_notify.Base.Map.{get, put, get-put}
use sysc_notify.Base.Names
use sysc_notify.Protocol.Types.{ProducerRequest}
use sysc_notify.Protocol.Validate
use sysc_notify.Notify.Model.{Candidate, resolve_id}
use sysc_notify.History.Image.{PreparedImage}
use sysc_notify.State.Types.{Error, Outcome, Tracked, Env, OwnerState}
use sysc_notify.State.Lifetimes.{validate_candidate}
use sysc_notify.State.Publish.{publish_delta, publish}
use sysc_notify.State.Active.{
  taken_ids, make_room, insert_record, add_new, replace_record, add_over, add_with_producer_key,
}
use sysc_notify.State.Producers.{
  bound_id, producer_candidate, bind_producer, publish_request, publish_producer,
}

-- The notification that a result names is active.
abbrev Active : Option (Result Error Outcome × OwnerState) → Type 0
Active none = Unit {0}
Active (some (err e, s)) = Unit {0}
Active (some (ok r, s)) = is_some (get r.id s.records) ≡ true

-- A key stands for the notification that a result names, and that notification is active.
abbrev Bound : Text → Option (Result Error Outcome × OwnerState) → Type 0
Bound key none = Unit {0}
Bound key (some (err e, s)) = Unit {0}
Bound key (some (ok r, s)) =
    (Names.get key s.producer_ids ≡ some r.id) × (is_some (get r.id s.records) ≡ true)

put_there : (id : ℕ) (r : Tracked) (m : List (ℕ × Tracked)) → is_some (get id (put id r m)) ≡ true
put_there id r m = ground (arith, get-put id id r m)

module _ (env : Env) where
  add_new-Active :
      (c : Candidate) (key : Text) (image : Option PreparedImage) (now : ℕ) (s : OwnerState)
      → Active (add_new env c key image now s)
  unfolding add_new insert_record publish_delta publish
  add_new-Active c key image now s = elim (Option-cases (make_room env s)) [
    | inl e ↦ rw (e, add_new) tt
    | inr (s', e) ↦ elim (Option-cases (resolve_id 0 s'.next_id (taken_ids s'))) [
      | inl endless ↦ rw (e, add_new) (rw endless tt)
      | inr (p, found) ↦ rw (e, add_new) (rw found (put_there p.0 _ s'.records))
    ]
  ]

  add_with_producer_key-Active :
      (c : Candidate) (key : Text) (image : Option PreparedImage) (now : ℕ) (s : OwnerState)
      → Active (add_with_producer_key env c key image now s)
  unfolding add_with_producer_key add_over replace_record publish_delta publish
  add_with_producer_key-Active c key image now s = elim (Option-cases (validate_candidate c now)) [
    | inr (e, refused) ↦ rw (refused, add_with_producer_key) tt
    | inl accepted ↦ elim (Option-cases (get c.replaces_id s.records)) [
      | inr (existing, found) ↦
          rw (accepted, add_with_producer_key) (rw found (put_there c.replaces_id _ _))
      | inl absent ↦
          rw (accepted, add_with_producer_key) (rw absent (add_new-Active c key image now s))
    ]
  ]

  bind-Bound :
      (key : Text) (o : Option (Result Error Outcome × OwnerState))
      → Active o
      → Bound key (do r ← o; some (bind_producer key r))
  bind-Bound key none h = tt
  bind-Bound key (some (err e, s)) h = tt
  bind-Bound key (some (ok r, s)) h = (
    Names.get-put key key r.id s.producer_ids
        ∙ ap (λ b. if b then some r.id else Names.get key s.producer_ids) (text_eq_refl key),
    h,
  )

  publish_producer-Bound :
      (p : ProducerRequest) (now : ℕ) (s : OwnerState)
      → Bound p.key (publish_producer env (some p) now s)
  unfolding publish_producer publish_request
  publish_producer-Bound p now s = elim (Option-cases (Validate.producer_request p)) [
    | inr (fault, e) ↦ rw (e, publish_request) tt
    | inl e ↦
        let (id, bindings) = bound_id p.key s in
        rw (e, publish_request)
          (bind-Bound p.key _ (
            add_with_producer_key-Active (producer_candidate p id) p.key none now
              (record s { producer_ids = bindings })))
  ]

  -- The answer to a request for a candidate that names an active notification.
  abbrev Replaces : ℕ → Option (Result Error Outcome × OwnerState) → Type 0
  Replaces id none = Unit {0}
  Replaces id (some (err e, s)) = Unit {0}
  Replaces id (some (ok r, s)) = (r.id ≡ id) × (r.replaced ≡ true)

  add_over-Replaces :
      (c : Candidate) (key : Text) (image : Option PreparedImage) (now : ℕ) (s : OwnerState)
      → is_some (get c.replaces_id s.records) ≡ true
      → Replaces c.replaces_id (add_with_producer_key env c key image now s)
  unfolding add_with_producer_key add_over
  add_over-Replaces c key image now s there = elim (Option-cases (validate_candidate c now)) [
    | inr (e, refused) ↦ rw (refused, add_with_producer_key) tt
    | inl accepted ↦ elim (Option-cases (get c.replaces_id s.records)) [
      | inr (existing, found) ↦ rw (accepted, add_with_producer_key) (rw found (refl, refl))
      | inl absent ↦ absurd (ground (arith, absent, there))
    ]
  ]

  bind-Replaces :
      (key : Text) (id : ℕ) (o : Option (Result Error Outcome × OwnerState))
      → Replaces id o
      → Replaces id (do r ← o; some (bind_producer key r))
  bind-Replaces key id none h = tt
  bind-Replaces key id (some (err e, s)) h = tt
  bind-Replaces key id (some (ok r, s)) h = h

  publish_producer-Replaces :
      (q : ProducerRequest) (id now : ℕ) (s : OwnerState)
      → Names.get q.key s.producer_ids ≡ some id
      → is_some (get id s.records) ≡ true
      → Replaces id (publish_producer env (some q) now s)
  unfolding publish_producer publish_request bound_id producer_candidate
  publish_producer-Replaces q id now s bound there =
      elim (Option-cases (Validate.producer_request q)) [
        | inr (fault, e) ↦ rw (e, publish_request) tt
        | inl e ↦
            let same : bound_id q.key s ≡ (id, s.producer_ids) = ground (arith, bound, there) in
            rw (e, publish_request)
              (rw same (
                bind-Replaces q.key id _
                  (add_over-Replaces (producer_candidate q id) q.key none now s there)))
      ]

  -- If a request of a producer is answered with a result, and the next thing that the owner does is to
  -- answer a request with the same key with a result, then the second has replaced the notification of
  -- the first.
  pub publish_producer-same :
      (p q : ProducerRequest) (now later : ℕ) (s s' s'' : OwnerState) (r r' : Outcome)
      → q.key ≡ p.key
      → publish_producer env (some p) now s ≡ some (ok r, s')
      → publish_producer env (some q) later s' ≡ some (ok r', s'')
      → (r'.id ≡ r.id) × (r'.replaced ≡ true)
  publish_producer-same p q now later s s' s'' r r' same first second =
      let (bound, there) = subst (Bound p.key) first (publish_producer-Bound p now s) in
      subst (Replaces r.id) second (
        publish_producer-Replaces q r.id later s'
          (ap (λ k. Names.get k s'.producer_ids) same ∙ bound) there)
