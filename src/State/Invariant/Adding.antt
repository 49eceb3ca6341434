-- ===== src/State/Invariant/Adding.antt =====
-- Adding and replacing notifications keep the invariant, and always return.
use sysc_notify.Base.{
  ℕ, suc, ◌-◌, ◌^◌, ◌≤◌, ◌<◌, ◌≡◌, refl, ap, ◌∙◌, ◌≢◌, inl, inr, true, false, List, [], ◌∷◌, ◌++◌,
  Option, none, some, Text, arith, text_eq, length, length-append, contains, contains-append,
  append_one-Distinct, ◌==◌, if◌then◌else◌, Bool-cases, Option-cases, Result, ok, err,
}
use sysc_notify.Base.Map.{get, put, keys, Entries-put, keys-put_new, length-keys, is_some-get}
use sysc_notify.Protocol.Types.{DeltaKind, max_active_notifications}
use sysc_notify.Protocol.Validate
use sysc_notify.Notify.Model.{Candidate}
use sysc_notify.Notify.Fresh.{IsId, resolve_id-Fresh}
use sysc_notify.History.Image.{PreparedImage}
use sysc_notify.History.Store
use sysc_notify.State.Types.{Error, Outcome, nothing, Tracked, Env, OwnerState}
use sysc_notify.State.Lifetimes.{lifetime, validate_candidate}
use sysc_notify.State.Publish.{record_delta}
use sysc_notify.State.Active.{
  burst_duplicate, history_ids, taken_ids, insert_record, add_new, replace_record, release_other,
  add_over, add_with_producer_key, add,
}
use sysc_notify.State.Invariant.{IsEntry, Stored, Inv, Monotone}
use sysc_notify.State.Invariant.Records.{
  IsCandidate, put_old-Sound, start-IsEntry, replacement-IsEntry,
}
use sysc_notify.State.Invariant.Shown.{lifetime-valid, id-lifetime}
use sysc_notify.State.Invariant.Closing.{publish_delta-Inv}
use sysc_notify.State.Invariant.Room.{IsRecord-nonzero, make_room-room}

-- A step returns, and in a state that satisfies the invariant.
abbrev pub Returns : Env → ℕ → Option (Result Error Outcome × OwnerState) → Type 0
Returns env t o = (r : Result Error Outcome) × (s : OwnerState) × (o ≡ some (r, s)) × Inv env t s

added_delta-valid :
    (t id : ℕ) (r : Tracked)
    → IsEntry t id r
    → Validate.delta (record_delta DeltaKind.added r.notification (lifetime r t)) ≡ none
unfolding Validate.delta
added_delta-valid t id r e =
    ground (arith, e.valid, lifetime-valid t t id r (omega arith) e, id-lifetime r t)

replaced_delta-valid :
    (t id : ℕ) (r : Tracked)
    → IsEntry t id r
    → Validate.delta (record_delta DeltaKind.replaced r.notification (lifetime r t)) ≡ none
unfolding Validate.delta
replaced_delta-valid t id r e =
    ground (arith, e.valid, lifetime-valid t t id r (omega arith) e, id-lifetime r t)

module _ (env : Env) (t : ℕ) where
  insert_record-Inv :
      (id : ℕ) (r : Tracked) (s : OwnerState)
      → IsEntry t id r
      → contains id (keys s.records) ≡ false
      → length s.records < max_active_notifications
      → Inv env t s
      → Inv env t (insert_record env id r t s)
  unfolding insert_record
  insert_record-Inv id r s e free room inv =
      let more = keys-put_new id r s.records free in
      publish_delta-Inv env t _ _ (added_delta-valid t id r e) (record {
        sound = record {
          distinct = rw more (append_one-Distinct id _ inv.sound.distinct free);
          few = omega (
            arith,
            room,
            ap length more,
            length-keys s.records,
            length-keys (put id r s.records),
            length-append (keys s.records) (id ∷ []),
          );
          entries = Entries-put (IsEntry t) id r s.records e inv.sound.entries;
        };
        ordered = more ∙ ap (λ ids. ids ++ id ∷ []) inv.ordered;
        next_small = inv.next_small;
        past = inv.past;
        stored = inv.stored;
        logged = inv.logged;
      })

  -- A new id comes after the state's `next_id`.
  next_id-Inv :
      (s : OwnerState) (next : ℕ)
      → IsId next
      → Inv env t s
      → Inv env t (record s { next_id = next })
  next_id-Inv s next h inv = record {
    sound = inv.sound;
    ordered = inv.ordered;
    next_small = h.1;
    past = inv.past;
    stored = inv.stored;
    logged = inv.logged;
  }

  -- The bindings of producers are outside the invariant.
  pub producers-Inv :
      (s : OwnerState) (bindings : List (Text × ℕ))
      → Inv env t s
      → Inv env t (record s { producer_ids = bindings })
  producers-Inv s bindings inv = record {
    sound = inv.sound;
    ordered = inv.ordered;
    next_small = inv.next_small;
    past = inv.past;
    stored = inv.stored;
    logged = inv.logged;
  }

  replace_record-Inv :
      (id : ℕ) (r : Tracked) (s : OwnerState)
      → IsEntry t id r
      → contains id (keys s.records) ≡ true
      → Inv env t s
      → Inv env t (replace_record env id r t s)
  unfolding replace_record
  replace_record-Inv id r s e there inv =
      let (sound, same) = put_old-Sound t id r s.records there e inv.sound in
      publish_delta-Inv env t _ _ (replaced_delta-valid t id r e) (record {
        sound = sound;
        ordered = same ∙ inv.ordered;
        next_small = inv.next_small;
        past = inv.past;
        stored = inv.stored;
        logged = inv.logged;
      })

  release_other-Inv :
      (existing : Tracked) (key : Text) (id : ℕ) (s : OwnerState)
      → Inv env t s
      → Inv env t (release_other env existing key id s)
  unfolding release_other
  release_other-Inv existing key id s inv = elim (Bool-cases (text_eq existing.producer_key key)) [
    | inl same ↦ rw same inv
    | inr other ↦ rw other (producers-Inv s _ inv)
  ]

  release_other-records :
      (existing : Tracked) (key : Text) (id : ℕ) (s : OwnerState)
      → (release_other env existing key id s).records ≡ s.records
  unfolding release_other
  release_other-records existing key id s = ground arith

  -- Replacing an active notification.
  add_over-Inv :
      (existing : Tracked) (id : ℕ) (c : Candidate) (key : Text) (image : Option PreparedImage)
      (s : OwnerState)
      → IsCandidate c
      → validate_candidate c t ≡ none
      → contains id (keys s.records) ≡ true
      → Inv env t s
      → Inv env t (add_over env existing id c key image t s).1
  unfolding add_over
  add_over-Inv existing id c key image s small accepted there inv =
      replace_record-Inv id _ (release_other env existing key id s)
        (replacement-IsEntry t id c key image existing
          (IsRecord-nonzero t id s.records inv.sound.entries there) small accepted)
        (rw (release_other-records existing key id s) there)
        (release_other-Inv existing key id s inv)

length-entry_ids : (rs : List Store.Retained) → length (Store.entry_ids rs) ≡ length rs
length-entry_ids [] = refl
length-entry_ids (r ∷ rs) = ap suc (length-entry_ids rs)

module _ (env : Env) (mono : Monotone env) (t : ℕ) where
  free_record :
      (s : OwnerState) (id : ℕ)
      → contains id (taken_ids s) ≡ false
      → contains id (keys s.records) ≡ false
  unfolding taken_ids
  free_record s id h = ground (arith, contains-append id (keys s.records) (history_ids s.history))

  taken-few : (s : OwnerState) → Inv env t s → length (taken_ids s) < 2 ^ 32 - 1
  unfolding taken_ids history_ids Store.ids
  taken-few s inv = omega (
    arith,
    length-append (keys s.records) (history_ids s.history),
    length-keys s.records,
    inv.sound.few,
    history_few s.history s.next_history_sweep inv.stored,
  )
    where
      history_few :
          (o : Option Store.Store) (sweep : ℕ) → Stored o sweep → length (history_ids o) ≤ 100
      history_few none sweep h = omega arith
      history_few (some store) sweep h = omega (arith, length-entry_ids store.entries, h.bounded)

  -- A notification of its own: room is made if there is none, and an id is found.
  add_new-Returns :
      (c : Candidate) (key : Text) (image : Option PreparedImage) (s : OwnerState)
      → IsCandidate c
      → validate_candidate c t ≡ none
      → Inv env t s
      → Returns env t (add_new env c key image t s)
  unfolding add_new
  add_new-Returns c key image s small accepted inv =
      let (s', roomy, inv', room) = make_room-room env mono t s inv in
      let (id, next, found, is_id, next_is_id, free) =
        resolve_id-Fresh s'.next_id (taken_ids s') inv'.next_small (taken-few s' inv') in
      let real : id ≢ 0 = ground (arith, is_id.0) in
      (
        ok (record nothing { id = id }),
        _,
        rw (roomy, add_new) (rw found),
        insert_record-Inv env t id _ (record s' { next_id = next })
            (start-IsEntry t id c key image real small accepted) (free_record s' id free) room
            (next_id-Inv env t s' next next_is_id inv'),
      )

  pub add_with_producer_key-Returns :
      (c : Candidate) (key : Text) (image : Option PreparedImage) (s : OwnerState)
      → IsCandidate c
      → Inv env t s
      → Returns env t (add_with_producer_key env c key image t s)
  unfolding add_with_producer_key
  add_with_producer_key-Returns c key image s small inv =
      elim (Option-cases (validate_candidate c t)) [
        | inr (e, refused) ↦ (err e, s, rw (refused, add_with_producer_key), inv)
        | inl accepted ↦ elim (Option-cases (get c.replaces_id s.records)) [
          | inl absent ↦
              rw (accepted, add_with_producer_key)
                (rw absent (add_new-Returns c key image s small accepted inv))
          | inr (existing, found) ↦
              rw (accepted, add_with_producer_key)
                (rw found (
                  _,
                  _,
                  refl,
                  add_over-Inv env t existing c.replaces_id c key image s small accepted
                      (ground (arith, is_some-get c.replaces_id s.records)) inv,
                ))
        ]
      ]

  pub add-Returns :
      (c : Candidate) (image : Option PreparedImage) (s : OwnerState)
      → IsCandidate c
      → Inv env t s
      → Returns env t (add env c image t s)
  unfolding add
  add-Returns c image s small inv =
      let id = if c.replaces_id == 0 then burst_duplicate c t s else c.replaces_id in
      add_with_producer_key-Returns (record c { replaces_id = id }) [] image s small inv
