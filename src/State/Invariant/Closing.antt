-- ===== src/State/Invariant/Closing.antt =====
-- Publishing and closing keep the invariant.
use sysc_notify.Base.{
  ℕ, ◌≤◌, ◌≡◌, refl, ap, ◌∙◌, ◌≢◌, ◌⊎◌, inl, inr, Bool, false, ◌||◌, List, [], ◌∷◌, ◌++◌, Option,
  none, some, arith, length, remove_first, remove_first-Distinct, length-remove_first_le, ◌==◌,
  Bool-cases, Option-cases, Result, ok, err,
}
use sysc_notify.Base.Map.{get, delete, keys, Entries-delete, Entries-get, keys-delete, length-keys}
use sysc_notify.Protocol.Types.{Delta, HistoryEntry}
use sysc_notify.Protocol.Validate
use sysc_notify.History.Image.{HistoryFault}
use sysc_notify.History.Store
use sysc_notify.History.Store.Keeps.{IsStore, Added, Named, add-Kept, add_prepared-Kept}
use sysc_notify.State.Types.{Event, Tracked, Env, OwnerState, clock_now}
use sysc_notify.State.Publish.{
  log_of, publish_delta, publish, closed_delta, history_removed_delta, history_added_delta,
}
use sysc_notify.State.Close.{
  record_closed, publish_removed, publish_added, settle, keep_closed, forget, close,
}
use sysc_notify.State.Invariant.{IsEntry, Fits, Follows, sequence_after, LoggedBy, Inv, Monotone}
use sysc_notify.State.Invariant.Shown.{valid-nonzero}

Follows-append :
    (a b : ℕ) (es : List Event) (e : Event)
    → Follows a es b
    → Fits b e
    → Follows a (es ++ e ∷ []) (sequence_after b e)
Follows-append a b [] e h f = rw h (f, refl)
Follows-append a b (x ∷ es) e h f = (h.0, Follows-append (sequence_after a x) b es e h.1 f)

pub log_of-LoggedBy :
    (sink : Option (List Event → Event → Bool)) (published : List Event) (n : ℕ) (e : Event)
    → LoggedBy sink published n
    → Fits n e
    → LoggedBy sink (log_of sink published e) (sequence_after n e)
log_of-LoggedBy none published n e h f = tt
log_of-LoggedBy (some accepts) published n e h f = Follows-append 0 n published e h f

closed_delta-valid :
    (id reason : ℕ)
    → id ≢ 0
    → 1 ≤ reason
    → reason ≤ 4
    → Validate.delta (closed_delta id reason) ≡ none
unfolding Validate.delta
closed_delta-valid id reason h low high = ground arith

history_removed_delta-valid : (id : ℕ) → id ≢ 0 → Validate.delta (history_removed_delta id) ≡ none
unfolding Validate.delta
history_removed_delta-valid id h = ground arith

history_added_delta-valid :
    (entry : HistoryEntry)
    → Validate.history_entry entry ≡ none
    → Validate.delta (history_added_delta entry) ≡ none
unfolding Validate.delta
history_added_delta-valid entry h = h

module _ (env : Env) (t : ℕ) where
  pub publish_delta-Inv :
      (d : Delta) (s : OwnerState)
      → Validate.delta d ≡ none
      → Inv env t s
      → Inv env t (publish_delta env d s)
  unfolding publish_delta publish
  publish_delta-Inv d s h inv = record {
    sound = inv.sound;
    ordered = inv.ordered;
    next_small = inv.next_small;
    past = inv.past;
    stored = inv.stored;
    logged = log_of-LoggedBy env.sink s.published s.sequence _ inv.logged ((refl, h), tt);
  }

  pub publish_removed-Inv :
      (ids : List ℕ) (s : OwnerState)
      → Named ids
      → Inv env t s
      → Inv env t (publish_removed env ids s)
  unfolding publish_removed
  publish_removed-Inv [] s n inv = inv
  publish_removed-Inv (id ∷ ids) s n inv =
      publish_removed-Inv ids (publish_delta env (history_removed_delta id) s) n.1
        (publish_delta-Inv (history_removed_delta id) s (history_removed_delta-valid id n.0) inv)

  publish_added-Inv :
      (entry : HistoryEntry) (s : OwnerState)
      → (entry.id ≡ 0) ⊎ (Validate.history_entry entry ≡ none)
      → Inv env t s
      → Inv env t (publish_added env entry s)
  unfolding publish_added
  publish_added-Inv entry s h inv = elim (Bool-cases (entry.id == 0)) [
    | inl zero_entry ↦ rw zero_entry inv
    | inr real ↦
        rw real (publish_delta-Inv _ s (history_added_delta-valid entry (valid h real)) inv)
  ]
    where
      valid :
          (entry.id ≡ 0) ⊎ (Validate.history_entry entry ≡ none)
          → (entry.id == 0) ≡ false
          → Validate.history_entry entry ≡ none
      valid (inl zero_id) real = absurd (ground arith)
      valid (inr h) real = h

  -- Only the history changes.
  pub history-Inv :
      (store : Store.Store) (s : OwnerState)
      → IsStore store
      → Inv env t s
      → Inv env t (record s { history = some store })
  history-Inv store s h inv = record {
    sound = inv.sound;
    ordered = inv.ordered;
    next_small = inv.next_small;
    past = inv.past;
    stored = h;
    logged = inv.logged;
  }

  settle-Inv :
      (p : Result HistoryFault (HistoryEntry × List ℕ) × Store.Store) (s : OwnerState)
      → Added p.0 × IsStore p.1
      → Inv env t s
      → Inv env t (settle env p s)
  unfolding settle
  settle-Inv (err fault, store) s h inv = history-Inv store s h.1 inv
  settle-Inv (ok (entry, removed), store) s h inv =
      publish_added-Inv entry _ h.0.1
        (publish_removed-Inv removed _ h.0.0 (history-Inv store s h.1 inv))

  record_closed-Added :
      (r : Tracked) (now : ℕ) (store : Store.Store)
      → IsStore store
      → Added (record_closed env r now store).0 × IsStore (record_closed env r now store).1
  unfolding record_closed
  record_closed-Added r now store h = elim (Option-cases r.history_image) [
    | inl e ↦ rw (e, record_closed) (add-Kept env.codec _ now store h)
    | inr (prepared, e) ↦ rw (e, record_closed) (add_prepared-Kept env.codec _ prepared now store h)
  ]

module _ (env : Env) (mono : Monotone env) (t : ℕ) where
  -- Reading the clock.
  pub clock_now-Inv : (s : OwnerState) → Inv env t s → Inv env t (clock_now env s).1
  clock_now-Inv s inv = record {
    sound = inv.sound;
    ordered = inv.ordered;
    next_small = inv.next_small;
    past = omega (arith, inv.past, mono s.reads);
    stored = inv.stored;
    logged = inv.logged;
  }

  keep_closed-Inv : (r : Tracked) (s : OwnerState) → Inv env t s → Inv env t (keep_closed env r s)
  unfolding keep_closed
  keep_closed-Inv r s inv = elim (Option-cases s.history) [
    | inl e ↦ rw (e, keep_closed) inv
    | inr (store, e) ↦ elim (Bool-cases (r.candidate.transient || r.candidate.private)) [
      | inl left_out ↦ rw (e, keep_closed) (rw left_out inv)
      | inr kept ↦
          rw (e, keep_closed)
            (rw kept (
              settle-Inv env t (record_closed env r (env.now s.reads) store) _
                (record_closed-Added env t r (env.now s.reads) store (rw e at inv.stored))
                (clock_now-Inv s inv)))
    ]
  ]

  forget-Inv : (id : ℕ) (r : Tracked) (s : OwnerState) → Inv env t s → Inv env t (forget id r s)
  unfolding forget
  forget-Inv id r s inv =
      let same = keys-delete id s.records in
      record {
        sound = record {
          distinct = rw same (remove_first-Distinct id _ inv.sound.distinct);
          few = omega (
            arith,
            inv.sound.few,
            ap length same,
            length-keys s.records,
            length-keys (delete id s.records),
            length-remove_first_le id (keys s.records),
          );
          entries = Entries-delete (IsEntry t) id s.records inv.sound.entries;
        };
        ordered = same ∙ ap (remove_first id) inv.ordered;
        next_small = inv.next_small;
        past = inv.past;
        stored = inv.stored;
        logged = inv.logged;
      }

  -- Closing, of an id that is there or is not, for any of the four reasons.
  pub close-Inv :
      (id reason : ℕ) (s : OwnerState)
      → 1 ≤ reason
      → reason ≤ 4
      → Inv env t s
      → Inv env t (close env id reason s).1
  unfolding close
  close-Inv id reason s low high inv = elim (Option-cases (get id s.records)) [
    | inl e ↦ rw (e, close) inv
    | inr (r, e) ↦
        let entry = Entries-get (IsEntry t) id s.records inv.sound.entries e in
        let real : id ≢ 0 = rw (← entry.named) (valid-nonzero r.notification entry.valid) in
        rw (e, close)
          (keep_closed-Inv r _ (
            publish_delta-Inv env t _ _ (closed_delta-valid id reason real low high)
              (forget-Inv id r s inv)))
  ]
