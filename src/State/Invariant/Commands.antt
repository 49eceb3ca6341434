-- ===== src/State/Invariant/Commands.antt =====
-- Every command of the owner keeps the invariant, and always returns.
use sysc_notify.Base.{
  ℕ, ◌^◌, ◌<◌, ◌≡◌, refl, ◌⊎◌, inl, inr, Bool, true, false, not, ◌&&◌, List, [], Option, none, some,
  arith, length, ltb, ◌==◌, Bool-cases, Option-cases, Result, ok, err, pos_part,
}
use sysc_notify.Protocol.Types.{Delta, DeltaKind, ProducerRequest}
use sysc_notify.Protocol.Validate
use sysc_notify.History.Image.{HistoryFault}
use sysc_notify.History.Store
use sysc_notify.History.Store.Keeps.{IsStore, remove-IsStore, clear-IsStore}
use sysc_notify.History.Store.Seen.{Seen, mark_seen-IsStore}
use sysc_notify.State.Types.{Error, Event, Command, nothing, Env, OwnerState}
use sysc_notify.State.Publish.{delta_of, publish}
use sysc_notify.State.Commands.{
  done, publish_unless_empty, clear_history, remove_history, mark_store, mark_history_seen,
  advance_generation, presenter_lost,
}
use sysc_notify.State.Invariant.{Fits, sequence_after, Inv}
use sysc_notify.State.Invariant.Records.{IsCandidate}
use sysc_notify.State.Invariant.Closing.{
  log_of-LoggedBy, publish_delta-Inv, publish_removed-Inv, history-Inv,
}
use sysc_notify.State.Invariant.Adding.{Returns}
use sysc_notify.State.Invariant.Expiring.{clear_presentation-Goes}

-- A command as the bus and the socket carry it: its timeouts are int32s.
abbrev pub IsProducer : Option ProducerRequest → Type 0
IsProducer none = Unit {0}
IsProducer (some p) = pos_part p.expire_timeout_ms < 2 ^ 31

abbrev pub IsCommand : Command → Type 0
IsCommand c = IsCandidate c.candidate × IsProducer c.producer

module _ (env : Env) (t : ℕ) where
  -- An event with no delta and no snapshot.
  pub publish-Inv :
      (e : Event) (s : OwnerState)
      → sequence_after s.sequence e ≡ s.sequence
      → Fits s.sequence e
      → Inv env t s
      → Inv env t (publish env e s).1
  unfolding publish
  publish-Inv e s plain fits inv = record {
    sound = inv.sound;
    ordered = inv.ordered;
    next_small = inv.next_small;
    past = inv.past;
    stored = inv.stored;
    logged = rw (← plain) (log_of-LoggedBy env.sink s.published s.sequence e inv.logged fits);
  }

  pub done-Returns : (p : Option Error × OwnerState) → Inv env t p.1 → Returns env t (done p)
  done-Returns (none, s) inv = (_, s, refl, inv)
  done-Returns (some e, s) inv = (_, s, refl, inv)

  publish_unless_empty-Inv :
      (changed : List ℕ) (d : Delta) (s : OwnerState)
      → (changed ≡ []) ⊎ (Validate.delta d ≡ none)
      → Inv env t s
      → Inv env t (publish_unless_empty env changed d s)
  publish_unless_empty-Inv changed d s (inl no_change) inv = rw no_change inv
  publish_unless_empty-Inv changed d s (inr h) inv = elim (Bool-cases (length changed == 0)) [
    | inl empty ↦ rw empty inv
    | inr more ↦ rw more (publish_delta-Inv env t d s h inv)
  ]

  pub clear_history-Inv : (s : OwnerState) → Inv env t s → Inv env t (clear_history env s).1
  unfolding clear_history Validate.delta
  clear_history-Inv s inv = elim (Option-cases s.history) [
    | inl e ↦ rw (e, clear_history) inv
    | inr (store, e) ↦
        rw (e, clear_history)
          (publish_unless_empty-Inv (Store.clear store).0 _ _ (inr refl)
            (history-Inv env t _ s (clear-IsStore store (rw e at inv.stored)) inv))
  ]

  pub remove_history-Inv :
      (ids : List ℕ) (s : OwnerState) → Inv env t s → Inv env t (remove_history env ids s).1
  unfolding remove_history
  remove_history-Inv ids s inv = elim (Option-cases s.history) [
    | inl e ↦ rw (e, remove_history) inv
    | inr (store, e) ↦
        let (named, kept) = remove-IsStore ids store (rw e at inv.stored) in
        rw (e, remove_history)
          (publish_removed-Inv env t (Store.remove ids store).0 _ named
            (history-Inv env t _ s kept inv))
  ]

  mark_store-Inv :
      (ids : List ℕ) (store : Store.Store) (s : OwnerState)
      → IsStore store
      → Inv env t s
      → Inv env t (mark_store env ids store s).1
  unfolding mark_store Validate.delta
  mark_store-Inv ids store s h inv =
      let (seen, kept) = mark_seen-IsStore env.codec ids store h in
      announced (Store.mark_seen env.codec ids store).0 seen (history-Inv env t _ s kept inv)
    where
      announced :
          {s' : OwnerState} (r : Result HistoryFault (List ℕ))
          → Seen env.codec ids r
          → Inv env t s'
          → Inv env t
              (elim r as (λ _. Option Error × OwnerState) [
                | err fault ↦ (some Error.history_failed, s')
                | ok changed ↦ (
                  none,
                  publish_unless_empty env changed
                      (record (delta_of DeltaKind.history_seen) { ids = changed })
                      s',
                )
              ]).1
      announced (err fault) seen inv' = inv'
      announced (ok changed) (inl no_change) inv' =
          publish_unless_empty-Inv changed _ _ (inl no_change) inv'
      announced (ok changed) (inr valid) inv' =
          publish_unless_empty-Inv changed _ _ (inr valid) inv'

  pub mark_history_seen-Inv :
      (ids : List ℕ) (s : OwnerState) → Inv env t s → Inv env t (mark_history_seen env ids s).1
  unfolding mark_history_seen
  mark_history_seen-Inv ids s inv = elim (Option-cases s.history) [
    | inl e ↦ rw (e, mark_history_seen) inv
    | inr (store, e) ↦
        rw (e, mark_history_seen) (mark_store-Inv ids store s (rw e at inv.stored) inv)
  ]

  advance_generation-Inv :
      (c : Command) (s : OwnerState) → Inv env t s → Inv env t (advance_generation env c s)
  unfolding advance_generation
  advance_generation-Inv c s inv = elim (Bool-cases (ltb s.accepted_generation c.next_generation)) [
    | inl newer ↦ rw newer (generations-Inv c.next_generation false)
    | inr same ↦
        elim (Bool-cases (
          not (c.generation == 0)
          && c.generation == s.accepted_generation
          && c.next_generation == 0)) [
            | inl retired ↦
                rw (same, advance_generation)
                  (rw retired (generations-Inv s.accepted_generation true))
            | inr other ↦ rw (same, advance_generation) (rw other inv)
          ]
  ]
    where
      generations-Inv :
          (g : ℕ) (retired : Bool)
          → Inv env t (record s { accepted_generation = g; presenter_retired = retired })
      generations-Inv g retired = record {
        sound = inv.sound;
        ordered = inv.ordered;
        next_small = inv.next_small;
        past = inv.past;
        stored = inv.stored;
        logged = inv.logged;
      }

  pub presenter_lost-Returns :
      (c : Command) (s : OwnerState) → Inv env t s → Returns env t (presenter_lost env c t s)
  unfolding presenter_lost
  presenter_lost-Returns c s inv =
      elim (Bool-cases (not (c.generation == 0) && c.generation == s.presenter_generation)) [
        | inr other ↦ rw (other, presenter_lost) (_, _, refl, advance_generation-Inv c s inv)
        | inl lost ↦
            let (s', cleared, inv') = clear_presentation-Goes env t t s (omega arith) inv in
            (
              ok nothing,
              advance_generation env c s',
              rw (lost, presenter_lost) (rw cleared refl),
              advance_generation-Inv c s' inv',
            )
      ]
