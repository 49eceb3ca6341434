-- ===== src/State/Invariant/Ticking.antt =====
-- The timer keeps the invariant, and always returns.
use sysc_notify.Base.{
  ℕ, suc, ◌+◌, ◌-◌, ◌≤◌, ◌≡◌, refl, inl, inr, true, not, ◌&&◌, List, [], ◌∷◌, none, some, arith,
  leb, ◌==◌, Bool-cases, Option-cases,
}
use sysc_notify.Base.Map.{get}
use sysc_notify.Protocol.Types.{close_expired}
use sysc_notify.History.Store
use sysc_notify.History.Store.Keeps.{IsStore, sweep-IsStore}
use sysc_notify.State.Types.{Env, OwnerState, clock_now, history_sweep}
use sysc_notify.State.Publish.{publish, publish_delta, history_removed_delta}
use sysc_notify.State.Close.{publish_removed}
use sysc_notify.State.Expiry.{
  is_due, first_deadline, sweep_store, sweep_due, lease_due, close_due, handle_timer, reset_timer,
}
use sysc_notify.State.Invariant.{Inv, Monotone}
use sysc_notify.State.Invariant.Records.{Sound-later}
use sysc_notify.State.Invariant.Closing.{publish_removed-Inv, history-Inv, close-Inv}
use sysc_notify.State.Invariant.Expiring.{
  Goes, order-Within, clear_presentation-Goes, next_deadline-total,
}

-- Announcing removals leaves the store alone.
history-publish_removed :
    (env : Env) (ids : List ℕ) (s : OwnerState) → (publish_removed env ids s).history ≡ s.history
unfolding publish_removed publish_delta publish
history-publish_removed env [] s = refl
history-publish_removed env (id ∷ ids) s =
    history-publish_removed env ids (publish_delta env (history_removed_delta id) s)

-- A reading of the clock is the present from then on.
pub advance-Inv :
    (env : Env) (t : ℕ) (s : OwnerState)
    → Monotone env
    → Inv env t s
    → Inv env (env.now s.reads) (clock_now env s).1
advance-Inv env t s mono inv = record {
  sound = Sound-later inv.past inv.sound;
  ordered = inv.ordered;
  next_small = inv.next_small;
  past = mono s.reads;
  stored = inv.stored;
  logged = inv.logged;
}

module _ (env : Env) (mono : Monotone env) (t : ℕ) where
  -- Arming the timer.
  pub reset_timer-Goes : (s : OwnerState) → Inv env t s → Goes env t (reset_timer env s)
  unfolding reset_timer
  reset_timer-Goes s inv =
      let (at, found) =
        next_deadline-total env t (first_deadline s) s.order s.records (order-Within env t s inv)
          inv.sound.entries in
      elim (Bool-cases (at == 0)) [
        | inl never ↦ (
          record s { timer = none },
          rw (found, reset_timer) (rw never),
          record {
            sound = inv.sound;
            ordered = inv.ordered;
            next_small = inv.next_small;
            past = inv.past;
            stored = inv.stored;
            logged = inv.logged;
          },
        )
        | inr some_time ↦ (
          record s { reads = suc s.reads; timer = some (at - env.now s.reads) },
          rw (found, reset_timer) (rw some_time),
          record {
            sound = inv.sound;
            ordered = inv.ordered;
            next_small = inv.next_small;
            past = omega (arith, inv.past, mono s.reads);
            stored = inv.stored;
            logged = inv.logged;
          },
        )
      ]

  close_due-Inv :
      (now : ℕ) (ids : List ℕ) (s : OwnerState) → Inv env t s → Inv env t (close_due env now ids s)
  unfolding close_due
  close_due-Inv now [] s inv = inv
  close_due-Inv now (id ∷ ids) s inv = elim (Bool-cases (is_due now (get id s.records))) [
    | inl due ↦ rw due (
        close_due-Inv now ids _
          (close-Inv env mono t id close_expired s (omega arith) (omega arith) inv))
    | inr later ↦ rw later (close_due-Inv now ids s inv)
  ]

  sweep_store-Goes :
      (now : ℕ) (store : Store.Store) (s : OwnerState)
      → IsStore store
      → Inv env t s
      → Goes env t (sweep_store env now (some store) s)
  unfolding sweep_store
  sweep_store-Goes now store s h inv =
      let (named, kept) = sweep-IsStore now store h in
      let s' =
        publish_removed env (Store.sweep now store).0
          (record s { history = some (Store.sweep now store).1 }) in
      let inv' =
        publish_removed-Inv env t (Store.sweep now store).0 _ named
          (history-Inv env t _ s kept inv) in
      (
        record s' { next_history_sweep = now + history_sweep },
        refl,
        record {
          sound = inv'.sound;
          ordered = inv'.ordered;
          next_small = inv'.next_small;
          past = inv'.past;
          stored =
              rw
                (history-publish_removed env (Store.sweep now store).0
                  (record s { history = some (Store.sweep now store).1 }))
                kept;
          logged = inv'.logged;
        },
      )

  pub sweep_due-Goes : (now : ℕ) (s : OwnerState) → Inv env t s → Goes env t (sweep_due env now s)
  unfolding sweep_due
  sweep_due-Goes now s inv =
      elim (Bool-cases (not (s.next_history_sweep == 0) && leb s.next_history_sweep now)) [
        | inr later ↦ rw later (s, refl, inv)
        | inl due ↦ elim (Option-cases s.history) [
          | inr (store, e) ↦ rw due (rw e (sweep_store-Goes now store s (rw e at inv.stored) inv))
          | inl e ↦ absurd (no_sweep (rw e at inv.stored) due)
        ]
      ]
    where
      no_sweep :
          s.next_history_sweep ≡ 0
          → (not (s.next_history_sweep == 0) && leb s.next_history_sweep now) ≡ true
          → ⊥
      no_sweep none_planned due = ground arith

  pub lease_due-Goes :
      (now : ℕ) (s : OwnerState) → now ≤ t → Inv env t s → Goes env t (lease_due env now s)
  unfolding lease_due
  lease_due-Goes now s h inv =
      elim (Bool-cases (not (s.lease_deadline == 0) && leb s.lease_deadline now)) [
        | inr later ↦ rw later (s, refl, inv)
        | inl due ↦ rw due (clear_presentation-Goes env t s.lease_deadline s (ground arith) inv)
      ]

-- A tick of the timer does not panic.
pub handle_timer-Goes :
    (env : Env) (mono : Monotone env) (t : ℕ) (s : OwnerState)
    → Inv env t s
    → Goes env (env.now s.reads) (handle_timer env s)
unfolding handle_timer
handle_timer-Goes env mono t s inv =
    let now = env.now s.reads in
    let (s2, swept, inv2) = sweep_due-Goes env mono now now _ (advance-Inv env t s mono inv) in
    let (s3, left, inv3) = lease_due-Goes env mono now now s2 (omega arith) inv2 in
    (
      close_due env now s3.order s3,
      rw (swept, handle_timer) (rw left refl),
      close_due-Inv env mono now now s3.order s3 inv3,
    )
