-- ===== src/State/Invariant/Room.antt =====
-- Which record closing removes, and the eviction that makes room for a new notification.
use sysc_notify.Base.{
  ℕ, ◌+◌, ◌<◌, ◌≡◌, refl, ap, ◌≢◌, ◌⊎◌, inl, inr, Bool, true, false, ◌||◌, List, [], ◌∷◌, some,
  arith, length, contains, length-remove_first, Within, Within-refl, ◌==◌, Bool-cases, Option-cases,
  Result, ok, err,
}
use sysc_notify.Base.Map.{get, delete, keys, Entries, keys-delete, length-keys}
use sysc_notify.Protocol.Types.{HistoryEntry, max_active_notifications, close_undefined}
use sysc_notify.History.Image.{HistoryFault}
use sysc_notify.History.Store
use sysc_notify.State.Types.{Tracked, Env, OwnerState}
use sysc_notify.State.Publish.{publish_delta, publish}
use sysc_notify.State.Close.{
  record_closed, publish_removed, publish_added, settle, keep_closed, forget, close,
}
use sysc_notify.State.Active.{
  choose, expires_uncritical, is_uncritical, first_or_zero, victim, evict_capacity_victim,
  make_room,
}
use sysc_notify.State.Invariant.{IsEntry, Inv, Monotone}
use sysc_notify.State.Invariant.Shown.{entry_at, valid-nonzero}
use sysc_notify.State.Invariant.Closing.{close-Inv}

module _ (env : Env) where
  publish_removed-records :
      (ids : List ℕ) (s : OwnerState) → (publish_removed env ids s).records ≡ s.records
  unfolding publish_removed publish_delta publish
  publish_removed-records [] s = refl
  publish_removed-records (id ∷ ids) s = publish_removed-records ids _

  settle-records :
      (p : Result HistoryFault (HistoryEntry × List ℕ) × Store.Store) (s : OwnerState)
      → (settle env p s).records ≡ s.records
  unfolding settle publish_added publish_delta publish
  settle-records (err fault, store) s = refl
  settle-records (ok (entry, removed), store) s = elim (Bool-cases (entry.id == 0)) [
    | inl e ↦ rw e (publish_removed-records removed _)
    | inr e ↦ rw e (publish_removed-records removed _)
  ]

  keep_closed-records : (r : Tracked) (s : OwnerState) → (keep_closed env r s).records ≡ s.records
  unfolding keep_closed
  keep_closed-records r s = elim (Option-cases s.history) [
    | inl e ↦ rw (e, keep_closed)
    | inr (store, e) ↦ elim (Bool-cases (r.candidate.transient || r.candidate.private)) [
      | inl left_out ↦ rw (e, keep_closed) (rw left_out)
      | inr kept ↦
          rw (e, keep_closed)
            (rw kept (settle-records (record_closed env r (env.now s.reads) store) _))
    ]
  ]

  -- Closing removes exactly the record of its id.
  pub close-records :
      (id reason : ℕ) (s : OwnerState) (r : Tracked)
      → get id s.records ≡ some r
      → (close env id reason s).1.records ≡ delete id s.records
  unfolding close forget publish_delta publish
  close-records id reason s r e = rw (e, close) (keep_closed-records r _)

choose-found :
    (match : Tracked → Bool) (t : ℕ) (ids : List ℕ) (m : List (ℕ × Tracked))
    → Within (keys m) ids
    → Entries (IsEntry t) m
    → (v : ℕ) × (choose match ids m ≡ some v) × ((v ≡ 0) ⊎ (contains v (keys m) ≡ true))
unfolding choose
choose-found match t [] m w e = (0, refl, inl refl)
choose-found match t (id ∷ ids) m w e =
    let (r, found, entry) = entry_at t id m w.0 e in
    let (v, rest, there) = choose-found match t ids m w.1 e in
    elim (Bool-cases (match r)) [
      | inl hit ↦ (id, rw (found, choose) (rw hit), inr w.0)
      | inr miss ↦ (v, rw (found, choose) (rw miss rest), there)
    ]

first_or_zero-found : (ids : List ℕ) → 0 < length ids → contains (first_or_zero ids) ids ≡ true
first_or_zero-found [] h = absurd (omega arith)
first_or_zero-found (id ∷ ids) h = ground arith

-- With a notification active there is a victim, and it is one of them.
victim-found :
    (env : Env) (t : ℕ) (s : OwnerState)
    → Inv env t s
    → 0 < length s.records
    → (v : ℕ) × (victim s ≡ some v) × (contains v (keys s.records) ≡ true)
unfolding victim
victim-found env t s inv h =
    let within : Within (keys s.records) s.order =
      rw (← inv.ordered) (Within-refl (keys s.records)) in
    let (a, first, there) =
      choose-found expires_uncritical t s.order s.records within inv.sound.entries in
    let (b, second, there') =
      choose-found is_uncritical t s.order s.records within inv.sound.entries in
    elim (Bool-cases (a == 0)) [
      | inr expiring ↦
          (a, rw (first, victim) (rw expiring (rw expiring)), present a there (ground arith))
      | inl none_expires ↦ elim (Bool-cases (b == 0)) [
        | inr uncritical ↦ (
          b,
          rw (first, victim) (rw none_expires (rw second (rw uncritical))),
          present b there' (ground arith),
        )
        | inl all_critical ↦ (
          first_or_zero s.order,
          rw (first, victim) (rw none_expires (rw second (rw all_critical))),
          rw inv.ordered (
              first_or_zero-found s.order
                (omega (arith, h, length-keys s.records, ap length inv.ordered))),
        )
      ]
    ]
  where
    present :
        (v : ℕ)
        → (v ≡ 0) ⊎ (contains v (keys s.records) ≡ true)
        → v ≢ 0
        → contains v (keys s.records) ≡ true
    present v (inl e) h = absurd (h e)
    present v (inr e) h = e

pub IsRecord-nonzero :
    (t id : ℕ) (m : List (ℕ × Tracked))
    → Entries (IsEntry t) m
    → contains id (keys m) ≡ true
    → id ≢ 0
IsRecord-nonzero t id m e w =
    let (r, found, entry) = entry_at t id m w e in
    rw (← entry.named) (valid-nonzero r.notification entry.valid)

module _ (env : Env) (mono : Monotone env) (t : ℕ) where
  -- After an eviction there is room for one more.
  evict-room :
      (s : OwnerState)
      → Inv env t s
      → 0 < length s.records
      → (s' : OwnerState) × (evict_capacity_victim env s ≡ some s')
        × Inv env t s'
        × (length s'.records + 1 ≡ length s.records)
  unfolding evict_capacity_victim
  evict-room s inv h =
      let (v, chosen, there) = victim-found env t s inv h in
      let (r, found, entry) = entry_at t v s.records there inv.sound.entries in
      let real : (v == 0) ≡ false =
        ground (arith, IsRecord-nonzero t v s.records inv.sound.entries there) in
      let s' = (close env v close_undefined s).1 in
      (
        s',
        rw (chosen, evict_capacity_victim) (rw real),
        close-Inv env mono t v close_undefined s (omega arith) (omega arith) inv,
        shorter v s s' there (close-records env v close_undefined s r found),
      )
    where
      shorter :
          (v : ℕ) (s s' : OwnerState)
          → contains v (keys s.records) ≡ true
          → s'.records ≡ delete v s.records
          → length s'.records + 1 ≡ length s.records
      shorter v s s' there e = omega (
        arith,
        ap length e,
        length-keys s.records,
        length-keys (delete v s.records),
        ap length (keys-delete v s.records),
        length-remove_first v (keys s.records) there,
      )

  pub make_room-room :
      (s : OwnerState)
      → Inv env t s
      → (s' : OwnerState) × (make_room env s ≡ some s')
        × Inv env t s'
        × (length s'.records < max_active_notifications)
  unfolding make_room
  make_room-room s inv = elim (Bool-cases (length s.records == max_active_notifications)) [
    | inr room ↦ (s, rw room, inv, ground (arith, inv.sound.few))
    | inl full ↦
        let size : length s.records ≡ max_active_notifications = ground arith in
        let (s', e, inv', less) = evict-room s inv (omega arith) in
        (s', rw (full, make_room) e, inv', omega arith)
  ]
