-- ===== src/State/Close.antt =====
-- owner.go: closing an active notification (`close`), and the entry that history gets of it.
use sysc_notify.Base.{
  ℕ, ◌||◌, List, [], ◌∷◌, Option, none, some, Text, is_empty, remove_first, ◌==◌, if◌then◌else◌,
  Result, ok, err,
}
use sysc_notify.Base.Map.{get, delete}
use sysc_notify.Base.Names
use sysc_notify.Protocol.Types.{HistoryEntry}
use sysc_notify.History.Image.{HistoryFault}
use sysc_notify.History.Store
use sysc_notify.State.Types.{Error, not_found, Tracked, Env, OwnerState, clock_now}
use sysc_notify.State.Lifetimes.{history_entry_of}
use sysc_notify.State.Publish.{
  publish_delta, closed_delta, history_removed_delta, history_added_delta,
}

-- `if s.producerIDs[key] == id { delete(s.producerIDs, key) }` for a record with a producer.
unfoldable pub release_producer : Text → ℕ → List (Text × ℕ) → List (Text × ℕ)
release_producer key id producers =
    if is_empty key then producers else elim (Names.get key producers) [
      | none ↦ producers
      | some bound ↦ if bound == id then Names.delete key producers else producers
    ]

-- The entry of a closed notification: with a prepared image, or with its own.
unfoldable pub record_closed :
    Env → Tracked → ℕ → Store.Store → Result HistoryFault (HistoryEntry × List ℕ) × Store.Store
record_closed env r now store = elim r.history_image [
  | none ↦ Store.add env.codec (history_entry_of r.notification now r.notification.image) now store
  | some prepared ↦
      Store.add_prepared env.codec (history_entry_of r.notification now none) prepared now store
]

unfoldable pub forget : ℕ → Tracked → OwnerState → OwnerState
unfolding release_producer
forget id r s = record s {
  records = delete id s.records;
  producer_ids = release_producer r.producer_key id s.producer_ids;
  order = remove_first id s.order;
}

module _ (env : Env) where
  unfoldable pub publish_removed : List ℕ → OwnerState → OwnerState
  publish_removed [] s = s
  publish_removed (id ∷ ids) s =
      publish_removed ids (publish_delta env (history_removed_delta id) s)

  unfoldable pub publish_added : HistoryEntry → OwnerState → OwnerState
  publish_added entry s =
      if entry.id == 0 then s else publish_delta env (history_added_delta entry) s

  -- A failed write costs only the entry.
  unfoldable pub settle :
      Result HistoryFault (HistoryEntry × List ℕ) × Store.Store → OwnerState → OwnerState
  unfolding publish_removed publish_added
  settle (err fault, store) s = record s { history = some store }
  settle (ok (entry, removed), store) s =
      publish_added entry (publish_removed removed (record s { history = some store }))

  -- What `close` does about history once the close is announced.
  unfoldable pub keep_closed : Tracked → OwnerState → OwnerState
  unfolding settle
  keep_closed r s = elim s.history [
    | none ↦ s
    | some store ↦
        if r.candidate.transient || r.candidate.private
        then s
        else let (now, s') = clock_now env s in settle (record_closed env r now store) s'
  ]

  unfoldable pub close : ℕ → ℕ → OwnerState → Option Error × OwnerState
  unfolding forget keep_closed
  close id reason s = elim (get id s.records) [
    | none ↦ (some not_found, s)
    | some r ↦ (none, keep_closed r (publish_delta env (closed_delta id reason) (forget id r s)))
  ]
