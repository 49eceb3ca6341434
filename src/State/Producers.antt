-- ===== src/State/Producers.antt =====
-- owner.go: `publishProducer` and `closeProducer`.
use sysc_notify.Base.{
  ℕ, true, false, not, ◌&&◌, List, [], Option, none, some, Text, ◌==◌, if◌then◌else◌, is_some,
  Result, ok, err, ◌>>=◌,
}
use sysc_notify.Base.Map.{get}
use sysc_notify.Base.Names
use sysc_notify.Protocol.Types.{ProducerRequest, close_requested}
use sysc_notify.Protocol.Validate
use sysc_notify.Notify.Model.{Candidate}
use sysc_notify.State.Types.{Error, protocol, missing_producer, Outcome, nothing, Env, OwnerState}
use sysc_notify.State.Close.{close}
use sysc_notify.State.Active.{add_with_producer_key}

-- An error result, with the state that goes with it.
abbrev pub fails : Error → OwnerState → Option (Result Error Outcome × OwnerState)
fails e s = some (err e, s)

abbrev pub optional_id : Option ℕ → ℕ
optional_id none = 0
optional_id (some id) = id

-- The id that a producer's key stands for, and the bindings; a binding whose record is gone goes too.
unfoldable pub bound_id : Text → OwnerState → ℕ × List (Text × ℕ)
bound_id key s =
    let id = optional_id (Names.get key s.producer_ids) in
    if not (id == 0) && not (is_some (get id s.records))
    then (0, Names.delete key s.producer_ids)
    else (id, s.producer_ids)

unfoldable pub producer_candidate : ProducerRequest → ℕ → Candidate
producer_candidate p replaces_id = record {
  app_name = p.app_name;
  app_icon = [];
  summary = p.summary;
  body = p.body;
  replaces_id = replaces_id;
  actions = [];
  urgency = p.urgency;
  expire_timeout = p.expire_timeout_ms;
  transient = true;
  private = false;
  resident = false;
  desktop_entry = [];
  category = [];
  value = p.value;
  inline_reply = false;
  reply_placeholder = [];
  image = none;
  image_rejected = false;
  sender = record { name = []; pid = 0; lineage = [] };
}

abbrev pub bind_producer :
    Text → Result Error Outcome × OwnerState → Result Error Outcome × OwnerState
bind_producer key (err e, s) = (err e, s)
bind_producer key (ok r, s) = (ok r, record s { producer_ids = Names.put key r.id s.producer_ids })

module _ (env : Env) where
  unfoldable pub publish_request :
      ProducerRequest → ℕ → OwnerState → Option (Result Error Outcome × OwnerState)
  unfolding bound_id producer_candidate
  publish_request p now s = elim (Validate.producer_request p) [
    | some fault ↦ fails (protocol fault) s
    | none ↦
        let (id, bindings) = bound_id p.key s in
        do
          r ←
              add_with_producer_key env (producer_candidate p id) p.key none now
                (record s { producer_ids = bindings })
          some (bind_producer p.key r)
  ]

  unfoldable pub publish_producer :
      Option ProducerRequest → ℕ → OwnerState → Option (Result Error Outcome × OwnerState)
  unfolding publish_request
  publish_producer none now s = fails missing_producer s
  publish_producer (some p) now s = publish_request p now s

  unfoldable pub close_bound : Text → ℕ → OwnerState → Option (Result Error Outcome × OwnerState)
  close_bound key id s = if id == 0 then some (ok nothing, s) else elim (get id s.records) [
    | none ↦ some (ok nothing, record s { producer_ids = Names.delete key s.producer_ids })
    | some r ↦ some (ok (record nothing { id = id }), (close env id close_requested s).1)
  ]

  unfoldable pub close_request :
      ProducerRequest → OwnerState → Option (Result Error Outcome × OwnerState)
  unfolding close_bound
  close_request p s = elim (Validate.producer_request p) [
    | some fault ↦ fails (protocol fault) s
    | none ↦ close_bound p.key (optional_id (Names.get p.key s.producer_ids)) s
  ]

  unfoldable pub close_producer :
      Option ProducerRequest → OwnerState → Option (Result Error Outcome × OwnerState)
  unfolding close_request
  close_producer none s = fails missing_producer s
  close_producer (some p) s = close_request p s
