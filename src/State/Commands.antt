-- ===== src/State/Commands.antt =====
-- owner.go: the commands of the owner: `do`, `gatePresenter`, and the handlers that are not in
-- `Active`, `Producers` or `Expiry`.
use sysc_notify.Base.{
  ℕ, Bool, true, false, not, ◌&&◌, ◌||◌, List, [], ◌∷◌, Option, none, some, Text, text_eq, length,
  ltb, ◌==◌, if◌then◌else◌, Result, ok, err, ◌>>=◌,
}
use sysc_notify.Base.Map.{get}
use sysc_notify.Protocol.Types.{
  Action, Delta, DeltaKind, Presentation, ProducerRequest, close_requested, close_dismissed,
}
use sysc_notify.Protocol.Types
use sysc_notify.Protocol.Validate
use sysc_notify.History.Store
use sysc_notify.State.Types.{
  Error, not_found, stale, protocol, unknown_action, no_inline_reply, history_unavailable,
  history_failed, unpublished_resync, unknown_command, joined, CommandKind, Command, Outcome,
  nothing, Tracked, Env, OwnerState, clock_now,
}
use sysc_notify.State.Lifetimes.{lifetimes_of}
use sysc_notify.State.Publish.{delta_of, zero_event, publish, publish_delta, snapshot}
use sysc_notify.State.Close.{publish_removed, close}
use sysc_notify.State.Active.{add}
use sysc_notify.State.Expiry.{clear_presentation, renew}
use sysc_notify.State.Producers.{fails, publish_producer, close_producer}

-- The commands of a presenter, which carry its generation.
abbrev pub is_gated : CommandKind → Bool
is_gated CommandKind.dismiss = true
is_gated CommandKind.invoke_action = true
is_gated CommandKind.submit_reply = true
is_gated CommandKind.dismiss_all = true
is_gated CommandKind.history_clear = true
is_gated CommandKind.history_remove = true
is_gated CommandKind.history_mark_seen = true
is_gated CommandKind.producer_publish = true
is_gated CommandKind.producer_close = true
is_gated _ = false

unfoldable pub require_presenter : ℕ → OwnerState → Option Error
require_presenter generation s =
    if generation == 0
    then none
    else if s.presenter_retired || not (generation == s.accepted_generation)
    then some stale
    else none

unfoldable pub gate_presenter : Command → OwnerState → Option Error
unfolding require_presenter
gate_presenter c s = if is_gated c.kind then require_presenter c.generation s else none

abbrev pub done : Option Error × OwnerState → Option (Result Error Outcome × OwnerState)
done (none, s) = some (ok nothing, s)
done (some e, s) = some (err e, s)

abbrev pub has_action : Text → List Action → Bool
has_action key [] = false
has_action key (a ∷ rest) = text_eq a.key key || has_action key rest

abbrev pub join : Option Error → Option Error → Option Error
join none e = e
join (some e) none = some e
join (some e) (some f) = some (joined e f)

abbrev pub reply_command : ℕ → Text → Types.Command
reply_command id text = record {
  kind = Types.CommandKind.reply;
  id = id;
  ids = [];
  action_key = [];
  text = text;
  presentations = [];
  producer = none;
}

module _ (env : Env) where
  -- After an action or a reply: the notification closes unless it is resident.
  unfoldable pub close_unless_resident : ℕ → Tracked → OwnerState → Option Error × OwnerState
  close_unless_resident id r s =
      if r.candidate.resident then (none, s) else close env id close_dismissed s

  unfoldable pub invoke_action : ℕ → Text → OwnerState → Option Error × OwnerState
  unfolding close_unless_resident
  invoke_action id key s = elim (get id s.records) [
    | none ↦ (some not_found, s)
    | some r ↦
        if has_action key r.notification.actions
        then close_unless_resident id r
            (publish env (record zero_event { action = some (record { id = id; key = key }) }) s).1
        else (some unknown_action, s)
  ]

  unfoldable pub reply_to : ℕ → Text → OwnerState → Option Error × OwnerState
  unfolding close_unless_resident
  reply_to id text s = elim (get id s.records) [
    | none ↦ (some not_found, s)
    | some r ↦
        if r.candidate.inline_reply
        then close_unless_resident id r
            (publish env (record zero_event { reply = some (record { id = id; text = text }) }) s).1
        else (some no_inline_reply, s)
  ]

  unfoldable pub submit_reply : ℕ → Text → OwnerState → Option Error × OwnerState
  unfolding reply_to
  submit_reply id text s = elim (Validate.command (reply_command id text)) [
    | some fault ↦ (some (protocol fault), s)
    | none ↦ reply_to id text s
  ]

  -- The loop of DismissAll, over a copy of `order`.
  unfoldable pub dismiss_all : List ℕ → Option Error → OwnerState → Option Error × OwnerState
  dismiss_all [] e s = (e, s)
  dismiss_all (id ∷ ids) e s =
      let (closed, s') = close env id close_dismissed s in dismiss_all ids (join e closed) s'

  abbrev pub publish_unless_empty : List ℕ → Delta → OwnerState → OwnerState
  publish_unless_empty changed delta s =
      if length changed == 0 then s else publish_delta env delta s

  unfoldable pub clear_history : OwnerState → Option Error × OwnerState
  clear_history s = elim s.history [
    | none ↦ (some history_unavailable, s)
    | some store ↦
        let (removed, store') = Store.clear store in
        (
          none,
          publish_unless_empty removed (delta_of DeltaKind.history_cleared)
              (record s { history = some store' }),
        )
  ]

  unfoldable pub remove_history : List ℕ → OwnerState → Option Error × OwnerState
  remove_history ids s = elim s.history [
    | none ↦ (some history_unavailable, s)
    | some store ↦
        let (removed, store') = Store.remove ids store in
        (none, publish_removed env removed (record s { history = some store' }))
  ]

  unfoldable pub mark_store : List ℕ → Store.Store → OwnerState → Option Error × OwnerState
  mark_store ids store s =
      let (result, store') = Store.mark_seen env.codec ids store in
      elim result [
        | err fault ↦ (some history_failed, record s { history = some store' })
        | ok changed ↦ (
          none,
          publish_unless_empty changed (record (delta_of DeltaKind.history_seen) { ids = changed })
              (record s { history = some store' }),
        )
      ]

  unfoldable pub mark_history_seen : List ℕ → OwnerState → Option Error × OwnerState
  unfolding mark_store
  mark_history_seen ids s = elim s.history [
    | none ↦ (some history_unavailable, s)
    | some store ↦ mark_store ids store s
  ]

  unfoldable pub answer_renewal :
      ℕ → Option Error × OwnerState → Option (Result Error Outcome × OwnerState)
  answer_renewal now (some e, s) = fails e s
  answer_renewal now (none, s) = do
    lifetimes ← lifetimes_of s.order s.records now
    some (ok (record nothing { lifetimes = lifetimes }), s)

  unfoldable pub presentation_renew :
      Command → ℕ → OwnerState → Option (Result Error Outcome × OwnerState)
  unfolding answer_renewal
  presentation_renew c now s = do r ← renew c.generation c.presentations now s; answer_renewal now r

  unfoldable pub advance_generation : Command → OwnerState → OwnerState
  advance_generation c s =
      if ltb s.accepted_generation c.next_generation
      then record s { accepted_generation = c.next_generation; presenter_retired = false }
      else if not (c.generation == 0)
          && c.generation == s.accepted_generation
          && c.next_generation == 0
      then record s { presenter_retired = true }
      else s

  unfoldable pub presenter_lost :
      Command → ℕ → OwnerState → Option (Result Error Outcome × OwnerState)
  unfolding advance_generation
  presenter_lost c now s = do
    s' ←
        (if not (c.generation == 0) && c.generation == s.presenter_generation
          then clear_presentation now s
          else some s)
    some (ok nothing, advance_generation c s')

  unfoldable pub presenter_resync :
      Command → OwnerState → Option (Result Error Outcome × OwnerState)
  presenter_resync c s = do
    (shot, s') ← snapshot env s
    let (delivered, s'') =
        publish env
          (record zero_event {
            sequence = shot.sequence;
            snapshot = some shot;
            generation = c.generation;
          })
          s'
    some ((if delivered then ok nothing else err unpublished_resync), s'')

  unfoldable pub dispatch :
      CommandKind → Command → ℕ → OwnerState → Option (Result Error Outcome × OwnerState)
  dispatch CommandKind.add c now s = add env c.candidate c.prepared_history_image now s
  dispatch CommandKind.producer_publish c now s = publish_producer env c.producer now s
  dispatch CommandKind.producer_close c now s = close_producer env c.producer s
  dispatch CommandKind.close_requested c now s = done (close env c.id close_requested s)
  dispatch CommandKind.dismiss c now s = done (close env c.id close_dismissed s)
  dispatch CommandKind.invoke_action c now s = done (invoke_action c.id c.action_key s)
  dispatch CommandKind.submit_reply c now s = done (submit_reply c.id c.reply_text s)
  dispatch CommandKind.presentation_renew c now s = presentation_renew c now s
  dispatch CommandKind.presenter_lost c now s = presenter_lost c now s
  dispatch CommandKind.dismiss_all c now s = done (dismiss_all s.order none s)
  dispatch CommandKind.history_clear c now s = done (clear_history s)
  dispatch CommandKind.history_remove c now s = done (remove_history c.ids s)
  dispatch CommandKind.history_mark_seen c now s = done (mark_history_seen c.ids s)
  dispatch CommandKind.presenter_resync c now s = presenter_resync c s
  dispatch (CommandKind.unknown k) c now s = fails unknown_command s

  -- `do` of the source, whose name is reserved here.
  unfoldable pub execute : Command → OwnerState → Option (Result Error Outcome × OwnerState)
  unfolding gate_presenter dispatch
  execute c s = elim (gate_presenter c s) [
    | some e ↦ fails e s
    | none ↦ let (now, s') = clock_now env s in dispatch c.kind c now s'
  ]
