-- ===== src/State/Run.antt =====
-- owner.go: the loop of the owner goroutine. A step takes one request or one tick of the timer; the
-- channels, the context of the caller and the stop signal are left out.
use sysc_notify.Base.{
  ℕ, ◌+◌, ◌%◌, ◌^◌, max, false, List, [], ◌∷◌, Option, none, some, Result, ◌>>=◌,
}
use sysc_notify.Protocol.Types.{Snapshot}
use sysc_notify.History.Store
use sysc_notify.State.Types.{Error, Outcome, Command, Env, OwnerState, history_sweep}
use sysc_notify.State.Publish
use sysc_notify.State.Expiry.{handle_timer, reset_timer}
use sysc_notify.State.Commands.{execute}

pub data Request : Type 0 where
  command : Command → Request
  snapshot tick : Request

pub data Response : Type 0 where
  result : Result Error Outcome → Response
  shot : Snapshot → Response
  silent : Response

-- `max(nextID, id+1)` over the ids of the store, on uint32.
unfoldable pub next_after : ℕ → List ℕ → ℕ
next_after next [] = next
next_after next (id ∷ ids) = next_after (max next ((id + 1) % 2 ^ 32)) ids

-- The state before anything is read.
abbrev blank : OwnerState
blank = record {
  reads = 0;
  published = [];
  history = none;
  records = [];
  producer_ids = [];
  order = [];
  next_id = 1;
  sequence = 0;
  presenter_generation = 0;
  accepted_generation = 0;
  presenter_retired = false;
  lease_deadline = 0;
  timer = none;
  next_history_sweep = 0;
}

module _ (env : Env) where
  unfoldable pub initial : Option Store.Store → OwnerState
  unfolding next_after
  initial none = blank
  initial (some store) = record blank {
    reads = 1;
    history = some store;
    next_id = next_after 1 (Store.ids store);
    next_history_sweep = env.now 0 + history_sweep;
  }

  unfoldable pub step : Request → OwnerState → Option (Response × OwnerState)
  step (command c) s = do (r, s1) ← execute env c s; s2 ← reset_timer env s1; some (result r, s2)
  step snapshot s = do (r, s1) ← Publish.snapshot env s; some (shot r, s1)
  step tick s = do s1 ← handle_timer env s; s2 ← reset_timer env s1; some (silent, s2)

  -- The states after a sequence of steps; `none` if the goroutine has panicked or hangs.
  unfoldable pub run_from : OwnerState → List Request → Option OwnerState
  unfolding step
  run_from s [] = some s
  run_from s (r ∷ rs) = do (_, s') ← step r s; run_from s' rs

  unfoldable pub run : Option Store.Store → List Request → Option OwnerState
  unfolding initial run_from
  run history requests = do s ← reset_timer env (initial history); run_from s requests
