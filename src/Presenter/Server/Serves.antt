-- ===== src/Presenter/Server/Serves.antt =====
-- server.go: the promises of the server.
use sysc_notify.Base.{
  ℕ, ◌≡◌, refl, false, sym, ◌∙◌, ap, subst, true, ◌||◌, not, List, [], ◌∷◌, none, some, contains,
  arith, ◌>>=◌, ◌⊎◌, inl, inr,
}
use mathlib.Core.Option.{some-injective}
use sysc_notify.Presenter.Connection.{fail}
use sysc_notify.Presenter.Connection.Bounds.{Bounded}
use sysc_notify.Presenter.Server.{
  Stage, awaiting, leaving, removing, losing, gone, Server, new_server, is, set_stage, set_conn,
  leave, put, Input, refused, onward, handle, connection_done, tell_loss, Step, handles, step, run,
}
use sysc_notify.Presenter.Server.Fits.{Fits, in_slot, new_server-Fits}
use sysc_notify.Presenter.Server.Sound.{run-Fits}

-- The server goes on whatever comes in whatever order: no step of a handler, of an event or of a
-- connection blocks. A connection that is active in the end has failed, is the current one, or is about
-- to be failed by the handler that replaced it.
pub run-serves :
    (steps : List Step) (h : ℕ)
    → (s : Server) × (run steps new_server ≡ some s)
      × ((not (s.conn h).active || (s.conn h).failed || is h s.current || contains h s.retiring)
          ≡ true)
run-serves steps h =
    let (s, went, f) = run-Fits steps new_server new_server-Fits in
    let only = (f h).only in (s, went, ground (arith, only))

reached : (steps : List Step) (s : Server) → run steps new_server ≡ some s → (h : ℕ) → Fits s h
reached steps s e h =
    let (s', went, f) = run-Fits steps new_server new_server-Fits in
    subst (λ s. Fits s h) (some-injective _ _ (sym went ∙ e)) (f h)

-- A connection that is active at any point of a run is within its limits.
pub run-Bounded :
    (steps : List Step) (s : Server) (h : ℕ)
    → run steps new_server ≡ some s
    → (s.conn h).active ≡ true
    → Bounded (s.conn h)
run-Bounded steps s h e live = (reached steps s e h).bounded (ground (arith, live))

put_same : (h : ℕ) (p : Stage) (f : ℕ → Stage) → put h p f h ≡ p
put_same h p f = ground arith

-- A step of a handler at its stage, then the others.
handles_first :
    (h : ℕ) (p : Stage) (input : Input) (rest : List Step) (s there : Server)
    → s.stage h ≡ p
    → handle p input h s ≡ some there
    → run (handles h input ∷ rest) s ≡ run rest there
unfolding run step
handles_first h p input rest s there e went =
    ap (λ q. handle q input h s >>= run rest) e ∙ ap (λ r. r >>= run rest) went

handles_last :
    (h : ℕ) (p : Stage) (input : Input) (s there : Server)
    → s.stage h ≡ p
    → handle p input h s ≡ some there
    → run (handles h input ∷ []) s ≡ some there
handles_last h p input s there e went =
    handles_first h p input [] s there e went ∙ unfold run in refl

-- Off the server.
abbrev Freed : List Step → Server → Type 0
Freed steps s = (s' : Server) × (run steps s ≡ some s') × (s'.preparing ≡ none)

next_step-Freed :
    (h : ℕ) (p : Stage) (input : Input) (rest : List Step) (s there : Server)
    → s.stage h ≡ p
    → handle p input h s ≡ some there
    → Freed rest there
    → Freed (handles h input ∷ rest) s
next_step-Freed h p input rest s there e went (s', rest_went, free) =
    (s', handles_first h p input rest s there e went ∙ rest_went, free)

done-Freed :
    (h : ℕ) (s : Server)
    → s.stage h ≡ removing
    → s.preparing ≡ some h
    → Freed (handles h onward ∷ []) s
done-Freed h s e slot = (
  connection_done h s,
  handles_last h removing onward s (connection_done h s) e (unfold handle in refl),
  unfold connection_done in ground (arith, slot),
)

leaving-Freed :
    (h : ℕ) (s : Server)
    → s.stage h ≡ leaving false
    → s.preparing ≡ some h
    → Freed (handles h onward ∷ handles h onward ∷ []) s
leaving-Freed h s e slot =
    let there = set_stage h removing (set_conn h (fail (s.conn h)) s) in
    next_step-Freed h (leaving false) onward (handles h onward ∷ []) s there e
      (unfold handle in refl) (done-Freed h there (put_same h removing s.stage) slot)

-- The handler of a connection that is off the server leaves the slot alone.
after-Freed :
    (h : ℕ) (p : Stage) (s : Server)
    → s.stage h ≡ p
    → (p ≡ losing) ⊎ (p ≡ gone)
    → s.preparing ≡ none
    → Freed (handles h onward ∷ []) s
after-Freed h p s there (inl e) free = (
  tell_loss h s,
  handles_last h losing onward s (tell_loss h s) (there ∙ e) (unfold handle in refl),
  unfold tell_loss in free,
)
after-Freed h p s there (inr e) free =
    (s, handles_last h gone onward s s (there ∙ e) (unfold handle in refl), free)

done_stage :
    (h : ℕ) (s : Server)
    → ((connection_done h s).stage h ≡ losing) ⊎ ((connection_done h s).stage h ≡ gone)
unfolding connection_done
done_stage h s = ground arith

-- A connection that holds the slot for a handshake gives it back when its handler fails: after the
-- failure and two more steps of that handler the slot is free.
pub slot-released :
    (steps : List Step) (s : Server) (h : ℕ)
    → run steps new_server ≡ some s
    → s.preparing ≡ some h
    → (s' : Server) × (run (handles h refused ∷ handles h onward ∷ handles h onward ∷ []) s
        ≡ some s')
      × (s'.preparing ≡ none)
slot-released steps s h e slot =
    go (s.stage h) refl ((reached steps s e h).slot (rw slot (ground arith)))
  where
    go :
        (p : Stage)
        → s.stage h ≡ p
        → in_slot p ≡ true
        → Freed (handles h refused ∷ handles h onward ∷ handles h onward ∷ []) s
    go awaiting there holds =
        next_step-Freed h awaiting refused (handles h onward ∷ handles h onward ∷ []) s
          (leave false h s) there (unfold handle in refl)
          (leaving-Freed h (leave false h s) (put_same h (leaving false) s.stage) slot)
    go (leaving false) there holds =
        next_step-Freed h (leaving false) refused (handles h onward ∷ handles h onward ∷ []) s s
          there (unfold handle in refl) (leaving-Freed h s there slot)
    go removing there holds =
        let d = connection_done h s in
        next_step-Freed h removing refused (handles h onward ∷ handles h onward ∷ []) s s there
          (unfold handle in refl)
          (next_step-Freed h removing onward (handles h onward ∷ []) s d there
            (unfold handle in refl)
            (after-Freed h (d.stage h) d refl (done_stage h s)
              (unfold connection_done in ground (arith, slot))))
    go _ there holds = cc
