-- ===== src/Presenter/Server.antt =====
-- internal/presenter/server.go: the connections of one server, and the steps of their handlers. Each
-- step is what runs under the server's mutex, or one call between two such parts, so a list of steps
-- is an interleaving of the handlers with the owner's events and `Close`. Sockets, peer credentials
-- and deadlines decide which step comes: a refused or failed one is an argument of the step.
pub mod Fits
pub mod Outcomes
pub mod Published
pub mod Committed
pub mod Sound
pub mod Serves
use sysc_notify.Base.{
  ℕ, ◌+◌, ◌^◌, ◌%◌, Bool, true, false, not, ◌||◌, ◌&&◌, List, [], ◌∷◌, ◌++◌, Option, none, some,
  Text, contains, remove_first, is_some, ◌==◌, if◌then◌else◌, ◌>>=◌,
}
use sysc_notify.Presenter.Connection.{
  Outbound, Phase, stopped, Connection, new_connection, fail, prepare, activate, enqueue_delta,
  enqueue_snapshot,
}
use sysc_notify.Presenter.Connection.Writer.{Action, reply, write_step, closed, act}

-- Where the handler of a connection stands in `handle`: it reads the hello, waits for the owner's
-- snapshot, has replaced another connection that it must fail, must tell the owner of the generation
-- that it follows, writes the frames of the handshake, serves; and on its way out it fails its
-- connection, waits for the writer if that was started, takes the connection off the server and tells
-- the owner of the loss.
pub data Stage : Type 0 where
  absent greeting awaiting : Stage
  handing_over : Option ℕ → Stage
  announcing : ℕ → Stage
  offering serving : Stage
  leaving : Bool → Stage
  draining removing losing gone : Stage

-- `owner.Do` with PresenterLost: the generation, and the one that follows or 0.
pub record Lost : Type 0 where
  pub generation : ℕ
  pub next_generation : ℕ

-- A snapshot of a resync, with the connection that `publishSnapshot` read for it.
pub record Delivery : Type 0 where
  pub to : ℕ
  pub frame : Text
  pub sequence : ℕ

-- Connections are named by numbers. `retiring` lists those that a handler has replaced and not yet
-- failed, `failing` those that a refused resync or `Close` has picked and not yet failed, `deliveries`
-- the snapshots not yet delivered; `requests` and `told` are what the owner has been asked and told,
-- the newest first.
pub record Server : Type 0 where
  pub current : Option ℕ
  pub preparing : Option ℕ
  pub next_gen : ℕ
  pub closing : Bool
  pub conns : List ℕ
  pub conn : ℕ → Connection
  pub stage : ℕ → Stage
  pub retiring : List ℕ
  pub failing : List ℕ
  pub deliveries : List Delivery
  pub requests : List ℕ
  pub told : List Lost

unfoldable pub new_server : Server
unfolding new_connection
new_server = record {
  current = none;
  preparing = none;
  next_gen = 0;
  closing = false;
  conns = [];
  conn = λ h. new_connection 0;
  stage = λ h. absent;
  retiring = [];
  failing = [];
  deliveries = [];
  requests = [];
  told = [];
}

abbrev pub put {ℓ} : {A : Type ℓ} → ℕ → A → (ℕ → A) → ℕ → A
put h a f k = if k == h then a else f k

abbrev pub is : ℕ → Option ℕ → Bool
is h none = false
is h (some k) = h == k

abbrev pub set_conn : ℕ → Connection → Server → Server
set_conn h c s = record s { conn = put h c s.conn }

abbrev pub set_stage : ℕ → Stage → Server → Server
set_stage h p s = record s { stage = put h p s.stage }

-- The start of `handle`: a server that closes refuses the connection.
unfoldable pub register : ℕ → Server → Server
unfolding new_connection
register h s =
    if s.closing
    then set_stage h gone s
    else record (set_conn h (new_connection 0) (set_stage h greeting s)) { conns = h ∷ s.conns }

abbrev next_generation : ℕ → ℕ
next_generation n = let m = (n + 1) % 2 ^ 64 in if m == 0 then 1 else m

-- A valid hello: the connection takes a generation and the slot for a handshake.
unfoldable pub begin_handshake : ℕ → Bool → Server → Server
begin_handshake h producer s =
    let negotiated = record (s.conn h) { producer = producer } in
    if s.closing || is_some s.preparing
    then set_conn h negotiated (set_stage h (leaving false) s)
    else record (set_conn h (record negotiated { generation = next_generation s.next_gen })
        (set_stage h awaiting s)) { next_gen = next_generation s.next_gen; preparing = some h }

abbrev release_slot : ℕ → Server → Server
release_slot h s = record s { preparing = if is h s.preparing then none else s.preparing }

abbrev retire_later : Option ℕ → List ℕ → List ℕ
retire_later none hs = hs
retire_later (some old) hs = old ∷ hs

abbrev committed : ℕ → Server → Bool × Connection → Server
committed h s (false, c) = release_slot h (set_stage h (leaving false) (set_conn h c s))
committed h s (true, c) = record (set_stage h (handing_over s.current) (set_conn h c s)) {
  current = some h;
  preparing = none;
  retiring = retire_later s.current s.retiring;
}

-- The handoff at the snapshot's sequence number. `none` is an activation that blocks.
unfoldable pub commit : ℕ → ℕ → Server → Option Server
unfolding activate
commit h sequence s =
    if s.closing || not (is h s.preparing)
    then some (release_slot h (set_stage h (leaving false) s))
    else activate sequence (s.conn h) >>= λ r. some (committed h s r)

-- `old.fail()`, and the generation that it had.
unfoldable pub retire : ℕ → Option ℕ → Server → Server
retire h none s = set_stage h (announcing 0) s
retire h (some old) s =
    record (set_stage h (announcing (s.conn old).generation) (set_conn old (fail (s.conn old)) s)) {
      retiring = remove_first old s.retiring;
    }

unfoldable pub announce : ℕ → ℕ → Server → Server
announce h previous s = record (set_stage h offering s) {
  told = record { generation = previous; next_generation = (s.conn h).generation } ∷ s.told;
}

-- `connectionDone` under the mutex, and its call of the owner.
unfoldable pub connection_done : ℕ → Server → Server
connection_done h s = record (set_stage h (if is h s.current then losing else gone) s) {
  conns = remove_first h s.conns;
  current = if is h s.current then none else s.current;
  preparing = if is h s.preparing then none else s.preparing;
}

unfoldable pub tell_loss : ℕ → Server → Server
tell_loss h s = record (set_stage h gone s) {
  told = record { generation = (s.conn h).generation; next_generation = 0 } ∷ s.told;
}

abbrev prepare_in : Option ℕ → Outbound → Server → Bool × Server
prepare_in none m s = (true, s)
prepare_in (some h) m s = let (fine, c) = prepare m (s.conn h) in (fine, set_conn h c s)

-- The resync is asked for off the owner's goroutine, unless the server closes.
abbrev plan : Bool → ℕ → Server → Server
plan false generation s = s
plan true generation s = record s {
  requests = if s.closing then s.requests else generation ∷ s.requests;
}

abbrev deliver_in : Option ℕ → Outbound → Server → Bool × Server
deliver_in none m s = (true, s)
deliver_in (some h) m s =
    let (fine, resync, c) = enqueue_delta m (s.conn h) in
    (fine, plan resync (s.conn h).generation (set_conn h c s))

-- The owner's delta, encoded: to the connection in its handshake and to the current one. `none` is a
-- delta that is not valid or has no encoding.
unfoldable pub publish : Option Outbound → Server → Bool × Server
unfolding prepare enqueue_delta
publish none s = (false, s)
publish (some m) s =
    if m.sequence == 0
    then (false, s)
    else let (prepared, s') = prepare_in s.preparing m s in
      let (published, s'') = deliver_in s.current m s' in (prepared && published, s'')

-- `publishSnapshot`, of the snapshot that a resync brought, for one generation or, with 0, for
-- whichever is current: it reads the current connection under the server's mutex,
unfoldable pub publish_snapshot : ℕ → Text → ℕ → Server → Server
publish_snapshot generation frame sequence s = elim s.current [
  | none ↦ s
  | some h ↦
      if not (generation == 0) && not ((s.conn h).generation == generation) then s else record s {
        deliveries = s.deliveries ++ (record { to = h; frame = frame; sequence = sequence }) ∷ [];
      }
]

abbrev pub deliver_first : List Delivery → Server → Bool × Server
deliver_first [] s = (true, s)
deliver_first (d ∷ ds) s =
    let (taken, c) = enqueue_snapshot d.frame d.sequence (s.conn d.to) in
    (taken, record (set_conn d.to c s) { deliveries = ds })

-- and later gives it the snapshot, under the mutex of that connection.
unfoldable pub deliver_snapshot : Server → Bool × Server
unfolding enqueue_snapshot
deliver_snapshot s = deliver_first s.deliveries s

-- `requestResync` when the owner refuses: the generation is to fail if it is still current.
unfoldable pub resync_refused : ℕ → Server → Server
resync_refused generation s = elim s.current [
  | none ↦ s
  | some h ↦ if (s.conn h).generation == generation then record s { failing = h ∷ s.failing } else s
]

-- `Close` under the mutex: every connection is to fail.
unfoldable pub close : Server → Server
close s = record s { closing = true; failing = s.conns ++ s.failing }

-- A connection that was to fail, `c.fail()`.
unfoldable pub fail_picked : ℕ → Server → Server
fail_picked h s =
    if contains h s.failing
    then record (set_conn h (fail (s.conn h)) s) { failing = remove_first h s.failing }
    else s

-- What the handler of a connection gets from the code that it calls: a failure, the hello (with the
-- producer capability or not), the sequence number of the owner's snapshot, or nothing of note.
pub data Input : Type 0 where
  refused : Input
  greeted : Bool → Input
  snapshot_at : ℕ → Input
  onward : Input

abbrev pub leave : Bool → ℕ → Server → Server
leave started h s = set_stage h (leaving started) s

-- `<-c.writerDone`.
abbrev pub await_writer : Phase → ℕ → Server → Server
await_writer (stopped lost) h s = set_stage h removing s
await_writer _ h s = s

-- One step of `handle`; other inputs do not come at a stage.
unfoldable pub handle : Stage → Input → ℕ → Server → Option Server
unfolding register begin_handshake commit retire announce connection_done tell_loss
handle absent onward h s = some (register h s)
handle greeting (greeted producer) h s = some (begin_handshake h producer s)
handle greeting refused h s = some (leave false h s)
handle awaiting (snapshot_at sequence) h s = commit h sequence s
handle awaiting refused h s = some (leave false h s)
handle (handing_over old) onward h s = some (retire h old s)
handle (announcing previous) onward h s = some (announce h previous s)
handle offering refused h s = some (leave false h s)
handle offering onward h s = some (set_stage h serving s)
handle serving refused h s = some (leave true h s)
handle (leaving started) onward h s =
    some (set_stage h (if started then draining else removing) (set_conn h (fail (s.conn h)) s))
handle draining onward h s = some (await_writer (s.conn h).phase h s)
handle removing onward h s = some (connection_done h s)
handle losing onward h s = some (tell_loss h s)
handle _ _ h s = some s

-- The reader and the writer of a connection that is served: a reply, a step of the writer's loop. The
-- writer goes on after the reader has left, until it has returned.
pub data Work : Type 0 where
  answer : Text → Work
  writer : Bool → Bool → Work
  writer_left : Work

abbrev pub action_of : Work → Action
action_of (answer bytes) = reply bytes
action_of (writer fine woken) = write_step fine woken
action_of writer_left = closed

abbrev pub acted : Work → ℕ → Server → Option Server
acted w h s = act (action_of w) (s.conn h) >>= λ c. some (set_conn h c s)

unfoldable pub work : Stage → Work → ℕ → Server → Option Server
unfolding act
work serving w h s = acted w h s
work (leaving true) (writer fine woken) h s = acted (writer fine woken) h s
work (leaving true) writer_left h s = acted writer_left h s
work draining (writer fine woken) h s = acted (writer fine woken) h s
work draining writer_left h s = acted writer_left h s
work _ w h s = some s

pub data Step : Type 0 where
  handles : ℕ → Input → Step
  works : ℕ → Work → Step
  publishes : Option Outbound → Step
  resyncs : ℕ → Text → ℕ → Step
  delivers : Step
  refuses fails : ℕ → Step
  closes : Step

unfoldable pub step : Step → Server → Option Server
unfolding handle work publish publish_snapshot deliver_snapshot resync_refused fail_picked close
step (handles h input) s = handle (s.stage h) input h s
step (works h w) s = work (s.stage h) w h s
step (publishes m) s = some (publish m s).1
step (resyncs generation frame sequence) s = some (publish_snapshot generation frame sequence s)
step delivers s = some (deliver_snapshot s).1
step (refuses generation) s = some (resync_refused generation s)
step (fails h) s = some (fail_picked h s)
step closes s = some (close s)

unfoldable pub run : List Step → Server → Option Server
unfolding step
run [] s = some s
run (a ∷ rest) s = step a s >>= run rest
