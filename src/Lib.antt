-- ===== src/Lib.antt =====
-- sysc-notify: a desktop notification daemon. Applications send notifications over D-Bus
-- (internal/fdo), a presenter draws them and talks to the daemon over a socket with length-prefixed
-- JSON frames (internal/presenter, protocol), one goroutine owns the active notifications, their
-- deadlines and the numbered stream of deltas (internal/state), and closed notifications go to a
-- history with a count limit, an age limit and a byte limit (internal/history). The bus and the
-- presenter send commands to the owner; the owner publishes events to a sink and calls the store.
--
-- What models what:
--   Base            the names that the modules share; lists, checks, texts and Go maps
--   Protocol/Types  protocol/types.go
--   Protocol/Validate, with Ids and Snapshots   protocol/validate.go: a check is an Option of a fault,
--                   the first one that fails counts, as the source returns at the first error
--   Protocol/Frame, with Roundtrip   protocol/frame.go: ReadFrame, WriteFrame and writeAll
--   Notify/Model, with Fresh   internal/notify/model.go: Candidate and ResolveID
--   Notify/RawImage, with InRange   internal/notify/image.go: the checks and the conversion of a raw image
--   Notify/Normalize, with Hinted, Checked and Accepted   internal/notify/normalize.go: Normalize, and its candidates before
--                   the owner
--   History/Image   internal/history/image.go (PrepareImage) and schema.go (the disk form of an entry)
--   History/Store, with Keeps, Seen and Accounts   internal/history/store.go, the operations in memory
--   State/Types     the state of the owner and its commands: internal/state/owner.go
--   State/Lifetimes, Publish, Close, Active, Producers, Commands, Run   internal/state/owner.go,
--                   function by function: `close` is State/Close.close, `add` and `addWithProducerKey` are in
--                   State/Active, `do` is State/Commands.execute and the loop is State/Run.run
--   State/Expiry    internal/state/expiry.go: the lease, pausing and resuming, the timer
--   State/Invariant and State/Fencing with their children, State/Timing, State/Keyed and
--                   State/Eviction   proofs about the owner
--   Presenter/Connection and Connection/Writer   internal/presenter/connection.go: the calls on a
--                   connection and the writer's loop; Bounds and Unblocked, View, Enqueued, Written, Gapless,
--                   Session, Given and CatchUp are proofs about them
--   Presenter/Server   internal/presenter/server.go: `handle` as a state machine (Server.handle),
--                   Publish, publishSnapshot, connectionDone and Close, where what the source does after
--                   it released the mutex is a step of its own; Fits, Outcomes, Published, Committed,
--                   Sound and Serves are proofs about them
--   Fdo/Order       internal/fdo/order.go: CallOrder with its condition variable, and the calls that pass
--                   through it; Fifo, Turns and Fair
--                   are proofs about it
--   Tests, with Parts, Wire, Serving, Calls and Images   concrete values, at which the theorems are
--                   applied
--
-- The state of the owner is a record that each function takes and returns. A reading of the clock
-- counts `reads` up, so two readings in one command may differ. `none` as the result of a step is a
-- Go panic (an id of `order` without a record) or a search that does not end. An instant is its
-- nanoseconds since Go's zero time, which is 0, and a duration is in nanoseconds; neither overflows
-- in the model. Ids are uint32 and sequence numbers uint64, with the wrap-around written out. A map is
-- a list of pairs with each key once; where the source ranges over a map the order decides
-- at most which fault is reported.
--
-- Where goroutines share state under a mutex, a step is what runs while the mutex is held, and a list
-- of steps is an interleaving: `act_all` for one connection, Presenter/Server.run for the handlers of a
-- server, Fdo/Order.run for the calls of a bus. The writer takes a frame and writes it in one step,
-- since nothing else writes to its socket. A send on a channel that would block for ever while the
-- mutex is held is `none`.
--
-- Fuel: `resolve_loop` gets one round more than there are live ids, and `write_loop` one round for a
-- byte; the theorems on them show that this is enough.
--
-- Parameters: the clock, the sink, PNG, SHA-256 and the length of encoded JSON (`Env` and `Codec`),
-- the io.Writer of a connection (`Writer`, with the contract that io.Writer documents), and url.Parse
-- and png.Encode for Normalize (`Libraries`).
--
-- Not modelled: the channels and contexts around the owner, the persistence of history on disk, the
-- JSON decoder, the commands that a connection reads and the choice of images for a snapshot's frame
-- (internal/presenter), sockets and peer credentials, the D-Bus service (internal/fdo/server.go and
-- convert.go), the lineage of senders (internal/sender) and the wiring (internal/app, cmd).
pub mod Base
pub mod Protocol
pub mod Notify
pub mod History
pub mod State
pub mod Presenter
pub mod Fdo
mod Tests
