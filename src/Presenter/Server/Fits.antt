-- ===== src/Presenter/Server/Fits.antt =====
-- server.go: what holds of each connection of a server, kept by the steps of its handler.
use sysc_notify.Base.{
  ℕ, ◌≡◌, refl, Bool, true, false, not, ◌||◌, Option, none, some, contains,
  contains-remove_first_other, arith, List, [], ◌∷◌, if◌then◌else◌,
}
use sysc_notify.Presenter.Connection.{Phase, new_connection, fail}
use sysc_notify.Presenter.Connection.Bounds.{Bounded, new_connection-Bounded}
use sysc_notify.Presenter.Server.{
  Stage, absent, greeting, awaiting, handing_over, announcing, offering, serving, leaving, draining,
  removing, losing, Delivery, Server, new_server, is, set_conn, set_stage, await_writer, register,
  begin_handshake, release_slot, retire, announce, connection_done, tell_loss, close, leave,
}

-- The stages of a handler whose connection is active.
abbrev pub is_committed : Stage → Bool
is_committed (handing_over old) = true
is_committed (announcing previous) = true
is_committed offering = true
is_committed serving = true
is_committed (leaving true) = true
is_committed draining = true
is_committed _ = false

-- The stages in which a connection has not been offered to the presenter.
abbrev pub is_early : Stage → Bool
is_early absent = true
is_early greeting = true
is_early awaiting = true
is_early _ = false

-- The stages from which a handler leaves before its writer is started.
abbrev pub is_entering : Stage → Bool
is_entering offering = true
is_entering p = is_early p

-- The stages in which a handler will still take its connection off the server.
abbrev pub is_leaving : Stage → Bool
is_leaving (leaving started) = true
is_leaving draining = true
is_leaving removing = true
is_leaving _ = false

-- The stages in which a handler has failed its connection.
abbrev pub has_failed : Stage → Bool
has_failed draining = true
has_failed removing = true
has_failed _ = false

abbrev pub in_slot : Stage → Bool
in_slot awaiting = true
in_slot (leaving false) = true
in_slot removing = true
in_slot _ = false

-- The connections that a snapshot is to be delivered to.
abbrev pub targets : List Delivery → List ℕ
targets [] = []
targets (d ∷ ds) = d.to ∷ targets ds

-- One connection of a server.
pub record Fits (s : Server) (h : ℕ) : Type 0 where
  pub served : is_committed (s.stage h) ≡ true → (s.conn h).active ≡ true
  pub early : is_early (s.stage h) ≡ true → (s.conn h).active ≡ false
  pub ended : has_failed (s.stage h) ≡ true → (s.conn h).failed ≡ true
  -- Its handler will clear the fields that name it.
  pub current : is h s.current ≡ true → (is_committed (s.stage h) || is_leaving (s.stage h)) ≡ true
  pub installed : is h s.current ≡ true → (s.conn h).active ≡ true
  pub slot : is h s.preparing ≡ true → in_slot (s.stage h) ≡ true
  pub unoffered : is h s.preparing ≡ true → (s.conn h).active ≡ false
  pub aimed : contains h (targets s.deliveries) ≡ true → (s.conn h).active ≡ true
  -- Whoever else is active has failed or is about to.
  pub only :
      (s.conn h).active ≡ true
      → ((s.conn h).failed || is h s.current || contains h s.retiring) ≡ true
  pub bounded : ((s.conn h).active || not (s.conn h).failed) ≡ true → Bounded (s.conn h)

pub new_server-Fits : (h : ℕ) → Fits new_server h
unfolding new_server
new_server-Fits h = record {
  served = λ e. cc;
  ended = λ e. cc;
  early = λ e. unfold new_connection in refl;
  current = λ e. cc;
  installed = λ e. cc;
  slot = λ e. cc;
  unoffered = λ e. cc;
  aimed = λ e. cc;
  only = λ e. unfold new_connection in cc;
  bounded = λ e. new_connection-Bounded 0;
}

-- Each step, for one connection `k`; the step's own is `h`.
pub register-Fits : (h k : ℕ) (s : Server) → s.stage h ≡ absent → Fits s k → Fits (register h s) k
unfolding register
register-Fits h k s there f = ground (arith, new_connection-Bounded 0, f)

pub begin_handshake-Fits :
    (h k : ℕ) (producer : Bool) (s : Server)
    → s.stage h ≡ greeting
    → Fits s h
    → Fits s k
    → Fits (begin_handshake h producer s) k
unfolding begin_handshake
begin_handshake-Fits h k producer s there g f = ground (arith, there, g, f)

pub leave-Fits :
    (h k : ℕ) (s : Server)
    → is_entering (s.stage h) ≡ true
    → Fits s h
    → Fits s k
    → Fits (leave false h s) k
leave-Fits h k s there g f = ground (arith, there, g, f)

pub serve-Fits :
    (h k : ℕ) (s : Server)
    → s.stage h ≡ offering
    → Fits s h
    → Fits s k
    → Fits (set_stage h serving s) k
serve-Fits h k s there g f = ground (arith, there, g, f)

pub unserve-Fits :
    (h k : ℕ) (s : Server) → s.stage h ≡ serving → Fits s h → Fits s k → Fits (leave true h s) k
unserve-Fits h k s there g f = ground (arith, there, g, f)

pub await_writer-Fits :
    (h k : ℕ) (p : Phase) (s : Server)
    → s.stage h ≡ draining
    → Fits s h
    → Fits s k
    → Fits (await_writer p h s) k
await_writer-Fits h k p s there g f = ground (arith, there, g, f)

pub release-Fits : (h k : ℕ) (s : Server) → Fits s k → Fits (release_slot h s) k
release-Fits h k s f = ground (arith, f)

pub retire-Fits :
    (h k : ℕ) (old : Option ℕ) (s : Server)
    → s.stage h ≡ handing_over old
    → Fits s h
    → Fits s k
    → Fits (retire h old s) k
unfolding retire
retire-Fits h k none s there g f = ground (arith, there, g, f)
retire-Fits h k (some old) s there g f =
    ground (arith, there, g, f, contains-remove_first_other k old s.retiring)

pub announce-Fits :
    (h k previous : ℕ) (s : Server)
    → s.stage h ≡ announcing previous
    → Fits s h
    → Fits s k
    → Fits (announce h previous s) k
unfolding announce
announce-Fits h k previous s there g f = ground (arith, there, g, f)

pub fail-Fits :
    (h k : ℕ) (started : Bool) (s : Server)
    → s.stage h ≡ leaving started
    → Fits s h
    → Fits s k
    → Fits (set_stage h (if started then draining else removing) (set_conn h (fail (s.conn h)) s)) k
fail-Fits h k true s there g f = ground (arith, there, g, f)
fail-Fits h k false s there g f = ground (arith, there, g, f)

pub connection_done-Fits :
    (h k : ℕ) (s : Server)
    → s.stage h ≡ removing
    → Fits s h
    → Fits s k
    → Fits (connection_done h s) k
unfolding connection_done
connection_done-Fits h k s there g f = ground (arith, there, g, f)

pub tell_loss-Fits :
    (h k : ℕ) (s : Server) → s.stage h ≡ losing → Fits s h → Fits s k → Fits (tell_loss h s) k
unfolding tell_loss
tell_loss-Fits h k s there g f = ground (arith, there, g, f)

pub close-Fits : (k : ℕ) (s : Server) → Fits s k → Fits (close s) k
unfolding close
close-Fits k s f = ground (arith, f)
