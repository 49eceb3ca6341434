-- ===== src/Presenter/Server/Sound.antt =====
-- server.go: what holds of a server whatever comes in whatever order.
use sysc_notify.Base.{
  ℕ, ◌+◌, ◌≡◌, refl, ◌∙◌, inl, inr, Bool, true, false, List, [], ◌∷◌, Option, some, Text, length,
  arith, Option-cases,
}
use sysc_notify.Presenter.Connection.{
  Outbound, Phase, checking_reply, checking_resync, selecting, writing, stopped, enqueue,
  place_reply, Connection, reserve, release, send,
}
use sysc_notify.Presenter.Connection.Writer.{move_tail, take_resync, take_reply, write_phase, act}
use sysc_notify.Presenter.Connection.Unblocked.{act-Bounded}
use sysc_notify.Presenter.Server.{
  Stage, absent, greeting, awaiting, handing_over, announcing, offering, serving, leaving, draining,
  removing, losing, acted, delivers, fails, Server, set_conn, Input, refused, greeted, snapshot_at,
  onward, handle, Work, answer, writer, writer_left, action_of, work, Step, handles, works,
  publishes, resyncs, refuses, closes, step, run,
}
use sysc_notify.Presenter.Server.Fits.{
  Fits, register-Fits, begin_handshake-Fits, leave-Fits, serve-Fits, unserve-Fits,
  await_writer-Fits, retire-Fits, announce-Fits, fail-Fits, connection_done-Fits, tell_loss-Fits,
  close-Fits,
}
use sysc_notify.Presenter.Server.Published.{
  set_conn-Fits, publish_snapshot-Fits, deliver_snapshot-Fits, resync_refused-Fits,
  fail_picked-Fits, publish-Fits,
}
use sysc_notify.Presenter.Server.Committed.{commit-Fits}

handle-Fits :
    (p : Stage) (input : Input) (h : ℕ) (s : Server)
    → s.stage h ≡ p
    → ((k : ℕ) → Fits s k)
    → (s' : Server) × (handle p input h s ≡ some s') × ((k : ℕ) → Fits s' k)
unfolding handle
handle-Fits absent onward h s there f = (_, refl, λ k. register-Fits h k s there (f k))
handle-Fits greeting (greeted producer) h s there f =
    (_, refl, λ k. begin_handshake-Fits h k producer s there (f h) (f k))
handle-Fits greeting refused h s there f =
    (_, refl, λ k. leave-Fits h k s (rw there refl) (f h) (f k))
handle-Fits awaiting (snapshot_at n) h s there f = commit-Fits h n s there f
handle-Fits awaiting refused h s there f =
    (_, refl, λ k. leave-Fits h k s (rw there refl) (f h) (f k))
handle-Fits (handing_over old) onward h s there f =
    (_, refl, λ k. retire-Fits h k old s there (f h) (f k))
handle-Fits (announcing previous) onward h s there f =
    (_, refl, λ k. announce-Fits h k previous s there (f h) (f k))
handle-Fits offering refused h s there f =
    (_, refl, λ k. leave-Fits h k s (rw there refl) (f h) (f k))
handle-Fits offering onward h s there f = (_, refl, λ k. serve-Fits h k s there (f h) (f k))
handle-Fits serving refused h s there f = (_, refl, λ k. unserve-Fits h k s there (f h) (f k))
handle-Fits (leaving started) onward h s there f =
    (_, refl, λ k. fail-Fits h k started s there (f h) (f k))
handle-Fits draining onward h s there f =
    (_, refl, λ k. await_writer-Fits h k (s.conn h).phase s there (f h) (f k))
handle-Fits removing onward h s there f =
    (_, refl, λ k. connection_done-Fits h k s there (f h) (f k))
handle-Fits losing onward h s there f = (_, refl, λ k. tell_loss-Fits h k s there (f h) (f k))
handle-Fits _ _ h s there f = (s, refl, f)

-- What the reader and the writer do leaves a connection as active, and failed if it was.
abbrev Keeps : Connection → Connection → Type 0
Keeps c c' = (c'.active ≡ c.active) × (c.failed ≡ true → c'.failed ≡ true)

move_tail-Keeps : (ms : List Outbound) (c c' : Connection) → move_tail ms c ≡ some c' → Keeps c c'
unfolding move_tail
move_tail-Keeps [] c c' e = ground (arith, e)
move_tail-Keeps (m ∷ ms) c c' e = elim (Option-cases (send m c)) [
  | inl full ↦ ground (arith, e, full)
  | inr (d, sent) ↦
      let kept : Keeps c d = unfold send in ground (arith, sent) in
      let rest =
        move_tail-Keeps ms
          (record d {
            queued_messages = d.queued_messages + 1;
            queued_bytes = d.queued_bytes + length m.bytes;
          })
          c' (ground (arith, e, sent)) in
      (rest.0 ∙ kept.0, λ failed. rest.1 (kept.1 failed))
]

take_resync-Keeps :
    (c c' : Connection) (r : Option (ℕ × Text)) → take_resync c ≡ some (r, c') → Keeps c c'
unfolding take_resync
take_resync-Keeps c c' r e = elim (Option-cases (move_tail c.resync_tail c)) [
  | inl stuck ↦ ground (arith, e, stuck)
  | inr (d, moved) ↦
      let kept = move_tail-Keeps c.resync_tail c d moved in ground (arith, e, moved, kept)
]

write_phase-Keeps :
    (p : Phase) (fine woken : Bool) (c c' : Connection)
    → write_phase p fine woken c ≡ some c'
    → Keeps c c'
unfolding write_phase take_reply release
write_phase-Keeps checking_reply fine woken c c' e = ground (arith, e)
write_phase-Keeps checking_resync fine woken c c' e = elim (Option-cases (take_resync c)) [
  | inl stuck ↦ ground (arith, e, stuck)
  | inr ((r, d), taken) ↦ let kept = take_resync-Keeps c d r taken in ground (arith, e, taken, kept)
]
write_phase-Keeps selecting fine true c c' e = ground (arith, e)
write_phase-Keeps selecting fine false c c' e = ground (arith, e)
write_phase-Keeps (writing m) fine woken c c' e = ground (arith, e)
write_phase-Keeps (stopped lost) fine woken c c' e = ground (arith, e)

act-Keeps : (w : Work) (c c' : Connection) → act (action_of w) c ≡ some c' → Keeps c c'
unfolding act enqueue place_reply reserve send release
act-Keeps (answer bytes) c c' e = ground (arith, e)
act-Keeps (writer fine woken) c c' e = write_phase-Keeps c.phase fine woken c c' e
act-Keeps writer_left c c' e = ground (arith, e)

acted-Fits :
    (w : Work) (h : ℕ) (s : Server)
    → (s.conn h).active ≡ true
    → ((k : ℕ) → Fits s k)
    → (s' : Server) × (acted w h s ≡ some s') × ((k : ℕ) → Fits s' k)
acted-Fits w h s live f =
    let (c, went, b) =
      act-Bounded (action_of w) (s.conn h) ((f h).bounded (ground (arith, live))) in
    let kept = act-Keeps w (s.conn h) c went in
    (set_conn h c s, rw went refl, λ k. set_conn-Fits h k c s kept.0 kept.1 (λ e. b) (f k))

work-Fits :
    (p : Stage) (w : Work) (h : ℕ) (s : Server)
    → s.stage h ≡ p
    → ((k : ℕ) → Fits s k)
    → (s' : Server) × (work p w h s ≡ some s') × ((k : ℕ) → Fits s' k)
unfolding work
work-Fits serving w h s there f = acted-Fits w h s ((f h).served (rw there refl)) f
work-Fits (leaving true) (writer fine woken) h s there f =
    acted-Fits (writer fine woken) h s ((f h).served (rw there refl)) f
work-Fits (leaving true) writer_left h s there f =
    acted-Fits writer_left h s ((f h).served (rw there refl)) f
work-Fits draining (writer fine woken) h s there f =
    acted-Fits (writer fine woken) h s ((f h).served (rw there refl)) f
work-Fits draining writer_left h s there f =
    acted-Fits writer_left h s ((f h).served (rw there refl)) f
work-Fits _ w h s there f = (s, refl, f)

pub run-Fits :
    (steps : List Step) (s : Server)
    → ((k : ℕ) → Fits s k)
    → (s' : Server) × (run steps s ≡ some s') × ((k : ℕ) → Fits s' k)
unfolding run step
run-Fits [] s f = (s, refl, f)
run-Fits (a ∷ steps) s f =
    let (there, once, kept) = step-Fits a s f in
    let (s', rest, held) = run-Fits steps there kept in (s', rw once rest, held)
  where
    step-Fits :
        (a : Step) (s : Server)
        → ((k : ℕ) → Fits s k)
        → (s' : Server) × (step a s ≡ some s') × ((k : ℕ) → Fits s' k)
    step-Fits (handles h input) s f = handle-Fits (s.stage h) input h s refl f
    step-Fits (works h w) s f = work-Fits (s.stage h) w h s refl f
    step-Fits (publishes m) s f = (_, refl, λ k. publish-Fits m k s f)
    step-Fits (resyncs g frame n) s f = (_, refl, λ k. publish_snapshot-Fits g frame n k s f)
    step-Fits delivers s f = (_, refl, λ k. deliver_snapshot-Fits k s f)
    step-Fits (refuses g) s f = (_, refl, λ k. resync_refused-Fits g k s f)
    step-Fits (fails h) s f = (_, refl, λ k. fail_picked-Fits h k s f)
    step-Fits closes s f = (_, refl, λ k. close-Fits k s (f k))
