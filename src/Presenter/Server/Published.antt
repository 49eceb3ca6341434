-- ===== src/Presenter/Server/Published.antt =====
-- server.go: what the owner's events do to the connections.
use sysc_notify.Base.{
  ℕ, ◌≡◌, refl, inl, inr, Bool, true, false, not, ◌||◌, Option, none, some, Text, arith,
  Option-cases, List, [], ◌∷◌, ◌++◌, contains, ◌==◌,
}
use sysc_notify.Presenter.Connection.{
  Outbound, Connection, fail, reserve, reserve_tail, release, send, prepare, begin_resync,
  extend_tail, queue_delta, enqueue_delta, enqueue_snapshot,
}
use sysc_notify.Presenter.Connection.Bounds.{Bounded, prepare-Bounded, enqueue_delta-Bounded}
use sysc_notify.Presenter.Server.{
  Server, set_conn, prepare_in, plan, deliver_in, publish, publish_snapshot, resync_refused,
  Delivery, deliver_first, deliver_snapshot, fail_picked,
}
use sysc_notify.Presenter.Server.Fits.{Fits, targets}

-- Another state of a connection that is as active, and failed if it was.
pub set_conn-Fits :
    (h k : ℕ) (c : Connection) (s : Server)
    → c.active ≡ (s.conn h).active
    → ((s.conn h).failed ≡ true → c.failed ≡ true)
    → ((c.active || not c.failed) ≡ true → Bounded c)
    → Fits s k
    → Fits (set_conn h c s) k
set_conn-Fits h k c s same lasting b f = ground (arith, same, lasting, b, f)

plan-Fits : (due : Bool) (generation k : ℕ) (s : Server) → Fits s k → Fits (plan due generation s) k
plan-Fits true generation k s f = ground (arith, f)
plan-Fits false generation k s f = f

prepare_keeps :
    (m : Outbound) (c : Connection)
    → ((prepare m c).1.active ≡ c.active) × (c.failed ≡ true → (prepare m c).1.failed ≡ true)
unfolding prepare reserve
prepare_keeps m c = ground arith

prepare_live : (m : Outbound) (c : Connection) → (prepare m c).1.failed ≡ false → c.failed ≡ false
unfolding prepare reserve
prepare_live m c e = ground (arith, e)

prepare_in-Fits :
    (slot : Option ℕ) (k : ℕ) (m : Outbound) (s : Server)
    → s.preparing ≡ slot
    → ((h : ℕ) → Fits s h)
    → Fits (prepare_in slot m s).1 k
prepare_in-Fits none k m s e f = f k
prepare_in-Fits (some h) k m s e f =
    let c = s.conn h in
    let early : c.active ≡ false = (f h).unoffered (rw e (ground arith)) in
    let kept = prepare_keeps m c in
    set_conn-Fits h k (prepare m c).1 s kept.0 kept.1
      (λ live.
        prepare-Bounded m c early
          ((f h).bounded (ground (arith, early, live, kept.0, prepare_live m c))))
      (f k)

delta_keeps :
    (m : Outbound) (c : Connection)
    → ((enqueue_delta m c).2.active ≡ c.active)
      × (c.failed ≡ true → (enqueue_delta m c).2.failed ≡ true)
unfolding enqueue_delta extend_tail queue_delta reserve reserve_tail send begin_resync release
delta_keeps m c = ground arith

deliver_in-Fits :
    (slot : Option ℕ) (k : ℕ) (m : Outbound) (s : Server)
    → s.current ≡ slot
    → ((h : ℕ) → Fits s h)
    → Fits (deliver_in slot m s).1 k
deliver_in-Fits none k m s e f = f k
deliver_in-Fits (some h) k m s e f =
    let c = s.conn h in
    let live : c.active ≡ true = (f h).installed (rw e (ground arith)) in
    let kept = delta_keeps m c in
    plan-Fits (enqueue_delta m c).1 c.generation k (set_conn h (enqueue_delta m c).2 s) (
      set_conn-Fits h k (enqueue_delta m c).2 s kept.0 kept.1
        (λ e. enqueue_delta-Bounded m c ((f h).bounded (ground (arith, live)))) (f k))

snapshot_keeps :
    (frame : Text) (n : ℕ) (c : Connection)
    → ((enqueue_snapshot frame n c).1.active ≡ c.active)
      × (c.failed ≡ true → (enqueue_snapshot frame n c).1.failed ≡ true)
unfolding enqueue_snapshot
snapshot_keeps frame n c = ground arith

enqueue_snapshot-Bounded :
    (frame : Text) (n : ℕ) (c : Connection) → Bounded c → Bounded (enqueue_snapshot frame n c).1
unfolding enqueue_snapshot
enqueue_snapshot-Bounded frame n c b = ground arith

targets-append :
    (k : ℕ) (ds : List Delivery) (d : Delivery)
    → contains k (targets (ds ++ d ∷ [])) ≡ (contains k (targets ds) || k == d.to)
targets-append k [] d = ground arith
targets-append k (x ∷ ds) d = ground (arith, targets-append k ds d)

pub publish_snapshot-Fits :
    (generation : ℕ) (frame : Text) (n k : ℕ) (s : Server)
    → ((h : ℕ) → Fits s h)
    → Fits (publish_snapshot generation frame n s) k
unfolding publish_snapshot
publish_snapshot-Fits generation frame n k s f = elim (Option-cases s.current) [
  | inl nobody ↦ ground (arith, nobody, f k)
  | inr (h, e) ↦
      let d : Delivery = record { to = h; frame = frame; sequence = n } in
      let live : (s.conn h).active ≡ true = (f h).installed (rw e (ground arith)) in
      ground (arith, e, f k, live, targets-append k s.deliveries d)
]

dropped-Fits :
    (d : Delivery) (ds : List Delivery) (k : ℕ) (s : Server)
    → s.deliveries ≡ d ∷ ds
    → Fits s k
    → Fits (record s { deliveries = ds }) k
dropped-Fits d ds k s e f =
    let still : contains k (targets ds) ≡ true → contains k (targets s.deliveries) ≡ true =
      λ there. rw e (ground (arith, there)) in
    record {
      served = f.served;
      early = f.early;
      ended = f.ended;
      current = f.current;
      installed = f.installed;
      slot = f.slot;
      unoffered = f.unoffered;
      aimed = λ there. f.aimed (still there);
      only = f.only;
      bounded = f.bounded;
    }

pub deliver_snapshot-Fits :
    (k : ℕ) (s : Server) → ((h : ℕ) → Fits s h) → Fits (deliver_snapshot s).1 k
unfolding deliver_snapshot
deliver_snapshot-Fits k s f = go s.deliveries refl
  where
    go : (ds : List Delivery) → s.deliveries ≡ ds → Fits (deliver_first ds s).1 k
    go [] e = f k
    go (d ∷ ds) e =
        let c = s.conn d.to in
        let live : c.active ≡ true = (f d.to).aimed (rw e (ground arith)) in
        let kept = snapshot_keeps d.frame d.sequence c in
        let b =
          enqueue_snapshot-Bounded d.frame d.sequence c ((f d.to).bounded (ground (arith, live))) in
        dropped-Fits d ds k (set_conn d.to (enqueue_snapshot d.frame d.sequence c).1 s) e (
          set_conn-Fits d.to k (enqueue_snapshot d.frame d.sequence c).1 s kept.0 kept.1 (λ e. b)
            (f k))

fail-Bounded : (c : Connection) → Bounded c → Bounded (fail c)
fail-Bounded c b = ground arith

fail_conn-Fits :
    (h k : ℕ) (s : Server) → Fits s h → Fits s k → Fits (set_conn h (fail (s.conn h)) s) k
fail_conn-Fits h k s g f =
    set_conn-Fits h k (fail (s.conn h)) s refl (λ e. refl)
      (λ live. fail-Bounded (s.conn h) (g.bounded (ground (arith, live)))) f

pub resync_refused-Fits :
    (generation k : ℕ) (s : Server) → ((h : ℕ) → Fits s h) → Fits (resync_refused generation s) k
unfolding resync_refused
resync_refused-Fits generation k s f = elim (Option-cases s.current) [
  | inl nobody ↦ ground (arith, nobody, f k)
  | inr (h, e) ↦ ground (arith, e, f k)
]

pub fail_picked-Fits : (h k : ℕ) (s : Server) → ((h : ℕ) → Fits s h) → Fits (fail_picked h s) k
unfolding fail_picked
fail_picked-Fits h k s f =
    let failed = fail_conn-Fits h k s (f h) (f k) in ground (arith, failed, f k)

prepare_in-current :
    (slot : Option ℕ) (m : Outbound) (s : Server) → (prepare_in slot m s).1.current ≡ s.current
prepare_in-current none m s = refl
prepare_in-current (some h) m s = refl

pub publish-Fits :
    (m : Option Outbound) (k : ℕ) (s : Server) → ((h : ℕ) → Fits s h) → Fits (publish m s).1 k
unfolding publish
publish-Fits none k s f = f k
publish-Fits (some m) k s f =
    let there = (prepare_in s.preparing m s).1 in
    let delivered =
      deliver_in-Fits s.current k m there (prepare_in-current s.preparing m s)
        (λ h. prepare_in-Fits s.preparing h m s refl f) in
    ground (arith, f k, delivered)
