-- ===== src/Presenter/Connection/Bounds.antt =====
-- What a connection holds is counted exactly, and stays within the limits; so a send under the mutex
-- never blocks.
use sysc_notify.Base.{
  ℕ, ◌+◌, ◌≤◌, ◌≡◌, refl, inl, inr, Bool, true, false, List, [], ◌∷◌, ◌++◌, some, Text, arith,
  length, length-append, is_some, leb, Bool-cases, Option-cases,
}
use sysc_notify.Protocol.Validate.{validate_next_sequence}
use sysc_notify.Presenter.Connection.{
  max_presenter_queue_messages, max_presenter_decoded_bytes, Outbound, Phase, stopped, writing,
  Connection, new_connection, reserve, reserve_tail, release, send, fail, prepare, activate_pending,
  activated, activate, begin_resync, extend_tail, queue_delta, enqueue_delta, place_reply, enqueue,
  reply_message,
}

-- The bytes of a list of messages.
abbrev pub weight : List Outbound → ℕ
weight [] = 0
weight (m ∷ ms) = length m.bytes + weight ms

pub weight-append_one :
    (ms : List Outbound) (m : Outbound) → weight (ms ++ m ∷ []) ≡ weight ms + length m.bytes
weight-append_one [] m = omega arith
weight-append_one (x ∷ ms) m = omega (arith, weight-append_one ms m)

pub length-append_one : (ms : List Outbound) (m : Outbound) → length (ms ++ m ∷ []) ≡ length ms + 1
length-append_one ms m = omega (arith, length-append ms (m ∷ []))

pub weight_none : (ms : List Outbound) → length ms ≡ 0 → weight ms ≡ 0
weight_none [] e = refl
weight_none (m ∷ ms) e = omega (arith, e)

-- The messages that the writer has received and not released.
abbrev pub flying : Phase → List Outbound
flying (writing m) = m ∷ []
flying (stopped (some m)) = m ∷ []
flying _ = []

-- The counters are the messages held, and each kind is within its limit.
pub record Bounded (c : Connection) : Type 0 where
  pub messages : c.queued_messages ≡ length (flying c.phase) + length c.queue + length c.pending
  pub bytes : c.queued_bytes ≡ weight (flying c.phase) + weight c.queue + weight c.pending
  pub few : c.queued_messages ≤ max_presenter_queue_messages
  pub light : c.queued_bytes ≤ max_presenter_decoded_bytes
  pub tail_few : length c.resync_tail ≤ max_presenter_queue_messages
  pub tail_bytes : c.resync_tail_bytes ≡ weight c.resync_tail
  pub tail_light : c.resync_tail_bytes ≤ max_presenter_decoded_bytes
  -- Nothing is pending after the handshake, and a snapshot comes only then.
  pub settled : c.active ≡ true → length c.pending ≡ 0
  pub due : is_some c.resync_frame ≡ true → c.active ≡ true

pub new_connection-Bounded : (generation : ℕ) → Bounded (new_connection generation)
unfolding new_connection
new_connection-Bounded generation = ground arith

pub prepare-Bounded :
    (m : Outbound) (c : Connection) → c.active ≡ false → Bounded c → Bounded (prepare m c).1
unfolding prepare reserve
prepare-Bounded m c early b =
    ground (arith, weight-append_one c.pending m, length-append_one c.pending m)

extend_tail-Bounded : (m : Outbound) (c : Connection) → Bounded c → Bounded (extend_tail m c).2
unfolding extend_tail reserve_tail
extend_tail-Bounded m c b =
    ground (arith, weight-append_one c.resync_tail m, length-append_one c.resync_tail m)

queue_delta-Bounded : (m : Outbound) (c : Connection) → Bounded c → Bounded (queue_delta m c).2
unfolding queue_delta reserve send begin_resync release
queue_delta-Bounded m c b = ground (arith, weight-append_one c.queue m, length-append_one c.queue m)

pub enqueue_delta-Bounded :
    (m : Outbound) (c : Connection) → Bounded c → Bounded (enqueue_delta m c).2
unfolding enqueue_delta
enqueue_delta-Bounded m c b = ground (arith, extend_tail-Bounded m c, queue_delta-Bounded m c)

pub enqueue-Bounded : (bytes : Text) (c : Connection) → Bounded c → Bounded (enqueue bytes c).1
unfolding enqueue place_reply reserve send release
enqueue-Bounded bytes c b = ground (
  arith,
  weight-append_one c.queue (reply_message bytes),
  length-append_one c.queue (reply_message bytes),
)

-- Activation does not block: what came during the handshake fits the queue.
activate_pending-Bounded :
    (n : ℕ) (ms : List Outbound) (c : Connection)
    → Bounded (record c { pending = ms })
    → (r : Bool) × (c' : Connection) × (activate_pending n ms c ≡ some (r, c'))
      × (r ≡ true → Bounded (record c' { pending = [] }))
unfolding activate_pending
activate_pending-Bounded n [] c b = (true, c, refl, λ e. b)
activate_pending-Bounded n (m ∷ ms) c b = elim (Bool-cases (leb m.sequence n)) [
  | inl old ↦
      let (r, c', went, kept) =
        activate_pending-Bounded n ms (release m c) (unfold release in ground arith) in
      (r, c', rw old went, kept)
  | inr new ↦ elim (Option-cases (validate_next_sequence c.last_sequence m.sequence)) [
    | inr (fault, gap) ↦ (false, fail c, rw new (rw gap), λ e. cc)
    | inl next ↦
        let there = record c { last_sequence = m.sequence; queue = c.queue ++ m ∷ [] } in
        let (r, c', went, kept) =
          activate_pending-Bounded n ms there
            (ground (arith, weight-append_one c.queue m, length-append_one c.queue m)) in
        let sent : send m (record c { last_sequence = m.sequence }) ≡ some there =
          unfold send in ground arith in
        (r, c', rw new (rw next (rw sent went)), kept)
  ]
]

pub activate-live :
    (n : ℕ) (c : Connection) (r : Bool × Connection)
    → c.failed ≡ false
    → activate_pending n c.pending (record c { last_sequence = n }) ≡ some r
    → activate n c ≡ some (activated r)
unfolding activate
activate-live n c r fine went = ground arith

pub activate-Bounded :
    (n : ℕ) (c : Connection)
    → Bounded c
    → (r : Bool) × (c' : Connection) × (activate n c ≡ some (r, c')) × (r ≡ true → Bounded c')
unfolding activate
activate-Bounded n c b = elim (Bool-cases c.failed) [
  | inl gone ↦ (false, c, ground arith, λ e. cc)
  | inr fine ↦
      let (r, c', went, kept) =
        activate_pending-Bounded n c.pending (record c { last_sequence = n })
          (record {
            messages = b.messages;
            bytes = b.bytes;
            few = b.few;
            light = b.light;
            tail_few = b.tail_few;
            tail_bytes = b.tail_bytes;
            tail_light = b.tail_light;
            settled = b.settled;
            due = b.due;
          }) in
      finished r c' (activate-live n c (r, c') fine went) kept
]
  where
    finished :
        (r : Bool) (c' : Connection)
        → activate n c ≡ some (activated (r, c'))
        → (r ≡ true → Bounded (record c' { pending = [] }))
        → (r : Bool) × (c' : Connection) × (activate n c ≡ some (r, c')) × (r ≡ true → Bounded c')
    finished false c' e kept = (false, c', e, λ e. cc)
    finished true c' e kept = (
      true,
      record c' { pending = []; active = true },
      e,
      λ e.
          let k = kept refl in
          record {
            messages = k.messages;
            bytes = k.bytes;
            few = k.few;
            light = k.light;
            tail_few = k.tail_few;
            tail_bytes = k.tail_bytes;
            tail_light = k.tail_light;
            settled = λ _. refl;
            due = λ _. refl;
          },
    )
