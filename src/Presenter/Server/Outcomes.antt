-- ===== src/Presenter/Server/Outcomes.antt =====
-- server.go: what an activation does to the connection.
use sysc_notify.Base.{
  ℕ, ◌≡◌, ◌∙◌, inl, inr, true, false, List, [], ◌∷◌, some, leb, arith, Bool-cases, Option-cases,
}
use sysc_notify.Protocol.Validate.{validate_next_sequence}
use sysc_notify.Presenter.Connection.{
  Outbound, Connection, release, send, activate_pending, activate,
}
use sysc_notify.Presenter.Connection.Bounds.{Bounded}
use sysc_notify.Presenter.Server.{awaiting, Server, is, committed}
use sysc_notify.Presenter.Server.Fits.{Fits}

activate_pending_failed :
    (n : ℕ) (ms : List Outbound) (c c' : Connection)
    → activate_pending n ms c ≡ some (false, c')
    → (c'.active ≡ c.active) × (c'.failed ≡ true)
unfolding activate_pending release
activate_pending_failed n [] c c' e = ground (arith, e)
activate_pending_failed n (m ∷ ms) c c' e = elim (Bool-cases (leb m.sequence n)) [
  | inl old ↦ activate_pending_failed n ms (release m c) c' (ground (arith, e, old))
  | inr new ↦ elim (Option-cases (validate_next_sequence c.last_sequence m.sequence)) [
    | inr (fault, gap) ↦ ground (arith, e, new, gap)
    | inl valid ↦ elim (Option-cases (send m (record c { last_sequence = m.sequence }))) [
      | inl full ↦ ground (arith, e, new, valid, full)
      | inr (d, sent) ↦
          let (same, failed) =
            activate_pending_failed n ms d c' (ground (arith, e, new, valid, sent)) in
          (same ∙ unfold send in ground (arith, sent), failed)
    ]
  ]
]

pub activate_failed :
    (n : ℕ) (c c' : Connection)
    → activate n c ≡ some (false, c')
    → (c'.active ≡ c.active) × (c'.failed ≡ true)
unfolding activate
activate_failed n c c' e =
    elim (Option-cases (activate_pending n c.pending (record c { last_sequence = n }))) [
      | inl stuck ↦ ground (arith, e, stuck)
      | inr ((false, d), went) ↦
          let (same, failed) =
            activate_pending_failed n c.pending (record c { last_sequence = n }) d went in
          ground (arith, e, went, same, failed)
      | inr ((true, d), went) ↦ ground (arith, e, went)
    ]

pub activate_succeeded :
    (n : ℕ) (c c' : Connection) → activate n c ≡ some (true, c') → c'.active ≡ true
unfolding activate
activate_succeeded n c c' e =
    elim (Option-cases (activate_pending n c.pending (record c { last_sequence = n }))) [
      | inl stuck ↦ ground (arith, e, stuck)
      | inr ((false, d), went) ↦ ground (arith, e, went)
      | inr ((true, d), went) ↦ ground (arith, e, went)
    ]

pub committed-Fits :
    (h k : ℕ) (c : Connection) (s : Server)
    → s.stage h ≡ awaiting
    → is h s.preparing ≡ true
    → c.active ≡ true
    → Bounded c
    → Fits s h
    → Fits s k
    → Fits (committed h s (true, c)) k
committed-Fits h k c s there slot live b g f = ground (arith, there, g, f, slot, live, b)

pub uncommitted-Fits :
    (h k : ℕ) (c : Connection) (s : Server)
    → s.stage h ≡ awaiting
    → c.active ≡ false
    → c.failed ≡ true
    → Fits s h
    → Fits s k
    → Fits (committed h s (false, c)) k
uncommitted-Fits h k c s there idle failed g f = ground (arith, there, g, f, idle, failed)
