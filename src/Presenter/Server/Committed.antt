-- ===== src/Presenter/Server/Committed.antt =====
-- server.go: the handoff to a new connection.
use sysc_notify.Base.{
  ℕ, ◌≡◌, refl, ◌∙◌, inl, inr, Bool, true, false, not, ◌||◌, some, arith, Bool-cases,
}
use sysc_notify.Presenter.Connection.{Connection, activate}
use sysc_notify.Presenter.Connection.Bounds.{Bounded, activate-Bounded}
use sysc_notify.Presenter.Server.{awaiting, Server, is, release_slot, committed, commit, leave}
use sysc_notify.Presenter.Server.Fits.{Fits, leave-Fits, release-Fits}
use sysc_notify.Presenter.Server.Outcomes.{
  activate_failed, activate_succeeded, committed-Fits, uncommitted-Fits,
}

-- The connection after an activation.
abbrev Outcome : Bool → Connection → Type 0
Outcome true c = (c.active ≡ true) × Bounded c
Outcome false c = (c.active ≡ false) × (c.failed ≡ true)

-- An activation does not block.
activate_outcome :
    (n : ℕ) (c : Connection)
    → ((c.active || not c.failed) ≡ true → Bounded c)
    → c.active ≡ false
    → (r : Bool) × (c' : Connection) × (activate n c ≡ some (r, c')) × Outcome r c'
activate_outcome n c b idle = elim (Bool-cases c.failed) [
  | inl failed ↦ (false, c, unfold activate in ground (arith, failed), (idle, failed))
  | inr live ↦ outcome (activate-Bounded n c (b (ground (arith, live))))
]
  where
    outcome :
        (r : Bool) × (c' : Connection) × (activate n c ≡ some (r, c')) × (r ≡ true → Bounded c')
        → (r : Bool) × (c' : Connection) × (activate n c ≡ some (r, c')) × Outcome r c'
    outcome (true, c', went, kept) = (true, c', went, (activate_succeeded n c c' went, kept refl))
    outcome (false, c', went, kept) =
        let (same, failed) = activate_failed n c c' went in (false, c', went, (same ∙ idle, failed))

pub commit-Fits :
    (h n : ℕ) (s : Server)
    → s.stage h ≡ awaiting
    → ((k : ℕ) → Fits s k)
    → (s' : Server) × (commit h n s ≡ some s') × ((k : ℕ) → Fits s' k)
unfolding commit
commit-Fits h n s there f = elim (Bool-cases (s.closing || not (is h s.preparing))) [
  | inl out ↦ (
    release_slot h (leave false h s),
    ground (arith, out),
    λ k. release-Fits h k (leave false h s) (leave-Fits h k s (rw there refl) (f h) (f k)),
  )
  | inr slot ↦
      let owns : is h s.preparing ≡ true = ground (arith, slot) in
      finish owns (activate_outcome n (s.conn h) (f h).bounded ((f h).unoffered owns))
        (λ r went. ground (arith, slot, went))
]
  where
    finish :
        is h s.preparing ≡ true
        → (r : Bool) × (c' : Connection) × (activate n (s.conn h) ≡ some (r, c')) × Outcome r c'
        → ((r : Bool × Connection)
            → activate n (s.conn h) ≡ some r
            → commit h n s ≡ some (committed h s r))
        → (s' : Server) × (commit h n s ≡ some s') × ((k : ℕ) → Fits s' k)
    finish owns (true, c, went, (live, b)) done = (
      committed h s (true, c),
      done (true, c) went,
      λ k. committed-Fits h k c s there owns live b (f h) (f k),
    )
    finish owns (false, c, went, (idle, failed)) done = (
      committed h s (false, c),
      done (false, c) went,
      λ k. uncommitted-Fits h k c s there idle failed (f h) (f k),
    )
