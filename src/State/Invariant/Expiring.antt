-- ===== src/State/Invariant/Expiring.antt =====
-- Presentations, their lease and the search for the next deadline keep the invariant, and return.
use sysc_notify.Base.{
  ℕ, ◌+◌, ◌≤◌, ◌≡◌, refl, ◌∙◌, inl, inr, false, not, ◌&&◌, List, [], ◌∷◌, Option, none, some, arith,
  Within, Within-refl, ◌==◌, if◌then◌else◌, Bool-cases, Option-cases,
}
use sysc_notify.Base.Map.{keys, Entries}
use sysc_notify.Protocol.Types.{Presentation, suppressed}
use sysc_notify.State.Types.{Error, Tracked, Env, OwnerState, presentation_lease}
use sysc_notify.State.Expiry.{
  reported, clear_presentation, renew_refusal, hand_over, install, renew, earlier, next_deadline,
}
use sysc_notify.State.Invariant.{IsEntry, Sound, Inv}
use sysc_notify.State.Invariant.Records.{
  present_all-Moved, set_presentation-IsEntry, set_presentation_suppressed-IsEntry,
}
use sysc_notify.State.Invariant.Shown.{entry_at}

-- A step that may panic does not, and ends in a state that satisfies the invariant.
abbrev pub Goes : Env → ℕ → Option OwnerState → Type 0
Goes env t o = (s : OwnerState) × (o ≡ some s) × Inv env t s

module _ (env : Env) (t : ℕ) where
  pub order-Within : (s : OwnerState) → Inv env t s → Within (keys s.records) s.order
  order-Within s inv = rw (← inv.ordered) (Within-refl (keys s.records))

  -- The records are moved, and nothing else of the invariant is touched.
  moved-Inv :
      (s : OwnerState) (m : List (ℕ × Tracked))
      → Sound t m
      → keys m ≡ keys s.records
      → Inv env t s
      → Inv env t (record s { records = m })
  moved-Inv s m sound same inv = record {
    sound = sound;
    ordered = same ∙ inv.ordered;
    next_small = inv.next_small;
    past = inv.past;
    stored = inv.stored;
    logged = inv.logged;
  }

  -- At the present instant or at one that is past.
  pub clear_presentation-Goes :
      (now : ℕ) (s : OwnerState) → now ≤ t → Inv env t s → Goes env t (clear_presentation now s)
  unfolding clear_presentation
  clear_presentation-Goes now s h inv =
      let (m, moved, sound, same) =
        present_all-Moved t now (λ _. suppressed) s.order s.records
          (λ id r e. set_presentation_suppressed-IsEntry t now id r h e) (order-Within s inv)
          inv.sound in
      (
        record s { records = m; presenter_generation = 0; lease_deadline = 0 },
        rw moved,
        record {
          sound = sound;
          ordered = same ∙ inv.ordered;
          next_small = inv.next_small;
          past = inv.past;
          stored = inv.stored;
          logged = inv.logged;
        },
      )

  hand_over-Goes :
      (generation : ℕ) (s : OwnerState) → Inv env t s → Goes env t (hand_over generation t s)
  unfolding hand_over
  hand_over-Goes generation s inv =
      elim (Bool-cases
        (not (s.presenter_generation == 0) && not (generation == s.presenter_generation))) [
          | inl other ↦ rw other (clear_presentation-Goes t s (omega arith) inv)
          | inr same ↦ rw same (s, refl, inv)
        ]

  install-Goes :
      (generation : ℕ) (presentations : List Presentation) (s : OwnerState)
      → Inv env t s
      → Goes env t (install generation presentations t s)
  unfolding install
  install-Goes generation presentations s inv =
      let (s', given, inv') = hand_over-Goes generation s inv in
      let (m, moved, sound, same) =
        present_all-Moved t t (λ id. reported id presentations) s'.order s'.records
          (λ id r e. set_presentation-IsEntry t id r (reported id presentations) e)
          (order-Within s' inv') inv'.sound in
      (
        record s' {
          records = m;
          accepted_generation = generation;
          presenter_retired = false;
          presenter_generation = generation;
          lease_deadline = t + presentation_lease;
        },
        rw (given, install) (rw moved),
        record {
          sound = sound;
          ordered = same ∙ inv'.ordered;
          next_small = inv'.next_small;
          past = inv'.past;
          stored = inv'.stored;
          logged = inv'.logged;
        },
      )

  -- A renewal that is refused leaves the state; one that is taken goes through.
  pub renew-Goes :
      (generation : ℕ) (presentations : List Presentation) (s : OwnerState)
      → Inv env t s
      → (e : Option Error) × (s' : OwnerState) × (renew generation presentations t s ≡ some (e, s'))
        × Inv env t s'
  unfolding renew
  renew-Goes generation presentations s inv =
      elim (Option-cases (renew_refusal generation presentations s)) [
        | inr (e, refused) ↦ (some e, s, rw (refused, renew), inv)
        | inl taken ↦
            let (s', went, inv') = install-Goes generation presentations s inv in
            (none, s', rw (taken, renew) (rw went), inv')
      ]

  pub next_deadline-total :
      (next : ℕ) (ids : List ℕ) (m : List (ℕ × Tracked))
      → Within (keys m) ids
      → Entries (IsEntry t) m
      → (at : ℕ) × (next_deadline next ids m ≡ some at)
  unfolding next_deadline
  next_deadline-total next [] m w e = (next, refl)
  next_deadline-total next (id ∷ ids) m w e =
      let (r, found, entry) = entry_at t id m w.0 e in
      let (at, rest) =
        next_deadline-total (if r.has_deadline then earlier next r.deadline else next) ids m w.1
          e in
      (at, rw (found, next_deadline) rest)
