-- ===== src/State/Eviction.antt =====
-- owner.go's `evictCapacityVictim`: which notification goes when there are too many.
use sysc_notify.Base.{
  ℕ, ◌≡◌, refl, ap, sym, ◌∙◌, ◌≢◌, ◌⊎◌, inl, inr, Bool, true, false, List, [], ◌∷◌, some, arith,
  contains, Within, ◌==◌, ==_iff, is_some, Bool-cases,
}
use sysc_notify.Base.Map.{get, keys, Entries, is_some-get}
use sysc_notify.State.Types.{Tracked, Env, OwnerState}
use sysc_notify.State.Active.{choose, expires_uncritical, is_uncritical, victim}
use sysc_notify.State.Invariant.{IsEntry, Inv}
use sysc_notify.State.Invariant.Shown.{entry_at, valid-nonzero}
use sysc_notify.State.Invariant.Expiring.{order-Within}

-- A record that passes the test was chosen, or the choice is 0 and there is none in the list.
abbrev Chosen : (Tracked → Bool) → List ℕ → List (ℕ × Tracked) → ℕ → Type 0
Chosen match ids m v =
    ((v ≢ 0) × (q : Tracked) × (get v m ≡ some q) × (match q ≡ true))
    ⊎ ((v ≡ 0)
        × ((id : ℕ) (r : Tracked) → contains id ids ≡ true → get id m ≡ some r → match r ≡ false))

choose-Chosen :
    (match : Tracked → Bool) (t : ℕ) (ids : List ℕ) (m : List (ℕ × Tracked))
    → Within (keys m) ids
    → Entries (IsEntry t) m
    → (v : ℕ) × (choose match ids m ≡ some v) × Chosen match ids m v
unfolding choose
choose-Chosen match t [] m w e = (0, refl, inr (refl, λ id r there. cc))
choose-Chosen match t (id ∷ ids) m w e =
    let (r, found, entry) = entry_at t id m w.0 e in
    let (v, rest, chosen) = choose-Chosen match t ids m w.1 e in
    elim (Bool-cases (match r)) [
      | inl hit ↦
          let real : id ≢ 0 = rw (← entry.named) (valid-nonzero r.notification entry.valid) in
          (id, rw (found, choose) (rw hit), inl (real, r, found, hit))
      | inr miss ↦ (v, rw (found, choose) (rw miss rest), passed r found miss v chosen)
    ]
  where
    passed :
        (r : Tracked)
        → get id m ≡ some r
        → match r ≡ false
        → (v : ℕ) → Chosen match ids m v
        → Chosen match (id ∷ ids) m v
    passed r found miss v (inl one) = inl one
    passed r found miss v (inr (zero_choice, no_match)) = inr (zero_choice, none_of)
      where
        none_of :
            (j : ℕ) (q : Tracked)
            → contains j (id ∷ ids) ≡ true
            → get j m ≡ some q
            → match q ≡ false
        none_of j q there e = elim (Bool-cases (id == j)) [
          | inr other ↦ no_match j q (rw other at there) e
          | inl same ↦
              let same_record : get id m ≡ some q = ap (λ i. get i m) ((==_iff id j).0 same) ∙ e in
              ground (arith, found, miss, same_record)
        ]

-- A critical notification is not sacrificed while another is active. In a state that satisfies the
-- invariant and has an active notification that is not critical, the victim of the capacity limit
-- is one of the active notifications that are not critical.
pub victim-is_uncritical :
    (env : Env) (t : ℕ) (s : OwnerState) (id : ℕ) (r : Tracked)
    → Inv env t s
    → get id s.records ≡ some r
    → is_uncritical r ≡ true
    → (v : ℕ) × (q : Tracked) × (victim s ≡ some v)
      × (get v s.records ≡ some q)
      × (is_uncritical q ≡ true)
unfolding victim
victim-is_uncritical env t s id r inv found uncritical =
    by_choices
      (choose-Chosen expires_uncritical t s.order s.records (order-Within env t s inv)
        inv.sound.entries)
      (choose-Chosen is_uncritical t s.order s.records (order-Within env t s inv) inv.sound.entries)
  where
    listed : contains id s.order ≡ true
    listed = rw (← inv.ordered) (sym (is_some-get id s.records) ∙ ap is_some found)

    by_choices :
        ((a : ℕ) × (choose expires_uncritical s.order s.records ≡ some a)
          × Chosen expires_uncritical s.order s.records a)
        → ((b : ℕ) × (choose is_uncritical s.order s.records ≡ some b)
            × Chosen is_uncritical s.order s.records b)
        → (v : ℕ) × (q : Tracked) × (victim s ≡ some v)
          × (get v s.records ≡ some q)
          × (is_uncritical q ≡ true)
    by_choices (a, first, inl (real, q, there, hit)) second =
        let expiring : (a == 0) ≡ false = ground arith in
        (a, q, rw (first, victim) (rw expiring (rw expiring)), there, ground (arith, hit))
    by_choices (a, first, inr (no_choice, none_expires)) (b, second, inl (real, q, there, hit)) =
        let not_expiring : (a == 0) ≡ true = ground arith in
        let chosen : (b == 0) ≡ false = ground arith in
        (b, q, rw (first, victim) (rw not_expiring (rw second (rw chosen))), there, hit)
    by_choices (a, first, inr x) (b, second, inr (no_choice, no_uncritical)) =
        absurd (ground (arith, uncritical, no_uncritical id r listed found))
