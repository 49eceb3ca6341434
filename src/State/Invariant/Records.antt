-- ===== src/State/Invariant/Records.antt =====
-- The records under the operations that touch one or all of them.
use sysc_notify.Base.{
  ℕ, ◌^◌, ◌≤◌, ◌<◌, ◌≡◌, refl, ap, ◌∙◌, ◌≢◌, inl, inr, true, false, List, [], ◌∷◌, Option, none,
  some, Text, pos_part, arith, length, contains, Within, ◌==◌, Option-cases,
}
use sysc_notify.Base.Map.{
  get, put, keys, Entries, Entries-put, Entries-get, is_some-get, keys-put_old, length-keys,
}
use sysc_notify.Protocol.Types.{PresentationState, suppressed}
use sysc_notify.Protocol.Validate
use sysc_notify.Notify.Model.{Candidate}
use sysc_notify.History.Image.{PreparedImage}
use sysc_notify.State.Types.{Tracked}
use sysc_notify.State.Lifetimes.{
  notification_from_candidate, validate_candidate, candidate_duration,
}
use sysc_notify.State.Active.{new_record, start, replacement}
use sysc_notify.State.Expiry.{set_presentation, present_all}
use sysc_notify.State.Invariant.{max_duration, IsEntry, Sound}

pub IsEntry-later : {t u id : ℕ} {r : Tracked} → t ≤ u → IsEntry t id r → IsEntry u id r
IsEntry-later h e = ground arith

-- Any presentation state, at the current instant.
pub set_presentation-IsEntry :
    (t id : ℕ) (r : Tracked) (next : PresentationState)
    → IsEntry t id r
    → IsEntry t id (set_presentation r next t)
unfolding set_presentation
set_presentation-IsEntry t id r next e = ground arith

-- Suppression, at an instant that may be past.
pub set_presentation_suppressed-IsEntry :
    (t past id : ℕ) (r : Tracked)
    → past ≤ t
    → IsEntry t id r
    → IsEntry t id (set_presentation r suppressed past)
unfolding set_presentation
set_presentation_suppressed-IsEntry t past id r h e = ground arith

pub Sound-later : {t u : ℕ} {m : List (ℕ × Tracked)} → t ≤ u → Sound t m → Sound u m
Sound-later {t} {u} {m} h s = record {
  distinct = s.distinct;
  few = s.few;
  entries = later m s.entries;
}
  where
    later : (m : List (ℕ × Tracked)) → Entries (IsEntry t) m → Entries (IsEntry u) m
    later [] e = tt
    later ((k, r) ∷ m) e = (IsEntry-later h e.0, later m e.1)

-- A record is overwritten by another one for the same id.
pub put_old-Sound :
    (t id : ℕ) (r : Tracked) (m : List (ℕ × Tracked))
    → contains id (keys m) ≡ true
    → IsEntry t id r
    → Sound t m
    → Sound t (put id r m) × (keys (put id r m) ≡ keys m)
put_old-Sound t id r m h e s =
    let same = keys-put_old id r m h in
    (
      record {
        distinct = rw same s.distinct;
        few = omega (arith, ap length same, length-keys m, length-keys (put id r m), s.few);
        entries = Entries-put (IsEntry t) id r m e s.entries;
      },
      same,
    )

-- Every record that a loop over present ids moves stays an entry, and no id comes or goes.
abbrev pub Moved : ℕ → List (ℕ × Tracked) → Option (List (ℕ × Tracked)) → Type 0
Moved t m o = (m' : List (ℕ × Tracked)) × (o ≡ some m') × Sound t m' × (keys m' ≡ keys m)

pub present_all-Moved :
    (t now : ℕ) (next : ℕ → PresentationState) (ids : List ℕ) (m : List (ℕ × Tracked))
    → ((id : ℕ) (r : Tracked) → IsEntry t id r → IsEntry t id (set_presentation r (next id) now))
    → Within (keys m) ids
    → Sound t m
    → Moved t m (present_all next now ids m)
unfolding present_all
present_all-Moved t now next [] m keep w s = (m, refl, s, refl)
present_all-Moved t now next (id ∷ ids) m keep w s = elim (Option-cases (get id m)) [
  | inl e ↦ absurd (missing e)
  | inr (r, e) ↦
      let r' = set_presentation r (next id) now in
      let (s', same) =
        put_old-Sound t id r' m w.0 (keep id r (Entries-get (IsEntry t) id m s.entries e)) s in
      let (m', found, s'', same') =
        present_all-Moved t now next ids (put id r' m) keep (rw same w.1) s' in
      (m', rw (e, present_all) found, s'', same' ∙ same)
]
  where
    missing : get id m ≡ none → ⊥
    missing e = ground (arith, is_some-get id m, w.0)

-- A candidate as the bus and the socket carry it: its timeout is an int32.
abbrev pub IsCandidate : Candidate → Type 0
IsCandidate c = pos_part c.expire_timeout < 2 ^ 31

accepted_at_one :
    (c : Candidate) (now : ℕ)
    → validate_candidate c now ≡ none
    → Validate.notification (notification_from_candidate 1 c now) ≡ none
unfolding validate_candidate
accepted_at_one c now e = ground arith

accepted_at :
    (id now : ℕ) (c : Candidate)
    → id ≢ 0
    → Validate.notification (notification_from_candidate 1 c now) ≡ none
    → Validate.notification (notification_from_candidate id c now) ≡ none
unfolding Validate.notification notification_from_candidate
accepted_at id now c h e = let is_id : (id == 0) ≡ false = ground arith in rw is_id e

candidate_duration_bounded : (c : Candidate) → IsCandidate c → candidate_duration c ≤ max_duration
unfolding candidate_duration
candidate_duration_bounded c h = ground arith

-- The record of an accepted candidate, before and after its deadline is set.
new_record-IsEntry :
    (t id : ℕ) (c : Candidate) (key : Text) (image : Option PreparedImage)
    → id ≢ 0
    → IsCandidate c
    → validate_candidate c t ≡ none
    → IsEntry t id (new_record id c key image t)
unfolding new_record
new_record-IsEntry t id c key image h small e = record {
  named = refl;
  valid = accepted_at id t c h (accepted_at_one c t e);
  bounded = candidate_duration_bounded c small;
  timed = λ running. cc;
  running = λ running. cc;
  paused = λ _. omega arith;
}

pub start-IsEntry :
    (t id : ℕ) (c : Candidate) (key : Text) (image : Option PreparedImage)
    → id ≢ 0
    → IsCandidate c
    → validate_candidate c t ≡ none
    → IsEntry t id (start (new_record id c key image t) t)
unfolding start new_record
start-IsEntry t id c key image h small e =
    let fresh = new_record-IsEntry t id c key image h small e in
    ground (arith, fresh.valid, fresh.bounded)

pub replacement-IsEntry :
    (t id : ℕ) (c : Candidate) (key : Text) (image : Option PreparedImage) (existing : Tracked)
    → id ≢ 0
    → IsCandidate c
    → validate_candidate c t ≡ none
    → IsEntry t id (replacement (new_record id c key image t) existing t)
unfolding replacement new_record
replacement-IsEntry t id c key image existing h small e =
    let fresh = new_record-IsEntry t id c key image h small e in
    ground (arith, fresh.valid, fresh.bounded)
