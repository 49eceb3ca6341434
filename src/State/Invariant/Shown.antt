-- ===== src/State/Invariant/Shown.antt =====
-- What the presenter is shown of a sound state is consistent.
use sysc_notify.Base.{
  ℕ, suc, ◌-◌, ◌≤◌, ◌<◌, ◌≡◌, refl, ap, sym, ◌∙◌, ◌≢◌, inl, inr, true, List, [], ◌∷◌, map, Option,
  none, some, arith, length, contains, Distinct, All, Within, Within-refl, Option-cases,
}
use sysc_notify.Base.Map.{get, keys, Entries, Entries-get, is_some-get, length-keys}
use sysc_notify.Protocol.Types.{Notification, Lifetime, HistoryEntry, Snapshot, max_history_entries}
use sysc_notify.Protocol.Validate
use sysc_notify.Protocol.Validate.{active_ids}
use sysc_notify.Protocol.Validate.Snapshots.{lifetime_ids, history_ids, snapshot_pass}
use sysc_notify.History.Store
use sysc_notify.History.Store.{Retained, entry_ids}
use sysc_notify.History.Store.Keeps.{IsGood}
use sysc_notify.State.Types.{Tracked, Env, OwnerState, clock_now}
use sysc_notify.State.Lifetimes.{duration_milliseconds, lifetime, lifetimes_of}
use sysc_notify.State.Publish.{active_of, history_of, snapshot}
use sysc_notify.State.Invariant.{max_duration, IsEntry, Stored, Inv}

duration_milliseconds_mono :
    (a b : ℕ) → a ≤ b → b ≤ max_duration → duration_milliseconds a ≤ duration_milliseconds b
unfolding duration_milliseconds
duration_milliseconds_mono a b h k = ground arith

duration_milliseconds_pos : (d : ℕ) → 0 < d → d ≤ max_duration → 0 < duration_milliseconds d
unfolding duration_milliseconds
duration_milliseconds_pos d h k = ground arith

pub valid-nonzero : (n : Notification) → Validate.notification n ≡ none → n.id ≢ 0
unfolding Validate.notification
valid-nonzero n h e = ground arith

-- The lifetime of a record is one that the protocol accepts, at any later instant.
pub lifetime-valid :
    (t now id : ℕ) (r : Tracked)
    → t ≤ now
    → IsEntry t id r
    → Validate.lifetime (lifetime r now) ≡ none
unfolding lifetime Validate.lifetime
lifetime-valid t now id r h e = ground (
  arith,
  valid-nonzero r.notification e.valid,
  duration_milliseconds_mono (r.deadline - now) r.duration,
  duration_milliseconds_mono r.remaining r.duration,
  duration_milliseconds_pos r.duration,
)

-- A record for each id that is present.
pub entry_at :
    (t id : ℕ) (m : List (ℕ × Tracked))
    → contains id (keys m) ≡ true
    → Entries (IsEntry t) m
    → (r : Tracked) × (get id m ≡ some r) × IsEntry t id r
entry_at t id m w e = elim (Option-cases (get id m)) [
  | inl missing ↦ absurd (ground (arith, is_some-get id m))
  | inr (r, found) ↦ (r, found, Entries-get (IsEntry t) id m e found)
]

pub id-lifetime : (r : Tracked) (now : ℕ) → (lifetime r now).id ≡ r.notification.id
unfolding lifetime
id-lifetime r now = refl

abbrev LifetimesFor : List ℕ → Option (List Lifetime) → Type 0
LifetimesFor ids o =
    (ls : List Lifetime) × (o ≡ some ls)
    × (lifetime_ids ls ≡ ids)
    × All (λ l. Validate.lifetime l ≡ none) ls

pub lifetimes_of-total :
    (t now : ℕ) (ids : List ℕ) (m : List (ℕ × Tracked))
    → t ≤ now
    → Within (keys m) ids
    → Entries (IsEntry t) m
    → LifetimesFor ids (lifetimes_of ids m now)
unfolding lifetimes_of
lifetimes_of-total t now [] m h w e = ([], refl, refl, tt)
lifetimes_of-total t now (id ∷ ids) m h w e =
    let (r, found, entry) = entry_at t id m w.0 e in
    let (ls, rest, named, valid) = lifetimes_of-total t now ids m h w.1 e in
    (
      lifetime r now ∷ ls,
      rw (found, lifetimes_of) (rw rest),
      ground (arith, id-lifetime r now, entry.named, named),
      (lifetime-valid t now id r h entry, valid),
    )

abbrev ActiveFor : List ℕ → Option (List Notification) → Type 0
ActiveFor ids o =
    (ns : List Notification) × (o ≡ some ns)
    × (active_ids ns ≡ ids)
    × All (λ n. Validate.notification n ≡ none) ns

active_of-total :
    (t : ℕ) (ids : List ℕ) (m : List (ℕ × Tracked))
    → Within (keys m) ids
    → Entries (IsEntry t) m
    → ActiveFor ids (active_of ids m)
unfolding active_of
active_of-total t [] m w e = ([], refl, refl, tt)
active_of-total t (id ∷ ids) m w e =
    let (r, found, entry) = entry_at t id m w.0 e in
    let (ns, rest, named, valid) = active_of-total t ids m w.1 e in
    (
      r.notification ∷ ns,
      rw (found, active_of) (rw rest),
      ground (arith, entry.named, named),
      (entry.valid, valid),
    )

history_ids-entries : (rs : List Retained) → history_ids (map (λ r. r.entry) rs) ≡ entry_ids rs
history_ids-entries [] = refl
history_ids-entries (r ∷ rs) = ap (◌∷◌ r.entry.id) (history_ids-entries rs)

length-entries : (rs : List Retained) → length (map (λ r. r.entry) rs) ≡ length rs
length-entries [] = refl
length-entries (r ∷ rs) = ap suc (length-entries rs)

entries-valid :
    (rs : List Retained)
    → All IsGood rs
    → All (λ h. Validate.history_entry h ≡ none) (map (λ r. r.entry) rs)
entries-valid [] g = tt
entries-valid (r ∷ rs) g = (g.0, entries-valid rs g.1)

-- What a snapshot shows of the history.
record Kept (hs : List HistoryEntry) : Type 0 where
  short : length hs ≤ max_history_entries
  apart : Distinct (history_ids hs)
  valid : All (λ h. Validate.history_entry h ≡ none) hs

history_of-Kept : (o : Option Store.Store) (sweep : ℕ) → Stored o sweep → Kept (history_of o)
unfolding Store.entries
history_of-Kept none sweep g = record { short = omega arith; apart = tt; valid = tt }
history_of-Kept (some store) sweep g = record {
  short = omega (arith, length-entries store.entries, g.bounded);
  apart = rw (history_ids-entries store.entries) g.good.distinct;
  valid = entries-valid store.entries g.good.entries;
}

length-active_ids : (ns : List Notification) → length (active_ids ns) ≡ length ns
length-active_ids [] = refl
length-active_ids (n ∷ ns) = ap suc (length-active_ids ns)

-- In every state that satisfies the invariant a snapshot can be taken, without a nil dereference; it
-- carries the current sequence number and passes the protocol's own validation.
pub snapshot-valid :
    (env : Env) (t : ℕ) (s : OwnerState)
    → Inv env t s
    → (shot : Snapshot) × (snapshot env s ≡ some (shot, (clock_now env s).1))
      × (Validate.snapshot shot ≡ none)
      × (shot.sequence ≡ s.sequence)
unfolding snapshot
snapshot-valid env t s inv =
    let within : Within (keys s.records) s.order =
      rw (← inv.ordered) (Within-refl (keys s.records)) in
    let entries = inv.sound.entries in
    let (ls, timed, for_ids, ls_valid) =
      lifetimes_of-total t (env.now s.reads) s.order s.records inv.past within entries in
    let (ns, shown, named, ns_valid) = active_of-total t s.order s.records within entries in
    let kept = history_of-Kept s.history s.next_history_sweep inv.stored in
    let shot : Snapshot = record {
      sequence = s.sequence;
      active = ns;
      lifetimes = ls;
      history = history_of s.history;
    } in
    (
      shot,
      rw (timed, snapshot) (rw shown),
      snapshot_pass shot (record {
        few = omega (
          arith,
          ap length named,
          ap length inv.ordered,
          length-active_ids ns,
          length-keys s.records,
          inv.sound.few,
        );
        distinct = rw (named, ← inv.ordered) inv.sound.distinct;
        valid = ns_valid;
        paired = for_ids ∙ sym named;
        timed = ls_valid;
        short = kept.short;
        kept_apart = kept.apart;
        kept = kept.valid;
      }),
      refl,
    )
