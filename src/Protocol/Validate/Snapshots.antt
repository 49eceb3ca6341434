-- ===== src/Protocol/Validate/Snapshots.antt =====
-- Snapshots that are accepted.
use sysc_notify.Base.{
  ℕ, suc, ◌≤◌, ◌≡◌, refl, ap, List, [], ◌∷◌, none, arith, length, Distinct, All, Apart, Apart-cons,
  Apart-nil,
}
use sysc_notify.Protocol.Types.{
  Notification, Lifetime, HistoryEntry, Snapshot, max_active_notifications, max_history_entries,
}
use sysc_notify.Protocol.Validate.{
  notification, lifetime, history_entry, active_ids, check_active, check_lifetimes, check_history,
  snapshot,
}

abbrev pub lifetime_ids : List Lifetime → List ℕ
lifetime_ids [] = []
lifetime_ids (l ∷ ls) = l.id ∷ lifetime_ids ls

abbrev pub history_ids : List HistoryEntry → List ℕ
history_ids [] = []
history_ids (h ∷ hs) = h.id ∷ history_ids hs

check_active_pass :
    (seen : List ℕ) (ns : List Notification)
    → Apart seen (active_ids ns)
    → Distinct (active_ids ns)
    → All (λ n. notification n ≡ none) ns
    → check_active seen ns ≡ none
unfolding check_active
check_active_pass seen [] a d v = refl
check_active_pass seen (n ∷ ns) a d v = ground (
  arith,
  check_active_pass (n.id ∷ seen) ns (Apart-cons n.id seen (active_ids ns) a.1 d.0) d.1 v.1,
)

check_history_pass :
    (seen : List ℕ) (hs : List HistoryEntry)
    → Apart seen (history_ids hs)
    → Distinct (history_ids hs)
    → All (λ h. history_entry h ≡ none) hs
    → check_history seen hs ≡ none
unfolding check_history
check_history_pass seen [] a d v = refl
check_history_pass seen (h ∷ hs) a d v = ground (
  arith,
  check_history_pass (h.id ∷ seen) hs (Apart-cons h.id seen (history_ids hs) a.1 d.0) d.1 v.1,
)

check_lifetimes_pass :
    (ls : List Lifetime)
    → All (λ l. lifetime l ≡ none) ls
    → check_lifetimes (lifetime_ids ls) ls ≡ none
unfolding check_lifetimes
check_lifetimes_pass [] v = refl
check_lifetimes_pass (l ∷ ls) v = ground (arith, check_lifetimes_pass ls v.1)

length-lifetime_ids : (ls : List Lifetime) → length (lifetime_ids ls) ≡ length ls
length-lifetime_ids [] = refl
length-lifetime_ids (l ∷ ls) = ap suc (length-lifetime_ids ls)

length-active_ids : (ns : List Notification) → length (active_ids ns) ≡ length ns
length-active_ids [] = refl
length-active_ids (n ∷ ns) = ap suc (length-active_ids ns)

-- What makes a snapshot consistent: its parts are valid, its ids distinct, and the lifetimes stand
-- for the active notifications in their order.
pub record Consistent (s : Snapshot) : Type 0 where
  pub few : length s.active ≤ max_active_notifications
  pub distinct : Distinct (active_ids s.active)
  pub valid : All (λ n. notification n ≡ none) s.active
  pub paired : lifetime_ids s.lifetimes ≡ active_ids s.active
  pub timed : All (λ l. lifetime l ≡ none) s.lifetimes
  pub short : length s.history ≤ max_history_entries
  pub kept_apart : Distinct (history_ids s.history)
  pub kept : All (λ h. history_entry h ≡ none) s.history

-- Consistent snapshots are accepted.
pub snapshot_pass : (s : Snapshot) → Consistent s → snapshot s ≡ none
unfolding snapshot
snapshot_pass s c =
    let timed : check_lifetimes (active_ids s.active) s.lifetimes ≡ none =
      rw (← c.paired) (check_lifetimes_pass s.lifetimes c.timed) in
    let same : length s.lifetimes ≡ length s.active =
      omega
        (arith, ap length c.paired, length-lifetime_ids s.lifetimes, length-active_ids s.active) in
    ground (
      arith,
      timed,
      same,
      c.few,
      c.short,
      check_active_pass [] s.active (Apart-nil (active_ids s.active)) c.distinct c.valid,
      check_history_pass [] s.history (Apart-nil (history_ids s.history)) c.kept_apart c.kept,
    )
