-- ===== src/History/Store/Accounts.antt =====
-- What the operations of the store drop, and what they report.
use sysc_notify.Base.{
  ℕ, ◌≤◌, ◌≡◌, refl, ap, sym, ◌∙◌, ◌⊎◌, inl, inr, Bool, false, not, ◌&&◌, ◌||◌, List, [], ◌∷◌, ◌++◌,
  arith, length, contains, contains-append, leb, if◌then◌else◌, ◌==◌, ==_iff, Bool-cases,
}
use sysc_notify.Protocol.Types.{HistoryEntry}
use sysc_notify.History.Image.{Codec}
use sysc_notify.History.Store.{
  Retained, Store, max_history_write_bytes, entry_ids, is_expired, schedule, drop_stale,
  drop_over_limit, sweep_entries, sweep, remove_entries, remove, document_bytes, trim_to_budget,
  insert,
}

entry_ids-append_one :
    (x : ℕ) (rs : List Retained) (r : Retained)
    → contains x (entry_ids (rs ++ r ∷ [])) ≡ (contains x (entry_ids rs) || r.entry.id == x)
entry_ids-append_one x [] r = ground arith
entry_ids-append_one x (y ∷ rs) r = ground (arith, entry_ids-append_one x rs r)

-- Three accounts one after the other, with an addition after the first.
accounts_compose :
    (old kept stale added before next over fitting budget : Bool)
    → (kept || stale) ≡ old
    → before ≡ (kept || added)
    → (next || over) ≡ before
    → (fitting || budget) ≡ next
    → (fitting || ((stale || over) || budget)) ≡ (old || added)
accounts_compose old kept stale added before next over fitting budget h i j k = ground arith

-- An id of the list is kept or reported; nothing else is.
abbrev Accounts : List Retained → List Retained × List ℕ → Type 0
Accounts rs p = (x : ℕ) → (contains x (entry_ids p.0) || contains x p.1) ≡ contains x (entry_ids rs)

drop_stale-Accounts : (id now : ℕ) (rs : List Retained) → Accounts rs (drop_stale id now rs)
unfolding drop_stale
drop_stale-Accounts id now [] x = refl
drop_stale-Accounts id now (r ∷ rs) x = ground (arith, drop_stale-Accounts id now rs x)

drop_over_limit-Accounts : (rs : List Retained) → Accounts rs (drop_over_limit rs)
unfolding drop_over_limit
drop_over_limit-Accounts [] x = refl
drop_over_limit-Accounts (r ∷ rs) x = ground (arith, drop_over_limit-Accounts rs x)

sweep_entries-Accounts : (now : ℕ) (rs : List Retained) → Accounts rs (sweep_entries now rs)
unfolding sweep_entries
sweep_entries-Accounts now [] x = refl
sweep_entries-Accounts now (r ∷ rs) x = ground (arith, sweep_entries-Accounts now rs x)

-- The entries that pass a test.
abbrev pub select : (HistoryEntry → Bool) → List Retained → List Retained
select keep [] = []
select keep (r ∷ rs) = if keep r.entry then r ∷ select keep rs else select keep rs

sweep_entries-select :
    (now : ℕ) (rs : List Retained)
    → ((sweep_entries now rs).0 ≡ select (λ e. not (is_expired now e)) rs)
      × ((sweep_entries now rs).1 ≡ entry_ids (select (is_expired now) rs))
unfolding sweep_entries
sweep_entries-select now [] = (refl, refl)
sweep_entries-select now (r ∷ rs) = ground (arith, sweep_entries-select now rs)

-- Nothing expired, if the sweep removes nothing.
sweep_entries-same :
    (now : ℕ) (rs : List Retained)
    → length (sweep_entries now rs).1 ≡ 0
    → ((sweep_entries now rs).0 ≡ rs) × ((sweep_entries now rs).1 ≡ [])
unfolding sweep_entries
sweep_entries-same now [] h = (refl, refl)
sweep_entries-same now (r ∷ rs) h = ground (arith, sweep_entries-same now rs)

-- A sweep leaves the entries that are not older than the retention, all of them and in their order, and
-- reports the ids of the others; so an id that was in the store is still there or reported, and no
-- other id is.
pub sweep-exact :
    (now : ℕ) (s : Store)
    → ((sweep now s).1.entries ≡ select (λ e. not (is_expired now e)) s.entries)
      × ((sweep now s).0 ≡ entry_ids (select (is_expired now) s.entries))
      × ((x : ℕ)
          → (contains x (entry_ids (sweep now s).1.entries) || contains x (sweep now s).0)
            ≡ contains x (entry_ids s.entries))
unfolding sweep schedule
sweep-exact now s =
    let (kept, reported) = sweep_entries-select now s.entries in
    elim (Bool-cases (length (sweep_entries now s.entries).1 == 0)) [
      | inr gone ↦ rw gone (kept, reported, sweep_entries-Accounts now s.entries)
      | inl same ↦
          let (entries, none_gone) = sweep_entries-same now s.entries (ground (arith, same)) in
          rw same (sym entries ∙ kept, sym none_gone ∙ reported, λ x. ground arith)
    ]

remove_entries-exact :
    (ids : List ℕ) (rs : List Retained) (x : ℕ)
    → (contains x (entry_ids (remove_entries ids rs).0)
        ≡ (contains x (entry_ids rs) && not (contains x ids)))
      × (contains x (remove_entries ids rs).1 ≡ (contains x (entry_ids rs) && contains x ids))
unfolding remove_entries
remove_entries-exact ids [] x = (refl, refl)
remove_entries-exact ids (r ∷ rs) x = elim (Bool-cases (r.entry.id == x)) [
  | inr other ↦ ground (arith, remove_entries-exact ids rs x)
  | inl same ↦
      let names : contains r.entry.id ids ≡ contains x ids =
        ap (λ i. contains i ids) ((==_iff r.entry.id x).0 same) in
      ground (arith, names, remove_entries-exact ids rs x)
]

remove_entries-same :
    (ids : List ℕ) (rs : List Retained)
    → length (remove_entries ids rs).1 ≡ 0
    → (remove_entries ids rs).0 ≡ rs
unfolding remove_entries
remove_entries-same ids [] h = refl
remove_entries-same ids (r ∷ rs) h = ground (arith, remove_entries-same ids rs)

contains_none : (ids : List ℕ) → length ids ≡ 0 → (x : ℕ) → contains x ids ≡ false
contains_none [] h x = refl
contains_none (i ∷ ids) h x = absurd (omega (arith, h))

-- Removal takes out exactly the entries that are named, and reports exactly those of the named ids
-- that were in the store.
pub remove-exact :
    (ids : List ℕ) (s : Store) (x : ℕ)
    → (contains x (entry_ids (remove ids s).1.entries)
        ≡ (contains x (entry_ids s.entries) && not (contains x ids)))
      × (contains x (remove ids s).0 ≡ (contains x (entry_ids s.entries) && contains x ids))
unfolding remove schedule
remove-exact ids s x =
    let (kept, reported) = remove_entries-exact ids s.entries x in
    elim (Bool-cases (length ids == 0 || length (remove_entries ids s.entries).1 == 0)) [
      | inr gone ↦ rw gone (kept, reported)
      | inl same ↦ elim (Bool-cases (length ids == 0)) [
        | inl empty ↦
            let absent = contains_none ids (ground arith) x in rw same (ground (arith, absent))
        | inr some_ids ↦
            let unchanged = remove_entries-same ids s.entries (ground arith) in
            let absent = contains_none (remove_entries ids s.entries).1 (ground arith) x in
            let after = ap (λ rs. contains x (entry_ids rs)) unchanged in
            rw same (ground (arith, kept, reported, absent, after))
      ]
    ]

module _ (codec : Codec) where
  trim_to_budget-Accounts : (rs : List Retained) → Accounts rs (trim_to_budget codec rs)
  unfolding trim_to_budget
  trim_to_budget-Accounts [] x = refl
  trim_to_budget-Accounts (r ∷ rs) x = ground (arith, trim_to_budget-Accounts rs x)

  trim_to_budget-fits :
      (rs : List Retained)
      → ((trim_to_budget codec rs).0 ≡ [])
        ⊎ (document_bytes codec (trim_to_budget codec rs).0 ≤ max_history_write_bytes)
  unfolding trim_to_budget
  trim_to_budget-fits [] = inl refl
  trim_to_budget-fits (r ∷ rs) =
      elim (Bool-cases (leb (document_bytes codec (r ∷ rs)) max_history_write_bytes)) [
        | inl fits ↦ rw fits (inr (ground arith))
        | inr over ↦ rw over (trim_to_budget-fits rs)
      ]

  -- The document that the store writes after an addition fits the write budget, or has no entries. An
  -- id is in the store or reported as removed after the addition exactly if it was in the store before
  -- or is the one added.
  pub insert-exact :
      (added : Retained) (now : ℕ) (old : List Retained)
      → (((insert codec added now old).0 ≡ [])
          ⊎ (document_bytes codec (insert codec added now old).0 ≤ max_history_write_bytes))
        × ((x : ℕ)
            → (contains x (entry_ids (insert codec added now old).0)
                || contains x (insert codec added now old).1)
              ≡ (contains x (entry_ids old) || added.entry.id == x))
  unfolding insert
  insert-exact added now old =
      let kept = (drop_stale added.entry.id now old) in
      let next = drop_over_limit (kept.0 ++ added ∷ []) in
      let fitting = trim_to_budget codec next.0 in
      let accounts : (x : ℕ)
          → (contains x (entry_ids fitting.0) || contains x (kept.1 ++ next.1 ++ fitting.1))
            ≡ (contains x (entry_ids old) || added.entry.id == x) =
        λ x.
          rw (contains-append x (kept.1 ++ next.1) fitting.1, contains-append x kept.1 next.1)
            (accounts_compose (contains x (entry_ids old)) _ _ _ _ _ _ _ _
              (drop_stale-Accounts added.entry.id now old x) (entry_ids-append_one x kept.0 added)
              (drop_over_limit-Accounts (kept.0 ++ added ∷ []) x)
              (trim_to_budget-Accounts next.0 x)) in
      (trim_to_budget-fits next.0, accounts)
