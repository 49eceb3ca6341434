-- ===== src/History/Store/Keeps.antt =====
-- Every operation of the store keeps its entries valid, of distinct ids and within the count limit.
use sysc_notify.Base.{
  ℕ, ◌≤◌, ◌≡◌, refl, ◌≢◌, ◌⊎◌, inl, inr, false, ◌||◌, List, [], ◌∷◌, ◌++◌, Option, none, some,
  arith, length, contains, Distinct, All, All-append, ◌==◌, Bool-cases, Option-cases, ap, ◌∙◌,
  Result, ok, err,
}
use sysc_notify.Protocol.Types.{HistoryEntry, max_history_entries}
use sysc_notify.Protocol.Validate
use sysc_notify.History.Image.{Codec, ImageMeta, PreparedImage, HistoryFault, prepare_image}
use sysc_notify.History.Store.{
  Retained, Store, entry_ids, is_expired, schedule, drop_stale, drop_over_limit, sweep_entries,
  sweep, remove_entries, remove, clear, new_retained, trim_to_budget, insert, store_entry,
  add_prepared, add,
}

abbrev pub IsGood : Retained → Type 0
IsGood r = Validate.history_entry r.entry ≡ none

-- Distinct ids and valid entries.
pub record Good (rs : List Retained) : Type 0 where
  pub distinct : Distinct (entry_ids rs)
  pub entries : All IsGood rs

abbrev pub Named : List ℕ → Type 0
Named = All (λ id. id ≢ 0)

pub nonzero : (r : Retained) → IsGood r → r.entry.id ≢ 0
unfolding Validate.history_entry
nonzero r h = ground arith

-- Part of a list: nothing new, and the rest reported under its id.
record Part (rs kept : List Retained) (removed : List ℕ) : Type 0 where
  fewer : length kept ≤ length rs
  good : Good kept
  named : Named removed

drop_stale-contains :
    (x id now : ℕ) (rs : List Retained)
    → contains x (entry_ids rs) ≡ false
    → contains x (entry_ids (drop_stale id now rs).0) ≡ false
unfolding drop_stale
drop_stale-contains x id now [] h = refl
drop_stale-contains x id now (r ∷ rs) h = ground (arith, drop_stale-contains x id now rs)

drop_stale_gone :
    (id now : ℕ) (rs : List Retained) → contains id (entry_ids (drop_stale id now rs).0) ≡ false
unfolding drop_stale
drop_stale_gone id now [] = refl
drop_stale_gone id now (r ∷ rs) = ground (arith, drop_stale_gone id now rs)

drop_stale-Part :
    (id now : ℕ) (rs : List Retained)
    → Good rs
    → Part rs (drop_stale id now rs).0 (drop_stale id now rs).1
unfolding drop_stale
drop_stale-Part id now [] g = record { fewer = omega arith; good = g; named = tt }
drop_stale-Part id now (r ∷ rs) g = ground (
  arith,
  drop_stale-Part id now rs (record { distinct = g.distinct.1; entries = g.entries.1 }),
  drop_stale-contains r.entry.id id now rs g.distinct.0,
  nonzero r g.entries.0,
)

sweep_entries-contains :
    (x now : ℕ) (rs : List Retained)
    → contains x (entry_ids rs) ≡ false
    → contains x (entry_ids (sweep_entries now rs).0) ≡ false
unfolding sweep_entries
sweep_entries-contains x now [] h = refl
sweep_entries-contains x now (r ∷ rs) h = ground (arith, sweep_entries-contains x now rs)

sweep_entries-Part :
    (now : ℕ) (rs : List Retained)
    → Good rs
    → Part rs (sweep_entries now rs).0 (sweep_entries now rs).1
unfolding sweep_entries
sweep_entries-Part now [] g = record { fewer = omega arith; good = g; named = tt }
sweep_entries-Part now (r ∷ rs) g = ground (
  arith,
  sweep_entries-Part now rs (record { distinct = g.distinct.1; entries = g.entries.1 }),
  sweep_entries-contains r.entry.id now rs g.distinct.0,
  nonzero r g.entries.0,
)

remove_entries-contains :
    (x : ℕ) (ids : List ℕ) (rs : List Retained)
    → contains x (entry_ids rs) ≡ false
    → contains x (entry_ids (remove_entries ids rs).0) ≡ false
unfolding remove_entries
remove_entries-contains x ids [] h = refl
remove_entries-contains x ids (r ∷ rs) h = ground (arith, remove_entries-contains x ids rs)

remove_entries-Part :
    (ids : List ℕ) (rs : List Retained)
    → Good rs
    → Part rs (remove_entries ids rs).0 (remove_entries ids rs).1
unfolding remove_entries
remove_entries-Part ids [] g = record { fewer = omega arith; good = g; named = tt }
remove_entries-Part ids (r ∷ rs) g = ground (
  arith,
  remove_entries-Part ids rs (record { distinct = g.distinct.1; entries = g.entries.1 }),
  remove_entries-contains r.entry.id ids rs g.distinct.0,
  nonzero r g.entries.0,
)

drop_over_limit-Part :
    (rs : List Retained)
    → Good rs
    → Part rs (drop_over_limit rs).0 (drop_over_limit rs).1
      × (length (drop_over_limit rs).0 ≤ max_history_entries)
unfolding drop_over_limit
drop_over_limit-Part [] g = (record { fewer = omega arith; good = g; named = tt }, omega arith)
drop_over_limit-Part (r ∷ rs) g = ground (
  arith,
  drop_over_limit-Part rs (record { distinct = g.distinct.1; entries = g.entries.1 }),
  nonzero r g.entries.0,
)

Good-append :
    (rs : List Retained) (r : Retained)
    → Good rs
    → IsGood r
    → contains r.entry.id (entry_ids rs) ≡ false
    → Good (rs ++ r ∷ [])
Good-append [] r g h free = record { distinct = (refl, tt); entries = (h, tt) }
Good-append (x ∷ rs) r g h free = ground (
  arith,
  Good-append rs r (record { distinct = g.distinct.1; entries = g.entries.1 }) h,
  entry_ids-append x.entry.id rs r,
)
  where
    entry_ids-append :
        (x : ℕ) (rs : List Retained) (r : Retained)
        → contains x (entry_ids (rs ++ r ∷ [])) ≡ (contains x (entry_ids rs) || r.entry.id == x)
    entry_ids-append x [] r = ground arith
    entry_ids-append x (y ∷ rs) r = ground (arith, entry_ids-append x rs r)

-- What holds of the store between two operations.
pub record IsStore (s : Store) : Type 0 where
  pub good : Good s.entries
  pub bounded : length s.entries ≤ max_history_entries

-- What an addition returns: ids that are not 0, and a valid entry or the zero entry.
abbrev pub Added : Result HistoryFault (HistoryEntry × List ℕ) → Type 0
Added (err e) = Unit {0}
Added (ok (entry, removed)) =
    Named removed × ((entry.id ≡ 0) ⊎ (Validate.history_entry entry ≡ none))

module _ (codec : Codec) where
  trim_to_budget-Part :
      (rs : List Retained)
      → Good rs
      → Part rs (trim_to_budget codec rs).0 (trim_to_budget codec rs).1
  unfolding trim_to_budget
  trim_to_budget-Part [] g = record { fewer = omega arith; good = g; named = tt }
  trim_to_budget-Part (r ∷ rs) g = ground (
    arith,
    trim_to_budget-Part rs (record { distinct = g.distinct.1; entries = g.entries.1 }),
    nonzero r g.entries.0,
  )

  -- The three ways of going, and what stays.
  insert_keeps :
      (added : Retained) (now : ℕ) (old : List Retained)
      → Good old
      → IsGood added
      → Good (insert codec added now old).0
        × (length (insert codec added now old).0 ≤ max_history_entries)
        × Named (insert codec added now old).1
  unfolding insert
  insert_keeps added now old g h =
      let stale = drop_stale-Part added.entry.id now old g in
      let whole =
        Good-append (drop_stale added.entry.id now old).0 added stale.good h
          (drop_stale_gone added.entry.id now old) in
      let (over, small) = drop_over_limit-Part _ whole in
      let fit = trim_to_budget-Part _ over.good in
      (
        fit.good,
        omega (arith, fit.fewer),
        All-append _ _ _ (All-append _ _ _ stale.named over.named) fit.named,
      )

  new_retained-entry :
      (entry : HistoryEntry) (meta : Option ImageMeta) {r : Retained}
      → new_retained codec entry meta ≡ some r
      → r.entry ≡ entry
  unfolding new_retained
  new_retained-entry entry meta e = ground arith

  abbrev pub Kept : Result HistoryFault (HistoryEntry × List ℕ) × Store → Type 0
  Kept p = Added p.0 × IsStore p.1

  store_entry-Kept :
      (entry : HistoryEntry) (meta : Option ImageMeta) (now : ℕ) (s : Store)
      → IsStore s
      → Validate.history_entry entry ≡ none
      → Kept (store_entry codec entry meta now s)
  unfolding store_entry schedule
  store_entry-Kept entry meta now s g h = elim (Option-cases (new_retained codec entry meta)) [
    | inl e ↦ rw (e, store_entry) (tt, g)
    | inr (added, e) ↦
        let good = ap Validate.history_entry (new_retained-entry entry meta e) ∙ h in
        let (keeps, small, named) = insert_keeps added now s.entries g.good good in
        rw (e, store_entry) ((named, inr h), record { good = keeps; bounded = small })
  ]

  pub add_prepared-Kept :
      (entry : HistoryEntry) (image : PreparedImage) (now : ℕ) (s : Store)
      → IsStore s
      → Kept (add_prepared codec entry image now s)
  unfolding add_prepared
  add_prepared-Kept entry image now s g =
      let entry' : HistoryEntry = record entry { image = image.image } in
      elim (Option-cases (Validate.history_entry entry')) [
        | inr (fault, e) ↦ rw (e, add_prepared) (tt, g)
        | inl e ↦ elim (Bool-cases (is_expired now entry')) [
          | inl old ↦ rw (e, add_prepared) (rw old ((tt, inl refl), g))
          | inr fresh ↦
              rw (e, add_prepared) (rw fresh (store_entry-Kept entry' image.meta now s g e))
        ]
      ]

  -- Adding an entry, with an image prepared beforehand or with its own, keeps the ids of the store
  -- distinct, its entries valid and at most 100.
  pub add-Kept :
      (entry : HistoryEntry) (now : ℕ) (s : Store)
      → IsStore s
      → Added (add codec entry now s).0 × IsStore (add codec entry now s).1
  unfolding add
  add-Kept entry now s g = prepared_or_not (prepare_image codec entry.image)
    where
      prepared_or_not :
          (r : Result HistoryFault PreparedImage)
          → Kept (elim r [
            | err fault ↦ (err fault, s)
            | ok image ↦ add_prepared codec entry image now s
          ])
      prepared_or_not (err fault) = (tt, g)
      prepared_or_not (ok image) = add_prepared-Kept entry image now s g

pub sweep-IsStore :
    (now : ℕ) (s : Store) → IsStore s → Named (sweep now s).0 × IsStore (sweep now s).1
unfolding sweep schedule
sweep-IsStore now s g =
    let part = sweep_entries-Part now s.entries g.good in
    elim (Bool-cases (length (sweep_entries now s.entries).1 == 0)) [
      | inl same ↦ rw same (tt, g)
      | inr less ↦
          rw less (
            part.named,
            record { good = part.good; bounded = omega (arith, part.fewer, g.bounded) },
          )
    ]

pub remove-IsStore :
    (ids : List ℕ) (s : Store) → IsStore s → Named (remove ids s).0 × IsStore (remove ids s).1
unfolding remove schedule
remove-IsStore ids s g =
    let part = remove_entries-Part ids s.entries g.good in
    elim (Bool-cases (length ids == 0 || length (remove_entries ids s.entries).1 == 0)) [
      | inl same ↦ rw same (tt, g)
      | inr less ↦
          rw less (
            part.named,
            record { good = part.good; bounded = omega (arith, part.fewer, g.bounded) },
          )
    ]

pub clear-IsStore : (s : Store) → IsStore s → IsStore (clear s).1
unfolding clear schedule
clear-IsStore s g = elim (Bool-cases (length s.entries == 0)) [
  | inl same ↦ rw same g
  | inr some_gone ↦
      rw some_gone (record { good = record { distinct = tt; entries = tt }; bounded = omega arith })
]
