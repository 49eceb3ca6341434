-- ===== src/History/Store.antt =====
-- internal/history/store.go: the retained entries in memory and every operation on them. What the
-- persistence worker shares with them (`dirty` and the two generations) is part of the state; the
-- files themselves are not. `wake` only rouses the worker. Each operation runs under the mutex, so
-- it is one step.
pub mod Keeps
pub mod Seen
pub mod Accounts
use sysc_notify.Base.{
  ℕ, suc, ◌+◌, ◌-◌, ◌*◌, ◌^◌, Bool, true, false, not, ◌&&◌, ◌||◌, List, [], ◌∷◌, ◌++◌, Option, none,
  some, map, Text, length, contains, ltb, leb, ◌==◌, if◌then◌else◌, Result, ok, err,
}
use sysc_notify.Protocol.Types.{HistoryEntry, history_retention, max_history_entries}
use sysc_notify.Protocol.Validate
use sysc_notify.History.Image.{
  DiskEntry, Codec, ImageMeta, PreparedImage, HistoryFault, invalid, measure_entry, prepare_image,
  image_reference,
}

pub record Retained : Type 0 where
  pub entry : HistoryEntry
  pub meta : Option ImageMeta
  pub size : ℕ

pub record Store : Type 0 where
  pub entries : List Retained
  pub dirty : Bool
  pub write_gen : ℕ
  pub worker_gen : ℕ

abbrev pub max_history_json_bytes : ℕ
max_history_json_bytes = 8 * 2 ^ 20

abbrev pub max_history_write_bytes : ℕ
max_history_write_bytes = max_history_json_bytes - 256

-- `HistoryEntry{}`.
abbrev pub zero_entry : HistoryEntry
zero_entry = record {
  id = 0;
  seen = false;
  app_name = [];
  app_icon = [];
  desktop_entry = [];
  summary = [];
  body = [];
  urgency = 0;
  category = [];
  timestamp = 0;
  image = none;
}

unfoldable pub disk_entry_of : HistoryEntry → Option ImageMeta → DiskEntry
unfolding image_reference
disk_entry_of entry meta = record {
  id = entry.id;
  seen = entry.seen;
  app_name = entry.app_name;
  app_icon = entry.app_icon;
  desktop_entry = entry.desktop_entry;
  summary = entry.summary;
  body = entry.body;
  urgency = entry.urgency;
  category = entry.category;
  timestamp = entry.timestamp;
  image = image_reference meta;
}

unfoldable pub sizes : List Retained → ℕ
sizes [] = 0
sizes (r ∷ rs) = r.size + sizes rs

abbrev pub entry_ids : List Retained → List ℕ
entry_ids [] = []
entry_ids (r ∷ rs) = r.entry.id ∷ entry_ids rs

-- `Timestamp.Before(now.Add(-HistoryRetention))`.
abbrev pub is_expired : ℕ → HistoryEntry → Bool
is_expired now entry = ltb (entry.timestamp + history_retention) now

unfoldable pub schedule : Store → Store
schedule s = record s { write_gen = suc s.write_gen; dirty = true }

-- The entries of one id, and those that are out of date, go: what stays, and the ids of the others.
unfoldable pub drop_stale : ℕ → ℕ → List Retained → List Retained × List ℕ
drop_stale id now [] = ([], [])
drop_stale id now (r ∷ rs) =
    let (kept, removed) = drop_stale id now rs in
    if r.entry.id == id || is_expired now r.entry
    then (kept, r.entry.id ∷ removed)
    else (r ∷ kept, removed)

unfoldable pub drop_over_limit : List Retained → List Retained × List ℕ
drop_over_limit [] = ([], [])
drop_over_limit (r ∷ rs) =
    let rest = drop_over_limit rs in
    if ltb max_history_entries (length (r ∷ rs))
    then (rest.0, r.entry.id ∷ rest.1)
    else (r ∷ rs, [])

unfoldable pub sweep_entries : ℕ → List Retained → List Retained × List ℕ
sweep_entries now [] = ([], [])
sweep_entries now (r ∷ rs) =
    let (kept, removed) = sweep_entries now rs in
    if is_expired now r.entry then (kept, r.entry.id ∷ removed) else (r ∷ kept, removed)

unfoldable pub sweep : ℕ → Store → List ℕ × Store
unfolding schedule
sweep now s =
    let (next, removed) = sweep_entries now s.entries in
    if length removed == 0 then ([], s) else (removed, schedule (record s { entries = next }))

unfoldable pub remove_entries : List ℕ → List Retained → List Retained × List ℕ
remove_entries drop [] = ([], [])
remove_entries drop (r ∷ rs) =
    let (kept, removed) = remove_entries drop rs in
    if contains r.entry.id drop then (kept, r.entry.id ∷ removed) else (r ∷ kept, removed)

unfoldable pub remove : List ℕ → Store → List ℕ × Store
unfolding schedule
remove ids s =
    let (next, removed) = remove_entries ids s.entries in
    if length ids == 0 || length removed == 0
    then ([], s)
    else (removed, schedule (record s { entries = next }))

unfoldable pub clear : Store → List ℕ × Store
unfolding schedule
clear s =
    if length s.entries == 0
    then ([], s)
    else (entry_ids s.entries, schedule (record s { entries = [] }))

unfoldable pub entries : Store → List HistoryEntry
entries s = map (λ r. r.entry) s.entries

unfoldable pub ids : Store → List ℕ
ids s = entry_ids s.entries

mark_one : Option Retained → Option (List Retained × List ℕ) → Option (List Retained × List ℕ)
mark_one none rest = none
mark_one (some m) none = none
mark_one (some m) (some (next, changed)) = some (m ∷ next, m.entry.id ∷ changed)

keep_one : Retained → Option (List Retained × List ℕ) → Option (List Retained × List ℕ)
keep_one r none = none
keep_one r (some (next, changed)) = some (r ∷ next, changed)

module _ (codec : Codec) where
  unfoldable pub new_retained : HistoryEntry → Option ImageMeta → Option Retained
  unfolding disk_entry_of
  new_retained entry meta = elim (codec.measure (disk_entry_of entry meta)) [
    | none ↦ none
    | some size ↦ some (record { entry = entry; meta = meta; size = size })
  ]

  unfoldable pub document_bytes : List Retained → ℕ
  unfolding sizes
  document_bytes [] = codec.overhead
  document_bytes (r ∷ rs) = codec.overhead + length rs + sizes (r ∷ rs)

  unfoldable pub trim_to_budget : List Retained → List Retained × List ℕ
  unfolding document_bytes
  trim_to_budget [] = ([], [])
  trim_to_budget (r ∷ rs) =
      let rest = trim_to_budget rs in
      if leb (document_bytes (r ∷ rs)) max_history_write_bytes
      then (r ∷ rs, [])
      else (rest.0, r.entry.id ∷ rest.1)

  -- The entries after an entry is added, and the ids of those that went.
  unfoldable pub insert : Retained → ℕ → List Retained → List Retained × List ℕ
  unfolding drop_stale drop_over_limit trim_to_budget
  insert added now old =
      let (kept, stale) = drop_stale added.entry.id now old in
      let (next, over) = drop_over_limit (kept ++ added ∷ []) in
      let (fitting, budget_removed) = trim_to_budget next in
      (fitting, stale ++ over ++ budget_removed)

  store_entry :
      HistoryEntry
      → Option ImageMeta
      → ℕ
      → Store
      → Result HistoryFault (HistoryEntry × List ℕ) × Store
  unfolding new_retained insert schedule
  store_entry entry meta now s = elim (new_retained entry meta) [
    | none ↦ (err measure_entry, s)
    | some added ↦
        let (next, removed) = insert added now s.entries in
        (ok (entry, removed), schedule (record s { entries = next }))
  ]

  unfoldable pub add_prepared :
      HistoryEntry → PreparedImage → ℕ → Store → Result HistoryFault (HistoryEntry × List ℕ) × Store
  unfolding store_entry
  add_prepared entry image now s =
      let entry' = record entry { image = image.image } in
      elim (Validate.history_entry entry') [
        | some fault ↦ (err (invalid fault), s)
        | none ↦
            if is_expired now entry'
            then (ok (zero_entry, []), s)
            else store_entry entry' image.meta now s
      ]

  unfoldable pub add :
      HistoryEntry → ℕ → Store → Result HistoryFault (HistoryEntry × List ℕ) × Store
  unfolding add_prepared
  add entry now s = elim (prepare_image codec entry.image) [
    | err fault ↦ (err fault, s)
    | ok image ↦ add_prepared entry image now s
  ]

  -- The loop of MarkSeen: the entries after it and the ids that changed; `none` is an entry that
  -- cannot be measured.
  unfoldable pub mark_entries : List ℕ → List Retained → Option (List Retained × List ℕ)
  unfolding mark_one keep_one
  mark_entries wanted [] = some ([], [])
  mark_entries wanted (r ∷ rs) =
      let rest = mark_entries wanted rs in
      if contains r.entry.id wanted && not r.entry.seen
      then mark_one (new_retained (record r.entry { seen = true }) r.meta) rest
      else keep_one r rest

  unfoldable pub mark_seen : List ℕ → Store → Result HistoryFault (List ℕ) × Store
  unfolding schedule
  mark_seen wanted s = elim (mark_entries wanted s.entries) [
    | none ↦ (err measure_entry, s)
    | some (next, changed) ↦
        if length changed == 0
        then (ok [], s)
        else (ok changed, schedule (record s { entries = next }))
  ]
