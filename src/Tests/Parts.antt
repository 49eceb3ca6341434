-- ===== src/Tests/Parts.antt =====
-- The theorems on ids, frames, id lists and the history store, applied.
use sysc_notify.Base.{
  ok, err, ℕ, ◌-◌, ◌*◌, ◌^◌, ◌≤◌, ◌<◌, ◌≡◌, refl, ◌⊎◌, ◌↔◌, true, false, not, ◌||◌, List, [], ◌∷◌,
  ◌++◌, Option, none, some, valid_utf8, arith, length, take, contains, ◌==◌, Distinct,
}
use sysc_notify.Protocol.Types.{HistoryEntry, second}
use sysc_notify.Protocol.Validate
use sysc_notify.Protocol.Validate.Ids.{Named, validate_ids_iff}
use sysc_notify.Protocol.Frame.{Writer, frame, FrameFault, read_frame, write_frame}
use sysc_notify.Protocol.Frame.Roundtrip.{write_frame-read_frame}
use sysc_notify.Notify.Model.{next_id, resolve_loop, resolve_id}
use sysc_notify.Notify.Fresh.{Fresh, resolve_id-Fresh}
use sysc_notify.History.Image.{measure_entry}
use sysc_notify.History.Store
use sysc_notify.History.Store.Keeps.{IsStore, add-Kept, Kept}
use sysc_notify.History.Store.Seen.{Unmeasured, Answered, mark_seen-exact}
use sysc_notify.History.Store.Accounts.{select, sweep-exact, remove-exact, insert-exact}
use sysc_notify.Tests.{no_pictures, empty_store}

resolve_id-Fresh_example : Fresh (2 ∷ 3 ∷ []) (resolve_id 0 2 (2 ∷ 3 ∷ []))
resolve_id-Fresh_example = resolve_id-Fresh 2 (2 ∷ 3 ∷ []) (omega arith) (omega arith)

resolve_id_wraps : resolve_id 0 (2 ^ 32 - 1) (4294967295 ∷ 1 ∷ []) ≡ some (2, 3)
unfolding resolve_id resolve_loop next_id
resolve_id_wraps = refl

validate_ids_iff_example :
    (Validate.validate_ids (4 ∷ 7 ∷ []) 100 ≡ none)
    ↔ ((0 < 2) × (2 ≤ 100) × Distinct (4 ∷ 7 ∷ []) × Named (4 ∷ 7 ∷ []))
validate_ids_iff_example = validate_ids_iff (4 ∷ 7 ∷ []) 100

one_le : (w p : List ℕ) → length (take 1 p) ≤ length p
one_le w [] = omega arith
one_le w (x ∷ p) = omega arith

one_taken : (w p : List ℕ) → w ++ take 1 p ≡ w ++ take (length (take 1 p)) p
one_taken w [] = refl
one_taken w (x ∷ p) = refl

-- A connection that takes one byte at a call.
abbrev slow : Writer
slow = record {
  State = List ℕ;
  write = λ w p. (length (take 1 p), false, w ++ take 1 p);
  taken = λ w. w;
  write_le = one_le;
  write_taken = one_taken;
}

write_frame-read_frame_example :
    (fault : Option FrameFault) × (w' : List ℕ) × (write_frame slow [] (104 ∷ 105 ∷ [])
      ≡ some (fault, w'))
    × (fault ≡ none
        → (sent : List ℕ) × (w' ≡ [] ++ sent)
          × (read_frame (sent ++ []) ≡ frame (104 ∷ 105 ∷ []) []))
write_frame-read_frame_example = write_frame-read_frame slow [] (104 ∷ 105 ∷ []) []

abbrev old_entry : HistoryEntry
old_entry = record Store.zero_entry { id = 7; timestamp = second; urgency = 1 }

abbrev one_retained : Store.Retained
one_retained = record { entry = old_entry; meta = none; size = 200 }

abbrev one_kept : Store.Store
one_kept = record empty_store { entries = one_retained ∷ [] }

one_kept-IsStore : IsStore one_kept
unfolding Validate.history_entry Validate.validate_text valid_utf8
one_kept-IsStore = record {
  good = record { distinct = (refl, tt); entries = (refl, tt) };
  bounded = omega arith;
}

add-Kept_example :
    Kept no_pictures (Store.add no_pictures (record old_entry { id = 8 }) (3 * second) one_kept)
add-Kept_example =
    add-Kept no_pictures (record old_entry { id = 8 }) (3 * second) one_kept one_kept-IsStore

mark_seen-exact_example :
    (Unmeasured no_pictures (7 ∷ []) one_kept.entries
      × (Store.mark_seen no_pictures (7 ∷ []) one_kept ≡ (err measure_entry, one_kept)))
    ⊎ ((changed : List ℕ) × (s' : Store.Store) × (Store.mark_seen no_pictures (7 ∷ []) one_kept
          ≡ (ok changed, s'))
        × Answered no_pictures (7 ∷ []) one_kept changed s')
mark_seen-exact_example = mark_seen-exact no_pictures (7 ∷ []) one_kept one_kept-IsStore

sweep-exact_example :
    ((Store.sweep (3 * second) one_kept).1.entries
      ≡ select (λ e. not (Store.is_expired (3 * second) e)) one_kept.entries)
    × ((Store.sweep (3 * second) one_kept).0
        ≡ Store.entry_ids (select (Store.is_expired (3 * second)) one_kept.entries))
    × ((x : ℕ)
        → (contains x (Store.entry_ids (Store.sweep (3 * second) one_kept).1.entries)
            || contains x (Store.sweep (3 * second) one_kept).0)
          ≡ contains x (Store.entry_ids one_kept.entries))
sweep-exact_example = sweep-exact (3 * second) one_kept

insert-exact_example :
    (((Store.insert no_pictures one_retained (3 * second) []).0 ≡ [])
      ⊎ (Store.document_bytes no_pictures (Store.insert no_pictures one_retained (3 * second) []).0
          ≤ Store.max_history_write_bytes))
    × ((x : ℕ)
        → (contains x (Store.entry_ids (Store.insert no_pictures one_retained (3 * second) []).0)
            || contains x (Store.insert no_pictures one_retained (3 * second) []).1)
          ≡ (false || 7 == x))
insert-exact_example = insert-exact no_pictures one_retained (3 * second) []

remove-exact_example :
    (contains 7 (Store.entry_ids (Store.remove (7 ∷ 9 ∷ []) one_kept).1.entries) ≡ false)
    × (contains 7 (Store.remove (7 ∷ 9 ∷ []) one_kept).0 ≡ true)
remove-exact_example = remove-exact (7 ∷ 9 ∷ []) one_kept 7
