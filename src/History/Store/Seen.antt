-- ===== src/History/Store/Seen.antt =====
-- MarkSeen keeps the store and reports the entries that it changed.
use sysc_notify.Base.{
  ℕ, ◌≤◌, ◌≡◌, refl, ap, sym, ◌⊎◌, inl, inr, true, false, not, ◌&&◌, ◌||◌, Bool, List, [], ◌∷◌,
  ◌++◌, Option, none, some, arith, length, contains, Distinct, All, ◌==◌, Bool-cases, Option-cases,
  subst, Result, ok, err,
}
use sysc_notify.Protocol.Types.{HistoryEntry, max_history_entries}
use sysc_notify.Protocol.Validate
use sysc_notify.Protocol.Validate.Ids.{validate_ids_iff}
use sysc_notify.History.Image.{Codec, HistoryFault, measure_entry}
use sysc_notify.History.Store.{
  Retained, Store, entry_ids, schedule, new_retained, mark_one, keep_one, mark_entries, mark_seen,
}
use sysc_notify.History.Store.Accounts.{select}
use sysc_notify.History.Store.Keeps.{IsGood, Good, Named, nonzero, IsStore}

-- The entries after the loop carry the ids of those before it, and the changed ids are some of them.
-- An entry after MarkSeen, and whether that changes it.
abbrev pub seen_if : List ℕ → HistoryEntry → HistoryEntry
seen_if wanted e = record e { seen = e.seen || contains e.id wanted }

abbrev pub is_new : List ℕ → HistoryEntry → Bool
is_new wanted e = contains e.id wanted && not e.seen

abbrev pub entries_of : List Retained → List HistoryEntry
entries_of [] = []
entries_of (r ∷ rs) = r.entry ∷ entries_of rs

abbrev pub all_seen : List ℕ → List Retained → List HistoryEntry
all_seen wanted [] = []
all_seen wanted (r ∷ rs) = seen_if wanted r.entry ∷ all_seen wanted rs

record Marked (wanted : List ℕ) (rs next : List Retained) (changed : List ℕ) : Type 0 where
  same_ids : entry_ids next ≡ entry_ids rs
  same_length : length next ≡ length rs
  good : All IsGood next
  fewer : length changed ≤ length rs
  distinct : Distinct changed
  named : Named changed
  within : (x : ℕ) → contains x (entry_ids rs) ≡ false → contains x changed ≡ false
  marked : entries_of next ≡ all_seen wanted rs
  reported : changed ≡ entry_ids (select (is_new wanted) rs)

module _ (codec : Codec) (wanted : List ℕ) where
  seen-IsGood :
      (r m : Retained)
      → IsGood r
      → new_retained codec (record r.entry { seen = true }) r.meta ≡ some m
      → IsGood m × (m.entry ≡ record r.entry { seen = true })
  unfolding new_retained Validate.history_entry
  seen-IsGood r m h e = ground arith

  -- An entry that is to be marked and then cannot be measured.
  pub record Unmeasured (rs : List Retained) : Type 0 where
    pub before : List Retained
    pub culprit : Retained
    pub after : List Retained
    pub there : rs ≡ before ++ culprit ∷ after
    pub new : is_new wanted culprit.entry ≡ true
    pub refused : new_retained codec (record culprit.entry { seen = true }) culprit.meta ≡ none

  later-Unmeasured : (r : Retained) (rs : List Retained) → Unmeasured rs → Unmeasured (r ∷ rs)
  later-Unmeasured r rs u = record {
    before = r ∷ u.before;
    culprit = u.culprit;
    after = u.after;
    there = ap (λ xs. r ∷ xs) u.there;
    new = u.new;
    refused = u.refused;
  }

  abbrev Marks : List Retained → Option (List Retained × List ℕ) → Type 0
  Marks rs none = Unmeasured rs
  Marks rs (some (next, changed)) = Marked wanted rs next changed

  mark_one-Marks :
      (r : Retained) (rs : List Retained) (m : Option Retained)
      (rest : Option (List Retained × List ℕ))
      → Good (r ∷ rs)
      → is_new wanted r.entry ≡ true
      → new_retained codec (record r.entry { seen = true }) r.meta ≡ m
      → Marks rs rest
      → Marks (r ∷ rs) (mark_one m rest)
  unfolding mark_one
  mark_one-Marks r rs none rest g new e k = record {
    before = [];
    culprit = r;
    after = rs;
    there = refl;
    new = new;
    refused = e;
  }
  mark_one-Marks r rs (some m) none g new e k = later-Unmeasured r rs k
  mark_one-Marks r rs (some m) (some (next, changed)) g new e k =
      let (good, whole) = seen-IsGood r m g.entries.0 e in
      let same : m.entry.id ≡ r.entry.id = ap (λ e. e.id) whole in
      let wants : contains r.entry.id wanted ≡ true = ground (arith, new) in
      record {
        same_ids = ground (arith, same, k.same_ids);
        same_length = ground (arith, k.same_length);
        good = (good, k.good);
        fewer = omega (arith, k.fewer);
        distinct = (rw same (k.within r.entry.id g.distinct.0), k.distinct);
        named = (nonzero m good, k.named);
        within = λ x h. ground (arith, same, k.within x);
        marked = ground (arith, whole, new, k.marked);
        reported = ground (arith, same, new, k.reported);
      }

  keep_one-Marks :
      (r : Retained) (rs : List Retained) (rest : Option (List Retained × List ℕ))
      → Good (r ∷ rs)
      → is_new wanted r.entry ≡ false
      → Marks rs rest
      → Marks (r ∷ rs) (keep_one r rest)
  unfolding keep_one
  keep_one-Marks r rs none g old k = later-Unmeasured r rs k
  keep_one-Marks r rs (some (next, changed)) g old k = record {
    same_ids = ground (arith, k.same_ids);
    same_length = ground (arith, k.same_length);
    good = (g.entries.0, k.good);
    fewer = omega (arith, k.fewer);
    distinct = k.distinct;
    named = k.named;
    within = λ x h. ground (arith, k.within x);
    marked = ground (arith, old, k.marked);
    reported = ground (arith, old, k.reported);
  }

  mark_entries-Marks : (rs : List Retained) → Good rs → Marks rs (mark_entries codec wanted rs)
  unfolding mark_entries
  mark_entries-Marks [] g = record {
    same_ids = refl;
    same_length = refl;
    good = tt;
    fewer = omega arith;
    distinct = tt;
    named = tt;
    within = λ x h. refl;
    marked = refl;
    reported = refl;
  }
  mark_entries-Marks (r ∷ rs) g =
      let later =
        mark_entries-Marks rs (record { distinct = g.distinct.1; entries = g.entries.1 }) in
      elim (Bool-cases (contains r.entry.id wanted && not r.entry.seen)) [
        | inl hit ↦ rw hit (mark_one-Marks r rs _ (mark_entries codec wanted rs) g hit refl later)
        | inr miss ↦ rw miss (keep_one-Marks r rs (mark_entries codec wanted rs) g miss later)
      ]

  -- Nothing to mark, nothing changed.
  all_seen-none :
      (rs : List Retained)
      → entry_ids (select (is_new wanted) rs) ≡ []
      → entries_of rs ≡ all_seen wanted rs
  all_seen-none [] e = refl
  all_seen-none (r ∷ rs) e = ground (arith, e, all_seen-none rs)

  -- What MarkSeen did to the entries `rs`, whose list it reports.
  pub record Answered (s : Store) (changed : List ℕ) (s' : Store) : Type 0 where
    pub marked : entries_of s'.entries ≡ all_seen wanted s.entries
    pub reported : changed ≡ entry_ids (select (is_new wanted) s.entries)
    pub accepted : (changed ≡ []) ⊎ (Validate.validate_ids changed max_history_entries ≡ none)
    pub kept : IsStore s'

  -- On a valid store, MarkSeen marks as seen the entries that are asked for, changes nothing else of any
  -- entry, and reports exactly the ids of those that had not been seen; the list is empty or one that
  -- the protocol accepts, and the store is valid again. Otherwise it reports an error and leaves the
  -- store as it is, and there is an entry that was to be marked and cannot be measured afterwards.
  pub mark_seen-exact :
      (s : Store)
      → IsStore s
      → (Unmeasured s.entries × (mark_seen codec wanted s ≡ (err measure_entry, s)))
        ⊎ ((changed : List ℕ) × (s' : Store) × (mark_seen codec wanted s ≡ (ok changed, s'))
            × Answered s changed s')
  unfolding mark_seen schedule
  mark_seen-exact s g = elim (Option-cases (mark_entries codec wanted s.entries)) [
    | inl e ↦
        inl
          (subst (Marks s.entries) e (mark_entries-Marks s.entries g.good), rw (e, mark_seen) refl)
    | inr ((next, changed), e) ↦
        finish next changed (subst (Marks s.entries) e (mark_entries-Marks s.entries g.good)) e
  ]
    where
      finish :
          (next : List Retained) (changed : List ℕ)
          → Marked wanted s.entries next changed
          → mark_entries codec wanted s.entries ≡ some (next, changed)
          → (Unmeasured s.entries × (mark_seen codec wanted s ≡ (err measure_entry, s)))
            ⊎ ((changed : List ℕ) × (s' : Store) × (mark_seen codec wanted s ≡ (ok changed, s'))
                × Answered s changed s')
      finish next [] k e = inr (
        [],
        s,
        rw (e, mark_seen) refl,
        record {
          marked = all_seen-none s.entries (sym k.reported);
          reported = k.reported;
          accepted = inl refl;
          kept = g;
        },
      )
      finish next (x ∷ changed) k e =
          let some_changed : (length (x ∷ changed) == 0) ≡ false = ground arith in
          inr (
            x ∷ changed,
            schedule (record s { entries = next }),
            rw (e, mark_seen) (rw some_changed refl),
            record {
              marked = k.marked;
              reported = k.reported;
              accepted = inr (
                  (validate_ids_iff (x ∷ changed) max_history_entries).1
                    (omega arith, omega (arith, k.fewer, g.bounded), k.distinct, k.named));
              kept = record {
                good = record { distinct = rw k.same_ids g.good.distinct; entries = k.good };
                bounded = omega (arith, k.same_length, g.bounded);
              };
            },
          )

  -- What MarkSeen returns: a list that is empty, or one that the protocol accepts.
  abbrev pub Seen : Result HistoryFault (List ℕ) → Type 0
  Seen (err e) = Unit {0}
  Seen (ok changed) = (changed ≡ []) ⊎ (Validate.validate_ids changed max_history_entries ≡ none)

  pub mark_seen-IsStore :
      (s : Store)
      → IsStore s
      → Seen (mark_seen codec wanted s).0 × IsStore (mark_seen codec wanted s).1
  mark_seen-IsStore s g = elim (mark_seen-exact s g) [
    | inl (culprit, e) ↦ subst (λ r. Seen r.0 × IsStore r.1) (sym e) (tt, g)
    | inr (changed, s', e, a) ↦ subst (λ r. Seen r.0 × IsStore r.1) (sym e) (a.accepted, a.kept)
  ]
