-- ===== src/Protocol/Validate/Ids.antt =====
-- When a list of ids is accepted.
use sysc_notify.Base.{
  ℕ, ◌≤◌, ◌<◌, ◌≡◌, refl, ◌≢◌, ◌↔◌, ◌||◌, List, [], ◌∷◌, none, arith, length, contains, Distinct,
  All, Apart, Apart-cons, Apart-uncons, Apart-nil, ltb, ◌==◌, reject, then_check-none,
}
use sysc_notify.Protocol.Validate.{zero_id, duplicate_id, id_list_length, check_ids, validate_ids}

abbrev pub Named : List ℕ → Type 0
Named = All (λ id. id ≢ 0)

check_ids_pass :
    (seen ids : List ℕ) → Apart seen ids → Distinct ids → Named ids → check_ids seen ids ≡ none
unfolding check_ids
check_ids_pass seen [] a d n = refl
check_ids_pass seen (id ∷ ids) a d n =
    ground (arith, check_ids_pass (id ∷ seen) ids (Apart-cons id seen ids a.1 d.0) d.1 n.1)

check_ids_sound :
    (seen ids : List ℕ) → check_ids seen ids ≡ none → Apart seen ids × Distinct ids × Named ids
unfolding check_ids
check_ids_sound seen [] h = (tt, tt, tt)
check_ids_sound seen (id ∷ ids) h =
    let (zero_or_seen, rest) = then_check-none (reject (id == 0) zero_id) _ h in
    let (again, later) = then_check-none (reject (contains id seen) duplicate_id) _ rest in
    let (apart, distinct, named) = check_ids_sound (id ∷ seen) ids later in
    let (free, apart') = Apart-uncons id seen ids apart in
    ((ground arith, apart'), (free, distinct), (ground arith, named))

-- An id list is accepted exactly if it is not empty, not longer than the limit, without 0 and
-- without repetitions.
pub validate_ids_iff :
    (ids : List ℕ) (limit : ℕ)
    → (validate_ids ids limit ≡ none)
      ↔ ((0 < length ids) × (length ids ≤ limit) × Distinct ids × Named ids)
unfolding validate_ids
validate_ids_iff ids limit = (
  λ h.
      let (size, each) =
        then_check-none (reject (length ids == 0 || ltb limit (length ids)) id_list_length) _ h in
      let (apart, distinct, named) = check_ids_sound [] ids each in
      (ground arith, ground arith, distinct, named),
  λ (some_id, few, distinct, named).
      ground (arith, check_ids_pass [] ids (Apart-nil ids) distinct named),
)
