-- ===== src/Notify/Normalize/Checked.antt =====
-- normalize.go: what the owner's check says of a candidate that the hints have left.
use sysc_notify.Base.{
  ℕ, ◌≤◌, ◌≡◌, refl, ap, ◌∙◌, Bool, true, false, not, List, [], Option, none, some, Text, length,
  leb, ◌==◌, ◌then_check◌, reject, arith, Bool-cases, Option-cases, inl, inr, ◌⊎◌, check_all,
  is_some,
}
use Prim.Native.String.{String}
use sysc_notify.Protocol.Types.{
  Action, max_body_bytes, max_action_pairs, max_lineage_entries, urgency_critical,
}
use sysc_notify.Protocol.Validate.{
  Fault, validate_text, check_actions, optional_image, value_out_of_range, check_process,
}
use sysc_notify.Protocol.Validate
use sysc_notify.Notify.Model.{Sender, Candidate}
use sysc_notify.Notify.Normalize.{Url, fine_text}
use sysc_notify.State.Lifetimes.{validate_candidate, notification_from_candidate}
use sysc_notify.Notify.Normalize.Hinted.{Clean}

text_none :
    (name : String) (t : Text)
    → fine_text t ≡ true
    → validate_text name t max_body_bytes true ≡ none
unfolding validate_text
text_none name t fine = ground (arith, fine)

text_some :
    (name : String) (t : Text)
    → fine_text t ≡ false
    → (fault : Fault) × (validate_text name t max_body_bytes true ≡ some fault)
unfolding validate_text
text_some name t bad = elim (Option-cases (validate_text name t max_body_bytes true)) [
  | inl fine ↦ ground (arith, bad, fine)
  | inr (fault, e) ↦ (fault, e)
]

some_first : (a b : Option Fault) (f : Fault) → a ≡ some f → (a then_check b) ≡ some f
some_first none b f e = ground (arith, e)
some_first (some g) b f e = e

some_later : (a b : Option Fault) (f : Fault) → a ≡ none → b ≡ some f → (a then_check b) ≡ some f
some_later none b f e later = later
some_later (some g) b f e later = ground (arith, e)

both_none : (a b : Option Fault) → a ≡ none → b ≡ none → (a then_check b) ≡ none
both_none a b first second = ground (arith, first, second)

not_rejected : {E : Type 0} (b : Bool) (e : E) → b ≡ false → reject b e ≡ none
not_rejected false e fine = refl
not_rejected true e fine = cc

module _ (parse_url : Text → Option Url) (from : Sender) (acts : List Action) (c : Candidate)
    (now : ℕ) (clean : Clean parse_url from acts c) (later : (now == 0) ≡ false)
    (checked : check_actions [] acts ≡ none) (few : length acts ≤ max_action_pairs)
    (short : length from.lineage ≤ max_lineage_entries)
    (lineage : check_all check_process from.lineage ≡ none) where
  notified :
      fine_text c.app_icon ≡ true
      → Validate.notification (notification_from_candidate 1 c now) ≡ none
  unfolding Validate.notification notification_from_candidate
  notified iconed =
      let k1 = clean.actions in
      let k2 = clean.sender in
      let urgent : not (leb c.urgency urgency_critical) ≡ false = ap not clean.urgent in
      both_none none _ refl (
        both_none _ _ (not_rejected _ _ urgent) (
          both_none _ _ (not_rejected _ _ later) (
            both_none _ _ (text_none _ _ clean.app) (
              both_none _ _ (text_none _ _ iconed) (
                both_none _ _ (text_none _ _ clean.entry) (
                  both_none _ _ (text_none _ _ clean.summary) (
                    both_none _ _ (text_none _ _ clean.body) (
                      both_none _ _ (text_none _ _ clean.category) (
                        both_none _ _ (text_none _ _ clean.placeholder) (
                          both_none _ _ (not_rejected _ _ (ground (arith, few, k1))) (
                            both_none _ _ (ap (check_actions []) k1 ∙ checked) (
                              both_none _ _ clean.pictured (
                                both_none _ _ (not_rejected _ _ clean.level) (
                                  both_none _ _ (not_rejected _ _ (ground (arith, short, k2))) (
                                    ap (λ s. check_all check_process s.lineage) k2
                                    ∙ lineage)))))))))))))))

  -- The owner's check of what the hints and actions leave.
  Clean-accepted : fine_text c.app_icon ≡ true → validate_candidate c now ≡ none
  unfolding validate_candidate
  Clean-accepted iconed = let fine = notified iconed in ground (arith, clean.timeout, fine)

  noticed :
      fine_text c.app_icon ≡ false
      → (fault : Fault) × (Validate.notification (notification_from_candidate 1 c now) ≡ some fault)
  unfolding Validate.notification notification_from_candidate
  noticed bad =
      let (fault, objects) = text_some "app icon" c.app_icon bad in
      let urgent : not (leb c.urgency urgency_critical) ≡ false = ap not clean.urgent in
      (
        fault,
        some_later none _ fault refl (
            some_later _ _ fault (not_rejected _ _ urgent) (
              some_later _ _ fault (not_rejected _ _ later)
                (some_later _ _ fault (text_none _ _ clean.app) (some_first _ _ fault objects)))),
      )

  -- An icon that is not fine is all that the owner can object to.
  Clean-refused : fine_text c.app_icon ≡ false → is_some (validate_candidate c now) ≡ true
  unfolding validate_candidate
  Clean-refused bad = let (fault, objects) = noticed bad in ground (arith, objects)

  pub Clean-checked :
      (validate_candidate c now ≡ none)
      ⊎ ((hint : Text) × (u : Url) × (parse_url hint ≡ some u)
          × (u.path ≡ c.app_icon)
          × (fine_text u.path ≡ false)
          × (is_some (validate_candidate c now) ≡ true))
  Clean-checked = elim (Bool-cases (fine_text c.app_icon)) [
    | inl fine ↦ inl (Clean-accepted fine)
    | inr bad ↦ elim clean.icon [
      | inl fine ↦ ground (arith, fine, bad)
      | inr (hint, u, parsed, same) ↦
          inr (hint, u, parsed, same, ap fine_text same ∙ bad, Clean-refused bad)
    ]
  ]
