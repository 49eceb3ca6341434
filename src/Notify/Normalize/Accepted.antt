-- ===== src/Notify/Normalize/Accepted.antt =====
-- normalize.go and the owner's check of what Normalize accepts.
use sysc_notify.Base.{
  ℕ, ◌+◌, ◌/◌, ◌%◌, ◌≤◌, ◌≡◌, refl, ap, sym, ◌∙◌, subst, Bool, true, false, not, ◌||◌, ◌&&◌, List,
  [], ◌∷◌, ◌++◌, none, some, Result, ok, err, Text, negsuc, ltb_ℤ, length, ltb, ◌==◌, ◌>>=◌, arith,
  Bool-cases, Option-cases, inl, inr, ◌⊎◌, check_all, is_some,
}
use mathlib.Core.List.{append-nil, append_assoc}
use sysc_notify.Base.Names.{contains_text}
use sysc_notify.Protocol.Types.{Action, max_action_pairs, max_lineage_entries}
use sysc_notify.Protocol.Validate.{
  Fault, validate_text, check_actions, optional_image, value_out_of_range, check_process,
}
use sysc_notify.Protocol.Validate
use sysc_notify.Notify.Model.{Candidate}
use sysc_notify.Notify.RawImage.InRange.{Writes}
use sysc_notify.Notify.Normalize.{
  Request, Url, Libraries, Refusal, too_many_hints, invalid_timeout, invalid_text, invalid_actions,
  max_hints, fine_text, apply_hints, add_action, add_actions, blank_candidate, with_hints,
  normalize,
}
use sysc_notify.State.Lifetimes.{validate_candidate}
use sysc_notify.Notify.Normalize.Hinted.{
  Clean, fine_empty, apply_hints-Clean, apply_image_hints-Clean,
}
use sysc_notify.Notify.Normalize.Checked.{Clean-checked}

-- What the loop over the actions builds.
add_actions-built :
    (lib : Libraries) (seen : List Text) (keys : List Text) (c c' : Candidate)
    → add_actions lib seen keys c ≡ ok c'
    → (acts : List Action) × (c'
        ≡ record c { actions = c.actions ++ acts; inline_reply = c'.inline_reply })
      × (check_actions seen acts ≡ none)
      × (length keys ≡ length acts + length acts)
unfolding add_actions check_actions
add_actions-built lib seen [] c c' e = ([], ground (arith, e, append-nil c.actions), refl, refl)
add_actions-built lib seen (key ∷ []) c c' e = ground (arith, e)
add_actions-built lib seen (key ∷ label ∷ rest) c c' e =
    let a : Action = record { key = key; label = label } in
    elim (Option-cases (Validate.action a)) [
      | inr (fault, bad) ↦ ground (arith, e, bad)
      | inl good ↦ elim (Bool-cases (contains_text key seen)) [
        | inl double ↦ ground (arith, e, good, double)
        | inr new ↦
            let onward : add_actions lib (key ∷ seen) rest (add_action lib a c) ≡ ok c' =
              ground (arith, e, good, new) in
            let (acts, made, checked, count) =
              add_actions-built lib (key ∷ seen) rest (add_action lib a c) c' onward in
            (
              a ∷ acts,
              ground (arith, made, append_assoc c.actions (a ∷ []) acts),
              ground (arith, good, new, checked),
              omega (arith, count),
            )
      ]
    ]

-- What comes of a call that Normalize accepts.
abbrev pub Outcome : Libraries → Request → ℕ → Type 0
Outcome lib r now =
    (c : Candidate) × (normalize lib r ≡ some (ok c))
    × ((validate_candidate c now ≡ none)
        ⊎ ((hint : Text) × (u : Url) × (lib.parse_url hint ≡ some u)
            × (u.path ≡ c.app_icon)
            × (fine_text u.path ≡ false)
            × (is_some (validate_candidate c now) ≡ true)))

-- Normalize ends, without a panic: it refuses the call, or its candidate passes the owner's check, or
-- its icon is a path that `url.Parse` decodes from some text, is not valid UTF-8 or longer than 16 KiB,
-- and the owner refuses it. The PNG encoder never yields an empty file, the sender's lineage is valid,
-- and the time is not zero.
pub normalize-accepted :
    (lib : Libraries) (r : Request) (now : ℕ)
    → Writes lib.encode_png
    → length r.sender.lineage ≤ max_lineage_entries
    → check_all check_process r.sender.lineage ≡ none
    → (now == 0) ≡ false
    → ((refusal : Refusal) × (normalize lib r ≡ some (err refusal))) ⊎ Outcome lib r now
unfolding normalize
normalize-accepted lib r now writes short lineage later =
    elim (Bool-cases (ltb max_hints (length r.hints))) [
      | inl many ↦ inl (too_many_hints, ground (arith, many))
      | inr hinted ↦ elim (Bool-cases (ltb_ℤ r.expire_timeout (negsuc 0))) [
        | inl bad ↦ inl (invalid_timeout, ground (arith, hinted, bad))
        | inr timed ↦ elim (Bool-cases texts) [
          | inr bad ↦ inl (invalid_text, ground (arith, hinted, timed, bad))
          | inl fine ↦ elim (Bool-cases unpaired) [
            | inl bad ↦ inl (invalid_actions, ground (arith, hinted, timed, fine, bad))
            | inr paired ↦
                onward (add_actions lib [] r.actions (blank_candidate lib r)) refl
                  (ground (arith, hinted, timed, fine, paired)) timed fine paired
          ]
        ]
      ]
    ]
  where
    texts : Bool
    texts =
        fine_text r.app_name
        && fine_text r.app_icon
        && fine_text r.summary
        && fine_text r.body
        && fine_text r.sender.name

    unpaired : Bool
    unpaired = not (length r.actions % 2 == 0) || ltb max_action_pairs (length r.actions / 2)

    onward :
        (res : Result Refusal Candidate)
        → add_actions lib [] r.actions (blank_candidate lib r) ≡ res
        → normalize lib r
          ≡ with_hints lib r.hints (add_actions lib [] r.actions (blank_candidate lib r))
        → ltb_ℤ r.expire_timeout (negsuc 0) ≡ false
        → texts ≡ true
        → unpaired ≡ false
        → ((refusal : Refusal) × (normalize lib r ≡ some (err refusal))) ⊎ Outcome lib r now
    onward (err refusal) made plain timed fine paired =
        inl (refusal, plain ∙ ap (with_hints lib r.hints) made)
    onward (ok c) made plain timed fine paired =
        let (acts, built, checked, count) =
          add_actions-built lib [] r.actions (blank_candidate lib r) c made in
        let start : Clean lib.parse_url r.sender acts c =
          subst (Clean lib.parse_url r.sender acts) (sym built) (record {
            sender = refl;
            actions = refl;
            timeout = timed;
            urgent = refl;
            app = ground (arith, fine);
            icon = inl (ground (arith, fine));
            summary = ground (arith, fine);
            body = ground (arith, fine);
            entry = fine_empty lib.parse_url r.sender acts;
            category = fine_empty lib.parse_url r.sender acts;
            placeholder = fine_empty lib.parse_url r.sender acts;
            level = refl;
            pictured = refl;
          }) in
        let (c', imaged, clean) =
          apply_image_hints-Clean lib.parse_url r.sender acts lib r.hints (apply_hints r.hints c)
            refl writes (apply_hints-Clean lib.parse_url r.sender acts r.hints c start) in
        inr (
          c',
          plain ∙ ap (with_hints lib r.hints) made ∙ ap (λ o. o >>= λ c. some (ok c)) imaged,
          Clean-checked lib.parse_url r.sender acts c' now clean later checked
              (ground (arith, paired, count)) short lineage,
        )
