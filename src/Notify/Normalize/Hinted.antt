-- ===== src/Notify/Normalize/Hinted.antt =====
-- normalize.go: what the hints leave of a candidate.
use sysc_notify.Base.{
  ◌≡◌, refl, ap, sym, subst, Bool, true, false, List, [], ◌∷◌, Option, none, some, Text, codes,
  text_eq, valid_utf8, negsuc, ltb_ℤ, leb, if◌then◌else◌, arith, Bool-cases, Option-cases, inl, inr,
  ◌⊎◌,
}
use sysc_notify.Base.Names
use sysc_notify.Base.Names.{contains_text}
use sysc_notify.Protocol.Types.{Action, urgency_critical}
use sysc_notify.Protocol.Validate.{optional_image, value_out_of_range}
use sysc_notify.Notify.Model.{Sender, Candidate}
use sysc_notify.Notify.RawImage.InRange.{Writes, normalize_image-Sane}
use sysc_notify.Notify.Normalize.{
  HintValue, raw, Url, Libraries, fine_text, has_prefix, image_path_icon, with_urgency, as_text,
  with_entry, with_category, with_placeholder, with_value, apply_hint, apply_hints, rejected,
  with_image, with_path, from_image, from_path, prefer_image, apply_image_hints,
}

-- A path that `url.Parse` decodes from a hint.
abbrev pub Decoded : (Text → Option Url) → Text → Type 0
Decoded parse_url icon = (hint : Text) × (u : Url) × (parse_url hint ≡ some u) × (u.path ≡ icon)

-- Where an icon comes from.
abbrev pub Traced : (Text → Option Url) → Text → Type 0
Traced parse_url icon = (fine_text icon ≡ true) ⊎ Decoded parse_url icon

-- What the hints keep of a candidate.
pub record Clean (parse_url : Text → Option Url) (from : Sender) (acts : List Action)
    (c : Candidate) : Type 0 where
  pub sender : c.sender ≡ from
  pub actions : c.actions ≡ acts
  pub timeout : ltb_ℤ c.expire_timeout (negsuc 0) ≡ false
  pub urgent : leb c.urgency urgency_critical ≡ true
  pub app : fine_text c.app_name ≡ true
  pub icon : Traced parse_url c.app_icon
  pub summary : fine_text c.summary ≡ true
  pub body : fine_text c.body ≡ true
  pub entry : fine_text c.desktop_entry ≡ true
  pub category : fine_text c.category ≡ true
  pub placeholder : fine_text c.reply_placeholder ≡ true
  pub level : value_out_of_range c.value ≡ false
  pub pictured : optional_image c.image ≡ none

module _ (parse_url : Text → Option Url) (from : Sender) (acts : List Action) where
  as_text-fine : (v : HintValue) (t : Text) → as_text v ≡ some t → fine_text t ≡ true
  as_text-fine v t e = ground (arith, e)

  entry-Clean :
      (t : Option Text) (c : Candidate)
      → ((s : Text) → t ≡ some s → fine_text s ≡ true)
      → Clean parse_url from acts c
      → Clean parse_url from acts (with_entry t c)
  entry-Clean none c fine clean = clean
  entry-Clean (some t) c fine clean = ground (arith, fine t refl)

  category-Clean :
      (t : Option Text) (c : Candidate)
      → ((s : Text) → t ≡ some s → fine_text s ≡ true)
      → Clean parse_url from acts c
      → Clean parse_url from acts (with_category t c)
  category-Clean none c fine clean = clean
  category-Clean (some t) c fine clean = ground (arith, fine t refl)

  placeholder-Clean :
      (t : Option Text) (c : Candidate)
      → ((s : Text) → t ≡ some s → fine_text s ≡ true)
      → Clean parse_url from acts c
      → Clean parse_url from acts (with_placeholder t c)
  placeholder-Clean none c fine clean = clean
  placeholder-Clean (some t) c fine clean = ground (arith, fine t refl)

  urgency-Clean :
      (v : HintValue) (c : Candidate)
      → Clean parse_url from acts c
      → Clean parse_url from acts (with_urgency v c)
  urgency-Clean v c clean = ground arith

  value-Clean :
      (v : HintValue) (c : Candidate)
      → Clean parse_url from acts c
      → Clean parse_url from acts (with_value v c)
  value-Clean v c clean = ground arith

  either-Clean :
      (b : Bool) (x y : Candidate)
      → Clean parse_url from acts x
      → Clean parse_url from acts y
      → Clean parse_url from acts (if b then x else y)
  either-Clean true x y first second = first
  either-Clean false x y first second = second

  apply_hint-Clean :
      (key : Text) (v : HintValue) (c : Candidate)
      → Clean parse_url from acts c
      → Clean parse_url from acts (apply_hint key v c)
  unfolding apply_hint
  apply_hint-Clean key v c clean =
      either-Clean (text_eq key (codes "urgency")) _ _ (urgency-Clean v c clean) (
        either-Clean (text_eq key (codes "transient")) _ _ (ground arith) (
          either-Clean (text_eq key (codes "x-sysc-private")) _ _ (ground arith) (
            either-Clean (text_eq key (codes "resident")) _ _ (ground arith) (
              either-Clean (text_eq key (codes "desktop-entry")) _ _
                (entry-Clean (as_text v) c (as_text-fine v) clean)
                (either-Clean (text_eq key (codes "category")) _ _
                  (category-Clean (as_text v) c (as_text-fine v) clean)
                  (either-Clean (text_eq key (codes "value")) _ _ (value-Clean v c clean) (
                    either-Clean (text_eq key (codes "x-kde-reply-placeholder-text")) _ _
                      (placeholder-Clean (as_text v) c (as_text-fine v) clean) clean)))))))

  pub apply_hints-Clean :
      (hints : List (Text × HintValue)) (c : Candidate)
      → Clean parse_url from acts c
      → Clean parse_url from acts (apply_hints hints c)
  unfolding apply_hints
  apply_hints-Clean [] c clean = clean
  apply_hints-Clean ((key, v) ∷ hints) c clean =
      apply_hints-Clean hints (apply_hint key v c) (apply_hint-Clean key v c clean)

  pub fine_empty : fine_text [] ≡ true
  unfolding valid_utf8
  fine_empty = refl

  icon-Traced :
      (path icon : Text)
      → fine_text path ≡ true
      → image_path_icon parse_url path ≡ some icon
      → Traced parse_url icon
  unfolding image_path_icon
  icon-Traced path icon fine e = elim (Bool-cases (has_prefix (codes "file://") path)) [
    | inr plain ↦ inl (ground (arith, fine, e, plain))
    | inl file ↦ elim (Option-cases (parse_url path)) [
      | inl bad ↦ ground (arith, e, file, bad)
      | inr (u, parsed) ↦ inr (path, u, parsed, ground (arith, e, file, parsed))
    ]
  ]

  iconed-Clean :
      (icon : Text) (c : Candidate)
      → Traced parse_url icon
      → Clean parse_url from acts c
      → Clean parse_url from acts (record c { app_icon = icon })
  iconed-Clean icon c traced clean = record {
    sender = clean.sender;
    actions = clean.actions;
    timeout = clean.timeout;
    urgent = clean.urgent;
    app = clean.app;
    icon = traced;
    summary = clean.summary;
    body = clean.body;
    entry = clean.entry;
    category = clean.category;
    placeholder = clean.placeholder;
    level = clean.level;
    pictured = clean.pictured;
  }

  path-Clean :
      (path : Option Text) (c : Candidate)
      → ((s : Text) → path ≡ some s → fine_text s ≡ true)
      → Clean parse_url from acts c
      → Clean parse_url from acts (with_path parse_url path c)
  path-Clean none c fine clean = ground arith
  path-Clean (some path) c fine clean = elim (Option-cases (image_path_icon parse_url path)) [
    | inl bad ↦ ground (arith, bad)
    | inr (icon, e) ↦
        let iconed = iconed-Clean icon c (icon-Traced path icon (fine path refl) e) clean in
        ground (arith, e, iconed)
  ]

  image-Clean :
      (lib : Libraries) (v : HintValue) (c : Candidate)
      → Writes lib.encode_png
      → Clean parse_url from acts c
      → (c' : Candidate) × (from_image lib v c ≡ some c') × Clean parse_url from acts c'
  image-Clean lib (raw r) c writes clean = elim (normalize_image-Sane lib.encode_png r writes) [
    | inl (fault, e) ↦ (rejected c, ap (λ k. with_image k c) e, ground arith)
    | inr (i, e, valid) ↦ (
      record c { image = some i; app_icon = [] },
      ap (λ k. with_image k c) e,
      iconed-Clean [] (record c { image = some i }) (inl fine_empty) (ground (arith, valid)),
    )
  ]
  image-Clean lib _ c writes clean = (rejected c, refl, ground arith)

  pub apply_image_hints-Clean :
      (lib : Libraries) (hints : List (Text × HintValue)) (c : Candidate)
      → lib.parse_url ≡ parse_url
      → Writes lib.encode_png
      → Clean parse_url from acts c
      → (c' : Candidate) × (apply_image_hints lib hints c ≡ some c') × Clean parse_url from acts c'
  unfolding apply_image_hints
  apply_image_hints-Clean lib hints c same writes clean =
      preferred (Names.get (codes "image-data") hints) (Names.get (codes "image-path") hints)
    where
      found_path : (v : Option HintValue) → Clean parse_url from acts (from_path lib v c)
      found_path none = clean
      found_path (some v) =
          subst (λ p. Clean parse_url from acts (with_path p (as_text v) c)) (sym same)
            (path-Clean (as_text v) c (as_text-fine v) clean)

      preferred :
          (image path : Option HintValue)
          → (c' : Candidate) × (prefer_image lib image path c ≡ some c')
            × Clean parse_url from acts c'
      preferred none path = (from_path lib path c, refl, found_path path)
      preferred (some v) path = image-Clean lib v c writes clean
