-- ===== src/Notify/Normalize.antt =====
-- internal/notify/normalize.go: from the arguments of a Notify call to a candidate. `net/url` is a
-- parameter; the hints are a Go map, whose order of iteration is that of the list.
pub mod Hinted
pub mod Checked
pub mod Accepted
use sysc_notify.Base.{
  ℕ, suc, ◌+◌, ◌/◌, ◌%◌, ◌^◌, Bool, true, false, not, ◌||◌, ◌&&◌, List, [], ◌∷◌, ◌++◌, Option, none,
  some, Result, ok, err, Text, codes, text_eq, is_empty, valid_utf8, ℤ, pos, negsuc, ltb_ℤ, length,
  ltb, leb, ◌==◌, if◌then◌else◌, ◌>>=◌, is_some,
}
use sysc_notify.Base.Names
use sysc_notify.Base.Names.{contains_text}
use sysc_notify.Protocol.Types.{
  Action, max_body_bytes, max_action_pairs, urgency_normal, urgency_critical,
}
use sysc_notify.Protocol.Validate.{Fault}
use sysc_notify.Protocol.Validate
use sysc_notify.Notify.Model.{Sender, Candidate}
use sysc_notify.Notify.RawImage.{RawImage, Conversion, converted, refused, panics, normalize_image}

-- The dynamic types of a hint's value that the switch tells apart.
pub data HintValue : Type 0 where
  byte : ℕ → HintValue
  flag : Bool → HintValue
  string : Text → HintValue
  int32 : ℤ → HintValue
  raw : RawImage → HintValue
  other : HintValue

pub record Request : Type 0 where
  pub app_name : Text
  pub app_icon : Text
  pub summary : Text
  pub body : Text
  pub replaces_id : ℕ
  pub actions : List Text
  pub hints : List (Text × HintValue)
  pub expire_timeout : ℤ
  pub sender : Sender

-- `url.Parse`: the host and the decoded path.
pub record Url : Type 0 where
  pub host : Text
  pub path : Text

pub record Libraries : Type 0 where
  pub parse_url : Text → Option Url
  pub encode_png : ℕ → ℕ → List ℕ → Option Text

pub data Refusal : Type 0 where
  too_many_hints invalid_timeout invalid_text invalid_actions duplicate_key : Refusal
  invalid_action : Fault → Refusal

abbrev pub max_hints : ℕ
max_hints = 64

-- `validateString` with emptyOK, as every caller has it.
abbrev pub fine_text : Text → Bool
fine_text t = valid_utf8 t && not (ltb max_body_bytes (length t))

abbrev pub has_prefix : Text → Text → Bool
has_prefix [] t = true
has_prefix (x ∷ xs) [] = false
has_prefix (x ∷ xs) (y ∷ ys) = x == y && has_prefix xs ys

-- `filepath.IsAbs` on a Unix system.
abbrev is_abs : Text → Bool
is_abs t = has_prefix (codes "/") t

abbrev has_separator : Text → Bool
has_separator [] = false
has_separator (c ∷ cs) = c == 47 || c == 58 || has_separator cs

abbrev url_path : Option Url → Option Text
url_path none = none
url_path (some u) =
    if not (is_empty u.host) && not (text_eq u.host (codes "localhost"))
      || not (is_abs u.path)
      || text_eq u.path (codes "/")
    then none
    else some u.path

unfoldable pub image_path_icon : (Text → Option Url) → Text → Option Text
image_path_icon parse_url hint =
    if has_prefix (codes "file://") hint
    then url_path (parse_url hint)
    else if is_abs hint
    then some hint
    else if text_eq hint (codes ".") || text_eq hint (codes "..") || has_separator hint
    then none
    else some hint

abbrev pub with_urgency : HintValue → Candidate → Candidate
with_urgency (byte u) c = if leb u urgency_critical then record c { urgency = u } else c
with_urgency _ c = c

-- `value.(bool)`, false when it is something else.
abbrev as_flag : HintValue → Bool
as_flag (flag b) = b
as_flag _ = false

-- `value.(string)` that passes `validateString`.
abbrev pub as_text : HintValue → Option Text
as_text (string t) = if fine_text t then some t else none
as_text _ = none

abbrev pub with_entry : Option Text → Candidate → Candidate
with_entry none c = c
with_entry (some t) c = record c { desktop_entry = t }

abbrev pub with_category : Option Text → Candidate → Candidate
with_category none c = c
with_category (some t) c = record c { category = t }

abbrev pub with_placeholder : Option Text → Candidate → Candidate
with_placeholder none c = c
with_placeholder (some t) c = record c { inline_reply = true; reply_placeholder = t }

abbrev pub with_value : HintValue → Candidate → Candidate
with_value (int32 v) c =
    if not (ltb_ℤ v (pos 0)) && not (ltb_ℤ (pos 100) v) then record c { value = some v } else c
with_value _ c = c

-- The switch over the hint's name.
unfoldable pub apply_hint : Text → HintValue → Candidate → Candidate
apply_hint key v c =
    if text_eq key (codes "urgency")
    then with_urgency v c
    else if text_eq key (codes "transient")
    then record c { transient = as_flag v }
    else if text_eq key (codes "x-sysc-private")
    then record c { private = as_flag v }
    else if text_eq key (codes "resident")
    then record c { resident = as_flag v }
    else if text_eq key (codes "desktop-entry")
    then with_entry (as_text v) c
    else if text_eq key (codes "category")
    then with_category (as_text v) c
    else if text_eq key (codes "value")
    then with_value v c
    else if text_eq key (codes "x-kde-reply-placeholder-text")
    then with_placeholder (as_text v) c
    else c

unfoldable pub apply_hints : List (Text × HintValue) → Candidate → Candidate
unfolding apply_hint
apply_hints [] c = c
apply_hints ((key, v) ∷ rest) c = apply_hints rest (apply_hint key v c)

abbrev pub rejected : Candidate → Candidate
rejected c = record c { image_rejected = true }

-- `none` is a panic.
abbrev pub with_image : Conversion → Candidate → Option Candidate
with_image (converted i) c = some (record c { image = some i; app_icon = [] })
with_image (refused fault) c = some (rejected c)
with_image panics c = none

abbrev pub with_icon : Option Text → Candidate → Candidate
with_icon none c = rejected c
with_icon (some icon) c = record c { app_icon = icon }

abbrev pub with_path : (Text → Option Url) → Option Text → Candidate → Candidate
with_path parse_url none c = rejected c
with_path parse_url (some path) c =
    if is_empty path then c else with_icon (image_path_icon parse_url path) c

module _ (lib : Libraries) where
  abbrev pub from_image : HintValue → Candidate → Option Candidate
  from_image (raw r) c = with_image (normalize_image lib.encode_png r) c
  from_image _ c = some (rejected c)

  abbrev pub from_path : Option HintValue → Candidate → Candidate
  from_path none c = c
  from_path (some v) c = with_path lib.parse_url (as_text v) c

  -- The image-data hint, if it is there, hides the image-path hint.
  abbrev pub prefer_image : Option HintValue → Option HintValue → Candidate → Option Candidate
  prefer_image (some v) path c = from_image v c
  prefer_image none path c = some (from_path path c)

  unfoldable pub apply_image_hints : List (Text × HintValue) → Candidate → Option Candidate
  unfolding image_path_icon normalize_image Names.get
  apply_image_hints hints c =
      prefer_image (Names.get (codes "image-data") hints) (Names.get (codes "image-path") hints) c

  abbrev pub add_action : Action → Candidate → Candidate
  add_action a c = record c {
    actions = c.actions ++ a ∷ [];
    inline_reply = c.inline_reply || text_eq a.key (codes "inline-reply");
  }

  -- The loop over the pairs, with the keys seen. An odd last element is refused before the loop.
  unfoldable pub add_actions : List Text → List Text → Candidate → Result Refusal Candidate
  unfolding Validate.action
  add_actions seen [] c = ok c
  add_actions seen (key ∷ []) c = err invalid_actions
  add_actions seen (key ∷ label ∷ rest) c =
      let a : Action = record { key = key; label = label } in
      let after = add_actions (key ∷ seen) rest (add_action a c) in
      elim (Validate.action a) [
        | some fault ↦ err (invalid_action fault)
        | none ↦ if contains_text key seen then err duplicate_key else after
      ]

  abbrev pub blank_candidate : Request → Candidate
  blank_candidate r = record {
    app_name = r.app_name;
    app_icon = r.app_icon;
    summary = r.summary;
    body = r.body;
    replaces_id = r.replaces_id;
    actions = [];
    urgency = urgency_normal;
    expire_timeout = r.expire_timeout;
    transient = false;
    private = false;
    resident = false;
    desktop_entry = [];
    category = [];
    value = none;
    inline_reply = false;
    reply_placeholder = [];
    image = none;
    image_rejected = false;
    sender = r.sender;
  }

  abbrev pub with_hints :
      List (Text × HintValue) → Result Refusal Candidate → Option (Result Refusal Candidate)
  with_hints hints (err refusal) = some (err refusal)
  with_hints hints (ok c) = apply_image_hints hints (apply_hints hints c) >>= λ c. some (ok c)

  -- The candidate, or why there is none; `none` is a panic.
  unfoldable pub normalize : Request → Option (Result Refusal Candidate)
  unfolding apply_hints apply_image_hints add_actions
  normalize r =
      if ltb max_hints (length r.hints)
      then some (err too_many_hints)
      else if ltb_ℤ r.expire_timeout (negsuc 0)
      then some (err invalid_timeout)
      else if not (
          fine_text r.app_name
          && fine_text r.app_icon
          && fine_text r.summary
          && fine_text r.body
          && fine_text r.sender.name)
      then some (err invalid_text)
      else if not (length r.actions % 2 == 0) || ltb max_action_pairs (length r.actions / 2)
      then some (err invalid_actions)
      else with_hints r.hints (add_actions [] r.actions (blank_candidate r))
