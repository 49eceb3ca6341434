-- ===== src/Tests/Images.antt =====
-- The theorems on the conversion of images and on Normalize, applied to a small picture and a call
-- with hints, and an icon whose path is not valid UTF-8.
use sysc_notify.Base.{
  ℕ, ◌≡◌, refl, ◌⊎◌, valid_utf8, is_some, Bool, true, false, List, [], ◌∷◌, Option, none, some,
  Result, ok, err, Text, codes, pos, negsuc, arith,
}
use sysc_notify.Protocol.Validate
use sysc_notify.Protocol.Types.{Image}
use sysc_notify.Notify.Model.{Candidate}
use sysc_notify.Notify.RawImage.{RawImage, ImageFault, converted, refused, normalize_image}
use sysc_notify.Notify.RawImage.InRange.{Writes, normalize_image-Sane}
use sysc_notify.Notify.Normalize.{string, byte, Request, Libraries, Refusal, normalize}
use sysc_notify.Notify.Normalize.Accepted.{Outcome, normalize-accepted}
use sysc_notify.State.Lifetimes.{validate_candidate}

-- Two by one pixels, without padding.
abbrev picture : RawImage
picture = record {
  width = pos 2;
  height = pos 1;
  row_stride = pos 6;
  has_alpha = false;
  bits_per_sample = pos 8;
  channels = pos 3;
  contents = 1 ∷ 2 ∷ 3 ∷ 4 ∷ 5 ∷ 6 ∷ [];
}

abbrev signed : ℕ → ℕ → List ℕ → Option Text
signed dw dh pixels = some (137 ∷ pixels)

signed-Writes : Writes signed
signed-Writes dw dh pixels bytes e = ground (arith, e)

normalize_image-Sane_example :
    ((fault : ImageFault) × (normalize_image signed picture ≡ refused fault))
    ⊎ ((i : Image) × (normalize_image signed picture ≡ converted i) × (Validate.image i ≡ none))
normalize_image-Sane_example = normalize_image-Sane signed picture signed-Writes

abbrev icons : Text → Libraries
icons path = record {
  parse_url = λ hint. some (record { host = []; path = path });
  encode_png = signed;
}

abbrev request : Request
request = record {
  app_name = codes "mail";
  app_icon = [];
  summary = codes "hi";
  body = [];
  replaces_id = 0;
  actions = codes "default" ∷ [] ∷ [];
  hints = (codes "urgency", byte 2) ∷ (codes "image-path", string (codes "file:///a.png")) ∷ [];
  expire_timeout = negsuc 0;
  sender = record { name = codes ":1.7"; pid = 9; lineage = [] };
}

normalize-accepted_example :
    ((refusal : Refusal) × (normalize (icons (47 ∷ 255 ∷ [])) request ≡ some (err refusal)))
    ⊎ Outcome (icons (47 ∷ 255 ∷ [])) request 5
normalize-accepted_example =
    normalize-accepted (icons (47 ∷ 255 ∷ [])) request 5 signed-Writes (omega arith) refl refl

-- A path that decodes to a byte 255: Normalize keeps it, and the owner refuses the candidate.
abbrev accepted : Option (Result Refusal Candidate) → Option Candidate
accepted (some (ok c)) = some c
accepted _ = none

abbrev icon_and_check : Option Candidate → Option (Text × Bool)
icon_and_check none = none
icon_and_check (some c) = some (c.app_icon, is_some (validate_candidate c 5))

bad_icon_refused :
    icon_and_check (accepted (normalize (icons (47 ∷ 255 ∷ [])) request))
    ≡ some (47 ∷ 255 ∷ [], true)
unfolding normalize valid_utf8 Validate.validate_text validate_candidate Validate.notification
bad_icon_refused = refl
