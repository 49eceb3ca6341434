-- ===== src/Notify/Model.antt =====
-- internal/notify/model.go.
use sysc_notify.Base.{
  ℕ, zero, suc, ◌+◌, ◌^◌, ◌%◌, Bool, not, ◌&&◌, List, Option, none, some, Text, ℤ, contains, length,
  ◌==◌, if◌then◌else◌,
}
use sysc_notify.Protocol.Types.{Action, Image, Process}

pub record Sender : Type 0 where
  pub name : Text
  pub pid : ℕ
  pub lineage : List Process

pub record Candidate : Type 0 where
  pub app_name : Text
  pub app_icon : Text
  pub summary : Text
  pub body : Text
  pub replaces_id : ℕ
  pub actions : List Action
  pub urgency : ℕ
  pub expire_timeout : ℤ
  pub transient : Bool
  pub private : Bool
  pub resident : Bool
  pub desktop_entry : Text
  pub category : Text
  pub value : Option ℤ
  pub inline_reply : Bool
  pub reply_placeholder : Text
  pub image : Option Image
  pub image_rejected : Bool
  pub sender : Sender

-- `next++` on a uint32, skipping 0.
unfoldable pub next_id : ℕ → ℕ
next_id n = let m = (n + 1) % 2 ^ 32 in if m == 0 then 1 else m

-- The search for an id that is not live. The fuel bounds the rounds; `none` is a search that has
-- not ended.
unfoldable pub resolve_loop : ℕ → ℕ → List ℕ → Option (ℕ × ℕ)
resolve_loop zero next live = none
resolve_loop (suc fuel) next live =
    let rest = resolve_loop fuel (next_id next) live in
    if contains next live then rest else some (next, next_id next)

-- One round more than there are live ids: `Fresh` shows that this is enough.
unfoldable pub resolve_id : ℕ → ℕ → List ℕ → Option (ℕ × ℕ)
resolve_id replaces_id next live =
    if not (replaces_id == 0) && contains replaces_id live
    then some (replaces_id, next)
    else resolve_loop (suc (length live)) (if next == 0 then 1 else next) live
