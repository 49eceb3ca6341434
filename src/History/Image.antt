-- ===== src/History/Image.antt =====
-- internal/history/image.go (PrepareImage and what it calls, imageReference) and schema.go's types:
-- the image of an entry, and the entry as it stands in history.json. PNG, SHA-256 and the size of
-- the JSON text of an entry are the standard library's, and a parameter.
use sysc_notify.Base.{
  ℕ, ◌*◌, ◌+◌, ◌/◌, max, Bool, not, ◌||◌, Option, none, some, Text, codes, ltb, ◌==◌, if◌then◌else◌,
  Result, ok, err,
}
use sysc_notify.Protocol.Types.{Image}
use sysc_notify.Protocol.Validate.{Fault}
use sysc_notify.Protocol.Validate

pub record DiskImage : Type 0 where
  pub sha256 : Text
  pub width : ℕ
  pub height : ℕ

pub record DiskEntry : Type 0 where
  pub id : ℕ
  pub seen : Bool
  pub app_name : Text
  pub app_icon : Text
  pub desktop_entry : Text
  pub summary : Text
  pub body : Text
  pub urgency : ℕ
  pub category : Text
  pub timestamp : ℕ
  pub image : Option DiskImage

-- A picture as package image shows it: its bounds, and the color (red, green, blue, alpha) at a
-- point of them.
pub record Bitmap : Type 0 where
  pub min_x : ℕ
  pub min_y : ℕ
  pub dx : ℕ
  pub dy : ℕ
  pub at : ℕ → ℕ → ℕ × ℕ × ℕ × ℕ

-- The standard library's part. `measure` is `len(json.Marshal(entry))`, and `overhead` that of the
-- document with no entries and its trailing newline.
pub record Codec : Type 0 where
  pub decode_png : Text → Option Bitmap
  pub encode_png : Bitmap → Option Text
  pub sha256_hex : Text → Text
  pub measure : DiskEntry → Option ℕ
  pub overhead : ℕ

-- `fileInfo`, which only the writer of the image files sets and reads, is left out.
pub record ImageMeta : Type 0 where
  pub digest : Text
  pub width : ℕ
  pub height : ℕ

pub record PreparedImage : Type 0 where
  pub image : Option Image
  pub meta : Option ImageMeta

pub data HistoryFault : Type 0 where
  invalid : Fault → HistoryFault
  decode_image image_dimensions encode_image measure_entry : HistoryFault

abbrev pub history_image_long_edge : ℕ
history_image_long_edge = 96

unfoldable pub scaled_edge : ℕ → ℕ → ℕ
scaled_edge edge longest =
    if ltb history_image_long_edge longest
    then max 1 (edge * history_image_long_edge / longest)
    else edge

-- Nearest neighbour, from the decoded bounds to `width` × `height`.
unfoldable pub downscale : Bitmap → ℕ → ℕ → Bitmap
downscale b width height = record {
  min_x = 0;
  min_y = 0;
  dx = width;
  dy = height;
  at = λ x y. b.at (b.min_x + x * b.dx / width) (b.min_y + y * b.dy / height);
}

module _ (codec : Codec) where
  encode_scaled : Bitmap → ℕ → ℕ → Result HistoryFault (Option Image)
  encode_scaled b width height = elim (codec.encode_png (downscale b width height)) [
    | none ↦ err encode_image
    | some bytes ↦ ok (
        some (record {
          media_type = codes "image/png";
          width = width;
          height = height;
          contents = bytes;
        }))
  ]

  rescale : Image → Bitmap → Result HistoryFault (Option Image)
  rescale source b =
      if not (b.dx == source.width) || not (b.dy == source.height)
      then err image_dimensions
      else encode_scaled b (scaled_edge b.dx (max b.dx b.dy)) (scaled_edge b.dy (max b.dx b.dy))

  decode_source : Image → Result HistoryFault (Option Image)
  decode_source source = elim (codec.decode_png source.contents) [
    | none ↦ err decode_image
    | some b ↦ rescale source b
  ]

  unfoldable pub normalize_history_image : Option Image → Result HistoryFault (Option Image)
  unfolding decode_source rescale encode_scaled
  normalize_history_image none = ok none
  normalize_history_image (some source) = elim (Validate.image source) [
    | some fault ↦ err (invalid fault)
    | none ↦ decode_source source
  ]

  unfoldable pub new_image_meta : Image → ImageMeta
  new_image_meta source = record {
    digest = codec.sha256_hex source.contents;
    width = source.width;
    height = source.height;
  }

  unfoldable pub prepare_image : Option Image → Result HistoryFault PreparedImage
  unfolding new_image_meta
  prepare_image source = elim (normalize_history_image source) [
    | err fault ↦ err fault
    | ok none ↦ ok (record { image = none; meta = none })
    | ok (some image) ↦ ok (record { image = some image; meta = some (new_image_meta image) })
  ]

unfoldable pub image_reference : Option ImageMeta → Option DiskImage
image_reference none = none
image_reference (some meta) =
    some (record { sha256 = meta.digest; width = meta.width; height = meta.height })
