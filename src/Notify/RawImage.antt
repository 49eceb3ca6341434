-- ===== src/Notify/RawImage.antt =====
-- internal/notify/image.go: the raw image of a hint, its checks and its conversion to a wire image. An
-- int32 is an integer; the products below stay within int64, which the source computes them in. PNG is
-- the standard library's, and a parameter.
pub mod InRange
use sysc_notify.Base.{
  ℕ, zero, suc, ◌+◌, ◌-◌, ◌*◌, ◌/◌, ◌^◌, max, Bool, true, false, not, ◌||◌, ◌&&◌, List, [], ◌∷◌,
  ◌++◌, Option, none, some, Text, codes, ℤ, pos, negsuc, pos_part, ltb_ℤ, length, ltb, ◌==◌,
  if◌then◌else◌, reject, ◌then_check◌, ◌>>=◌,
}
use sysc_notify.Protocol.Types.{Image, max_wire_image_long_edge, max_wire_image_bytes}

pub record RawImage : Type 0 where
  pub width : ℤ
  pub height : ℤ
  pub row_stride : ℤ
  pub has_alpha : Bool
  pub bits_per_sample : ℤ
  pub channels : ℤ
  pub contents : Text

pub data ImageFault : Type 0 where
  dimensions format stride data_length encoding wire_limit : ImageFault

abbrev pub max_source_image_dimension : ℕ
max_source_image_dimension = 4096

abbrev pub max_source_image_bytes : ℕ
max_source_image_bytes = 16 * 2 ^ 20

abbrev pub equals : ℤ → ℕ → Bool
equals (pos m) n = m == n
equals (negsuc m) n = false

-- The numbers of a raw image, which are positive once it is valid.
abbrev pub w : RawImage → ℕ
w r = pos_part r.width

abbrev pub h : RawImage → ℕ
h r = pos_part r.height

abbrev pub row : RawImage → ℕ
row r = pos_part r.row_stride

abbrev pub samples : RawImage → ℕ
samples r = pos_part r.channels

unfoldable pub validate : RawImage → Option ImageFault
validate r =
    reject
      (ltb_ℤ r.width (pos 1)
        || ltb_ℤ r.height (pos 1)
        || ltb_ℤ (pos max_source_image_dimension) r.width
        || ltb_ℤ (pos max_source_image_dimension) r.height)
      dimensions
    then_check reject
        (not (equals r.bits_per_sample 8)
          || not (equals r.channels 3) && not (equals r.channels 4)
          || r.has_alpha && not (equals r.channels 4))
        format
    then_check reject (ltb_ℤ r.row_stride (pos 1) || ltb (row r) (w r * samples r)) stride
    then_check reject
        (ltb max_source_image_bytes (row r * h r)
          || ltb max_source_image_bytes (w r * h r * 4)
          || ltb (length r.contents) (row r * (h r - 1) + w r * samples r)
          || ltb (row r * h r) (length r.contents))
        data_length

unfoldable pub fitted_edge : ℕ → ℕ → ℕ
fitted_edge edge longest =
    if ltb max_wire_image_long_edge longest
    then max 1 (edge * max_wire_image_long_edge / longest)
    else edge

abbrev pub read : List ℕ → ℕ → Option ℕ
read [] i = none
read (b ∷ bs) zero = some b
read (b ∷ bs) (suc i) = read bs i

-- The offset of the source pixel for the point `x`, `y` of a `dw` × `dh` picture.
abbrev pub source_at : RawImage → ℕ → ℕ → ℕ → ℕ → ℕ
source_at r dw dh y x = y * h r / dh * row r + x * w r / dw * samples r

abbrev alpha_at : RawImage → ℕ → Option ℕ
alpha_at r source = if r.has_alpha then read r.contents (source + 3) else some 255

-- The four bytes of a pixel; `none` is a read past the end of the data, which panics.
unfoldable pub pixel : RawImage → ℕ → ℕ → ℕ → ℕ → Option (List ℕ)
pixel r dw dh y x =
    let source = source_at r dw dh y x in
    read r.contents source >>= λ red. read r.contents (source + 1) >>= λ green.
    read r.contents (source + 2) >>= λ blue.
    alpha_at r source >>= λ alpha. some (red ∷ green ∷ blue ∷ alpha ∷ [])

-- The pixels of a row before `x`, and the rows before `y`.
unfoldable pub scan_row : RawImage → ℕ → ℕ → ℕ → ℕ → Option (List ℕ)
unfolding pixel
scan_row r dw dh y zero = some []
scan_row r dw dh y (suc x) =
    scan_row r dw dh y x >>= λ before. pixel r dw dh y x >>= λ p. some (before ++ p)

unfoldable pub scan_rows : RawImage → ℕ → ℕ → ℕ → Option (List ℕ)
unfolding scan_row
scan_rows r dw dh zero = some []
scan_rows r dw dh (suc y) =
    scan_rows r dw dh y >>= λ before. scan_row r dw dh y dw >>= λ line. some (before ++ line)

pub data Conversion : Type 0 where
  converted : Image → Conversion
  refused : ImageFault → Conversion
  panics : Conversion

abbrev pub within_limit : ℕ → ℕ → Option Text → Conversion
within_limit dw dh none = refused encoding
within_limit dw dh (some bytes) =
    if ltb max_wire_image_bytes (length bytes)
    then refused wire_limit
    else converted
        (record { media_type = codes "image/png"; width = dw; height = dh; contents = bytes })

abbrev pub encode : (ℕ → ℕ → List ℕ → Option Text) → ℕ → ℕ → Option (List ℕ) → Conversion
encode png dw dh none = panics
encode png dw dh (some pixels) = within_limit dw dh (png dw dh pixels)

-- After the checks.
unfoldable pub convert : (ℕ → ℕ → List ℕ → Option Text) → RawImage → Option ImageFault → Conversion
unfolding fitted_edge scan_rows
convert png r (some fault) = refused fault
convert png r none =
    let longest = max (w r) (h r) in
    let dw = fitted_edge (w r) longest in
    let dh = fitted_edge (h r) longest in encode png dw dh (scan_rows r dw dh dh)

-- `png` is `png.Encode` of an NRGBA picture, by its width, height and pixels.
unfoldable pub normalize_image : (ℕ → ℕ → List ℕ → Option Text) → RawImage → Conversion
unfolding validate convert
normalize_image png r = convert png r (validate r)
