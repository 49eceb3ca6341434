-- ===== src/Notify/RawImage/InRange.antt =====
-- image.go: the conversion of a valid raw image reads only what is there, and yields a wire image that
-- the protocol accepts.
use sysc_notify.Base.{
  ℕ, zero, suc, ◌+◌, ◌-◌, ◌*◌, ◌/◌, ◌≤◌, ◌<◌, ◌≡◌, refl, ap, sym, subst, ◌∙◌, max, Bool, true,
  false, List, [], ◌∷◌, ◌++◌, Option, none, some, Text, codes, arith, length, length-append, ltb,
  if◌then◌else◌, Bool-cases, Option-cases, inl, inr, ◌⊎◌,
}
use sysc_notify.Protocol.Types.{Image, max_wire_image_long_edge, max_wire_image_bytes}
use sysc_notify.Protocol.Validate
use sysc_notify.Notify.RawImage.{
  RawImage, ImageFault, max_source_image_dimension, validate, w, h, row, samples, fitted_edge, read,
  source_at, pixel, scan_row, scan_rows, Conversion, converted, refused, within_limit, encoding,
  wire_limit, encode, convert, normalize_image,
}

-- What `Validate` gives.
record Readable (r : RawImage) : Type 0 where
  pub wide : 0 < w r
  pub high : 0 < h r
  pub few : w r ≤ max_source_image_dimension
  pub low : h r ≤ max_source_image_dimension
  pub colors : (samples r ≡ 3) ⊎ (samples r ≡ 4)
  pub opaque : r.has_alpha ≡ true → samples r ≡ 4
  pub enough : row r * (h r - 1) + w r * samples r ≤ length r.contents

validate-Readable : (r : RawImage) → validate r ≡ none → Readable r
unfolding validate
validate-Readable r ok = record {
  wide = ground (arith, ok);
  high = ground (arith, ok);
  few = ground (arith, ok);
  low = ground (arith, ok);
  colors = ground (arith, ok);
  opaque = λ e. ground (arith, ok, e);
  enough = ground (arith, ok);
}

read_within : (bs : List ℕ) (i : ℕ) → i < length bs → (b : ℕ) × (read bs i ≡ some b)
read_within [] i e = ground (arith, e)
read_within (b ∷ bs) zero e = (b, refl)
read_within (b ∷ bs) (suc i) e = read_within bs i (omega (arith, e))

-- A scaled coordinate is within the source.
scaled_below : (x edge d : ℕ) → x < d → 0 < edge → x * edge / d < edge
scaled_below x edge d inside some_edge = grind arith

-- The last byte of a source pixel is there.
byte_within :
    (width height line depth y x c : ℕ)
    → y < height
    → x < width
    → c < depth
    → y * line + x * depth + c < line * (height - 1) + width * depth
byte_within width height line depth y x c low left sample = grind arith

pixel_read :
    (r : RawImage) (dw dh y x : ℕ)
    → Readable r
    → y < dh
    → x < dw
    → (p : List ℕ) × (pixel r dw dh y x ≡ some p) × (length p ≡ 4)
unfolding pixel
pixel_read r dw dh y x v low left =
    let deep : 2 < samples r = elim v.colors [
      | inl three ↦ omega (arith, three)
      | inr four ↦ omega (arith, four)
    ] in
    let first = sample 0 (omega (arith, deep)) in
    let (red, e0) = read_within r.contents (source_at r dw dh y x) (omega (arith, first)) in
    let (green, e1) =
      read_within r.contents (source_at r dw dh y x + 1) (sample 1 (omega (arith, deep))) in
    let (blue, e2) = read_within r.contents (source_at r dw dh y x + 2) (sample 2 deep) in
    let (alpha, e3) = alpha_read r.has_alpha refl in
    (red ∷ green ∷ blue ∷ alpha ∷ [], rw e0 (rw e1 (rw e2 (rw e3 refl))), refl)
  where
    sample : (c : ℕ) → c < samples r → source_at r dw dh y x + c < length r.contents
    sample c deep =
        let there =
          byte_within (w r) (h r) (row r) (samples r) (y * h r / dh) (x * w r / dw) c
            (scaled_below y (h r) dh low v.high) (scaled_below x (w r) dw left v.wide) deep in
        omega (arith, there, v.enough)

    alpha_read :
        (with_alpha : Bool)
        → r.has_alpha ≡ with_alpha
        → (alpha : ℕ) × ((if r.has_alpha
              then read r.contents (source_at r dw dh y x + 3)
              else some 255)
            ≡ some alpha)
    alpha_read false e = (255, ground (arith, e))
    alpha_read true e =
        let four = v.opaque e in
        let (alpha, found) =
          read_within r.contents (source_at r dw dh y x + 3) (sample 3 (omega (arith, four))) in
        (alpha, ground (arith, e, found))

scan_row_read :
    (r : RawImage) (dw dh y x : ℕ)
    → Readable r
    → y < dh
    → x ≤ dw
    → (p : List ℕ) × (scan_row r dw dh y x ≡ some p) × (length p ≡ x * 4)
unfolding scan_row
scan_row_read r dw dh y zero v low left = ([], refl, refl)
scan_row_read r dw dh y (suc x) v low left =
    let (before, e, long) = scan_row_read r dw dh y x v low (omega (arith, left)) in
    let (p, e', four) = pixel_read r dw dh y x v low left in
    (before ++ p, rw e (rw e' refl), omega (arith, length-append before p, long, four))

scan_rows_read :
    (r : RawImage) (dw dh y : ℕ)
    → Readable r
    → y ≤ dh
    → (p : List ℕ) × (scan_rows r dw dh y ≡ some p) × (length p ≡ y * (dw * 4))
unfolding scan_rows
scan_rows_read r dw dh zero v low = ([], refl, omega arith)
scan_rows_read r dw dh (suc y) v low =
    let (before, e, long) = scan_rows_read r dw dh y v (omega (arith, low)) in
    let (line, e', wide) = scan_row_read r dw dh y dw v low (omega arith) in
    (before ++ line, rw e (rw e' refl), grind (arith, length-append before line, long, wide))

fitted_edge_fits :
    (edge longest : ℕ)
    → 0 < edge
    → edge ≤ longest
    → (0 < fitted_edge edge longest) × (fitted_edge edge longest ≤ max_wire_image_long_edge)
unfolding fitted_edge
fitted_edge_fits edge longest some_edge within =
    (grind (arith, some_edge), grind (arith, some_edge, within))

-- A refusal, or an image that the protocol accepts.
abbrev pub Sane : Conversion → Type 0
Sane c =
    ((fault : ImageFault) × (c ≡ refused fault))
    ⊎ ((i : Image) × (c ≡ converted i) × (Validate.image i ≡ none))

-- An encoder that never yields an empty file, as a PNG file has a signature.
abbrev pub Writes : (ℕ → ℕ → List ℕ → Option Text) → Type 0
Writes png =
    (dw dh : ℕ) (pixels : List ℕ) (bytes : Text) → png dw dh pixels ≡ some bytes → 0 < length bytes

within_limit-Sane :
    (dw dh : ℕ) (bytes : Text)
    → 0 < length bytes
    → (0 < dw) × (dw ≤ max_wire_image_long_edge)
    → (0 < dh) × (dh ≤ max_wire_image_long_edge)
    → Sane (within_limit dw dh (some bytes))
unfolding Validate.image
within_limit-Sane dw dh bytes written wide high =
    elim (Bool-cases (ltb max_wire_image_bytes (length bytes))) [
      | inl big ↦ inl (wire_limit, ground (arith, big))
      | inr fits ↦ inr (
        record { media_type = codes "image/png"; width = dw; height = dh; contents = bytes },
        ground (arith, fits),
        ground (arith, fits, written, wide, high),
      )
    ]

normalize_image_plain :
    (png : ℕ → ℕ → List ℕ → Option Text) (r : RawImage) (dw dh : ℕ) (pixels : List ℕ)
    → validate r ≡ none
    → fitted_edge (w r) (max (w r) (h r)) ≡ dw
    → fitted_edge (h r) (max (w r) (h r)) ≡ dh
    → scan_rows r dw dh dh ≡ some pixels
    → normalize_image png r ≡ within_limit dw dh (png dw dh pixels)
unfolding normalize_image
normalize_image_plain png r dw dh pixels ok wide high scanned =
    ap (convert png r) ok
    ∙ ap
        (λ k. encode png k (fitted_edge (h r) (max (w r) (h r))) (
          scan_rows r k (fitted_edge (h r) (max (w r) (h r)))
            (fitted_edge (h r) (max (w r) (h r)))))
        wide
    ∙ ap (λ k. encode png dw k (scan_rows r dw k k)) high
    ∙ ap (encode png dw dh) scanned

-- Whatever raw image a hint holds, its conversion does not read past the end of the data: it refuses
-- the image, or yields a wire image that the protocol accepts. The PNG encoder never yields an empty
-- file.
pub normalize_image-Sane :
    (png : ℕ → ℕ → List ℕ → Option Text) (r : RawImage) → Writes png → Sane (normalize_image png r)
unfolding normalize_image
normalize_image-Sane png r writes = elim (Option-cases (validate r)) [
  | inr (fault, e) ↦ inl (fault, ap (convert png r) e)
  | inl ok ↦
      let v = validate-Readable r ok in
      let longest = max (w r) (h r) in
      let dw = fitted_edge (w r) longest in
      let dh = fitted_edge (h r) longest in
      let (pixels, e, long) = scan_rows_read r dw dh dh v (omega arith) in
      let plain : normalize_image png r ≡ within_limit dw dh (png dw dh pixels) =
        normalize_image_plain png r dw dh pixels ok refl refl e in
      subst Sane (sym plain) (elim (Option-cases (png dw dh pixels)) [
        | inl nothing ↦ inl (encoding, rw nothing refl)
        | inr (bytes, made) ↦
            subst (λ o. Sane (within_limit dw dh o)) (sym made)
              (within_limit-Sane dw dh bytes (writes dw dh pixels bytes made)
                (fitted_edge_fits (w r) longest v.wide (omega arith))
                (fitted_edge_fits (h r) longest v.high (omega arith)))
      ])
]
