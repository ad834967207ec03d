-- ===== src/Service/Image.antt =====
-- The images that are sent with a guide generation: `prepareGuideImage` of
-- server/internal/service/guide_worker.go. Decoding and encoding JPEG, and the conversion of a colour
-- to RGBA, are the arguments `decode`, `encode` and `convert`.
pub mod Sizes
pub mod Prepared
use mite.Prelude.{
  ℕ, zero, suc, ◌+◌, ◌-◌, ◌*◌, ◌/◌, ◌%◌, Bool, true, false, ◌&&◌, ◌||◌, Option, none, some, length,
  ltb, leb, ◌==◌, ◌!=◌, eq_nat, Result, ok, err, if◌then◌else◌,
}
use mite.Text.{Str, ascii, eq_str}

-- `MaxAIInputImageBytes`.
abbrev pub max_ai_input_image_bytes : ℕ
max_ai_input_image_bytes = 2 * 1024 * 1024

-- `image.Image`: its bounds and the colour of each point.
pub record Image (C : Type 0) : Type 0 where
  pub min_x : ℕ
  pub min_y : ℕ
  pub width : ℕ
  pub height : ℕ
  pub at : ℕ → ℕ → C

-- The errors of `prepareGuideImage`, and what a loop that is not given enough rounds returns.
pub data ImageFailure : Type 0 where
  invalid_image invalid_dimensions encoder_failed cannot_fit unfinished : ImageFailure

abbrev pub max_of : ℕ → ℕ → ℕ
max_of a b = if ltb a b then b else a

-- `fitDimensions`.
unfoldable pub fit_dimensions : ℕ → ℕ → ℕ → ℕ → ℕ × ℕ
fit_dimensions width height max_width max_height =
    if leb width max_width && leb height max_height
    then (width, height)
    else if ltb (height * max_width) (width * max_height)
    then (max_width, max_of 1 (height * max_width / width))
    else (max_of 1 (width * max_height / height), max_height)

module _ {C : Type 0} (encode : Image C → ℕ → Option Str) where
  -- `for quality := 80; quality >= 30; quality -= 10`: the first encoding that is small enough.
  unfoldable pub try_qualities : ℕ → Image C → ℕ → Result ImageFailure (Option Str)
  try_qualities zero current quality = err ImageFailure.unfinished
  try_qualities (suc fuel) current quality = elim (ltb quality 30) [
    | true ↦ ok none
    | false ↦ elim (encode current quality) [
      | none ↦ err ImageFailure.encoder_failed
      | some output ↦ elim (leb (length output) max_ai_input_image_bytes) [
        | true ↦ ok (some output)
        | false ↦ try_qualities fuel current (quality - 10)
      ]
    ]
  ]

module _ {C : Type 0} (convert : C → C) (blank : C) where
  -- `resizeNearest`: a new image starts at the origin, blank, and each of its points is set.
  unfoldable pub resize_nearest : Image C → ℕ → ℕ → Image C
  resize_nearest source width height = record {
    min_x = 0;
    min_y = 0;
    width = width;
    height = height;
    at = λ x y.
        if ltb x width && ltb y height
        then convert (
            source.at (source.min_x + x * source.width / width)
              (source.min_y + y * source.height / height))
        else blank;
  }

  -- The image of the size that fits, which the loop starts with.
  unfoldable pub fitted : Image C → Image C
  unfolding fit_dimensions resize_nearest
  fitted source =
      let target = fit_dimensions source.width source.height 1920 1080 in
      if target.0 != source.width || target.1 != source.height
      then resize_nearest source target.0 target.1
      else source

  module _ (encode : Image C → ℕ → Option Str) where
    -- The outer loop: each round tries the qualities, and goes on with a smaller image.
    unfoldable pub shrink : ℕ → Image C → Result ImageFailure Str
    unfolding try_qualities resize_nearest
    shrink zero current = err ImageFailure.unfinished
    shrink (suc fuel) current = elim (try_qualities encode 7 current 80) [
      | err e ↦ err e
      | ok found ↦ elim found [
        | some output ↦ ok output
        | none ↦ elim (leb current.width 320 || leb current.height 180) [
          | true ↦ err ImageFailure.cannot_fit
          | false ↦
              shrink fuel (resize_nearest current (current.width * 4 / 5) (current.height * 4 / 5))
        ]
      ]
    ]

    abbrev pub prepare_decoded : Str → Image C → Result ImageFailure Str
    prepare_decoded raw source =
        if ltb source.width 1 || ltb source.height 1
        then err ImageFailure.invalid_dimensions
        else if leb source.width 1920
            && leb source.height 1080
            && leb (length raw) max_ai_input_image_bytes
        then ok raw
        else shrink 9 (fitted source)

    -- `prepareGuideImage`.
    unfoldable pub prepare_guide_image :
        (Str → Option (Image C × Str)) → Str → Result ImageFailure Str
    unfolding shrink fitted
    prepare_guide_image decode raw = elim (decode raw) [
      | none ↦ err ImageFailure.invalid_image
      | some decoded ↦
          if decoded.1 != ascii "jpeg"
          then err ImageFailure.invalid_image
          else prepare_decoded raw decoded.0
    ]
