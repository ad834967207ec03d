-- ===== src/Tests/Images.antt =====
-- Images in grey, an encoder that writes down the quality, and a decoder of one picture.
use mite.Prelude.{ℕ, ◌+◌, ◌≡◌, refl, arith, Option, some, [], ◌∷◌, Result, ok}
use mite.Text.{Str, ascii, str_eq}
use mite.Service.Image.{Image, ImageFailure, fit_dimensions, prepare_guide_image}
use mite.Service.Image.Sizes.{IsFit, fit_dimensions-IsFit}
use mite.Service.Image.Prepared.{IsPrepared, prepare_guide_image-IsPrepared}

-- A screen that is wider than the limit.
abbrev screen : Image ℕ
screen = record { min_x = 0; min_y = 0; width = 4000; height = 1000; at = λ x y. x + y }

abbrev encode : Image ℕ → ℕ → Option Str
encode image quality = some (image.width ∷ image.height ∷ quality ∷ [])

abbrev decode : Str → Option (Image ℕ × Str)
decode raw = some (screen, ascii "jpeg")

abbrev prepared : Result ImageFailure Str
prepared = prepare_guide_image (λ c. c) 0 encode decode (ascii "raw")

encoded : prepared ≡ ok (1920 ∷ 480 ∷ 80 ∷ [])
unfolding prepare_guide_image str_eq
encoded = refl

prepare_guide_image-IsPrepared_example : IsPrepared encode (ascii "raw") prepared
prepare_guide_image-IsPrepared_example =
    prepare_guide_image-IsPrepared encode (λ c. c) 0 decode (ascii "raw")

fit_dimensions-IsFit_example : IsFit 4000 1000 1920 1080 (fit_dimensions 4000 1000 1920 1080)
fit_dimensions-IsFit_example =
    fit_dimensions-IsFit 4000 1000 1920 1080 (omega arith) (omega arith) (omega arith) (omega arith)
