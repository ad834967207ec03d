-- ===== src/Service/Image/Prepared.antt =====
-- What `prepareGuideImage` of server/internal/service/guide_worker.go returns, and that it returns.
use mite.Prelude.{
  ℕ, zero, suc, ◌+◌, ◌-◌, ◌*◌, ◌/◌, ◌≤◌, ◌<◌, ◌≡◌, refl, ◌⊎◌, inl, inr, true, false, ◌&&◌, ◌||◌,
  Bool-cases, Option, none, some, Option-cases, Result, ok, err, length, ltb, leb, ◌!=◌, eq_nat,
  arith,
}
use mite.Text.{Str, ascii, eq_str}
use mite.Service.Image.{
  Image, ImageFailure, max_ai_input_image_bytes, resize_nearest, try_qualities, shrink,
  fit_dimensions, fitted, prepare_decoded, prepare_guide_image,
}
use mite.Service.Image.Sizes.{fit_dimensions-IsFit}

-- The sides of an image are within the limits.
abbrev pub IsSmall : {C : Type 0} → Image C → Type 0
IsSmall image =
    (1 ≤ image.width) × (image.width ≤ 1920) × (1 ≤ image.height) × (image.height ≤ 1080)

-- The greatest width from which so many rounds more, after the first one, get down to 320.
reach : ℕ → ℕ
reach zero = 320
reach (suc n) = (5 * reach n + 4) / 4

reach_enough : {w : ℕ} → w ≤ 1920 → w ≤ reach 8
unfolding reach
reach_enough h = omega arith

unchanged : (a w b h : ℕ) → (a != w || b != h) ≡ false → (a ≡ w) × (b ≡ h)
unchanged a w b h e = ground arith

module _ {C : Type 0} (encode : Image C → ℕ → Option Str) where
  -- Bytes that come from the encoder, for an image within the limits and a quality from 30 to 80.
  abbrev pub IsEncoded : Str → Type 0
  IsEncoded output =
      (image : Image C) × (quality : ℕ) × IsSmall image
      × (30 ≤ quality)
      × (quality ≤ 80)
      × (encode image quality ≡ some output)

  -- What the rounds on one image leave: an encoding that is small enough, or none.
  abbrev IsTried : Image C → Result ImageFailure (Option Str) → Type 0
  IsTried image (err ImageFailure.unfinished) = ⊥
  IsTried image (err e) = Unit
  IsTried image (ok none) = Unit
  IsTried image (ok (some output)) =
      (leb (length output) max_ai_input_image_bytes ≡ true)
      × (quality : ℕ) × (30 ≤ quality)
      × (quality ≤ 80)
      × (encode image quality ≡ some output)

  abbrev IsShrunk : Result ImageFailure Str → Type 0
  IsShrunk (err ImageFailure.unfinished) = ⊥
  IsShrunk (err e) = Unit
  IsShrunk (ok output) = (leb (length output) max_ai_input_image_bytes ≡ true) × IsEncoded output

  -- What is returned: no more than the limit of bytes, which are those that came in, or an encoding;
  -- or an error that is not a loop without an end.
  abbrev pub IsPrepared : Str → Result ImageFailure Str → Type 0
  IsPrepared raw (err ImageFailure.unfinished) = ⊥
  IsPrepared raw (err e) = Unit
  IsPrepared raw (ok output) =
      (leb (length output) max_ai_input_image_bytes ≡ true) × ((output ≡ raw) ⊎ IsEncoded output)

  try_qualities-IsTried :
      (fuel : ℕ) (image : Image C) (quality : ℕ)
      → quality ≤ 80
      → 20 ≤ quality
      → quality < 20 + 10 * fuel
      → IsTried image (try_qualities encode fuel image quality)
  unfolding try_qualities
  try_qualities-IsTried zero image quality top low enough = absurd (omega arith)
  try_qualities-IsTried (suc fuel) image quality top low enough =
      elim (Bool-cases (ltb quality 30)) [
        | inl below ↦ rw (below, IsTried) tt
        | inr above ↦ elim (Option-cases (encode image quality)) [
          | inl e ↦ rw (above, e, IsTried) tt
          | inr (output, e) ↦ elim (Bool-cases (leb (length output) max_ai_input_image_bytes)) [
            | inl fits ↦ rw (above, e, fits, IsTried) (fits, quality, ground arith, top, e)
            | inr over ↦
                rw (above, e, over, IsTried)
                  (try_qualities-IsTried fuel image (quality - 10) (omega arith) (ground arith)
                    (omega arith))
          ]
        ]
      ]

  module _ (convert : C → C) (blank : C) where
    smaller :
        (image : Image C)
        → IsSmall image
        → (leb image.width 320 || leb image.height 180) ≡ false
        → IsSmall (resize_nearest convert blank image (image.width * 4 / 5) (image.height * 4 / 5))
    unfolding resize_nearest
    smaller image small big = (ground arith, omega arith, ground arith, omega arith)

    -- The image of the next round.
    abbrev next : Image C → Image C
    next image = resize_nearest convert blank image (image.width * 4 / 5) (image.height * 4 / 5)

    -- One round, if the next one, where there is one, ends well.
    round-IsShrunk :
        (fuel : ℕ) (image : Image C)
        → IsSmall image
        → ((leb image.width 320 || leb image.height 180) ≡ false
            → IsShrunk (shrink convert blank encode fuel (next image)))
        → IsShrunk (shrink convert blank encode (suc fuel) image)
    unfolding shrink
    round-IsShrunk fuel image small rest =
        tried (try_qualities encode 7 image 80) refl
          (try_qualities-IsTried 7 image 80 (omega arith) (omega arith) (omega arith))
      where
        tried :
            (r : Result ImageFailure (Option Str))
            → try_qualities encode 7 image 80 ≡ r
            → IsTried image r
            → IsShrunk (shrink convert blank encode (suc fuel) image)
        tried (err ImageFailure.unfinished) e t = absurd t
        tried (err ImageFailure.invalid_image) e t = rw (e, IsShrunk) tt
        tried (err ImageFailure.invalid_dimensions) e t = rw (e, IsShrunk) tt
        tried (err ImageFailure.encoder_failed) e t = rw (e, IsShrunk) tt
        tried (err ImageFailure.cannot_fit) e t = rw (e, IsShrunk) tt
        tried (ok (some output)) e (fits, quality, low, high, is) =
            rw (e, IsShrunk) (fits, (image, quality, small, low, high, is))
        tried (ok none) e t = elim (Bool-cases (leb image.width 320 || leb image.height 180)) [
          | inl stop ↦ rw (e, stop, IsShrunk) tt
          | inr on ↦ rw (e, on, IsShrunk) (rest on)
        ]

    shrink-IsShrunk :
        (n : ℕ) (image : Image C)
        → IsSmall image
        → image.width ≤ reach n
        → IsShrunk (shrink convert blank encode (suc n) image)
    unfolding reach resize_nearest
    shrink-IsShrunk zero image small near =
        round-IsShrunk zero image small λ big. absurd (ground arith)
    shrink-IsShrunk (suc n) image small near =
        round-IsShrunk (suc n) image small
          λ big. shrink-IsShrunk n (next image) (smaller image small big) (omega arith)

    fitted-IsSmall :
        (source : Image C)
        → 1 ≤ source.width
        → 1 ≤ source.height
        → IsSmall (fitted convert blank source)
    unfolding fitted resize_nearest
    fitted-IsSmall source wide tall =
        let target = fit_dimensions source.width source.height 1920 1080 in
        let fits =
          fit_dimensions-IsFit source.width source.height 1920 1080 wide tall (omega arith)
            (omega arith) in
        elim (Bool-cases (target.0 != source.width || target.1 != source.height)) [
          | inl changed ↦ rw changed (fits.0, fits.2, fits.1, fits.3)
          | inr same ↦ rw same (
              let equal = unchanged target.0 source.width target.1 source.height same in
              (wide, omega (arith, fits.2, equal.0), tall, omega (arith, fits.3, equal.1)))
        ]

    -- Where the loop ends well, so does the rest.
    shrunk-IsPrepared : (raw : Str) (r : Result ImageFailure Str) → IsShrunk r → IsPrepared raw r
    shrunk-IsPrepared raw (ok output) (fits, encoded) = (fits, inr encoded)
    shrunk-IsPrepared raw (err ImageFailure.unfinished) s = absurd s
    shrunk-IsPrepared raw (err ImageFailure.invalid_image) s = tt
    shrunk-IsPrepared raw (err ImageFailure.invalid_dimensions) s = tt
    shrunk-IsPrepared raw (err ImageFailure.encoder_failed) s = tt
    shrunk-IsPrepared raw (err ImageFailure.cannot_fit) s = tt

    prepare_decoded-IsPrepared :
        (raw : Str) (source : Image C)
        → IsPrepared raw (prepare_decoded convert blank encode raw source)
    prepare_decoded-IsPrepared raw source =
        elim (Bool-cases (ltb source.width 1 || ltb source.height 1)) [
          | inl empty ↦ rw (empty, IsPrepared) tt
          | inr some_size ↦
              elim (Bool-cases (
                leb source.width 1920
                && leb source.height 1080
                && leb (length raw) max_ai_input_image_bytes)) [
                  | inl fits ↦ rw (some_size, fits, IsPrepared) (ground arith, inl refl)
                  | inr over ↦
                      rw (some_size, over)
                        (let small = fitted-IsSmall source (ground arith) (ground arith) in
                          shrunk-IsPrepared raw _ (
                            shrink-IsShrunk 8 (fitted convert blank source) small
                              (reach_enough small.1)))
                ]
        ]

    -- `prepareGuideImage` returns: nine images at most are tried, at six qualities each. Whatever is
    -- decoded and encoded, the bytes that it returns are at most 2 MiB, and are those that it got or
    -- an encoding, at a quality from 30 to 80, of an image of at most 1920 times 1080 points.
    pub prepare_guide_image-IsPrepared :
        (decode : Str → Option (Image C × Str)) (raw : Str)
        → IsPrepared raw (prepare_guide_image convert blank encode decode raw)
    unfolding prepare_guide_image
    prepare_guide_image-IsPrepared decode raw = elim (Option-cases (decode raw)) [
      | inl n ↦ rw (n, IsPrepared) tt
      | inr (decoded, d) ↦ elim (Bool-cases (decoded.1 != ascii "jpeg")) [
        | inl other ↦ rw (d, other, IsPrepared) tt
        | inr jpeg ↦ rw (d, jpeg, IsPrepared) (prepare_decoded-IsPrepared raw decoded.0)
      ]
    ]
