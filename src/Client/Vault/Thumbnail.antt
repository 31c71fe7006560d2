-- ===== src/Client/Vault/Thumbnail.antt =====
-- vault.rs: `generate_thumbnail`. The crate `image` is a parameter.
use scrigno.Prelude.{
  ℕ, ◌*◌, ◌≤◌, ◌≡◌, ◌≢◌, ◌||◌, Option, none, some, List, [], ◌∷◌, length, ltb, leb, leb→le,
  if◌then◌else◌, Bool-cases, Option-cases, inl, inr,
}
use scrigno.Prelude.Bytes.{Bytes}
use scrigno.Prelude.Options.{some-eq-some}
use scrigno.Codec.Base64.{base64_encode}

abbrev thumb_max_dimension : ℕ
thumb_max_dimension = 256

abbrev pub thumb_max_bytes : ℕ
thumb_max_bytes = 24 * 1024

abbrev thumb_jpeg_qualities : List ℕ
thumb_jpeg_qualities = 70 ∷ 55 ∷ 40 ∷ 25 ∷ []

-- What is used of the crate: decoding, measures, `resize`, `to_rgb8` and the JPEG encoder.
pub record Images (Image : Type 0) : Type 0 where
  pub load_from_memory : Bytes → Option Image
  pub width : Image → ℕ
  pub height : Image → ℕ
  pub resize : ℕ → ℕ → Image → Image
  pub to_rgb8 : Image → Image
  pub encode_jpeg : ℕ → Image → Option Bytes

module _ {Image : Type 0} (images : Images Image) where
  shrunk : Image → Image
  shrunk img =
      if ltb thumb_max_dimension (images.width img) || ltb thumb_max_dimension (images.height img)
      then images.resize thumb_max_dimension thumb_max_dimension img
      else img

  -- The first quality whose encoding fits.
  first_fitting : List ℕ → Image → Option Bytes
  first_fitting [] rgb = none
  first_fitting (quality ∷ qualities) rgb =
      let rest = first_fitting qualities rgb in
      elim (images.encode_jpeg quality rgb) [
        | none ↦ rest
        | some jpeg ↦
            if leb (length (base64_encode jpeg)) thumb_max_bytes
            then some (base64_encode jpeg)
            else rest
      ]

  pub generate_thumbnail : Bytes → Option Bytes
  unfolding shrunk
  generate_thumbnail bytes = elim (images.load_from_memory bytes) [
    | none ↦ none
    | some img ↦ first_fitting thumb_jpeg_qualities (images.to_rgb8 (shrunk img))
  ]

  first_fitting_fits :
      (qualities : List ℕ) (rgb : Image) (b64 : Bytes)
      → first_fitting qualities rgb ≡ some b64
      → length b64 ≤ thumb_max_bytes
  unfolding first_fitting
  first_fitting_fits [] rgb b64 h = cc
  first_fitting_fits (quality ∷ qualities) rgb b64 h =
      elim (Option-cases (images.encode_jpeg quality rgb)) [
        | inl e ↦ first_fitting_fits qualities rgb b64 (rw (first_fitting, e) at h)
        | inr (jpeg, e) ↦ elim (Bool-cases (leb (length (base64_encode jpeg)) thumb_max_bytes)) [
          | inl f ↦
              rw (← some-eq-some (rw (first_fitting, e, f) at h))
                (leb→le (length (base64_encode jpeg)) thumb_max_bytes f)
          | inr f ↦ first_fitting_fits qualities rgb b64 (rw (first_fitting, e, f) at h)
        ]
      ]

  -- A thumbnail is never longer than 24 KiB, whatever the decoder and the encoder do.
  pub generate_thumbnail_fits :
      (bytes b64 : Bytes) → generate_thumbnail bytes ≡ some b64 → length b64 ≤ thumb_max_bytes
  unfolding generate_thumbnail
  generate_thumbnail_fits bytes b64 h = elim (Option-cases (images.load_from_memory bytes)) [
    | inl e ↦ absurd (none-ne-some b64 (rw (generate_thumbnail, e) at h))
    | inr (img, e) ↦
        first_fitting_fits thumb_jpeg_qualities (images.to_rgb8 (shrunk img)) b64
          (rw (generate_thumbnail, e) at h)
  ]
    where
      none-ne-some : (b : Bytes) → none ≢ some b
      none-ne-some b h = cc
