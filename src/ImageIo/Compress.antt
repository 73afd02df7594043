-- ===== src/ImageIo/Compress.antt =====
-- rust-sync-proxy/src/image_io.rs: when an image is encoded anew.
use gemini_worker_go.Prelude.{
  ℕ, ◌≡◌, ◌≤◌, ◌<◌, refl, ap, ◌⊎◌, ◌||◌, not, Bool, true, Bool-cases, inl, inr, Result, ok, err,
  length, leb, arith,
}
use gemini_worker_go.Text.{Text, codes, trim, to_ascii_lowercase, text_eq}
use gemini_worker_go.Text.Laws.{text_eq→eq, text_eq_iff}
use gemini_worker_go.Files.{Bytes}
use gemini_worker_go.ImageIo.{OptimizedImage, recoded, maybe_compress_png_bytes_with_options}

-- The image as it was, where its encoding is no shorter, or the encoding.
abbrev pub IsKeptOrShorter :
    {E : Type 0} → Bytes → Text → Text → Result E Bytes → OptimizedImage → Type 0
IsKeptOrShorter bytes mime to r image =
    ((image.bytes ≡ bytes)
      × (image.mime_type ≡ mime)
      × ((encoded : Bytes) × (r ≡ ok encoded) × (length bytes ≤ length encoded)))
    ⊎ ((r ≡ ok image.bytes) × (length image.bytes < length bytes) × (image.mime_type ≡ to))

recoded-shorter :
    {E : Type 0} (mime to : Text) (bytes : Bytes) (r : Result E Bytes) (image : OptimizedImage)
    → recoded mime to bytes r ≡ ok image
    → IsKeptOrShorter bytes mime to r image
unfolding recoded
recoded-shorter mime to bytes (err e) image h = cc
recoded-shorter mime to bytes (ok encoded) image h =
    elim (Bool-cases (leb (length bytes) (length encoded))) [
      | inl e ↦ inl (ground (arith, e, h), ground (arith, e, h), (encoded, refl, ground (arith, e)))
      | inr e ↦ inr (ap ok (ground (arith, e, h)), ground (arith, e, h), ground (arith, e, h))
    ]

-- An image that is to be encoded anew: compression is enabled, and it is a PNG over the threshold.
abbrev pub IsLargePng : Bool → Text → ℕ → Bytes → Type 0
IsLargePng enabled mime threshold bytes =
    (enabled ≡ true) × (mime ≡ codes "image/png") × (threshold < length bytes)

-- Where compression gives an image, one that is not an enabled PNG over the threshold is as it was, with
-- its MIME type in lower case; of such a PNG it is what the encoder makes of all its bytes at the quality
-- asked, as a JPEG, if that is shorter, and the image as it was if that is no shorter.
pub maybe_compress_png_bytes_with_options-shorter :
    {E : Type 0} (to_jpeg : ℕ → Bytes → Result E Bytes) (bytes : Bytes) (mime_type : Text)
    (enabled : Bool) (threshold quality : ℕ) (image : OptimizedImage)
    → maybe_compress_png_bytes_with_options to_jpeg bytes mime_type enabled threshold quality
      ≡ ok image
    → ((¬ IsLargePng enabled (to_ascii_lowercase (trim mime_type)) threshold bytes)
        × (image.bytes ≡ bytes)
        × (image.mime_type ≡ to_ascii_lowercase (trim mime_type)))
      ⊎ (IsLargePng enabled (to_ascii_lowercase (trim mime_type)) threshold bytes
          × IsKeptOrShorter bytes
              (to_ascii_lowercase (trim mime_type))
              (codes "image/jpeg")
              (to_jpeg quality bytes)
              image)
unfolding maybe_compress_png_bytes_with_options
maybe_compress_png_bytes_with_options-shorter to_jpeg bytes mime_type enabled threshold quality
      image h =
    let mime = to_ascii_lowercase (trim mime_type) in
    elim (Bool-cases
      (not enabled || not (text_eq mime (codes "image/png")) || leb (length bytes) threshold)) [
        | inl e ↦
            let other : ¬ IsLargePng enabled mime threshold bytes = λ (on, png, over).
              let same : text_eq mime (codes "image/png") ≡ true =
                (text_eq_iff mime (codes "image/png")).1 png in
              ground (arith, e, on, same, over) in
            inl (other, ground (arith, e, h), ground (arith, e, h))
        | inr e ↦ inr (
          (
            ground (arith, e),
            text_eq→eq mime (codes "image/png") (ground (arith, e)),
            ground (arith, e),
          ),
          recoded-shorter mime (codes "image/jpeg") bytes (to_jpeg quality bytes) image (rw e at h),
        )
      ]
