-- ===== src/ImageIo/Mime.antt =====
-- rust-sync-proxy/src/image_io.rs: the MIME type of a fetched image.
use gemini_worker_go.Prelude.{◌≡◌, false, Bool-cases, inl, inr, Option, ◌||◌, arith, unwrap_or}
use gemini_worker_go.Text.{Text, codes, is_empty, text_eq, trim, to_ascii_lowercase, split}
use gemini_worker_go.ImageIo.{normalize_image_mime_type, guess_image_mime_type_from_url, first_or}

guess-eq :
    (raw_url : Text)
    → (text_eq (guess_image_mime_type_from_url raw_url) (codes "application/octet-stream") ≡ false)
      × (is_empty (guess_image_mime_type_from_url raw_url) ≡ false)
unfolding guess_image_mime_type_from_url text_eq
guess-eq raw_url = ground arith

-- Whatever the header says, and if there is none, the MIME type of a fetched image is not empty and is
-- not `application/octet-stream`.
normalize_image_mime_type-ne :
    (content_type : Option Text) (raw_url : Text)
    → (text_eq (normalize_image_mime_type content_type raw_url) (codes "application/octet-stream")
        ≡ false)
      × (is_empty (normalize_image_mime_type content_type raw_url) ≡ false)
unfolding normalize_image_mime_type
normalize_image_mime_type-ne content_type raw_url =
    let normalized = to_ascii_lowercase (
      trim
        (first_or (codes "image/png") (split b';' (unwrap_or content_type (codes "image/png"))))) in
    elim (Bool-cases
      (text_eq normalized (codes "application/octet-stream") || is_empty normalized)) [
        | inl e ↦ rw e (guess-eq raw_url)
        | inr e ↦ rw e (ground (arith, e), ground (arith, e))
      ]
