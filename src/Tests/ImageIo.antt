-- ===== src/Tests/ImageIo.antt =====
-- rust-sync-proxy/src/image_io.rs on small inputs.
use gemini_worker_go.Prelude.{
  ℕ, ◌≡◌, ◌≤◌, ◌⊎◌, ◌||◌, not, refl, [], ◌∷◌, length, Option, none, some, Result, ok, Bool, true,
  false,
}
use gemini_worker_go.Text.{codes, is_empty, trim, to_ascii_lowercase, text_eq, one_of}
use gemini_worker_go.Files.{Bytes}
use gemini_worker_go.Url.{UrlParser, ParsedUrl, is_http, host_or_empty}
use gemini_worker_go.ImageIo.{
  Response, FetchedInlineData, OptimizedImage, FetchError, fetch_image_as_inline_data_with_options,
  maybe_compress_png_bytes_with_options, hostname_matches_domain_patterns, sniff_image_mime_type,
}
use gemini_worker_go.ImageIo.Fetch.{
  delivered, fetch_image_as_inline_data_with_options-bound, IsReceived,
}
use gemini_worker_go.ImageIo.Compress.{
  maybe_compress_png_bytes_with_options-shorter, IsLargePng, IsKeptOrShorter,
}

abbrev url : ParsedUrl
url = record {
  scheme = codes "https";
  host_str = some (codes "a.example");
  without_fragment = codes "https://a.example/x.gif";
}

abbrev parse : UrlParser
parse s = ok url

abbrev nothing_forbidden : ParsedUrl → Bool
nothing_forbidden u = false

abbrev reply : Response
reply = record {
  status = 200;
  content_length = none;
  content_type = none;
  body = delivered ((1 ∷ 2 ∷ []) ∷ (3 ∷ []) ∷ []);
}

abbrev send : ParsedUrl → Option Response
send u = some reply

abbrev image : FetchedInlineData
image = record { mime_type = codes "image/png"; bytes = 1 ∷ 2 ∷ 3 ∷ [] }

fetched :
    fetch_image_as_inline_data_with_options parse nothing_forbidden send
      (codes "https://a.example/x.gif")
      3
      false
    ≡ ok image
unfolding fetch_image_as_inline_data_with_options text_eq trim to_ascii_lowercase one_of
fetched = refl

fetch_image_as_inline_data_with_options-bound_example :
    (length image.bytes ≤ 3)
    × ((u : ParsedUrl) × (parse (codes "https://a.example/x.gif") ≡ ok u)
        × (is_http u ≡ true)
        × (is_empty (host_or_empty u) ≡ false)
        × (false || not (nothing_forbidden u) ≡ true)
        × IsReceived (codes "https://a.example/x.gif") (send u) image)
fetch_image_as_inline_data_with_options-bound_example =
    fetch_image_as_inline_data_with_options-bound parse nothing_forbidden send
      (codes "https://a.example/x.gif") 3 false image fetched

abbrev to_jpeg : ℕ → Bytes → Result FetchError Bytes
to_jpeg quality bytes = ok (9 ∷ [])

abbrev jpeg : OptimizedImage
jpeg = record { mime_type = codes "image/jpeg"; bytes = 9 ∷ [] }

compressed :
    maybe_compress_png_bytes_with_options to_jpeg (1 ∷ 2 ∷ []) (codes " image/PNG") true 1 97
    ≡ ok jpeg
unfolding maybe_compress_png_bytes_with_options text_eq trim to_ascii_lowercase
compressed = refl

maybe_compress_png_bytes_with_options-shorter_example :
    ((¬ IsLargePng true (to_ascii_lowercase (trim (codes " image/PNG"))) 1 (1 ∷ 2 ∷ []))
      × (jpeg.bytes ≡ 1 ∷ 2 ∷ [])
      × (jpeg.mime_type ≡ to_ascii_lowercase (trim (codes " image/PNG"))))
    ⊎ (IsLargePng true (to_ascii_lowercase (trim (codes " image/PNG"))) 1 (1 ∷ 2 ∷ [])
        × IsKeptOrShorter
            (1 ∷ 2 ∷ [])
            (to_ascii_lowercase (trim (codes " image/PNG")))
            (codes "image/jpeg")
            (to_jpeg 97 (1 ∷ 2 ∷ []))
            jpeg)
maybe_compress_png_bytes_with_options-shorter_example =
    maybe_compress_png_bytes_with_options-shorter to_jpeg (1 ∷ 2 ∷ []) (codes " image/PNG") true 1
      97 jpeg compressed

subdomain : hostname_matches_domain_patterns (codes "h.UGUU.se") (codes ".uguu.se" ∷ []) ≡ true
unfolding hostname_matches_domain_patterns trim to_ascii_lowercase
subdomain = refl

gif_by_magic : sniff_image_mime_type (codes "GIF89a;") ≡ some (codes "image/gif")
unfolding sniff_image_mime_type
gif_by_magic = refl
