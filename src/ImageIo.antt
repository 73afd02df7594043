-- ===== src/ImageIo.antt =====
-- rust-sync-proxy/src/image_io.rs: fetching an image, its MIME type, and its compression. The HTTP
-- response, `url::Url` and the image codecs are arguments.
pub mod Fetch
pub mod Compress
pub mod Mime
use gemini_worker_go.Prelude.{
  ℕ, ◌+◌, ◌*◌, Bool, true, false, ◌&&◌, ◌||◌, not, Option, none, some, List, [], ◌∷◌, ◌++◌, Result,
  ok, err, ◌>>=◌, length, leb, ltb, ◌==◌, if◌then◌else◌, take, drop, unwrap_or,
}
use gemini_worker_go.Text.{
  Text, codes, text_eq, is_empty, one_of, trim, to_ascii_lowercase, strip_prefix, starts_with,
  ends_with, split,
}
use gemini_worker_go.Files.{Bytes}
use gemini_worker_go.Url.{UrlParser, ParsedUrl, is_http, host_or_empty}

abbrev pub request_png_webp_threshold_bytes : ℕ
request_png_webp_threshold_bytes = 10 * 1024 * 1024

pub record FetchedInlineData : Type 0 where
  pub mime_type : Text
  pub bytes : Bytes

pub record OptimizedImage : Type 0 where
  pub mime_type : Text
  pub bytes : Bytes

pub data FetchError : Type 0 where
  bad_url invalid_image_url forbidden_target not_sent not_received : FetchError
  status : ℕ → FetchError
  too_large : ℕ → ℕ → FetchError

unfoldable pub enforce_max_size : ℕ → ℕ → Result FetchError (Unit {0})
enforce_max_size actual limit = if ltb limit actual then err (too_large actual limit) else ok tt

unfoldable pub guess_image_mime_type_from_url : Text → Text
unfolding ends_with to_ascii_lowercase
guess_image_mime_type_from_url raw_url =
    let lower = to_ascii_lowercase raw_url in
    if ends_with lower (codes ".jpg") || ends_with lower (codes ".jpeg")
    then codes "image/jpeg"
    else if ends_with lower (codes ".webp")
    then codes "image/webp"
    else if ends_with lower (codes ".gif")
    then codes "image/gif"
    else codes "image/png"

abbrev pub first_or : Text → List Text → Text
first_or d [] = d
first_or d (p ∷ ps) = p

unfoldable pub normalize_image_mime_type : Option Text → Text → Text
unfolding trim to_ascii_lowercase split guess_image_mime_type_from_url
normalize_image_mime_type content_type raw_url =
    let normalized = to_ascii_lowercase (
      trim
        (first_or (codes "image/png") (split b';' (unwrap_or content_type (codes "image/png"))))) in
    if text_eq normalized (codes "application/octet-stream") || is_empty normalized
    then guess_image_mime_type_from_url raw_url
    else normalized

unfoldable pub sniff_image_mime_type : Bytes → Option Text
unfolding starts_with text_eq
sniff_image_mime_type bytes =
    if starts_with bytes (0x89 ∷ b'P' ∷ b'N' ∷ b'G' ∷ 0x0D ∷ 0x0A ∷ 0x1A ∷ 0x0A ∷ [])
    then some (codes "image/png")
    else if starts_with bytes (0xFF ∷ 0xD8 ∷ 0xFF ∷ [])
    then some (codes "image/jpeg")
    else if leb 12 (length bytes)
        && text_eq (take 4 bytes) (codes "RIFF")
        && text_eq (take 4 (drop 8 bytes)) (codes "WEBP")
    then some (codes "image/webp")
    else if starts_with bytes (codes "GIF87a") || starts_with bytes (codes "GIF89a")
    then some (codes "image/gif")
    else none

unfoldable pub matches_pattern : Text → Text → Bool
unfolding text_eq strip_prefix ends_with
matches_pattern hostname pattern =
    if is_empty pattern then false else elim (strip_prefix pattern (codes ".")) [
      | some suffix ↦ text_eq hostname suffix || ends_with hostname pattern
      | none ↦ text_eq hostname pattern
    ]

unfoldable pub any_matches : Text → List Text → Bool
unfolding matches_pattern trim to_ascii_lowercase
any_matches hostname [] = false
any_matches hostname (p ∷ ps) =
    matches_pattern hostname (to_ascii_lowercase (trim p)) || any_matches hostname ps

unfoldable pub hostname_matches_domain_patterns : Text → List Text → Bool
unfolding any_matches trim to_ascii_lowercase
hostname_matches_domain_patterns hostname patterns =
    let host = to_ascii_lowercase (trim hostname) in
    if is_empty host then false else any_matches host patterns

-- The chunks of a body, which end or break off.
pub data Body : Type 0 where
  body_end body_broken : Body
  chunk : Bytes → Body → Body

pub record Response : Type 0 where
  pub status : ℕ
  pub content_length : Option ℕ
  pub content_type : Option Text
  pub body : Body

-- The `while let` loop, with the bytes read before it.
unfoldable pub read_body : ℕ → Bytes → Body → Result FetchError Bytes
unfolding enforce_max_size
read_body limit bytes body_end = ok bytes
read_body limit bytes body_broken = err not_received
read_body limit bytes (chunk c more) =
    let total_bytes = length bytes + length c in
    enforce_max_size total_bytes limit >>= (λ _. read_body limit (bytes ++ c) more)

abbrev pub enforce_content_length : Option ℕ → ℕ → Result FetchError (Unit {0})
enforce_content_length none limit = ok tt
enforce_content_length (some n) limit = enforce_max_size n limit

unfoldable pub receive : Text → ℕ → Response → Result FetchError FetchedInlineData
unfolding read_body normalize_image_mime_type enforce_max_size
receive raw_url max_image_bytes response =
    if not (leb 200 response.status && ltb response.status 300)
    then err (FetchError.status response.status)
    else enforce_content_length response.content_length max_image_bytes >>= (λ _.
      read_body max_image_bytes [] response.body >>= (λ bytes. ok (record {
        mime_type = normalize_image_mime_type response.content_type raw_url;
        bytes = bytes;
      })))

unfoldable pub answer_of : Text → ℕ → Option Response → Result FetchError FetchedInlineData
unfolding receive
answer_of raw_url max_image_bytes none = err not_sent
answer_of raw_url max_image_bytes (some response) = receive raw_url max_image_bytes response

-- `forbidden` is `is_forbidden_fetch_target`, which asks `std::net::IpAddr`; `send` is the client.
unfoldable pub fetch_parsed :
    (ParsedUrl → Bool)
    → (ParsedUrl → Option Response)
    → Text
    → ℕ
    → Bool
    → Result Text ParsedUrl
    → Result FetchError FetchedInlineData
unfolding answer_of
fetch_parsed forbidden send raw_url max_image_bytes allow_private_networks (err e) = err bad_url
fetch_parsed forbidden send raw_url max_image_bytes allow_private_networks (ok parsed) =
    if not (is_http parsed) || is_empty (host_or_empty parsed)
    then err invalid_image_url
    else if not allow_private_networks && forbidden parsed
    then err forbidden_target
    else answer_of raw_url max_image_bytes (send parsed)

unfoldable pub fetch_image_as_inline_data_with_options :
    UrlParser
    → (ParsedUrl → Bool)
    → (ParsedUrl → Option Response)
    → Text
    → ℕ
    → Bool
    → Result FetchError FetchedInlineData
unfolding fetch_parsed
fetch_image_as_inline_data_with_options parse forbidden send raw_url max_image_bytes
      allow_private_networks =
    fetch_parsed forbidden send raw_url max_image_bytes allow_private_networks (parse raw_url)

-- The last argument is decoding the PNG and encoding it anew.
unfoldable pub recoded :
    {E : Type 0} → Text → Text → Bytes → Result E Bytes → Result E OptimizedImage
recoded normalized_mime to bytes r = r >>= (λ encoded.
    if leb (length bytes) (length encoded)
    then ok (record { mime_type = normalized_mime; bytes = bytes })
    else ok (record { mime_type = to; bytes = encoded }))

unfoldable pub maybe_compress_png_bytes_with_options :
    {E : Type 0}
    → (ℕ → Bytes → Result E Bytes)
    → Bytes
    → Text
    → Bool
    → ℕ
    → ℕ
    → Result E OptimizedImage
unfolding recoded trim to_ascii_lowercase
maybe_compress_png_bytes_with_options to_jpeg bytes mime_type enabled threshold_bytes jpeg_quality =
    let normalized_mime = to_ascii_lowercase (trim mime_type) in
    if not enabled
      || not (text_eq normalized_mime (codes "image/png"))
      || leb (length bytes) threshold_bytes
    then ok (record { mime_type = normalized_mime; bytes = bytes })
    else recoded normalized_mime (codes "image/jpeg") bytes (to_jpeg jpeg_quality bytes)

unfoldable pub maybe_convert_png_bytes_to_lossless_webp_with_threshold :
    {E : Type 0} → (Bytes → Result E Bytes) → Bytes → Text → ℕ → Result E OptimizedImage
unfolding recoded trim to_ascii_lowercase
maybe_convert_png_bytes_to_lossless_webp_with_threshold to_webp bytes mime_type threshold_bytes =
    let normalized_mime = to_ascii_lowercase (trim mime_type) in
    if not (text_eq normalized_mime (codes "image/png")) || leb (length bytes) threshold_bytes
    then ok (record { mime_type = normalized_mime; bytes = bytes })
    else recoded normalized_mime (codes "image/webp") bytes (to_webp bytes)

-- A conversion that fails leaves the image as it was.
unfoldable pub maybe_convert_large_png_to_lossless_webp :
    {E : Type 0} → (Bytes → Result E Bytes) → FetchedInlineData → FetchedInlineData
unfolding maybe_convert_png_bytes_to_lossless_webp_with_threshold
maybe_convert_large_png_to_lossless_webp to_webp fetched =
    elim (maybe_convert_png_bytes_to_lossless_webp_with_threshold to_webp fetched.bytes
      fetched.mime_type request_png_webp_threshold_bytes) [
        | err e ↦ fetched
        | ok image ↦ record { mime_type = image.mime_type; bytes = image.bytes }
      ]

-- `in_time` is false where the timeout passes first.
unfoldable pub maybe_convert_large_png_to_lossless_webp_with_timeout :
    {E : Type 0} → (Bytes → Result E Bytes) → Bool → FetchedInlineData → ℕ → FetchedInlineData
unfolding maybe_convert_large_png_to_lossless_webp
maybe_convert_large_png_to_lossless_webp_with_timeout to_webp in_time fetched timeout =
    if timeout == 0 || in_time
    then maybe_convert_large_png_to_lossless_webp to_webp fetched
    else fetched
