-- ===== src/Upload.antt =====
-- rust-sync-proxy/src/upload.rs: where an image is uploaded to, and the reader that decodes base64
-- while it is sent.
pub mod Reader
pub mod Sign
pub mod R2
use gemini_worker_go.Prelude.{
  ℕ, zero, suc, ◌+◌, ◌*◌, ◌/◌, ◌%◌, ◌-◌, Bool, Option, none, some, List, [], ◌∷◌, ◌++◌, Result, ok,
  err, ◌>>=◌, length, leb, ltb, ◌==◌, ◌&&◌, ◌||◌, not, if◌then◌else◌,
}
use gemini_worker_go.Text.{
  Text, codes, text_eq, is_empty, one_of, trim, trim_start_by, trim_end_by, to_ascii_lowercase,
  ends_with,
}
use gemini_worker_go.Text.Decimal.{decimal}

pub data ImageHostMode : Type 0 where
  legacy r2 r2_then_legacy : ImageHostMode

pub record UploadResult : Type 0 where
  pub url : Text
  pub provider : Text

pub data UploadError : Type 0 where
  unsupported_mode : Text → UploadError
  not_sent not_received bad_mime_type : UploadError
  uguu_status : ℕ → Text → UploadError
  invalid_json upload_failed : Text → UploadError

unfoldable pub parse_image_host_mode : Text → Result UploadError ImageHostMode
unfolding trim to_ascii_lowercase one_of text_eq
parse_image_host_mode raw =
    let mode = to_ascii_lowercase (trim raw) in
    if one_of mode (codes "" ∷ codes "legacy" ∷ [])
    then ok legacy
    else if text_eq mode (codes "r2")
    then ok r2
    else if text_eq mode (codes "r2_then_legacy")
    then ok r2_then_legacy
    else err (unsupported_mode mode)

abbrev pub or_else {ℓ} : {E A : Type ℓ} → Result E A → Result E A → Result E A
or_else (ok a) second = ok a
or_else (err e) second = second

-- The `match` that `upload_image`, `upload_blob`, `upload_inline_data_base64` and
-- `upload_image_with_mode` share: the two uploads are what each of them would give.
unfoldable pub upload_image_with_mode :
    ImageHostMode
    → Result UploadError UploadResult
    → Result UploadError UploadResult
    → Result UploadError UploadResult
upload_image_with_mode legacy r2_uploader legacy_uploader = legacy_uploader
upload_image_with_mode r2 r2_uploader legacy_uploader = r2_uploader
upload_image_with_mode r2_then_legacy r2_uploader legacy_uploader =
    or_else r2_uploader legacy_uploader

unfoldable pub upload_image :
    Text
    → Result UploadError UploadResult
    → Result UploadError UploadResult
    → Result UploadError UploadResult
unfolding parse_image_host_mode upload_image_with_mode
upload_image image_host_mode r2_upload legacy_upload =
    parse_image_host_mode image_host_mode
    >>= (λ mode. upload_image_with_mode mode r2_upload legacy_upload)

-- What an image host answers: no response, one whose body breaks off, or a status and a text.
pub data HostAnswer : Type 0 where
  no_response : UploadError → HostAnswer
  broken : ℕ → HostAnswer
  text_body : ℕ → Text → HostAnswer

pub record UguuResponse : Type 0 where
  pub success : Bool
  -- the `url` of each of the `files`
  pub files : List Text

pub record KefanResponse : Type 0 where
  pub success : Bool
  pub link : Text

abbrev uguu_file : Bool → List Text → Text → Result UploadError Text
uguu_file success [] body = err (upload_failed (trim body))
uguu_file success (url ∷ urls) body =
    if not success || is_empty (trim url) then err (upload_failed (trim body)) else ok url

abbrev uguu_parsed : Text → Option UguuResponse → Result UploadError Text
uguu_parsed body none = err (invalid_json (trim body))
uguu_parsed body (some parsed) = uguu_file parsed.success parsed.files body

-- `from_str` is `serde_json::from_str`.
unfoldable pub upload_to_uguu : (Text → Option UguuResponse) → HostAnswer → Result UploadError Text
unfolding trim
upload_to_uguu from_str (no_response e) = err e
upload_to_uguu from_str (broken status) = err not_received
upload_to_uguu from_str (text_body status body) =
    if not (leb 200 status && ltb status 300)
    then err (uguu_status status (trim body))
    else uguu_parsed body (from_str body)

abbrev kefan_parsed : Text → Option KefanResponse → Result UploadError Text
kefan_parsed body none = err (invalid_json (trim body))
kefan_parsed body (some parsed) =
    if not parsed.success || is_empty (trim parsed.link)
    then err (upload_failed (trim body))
    else ok parsed.link

unfoldable pub upload_to_kefan :
    (Text → Option KefanResponse) → HostAnswer → Result UploadError Text
unfolding trim
upload_to_kefan from_str (no_response e) = err e
upload_to_kefan from_str (broken status) = err not_received
upload_to_kefan from_str (text_body status body) = kefan_parsed body (from_str body)

abbrev pub by_legacy : Text → UploadResult
by_legacy url = record { url = url; provider = codes "legacy" }

-- What the two hosts give for the image.
unfoldable pub upload_legacy :
    Result UploadError Text → Result UploadError Text → Result UploadError UploadResult
upload_legacy uguu kefan =
    or_else (uguu >>= (λ url. ok (by_legacy url))) (kefan >>= (λ url. ok (by_legacy url)))

-- `byte_serialize` of the crate `url`.
unfoldable pub wrap_external_proxy_url : (Text → Text) → Text → Text → Text
unfolding trim
wrap_external_proxy_url byte_serialize external_proxy_prefix target_url =
    trim external_proxy_prefix ++ byte_serialize target_url

unfoldable pub extension_from_mime : Text → Text
unfolding text_eq
extension_from_mime mime_type =
    if text_eq mime_type (codes "image/jpeg")
    then codes ".jpg"
    else if text_eq mime_type (codes "image/webp")
    then codes ".webp"
    else if text_eq mime_type (codes "image/gif")
    then codes ".gif"
    else codes ".png"

pub record OffsetDateTime : Type 0 where
  pub year : ℕ
  pub month : ℕ
  pub day : ℕ
  pub unix_timestamp_nanos : ℕ

abbrev zeros : ℕ → Text
zeros zero = []
zeros (suc n) = b'0' ∷ zeros n

-- `{:0w}`
abbrev pub padded : ℕ → ℕ → Text
padded w n = zeros (w - length (decimal n)) ++ decimal n

abbrev is_slash : ℕ → Bool
is_slash c = c == b'/'

abbrev is_dot : ℕ → Bool
is_dot c = c == b'.'

unfoldable pub build_r2_object_key : Text → Text → OffsetDateTime → Text → Text
unfolding trim trim_start_by trim_end_by extension_from_mime decimal
build_r2_object_key prefix mime_type now random_hex =
    let trimmed = trim_end_by is_slash (trim_start_by is_slash (trim prefix)) in
    let folder = if is_empty trimmed then codes "images" else trimmed in
    folder
    ++ codes "/"
    ++ padded 4 now.year
    ++ codes "/"
    ++ padded 2 now.month
    ++ codes "/"
    ++ padded 2 now.day
    ++ codes "/"
    ++ decimal (now.unix_timestamp_nanos / 1_000_000)
    ++ codes "-"
    ++ random_hex
    ++ codes "."
    ++ trim_start_by is_dot (extension_from_mime mime_type)
