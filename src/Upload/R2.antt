-- ===== src/Upload/R2.antt =====
-- rust-sync-proxy/src/upload.rs: uploads to R2. Each child has one of the three ways with its own signature
-- and answer, as the source has them; the HTTP client is an argument.
pub mod FromBytes
pub mod FromBlob
pub mod FromBase64
pub mod Same
use gemini_worker_go.Prelude.{
  ℕ, Bool, true, Option, none, some, List, [], ◌∷◌, ◌++◌, Result, ok, err, ◌>>=◌, length, leb, ltb,
  ◌&&◌, if◌then◌else◌, unwrap_or,
}
use gemini_worker_go.Text.{Text, codes, trim, trim_start_by, trim_end_by}
use gemini_worker_go.Files.{Bytes, IoError}
use gemini_worker_go.Url.{ParsedUrl, host_or_empty}
use gemini_worker_go.Config.{Config}
use gemini_worker_go.Blob.{
  BlobHandle, BlobRuntime, BlobStorage, inline, shared, spilled, StreamEvent, read_bytes,
}
use gemini_worker_go.Upload.{UploadResult, OffsetDateTime, build_r2_object_key, is_slash}
use gemini_worker_go.Upload.Reader.{DecodeError, decoded_base64_len, sha256_hex_base64, new}
use gemini_worker_go.Upload.Reader.Refines.{polls}
use gemini_worker_go.Upload.Sign.{
  as_bytes, Digests, UrlTools, SignTime, FormatItem, year_item, month_item, day_item, hour_item,
  minute_item, second_item, literal, format, sha256, sha256_hex, hmac_sha256,
  derive_aws_v4_signing_key, build_r2_object_url,
}

pub data R2Error : Type 0 where
  bad_endpoint : Text → R2Error
  bad_key not_sent not_read : R2Error
  bad_base64 : DecodeError → R2Error
  put_failed : ℕ → Text → R2Error

-- The request as the program makes it; without a length, the client takes that of the body.
pub record PutRequest : Type 0 where
  pub object_url : Text
  pub content_type : Text
  pub content_length : Option ℕ
  pub x_amz_content_sha256 : Text
  pub x_amz_date : Text
  pub authorization : Text
  pub body : Bytes

-- No response, or a status with a text that may break off.
pub data R2Answer : Type 0 where
  no_answer : R2Answer
  answered : ℕ → Option Text → R2Answer

abbrev pub or_error {ℓ} : {E A : Type ℓ} → E → Option A → Result E A
or_error e none = err e
or_error e (some a) = ok a

-- What a call meets: the clock, twice, and the random digits.
pub record Call : Type 0 where
  pub key_time : OffsetDateTime
  pub sign_time : SignTime
  pub random_hex : Text

-- `Url::parse(&self.config.r2_endpoint)?`
abbrev pub endpoint_of : UrlTools → Config → Result R2Error ParsedUrl
endpoint_of urls config = elim (urls.parse config.r2_endpoint) [
  | err e ↦ err (bad_endpoint e)
  | ok u ↦ ok u
]

-- The last argument is what the reader gives; the client fails where the reader does.
unfoldable pub put_object_stream :
    (PutRequest → R2Answer) → Text → Text → Text → Text → Text → ℕ → Option Bytes → R2Answer
put_object_stream send object_url authorization amz_date payload_hash mime_type content_length
      none =
    no_answer
put_object_stream send object_url authorization amz_date payload_hash mime_type content_length
      (some body) =
    send (record {
      object_url = object_url;
      content_type = mime_type;
      content_length = some content_length;
      x_amz_content_sha256 = payload_hash;
      x_amz_date = amz_date;
      authorization = authorization;
      body = body;
    })
