-- ===== src/Upload/Sign.antt =====
-- rust-sync-proxy/src/upload.rs: what a request to R2 is signed with. The digests of `sha2` and `hmac` and
-- the crate `url` are parameters.
use gemini_worker_go.Prelude.{
  ℕ, ◌+◌, ◌/◌, ◌%◌, Option, ◌≡◌, List, [], ◌∷◌, ◌++◌, leb, if◌then◌else◌, unwrap_or, map,
}
use gemini_worker_go.Text.{Text, codes, trim, trim_start_by, trim_end_by, split}
use gemini_worker_go.Files.{Bytes}
use gemini_worker_go.Url.{UrlParser, ParsedUrl}
use gemini_worker_go.Upload.{OffsetDateTime, padded, is_slash}

-- `str::as_bytes`
abbrev utf8 : ℕ → Bytes
utf8 c =
    if leb c 0x7f
    then (c ∷ [])
    else if leb c 0x7ff
    then ((192 + c / 64) ∷ (128 + c % 64) ∷ [])
    else if leb c 0xffff
    then ((224 + c / 4096) ∷ (128 + c / 64 % 64) ∷ (128 + c % 64) ∷ [])
    else ((240 + c / 262144) ∷ (128 + c / 4096 % 64) ∷ (128 + c / 64 % 64) ∷ (128 + c % 64) ∷ [])

unfoldable pub as_bytes : Text → Bytes
as_bytes [] = []
as_bytes (c ∷ s) = utf8 c ++ as_bytes s

-- `Sha256` with its hasher, whose updates add up, and `hex::encode`; `hmac` fails where `new_from_slice`
-- does.
pub record Digests : Type 1 where
  pub Hasher : Type 0
  pub fresh : Hasher
  pub update : Bytes → Hasher → Hasher
  pub finalize : Hasher → Bytes
  pub update-update : (a b : Bytes) (h : Hasher) → update b (update a h) ≡ update (a ++ b) h
  pub update-nil : (h : Hasher) → update [] h ≡ h
  pub hmac : Bytes → Bytes → Option Bytes
  pub hex : Bytes → Text

-- What is called of the crate `url`: `path` of an endpoint, and `to_string` after `set_path`.
pub record UrlTools : Type 0 where
  pub parse : UrlParser
  pub path : ParsedUrl → Text
  pub with_path : ParsedUrl → Text → Text
  pub byte_serialize : Text → Text

-- The time of a request, to the second.
pub record SignTime : Type 0 where
  pub date : OffsetDateTime
  pub hour : ℕ
  pub minute : ℕ
  pub second : ℕ

abbrev pub join_slash : List Text → Text
join_slash [] = []
join_slash (p ∷ []) = p
join_slash (p ∷ q ∷ ps) = p ++ codes "/" ++ join_slash (q ∷ ps)

-- The items of `format_description!`.
pub data FormatItem : Type 0 where
  year_item month_item day_item hour_item minute_item second_item : FormatItem
  literal : Text → FormatItem

abbrev item_text : SignTime → FormatItem → Text
item_text now year_item = padded 4 now.date.year
item_text now month_item = padded 2 now.date.month
item_text now day_item = padded 2 now.date.day
item_text now hour_item = padded 2 now.hour
item_text now minute_item = padded 2 now.minute
item_text now second_item = padded 2 now.second
item_text now (literal text) = text

unfoldable pub format : List FormatItem → SignTime → Text
format [] now = []
format (item ∷ items) now = item_text now item ++ format items now

module _ (digests : Digests) (urls : UrlTools) where
  open digests use {fresh, update, finalize, hmac, hex}
  open urls use {parse, path, with_path, byte_serialize}

  unfoldable pub sha256 : Bytes → Bytes
  sha256 bytes = finalize (update bytes fresh)

  unfoldable pub sha256_hex : Bytes → Text
  unfolding sha256
  sha256_hex bytes = hex (sha256 bytes)

  unfoldable pub hmac_sha256 : Bytes → Text → Option Bytes
  unfolding as_bytes
  hmac_sha256 key text = hmac key (as_bytes text)

  unfoldable pub derive_aws_v4_signing_key : Text → Text → Text → Text → Bytes
  unfolding hmac_sha256 as_bytes
  derive_aws_v4_signing_key secret_access_key date_stamp region service =
      let k_date =
        unwrap_or (hmac_sha256 (as_bytes (codes "AWS4" ++ secret_access_key)) date_stamp) [] in
      let k_region = unwrap_or (hmac_sha256 k_date region) [] in
      let k_service = unwrap_or (hmac_sha256 k_region service) [] in
      unwrap_or (hmac_sha256 k_service (codes "aws4_request")) []

  -- The URL of the object, and the path that is signed.
  unfoldable pub build_r2_object_url : ParsedUrl → Text → Text → Text × Text
  unfolding trim trim_start_by trim_end_by split
  build_r2_object_url endpoint bucket key =
      let bucket' = trim bucket in
      let key' = trim_start_by is_slash (trim key) in
      (
        with_path endpoint
            (trim_end_by is_slash (path endpoint) ++ (codes "/" ++ bucket' ++ codes "/" ++ key')),
        codes "/"
            ++ byte_serialize bucket'
            ++ codes "/"
            ++ join_slash (map byte_serialize (split b'/' key')),
      )
