-- ===== src/Upload/R2/FromBytes.antt =====
-- rust-sync-proxy/src/upload.rs, `upload_r2`: the bytes of an image.
use gemini_worker_go.Prelude.{
  Option, none, some, [], ◌∷◌, ◌++◌, Result, ok, err, ◌>>=◌, leb, ltb, ◌&&◌, if◌then◌else◌,
  unwrap_or,
}
use gemini_worker_go.Text.{Text, codes, trim, trim_end_by}
use gemini_worker_go.Files.{Bytes}
use gemini_worker_go.Url.{ParsedUrl, host_or_empty}
use gemini_worker_go.Config.{Config}
use gemini_worker_go.Upload.{UploadResult, build_r2_object_key, is_slash}
use gemini_worker_go.Upload.Sign.{
  as_bytes, Digests, UrlTools, SignTime, year_item, month_item, day_item, hour_item, minute_item,
  second_item, literal, format, sha256_hex, hmac_sha256, derive_aws_v4_signing_key,
  build_r2_object_url,
}
use gemini_worker_go.Upload.R2.{
  R2Error, bad_key, not_sent, put_failed, PutRequest, R2Answer, no_answer, answered, or_error, Call,
  endpoint_of,
}

abbrev pub amz_date_of_bytes : SignTime → Text
amz_date_of_bytes now =
    format
      (year_item
        ∷ month_item
        ∷ day_item
        ∷ literal (codes "T")
        ∷ hour_item
        ∷ minute_item
        ∷ second_item
        ∷ literal (codes "Z")
        ∷ [])
      now

unfoldable pub answer_of_bytes : Config → Text → R2Answer → Result R2Error UploadResult
answer_of_bytes config key no_answer = err not_sent
answer_of_bytes config key (answered status text) =
    if leb 200 status && ltb status 300
    then ok (record {
      url = trim_end_by is_slash config.r2_public_base_url ++ codes "/" ++ key;
      provider = codes "r2";
    })
    else err (put_failed status (trim (unwrap_or text [])))

module _ (digests : Digests) (urls : UrlTools) where
  unfoldable pub authorization_of_bytes :
      Config → ParsedUrl → Text → Text → Text → SignTime → Option Text
  unfolding sha256_hex hmac_sha256 derive_aws_v4_signing_key as_bytes format
  authorization_of_bytes config endpoint canonical_uri mime_type payload_hash now =
      let amz_date = amz_date_of_bytes now in
      let date_stamp = format (year_item ∷ month_item ∷ day_item ∷ []) now in
      let canonical_headers =
        codes "content-type:"
        ++ mime_type
        ++ codes "\nhost:"
        ++ host_or_empty endpoint
        ++ codes "\nx-amz-content-sha256:"
        ++ payload_hash
        ++ codes "\nx-amz-date:"
        ++ amz_date
        ++ codes "\n" in
      let signed_headers = codes "content-type;host;x-amz-content-sha256;x-amz-date" in
      let canonical_request =
        codes "PUT\n"
        ++ canonical_uri
        ++ codes "\n\n"
        ++ canonical_headers
        ++ codes "\n"
        ++ signed_headers
        ++ codes "\n"
        ++ payload_hash in
      let credential_scope = date_stamp ++ codes "/auto/s3/aws4_request" in
      let string_to_sign =
        codes "AWS4-HMAC-SHA256\n"
        ++ amz_date
        ++ codes "\n"
        ++ credential_scope
        ++ codes "\n"
        ++ sha256_hex digests urls (as_bytes canonical_request) in
      let signing_key =
        derive_aws_v4_signing_key digests urls config.r2_secret_access_key date_stamp (codes "auto")
          (codes "s3") in
      elim (hmac_sha256 digests urls signing_key string_to_sign) [
        | none ↦ none
        | some signature ↦ some (
            codes "AWS4-HMAC-SHA256 Credential="
            ++ config.r2_access_key_id
            ++ codes "/"
            ++ credential_scope
            ++ codes ", SignedHeaders="
            ++ signed_headers
            ++ codes ", Signature="
            ++ digests.hex signature)
      ]

  unfoldable pub upload_r2 :
      Config → (PutRequest → R2Answer) → Call → Bytes → Text → Result R2Error UploadResult
  unfolding build_r2_object_key build_r2_object_url authorization_of_bytes sha256_hex format
      trim_end_by
  upload_r2 config send call bytes mime_type = endpoint_of urls config >>= (λ endpoint.
      let key =
        build_r2_object_key config.r2_object_prefix mime_type call.key_time call.random_hex in
      let (object_url, canonical_uri) =
        build_r2_object_url digests urls endpoint config.r2_bucket key in
      let payload_hash = sha256_hex digests urls bytes in
      or_error bad_key
        (authorization_of_bytes config endpoint canonical_uri mime_type payload_hash call.sign_time)
      >>= (λ authorization. answer_of_bytes config key (
          send (record {
            object_url = object_url;
            content_type = mime_type;
            content_length = none;
            x_amz_content_sha256 = payload_hash;
            x_amz_date = amz_date_of_bytes call.sign_time;
            authorization = authorization;
            body = bytes;
          }))))
