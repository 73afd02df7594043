-- ===== src/Upload/R2/FromBase64.antt =====
-- rust-sync-proxy/src/upload.rs, `upload_r2_base64`: base64 text that is decoded while it is sent.
use gemini_worker_go.Prelude.{
  ℕ, Option, none, some, List, [], ◌∷◌, ◌++◌, Result, ok, err, ◌>>=◌, leb, ltb, ◌&&◌, if◌then◌else◌,
  unwrap_or,
}
use gemini_worker_go.Text.{Text, codes, trim, trim_end_by}
use gemini_worker_go.Files.{Bytes}
use gemini_worker_go.Url.{ParsedUrl, host_or_empty}
use gemini_worker_go.Config.{Config}
use gemini_worker_go.Upload.{UploadResult, build_r2_object_key, is_slash}
use gemini_worker_go.Upload.Reader.{DecodeError, decoded_base64_len, sha256_hex_base64, new}
use gemini_worker_go.Upload.Reader.Refines.{polls}
use gemini_worker_go.Upload.Sign.{
  as_bytes, Digests, UrlTools, SignTime, year_item, month_item, day_item, hour_item, minute_item,
  second_item, literal, format, sha256, sha256_hex, hmac_sha256, derive_aws_v4_signing_key,
  build_r2_object_url,
}
use gemini_worker_go.Upload.R2.{
  R2Error, bad_key, not_sent, bad_base64, put_failed, PutRequest, R2Answer, no_answer, answered,
  or_error, Call, endpoint_of, put_object_stream,
}

abbrev pub decoded_as : {A : Type 0} → Result DecodeError A → Result R2Error A
decoded_as (err e) = err (bad_base64 e)
decoded_as (ok a) = ok a

abbrev pub amz_date_of_base64 : SignTime → Text
amz_date_of_base64 now =
    format
      (year_item
        ∷ month_item
        ∷ day_item
        ∷ literal (codes "T")
        ∷ hour_item
        ∷ minute_item
        ∷ second_item
        ∷ literal (codes "Z")
        ∷ [])
      now

unfoldable pub answer_of_base64 : Config → Text → R2Answer → Result R2Error UploadResult
answer_of_base64 config key no_answer = err not_sent
answer_of_base64 config key (answered status text) =
    if leb 200 status && ltb status 300
    then ok (record {
      url = trim_end_by is_slash config.r2_public_base_url ++ codes "/" ++ key;
      provider = codes "r2";
    })
    else err (put_failed status (trim (unwrap_or text [])))

module _ (digests : Digests) (urls : UrlTools) where
  unfoldable pub authorization_of_base64 :
      Config → ParsedUrl → Text → Text → Text → SignTime → Option Text
  unfolding sha256_hex hmac_sha256 derive_aws_v4_signing_key as_bytes format
  authorization_of_base64 config endpoint canonical_uri mime_type payload_hash now =
      let amz_date = amz_date_of_base64 now in
      let date_stamp = format (year_item ∷ month_item ∷ day_item ∷ []) now in
      let canonical_headers =
        codes "content-type:"
        ++ mime_type
        ++ codes "\nhost:"
        ++ host_or_empty endpoint
        ++ codes "\nx-amz-content-sha256:"
        ++ payload_hash
        ++ codes "\nx-amz-date:"
        ++ amz_date
        ++ codes "\n" in
      let signed_headers = codes "content-type;host;x-amz-content-sha256;x-amz-date" in
      let canonical_request =
        codes "PUT\n"
        ++ canonical_uri
        ++ codes "\n\n"
        ++ canonical_headers
        ++ codes "\n"
        ++ signed_headers
        ++ codes "\n"
        ++ payload_hash in
      let credential_scope = date_stamp ++ codes "/auto/s3/aws4_request" in
      let string_to_sign =
        codes "AWS4-HMAC-SHA256\n"
        ++ amz_date
        ++ codes "\n"
        ++ credential_scope
        ++ codes "\n"
        ++ sha256_hex digests urls (as_bytes canonical_request) in
      let signing_key =
        derive_aws_v4_signing_key digests urls config.r2_secret_access_key date_stamp (codes "auto")
          (codes "s3") in
      elim (hmac_sha256 digests urls signing_key string_to_sign) [
        | none ↦ none
        | some signature ↦ some (
            codes "AWS4-HMAC-SHA256 Credential="
            ++ config.r2_access_key_id
            ++ codes "/"
            ++ credential_scope
            ++ codes ", SignedHeaders="
            ++ signed_headers
            ++ codes ", Signature="
            ++ digests.hex signature)
      ]

  -- The client polls the reader with buffers of these sizes.
  unfoldable pub upload_r2_base64 :
      (ℕ → Bytes → Result DecodeError Bytes)
      → List ℕ
      → Config
      → (PutRequest → R2Answer)
      → Call
      → Bytes
      → Text
      → Result R2Error UploadResult
  unfolding build_r2_object_key build_r2_object_url authorization_of_base64 sha256 sha256_hex_base64
      decoded_base64_len polls put_object_stream format trim_end_by
  upload_r2_base64 decode_slice sizes config send call data_base64 mime_type =
      endpoint_of urls config >>= (λ endpoint.
        let key =
          build_r2_object_key config.r2_object_prefix mime_type call.key_time call.random_hex in
        let (object_url, canonical_uri) =
          build_r2_object_url digests urls endpoint config.r2_bucket key in
        decoded_as (sha256_hex_base64 decode_slice data_base64 (sha256 digests urls)) >>= (λ digest.
          let payload_hash = digests.hex digest in
          decoded_as (decoded_base64_len data_base64) >>= (λ content_length.
            or_error bad_key (
              authorization_of_base64 config endpoint canonical_uri mime_type payload_hash
                call.sign_time)
            >>= (λ authorization. answer_of_base64 config key (
                put_object_stream send object_url authorization (amz_date_of_base64 call.sign_time)
                  payload_hash mime_type content_length
                  (polls decode_slice data_base64 sizes new))))))
