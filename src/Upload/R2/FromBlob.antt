-- ===== src/Upload/R2/FromBlob.antt =====
-- rust-sync-proxy/src/upload.rs, `upload_r2_blob`: a blob, which is read for its digest, piece by piece, and
-- opened again for the body.
use gemini_worker_go.Prelude.{
  Bool, Option, none, some, List, [], ◌∷◌, ◌++◌, Result, ok, err, ◌>>=◌, leb, ltb, ◌&&◌,
  if◌then◌else◌, unwrap_or,
}
use gemini_worker_go.Text.{Text, codes, trim, trim_end_by}
use gemini_worker_go.Files.{Bytes, IoError}
use gemini_worker_go.Url.{ParsedUrl, host_or_empty}
use gemini_worker_go.Config.{Config}
use gemini_worker_go.Blob.{BlobHandle, BlobRuntime, inline, shared, spilled, read_bytes}
use gemini_worker_go.Upload.{UploadResult, build_r2_object_key, is_slash}
use gemini_worker_go.Upload.Sign.{
  as_bytes, Digests, UrlTools, SignTime, year_item, month_item, day_item, hour_item, minute_item,
  second_item, literal, format, sha256_hex, hmac_sha256, derive_aws_v4_signing_key,
  build_r2_object_url,
}
use gemini_worker_go.Upload.R2.{
  R2Error, bad_key, not_sent, not_read, put_failed, PutRequest, R2Answer, no_answer, answered,
  or_error, Call, endpoint_of, put_object_stream,
}

-- What one read of an open file or buffer gives: bytes, none at the end, or an error.
pub data ReadEvent : Type 0 where
  read_some : Bytes → ReadEvent
  read_failed : ReadEvent

-- If the blob's file opens, and the reads of what it holds.
pub record Reading : Type 0 where
  pub opens : Bool
  pub reads : Bytes → List ReadEvent

-- `ReaderStream`: what the client takes of the reader, unless the reader fails.
unfoldable pub gathered : List ReadEvent → Option Bytes
gathered [] = some []
gathered (read_failed ∷ events) = none
gathered (read_some [] ∷ events) = some []
gathered (read_some (b ∷ bytes) ∷ events) = elim (gathered events) [
  | none ↦ none
  | some rest ↦ some ((b ∷ bytes) ++ rest)
]

-- `BlobRuntime::open_reader`, and the reads of its reader.
abbrev pub opened :
    (Bytes → List ReadEvent) → Result IoError Bytes → Result R2Error (List ReadEvent)
opened reads (err e) = err not_read
opened reads (ok content) = ok (reads content)

abbrev pub open_reader : Reading → BlobHandle → BlobRuntime → Result R2Error (List ReadEvent)
open_reader reading blob runtime = opened reading.reads (read_bytes reading.opens blob runtime)

abbrev pub amz_date_of_blob : SignTime → Text
amz_date_of_blob now =
    format
      (year_item
        ∷ month_item
        ∷ day_item
        ∷ literal (codes "T")
        ∷ hour_item
        ∷ minute_item
        ∷ second_item
        ∷ literal (codes "Z")
        ∷ [])
      now

unfoldable pub answer_of_blob : Config → Text → R2Answer → Result R2Error UploadResult
answer_of_blob config key no_answer = err not_sent
answer_of_blob config key (answered status text) =
    if leb 200 status && ltb status 300
    then ok (record {
      url = trim_end_by is_slash config.r2_public_base_url ++ codes "/" ++ key;
      provider = codes "r2";
    })
    else err (put_failed status (trim (unwrap_or text [])))

module _ (digests : Digests) (urls : UrlTools) where
  -- The loop of `sha256_hex_blob`, and the digest at its end.
  unfoldable pub hash_reads : List ReadEvent → digests.Hasher → Result R2Error Bytes
  hash_reads [] hasher = ok (digests.finalize hasher)
  hash_reads (read_failed ∷ events) hasher = err not_read
  hash_reads (read_some [] ∷ events) hasher = ok (digests.finalize hasher)
  hash_reads (read_some (b ∷ bytes) ∷ events) hasher =
      hash_reads events (digests.update (b ∷ bytes) hasher)

  unfoldable pub sha256_hex_blob : Reading → BlobHandle → BlobRuntime → Result R2Error Text
  unfolding hash_reads sha256_hex read_bytes
  sha256_hex_blob reading blob runtime = elim blob.storage [
    | inline bytes ↦ ok (sha256_hex digests urls bytes)
    | shared bytes ↦ ok (sha256_hex digests urls bytes)
    | spilled path ↦
        open_reader reading blob runtime
        >>= (λ events. hash_reads events digests.fresh >>= (λ digest. ok (digests.hex digest)))
  ]

  unfoldable pub authorization_of_blob :
      Config → ParsedUrl → Text → Text → Text → SignTime → Option Text
  unfolding sha256_hex hmac_sha256 derive_aws_v4_signing_key as_bytes format
  authorization_of_blob config endpoint canonical_uri mime_type payload_hash now =
      let amz_date = amz_date_of_blob now in
      let date_stamp = format (year_item ∷ month_item ∷ day_item ∷ []) now in
      let canonical_headers =
        codes "content-type:"
        ++ mime_type
        ++ codes "\nhost:"
        ++ host_or_empty endpoint
        ++ codes "\nx-amz-content-sha256:"
        ++ payload_hash
        ++ codes "\nx-amz-date:"
        ++ amz_date
        ++ codes "\n" in
      let signed_headers = codes "content-type;host;x-amz-content-sha256;x-amz-date" in
      let canonical_request =
        codes "PUT\n"
        ++ canonical_uri
        ++ codes "\n\n"
        ++ canonical_headers
        ++ codes "\n"
        ++ signed_headers
        ++ codes "\n"
        ++ payload_hash in
      let credential_scope = date_stamp ++ codes "/auto/s3/aws4_request" in
      let string_to_sign =
        codes "AWS4-HMAC-SHA256\n"
        ++ amz_date
        ++ codes "\n"
        ++ credential_scope
        ++ codes "\n"
        ++ sha256_hex digests urls (as_bytes canonical_request) in
      let signing_key =
        derive_aws_v4_signing_key digests urls config.r2_secret_access_key date_stamp (codes "auto")
          (codes "s3") in
      elim (hmac_sha256 digests urls signing_key string_to_sign) [
        | none ↦ none
        | some signature ↦ some (
            codes "AWS4-HMAC-SHA256 Credential="
            ++ config.r2_access_key_id
            ++ codes "/"
            ++ credential_scope
            ++ codes ", SignedHeaders="
            ++ signed_headers
            ++ codes ", Signature="
            ++ digests.hex signature)
      ]

  unfoldable pub upload_r2_blob :
      Config
      → (PutRequest → R2Answer)
      → Call
      → Reading
      → Reading
      → BlobRuntime
      → BlobHandle
      → Text
      → Result R2Error UploadResult
  unfolding build_r2_object_key build_r2_object_url authorization_of_blob sha256_hex_blob read_bytes
      gathered put_object_stream format trim_end_by
  upload_r2_blob config send call hashing sending runtime blob mime_type =
      endpoint_of urls config >>= (λ endpoint.
        let key =
          build_r2_object_key config.r2_object_prefix mime_type call.key_time call.random_hex in
        let (object_url, canonical_uri) =
          build_r2_object_url digests urls endpoint config.r2_bucket key in
        sha256_hex_blob hashing blob runtime >>= (λ payload_hash.
          or_error bad_key (
            authorization_of_blob config endpoint canonical_uri mime_type payload_hash
              call.sign_time)
          >>= (λ authorization. open_reader sending blob runtime >>= (λ events.
              answer_of_blob config key (
                put_object_stream send object_url authorization (amz_date_of_blob call.sign_time)
                  payload_hash mime_type blob.meta.size_bytes (gathered events))))))
