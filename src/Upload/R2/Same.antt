-- ===== src/Upload/R2/Same.antt =====
-- rust-sync-proxy/src/upload.rs: `upload_r2`, `upload_r2_blob` and `upload_r2_base64` of the same image.
use gemini_worker_go.Prelude.{
  ℕ, ◌≡◌, ◌≤◌, refl, ap, sym, ◌∙◌, true, none, some, List, [], ◌∷◌, ◌++◌, Result, ok, err, ◌>>=◌,
  length, take-length, inl,
}
use gemini_worker_go.Text.{Text}
use gemini_worker_go.Files.{Bytes, IoError}
use gemini_worker_go.Url.{ParsedUrl}
use gemini_worker_go.Config.{Config}
use gemini_worker_go.Blob.{
  BlobHandle, BlobRuntime, BlobStorage, inline, shared, spilled, read_bytes,
}
use gemini_worker_go.Upload.Reader.{
  DecodeError, decoded_base64_len, sha256_hex_base64, hashed_from, new,
}
use gemini_worker_go.Upload.Reader.Refines.{polls, total, polls_from, rest-new}
use gemini_worker_go.Upload.R2.{
  R2Error, not_read, PutRequest, R2Answer, no_answer, answered, Call, endpoint_of, or_error,
  put_object_stream,
}
use gemini_worker_go.Upload.R2.FromBytes.{upload_r2, answer_of_bytes, authorization_of_bytes}
use gemini_worker_go.Upload.R2.FromBlob.{
  ReadEvent, read_some, Reading, gathered, opened, open_reader, hash_reads, sha256_hex_blob,
  upload_r2_blob, answer_of_blob, authorization_of_blob,
}
use gemini_worker_go.Upload.R2.FromBase64.{
  upload_r2_base64, answer_of_base64, authorization_of_base64,
}
use gemini_worker_go.Upload.Sign.{Digests, UrlTools, SignTime, sha256, sha256_hex}

-- The client sets the length of a body that is bytes: a request that names it is answered as one that does not.
abbrev pub SetsLength : (PutRequest → R2Answer) → Type 0
SetsLength send =
    (r : PutRequest)
    → r.content_length ≡ some (length r.body)
    → send r ≡ send (record r { content_length = none })

-- Reads that give these bytes, in pieces of any lengths, and then the end.
pub data IsRead : List ReadEvent → Bytes → Type 0 where
  at_end : IsRead [] []
  reads_none : (events : List ReadEvent) → IsRead (read_some [] ∷ events) []
  reads_more :
      (b : ℕ) (bytes : Bytes) {rest : Bytes} {events : List ReadEvent}
      → IsRead events rest
      → IsRead (read_some (b ∷ bytes) ∷ events) (b ∷ bytes ++ rest)

-- The file opens, and its reads give what it holds.
abbrev pub IsWhole : Reading → Type 0
IsWhole reading =
    (reading.opens ≡ true) × ((content : Bytes) → IsRead (reading.reads content) content)

gathered-IsRead :
    {events : List ReadEvent} {bytes : Bytes} → IsRead events bytes → gathered events ≡ some bytes
unfolding gathered
gathered-IsRead at_end = refl
gathered-IsRead (reads_none events) = refl
gathered-IsRead (reads_more b bytes reads) = rw (gathered-IsRead reads) refl

>>=-ap :
    {E A B : Type 0} (r : Result E A) (f g : A → Result E B)
    → ((a : A) → f a ≡ g a)
    → (r >>= f) ≡ (r >>= g)
>>=-ap (ok a) f g h = h a
>>=-ap (err e) f g h = refl

>>=-ok :
    {E A B : Type 0} (r : Result E A) (a : A) (f : A → Result E B) {c : Result E B}
    → r ≡ ok a
    → f a ≡ c
    → (r >>= f) ≡ c
>>=-ok r a f e h = ap (λ s. s >>= f) e ∙ h

module _ (config : Config) (key : Text) where
  answer_of_blob-bytes :
      (answer : R2Answer) → answer_of_blob config key answer ≡ answer_of_bytes config key answer
  unfolding answer_of_blob answer_of_bytes
  answer_of_blob-bytes no_answer = refl
  answer_of_blob-bytes (answered status text) = refl

  answer_of_base64-bytes :
      (answer : R2Answer) → answer_of_base64 config key answer ≡ answer_of_bytes config key answer
  unfolding answer_of_base64 answer_of_bytes
  answer_of_base64-bytes no_answer = refl
  answer_of_base64-bytes (answered status text) = refl

read_bytes-inline :
    (blob : BlobHandle) (runtime : BlobRuntime) (bytes : Bytes)
    → blob.storage ≡ inline bytes
    → read_bytes true blob runtime ≡ ok bytes
unfolding read_bytes
read_bytes-inline blob runtime bytes e = rw e refl

read_bytes-shared :
    (blob : BlobHandle) (runtime : BlobRuntime) (bytes : Bytes)
    → blob.storage ≡ shared bytes
    → read_bytes true blob runtime ≡ ok bytes
unfolding read_bytes
read_bytes-shared blob runtime bytes e = rw e refl

open_reader-ok :
    (reading : Reading) (blob : BlobHandle) (runtime : BlobRuntime) (bytes : Bytes)
    → IsWhole reading
    → read_bytes true blob runtime ≡ ok bytes
    → open_reader reading blob runtime ≡ ok (reading.reads bytes)
open_reader-ok reading blob runtime bytes whole read =
    ap (λ o. opened reading.reads (read_bytes o blob runtime)) whole.0
    ∙ ap (opened reading.reads) read

module _ (digests : Digests) (urls : UrlTools) where
  -- The loop over the pieces is one update with all the bytes.
  hash_reads-IsRead :
      {events : List ReadEvent} {bytes : Bytes}
      → IsRead events bytes
      → (hasher : digests.Hasher)
      → hash_reads digests urls events hasher ≡ ok (digests.finalize (digests.update bytes hasher))
  unfolding hash_reads
  hash_reads-IsRead at_end hasher =
      ap (λ h. ok (digests.finalize h)) (sym (digests.update-nil hasher))
  hash_reads-IsRead (reads_none events) hasher =
      ap (λ h. ok (digests.finalize h)) (sym (digests.update-nil hasher))
  hash_reads-IsRead (reads_more b bytes {rest} reads) hasher =
      hash_reads-IsRead reads (digests.update (b ∷ bytes) hasher)
      ∙ ap (λ h. ok (digests.finalize h)) (digests.update-update (b ∷ bytes) rest hasher)

  hex_of : Result IoError Bytes → Result R2Error Text
  hex_of (err e) = err not_read
  hex_of (ok bytes) = ok (sha256_hex digests urls bytes)

  sha256_hex_blob-spilled :
      (hashing : Reading) (runtime : BlobRuntime) (blob : BlobHandle) (bytes path : Bytes)
      → IsWhole hashing
      → read_bytes true blob runtime ≡ ok bytes
      → blob.storage ≡ spilled path
      → sha256_hex_blob digests urls hashing blob runtime ≡ ok (sha256_hex digests urls bytes)
  unfolding sha256_hex_blob sha256_hex sha256
  sha256_hex_blob-spilled hashing runtime blob bytes path whole read e =
      let reads : List ReadEvent → Result R2Error Text =
        λ events. hash_reads digests urls events digests.fresh >>= (λ d. ok (digests.hex d)) in
      let of_storage : BlobStorage → Result R2Error Text = λ storage. elim storage [
        | inline held ↦ ok (sha256_hex digests urls held)
        | shared held ↦ ok (sha256_hex digests urls held)
        | spilled file ↦ open_reader hashing blob runtime >>= reads
      ] in
      ap of_storage e
      ∙ ap (λ r. r >>= reads) (open_reader-ok hashing blob runtime bytes whole read)
      ∙ ap (λ r. r >>= (λ d. ok (digests.hex d))) (hash_reads-IsRead (whole.1 bytes) digests.fresh)

  sha256_hex_blob-bytes :
      (hashing : Reading) (runtime : BlobRuntime) (blob : BlobHandle) (bytes : Bytes)
      → IsWhole hashing
      → read_bytes true blob runtime ≡ ok bytes
      → (storage : BlobStorage) → blob.storage ≡ storage
      → sha256_hex_blob digests urls hashing blob runtime ≡ ok (sha256_hex digests urls bytes)
  unfolding sha256_hex_blob hex_of
  sha256_hex_blob-bytes hashing runtime blob bytes whole read (inline held) e =
      rw e (ap hex_of (sym (read_bytes-inline blob runtime held e) ∙ read))
  sha256_hex_blob-bytes hashing runtime blob bytes whole read (shared held) e =
      rw e (ap hex_of (sym (read_bytes-shared blob runtime held e) ∙ read))
  sha256_hex_blob-bytes hashing runtime blob bytes whole read (spilled path) e =
      sha256_hex_blob-spilled hashing runtime blob bytes path whole read e

  authorization_of_blob-bytes :
      (config : Config) (endpoint : ParsedUrl) (canonical_uri mime_type hash : Text)
      (now : SignTime)
      → authorization_of_blob digests urls config endpoint canonical_uri mime_type hash now
        ≡ authorization_of_bytes digests urls config endpoint canonical_uri mime_type hash now
  unfolding authorization_of_blob authorization_of_bytes
  authorization_of_blob-bytes config endpoint canonical_uri mime_type hash now = refl

  authorization_of_base64-bytes :
      (config : Config) (endpoint : ParsedUrl) (canonical_uri mime_type hash : Text)
      (now : SignTime)
      → authorization_of_base64 digests urls config endpoint canonical_uri mime_type hash now
        ≡ authorization_of_bytes digests urls config endpoint canonical_uri mime_type hash now
  unfolding authorization_of_base64 authorization_of_bytes
  authorization_of_base64-bytes config endpoint canonical_uri mime_type hash now = refl

module _ (digests : Digests) (urls : UrlTools) (config : Config) (send : PutRequest → R2Answer)
    (call : Call) where
  -- The blob reads back the bytes, and its length is theirs.
  blob_same :
      (hashing sending : Reading) (runtime : BlobRuntime) (blob : BlobHandle) (bytes : Bytes)
      (mime_type : Text)
      → SetsLength send
      → IsWhole hashing
      → IsWhole sending
      → read_bytes true blob runtime ≡ ok bytes
      → blob.meta.size_bytes ≡ length bytes
      → upload_r2_blob digests urls config send call hashing sending runtime blob mime_type
        ≡ upload_r2 digests urls config send call bytes mime_type
  unfolding upload_r2_blob upload_r2 put_object_stream authorization_of_blob authorization_of_bytes
  blob_same hashing sending runtime blob bytes mime_type sets hashes sends read size =
      >>=-ap (endpoint_of urls config) _ _ (λ endpoint.
        >>=-ok _ _ _
          (sha256_hex_blob-bytes digests urls hashing runtime blob bytes hashes read blob.storage
            refl)
          (>>=-ap (or_error _ _) _ _ (λ authorization.
            >>=-ok _ _ _ (open_reader-ok sending blob runtime bytes sends read) (
              answer_of_blob-bytes config _ _
              ∙ rw (gathered-IsRead (sends.1 bytes), size)
                  (ap (answer_of_bytes config _) (sets _ refl))))))

  base64_same :
      (decode_slice : ℕ → Bytes → Result DecodeError Bytes) (sizes : List ℕ)
      (data_base64 bytes : Bytes) (mime_type : Text)
      → SetsLength send
      → hashed_from decode_slice data_base64 (length data_base64) 0 ≡ ok bytes
      → decoded_base64_len data_base64 ≡ ok (length bytes)
      → length bytes ≤ total sizes
      → upload_r2_base64 digests urls decode_slice sizes config send call data_base64 mime_type
        ≡ upload_r2 digests urls config send call bytes mime_type
  unfolding upload_r2_base64 upload_r2 sha256_hex_base64 sha256_hex sha256 put_object_stream
      authorization_of_base64 authorization_of_bytes
  base64_same decode_slice sizes data_base64 bytes mime_type sets hashed size enough =
      let all : polls decode_slice data_base64 sizes new ≡ some bytes =
        polls_from decode_slice data_base64 sizes new bytes (inl refl)
          (rest-new decode_slice data_base64 bytes hashed)
        ∙ ap some (take-length (total sizes) bytes enough) in
      rw (hashed, size, all)
        (>>=-ap (endpoint_of urls config) _ _ (λ endpoint.
          >>=-ap (or_error _ _) _ _ (λ authorization.
            answer_of_base64-bytes config _ _ ∙ ap (answer_of_bytes config _) (sets _ refl))))

  -- The three ways to upload an image to R2 make requests that are answered alike and give the same result:
  -- the bytes; a blob that reads back as the bytes and carries their length, if its file opens both times and
  -- the reads, of any lengths, give what it holds; and a base64 text that decodes to them, piece by piece, and
  -- whose length foretells theirs, if the client polls for at least as many bytes and takes the length of a
  -- body of bytes for its Content-Length.
  pub upload_r2_same :
      (decode_slice : ℕ → Bytes → Result DecodeError Bytes) (sizes : List ℕ)
      (data_base64 bytes : Bytes) (hashing sending : Reading) (runtime : BlobRuntime)
      (blob : BlobHandle) (mime_type : Text)
      → SetsLength send
      → IsWhole hashing
      → IsWhole sending
      → read_bytes true blob runtime ≡ ok bytes
      → blob.meta.size_bytes ≡ length bytes
      → hashed_from decode_slice data_base64 (length data_base64) 0 ≡ ok bytes
      → decoded_base64_len data_base64 ≡ ok (length bytes)
      → length bytes ≤ total sizes
      → (upload_r2_blob digests urls config send call hashing sending runtime blob mime_type
          ≡ upload_r2 digests urls config send call bytes mime_type)
        × (upload_r2_base64 digests urls decode_slice sizes config send call data_base64 mime_type
            ≡ upload_r2 digests urls config send call bytes mime_type)
  upload_r2_same decode_slice sizes data_base64 bytes hashing sending runtime blob mime_type sets
        hashes sends read size hashed foretold enough =
      (
        blob_same hashing sending runtime blob bytes mime_type sets hashes sends read size,
        base64_same decode_slice sizes data_base64 bytes mime_type sets hashed foretold enough,
      )
