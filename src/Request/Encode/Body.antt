-- ===== src/Request/Encode/Body.antt =====
-- rust-sync-proxy/src/request_encode.rs, `encode_request_body`: `output` is stripped, the JSON is
-- written into a pipe, and a second task stores what comes out of it as a blob.
use native.Mathlib.Nat.{zero-add}
use gemini_worker_go.Prelude.{
  if◌then◌else◌, ℕ, ◌+◌, ◌%◌, ◌≡◌, sym, ap, ◌∙◌, true, List, [], concat, length, Result, ok, err,
  ◌>>=◌, if◌then◌else◌, u64_mod, arith,
}
use gemini_worker_go.Text.{Text, codes, text_eq}
use gemini_worker_go.Files.{Bytes, IoError, WriteOutcome, written}
use gemini_worker_go.Json.{Value, Fields, null, bool, num, str, arr, obj, end, field}
use gemini_worker_go.Blob.{
  BlobRuntime, BlobHandle, StreamEvent, store_stream, store_bytes, read_bytes,
}
use gemini_worker_go.Blob.Stream.{delivered, AreChunks, store_stream-eq-store_bytes}
use gemini_worker_go.Blob.Content.{read_bytes-store_bytes}
use gemini_worker_go.Request.Codec.{Codec}
use gemini_worker_go.Request.Encode.{
  Out, RequestReplacement, empty_out, write_json_value, write_counted,
}
use gemini_worker_go.Request.Encode.Meaning.{print, substitute}
use gemini_worker_go.Request.Encode.Correct.{write_json_value-print}

pub record EncodedRequestBody : Type 0 where
  pub body_blob : BlobHandle
  pub content_length : ℕ

-- A change through `get_mut`.
unfoldable pub update : Text → (Value → Value) → Fields → Fields
unfolding text_eq
update key f end = end
update key f (field k v fs) =
    if text_eq k key then field k (f v) fs else field k v (update key f fs)

-- A change through `as_object_mut`.
abbrev pub on_object : (Fields → Fields) → Value → Value
on_object f (obj fs) = obj (f fs)
on_object f null = null
on_object f (bool b) = bool b
on_object f (num n) = num n
on_object f (str s) = str s
on_object f (arr xs) = arr xs

module _ (codec : Codec) where
  open codec use {remove}

  abbrev pub strip_image_config : Text → Text → Fields → Fields
  strip_image_config config image map =
      update config (on_object (update image (on_object (remove (codes "output"))))) map

  unfoldable pub strip_output_from_value : Value → Value
  unfolding update
  strip_output_from_value body =
      on_object
        (λ map. strip_image_config (codes "generation_config") (codes "image_config") (
          strip_image_config (codes "generationConfig") (codes "imageConfig")
            (remove (codes "output") map)))
        body

-- `cut` is how the pipe delivers the bytes to the storing task, and `aborted` is the runtime that the
-- task leaves where it is stopped because the encoder failed.
module _ (codec : Codec) (reads : BlobHandle → Result IoError (List Bytes)) where
  unfoldable pub finish_body :
      Result IoError Out
      → (Bytes → List StreamEvent)
      → WriteOutcome
      → BlobRuntime
      → BlobRuntime
      → Result IoError EncodedRequestBody × BlobRuntime
  finish_body (err e) cut o aborted rt = (err e, aborted)
  finish_body (ok out) cut o aborted rt =
      let (r, rt') = store_stream (cut out.bytes) o (codes "application/json") rt in
      (r >>= (λ blob. ok (record { body_blob = blob; content_length = out.content_length })), rt')

  unfoldable pub encode_request_body :
      Value
      → List RequestReplacement
      → (Bytes → List StreamEvent)
      → WriteOutcome
      → BlobRuntime
      → BlobRuntime
      → Result IoError EncodedRequestBody × BlobRuntime
  unfolding finish_body
  encode_request_body request replacements cut o aborted rt =
      finish_body
        (write_json_value codec reads replacements (strip_output_from_value codec request) []
          empty_out)
        cut o aborted rt

  encoded_blob :
      (r : Result IoError BlobHandle) (n : ℕ) (body : EncodedRequestBody)
      → (r >>= (λ blob. ok (record { body_blob = blob; content_length = n }))) ≡ ok body
      → (r ≡ ok body.body_blob) × (body.content_length ≡ n)
  encoded_blob (ok blob) n body h = ground arith
  encoded_blob (err e) n body h = cc

  abbrev body_of :
      ℕ → Result IoError BlobHandle × BlobRuntime → Result IoError EncodedRequestBody × BlobRuntime
  body_of n (r, rt) = (r >>= (λ blob. ok (record { body_blob = blob; content_length = n })), rt)

  encode_request_body-store_bytes :
      (request w : Value) (replacements : List RequestReplacement) (cs : List Bytes)
      (cut : Bytes → List StreamEvent) (aborted rt : BlobRuntime)
      → substitute codec reads replacements (strip_output_from_value codec request) [] ≡ ok w
      → cut (print codec.to_vec w) ≡ delivered cs
      → concat cs ≡ print codec.to_vec w
      → AreChunks cs
      → encode_request_body request replacements cut written aborted rt
        ≡ body_of
            (length (print codec.to_vec w) % u64_mod)
            (store_bytes written (print codec.to_vec w) (codes "application/json") rt)
  unfolding encode_request_body write_counted
  encode_request_body-store_bytes request w replacements cs cut aborted rt sub pieces whole chunks =
      let mime = codes "application/json" in
      let n = length (print codec.to_vec w) in
      ap (λ r. finish_body r cut written aborted rt)
        (write_json_value-print codec reads replacements (strip_output_from_value codec request) []
            empty_out
          ∙ ap (λ r. r >>= (λ (v : Value). ok (write_counted (print codec.to_vec v) empty_out)))
              sub)
      ∙ ap (λ evs. body_of ((0 + n) % u64_mod) (store_stream evs written mime rt)) pieces
      ∙ ap (body_of ((0 + n) % u64_mod)) (store_stream-eq-store_bytes cs mime rt chunks)
      ∙ ap (λ b. body_of ((0 + n) % u64_mod) (store_bytes written b mime rt)) whole
      ∙ ap (λ k. body_of (k % u64_mod) (store_bytes written (print codec.to_vec w) mime rt))
          (zero-add n)

  -- An encoded request, however the pipe cuts it, is a blob that reads back as the compact JSON of the
  -- request without `output` and with the images in the places of the objects that named them, and
  -- `content_length` is its length.
  pub encode_request_body-print :
      (request w : Value) (replacements : List RequestReplacement) (cs : List Bytes)
      (cut : Bytes → List StreamEvent) (aborted rt : BlobRuntime) (body : EncodedRequestBody)
      → substitute codec reads replacements (strip_output_from_value codec request) [] ≡ ok w
      → cut (print codec.to_vec w) ≡ delivered cs
      → concat cs ≡ print codec.to_vec w
      → AreChunks cs
      → (encode_request_body request replacements cut written aborted rt).0 ≡ ok body
      → (read_bytes true body.body_blob
            (encode_request_body request replacements cut written aborted rt).1
          ≡ ok (print codec.to_vec w))
        × (body.content_length ≡ length (print codec.to_vec w) % u64_mod)
  encode_request_body-print request w replacements cs cut aborted rt body sub pieces whole chunks
        h =
      let run =
        encode_request_body-store_bytes request w replacements cs cut aborted rt sub pieces whole
          chunks in
      let (stored, len) = encoded_blob _ _ body (ap (λ p. p.0) (sym run) ∙ h) in
      (
        ap (λ p. read_bytes true body.body_blob p.1) run
            ∙ (read_bytes-store_bytes written _ (codes "application/json") rt body.body_blob
                stored).0,
        len,
      )
