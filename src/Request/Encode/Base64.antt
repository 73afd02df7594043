-- ===== src/Request/Encode/Base64.antt =====
-- rust-sync-proxy/src/request_encode.rs, `write_blob_as_base64`: base64 in chunks.
use gemini_worker_go.Prelude.{
  ℕ, ◌*◌, ◌/◌, ◌<◌, ◌≤◌, ◌≡◌, refl, sym, ap, ◌∙◌, List, [], ◌∷◌, ◌++◌, Result, ok, err, ◌>>=◌,
  length, take, drop, arith, ◌==◌, Bool-cases, inl, inr, u64_mod, append_assoc, append-nil,
  length-append, length-take, take-append-drop,
}
use gemini_worker_go.Files.{Bytes, IoError}
use gemini_worker_go.Blob.{BlobHandle, BlobStorage, inline, shared, spilled}
use gemini_worker_go.Request.Codec.{Codec}
use gemini_worker_go.Request.Encode.{
  Out, write_counted, write_base64_bytes, write_chunks, write_blob_as_base64,
}

pub write_counted-write_counted :
    (a b : Bytes) (out : Out) → write_counted b (write_counted a out) ≡ write_counted (a ++ b) out
unfolding write_counted
write_counted-write_counted a b out = ground (arith, length-append a b, append_assoc out.bytes a b)

pub write_counted_empty : (out : Out) → out.content_length < u64_mod → write_counted [] out ≡ out
unfolding write_counted
write_counted_empty out h = ground (arith, append-nil out.bytes)

pub counted-lt : (b : Bytes) (out : Out) → (write_counted b out).content_length < u64_mod
unfolding write_counted
counted-lt b out = omega arith

-- The bytes that a reader delivers before its end.
abbrev pub read_all : List Bytes → Bytes
read_all [] = []
read_all ([] ∷ cs) = []
read_all ((b ∷ bs) ∷ cs) = (b ∷ bs) ++ read_all cs

-- The content of a blob as the encoder reads it.
abbrev pub content_of : BlobStorage → Result IoError (List Bytes) → Result IoError Bytes
content_of (inline bytes) r = ok bytes
content_of (shared bytes) r = r >>= (λ cs. ok (read_all cs))
content_of (spilled path) r = r >>= (λ cs. ok (read_all cs))

module _ (codec : Codec) (reads : BlobHandle → Result IoError (List Bytes)) where
  open codec use {encode, encode_empty, encode-append}

  pub write_base64_bytes-encode :
      (bytes : Bytes) (out : Out)
      → out.content_length < u64_mod
      → write_base64_bytes codec reads bytes out ≡ write_counted (encode bytes) out
  unfolding write_base64_bytes
  write_base64_bytes-encode [] out h = sym (rw encode_empty (write_counted_empty out h))
  write_base64_bytes-encode (b ∷ bs) out h = refl

  encode_split :
      (n : ℕ) (input rest : Bytes)
      → n * 3 ≤ length input
      → encode (take (n * 3) input) ++ encode (drop (n * 3) input ++ rest) ≡ encode (input ++ rest)
  encode_split n input rest h =
      sym (
        encode-append (take (n * 3) input) (drop (n * 3) input ++ rest)
          (rw (length-take (n * 3) input) (omega arith)))
      ∙ ap encode (
          sym (append_assoc (take (n * 3) input) (drop (n * 3) input) rest)
          ∙ ap (λ t. t ++ rest) (take-append-drop (n * 3) input))

  -- However the content is cut into chunks, `write_chunks` writes the base64 of the carried bytes and
  -- all that is read, and counts its length, if the count before is below 2^64.
  pub write_chunks-encode :
      (cs : List Bytes) (carry : Bytes) (out : Out)
      → out.content_length < u64_mod
      → write_chunks codec reads cs carry out ≡ write_counted (encode (carry ++ read_all cs)) out
  unfolding write_chunks
  write_chunks-encode [] carry out h = rw append-nil (write_base64_bytes-encode carry out h)
  write_chunks-encode ([] ∷ cs) carry out h = rw append-nil (write_base64_bytes-encode carry out h)
  write_chunks-encode ((b ∷ bs) ∷ cs) carry out h =
      let input = carry ++ b ∷ bs in
      let whole = append_assoc carry (b ∷ bs) (read_all cs) in
      elim (Bool-cases (length input / 3 * 3 == 0)) [
        | inl wait ↦
            rw wait
              (write_chunks-encode cs input out h ∙ ap (λ t. write_counted (encode t) out) whole)
        | inr go ↦ rw go (
            write_chunks-encode cs (drop (length input / 3 * 3) input) _ (counted-lt _ out)
            ∙ write_counted-write_counted _ _ out
            ∙ ap (λ t. write_counted t out)
                (encode_split (length input / 3) input (read_all cs) (omega arith))
            ∙ ap (λ t. write_counted (encode t) out) whole)
      ]

  -- The stored bytes, in memory or read in chunks, are written as their base64.
  pub write_blob_as_base64-encode :
      (blob : BlobHandle) (out : Out)
      → out.content_length < u64_mod
      → write_blob_as_base64 codec reads blob out ≡ (
          content_of blob.storage (reads blob)
          >>= (λ content. ok (write_counted (encode content) out)))
  unfolding write_blob_as_base64
  write_blob_as_base64-encode blob out h = go blob.storage (reads blob)
    where
      go :
          (s : BlobStorage) (r : Result IoError (List Bytes))
          → elim s [
            | inline bytes ↦ ok (write_base64_bytes codec reads bytes out)
            | _ ↦ r >>= (λ cs. ok (write_chunks codec reads cs [] out))
          ]
            ≡ (content_of s r >>= (λ content. ok (write_counted (encode content) out)))
      go (inline bytes) r = ap ok (write_base64_bytes-encode bytes out h)
      go (shared bytes) (ok cs) = ap ok (write_chunks-encode cs [] out h)
      go (shared bytes) (err e) = refl
      go (spilled path) (ok cs) = ap ok (write_chunks-encode cs [] out h)
      go (spilled path) (err e) = refl
