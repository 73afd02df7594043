-- ===== src/Request/Encode.antt =====
-- rust-sync-proxy/src/request_encode.rs: the request as JSON text, with the fetched images in the
-- places of the objects that named them.
pub mod Base64
pub mod Meaning
pub mod Correct
pub mod Body
pub mod Strip
use gemini_worker_go.Prelude.{
  ℕ, ◌+◌, ◌-◌, ◌*◌, ◌/◌, ◌%◌, Bool, true, false, Option, none, some, List, [], ◌∷◌, ◌++◌, Result,
  ok, err, ◌>>=◌, length, take, drop, ◌==◌, if◌then◌else◌, u64_mod, and_then,
}
use gemini_worker_go.Text.{Text, codes, text_eq, is_empty}
use gemini_worker_go.Text.Decimal.{decimal}
use gemini_worker_go.Files.{Bytes, IoError}
use gemini_worker_go.Json.{
  Value, Items, Fields, null, bool, num, str, arr, obj, nil, cons, end, field, get, as_object,
}
use gemini_worker_go.Blob.{BlobHandle, BlobStorage, inline, shared, spilled}
use gemini_worker_go.Request.Scan.{escape_json_pointer_token, child_path}
use gemini_worker_go.Request.Codec.{Codec}

-- request_materialize.rs
pub record RequestReplacement : Type 0 where
  pub json_pointer : Text
  pub mime_type : Text
  pub blob : BlobHandle

-- What has been written, and the count that is kept beside it.
pub record Out : Type 0 where
  pub bytes : Bytes
  pub content_length : ℕ

abbrev pub empty_out : Out
empty_out = record { bytes = []; content_length = 0 }

unfoldable pub write_counted : Bytes → Out → Out
write_counted b out = record {
  bytes = out.bytes ++ b;
  content_length = (out.content_length + length b) % u64_mod;
}

-- The `HashMap` collected from the list: of two entries for a pointer the later one stays.
unfoldable pub find_replacement : Text → List RequestReplacement → Option RequestReplacement
unfolding text_eq
find_replacement path [] = none
find_replacement path (r ∷ rs) = elim (find_replacement path rs) [
  | some later ↦ some later
  | none ↦ if text_eq r.json_pointer path then some r else none
]

-- `reads` is what opening a blob that is not inline and reading it to its end gives: an error, or
-- the chunks in order.
module _ (codec : Codec) (reads : BlobHandle → Result IoError (List Bytes)) where
  open codec use {to_vec, encode, remove}

  unfoldable pub write_base64_bytes : Bytes → Out → Out
  unfolding write_counted
  write_base64_bytes bytes out = if is_empty bytes then out else write_counted (encode bytes) out

  -- The loop over the chunks; `carry` are the one or two bytes that wait for the next chunk. A read
  -- of no bytes ends it.
  unfoldable pub write_chunks : List Bytes → Bytes → Out → Out
  unfolding write_base64_bytes write_counted
  write_chunks [] carry out = write_base64_bytes carry out
  write_chunks ([] ∷ cs) carry out = write_base64_bytes carry out
  write_chunks ((b ∷ bs) ∷ cs) carry out =
      let input = carry ++ b ∷ bs in
      let complete_len = length input / 3 * 3 in
      let wait = write_chunks cs input out in
      let more =
        write_chunks cs (drop complete_len input)
          (write_counted (encode (take complete_len input)) out) in
      if complete_len == 0 then wait else more

  unfoldable pub write_blob_as_base64 : BlobHandle → Out → Result IoError Out
  unfolding write_base64_bytes write_chunks
  write_blob_as_base64 blob out = elim blob.storage [
    | inline bytes ↦ ok (write_base64_bytes bytes out)
    | _ ↦ reads blob >>= (λ cs. ok (write_chunks cs [] out))
  ]

  unfoldable pub write_replacement : RequestReplacement → Out → Result IoError Out
  unfolding write_counted write_blob_as_base64
  write_replacement r out =
      let out₁ = write_counted (codes "{") out in
      let out₂ = write_counted (to_vec (str (codes "mimeType"))) out₁ in
      let out₃ = write_counted (codes ":") out₂ in
      let out₄ = write_counted (to_vec (str r.mime_type)) out₃ in
      let out₅ = write_counted (codes ",") out₄ in
      let out₆ = write_counted (to_vec (str (codes "data"))) out₅ in
      let out₇ = write_counted (codes ":\"") out₆ in
      write_blob_as_base64 r.blob out₇ >>= (λ out₈. ok (write_counted (codes "\"}") out₈))

  -- The early return of `write_json_value`.
  abbrev pub or_replaced : Option RequestReplacement → Out → Result IoError Out → Result IoError Out
  or_replaced (some r) out written = write_replacement r out
  or_replaced none out written = written

  abbrev pub separator : Bool → Out → Out
  separator true out = out
  separator false out = write_counted (codes ",") out

  module _ (replacements : List RequestReplacement) where
    unfoldable mutual
      unfolding write_counted write_replacement find_replacement escape_json_pointer_token decimal

      pub write_json_value : Value → Text → Out → Result IoError Out
      write_json_value (obj map) path out = or_replaced (find_replacement path replacements) out (
          write_fields map true path (write_counted (codes "{") out)
          >>= (λ o. ok (write_counted (codes "}") o)))
      write_json_value (arr xs) path out = or_replaced (find_replacement path replacements) out (
          write_items xs 0 path (write_counted (codes "[") out)
          >>= (λ o. ok (write_counted (codes "]") o)))
      write_json_value null path out =
          or_replaced (find_replacement path replacements) out
            (ok (write_counted (to_vec null) out))
      write_json_value (bool b) path out =
          or_replaced (find_replacement path replacements) out
            (ok (write_counted (to_vec (bool b)) out))
      write_json_value (num n) path out =
          or_replaced (find_replacement path replacements) out
            (ok (write_counted (to_vec (num n)) out))
      write_json_value (str s) path out =
          or_replaced (find_replacement path replacements) out
            (ok (write_counted (to_vec (str s)) out))

      pub write_items : Items → ℕ → Text → Out → Result IoError Out
      write_items nil index path out = ok out
      write_items (cons v vs) index path out =
          write_json_value v (child_path path (decimal index)) (separator (index == 0) out)
          >>= (λ o. write_items vs (index + 1) path o)

      pub write_fields : Fields → Bool → Text → Out → Result IoError Out
      write_fields end first path out = ok out
      write_fields (field k v fs) first path out =
          write_json_value v (child_path path (escape_json_pointer_token k))
            (write_counted (codes ":") (write_counted (to_vec (str k)) (separator first out)))
          >>= (λ o. write_fields fs false path o)
