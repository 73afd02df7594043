-- ===== src/Tests/Request.antt =====
-- rust-sync-proxy/src/request_scan.rs and request_encode.rs on small inputs.
use gemini_worker_go.Prelude.{
  and_then, none, some, ◌%◌, ◌≡◌, refl, sym, ◌>>=◌, leb, length, List, [], ◌∷◌, ok, err, Result,
  All, true, arith, u64_mod, if◌then◌else◌,
}
use gemini_worker_go.Text.{codes, text_eq}
use gemini_worker_go.Text.Decimal.{decimal}
use gemini_worker_go.Files.{Bytes, IoError, written}
use gemini_worker_go.Json.{
  get, value_get, Value, Fields, arr, obj, str, nil, cons, end, field, IsMap,
}
use gemini_worker_go.Blob.{
  BlobHandle, BlobRuntime, inline, shared, store_stream, StreamEvent, read_bytes,
}
use gemini_worker_go.Blob.Stream.{delivered}
use gemini_worker_go.Request.Scan.{
  RequestImageRef, scan_request_image_urls, max_inline_data_urls, too_many_inline_data_urls,
  escape_json_pointer_token,
}
use gemini_worker_go.Request.Scan.Complete.{refs, scan_request_image_urls-refs}
use gemini_worker_go.Request.Scan.Sound.{IsFaithful, scan_request_image_urls-IsFaithful}
use gemini_worker_go.Request.Encode.{
  RequestReplacement, empty_out, find_replacement, write_chunks, write_counted, write_json_value,
}
use gemini_worker_go.Request.Encode.Base64.{write_chunks-encode}
use gemini_worker_go.Request.Encode.Meaning.{print, substitute, image}
use gemini_worker_go.Request.Encode.Correct.{write_json_value-substitute}
use gemini_worker_go.Request.Encode.Strip.{without_output, strip_output_from_value-get}
use gemini_worker_go.Request.Encode.Body.{
  EncodedRequestBody, encode_request_body, encode_request_body-print, strip_output_from_value,
}
use gemini_worker_go.Tests.Codec.{plain_codec, base64, drop_key}

-- {"a/b": [{"inlineData": {"data": "http://x"}}]}
abbrev inline_data : Fields
inline_data = field (codes "data") (str (codes "http://x")) end

abbrev body : Value
body = obj (
    field (codes "a/b") (arr (cons (obj (field (codes "inlineData") (obj inline_data) end)) nil))
      end)

abbrev match : RequestImageRef
match = record { json_pointer = codes "/a~1b/0/inlineData"; url = codes "http://x" }

body_scan : scan_request_image_urls body ≡ ok (match ∷ [])
unfolding scan_request_image_urls
body_scan = refl

scan_request_image_urls-refs_example : scan_request_image_urls body ≡ (
    if leb (length (refs body [])) max_inline_data_urls
    then ok (refs body [])
    else err too_many_inline_data_urls)
scan_request_image_urls-refs_example = scan_request_image_urls-refs body

body-IsMap : IsMap body
unfolding IsMap
body-IsMap = (tt, ((tt, (tt, tt, tt), tt), tt), tt)

scan_request_image_urls-IsFaithful_example : All (IsFaithful body) (match ∷ [])
scan_request_image_urls-IsFaithful_example =
    scan_request_image_urls-IsFaithful body (match ∷ []) body-IsMap body_scan

abbrev fetched : BlobHandle
fetched = record {
  id = 5;
  meta = record { mime_type = codes "image/png"; size_bytes = 4 };
  storage = shared (1 ∷ 2 ∷ 3 ∷ 4 ∷ []);
}

abbrev two_reads : BlobHandle → Result IoError (List Bytes)
two_reads h = ok ((1 ∷ []) ∷ (2 ∷ 3 ∷ 4 ∷ []) ∷ [])

write_chunks-encode_example :
    write_chunks plain_codec two_reads ((1 ∷ []) ∷ (2 ∷ 3 ∷ 4 ∷ []) ∷ []) [] empty_out
    ≡ write_counted (base64 (1 ∷ 2 ∷ 3 ∷ 4 ∷ [])) empty_out
write_chunks-encode_example =
    write_chunks-encode plain_codec two_reads ((1 ∷ []) ∷ (2 ∷ 3 ∷ 4 ∷ []) ∷ []) [] empty_out
      (omega arith)

abbrev replacement : RequestReplacement
replacement = record {
  json_pointer = codes "/a~1b/0/inlineData";
  mime_type = codes "image/png";
  blob = fetched;
}

abbrev replaced : Value
replaced = obj (
    field (codes "a/b")
      (arr (
        cons (obj (field (codes "inlineData") (image (codes "image/png") (codes "AQIDBA==")) end))
          nil))
      end)

body-substitute :
    substitute plain_codec two_reads
      (replacement ∷ [])
      (strip_output_from_value plain_codec body)
      []
    ≡ ok replaced
unfolding substitute strip_output_from_value find_replacement drop_key escape_json_pointer_token
    decimal text_eq
body-substitute = refl

write_json_value-substitute_example :
    write_json_value plain_codec two_reads (replacement ∷ []) body [] empty_out ≡ (
      substitute plain_codec two_reads (replacement ∷ []) body []
      >>= (λ w. ok (write_counted (print plain_codec.to_vec w) empty_out)))
write_json_value-substitute_example =
    write_json_value-substitute plain_codec two_reads (replacement ∷ []) body [] empty_out

abbrev rt : BlobRuntime
rt = record {
  cfg = record {
    inline_max_bytes = 100;
    request_hot_budget_bytes = 100;
    global_hot_budget_bytes = 100;
    spill_dir = codes "/tmp";
  };
  next_id = 1;
  global_hot_bytes = 0;
  spill_count = 0;
  spill_bytes_total = 0;
  removed = [];
  files = [];
}

abbrev json : Bytes
json = codes "{\"a/b\":[{\"inlineData\":{\"mimeType\":\"image/png\",\"data\":\"AQIDBA==\"}}]}"

abbrev encoded : EncodedRequestBody
encoded = record {
  body_blob = record {
    id = 1;
    meta = record { mime_type = codes "application/json"; size_bytes = length json };
    storage = inline json;
  };
  content_length = length json;
}

replaced-print : print plain_codec.to_vec replaced ≡ json
unfolding print
replaced-print = refl

one_piece : Bytes → List StreamEvent
one_piece b = delivered (b ∷ [])

json_is_stored :
    (encode_request_body plain_codec two_reads body (replacement ∷ []) one_piece written rt rt).0
    ≡ ok encoded
unfolding encode_request_body one_piece store_stream write_json_value strip_output_from_value
    drop_key
json_is_stored = refl

json-delivered : one_piece (print plain_codec.to_vec replaced) ≡ delivered (json ∷ [])
unfolding one_piece print
json-delivered = refl

encode_request_body-print_example :
    (read_bytes true encoded.body_blob
        (encode_request_body plain_codec two_reads body
          (replacement ∷ [])
          one_piece
          written
          rt
          rt).1
      ≡ ok (print plain_codec.to_vec replaced))
    × (encoded.content_length ≡ length (print plain_codec.to_vec replaced) % u64_mod)
encode_request_body-print_example =
    encode_request_body-print plain_codec two_reads body replaced (replacement ∷ []) (json ∷ [])
      one_piece rt rt encoded body-substitute json-delivered (sym replaced-print) tt json_is_stored

abbrev with_output : Fields
with_output = field (codes "output") (str (codes "url")) inline_data

strip_output_from_value-get_example :
    value_get (codes "data") (strip_output_from_value plain_codec (obj with_output)) ≡ (
      if text_eq (codes "output") (codes "data")
      then none
      else if text_eq (codes "generationConfig") (codes "data")
      then and_then
          (get (codes "data") with_output)
          (λ v. some (without_output plain_codec (codes "imageConfig") v))
      else if text_eq (codes "generation_config") (codes "data")
      then and_then
          (get (codes "data") with_output)
          (λ v. some (without_output plain_codec (codes "image_config") v))
      else get (codes "data") with_output)
strip_output_from_value-get_example =
    strip_output_from_value-get plain_codec with_output (codes "data")
