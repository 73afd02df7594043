-- ===== src/Tests/OpenaiImage.antt =====
-- rust-sync-proxy/src/openai_image.rs on a small input.
use gemini_worker_go.Prelude.{◌≡◌, refl, ◌||◌, ◌++◌, some, none, ok, All, if◌then◌else◌, arith}
use gemini_worker_go.Text.{
  Text, codes, text_eq, trim, trim_start_by, trim_end_by, is_whitespace, eq_ignore_ascii_case,
  to_ascii_lowercase, one_of,
}
use gemini_worker_go.Text.Laws.{text_eq_iff}
use gemini_worker_go.Json.{
  Value, Fields, obj, arr, str, cons, nil, field, end, get, value_get, from_list,
}
use gemini_worker_go.OpenaiImage.{
  MapOperations, normalize_request_body, normalize_object, collect_reference_images, collect_alias,
  push_images, validate_reference_image_url, validate_parsed, strings,
}
use gemini_worker_go.OpenaiImage.Normalized.{IsImageUrl, urls_at, normalize_request_body-get}
use gemini_worker_go.Tests.Codec.{drop_key, get-drop_key}
use gemini_worker_go.Tests.Config.{every_url}

unfoldable pub put_key : Text → Value → Fields → Fields
unfolding text_eq
put_key key v end = field key v end
put_key key v (field k w fs) =
    let rest = put_key key v fs in if text_eq k key then field k v fs else field k w rest

get-put_key :
    (k j : Text) (v : Value) (map : Fields)
    → get j (put_key k v map) ≡ (if text_eq k j then some v else get j map)
unfolding get put_key
get-put_key k j v end = ground arith
get-put_key k j v (field i w fs) =
    ground (arith, get-put_key k j v fs, text_eq_iff k j, text_eq_iff i k, text_eq_iff i j)

abbrev maps : MapOperations
maps = record {
  remove = drop_key;
  insert = put_key;
  get-remove = get-drop_key;
  get-insert = get-put_key;
}

abbrev request : Fields
request = field (codes "image") (arr (cons (str (codes "https://a")) nil)) (
    field (codes "prompt") (str (codes "p"))
      (field (codes "reference_images") (arr (cons (str (codes "https://b")) nil)) end))

abbrev normalized : Value
normalized = obj (
    field (codes "prompt") (str (codes "p")) (
      field (codes "reference_images")
        (arr (cons (str (codes "https://b")) (cons (str (codes "https://a")) nil)))
        (field (codes "response_format") (str (codes "b64_json")) end)))

normalizes : normalize_request_body every_url maps (obj request) ≡ ok normalized
unfolding normalize_request_body normalize_object collect_reference_images collect_alias push_images
    validate_reference_image_url validate_parsed put_key drop_key get text_eq trim trim_start_by
    trim_end_by is_whitespace eq_ignore_ascii_case to_ascii_lowercase one_of
normalizes = refl

normalize_request_body-get_example :
    let urls =
      urls_at (get (codes "reference_images") request)
      ++ (urls_at (get (codes "images") request) ++ urls_at (get (codes "image") request)) in
    All (IsImageUrl every_url) urls
    × ((key : Text)
        → value_get key normalized ≡ (
            if text_eq (codes "response_format") key
            then some (str (codes "b64_json"))
            else if text_eq (codes "reference_images") key
            then some (arr (from_list (strings urls)))
            else if text_eq (codes "images") key || text_eq (codes "image") key
            then none
            else get key request))
normalize_request_body-get_example =
    normalize_request_body-get every_url maps request normalized normalizes
