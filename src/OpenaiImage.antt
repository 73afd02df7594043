-- ===== src/OpenaiImage.antt =====
-- rust-sync-proxy/src/openai_image.rs: requests for images and their replies in the form of another API.
-- `remove` and `insert` are those of `Map`.
pub mod Normalized
use gemini_worker_go.Prelude.{
  Bool, true, false, not, Option, none, some, List, [], ◌∷◌, ◌++◌, ◌≡◌, Result, ok, err, ◌>>=◌,
  if◌then◌else◌, and_then, unwrap_or,
}
use gemini_worker_go.Text.{Text, codes, text_eq, is_empty, trim, eq_ignore_ascii_case}
use gemini_worker_go.Json.{
  Value, Items, Fields, null, bool, num, str, arr, obj, nil, cons, end, field, as_str, as_array,
  get, value_get, items, from_list,
}
use gemini_worker_go.Url.{UrlParser, ParsedUrl, is_http, host_or_empty}

pub record MapOperations : Type 0 where
  pub remove : Text → Fields → Fields
  pub insert : Text → Value → Fields → Fields
  pub get-remove :
      (k j : Text) (map : Fields) → get j (remove k map) ≡ (if text_eq k j then none else get j map)
  pub get-insert :
      (k j : Text) (v : Value) (map : Fields)
      → get j (insert k v map) ≡ (if text_eq k j then some v else get j map)

pub data BodyError : Type 0 where
  not_an_object wrong_response_format relative_url wrong_scheme no_host : BodyError
  not_an_array not_strings : Text → BodyError

abbrev pub image_field_aliases : List Text
image_field_aliases = codes "reference_images" ∷ codes "images" ∷ codes "image" ∷ []

unfoldable pub validate_parsed : Result Text ParsedUrl → Result BodyError (Unit {0})
unfolding trim
validate_parsed (err e) = err relative_url
validate_parsed (ok parsed) =
    if not (is_http parsed)
    then err wrong_scheme
    else if is_empty (trim (host_or_empty parsed))
    then err no_host
    else ok tt

unfoldable pub validate_reference_image_url : UrlParser → Text → Result BodyError (Unit {0})
unfolding validate_parsed
validate_reference_image_url parse raw = validate_parsed (parse raw)

-- `ok_or_else`
abbrev pub or_error : {A : Type 0} → Option A → BodyError → Result BodyError A
or_error none e = err e
or_error (some a) e = ok a

abbrev pub strings : List Text → List Value
strings [] = []
strings (s ∷ ss) = str s ∷ strings ss

module _ (parse : UrlParser) where
  -- The inner loop.
  unfoldable pub push_images : Text → List Value → List Text → Result BodyError (List Text)
  unfolding validate_reference_image_url
  push_images alias [] images = ok images
  push_images alias (item ∷ array) images = or_error (as_str item) (not_strings alias) >>= (λ raw.
      validate_reference_image_url parse raw
      >>= (λ _. push_images alias array (images ++ raw ∷ [])))

  unfoldable pub collect_alias : Text → Option Value → List Text → Result BodyError (List Text)
  unfolding push_images
  collect_alias alias none images = ok images
  collect_alias alias (some value) images =
      or_error (as_array value) (not_an_array alias)
      >>= (λ array. push_images alias (items array) images)

  module _ (maps : MapOperations) where
    open maps use {remove, insert}

    -- The outer loop, over the aliases that are left.
    unfoldable pub collect_reference_images :
        List Text → Fields → List Text → Result BodyError (List Text × Fields)
    unfolding collect_alias
    collect_reference_images [] object images = ok (images, object)
    collect_reference_images (alias ∷ aliases) object images =
        collect_alias alias (get alias object) images
        >>= (λ more. collect_reference_images aliases (remove alias object) more)

    abbrev pub with_images : List Text × Fields → Result BodyError Value
    with_images (reference_images, object) = ok (
        obj (
          insert (codes "response_format") (str (codes "b64_json")) (
            insert (codes "reference_images") (arr (from_list (strings reference_images))) object)))

    unfoldable pub normalize_object : Fields → Result BodyError Value
    unfolding collect_reference_images eq_ignore_ascii_case get
    normalize_object object =
        let response_format =
          unwrap_or (and_then (get (codes "response_format") object) as_str) (codes "url") in
        if not (eq_ignore_ascii_case response_format (codes "url"))
        then err wrong_response_format
        else collect_reference_images image_field_aliases object [] >>= with_images

    unfoldable pub normalize_request_body : Value → Result BodyError Value
    unfolding normalize_object
    normalize_request_body (obj map) = normalize_object map
    normalize_request_body _ = err not_an_object

abbrev pub number : Text → Text → Fields → Fields
number key digits rest = field key (num digits) rest

unfoldable pub build_fixed_usage : Value
build_fixed_usage = obj (
    number (codes "input_tokens") (codes "1024") (
      field (codes "input_tokens_details")
        (obj (
          number (codes "image_tokens") (codes "1000")
            (number (codes "text_tokens") (codes "24") end)))
        (number (codes "output_tokens") (codes "1024") (
          number (codes "total_tokens") (codes "2048") (
            field (codes "output_tokens_details")
              (obj (
                number (codes "image_tokens") (codes "1024")
                  (number (codes "text_tokens") (codes "0") end)))
              end)))))

abbrev pub uploaded_images : List Text → List Value
uploaded_images [] = []
uploaded_images (url ∷ urls) = obj (field (codes "url") (str url) end) ∷ uploaded_images urls

-- `as_i64` gives the digits of an integer; the images are their URLs.
unfoldable pub build_response_payload : (Value → Option Text) → Value → List Text → Text → Value
unfolding value_get build_fixed_usage
build_response_payload as_i64 upstream_body uploaded fallback_created =
    let created =
      unwrap_or (and_then (value_get (codes "created") upstream_body) as_i64) fallback_created in
    obj (
      field (codes "created") (num created) (
        field (codes "data") (arr (from_list (uploaded_images uploaded)))
          (field (codes "usage") build_fixed_usage end)))
