-- ===== src/Response/Images.antt =====
-- rust-sync-proxy/src/response_rewrite.rs: replies of two providers that name their images by URL, made
-- into replies that hold them.
use gemini_worker_go.Prelude.{
  Bool, false, ◌&&◌, ◌||◌, not, Option, none, some, List, [], ◌∷◌, Result, ok, err, ◌>>=◌,
  if◌then◌else◌, and_then, unwrap_or,
}
use gemini_worker_go.Text.{
  Text, codes, text_eq, is_empty, trim, starts_with, split_once, split_once_at,
  eq_ignore_ascii_case,
}
use gemini_worker_go.Json.{
  Value, Items, Fields, null, bool, num, str, arr, obj, nil, cons, end, field, as_str, as_array,
  value_get, items, from_list,
}
use gemini_worker_go.Files.{Bytes}
use gemini_worker_go.Config.{Config, resolved_external_image_proxy_prefix}
use gemini_worker_go.ImageIo.{FetchError, FetchedInlineData, guess_image_mime_type_from_url}
use gemini_worker_go.Upload.{wrap_external_proxy_url}
use gemini_worker_go.Upstream.{PointerReader}

pub data OutputMode : Type 0 where
  base64 url : OutputMode

unfoldable mutual
  unfolding text_eq

  pub contains_inline_data : Value → Bool
  contains_inline_data null = false
  contains_inline_data (bool b) = false
  contains_inline_data (num n) = false
  contains_inline_data (str s) = false
  contains_inline_data (arr xs) = any_item xs
  contains_inline_data (obj map) = any_value map

  pub any_item : Items → Bool
  any_item nil = false
  any_item (cons child more) = contains_inline_data child || any_item more

  -- One pass over the keys and the values.
  pub any_value : Fields → Bool
  any_value end = false
  any_value (field key child more) =
      text_eq key (codes "inlineData") || contains_inline_data child || any_value more

abbrev pub is_http_url : Text → Bool
is_http_url text = starts_with text (codes "http://") || starts_with text (codes "https://")

abbrev pub if_http_url : Text → Option Text
if_http_url text = if is_http_url text then some text else none

unfoldable pub extract_markdown_image_url : Text → Option Text
unfolding split_once_at split_once trim starts_with
extract_markdown_image_url text =
    and_then (split_once_at (codes "](") text)
      (λ parts. and_then (split_once b')' parts.1) (λ ends. if_http_url (trim ends.0)))

abbrev pub or_later : Option Text → Option Text → Option Text
or_later none later = later
or_later (some found) later = some found

abbrev pub markdown_of : Option Text → Option Text
markdown_of none = none
markdown_of (some text) =
    if is_empty (trim text) then none else extract_markdown_image_url (trim text)

unfoldable pub extract_first_markdown_image_url_from_parts : List Value → Option Text
unfolding extract_markdown_image_url value_get trim
extract_first_markdown_image_url_from_parts [] = none
extract_first_markdown_image_url_from_parts (part ∷ parts) =
    or_later (markdown_of (and_then (value_get (codes "text") part) as_str))
      (extract_first_markdown_image_url_from_parts parts)

-- The filter on one item, with its type and URL.
abbrev pub image_url_of : Text → Option Text → Option Text
image_url_of item_type none = none
image_url_of item_type (some link) =
    if eq_ignore_ascii_case item_type (codes "image") && is_http_url link then some link else none

abbrev pub cons_some : Option Text → List Text → List Text
cons_some none rest = rest
cons_some (some link) rest = link ∷ rest

unfoldable pub item_image_urls : List Value → List Text
unfolding value_get eq_ignore_ascii_case starts_with
item_image_urls [] = []
item_image_urls (item ∷ more) =
    cons_some
      (image_url_of (unwrap_or (and_then (value_get (codes "type") item) as_str) [])
        (and_then (value_get (codes "url") item) as_str))
      (item_image_urls more)

abbrev pub items_or_none : Option Items → List Value
items_or_none none = []
items_or_none (some xs) = items xs

unfoldable pub extract_aiapidev_image_urls : PointerReader → Value → List Text
unfolding item_image_urls
extract_aiapidev_image_urls pointer body =
    item_image_urls (items_or_none (and_then (pointer (codes "/result/items") body) as_array))

abbrev pub inline_data : Text → Text → Value
inline_data mime_type text =
    obj (field (codes "mimeType") (str mime_type) (field (codes "data") (str text) end))

abbrev pub image_part : Value → Value
image_part v = obj (field (codes "inlineData") v end)

abbrev pub fetched_inline_data : (Bytes → Text) → FetchedInlineData → Value
fetched_inline_data encode fetched = inline_data fetched.mime_type (encode fetched.bytes)

-- `encode` is `STANDARD.encode`, `byte_serialize` that of the crate `url`, and `fetch` the fetch service
-- or a fetch of its own.
abbrev number : Text → Value
number digits = num digits

unfoldable pub build_aiapidev_usage_metadata : Value
build_aiapidev_usage_metadata = obj (
    field (codes "candidatesTokenCount") (number (codes "1024")) (
      field (codes "promptTokenCount") (number (codes "1024"))
        (field (codes "totalTokenCount") (number (codes "2048")) end)))

-- The reply with these parts.
unfoldable pub reply_of : List Value → Value
unfolding build_aiapidev_usage_metadata
reply_of parts = obj (
    field (codes "candidates")
      (arr (
        cons
          (obj (
            field (codes "content")
              (obj (
                field (codes "role") (str (codes "model"))
                  (field (codes "parts") (arr (from_list parts)) end)))
              (field (codes "finishReason") (str (codes "STOP"))
                (field (codes "safetyRatings") (arr nil) end))))
          nil))
      (field (codes "usageMetadata") build_aiapidev_usage_metadata end))

pub data ResponseError : Type 0 where
  no_image_urls : ResponseError
  not_fetched : FetchError → ResponseError

abbrev pub replied : Result FetchError (List Value) → Result ResponseError Value
replied (ok parts) = ok (reply_of parts)
replied (err e) = err (not_fetched e)

module _ (byte_serialize : Text → Text) (encode : Bytes → Text)
    (fetch : Text → Result FetchError FetchedInlineData) (config : Config) where
  unfoldable pub linked : Text → Text
  unfolding wrap_external_proxy_url resolved_external_image_proxy_prefix
  linked image_url =
      if config.proxy_special_upstream_urls
        && not (is_empty (resolved_external_image_proxy_prefix config))
      then wrap_external_proxy_url byte_serialize (resolved_external_image_proxy_prefix config)
          image_url
      else image_url

  -- The `match` on the output mode.
  unfoldable pub image_of : OutputMode → Text → Result FetchError Value
  unfolding linked guess_image_mime_type_from_url
  image_of url image_url =
      ok (inline_data (guess_image_mime_type_from_url image_url) (linked image_url))
  image_of base64 image_url =
      fetch image_url >>= (λ fetched. ok (fetched_inline_data encode fetched))

  unfoldable pub images_of : OutputMode → List Text → Result FetchError (List Value)
  unfolding image_of
  images_of output_mode [] = ok []
  images_of output_mode (image_url ∷ image_urls) =
      image_of output_mode image_url
      >>= (λ image. images_of output_mode image_urls >>= (λ parts. ok (image_part image ∷ parts)))

  unfoldable pub normalize_urls : OutputMode → List Text → Result ResponseError Value
  unfolding images_of reply_of
  normalize_urls output_mode [] = err no_image_urls
  normalize_urls output_mode (image_url ∷ image_urls) =
      replied (images_of output_mode (image_url ∷ image_urls))

  unfoldable pub normalize_aiapidev_task_response :
      PointerReader → Value → OutputMode → Result ResponseError Value
  unfolding normalize_urls extract_aiapidev_image_urls
  normalize_aiapidev_task_response pointer body output_mode =
      normalize_urls output_mode (extract_aiapidev_image_urls pointer body)
