-- ===== src/Request/Rewrite.antt =====
-- rust-sync-proxy/src/request_rewrite.rs: a request in the form that one provider takes. `Map::insert`,
-- `Map::remove`, `Url::parse` and `byte_serialize` are arguments; a map is built by inserting.
pub mod Wrap
use gemini_worker_go.Prelude.{
  ℕ, ◌+◌, Bool, true, false, ◌&&◌, ◌||◌, not, Option, none, some, List, [], ◌∷◌, ◌++◌, Result, ok,
  err, ◌>>=◌, length, ltb, if◌then◌else◌, and_then, unwrap_or,
}
use gemini_worker_go.Text.{Text, codes, text_eq, is_empty, one_of, starts_with}
use gemini_worker_go.Text.Decimal.{decimal}
use gemini_worker_go.Json.{
  Value, Items, Fields, null, bool, num, str, arr, obj, nil, cons, end, field, as_str, as_object,
  get,
}
use gemini_worker_go.Url.{UrlParser, ParsedUrl, host_or_empty}
use gemini_worker_go.ImageIo.{hostname_matches_domain_patterns}
use gemini_worker_go.Request.Scan.{
  RequestImageRef, ScanError, too_many_inline_data_urls, scan_request_image_urls,
  max_inline_data_urls, escape_json_pointer_token, is_http_url,
}
use gemini_worker_go.Request.Encode.Body.{update, on_object}

pub record InlineDataScan : Type 0 where
  pub unique_urls : List Text
  pub total_refs : ℕ

-- The set of URLs, each where it is met first.
abbrev pub url_set : List RequestImageRef → List Text → List Text
url_set [] seen = seen
url_set (image_ref ∷ refs) seen =
    url_set refs (if one_of image_ref.url seen then seen else seen ++ image_ref.url ∷ [])

unfoldable pub scan_inline_data_urls : Value → Result ScanError InlineDataScan
unfolding scan_request_image_urls one_of
scan_inline_data_urls body = scan_request_image_urls body >>= (λ refs.
    if ltb max_inline_data_urls (length refs)
    then err too_many_inline_data_urls
    else ok (record { unique_urls = url_set refs []; total_refs = length refs }))

unfoldable pub rewrite_aiapidev_key : Text → Text
unfolding text_eq
rewrite_aiapidev_key key =
    if text_eq key (codes "generationConfig")
    then codes "generation_config"
    else if text_eq key (codes "imageConfig")
    then codes "image_config"
    else if text_eq key (codes "responseModalities")
    then codes "response_modalities"
    else if text_eq key (codes "aspectRatio")
    then codes "aspect_ratio"
    else if text_eq key (codes "imageSize")
    then codes "image_size"
    else key

-- `pointer_mut` to the image configuration: both steps are keys of objects.
abbrev pub strip_at : (Fields → Fields) → Text → Text → Value → Value
strip_at strip config image = on_object (update config (on_object (update image (on_object strip))))

unfoldable pub strip_output_fields : (Text → Fields → Fields) → Value → Value
unfolding update
strip_output_fields remove body =
    strip_at (remove (codes "output")) (codes "generation_config") (codes "image_config") (
      strip_at (remove (codes "output")) (codes "generationConfig") (codes "imageConfig")
        (on_object (remove (codes "output")) body))

unfoldable pub is_already_wrapped_external_proxy_url : Text → Text → Bool
unfolding starts_with
is_already_wrapped_external_proxy_url raw_url external_proxy_prefix =
    starts_with raw_url external_proxy_prefix

abbrev pub or_else_get : Option Value → Option Value → Option Value
or_else_get none second = second
or_else_get (some v) second = some v

-- `without_query` is `to_string` after `set_query(None)` and `set_fragment(None)`.
module _ (parse : UrlParser) (without_query : ParsedUrl → Text) (byte_serialize : Text → Text)
    (external_proxy_prefix : Text) (external_proxy_domains : List Text) where
  abbrev pub wrapped : Text → Result Text ParsedUrl → Text
  wrapped raw_url (err e) = raw_url
  wrapped raw_url (ok parsed) =
      if not (hostname_matches_domain_patterns (host_or_empty parsed) external_proxy_domains)
      then raw_url
      else external_proxy_prefix ++ byte_serialize (without_query parsed)

  unfoldable pub maybe_wrap_aiapidev_file_uri : Text → Text
  unfolding is_already_wrapped_external_proxy_url hostname_matches_domain_patterns
  maybe_wrap_aiapidev_file_uri raw_url =
      if is_empty external_proxy_prefix
        || is_empty external_proxy_domains
        || is_already_wrapped_external_proxy_url raw_url external_proxy_prefix
      then raw_url
      else wrapped raw_url (parse raw_url)

  abbrev pub pair_of : Text → Text → Text → Text → Value
  pair_of first a second b = obj (field first (str a) (field second (str b) end))

  -- The key and the payload, given the data and the MIME type.
  unfoldable pub payload_of : Text → Text → Text × Value
  unfolding is_http_url maybe_wrap_aiapidev_file_uri
  payload_of text mime_type =
      if is_http_url text
      then (
        codes "file_data",
        pair_of (codes "file_uri") (maybe_wrap_aiapidev_file_uri text) (codes "mime_type")
            mime_type,
      )
      else (codes "inline_data", pair_of (codes "data") text (codes "mime_type") mime_type)

  unfoldable pub rewrite_inline_data_payload : Fields → Option (Text × Value)
  unfolding payload_of get
  rewrite_inline_data_payload map =
      and_then
        (and_then (or_else_get (get (codes "inlineData") map) (get (codes "inline_data") map))
          as_object)
        (λ inline_data. and_then (and_then (get (codes "data") inline_data) as_str) (λ text. some (
          payload_of text (
            unwrap_or
              (and_then
                (or_else_get (get (codes "mimeType") inline_data)
                  (get (codes "mime_type") inline_data))
                as_str)
              (codes "image/png")))))

  module _ (insert : Text → Value → Fields → Fields) where
    abbrev pub insert_some : Text → Option Value → Fields → Fields
    insert_some key none out = out
    insert_some key (some v) out = insert key v out

    -- The loop over the children, which have been rewritten, with their old keys.
    abbrev pub insert_others : Bool → Fields → Fields → Fields
    insert_others in_contents end out = out
    insert_others in_contents (field key child more) out = insert_others in_contents more (
        if in_contents && one_of key (codes "role" ∷ codes "parts" ∷ [])
        then out
        else insert (rewrite_aiapidev_key key) child out)

    abbrev pub arranged : Bool → Fields → Fields
    arranged true children = insert_others true children (
        insert_some (codes "parts") (get (codes "parts") children)
          (insert_some (codes "role") (get (codes "role") children) end))
    arranged false children = insert_others false children end

    abbrev pub or_payload : Option (Text × Value) → Fields → Value
    or_payload (some (key, payload)) out = obj (insert key payload end)
    or_payload none out = obj out

    -- The children come before the map that they are put into. Those with the keys `role` and `parts`
    -- have the same path under their new key, which is the old one.
    unfoldable mutual
      unfolding rewrite_inline_data_payload rewrite_aiapidev_key escape_json_pointer_token decimal
          starts_with one_of get

      pub rewrite_aiapidev_value : Value → Text → Value
      rewrite_aiapidev_value null path = null
      rewrite_aiapidev_value (bool b) path = bool b
      rewrite_aiapidev_value (num n) path = num n
      rewrite_aiapidev_value (str s) path = str s
      rewrite_aiapidev_value (arr xs) path = arr (rewrite_items xs 0 path)
      rewrite_aiapidev_value (obj map) path =
          or_payload (rewrite_inline_data_payload map)
            (arranged (starts_with path (codes "/contents/")) (rewrite_children map path))

      pub rewrite_items : Items → ℕ → Text → Items
      rewrite_items nil index path = nil
      rewrite_items (cons item more) index path =
          cons (rewrite_aiapidev_value item (path ++ codes "/" ++ decimal index))
            (rewrite_items more (index + 1) path)

      pub rewrite_children : Fields → Text → Fields
      rewrite_children end path = end
      rewrite_children (field key child more) path =
          field key
            (rewrite_aiapidev_value child
              (path ++ codes "/" ++ escape_json_pointer_token (rewrite_aiapidev_key key)))
            (rewrite_children more path)

    unfoldable pub rewrite_aiapidev_request_body : (Text → Fields → Fields) → Value → Value
    unfolding strip_output_fields rewrite_aiapidev_value
    rewrite_aiapidev_request_body remove body =
        rewrite_aiapidev_value (strip_output_fields remove body) []
