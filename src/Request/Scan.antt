-- ===== src/Request/Scan.antt =====
-- rust-sync-proxy/src/request_scan.rs: the image URLs of a request, with a pointer to each.
pub mod Complete
pub mod Sound
use gemini_worker_go.Prelude.{
  ℕ, zero, suc, ◌+◌, Bool, ◌||◌, Option, none, some, List, [], ◌∷◌, ◌++◌, Result, ok, err, ◌>>=◌,
  length, ltb, if◌then◌else◌, and_then,
}
use gemini_worker_go.Text.{Text, codes, replace, starts_with}
use gemini_worker_go.Text.Decimal.{decimal}
use gemini_worker_go.Json.{
  Value, Items, Fields, null, bool, num, str, arr, obj, nil, cons, end, field, get, as_object,
  as_str,
}

abbrev pub max_inline_data_urls : ℕ
max_inline_data_urls = 7

pub record RequestImageRef : Type 0 where
  pub json_pointer : Text
  pub url : Text

pub data ScanError : Type 0 where
  too_many_inline_data_urls : ScanError

unfoldable pub escape_json_pointer_token : Text → Text
unfolding replace
escape_json_pointer_token token = replace b'/' (codes "~1") (replace b'~' (codes "~0") token)

unfoldable pub is_http_url : Text → Bool
unfolding starts_with
is_http_url value = starts_with value (codes "http://") || starts_with value (codes "https://")

abbrev pub http_only : Text → Option Text
http_only url = if is_http_url url then some url else none

-- The nested `if let`: the URL that stands as `inlineData.data` of an object.
unfoldable pub inline_data_url : Fields → Option Text
unfolding get is_http_url
inline_data_url map = and_then (get (codes "inlineData") map) (λ v.
    and_then (as_object v) (λ inline_data.
      and_then (get (codes "data") inline_data)
        (λ data_value. and_then (as_str data_value) http_only)))

unfoldable pub push_match :
    Option Text → Text → List RequestImageRef → Result ScanError (List RequestImageRef)
push_match none path matches = ok matches
push_match (some url) path matches =
    let matches' =
      matches ++ record { json_pointer = path ++ codes "/inlineData"; url = url } ∷ [] in
    if ltb max_inline_data_urls (length matches')
    then err too_many_inline_data_urls
    else ok matches'

abbrev pub child_path : Text → Text → Text
child_path path token = path ++ codes "/" ++ token

unfoldable mutual
  unfolding inline_data_url push_match escape_json_pointer_token decimal

  pub walk : Value → Text → List RequestImageRef → Result ScanError (List RequestImageRef)
  walk (obj map) path matches =
      push_match (inline_data_url map) path matches >>= (λ ms. walk_fields map path ms)
  walk (arr xs) path matches = walk_items xs 0 path matches
  walk null path matches = ok matches
  walk (bool b) path matches = ok matches
  walk (num n) path matches = ok matches
  walk (str s) path matches = ok matches

  pub walk_items : Items → ℕ → Text → List RequestImageRef → Result ScanError (List RequestImageRef)
  walk_items nil index path matches = ok matches
  walk_items (cons v vs) index path matches =
      walk v (child_path path (decimal index)) matches >>= (λ ms. walk_items vs (index + 1) path ms)

  pub walk_fields : Fields → Text → List RequestImageRef → Result ScanError (List RequestImageRef)
  walk_fields end path matches = ok matches
  walk_fields (field k v fs) path matches =
      walk v (child_path path (escape_json_pointer_token k)) matches
      >>= (λ ms. walk_fields fs path ms)

unfoldable pub scan_request_image_urls : Value → Result ScanError (List RequestImageRef)
unfolding walk
scan_request_image_urls body = walk body [] []
