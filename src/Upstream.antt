-- ===== src/Upstream.antt =====
-- rust-sync-proxy/src/upstream.rs: which upstream a request goes to, by its headers, and the model
-- names of one provider.
pub mod Resolve
pub mod Model
use gemini_worker_go.Prelude.{
  ℕ, Bool, true, false, ◌&&◌, ◌||◌, not, Option, none, some, List, [], ◌∷◌, ◌++◌, Result, ok, err,
  ◌>>=◌, and_then, unwrap_or, if◌then◌else◌, map,
}
use gemini_worker_go.Text.{
  Text, codes, text_eq, is_empty, one_of, strip_prefix, trim, eq_ignore_ascii_case, split,
  split_once, split_once_at, contains_char,
}
use gemini_worker_go.Json.{Value, as_str}
use gemini_worker_go.Url.{UrlParser, ParsedUrl, is_http, host_or_empty}

pub record ResolvedUpstream : Type 0 where
  pub base_url : Text
  pub api_key : Text

pub data ResolveUpstreamErrorKind : Type 0 where
  missing_key invalid : ResolveUpstreamErrorKind

pub record ResolveUpstreamError : Type 0 where
  pub kind : ResolveUpstreamErrorKind
  pub message : Text

abbrev pub missing_api_key : ResolveUpstreamError
missing_api_key = record { kind = missing_key; message = codes "Missing upstream apiKey" }

abbrev pub invalid_override : Text → ResolveUpstreamError
invalid_override message = record { kind = invalid; message = message }

unfoldable pub status_code : ResolveUpstreamError → ℕ
status_code e = elim e.kind [ missing_key ↦ 401 | invalid ↦ 400 ]

pub record UpstreamOverride : Type 0 where
  pub base_url : Option Text
  pub api_key : Option Text

-- `value.pointer(p)` of serde_json.
abbrev pub PointerReader : Type 0
PointerReader = Text → Value → Option Value

unfoldable pub first_some : Option Value → Option Value → Option Value
first_some none b = b
first_some (some a) b = some a

unfoldable pub request_targets_4k : PointerReader → Value → Bool
unfolding first_some eq_ignore_ascii_case
request_targets_4k pointer request_body =
    unwrap_or
      (and_then
        (first_some (pointer (codes "/generationConfig/imageConfig/imageSize") request_body)
          (pointer (codes "/generation_config/image_config/image_size") request_body))
        (λ v. and_then (as_str v) (λ value. some (eq_ignore_ascii_case (trim value) (codes "4k")))))
      false

unfoldable pub validate_http_base_url : UrlParser → Text → Result ResolveUpstreamError (Unit {0})
validate_http_base_url parse raw = elim (parse raw) [
  | err e ↦ err (invalid_override e)
  | ok parsed ↦
      if not (is_http parsed)
      then err (invalid_override (codes "custom baseUrl must use http or https"))
      else if is_empty (host_or_empty parsed)
      then err (invalid_override (codes "custom baseUrl host is empty"))
      else ok tt
]

abbrev pub if_given : Text → Option Text
if_given s = if is_empty s then none else some s

unfoldable pub single_of :
    UrlParser → Text → Option (Text × Text) → Result ResolveUpstreamError UpstreamOverride
unfolding validate_http_base_url
single_of parse token none = ok (record { base_url = none; api_key = some (trim token) })
single_of parse token (some (b, k)) =
    let parsed : UpstreamOverride = record {
      base_url = if_given (trim b);
      api_key = if_given (trim k);
    } in
    if is_empty (trim b)
    then ok parsed
    else validate_http_base_url parse (trim b) >>= (λ _. ok parsed)

unfoldable pub parse_single_upstream_token :
    UrlParser → Text → Result ResolveUpstreamError UpstreamOverride
unfolding single_of split_once
parse_single_upstream_token parse token = single_of parse token (split_once b'|' token)

unfoldable pub pair_of :
    UrlParser → Option (Text × Text) → Result ResolveUpstreamError UpstreamOverride
unfolding validate_http_base_url
pair_of parse none =
    err (
      invalid_override (codes "invalid dual upstream token: each group must be <baseUrl>|<apiKey>"))
pair_of parse (some (b, k)) =
    if is_empty (trim b) || is_empty (trim k)
    then err (
        invalid_override
          (codes "invalid dual upstream token: baseUrl and apiKey must both be non-empty"))
    else validate_http_base_url parse (trim b)
      >>= (λ _. ok (record { base_url = some (trim b); api_key = some (trim k) }))

unfoldable pub parse_strict_upstream_pair :
    UrlParser → Text → Result ResolveUpstreamError UpstreamOverride
unfolding pair_of split_once
parse_strict_upstream_pair parse token = pair_of parse (split_once b'|' token)

-- `.map(str::trim).filter(|part| !part.is_empty())`
unfoldable pub trimmed_parts : List Text → List Text
trimmed_parts [] = []
trimmed_parts (p ∷ ps) =
    let rest = trimmed_parts ps in if is_empty (trim p) then rest else trim p ∷ rest

abbrev pub wrong_count : ResolveUpstreamError
wrong_count =
    invalid_override
      (codes "invalid dual upstream token: expected exactly two <baseUrl>|<apiKey> groups")

unfoldable pub choose_pair :
    UrlParser → Bool → List Text → Result ResolveUpstreamError UpstreamOverride
unfolding parse_strict_upstream_pair
choose_pair parse wants_4k (p ∷ q ∷ []) = parse_strict_upstream_pair parse p >>= (λ first.
    parse_strict_upstream_pair parse q >>= (λ second. ok (if wants_4k then second else first)))
choose_pair parse wants_4k _ = err wrong_count

unfoldable pub parse_dual_upstream_token :
    UrlParser → PointerReader → Text → Value → Result ResolveUpstreamError UpstreamOverride
unfolding choose_pair request_targets_4k trimmed_parts
parse_dual_upstream_token parse pointer token request_body =
    choose_pair parse (request_targets_4k pointer request_body) (trimmed_parts (split b',' token))

abbrev pub Headers : Type 0
Headers = List (Text × Text)

-- The loop over the headers: `x_goog_api_key` and `authorization` as they stand before it.
unfoldable pub read_headers : Headers → Option Text → Option Text → Option Text × Option Text
unfolding eq_ignore_ascii_case
read_headers [] x a = (x, a)
read_headers ((key, value) ∷ hs) x a =
    let v = trim value in
    let goog = read_headers hs (some v) a in
    let auth = read_headers hs x (some v) in
    let rest = read_headers hs x a in
    if eq_ignore_ascii_case key (codes "x-goog-api-key") && not (is_empty v)
    then goog
    else if eq_ignore_ascii_case key (codes "authorization") && not (is_empty v)
    then auth
    else rest

unfoldable pub token_of : Option Text × Option Text → Option Text
token_of (some x, a) = some x
token_of (none, a) = and_then a (λ value. strip_prefix value (codes "Bearer "))

unfoldable pub override_of :
    UrlParser → PointerReader → Value → Option Text → Result ResolveUpstreamError UpstreamOverride
unfolding parse_dual_upstream_token parse_single_upstream_token contains_char
override_of parse pointer request_body none = ok (record { base_url = none; api_key = none })
override_of parse pointer request_body (some token) =
    if contains_char b',' token
    then parse_dual_upstream_token parse pointer token request_body
    else parse_single_upstream_token parse token

unfoldable pub with_override :
    Text → Text → UpstreamOverride → Result ResolveUpstreamError ResolvedUpstream
with_override default_base_url default_api_key o =
    let base_url = unwrap_or o.base_url (trim default_base_url) in
    let api_key = unwrap_or o.api_key (trim default_api_key) in
    if is_empty api_key
    then err missing_api_key
    else ok (record { base_url = base_url; api_key = api_key })

unfoldable pub resolve_upstream_for_request :
    UrlParser
    → PointerReader
    → Headers
    → Value
    → Text
    → Text
    → Result ResolveUpstreamError ResolvedUpstream
unfolding read_headers token_of override_of with_override
resolve_upstream_for_request parse pointer headers request_body default_base_url default_api_key =
    override_of parse pointer request_body (token_of (read_headers headers none none))
    >>= with_override default_base_url default_api_key

unfoldable pub is_aiapidev_base_url : UrlParser → Text → Bool
is_aiapidev_base_url parse raw = elim (parse raw) [
  | err e ↦ false
  | ok parsed ↦ elim parsed.host_str [
    | none ↦ false
    | some host ↦ one_of host (codes "www.aiapidev.com" ∷ codes "aiapidev.com" ∷ [])
  ]
]

unfoldable pub mapped_model : Text → Text
unfolding text_eq
mapped_model model =
    if text_eq model (codes "gemini-3-pro-image-preview")
    then codes "nanobananapro"
    else if text_eq model (codes "gemini-3.1-flash-image-preview")
    then codes "nanobanana2"
    else model

unfoldable pub rewrite_aiapidev_model_path : Text → Text
unfolding strip_prefix split_once_at mapped_model
rewrite_aiapidev_model_path path = elim (strip_prefix path (codes "/v1beta/models/")) [
  | none ↦ path
  | some model_part ↦ elim (split_once_at (codes ":generateContent") model_part) [
    | none ↦ path
    | some (model, suffix) ↦
        codes "/v1beta/models/" ++ (mapped_model model ++ (codes ":generateContent" ++ suffix))
  ]
]
