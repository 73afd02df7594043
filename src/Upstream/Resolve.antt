-- ===== src/Upstream/Resolve.antt =====
-- rust-sync-proxy/src/upstream.rs, `resolve_upstream_for_request`.
use gemini_worker_go.Prelude.{
  ◌≡◌, refl, sym, ap, ◌∙◌, Bool, true, false, Bool-cases, Option, none, some, inl, inr, List, [],
  ◌∷◌, arith, ok, err, Result, unwrap_or, >>=-eq-ok, ◌⊎◌, ◌>>=◌, ◌||◌, Option-cases, if◌then◌else◌,
}
use gemini_worker_go.Text.{Text, is_empty, trim, split_once, split, contains_char}
use gemini_worker_go.Url.{UrlParser, ParsedUrl, is_http, host_or_empty}
use gemini_worker_go.Json.{Value}
use gemini_worker_go.Upstream.{
  ResolvedUpstream, ResolveUpstreamError, PointerReader, UpstreamOverride, Headers,
  validate_http_base_url, single_of, pair_of, parse_single_upstream_token,
  parse_strict_upstream_pair, choose_pair, parse_dual_upstream_token, override_of, with_override,
  resolve_upstream_for_request, trimmed_parts, request_targets_4k, if_given, token_of, read_headers,
}

-- A URL that `Url::parse` accepts, over http or https, with a host.
abbrev pub IsHttpUrl : UrlParser → Text → Type 0
IsHttpUrl parse url =
    (u : ParsedUrl) × (parse url ≡ ok u) × (is_http u ≡ true) × (is_empty (host_or_empty u) ≡ false)

validate-IsHttpUrl :
    (parse : UrlParser) (url : Text)
    → validate_http_base_url parse url ≡ ok tt
    → IsHttpUrl parse url
unfolding validate_http_base_url
validate-IsHttpUrl parse url h =
    elim (parse url) as (λ r. parse url ≡ r → IsHttpUrl parse url) [
      | err e ↦ λ p. ground (arith, p, h)
      | ok u ↦ λ p. (u, p, ground (arith, p, h), ground (arith, p, h))
    ]
      refl

-- An override whose URL, if it has one, is an http URL.
abbrev pub IsChecked : UrlParser → UpstreamOverride → Type 0
IsChecked parse o = (url : Text) → o.base_url ≡ some url → IsHttpUrl parse url

checked_then :
    (m : Result ResolveUpstreamError (Unit {0})) (p o : UpstreamOverride)
    → (m >>= (λ _. ok p)) ≡ ok o
    → (m ≡ ok tt) × (p ≡ o)
checked_then (ok u) p o h = (refl, cc)
checked_then (err e) p o h = cc

no_url-IsChecked :
    (parse : UrlParser) (k : Option Text) (o : UpstreamOverride)
    → record { base_url = none; api_key = k } ≡ o
    → IsChecked parse o
no_url-IsChecked parse k o h = rw (sym h) (λ url e. cc)

url-IsChecked :
    (parse : UrlParser) (url : Text) (k : Option Text) (o : UpstreamOverride)
    → validate_http_base_url parse url ≡ ok tt
    → record { base_url = some url; api_key = k } ≡ o
    → IsChecked parse o
url-IsChecked parse url k o v h =
    rw (sym h)
      (λ other e. let same : url ≡ other = cc in rw (sym same) (validate-IsHttpUrl parse url v))

single_of-IsChecked :
    (parse : UrlParser) (token : Text) (cut : Option (Text × Text)) (o : UpstreamOverride)
    → single_of parse token cut ≡ ok o
    → IsChecked parse o
unfolding single_of
single_of-IsChecked parse token none o h = no_url-IsChecked parse (some (trim token)) o cc
single_of-IsChecked parse token (some (b, k)) o h = elim (Bool-cases (is_empty (trim b))) [
  | inl e ↦ no_url-IsChecked parse (if_given (trim k)) o (cc (rw e at h))
  | inr e ↦
      let (v, same) = checked_then (validate_http_base_url parse (trim b)) _ o (rw e at h) in
      url-IsChecked parse (trim b) (if_given (trim k)) o v same
]

-- A pair of a dual token has an http URL and a key.
abbrev pub IsPair : UrlParser → UpstreamOverride → Type 0
IsPair parse o =
    (url : Text) × (key : Text) × (o ≡ record { base_url = some url; api_key = some key })
    × IsHttpUrl parse url
    × (is_empty key ≡ false)

pair_of-IsPair :
    (parse : UrlParser) (cut : Option (Text × Text)) (o : UpstreamOverride)
    → pair_of parse cut ≡ ok o
    → IsPair parse o
unfolding pair_of
pair_of-IsPair parse none o h = cc
pair_of-IsPair parse (some (b, k)) o h =
    elim (Bool-cases (is_empty (trim b) || is_empty (trim k))) [
      | inl e ↦ ground (arith, e)
      | inr e ↦
          let (v, same) = checked_then (validate_http_base_url parse (trim b)) _ o (rw e at h) in
          (trim b, trim k, sym same, validate-IsHttpUrl parse (trim b) v, ground (arith, e))
    ]

chosen-IsPair :
    (parse : UrlParser) (wants_4k : Bool) (first second o : UpstreamOverride)
    → (if wants_4k then second else first) ≡ o
    → IsPair parse first
    → IsPair parse second
    → IsPair parse o
chosen-IsPair parse true first second o h p q = rw (sym h) q
chosen-IsPair parse false first second o h p q = rw (sym h) p

choose_pair-IsPair :
    (parse : UrlParser) (wants_4k : Bool) (parts : List Text) (o : UpstreamOverride)
    → choose_pair parse wants_4k parts ≡ ok o
    → IsPair parse o
unfolding choose_pair parse_strict_upstream_pair
choose_pair-IsPair parse wants_4k (p ∷ q ∷ []) o h =
    let (first, e, h₂) = >>=-eq-ok (pair_of parse (split_once b'|' p)) _ h in
    let (second, f, h₃) = >>=-eq-ok (pair_of parse (split_once b'|' q)) _ h₂ in
    let same : (if wants_4k then second else first) ≡ o = cc in
    chosen-IsPair parse wants_4k first second o same (pair_of-IsPair parse _ first e)
      (pair_of-IsPair parse _ second f)
choose_pair-IsPair parse wants_4k [] o h = cc
choose_pair-IsPair parse wants_4k (p ∷ []) o h = cc
choose_pair-IsPair parse wants_4k (p ∷ q ∷ r ∷ rs) o h = cc

IsPair-IsChecked : (parse : UrlParser) (o : UpstreamOverride) → IsPair parse o → IsChecked parse o
IsPair-IsChecked parse o (u, key, same, http, given) url e =
    let equal : u ≡ url = cc in rw (sym equal) http

override_of-IsChecked :
    (parse : UrlParser) (pointer : PointerReader) (body : Value) (token : Option Text)
    (o : UpstreamOverride)
    → override_of parse pointer body token ≡ ok o
    → IsChecked parse o
unfolding override_of parse_dual_upstream_token parse_single_upstream_token
override_of-IsChecked parse pointer body none o h = no_url-IsChecked parse none o cc
override_of-IsChecked parse pointer body (some token) o h =
    elim (Bool-cases (contains_char b',' token)) [
      | inl e ↦ IsPair-IsChecked parse o (
          choose_pair-IsPair parse (request_targets_4k pointer body)
            (trimmed_parts (split b',' token)) o (rw e at h))
      | inr e ↦ single_of-IsChecked parse token _ o (rw e at h)
    ]

with_override_cases :
    (default_base_url default_api_key : Text) (o : UpstreamOverride) (r : ResolvedUpstream)
    → with_override default_base_url default_api_key o ≡ ok r
    → (is_empty r.api_key ≡ false) × (r.base_url ≡ unwrap_or o.base_url (trim default_base_url))
unfolding with_override
with_override_cases b k o r h = ground (arith, h)

-- A request that is not refused goes with a key that is not empty, to the default base URL or to one
-- that `Url::parse` accepts, with the scheme http or https and a host.
pub resolve_upstream_for_request-IsHttpUrl :
    (parse : UrlParser) (pointer : PointerReader) (headers : Headers) (body : Value)
    (default_base_url default_api_key : Text) (r : ResolvedUpstream)
    → resolve_upstream_for_request parse pointer headers body default_base_url default_api_key
      ≡ ok r
    → (is_empty r.api_key ≡ false)
      × ((r.base_url ≡ trim default_base_url) ⊎ IsHttpUrl parse r.base_url)
unfolding resolve_upstream_for_request
resolve_upstream_for_request-IsHttpUrl parse pointer headers body b k r h =
    let (o, e, w) =
      >>=-eq-ok (override_of parse pointer body (token_of (read_headers headers none none))) _ h in
    let (key, url) = with_override_cases b k o r w in
    (
      key,
      elim (Option-cases o.base_url) [
        | inl n ↦ inl (url ∙ ap (λ x. unwrap_or x (trim b)) n)
        | inr (u, s) ↦
            let same : u ≡ r.base_url = sym (url ∙ ap (λ x. unwrap_or x (trim b)) s) in
            inr (
              rw (sym same) (
                override_of-IsChecked parse pointer body (token_of (read_headers headers none none))
                  o e u s))
      ],
    )
