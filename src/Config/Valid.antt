-- ===== src/Config/Valid.antt =====
-- rust-sync-proxy/src/config.rs: what holds of the settings that `from_env_map` accepts.
use gemini_worker_go.Prelude.{
  ℕ, ◌≡◌, ◌≤◌, ◌<◌, refl, sym, ◌∙◌, true, false, Bool-cases, Option, none, some, inl, inr, List, [],
  ◌∷◌, ok, err, Result, ◌>>=◌, arith, unwrap_or,
}
use gemini_worker_go.Text.{Text, codes, is_empty, text_eq, one_of, trim, to_ascii_lowercase}
use gemini_worker_go.Url.{UrlParser, ParsedUrl, is_http, host_or_empty}
use gemini_worker_go.Env.{
  Env, mapped, parse_csv, parse_optional_string_with_disabled, trim_slashes,
  parse_positive_u64_with_default, parse_jpeg_quality, not_empty, parse_http_base_url,
}
use gemini_worker_go.Config.{
  Config, config_of, validate, validate_r2, required, require_all, endpoint_error, uses_r2,
  from_env_map, image_fetch_timeout_ms, default_allowed_proxy_domains,
}

positive : (value : Option Text) (d : ℕ) → 0 < d → 0 < parse_positive_u64_with_default value d
unfolding parse_positive_u64_with_default
positive value d h = ground arith

quality :
    (value : Option Text) → (1 ≤ parse_jpeg_quality value 97) × (parse_jpeg_quality value 97 ≤ 100)
unfolding parse_jpeg_quality
quality value = ground arith

given :
    {A : Type 0} (o : Option (List A)) (d : List A)
    → is_empty d ≡ false
    → is_empty (unwrap_or (not_empty o) d) ≡ false
given none d h = h
given (some []) d h = h
given (some (a ∷ s)) d h = refl

-- A value that `Url::parse` accepts, over http or https, with a host that is not blank.
abbrev pub IsHttpUrl : UrlParser → Text → Type 0
IsHttpUrl parse raw =
    (u : ParsedUrl) × (parse (trim raw) ≡ ok u)
    × (is_http u ≡ true)
    × (is_empty (trim (host_or_empty u)) ≡ false)

-- The settings of the image host, and the numbers and lists that other parts rely on.
pub record IsValid (parse : UrlParser) (c : Config) : Type 0 where
  pub mode :
      one_of c.image_host_mode (codes "legacy" ∷ codes "r2" ∷ codes "r2_then_legacy" ∷ []) ≡ true
  pub r2_key :
      uses_r2 c.image_host_mode ≡ true
      → (is_empty (trim c.r2_bucket) ≡ false)
        × (is_empty (trim c.r2_access_key_id) ≡ false)
        × (is_empty (trim c.r2_secret_access_key) ≡ false)
  pub r2_urls :
      uses_r2 c.image_host_mode ≡ true
      → IsHttpUrl parse c.r2_endpoint × IsHttpUrl parse c.r2_public_base_url
  pub timeout : 0 < c.upstream_timeout
  pub fetch_timeout : 0 < c.image_fetch_timeout
  pub upload_timeout : 0 < c.upload_timeout
  pub quality : (1 ≤ c.image_compression_jpeg_quality) × (c.image_compression_jpeg_quality ≤ 100)
  pub domains : is_empty c.allowed_proxy_domains ≡ false
  pub base_url : is_empty c.upstream_base_url ≡ false
  pub spill_dir : is_empty c.blob_spill_dir ≡ false
  pub prefix : is_empty c.r2_object_prefix ≡ false

parse_http-IsHttpUrl :
    (parse : UrlParser) (raw name url : Text)
    → parse_http_base_url parse raw name ≡ ok url
    → IsHttpUrl parse raw
unfolding parse_http_base_url
parse_http-IsHttpUrl parse raw name url h = elim (Bool-cases (is_empty (trim raw))) [
  | inl e ↦ ground (arith, e)
  | inr e ↦
      elim (parse (trim raw)) as (λ r. parse (trim raw) ≡ r → IsHttpUrl parse raw) [
        | err x ↦ λ p. ground (arith, e, p, h)
        | ok u ↦ λ p. (u, p, ground (arith, e, p, h), ground (arith, e, p, h))
      ]
        refl
]

endpoint_ok : (r : Result Text Text) (s : Text) → endpoint_error r ≡ ok s → r ≡ ok s
endpoint_ok (ok t) s h = h
endpoint_ok (err e) s h = cc

all_ok :
    (a : Result Text (Unit {0})) (b c : Result Text Text)
    → (a >>= (λ _. b >>= (λ _. c >>= (λ _. ok tt)))) ≡ ok tt
    → ((s : Text) × (b ≡ ok s)) × ((s : Text) × (c ≡ ok s))
all_ok (ok _) (ok s) (ok u) h = ((s, refl), (u, refl))
all_ok (err e) b c h = cc
all_ok (ok _) (err e) c h = cc
all_ok (ok _) (ok s) (err e) h = cc

validate_r2-urls :
    (parse : UrlParser) (c : Config)
    → validate_r2 parse c ≡ ok tt
    → IsHttpUrl parse c.r2_endpoint × IsHttpUrl parse c.r2_public_base_url
unfolding validate_r2
validate_r2-urls parse c h =
    let r = parse_http_base_url parse c.r2_endpoint (codes "R2_ENDPOINT") in
    let p = parse_http_base_url parse c.r2_public_base_url (codes "R2_PUBLIC_BASE_URL") in
    let ((s, e), (u, f)) = all_ok (require_all (required c)) (endpoint_error r) p h in
    (
      parse_http-IsHttpUrl parse c.r2_endpoint (codes "R2_ENDPOINT") s (endpoint_ok r s e),
      parse_http-IsHttpUrl parse c.r2_public_base_url (codes "R2_PUBLIC_BASE_URL") u f,
    )

validate_r2-key :
    (parse : UrlParser) (c : Config)
    → validate_r2 parse c ≡ ok tt
    → (is_empty (trim c.r2_bucket) ≡ false)
      × (is_empty (trim c.r2_access_key_id) ≡ false)
      × (is_empty (trim c.r2_secret_access_key) ≡ false)
unfolding validate_r2 require_all
validate_r2-key parse c h = ground arith

validate-mode :
    (parse : UrlParser) (c : Config)
    → validate parse c ≡ ok tt
    → (one_of c.image_host_mode ([] ∷ codes "legacy" ∷ codes "r2" ∷ codes "r2_then_legacy" ∷ [])
        ≡ true)
      × (uses_r2 c.image_host_mode ≡ true → validate_r2 parse c ≡ ok tt)
unfolding validate
validate-mode parse c h =
    elim (Bool-cases
      (one_of c.image_host_mode ([] ∷ codes "legacy" ∷ codes "r2" ∷ codes "r2_then_legacy" ∷ []))) [
        | inl e ↦ (e, λ u. rw (e, u) at h)
        | inr e ↦ ground (arith, e)
      ]

checked_by :
    (m : Result Text (Unit {0})) (settings c : Config)
    → (m >>= (λ _. ok settings)) ≡ ok c
    → (m ≡ ok tt) × (settings ≡ c)
checked_by (ok _) settings c h = (refl, cc)
checked_by (err e) settings c h = cc

checked :
    (parse : UrlParser) (settings c : Config)
    → (validate parse settings >>= (λ _. ok settings)) ≡ ok c
    → (validate parse settings ≡ ok tt) × (settings ≡ c)
checked parse settings c h = checked_by (validate parse settings) settings c h

IsEmpty-lower : (s : Text) → is_empty (to_ascii_lowercase s) ≡ is_empty s
unfolding to_ascii_lowercase
IsEmpty-lower [] = refl
IsEmpty-lower (c ∷ s) = refl

mode-not_empty :
    (mode : Text) (modes : List Text)
    → is_empty mode ≡ false
    → one_of mode ([] ∷ modes) ≡ true
    → one_of mode modes ≡ true
unfolding one_of text_eq
mode-not_empty [] modes h e = cc
mode-not_empty (c ∷ s) modes h e = e

-- Settings that `from_env_map` gives name one of the three image hosts, have non-blank keys and
-- http URLs with a host for R2 where it is used, and have positive upstream, image-fetch and
-- upload timeouts, a JPEG quality from 1 to 100, and a base URL, proxy domains, a spill directory and an
-- object prefix that are not empty, whatever the environment holds.
pub from_env_map-IsValid :
    (parse : UrlParser) (env : Env) (c : Config) → from_env_map parse env ≡ ok c → IsValid parse c
unfolding from_env_map config_of image_fetch_timeout_ms
from_env_map-IsValid parse env c h =
    let (valid, same) = checked parse (config_of parse env) c h in
    let (mode, r2) = validate-mode parse (config_of parse env) valid in
    rw (sym same) (record {
      mode =
          mode-not_empty (config_of parse env).image_host_mode
            (codes "legacy" ∷ codes "r2" ∷ codes "r2_then_legacy" ∷ [])
            (IsEmpty-lower _
              ∙ given (mapped trim (env (codes "IMAGE_HOST_MODE"))) (codes "legacy") refl)
            mode;
      r2_key = λ u. validate_r2-key parse (config_of parse env) (r2 u);
      r2_urls = λ u. validate_r2-urls parse (config_of parse env) (r2 u);
      timeout = positive (env (codes "UPSTREAM_TIMEOUT_MS")) 600000 (omega arith);
      fetch_timeout = positive (env (codes "IMAGE_FETCH_TIMEOUT_MS")) 20000 (omega arith);
      upload_timeout = positive (env (codes "UPLOAD_TIMEOUT_MS")) 20000 (omega arith);
      quality = quality (env (codes "IMAGE_COMPRESSION_JPEG_QUALITY"));
      domains =
          given (mapped parse_csv (env (codes "ALLOWED_PROXY_DOMAINS")))
            default_allowed_proxy_domains refl;
      base_url =
          given (mapped trim (env (codes "UPSTREAM_BASE_URL"))) (codes "https://magic666.top") refl;
      spill_dir =
          given (mapped parse_optional_string_with_disabled (env (codes "BLOB_SPILL_DIR")))
            (codes "/tmp/rust-sync-proxy-blobs") refl;
      prefix =
          given (mapped (λ v. trim_slashes (trim v)) (env (codes "R2_OBJECT_PREFIX")))
            (codes "images") refl;
    })
