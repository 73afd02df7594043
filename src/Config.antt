-- ===== src/Config.antt =====
-- rust-sync-proxy/src/config.rs: the settings, read from a map of environment variables. Durations
-- are their milliseconds.
pub mod Budgets
pub mod Valid
use gemini_worker_go.Prelude.{
  ℕ, ◌+◌, ◌*◌, ◌^◌, Bool, true, false, ◌&&◌, ◌||◌, not, Option, none, some, List, [], ◌∷◌, ◌++◌,
  Result, ok, err, ◌>>=◌, and_then, unwrap_or, if◌then◌else◌, leb, ltb, ◌==◌,
}
use gemini_worker_go.Text.{
  Text, codes, text_eq, is_empty, one_of, trim, trim_end_by, trim_start_by, to_ascii_lowercase,
  split,
}
use gemini_worker_go.Text.Decimal.{parse_unsigned}
use gemini_worker_go.Url.{UrlParser, ParsedUrl, is_http, host_or_empty}
use gemini_worker_go.Env.{
  parse_port, parsed, parse_positive_u64_with_default, parse_non_negative_u64_with_default,
  parse_jpeg_quality, is_disabled_value, parse_cache_bytes, non_blank, parse_csv,
  parse_optional_string_with_disabled, is_slash, parse_http_base_url, ok_or_empty,
  normalize_optional_http_base_url, parse_bool, Env, mapped, not_empty, or_empty, trim_slashes,
}

pub record BlobBudgetDefaults : Type 0 where
  pub inline_max_bytes : ℕ
  pub request_hot_budget_bytes : ℕ
  pub global_hot_budget_bytes : ℕ

abbrev pub mib : ℕ
mib = 1024 * 1024

abbrev pub gib : ℕ
gib = 1024 * 1024 * 1024

unfoldable pub blob_budget_defaults_for_memory : ℕ → BlobBudgetDefaults
blob_budget_defaults_for_memory memory_bytes =
    if leb (8 * gib) memory_bytes
    then record {
      inline_max_bytes = 16 * mib;
      request_hot_budget_bytes = 64 * mib;
      global_hot_budget_bytes = 1536 * mib;
    }
    else if leb (4 * gib) memory_bytes
    then record {
      inline_max_bytes = 12 * mib;
      request_hot_budget_bytes = 40 * mib;
      global_hot_budget_bytes = 768 * mib;
    }
    else record {
      inline_max_bytes = 8 * mib;
      request_hot_budget_bytes = 24 * mib;
      global_hot_budget_bytes = 384 * mib;
    }

abbrev pub default_allowed_proxy_domains : List Text
default_allowed_proxy_domains =
    codes "ai.kefan.cn" ∷ codes "uguu.se" ∷ codes ".uguu.se" ∷ codes ".aitohumanize.com" ∷ []

pub record Config : Type 0 where
  pub port : ℕ
  pub upstream_base_url : Text
  pub upstream_api_key : Text
  pub upstream_timeout : ℕ
  pub upstream_connect_timeout : ℕ
  pub upstream_tcp_keepalive : ℕ
  pub upstream_pool_idle_timeout : ℕ
  pub image_host_mode : Text
  pub allowed_proxy_domains : List Text
  pub public_base_url : Text
  pub external_image_proxy_prefix : Text
  pub slow_log_threshold : ℕ
  pub proxy_standard_output_urls : Bool
  pub proxy_special_upstream_urls : Bool
  pub enable_image_compression : Bool
  pub enable_request_image_webp_optimization : Bool
  pub image_compression_jpeg_quality : ℕ
  pub admin_password : Text
  pub image_fetch_timeout : ℕ
  pub image_tls_handshake_timeout : ℕ
  pub image_fetch_insecure_skip_verify : Bool
  pub image_fetch_external_proxy_domains : List Text
  pub inline_data_url_cache_dir : Text
  pub inline_data_url_cache_ttl : ℕ
  pub inline_data_url_cache_max_bytes : ℕ
  pub inline_data_url_memory_cache_max_bytes : ℕ
  pub inline_data_url_background_fetch_wait_timeout : ℕ
  pub inline_data_url_background_fetch_total_timeout : ℕ
  pub inline_data_url_background_fetch_max_inflight : ℕ
  pub blob_inline_max_bytes : ℕ
  pub blob_request_hot_budget_bytes : ℕ
  pub blob_global_hot_budget_bytes : ℕ
  pub blob_spill_dir : Text
  pub upload_timeout : ℕ
  pub upload_tls_handshake_timeout : ℕ
  pub upload_insecure_skip_verify : Bool
  pub legacy_uguu_upload_url : Text
  pub legacy_kefan_upload_url : Text
  pub r2_endpoint : Text
  pub r2_bucket : Text
  pub r2_access_key_id : Text
  pub r2_secret_access_key : Text
  pub r2_public_base_url : Text
  pub r2_object_prefix : Text

unfoldable pub image_fetch_timeout_ms : Env → ℕ
unfolding parse_positive_u64_with_default
image_fetch_timeout_ms env =
    parse_positive_u64_with_default (env (codes "IMAGE_FETCH_TIMEOUT_MS")) 20000

-- What `from_env_map` builds before it is validated.
unfoldable pub config_of : UrlParser → Env → Config
unfolding blob_budget_defaults_for_memory
config_of parse env =
    let defaults =
      blob_budget_defaults_for_memory
        (parse_non_negative_u64_with_default (env (codes "INSTANCE_MEMORY_BYTES")) (2 * gib)) in
    record {
      port = unwrap_or (and_then (env (codes "PORT")) parse_port) 8787;
      upstream_base_url =
          unwrap_or (not_empty (mapped trim (env (codes "UPSTREAM_BASE_URL"))))
            (codes "https://magic666.top");
      upstream_api_key = or_empty (env (codes "UPSTREAM_API_KEY"));
      upstream_timeout = parse_positive_u64_with_default (env (codes "UPSTREAM_TIMEOUT_MS")) 600000;
      upstream_connect_timeout =
          parse_positive_u64_with_default (env (codes "UPSTREAM_CONNECT_TIMEOUT_MS")) 10000;
      upstream_tcp_keepalive =
          parse_positive_u64_with_default (env (codes "UPSTREAM_TCP_KEEPALIVE_MS")) 30000;
      upstream_pool_idle_timeout =
          parse_positive_u64_with_default (env (codes "UPSTREAM_POOL_IDLE_TIMEOUT_MS")) 15000;
      image_host_mode =
          to_ascii_lowercase
            (unwrap_or (not_empty (mapped trim (env (codes "IMAGE_HOST_MODE")))) (codes "legacy"));
      allowed_proxy_domains =
          unwrap_or (not_empty (mapped parse_csv (env (codes "ALLOWED_PROXY_DOMAINS"))))
            default_allowed_proxy_domains;
      public_base_url =
          or_empty
            (mapped (normalize_optional_http_base_url parse) (env (codes "PUBLIC_BASE_URL")));
      external_image_proxy_prefix =
          or_empty (
            mapped parse_optional_string_with_disabled (env (codes "EXTERNAL_IMAGE_PROXY_PREFIX")));
      slow_log_threshold =
          parse_non_negative_u64_with_default (env (codes "SLOW_LOG_THRESHOLD_MS")) 100000;
      proxy_standard_output_urls = parse_bool (env (codes "PROXY_STANDARD_OUTPUT_URLS")) true;
      proxy_special_upstream_urls = parse_bool (env (codes "PROXY_SPECIAL_UPSTREAM_URLS")) true;
      enable_image_compression = parse_bool (env (codes "ENABLE_IMAGE_COMPRESSION")) false;
      enable_request_image_webp_optimization =
          parse_bool (env (codes "ENABLE_REQUEST_IMAGE_WEBP_OPTIMIZATION")) false;
      image_compression_jpeg_quality =
          parse_jpeg_quality (env (codes "IMAGE_COMPRESSION_JPEG_QUALITY")) 97;
      admin_password =
          or_empty (mapped parse_optional_string_with_disabled (env (codes "ADMIN_PASSWORD")));
      image_fetch_timeout = image_fetch_timeout_ms env;
      image_tls_handshake_timeout =
          parse_positive_u64_with_default (env (codes "IMAGE_TLS_HANDSHAKE_TIMEOUT_MS")) 15000;
      image_fetch_insecure_skip_verify =
          parse_bool (env (codes "IMAGE_FETCH_INSECURE_SKIP_VERIFY")) false;
      image_fetch_external_proxy_domains =
          or_empty (mapped parse_csv (env (codes "IMAGE_FETCH_EXTERNAL_PROXY_DOMAINS")));
      inline_data_url_cache_dir =
          or_empty
            (mapped parse_optional_string_with_disabled (env (codes "INLINE_DATA_URL_CACHE_DIR")));
      inline_data_url_cache_ttl =
          parse_non_negative_u64_with_default (env (codes "INLINE_DATA_URL_CACHE_TTL_MS")) 3600000;
      inline_data_url_cache_max_bytes =
          parse_non_negative_u64_with_default (env (codes "INLINE_DATA_URL_CACHE_MAX_BYTES")) gib;
      inline_data_url_memory_cache_max_bytes =
          parse_cache_bytes (env (codes "INLINE_DATA_URL_MEMORY_CACHE_MAX_BYTES")) (100 * mib);
      inline_data_url_background_fetch_wait_timeout =
          parse_non_negative_u64_with_default
            (env (codes "INLINE_DATA_URL_BACKGROUND_FETCH_WAIT_TIMEOUT_MS"))
            (image_fetch_timeout_ms env);
      inline_data_url_background_fetch_total_timeout =
          parse_non_negative_u64_with_default
            (env (codes "INLINE_DATA_URL_BACKGROUND_FETCH_TOTAL_TIMEOUT_MS")) 90000;
      inline_data_url_background_fetch_max_inflight =
          parse_non_negative_u64_with_default
            (env (codes "INLINE_DATA_URL_BACKGROUND_FETCH_MAX_INFLIGHT")) 128;
      blob_inline_max_bytes =
          parse_non_negative_u64_with_default (env (codes "BLOB_INLINE_MAX_BYTES"))
            defaults.inline_max_bytes;
      blob_request_hot_budget_bytes =
          parse_non_negative_u64_with_default (env (codes "BLOB_REQUEST_HOT_BUDGET_BYTES"))
            defaults.request_hot_budget_bytes;
      blob_global_hot_budget_bytes =
          parse_non_negative_u64_with_default (env (codes "BLOB_GLOBAL_HOT_BUDGET_BYTES"))
            defaults.global_hot_budget_bytes;
      blob_spill_dir =
          unwrap_or
            (not_empty (mapped parse_optional_string_with_disabled (env (codes "BLOB_SPILL_DIR"))))
            (codes "/tmp/rust-sync-proxy-blobs");
      upload_timeout = parse_positive_u64_with_default (env (codes "UPLOAD_TIMEOUT_MS")) 20000;
      upload_tls_handshake_timeout =
          parse_positive_u64_with_default (env (codes "UPLOAD_TLS_HANDSHAKE_TIMEOUT_MS")) 10000;
      upload_insecure_skip_verify = parse_bool (env (codes "UPLOAD_INSECURE_SKIP_VERIFY")) false;
      legacy_uguu_upload_url = codes "https://uguu.se/upload";
      legacy_kefan_upload_url = codes "https://ai.kefan.cn/api/upload/local";
      r2_endpoint = or_empty (mapped trim (env (codes "R2_ENDPOINT")));
      r2_bucket = or_empty (mapped trim (env (codes "R2_BUCKET")));
      r2_access_key_id = or_empty (mapped trim (env (codes "R2_ACCESS_KEY_ID")));
      r2_secret_access_key = or_empty (mapped trim (env (codes "R2_SECRET_ACCESS_KEY")));
      r2_public_base_url = or_empty (mapped trim (env (codes "R2_PUBLIC_BASE_URL")));
      r2_object_prefix =
          unwrap_or
            (not_empty (mapped (λ v. trim_slashes (trim v)) (env (codes "R2_OBJECT_PREFIX"))))
            (codes "images");
    }

abbrev pub uses_r2 : Text → Bool
uses_r2 mode = one_of mode (codes "r2" ∷ codes "r2_then_legacy" ∷ [])

unfoldable pub require_all : List (Text × Text) → Result Text (Unit {0})
unfolding trim
require_all [] = ok tt
require_all ((name, value) ∷ rest) =
    let later = require_all rest in
    if is_empty (trim value)
    then err (name ++ codes " is required when IMAGE_HOST_MODE is r2 or r2_then_legacy")
    else later

abbrev pub required : Config → List (Text × Text)
required config =
    (codes "R2_ENDPOINT", config.r2_endpoint)
    ∷ (codes "R2_BUCKET", config.r2_bucket)
    ∷ (codes "R2_ACCESS_KEY_ID", config.r2_access_key_id)
    ∷ (codes "R2_SECRET_ACCESS_KEY", config.r2_secret_access_key)
    ∷ (codes "R2_PUBLIC_BASE_URL", config.r2_public_base_url)
    ∷ []

abbrev pub endpoint_error : Result Text Text → Result Text Text
endpoint_error (ok s) = ok s
endpoint_error (err e) = err (codes "R2_ENDPOINT is invalid: " ++ e)

unfoldable pub validate_r2 : UrlParser → Config → Result Text (Unit {0})
unfolding require_all parse_http_base_url
validate_r2 parse config = require_all (required config) >>= (λ _.
    endpoint_error (parse_http_base_url parse config.r2_endpoint (codes "R2_ENDPOINT")) >>= (λ _.
      parse_http_base_url parse config.r2_public_base_url (codes "R2_PUBLIC_BASE_URL")
      >>= (λ _. ok tt)))

unfoldable pub validate : UrlParser → Config → Result Text (Unit {0})
unfolding one_of validate_r2
validate parse config =
    if one_of config.image_host_mode
      ([] ∷ codes "legacy" ∷ codes "r2" ∷ codes "r2_then_legacy" ∷ [])
    then (if uses_r2 config.image_host_mode then validate_r2 parse config else ok tt)
    else err (
        codes "IMAGE_HOST_MODE must be one of legacy, r2, r2_then_legacy, got "
        ++ config.image_host_mode)

unfoldable pub from_env_map : UrlParser → Env → Result Text Config
unfolding config_of validate
from_env_map parse env = validate parse (config_of parse env) >>= (λ _. ok (config_of parse env))

unfoldable pub resolved_external_image_proxy_prefix : Config → Text
unfolding trim trim_end_by
resolved_external_image_proxy_prefix config =
    let external_prefix = trim config.external_image_proxy_prefix in
    let public_base_url = trim_end_by is_slash (trim config.public_base_url) in
    if not (is_empty external_prefix)
    then external_prefix
    else if is_empty public_base_url
    then []
    else public_base_url ++ codes "/proxy/image?url="
