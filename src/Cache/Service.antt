-- ===== src/Cache/Service.antt =====
-- rust-sync-proxy/src/cache.rs: the two fetch services that the settings give, one for requests and one for
-- responses.
use gemini_worker_go.Prelude.{
  ℕ, ◌≡◌, ◌≤◌, ◌⊎◌, inl, inr, refl, Bool, true, false, Bool-cases, Option, none, some, List, ◌==◌,
  ◌&&◌, not, ltb, if◌then◌else◌, arith,
}
use Prim.Native.Nat.{max}
use gemini_worker_go.Text.{Text, trim, is_empty}
use gemini_worker_go.Config.{Config}
use gemini_worker_go.Cache.Disk.{DiskCache}
use gemini_worker_go.Cache.Inflight.{Service}

-- `InlineDataUrlFetchService` without its client: the caches by their limits, the disk cache with its
-- directory.
pub record FetchService : Type 0 where
  pub max_image_bytes : ℕ
  pub allow_private_networks : Bool
  pub optimize_large_png_as_webp : Bool
  pub external_proxy_domains : List Text
  pub memory_cache : Option ℕ
  pub disk_cache : Option (Text × DiskCache)
  pub wait_timeout : ℕ
  pub total_timeout : ℕ
  pub inflight : Service

abbrev pub no_cache_dir : Config → Bool
no_cache_dir config = is_empty (trim config.inline_data_url_cache_dir)

abbrev pub service_of : Config → ℕ → Bool → Bool → ℕ → Bool → FetchService
service_of config max_image_bytes allow_private_networks optimize_large_png_as_webp max_inflight
      enable_background_bridge =
    record {
      max_image_bytes = max_image_bytes;
      allow_private_networks = allow_private_networks;
      optimize_large_png_as_webp = optimize_large_png_as_webp;
      external_proxy_domains = config.image_fetch_external_proxy_domains;
      memory_cache =
          if ltb 0 config.inline_data_url_memory_cache_max_bytes
          then some config.inline_data_url_memory_cache_max_bytes
          else none;
      disk_cache =
          if not (no_cache_dir config)
            && not (config.inline_data_url_cache_ttl == 0)
            && ltb 0 config.inline_data_url_cache_max_bytes
          then some (
            config.inline_data_url_cache_dir,
            record {
              ttl_ms = config.inline_data_url_cache_ttl;
              max_bytes = config.inline_data_url_cache_max_bytes;
            },
          )
          else none;
      wait_timeout = config.inline_data_url_background_fetch_wait_timeout;
      total_timeout = config.inline_data_url_background_fetch_total_timeout;
      inflight = record {
        max_inflight = max_inflight;
        enable_background_bridge = enable_background_bridge;
      };
    }

unfoldable pub from_config_with_png_optimization :
    Config → ℕ → Bool → Bool → ℕ → Bool → Option FetchService
unfolding trim
from_config_with_png_optimization config max_image_bytes allow_private_networks
      optimize_large_png_as_webp max_inflight enable_background_bridge =
    if no_cache_dir config
      && config.inline_data_url_background_fetch_total_timeout == 0
      && config.inline_data_url_memory_cache_max_bytes == 0
    then none
    else some (
        service_of config max_image_bytes allow_private_networks optimize_large_png_as_webp
          max_inflight enable_background_bridge)

unfoldable pub from_config : Config → ℕ → Bool → Option FetchService
unfolding from_config_with_png_optimization
from_config config max_image_bytes allow_private_networks =
    from_config_with_png_optimization config max_image_bytes allow_private_networks
      config.enable_request_image_webp_optimization
      config.inline_data_url_background_fetch_max_inflight true

unfoldable pub from_response_config : Config → ℕ → Bool → Option FetchService
unfolding from_config_with_png_optimization
from_response_config config max_image_bytes allow_private_networks =
    from_config_with_png_optimization config max_image_bytes allow_private_networks false
      (max config.inline_data_url_background_fetch_max_inflight 1) false

-- Both services exist or neither does, and they have the same caches.
services_agree :
    (config : Config) (max_image_bytes : ℕ) (allow_private_networks : Bool)
    → ((from_config config max_image_bytes allow_private_networks ≡ none)
        × (from_response_config config max_image_bytes allow_private_networks ≡ none))
      ⊎ ((s : FetchService) × (r : FetchService) × (from_config config max_image_bytes
              allow_private_networks
            ≡ some s)
          × (from_response_config config max_image_bytes allow_private_networks ≡ some r)
          × (s.memory_cache ≡ r.memory_cache)
          × (s.disk_cache ≡ r.disk_cache)
          × (1 ≤ r.inflight.max_inflight))
unfolding from_config from_response_config from_config_with_png_optimization
services_agree config max_image_bytes allow_private_networks =
    elim (Bool-cases (
      is_empty (trim config.inline_data_url_cache_dir)
      && config.inline_data_url_background_fetch_total_timeout == 0
      && config.inline_data_url_memory_cache_max_bytes == 0)) [
        | inl nothing ↦ inl (rw nothing refl, rw nothing refl)
        | inr other ↦ inr (
          service_of config max_image_bytes allow_private_networks
              config.enable_request_image_webp_optimization
              config.inline_data_url_background_fetch_max_inflight true,
          service_of config max_image_bytes allow_private_networks false
              (max config.inline_data_url_background_fetch_max_inflight 1) false,
          rw other refl,
          rw other refl,
          refl,
          refl,
          omega arith,
        )
      ]
