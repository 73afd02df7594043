-- ===== src/Tests/Config.antt =====
-- rust-sync-proxy/src/config.rs and upstream.rs on small inputs.
use gemini_worker_go.Prelude.{◌≡◌, ◌⊎◌, refl, [], ◌∷◌, none, some, ok, false, if◌then◌else◌}
use gemini_worker_go.Text.{codes, text_eq, is_empty, trim, to_ascii_lowercase, strip_prefix, one_of}
use gemini_worker_go.Text.Decimal.{parse_unsigned}
use gemini_worker_go.Json.{null}
use gemini_worker_go.Url.{UrlParser}
use gemini_worker_go.Env.{Env, parse_positive_u64_with_default}
use gemini_worker_go.Config.{Config, from_env_map, config_of}
use gemini_worker_go.Config.Valid.{IsValid, from_env_map-IsValid}
use gemini_worker_go.Upstream.{
  PointerReader, ResolvedUpstream, Headers, resolve_upstream_for_request,
}
use gemini_worker_go.Upstream.Resolve.{IsHttpUrl, resolve_upstream_for_request-IsHttpUrl}

abbrev pub every_url : UrlParser
every_url s =
    ok
      (record { scheme = codes "https"; host_str = some (codes "a.example"); without_fragment = s })

abbrev timeout_set : Env
timeout_set key = if text_eq key (codes "UPSTREAM_TIMEOUT_MS") then some (codes " 250 ") else none

abbrev pub settings : Config
settings = config_of every_url timeout_set

accepted : from_env_map every_url timeout_set ≡ ok settings
unfolding from_env_map text_eq to_ascii_lowercase
accepted = refl

timeout_read : settings.upstream_timeout ≡ 250
unfolding config_of text_eq parse_positive_u64_with_default parse_unsigned trim
timeout_read = refl

from_env_map-IsValid_example : IsValid every_url settings
from_env_map-IsValid_example = from_env_map-IsValid every_url timeout_set settings accepted

abbrev no_pointer : PointerReader
no_pointer p v = none

abbrev headers : Headers
headers = (codes "Authorization", codes "Bearer https://a.example|k1") ∷ []

abbrev resolved : ResolvedUpstream
resolved = record { base_url = codes "https://a.example"; api_key = codes "k1" }

overridden :
    resolve_upstream_for_request every_url no_pointer headers null
      (codes "https://b.example")
      (codes "k0")
    ≡ ok resolved
unfolding resolve_upstream_for_request trim strip_prefix one_of
overridden = refl

resolve_upstream_for_request-IsHttpUrl_example :
    (is_empty resolved.api_key ≡ false)
    × ((resolved.base_url ≡ trim (codes "https://b.example"))
        ⊎ IsHttpUrl every_url resolved.base_url)
resolve_upstream_for_request-IsHttpUrl_example =
    resolve_upstream_for_request-IsHttpUrl every_url no_pointer headers null
      (codes "https://b.example") (codes "k0") resolved overridden
