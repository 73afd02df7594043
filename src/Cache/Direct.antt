-- ===== src/Cache/Direct.antt =====
-- rust-sync-proxy/src/cache.rs, `direct_fetch` and what it calls: the URL that is asked, the time limit, and
-- the second attempt. What the network and the optimisation give in an attempt is an argument, as are
-- `Url::parse` and `byte_serialize`.
pub mod Retry
use gemini_worker_go.Prelude.{
  ℕ, zero, suc, ◌+◌, Bool, true, false, Option, none, some, List, [], ◌∷◌, ◌++◌, Result, ok, err,
  ◌>>=◌, ◌==◌, ◌&&◌, ◌||◌, not, if◌then◌else◌,
}
use gemini_worker_go.Text.{Text, codes, text_eq, is_empty}
use gemini_worker_go.Url.{UrlParser, ParsedUrl, host_or_empty}
use gemini_worker_go.ImageIo.{FetchedInlineData, hostname_matches_domain_patterns}

-- What `reqwest::Error` says of itself.
pub record ReqwestError : Type 0 where
  pub is_body : Bool
  pub is_decode : Bool
  pub is_connect : Bool
  pub is_request : Bool

-- What an error can be downcast to, of the types that are asked for.
pub data Cause : Type 0 where
  image_fetch_status : ℕ → Cause
  reqwest_error : ReqwestError → Cause
  other_cause : Cause

pub record FetchFailure : Type 0 where
  pub message : Text
  pub cause : Cause

abbrev pub timed_out : FetchFailure
timed_out = record { message = codes "inlineData 图片抓取超时"; cause = other_cause }

abbrev pub status_is_retried : ℕ → Bool
status_is_retried status =
    status == 408
    || status == 425
    || status == 429
    || status == 500
    || status == 502
    || status == 503
    || status == 504

abbrev pub cause_is_retried : Cause → Bool
cause_is_retried (image_fetch_status status) = status_is_retried status
cause_is_retried (reqwest_error e) =
    if e.is_body || e.is_decode then false else e.is_connect || e.is_request
cause_is_retried other_cause = false

unfoldable pub should_retry_fetch_error : FetchFailure → Bool
unfolding text_eq
should_retry_fetch_error e =
    if text_eq e.message (codes "inlineData 图片抓取超时") then false else cause_is_retried e.cause

abbrev pub external_image_fetch_proxy_prefix : Text
external_image_fetch_proxy_prefix = codes "https://gemini.xinbaoai.com/proxy/image?url="

module _ (parse : UrlParser) (byte_serialize : Text → Text) where
  abbrev pub wrapped_parsed : Text → List Text → Result Text ParsedUrl → Result FetchFailure Text
  wrapped_parsed raw_url patterns (err e) = err (record { message = e; cause = other_cause })
  wrapped_parsed raw_url patterns (ok parsed) =
      if not (hostname_matches_domain_patterns (host_or_empty parsed) patterns)
      then ok raw_url
      else ok (external_image_fetch_proxy_prefix ++ byte_serialize raw_url)

  unfoldable pub maybe_wrap_external_proxy_url : Text → List Text → Result FetchFailure Text
  unfolding hostname_matches_domain_patterns
  maybe_wrap_external_proxy_url raw_url patterns =
      if is_empty patterns then ok raw_url else wrapped_parsed raw_url patterns (parse raw_url)

-- What one attempt meets: whether the time is over before the pipeline ends, what the fetch gives, and
-- what the optimisation gives.
pub record Attempt : Type 0 where
  pub late : Bool
  pub fetched : Result FetchFailure FetchedInlineData
  pub optimized : FetchedInlineData → Result FetchFailure FetchedInlineData

unfoldable pub fetch_and_optimize_with_total_timeout :
    ℕ
    → Bool
    → Result FetchFailure FetchedInlineData
    → (FetchedInlineData → Result FetchFailure FetchedInlineData)
    → Result FetchFailure FetchedInlineData
fetch_and_optimize_with_total_timeout total_timeout late fetched optimize =
    let pipeline = fetched >>= optimize in
    if total_timeout == 0 then pipeline else if late then err timed_out else pipeline

unfoldable pub fetch_once : ℕ → Bool → Attempt → Result FetchFailure FetchedInlineData
unfolding fetch_and_optimize_with_total_timeout
fetch_once total_timeout optimize_large_png_as_webp attempt =
    fetch_and_optimize_with_total_timeout total_timeout attempt.late attempt.fetched
      (λ fetched. if optimize_large_png_as_webp then attempt.optimized fetched else ok fetched)

-- The result and the number of attempts that were made.
abbrev pub Fetched : Type 0
Fetched = Result FetchFailure FetchedInlineData × ℕ

abbrev pub one_more : Option Fetched → Option Fetched
one_more none = none
one_more (some (r, n)) = some (r, suc n)

module _ (once : ℕ → Result FetchFailure FetchedInlineData) where
  abbrev pub after_attempt :
      ℕ → Result FetchFailure FetchedInlineData → Option Fetched → Option Fetched
  after_attempt attempt (ok fetched) next = some (ok fetched, 1)
  after_attempt attempt (err e) next =
      if attempt == 0 && should_retry_fetch_error e then one_more next else some (err e, 1)

  -- The `for` loop with so many attempts left; `none` is `unreachable!`.
  unfoldable pub attempts_from : ℕ → ℕ → Option Fetched
  unfolding should_retry_fetch_error
  attempts_from zero attempt = none
  attempts_from (suc left) attempt =
      let next = attempts_from left (suc attempt) in after_attempt attempt (once attempt) next

-- `network` gives the attempts for a URL.
abbrev pub with_url : ℕ → Bool → (Text → ℕ → Attempt) → Result FetchFailure Text → Option Fetched
with_url total_timeout optimize network (err e) = some (err e, 0)
with_url total_timeout optimize network (ok fetch_url) =
    attempts_from (λ n. fetch_once total_timeout optimize (network fetch_url n)) 2 0

unfoldable pub direct_fetch :
    UrlParser → (Text → Text) → List Text → ℕ → Bool → (Text → ℕ → Attempt) → Text → Option Fetched
unfolding maybe_wrap_external_proxy_url attempts_from fetch_once
direct_fetch parse byte_serialize domains total_timeout optimize network raw_url =
    with_url total_timeout optimize network
      (maybe_wrap_external_proxy_url parse byte_serialize raw_url domains)
