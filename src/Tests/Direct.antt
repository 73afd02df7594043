-- ===== src/Tests/Direct.antt =====
-- `direct_fetch` of rust-sync-proxy/src/cache.rs on small inputs.
use gemini_worker_go.Prelude.{
  ℕ, ◌≡◌, refl, Bool, true, false, some, [], ◌∷◌, ◌==◌, if◌then◌else◌, Result, ok, err,
}
use gemini_worker_go.Text.{Text, codes, text_eq}
use gemini_worker_go.Url.{UrlParser}
use gemini_worker_go.ImageIo.{FetchedInlineData}
use gemini_worker_go.Cache.Direct.{
  FetchFailure, Attempt, image_fetch_status, should_retry_fetch_error,
  maybe_wrap_external_proxy_url, fetch_once, fetch_and_optimize_with_total_timeout, attempts_from,
  direct_fetch, timed_out,
}
use gemini_worker_go.Cache.Direct.Retry.{IsAnswer, direct_fetch-IsAnswer}

abbrev parsed : UrlParser
parsed text = ok (record {
  scheme = codes "https";
  host_str = some (codes "a.example");
  without_fragment = text;
})

abbrev same : Text → Text
same text = text

abbrev image : FetchedInlineData
image = record { mime_type = codes "image/png"; bytes = 1 ∷ [] }

abbrev busy : FetchFailure
busy = record {
  message = codes "image fetch failed with status 503";
  cause = image_fetch_status 503;
}

abbrev attempt_of : Bool → Result FetchFailure FetchedInlineData → Attempt
attempt_of late r = record { late = late; fetched = r; optimized = λ fetched. ok fetched }

-- The first attempt is told to come back, the second is served.
abbrev recovers : Text → ℕ → Attempt
recovers url n = attempt_of false (if n == 0 then err busy else ok image)

abbrev too_slow : Text → ℕ → Attempt
too_slow url n = attempt_of true (ok image)

second_served :
    direct_fetch parsed same [] 5 true recovers (codes "https://a.example/x") ≡ some (ok image, 2)
unfolding direct_fetch maybe_wrap_external_proxy_url attempts_from fetch_once
    fetch_and_optimize_with_total_timeout should_retry_fetch_error text_eq
second_served = refl

slow_once :
    direct_fetch parsed same [] 5 true too_slow (codes "https://a.example/x")
    ≡ some (err timed_out, 1)
unfolding direct_fetch maybe_wrap_external_proxy_url attempts_from fetch_once
    fetch_and_optimize_with_total_timeout should_retry_fetch_error text_eq
slow_once = refl

direct_fetch-IsAnswer_example :
    IsAnswer 5 true recovers
      (maybe_wrap_external_proxy_url parsed same (codes "https://a.example/x") [])
      (direct_fetch parsed same [] 5 true recovers (codes "https://a.example/x"))
direct_fetch-IsAnswer_example =
    direct_fetch-IsAnswer parsed same [] 5 true recovers (codes "https://a.example/x")
