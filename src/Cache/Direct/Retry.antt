-- ===== src/Cache/Direct/Retry.antt =====
-- rust-sync-proxy/src/cache.rs, `direct_fetch`: how often it asks, and what it gives.
use gemini_worker_go.Prelude.{
  ℕ, ◌≡◌, refl, Bool, true, false, Bool-cases, ◌⊎◌, inl, inr, Option, none, some, List, Result, ok,
  err, ◌==◌, arith,
}
use gemini_worker_go.Text.{Text, text_eq}
use gemini_worker_go.Url.{UrlParser}
use gemini_worker_go.ImageIo.{FetchedInlineData}
use gemini_worker_go.Cache.Direct.{
  FetchFailure, should_retry_fetch_error, maybe_wrap_external_proxy_url, Attempt, fetch_once,
  Fetched, after_attempt, attempts_from, direct_fetch, with_url,
  fetch_and_optimize_with_total_timeout,
}

-- A first result that ends the fetch: an image, or an error that is not tried again.
abbrev pub IsFinal : Result FetchFailure FetchedInlineData → Type 0
IsFinal (ok fetched) = Unit
IsFinal (err e) = should_retry_fetch_error e ≡ false

abbrev pub IsTransient : Result FetchFailure FetchedInlineData → Type 0
IsTransient (ok fetched) = ⊥
IsTransient (err e) = should_retry_fetch_error e ≡ true

-- One attempt that was final, or a transient one and a second, whose result is given whatever it is.
abbrev pub IsRetried : (ℕ → Result FetchFailure FetchedInlineData) → Option Fetched → Type 0
IsRetried once fetched =
    ((fetched ≡ some (once 0, 1)) × IsFinal (once 0))
    ⊎ ((fetched ≡ some (once 1, 2)) × IsTransient (once 0))

module _ (once : ℕ → Result FetchFailure FetchedInlineData) where
  last_attempt :
      (r : Result FetchFailure FetchedInlineData) → after_attempt once 1 r none ≡ some (r, 1)
  last_attempt (ok fetched) = refl
  last_attempt (err e) = ground arith

  first_attempt :
      (r : Result FetchFailure FetchedInlineData) (next : Option Fetched)
      → next ≡ some (once 1, 1)
      → ((after_attempt once 0 r next ≡ some (r, 1)) × IsFinal r)
        ⊎ ((after_attempt once 0 r next ≡ some (once 1, 2)) × IsTransient r)
  first_attempt (ok fetched) next e = inl (refl, tt)
  first_attempt (err f) next e = elim (Bool-cases (should_retry_fetch_error f)) [
    | inl again ↦ inr (rw (again, e) refl, again)
    | inr final ↦ inl (rw final refl, final)
  ]

  attempts_from-IsRetried : IsRetried once (attempts_from once 2 0)
  unfolding attempts_from
  attempts_from-IsRetried = first_attempt (once 0) _ (last_attempt (once 1))

-- Of a URL that is refused nothing is asked.
abbrev pub IsAnswer :
    ℕ → Bool → (Text → ℕ → Attempt) → Result FetchFailure Text → Option Fetched → Type 0
IsAnswer total_timeout optimize network (err e) fetched = fetched ≡ some (err e, 0)
IsAnswer total_timeout optimize network (ok url) fetched =
    IsRetried (λ n. fetch_once total_timeout optimize (network url n)) fetched

with_url-IsAnswer :
    (total_timeout : ℕ) (optimize : Bool) (network : Text → ℕ → Attempt)
    (r : Result FetchFailure Text)
    → IsAnswer total_timeout optimize network r (with_url total_timeout optimize network r)
with_url-IsAnswer total_timeout optimize network (err e) = refl
with_url-IsAnswer total_timeout optimize network (ok url) =
    attempts_from-IsRetried (λ n. fetch_once total_timeout optimize (network url n))

-- An attempt that runs out of time is not tried again.
late_fetch_once :
    (total_timeout : ℕ) (optimize : Bool) (attempt : Attempt)
    → (total_timeout == 0) ≡ false
    → attempt.late ≡ true
    → IsFinal (fetch_once total_timeout optimize attempt)
unfolding fetch_once fetch_and_optimize_with_total_timeout should_retry_fetch_error text_eq
late_fetch_once total_timeout optimize attempt limited late = rw (limited, late) refl

-- A fetch always returns. If the URL is refused, nothing is asked; else it gives the result of a first
-- attempt that is an image or an error which is not tried again, and asks no more, or the result of the
-- second attempt, whatever it is, after a first error that is tried again.
pub direct_fetch-IsAnswer :
    (parse : UrlParser) (byte_serialize : Text → Text) (domains : List Text) (total_timeout : ℕ)
    (optimize : Bool) (network : Text → ℕ → Attempt) (raw_url : Text)
    → IsAnswer total_timeout optimize network
        (maybe_wrap_external_proxy_url parse byte_serialize raw_url domains)
        (direct_fetch parse byte_serialize domains total_timeout optimize network raw_url)
unfolding direct_fetch
direct_fetch-IsAnswer parse byte_serialize domains total_timeout optimize network raw_url =
    with_url-IsAnswer total_timeout optimize network
      (maybe_wrap_external_proxy_url parse byte_serialize raw_url domains)
