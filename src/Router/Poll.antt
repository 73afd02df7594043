-- ===== src/Router/Poll.antt =====
-- rust-sync-proxy/src/http/router.rs, `poll_aiapidev_task`. What each poll meets and when its round
-- reads the clock, in milliseconds, are functions of the number of the round; the sleep between two
-- rounds shows in these times.
pub mod Ends
use gemini_worker_go.Prelude.{
  ℕ, zero, suc, ◌+◌, Bool, true, false, ◌&&◌, ◌||◌, not, Option, none, some, List, [], ◌∷◌, Result,
  ok, err, leb, ltb, ◌==◌, if◌then◌else◌, and_then, unwrap_or,
}
use gemini_worker_go.Text.{Text, codes, one_of, to_ascii_lowercase}
use gemini_worker_go.Files.{Bytes}
use gemini_worker_go.Json.{Value, as_str, value_get}

abbrev pub max_consecutive_poll_failures : ℕ
max_consecutive_poll_failures = 5

abbrev pub max_poll_time : ℕ
max_poll_time = 450_000

abbrev pub poll_interval : ℕ
poll_interval = 1000

-- What the client gets: an error of code 502 with a message, a structured error of the proxy, or the
-- upstream's own answer.
pub data Response : Type 0 where
  bad_gateway : Text → Response
  proxy_error : Text → Text → Text → Response
  raw : ℕ → Response

-- The request fails, or it is answered with a status and a body that is JSON or not.
pub data Answer : Type 0 where
  not_sent : Text → Answer
  answered : ℕ → Option Value → Answer

-- A round returns, or goes round again with a number of consecutive failures.
pub data Round : Type 0 where
  returns : Result Response Value → Round
  again : ℕ → Round

unfoldable pub is_aiapidev_terminal_status : Text → Bool
unfolding one_of
is_aiapidev_terminal_status status = one_of status (
    codes "succeeded"
    ∷ codes "failed"
    ∷ codes "error"
    ∷ codes "cancelled"
    ∷ codes "canceled"
    ∷ codes "timeout"
    ∷ [])

unfoldable pub is_aiapidev_retryable_poll_status : ℕ → Bool
is_aiapidev_retryable_poll_status status =
    status == 408
    || status == 425
    || status == 429
    || status == 500
    || status == 502
    || status == 503
    || status == 504

abbrev pub is_success : ℕ → Bool
is_success status = leb 200 status && ltb status 300

unfoldable pub task_status : Value → Text
unfolding to_ascii_lowercase value_get
task_status body =
    to_ascii_lowercase (unwrap_or (and_then (value_get (codes "status") body) as_str) [])

abbrev pub timed_out : Response
timed_out =
    proxy_error (codes "aiapidev task poll timed out") (codes "aiapidev_poll_task")
      (codes "timeout")

abbrev pub until_deadline : Bool → ℕ → Round
until_deadline late failures = if late then returns (err timed_out) else again failures

-- A failed round; `given_up` is what the fifth one in a row returns.
unfoldable pub fail : Bool → Response → ℕ → Round
fail late given_up failures =
    if leb max_consecutive_poll_failures (failures + 1)
    then returns (err given_up)
    else until_deadline late (failures + 1)

-- `late` is the test of the deadline.
unfoldable pub poll_round : Bool → Answer → ℕ → Round
unfolding fail task_status is_aiapidev_terminal_status is_aiapidev_retryable_poll_status
poll_round late (not_sent e) failures = fail late (bad_gateway e) failures
poll_round late (answered status none) failures =
    if is_success status
    then returns (
        err (
          proxy_error (codes "failed to parse aiapidev poll response")
            (codes "aiapidev_parse_task_response") (codes "invalid_json")))
    else if not (is_aiapidev_retryable_poll_status status)
    then returns (err (raw status))
    else fail late (raw status) failures
poll_round late (answered status (some body)) failures =
    if is_success status
    then (if is_aiapidev_terminal_status (task_status body)
        then returns (ok body)
        else until_deadline late 0)
    else if not (is_aiapidev_retryable_poll_status status)
    then returns (err (raw status))
    else fail late (raw status) failures

-- What a round ends with, or the rounds after it.
abbrev pub after_round :
    Round → (ℕ → Option (Result Response Value)) → Option (Result Response Value)
after_round (returns r) next = some r
after_round (again failures) next = next failures

-- The loop from round `i` on.
unfoldable pub poll_rounds : ℕ → (ℕ → Answer) → (ℕ → ℕ) → ℕ → ℕ → ℕ → Option (Result Response Value)
unfolding poll_round
poll_rounds zero answer now deadline i failures = none
poll_rounds (suc fuel) answer now deadline i failures =
    after_round (poll_round (leb deadline (now i)) (answer i) failures)
      (λ n. poll_rounds fuel answer now deadline (i + 1) n)

-- `task_url` is what `build_upstream_url` gives for the path of the task, the same in every round.
unfoldable pub poll_aiapidev_task :
    ℕ → Result Text Text → (Text → ℕ → Answer) → ℕ → (ℕ → ℕ) → Option (Result Response Value)
unfolding poll_rounds
poll_aiapidev_task fuel (err e) answer started now = some (err (bad_gateway e))
poll_aiapidev_task fuel (ok task_url) answer started now =
    poll_rounds fuel (answer task_url) now (started + max_poll_time) 0 0
