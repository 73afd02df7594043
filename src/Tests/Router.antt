-- ===== src/Tests/Router.antt =====
-- rust-sync-proxy/src/http/router.rs: polls of a task that never ends and of one that does.
use gemini_worker_go.Prelude.{
  ℕ, suc, ◌+◌, ◌*◌, ◌≡◌, ◌≤◌, refl, none, some, Result, ok, err, ◌==◌, if◌then◌else◌, arith,
}
use gemini_worker_go.Text.{Text, codes, text_eq, to_ascii_lowercase, one_of}
use gemini_worker_go.Json.{Value, obj, str, field, end, value_get, get}
use gemini_worker_go.Router.Poll.{
  Response, Answer, not_sent, answered, poll_aiapidev_task, poll_rounds, poll_round, fail,
  task_status, bad_gateway, is_aiapidev_terminal_status, is_aiapidev_retryable_poll_status,
  poll_interval,
}
use gemini_worker_go.Router.Poll.Ends.{IsFinal, poll_aiapidev_task_ends}

abbrev state : Text → Value
state name = obj (field (codes "status") (str name) end)

-- Busy, then lost once, then done.
abbrev answers : Text → ℕ → Answer
answers url i =
    if i == 0
    then answered 200 (some (state (codes "running")))
    else if i == 1
    then answered 503 none
    else answered 200 (some (state (codes "Succeeded")))

abbrev clock : ℕ → ℕ
clock i = 7 + 1000 * i

succeeds :
    poll_aiapidev_task 3 (ok (codes "u")) answers 7 clock ≡ some (ok (state (codes "Succeeded")))
unfolding poll_aiapidev_task poll_rounds poll_round fail task_status is_aiapidev_terminal_status
    is_aiapidev_retryable_poll_status text_eq to_ascii_lowercase one_of value_get get
succeeds = refl

abbrev lost : Text → ℕ → Answer
lost url i = not_sent (codes "down")

gives_up :
    poll_aiapidev_task 5 (ok (codes "u")) lost 7 clock ≡ some (err (bad_gateway (codes "down")))
unfolding poll_aiapidev_task poll_rounds poll_round fail
gives_up = refl

clock_next : (i : ℕ) → clock i + poll_interval ≤ clock (suc i)
clock_next i = omega arith

poll_aiapidev_task_ends_example :
    (r : Result Response Value) × (poll_aiapidev_task 451 (ok (codes "u")) answers 7 clock ≡ some r)
    × IsFinal r
poll_aiapidev_task_ends_example =
    poll_aiapidev_task_ends (ok (codes "u")) answers 7 clock (omega arith) clock_next
