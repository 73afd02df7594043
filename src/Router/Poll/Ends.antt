-- ===== src/Router/Poll/Ends.antt =====
-- rust-sync-proxy/src/http/router.rs: `poll_aiapidev_task` over any answers.
use gemini_worker_go.Prelude.{
  ℕ, zero, suc, ◌+◌, ◌*◌, ◌≡◌, ◌≤◌, ◌<◌, refl, Bool, true, false, Option, none, some, Result, ok,
  err, leb, if_cases, not, arith,
}
use gemini_worker_go.Text.{Text}
use gemini_worker_go.Json.{Value}
use gemini_worker_go.Router.Poll.{
  Response, bad_gateway, until_deadline, Answer, not_sent, answered, Round, returns, again,
  poll_round, poll_rounds, poll_aiapidev_task, is_aiapidev_terminal_status,
  is_aiapidev_retryable_poll_status, task_status, max_poll_time, poll_interval, fail, is_success,
  after_round,
}

-- A body that is returned has a status that ends a task.
abbrev pub IsFinal : Result Response Value → Type 0
IsFinal (ok body) = is_aiapidev_terminal_status (task_status body) ≡ true
IsFinal (err r) = Unit

-- A round ends the loop past the deadline, returns no other body, and counts at most four failures.
abbrev IsRound : Bool → Round → Type 0
IsRound late (returns r) = IsFinal r
IsRound late (again n) = (late ≡ false) × (n < 5)

until_deadline-IsRound :
    (late : Bool) (failures : ℕ) → failures < 5 → IsRound late (until_deadline late failures)
until_deadline-IsRound true failures few = tt
until_deadline-IsRound false failures few = (refl, few)

fail-IsRound :
    (late : Bool) (given_up : Response) (failures : ℕ) → IsRound late (fail late given_up failures)
unfolding fail
fail-IsRound late given_up failures =
    if_cases (IsRound late) (leb 5 (failures + 1)) (λ _. tt)
      (λ few. until_deadline-IsRound late (failures + 1) (ground (arith, few)))

poll_round-IsRound :
    (late : Bool) (a : Answer) (failures : ℕ) → IsRound late (poll_round late a failures)
unfolding poll_round
poll_round-IsRound late (not_sent e) failures = fail-IsRound late _ failures
poll_round-IsRound late (answered s none) failures =
    if_cases (IsRound late) (is_success s) (λ _. tt)
      (λ _.
        if_cases (IsRound late) (not (is_aiapidev_retryable_poll_status s)) (λ _. tt)
          (λ _. fail-IsRound late _ failures))
poll_round-IsRound late (answered s (some body)) failures =
    if_cases (IsRound late) (is_success s)
      (λ _.
        if_cases (IsRound late) (is_aiapidev_terminal_status (task_status body)) (λ final. final)
          (λ _. until_deadline-IsRound late 0 (omega arith)))
      (λ _.
        if_cases (IsRound late) (not (is_aiapidev_retryable_poll_status s)) (λ _. tt)
          (λ _. fail-IsRound late _ failures))

abbrev Returns : Option (Result Response Value) → Type 0
Returns o = (r : Result Response Value) × (o ≡ some r) × IsFinal r

after_round-Returns :
    {late : Bool} (round : Round) (next : ℕ → Option (Result Response Value))
    → IsRound late round
    → ((n : ℕ) → late ≡ false → Returns (next n))
    → Returns (after_round round next)
after_round-Returns (returns r) next ends more = (r, refl, ends)
after_round-Returns (again n) next ends more = more n ends.0

next_round : (i n : ℕ) → i + suc n ≡ i + 1 + n
next_round i n = omega arith

module _ (answer : ℕ → Answer) (now : ℕ → ℕ) (deadline : ℕ) where
  -- The loop that still has a round past the deadline returns.
  poll_rounds_return :
      (n i failures : ℕ)
      → deadline ≤ now (i + n)
      → Returns (poll_rounds (suc n) answer now deadline i failures)
  unfolding poll_rounds
  poll_rounds_return zero i failures h =
      after_round-Returns _ _ (poll_round-IsRound (leb deadline (now i)) (answer i) failures)
        (λ n late. absurd (ground (arith, h, late)))
  poll_rounds_return (suc n) i failures h =
      after_round-Returns _ _ (poll_round-IsRound (leb deadline (now i)) (answer i) failures)
        (λ m _. poll_rounds_return n (i + 1) m (rw (next_round i n) at h))

  clock_grows :
      (started : ℕ)
      → started ≤ now 0
      → ((i : ℕ) → now i + poll_interval ≤ now (suc i))
      → (i : ℕ) → started + poll_interval * i ≤ now i
  clock_grows started first next zero = omega (arith, first)
  clock_grows started first next (suc i) = omega (arith, clock_grows started first next i, next i)

-- Whatever the upstream answers, polling a task that is started at a time and sleeps at least a
-- second after each round returns within 451 rounds, and a body it returns has a status that ends a
-- task.
pub poll_aiapidev_task_ends :
    (url : Result Text Text) (answer : Text → ℕ → Answer) (started : ℕ) (now : ℕ → ℕ)
    → started ≤ now 0
    → ((i : ℕ) → now i + poll_interval ≤ now (suc i))
    → (r : Result Response Value) × (poll_aiapidev_task 451 url answer started now ≡ some r)
      × IsFinal r
unfolding poll_aiapidev_task
poll_aiapidev_task_ends (err e) answer started now first next = (err (bad_gateway e), refl, tt)
poll_aiapidev_task_ends (ok url) answer started now first next =
    poll_rounds_return (answer url) now (started + max_poll_time) 450 0 0
      (clock_grows (answer url) now 0 started first next 450)
