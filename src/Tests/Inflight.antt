-- ===== src/Tests/Inflight.antt =====
-- Runs of the fetches in flight of rust-sync-proxy/src/cache.rs.
use gemini_worker_go.Prelude.{◌≡◌, refl, true, false, arith, none, err, [], ◌∷◌}
use gemini_worker_go.Text.{Text}
use gemini_worker_go.Cache.Lru.{lookup, without}
use gemini_worker_go.Cache.Inflight.{
  waiting, State, Service, published_result, sweep_entry, enter_inflight, new_waiter, drop_waiter,
  fetch_failed,
}
use gemini_worker_go.Cache.Inflight.Run.{
  Steps, no_steps, and_step, at_first, has_waiting, at_fetch, starts, looks, enters, sets_handle,
  counts, subscribes, checks, wakes, cancels_waiter, publishes, notifies, stops, sweeps,
}
use gemini_worker_go.Cache.Inflight.Known.{IsDelivered}
use gemini_worker_go.Cache.Inflight.Finish.{Ends, waits_end, ended-IsDelivered}
use gemini_worker_go.Cache.Inflight.Stuck.{never_answered}
use gemini_worker_go.Cache.Inflight.Lost.{IsLost}
use gemini_worker_go.Cache.Inflight.Bounded.{IsBounded, inflight-IsBounded}
use gemini_worker_go.Cache.Inflight.Bridge.{GoesOn, bridge-GoesOn}

abbrev alone : Service
alone = record { max_inflight = 1; enable_background_bridge = false }

abbrev bridged : Service
bridged = record { max_inflight = 1; enable_background_bridge = true }

abbrev picture : Text
picture = 97 ∷ []

abbrev Reached : Service → Type 0
Reached svc = (s : State) × Steps svc at_first s

-- The first caller waits for the task it has made.
-- The first caller makes a task and waits for it.
abbrev waits_first : Reached alone
unfolding lookup enter_inflight new_waiter published_result drop_waiter sweep_entry without
waits_first = (
  _,
  and_step
      (and_step
        (and_step
          (and_step
            (and_step
              (and_step (and_step (no_steps) (starts 0 picture refl refl))
                (looks 0 picture refl refl))
              (enters 0 picture refl refl))
            (sets_handle 0 picture 0 refl refl))
          (counts 0 picture 0 refl refl))
        (subscribes 0 picture 0 refl refl))
      (checks 0 picture 0 false refl refl),
)

-- A second caller finds the task.
abbrev joins : Reached alone
unfolding lookup enter_inflight new_waiter published_result drop_waiter sweep_entry without
joins = (
  _,
  and_step (and_step (waits_first.1) (starts 1 picture refl refl)) (looks 1 picture refl refl),
)

-- The first caller is dropped, before the second has its waiter: the task is aborted.
abbrev dropped : Reached alone
unfolding lookup enter_inflight new_waiter published_result drop_waiter sweep_entry without
dropped = (
  _,
  and_step
      (and_step
        (and_step (joins.1) (cancels_waiter 0 waiting picture 0 false has_waiting refl refl))
        (sweeps 0 refl refl))
      (stops 0 none refl at_fetch refl),
)

-- The second caller waits for the aborted task.
abbrev waits_second : Reached alone
unfolding lookup enter_inflight new_waiter published_result drop_waiter sweep_entry without
waits_second = (
  _,
  and_step
      (and_step (and_step (dropped.1) (counts 1 picture 0 refl refl))
        (subscribes 1 picture 0 refl refl))
      (checks 1 picture 0 false refl refl),
)

-- A third caller makes a task of its own for the same URL.
abbrev retried : Reached alone
unfolding lookup enter_inflight new_waiter published_result drop_waiter sweep_entry without
retried = (
  _,
  and_step
      (and_step (and_step (waits_second.1) (starts 2 picture refl refl))
        (looks 2 picture refl refl))
      (enters 2 picture refl refl),
)

-- The task of the first caller fails, and the caller is told.
abbrev answers_first : Reached alone
unfolding lookup enter_inflight new_waiter published_result drop_waiter sweep_entry without
answers_first = (
  _,
  and_step
      (and_step (and_step (waits_first.1) (publishes 0 (err picture) (omega arith) refl refl))
        (notifies 0 (err picture) refl refl))
      (wakes 0 picture 0 refl refl),
)

-- With the background bridge.
abbrev bridged_first : Reached bridged
unfolding lookup enter_inflight new_waiter published_result drop_waiter sweep_entry without
bridged_first = (
  _,
  and_step
      (and_step
        (and_step
          (and_step
            (and_step
              (and_step (and_step (no_steps) (starts 0 picture refl refl))
                (looks 0 picture refl refl))
              (enters 0 picture refl refl))
            (sets_handle 0 picture 0 refl refl))
          (counts 0 picture 0 refl refl))
        (subscribes 0 picture 0 refl refl))
      (checks 0 picture 0 false refl refl),
)

-- The only caller is dropped.
abbrev bridged_dropped : Reached bridged
unfolding lookup enter_inflight new_waiter published_result drop_waiter sweep_entry without
bridged_dropped =
    (_, and_step (bridged_first.1) (cancels_waiter 0 waiting picture 0 false has_waiting refl refl))

waits_end_example : Ends alone waits_first.0 0 picture 0
unfolding lookup enter_inflight new_waiter published_result drop_waiter sweep_entry without
waits_end_example = waits_end alone waits_first.0 waits_first.1 0 picture 0 false refl (λ e. cc)

ended-IsDelivered_example :
    ((answers_first.0.tasks 0).url ≡ picture)
    × IsDelivered alone (answers_first.0.tasks 0).stage (err (fetch_failed picture))
unfolding lookup enter_inflight new_waiter published_result drop_waiter sweep_entry without
ended-IsDelivered_example =
    ended-IsDelivered alone answers_first.0 answers_first.1 0 picture 0 (err (fetch_failed picture))
      refl

never_answered_example : IsLost picture 0 (retried.0.callers 1)
unfolding lookup enter_inflight new_waiter published_result drop_waiter sweep_entry without
never_answered_example =
    never_answered alone waits_second.0 retried.0 refl waits_second.1 1 picture 0 refl refl (
      and_step
        (and_step (and_step (no_steps) (starts 2 picture refl refl)) (looks 2 picture refl refl))
        (enters 2 picture refl refl))

inflight-IsBounded_example : IsBounded alone retried.0.inflight
inflight-IsBounded_example = inflight-IsBounded alone retried.1

bridge-GoesOn_example : GoesOn (bridged_dropped.0.tasks 0)
bridge-GoesOn_example = bridge-GoesOn bridged refl bridged_dropped.1 0

-- The caller has gone, and the task is still in the map.
bridged_keeps : bridged_dropped.0.inflight ≡ (picture, 0) ∷ []
unfolding lookup enter_inflight new_waiter published_result drop_waiter sweep_entry without
bridged_keeps = refl
