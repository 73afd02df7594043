-- ===== src/Cache/Inflight/Stuck.antt =====
-- rust-sync-proxy/src/cache.rs: the callers of `wait_for_task` after an abort that came before any result.
use gemini_worker_go.Prelude.{ℕ, ◌≡◌, refl, false, none, inl}
use gemini_worker_go.Text.{Text}
use gemini_worker_go.Cache.Inflight.{
  fetching, published, notified, unlisted, stored, aborted, waiting, idle, looking, direct,
  with_task, State, Service, enter_inflight, new_waiter,
}
use gemini_worker_go.Cache.Inflight.Run.{
  Step, Steps, no_steps, and_step, at_first, starts, looks, enters, fetches_directly, sets_handle,
  counts, subscribes, checks, wakes, times_out, cancels, cancels_waiter, publishes, notifies,
  unlists, stores, stops, sweeps,
}
use gemini_worker_go.Cache.Inflight.Linked.{Steps-IsLinked, at_first-IsLinked}
use gemini_worker_go.Cache.Inflight.Lost.{
  IsLost, IsStuck, drop_waiter-stage, new_waiter-stage, moved_lost, kept_stage, other_stage,
  caller-IsStuck, leaves-IsStuck, answered-IsStuck, entered-IsStuck, tasks-IsStuck,
  notifies-IsStuck, stops-IsStuck, dropped_lost,
}

Step-IsStuck :
    (svc : Service) (s u : State) (i : ℕ) (url : Text) (t : ℕ)
    → svc.enable_background_bridge ≡ false
    → Step svc s u
    → IsStuck s i url t
    → IsStuck u i url t
unfolding enter_inflight
Step-IsStuck svc s u i url t off (starts j x at e) v =
    rw e (caller-IsStuck svc s i url t v j idle _ at tt)
Step-IsStuck svc s u i url t off (looks j x at e) v =
    rw e (caller-IsStuck svc s i url t v j (looking x) _ at tt)
Step-IsStuck svc s u i url t off (enters j x at e) v =
    rw e (entered-IsStuck svc s i url t v j x _ at)
Step-IsStuck svc s u i url t off (fetches_directly j x r at e) v =
    rw e (caller-IsStuck svc s i url t v j (direct x) _ at tt)
Step-IsStuck svc s u i url t off (sets_handle j x k at e) v = rw e (record {
  made_before = v.made_before;
  no_stage = kept_stage svc s i url t v k _ refl;
  lost = moved_lost svc s i url t v j _ _ at tt;
})
Step-IsStuck svc s u i url t off (counts j x k at e) v = rw e (record {
  made_before = v.made_before;
  no_stage = kept_stage svc s i url t v k (new_waiter (s.tasks k)) (new_waiter-stage (s.tasks k));
  lost = moved_lost svc s i url t v j _ _ at tt;
})
Step-IsStuck svc s u i url t off (subscribes j x k at e) v =
    rw e (caller-IsStuck svc s i url t v j _ _ at tt)
Step-IsStuck svc s u i url t off (checks j x k w at e) v = rw e (
    answered-IsStuck svc s i url t v j x k _ _ _ at tt (caller-IsStuck svc s i url t v j _ _ at tt))
Step-IsStuck svc s u i url t off (wakes j x k at e) v = rw e (
    answered-IsStuck svc s i url t v j x k _ _ _ at tt
      (leaves-IsStuck svc s i url t v j k _ _ at tt))
Step-IsStuck svc s u i url t off (times_out j x k w on at e) v = cc
Step-IsStuck svc s u i url t off (cancels j c e) v = rw e (record {
  made_before = v.made_before;
  no_stage = v.no_stage;
  lost = dropped_lost svc s i url t v j;
})
Step-IsStuck svc s u i url t off (cancels_waiter j phase x k w has at e) v = rw e (record {
  made_before = v.made_before;
  no_stage = kept_stage svc s i url t v k _ (drop_waiter-stage svc (s.tasks k));
  lost = dropped_lost svc s i url t v j;
})
Step-IsStuck svc s u i url t off (publishes k p lt at e) v = rw e (
    tasks-IsStuck svc s i url t v _ _
      (other_stage svc s i url t v k fetching (published p) at (λ e. cc)))
Step-IsStuck svc s u i url t off (notifies k p at e) v =
    rw e (notifies-IsStuck svc s i url t v k p at)
Step-IsStuck svc s u i url t off (unlists k p at e) v = rw e (
    tasks-IsStuck svc s i url t v _ _
      (other_stage svc s i url t v k (notified p) (unlisted p) at (λ e. cc)))
Step-IsStuck svc s u i url t off (stores k p at e) v = rw e (
    tasks-IsStuck svc s i url t v _ _
      (other_stage svc s i url t v k (unlisted p) (stored p) at (λ e. cc)))
Step-IsStuck svc s u i url t off (stops k o aborting awaits e) v =
    rw e (tasks-IsStuck svc s i url t v _ _ (stops-IsStuck svc s i url t v k o _ refl awaits))
Step-IsStuck svc s u i url t off (sweeps k sweeping e) v =
    rw e (tasks-IsStuck svc s i url t v _ _ (kept_stage svc s i url t v k _ refl))

Steps-IsStuck :
    (svc : Service) {s u : State} (i : ℕ) (url : Text) (t : ℕ)
    → svc.enable_background_bridge ≡ false
    → IsStuck s i url t
    → Steps svc s u
    → IsStuck u i url t
Steps-IsStuck svc i url t off v no_steps = v
Steps-IsStuck svc i url t off v (and_step r st) =
    Step-IsStuck svc _ _ i url t off st (Steps-IsStuck svc i url t off v r)

-- Without the background bridge, take a state that steps lead to from the first one, and a call in it
-- that waits unwoken for a task aborted with no result. After any further steps the call still waits
-- unwoken for this task, or it has been dropped: it is never answered, not even with an error.
pub never_answered :
    (svc : Service) (s u : State)
    → svc.enable_background_bridge ≡ false
    → Steps svc at_first s
    → (i : ℕ) (url : Text) (t : ℕ) → s.callers i ≡ with_task waiting url t false
    → (s.tasks t).stage ≡ aborted none
    → Steps svc s u
    → IsLost url t (u.callers i)
never_answered svc s u off first i url t at stage more =
    let v = Steps-IsLinked svc (at_first-IsLinked svc) first in
    let (lt, same, ready) = (rw at at (v.callers_ok i)) in
    let stuck : IsStuck s i url t = record { made_before = lt; no_stage = stage; lost = inl at } in
    (Steps-IsStuck svc i url t off stuck more).lost
