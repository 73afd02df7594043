-- ===== src/Cache/Inflight/Finish.antt =====
-- rust-sync-proxy/src/cache.rs: `wait_for_task` comes to its end, by the steps of the task and of the
-- call alone.
use gemini_worker_go.Prelude.{
  ℕ, ◌≡◌, ◌<◌, refl, sym, ap, ◌∙◌, Bool, true, false, ◌||◌, ◌==◌, none, some, Option-cases, Result,
  ok, err, [], arith, inl, inr,
}
use gemini_worker_go.Text.{Text}
use gemini_worker_go.Cache.{FetchResult}
use gemini_worker_go.Cache.Inflight.{
  WaitError, Published, Stage, fetching, published, notified, unlisted, stored, aborted, result_of,
  waiting, with_task, done, State, Service, with_stage, published_result, leaves, answered, fails,
  no_result, woken_by,
}
use gemini_worker_go.Cache.Inflight.Run.{
  Step, Steps, no_steps, and_step, at_first, wakes, publishes, notifies,
}
use gemini_worker_go.Cache.Inflight.Known.{
  IsDelivered, IsLinked, IsBefore, given, update_self, update-Grows, drop_waiter-Grows,
}
use gemini_worker_go.Cache.Inflight.Linked.{Steps-IsLinked, at_first-IsLinked}

-- There are further steps, after which the call has been given what the task has published.
abbrev pub Ends : Service → State → ℕ → Text → ℕ → Type 0
Ends svc s i url t =
    (u : State) × (p : Published) × Steps svc s u
    × (result_of (u.tasks t).stage ≡ some p)
    × (u.callers i ≡ done url (some t) (given p))

pub Steps-after : (svc : Service) {s t u : State} → Steps svc s t → Steps svc t u → Steps svc s u
Steps-after svc first no_steps = first
Steps-after svc first (and_step more st) = and_step (Steps-after svc first more) st

step-Ends :
    (svc : Service) (s s' : State) (i : ℕ) (url : Text) (t : ℕ)
    → Step svc s s'
    → Ends svc s' i url t
    → Ends svc s i url t
step-Ends svc s s' i url t st (u, p, steps, found, at) =
    (u, p, Steps-after svc (and_step no_steps st) steps, found, at)

answered-some :
    (svc : Service) (s : State) (i : ℕ) (url : Text) (t : ℕ) (p : Published) (otherwise : State)
    → answered svc s i url t (published_result (some p)) otherwise
      ≡ leaves svc s i t (done url (some t) (given p))
unfolding published_result
answered-some svc s i url t (ok hit) otherwise = refl
answered-some svc s i url t (err message) otherwise = refl

module _ (svc : Service) (i : ℕ) (url : Text) (t : ℕ) where
  wakes-Ends :
      (s : State) (p : Published)
      → s.callers i ≡ with_task waiting url t true
      → result_of (s.tasks t).stage ≡ some p
      → Ends svc s i url t
  wakes-Ends s p at found =
      let u = leaves svc s i t (done url (some t) (given p)) in
      let same : u
          ≡ answered svc s i url t (published_result (result_of (s.tasks t).stage))
              (fails svc s i url t no_result) =
        sym (
          ap (λ o. answered svc s i url t (published_result o) (fails svc s i url t no_result))
            found
          ∙ answered-some svc s i url t p (fails svc s i url t no_result)) in
      (
        u,
        p,
        and_step no_steps (wakes i url t at same),
        (update-Grows s.tasks t _ (drop_waiter-Grows svc (s.tasks t)) t).same_result p found,
        update_self s.callers i (done url (some t) (given p)),
      )

  notifies-Ends :
      (s : State) (p : Published) (w : Bool)
      → s.callers i ≡ with_task waiting url t w
      → (s.tasks t).stage ≡ published p
      → Ends svc s i url t
  notifies-Ends s p w at stage =
      let n = record (with_stage s t (notified p)) { callers = λ j. woken_by t (s.callers j) } in
      let woken : (w || t == t) ≡ true = ground arith in
      step-Ends svc s n i url t (notifies t p stage refl) (
        wakes-Ends n p (ap (woken_by t) at ∙ ap (with_task waiting url t) woken) (
          ap (λ k. result_of k.stage)
            (update_self s.tasks t (record (s.tasks t) { stage = notified p }))))

  publishes-Ends :
      (s : State) (w : Bool)
      → s.callers i ≡ with_task waiting url t w
      → t < s.made
      → (s.tasks t).stage ≡ fetching
      → Ends svc s i url t
  publishes-Ends s w at lt stage =
      let n = with_stage s t (published (err [])) in
      step-Ends svc s n i url t (publishes t (err []) lt stage refl) (
        notifies-Ends n (err []) w at (
          ap (λ k. k.stage)
            (update_self s.tasks t (record (s.tasks t) { stage = published (err []) }))))

  before-Ends :
      (s : State) (stage : Stage)
      → s.callers i ≡ with_task waiting url t false
      → t < s.made
      → (s.tasks t).stage ≡ stage
      → IsBefore stage
      → ¬ (stage ≡ aborted none)
      → Ends svc s i url t
  before-Ends s fetching at lt e h running = publishes-Ends s false at lt e
  before-Ends s (published p) at lt e h running = notifies-Ends s p false at e
  before-Ends s (aborted none) at lt e h running = absurd (running refl)
  before-Ends s (aborted (some p)) at lt e h running = absurd h
  before-Ends s (notified p) at lt e h running = absurd h
  before-Ends s (unlisted p) at lt e h running = absurd h
  before-Ends s (stored p) at lt e h running = absurd h

  waiting-Ends :
      (s : State) (w : Bool)
      → IsLinked svc s
      → s.callers i ≡ with_task waiting url t w
      → ¬ ((s.tasks t).stage ≡ aborted none)
      → Ends svc s i url t
  waiting-Ends s true v at running = elim (Option-cases (result_of (s.tasks t).stage)) [
    | inl nothing ↦
        let (lt, same, ready) = (rw at at (v.callers_ok i)) in absurd (rw nothing at ready)
    | inr (p, found) ↦ wakes-Ends s p at found
  ]
  waiting-Ends s false v at running =
      let (lt, same, ready) = (rw at at (v.callers_ok i)) in
      before-Ends s (s.tasks t).stage at lt refl ready running

-- In every state that steps lead to from the first one, a call that waits for a task which was not
-- aborted without a result can be led to its end: there are further steps after which the task has
-- published a result and the call has been given this result, for its URL and from this task.
pub waits_end :
    (svc : Service) (s : State)
    → Steps svc at_first s
    → (i : ℕ) (url : Text) (t : ℕ) (w : Bool) → s.callers i ≡ with_task waiting url t w
    → ¬ ((s.tasks t).stage ≡ aborted none)
    → Ends svc s i url t
waits_end svc s steps i url t w at running =
    waiting-Ends svc i url t s w (Steps-IsLinked svc (at_first-IsLinked svc) steps) at running

-- In every state that steps lead to from the first one, a call that has ended with a task has been given
-- what this task, which is one for its URL, has published; or the service has the background bridge
-- and the call has run out of time. No call ends with a task that has no result.
pub ended-IsDelivered :
    (svc : Service) (s : State)
    → Steps svc at_first s
    → (i : ℕ) (url : Text) (t : ℕ) (r : Result WaitError FetchResult)
    → s.callers i ≡ done url (some t) r
    → ((s.tasks t).url ≡ url) × IsDelivered svc (s.tasks t).stage r
ended-IsDelivered svc s steps i url t r at =
    let v = Steps-IsLinked svc (at_first-IsLinked svc) steps in
    let (lt, same, got) = (rw at at (v.callers_ok i)) in (same, got)
