-- ===== src/Cache/Inflight/Linked.antt =====
-- rust-sync-proxy/src/cache.rs: what the callers know of their tasks, kept by every step of the fetches
-- in flight.
use gemini_worker_go.Prelude.{refl, ◌∙◌, true, false, inl, none}
use gemini_worker_go.Cache.Lru.{lookup}
use gemini_worker_go.Cache.Inflight.{
  fetching, published, notified, unlisted, stored, cancelled, looking, done, State, Service,
  enter_inflight,
}
use gemini_worker_go.Cache.Inflight.Run.{
  Step, Steps, no_steps, and_step, at_first, starts, looks, enters, fetches_directly, sets_handle,
  counts, subscribes, checks, wakes, times_out, cancels, cancels_waiter, publishes, notifies,
  unlists, stores, stops, sweeps,
}
use gemini_worker_go.Cache.Inflight.Known.{
  IsLinked, update-Grows, without-AreListed, sweep_entry-AreListed, new_waiter-Grows,
}
use gemini_worker_go.Cache.Inflight.Moves.{
  caller_at, caller-IsLinked, tasks-IsLinked, with_caller-IsLinked, with_stage-IsLinked,
  leaves-IsLinked, answered-IsLinked, looked-IsCaller, entered-IsLinked, notifies-IsLinked,
  stops-IsLinked, still-IsReady,
}

-- Every step keeps what the callers know.
Step-IsLinked : (svc : Service) (s u : State) → Step svc s u → IsLinked svc s → IsLinked svc u
unfolding enter_inflight
Step-IsLinked svc s u (starts i url at e) v = rw e (with_caller-IsLinked svc s v i (looking url) tt)
Step-IsLinked svc s u (looks i url at e) v =
    rw e (with_caller-IsLinked svc s v i _ (looked-IsCaller svc s v url _ refl))
Step-IsLinked svc s u (enters i url at e) v =
    rw e (entered-IsLinked svc s v i url (lookup url s.inflight) refl)
Step-IsLinked svc s u (fetches_directly i url r at e) v =
    rw e (with_caller-IsLinked svc s v i (done url none r) tt)
Step-IsLinked svc s u (sets_handle i url t at e) v =
    let (lt, same, ready) = caller_at svc s v i at in
    let grow =
      update-Grows s.tasks t (record (s.tasks t) { has_handle = true })
        (record { same_url = refl; still_before = λ h. h; same_result = λ p h. h }) in
    rw e (caller-IsLinked svc s v _ s.inflight i _ grow v.listed (lt, (grow t).same_url ∙ same, tt))
Step-IsLinked svc s u (counts i url t at e) v =
    let (lt, same, ready) = caller_at svc s v i at in
    let grow = update-Grows s.tasks t _ (new_waiter-Grows (s.tasks t)) in
    rw e (caller-IsLinked svc s v _ s.inflight i _ grow v.listed (lt, (grow t).same_url ∙ same, tt))
Step-IsLinked svc s u (subscribes i url t at e) v =
    let (lt, same, ready) = caller_at svc s v i at in
    rw e (with_caller-IsLinked svc s v i _ (lt, same, tt))
Step-IsLinked svc s u (checks i url t w at e) v =
    let (lt, same, ready) = caller_at svc s v i at in
    rw e (
      answered-IsLinked svc s v i url t _ _ lt same refl
        (λ nothing. with_caller-IsLinked svc s v i _ (lt, same, still-IsReady w _ nothing ready)))
Step-IsLinked svc s u (wakes i url t at e) v =
    let (lt, same, ready) = caller_at svc s v i at in
    rw e
      (answered-IsLinked svc s v i url t _ _ lt same refl (λ nothing. absurd (rw nothing at ready)))
Step-IsLinked svc s u (times_out i url t w bridge at e) v =
    let (lt, same, ready) = caller_at svc s v i at in
    rw e (
      answered-IsLinked svc s v i url t _ _ lt same refl
        (λ _. leaves-IsLinked svc s v i t _ (lt, same, inl (bridge, refl))))
Step-IsLinked svc s u (cancels i c e) v = rw e (with_caller-IsLinked svc s v i cancelled tt)
Step-IsLinked svc s u (cancels_waiter i phase url t w has at e) v =
    rw e (leaves-IsLinked svc s v i t cancelled tt)
Step-IsLinked svc s u (publishes t p lt at e) v = rw e (
    with_stage-IsLinked svc s v t fetching (published p) s.inflight at (λ h. h) (λ q h. cc)
      v.listed)
Step-IsLinked svc s u (notifies t p at e) v = rw e (notifies-IsLinked svc s v t p at)
Step-IsLinked svc s u (unlists t p at e) v = rw e (
    with_stage-IsLinked svc s v t (notified p) (unlisted p) _ at absurd (λ q h. h)
      (without-AreListed s.tasks s.made (s.tasks t).url s.inflight v.listed))
Step-IsLinked svc s u (stores t p at e) v =
    rw e (
      with_stage-IsLinked svc s v t (unlisted p) (stored p) s.inflight at absurd (λ q h. h)
        v.listed)
Step-IsLinked svc s u (stops t o aborting awaits e) v =
    rw e (stops-IsLinked svc s v t o _ refl awaits)
Step-IsLinked svc s u (sweeps t sweeping e) v = rw e (
    tasks-IsLinked svc s v _ _
      (update-Grows s.tasks t (record (s.tasks t) { sweeping = false })
        (record { same_url = refl; still_before = λ h. h; same_result = λ p h. h }))
      (sweep_entry-AreListed s.tasks s.made t _ (s.tasks t).url s.inflight v.listed))

pub Steps-IsLinked : (svc : Service) {s u : State} → IsLinked svc s → Steps svc s u → IsLinked svc u
Steps-IsLinked svc v no_steps = v
Steps-IsLinked svc v (and_step r st) = Step-IsLinked svc _ _ st (Steps-IsLinked svc v r)

pub at_first-IsLinked : (svc : Service) → IsLinked svc at_first
at_first-IsLinked svc = record { callers_ok = λ i. tt; listed = tt }
