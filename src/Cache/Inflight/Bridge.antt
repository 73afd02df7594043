-- ===== src/Cache/Inflight/Bridge.antt =====
-- rust-sync-proxy/src/cache.rs: the background bridge, with which a fetch goes on when its callers have
-- gone.
use gemini_worker_go.Prelude.{
  ℕ, ◌≡◌, refl, sym, ◌∙◌, true, false, ◌||◌, not, ◌==◌, Option, none, some, Result, ok, err, arith,
  if_cases, leb, length,
}
use gemini_worker_go.Text.{Text}
use gemini_worker_go.Cache.{FetchResult}
use gemini_worker_go.Cache.Inflight.{
  Stage, fetching, published, notified, unlisted, stored, aborted, FetchTask, new_task, State,
  Service, WaitError, update, answered, entered, enter_inflight, new_waiter, drop_waiter,
}
use gemini_worker_go.Cache.Inflight.Run.{
  Step, Steps, no_steps, and_step, at_first, starts, looks, enters, fetches_directly, sets_handle,
  counts, subscribes, checks, wakes, times_out, cancels, cancels_waiter, publishes, notifies,
  unlists, stores, stops, sweeps,
}

abbrev pub IsRunning : Stage → Type 0
IsRunning (aborted o) = ⊥
IsRunning fetching = Unit
IsRunning (published p) = Unit
IsRunning (notified p) = Unit
IsRunning (unlisted p) = Unit
IsRunning (stored p) = Unit

abbrev pub GoesOn : FetchTask → Type 0
GoesOn task = (task.aborting ≡ false) × IsRunning task.stage

drop_waiter-GoesOn :
    (svc : Service) (task : FetchTask)
    → svc.enable_background_bridge ≡ true
    → GoesOn task
    → GoesOn (drop_waiter svc task)
unfolding drop_waiter
drop_waiter-GoesOn svc task on h =
    let first : (not (task.waiter_count == 1) || svc.enable_background_bridge) ≡ true =
      rw on (ground arith) in
    rw first h

update-GoesOn :
    (tasks : ℕ → FetchTask) (t : ℕ) (b : FetchTask)
    → ((k : ℕ) → GoesOn (tasks k))
    → GoesOn b
    → (k : ℕ) → GoesOn (update tasks t b k)
update-GoesOn tasks t b all h k = if_cases GoesOn (t == k) (λ _. h) (λ _. all k)

module _ (svc : Service) (on : svc.enable_background_bridge ≡ true) where
  answered-GoesOn :
      (s : State) (i : ℕ) (url : Text) (t : ℕ) (r : Result WaitError (Option FetchResult))
      (otherwise : State)
      → ((k : ℕ) → GoesOn (s.tasks k))
      → ((k : ℕ) → GoesOn (otherwise.tasks k))
      → (k : ℕ) → GoesOn ((answered svc s i url t r otherwise).tasks k)
  answered-GoesOn s i url t (ok none) otherwise all o = o
  answered-GoesOn s i url t (ok (some r)) otherwise all o =
      update-GoesOn s.tasks t _ all (drop_waiter-GoesOn svc (s.tasks t) on (all t))
  answered-GoesOn s i url t (err e) otherwise all o =
      update-GoesOn s.tasks t _ all (drop_waiter-GoesOn svc (s.tasks t) on (all t))

  leaves-GoesOn :
      (s : State) (t : ℕ)
      → ((k : ℕ) → GoesOn (s.tasks k))
      → (k : ℕ) → GoesOn (update s.tasks t (drop_waiter svc (s.tasks t)) k)
  leaves-GoesOn s t all =
      update-GoesOn s.tasks t _ all (drop_waiter-GoesOn svc (s.tasks t) on (all t))

  entered-GoesOn :
      (s : State) (i : ℕ) (url : Text) (o : Option ℕ)
      → ((k : ℕ) → GoesOn (s.tasks k))
      → (k : ℕ) → GoesOn ((entered svc s i url o).tasks k)
  entered-GoesOn s i url (some t) all k = all k
  entered-GoesOn s i url none all k =
      if_cases (λ (u : State). GoesOn (u.tasks k)) (leb svc.max_inflight (length s.inflight))
        (λ _. all k) (λ _. update-GoesOn s.tasks s.made (new_task url) all (refl, tt) k)

  staged_GoesOn :
      (s : State) (t : ℕ) (stage : Stage)
      → ((k : ℕ) → GoesOn (s.tasks k))
      → IsRunning stage
      → (k : ℕ) → GoesOn (update s.tasks t (record (s.tasks t) { stage = stage }) k)
  staged_GoesOn s t stage all h = update-GoesOn s.tasks t _ all ((all t).0, h)

  Step-GoesOn :
      (s u : State) → Step svc s u → ((k : ℕ) → GoesOn (s.tasks k)) → (k : ℕ) → GoesOn (u.tasks k)
  unfolding enter_inflight new_waiter
  Step-GoesOn s u (starts i url at e) all = rw e all
  Step-GoesOn s u (looks i url at e) all = rw e all
  Step-GoesOn s u (enters i url at e) all = rw e (entered-GoesOn s i url _ all)
  Step-GoesOn s u (fetches_directly i url r at e) all = rw e all
  Step-GoesOn s u (sets_handle i url t at e) all = rw e (update-GoesOn s.tasks t _ all (all t))
  Step-GoesOn s u (counts i url t at e) all = rw e (update-GoesOn s.tasks t _ all (all t))
  Step-GoesOn s u (subscribes i url t at e) all = rw e all
  Step-GoesOn s u (checks i url t w at e) all = rw e (answered-GoesOn s i url t _ _ all all)
  Step-GoesOn s u (wakes i url t at e) all =
      rw e (answered-GoesOn s i url t _ _ all (leaves-GoesOn s t all))
  Step-GoesOn s u (times_out i url t w b at e) all =
      rw e (answered-GoesOn s i url t _ _ all (leaves-GoesOn s t all))
  Step-GoesOn s u (cancels i c e) all = rw e all
  Step-GoesOn s u (cancels_waiter i phase url t w has at e) all = rw e (leaves-GoesOn s t all)
  Step-GoesOn s u (publishes t p lt at e) all = rw e (staged_GoesOn s t (published p) all tt)
  Step-GoesOn s u (notifies t p at e) all = rw e (staged_GoesOn s t (notified p) all tt)
  Step-GoesOn s u (unlists t p at e) all = rw e (staged_GoesOn s t (unlisted p) all tt)
  Step-GoesOn s u (stores t p at e) all = rw e (staged_GoesOn s t (stored p) all tt)
  Step-GoesOn s u (stops t o aborting awaits e) all =
      let quiet = (all t).0 in let bad : true ≡ false = sym aborting ∙ quiet in cc
  Step-GoesOn s u (sweeps t sweeping e) all = rw e (update-GoesOn s.tasks t _ all (all t))

-- With the background bridge, in every state that steps lead to from the first one, no task has been
-- aborted nor is any about to be: a fetch goes on, whichever of its callers have been dropped.
pub bridge-GoesOn :
    (svc : Service) {s : State}
    → svc.enable_background_bridge ≡ true
    → Steps svc at_first s
    → (k : ℕ) → GoesOn (s.tasks k)
bridge-GoesOn svc on no_steps k = (refl, tt)
bridge-GoesOn svc on (and_step r st) k = Step-GoesOn svc on _ _ st (bridge-GoesOn svc on r) k
