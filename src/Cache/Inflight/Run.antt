-- ===== src/Cache/Inflight/Run.antt =====
-- rust-sync-proxy/src/cache.rs: the steps of the callers and of the tasks, in any order.
use gemini_worker_go.Prelude.{ℕ, ◌<◌, ◌≡◌, Bool, true, false, Option, none, some, [], Result}
use gemini_worker_go.Text.{Text}
use gemini_worker_go.Cache.{FetchResult}
use gemini_worker_go.Cache.Lru.{lookup, without}
use gemini_worker_go.Cache.Inflight.{
  Published, Stage, result_of, new_task, WaitError, Phase, Caller, State, Service, update,
  with_caller, with_stage, published_result, looked, enter_inflight, new_waiter, leaves, answered,
  fails, woken_by, sweep_entry, fetching, published, notified, unlisted, stored, aborted,
  wait_timeout, no_result, created, joining, counted, subscribed, waiting, idle, cancelled, looking,
  missing, direct, with_task, done,
}

-- An abort takes effect where the task awaits.
pub data Awaits : Stage → Option Published → Type 0 where
  at_fetch : Awaits fetching none
  at_removal : {p : Published} → Awaits (notified p) (some p)
  at_store : {p : Published} → Awaits (unlisted p) (some p)

pub data Cancels : Caller → Type 0 where
  cancel_looking : {url : Text} → Cancels (looking url)
  cancel_missing : {url : Text} → Cancels (missing url)
  cancel_direct : {url : Text} → Cancels (direct url)

pub data HasWaiter : Phase → Type 0 where
  has_subscribed : HasWaiter subscribed
  has_waiting : HasWaiter waiting

pub data Step (svc : Service) (s u : State) : Type 0 where
  starts :
      (i : ℕ) (url : Text) → s.callers i ≡ idle → u ≡ with_caller s i (looking url) → Step svc s u
  looks :
      (i : ℕ) (url : Text)
      → s.callers i ≡ looking url
      → u ≡ with_caller s i (looked url (lookup url s.inflight))
      → Step svc s u
  enters :
      (i : ℕ) (url : Text)
      → s.callers i ≡ missing url
      → u ≡ enter_inflight svc s i url
      → Step svc s u
  fetches_directly :
      (i : ℕ) (url : Text) (r : Result WaitError FetchResult)
      → s.callers i ≡ direct url
      → u ≡ with_caller s i (done url none r)
      → Step svc s u
  sets_handle :
      (i : ℕ) (url : Text) (t : ℕ)
      → s.callers i ≡ with_task created url t false
      → u ≡ record s {
        tasks = update s.tasks t (record (s.tasks t) { has_handle = true });
        callers = update s.callers i (with_task joining url t false);
      }
      → Step svc s u
  counts :
      (i : ℕ) (url : Text) (t : ℕ)
      → s.callers i ≡ with_task joining url t false
      → u ≡ record s {
        tasks = update s.tasks t (new_waiter (s.tasks t));
        callers = update s.callers i (with_task counted url t false);
      }
      → Step svc s u
  subscribes :
      (i : ℕ) (url : Text) (t : ℕ)
      → s.callers i ≡ with_task counted url t false
      → u ≡ with_caller s i (with_task subscribed url t false)
      → Step svc s u
  checks :
      (i : ℕ) (url : Text) (t : ℕ) (w : Bool)
      → s.callers i ≡ with_task subscribed url t w
      → u
        ≡ answered svc s i url t
            (published_result (result_of (s.tasks t).stage))
            (with_caller s i (with_task waiting url t w))
      → Step svc s u
  wakes :
      (i : ℕ) (url : Text) (t : ℕ)
      → s.callers i ≡ with_task waiting url t true
      → u
        ≡ answered svc s i url t
            (published_result (result_of (s.tasks t).stage))
            (fails svc s i url t no_result)
      → Step svc s u
  times_out :
      (i : ℕ) (url : Text) (t : ℕ) (w : Bool)
      → svc.enable_background_bridge ≡ true
      → s.callers i ≡ with_task waiting url t w
      → u
        ≡ answered svc s i url t
            (published_result (result_of (s.tasks t).stage))
            (fails svc s i url t wait_timeout)
      → Step svc s u
  cancels : (i : ℕ) → Cancels (s.callers i) → u ≡ with_caller s i cancelled → Step svc s u
  cancels_waiter :
      (i : ℕ) (phase : Phase) (url : Text) (t : ℕ) (w : Bool)
      → HasWaiter phase
      → s.callers i ≡ with_task phase url t w
      → u ≡ leaves svc s i t cancelled
      → Step svc s u
  publishes :
      (t : ℕ) (p : Published)
      → t < s.made
      → (s.tasks t).stage ≡ fetching
      → u ≡ with_stage s t (published p)
      → Step svc s u
  notifies :
      (t : ℕ) (p : Published)
      → (s.tasks t).stage ≡ published p
      → u ≡ record (with_stage s t (notified p)) { callers = λ j. woken_by t (s.callers j) }
      → Step svc s u
  unlists :
      (t : ℕ) (p : Published)
      → (s.tasks t).stage ≡ notified p
      → u ≡ record (with_stage s t (unlisted p)) { inflight = without (s.tasks t).url s.inflight }
      → Step svc s u
  stores :
      (t : ℕ) (p : Published)
      → (s.tasks t).stage ≡ unlisted p
      → u ≡ with_stage s t (stored p)
      → Step svc s u
  stops :
      (t : ℕ) (o : Option Published)
      → (s.tasks t).aborting ≡ true
      → Awaits (s.tasks t).stage o
      → u ≡ with_stage s t (aborted o)
      → Step svc s u
  sweeps :
      (t : ℕ)
      → (s.tasks t).sweeping ≡ true
      → u ≡ record s {
        tasks = update s.tasks t (record (s.tasks t) { sweeping = false });
        inflight = sweep_entry t (lookup (s.tasks t).url s.inflight) (s.tasks t).url s.inflight;
      }
      → Step svc s u

pub data Steps (svc : Service) (s : State) : State → Type 0 where
  no_steps : Steps svc s s
  and_step : {t u : State} → Steps svc s t → Step svc t u → Steps svc s u

-- A service that has just been made, and calls that have not begun.
abbrev pub at_first : State
at_first = record { made = 0; tasks = λ _. new_task []; inflight = []; callers = λ _. idle }
