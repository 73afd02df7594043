-- ===== src/Cache/Inflight.antt =====
-- rust-sync-proxy/src/cache.rs: the fetches in flight of `InlineDataUrlFetchService`, when many callers
-- of `fetch` run at once. Each use of a lock, the making and the drop of a waiter, and the notification
-- are steps of their own. A task is its number: those of `Arc::ptr_eq` are equal.
pub mod Run
pub mod Known
pub mod Moves
pub mod Linked
pub mod Finish
pub mod Lost
pub mod Stuck
pub mod Bounded
pub mod Bridge
use gemini_worker_go.Prelude.{
  ℕ, suc, ◌+◌, ◌-◌, ◌<◌, ◌≡◌, Bool, true, false, ◌||◌, not, Option, none, some, List, [], ◌∷◌,
  Result, ok, err, length, leb, ◌==◌, if◌then◌else◌,
}
use gemini_worker_go.Text.{Text}
use gemini_worker_go.Cache.{CachedInlineData, FetchResult}
use gemini_worker_go.Cache.Lru.{lookup, without}

abbrev pub Published : Type 0
Published = Result Text CachedInlineData

-- How far a spawned task has come: fetching, with its result published, with the waiters notified,
-- out of the map, with the result in the caches; or aborted, with a result or without.
pub data Stage : Type 0 where
  fetching : Stage
  published notified unlisted stored : Published → Stage
  aborted : Option Published → Stage

-- `result` of a `FetchTask`.
abbrev pub result_of : Stage → Option Published
result_of fetching = none
result_of (published p) = some p
result_of (notified p) = some p
result_of (unlisted p) = some p
result_of (stored p) = some p
result_of (aborted o) = o

-- `has_handle` is whether the abort handle is there to be taken, `aborting` whether `abort` has been
-- called, and `sweeping` whether a dropped waiter has still to take the task out of the map.
pub record FetchTask : Type 0 where
  pub url : Text
  pub stage : Stage
  pub waiter_count : ℕ
  pub has_handle : Bool
  pub aborting : Bool
  pub sweeping : Bool

abbrev pub new_task : Text → FetchTask
new_task url = record {
  url = url;
  stage = fetching;
  waiter_count = 0;
  has_handle = false;
  aborting = false;
  sweeping = false;
}

pub data WaitError : Type 0 where
  fetch_failed : Text → WaitError
  wait_timeout no_result : WaitError

-- Where a call that has a task stands: before its handle is set, before its waiter is made, before it
-- subscribes to the notification, before it looks at the result, and waiting.
pub data Phase : Type 0 where
  created joining counted subscribed waiting : Phase

-- A call of `fetch` that neither cache has answered. With a task, it knows the URL and the task, and
-- whether the notification has come.
pub data Caller : Type 0 where
  idle cancelled : Caller
  looking missing direct : Text → Caller
  with_task : Phase → Text → ℕ → Bool → Caller
  done : Text → Option ℕ → Result WaitError FetchResult → Caller

pub record State : Type 0 where
  pub made : ℕ
  pub tasks : ℕ → FetchTask
  pub inflight : List (Text × ℕ)
  pub callers : ℕ → Caller

pub record Service : Type 0 where
  pub max_inflight : ℕ
  pub enable_background_bridge : Bool

abbrev pub update {ℓ} : {A : Type ℓ} → (ℕ → A) → ℕ → A → ℕ → A
update f i a j = if i == j then a else f j

abbrev pub with_caller : State → ℕ → Caller → State
with_caller s i c = record s { callers = update s.callers i c }

abbrev pub with_stage : State → ℕ → Stage → State
with_stage s t stage = record s { tasks = update s.tasks t (record (s.tasks t) { stage = stage }) }

unfoldable pub published_result : Option Published → Result WaitError (Option FetchResult)
published_result none = ok none
published_result (some (ok hit)) =
    ok (some (record { mime_type = hit.mime_type; bytes = hit.bytes; from_cache = false }))
published_result (some (err message)) = err (fetch_failed message)

-- The first look at the map.
abbrev pub looked : Text → Option ℕ → Caller
looked url none = missing url
looked url (some t) = with_task joining url t false

-- The second look, under the lock that also inserts.
abbrev pub entered : Service → State → ℕ → Text → Option ℕ → State
entered svc s i url (some t) = with_caller s i (with_task joining url t false)
entered svc s i url none =
    if leb svc.max_inflight (length s.inflight) then with_caller s i (direct url) else record {
      made = suc s.made;
      tasks = update s.tasks s.made (new_task url);
      inflight = (url, s.made) ∷ s.inflight;
      callers = update s.callers i (with_task created url s.made false);
    }

unfoldable pub enter_inflight : Service → State → ℕ → Text → State
unfolding lookup
enter_inflight svc s i url = entered svc s i url (lookup url s.inflight)

-- `FetchTaskWaiter::new`, and its `drop` up to the removal from the map.
unfoldable pub new_waiter : FetchTask → FetchTask
new_waiter task = record task { waiter_count = task.waiter_count + 1 }

unfoldable pub drop_waiter : Service → FetchTask → FetchTask
drop_waiter svc task =
    if not (task.waiter_count == 1) || svc.enable_background_bridge
    then record task { waiter_count = task.waiter_count - 1 }
    else record task {
      waiter_count = task.waiter_count - 1;
      has_handle = false;
      aborting = task.aborting || task.has_handle;
      sweeping = true;
    }

-- A call that ends drops its waiter.
abbrev pub leaves : Service → State → ℕ → ℕ → Caller → State
leaves svc s i t c = record s {
  tasks = update s.tasks t (drop_waiter svc (s.tasks t));
  callers = update s.callers i c;
}

-- A look at the result; what stands for no result is given.
abbrev pub answered :
    Service → State → ℕ → Text → ℕ → Result WaitError (Option FetchResult) → State → State
answered svc s i url t (ok none) otherwise = otherwise
answered svc s i url t (ok (some r)) otherwise = leaves svc s i t (done url (some t) (ok r))
answered svc s i url t (err e) otherwise = leaves svc s i t (done url (some t) (err e))

abbrev pub fails : Service → State → ℕ → Text → ℕ → WaitError → State
fails svc s i url t e = leaves svc s i t (done url (some t) (err e))

-- `notify_waiters` reaches those that have subscribed.
abbrev pub woken_by : ℕ → Caller → Caller
woken_by t (with_task subscribed url k w) = with_task subscribed url k (w || t == k)
woken_by t (with_task waiting url k w) = with_task waiting url k (w || t == k)
woken_by t c = c

-- The removal that a dropped waiter leaves to be done.
unfoldable pub sweep_entry : ℕ → Option ℕ → Text → List (Text × ℕ) → List (Text × ℕ)
unfolding without
sweep_entry t none url inflight = inflight
sweep_entry t (some k) url inflight = if k == t then without url inflight else inflight
