-- ===== src/Cache/Inflight/Lost.antt =====
-- rust-sync-proxy/src/cache.rs: a caller that waits for an aborted task, under the changes of state that the
-- steps consist of.
use gemini_worker_go.Prelude.{
  ℕ, ◌≡◌, ◌<◌, refl, sym, ap, ◌∙◌, true, false, ◌||◌, ◌==◌, Option, none, some, Result, ok, err,
  List, arith, inl, inr, ◌⊎◌, if_cases, leb, length,
}
use gemini_worker_go.Text.{Text}
use gemini_worker_go.Cache.{FetchResult}
use gemini_worker_go.Cache.Inflight.{
  Published, Stage, fetching, published, notified, unlisted, aborted, waiting, subscribed, counted,
  joining, created, idle, cancelled, looking, missing, direct, with_task, done, Caller, State,
  Service, FetchTask, WaitError, update, with_caller, with_stage, leaves, answered, woken_by,
  entered, new_waiter, drop_waiter,
}
use gemini_worker_go.Cache.Inflight.Run.{Awaits, at_fetch, at_removal, at_store}
use gemini_worker_go.Cache.Inflight.Known.{eq_of}

-- A caller that waits for a task unwoken, or that has been dropped.
abbrev pub IsLost : Text → ℕ → Caller → Type 0
IsLost url t c = (c ≡ with_task waiting url t false) ⊎ (c ≡ cancelled)

abbrev pub IsMovable : Caller → Type 0
IsMovable idle = Unit
IsMovable cancelled = ⊥
IsMovable (looking url) = Unit
IsMovable (missing url) = Unit
IsMovable (direct url) = Unit
IsMovable (with_task waiting url t false) = ⊥
IsMovable (with_task waiting url t true) = Unit
IsMovable (with_task subscribed url t w) = Unit
IsMovable (with_task counted url t w) = Unit
IsMovable (with_task joining url t w) = Unit
IsMovable (with_task created url t w) = Unit
IsMovable (done url t r) = Unit

pub lost_movable : (url : Text) (t : ℕ) (c : Caller) → IsLost url t c → IsMovable c → ⊥
lost_movable url t c (inl e) h = (rw e at h)
lost_movable url t c (inr e) h = (rw e at h)

-- The task has been aborted with no result, and the caller is lost.
pub record IsStuck (s : State) (i : ℕ) (url : Text) (t : ℕ) : Type 0 where
  pub made_before : t < s.made
  pub no_stage : (s.tasks t).stage ≡ aborted none
  pub lost : IsLost url t (s.callers i)

pub drop_waiter-stage :
    (svc : Service) (task : FetchTask) → (drop_waiter svc task).stage ≡ task.stage
unfolding drop_waiter
drop_waiter-stage svc task =
    if_cases (λ (a : FetchTask). a.stage ≡ task.stage) _ (λ _. refl) (λ _. refl)

pub new_waiter-stage : (task : FetchTask) → (new_waiter task).stage ≡ task.stage
unfolding new_waiter
new_waiter-stage task = refl

module _ (svc : Service) (s : State) (i : ℕ) (url : Text) (t : ℕ) (v : IsStuck s i url t) where
  pub moved_lost :
      (j : ℕ) (c d : Caller) → s.callers j ≡ c → IsMovable c → IsLost url t (update s.callers j d i)
  moved_lost j c d at free =
      if_cases (IsLost url t) (j == i)
        (λ e. absurd (lost_movable url t c (rw at at (rw (sym (eq_of j i e)) at v.lost)) free))
        (λ _. v.lost)

  pub kept_stage :
      (k : ℕ) (b : FetchTask)
      → b.stage ≡ (s.tasks k).stage
      → (update s.tasks k b t).stage ≡ aborted none
  kept_stage k b same =
      if_cases (λ (a : FetchTask). a.stage ≡ aborted none) (k == t)
        (λ e. same ∙ ap (λ n. (s.tasks n).stage) (eq_of k t e) ∙ v.no_stage) (λ _. v.no_stage)

  -- A task with another stage is another one.
  pub other_stage :
      (k : ℕ) (old new : Stage)
      → (s.tasks k).stage ≡ old
      → ¬ (old ≡ aborted none)
      → ((with_stage s k new).tasks t).stage ≡ aborted none
  other_stage k old new at other =
      if_cases (λ (a : FetchTask). a.stage ≡ aborted none) (k == t)
        (λ e. absurd (other (sym at ∙ ap (λ n. (s.tasks n).stage) (eq_of k t e) ∙ v.no_stage)))
        (λ _. v.no_stage)

  pub caller-IsStuck :
      (j : ℕ) (c d : Caller) → s.callers j ≡ c → IsMovable c → IsStuck (with_caller s j d) i url t
  caller-IsStuck j c d at free = record {
    made_before = v.made_before;
    no_stage = v.no_stage;
    lost = moved_lost j c d at free;
  }

  pub leaves-IsStuck :
      (j k : ℕ) (c d : Caller)
      → s.callers j ≡ c
      → IsMovable c
      → IsStuck (leaves svc s j k d) i url t
  leaves-IsStuck j k c d at free = record {
    made_before = v.made_before;
    no_stage = kept_stage k _ (drop_waiter-stage svc (s.tasks k));
    lost = moved_lost j c d at free;
  }

  pub answered-IsStuck :
      (j : ℕ) (url' : Text) (k : ℕ) (c : Caller) (r : Result WaitError (Option FetchResult))
      (otherwise : State)
      → s.callers j ≡ c
      → IsMovable c
      → IsStuck otherwise i url t
      → IsStuck (answered svc s j url' k r otherwise) i url t
  answered-IsStuck j url' k c (ok none) otherwise at free h = h
  answered-IsStuck j url' k c (ok (some r)) otherwise at free h = leaves-IsStuck j k c _ at free
  answered-IsStuck j url' k c (err e) otherwise at free h = leaves-IsStuck j k c _ at free

  pub entered-IsStuck :
      (j : ℕ) (url' : Text) (o : Option ℕ)
      → s.callers j ≡ missing url'
      → IsStuck (entered svc s j url' o) i url t
  entered-IsStuck j url' (some k) at = caller-IsStuck j (missing url') _ at tt
  entered-IsStuck j url' none at =
      if_cases (λ u. IsStuck u i url t) (leb svc.max_inflight (length s.inflight))
        (λ _. caller-IsStuck j (missing url') _ at tt)
        (λ _.
          let before = v.made_before in
          let other : (s.made == t) ≡ false = ground (arith, before) in
          record {
            made_before = omega (arith, before);
            no_stage = rw other v.no_stage;
            lost = moved_lost j (missing url') _ at tt;
          })

  pub tasks-IsStuck :
      (tasks' : ℕ → FetchTask) (inflight' : List (Text × ℕ))
      → (tasks' t).stage ≡ aborted none
      → IsStuck (record s { tasks = tasks'; inflight = inflight' }) i url t
  tasks-IsStuck tasks' inflight' e = record {
    made_before = v.made_before;
    no_stage = e;
    lost = v.lost;
  }

  -- `notify_waiters` of another task.
  pub woken_lost : (k : ℕ) → ¬ (k ≡ t) → (c : Caller) → IsLost url t c → IsLost url t (woken_by k c)
  woken_lost k other c (inl e) =
      let not_k : (k == t) ≡ false = ground (arith, other) in
      inl (ap (woken_by k) e ∙ ap (λ b. with_task waiting url t (false || b)) not_k)
  woken_lost k other c (inr e) = inr (ap (woken_by k) e)

  pub notifies-IsStuck :
      (k : ℕ) (p : Published)
      → (s.tasks k).stage ≡ published p
      → IsStuck
          (record (with_stage s k (notified p)) { callers = λ j. woken_by k (s.callers j) })
          i
          url
          t
  notifies-IsStuck k p at = record {
    made_before = v.made_before;
    no_stage = other_stage k (published p) (notified p) at (λ e. cc);
    lost =
        woken_lost k
          (λ e.
            let same : published p ≡ aborted none =
              sym at ∙ ap (λ n. (s.tasks n).stage) e ∙ v.no_stage in
            cc)
          (s.callers i) v.lost;
  }

  pub stops-IsStuck :
      (k : ℕ) (o : Option Published) (stage : Stage)
      → (s.tasks k).stage ≡ stage
      → Awaits stage o
      → ((with_stage s k (aborted o)).tasks t).stage ≡ aborted none
  stops-IsStuck k _ _ at at_fetch = other_stage k fetching (aborted none) at (λ e. cc)
  stops-IsStuck k _ _ at (at_removal {p}) =
      other_stage k (notified p) (aborted (some p)) at (λ e. cc)
  stops-IsStuck k _ _ at (at_store {p}) = other_stage k (unlisted p) (aborted (some p)) at (λ e. cc)

  pub dropped_lost : (j : ℕ) → IsLost url t (update s.callers j cancelled i)
  dropped_lost j = if_cases (IsLost url t) (j == i) (λ _. inr refl) (λ _. v.lost)
