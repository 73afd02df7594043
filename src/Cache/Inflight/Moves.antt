-- ===== src/Cache/Inflight/Moves.antt =====
-- rust-sync-proxy/src/cache.rs: the changes of state that the steps consist of, and what the callers know
-- of their tasks after each.
use gemini_worker_go.Prelude.{
  ℕ, suc, ◌≡◌, ◌<◌, refl, sym, ap, ◌∙◌, Bool, true, false, inl, inr, Option, none, some, Result, ok,
  err, ◌==◌, if_cases, leb, length, arith, List, ◌∷◌,
}
use gemini_worker_go.Text.{Text}
use gemini_worker_go.Cache.{FetchResult}
use gemini_worker_go.Cache.Lru.{lookup}
use gemini_worker_go.Cache.Inflight.{
  Published, Stage, fetching, published, notified, unlisted, aborted, result_of, FetchTask,
  new_task, WaitError, Phase, created, joining, counted, subscribed, waiting, Caller, idle,
  cancelled, looking, missing, direct, with_task, done, State, Service, update, with_caller,
  with_stage, published_result, looked, entered, leaves, answered, woken_by,
}
use gemini_worker_go.Cache.Inflight.Run.{Awaits, at_fetch, at_removal, at_store}
use gemini_worker_go.Cache.Inflight.Known.{
  IsBefore, IsReady, IsDelivered, IsCaller, AreListed, IsLinked, Grows, Grows-refl, IsCaller-Grows,
  AreListed-Grows, eq_of, update-Grows, update_self, lookup-AreListed, drop_waiter-Grows,
  stage_Grows, none-IsBefore, woken-IsReady, unnoticed, AreListed-urls,
}

module _ (svc : Service) (s : State) (v : IsLinked svc s) where
  pub caller_at : (i : ℕ) {c : Caller} → s.callers i ≡ c → IsCaller svc s.tasks s.made c
  caller_at i at = (rw at at (v.callers_ok i))

  -- The tasks grow, and one caller moves on.
  pub caller-IsLinked :
      (tasks' : ℕ → FetchTask) (inflight' : List (Text × ℕ)) (i : ℕ) (c : Caller)
      → ((t : ℕ) → Grows (s.tasks t) (tasks' t))
      → AreListed s.tasks s.made inflight'
      → IsCaller svc tasks' s.made c
      → IsLinked svc
          (record s { tasks = tasks'; inflight = inflight'; callers = update s.callers i c })
  caller-IsLinked tasks' inflight' i c grow l ok_c = record {
    callers_ok = λ j.
        if_cases (IsCaller svc tasks' s.made) (i == j) (λ _. ok_c)
          (λ _. IsCaller-Grows svc (λ t _. grow t) (omega arith) (s.callers j) (v.callers_ok j));
    listed = AreListed-Grows svc (λ t _. grow t) (omega arith) inflight' l;
  }

  pub tasks-IsLinked :
      (tasks' : ℕ → FetchTask) (inflight' : List (Text × ℕ))
      → ((t : ℕ) → Grows (s.tasks t) (tasks' t))
      → AreListed s.tasks s.made inflight'
      → IsLinked svc (record s { tasks = tasks'; inflight = inflight' })
  tasks-IsLinked tasks' inflight' grow l = record {
    callers_ok =
        λ j. IsCaller-Grows svc (λ t _. grow t) (omega arith) (s.callers j) (v.callers_ok j);
    listed = AreListed-Grows svc (λ t _. grow t) (omega arith) inflight' l;
  }

  pub with_caller-IsLinked :
      (i : ℕ) (c : Caller) → IsCaller svc s.tasks s.made c → IsLinked svc (with_caller s i c)
  with_caller-IsLinked i c ok_c =
      caller-IsLinked s.tasks s.inflight i c (λ t. Grows-refl (s.tasks t)) v.listed ok_c

  pub with_stage-IsLinked :
      (t : ℕ) (old new : Stage) (inflight' : List (Text × ℕ))
      → (s.tasks t).stage ≡ old
      → (IsBefore old → IsBefore new)
      → ((p : Published) → result_of old ≡ some p → result_of new ≡ some p)
      → AreListed s.tasks s.made inflight'
      → IsLinked svc (record (with_stage s t new) { inflight = inflight' })
  with_stage-IsLinked t old new inflight' e before same l =
      tasks-IsLinked _ inflight'
        (update-Grows s.tasks t _ (stage_Grows (s.tasks t) old new e before same)) l

  -- A caller that ends leaves its task as other callers know it.
  pub leaves-IsLinked :
      (i t : ℕ) (c : Caller) → IsCaller svc s.tasks s.made c → IsLinked svc (leaves svc s i t c)
  leaves-IsLinked i t c ok_c =
      let grow = update-Grows s.tasks t _ (drop_waiter-Grows svc (s.tasks t)) in
      caller-IsLinked _ s.inflight i c grow v.listed
        (IsCaller-Grows svc (λ k _. grow k) (omega arith) c ok_c)

  pub answered-IsLinked :
      (i : ℕ) (url : Text) (t : ℕ) (o : Option Published) (otherwise : State)
      → t < s.made
      → (s.tasks t).url ≡ url
      → result_of (s.tasks t).stage ≡ o
      → (o ≡ none → IsLinked svc otherwise)
      → IsLinked svc (answered svc s i url t (published_result o) otherwise)
  unfolding published_result
  answered-IsLinked i url t none otherwise lt same e rest = rest refl
  answered-IsLinked i url t (some (ok hit)) otherwise lt same e rest =
      leaves-IsLinked i t _ (lt, same, inr (ok hit, e, refl))
  answered-IsLinked i url t (some (err m)) otherwise lt same e rest =
      leaves-IsLinked i t _ (lt, same, inr (err m, e, refl))

  pub looked-IsCaller :
      (url : Text) (o : Option ℕ)
      → lookup url s.inflight ≡ o
      → IsCaller svc s.tasks s.made (looked url o)
  looked-IsCaller url none e = tt
  looked-IsCaller url (some t) e =
      let (lt, same) = lookup-AreListed s.tasks s.made s.inflight url t v.listed e in (lt, same, tt)

  pub fresh-Grows :
      (url : Text) (t : ℕ) → t < s.made → Grows (s.tasks t) (update s.tasks s.made (new_task url) t)
  fresh-Grows url t lt =
      let other : (s.made == t) ≡ false = ground (arith, lt) in rw other (Grows-refl (s.tasks t))

  pub created-IsLinked :
      (i : ℕ) (url : Text)
      → IsLinked svc (record {
        made = suc s.made;
        tasks = update s.tasks s.made (new_task url);
        inflight = (url, s.made) ∷ s.inflight;
        callers = update s.callers i (with_task created url s.made false);
      })
  created-IsLinked i url =
      let tasks' = update s.tasks s.made (new_task url) in
      let here : (tasks' s.made).url ≡ url =
        ap (λ k. k.url) (update_self s.tasks s.made (new_task url)) in
      record {
        callers_ok = λ j.
            if_cases (IsCaller svc tasks' (suc s.made)) (i == j) (λ _. (omega arith, here, tt))
              (λ _.
                IsCaller-Grows svc (fresh-Grows url) (omega arith) (s.callers j) (v.callers_ok j));
        listed = (
          omega arith,
          here,
          AreListed-Grows svc (fresh-Grows url) (omega arith) s.inflight v.listed,
        );
      }

  pub entered-IsLinked :
      (i : ℕ) (url : Text) (o : Option ℕ)
      → lookup url s.inflight ≡ o
      → IsLinked svc (entered svc s i url o)
  entered-IsLinked i url (some t) e = with_caller-IsLinked i _ (looked-IsCaller url (some t) e)
  entered-IsLinked i url none e =
      if_cases (IsLinked svc) (leb svc.max_inflight (length s.inflight))
        (λ _. with_caller-IsLinked i (direct url) tt) (λ _. created-IsLinked i url)

  pub notified_url :
      (t : ℕ) (p : Published) (k : ℕ)
      → ((with_stage s t (notified p)).tasks k).url ≡ (s.tasks k).url
  notified_url t p k =
      if_cases (λ (a : FetchTask). a.url ≡ (s.tasks k).url) (t == k)
        (λ e. ap (λ j. (s.tasks j).url) (eq_of t k e)) (λ _. refl)

  pub still-IsDelivered :
      (t : ℕ) (p : Published)
      → (s.tasks t).stage ≡ published p
      → (k : ℕ) (r : Result WaitError FetchResult) → IsDelivered svc (s.tasks k).stage r
      → IsDelivered svc ((with_stage s t (notified p)).tasks k).stage r
  still-IsDelivered t p e k r (inl late) = inl late
  still-IsDelivered t p e k r (inr (q, found, same)) = inr (
    q,
    if_cases (λ (a : FetchTask). result_of a.stage ≡ some q) (t == k)
        (λ here.
          sym (ap result_of (ap (λ j. (s.tasks j).stage) (sym (eq_of t k here)) ∙ e)) ∙ found)
        (λ _. found),
    same,
  )

  pub woken_task :
      (t : ℕ) (p : Published)
      → (s.tasks t).stage ≡ published p
      → (phase : Phase) (url : Text) (k : ℕ) (w : Bool) → k < s.made
      → (s.tasks k).url ≡ url
      → IsReady phase w (s.tasks k).stage
      → IsCaller svc
          (with_stage s t (notified p)).tasks
          s.made
          (woken_by t (with_task phase url k w))
  woken_task t p e created url k w lt same ready = (
    lt,
    notified_url t p k ∙ same,
    unnoticed (s.tasks k) (record (s.tasks t) { stage = notified p }) (t == k) created w tt ready
        (λ h. h),
  )
  woken_task t p e joining url k w lt same ready = (
    lt,
    notified_url t p k ∙ same,
    unnoticed (s.tasks k) (record (s.tasks t) { stage = notified p }) (t == k) joining w tt ready
        (λ h. h),
  )
  woken_task t p e counted url k w lt same ready = (
    lt,
    notified_url t p k ∙ same,
    unnoticed (s.tasks k) (record (s.tasks t) { stage = notified p }) (t == k) counted w tt ready
        (λ h. h),
  )
  woken_task t p e subscribed url k w lt same ready = (
    lt,
    notified_url t p k ∙ same,
    woken-IsReady (s.tasks k) (record (s.tasks t) { stage = notified p }) subscribed (t == k) w tt
        ready,
  )
  woken_task t p e waiting url k w lt same ready = (
    lt,
    notified_url t p k ∙ same,
    woken-IsReady (s.tasks k) (record (s.tasks t) { stage = notified p }) waiting (t == k) w tt
        ready,
  )

  pub woken_by-IsCaller :
      (t : ℕ) (p : Published)
      → (s.tasks t).stage ≡ published p
      → (c : Caller) → IsCaller svc s.tasks s.made c
      → IsCaller svc (with_stage s t (notified p)).tasks s.made (woken_by t c)
  woken_by-IsCaller t p e (with_task phase url k w) (lt, same, ready) =
      woken_task t p e phase url k w lt same ready
  woken_by-IsCaller t p e (done url (some k) r) (lt, same, got) =
      (lt, notified_url t p k ∙ same, still-IsDelivered t p e k r got)
  woken_by-IsCaller t p e (done url none r) h = tt
  woken_by-IsCaller t p e idle h = tt
  woken_by-IsCaller t p e cancelled h = tt
  woken_by-IsCaller t p e (looking url) h = tt
  woken_by-IsCaller t p e (missing url) h = tt
  woken_by-IsCaller t p e (direct url) h = tt

  pub notifies-IsLinked :
      (t : ℕ) (p : Published)
      → (s.tasks t).stage ≡ published p
      → IsLinked svc
          (record (with_stage s t (notified p)) { callers = λ j. woken_by t (s.callers j) })
  notifies-IsLinked t p e = record {
    callers_ok = λ j. woken_by-IsCaller t p e (s.callers j) (v.callers_ok j);
    listed =
        AreListed-urls s.tasks (with_stage s t (notified p)).tasks s.made (notified_url t p)
          s.inflight v.listed;
  }

  pub stops-IsLinked :
      (t : ℕ) (o : Option Published) (stage : Stage)
      → (s.tasks t).stage ≡ stage
      → Awaits stage o
      → IsLinked svc (with_stage s t (aborted o))
  stops-IsLinked t _ _ e at_fetch =
      with_stage-IsLinked t fetching (aborted none) s.inflight e (λ h. h) (λ q h. h) v.listed
  stops-IsLinked t _ _ e (at_removal {p}) =
      with_stage-IsLinked t (notified p) (aborted (some p)) s.inflight e absurd (λ q h. h) v.listed
  stops-IsLinked t _ _ e (at_store {p}) =
      with_stage-IsLinked t (unlisted p) (aborted (some p)) s.inflight e absurd (λ q h. h) v.listed

pub still-IsReady :
    (w : Bool) (stage : Stage)
    → result_of stage ≡ none
    → IsReady subscribed w stage
    → IsReady waiting w stage
still-IsReady true stage nothing h = absurd (rw nothing at h)
still-IsReady false stage nothing h = none-IsBefore stage nothing
