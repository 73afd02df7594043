-- ===== src/Cache/Inflight/Known.antt =====
-- rust-sync-proxy/src/cache.rs: what a caller may know of its task, and what of it stays when tasks go
-- on.
use gemini_worker_go.Prelude.{
  ℕ, ◌≡◌, ◌≤◌, ◌<◌, refl, sym, ap, ◌∙◌, Bool, true, false, ◌||◌, Bool-cases, ◌⊎◌, inl, inr, Option,
  none, some, Option-cases, IsSome, Result, ok, err, ◌==◌, if◌then◌else◌, if_cases, arith, List, [],
  ◌∷◌,
}
use gemini_worker_go.Text.{Text, text_eq}
use gemini_worker_go.Text.Laws.{text_eq→eq}
use gemini_worker_go.Cache.{FetchResult}
use gemini_worker_go.Cache.Lru.{lookup, without}
use gemini_worker_go.Cache.Inflight.{
  Published, Stage, fetching, published, notified, unlisted, stored, aborted, result_of, FetchTask,
  WaitError, Phase, fetch_failed, wait_timeout, created, joining, counted, subscribed, waiting,
  Caller, idle, cancelled, looking, missing, direct, with_task, done, State, Service, update,
  new_waiter, drop_waiter, sweep_entry,
}

-- The waiters are still to be notified, or will never be.
abbrev pub IsBefore : Stage → Type 0
IsBefore fetching = Unit
IsBefore (published p) = Unit
IsBefore (aborted none) = Unit
IsBefore _ = ⊥

-- A caller that has been woken finds a result; one that waits unwoken will be woken.
abbrev pub IsReady : Phase → Bool → Stage → Type 0
IsReady phase true stage = IsSome (result_of stage)
IsReady waiting false stage = IsBefore stage
IsReady created false stage = Unit
IsReady joining false stage = Unit
IsReady counted false stage = Unit
IsReady subscribed false stage = Unit

abbrev pub given : Published → Result WaitError FetchResult
given (ok hit) = ok (record { mime_type = hit.mime_type; bytes = hit.bytes; from_cache = false })
given (err message) = err (fetch_failed message)

-- A caller is given what its task has published, or it has run out of time.
abbrev pub IsDelivered : Service → Stage → Result WaitError FetchResult → Type 0
IsDelivered svc stage r =
    ((svc.enable_background_bridge ≡ true) × (r ≡ err wait_timeout))
    ⊎ ((p : Published) × (result_of stage ≡ some p) × (r ≡ given p))

abbrev pub IsCaller : Service → (ℕ → FetchTask) → ℕ → Caller → Type 0
IsCaller svc tasks made (with_task phase url t w) =
    (t < made) × ((tasks t).url ≡ url) × IsReady phase w (tasks t).stage
IsCaller svc tasks made (done url (some t) r) =
    (t < made) × ((tasks t).url ≡ url) × IsDelivered svc (tasks t).stage r
IsCaller svc tasks made (done url none r) = Unit
IsCaller svc tasks made idle = Unit
IsCaller svc tasks made cancelled = Unit
IsCaller svc tasks made (looking url) = Unit
IsCaller svc tasks made (missing url) = Unit
IsCaller svc tasks made (direct url) = Unit

-- The map leads from a URL to tasks that fetch it.
abbrev pub AreListed : (ℕ → FetchTask) → ℕ → List (Text × ℕ) → Type 0
AreListed tasks made [] = Unit
AreListed tasks made ((url, t) ∷ rest) =
    (t < made) × ((tasks t).url ≡ url) × AreListed tasks made rest

pub record IsLinked (svc : Service) (s : State) : Type 0 where
  pub callers_ok : (i : ℕ) → IsCaller svc s.tasks s.made (s.callers i)
  pub listed : AreListed s.tasks s.made s.inflight

-- What a task may become without its callers noticing.
pub record Grows (a b : FetchTask) : Type 0 where
  pub same_url : b.url ≡ a.url
  pub still_before : IsBefore a.stage → IsBefore b.stage
  pub same_result : (p : Published) → result_of a.stage ≡ some p → result_of b.stage ≡ some p

pub Grows-refl : (a : FetchTask) → Grows a a
Grows-refl a = record { same_url = refl; still_before = λ h. h; same_result = λ p h. h }

pub IsSome-Grows :
    {a b : FetchTask} → Grows a b → IsSome (result_of a.stage) → IsSome (result_of b.stage)
IsSome-Grows {a} {b} g h = elim (Option-cases (result_of a.stage)) [
  | inl e ↦ absurd (rw e at h)
  | inr (p, e) ↦ rw (g.same_result p e) tt
]

pub IsReady-Grows :
    (phase : Phase) (w : Bool) {a b : FetchTask}
    → Grows a b
    → IsReady phase w a.stage
    → IsReady phase w b.stage
IsReady-Grows phase true g h = IsSome-Grows g h
IsReady-Grows waiting false g h = g.still_before h
IsReady-Grows created false g h = tt
IsReady-Grows joining false g h = tt
IsReady-Grows counted false g h = tt
IsReady-Grows subscribed false g h = tt

pub IsDelivered-Grows :
    (svc : Service) {a b : FetchTask} (r : Result WaitError FetchResult)
    → Grows a b
    → IsDelivered svc a.stage r
    → IsDelivered svc b.stage r
IsDelivered-Grows svc r g (inl late) = inl late
IsDelivered-Grows svc r g (inr (p, e, same)) = inr (p, g.same_result p e, same)

module _ (svc : Service) {tasks tasks' : ℕ → FetchTask} {made made' : ℕ} where
  pub IsCaller-Grows :
      ((t : ℕ) → t < made → Grows (tasks t) (tasks' t))
      → made ≤ made'
      → (c : Caller) → IsCaller svc tasks made c
      → IsCaller svc tasks' made' c
  IsCaller-Grows grow le (with_task phase url t w) (lt, same, ready) =
      (omega (arith, lt, le), (grow t lt).same_url ∙ same, IsReady-Grows phase w (grow t lt) ready)
  IsCaller-Grows grow le (done url (some t) r) (lt, same, given_r) = (
    omega (arith, lt, le),
    (grow t lt).same_url ∙ same,
    IsDelivered-Grows svc r (grow t lt) given_r,
  )
  IsCaller-Grows grow le (done url none r) h = tt
  IsCaller-Grows grow le idle h = tt
  IsCaller-Grows grow le cancelled h = tt
  IsCaller-Grows grow le (looking url) h = tt
  IsCaller-Grows grow le (missing url) h = tt
  IsCaller-Grows grow le (direct url) h = tt

  pub AreListed-Grows :
      ((t : ℕ) → t < made → Grows (tasks t) (tasks' t))
      → made ≤ made'
      → (l : List (Text × ℕ)) → AreListed tasks made l
      → AreListed tasks' made' l
  AreListed-Grows grow le [] h = tt
  AreListed-Grows grow le ((url, t) ∷ l) (lt, same, rest) =
      (omega (arith, lt, le), (grow t lt).same_url ∙ same, AreListed-Grows grow le l rest)

pub eq_of : (i j : ℕ) → (i == j) ≡ true → i ≡ j
eq_of i j h = ground (arith, h)

pub update-Grows :
    (tasks : ℕ → FetchTask) (t : ℕ) (b : FetchTask)
    → Grows (tasks t) b
    → (k : ℕ) → Grows (tasks k) (update tasks t b k)
update-Grows tasks t b g k =
    if_cases (Grows (tasks k)) (t == k) (λ e. rw (sym (eq_of t k e)) g) (λ _. Grows-refl (tasks k))

pub update_self {ℓ} : {A : Type ℓ} (f : ℕ → A) (i : ℕ) (a : A) → update f i a i ≡ a
update_self f i a = let same : (i == i) ≡ true = ground arith in rw same

pub some_inj {ℓ} : {A : Type ℓ} {a b : A} → some a ≡ some b → a ≡ b
some_inj h = cc

pub lookup-AreListed :
    (tasks : ℕ → FetchTask) (made : ℕ) (l : List (Text × ℕ)) (url : Text) (t : ℕ)
    → AreListed tasks made l
    → lookup url l ≡ some t
    → (t < made) × ((tasks t).url ≡ url)
unfolding lookup
lookup-AreListed tasks made [] url t h e = cc
lookup-AreListed tasks made ((v, k) ∷ l) url t (lt, same, rest) e =
    elim (Bool-cases (text_eq v url)) [
      | inl found ↦
          let here : k ≡ t = some_inj (rw found at e) in
          (rw (sym here) lt, ap (λ j. (tasks j).url) (sym here) ∙ same ∙ text_eq→eq v url found)
      | inr other ↦ lookup-AreListed tasks made l url t rest (rw other at e)
    ]

pub without-AreListed :
    (tasks : ℕ → FetchTask) (made : ℕ) (url : Text) (l : List (Text × ℕ))
    → AreListed tasks made l
    → AreListed tasks made (without url l)
unfolding without
without-AreListed tasks made url [] h = tt
without-AreListed tasks made url ((v, k) ∷ l) (lt, same, rest) =
    if_cases (AreListed tasks made) (text_eq v url) (λ _. without-AreListed tasks made url l rest)
      (λ _. (lt, same, without-AreListed tasks made url l rest))

pub sweep_entry-AreListed :
    (tasks : ℕ → FetchTask) (made t : ℕ) (o : Option ℕ) (url : Text) (l : List (Text × ℕ))
    → AreListed tasks made l
    → AreListed tasks made (sweep_entry t o url l)
unfolding sweep_entry
sweep_entry-AreListed tasks made t none url l h = h
sweep_entry-AreListed tasks made t (some k) url l h =
    if_cases (AreListed tasks made) (k == t) (λ _. without-AreListed tasks made url l h) (λ _. h)

pub drop_waiter-Grows : (svc : Service) (task : FetchTask) → Grows task (drop_waiter svc task)
unfolding drop_waiter
drop_waiter-Grows svc task =
    if_cases (Grows task) _
      (λ _. record { same_url = refl; still_before = λ h. h; same_result = λ p h. h })
      (λ _. record { same_url = refl; still_before = λ h. h; same_result = λ p h. h })

pub new_waiter-Grows : (task : FetchTask) → Grows task (new_waiter task)
unfolding new_waiter
new_waiter-Grows task = record { same_url = refl; still_before = λ h. h; same_result = λ p h. h }

pub stage_Grows :
    (a : FetchTask) (old new : Stage)
    → a.stage ≡ old
    → (IsBefore old → IsBefore new)
    → ((p : Published) → result_of old ≡ some p → result_of new ≡ some p)
    → Grows a (record a { stage = new })
stage_Grows a old new e before same = record {
  same_url = refl;
  still_before = λ h. before (rw e at h);
  same_result = λ p h. same p (rw e at h);
}

pub none-IsBefore : (stage : Stage) → result_of stage ≡ none → IsBefore stage
none-IsBefore fetching e = tt
none-IsBefore (aborted none) e = tt
none-IsBefore (aborted (some p)) e = cc
none-IsBefore (published p) e = cc
none-IsBefore (notified p) e = cc
none-IsBefore (unlisted p) e = cc
none-IsBefore (stored p) e = cc

-- Of a task that the callers wait for, or another one, by the test; `n` has a result.
pub woken-IsReady :
    (a n : FetchTask) (phase : Phase) (b w : Bool)
    → IsSome (result_of n.stage)
    → IsReady phase w a.stage
    → IsReady phase (w || b) (if b then n else a).stage
woken-IsReady a n phase true true some_n h = some_n
woken-IsReady a n phase true false some_n h = some_n
woken-IsReady a n phase false true some_n h = h
woken-IsReady a n phase false false some_n h = h

pub unnoticed :
    (a n : FetchTask) (b : Bool) (phase : Phase) (w : Bool)
    → IsSome (result_of n.stage)
    → IsReady phase w a.stage
    → (IsReady phase false a.stage → IsReady phase false n.stage)
    → IsReady phase w (if b then n else a).stage
unnoticed a n true phase true some_n h unwoken = some_n
unnoticed a n true phase false some_n h unwoken = unwoken h
unnoticed a n false phase w some_n h unwoken = h

pub AreListed-urls :
    (tasks tasks' : ℕ → FetchTask) (made : ℕ)
    → ((k : ℕ) → (tasks' k).url ≡ (tasks k).url)
    → (l : List (Text × ℕ)) → AreListed tasks made l
    → AreListed tasks' made l
AreListed-urls tasks tasks' made same [] h = tt
AreListed-urls tasks tasks' made same ((url, t) ∷ l) (lt, e, rest) =
    (lt, same t ∙ e, AreListed-urls tasks tasks' made same l rest)
