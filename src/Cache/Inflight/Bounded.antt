-- ===== src/Cache/Inflight/Bounded.antt =====
-- rust-sync-proxy/src/cache.rs: the map of fetches in flight, its size and its keys.
use gemini_worker_go.Prelude.{
  ℕ, suc, ◌≡◌, ◌≤◌, refl, Bool-cases, ◌==◌, Option, none, some, Result, ok, err, List, [], ◌∷◌,
  arith, inl, inr, if_cases, leb, length,
}
use gemini_worker_go.Text.{Text, text_eq}
use gemini_worker_go.Cache.{FetchResult}
use gemini_worker_go.Cache.Lru.{lookup, without}
use gemini_worker_go.Cache.Inflight.{
  State, Service, WaitError, answered, sweep_entry, entered, enter_inflight,
}
use gemini_worker_go.Cache.Inflight.Run.{
  Step, Steps, no_steps, and_step, at_first, starts, looks, enters, fetches_directly, sets_handle,
  counts, subscribes, checks, wakes, times_out, cancels, cancels_waiter, publishes, notifies,
  unlists, stores, stops, sweeps,
}

abbrev pub Keys : Type 0
Keys = List (Text × ℕ)

-- Each URL stands in the map once.
abbrev pub HasDistinctUrls : Keys → Type 0
HasDistinctUrls [] = Unit
HasDistinctUrls ((url, t) ∷ rest) = (lookup url rest ≡ none) × HasDistinctUrls rest

abbrev pub IsBounded : Service → Keys → Type 0
IsBounded svc inflight = (length inflight ≤ svc.max_inflight) × HasDistinctUrls inflight

length-without : (url : Text) (l : Keys) → length (without url l) ≤ length l
unfolding without
length-without url [] = omega arith
length-without url ((v, k) ∷ l) =
    let rest = length-without url l in
    if_cases (λ (m : Keys). length m ≤ suc (length l)) (text_eq v url) (λ _. omega (arith, rest))
      (λ _. omega (arith, rest))

lookup-without-none :
    (u url : Text) (l : Keys) → lookup u l ≡ none → lookup u (without url l) ≡ none
unfolding lookup without
lookup-without-none u url [] e = refl
lookup-without-none u url ((v, k) ∷ l) e = elim (Bool-cases (text_eq v u)) [
  | inl found ↦ let bad : some k ≡ none = (rw found at e) in cc
  | inr other ↦
      let rest = lookup-without-none u url l (rw other at e) in
      if_cases (λ (m : Keys). lookup u m ≡ none) (text_eq v url) (λ _. rest) (λ _. rw other rest)
]

without-HasDistinctUrls :
    (url : Text) (l : Keys) → HasDistinctUrls l → HasDistinctUrls (without url l)
unfolding without
without-HasDistinctUrls url [] h = tt
without-HasDistinctUrls url ((v, k) ∷ l) (fresh, h) =
    let rest = without-HasDistinctUrls url l h in
    if_cases HasDistinctUrls (text_eq v url) (λ _. rest)
      (λ _. (lookup-without-none v url l fresh, rest))

without-IsBounded :
    (svc : Service) (url : Text) (l : Keys) → IsBounded svc l → IsBounded svc (without url l)
without-IsBounded svc url l (le, h) =
    (omega (arith, le, length-without url l), without-HasDistinctUrls url l h)

sweep_entry-IsBounded :
    (svc : Service) (t : ℕ) (o : Option ℕ) (url : Text) (l : Keys)
    → IsBounded svc l
    → IsBounded svc (sweep_entry t o url l)
unfolding sweep_entry
sweep_entry-IsBounded svc t none url l h = h
sweep_entry-IsBounded svc t (some k) url l h =
    if_cases (IsBounded svc) (k == t) (λ _. without-IsBounded svc url l h) (λ _. h)

answered-inflight :
    (svc : Service) (s : State) (i : ℕ) (url : Text) (t : ℕ)
    (r : Result WaitError (Option FetchResult)) (otherwise : State)
    → IsBounded svc s.inflight
    → IsBounded svc otherwise.inflight
    → IsBounded svc (answered svc s i url t r otherwise).inflight
answered-inflight svc s i url t (ok none) otherwise h o = o
answered-inflight svc s i url t (ok (some r)) otherwise h o = h
answered-inflight svc s i url t (err e) otherwise h o = h

entered-IsBounded :
    (svc : Service) (s : State) (i : ℕ) (url : Text) (o : Option ℕ)
    → lookup url s.inflight ≡ o
    → IsBounded svc s.inflight
    → IsBounded svc (entered svc s i url o).inflight
entered-IsBounded svc s i url (some t) e h = h
entered-IsBounded svc s i url none e (le, h) =
    if_cases (λ (u : State). IsBounded svc u.inflight) (leb svc.max_inflight (length s.inflight))
      (λ _. (le, h)) (λ full. (ground (arith, full), (e, h)))

Step-IsBounded :
    (svc : Service) (s u : State)
    → Step svc s u
    → IsBounded svc s.inflight
    → IsBounded svc u.inflight
unfolding enter_inflight
Step-IsBounded svc s u (starts i url at e) h = rw e h
Step-IsBounded svc s u (looks i url at e) h = rw e h
Step-IsBounded svc s u (enters i url at e) h = rw e (entered-IsBounded svc s i url _ refl h)
Step-IsBounded svc s u (fetches_directly i url r at e) h = rw e h
Step-IsBounded svc s u (sets_handle i url t at e) h = rw e h
Step-IsBounded svc s u (counts i url t at e) h = rw e h
Step-IsBounded svc s u (subscribes i url t at e) h = rw e h
Step-IsBounded svc s u (checks i url t w at e) h = rw e (answered-inflight svc s i url t _ _ h h)
Step-IsBounded svc s u (wakes i url t at e) h = rw e (answered-inflight svc s i url t _ _ h h)
Step-IsBounded svc s u (times_out i url t w on at e) h =
    rw e (answered-inflight svc s i url t _ _ h h)
Step-IsBounded svc s u (cancels i c e) h = rw e h
Step-IsBounded svc s u (cancels_waiter i phase url t w has at e) h = rw e h
Step-IsBounded svc s u (publishes t p lt at e) h = rw e h
Step-IsBounded svc s u (notifies t p at e) h = rw e h
Step-IsBounded svc s u (unlists t p at e) h =
    rw e (without-IsBounded svc (s.tasks t).url s.inflight h)
Step-IsBounded svc s u (stores t p at e) h = rw e h
Step-IsBounded svc s u (stops t o aborting awaits e) h = rw e h
Step-IsBounded svc s u (sweeps t sweeping e) h =
    rw e (sweep_entry-IsBounded svc t _ (s.tasks t).url s.inflight h)

-- In every state that steps lead to from the first one, the map of fetches in flight has at most
-- `max_inflight` entries and no URL twice.
pub inflight-IsBounded :
    (svc : Service) {s : State} → Steps svc at_first s → IsBounded svc s.inflight
inflight-IsBounded svc no_steps = (omega arith, tt)
inflight-IsBounded svc (and_step r st) = Step-IsBounded svc _ _ st (inflight-IsBounded svc r)
