-- ===== src/Blob/Reserve.antt =====
-- rust-sync-proxy/src/blob_runtime.rs, `try_inline_reserve` and `release_inline_bytes` when many tasks
-- call them at once: each load, compare_exchange and fetch_sub is a step of its own, in any order.
use gemini_worker_go.Prelude.{
  ℕ, zero, suc, ◌+◌, ◌-◌, ◌%◌, ◌≤◌, ◌<◌, ◌≡◌, ◌≢◌, true, none, some, List, [], ◌∷◌, arith,
  get_elem?, set, u64_mod,
}
use gemini_worker_go.Blob.{BlobRuntimeConfig, may_inline, reserve_target}

-- Where a task stands: outside, at the head of the loop, between the load and the
-- compare_exchange, or behind a reservation that it was granted.
pub data Task : Type 0 where
  idle : Task
  wants : ℕ → Task
  loaded : ℕ → ℕ → Task
  holding : ℕ → Task

pub record Shared : Type 0 where
  pub counter : ℕ
  pub tasks : List Task

abbrev pub moved : Shared → ℕ → ℕ → Task → Shared
moved s i counter t = record { counter = counter; tasks = set s.tasks i t }

pub data Step (cfg : BlobRuntimeConfig) (s u : Shared) : Type 0 where
  begin :
      (i size : ℕ)
      → get_elem? s.tasks i ≡ some idle
      → may_inline cfg size ≡ true
      → u ≡ moved s i s.counter (wants size)
      → Step cfg s u
  load :
      (i size : ℕ)
      → get_elem? s.tasks i ≡ some (wants size)
      → u ≡ moved s i s.counter (loaded size s.counter)
      → Step cfg s u
  exchanged :
      (i size current next : ℕ)
      → get_elem? s.tasks i ≡ some (loaded size current)
      → reserve_target cfg current size ≡ some next
      → s.counter ≡ current
      → u ≡ moved s i next (holding size)
      → Step cfg s u
  retried :
      (i size current next : ℕ)
      → get_elem? s.tasks i ≡ some (loaded size current)
      → reserve_target cfg current size ≡ some next
      → s.counter ≢ current
      → u ≡ moved s i s.counter (wants size)
      → Step cfg s u
  refused :
      (i size current : ℕ)
      → get_elem? s.tasks i ≡ some (loaded size current)
      → reserve_target cfg current size ≡ none
      → u ≡ moved s i s.counter idle
      → Step cfg s u
  released :
      (i size : ℕ)
      → get_elem? s.tasks i ≡ some (holding size)
      → u ≡ moved s i ((s.counter + u64_mod - size) % u64_mod) idle
      → Step cfg s u

pub data Steps (cfg : BlobRuntimeConfig) (s : Shared) : Shared → Type 0 where
  no_steps : Steps cfg s s
  and_step : {t u : Shared} → Steps cfg s t → Step cfg t u → Steps cfg s u

abbrev pub held_by : Task → ℕ
held_by (holding size) = size
held_by _ = 0

abbrev pub held : List Task → ℕ
held [] = 0
held (t ∷ ts) = held_by t + held ts

held-set :
    (ts : List Task) (i : ℕ) (t t' : Task)
    → get_elem? ts i ≡ some t
    → held (set ts i t') + held_by t ≡ held ts + held_by t'
held-set [] i t t' h = cc
held-set (k ∷ ts) zero t t' h = ground arith
held-set (k ∷ ts) (suc i) t t' h = omega (arith, held-set ts i t t' h)

pub record IsExact (cfg : BlobRuntimeConfig) (s : Shared) : Type 0 where
  pub exact : s.counter ≡ held s.tasks
  pub within : s.counter ≤ cfg.global_hot_budget_bytes

reserve_target_lem :
    (cfg : BlobRuntimeConfig) (current size next : ℕ)
    → reserve_target cfg current size ≡ some next
    → (next ≡ current + size) × (next ≤ cfg.global_hot_budget_bytes)
unfolding reserve_target
reserve_target_lem cfg current size next h = ground arith

Step-IsExact :
    (cfg : BlobRuntimeConfig) (s u : Shared)
    → cfg.global_hot_budget_bytes < u64_mod
    → Step cfg s u
    → IsExact cfg s
    → IsExact cfg u
Step-IsExact cfg s u b (begin i size at _ e) v =
    rw e (omega (arith, v.exact, v.within, held-set s.tasks i idle (wants size) at))
Step-IsExact cfg s u b (load i size at e) v =
    rw e
      (omega (arith, v.exact, v.within, held-set s.tasks i (wants size) (loaded size s.counter) at))
Step-IsExact cfg s u b (exchanged i size current next at target same e) v = rw e (
    ground (
      arith,
      v.exact,
      v.within,
      held-set s.tasks i (loaded size current) (holding size) at,
      reserve_target_lem cfg current size next target,
    ))
Step-IsExact cfg s u b (retried i size current next at _ _ e) v =
    rw e
      (omega (arith, v.exact, v.within, held-set s.tasks i (loaded size current) (wants size) at))
Step-IsExact cfg s u b (refused i size current at _ e) v =
    rw e (omega (arith, v.exact, v.within, held-set s.tasks i (loaded size current) idle at))
Step-IsExact cfg s u b (released i size at e) v =
    rw e (omega (arith, v.exact, v.within, held-set s.tasks i (holding size) idle at))

-- In every interleaving, no reservation is lost or counted twice: the counter is the sum of what the
-- tasks hold, and stays inside the global budget, if this holds at first and the budget is below
-- 2^64.
pub Steps-IsExact :
    (cfg : BlobRuntimeConfig) {s u : Shared}
    → cfg.global_hot_budget_bytes < u64_mod
    → IsExact cfg s
    → Steps cfg s u
    → IsExact cfg u
Steps-IsExact cfg b v no_steps = v
Steps-IsExact cfg b v (and_step r st) = Step-IsExact cfg _ _ b st (Steps-IsExact cfg b v r)
