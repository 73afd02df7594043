-- ===== src/Config/Budgets.antt =====
-- rust-sync-proxy/src/config.rs, `blob_budget_defaults_for_memory`.
use gemini_worker_go.Prelude.{ℕ, ◌≤◌, ◌*◌, arith}
use gemini_worker_go.Config.{BlobBudgetDefaults, blob_budget_defaults_for_memory}

-- Every budget is at most the other one's.
pub record IsWithin (a b : BlobBudgetDefaults) : Type 0 where
  pub inline_max : a.inline_max_bytes ≤ b.inline_max_bytes
  pub request : a.request_hot_budget_bytes ≤ b.request_hot_budget_bytes
  pub global : a.global_hot_budget_bytes ≤ b.global_hot_budget_bytes

-- More memory never means a smaller budget, and for any memory a blob's limit is at most a request's
-- budget, of which at least sixteen fit the global one.
blob_budget_defaults_for_memory_mono :
    (m n : ℕ)
    → m ≤ n
    → IsWithin (blob_budget_defaults_for_memory m) (blob_budget_defaults_for_memory n)
      × ((blob_budget_defaults_for_memory m).inline_max_bytes
          ≤ (blob_budget_defaults_for_memory m).request_hot_budget_bytes)
      × (16 * (blob_budget_defaults_for_memory m).request_hot_budget_bytes
          ≤ (blob_budget_defaults_for_memory m).global_hot_budget_bytes)
unfolding blob_budget_defaults_for_memory
blob_budget_defaults_for_memory_mono m n h = ground arith
