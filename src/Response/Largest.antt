-- ===== src/Response/Largest.antt =====
-- rust-sync-proxy/src/response_rewrite.rs, `keep_largest_inline_image`: the two loops over the parts
-- of a candidate.
use gemini_worker_go.Prelude.{
  ℕ, ◌+◌, ◌≡◌, ◌≤◌, ◌<◌, ◌⊎◌, not, Option, some, List, [], ◌∷◌, ◌++◌, length, All, if◌then◌else◌,
}
use gemini_worker_go.Json.{Value}
use gemini_worker_go.Response.{size_of, best_of, is_inline_image}

-- The parts that hold no image.
abbrev pub others : List Value → List Value
others [] = []
others (part ∷ parts) = if not (is_inline_image part) then part ∷ others parts else others parts

-- The parts as those before one, it, and those after it.
pub record Split (parts : List Value) (smallest : ℕ) : Type 0 where
  pub before : List Value
  pub best : Value
  pub after : List Value
  pub same : parts ≡ before ++ best ∷ after
  pub beats : All (λ part. size_of part < size_of best) before
  pub holds : All (λ part. size_of part ≤ size_of best) after
  pub rated_more : smallest < size_of best

abbrev Best : List Value → ℕ → Option ℕ → ℕ → Type 0
Best parts index best_index best_size =
    ((best_of parts index best_index best_size ≡ best_index)
      × All (λ part. size_of part ≤ best_size) parts)
    ⊎ ((s : Split parts best_size) × (best_of parts index best_index best_size
          ≡ some (index + length s.before)))
