-- ===== src/Blob/Budget.antt =====
-- rust-sync-proxy/src/blob_runtime.rs, `global_hot_bytes`: the invariant that ties the counter to
-- the inline blobs in use. The operations are in the children.
pub mod Store
pub mod Remove
pub mod Run
use gemini_worker_go.Prelude.{
  ℕ, ◌+◌, ◌≤◌, ◌<◌, ◌≡◌, ◌≢◌, refl, false, List, [], ◌∷◌, Result, ok, err, length, arith, u64_mod,
}
use gemini_worker_go.Text.{Text}
use gemini_worker_go.Files.{Bytes, WriteOutcome, IoError}
use gemini_worker_go.Blob.{
  BlobRuntime, BlobStorage, BlobHandle, inline, shared, spilled, store_with_id, contains,
  build_handle,
}

-- The bytes that a handle keeps in the budget.
abbrev pub hot : BlobStorage → ℕ
hot (inline b) = length b
hot (shared b) = 0
hot (spilled p) = 0

abbrev pub hot_bytes : List BlobHandle → ℕ
hot_bytes [] = 0
hot_bytes (h ∷ hs) = hot h.storage + hot_bytes hs

abbrev pub HaveIds : (ℕ → Type 0) → List BlobHandle → Type 0
HaveIds P [] = Unit
HaveIds P (h ∷ hs) = P h.id × HaveIds P hs

abbrev pub Below : ℕ → List ℕ → Type 0
Below n [] = Unit
Below n (i ∷ is) = (i < n) × Below n is

abbrev pub Distinct : List BlobHandle → Type 0
Distinct [] = Unit
Distinct (h ∷ hs) = HaveIds (λ i. i ≢ h.id) hs × Distinct hs

-- `live` are the handles that have been given out and not removed.
pub record IsAccounted (rt : BlobRuntime) (live : List BlobHandle) : Type 0 where
  pub exact : rt.global_hot_bytes ≡ hot_bytes live
  pub within : rt.global_hot_bytes ≤ rt.cfg.global_hot_budget_bytes
  pub is_u64 : rt.cfg.global_hot_budget_bytes < u64_mod
  pub unflagged : HaveIds (λ i. contains rt.removed i ≡ false) live
  pub issued : HaveIds (λ i. i < rt.next_id) live
  pub past : Below rt.next_id rt.removed
  pub distinct : Distinct live

-- The handles after an operation that may give out one more.
abbrev pub with_result : Result IoError BlobHandle → List BlobHandle → List BlobHandle
with_result (ok h) live = h ∷ live
with_result (err e) live = live

pub HaveIds-mono :
    (P Q : ℕ → Type 0) (live : List BlobHandle)
    → ((i : ℕ) → P i → Q i)
    → HaveIds P live
    → HaveIds Q live
HaveIds-mono P Q [] f h = tt
HaveIds-mono P Q (k ∷ live) f (p, h) = (f k.id p, HaveIds-mono P Q live f h)

Below-mono : (m n : ℕ) (is : List ℕ) → m ≤ n → Below m is → Below n is
Below-mono m n [] le h = tt
Below-mono m n (i ∷ is) le (p, h) = (omega arith, Below-mono m n is le h)

contains_past : (n : ℕ) (is : List ℕ) → Below n is → contains is n ≡ false
unfolding contains
contains_past n [] h = refl
contains_past n (i ∷ is) (p, h) = ground (arith, contains_past n is h)

-- What every way to store a blob has in common: one id is used up, the flags stay, and the counter
-- grows by what the new handle keeps, inside the budget.
pub record IsStore (rt rt' : BlobRuntime) (r : Result IoError BlobHandle) : Type 0 where
  pub cfg : rt'.cfg ≡ rt.cfg
  pub next_id : rt'.next_id ≡ rt.next_id + 1
  pub removed : rt'.removed ≡ rt.removed
  pub exact : rt'.global_hot_bytes ≡ rt.global_hot_bytes + hot_bytes (with_result r [])
  pub within :
      rt.global_hot_bytes ≤ rt.cfg.global_hot_budget_bytes
      → rt'.global_hot_bytes ≤ rt.cfg.global_hot_budget_bytes
  pub id : (h : BlobHandle) → r ≡ ok h → h.id ≡ rt.next_id

pub HaveIds-ne_of_issued :
    (n : ℕ) (live : List BlobHandle) → HaveIds (λ i. i < n) live → HaveIds (λ i. i ≢ n) live
HaveIds-ne_of_issued n live = HaveIds-mono (λ i. i < n) (λ i. i ≢ n) live (λ i p. omega arith)

pub IsStore-IsAccounted :
    (rt rt' : BlobRuntime) (r : Result IoError BlobHandle) (live : List BlobHandle)
    → IsStore rt rt' r
    → IsAccounted rt live
    → IsAccounted rt' (with_result r live)
IsStore-IsAccounted rt rt' (err e) live s v = record {
  exact = ground (arith, s.exact, v.exact);
  within = rw s.cfg (s.within v.within);
  is_u64 = rw s.cfg v.is_u64;
  unflagged =
      HaveIds-mono (λ i. contains rt.removed i ≡ false) _ live (λ i p. rw s.removed p) v.unflagged;
  issued = rw s.next_id (HaveIds-mono (λ i. i < rt.next_id) _ live (λ i p. omega arith) v.issued);
  past = rw (s.next_id, s.removed) (Below-mono rt.next_id _ rt.removed (omega arith) v.past);
  distinct = v.distinct;
}
IsStore-IsAccounted rt rt' (ok h) live s v =
    let same : h.id ≡ rt.next_id = s.id h refl in
    record {
      exact = ground (arith, s.exact, v.exact);
      within = rw s.cfg (s.within v.within);
      is_u64 = rw s.cfg v.is_u64;
      unflagged = (
        rw (s.removed, same) (contains_past rt.next_id rt.removed v.past),
        HaveIds-mono (λ i. contains rt.removed i ≡ false) _ live (λ i p. rw s.removed p)
            v.unflagged,
      );
      issued =
          rw (s.next_id, same)
            (omega arith, HaveIds-mono (λ i. i < rt.next_id) _ live (λ i p. omega arith) v.issued);
      past = rw (s.next_id, s.removed) (Below-mono rt.next_id _ rt.removed (omega arith) v.past);
      distinct = rw same (HaveIds-ne_of_issued rt.next_id live v.issued, v.distinct);
    }
