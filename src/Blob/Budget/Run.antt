-- ===== src/Blob/Budget/Run.antt =====
-- rust-sync-proxy/src/blob_runtime.rs: any sequence of stores and removals, from a new runtime.
use gemini_worker_go.Prelude.{
  ◌+◌, ◌<◌, ◌≡◌, refl, Bool, true, false, List, [], ◌∷◌, Result, ok, arith, u64_mod,
}
use gemini_worker_go.Text.{Text}
use gemini_worker_go.Files.{Bytes, Files, WriteOutcome, IoError}
use gemini_worker_go.Blob.{
  BlobRuntime, BlobRuntimeConfig, BlobHandle, StreamEvent, new, store_bytes, store_shared_bytes,
  store_external_shared_bytes, store_stream, remove, contains,
}
use gemini_worker_go.Blob.Budget.{
  IsAccounted, HaveIds, HaveIds-mono, IsStore, with_result, IsStore-IsAccounted,
}
use gemini_worker_go.Blob.Budget.Store.{
  store_bytes-IsStore, store_shared_bytes-IsStore, store_external_shared_bytes-IsStore,
  store_stream-IsStore,
}
use gemini_worker_go.Blob.Budget.Remove.{
  Has, HaveIds-Has, without, remove-frame, remove-IsAccounted,
}

-- The runtimes that calls lead to, with the handles that are in use and those that were removed before.
-- The ids do not run out.
pub data Reach (cfg : BlobRuntimeConfig) (fs : Files)
    : BlobRuntime → List BlobHandle → List BlobHandle → Type 0 where
  start : Reach cfg fs (new cfg fs) [] []
  bytes_stored :
      {rt : BlobRuntime} {live gone : List BlobHandle} (o : WriteOutcome) (bytes : Bytes)
      (mime_type : Text)
      → rt.next_id + 1 < u64_mod
      → Reach cfg fs rt live gone
      → Reach cfg fs
          (store_bytes o bytes mime_type rt).1
          (with_result (store_bytes o bytes mime_type rt).0 live)
          gone
  shared_stored :
      {rt : BlobRuntime} {live gone : List BlobHandle} (o : WriteOutcome) (bytes : Bytes)
      (mime_type : Text)
      → rt.next_id + 1 < u64_mod
      → Reach cfg fs rt live gone
      → Reach cfg fs
          (store_shared_bytes o bytes mime_type rt).1
          (with_result (store_shared_bytes o bytes mime_type rt).0 live)
          gone
  external_stored :
      {rt : BlobRuntime} {live gone : List BlobHandle} (bytes : Bytes) (mime_type : Text)
      → rt.next_id + 1 < u64_mod
      → Reach cfg fs rt live gone
      → Reach cfg fs
          (store_external_shared_bytes bytes mime_type rt).1
          ((store_external_shared_bytes bytes mime_type rt).0 ∷ live)
          gone
  stream_stored :
      {rt : BlobRuntime} {live gone : List BlobHandle} (evs : List StreamEvent) (o : WriteOutcome)
      (mime_type : Text)
      → rt.next_id + 1 < u64_mod
      → Reach cfg fs rt live gone
      → Reach cfg fs
          (store_stream evs o mime_type rt).1
          (with_result (store_stream evs o mime_type rt).0 live)
          gone
  was_removed :
      {rt : BlobRuntime} {live gone : List BlobHandle} (allowed : Bool) (h : BlobHandle)
      → Has h live
      → Reach cfg fs rt live gone
      → Reach cfg fs (remove allowed h rt).1 (without h live) (h ∷ gone)
  removed_again :
      {rt : BlobRuntime} {live gone : List BlobHandle} (allowed : Bool) (h : BlobHandle)
      → Has h gone
      → Reach cfg fs rt live gone
      → Reach cfg fs (remove allowed h rt).1 live gone

new-IsAccounted :
    (cfg : BlobRuntimeConfig) (fs : Files)
    → cfg.global_hot_budget_bytes < u64_mod
    → IsAccounted (new cfg fs) []
unfolding new
new-IsAccounted cfg fs h = ground arith

-- The flags of the handles that were removed are set.
abbrev AreFlagged : BlobRuntime → List BlobHandle → Type 0
AreFlagged rt = HaveIds (λ i. contains rt.removed i ≡ true)

store-AreFlagged :
    (rt rt' : BlobRuntime) (r : Result IoError BlobHandle) (gone : List BlobHandle)
    → IsStore rt rt' r
    → AreFlagged rt gone
    → AreFlagged rt' gone
store-AreFlagged rt rt' r gone s =
    HaveIds-mono (λ i. contains rt.removed i ≡ true) _ gone (λ i p. rw s.removed p)

remove-AreFlagged :
    (allowed : Bool) (h : BlobHandle) (rt : BlobRuntime) (gone : List BlobHandle)
    → contains rt.removed h.id ≡ false
    → AreFlagged rt gone
    → AreFlagged (remove allowed h rt).1 (h ∷ gone)
unfolding contains
remove-AreFlagged allowed h rt gone unset flagged =
    let (_, _, flags) = remove-frame allowed h rt unset in
    (
      rw flags (ground arith),
      HaveIds-mono (λ i. contains rt.removed i ≡ true) _ gone (λ i p. rw flags (ground (arith, p)))
          flagged,
    )

remove_flagged :
    (allowed : Bool) (h : BlobHandle) (rt : BlobRuntime)
    → contains rt.removed h.id ≡ true
    → (remove allowed h rt).1 ≡ rt
unfolding remove
remove_flagged allowed h rt flagged = rw flagged refl

abbrev Holds : BlobRuntime → List BlobHandle → List BlobHandle → Type 0
Holds rt live gone = IsAccounted rt live × AreFlagged rt gone

store-Holds :
    (rt rt' : BlobRuntime) (r : Result IoError BlobHandle) (live gone : List BlobHandle)
    → IsStore rt rt' r
    → Holds rt live gone
    → Holds rt' (with_result r live) gone
store-Holds rt rt' r live gone s (v, flagged) =
    (IsStore-IsAccounted rt rt' r live s v, store-AreFlagged rt rt' r gone s flagged)

Reach-Holds :
    {cfg : BlobRuntimeConfig} {fs : Files} {rt : BlobRuntime} {live gone : List BlobHandle}
    → cfg.global_hot_budget_bytes < u64_mod
    → Reach cfg fs rt live gone
    → Holds rt live gone
Reach-Holds {cfg} {fs} h start = (new-IsAccounted cfg fs h, tt)
Reach-Holds h (bytes_stored {rt} {live} {gone} o bytes mime_type room r) =
    store-Holds rt _ _ live gone (store_bytes-IsStore o bytes mime_type rt room) (Reach-Holds h r)
Reach-Holds h (shared_stored {rt} {live} {gone} o bytes mime_type room r) =
    store-Holds rt _ _ live gone (store_shared_bytes-IsStore o bytes mime_type rt room)
      (Reach-Holds h r)
Reach-Holds h (external_stored {rt} {live} {gone} bytes mime_type room r) =
    store-Holds rt _ (ok _) live gone (store_external_shared_bytes-IsStore bytes mime_type rt room)
      (Reach-Holds h r)
Reach-Holds h (stream_stored {rt} {live} {gone} evs o mime_type room r) =
    store-Holds rt _ _ live gone (store_stream-IsStore evs o mime_type rt room) (Reach-Holds h r)
Reach-Holds h (was_removed {rt} {live} {gone} allowed k m r) =
    let (v, flagged) = Reach-Holds h r in
    let unset = HaveIds-Has (λ i. contains rt.removed i ≡ false) k live m v.unflagged in
    (
      (remove-IsAccounted allowed k rt live v m).0,
      remove-AreFlagged allowed k rt gone unset flagged,
    )
Reach-Holds h (removed_again {rt} {live} {gone} allowed k m r) =
    let (v, flagged) = Reach-Holds h r in
    let set = HaveIds-Has (λ i. contains rt.removed i ≡ true) k gone m flagged in
    rw (remove_flagged allowed k rt set) (v, flagged)

-- Whatever is stored and removed in whatever order, with whatever failures of the file system, the
-- counter of hot bytes is the sum of the inline blobs in use and stays inside the global budget, if
-- the budget is below 2^64 and ids do not run out. The blobs that are removed are in use or were removed
-- before, any number of times.
pub Reach-IsAccounted :
    {cfg : BlobRuntimeConfig} {fs : Files} {rt : BlobRuntime} {live gone : List BlobHandle}
    → cfg.global_hot_budget_bytes < u64_mod
    → Reach cfg fs rt live gone
    → IsAccounted rt live
Reach-IsAccounted h r = (Reach-Holds h r).0
