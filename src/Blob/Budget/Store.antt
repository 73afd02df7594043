-- ===== src/Blob/Budget/Store.antt =====
-- rust-sync-proxy/src/blob_runtime.rs: the store operations and the account of hot bytes.
use gemini_worker_go.Prelude.{◌+◌, ◌<◌, refl, List, ok, arith, u64_mod}
use gemini_worker_go.Text.{Text}
use gemini_worker_go.Files.{Bytes, WriteOutcome}
use gemini_worker_go.Blob.{
  BlobRuntime, StreamEvent, store_bytes, store_shared_bytes, store_external_shared_bytes,
  store_stream,
}
use gemini_worker_go.Blob.Budget.{IsStore}

pub store_bytes-IsStore :
    (o : WriteOutcome) (bytes : Bytes) (mime_type : Text) (rt : BlobRuntime)
    → rt.next_id + 1 < u64_mod
    → IsStore rt (store_bytes o bytes mime_type rt).1 (store_bytes o bytes mime_type rt).0
unfolding store_bytes
store_bytes-IsStore o bytes mime_type rt h = record {
  cfg = ground arith;
  next_id = ground arith;
  removed = ground arith;
  exact = ground arith;
  within = λ p. ground arith;
  id = λ k e. ground arith;
}

pub store_shared_bytes-IsStore :
    (o : WriteOutcome) (bytes : Bytes) (mime_type : Text) (rt : BlobRuntime)
    → rt.next_id + 1 < u64_mod
    → IsStore rt
        (store_shared_bytes o bytes mime_type rt).1
        (store_shared_bytes o bytes mime_type rt).0
unfolding store_shared_bytes store_bytes
store_shared_bytes-IsStore o bytes mime_type rt h = store_bytes-IsStore o bytes mime_type rt h

pub store_external_shared_bytes-IsStore :
    (bytes : Bytes) (mime_type : Text) (rt : BlobRuntime)
    → rt.next_id + 1 < u64_mod
    → IsStore rt
        (store_external_shared_bytes bytes mime_type rt).1
        (ok (store_external_shared_bytes bytes mime_type rt).0)
unfolding store_external_shared_bytes
store_external_shared_bytes-IsStore bytes mime_type rt h = record {
  cfg = refl;
  next_id = ground arith;
  removed = refl;
  exact = omega arith;
  within = λ p. p;
  id = λ k e. ground arith;
}

pub store_stream-IsStore :
    (evs : List StreamEvent) (o : WriteOutcome) (mime_type : Text) (rt : BlobRuntime)
    → rt.next_id + 1 < u64_mod
    → IsStore rt (store_stream evs o mime_type rt).1 (store_stream evs o mime_type rt).0
unfolding store_stream
store_stream-IsStore evs o mime_type rt h = record {
  cfg = ground arith;
  next_id = ground arith;
  removed = ground arith;
  exact = ground arith;
  within = λ p. ground arith;
  id = λ k e. ground arith;
}
