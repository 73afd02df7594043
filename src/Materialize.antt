-- ===== src/Materialize.antt =====
-- rust-sync-proxy/src/request_materialize.rs: every distinct image URL of a request is fetched once,
-- by tasks that finish in any order, and each place that names it gets the blob. A task stores its
-- blob when it finishes; the first error ends the run. The timings that are logged are left out.
pub mod Order
use gemini_worker_go.Prelude.{
  Bool, true, false, Option, none, some, List, [], ◌∷◌, Result, ok, err, ◌>>=◌, if◌then◌else◌,
}
use gemini_worker_go.Text.{Text, one_of}
use gemini_worker_go.Files.{IoError, WriteOutcome}
use gemini_worker_go.Json.{Value}
use gemini_worker_go.Blob.{BlobHandle, BlobRuntime, store_shared_bytes, store_external_shared_bytes}
use gemini_worker_go.Cache.{FetchResult}
use gemini_worker_go.Cache.Lru.{lookup}
use gemini_worker_go.ImageIo.{FetchError, FetchedInlineData}
use gemini_worker_go.Request.Scan.{RequestImageRef, ScanError, scan_request_image_urls}
use gemini_worker_go.Request.Encode.{RequestReplacement}

pub record FetchedBlob : Type 0 where
  pub mime_type : Text
  pub blob : BlobHandle

pub record MaterializedRequestImages : Type 0 where
  pub request : Value
  pub replacements : List RequestReplacement

pub data MaterializeError : Type 0 where
  not_scanned : ScanError → MaterializeError
  not_fetched : FetchError → MaterializeError
  not_stored : IoError → MaterializeError
  missing : Text → MaterializeError

-- With a fetch service, or with a fetch of its own, which may be followed by the WebP conversion.
pub data Services : Type 0 where
  cached : (Text → Result FetchError FetchResult) → Services
  direct :
      (Text → Result FetchError FetchedInlineData)
      → Bool
      → (FetchedInlineData → FetchedInlineData)
      → Services

unfoldable pub obtain : Services → Text → Result FetchError FetchResult
obtain (cached fetch) url = fetch url
obtain (direct fetch enable_webp_optimization convert) url = fetch url >>= (λ f.
    let g = if enable_webp_optimization then convert f else f in
    ok (record { mime_type = g.mime_type; bytes = g.bytes; from_cache = false }))

abbrev pub with_mime :
    Text
    → Result IoError BlobHandle × BlobRuntime
    → Result MaterializeError FetchedBlob × BlobRuntime
with_mime mime_type (ok blob, rt) = (ok (record { mime_type = mime_type; blob = blob }), rt)
with_mime mime_type (err e, rt) = (err (not_stored e), rt)

unfoldable pub store_fetched :
    WriteOutcome
    → Result FetchError FetchResult
    → BlobRuntime
    → Result MaterializeError FetchedBlob × BlobRuntime
store_fetched o (err e) rt = (err (not_fetched e), rt)
store_fetched o (ok f) rt =
    let (blob, rt') = store_external_shared_bytes f.bytes f.mime_type rt in
    if f.from_cache
    then (ok (record { mime_type = f.mime_type; blob = blob }), rt')
    else with_mime f.mime_type (store_shared_bytes o f.bytes f.mime_type rt)

unfoldable pub fetch_request_image :
    Services → WriteOutcome → Text → BlobRuntime → Result MaterializeError FetchedBlob × BlobRuntime
unfolding store_fetched obtain
fetch_request_image services o url rt = store_fetched o (obtain services url) rt

unfoldable pub unique_urls : List RequestImageRef → List Text → List Text
unfolding one_of
unique_urls [] seen = []
unique_urls (r ∷ rs) seen =
    let old = unique_urls rs seen in
    let new = unique_urls rs (r.url ∷ seen) in if one_of r.url seen then old else r.url ∷ new

abbrev pub FetchedByUrl : Type 0
FetchedByUrl = List (Text × FetchedBlob)

-- One result of `join_next`, and what is done with the others.
abbrev pub joined :
    (FetchedBlob → BlobRuntime → Result MaterializeError FetchedByUrl × BlobRuntime)
    → Result MaterializeError FetchedBlob × BlobRuntime
    → Result MaterializeError FetchedByUrl × BlobRuntime
joined others (err e, rt) = (err e, rt)
joined others (ok f, rt) = others f rt

-- The loop over `join_next`, for tasks that finish in the order of the list.
unfoldable pub join_all :
    Services
    → (Text → WriteOutcome)
    → List Text
    → FetchedByUrl
    → BlobRuntime
    → Result MaterializeError FetchedByUrl × BlobRuntime
unfolding fetch_request_image
join_all services writes [] fetched rt = (ok fetched, rt)
join_all services writes (url ∷ urls) fetched rt =
    joined (λ f rt'. join_all services writes urls ((url, f) ∷ fetched) rt')
      (fetch_request_image services (writes url) url rt)

unfoldable pub replacement_of :
    RequestImageRef → Option FetchedBlob → Result MaterializeError RequestReplacement
replacement_of image_ref none = err (missing image_ref.url)
replacement_of image_ref (some fetched) = ok (record {
  json_pointer = image_ref.json_pointer;
  mime_type = fetched.mime_type;
  blob = fetched.blob;
})

unfoldable pub replacements_of :
    List RequestImageRef → FetchedByUrl → Result MaterializeError (List RequestReplacement)
unfolding replacement_of lookup
replacements_of [] fetched = ok []
replacements_of (image_ref ∷ refs) fetched =
    replacement_of image_ref (lookup image_ref.url fetched)
    >>= (λ r. replacements_of refs fetched >>= (λ rs. ok (r ∷ rs)))

abbrev pub collect :
    Value
    → List RequestImageRef
    → Result MaterializeError FetchedByUrl × BlobRuntime
    → Result MaterializeError MaterializedRequestImages × BlobRuntime
collect request refs (r, rt) = (
  r >>= (λ fetched.
      replacements_of refs fetched
      >>= (λ rs. ok (record { request = request; replacements = rs }))),
  rt,
)

abbrev pub fetch_refs :
    Services
    → (Text → WriteOutcome)
    → (List Text → List Text)
    → Value
    → BlobRuntime
    → Result ScanError (List RequestImageRef)
    → Result MaterializeError MaterializedRequestImages × BlobRuntime
fetch_refs services writes finish request rt (err e) = (err (not_scanned e), rt)
fetch_refs services writes finish request rt (ok refs) =
    collect request refs (join_all services writes (finish (unique_urls refs [])) [] rt)

-- `finish` is the order in which the tasks finish.
unfoldable pub materialize_request_images_with_services :
    Services
    → (Text → WriteOutcome)
    → (List Text → List Text)
    → Value
    → BlobRuntime
    → Result MaterializeError MaterializedRequestImages × BlobRuntime
unfolding join_all replacements_of unique_urls scan_request_image_urls
materialize_request_images_with_services services writes finish request rt =
    fetch_refs services writes finish request rt (scan_request_image_urls request)
