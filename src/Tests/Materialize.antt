-- ===== src/Tests/Materialize.antt =====
-- rust-sync-proxy/src/request_materialize.rs on a small input.
use gemini_worker_go.Prelude.{◌≡◌, refl, List, [], ◌∷◌, ok, Result, true}
use gemini_worker_go.Text.{Text, codes, text_eq}
use gemini_worker_go.Files.{WriteOutcome, written}
use gemini_worker_go.Json.{Value, obj, arr, str, cons, nil, end, field}
use gemini_worker_go.Blob.{BlobRuntime, BlobHandle, shared, store_external_shared_bytes}
use gemini_worker_go.Cache.{FetchResult}
use gemini_worker_go.ImageIo.{FetchError}
use gemini_worker_go.Request.Scan.{RequestImageRef, scan_request_image_urls}
use gemini_worker_go.Materialize.{
  cached, MaterializedRequestImages, materialize_request_images_with_services,
}
use gemini_worker_go.Materialize.Order.{AreFor, materialize_request_images_with_services-AreFor}

abbrev image_of : Text → Value
image_of url = obj (field (codes "inlineData") (obj (field (codes "data") (str url) end)) end)

-- The same URL twice.
abbrev request : Value
request = arr (cons (image_of (codes "http://x")) (cons (image_of (codes "http://x")) nil))

abbrev from_cache : Text → Result FetchError FetchResult
from_cache url =
    ok (record { mime_type = codes "image/gif"; bytes = 1 ∷ 2 ∷ []; from_cache = true })

abbrev writes : Text → WriteOutcome
writes url = written

abbrev in_order : List Text → List Text
in_order urls = urls

abbrev rt : BlobRuntime
rt = record {
  cfg = record {
    inline_max_bytes = 4;
    request_hot_budget_bytes = 8;
    global_hot_budget_bytes = 6;
    spill_dir = codes "/tmp";
  };
  next_id = 1;
  global_hot_bytes = 0;
  spill_count = 0;
  spill_bytes_total = 0;
  removed = [];
  files = [];
}

abbrev blob : BlobHandle
blob = record {
  id = 1;
  meta = record { mime_type = codes "image/gif"; size_bytes = 2 };
  storage = shared (1 ∷ 2 ∷ []);
}

abbrev materialized : MaterializedRequestImages
materialized = record {
  request = request;
  replacements =
      record { json_pointer = codes "/0/inlineData"; mime_type = codes "image/gif"; blob = blob }
      ∷ record { json_pointer = codes "/1/inlineData"; mime_type = codes "image/gif"; blob = blob }
      ∷ [];
}

one_fetch_for_two_places :
    (materialize_request_images_with_services (cached from_cache) writes in_order request rt).0
    ≡ ok materialized
unfolding materialize_request_images_with_services text_eq store_external_shared_bytes
one_fetch_for_two_places = refl

materialize_request_images_with_services-AreFor_example :
    (materialized.request ≡ request)
    × ((refs : List RequestImageRef) × (scan_request_image_urls request ≡ ok refs)
        × AreFor (cached from_cache) refs materialized.replacements)
materialize_request_images_with_services-AreFor_example =
    materialize_request_images_with_services-AreFor (cached from_cache) writes in_order request rt
      materialized one_fetch_for_two_places
