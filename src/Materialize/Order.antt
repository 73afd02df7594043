-- ===== src/Materialize/Order.antt =====
-- rust-sync-proxy/src/request_materialize.rs, for every order in which the tasks finish.
use gemini_worker_go.Prelude.{
  ◌≡◌, refl, sym, ap, ◌∙◌, Bool-cases, inl, inr, Option, none, some, List, [], ◌∷◌, Result, ok, err,
  >>=-eq-ok, length, arith,
}
use gemini_worker_go.Text.{Text, text_eq}
use gemini_worker_go.Text.Laws.{text_eq→eq}
use gemini_worker_go.Files.{IoError, WriteOutcome}
use gemini_worker_go.Json.{Value}
use gemini_worker_go.Blob.{BlobHandle, BlobRuntime, store_shared_bytes, store_external_shared_bytes}
use gemini_worker_go.Cache.{FetchResult}
use gemini_worker_go.Cache.Lru.{lookup}
use gemini_worker_go.ImageIo.{FetchError}
use gemini_worker_go.Request.Scan.{RequestImageRef, ScanError, scan_request_image_urls}
use gemini_worker_go.Request.Encode.{RequestReplacement}
use gemini_worker_go.Materialize.{
  FetchedBlob, MaterializedRequestImages, MaterializeError, Services, FetchedByUrl, obtain,
  with_mime, store_fetched, fetch_request_image, joined, join_all, replacement_of, replacements_of,
  fetch_refs, unique_urls, materialize_request_images_with_services,
}

-- The blob is labelled as what was obtained for the URL.
abbrev pub IsOf : Services → Text → FetchedBlob → Type 0
IsOf services url fb =
    (f : FetchResult) × (obtain services url ≡ ok f)
    × (fb.mime_type ≡ f.mime_type)
    × (fb.blob.meta.size_bytes ≡ length f.bytes)

abbrev AreOf : Services → FetchedByUrl → Type 0
AreOf services [] = Unit
AreOf services ((url, fb) ∷ l) = IsOf services url fb × AreOf services l

lookup-IsOf :
    (services : Services) (url : Text) (l : FetchedByUrl) (fb : FetchedBlob)
    → AreOf services l
    → lookup url l ≡ some fb
    → IsOf services url fb
unfolding lookup
lookup-IsOf services url [] fb h e = cc
lookup-IsOf services url ((j, x) ∷ l) fb (h, hs) e = elim (Bool-cases (text_eq j url)) [
  | inl same ↦
      let at : x ≡ fb = ground (arith, same, e) in
      let key : j ≡ url = text_eq→eq j url same in rw (sym at, sym key) h
  | inr other ↦ lookup-IsOf services url l fb hs (rw other at e)
]

shared_size :
    (o : WriteOutcome) (f : FetchResult) (rt : BlobRuntime) (blob : BlobHandle)
    → (store_shared_bytes o f.bytes f.mime_type rt).0 ≡ ok blob
    → blob.meta.size_bytes ≡ length f.bytes
unfolding store_shared_bytes
shared_size o f rt blob h = ground arith

with_mime-ok :
    (mime_type : Text) (p : Result IoError BlobHandle × BlobRuntime) (fb : FetchedBlob)
    → (with_mime mime_type p).0 ≡ ok fb
    → (fb.mime_type ≡ mime_type) × (p.0 ≡ ok fb.blob)
with_mime-ok mime_type (ok blob, rt) fb h = ground arith
with_mime-ok mime_type (err e, rt) fb h = cc

external_size :
    (f : FetchResult) (rt : BlobRuntime)
    → (store_external_shared_bytes f.bytes f.mime_type rt).0.meta.size_bytes ≡ length f.bytes
unfolding store_external_shared_bytes
external_size f rt = refl

store_fetched-IsOf :
    (o : WriteOutcome) (services : Services) (url : Text) (r : Result FetchError FetchResult)
    (rt : BlobRuntime) (fb : FetchedBlob)
    → obtain services url ≡ r
    → (store_fetched o r rt).0 ≡ ok fb
    → IsOf services url fb
unfolding store_fetched
store_fetched-IsOf o services url (err e) rt fb g h = cc
store_fetched-IsOf o services url (ok f) rt fb g h = elim (Bool-cases f.from_cache) [
  | inl hit ↦
      let same : record {
        mime_type = f.mime_type;
        blob = (store_external_shared_bytes f.bytes f.mime_type rt).0;
      }
          ≡ fb =
        cc (rw hit at h) in
      (
        f,
        g,
        sym (ap (λ (b : FetchedBlob). b.mime_type) same),
        sym (ap (λ (b : FetchedBlob). b.blob.meta.size_bytes) same) ∙ external_size f rt,
      )
  | inr miss ↦
      let (mime, stored) =
        with_mime-ok f.mime_type (store_shared_bytes o f.bytes f.mime_type rt) fb (rw miss at h) in
      (f, g, mime, shared_size o f rt fb.blob stored)
]

joined-ok :
    (others : FetchedBlob → BlobRuntime → Result MaterializeError FetchedByUrl × BlobRuntime)
    (p : Result MaterializeError FetchedBlob × BlobRuntime) (l : FetchedByUrl)
    → (joined others p).0 ≡ ok l
    → (f : FetchedBlob) × (p.0 ≡ ok f) × ((others f p.1).0 ≡ ok l)
joined-ok others (ok f, rt) l h = (f, refl, h)
joined-ok others (err e, rt) l h = cc

join_all-AreOf :
    (services : Services) (writes : Text → WriteOutcome) (urls : List Text)
    (fetched l : FetchedByUrl) (rt : BlobRuntime)
    → AreOf services fetched
    → (join_all services writes urls fetched rt).0 ≡ ok l
    → AreOf services l
unfolding join_all fetch_request_image
join_all-AreOf services writes [] fetched l rt h e = let same : fetched ≡ l = cc in rw (sym same) h
join_all-AreOf services writes (url ∷ urls) fetched l rt h e =
    let (fb, s, later) =
      joined-ok (λ f rt'. join_all services writes urls ((url, f) ∷ fetched) rt')
        (fetch_request_image services (writes url) url rt) l e in
    join_all-AreOf services writes urls ((url, fb) ∷ fetched) l
      (fetch_request_image services (writes url) url rt).1
      (store_fetched-IsOf (writes url) services url (obtain services url) rt fb refl s, h) later

-- Each replacement stands for the reference in its place: it has its pointer, and a blob that is
-- labelled with the MIME type and the length of what was obtained for its URL.
abbrev pub AreFor : Services → List RequestImageRef → List RequestReplacement → Type 0
AreFor services [] [] = Unit
AreFor services (r ∷ rs) (p ∷ ps) =
    ((p.json_pointer ≡ r.json_pointer)
      × IsOf services r.url (record { mime_type = p.mime_type; blob = p.blob }))
    × AreFor services rs ps
AreFor services _ _ = ⊥

replacement_of-IsOf :
    (services : Services) (r : RequestImageRef) (o : Option FetchedBlob) (p : RequestReplacement)
    → ((fb : FetchedBlob) → o ≡ some fb → IsOf services r.url fb)
    → replacement_of r o ≡ ok p
    → (p.json_pointer ≡ r.json_pointer)
      × IsOf services r.url (record { mime_type = p.mime_type; blob = p.blob })
unfolding replacement_of
replacement_of-IsOf services r none p h e = cc
replacement_of-IsOf services r (some fb) p h e =
    let same : record { json_pointer = r.json_pointer; mime_type = fb.mime_type; blob = fb.blob }
        ≡ p =
      cc in
    rw (sym same) (refl, h fb refl)

replacements_of-AreFor :
    (services : Services) (refs : List RequestImageRef) (l : FetchedByUrl)
    (ps : List RequestReplacement)
    → AreOf services l
    → replacements_of refs l ≡ ok ps
    → AreFor services refs ps
unfolding replacements_of
replacements_of-AreFor services [] l ps h e = let same : [] ≡ ps = cc in rw (sym same) tt
replacements_of-AreFor services (r ∷ refs) l ps h e =
    let (p, first, rest) = >>=-eq-ok (replacement_of r (lookup r.url l)) _ e in
    let (qs, later, last) = >>=-eq-ok (replacements_of refs l) _ rest in
    let same : p ∷ qs ≡ ps = cc in
    rw (sym same) (
      replacement_of-IsOf services r (lookup r.url l) p
          (λ fb s. lookup-IsOf services r.url l fb h s) first,
      replacements_of-AreFor services refs l qs h later,
    )

fetch_refs-AreFor :
    (services : Services) (writes : Text → WriteOutcome) (finish : List Text → List Text)
    (request : Value) (rt : BlobRuntime) (m : MaterializedRequestImages)
    (scanned : Result ScanError (List RequestImageRef))
    → (fetch_refs services writes finish request rt scanned).0 ≡ ok m
    → (m.request ≡ request)
      × ((refs : List RequestImageRef) × (scanned ≡ ok refs) × AreFor services refs m.replacements)
fetch_refs-AreFor services writes finish request rt m (err x) e = cc
fetch_refs-AreFor services writes finish request rt m (ok refs) e =
    let run = join_all services writes (finish (unique_urls refs [])) [] rt in
    let (l, joined, rest) = >>=-eq-ok run.0 _ e in
    let (ps, made, last) = >>=-eq-ok (replacements_of refs l) _ rest in
    let same : record { request = request; replacements = ps } ≡ m = cc in
    let of_refs =
      replacements_of-AreFor services refs l ps
        (join_all-AreOf services writes (finish (unique_urls refs [])) [] l rt tt joined) made in
    rw (sym same) (refl, (refs, refl, of_refs))

-- In whatever order the tasks finish, a request that is materialised is unchanged, was scanned without
-- an error, and has one replacement for each reference of the scan, in its order, with its pointer,
-- and with a blob labelled with the MIME type and length of what was obtained for its URL.
pub materialize_request_images_with_services-AreFor :
    (services : Services) (writes : Text → WriteOutcome) (finish : List Text → List Text)
    (request : Value) (rt : BlobRuntime) (m : MaterializedRequestImages)
    → (materialize_request_images_with_services services writes finish request rt).0 ≡ ok m
    → (m.request ≡ request)
      × ((refs : List RequestImageRef) × (scan_request_image_urls request ≡ ok refs)
          × AreFor services refs m.replacements)
unfolding materialize_request_images_with_services
materialize_request_images_with_services-AreFor services writes finish request rt m e =
    fetch_refs-AreFor services writes finish request rt m (scan_request_image_urls request) e
