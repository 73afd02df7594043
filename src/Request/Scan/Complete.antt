-- ===== src/Request/Scan/Complete.antt =====
-- rust-sync-proxy/src/request_scan.rs: the scan beside a list of all references.
use gemini_worker_go.Prelude.{
  ℕ, ◌+◌, ◌≤◌, ◌≡◌, ◌∙◌, sym, ap, Option, none, some, List, [], ◌∷◌, ◌++◌, Result, ok, err, ◌>>=◌,
  length, leb, arith, append_assoc, append-nil, length-append, if◌then◌else◌, Bool-cases, inl, inr,
}
use gemini_worker_go.Text.{Text, codes}
use gemini_worker_go.Text.Decimal.{decimal}
use gemini_worker_go.Json.{
  Value, Items, Fields, null, bool, num, str, arr, obj, nil, cons, end, field,
}
use gemini_worker_go.Request.Scan.{
  RequestImageRef, ScanError, too_many_inline_data_urls, max_inline_data_urls,
  escape_json_pointer_token, inline_data_url, push_match, child_path, walk, walk_items, walk_fields,
  scan_request_image_urls,
}

abbrev pub own_ref : Option Text → Text → List RequestImageRef
own_ref none path = []
own_ref (some url) path = record { json_pointer = path ++ codes "/inlineData"; url = url } ∷ []

-- All the image URLs below a node, an object's own before those of its fields.
unfoldable mutual
  pub refs : Value → Text → List RequestImageRef
  refs (obj map) path = own_ref (inline_data_url map) path ++ refs_fields map path
  refs (arr xs) path = refs_items xs 0 path
  refs null path = []
  refs (bool b) path = []
  refs (num n) path = []
  refs (str s) path = []

  pub refs_items : Items → ℕ → Text → List RequestImageRef
  refs_items nil index path = []
  refs_items (cons v vs) index path =
      refs v (child_path path (decimal index)) ++ refs_items vs (index + 1) path

  pub refs_fields : Fields → Text → List RequestImageRef
  refs_fields end path = []
  refs_fields (field k v fs) path =
      refs v (child_path path (escape_json_pointer_token k)) ++ refs_fields fs path

-- A list of matches, refused if it is too long.
abbrev pub limited : List RequestImageRef → Result ScanError (List RequestImageRef)
limited ms = if leb (length ms) max_inline_data_urls then ok ms else err too_many_inline_data_urls

limited-append :
    (ms new rest : List RequestImageRef)
    (f : List RequestImageRef → Result ScanError (List RequestImageRef))
    → (length (ms ++ new) ≤ max_inline_data_urls → f (ms ++ new) ≡ limited ((ms ++ new) ++ rest))
    → (limited (ms ++ new) >>= f) ≡ limited (ms ++ (new ++ rest))
limited-append ms new rest f h = elim (Bool-cases (leb (length (ms ++ new)) max_inline_data_urls)) [
  | inl few ↦ rw few (h (ground arith) ∙ ap limited (append_assoc ms new rest))
  | inr many ↦ rw many (
      sym (
        ground
          (arith, length-append ms (new ++ rest), length-append ms new, length-append new rest)))
]

limited-push_match :
    (o : Option Text) (path : Text) (ms : List RequestImageRef)
    → length ms ≤ max_inline_data_urls
    → push_match o path ms ≡ limited (ms ++ own_ref o path)
unfolding push_match
limited-push_match none path ms h = rw append-nil (ground arith)
limited-push_match (some url) path ms h = ground arith

mutual
  unfolding walk refs

  walk-refs :
      (v : Value) (path : Text) (ms : List RequestImageRef)
      → length ms ≤ max_inline_data_urls
      → walk v path ms ≡ limited (ms ++ refs v path)
  walk-refs (obj map) path ms h =
      ap (λ r. r >>= (λ (l : List RequestImageRef). walk_fields map path l))
        (limited-push_match (inline_data_url map) path ms h)
      ∙ limited-append ms _ _ _ (λ le. walk_fields-refs map path _ le)
  walk-refs (arr xs) path ms h = walk_items-refs xs 0 path ms h
  walk-refs null path ms h = rw append-nil (ground arith)
  walk-refs (bool b) path ms h = rw append-nil (ground arith)
  walk-refs (num n) path ms h = rw append-nil (ground arith)
  walk-refs (str s) path ms h = rw append-nil (ground arith)

  walk_items-refs :
      (xs : Items) (index : ℕ) (path : Text) (ms : List RequestImageRef)
      → length ms ≤ max_inline_data_urls
      → walk_items xs index path ms ≡ limited (ms ++ refs_items xs index path)
  walk_items-refs nil index path ms h = rw append-nil (ground arith)
  walk_items-refs (cons v vs) index path ms h =
      ap (λ r. r >>= (λ (l : List RequestImageRef). walk_items vs (index + 1) path l))
        (walk-refs v (child_path path (decimal index)) ms h)
      ∙ limited-append ms _ _ _ (λ le. walk_items-refs vs (index + 1) path _ le)

  walk_fields-refs :
      (fs : Fields) (path : Text) (ms : List RequestImageRef)
      → length ms ≤ max_inline_data_urls
      → walk_fields fs path ms ≡ limited (ms ++ refs_fields fs path)
  walk_fields-refs end path ms h = rw append-nil (ground arith)
  walk_fields-refs (field k v fs) path ms h =
      ap (λ r. r >>= (λ (l : List RequestImageRef). walk_fields fs path l))
        (walk-refs v (child_path path (escape_json_pointer_token k)) ms h)
      ∙ limited-append ms _ _ _ (λ le. walk_fields-refs fs path _ le)

-- The scan gives every image URL of the request in the order of the walk, if there are at most
-- seven, and refuses the request otherwise.
pub scan_request_image_urls-refs :
    (body : Value)
    → scan_request_image_urls body ≡ (
        if leb (length (refs body [])) max_inline_data_urls
        then ok (refs body [])
        else err too_many_inline_data_urls)
unfolding scan_request_image_urls
scan_request_image_urls-refs body = walk-refs body [] [] (omega arith)
