-- ===== src/Response/Materialize.antt =====
-- rust-sync-proxy/src/response_materialize.rs: the images of a response, found by their base64, encoded
-- anew or uploaded. A `HashMap` is an association list with distinct keys.
pub mod Optimize
pub mod Scan
pub mod Uploaded
use gemini_worker_go.Prelude.{
  ℕ, Bool, true, false, ◌&&◌, ◌||◌, not, Option, none, some, List, [], ◌∷◌, ◌++◌, Result, ok, err,
  ◌>>=◌, if◌then◌else◌, and_then,
}
use gemini_worker_go.Text.{Text, codes, text_eq, is_empty, trim, eq_ignore_ascii_case}
use gemini_worker_go.Files.{Bytes}
use gemini_worker_go.Json.{
  Value, Items, Fields, null, bool, num, str, arr, obj, nil, cons, end, field, as_str, as_object,
  get,
}
use gemini_worker_go.Config.{Config, resolved_external_image_proxy_prefix}
use gemini_worker_go.ImageIo.{OptimizedImage, maybe_compress_png_bytes_with_options}
use gemini_worker_go.Upload.{UploadError, UploadResult, wrap_external_proxy_url}
use gemini_worker_go.Request.Encode.Body.{update, on_object}
use gemini_worker_go.Response.{is_url_like}

-- `base64` is the field `data`.
pub record InlineDataEntry : Type 0 where
  pub mime_type : Text
  pub base64 : Text

pub record InlineDataReplacement : Type 0 where
  pub mime_type : Text
  pub base64 : Text

unfoldable pub entry_eq : InlineDataEntry → InlineDataEntry → Bool
unfolding text_eq
entry_eq a b = text_eq a.mime_type b.mime_type && text_eq a.base64 b.base64

unfoldable pub contains : List InlineDataEntry → InlineDataEntry → Bool
unfolding entry_eq
contains [] e = false
contains (x ∷ xs) e = entry_eq x e || contains xs e

-- The entry of an object that has `data` and `mimeType`, and that of a map with such an `inlineData`.
unfoldable pub entry_of : Fields → Option InlineDataEntry
unfolding get
entry_of inline_data = and_then (and_then (get (codes "data") inline_data) as_str) (λ text.
    and_then (and_then (get (codes "mimeType") inline_data) as_str)
      (λ mime_type. some (record { mime_type = mime_type; base64 = text })))

unfoldable pub entry_at : Fields → Option InlineDataEntry
unfolding get entry_of
entry_at map = and_then (and_then (get (codes "inlineData") map) as_object) entry_of

unfoldable pub push_entry : Option InlineDataEntry → List InlineDataEntry → List InlineDataEntry
unfolding is_url_like contains
push_entry none entries = entries
push_entry (some entry) entries =
    if is_url_like entry.base64
    then entries
    else if contains entries entry
    then entries
    else entries ++ entry ∷ []

unfoldable mutual
  unfolding push_entry entry_at

  pub walk : Value → List InlineDataEntry → List InlineDataEntry
  walk null entries = entries
  walk (bool b) entries = entries
  walk (num n) entries = entries
  walk (str s) entries = entries
  walk (arr xs) entries = walk_items xs entries
  walk (obj map) entries = walk_values map (push_entry (entry_at map) entries)

  pub walk_items : Items → List InlineDataEntry → List InlineDataEntry
  walk_items nil entries = entries
  walk_items (cons child more) entries = walk_items more (walk child entries)

  pub walk_values : Fields → List InlineDataEntry → List InlineDataEntry
  walk_values end entries = entries
  walk_values (field k child more) entries = walk_values more (walk child entries)

unfoldable pub scan_inline_data_base64_entries : Value → List InlineDataEntry
unfolding walk
scan_inline_data_base64_entries node = walk node []

-- `inline_data.insert(key, …)` in the `inlineData` of a map, for a key that is there.
abbrev pub insert : Text → Text → Fields → Fields
insert key text = update (codes "inlineData") (on_object (update key (λ _. str text)))

abbrev pub with_url : Option Text → Fields → Fields
with_url none map = map
with_url (some url) map = insert (codes "data") url map

-- `replacements` is `HashMap::get`. The children come before the entry here; a string that is put
-- into an entry has no children of its own, so the order is all one.
unfoldable mutual
  unfolding entry_at update

  pub patch_inline_data_urls : (InlineDataEntry → Option Text) → Value → Value
  patch_inline_data_urls replacements null = null
  patch_inline_data_urls replacements (bool b) = bool b
  patch_inline_data_urls replacements (num n) = num n
  patch_inline_data_urls replacements (str s) = str s
  patch_inline_data_urls replacements (arr xs) = arr (patch_items replacements xs)
  patch_inline_data_urls replacements (obj map) =
      obj (with_url (and_then (entry_at map) replacements) (patch_values replacements map))

  pub patch_items : (InlineDataEntry → Option Text) → Items → Items
  patch_items replacements nil = nil
  patch_items replacements (cons child more) =
      cons (patch_inline_data_urls replacements child) (patch_items replacements more)

  pub patch_values : (InlineDataEntry → Option Text) → Fields → Fields
  patch_values replacements end = end
  patch_values replacements (field k child more) =
      field k (patch_inline_data_urls replacements child) (patch_values replacements more)

unfoldable pub lookup_entry {ℓ} :
    {A : Type ℓ} → List (InlineDataEntry × A) → InlineDataEntry → Option A
unfolding entry_eq
lookup_entry [] e = none
lookup_entry ((k, a) ∷ rest) e = if entry_eq k e then some a else lookup_entry rest e

unfoldable pub should_proxy_standard_output_url : Config → Text → Bool
unfolding eq_ignore_ascii_case
should_proxy_standard_output_url config provider =
    config.proxy_standard_output_urls && not (eq_ignore_ascii_case provider (codes "r2"))

-- `byte_serialize` is that of the crate `url`.
unfoldable pub final_url : (Text → Text) → Config → UploadResult → Text
unfolding should_proxy_standard_output_url wrap_external_proxy_url trim
    resolved_external_image_proxy_prefix
final_url byte_serialize config upload_result =
    let external_proxy_prefix = resolved_external_image_proxy_prefix config in
    if not (should_proxy_standard_output_url config upload_result.provider)
      || is_empty (trim external_proxy_prefix)
    then upload_result.url
    else wrap_external_proxy_url byte_serialize external_proxy_prefix upload_result.url

abbrev pub uploaded :
    (UploadResult → Text)
    → InlineDataEntry
    → Result UploadError UploadResult
    → List (InlineDataEntry × Text)
    → List (InlineDataEntry × Text)
uploaded url_of entry (err e) rest = rest
uploaded url_of entry (ok r) rest = (entry, url_of r) ∷ rest

-- `upload` is `upload_inline_data_base64`.
unfoldable pub url_replacements :
    (InlineDataEntry → Result UploadError UploadResult)
    → (UploadResult → Text)
    → List InlineDataEntry
    → List (InlineDataEntry × Text)
url_replacements upload url_of [] = []
url_replacements upload url_of (entry ∷ entries) =
    uploaded url_of entry (upload entry) (url_replacements upload url_of entries)

unfoldable pub finalize_output_urls :
    (Text → Text) → (InlineDataEntry → Result UploadError UploadResult) → Config → Value → Value
unfolding scan_inline_data_base64_entries url_replacements lookup_entry patch_inline_data_urls
    final_url
finalize_output_urls byte_serialize upload config body =
    patch_inline_data_urls
      (lookup_entry (
        url_replacements upload (final_url byte_serialize config)
          (scan_inline_data_base64_entries body)))
      body
