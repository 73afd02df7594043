-- ===== src/Tests/Response.antt =====
-- rust-sync-proxy/src/response_rewrite.rs and response_materialize.rs on small inputs.
use gemini_worker_go.Prelude.{
  ◌≡◌, refl, sym, Bool, true, false, List, [], ◌∷◌, some, Result, ok, err,
}
use gemini_worker_go.Text.{
  Text, codes, text_eq, starts_with, starts_with, utf8_len, trim, trim_start_by, trim_end_by,
  is_whitespace, eq_ignore_ascii_case, to_ascii_lowercase,
}
use gemini_worker_go.Json.{Value, obj, arr, str, field, end, cons, nil, get, value_get}
use gemini_worker_go.Request.Encode.Body.{update}
use gemini_worker_go.Config.{Config, resolved_external_image_proxy_prefix}
use gemini_worker_go.Upload.{
  UploadError, UploadResult, not_sent, by_legacy, wrap_external_proxy_url,
}
use gemini_worker_go.Response.{
  keep_largest_part, best_of, retained, size_of, inline_image, is_url_like,
}
use gemini_worker_go.Response.Materialize.{
  InlineDataEntry, scan_inline_data_base64_entries, walk, push_entry, contains, entry_eq, entry_of,
  entry_at, finalize_output_urls, url_replacements, lookup_entry, patch_inline_data_urls, final_url,
  should_proxy_standard_output_url,
}
use gemini_worker_go.ImageIo.{maybe_compress_png_bytes_with_options, recoded}
use gemini_worker_go.Files.{Bytes}
use gemini_worker_go.Prelude.{ℕ}
use gemini_worker_go.Response.Materialize.Optimize.{
  optimize_inline_data_images_with_options, base64_replacements, patch_inline_data_base64,
}
use gemini_worker_go.Response.Materialize.Uploaded.{
  failed_in, scan_inline_data_base64_entries-finalize_output_urls,
}
use gemini_worker_go.Tests.Config.{settings}

abbrev signed : Value
signed = obj (
    field (codes "thoughtSignature") (str (codes "s")) (
      field (codes "parts")
        (arr (
          cons
            (obj (
              field (codes "text") (str (codes "t"))
                (field (codes "thoughtSignature") (str []) end)))
            nil))
        end))

abbrev path : List Text
path = codes "parts" ∷ codes "0" ∷ codes "text" ∷ []

abbrev image : Text → Value
image text = obj (
    field (codes "inlineData")
      (obj
        (field (codes "mimeType") (str (codes "image/png")) (field (codes "data") (str text) end)))
      end)

abbrev note : Value
note = obj (field (codes "text") (str (codes "t")) end)

abbrev parts : List Value
parts = image (codes "ab") ∷ note ∷ image (codes "abc") ∷ image (codes "http://abc") ∷ []

largest : keep_largest_part parts ≡ note ∷ image (codes "abc") ∷ []
unfolding keep_largest_part best_of retained size_of inline_image is_url_like starts_with utf8_len
    get value_get text_eq
largest = refl

abbrev config : Config
config = record settings {
  external_image_proxy_prefix = codes "/proxy/image?url=";
  proxy_standard_output_urls = true;
}

abbrev answer : Bool → Result UploadError UploadResult
answer true = ok (by_legacy (codes "https://k"))
answer false = err not_sent

-- The first image is uploaded, the second is not.
abbrev uploads : InlineDataEntry → Result UploadError UploadResult
uploads e = answer (text_eq e.base64 (codes "ab"))

abbrev body : Value
body = arr (cons (image (codes "ab")) (cons (image (codes "abc")) (cons (image (codes "ab")) nil)))

abbrev same : Text → Text
same text = text

link_of :
    (b : Bool) (r : UploadResult) → answer b ≡ ok r → is_url_like (final_url same config r) ≡ true
unfolding final_url should_proxy_standard_output_url resolved_external_image_proxy_prefix trim
    trim_start_by trim_end_by is_whitespace eq_ignore_ascii_case to_ascii_lowercase text_eq
    is_url_like starts_with wrap_external_proxy_url
link_of true r h = let is_legacy : by_legacy (codes "https://k") ≡ r = cc in rw (sym is_legacy) refl
link_of false r h = cc

links :
    (e : InlineDataEntry) (r : UploadResult)
    → uploads e ≡ ok r
    → is_url_like (final_url same config r) ≡ true
links e r h = link_of (text_eq e.base64 (codes "ab")) r h

finalized :
    finalize_output_urls same uploads config body
    ≡ arr (
        cons
          (image (codes "/proxy/image?url=https://k"))
          (cons (image (codes "abc")) (cons (image (codes "/proxy/image?url=https://k")) nil)))
unfolding finalize_output_urls scan_inline_data_base64_entries walk push_entry contains entry_eq
    entry_of entry_at url_replacements lookup_entry patch_inline_data_urls final_url
    should_proxy_standard_output_url resolved_external_image_proxy_prefix trim trim_start_by
    trim_end_by is_whitespace eq_ignore_ascii_case to_ascii_lowercase wrap_external_proxy_url update
    get text_eq is_url_like starts_with
finalized = refl

scan_inline_data_base64_entries-finalize_output_urls_example :
    scan_inline_data_base64_entries (finalize_output_urls same uploads config body)
    ≡ failed_in uploads (scan_inline_data_base64_entries body)
scan_inline_data_base64_entries-finalize_output_urls_example =
    scan_inline_data_base64_entries-finalize_output_urls same uploads config body links

abbrev first_byte : ℕ → Bytes → Result UploadError Bytes
first_byte quality [] = err not_sent
first_byte quality (b ∷ bytes) = ok (b ∷ [])

abbrev jpeg : Text → Value
jpeg text = obj (
    field (codes "inlineData")
      (obj
        (field (codes "mimeType") (str (codes "image/jpeg")) (field (codes "data") (str text) end)))
      end)

-- The first image is over the threshold, the second is not.
optimized :
    optimize_inline_data_images_with_options
      (λ text. some text)
      same
      first_byte
      (arr (cons (image (codes "abc")) (cons (image (codes "ab")) nil)))
      true
      2
      90
    ≡ ok (arr (cons (jpeg (codes "a")) (cons (image (codes "ab")) nil)))
unfolding optimize_inline_data_images_with_options base64_replacements patch_inline_data_base64
    maybe_compress_png_bytes_with_options recoded scan_inline_data_base64_entries walk push_entry
    contains entry_eq entry_of entry_at lookup_entry trim trim_start_by trim_end_by is_whitespace
    to_ascii_lowercase update get text_eq is_url_like starts_with
optimized = refl
