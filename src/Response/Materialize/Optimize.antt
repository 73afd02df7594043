-- ===== src/Response/Materialize/Optimize.antt =====
-- rust-sync-proxy/src/response_materialize.rs, `optimize_inline_data_images`: large images encoded anew.
-- `decode` and `encode` are those of `STANDARD`, `to_jpeg` the image encoder.
use gemini_worker_go.Prelude.{
  ℕ, ◌*◌, Bool, ◌&&◌, not, Option, none, some, List, [], ◌∷◌, Result, ok, ◌>>=◌, if◌then◌else◌,
  and_then,
}
use gemini_worker_go.Text.{Text, codes, text_eq}
use gemini_worker_go.Files.{Bytes}
use gemini_worker_go.Json.{
  Value, Items, Fields, null, bool, num, str, arr, obj, nil, cons, end, field,
}
use gemini_worker_go.Config.{Config}
use gemini_worker_go.ImageIo.{OptimizedImage, maybe_compress_png_bytes_with_options}
use gemini_worker_go.Request.Encode.Body.{update}
use gemini_worker_go.Response.Materialize.{
  InlineDataEntry, InlineDataReplacement, scan_inline_data_base64_entries, lookup_entry, entry_at,
  insert,
}

abbrev pub png_compression_threshold_bytes : ℕ
png_compression_threshold_bytes = 15 * 1024 * 1024

abbrev pub with_replacement : Option InlineDataReplacement → Fields → Fields
with_replacement none map = map
with_replacement (some replacement) map =
    insert (codes "data") replacement.base64 (insert (codes "mimeType") replacement.mime_type map)

-- The children come before the entry, whose strings have none.
unfoldable mutual
  unfolding entry_at update

  pub patch_inline_data_base64 : (InlineDataEntry → Option InlineDataReplacement) → Value → Value
  patch_inline_data_base64 replacements null = null
  patch_inline_data_base64 replacements (bool b) = bool b
  patch_inline_data_base64 replacements (num n) = num n
  patch_inline_data_base64 replacements (str s) = str s
  patch_inline_data_base64 replacements (arr xs) = arr (patch_base64_items replacements xs)
  patch_inline_data_base64 replacements (obj map) = obj (
      with_replacement (and_then (entry_at map) replacements)
        (patch_base64_values replacements map))

  pub patch_base64_items : (InlineDataEntry → Option InlineDataReplacement) → Items → Items
  patch_base64_items replacements nil = nil
  patch_base64_items replacements (cons child more) =
      cons (patch_inline_data_base64 replacements child) (patch_base64_items replacements more)

  pub patch_base64_values : (InlineDataEntry → Option InlineDataReplacement) → Fields → Fields
  patch_base64_values replacements end = end
  patch_base64_values replacements (field k child more) =
      field k (patch_inline_data_base64 replacements child) (patch_base64_values replacements more)

module _ {E : Type 0} (decode : Text → Option Bytes) (encode : Bytes → Text)
    (to_jpeg : ℕ → Bytes → Result E Bytes) where
  abbrev pub Replacements : Type 0
  Replacements = List (InlineDataEntry × InlineDataReplacement)

  -- An image that comes out as it was is not replaced.
  abbrev pub replaced_by : InlineDataEntry → Bytes → Replacements → OptimizedImage → Replacements
  replaced_by entry image_bytes others optimized =
      if text_eq optimized.mime_type entry.mime_type && text_eq optimized.bytes image_bytes
      then others
      else (entry, record { mime_type = optimized.mime_type; base64 = encode optimized.bytes })
        ∷ others

  abbrev pub optimized_entry :
      Bool
      → ℕ
      → ℕ
      → InlineDataEntry
      → Option Bytes
      → (Unit {0} → Result E Replacements)
      → Result E Replacements
  optimized_entry enabled threshold_bytes jpeg_quality entry none next = next tt
  optimized_entry enabled threshold_bytes jpeg_quality entry (some image_bytes) next =
      maybe_compress_png_bytes_with_options to_jpeg image_bytes entry.mime_type enabled
        threshold_bytes jpeg_quality
      >>= (λ optimized. next tt >>= (λ others. ok (replaced_by entry image_bytes others optimized)))

  unfoldable pub base64_replacements : Bool → ℕ → ℕ → List InlineDataEntry → Result E Replacements
  unfolding maybe_compress_png_bytes_with_options text_eq
  base64_replacements enabled threshold_bytes jpeg_quality [] = ok []
  base64_replacements enabled threshold_bytes jpeg_quality (entry ∷ entries) =
      optimized_entry enabled threshold_bytes jpeg_quality entry (decode entry.base64)
        (λ _. base64_replacements enabled threshold_bytes jpeg_quality entries)

  unfoldable pub optimize_inline_data_images_with_options : Value → Bool → ℕ → ℕ → Result E Value
  unfolding base64_replacements patch_inline_data_base64 lookup_entry
      scan_inline_data_base64_entries
  optimize_inline_data_images_with_options body enabled threshold_bytes jpeg_quality =
      if not enabled
      then ok body
      else base64_replacements enabled threshold_bytes jpeg_quality
          (scan_inline_data_base64_entries body)
        >>= (λ replacements. ok (patch_inline_data_base64 (lookup_entry replacements) body))

  unfoldable pub optimize_inline_data_images : Value → Config → Result E Value
  unfolding optimize_inline_data_images_with_options
  optimize_inline_data_images body config =
      optimize_inline_data_images_with_options body config.enable_image_compression
        png_compression_threshold_bytes config.image_compression_jpeg_quality
