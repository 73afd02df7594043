-- ===== src/Tests/Upload.antt =====
-- rust-sync-proxy/src/upload.rs on small inputs, with a decoder that takes each byte as it is.
use gemini_worker_go.Prelude.{ℕ, ◌≡◌, refl, List, [], ◌∷◌, Result, ok, err, some, take}
use gemini_worker_go.Text.{
  codes, text_eq, trim, trim_start_by, trim_end_by, is_whitespace, to_ascii_lowercase, one_of,
  ends_with,
}
use gemini_worker_go.Text.Decimal.{decimal, decimal_from}
use gemini_worker_go.Files.{Bytes}
use gemini_worker_go.Upload.{
  upload_image, parse_image_host_mode, upload_image_with_mode, not_sent, upload_legacy, by_legacy,
  build_r2_object_key, extension_from_mime,
}
use gemini_worker_go.Upload.Reader.{
  DecodeError, new, poll_read, read_turns, turn, decode_base64_chunk, next_base64_chunk_end,
  sha256_hex_base64, hashed_from, decoded_base64_len,
}
use gemini_worker_go.Upload.Reader.Refines.{polls, total, polls-sha256_hex_base64}

abbrev plain : ℕ → Bytes → Result DecodeError Bytes
plain capacity piece = ok piece

abbrev source : Bytes
source = codes "abcdefgh"

abbrev sizes : List ℕ
sizes = 3 ∷ 0 ∷ 4 ∷ 9 ∷ []

abbrev doubled : Bytes → Bytes
doubled [] = []
doubled (b ∷ bs) = b ∷ b ∷ doubled bs

hashes : sha256_hex_base64 plain source doubled ≡ ok (codes "aabbccddeeffgghh")
unfolding sha256_hex_base64 hashed_from decode_base64_chunk next_base64_chunk_end
hashes = refl

reads : polls plain source sizes new ≡ some source
unfolding polls poll_read read_turns turn decode_base64_chunk next_base64_chunk_end
reads = refl

-- Two characters of padding.
padded_len : decoded_base64_len (codes "YQ==") ≡ ok 1
unfolding decoded_base64_len ends_with text_eq
padded_len = refl

key :
    build_r2_object_key
      (codes " /out/ ")
      (codes "image/gif")
      (record { year = 2024; month = 3; day = 9; unix_timestamp_nanos = 5_000_001 })
      (codes "0a")
    ≡ codes "out/2024/03/09/5-0a.gif"
unfolding build_r2_object_key trim trim_start_by trim_end_by is_whitespace extension_from_mime
    text_eq decimal decimal_from
key = refl

falls_back :
    upload_image
      (codes " R2_then_legacy")
      (err not_sent)
      (upload_legacy (err not_sent) (ok (codes "https://k")))
    ≡ ok (by_legacy (codes "https://k"))
unfolding upload_image parse_image_host_mode upload_image_with_mode upload_legacy trim trim_start_by
    trim_end_by is_whitespace to_ascii_lowercase one_of text_eq
falls_back = refl

polls-sha256_hex_base64_example :
    (bytes : Bytes) × (codes "aabbccddeeffgghh" ≡ doubled bytes)
    × ((sizes : List ℕ) → polls plain source sizes new ≡ some (take (total sizes) bytes))
polls-sha256_hex_base64_example =
    polls-sha256_hex_base64 plain source doubled (codes "aabbccddeeffgghh") hashes
