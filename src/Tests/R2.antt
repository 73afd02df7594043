-- ===== src/Tests/R2.antt =====
-- Uploads to R2, rust-sync-proxy/src/upload.rs, with digests that are easy to read.
use gemini_worker_go.Prelude.{
  ℕ, ◌≡◌, refl, true, none, some, List, [], ◌∷◌, ◌++◌, Result, ok, take, arith, append-nil,
  append_assoc,
}
use gemini_worker_go.Text.{codes, ends_with, text_eq}
use gemini_worker_go.Files.{Bytes}
use gemini_worker_go.Blob.{BlobHandle, BlobRuntime, spilled, read_bytes, new}
use gemini_worker_go.Upload.{OffsetDateTime}
use gemini_worker_go.Upload.Reader.{
  DecodeError, hashed_from, decoded_base64_len, decode_base64_chunk, next_base64_chunk_end,
}
use gemini_worker_go.Upload.R2.{PutRequest, R2Answer, answered, Call}
use gemini_worker_go.Upload.R2.FromBytes.{upload_r2}
use gemini_worker_go.Upload.R2.FromBlob.{upload_r2_blob, Reading, ReadEvent, read_some}
use gemini_worker_go.Upload.R2.FromBase64.{upload_r2_base64}
use gemini_worker_go.Upload.Sign.{Digests, UrlTools}
use gemini_worker_go.Upload.R2.Same.{upload_r2_same, IsRead, reads_none, reads_more}
use gemini_worker_go.Tests.Config.{settings}
use gemini_worker_go.Tests.Blob.{cfg}

abbrev readable : Digests
readable = record {
  Hasher = Bytes;
  fresh = [];
  update = λ bytes hashed. hashed ++ bytes;
  finalize = λ hashed. take 4 hashed;
  update-update = λ a b hashed. append_assoc hashed a b;
  update-nil = λ hashed. append-nil hashed;
  hmac = λ key bytes. some (take 2 bytes);
  hex = λ bytes. bytes;
}

abbrev tools : UrlTools
tools = record {
  parse =
      λ text. ok (record { scheme = codes "https"; host_str = some text; without_fragment = text });
  path = λ url. [];
  with_path = λ url path. codes "https://r2" ++ path;
  byte_serialize = λ text. text;
}

abbrev day : OffsetDateTime
day = record { year = 2024; month = 3; day = 9; unix_timestamp_nanos = 5_000_001 }

abbrev call : Call
call = record {
  key_time = day;
  sign_time = record { date = day; hour = 1; minute = 2; second = 3 };
  random_hex = codes "0a";
}

-- The first bytes of a piece, as many as the buffer holds.
abbrev three_of_four : ℕ → Bytes → Result DecodeError Bytes
three_of_four capacity piece = ok (take capacity piece)

-- A blob in a file, read two bytes at a time.
abbrev in_file : BlobHandle
in_file = record {
  id = 0;
  meta = record { mime_type = codes "image/png"; size_bytes = 3 };
  storage = spilled (codes "blob-0.bin");
}

abbrev with_file : BlobRuntime
with_file = new cfg ((codes "blob-0.bin", codes "abc") ∷ [])

abbrev in_pairs : Bytes → List ReadEvent
in_pairs [] = read_some [] ∷ []
in_pairs (a ∷ []) = read_some (a ∷ []) ∷ read_some [] ∷ []
in_pairs (a ∷ b ∷ bytes) = read_some (a ∷ b ∷ []) ∷ in_pairs bytes

in_pairs-IsRead : (bytes : Bytes) → IsRead (in_pairs bytes) bytes
in_pairs-IsRead [] = reads_none []
in_pairs-IsRead (a ∷ []) = reads_more a [] (reads_none [])
in_pairs-IsRead (a ∷ b ∷ bytes) = reads_more a (b ∷ []) (in_pairs-IsRead bytes)

abbrev by_pairs : Reading
by_pairs = record { opens = true; reads = in_pairs }

abbrev accepts : PutRequest → R2Answer
accepts r = answered 200 none

upload_r2_same_example :
    (upload_r2_blob readable tools settings accepts call by_pairs by_pairs with_file in_file
        (codes "image/png")
      ≡ upload_r2 readable tools settings accepts call (codes "abc") (codes "image/png"))
    × (upload_r2_base64 readable tools three_of_four
          (2 ∷ 2 ∷ [])
          settings
          accepts
          call
          (codes "abcd")
          (codes "image/png")
        ≡ upload_r2 readable tools settings accepts call (codes "abc") (codes "image/png"))
unfolding new read_bytes hashed_from decoded_base64_len decode_base64_chunk next_base64_chunk_end
    ends_with text_eq
upload_r2_same_example =
    upload_r2_same readable tools settings accepts call three_of_four (2 ∷ 2 ∷ []) (codes "abcd")
      (codes "abc") by_pairs by_pairs with_file in_file (codes "image/png") (λ r e. refl)
      (refl, in_pairs-IsRead) (refl, in_pairs-IsRead) refl refl refl refl (omega arith)
