-- ===== src/Request/Codec.antt =====
-- What rust-sync-proxy/src/request_encode.rs calls of the crates `serde_json` and `base64`, with the
-- documented behaviour that the encoder relies on.
use gemini_worker_go.Prelude.{◌%◌, ◌≡◌, [], ◌++◌, length, if◌then◌else◌, none}
use gemini_worker_go.Text.{Text, codes, text_eq}
use gemini_worker_go.Files.{Bytes}
use gemini_worker_go.Json.{Value, Fields, str, get}

pub record Codec : Type 0 where
  -- `serde_json::to_vec`
  pub to_vec : Value → Bytes
  -- `STANDARD.encode` and `STANDARD.encode_slice`
  pub encode : Bytes → Bytes
  -- `Map::remove`
  pub remove : Text → Fields → Fields
  pub encode_empty : encode [] ≡ []
  -- Base64 encodes three bytes at a time.
  pub encode-append : (a b : Bytes) → length a % 3 ≡ 0 → encode (a ++ b) ≡ encode a ++ encode b
  -- The base64 alphabet needs no escapes in JSON.
  pub to_vec-encode : (b : Bytes) → to_vec (str (encode b)) ≡ codes "\"" ++ encode b ++ codes "\""
  pub get-remove :
      (k j : Text) (map : Fields) → get j (remove k map) ≡ (if text_eq k j then none else get j map)
