-- ===== src/Response/Signatures.antt =====
-- rust-sync-proxy/src/response_rewrite.rs, `remove_thought_signatures`: what every path finds after it.
use gemini_worker_go.Prelude.{none, some, Option, and_then, List, if◌then◌else◌}
use gemini_worker_go.Text.{Text, codes, one_of}
use gemini_worker_go.Json.{Value}
use gemini_worker_go.Request.Codec.{Codec}
use gemini_worker_go.Response.{remove_thought_signatures}

abbrev signature : Text
signature = codes "thoughtSignature"

module _ (codec : Codec) where
  open codec use {remove, get-remove}

  abbrev without : List Text → Option Value → Option Value
  without path found =
      if one_of signature path
      then none
      else and_then found (λ v. some (remove_thought_signatures remove v))
