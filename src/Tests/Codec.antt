-- ===== src/Tests/Codec.antt =====
-- A codec with the documented behaviour: base64 in full, and JSON texts without characters that need
-- an escape.
use gemini_worker_go.Prelude.{
  ℕ, ◌+◌, ◌*◌, ◌/◌, ◌%◌, ◌≡◌, refl, ap, true, false, none, [], ◌∷◌, ◌++◌, length, if◌then◌else◌,
  arith, get_elem?, unwrap_or,
}
use gemini_worker_go.Text.{Text, codes, text_eq}
use gemini_worker_go.Text.Laws.{text_eq_iff}
use gemini_worker_go.Files.{Bytes}
use gemini_worker_go.Json.{Value, Fields, bool, num, str, end, field, get}
use gemini_worker_go.Request.Codec.{Codec}

abbrev sextet : ℕ → ℕ
sextet n =
    unwrap_or
      (get_elem? (codes "ABCDEFGHIJKLMNOPQRSTUVWXYZabcdefghijklmnopqrstuvwxyz0123456789+/") n) 0

abbrev pub base64 : Bytes → Bytes
base64 [] = []
base64 (a ∷ []) = sextet (a / 4) ∷ sextet (a % 4 * 16) ∷ codes "=="
base64 (a ∷ b ∷ []) =
    sextet (a / 4) ∷ sextet (a % 4 * 16 + b / 16) ∷ sextet (b % 16 * 4) ∷ codes "="
base64 (a ∷ b ∷ c ∷ rest) =
    sextet (a / 4)
    ∷ sextet (a % 4 * 16 + b / 16)
    ∷ sextet (b % 16 * 4 + c / 64)
    ∷ sextet (c % 64)
    ∷ base64 rest

pub base64-append : (a b : Bytes) → length a % 3 ≡ 0 → base64 (a ++ b) ≡ base64 a ++ base64 b
base64-append [] b h = refl
base64-append (x ∷ []) b h = absurd (omega arith)
base64-append (x ∷ y ∷ []) b h = absurd (omega arith)
base64-append (x ∷ y ∷ z ∷ a) b h =
    ap
      (λ (t : Bytes).
        sextet (x / 4)
        ∷ sextet (x % 4 * 16 + y / 16)
        ∷ sextet (y % 16 * 4 + z / 64)
        ∷ sextet (z % 64)
        ∷ t)
      (base64-append a b (omega arith))

abbrev plain_to_vec : Value → Bytes
plain_to_vec (str s) = codes "\"" ++ s ++ codes "\""
plain_to_vec (num n) = n
plain_to_vec (bool true) = codes "true"
plain_to_vec (bool false) = codes "false"
plain_to_vec _ = codes "null"

unfoldable pub drop_key : Text → Fields → Fields
unfolding text_eq
drop_key key end = end
drop_key key (field k v fs) =
    let rest = drop_key key fs in if text_eq k key then rest else field k v rest

pub get-drop_key :
    (k j : Text) (map : Fields) → get j (drop_key k map) ≡ (if text_eq k j then none else get j map)
unfolding get drop_key
get-drop_key k j end = ground arith
get-drop_key k j (field i v fs) =
    ground (arith, get-drop_key k j fs, text_eq_iff k j, text_eq_iff i k, text_eq_iff i j)

abbrev pub plain_codec : Codec
plain_codec = record {
  to_vec = plain_to_vec;
  encode = base64;
  remove = drop_key;
  encode_empty = refl;
  encode-append = base64-append;
  to_vec-encode = λ b. refl;
  get-remove = get-drop_key;
}
