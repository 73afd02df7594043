-- ===== src/Request/Pointer.antt =====
-- JSON pointers as RFC 6901 has them: what the paths built by rust-sync-proxy/src/request_scan.rs
-- have to mean to whoever reads them.
use gemini_worker_go.Prelude.{
  ℕ, ◌+◌, ◌≡◌, ◌≢◌, refl, ap, ◌∙◌, ◌&&◌, Option, none, some, List, [], ◌∷◌, ◌++◌, map, ◌==◌,
  if◌then◌else◌, and_then, arith, append-nil,
}
use gemini_worker_go.Text.{Text, codes, text_eq, split}
use gemini_worker_go.Text.Decimal.{decimal, AreDigits, decimal-AreDigits}
use gemini_worker_go.Json.{Value, Items, arr, obj, nil, cons, get}
use gemini_worker_go.Request.Scan.{escape_json_pointer_token}

-- `~1` stands for `/` and `~0` for `~`.
unfoldable pub unescape : Text → Text
unescape [] = []
unescape (c ∷ []) = c ∷ []
unescape (c ∷ d ∷ s) =
    let code = unescape s in
    let plain = unescape (d ∷ s) in
    if c == b'~' && d == b'1'
    then b'/' ∷ code
    else if c == b'~' && d == b'0'
    then b'~' ∷ code
    else c ∷ plain

-- The item whose index, in decimal without leading zeros, is the token; the first has index `i`.
unfoldable pub item_at : Text → ℕ → Items → Option Value
item_at token i nil = none
item_at token i (cons v vs) = if text_eq (decimal i) token then some v else item_at token (i + 1) vs

unfoldable pub resolve : List Text → Value → Option Value
resolve [] v = some v
resolve (t ∷ ts) (obj fs) = and_then (get t fs) (resolve ts)
resolve (t ∷ ts) (arr xs) = and_then (item_at t 0 xs) (resolve ts)
resolve (t ∷ ts) _ = none

-- The tokens of a pointer; a pointer that is not empty begins with `/`.
unfoldable pub tokens : Text → Option (List Text)
tokens [] = some []
tokens (c ∷ s) = if c == b'/' then some (map unescape (split b'/' s)) else none

unfoldable pub pointer : Text → Value → Option Value
unfolding tokens resolve unescape split item_at decimal text_eq get
pointer text v = and_then (tokens text) (λ ts. resolve ts v)

abbrev pub render : List Text → Text
render [] = []
render (t ∷ ts) = codes "/" ++ (escape_json_pointer_token t ++ render ts)

-- One code point at a time.
abbrev escaped : ℕ → Text
escaped c = if c == b'~' then codes "~0" else if c == b'/' then codes "~1" else c ∷ []

escape-cons :
    (c : ℕ) (t : Text)
    → escape_json_pointer_token (c ∷ t) ≡ escaped c ++ escape_json_pointer_token t
unfolding escape_json_pointer_token
escape-cons c t = ground arith

unescape-escaped : (c : ℕ) (s : Text) → unescape (escaped c ++ s) ≡ c ∷ unescape s
unfolding unescape
unescape-escaped c [] = ground arith
unescape-escaped c (d ∷ s) = ground arith

-- Unescaping by RFC 6901 gives back a token that `escape_json_pointer_token` has escaped.
unescape-escape : (t : Text) → unescape (escape_json_pointer_token t) ≡ t
unescape-escape [] = unfold escape_json_pointer_token unescape in refl
unescape-escape (c ∷ t) =
    ap unescape (escape-cons c t)
    ∙ unescape-escaped c (escape_json_pointer_token t)
    ∙ ap (λ (s : Text). c ∷ s) (unescape-escape t)

abbrev HasNoSlash : Text → Type 0
HasNoSlash [] = Unit
HasNoSlash (c ∷ s) = (c ≢ b'/') × HasNoSlash s

HasNoSlash-escaped : (c : ℕ) (s : Text) → HasNoSlash s → HasNoSlash (escaped c ++ s)
HasNoSlash-escaped c s h = ground arith

HasNoSlash-escape : (t : Text) → HasNoSlash (escape_json_pointer_token t)
HasNoSlash-escape [] = unfold escape_json_pointer_token in tt
HasNoSlash-escape (c ∷ t) =
    rw (escape-cons c t) (HasNoSlash-escaped c (escape_json_pointer_token t) (HasNoSlash-escape t))

split_one : (a : Text) → HasNoSlash a → split b'/' a ≡ a ∷ []
unfolding split
split_one [] h = refl
split_one (c ∷ a) (p, h) = ground (arith, split_one a h)

split_more : (a b : Text) → HasNoSlash a → split b'/' (a ++ b'/' ∷ b) ≡ a ∷ split b'/' b
unfolding split
split_more [] b h = refl
split_more (c ∷ a) b (p, h) = ground (arith, split_more a b h)

split-render :
    (t : Text) (ts : List Text)
    → map unescape (split b'/' (escape_json_pointer_token t ++ render ts)) ≡ t ∷ ts
split-render t [] =
    rw (append-nil, split_one _ (HasNoSlash-escape t)) (ap (λ u. u ∷ []) (unescape-escape t))
split-render t (u ∷ ts) =
    ap (map unescape) (
      split_more (escape_json_pointer_token t) (escape_json_pointer_token u ++ render ts)
        (HasNoSlash-escape t))
    ∙ cc (unescape-escape t, split-render u ts)

-- A rendered list of tokens is read back as those tokens, whatever characters they hold.
pub pointer-render : (ts : List Text) (v : Value) → pointer (render ts) v ≡ resolve ts v
pointer-render [] v = unfold pointer in refl
pointer-render (t ∷ ts) v = unfold pointer in ap (λ us. resolve us v) (split-render t ts)

escape_of_AreDigits : (s : Text) → AreDigits s → escape_json_pointer_token s ≡ s
escape_of_AreDigits [] h = unfold escape_json_pointer_token in refl
escape_of_AreDigits (c ∷ s) (lo, hi, h) = escape-cons c s ∙ ground (arith, escape_of_AreDigits s h)

pub escape-decimal : (n : ℕ) → escape_json_pointer_token (decimal n) ≡ decimal n
escape-decimal n = escape_of_AreDigits (decimal n) (decimal-AreDigits n)
