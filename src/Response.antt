-- ===== src/Response.antt =====
-- rust-sync-proxy/src/response_rewrite.rs: what is taken out of a response of the upstream before it
-- goes back.
pub mod Signatures
pub mod Largest
pub mod Images
pub mod Materialize
use gemini_worker_go.Prelude.{
  ℕ, ◌+◌, Bool, true, false, ◌||◌, not, Option, none, some, List, [], ◌∷◌, ltb, ◌==◌, if◌then◌else◌,
  and_then,
}
use gemini_worker_go.Text.{Text, codes, starts_with, utf8_len}
use gemini_worker_go.Json.{
  Value, Items, Fields, null, bool, num, str, arr, obj, nil, cons, end, field, as_str, as_object,
  value_get, get, items, from_list,
}
use gemini_worker_go.Request.Encode.Body.{update, on_object}

-- `remove` is `Map::remove`. The children come before the key here, so that the recursion is on the
-- value itself: the key goes with its value whichever comes first.
unfoldable mutual
  pub remove_thought_signatures : (Text → Fields → Fields) → Value → Value
  remove_thought_signatures remove null = null
  remove_thought_signatures remove (bool b) = bool b
  remove_thought_signatures remove (num n) = num n
  remove_thought_signatures remove (str s) = str s
  remove_thought_signatures remove (arr xs) = arr (items_without_signatures remove xs)
  remove_thought_signatures remove (obj map) =
      obj (remove (codes "thoughtSignature") (values_without_signatures remove map))

  pub items_without_signatures : (Text → Fields → Fields) → Items → Items
  items_without_signatures remove nil = nil
  items_without_signatures remove (cons child more) =
      cons (remove_thought_signatures remove child) (items_without_signatures remove more)

  pub values_without_signatures : (Text → Fields → Fields) → Fields → Fields
  values_without_signatures remove end = end
  values_without_signatures remove (field k child more) =
      field k (remove_thought_signatures remove child) (values_without_signatures remove more)

unfoldable pub is_url_like : Text → Bool
unfolding starts_with
is_url_like value =
    starts_with value (codes "http://")
    || starts_with value (codes "https://")
    || starts_with value (codes "/proxy/image")

-- `part.get("inlineData").and_then(Value::as_object)`, its `data`, and that as a string.
unfoldable pub inline_image : Value → Option Text
unfolding value_get get
inline_image part =
    and_then (and_then (value_get (codes "inlineData") part) as_object)
      (λ inline_data. and_then (get (codes "data") inline_data) as_str)

-- The size with which a part takes part in the search; 0 where it is passed over, which no part beats.
abbrev pub rated : Option Text → ℕ
rated none = 0
rated (some text) = if is_url_like text then 0 else utf8_len text

unfoldable pub size_of : Value → ℕ
unfolding inline_image utf8_len is_url_like
size_of part = rated (inline_image part)

-- The first loop, from the part `index` on, with the best so far.
unfoldable pub best_of : List Value → ℕ → Option ℕ → ℕ → Option ℕ
unfolding size_of
best_of [] index best_index best_size = best_index
best_of (part ∷ parts) index best_index best_size =
    if ltb best_size (size_of part)
    then best_of parts (index + 1) (some index) (size_of part)
    else best_of parts (index + 1) best_index best_size

abbrev pub is_inline_image : Value → Bool
is_inline_image part = elim (inline_image part) [ none ↦ false | some text ↦ true ]

-- The second loop, from the part `index` on.
unfoldable pub retained : ℕ → List Value → ℕ → List Value
unfolding inline_image
retained best_index [] index = []
retained best_index (part ∷ parts) index =
    let rest = retained best_index parts (index + 1) in
    if not (is_inline_image part) || index == best_index then part ∷ rest else rest

abbrev pub retained_from : Option ℕ → List Value → List Value
retained_from none parts = parts
retained_from (some best_index) parts = retained best_index parts 0

unfoldable pub keep_largest_part : List Value → List Value
unfolding best_of retained
keep_largest_part parts = retained_from (best_of parts 0 none 0) parts

-- A change through `as_array_mut`.
abbrev pub on_array : (List Value → List Value) → Value → Value
on_array f (arr xs) = arr (from_list (f (items xs)))
on_array f v = v

abbrev pub each : (Value → Value) → List Value → List Value
each f [] = []
each f (v ∷ vs) = f v ∷ each f vs

-- A change of one field through `get_mut`.
abbrev pub on_field : Text → (Value → Value) → Value → Value
on_field key f v = on_object (update key f) v

unfoldable pub keep_largest_inline_image : Value → Value
unfolding update keep_largest_part
keep_largest_inline_image body =
    on_field (codes "candidates")
      (on_array
        (each (on_field (codes "content") (on_field (codes "parts") (on_array keep_largest_part)))))
      body

unfoldable pub normalize_gemini_response : (Text → Fields → Fields) → Value → Value
unfolding remove_thought_signatures keep_largest_inline_image
normalize_gemini_response remove body =
    keep_largest_inline_image (remove_thought_signatures remove body)
