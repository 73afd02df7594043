-- ===== src/Tests/Output.antt =====
-- rust-sync-proxy/src/http/router.rs on small inputs, with a form that marks the ends of keys and values.
use gemini_worker_go.Prelude.{
  ℕ, zero, suc, ◌≡◌, refl, ap, ◌∙◌, Bool, true, false, some, none, List, [], ◌∷◌,
}
use gemini_worker_go.Text.{
  Text, codes, text_eq, trim, trim_start_by, trim_end_by, is_whitespace, eq_ignore_ascii_case,
  to_ascii_lowercase,
}
use gemini_worker_go.Json.{null}
use gemini_worker_go.Response.Images.{url}
use gemini_worker_go.Router.Output.{
  Form, filter_query_without_output, query_contains_output_url, get_output_mode, says_url,
}
use gemini_worker_go.Router.Output.Query.{
  IsLessOutput, pairs_of, filter_query_without_output-pairs_of,
}

abbrev shifted : Text → Text → Text
shifted [] rest = rest
shifted (c ∷ s) rest = suc (suc c) ∷ shifted s rest

abbrev finish : List (Text × Text) → Text
finish [] = []
finish ((key, value) ∷ pairs) = shifted key (0 ∷ shifted value (1 ∷ finish pairs))

-- From the end, with the pairs so far and whether the key of the first one is being read.
abbrev Reading : Type 0
Reading = Bool × List (Text × Text)

abbrev put : ℕ → Reading → Reading
put c (in_key, []) = (in_key, [])
put c (true, (key, value) ∷ pairs) = (true, (c ∷ key, value) ∷ pairs)
put c (false, (key, value) ∷ pairs) = (false, (key, c ∷ value) ∷ pairs)

abbrev read : Text → Reading
read [] = (false, [])
read (zero ∷ s) = (true, (read s).1)
read (suc zero ∷ s) = (false, ([], []) ∷ (read s).1)
read (suc (suc c) ∷ s) = put c (read s)

abbrev parse : Text → List (Text × Text)
parse s = (read s).1

read_value :
    (value rest : Text) → read (shifted value (1 ∷ rest)) ≡ (false, ([], value) ∷ (read rest).1)
read_value [] rest = refl
read_value (c ∷ value) rest = ap (put c) (read_value value rest)

read_key :
    (key rest value : Text) (pairs : List (Text × Text))
    → (read rest).1 ≡ ([], value) ∷ pairs
    → read (shifted key (0 ∷ rest)) ≡ (true, (key, value) ∷ pairs)
read_key [] rest value pairs h = ap (λ ps. (true, ps)) h
read_key (c ∷ key) rest value pairs h = ap (put c) (read_key key rest value pairs h)

parse-finish : (pairs : List (Text × Text)) → parse (finish pairs) ≡ pairs
parse-finish [] = refl
parse-finish ((key, value) ∷ pairs) =
    ap (λ r. r.1)
      (read_key key (shifted value (1 ∷ finish pairs)) value (parse (finish pairs))
        (ap (λ r. r.1) (read_value value (finish pairs))))
    ∙ ap (λ ps. (key, value) ∷ ps) (parse-finish pairs)

abbrev form : Form
form = record { parse = parse; finish = finish; parse-finish = parse-finish }

abbrev query : Text
query =
    finish
      ((codes "alt", codes "sse") ∷ (codes "output", codes " URL") ∷ (codes "k", codes "v") ∷ [])

filtered :
    filter_query_without_output form (some query)
    ≡ some (finish ((codes "alt", codes "sse") ∷ (codes "k", codes "v") ∷ []))
unfolding filter_query_without_output text_eq
filtered = refl

asks_for_urls : get_output_mode form (λ pointer v. none) (some query) null ≡ url
unfolding get_output_mode query_contains_output_url says_url text_eq trim trim_start_by trim_end_by
    is_whitespace eq_ignore_ascii_case to_ascii_lowercase
asks_for_urls = refl

filter_query_without_output-pairs_of_example :
    IsLessOutput
      (pairs_of form (some query))
      (pairs_of form (filter_query_without_output form (some query)))
    × (query_contains_output_url form (filter_query_without_output form (some query)) ≡ false)
filter_query_without_output-pairs_of_example =
    filter_query_without_output-pairs_of form (some query)
