-- ===== src/Router/Output/Query.antt =====
-- rust-sync-proxy/src/http/router.rs, `filter_query_without_output`: the pairs that go upstream.
use gemini_worker_go.Prelude.{
  ◌≡◌, refl, ap, ◌∙◌, true, false, Bool-cases, inl, inr, Option, none, some, List, [], ◌∷◌,
}
use gemini_worker_go.Text.{Text, codes, text_eq}
use gemini_worker_go.Text.Laws.{text_eq→eq, text_eq_iff}
use gemini_worker_go.Router.Output.{
  Form, is_output, any_output_url, without_output, finished, filter_query_without_output,
  query_contains_output_url,
}

-- The second list is the first one less its pairs with the key `output`, all others in their order.
pub data IsLessOutput : List (Text × Text) → List (Text × Text) → Type 0 where
  at_end : IsLessOutput [] []
  drops :
      (key value : Text) {pairs rest : List (Text × Text)}
      → key ≡ codes "output"
      → IsLessOutput pairs rest
      → IsLessOutput ((key, value) ∷ pairs) rest
  keeps :
      (key value : Text) {pairs rest : List (Text × Text)}
      → ¬ (key ≡ codes "output")
      → IsLessOutput pairs rest
      → IsLessOutput ((key, value) ∷ pairs) ((key, value) ∷ rest)

without_output-IsLessOutput :
    (pairs : List (Text × Text)) → IsLessOutput pairs (without_output pairs)
without_output-IsLessOutput [] = at_end
without_output-IsLessOutput ((key, value) ∷ pairs) = elim (Bool-cases (is_output key)) [
  | inl out ↦
      rw out
        (drops key value (text_eq→eq key (codes "output") out) (without_output-IsLessOutput pairs))
  | inr other ↦
      let ne : ¬ (key ≡ codes "output") = λ e.
        let self : text_eq key (codes "output") ≡ true = (text_eq_iff key (codes "output")).1 e in
        cc in
      rw other (keeps key value ne (without_output-IsLessOutput pairs))
]

no_output : (pairs : List (Text × Text)) → any_output_url (without_output pairs) ≡ false
no_output [] = refl
no_output ((key, value) ∷ pairs) = elim (Bool-cases (is_output key)) [
  | inl out ↦ rw out (no_output pairs)
  | inr other ↦ rw (other, other) (no_output pairs)
]

module _ (form : Form) where
  open form use {parse, finish, parse-finish}

  -- The pairs of a query; none where there is no query.
  abbrev pub pairs_of : Option Text → List (Text × Text)
  pairs_of none = []
  pairs_of (some query) = parse query

  pairs_of-finished : (pairs : List (Text × Text)) → pairs_of (finished finish pairs) ≡ pairs
  pairs_of-finished [] = refl
  pairs_of-finished (pair ∷ pairs) = parse-finish (pair ∷ pairs)

  query_contains_output_url-pairs_of :
      (query : Option Text) → query_contains_output_url form query ≡ any_output_url (pairs_of query)
  unfolding query_contains_output_url
  query_contains_output_url-pairs_of none = refl
  query_contains_output_url-pairs_of (some query) = refl

  pairs_of-filter :
      (query : Option Text)
      → pairs_of (filter_query_without_output form query) ≡ without_output (pairs_of query)
  unfolding filter_query_without_output
  pairs_of-filter none = refl
  pairs_of-filter (some query) = pairs_of-finished (without_output (parse query))

  -- The query that goes upstream has the pairs of the client's query in their order, less those with
  -- the key `output`, and so it asks for no URLs.
  pub filter_query_without_output-pairs_of :
      (query : Option Text)
      → IsLessOutput (pairs_of query) (pairs_of (filter_query_without_output form query))
        × (query_contains_output_url form (filter_query_without_output form query) ≡ false)
  filter_query_without_output-pairs_of query = (
    rw (pairs_of-filter query) (without_output-IsLessOutput (pairs_of query)),
    query_contains_output_url-pairs_of (filter_query_without_output form query)
        ∙ ap any_output_url (pairs_of-filter query)
        ∙ no_output (pairs_of query),
  )
