-- ===== src/Router/Output.antt =====
-- rust-sync-proxy/src/http/router.rs: what the query and the body say of the output, and small parts
-- of the handlers.
pub mod Query
use gemini_worker_go.Prelude.{
  ℕ, Bool, true, false, ◌&&◌, ◌||◌, not, Option, none, some, List, [], ◌∷◌, ◌++◌, ◌≡◌, Result, ok,
  err, ◌>>=◌, if◌then◌else◌, and_then, unwrap_or,
}
use gemini_worker_go.Text.{Text, codes, text_eq, is_empty, trim, eq_ignore_ascii_case}
use gemini_worker_go.Text.Decimal.{decimal}
use gemini_worker_go.Json.{
  Value, Items, Fields, str, num, obj, field, end, as_str, as_object, as_array, value_get, get,
  items,
}
use gemini_worker_go.Config.{Config, resolved_external_image_proxy_prefix}
use gemini_worker_go.Upstream.{PointerReader}
use gemini_worker_go.Upload.{wrap_external_proxy_url}
use gemini_worker_go.Response.Images.{OutputMode, base64, url}
use gemini_worker_go.Request.Encode.Body.{update, on_object}
use gemini_worker_go.Admin.{AdminLogEntry, check_basic_auth}

-- `form_urlencoded` of the crate `url`: its parser, and the serializer on all the pairs of a form.
pub record Form : Type 0 where
  pub parse : Text → List (Text × Text)
  pub finish : List (Text × Text) → Text
  pub parse-finish : (pairs : List (Text × Text)) → parse (finish pairs) ≡ pairs

unfoldable pub says_url : Text → Bool
unfolding trim eq_ignore_ascii_case
says_url value = eq_ignore_ascii_case (trim value) (codes "url")

abbrev pub is_output : Text → Bool
is_output key = text_eq key (codes "output")

abbrev pub any_output_url : List (Text × Text) → Bool
any_output_url [] = false
any_output_url ((key, value) ∷ pairs) = (is_output key && says_url value) || any_output_url pairs

abbrev pub without_output : List (Text × Text) → List (Text × Text)
without_output [] = []
without_output ((key, value) ∷ pairs) =
    if is_output key then without_output pairs else (key, value) ∷ without_output pairs

-- The pairs that were appended; `has_any` is whether there is one.
abbrev pub finished : (List (Text × Text) → Text) → List (Text × Text) → Option Text
finished finish [] = none
finished finish (pair ∷ pairs) = some (finish (pair ∷ pairs))

module _ (form : Form) where
  open form use {parse, finish}

  unfoldable pub query_contains_output_url : Option Text → Bool
  unfolding says_url text_eq
  query_contains_output_url none = false
  query_contains_output_url (some query) = any_output_url (parse query)

  unfoldable pub filter_query_without_output : Option Text → Option Text
  unfolding text_eq
  filter_query_without_output none = none
  filter_query_without_output (some query) = finished finish (without_output (parse query))

  abbrev pub string_says_url : Option Value → Bool
  string_says_url o = elim (and_then o as_str) [ none ↦ false | some value ↦ says_url value ]

  unfoldable pub get_output_mode : PointerReader → Option Text → Value → OutputMode
  unfolding query_contains_output_url says_url value_get
  get_output_mode pointer query body =
      if query_contains_output_url query
      then url
      else if string_says_url (value_get (codes "output") body)
      then url
      else if string_says_url (pointer (codes "/generationConfig/imageConfig/output") body)
      then url
      else if string_says_url (pointer (codes "/generation_config/image_config/output") body)
      then url
      else base64

  -- `with_path_and_query` is `Url::parse` of the base, then `set_path`, `set_query` and `to_string`.
  unfoldable pub build_upstream_url :
      (Text → Text → Option Text → Result Text Text) → Text → Text → Option Text → Result Text Text
  unfolding filter_query_without_output
  build_upstream_url with_path_and_query base_url path query =
      with_path_and_query base_url path (filter_query_without_output query)

pub data MissingImage : Type 0 where
  missing_data empty_data missing_b64_json : MissingImage

abbrev pub b64_json_of : Option Text → Result MissingImage Text
b64_json_of none = err missing_b64_json
b64_json_of (some value) = if is_empty (trim value) then err missing_b64_json else ok value

unfoldable pub b64_json_entries : List Value → Result MissingImage (List Text)
unfolding value_get trim
b64_json_entries [] = ok []
b64_json_entries (item ∷ more) =
    b64_json_of (and_then (value_get (codes "b64_json") item) as_str)
    >>= (λ entry. b64_json_entries more >>= (λ entries. ok (entry ∷ entries)))

abbrev pub entries_of : Option Items → Result MissingImage (List Text)
entries_of none = err missing_data
entries_of (some xs) = elim (items xs) [
  | [] ↦ err empty_data
  | item ∷ more ↦ b64_json_entries (item ∷ more)
]

unfoldable pub extract_openai_b64_json_entries : Value → Result MissingImage (List Text)
unfolding b64_json_entries value_get
extract_openai_b64_json_entries body =
    entries_of (and_then (value_get (codes "data") body) as_array)

unfoldable pub build_openai_image_output_url : (Text → Text) → Config → Text → Text → Text
unfolding eq_ignore_ascii_case trim resolved_external_image_proxy_prefix wrap_external_proxy_url
build_openai_image_output_url byte_serialize config provider target_url =
    let external_proxy_prefix = resolved_external_image_proxy_prefix config in
    if config.proxy_standard_output_urls
      && not (eq_ignore_ascii_case provider (codes "r2"))
      && not (is_empty (trim external_proxy_prefix))
    then wrap_external_proxy_url byte_serialize external_proxy_prefix target_url
    else target_url

-- `map.entry(key).or_insert(v)`; `insert` is `Map::insert`.
abbrev pub or_insert : (Text → Value → Fields → Fields) → Text → Value → Fields → Fields
or_insert insert key v map = elim (get key map) [ none ↦ insert key v map | some old ↦ map ]

abbrev pub annotated : (Text → Value → Fields → Fields) → ℕ → Fields → Fields
annotated insert status error = or_insert insert (codes "kind") (str (codes "upstream_error")) (
    or_insert insert (codes "stage") (str (codes "upstream_response")) (
      or_insert insert (codes "source") (str (codes "upstream"))
        (or_insert insert (codes "code") (num (decimal status)) error)))

-- Between `from_slice` and `to_vec`.
unfoldable pub annotate_upstream_error_json :
    (Text → Value → Fields → Fields) → ℕ → Value → Option Value
unfolding value_get get update decimal
annotate_upstream_error_json insert status body =
    and_then (and_then (value_get (codes "error") body) as_object) (λ error.
      some (on_object (update (codes "error") (λ _. obj (annotated insert status error))) body))

abbrev pub string_at : Text → Fields → Text
string_at key error = unwrap_or (and_then (get key error) as_str) []

abbrev pub with_upstream : Bool → ℕ → Text → AdminLogEntry → AdminLogEntry
with_upstream false status sanitized_response entry = entry
with_upstream true status sanitized_response entry = record entry {
  upstream_status_code = status;
  upstream_error_body = sanitized_response;
}

abbrev pub with_error : Option Fields → ℕ → Text → AdminLogEntry → AdminLogEntry
with_error none status sanitized_response entry = entry
with_error (some error) status sanitized_response entry =
    with_upstream (text_eq (string_at (codes "source") error) (codes "upstream")) status
      sanitized_response
      (record entry {
        error_source = string_at (codes "source") error;
        error_stage = string_at (codes "stage") error;
        error_kind = string_at (codes "kind") error;
        error_message = string_at (codes "message") error;
      })

unfoldable pub apply_admin_error_fields : AdminLogEntry → ℕ → Value → Text → AdminLogEntry
unfolding value_get get text_eq
apply_admin_error_fields entry status response_json sanitized_response =
    with_error (and_then (value_get (codes "error") response_json) as_object) status
      sanitized_response entry

-- What a request for the admin pages is refused with; the state is the password where there is one.
unfoldable pub authorize_admin : (Text → Option Text) → Option Text → Option Text → Option ℕ
unfolding check_basic_auth
authorize_admin decode none header = some 404
authorize_admin decode (some password) header =
    if not (check_basic_auth decode password header) then some 401 else none
