-- ===== src/Response/Materialize/Uploaded.antt =====
-- rust-sync-proxy/src/response_materialize.rs, `finalize_output_urls`, with the results of the uploads
-- as a function of the entry.
use gemini_worker_go.Prelude.{
  ◌≡◌, refl, sym, ap, ◌∙◌, Bool, true, false, ◌||◌, Bool-cases, inl, inr, Option, none, some, List,
  [], ◌∷◌, All, Result, ok, err, if◌then◌else◌, arith,
}
use gemini_worker_go.Text.{Text}
use gemini_worker_go.Text.Laws.{text_eq_refl}
use gemini_worker_go.Json.{Value}
use gemini_worker_go.Config.{Config}
use gemini_worker_go.Upload.{UploadError, UploadResult}
use gemini_worker_go.Response.{is_url_like}
use gemini_worker_go.Response.Materialize.{
  InlineDataEntry, entry_eq, contains, scan_inline_data_base64_entries, lookup_entry,
  url_replacements, uploaded, final_url, finalize_output_urls,
}
use gemini_worker_go.Response.Materialize.Scan.{
  entry_eq→eq, cons_unless, keep, AreLinks, walk-patch,
}

entry_eq_refl : (e : InlineDataEntry) → entry_eq e e ≡ true
unfolding entry_eq
entry_eq_refl e = rw (text_eq_refl e.mime_type, text_eq_refl e.base64)

contains_more :
    (y : InlineDataEntry) (es xs : List InlineDataEntry)
    → All (λ e. contains es e ≡ true) xs
    → All (λ e. contains (y ∷ es) e ≡ true) xs
unfolding contains
contains_more y es [] h = tt
contains_more y es (x ∷ xs) h = (ground (arith, h.0), contains_more y es xs h.1)

contains_self : (es : List InlineDataEntry) → All (λ e. contains es e ≡ true) es
unfolding contains
contains_self [] = tt
contains_self (e ∷ es) = (rw (entry_eq_refl e), contains_more e es es (contains_self es))

abbrev pub unless_ok :
    Result UploadError UploadResult → InlineDataEntry → List InlineDataEntry → List InlineDataEntry
unless_ok (ok r) e es = es
unless_ok (err fault) e es = e ∷ es

-- The entries whose upload fails.
abbrev pub failed_in :
    (InlineDataEntry → Result UploadError UploadResult)
    → List InlineDataEntry
    → List InlineDataEntry
failed_in upload [] = []
failed_in upload (e ∷ es) = unless_ok (upload e) e (failed_in upload es)

abbrev no_link : Option Text
no_link = none

if_none : (b : Bool) → (if b then no_link else no_link) ≡ no_link
if_none true = refl
if_none false = refl

module _ (upload : InlineDataEntry → Result UploadError UploadResult)
    (url_of : UploadResult → Text) where
  outcome : Result UploadError UploadResult → Option Text
  outcome (ok r) = some (url_of r)
  outcome (err e) = none

  lookup_uploaded :
      (x e : InlineDataEntry) (r : Result UploadError UploadResult)
      (rest : List (InlineDataEntry × Text)) (old : Bool)
      → upload x ≡ r
      → lookup_entry rest e ≡ (if old then outcome (upload e) else none)
      → lookup_entry (uploaded url_of x r rest) e
        ≡ (if entry_eq x e || old then outcome (upload e) else none)
  unfolding lookup_entry outcome
  lookup_uploaded x e (ok r) rest old hx h = elim (Bool-cases (entry_eq x e)) [
    | inl same ↦ rw same (sym (ap outcome (ap upload (sym (entry_eq→eq x e same)) ∙ hx)))
    | inr other ↦ rw other h
  ]
  lookup_uploaded x e (err fault) rest old hx h = elim (Bool-cases (entry_eq x e)) [
    | inl same ↦
        let fails : outcome (upload e) ≡ none =
          ap outcome (ap upload (sym (entry_eq→eq x e same)) ∙ hx) in
        rw same (h ∙ rw fails (if_none old) ∙ sym fails)
    | inr other ↦ rw other h
  ]

  lookup-url_replacements :
      (es : List InlineDataEntry) (e : InlineDataEntry)
      → lookup_entry (url_replacements upload url_of es) e
        ≡ (if contains es e then outcome (upload e) else none)
  unfolding url_replacements contains lookup_entry
  lookup-url_replacements [] e = refl
  lookup-url_replacements (x ∷ es) e =
      lookup_uploaded x e (upload x) (url_replacements upload url_of es) (contains es e) refl
        (lookup-url_replacements es e)

  unless_outcome :
      (r : Result UploadError UploadResult) (e : InlineDataEntry) (es : List InlineDataEntry)
      → cons_unless (outcome r) e es ≡ unless_ok r e es
  unfolding outcome
  unless_outcome (ok r) e es = refl
  unless_outcome (err fault) e es = refl

  keep_outcomes :
      (f : InlineDataEntry → Option Text) (es : List InlineDataEntry)
      → All (λ e. f e ≡ outcome (upload e)) es
      → keep f es ≡ failed_in upload es
  keep_outcomes f [] h = refl
  keep_outcomes f (e ∷ es) h =
      rw (h.0, keep_outcomes f es h.1) (unless_outcome (upload e) e (failed_in upload es))

  replaced : List InlineDataEntry → InlineDataEntry → Option Text
  replaced entries = lookup_entry (url_replacements upload url_of entries)

  replaced-outcome :
      (entries es : List InlineDataEntry)
      → All (λ e. contains entries e ≡ true) es
      → All (λ e. replaced entries e ≡ outcome (upload e)) es
  unfolding replaced
  replaced-outcome entries [] h = tt
  replaced-outcome entries (e ∷ es) h =
      (lookup-url_replacements entries e ∙ rw (h.0), replaced-outcome entries es h.1)

  outcome-link :
      (r : Result UploadError UploadResult) (url : Text)
      → ((r' : UploadResult) → r ≡ ok r' → is_url_like (url_of r') ≡ true)
      → outcome r ≡ some url
      → is_url_like url ≡ true
  unfolding outcome
  outcome-link (err e) url links h = cc
  outcome-link (ok r) url links h = let same : url_of r ≡ url = cc in rw (sym same) (links r refl)

  replaced-AreLinks :
      (entries : List InlineDataEntry)
      → ((e : InlineDataEntry) (r : UploadResult) → upload e ≡ ok r → is_url_like (url_of r) ≡ true)
      → AreLinks (replaced entries)
  unfolding replaced
  replaced-AreLinks entries links e url h = elim (Bool-cases (contains entries e)) [
    | inl old ↦
        let there : outcome (upload e) ≡ some url =
          sym (lookup-url_replacements entries e ∙ rw old) ∙ h in
        outcome-link (upload e) url (links e) there
    | inr new ↦
        let nothing : none ≡ some url = sym (lookup-url_replacements entries e ∙ rw new) ∙ h in cc
  ]

-- A second scan of a response whose images were uploaded finds just those whose upload failed, in
-- their order, if every final URL begins with `http://`, `https://` or `/proxy/image`.
pub scan_inline_data_base64_entries-finalize_output_urls :
    (byte_serialize : Text → Text) (upload : InlineDataEntry → Result UploadError UploadResult)
    (config : Config) (body : Value)
    → ((e : InlineDataEntry) (r : UploadResult)
        → upload e ≡ ok r
        → is_url_like (final_url byte_serialize config r) ≡ true)
    → scan_inline_data_base64_entries (finalize_output_urls byte_serialize upload config body)
      ≡ failed_in upload (scan_inline_data_base64_entries body)
unfolding finalize_output_urls scan_inline_data_base64_entries replaced
scan_inline_data_base64_entries-finalize_output_urls byte_serialize upload config body links =
    let url_of = final_url byte_serialize config in
    let entries = scan_inline_data_base64_entries body in
    walk-patch (replaced upload url_of entries) body []
      (replaced-AreLinks upload url_of entries links)
    ∙ keep_outcomes upload url_of (replaced upload url_of entries) entries
        (replaced-outcome upload url_of entries entries (contains_self entries))
