-- ===== src/Request/Scan/Sound.antt =====
-- rust-sync-proxy/src/request_scan.rs: where the pointers of the matches lead.
use gemini_worker_go.Prelude.{
  ℕ, ◌+◌, ◌<◌, ◌≡◌, ◌≢◌, refl, ap, ◌∙◌, true, false, some, List, [], ◌∷◌, ◌++◌, ok, arith,
  append_assoc, All, All-append, Bool-cases, inl, inr, Option-cases, and_then-eq-some,
}
use gemini_worker_go.Text.{Text, codes, text_eq}
use gemini_worker_go.Text.Laws.{text_eq_iff, text_eq_refl}
use gemini_worker_go.Text.Decimal.{decimal, decimal_inj}
use gemini_worker_go.Json.{
  Value, Items, Fields, null, bool, num, str, arr, obj, nil, cons, end, field, get, IsFree, IsMap,
  AreMaps, HasMaps, as_object, as_str, as_str-eq-some, as_object-eq-some,
}
use gemini_worker_go.Request.Scan.{
  RequestImageRef, escape_json_pointer_token, is_http_url, http_only, inline_data_url, child_path,
  scan_request_image_urls,
}
use gemini_worker_go.Request.Scan.Complete.{
  own_ref, refs, refs_items, refs_fields, scan_request_image_urls-refs,
}
use gemini_worker_go.Request.Pointer.{
  render, resolve, item_at, pointer, pointer-render, escape-decimal,
}

-- Below `v`, whose pointer is `path`, the match leads to an object with the URL as its `data`.
abbrev pub Leads : Value → Text → RequestImageRef → Type 0
Leads v path r =
    (ts : List Text) × (inline_data : Fields) × (r.json_pointer ≡ path ++ render ts)
    × (resolve ts v ≡ some (obj inline_data))
    × (get (codes "data") inline_data ≡ some (str r.url))
    × (is_http_url r.url ≡ true)

-- A field of an object, and an item of an array, by the token that names it.
abbrev Names : Text → Value → Value → Type 0
Names t v w = (ts : List Text) → resolve (t ∷ ts) v ≡ resolve ts w

Leads-child :
    (v w : Value) (path t : Text) (r : RequestImageRef)
    → Names t v w
    → Leads w (child_path path (escape_json_pointer_token t)) r
    → Leads v path r
Leads-child v w path t r names (ts, inline_data, at, found, url, http) =
    (t ∷ ts, inline_data, at ∙ simp append_assoc, names ts ∙ found, url, http)

All-Leads :
    (v w : Value) (path t : Text) (rs : List RequestImageRef)
    → Names t v w
    → All (Leads w (child_path path (escape_json_pointer_token t))) rs
    → All (Leads v path) rs
All-Leads v w path t [] names h = tt
All-Leads v w path t (r ∷ rs) names (p, h) =
    (Leads-child v w path t r names p, All-Leads v w path t rs names h)

http_only-eq-some : (s u : Text) → http_only s ≡ some u → (s ≡ u) × (is_http_url u ≡ true)
http_only-eq-some s u h = ground arith

inline_data_url-eq-some :
    (map : Fields) (url : Text)
    → inline_data_url map ≡ some url
    → (inline_data : Fields) × (get (codes "inlineData") map ≡ some (obj inline_data))
      × (get (codes "data") inline_data ≡ some (str url))
      × (is_http_url url ≡ true)
unfolding inline_data_url
inline_data_url-eq-some map url h =
    let (v, at, h₁) = and_then-eq-some (get (codes "inlineData") map) _ h in
    let (inner, is_obj, h₂) = and_then-eq-some (as_object v) _ h₁ in
    let (d, at_data, h₃) = and_then-eq-some (get (codes "data") inner) _ h₂ in
    let (s, is_str, h₄) = and_then-eq-some (as_str d) http_only h₃ in
    let (same, http) = http_only-eq-some s url h₄ in
    (
      inner,
      at ∙ ap some (as_object-eq-some v inner is_obj),
      at_data ∙ ap some (as_str-eq-some d s is_str ∙ ap str same),
      http,
    )

Leads-own :
    (map : Fields) (path : Text) → All (Leads (obj map) path) (own_ref (inline_data_url map) path)
Leads-own map path = elim (Option-cases (inline_data_url map)) [
  | inl missing ↦ rw missing tt
  | inr (url, found) ↦
      let (inner, at, at_data, http) = inline_data_url-eq-some map url found in
      rw found (
        (
          codes "inlineData" ∷ [],
          inner,
          unfold escape_json_pointer_token in refl,
          unfold resolve in rw at,
          at_data,
          http,
        ),
        tt,
      )
]

abbrev FieldsOf : Fields → Fields → Type 0
FieldsOf end map = Unit
FieldsOf (field k v fs) map = (get k map ≡ some v) × FieldsOf fs map

FieldsOf-field :
    (j : Text) (w : Value) (fs map : Fields)
    → IsFree j fs
    → FieldsOf fs map
    → FieldsOf fs (field j w map)
unfolding get
FieldsOf-field j w end map h f = tt
FieldsOf-field j w (field k v fs) map (ne, h) (at, f) =
    (ground (arith, text_eq_iff j k, text_eq_iff k j), FieldsOf-field j w fs map h f)

FieldsOf-self : (fs : Fields) → HasMaps fs → FieldsOf fs fs
unfolding get IsMap
FieldsOf-self end h = tt
FieldsOf-self (field k v fs) (free, _, h) =
    (rw (text_eq_refl k), FieldsOf-field k v fs fs free (FieldsOf-self fs h))

abbrev ItemsOf : Items → ℕ → ℕ → Items → Type 0
ItemsOf nil i start all = Unit
ItemsOf (cons v vs) i start all =
    (item_at (decimal i) start all ≡ some v) × ItemsOf vs (i + 1) start all

decimal_ne : (i j : ℕ) → j ≢ i → text_eq (decimal j) (decimal i) ≡ false
decimal_ne i j ne = elim (Bool-cases (text_eq (decimal j) (decimal i))) [
  | inl t ↦ absurd (ne (decimal_inj j i ((text_eq_iff _ _).0 t)))
  | inr f ↦ f
]

ItemsOf-cons :
    (w : Value) (xs all : Items) (i start : ℕ)
    → start < i
    → ItemsOf xs i (start + 1) all
    → ItemsOf xs i start (cons w all)
unfolding item_at
ItemsOf-cons w nil i start all lt h = tt
ItemsOf-cons w (cons v vs) all i start lt (at, h) =
    (rw (decimal_ne i start (omega arith)) at, ItemsOf-cons w vs all (i + 1) start (omega arith) h)

ItemsOf-self : (xs : Items) (i : ℕ) → ItemsOf xs i i xs
unfolding item_at
ItemsOf-self nil i = tt
ItemsOf-self (cons v vs) i = (
  rw (text_eq_refl (decimal i)),
  ItemsOf-cons v vs vs (i + 1) i (omega arith) (ItemsOf-self vs (i + 1)),
)

Names-item :
    (all : Items) (v : Value) (i : ℕ)
    → item_at (decimal i) 0 all ≡ some v
    → Names (decimal i) (arr all) v
unfolding resolve
Names-item all v i at ts = rw at

Names-field : (map : Fields) (v : Value) (k : Text) → get k map ≡ some v → Names k (obj map) v
unfolding resolve
Names-field map v k at ts = rw at

mutual
  unfolding refs IsMap

  refs-Leads : (v : Value) (path : Text) → IsMap v → All (Leads v path) (refs v path)
  refs-Leads (obj map) path h =
      All-append _ _ _ (Leads-own map path) (refs_fields-Leads map map path h (FieldsOf-self map h))
  refs-Leads (arr xs) path h = refs_items-Leads xs xs 0 path h (ItemsOf-self xs 0)
  refs-Leads null path h = tt
  refs-Leads (bool b) path h = tt
  refs-Leads (num n) path h = tt
  refs-Leads (str s) path h = tt

  refs_items-Leads :
      (xs all : Items) (i : ℕ) (path : Text)
      → AreMaps xs
      → ItemsOf xs i 0 all
      → All (Leads (arr all) path) (refs_items xs i path)
  refs_items-Leads nil all i path h f = tt
  refs_items-Leads (cons v vs) all i path (hv, h) (at, f) =
      All-append _ _ _
        (All-Leads (arr all) v path (decimal i) _ (Names-item all v i at)
          (rw (escape-decimal i) (refs-Leads v (child_path path (decimal i)) hv)))
        (refs_items-Leads vs all (i + 1) path h f)

  refs_fields-Leads :
      (fs map : Fields) (path : Text)
      → HasMaps fs
      → FieldsOf fs map
      → All (Leads (obj map) path) (refs_fields fs path)
  refs_fields-Leads end map path h f = tt
  refs_fields-Leads (field k v fs) map path (_, hv, h) (at, f) =
      All-append _ _ _
        (All-Leads (obj map) v path k _ (Names-field map v k at)
          (refs-Leads v (child_path path (escape_json_pointer_token k)) hv))
        (refs_fields-Leads fs map path h f)

All-mono :
    (P Q : RequestImageRef → Type 0) (rs : List RequestImageRef)
    → ((r : RequestImageRef) → P r → Q r)
    → All P rs
    → All Q rs
All-mono P Q [] f h = tt
All-mono P Q (r ∷ rs) f (p, h) = (f r p, All-mono P Q rs f h)

-- What the pointer of a match has to mean in the whole request.
abbrev pub IsFaithful : Value → RequestImageRef → Type 0
IsFaithful body r =
    (inline_data : Fields) × (pointer r.json_pointer body ≡ some (obj inline_data))
    × (get (codes "data") inline_data ≡ some (str r.url))
    × (is_http_url r.url ≡ true)

Leads-IsFaithful : (body : Value) (r : RequestImageRef) → Leads body [] r → IsFaithful body r
Leads-IsFaithful body r (ts, inner, at, found, url, http) =
    (inner, ap (λ t. pointer t body) at ∙ pointer-render ts body ∙ found, url, http)

-- Where a scan succeeds, the pointer of each match, read by RFC 6901, leads from the request to an
-- object whose `data` is the URL of the match, and that URL begins with `http://` or `https://`.
-- The condition is that the keys of each object of the request are distinct.
pub scan_request_image_urls-IsFaithful :
    (body : Value) (matches : List RequestImageRef)
    → IsMap body
    → scan_request_image_urls body ≡ ok matches
    → All (IsFaithful body) matches
scan_request_image_urls-IsFaithful body matches h e =
    let same : refs body [] ≡ matches = ground (arith, scan_request_image_urls-refs body) in
    rw same at (All-mono _ _ (refs body []) (Leads-IsFaithful body) (refs-Leads body [] h))
