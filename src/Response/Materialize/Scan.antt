-- ===== src/Response/Materialize/Scan.antt =====
-- rust-sync-proxy/src/response_materialize.rs: what a second scan of a patched response finds.
use gemini_worker_go.Prelude.{
  ◌≡◌, refl, sym, ap, ◌∙◌, true, false, Bool-cases, Option-cases, inl, inr, none, some, Option,
  and_then, List, [], ◌∷◌, ◌++◌, arith, append-nil, and_then-eq-some,
}
use gemini_worker_go.Text.{Text, codes, text_eq}
use gemini_worker_go.Text.Laws.{text_eq→eq}
use gemini_worker_go.Json.{
  Value, Items, Fields, null, bool, num, str, arr, obj, nil, cons, end, field, get, as_str,
  as_object, as_str-eq-some, as_object-eq-some,
}
use gemini_worker_go.Request.Encode.Body.{update, on_object}
use gemini_worker_go.Request.Encode.Strip.{get-update}
use gemini_worker_go.Response.{is_url_like}
use gemini_worker_go.Response.Materialize.{
  InlineDataEntry, entry_eq, contains, entry_of, entry_at, push_entry, walk, walk_items,
  walk_values, insert, with_url, patch_inline_data_urls, patch_items, patch_values,
}

-- A change of a field that the walk does not see.
walk_values-update :
    (key : Text) (g : Value → Value) (fs : Fields) (acc : List InlineDataEntry)
    → ((v : Value)
        → get key fs ≡ some v
        → (acc' : List InlineDataEntry) → walk (g v) acc' ≡ walk v acc')
    → walk_values (update key g fs) acc ≡ walk_values fs acc
unfolding update get walk
walk_values-update key g end acc h = refl
walk_values-update key g (field k v fs) acc h = elim (Bool-cases (text_eq k key)) [
  | inl same ↦ rw same (ap (walk_values fs) (h v (rw same refl) acc))
  | inr other ↦ rw other (walk_values-update key g fs (walk v acc) (λ w e. h w (rw other e)))
]

get-update_ne :
    (key j : Text) (g : Value → Value) (fs : Fields)
    → text_eq key j ≡ false
    → get j (update key g fs) ≡ get j fs
get-update_ne key j g fs other = get-update key j g fs ∙ rw other

entry_at-data :
    (url : Text) (fs : Fields) → entry_at (update (codes "data") (λ _. str url) fs) ≡ entry_at fs
unfolding entry_at text_eq
entry_at-data url fs = rw (get-update_ne (codes "data") (codes "inlineData") (λ _. str url) fs refl)

-- Another string in place of the data is nothing to the walk.
walk-data :
    (url text : Text) (fs : Fields) (acc : List InlineDataEntry)
    → get (codes "data") fs ≡ some (str text)
    → walk (obj (update (codes "data") (λ _. str url) fs)) acc ≡ walk (obj fs) acc
unfolding walk
walk-data url text fs acc h =
    ap (λ o. walk_values (update (codes "data") (λ _. str url) fs) (push_entry o acc))
      (entry_at-data url fs)
    ∙ walk_values-update (codes "data") (λ _. str url) fs (push_entry (entry_at fs) acc)
        (λ v e acc'. let same : v ≡ str text = cc in rw same refl)

pub entry_eq→eq : (a b : InlineDataEntry) → entry_eq a b ≡ true → a ≡ b
unfolding entry_eq
entry_eq→eq a b h = ground (arith, text_eq→eq a.mime_type b.mime_type, text_eq→eq a.base64 b.base64)

none-some {ℓ} : {A : Type ℓ} {a : A} → none ≡ some a → ⊥
none-some h = cc

base64_of : Option InlineDataEntry → Text
base64_of none = []
base64_of (some e) = e.base64

type_of : Option InlineDataEntry → Text
type_of none = []
type_of (some e) = e.mime_type

entry_parts :
    (fs : Fields) (e : InlineDataEntry)
    → entry_of fs ≡ some e
    → (get (codes "data") fs ≡ some (str e.base64))
      × (and_then (get (codes "mimeType") fs) as_str ≡ some e.mime_type)
unfolding entry_of base64_of type_of
entry_parts fs e h =
    let (text, hs, h1) = and_then-eq-some (and_then (get (codes "data") fs) as_str) _ h in
    let (mime_type, hm, h2) = and_then-eq-some (and_then (get (codes "mimeType") fs) as_str) _ h1 in
    let (w, hw, ht) = and_then-eq-some (get (codes "data") fs) as_str hs in
    let is_str : w ≡ str text = as_str-eq-some w text ht in
    let same_text : text ≡ e.base64 = ap base64_of h2 in
    let same_type : mime_type ≡ e.mime_type = ap type_of h2 in
    (hw ∙ ap some (is_str ∙ ap str same_text), hm ∙ ap some same_type)

entry_of_replaced :
    (url : Text) (fs : Fields) (e : InlineDataEntry)
    → entry_of fs ≡ some e
    → entry_of (update (codes "data") (λ _. str url) fs)
      ≡ some (record { mime_type = e.mime_type; base64 = url })
unfolding entry_of text_eq
entry_of_replaced url fs e h =
    let (hd, hm) = entry_parts fs e h in
    rw (
      get-update (codes "data") (codes "data") (λ _. str url) fs,
      get-update_ne (codes "data") (codes "mimeType") (λ _. str url) fs refl,
      hd,
      hm,
    )

-- An entry that is replaced has the same type and the new data, and the walk goes on as before.
insert_entry :
    (url : Text) (fs : Fields) (e : InlineDataEntry)
    → entry_at fs ≡ some e
    → (entry_at (insert (codes "data") url fs)
        ≡ some (record { mime_type = e.mime_type; base64 = url }))
      × ((acc : List InlineDataEntry)
          → walk_values (insert (codes "data") url fs) acc ≡ walk_values fs acc)
unfolding entry_at text_eq
insert_entry url fs e h =
    let (inline_data, hi, he) =
      and_then-eq-some (and_then (get (codes "inlineData") fs) as_object) entry_of h in
    let (v, hv, ho) = and_then-eq-some (get (codes "inlineData") fs) as_object hi in
    let is_obj : v ≡ obj inline_data = as_object-eq-some v inline_data ho in
    let found : get (codes "inlineData") fs ≡ some (obj inline_data) = hv ∙ ap some is_obj in
    let g = on_object (update (codes "data") (λ _. str url)) in
    (
      rw (get-update (codes "inlineData") (codes "inlineData") g fs, found)
          (entry_of_replaced url inline_data e he),
      λ acc. walk_values-update (codes "inlineData") g fs acc (λ w hw acc'.
          let same : w ≡ obj inline_data = cc in
          rw same (walk-data url e.base64 inline_data acc' (entry_parts inline_data e he).0)),
    )

abbrev pub cons_unless {ℓ} : {A : Type ℓ} → Option Text → A → List A → List A
cons_unless none e es = e ∷ es
cons_unless (some url) e es = es

module _ (f : InlineDataEntry → Option Text) where
  abbrev pub keep : List InlineDataEntry → List InlineDataEntry
  keep [] = []
  keep (e ∷ es) = cons_unless (f e) e (keep es)

  get-patch :
      (key : Text) (fs : Fields)
      → get key (patch_values f fs) ≡ and_then (get key fs) (λ v. some (patch_inline_data_urls f v))
  unfolding get patch_values
  get-patch key end = refl
  get-patch key (field k v fs) = ground (arith, get-patch key fs)

  as_str-patch : (v : Value) → as_str (patch_inline_data_urls f v) ≡ as_str v
  unfolding patch_inline_data_urls
  as_str-patch null = refl
  as_str-patch (bool b) = refl
  as_str-patch (num n) = refl
  as_str-patch (str s) = refl
  as_str-patch (arr xs) = refl
  as_str-patch (obj fs) = refl

  string-patch :
      (o : Option Value)
      → and_then (and_then o (λ v. some (patch_inline_data_urls f v))) as_str ≡ and_then o as_str
  string-patch none = refl
  string-patch (some v) = as_str-patch v

  entry_of-patch_values : (fs : Fields) → entry_of (patch_values f fs) ≡ entry_of fs
  unfolding entry_of
  entry_of-patch_values fs = rw (
    get-patch (codes "data") fs,
    get-patch (codes "mimeType") fs,
    string-patch (get (codes "data") fs),
    string-patch (get (codes "mimeType") fs),
  )

  entry_of-with_url : (u : Option Text) (fs : Fields) → entry_of (with_url u fs) ≡ entry_of fs
  unfolding entry_of text_eq
  entry_of-with_url none fs = refl
  entry_of-with_url (some url) fs =
      let g = on_object (update (codes "data") (λ _. str url)) in
      rw (
        get-update_ne (codes "inlineData") (codes "data") g fs refl,
        get-update_ne (codes "inlineData") (codes "mimeType") g fs refl,
      )

  object-patch :
      (o : Option Value)
      → and_then (and_then (and_then o (λ v. some (patch_inline_data_urls f v))) as_object) entry_of
        ≡ and_then (and_then o as_object) entry_of
  unfolding patch_inline_data_urls
  object-patch none = refl
  object-patch (some null) = refl
  object-patch (some (bool b)) = refl
  object-patch (some (num n)) = refl
  object-patch (some (str s)) = refl
  object-patch (some (arr xs)) = refl
  object-patch (some (obj fs)) =
      entry_of-with_url (and_then (entry_at fs) f) (patch_values f fs) ∙ entry_of-patch_values fs

  entry_at-patch_values : (fs : Fields) → entry_at (patch_values f fs) ≡ entry_at fs
  unfolding entry_at
  entry_at-patch_values fs =
      rw (get-patch (codes "inlineData") fs) (object-patch (get (codes "inlineData") fs))

  contains-keep :
      (acc : List InlineDataEntry) (e : InlineDataEntry)
      → f e ≡ none
      → contains (keep acc) e ≡ contains acc e
  unfolding contains
  contains-keep [] e kept = refl
  contains-keep (x ∷ xs) e kept = elim (Option-cases (f x)) [
    | inl n ↦ rw (n, contains-keep xs e kept)
    | inr (url, gone) ↦ elim (Bool-cases (entry_eq x e)) [
      | inl same ↦
          let e_is : x ≡ e = entry_eq→eq x e same in
          absurd (none-some (sym kept ∙ ap f (sym e_is) ∙ gone))
      | inr other ↦ rw (gone, other) (contains-keep xs e kept)
    ]
  ]

  keep-append :
      (acc : List InlineDataEntry) (e : InlineDataEntry)
      → keep (acc ++ e ∷ []) ≡ keep acc ++ keep (e ∷ [])
  keep-append [] e = refl
  keep-append (x ∷ xs) e = elim (Option-cases (f x)) [
    | inl n ↦ rw (n, keep-append xs e)
    | inr (url, gone) ↦ rw (gone, keep-append xs e)
  ]

  keep_one : (e : InlineDataEntry) → f e ≡ none → keep (e ∷ []) ≡ e ∷ []
  keep_one e kept = rw kept

  push_kept :
      (e : InlineDataEntry) (acc : List InlineDataEntry)
      → f e ≡ none
      → push_entry (some e) (keep acc) ≡ keep (push_entry (some e) acc)
  unfolding push_entry
  push_kept e acc kept = elim (Bool-cases (is_url_like e.base64)) [
    | inl link ↦ rw link
    | inr image ↦ elim (Bool-cases (contains acc e)) [
      | inl old ↦ rw (image, contains-keep acc e kept, old)
      | inr new ↦
          rw (image, contains-keep acc e kept, new)
            (sym (keep-append acc e ∙ ap (λ es. keep acc ++ es) (keep_one e kept)))
    ]
  ]

  push_gone :
      (e : InlineDataEntry) (acc : List InlineDataEntry) {url : Text}
      → f e ≡ some url
      → keep acc ≡ keep (push_entry (some e) acc)
  unfolding push_entry
  push_gone e acc gone = elim (Bool-cases (is_url_like e.base64)) [
    | inl link ↦ rw link
    | inr image ↦ elim (Bool-cases (contains acc e)) [
      | inl old ↦ rw (image, old)
      | inr new ↦ rw (image, new) (sym (keep-append acc e ∙ rw gone (append-nil (keep acc))))
    ]
  ]

  -- The replacements are URLs.
  abbrev pub AreLinks : Type 0
  AreLinks = (e : InlineDataEntry) (url : Text) → f e ≡ some url → is_url_like url ≡ true

  push-with_url :
      (o : Option InlineDataEntry) (fs : Fields) (acc : List InlineDataEntry)
      → AreLinks
      → entry_at fs ≡ o
      → walk_values
          (with_url (and_then o f) fs)
          (push_entry (entry_at (with_url (and_then o f) fs)) (keep acc))
        ≡ walk_values fs (keep (push_entry o acc))
  unfolding push_entry
  push-with_url none fs acc links h = rw h refl
  push-with_url (some e) fs acc links h = elim (Option-cases (f e)) [
    | inl kept ↦ rw (kept, h) (ap (walk_values fs) (push_kept e acc kept))
    | inr (url, gone) ↦
        let (here, after) = insert_entry url fs e h in
        rw gone (
          ap (λ o. walk_values (insert (codes "data") url fs) (push_entry o (keep acc))) here
          ∙ rw (links e url gone) (after (keep acc))
          ∙ ap (walk_values fs) (push_gone e acc gone))
  ]

  mutual
    unfolding walk walk_items walk_values patch_inline_data_urls patch_items patch_values

    -- The scan of a patched value finds the entries that are kept.
    pub walk-patch :
        (v : Value) (acc : List InlineDataEntry)
        → AreLinks
        → walk (patch_inline_data_urls f v) (keep acc) ≡ keep (walk v acc)
    walk-patch null acc links = refl
    walk-patch (bool b) acc links = refl
    walk-patch (num n) acc links = refl
    walk-patch (str s) acc links = refl
    walk-patch (arr xs) acc links = walk_items-patch xs acc links
    walk-patch (obj fs) acc links =
        push-with_url (entry_at fs) (patch_values f fs) acc links (entry_at-patch_values fs)
        ∙ walk_values-patch fs (push_entry (entry_at fs) acc) links

    walk_items-patch :
        (xs : Items) (acc : List InlineDataEntry)
        → AreLinks
        → walk_items (patch_items f xs) (keep acc) ≡ keep (walk_items xs acc)
    walk_items-patch nil acc links = refl
    walk_items-patch (cons v vs) acc links =
        ap (walk_items (patch_items f vs)) (walk-patch v acc links)
        ∙ walk_items-patch vs (walk v acc) links

    walk_values-patch :
        (fs : Fields) (acc : List InlineDataEntry)
        → AreLinks
        → walk_values (patch_values f fs) (keep acc) ≡ keep (walk_values fs acc)
    walk_values-patch end acc links = refl
    walk_values-patch (field k v fs) acc links =
        ap (walk_values (patch_values f fs)) (walk-patch v acc links)
        ∙ walk_values-patch fs (walk v acc) links
