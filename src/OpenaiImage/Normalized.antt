-- ===== src/OpenaiImage/Normalized.antt =====
-- rust-sync-proxy/src/openai_image.rs, `normalize_request_body`: what a normalised request holds.
use gemini_worker_go.Prelude.{
  ◌≡◌, refl, sym, ap, ◌∙◌, Bool, true, false, not, Option, none, some, List, [], ◌∷◌, ◌++◌,
  append_assoc, append-nil, All, All-append, ◌||◌, Result, ok, err, >>=-eq-ok, if◌then◌else◌, arith,
}
use gemini_worker_go.Text.{Text, codes, text_eq, is_empty, trim}
use gemini_worker_go.Json.{
  Value, Fields, null, bool, num, str, arr, obj, get, value_get, items, from_list,
}
use gemini_worker_go.Url.{UrlParser, ParsedUrl, is_http, host_or_empty}
use gemini_worker_go.OpenaiImage.{
  MapOperations, BodyError, validate_parsed, validate_reference_image_url, push_images,
  collect_alias, collect_reference_images, image_field_aliases, strings, with_images,
  normalize_object, normalize_request_body,
}

-- The strings of an array; nothing for what is no array of strings.
abbrev pub strings_in : List Value → List Text
strings_in [] = []
strings_in (str s ∷ vs) = s ∷ strings_in vs
strings_in (_ ∷ vs) = strings_in vs

abbrev pub urls_at : Option Value → List Text
urls_at (some (arr xs)) = strings_in (items xs)
urls_at _ = []

fields_left :
    (a r i m : Bool) (s t o : Option Value)
    → (if a
        then s
        else if r
        then t
        else if m
        then none
        else if i
        then none
        else if r
        then none
        else o)
      ≡ (if a then s else if r then t else if i || m then none else o)
fields_left true r i m s t o = refl
fields_left false true i m s t o = refl
fields_left false false true true s t o = refl
fields_left false false true false s t o = refl
fields_left false false false true s t o = refl
fields_left false false false false s t o = refl

ok_inj : (v w : Value) (r : Result BodyError Value) → r ≡ ok v → r ≡ ok w → v ≡ w
ok_inj v w r hv hw = cc

past_test :
    {A : Type 0} (b : Bool) (e : BodyError) (r : Result BodyError A) {a : A}
    → (if not b then err e else r) ≡ ok a
    → r ≡ ok a
past_test true e r h = h
past_test false e r h = cc

module _ (parse : UrlParser) where
  -- An http or https URL whose host is not blank.
  abbrev pub IsImageUrl : Text → Type 0
  IsImageUrl raw =
      (parsed : ParsedUrl) × (parse raw ≡ ok parsed)
      × (is_http parsed ≡ true)
      × (is_empty (trim (host_or_empty parsed)) ≡ false)

  All-along : {us vs : List Text} → us ≡ vs → All IsImageUrl us → All IsImageUrl vs
  All-along e h = rw (sym e) h

  validate_parsed-IsImageUrl :
      (raw : Text) (r : Result Text ParsedUrl) {u : Unit {0}}
      → parse raw ≡ r
      → validate_parsed r ≡ ok u
      → IsImageUrl raw
  unfolding validate_parsed
  validate_parsed-IsImageUrl raw (err e) same h = cc
  validate_parsed-IsImageUrl raw (ok parsed) same h =
      (parsed, same, ground (arith, h), ground (arith, h))

  is_valid :
      (raw : Text) {u : Unit {0}} → validate_reference_image_url parse raw ≡ ok u → IsImageUrl raw
  unfolding validate_reference_image_url
  is_valid raw h = validate_parsed-IsImageUrl raw (parse raw) refl h

  push_images-strings_in :
      (alias : Text) (array : List Value) (images last : List Text)
      → push_images parse alias array images ≡ ok last
      → (last ≡ images ++ strings_in array) × All IsImageUrl (strings_in array)
  unfolding push_images
  push_images-strings_in alias [] images last h =
      let same : images ≡ last = cc in (sym same ∙ sym (append-nil images), tt)
  push_images-strings_in alias (str raw ∷ array) images last h =
      let (u, valid, rest) = >>=-eq-ok (validate_reference_image_url parse raw) _ h in
      let (same, others) = push_images-strings_in alias array (images ++ raw ∷ []) last rest in
      (same ∙ append_assoc images (raw ∷ []) (strings_in array), (is_valid raw valid, others))
  push_images-strings_in alias (null ∷ array) images last h = cc
  push_images-strings_in alias (bool b ∷ array) images last h = cc
  push_images-strings_in alias (num n ∷ array) images last h = cc
  push_images-strings_in alias (arr xs ∷ array) images last h = cc
  push_images-strings_in alias (obj fs ∷ array) images last h = cc

  collect_alias-urls_at :
      (alias : Text) (o : Option Value) (images last : List Text)
      → collect_alias parse alias o images ≡ ok last
      → (last ≡ images ++ urls_at o) × All IsImageUrl (urls_at o)
  unfolding collect_alias
  collect_alias-urls_at alias none images last h =
      let same : images ≡ last = cc in (sym same ∙ sym (append-nil images), tt)
  collect_alias-urls_at alias (some (arr xs)) images last h =
      push_images-strings_in alias (items xs) images last h
  collect_alias-urls_at alias (some null) images last h = cc
  collect_alias-urls_at alias (some (bool b)) images last h = cc
  collect_alias-urls_at alias (some (num n)) images last h = cc
  collect_alias-urls_at alias (some (str s)) images last h = cc
  collect_alias-urls_at alias (some (obj fs)) images last h = cc

  module _ (maps : MapOperations) where
    open maps use {remove, insert, get-remove, get-insert}

    -- The URLs of the aliases, in their order, and the object without them.
    abbrev urls_of : List Text → Fields → List Text
    urls_of [] object = []
    urls_of (alias ∷ aliases) object =
        urls_at (get alias object) ++ urls_of aliases (remove alias object)

    abbrev without : List Text → Fields → Fields
    without [] object = object
    without (alias ∷ aliases) object = without aliases (remove alias object)

    collect_reference_images-urls_of :
        (aliases : List Text) (object : Fields) (images : List Text) {last : List Text × Fields}
        → collect_reference_images parse maps aliases object images ≡ ok last
        → (last ≡ (images ++ urls_of aliases object, without aliases object))
          × All IsImageUrl (urls_of aliases object)
    unfolding collect_reference_images
    collect_reference_images-urls_of [] object images {last = last} h =
        let same : (images, object) ≡ last = cc in
        (sym same ∙ ap (λ urls. (urls, object)) (sym (append-nil images)), tt)
    collect_reference_images-urls_of (alias ∷ aliases) object images h =
        let (more, one, rest) =
          >>=-eq-ok (collect_alias parse alias (get alias object) images) _ h in
        let (e, valid) = collect_alias-urls_at alias (get alias object) images more one in
        let (same, others) =
          collect_reference_images-urls_of aliases (remove alias object) more rest in
        (
          same
              ∙ ap
                  (λ urls. (
                    urls ++ urls_of aliases (remove alias object),
                    without aliases (remove alias object),
                  ))
                  e
              ∙ ap (λ urls. (urls, without aliases (remove alias object)))
                  (append_assoc images (urls_at (get alias object)) _),
          All-append IsImageUrl (urls_at (get alias object)) _ valid others,
        )

    get_other : (k j : Text) (map : Fields) → text_eq k j ≡ false → get j (remove k map) ≡ get j map
    get_other k j map other = get-remove k j map ∙ rw other

    -- What is read of the object in the end.
    get-with_images :
        (urls : List Text) (map : Fields) (key : Text)
        → get key (
            insert (codes "response_format") (str (codes "b64_json")) (
              insert
                (codes "reference_images")
                (arr (from_list (strings urls)))
                (without image_field_aliases map)))
          ≡ (if text_eq (codes "response_format") key
              then some (str (codes "b64_json"))
              else if text_eq (codes "reference_images") key
              then some (arr (from_list (strings urls)))
              else if text_eq (codes "images") key || text_eq (codes "image") key
              then none
              else get key map)
    get-with_images urls map key =
        let a = codes "reference_images" in
        let b = codes "images" in
        let c = codes "image" in
        rw
          (
            get-insert (codes "response_format") key (str (codes "b64_json"))
                (insert a (arr (from_list (strings urls))) (without image_field_aliases map)),
            get-insert a key (arr (from_list (strings urls))) (without image_field_aliases map),
            get-remove c key (remove b (remove a map)),
            get-remove b key (remove a map),
            get-remove a key map,
          )
          (fields_left (text_eq (codes "response_format") key) (text_eq a key) (text_eq b key)
            (text_eq c key) _ _ (get key map))

    urls_of-map :
        (map : Fields)
        → urls_of image_field_aliases map
          ≡ urls_at (get (codes "reference_images") map)
            ++ (urls_at (get (codes "images") map) ++ urls_at (get (codes "image") map))
    unfolding text_eq
    urls_of-map map =
        let first = codes "reference_images" in
        let second = codes "images" in
        let third = codes "image" in
        rw (
          get_other first second map refl,
          get_other second third (remove first map) refl,
          get_other first third map refl,
          append-nil (urls_at (get third map)),
        )

    normalized_parts :
        (map : Fields) (v : Value) (urls : List Text)
        → urls_of image_field_aliases map ≡ urls
        → normalize_request_body parse maps (obj map) ≡ ok v
        → All IsImageUrl urls
          × ((key : Text)
              → value_get key v ≡ (
                  if text_eq (codes "response_format") key
                  then some (str (codes "b64_json"))
                  else if text_eq (codes "reference_images") key
                  then some (arr (from_list (strings urls)))
                  else if text_eq (codes "images") key || text_eq (codes "image") key
                  then none
                  else get key map))
    unfolding normalize_request_body normalize_object value_get
    normalized_parts map v urls e h =
        let (last, hc, hv) =
          >>=-eq-ok (collect_reference_images parse maps image_field_aliases map [])
            (with_images parse maps) (past_test _ _ _ h) in
        let (same, valid) = collect_reference_images-urls_of image_field_aliases map [] hc in
        let made : with_images parse maps (urls, without image_field_aliases map) ≡ ok v =
          ap (with_images parse maps)
            (sym (same ∙ ap (λ us. (us, without image_field_aliases map)) e))
          ∙ hv in
        (
          All-along e valid,
          λ key.
              ap (value_get key) (
                sym (
                  ok_inj _ v (with_images parse maps (urls, without image_field_aliases map)) refl
                    made))
              ∙ get-with_images urls map key,
        )

    -- A request that is normalised has the images of the three fields, in their order, as its
    -- reference images, each an http or https URL with a host; it asks for base64, has lost the other
    -- two fields, and is otherwise as it was.
    pub normalize_request_body-get :
        (map : Fields) (v : Value)
        → normalize_request_body parse maps (obj map) ≡ ok v
        → let urls =
            urls_at (get (codes "reference_images") map)
            ++ (urls_at (get (codes "images") map) ++ urls_at (get (codes "image") map)) in
          All IsImageUrl urls
          × ((key : Text)
              → value_get key v ≡ (
                  if text_eq (codes "response_format") key
                  then some (str (codes "b64_json"))
                  else if text_eq (codes "reference_images") key
                  then some (arr (from_list (strings urls)))
                  else if text_eq (codes "images") key || text_eq (codes "image") key
                  then none
                  else get key map))
    normalize_request_body-get map v h = normalized_parts map v _ (urls_of-map map) h
