-- ===== src/Request/Encode/Strip.antt =====
-- rust-sync-proxy/src/request_encode.rs, `strip_output_from_value`: what a stripped request holds.
use gemini_worker_go.Prelude.{
  ◌≡◌, refl, sym, ap, ◌∙◌, Bool, true, false, Bool-cases, inl, inr, none, some, Option, and_then,
  if◌then◌else◌, arith,
}
use gemini_worker_go.Text.{Text, codes, text_eq}
use gemini_worker_go.Text.Laws.{text_eq_iff, text_eq→eq}
use gemini_worker_go.Json.{Value, Fields, obj, end, field, get, value_get}
use gemini_worker_go.Request.Codec.{Codec}
use gemini_worker_go.Request.Encode.Body.{update, on_object, strip_output_from_value}

pub get-update :
    (key j : Text) (f : Value → Value) (fs : Fields)
    → get j (update key f fs)
      ≡ (if text_eq key j then and_then (get j fs) (λ v. some (f v)) else get j fs)
unfolding update get
get-update key j f end = ground arith
get-update key j f (field k v fs) =
    ground (arith, get-update key j f fs, text_eq_iff key j, text_eq_iff k key, text_eq_iff k j)

abbrev changed : Bool → (Value → Value) → Option Value → Option Value
changed true f o = and_then o (λ v. some (f v))
changed false f o = o

abbrev removed : Bool → Option Value → Option Value
removed true o = none
removed false o = o

changes :
    (out a b : Bool) (f g : Value → Value) (o : Option Value)
    → (a ≡ true → b ≡ false)
    → changed b g (changed a f (removed out o)) ≡ (
        if out
        then none
        else if a
        then and_then o (λ v. some (f v))
        else if b
        then and_then o (λ v. some (g v))
        else o)
changes true true true f g o h = refl
changes true true false f g o h = refl
changes true false true f g o h = refl
changes true false false f g o h = refl
changes false true true f g o h = let never = h refl in cc
changes false true false f g o h = refl
changes false false true f g o h = refl
changes false false false f g o h = refl

get-changed :
    (key j : Text) (f : Value → Value) (fs : Fields)
    → get j (update key f fs) ≡ changed (text_eq key j) f (get j fs)
get-changed key j f fs = elim (Bool-cases (text_eq key j)) [
  | inl e ↦ rw e (get-update key j f fs ∙ rw e)
  | inr e ↦ rw e (get-update key j f fs ∙ rw e)
]

other_key :
    (j : Text)
    → text_eq (codes "generationConfig") j ≡ true
    → text_eq (codes "generation_config") j ≡ false
unfolding text_eq
other_key j h = let same = text_eq→eq (codes "generationConfig") j h in rw (sym same)

module _ (codec : Codec) where
  open codec use {remove, get-remove}

  get-removed :
      (key j : Text) (fs : Fields) → get j (remove key fs) ≡ removed (text_eq key j) (get j fs)
  get-removed key j fs = elim (Bool-cases (text_eq key j)) [
    | inl e ↦ rw e (get-remove key j fs ∙ rw e)
    | inr e ↦ rw e (get-remove key j fs ∙ rw e)
  ]

  -- A generation configuration that has lost the `output` of its image configuration.
  abbrev pub without_output : Text → Value → Value
  without_output image v = on_object (update image (on_object (remove (codes "output")))) v

  -- A stripped object has no `output`, its two generation configurations have lost no more than the
  -- `output` of their image configurations, and its other keys are as they were.
  pub strip_output_from_value-get :
      (map : Fields) (j : Text)
      → value_get j (strip_output_from_value codec (obj map)) ≡ (
          if text_eq (codes "output") j
          then none
          else if text_eq (codes "generationConfig") j
          then and_then (get j map) (λ v. some (without_output (codes "imageConfig") v))
          else if text_eq (codes "generation_config") j
          then and_then (get j map) (λ v. some (without_output (codes "image_config") v))
          else get j map)
  unfolding strip_output_from_value value_get
  strip_output_from_value-get map j =
      let a = text_eq (codes "generationConfig") j in
      let b = text_eq (codes "generation_config") j in
      let f = without_output (codes "imageConfig") in
      let g = without_output (codes "image_config") in
      let rest = remove (codes "output") map in
      get-changed (codes "generation_config") j g (update (codes "generationConfig") f rest)
      ∙ ap (changed b g) (
          get-changed (codes "generationConfig") j f rest
          ∙ ap (changed a f) (get-removed (codes "output") j map))
      ∙ changes (text_eq (codes "output") j) a b f g (get j map) (other_key j)
