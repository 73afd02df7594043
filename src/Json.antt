-- ===== src/Json.antt =====
-- The `Value` of serde_json, with the order of the fields kept (feature `preserve_order`), and the
-- readings of it that the program uses. A number is held as the text that it prints as.
use gemini_worker_go.Prelude.{◌≡◌, Bool, false, Option, none, some, List, [], ◌∷◌, if◌then◌else◌}
use gemini_worker_go.Text.{Text, text_eq}

mutual
  pub data Value : Type 0 where
    null : Value
    bool : Bool → Value
    num : Text → Value
    str : Text → Value
    arr : Items → Value
    obj : Fields → Value

  pub data Items : Type 0 where
    nil : Items
    cons : Value → Items → Items

  pub data Fields : Type 0 where
    end : Fields
    field : Text → Value → Fields → Fields

-- `map.get(key)`
unfoldable pub get : Text → Fields → Option Value
unfolding text_eq
get key end = none
get key (field k v fs) = if text_eq k key then some v else get key fs

-- `value.get(key)`
unfoldable pub value_get : Text → Value → Option Value
unfolding get
value_get key (obj fs) = get key fs
value_get key _ = none

abbrev pub as_str : Value → Option Text
as_str (str s) = some s
as_str _ = none

abbrev pub as_object : Value → Option Fields
as_object (obj fs) = some fs
as_object _ = none

abbrev pub as_array : Value → Option Items
as_array (arr xs) = some xs
as_array _ = none

abbrev pub items : Items → List Value
items nil = []
items (cons v vs) = v ∷ items vs

abbrev pub from_list : List Value → Items
from_list [] = nil
from_list (v ∷ vs) = cons v (from_list vs)

-- The keys of an object are distinct, at every depth.
abbrev pub IsFree : Text → Fields → Type 0
IsFree key end = Unit
IsFree key (field k v fs) = (text_eq k key ≡ false) × IsFree key fs

unfoldable mutual
  pub IsMap : Value → Type 0
  IsMap null = Unit
  IsMap (bool b) = Unit
  IsMap (num n) = Unit
  IsMap (str s) = Unit
  IsMap (arr xs) = AreMaps xs
  IsMap (obj fs) = HasMaps fs

  pub AreMaps : Items → Type 0
  AreMaps nil = Unit
  AreMaps (cons v vs) = IsMap v × AreMaps vs

  pub HasMaps : Fields → Type 0
  HasMaps end = Unit
  HasMaps (field k v fs) = IsFree k fs × IsMap v × HasMaps fs

pub as_str-eq-some : (v : Value) (s : Text) → as_str v ≡ some s → v ≡ str s
as_str-eq-some (str t) s h = cc
as_str-eq-some null s h = cc
as_str-eq-some (bool b) s h = cc
as_str-eq-some (num n) s h = cc
as_str-eq-some (arr xs) s h = cc
as_str-eq-some (obj fs) s h = cc

pub as_object-eq-some : (v : Value) (fs : Fields) → as_object v ≡ some fs → v ≡ obj fs
as_object-eq-some (obj gs) fs h = cc
as_object-eq-some null fs h = cc
as_object-eq-some (bool b) fs h = cc
as_object-eq-some (num n) fs h = cc
as_object-eq-some (str s) fs h = cc
as_object-eq-some (arr xs) fs h = cc
