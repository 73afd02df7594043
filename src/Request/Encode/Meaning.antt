-- ===== src/Request/Encode/Meaning.antt =====
-- What rust-sync-proxy/src/request_encode.rs has to write, said without the writer: compact JSON, and
-- the request with the images in their places.
use gemini_worker_go.Prelude.{
  ℕ, ◌+◌, Bool, true, false, Option, none, some, List, [], ◌++◌, Result, ok, ◌>>=◌, ◌==◌,
}
use gemini_worker_go.Text.{Text, codes}
use gemini_worker_go.Text.Decimal.{decimal}
use gemini_worker_go.Files.{Bytes, IoError}
use gemini_worker_go.Json.{
  Value, Items, Fields, null, bool, num, str, arr, obj, nil, cons, end, field,
}
use gemini_worker_go.Blob.{BlobHandle}
use gemini_worker_go.Request.Scan.{escape_json_pointer_token, child_path}
use gemini_worker_go.Request.Codec.{Codec}
use gemini_worker_go.Request.Encode.{RequestReplacement, find_replacement}
use gemini_worker_go.Request.Encode.Base64.{content_of}

abbrev pub comma : Bool → Bytes
comma true = []
comma false = codes ","

-- Compact JSON.
module _ (to_vec : Value → Bytes) where
  unfoldable mutual
    pub print : Value → Bytes
    print (obj fs) = codes "{" ++ (print_fields fs true ++ codes "}")
    print (arr xs) = codes "[" ++ (print_items xs 0 ++ codes "]")
    print null = to_vec null
    print (bool b) = to_vec (bool b)
    print (num n) = to_vec (num n)
    print (str s) = to_vec (str s)

    pub print_items : Items → ℕ → Bytes
    print_items nil index = []
    print_items (cons v vs) index = comma (index == 0) ++ (print v ++ print_items vs (index + 1))

    pub print_fields : Fields → Bool → Bytes
    print_fields end first = []
    print_fields (field k v fs) first =
        comma first ++ (to_vec (str k) ++ (codes ":" ++ (print v ++ print_fields fs false)))

-- The object that takes the place of one that named a URL.
abbrev pub image : Text → Bytes → Value
image mime_type base64 =
    obj (field (codes "mimeType") (str mime_type) (field (codes "data") (str base64) end))

module _ (codec : Codec) (reads : BlobHandle → Result IoError (List Bytes)) where
  open codec use {to_vec, encode, to_vec-encode}

  abbrev pub or_image : Option RequestReplacement → Result IoError Value → Result IoError Value
  or_image none v = v
  or_image (some r) v =
      content_of r.blob.storage (reads r.blob)
      >>= (λ content. ok (image r.mime_type (encode content)))

  module _ (replacements : List RequestReplacement) where
    unfoldable mutual
      pub substitute : Value → Text → Result IoError Value
      substitute (obj map) path =
          or_image (find_replacement path replacements)
            (substitute_fields map path >>= (λ fs. ok (obj fs)))
      substitute (arr xs) path =
          or_image (find_replacement path replacements)
            (substitute_items xs 0 path >>= (λ ys. ok (arr ys)))
      substitute null path = or_image (find_replacement path replacements) (ok null)
      substitute (bool b) path = or_image (find_replacement path replacements) (ok (bool b))
      substitute (num n) path = or_image (find_replacement path replacements) (ok (num n))
      substitute (str s) path = or_image (find_replacement path replacements) (ok (str s))

      pub substitute_items : Items → ℕ → Text → Result IoError Items
      substitute_items nil index path = ok nil
      substitute_items (cons v vs) index path =
          substitute v (child_path path (decimal index))
          >>= (λ w. substitute_items vs (index + 1) path >>= (λ ws. ok (cons w ws)))

      pub substitute_fields : Fields → Text → Result IoError Fields
      substitute_fields end path = ok end
      substitute_fields (field k v fs) path =
          substitute v (child_path path (escape_json_pointer_token k))
          >>= (λ w. substitute_fields fs path >>= (λ gs. ok (field k w gs)))
