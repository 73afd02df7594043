-- ===== src/Request/Encode/Correct.antt =====
-- rust-sync-proxy/src/request_encode.rs, `write_json_value` beside substitution and printing.
use gemini_worker_go.Prelude.{
  ℕ, ◌+◌, ◌<◌, ◌≡◌, refl, sym, ap, ◌∙◌, Bool, true, false, Option, none, some, List, Result, ok,
  err, ◌>>=◌, ◌==◌, u64_mod, append_assoc,
}
use gemini_worker_go.Text.{Text, codes}
use gemini_worker_go.Text.Decimal.{decimal}
use gemini_worker_go.Files.{Bytes, IoError}
use gemini_worker_go.Json.{
  Value, Items, Fields, null, bool, num, str, arr, obj, nil, cons, end, field,
}
use gemini_worker_go.Blob.{BlobHandle}
use gemini_worker_go.Request.Scan.{escape_json_pointer_token, child_path}
use gemini_worker_go.Request.Codec.{Codec}
use gemini_worker_go.Request.Encode.{
  Out, RequestReplacement, write_counted, find_replacement, write_replacement, or_replaced,
  separator, write_json_value, write_items, write_fields,
}
use gemini_worker_go.Request.Encode.Base64.{
  content_of, write_counted-write_counted, write_counted_empty, counted-lt,
  write_blob_as_base64-encode,
}
use gemini_worker_go.Request.Encode.Meaning.{
  print, print_items, print_fields, image, or_image, substitute, substitute_items,
  substitute_fields,
}

module _ (codec : Codec) (reads : BlobHandle → Result IoError (List Bytes)) where
  open codec use {to_vec, encode, to_vec-encode}

  -- The text of a value behind what has been written.
  abbrev pub Prints : Result IoError Value → Out → Result IoError Out
  Prints r out = r >>= (λ w. ok (write_counted (print to_vec w) out))

  abbrev before_data : Text → Out → Out
  before_data mime_type out = write_counted (to_vec (str (codes "data"))) (
      write_counted (codes ",") (
        write_counted (to_vec (str mime_type)) (
          write_counted (codes ":")
            (write_counted (to_vec (str (codes "mimeType"))) (write_counted (codes "{") out)))))

  write_image :
      (mime_type : Text) (base64 : Result IoError Bytes) (out : Out)
      → ((base64 >>= (λ b.
            ok
              (write_counted (encode b) (write_counted (codes ":\"") (before_data mime_type out)))))
          >>= (λ o. ok (write_counted (codes "\"}") o)))
        ≡ Prints (base64 >>= (λ b. ok (image mime_type (encode b)))) out
  unfolding print
  write_image mime_type (err e) out = refl
  write_image mime_type (ok b) out = simp (write_counted-write_counted, append_assoc, to_vec-encode)

  write_replacement-image :
      (r : RequestReplacement) (v : Result IoError Value) (out : Out)
      → write_replacement codec reads r out ≡ Prints (or_image codec reads (some r) v) out
  unfolding write_replacement
  write_replacement-image r v out =
      ap (λ m. m >>= (λ (o : Out). ok (write_counted (codes "\"}") o)))
        (write_blob_as_base64-encode codec reads r.blob _
          (counted-lt (codes ":\"") (before_data r.mime_type out)))
      ∙ write_image r.mime_type (content_of r.blob.storage (reads r.blob)) out

  abbrev after_key : Text → Bool → Out → Out
  after_key k first out =
      write_counted (codes ":") (write_counted (to_vec (str k)) (separator codec reads first out))

  -- One item, then the rest.
  write_field :
      (k : Text) (first : Bool) (v : Result IoError Value) (fs : Result IoError Fields) (out : Out)
      (m : Result IoError Out) (rest : Out → Result IoError Out)
      → m ≡ Prints v (after_key k first out)
      → ((o : Out)
          → o.content_length < u64_mod
          → rest o ≡ (fs >>= (λ gs. ok (write_counted (print_fields to_vec gs false) o))))
      → (m >>= rest) ≡ (
          (v >>= (λ w. fs >>= (λ gs. ok (field k w gs))))
          >>= (λ gs. ok (write_counted (print_fields to_vec gs first) out)))
  unfolding print
  write_field k first (err e) fs out m rest h hs = rw h
  write_field k first (ok w) (err e) out m rest h hs = rw (
    h,
    hs (write_counted (print to_vec w) (after_key k first out))
        (counted-lt (print to_vec w) (after_key k first out)),
  )
  write_field k true (ok w) (ok gs) out m rest h hs =
      rw
        (
          h,
          hs (write_counted (print to_vec w) (after_key k true out))
              (counted-lt (print to_vec w) (after_key k true out)),
        )
        (simp (write_counted-write_counted, append_assoc))
  write_field k false (ok w) (ok gs) out m rest h hs =
      rw
        (
          h,
          hs (write_counted (print to_vec w) (after_key k false out))
              (counted-lt (print to_vec w) (after_key k false out)),
        )
        (simp (write_counted-write_counted, append_assoc))

  sep-lt :
      (w : Value) (first : Bool) (out : Out)
      → (write_counted (print to_vec w) (separator codec reads first out)).content_length < u64_mod
  sep-lt w first out = counted-lt (print to_vec w) (separator codec reads first out)

  write_item :
      (first : Bool) (index : ℕ) (v : Result IoError Value) (vs : Result IoError Items) (out : Out)
      (m : Result IoError Out) (rest : Out → Result IoError Out)
      → (index == 0) ≡ first
      → m ≡ Prints v (separator codec reads first out)
      → ((o : Out)
          → o.content_length < u64_mod
          → rest o ≡ (vs >>= (λ ws. ok (write_counted (print_items to_vec ws (index + 1)) o))))
      → (m >>= rest) ≡ (
          (v >>= (λ w. vs >>= (λ ws. ok (cons w ws))))
          >>= (λ ws. ok (write_counted (print_items to_vec ws index) out)))
  unfolding print
  write_item first index (err e) vs out m rest f h hs = rw h
  write_item first index (ok w) (err e) out m rest f h hs = rw (
    h,
    hs (write_counted (print to_vec w) (separator codec reads first out)) (sep-lt w first out),
  )
  write_item true index (ok w) (ok ws) out m rest f h hs =
      rw
        (
          h,
          hs (write_counted (print to_vec w) (separator codec reads true out)) (sep-lt w true out),
          f,
        )
        (simp write_counted-write_counted)
  write_item false index (ok w) (ok ws) out m rest f h hs =
      rw
        (
          h,
          hs (write_counted (print to_vec w) (separator codec reads false out))
              (sep-lt w false out),
          f,
        )
        (simp (write_counted-write_counted, append_assoc))

  module _ (replacements : List RequestReplacement) where
    -- A node that is replaced, or written as it is.
    write_node :
        (o : Option RequestReplacement) (v : Result IoError Value) (out : Out)
        (m : Result IoError Out)
        → m ≡ Prints v out
        → or_replaced codec reads o out m ≡ Prints (or_image codec reads o v) out
    write_node none v out m h = h
    write_node (some r) v out m h = write_replacement-image r v out

    write_object :
        (fs : Result IoError Fields) (out : Out) (m : Result IoError Out)
        → m ≡ (
            fs >>= (λ gs.
              ok (write_counted (print_fields to_vec gs true) (write_counted (codes "{") out))))
        → (m >>= (λ o. ok (write_counted (codes "}") o))) ≡ Prints (fs >>= (λ gs. ok (obj gs))) out
    unfolding print
    write_object (err e) out m h = rw h
    write_object (ok gs) out m h = rw h (simp (write_counted-write_counted, append_assoc))

    write_array :
        (xs : Result IoError Items) (out : Out) (m : Result IoError Out)
        → m ≡ (
            xs >>= (λ ys.
              ok (write_counted (print_items to_vec ys 0) (write_counted (codes "[") out))))
        → (m >>= (λ o. ok (write_counted (codes "]") o))) ≡ Prints (xs >>= (λ ys. ok (arr ys))) out
    unfolding print
    write_array (err e) out m h = rw h
    write_array (ok ys) out m h = rw h (simp (write_counted-write_counted, append_assoc))

    mutual
      unfolding write_json_value substitute print

      pub write_json_value-print :
          (v : Value) (path : Text) (out : Out)
          → write_json_value codec reads replacements v path out
            ≡ Prints (substitute codec reads replacements v path) out
      write_json_value-print (obj map) path out =
          write_node (find_replacement path replacements) _ out _ (
            write_object _ out _ (
              write_fields-print map true path (write_counted (codes "{") out)
                (counted-lt (codes "{") out)))
      write_json_value-print (arr xs) path out =
          write_node (find_replacement path replacements) _ out _ (
            write_array _ out _ (
              write_items-print xs 0 path (write_counted (codes "[") out)
                (counted-lt (codes "[") out)))
      write_json_value-print null path out =
          write_node (find_replacement path replacements) (ok null) out _ refl
      write_json_value-print (bool b) path out =
          write_node (find_replacement path replacements) (ok (bool b)) out _ refl
      write_json_value-print (num n) path out =
          write_node (find_replacement path replacements) (ok (num n)) out _ refl
      write_json_value-print (str s) path out =
          write_node (find_replacement path replacements) (ok (str s)) out _ refl

      write_items-print :
          (xs : Items) (index : ℕ) (path : Text) (out : Out)
          → out.content_length < u64_mod
          → write_items codec reads replacements xs index path out ≡ (
              substitute_items codec reads replacements xs index path
              >>= (λ ys. ok (write_counted (print_items to_vec ys index) out)))
      write_items-print nil index path out h = ap ok (sym (write_counted_empty out h))
      write_items-print (cons v vs) index path out h =
          write_item (index == 0) index _ _ out _ _ refl
            (write_json_value-print v (child_path path (decimal index))
              (separator codec reads (index == 0) out))
            (λ o lt. write_items-print vs (index + 1) path o lt)

      write_fields-print :
          (fs : Fields) (first : Bool) (path : Text) (out : Out)
          → out.content_length < u64_mod
          → write_fields codec reads replacements fs first path out ≡ (
              substitute_fields codec reads replacements fs path
              >>= (λ gs. ok (write_counted (print_fields to_vec gs first) out)))
      write_fields-print end first path out h = ap ok (sym (write_counted_empty out h))
      write_fields-print (field k v fs) first path out h =
          write_field k first _ _ out _ _
            (write_json_value-print v (child_path path (escape_json_pointer_token k))
              (after_key k first out))
            (λ o lt. write_fields-print fs false path o lt)

    -- What `write_json_value` writes behind `out` is the compact JSON of the value in which each
    -- replaced object is the image fetched for it, with its length counted; it fails where reading
    -- one of these images fails.
    pub write_json_value-substitute :
        (v : Value) (path : Text) (out : Out)
        → write_json_value codec reads replacements v path out ≡ (
            substitute codec reads replacements v path
            >>= (λ w. ok (write_counted (print to_vec w) out)))
    write_json_value-substitute v path out = write_json_value-print v path out
