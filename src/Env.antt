-- ===== src/Env.antt =====
-- rust-sync-proxy/src/config.rs: how the values of environment variables are read.
pub mod Numbers
use gemini_worker_go.Prelude.{
  ℕ, ◌+◌, ◌*◌, ◌^◌, Bool, true, false, ◌&&◌, ◌||◌, not, Option, none, some, List, [], ◌∷◌, ◌++◌,
  Result, ok, err, ◌>>=◌, and_then, unwrap_or, if◌then◌else◌, leb, ltb, ◌==◌,
}
use gemini_worker_go.Text.{
  Text, codes, text_eq, is_empty, one_of, trim, trim_end_by, trim_start_by, to_ascii_lowercase,
  split,
}
use gemini_worker_go.Text.Decimal.{parse_unsigned}
use gemini_worker_go.Url.{UrlParser, ParsedUrl, is_http, host_or_empty}

unfoldable pub parse_port : Text → Option ℕ
unfolding parse_unsigned trim
parse_port raw = if is_empty (trim raw) then none else parse_unsigned (2 ^ 16) (trim raw)

abbrev pub parsed : ℕ → Option Text → Option ℕ
parsed limit value = and_then value (λ raw. parse_unsigned limit (trim raw))

abbrev pub if_positive : Option ℕ → ℕ → ℕ
if_positive none default_value = default_value
if_positive (some n) default_value = if ltb 0 n then n else default_value

unfoldable pub parse_positive_u64_with_default : Option Text → ℕ → ℕ
parse_positive_u64_with_default value default_value =
    if_positive (parsed (2 ^ 64) value) default_value

-- Also `parse_non_negative_usize_with_default` and `parse_wait_timeout_ms`, which have its body.
unfoldable pub parse_non_negative_u64_with_default : Option Text → ℕ → ℕ
parse_non_negative_u64_with_default value default_value =
    unwrap_or (parsed (2 ^ 64) value) default_value

unfoldable pub parse_jpeg_quality : Option Text → ℕ → ℕ
parse_jpeg_quality value default_value = elim (parsed (2 ^ 8) value) [
  | none ↦ default_value
  | some n ↦ if leb 1 n && leb n 100 then n else default_value
]

unfoldable pub is_disabled_value : Text → Bool
unfolding one_of trim to_ascii_lowercase
is_disabled_value raw = one_of (to_ascii_lowercase (trim raw)) (
    []
    ∷ codes "0"
    ∷ codes "false"
    ∷ codes "no"
    ∷ codes "n"
    ∷ codes "off"
    ∷ codes "disable"
    ∷ codes "disabled"
    ∷ codes "none"
    ∷ [])

unfoldable pub parse_cache_bytes : Option Text → ℕ → ℕ
unfolding is_disabled_value
parse_cache_bytes none default_value = default_value
parse_cache_bytes (some raw) default_value =
    if is_disabled_value (trim raw)
    then 0
    else unwrap_or (parse_unsigned (2 ^ 64) (trim raw)) default_value

unfoldable pub non_blank : List Text → List Text
unfolding trim
non_blank [] = []
non_blank (p ∷ ps) = let rest = non_blank ps in if is_empty (trim p) then rest else trim p ∷ rest

unfoldable pub parse_csv : Text → List Text
unfolding split non_blank
parse_csv raw = non_blank (split b',' raw)

unfoldable pub parse_optional_string_with_disabled : Text → Text
unfolding is_disabled_value
parse_optional_string_with_disabled raw = if is_disabled_value raw then [] else trim raw

abbrev pub is_slash : ℕ → Bool
is_slash c = c == b'/'

-- The error is the message.
unfoldable pub parse_http_base_url : UrlParser → Text → Text → Result Text Text
unfolding trim trim_end_by
parse_http_base_url parse raw env_name =
    if is_empty (trim raw) then err (env_name ++ codes " is empty") else elim (parse (trim raw)) [
      | err e ↦ err (codes "parse " ++ env_name ++ codes ": " ++ e)
      | ok parsed ↦
          if not (is_http parsed)
          then err (env_name ++ codes " must use http or https")
          else if is_empty (trim (host_or_empty parsed))
          then err (env_name ++ codes " host is empty")
          else ok (trim_end_by is_slash parsed.without_fragment)
    ]

abbrev pub ok_or_empty : Result Text Text → Text
ok_or_empty (ok s) = s
ok_or_empty (err e) = []

unfoldable pub normalize_optional_http_base_url : UrlParser → Text → Text
unfolding is_disabled_value parse_http_base_url
normalize_optional_http_base_url parse raw =
    if is_disabled_value raw
    then []
    else ok_or_empty (parse_http_base_url parse raw (codes "PUBLIC_BASE_URL"))

unfoldable pub parse_bool : Option Text → Bool → Bool
unfolding one_of trim to_ascii_lowercase
parse_bool none default_value = default_value
parse_bool (some raw) default_value =
    let v = to_ascii_lowercase (trim raw) in
    if one_of v (
      codes "1"
      ∷ codes "true"
      ∷ codes "yes"
      ∷ codes "y"
      ∷ codes "on"
      ∷ codes "enable"
      ∷ codes "enabled"
      ∷ [])
    then true
    else if one_of v (
        codes "0"
        ∷ codes "false"
        ∷ codes "no"
        ∷ codes "n"
        ∷ codes "off"
        ∷ codes "disable"
        ∷ codes "disabled"
        ∷ codes "none"
        ∷ [])
    then false
    else default_value

abbrev pub Env : Type 0
Env = Text → Option Text

abbrev pub mapped : {A B : Type 0} → (A → B) → Option A → Option B
mapped f none = none
mapped f (some a) = some (f a)

-- `.filter(|v| !v.is_empty())`
abbrev pub not_empty : {A : Type 0} → Option (List A) → Option (List A)
not_empty none = none
not_empty (some s) = if is_empty s then none else some s

-- `.unwrap_or_default()`
abbrev pub or_empty : {A : Type 0} → Option (List A) → List A
or_empty o = unwrap_or o []

abbrev pub trim_slashes : Text → Text
trim_slashes s = trim_end_by is_slash (trim_start_by is_slash s)
