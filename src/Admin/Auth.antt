-- ===== src/Admin/Auth.antt =====
-- rust-sync-proxy/src/admin.rs, `check_basic_auth`: who is let in.
use gemini_worker_go.Prelude.{
  ℕ, ◌≡◌, refl, sym, ap, ◌∙◌, Bool, true, false, not, Option-cases, inl, inr, Option, none, some,
  [], ◌∷◌, ◌++◌, and_then, and_then-eq-some, if◌then◌else◌, arith,
}
use gemini_worker_go.Text.{
  Text, codes, text_eq, is_empty, trim, strip_prefix, split_once, contains_char,
}
use gemini_worker_go.Text.Laws.{text_eq→eq}
use gemini_worker_go.Upstream.Model.{strip_prefix-append}
use gemini_worker_go.Admin.{enabled, check_basic_auth, matches_password, decoded_matches}

split_once-append :
    (d : ℕ) (s a b : Text)
    → split_once d s ≡ some (a, b)
    → (s ≡ a ++ d ∷ b) × (contains_char d a ≡ false)
unfolding split_once contains_char
split_once-append d [] a b h = cc
split_once-append d (c ∷ s) a b h = elim (Option-cases (split_once d s)) [
  | inl n ↦ ground (arith, n)
  | inr ((x, y), n) ↦ ground (arith, n, split_once-append d s x y n)
]

-- A password that is set, a header `Basic` with a text that decodes to a user name without a colon, a
-- colon and that password.
pub record IsAllowed (decode : Text → Option Text) (password : Text) (header : Option Text)
    : Type 0 where
  pub is_set : is_empty (trim password) ≡ false
  pub encoded : Text
  pub user : Text
  pub is_basic : header ≡ some (codes "Basic " ++ encoded)
  pub decodes : decode (trim encoded) ≡ some (user ++ b':' ∷ password)
  pub no_colon : contains_char b':' user ≡ false

decoded_matches_cases :
    (password : Text) (o : Option Text)
    → decoded_matches password o ≡ true
    → (user : Text) × (o ≡ some (user ++ b':' ∷ password)) × (contains_char b':' user ≡ false)
decoded_matches_cases password none h = cc
decoded_matches_cases password (some decoded) h = elim (Option-cases (split_once b':' decoded)) [
  | inl n ↦ let never : false ≡ true = ap (matches_password password) (sym n) ∙ h in cc
  | inr ((user, given), e) ↦
      let matched : text_eq given password ≡ true = ap (matches_password password) (sym e) ∙ h in
      let same = text_eq→eq given password matched in
      let (whole, no_colon) = split_once-append b':' decoded user given e in
      (user, ap some (whole ∙ ap (λ p. user ++ b':' ∷ p) same), no_colon)
]

let_in :
    (blank r : Bool) → (if not (not blank) then false else r) ≡ true → (blank ≡ false) × (r ≡ true)
let_in true r h = cc
let_in false r h = (refl, h)

-- Only who gives the password is let in, and nobody where it is blank.
pub check_basic_auth-IsAllowed :
    (decode : Text → Option Text) (password : Text) (header : Option Text)
    → check_basic_auth decode password header ≡ true
    → IsAllowed decode password header
unfolding check_basic_auth enabled
check_basic_auth-IsAllowed decode password header h =
    let (is_set, matched) = let_in (is_empty (trim password)) _ h in
    let (user, hd, no_colon) = decoded_matches_cases password _ matched in
    let (encoded, he, decodes) =
      and_then-eq-some (and_then header (λ raw. strip_prefix raw (codes "Basic ")))
        (λ text. decode (trim text)) hd in
    let (raw, hr, hp) = and_then-eq-some header (λ raw. strip_prefix raw (codes "Basic ")) he in
    record {
      is_set = is_set;
      encoded = encoded;
      user = user;
      is_basic = hr ∙ ap some (sym (strip_prefix-append raw (codes "Basic ") encoded hp));
      decodes = decodes;
      no_colon = no_colon;
    }
