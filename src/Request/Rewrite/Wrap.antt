-- ===== src/Request/Rewrite/Wrap.antt =====
-- rust-sync-proxy/src/request_rewrite.rs, `maybe_wrap_aiapidev_file_uri`: the URLs that are sent.
use gemini_worker_go.Prelude.{
  ◌≡◌, refl, ap, ◌⊎◌, inl, inr, Bool, true, ◌||◌, Bool-cases, List, ◌++◌, Result, ok, err, arith,
}
use gemini_worker_go.Text.{Text, is_empty}
use gemini_worker_go.Text.Laws.{starts_with-append}
use gemini_worker_go.Url.{UrlParser, ParsedUrl, host_or_empty}
use gemini_worker_go.ImageIo.{hostname_matches_domain_patterns}
use gemini_worker_go.Request.Rewrite.{
  wrapped, maybe_wrap_aiapidev_file_uri, is_already_wrapped_external_proxy_url,
}

module _ (parse : UrlParser) (without_query : ParsedUrl → Text) (byte_serialize : Text → Text)
    (prefix : Text) (domains : List Text) where
  abbrev wrap : Text → Text
  wrap = maybe_wrap_aiapidev_file_uri parse without_query byte_serialize prefix domains

  wrapped_cases :
      (raw_url : Text) (r : Result Text ParsedUrl)
      → (wrapped parse without_query byte_serialize prefix domains raw_url r ≡ raw_url)
        ⊎ ((encoded : Text) × (wrapped parse without_query byte_serialize prefix domains raw_url r
              ≡ prefix ++ encoded))
  wrapped_cases raw_url (err e) = inl refl
  wrapped_cases raw_url (ok parsed) =
      elim (Bool-cases (hostname_matches_domain_patterns (host_or_empty parsed) domains)) [
        | inl match ↦ inr (byte_serialize (without_query parsed), rw match)
        | inr other ↦ inl (rw other)
      ]

  wrap_cases :
      (raw_url : Text)
      → (wrap raw_url ≡ raw_url) ⊎ ((encoded : Text) × (wrap raw_url ≡ prefix ++ encoded))
  unfolding maybe_wrap_aiapidev_file_uri
  wrap_cases raw_url =
      elim (Bool-cases (
        is_empty prefix
        || is_empty domains
        || is_already_wrapped_external_proxy_url raw_url prefix)) [
          | inl left_alone ↦ inl (rw left_alone)
          | inr to_wrap ↦ rw to_wrap (wrapped_cases raw_url (parse raw_url))
        ]

  or_true : (a b : Bool) {c : Bool} → c ≡ true → (a || b || c) ≡ true
  or_true a b h = ground (arith, h)

  wrap-prefix : (encoded : Text) → wrap (prefix ++ encoded) ≡ prefix ++ encoded
  unfolding maybe_wrap_aiapidev_file_uri is_already_wrapped_external_proxy_url
  wrap-prefix encoded =
      rw (or_true (is_empty prefix) (is_empty domains) (starts_with-append prefix encoded))

  -- A URL that is sent is left alone when it is wrapped again, whatever the prefix and the domains.
  maybe_wrap_aiapidev_file_uri_idem : (raw_url : Text) → wrap (wrap raw_url) ≡ wrap raw_url
  maybe_wrap_aiapidev_file_uri_idem raw_url = elim (wrap_cases raw_url) [
    | inl same ↦ ap wrap same
    | inr (encoded, e) ↦ rw e (wrap-prefix encoded)
  ]
