-- ===== src/Url.antt =====
-- What rust-sync-proxy reads of a `url::Url` of the crate `url`. `Url::parse` is an argument of the
-- definitions that call it, and gives its error as a text.
use gemini_worker_go.Prelude.{Option, Bool, Result, unwrap_or, [], ◌∷◌}
use gemini_worker_go.Text.{Text, codes, one_of}

pub record ParsedUrl : Type 0 where
  pub scheme : Text
  pub host_str : Option Text
  -- `to_string` after `set_fragment(None)`
  pub without_fragment : Text

abbrev pub UrlParser : Type 0
UrlParser = Text → Result Text ParsedUrl

abbrev pub is_http : ParsedUrl → Bool
is_http u = one_of u.scheme (codes "http" ∷ codes "https" ∷ [])

abbrev pub host_or_empty : ParsedUrl → Text
host_or_empty u = unwrap_or u.host_str []
