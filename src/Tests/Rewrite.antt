-- ===== src/Tests/Rewrite.antt =====
-- rust-sync-proxy/src/request_rewrite.rs on a small input.
use gemini_worker_go.Prelude.{◌≡◌, refl, List, [], ◌∷◌}
use gemini_worker_go.Text.{
  Text, codes, text_eq, starts_with, ends_with, strip_prefix, replace, one_of, to_ascii_lowercase,
  trim, trim_start_by, trim_end_by, is_whitespace,
}
use gemini_worker_go.Text.Decimal.{decimal, decimal_from}
use gemini_worker_go.Json.{Value, obj, arr, str, cons, nil, field, end, get}
use gemini_worker_go.ImageIo.{hostname_matches_domain_patterns, any_matches, matches_pattern}
use gemini_worker_go.Request.Scan.{escape_json_pointer_token, is_http_url}
use gemini_worker_go.Request.Encode.Body.{update}
use gemini_worker_go.Request.Rewrite.{
  rewrite_aiapidev_request_body, rewrite_aiapidev_value, strip_output_fields,
  rewrite_inline_data_payload, rewrite_aiapidev_key, payload_of, maybe_wrap_aiapidev_file_uri,
  is_already_wrapped_external_proxy_url,
}
use gemini_worker_go.Tests.Codec.{drop_key}
use gemini_worker_go.Tests.Config.{every_url}
use gemini_worker_go.Tests.OpenaiImage.{put_key}

abbrev same : Text → Text
same text = text

abbrev domains : List Text
domains = codes ".example" ∷ []

-- The parser gives every URL the host `a.example`.
abbrev wrap : Text → Text
wrap =
    maybe_wrap_aiapidev_file_uri every_url (λ u. u.without_fragment) same (codes "https://p/?u=")
      domains

abbrev request : Value
request = obj (
    field (codes "output") (str (codes "url")) (
      field (codes "generationConfig")
        (obj (
          field (codes "imageConfig")
            (obj (
              field (codes "output") (str (codes "url"))
                (field (codes "imageSize") (str (codes "4K")) end)))
            end))
        (field (codes "contents")
          (arr (
            cons
              (obj (
                field (codes "parts")
                  (arr (
                    cons
                      (obj (
                        field (codes "inlineData")
                          (obj (field (codes "data") (str (codes "https://x")) end)) end))
                      nil))
                  (field (codes "role") (str (codes "user")) end)))
              nil))
          end)))

abbrev rewritten : Value
rewritten = obj (
    field (codes "generation_config")
      (obj (
        field (codes "image_config") (obj (field (codes "image_size") (str (codes "4K")) end)) end))
      (field (codes "contents")
        (arr (
          cons
            (obj (
              field (codes "role") (str (codes "user")) (
                field (codes "parts")
                  (arr (
                    cons
                      (obj (
                        field (codes "file_data")
                          (obj (
                            field (codes "file_uri") (str (codes "https://p/?u=https://x"))
                              (field (codes "mime_type") (str (codes "image/png")) end)))
                          end))
                      nil))
                  end)))
            nil))
        end))

rewrites :
    rewrite_aiapidev_request_body every_url
      (λ u. u.without_fragment)
      same
      (codes "https://p/?u=")
      domains
      put_key
      drop_key
      request
    ≡ rewritten
unfolding rewrite_aiapidev_request_body rewrite_aiapidev_value strip_output_fields
    rewrite_inline_data_payload rewrite_aiapidev_key payload_of maybe_wrap_aiapidev_file_uri
    is_already_wrapped_external_proxy_url hostname_matches_domain_patterns any_matches
    matches_pattern escape_json_pointer_token is_http_url update put_key drop_key get text_eq
    starts_with ends_with strip_prefix replace one_of to_ascii_lowercase trim trim_start_by
    trim_end_by is_whitespace decimal decimal_from
rewrites = refl
