-- ===== src/ImageIo/Fetch.antt =====
-- rust-sync-proxy/src/image_io.rs: the limit on what is read of a body.
use gemini_worker_go.Prelude.{
  ℕ, ◌+◌, ◌≡◌, ◌≤◌, ◌<◌, refl, sym, ap, ◌∙◌, Bool, true, false, Bool-cases, inl, inr, List, [], ◌∷◌,
  ◌++◌, Result, ok, err, length, leb, ltb, concat, arith, append_assoc, append-nil, length-append,
  >>=-eq-ok, Option, none, some, ◌||◌, ◌&&◌, not,
}
use gemini_worker_go.Text.{Text, is_empty}
use gemini_worker_go.Url.{UrlParser, ParsedUrl, is_http, host_or_empty}
use gemini_worker_go.Files.{Bytes}
use gemini_worker_go.ImageIo.{
  Body, body_end, body_broken, chunk, enforce_max_size, read_body, receive, answer_of, fetch_parsed,
  Response, FetchedInlineData, enforce_content_length, normalize_image_mime_type,
  fetch_image_as_inline_data_with_options,
}

ltb→le : (m n : ℕ) → ltb m n ≡ false → n ≤ m
ltb→le m n h = ground arith

read_body-bound :
    (limit : ℕ) (bytes : Bytes) (body : Body) (r : Bytes)
    → length bytes ≤ limit
    → read_body limit bytes body ≡ ok r
    → length r ≤ limit
unfolding read_body enforce_max_size
read_body-bound limit bytes body_end r h e = ground arith
read_body-bound limit bytes body_broken r h e = cc
read_body-bound limit bytes (chunk c more) r h e =
    elim (Bool-cases (ltb limit (length bytes + length c))) [
      | inl big ↦ ground (arith, big)
      | inr fits ↦
          read_body-bound limit (bytes ++ c) more r
            (omega (arith, length-append bytes c, ltb→le limit (length bytes + length c) fits))
            (rw fits at e)
    ]

receive-bound :
    (raw_url : Text) (limit : ℕ) (response : Response) (r : FetchedInlineData)
    → receive raw_url limit response ≡ ok r
    → length r.bytes ≤ limit
unfolding receive
receive-bound raw_url limit response r h =
    elim (Bool-cases (not (leb 200 response.status && ltb response.status 300))) [
      | inl bad ↦ ground (arith, bad)
      | inr good ↦
          let (_, _, rest) =
            >>=-eq-ok (enforce_content_length response.content_length limit) _ (rw good at h) in
          let (bytes, e, same) = >>=-eq-ok (read_body limit [] response.body) _ rest in
          let kept : bytes ≡ r.bytes = cc in
          omega
            (arith, read_body-bound limit [] response.body bytes (omega arith) e, ap length kept)
    ]

answer_of-bound :
    (raw_url : Text) (limit : ℕ) (o : Option Response) (r : FetchedInlineData)
    → answer_of raw_url limit o ≡ ok r
    → length r.bytes ≤ limit
unfolding answer_of
answer_of-bound raw_url limit none r h = cc
answer_of-bound raw_url limit (some response) r h = receive-bound raw_url limit response r h

-- The chunks of a body that does not break off.
abbrev pub IsWhole : Body → Bytes → Type 0
IsWhole body_end bytes = bytes ≡ []
IsWhole body_broken bytes = ⊥
IsWhole (chunk c more) bytes = (rest : Bytes) × (bytes ≡ c ++ rest) × IsWhole more rest

-- The image is the whole body of a response that is a success, with the MIME type that its header or
-- the URL gives.
abbrev pub IsReceived : Text → Option Response → FetchedInlineData → Type 0
IsReceived raw_url none r = ⊥
IsReceived raw_url (some response) r =
    (200 ≤ response.status)
    × (response.status < 300)
    × IsWhole response.body r.bytes
    × (r.mime_type ≡ normalize_image_mime_type response.content_type raw_url)

read_body-IsWhole :
    (limit : ℕ) (bytes : Bytes) (body : Body) (r : Bytes)
    → read_body limit bytes body ≡ ok r
    → (rest : Bytes) × (r ≡ bytes ++ rest) × IsWhole body rest
unfolding read_body enforce_max_size
read_body-IsWhole limit bytes body_end r e = ([], cc (append-nil bytes), refl)
read_body-IsWhole limit bytes body_broken r e = cc
read_body-IsWhole limit bytes (chunk c more) r e =
    elim (Bool-cases (ltb limit (length bytes + length c))) [
      | inl big ↦ ground (arith, big)
      | inr fits ↦
          let (rest, same, whole) = read_body-IsWhole limit (bytes ++ c) more r (rw fits at e) in
          (c ++ rest, same ∙ append_assoc bytes c rest, (rest, refl, whole))
    ]

answer_of-IsReceived :
    (raw_url : Text) (limit : ℕ) (o : Option Response) (r : FetchedInlineData)
    → answer_of raw_url limit o ≡ ok r
    → IsReceived raw_url o r
unfolding answer_of receive
answer_of-IsReceived raw_url limit none r h = cc
answer_of-IsReceived raw_url limit (some response) r h =
    elim (Bool-cases (not (leb 200 response.status && ltb response.status 300))) [
      | inl bad ↦ ground (arith, bad)
      | inr good ↦
          let (_, _, rest) =
            >>=-eq-ok (enforce_content_length response.content_length limit) _ (rw good at h) in
          let (bytes, e, same) = >>=-eq-ok (read_body limit [] response.body) _ rest in
          let kept : bytes ≡ r.bytes = cc in
          let mime : r.mime_type ≡ normalize_image_mime_type response.content_type raw_url = cc in
          let (whole, is_it, w) = read_body-IsWhole limit [] response.body bytes e in
          (ground (arith, good), ground (arith, good), rw (sym kept ∙ is_it) w, mime)
    ]

fetch_parsed-bound :
    (forbidden : ParsedUrl → Bool) (send : ParsedUrl → Option Response) (raw_url : Text) (limit : ℕ)
    (allowed : Bool) (p : Result Text ParsedUrl) (r : FetchedInlineData)
    → fetch_parsed forbidden send raw_url limit allowed p ≡ ok r
    → (length r.bytes ≤ limit)
      × ((u : ParsedUrl) × (p ≡ ok u)
          × (is_http u ≡ true)
          × (is_empty (host_or_empty u) ≡ false)
          × (allowed || not (forbidden u) ≡ true)
          × IsReceived raw_url (send u) r)
unfolding fetch_parsed
fetch_parsed-bound forbidden send raw_url limit allowed (err e) r h = cc
fetch_parsed-bound forbidden send raw_url limit allowed (ok u) r h =
    elim (Bool-cases (not (is_http u) || is_empty (host_or_empty u))) [
      | inl bad ↦ ground (arith, bad, h)
      | inr good ↦ elim (Bool-cases (not allowed && forbidden u)) [
        | inl shut ↦ ground (arith, good, shut, h)
        | inr may ↦ (
          answer_of-bound raw_url limit (send u) r (rw (good, may) at h),
          (
            u,
            refl,
            ground (arith, good),
            ground (arith, good),
            ground (arith, may),
            answer_of-IsReceived raw_url limit (send u) r (rw (good, may) at h),
          ),
        )
      ]
    ]

-- An image that is fetched, whatever the server sends, is at most as long as the limit, and it is the
-- whole body, with its MIME type, of the client's successful response to the URL that was given, which is
-- http or https with a host that is not forbidden, unless private networks are allowed.
pub fetch_image_as_inline_data_with_options-bound :
    (parse : UrlParser) (forbidden : ParsedUrl → Bool) (send : ParsedUrl → Option Response)
    (raw_url : Text) (limit : ℕ) (allowed : Bool) (r : FetchedInlineData)
    → fetch_image_as_inline_data_with_options parse forbidden send raw_url limit allowed ≡ ok r
    → (length r.bytes ≤ limit)
      × ((u : ParsedUrl) × (parse raw_url ≡ ok u)
          × (is_http u ≡ true)
          × (is_empty (host_or_empty u) ≡ false)
          × (allowed || not (forbidden u) ≡ true)
          × IsReceived raw_url (send u) r)
unfolding fetch_image_as_inline_data_with_options
fetch_image_as_inline_data_with_options-bound parse forbidden send raw_url limit allowed r h =
    fetch_parsed-bound forbidden send raw_url limit allowed (parse raw_url) r h

abbrev pub delivered : List Bytes → Body
delivered [] = body_end
delivered (c ∷ cs) = chunk c (delivered cs)

-- However a body is cut into chunks, `read_body` gives the whole of it behind the bytes it has, if
-- that is no longer than the limit.
read_body-concat :
    (limit : ℕ) (bytes : Bytes) (cs : List Bytes)
    → length (bytes ++ concat cs) ≤ limit
    → read_body limit bytes (delivered cs) ≡ ok (bytes ++ concat cs)
unfolding read_body enforce_max_size
read_body-concat limit bytes [] h = ap ok (sym (append-nil bytes))
read_body-concat limit bytes (c ∷ cs) h =
    let small : ltb limit (length bytes + length c) ≡ false =
      ground (arith, length-append bytes (c ++ concat cs), length-append c (concat cs)) in
    rw small (
      read_body-concat limit (bytes ++ c) cs
        (omega (arith, h, ap length (append_assoc bytes c (concat cs))))
      ∙ ap ok (append_assoc bytes c (concat cs)))
