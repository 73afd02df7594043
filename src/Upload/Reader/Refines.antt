-- ===== src/Upload/Reader/Refines.antt =====
-- rust-sync-proxy/src/upload.rs: `poll_read` as a stream of bytes that is taken from the front.
use gemini_worker_go.Prelude.{
  ℕ, zero, suc, ◌+◌, ◌-◌, ◌≡◌, ◌≤◌, ◌<◌, refl, sym, ap, ◌∙◌, List, [], ◌∷◌, ◌++◌, append_assoc,
  Option, some, Result, ok, >>=-eq-ok, inl, length, take, drop, drop-drop, take-take-drop, arith,
  and_then,
}
use gemini_worker_go.Files.{Bytes}
use gemini_worker_go.Upload.Reader.{
  DecodeError, Base64DecodedReader, Read, Turn, returns, continues, after_turn, read_turns,
  poll_read, hashed_from, sha256_hex_base64, new,
}
use gemini_worker_go.Upload.Reader.Rest.{rest, IsReader, IsTurn, turn-IsTurn}

abbrev pub total : List ℕ → ℕ
total [] = 0
total (n ∷ ns) = n + total ns

module _ (decode_slice : ℕ → Bytes → Result DecodeError Bytes) (text : Bytes) where
  -- A read that gives the first bytes of those that are left, and leaves the others.
  abbrev pub IsRead : Bytes → ℕ → Bytes → Option Read → Type 0
  IsRead before n bytes read =
      (r : Read) × (read ≡ some r)
      × (r.result ≡ ok tt)
      × (r.filled ≡ before ++ take n bytes)
      × (rest decode_slice text r.reader ≡ ok (drop n bytes))
      × IsReader r.reader

  -- What follows a turn, given that the turns after it read what they should.
  after_turn-IsRead :
      (r : Base64DecodedReader) (n : ℕ) (bytes filled : Bytes) (t : Turn)
      (next : Base64DecodedReader → Bytes → Option Read)
      → IsTurn decode_slice text r n bytes t
      → ((r' : Base64DecodedReader) (put : Bytes)
          → n - length put + (length text - r'.offset) < n + (length text - r.offset)
          → IsReader r'
          → rest decode_slice text r' ≡ ok (drop (length put) bytes)
          → IsRead (filled ++ put) (n - length put) (drop (length put) bytes) (next r' put))
      → IsRead filled n bytes (after_turn decode_slice text t filled next)
  after_turn-IsRead r n bytes filled (returns result r' put) next (good, here, later, wf) more = (
    record { result = result; reader = r'; filled = filled ++ put },
    refl,
    good,
    ap (λ bs. filled ++ bs) here,
    later,
    wf,
  )
  after_turn-IsRead r n bytes filled (continues r' put) next (here, later, wf, fits, less) more =
      let (read, e, good, filled_e, rest_e, wf') = more r' put less wf later in
      let whole : put ++ take (n - length put) (drop (length put) bytes) ≡ take n bytes =
        ap (λ bs. bs ++ take (n - length put) (drop (length put) bytes)) here
        ∙ take-take-drop (length put) n bytes fits in
      let remaining : length put + (n - length put) ≡ n = omega (arith, fits) in
      (
        read,
        e,
        good,
        filled_e ∙ append_assoc filled put _ ∙ ap (λ bs. filled ++ bs) whole,
        rest_e
            ∙ ap ok
                (drop-drop (length put) (n - length put) bytes ∙ ap (λ k. drop k bytes) remaining),
        wf',
      )

  read_turns-IsRead :
      (fuel : ℕ) (r : Base64DecodedReader) (n : ℕ) (bytes filled : Bytes)
      → n + (length text - r.offset) < fuel
      → IsReader r
      → rest decode_slice text r ≡ ok bytes
      → IsRead filled n bytes (read_turns decode_slice text fuel r n filled)
  unfolding read_turns
  read_turns-IsRead zero r n bytes filled enough wf h = absurd (omega (arith, enough))
  read_turns-IsRead (suc fuel) r n bytes filled enough wf h =
      after_turn-IsRead r n bytes filled _ _ (turn-IsTurn decode_slice text r n bytes wf h)
        (λ r' put less wf' h'.
          read_turns-IsRead fuel r' (n - length put) _ (filled ++ put) (omega (arith, less, enough))
            wf' h')

  -- A poll of a reader whose remaining text decodes ends, fills the buffer with the first of the
  -- bytes that are left as far as there are any, and leaves the others.
  pub poll_read-IsRead :
      (r : Base64DecodedReader) (n : ℕ) (bytes : Bytes)
      → IsReader r
      → rest decode_slice text r ≡ ok bytes
      → IsRead [] n bytes (poll_read decode_slice text r n)
  unfolding poll_read
  poll_read-IsRead r n bytes wf h =
      read_turns-IsRead (suc (n + length text)) r n bytes [] (omega arith) wf h

  -- Polls with buffers of these sizes, and all that they were filled with.
  unfoldable pub polls : List ℕ → Base64DecodedReader → Option Bytes
  unfolding poll_read
  polls [] r = some []
  polls (n ∷ ns) r =
      and_then (poll_read decode_slice text r n)
        (λ read. and_then (polls ns read.reader) (λ later. some (read.filled ++ later)))

  pub polls_from :
      (ns : List ℕ) (r : Base64DecodedReader) (bytes : Bytes)
      → IsReader r
      → rest decode_slice text r ≡ ok bytes
      → polls ns r ≡ some (take (total ns) bytes)
  unfolding polls
  polls_from [] r bytes wf h = refl
  polls_from (n ∷ ns) r bytes wf h =
      let (read, e, good, filled_e, rest_e, wf') = poll_read-IsRead r n bytes wf h in
      let fits : n ≤ n + total ns = omega arith in
      let size : n + total ns - n ≡ total ns = omega arith in
      rw (e, polls_from ns read.reader (drop n bytes) wf' rest_e, filled_e)
        (ap some (
          ap (λ k. take n bytes ++ take k (drop n bytes)) (sym size)
          ∙ take-take-drop n (n + total ns) bytes fits))

  pub rest-new :
      (bytes : Bytes)
      → hashed_from decode_slice text (length text) 0 ≡ ok bytes
      → rest decode_slice text new ≡ ok bytes
  rest-new bytes h = let size : length text ≡ length text - 0 = omega arith in rw (sym size, h)

  -- Where the text has a digest, it is that of bytes which a new reader gives from the first on, as
  -- many as the buffers hold, whatever their sizes.
  pub polls-sha256_hex_base64 :
      (sha256 : Bytes → Bytes) (digest : Bytes)
      → sha256_hex_base64 decode_slice text sha256 ≡ ok digest
      → (bytes : Bytes) × (digest ≡ sha256 bytes)
        × ((sizes : List ℕ) → polls sizes new ≡ some (take (total sizes) bytes))
  unfolding sha256_hex_base64
  polls-sha256_hex_base64 sha256 digest h =
      let (bytes, hashed, same) = >>=-eq-ok (hashed_from decode_slice text (length text) 0) _ h in
      (bytes, cc, λ sizes. polls_from sizes new bytes (inl refl) (rest-new bytes hashed))
