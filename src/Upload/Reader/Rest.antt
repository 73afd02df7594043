-- ===== src/Upload/Reader/Rest.antt =====
-- rust-sync-proxy/src/upload.rs, `Base64DecodedReader`: what is still to be read, and what a turn of
-- the loop does to it.
use gemini_worker_go.Prelude.{
  ℕ, zero, suc, ◌+◌, ◌-◌, ◌≡◌, ◌≤◌, ◌<◌, refl, sym, ap, ◌∙◌, false, inl, inr, Bool-cases, [], ◌++◌,
  Result, ok, ◌>>=◌, >>=-eq-ok, length, leb, ltb, ltb→lt, leb→le, lt→ltb, ◌⊎◌, drop-drop,
  take-append, drop-append, take-length, drop-length, length-drop, if_cases, not, if◌then◌else◌,
  take, drop, arith,
}
use Prim.Native.Nat.{min}
use gemini_worker_go.Files.{Bytes}
use gemini_worker_go.Upload.Reader.{
  DecodeError, Base64DecodedReader, Turn, returns, continues, decode_base64_chunk,
  next_base64_chunk_end, hashed_from, turn, slice, copied, loaded,
}

next_base64_chunk_end_bounds :
    (total offset : ℕ)
    → offset < total
    → (offset < next_base64_chunk_end total offset) × (next_base64_chunk_end total offset ≤ total)
unfolding next_base64_chunk_end
next_base64_chunk_end_bounds total offset h = ground (arith, h)

-- What has been read of the pending bytes is gone when it is all of them.
abbrev pub IsReader : Base64DecodedReader → Type 0
IsReader r = (r.pending_offset ≡ 0) ⊎ (r.pending_offset < length r.pending)

shift : (a b : ℕ) → a + b - a ≡ b
shift a b = omega arith

module _ (decode_slice : ℕ → Bytes → Result DecodeError Bytes) (text : Bytes) where
  abbrev hashed : ℕ → ℕ → Result DecodeError Bytes
  hashed = hashed_from decode_slice text

  -- More fuel than there are bytes left changes nothing.
  hashed_from_enough :
      (n m offset : ℕ)
      → length text ≤ n + offset
      → length text ≤ m + offset
      → hashed n offset ≡ hashed m offset
  unfolding hashed_from
  hashed_from_enough zero zero offset hn hm = refl
  hashed_from_enough zero (suc m) offset hn hm = ground (arith, hn)
  hashed_from_enough (suc n) zero offset hn hm = ground (arith, hm)
  hashed_from_enough (suc n) (suc m) offset hn hm = elim (Bool-cases (ltb offset (length text))) [
    | inr past ↦ rw past
    | inl inside ↦
        let moves = (next_base64_chunk_end_bounds (length text) offset (ltb→lt _ _ inside)).0 in
        rw (
          inside,
          hashed_from_enough n m (next_base64_chunk_end (length text) offset)
              (omega (arith, hn, moves)) (omega (arith, hm, moves)),
        )
  ]

  at_end-empty :
      (offset : ℕ)
      → length text ≤ offset
      → (bytes : Bytes) → hashed (length text - offset) offset ≡ ok bytes
      → bytes ≡ []
  unfolding hashed_from
  at_end-empty offset past bytes h =
      let same =
        hashed_from_enough (length text - offset) 0 offset (omega arith) (omega (arith, past)) in
      let nothing : ok [] ≡ ok bytes = sym same ∙ h in cc

  -- What is decoded at an offset, and after it.
  hashed_from_next :
      (offset : ℕ)
      → offset < length text
      → hashed (length text - offset) offset ≡ (
          decode_base64_chunk decode_slice
            (slice text offset (next_base64_chunk_end (length text) offset))
          >>= (λ decoded.
              hashed
                (length text - next_base64_chunk_end (length text) offset)
                (next_base64_chunk_end (length text) offset)
              >>= (λ more. ok (decoded ++ more))))
  unfolding hashed_from
  hashed_from_next offset inside =
      let end = next_base64_chunk_end (length text) offset in
      let moves = next_base64_chunk_end_bounds (length text) offset inside in
      hashed_from_enough (length text - offset) (suc (length text)) offset (omega (arith, inside))
        (omega arith)
      ∙ rw (
        lt→ltb _ _ inside,
        hashed_from_enough (length text) (length text - end) end (omega arith)
            (omega (arith, moves.1)),
      )

  -- What the reader has still to give.
  abbrev pub rest : Base64DecodedReader → Result DecodeError Bytes
  rest r =
      hashed (length text - r.offset) r.offset
      >>= (λ later. ok (drop r.pending_offset r.pending ++ later))

  -- A turn puts what comes next of the bytes that are left, and leaves less to do.
  abbrev pub IsTurn : Base64DecodedReader → ℕ → Bytes → Turn → Type 0
  IsTurn r n bytes (returns result r' put) =
      (result ≡ ok tt) × (put ≡ take n bytes) × (rest r' ≡ ok (drop n bytes)) × IsReader r'
  IsTurn r n bytes (continues r' put) =
      (put ≡ take (length put) bytes)
      × (rest r' ≡ ok (drop (length put) bytes))
      × IsReader r'
      × (length put ≤ n)
      × ((n - length put) + (length text - r'.offset) < n + (length text - r.offset))

  module _ (r : Base64DecodedReader) (n : ℕ) (later : Bytes) where
    abbrev left : Bytes
    left = drop r.pending_offset r.pending

    copied_rest :
        hashed (length text - r.offset) r.offset ≡ ok later
        → 0 < n
        → r.pending_offset < length r.pending
        → (k : ℕ) → k ≡ min (length r.pending - r.pending_offset) n
        → IsTurn r n (left ++ later) (
            if ltb (r.pending_offset + k) (length r.pending)
            then returns (ok tt) (record r { pending_offset = r.pending_offset + k }) (take k left)
            else continues (record r { pending = []; pending_offset = 0 }) (take k left))
    copied_rest hl room some k ek =
        let size = length-drop r.pending_offset r.pending in
        if_cases (IsTurn r n (left ++ later)) (ltb (r.pending_offset + k) (length r.pending))
          (λ less.
            let short = ltb→lt (r.pending_offset + k) (length r.pending) less in
            let full : k ≡ n = omega (arith, ek, short, some) in
            let within : n ≤ length left = omega (arith, size, full, short) in
            (
              refl,
              rw full (sym (take-append n left later within)),
              rw (hl, full)
                  (ap (λ bytes. ok (bytes ++ later)) (sym (drop-drop r.pending_offset n r.pending))
                    ∙ ap ok (sym (drop-append n left later within))),
              inr short,
            ))
          (λ all.
            let long : length left ≡ k = ground (arith, ek, all, some, size) in
            let whole : take k left ≡ left = take-length k left (omega (arith, long)) in
            rw whole (
              sym (
                  take-append (length left) left later (omega arith)
                  ∙ take-length (length left) left (omega arith)),
              rw hl (
                  ap ok (
                    sym (
                      drop-append (length left) left later (omega arith)
                      ∙ ap (λ bytes. bytes ++ later)
                          (drop-length (length left) left (omega arith))))),
              inl refl,
              omega (arith, long, ek),
              omega (arith, long, ek, room, some, size),
            ))

    copied-IsTurn :
        hashed (length text - r.offset) r.offset ≡ ok later
        → 0 < n
        → r.pending_offset < length r.pending
        → IsTurn r n (left ++ later) (copied decode_slice text r n)
    copied-IsTurn hl room some =
        let k = min (length r.pending - r.pending_offset) n in
        rw (shift r.pending_offset k) (copied_rest hl room some k refl)

  -- Where nothing is pending, what is left is what is still to be decoded.
  rest_decoded :
      (r : Base64DecodedReader) (bytes : Bytes)
      → IsReader r
      → ltb r.pending_offset (length r.pending) ≡ false
      → rest r ≡ ok bytes
      → (r.pending_offset ≡ 0) × (hashed (length text - r.offset) r.offset ≡ ok bytes)
  rest_decoded r bytes (inr some) none_pending h = absurd (ground (arith, some, none_pending))
  rest_decoded r bytes (inl start) none_pending h =
      let (later, hl, same) = >>=-eq-ok (hashed (length text - r.offset) r.offset) _ h in
      let gone : drop r.pending_offset r.pending ≡ [] =
        drop-length r.pending_offset r.pending (ground (arith, none_pending)) in
      (start, hl ∙ (rw gone at same))

  loaded-IsTurn :
      (r : Base64DecodedReader) (n : ℕ) (bytes : Bytes)
      → r.pending_offset ≡ 0
      → r.offset < length text
      → hashed (length text - r.offset) r.offset ≡ ok bytes
      → let end = next_base64_chunk_end (length text) r.offset in
        IsTurn r n bytes (
          loaded decode_slice text r end
            (decode_base64_chunk decode_slice (slice text r.offset end)))
  loaded-IsTurn r n bytes start inside h =
      let end = next_base64_chunk_end (length text) r.offset in
      let moves = next_base64_chunk_end_bounds (length text) r.offset inside in
      let (decoded, hd, h1) =
        >>=-eq-ok (decode_base64_chunk decode_slice (slice text r.offset end)) _
          (sym (hashed_from_next r.offset inside) ∙ h) in
      let (more, hm, h2) = >>=-eq-ok (hashed (length text - end) end) _ h1 in
      rw hd (refl, rw (hm, start) h2, inl start, omega arith, omega (arith, moves.0, inside))

  IsTurn-pending :
      (r : Base64DecodedReader) (n : ℕ) (bytes : Bytes)
      → 0 < n
      → r.pending_offset < length r.pending
      → rest r ≡ ok bytes
      → IsTurn r n bytes (copied decode_slice text r n)
  IsTurn-pending r n bytes room some h =
      let (later, hl, same) = >>=-eq-ok (hashed (length text - r.offset) r.offset) _ h in
      let e : drop r.pending_offset r.pending ++ later ≡ bytes = cc in
      rw (sym e) (copied-IsTurn r n later hl room some)

  IsTurn-end :
      (r : Base64DecodedReader) (n : ℕ) (bytes : Bytes)
      → IsReader r
      → length text ≤ r.offset
      → rest r ≡ ok bytes
      → hashed (length text - r.offset) r.offset ≡ ok bytes
      → IsTurn r n bytes (returns (ok tt) r [])
  IsTurn-end r n bytes wf past h hb =
      let e : bytes ≡ [] = at_end-empty r.offset past bytes hb in
      (
        refl,
        rw e (sym (take-length n [] (omega arith))),
        h ∙ ap ok (rw e (sym (drop-length n [] (omega arith)))),
        wf,
      )

  pub turn-IsTurn :
      (r : Base64DecodedReader) (n : ℕ) (bytes : Bytes)
      → IsReader r
      → rest r ≡ ok bytes
      → IsTurn r n bytes (turn decode_slice text r n)
  unfolding turn
  turn-IsTurn r n bytes wf h =
      if_cases (IsTurn r n bytes) (not (ltb 0 n))
        (λ full. let none_left : n ≡ 0 = ground (arith, full) in rw none_left (refl, refl, h, wf))
        (λ room.
          if_cases (IsTurn r n bytes) (ltb r.pending_offset (length r.pending))
            (λ some_pending.
              IsTurn-pending r n bytes (ground (arith, room)) (ltb→lt _ _ some_pending) h)
            (λ none_pending.
              let (start, hb) = rest_decoded r bytes wf none_pending h in
              if_cases (IsTurn r n bytes) (leb (length text) r.offset)
                (λ at_end. IsTurn-end r n bytes wf (leb→le _ _ at_end) h hb)
                (λ more. loaded-IsTurn r n bytes start (ground (arith, more)) hb)))
