-- ===== src/Upload/Reader.antt =====
-- rust-sync-proxy/src/upload.rs, `Base64DecodedReader` and what goes with it. The text is its bytes.
pub mod Rest
pub mod Refines
use gemini_worker_go.Prelude.{
  ℕ, zero, suc, ◌+◌, ◌*◌, ◌/◌, ◌%◌, ◌-◌, Bool, Option, none, some, List, [], ◌∷◌, ◌++◌, Result, ok,
  err, ◌>>=◌, length, leb, ltb, ◌==◌, not, if◌then◌else◌, take, drop,
}
use Prim.Native.Nat.{min}
use gemini_worker_go.Text.{codes, is_empty, ends_with}
use gemini_worker_go.Files.{Bytes}

abbrev pub base64_stream_input_chars : ℕ
base64_stream_input_chars = 32 * 1024

pub data DecodeError : Type 0 where
  invalid_length invalid_data : DecodeError

unfoldable pub decoded_base64_len : Bytes → Result DecodeError ℕ
unfolding ends_with
decoded_base64_len data_base64 =
    if is_empty data_base64
    then ok 0
    else if not (length data_base64 % 4 == 0)
    then err invalid_length
    else ok (
        length data_base64 / 4 * 3
        - (if ends_with data_base64 (codes "==")
            then 2
            else if ends_with data_base64 (codes "=")
            then 1
            else 0))

unfoldable pub next_base64_chunk_end : ℕ → ℕ → ℕ
next_base64_chunk_end total_len offset =
    let remaining = total_len - offset in
    if leb remaining base64_stream_input_chars
    then total_len
    else offset + base64_stream_input_chars

-- `&s[from..to]`
abbrev pub slice : Bytes → ℕ → ℕ → Bytes
slice s from to = take (to - from) (drop from s)

pub record Base64DecodedReader : Type 0 where
  pub offset : ℕ
  pub pending : Bytes
  pub pending_offset : ℕ

abbrev pub new : Base64DecodedReader
new = record { offset = 0; pending = []; pending_offset = 0 }

-- What one turn of the loop puts into the buffer, and whether it returns.
pub data Turn : Type 0 where
  returns : Result DecodeError (Unit {0}) → Base64DecodedReader → Bytes → Turn
  continues : Base64DecodedReader → Bytes → Turn

pub record Read : Type 0 where
  pub result : Result DecodeError (Unit {0})
  pub reader : Base64DecodedReader
  pub filled : Bytes

-- `decode_slice` is `STANDARD.decode_slice`, with the length of the buffer for what it decodes.
module _ (decode_slice : ℕ → Bytes → Result DecodeError Bytes) where
  unfoldable pub decode_base64_chunk : Bytes → Result DecodeError Bytes
  decode_base64_chunk piece = decode_slice (length piece / 4 * 3) piece

  module _ (data_base64 : Bytes) where
    -- `sha256_hex_base64`: the pieces that go to the hasher, from an offset on, for enough fuel.
    unfoldable pub hashed_from : ℕ → ℕ → Result DecodeError Bytes
    unfolding decode_base64_chunk next_base64_chunk_end
    hashed_from zero offset = ok []
    hashed_from (suc fuel) offset =
        if ltb offset (length data_base64)
        then (let end = next_base64_chunk_end (length data_base64) offset in
            decode_base64_chunk (slice data_base64 offset end)
            >>= (λ decoded. hashed_from fuel end >>= (λ more. ok (decoded ++ more))))
        else ok []

    -- `sha256` is the digest in hexadecimal digits of what the hasher was given.
    unfoldable pub sha256_hex_base64 : (Bytes → Bytes) → Result DecodeError Bytes
    unfolding hashed_from
    sha256_hex_base64 sha256 = hashed_from (length data_base64) 0 >>= (λ bytes. ok (sha256 bytes))

    abbrev pub copied : Base64DecodedReader → ℕ → Turn
    copied r remaining =
        let to_copy = min (length r.pending - r.pending_offset) remaining in
        let pending_offset = r.pending_offset + to_copy in
        let put = slice r.pending r.pending_offset pending_offset in
        if ltb pending_offset (length r.pending)
        then returns (ok tt) (record r { pending_offset = pending_offset }) put
        else continues (record r { pending = []; pending_offset = 0 }) put

    abbrev pub loaded : Base64DecodedReader → ℕ → Result DecodeError Bytes → Turn
    loaded r end (err e) = returns (err e) r []
    loaded r end (ok decoded) = continues (record r { offset = end; pending = decoded }) []

    unfoldable pub turn : Base64DecodedReader → ℕ → Turn
    unfolding decode_base64_chunk next_base64_chunk_end
    turn r remaining =
        if not (ltb 0 remaining)
        then returns (ok tt) r []
        else if ltb r.pending_offset (length r.pending)
        then copied r remaining
        else if leb (length data_base64) r.offset
        then returns (ok tt) r []
        else (let end = next_base64_chunk_end (length data_base64) r.offset in
            loaded r end (decode_base64_chunk (slice data_base64 r.offset end)))

    abbrev pub after_turn : Turn → Bytes → (Base64DecodedReader → Bytes → Option Read) → Option Read
    after_turn (returns result r put) filled next =
        some (record { result = result; reader = r; filled = filled ++ put })
    after_turn (continues r put) filled next = next r put

    -- The `while` loop, for a buffer with so many bytes remaining after those filled.
    unfoldable pub read_turns : ℕ → Base64DecodedReader → ℕ → Bytes → Option Read
    unfolding turn
    read_turns zero r remaining filled = none
    read_turns (suc fuel) r remaining filled =
        after_turn (turn r remaining) filled
          (λ r' put. read_turns fuel r' (remaining - length put) (filled ++ put))

    unfoldable pub poll_read : Base64DecodedReader → ℕ → Option Read
    unfolding read_turns
    poll_read r remaining = read_turns (suc (remaining + length data_base64)) r remaining []
