-- ===== src/Blob/Stream.antt =====
-- rust-sync-proxy/src/blob_runtime.rs, `store_stream` beside `store_bytes`.
use Prim.Native.Nat.{min}
use gemini_worker_go.Prelude.{
  ℕ, ◌+◌, ◌≤◌, ◌≡◌, sym, ap, ◌∙◌, false, List, [], ◌∷◌, ◌++◌, concat, arith, length, append_assoc,
  append-nil, length-append, leb, Bool-cases, inl, inr, if◌then◌else◌,
}
use gemini_worker_go.Text.{Text}
use gemini_worker_go.Files.{Bytes, Files, written, write_file}
use gemini_worker_go.Files.Laws.{read-write_file_self, append-write_file}
use gemini_worker_go.Blob.{
  BlobRuntime, StreamEvent, StreamEnd, chunk, buffered, in_file, spill_path, store_with_id,
  store_bytes, store_stream, stream_loop, spill_rest, finish_spill, finish_stream, take_id,
  may_inline,
}

-- A reader that delivers the chunks, over a file system that takes every write.
abbrev pub delivered : List Bytes → List StreamEvent
delivered [] = []
delivered (c ∷ cs) = chunk c written ∷ delivered cs

-- A read of no bytes is the end of the stream, so chunks are not empty.
abbrev pub AreChunks : List Bytes → Type 0
AreChunks [] = Unit
AreChunks ([] ∷ cs) = ⊥
AreChunks ((b ∷ bs) ∷ cs) = AreChunks cs

abbrev filed : Text → Files → Bytes → StreamEnd × Files
filed path fs content = (in_file, write_file path content fs)

spill_rest-concat :
    (path : Text) (cs : List Bytes) (content : Bytes) (fs : Files)
    → AreChunks cs
    → spill_rest path (delivered cs) (write_file path content fs)
      ≡ filed path fs (content ++ concat cs)
unfolding spill_rest
spill_rest-concat path [] content fs h = rw append-nil
spill_rest-concat path ([] ∷ cs) content fs h = absurd h
spill_rest-concat path ((b ∷ bs) ∷ cs) content fs h =
    ap (λ f. spill_rest path (delivered cs) f) (append-write_file path content (b ∷ bs) fs)
    ∙ spill_rest-concat path cs (content ++ b ∷ bs) fs h
    ∙ ap (filed path fs) (append_assoc content (b ∷ bs) (concat cs))

-- What the loop leaves behind for a whole body.
abbrev loop_end : ℕ → Text → Bytes → Files → StreamEnd × Files
loop_end limit path body fs =
    if leb (length body) limit then (buffered body, fs) else filed path fs body

loop_end_long :
    (limit : ℕ) (path : Text) (body : Bytes) (fs : Files)
    → leb (length body) limit ≡ false
    → loop_end limit path body fs ≡ filed path fs body
loop_end_long limit path body fs h = rw h

stream_loop-concat :
    (limit : ℕ) (path : Text) (cs : List Bytes) (buffer : Bytes) (fs : Files)
    → AreChunks cs
    → length buffer ≤ limit
    → stream_loop limit path (delivered cs) buffer fs ≡ loop_end limit path (buffer ++ concat cs) fs
unfolding stream_loop
stream_loop-concat limit path [] buffer fs h le = rw append-nil (ground arith)
stream_loop-concat limit path ([] ∷ cs) buffer fs h le = absurd h
stream_loop-concat limit path ((b ∷ bs) ∷ cs) buffer fs h le =
    let len = length-append buffer (b ∷ bs) in
    let assoc = append_assoc buffer (b ∷ bs) (concat cs) in
    elim (Bool-cases (leb (length buffer + length (b ∷ bs)) limit)) [
      | inl small ↦ rw small (
          stream_loop-concat limit path cs (buffer ++ b ∷ bs) fs h (ground arith)
          ∙ ap (λ t. loop_end limit path t fs) assoc)
      | inr big ↦ rw big (
          spill_rest-concat path cs (buffer ++ b ∷ bs) fs h
          ∙ ap (filed path fs) assoc
          ∙ sym (
              loop_end_long limit path _ fs (
                ground
                  (arith, len, length-append (buffer ++ b ∷ bs) (concat cs), ap length assoc))))
    ]

-- A body that is too long for the buffer is too long to be kept in memory.
store_with_id-long :
    (id : ℕ) (body : Bytes) (mime_type : Text) (rt : BlobRuntime)
    → leb (length body) (min rt.cfg.inline_max_bytes rt.cfg.request_hot_budget_bytes) ≡ false
    → store_with_id written id body mime_type rt
      ≡ finish_spill written id
          (spill_path rt.cfg id)
          mime_type
          (record rt { files = write_file (spill_path rt.cfg id) body rt.files })
unfolding store_with_id finish_spill
store_with_id-long id body mime_type rt h =
    let long : may_inline rt.cfg (length body) ≡ false = unfold may_inline in ground arith in
    ground (arith, long, read-write_file_self (spill_path rt.cfg id) body rt.files)

finish_stream-loop_end :
    (id : ℕ) (body : Bytes) (mime_type : Text) (rt : BlobRuntime)
    → finish_stream written id (spill_path rt.cfg id) mime_type rt (
        loop_end
          (min rt.cfg.inline_max_bytes rt.cfg.request_hot_budget_bytes)
          (spill_path rt.cfg id)
          body
          rt.files)
      ≡ store_with_id written id body mime_type rt
unfolding finish_stream
finish_stream-loop_end id body mime_type rt =
    elim (Bool-cases
      (leb (length body) (min rt.cfg.inline_max_bytes rt.cfg.request_hot_budget_bytes))) [
        | inl small ↦ rw small
        | inr big ↦ rw big (sym (store_with_id-long id body mime_type rt big))
      ]

-- However a body is cut into chunks that are not empty, `store_stream` gives the handle that
-- `store_bytes` gives for the whole body, and leaves the same runtime, if every read and write
-- succeeds.
pub store_stream-eq-store_bytes :
    (cs : List Bytes) (mime_type : Text) (rt : BlobRuntime)
    → AreChunks cs
    → store_stream (delivered cs) written mime_type rt
      ≡ store_bytes written (concat cs) mime_type rt
store_stream-eq-store_bytes cs mime_type rt h =
    let path = spill_path rt.cfg rt.next_id in
    unfold store_stream store_bytes in
    ap (finish_stream written rt.next_id path mime_type (take_id rt).1)
      (stream_loop-concat _ path cs [] rt.files h (omega arith))
    ∙ finish_stream-loop_end rt.next_id (concat cs) mime_type (take_id rt).1
