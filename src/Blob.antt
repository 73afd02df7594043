-- ===== src/Blob.antt =====
-- rust-sync-proxy/src/blob_runtime.rs: request bodies and images held in memory up to a budget, or
-- spilled to files. The `removed` flags, which every clone of a handle shares, are kept by blob id
-- beside the counters. Reads, writes and removals of files take what the file system does to them
-- as an argument.
pub mod Budget
pub mod Content
pub mod Stream
pub mod Reserve
use Prim.Native.Nat.{min}
use gemini_worker_go.Prelude.{
  ℕ, ◌+◌, ◌-◌, ◌%◌, Bool, true, false, ◌||◌, Option, none, some, List, [], ◌∷◌, ◌++◌, Result, ok,
  err, length, take, ltb, leb, ◌==◌, if◌then◌else◌, u64_mod,
}
use gemini_worker_go.Text.{Text, codes, is_empty, ends_with}
use gemini_worker_go.Text.Decimal.{decimal}
use gemini_worker_go.Files.{
  Bytes, Files, IoError, not_written, not_read, not_found, denied, WriteOutcome, written, cut,
  read_file, append_file, remove_file, write_at,
}

pub record BlobRuntimeConfig : Type 0 where
  pub inline_max_bytes : ℕ
  pub request_hot_budget_bytes : ℕ
  pub global_hot_budget_bytes : ℕ
  pub spill_dir : Text

pub record BlobMeta : Type 0 where
  pub mime_type : Text
  pub size_bytes : ℕ

pub data BlobStorage : Type 0 where
  inline shared : Bytes → BlobStorage
  spilled : Text → BlobStorage

pub record BlobHandle : Type 0 where
  pub id : ℕ
  pub meta : BlobMeta
  pub storage : BlobStorage

pub record BlobRuntimeStatsSnapshot : Type 0 where
  pub spill_count : ℕ
  pub spill_bytes_total : ℕ

pub record BlobRuntime : Type 0 where
  pub cfg : BlobRuntimeConfig
  pub next_id : ℕ
  pub global_hot_bytes : ℕ
  pub spill_count : ℕ
  pub spill_bytes_total : ℕ
  pub removed : List ℕ
  pub files : Files

unfoldable pub new : BlobRuntimeConfig → Files → BlobRuntime
new cfg files = record {
  cfg = cfg;
  next_id = 1;
  global_hot_bytes = 0;
  spill_count = 0;
  spill_bytes_total = 0;
  removed = [];
  files = files;
}

-- `dir.join(name)` for a relative name.
unfoldable pub join : Text → Text → Text
unfolding ends_with
join dir name =
    if is_empty dir || ends_with dir (codes "/") then dir ++ name else dir ++ codes "/" ++ name

unfoldable pub spill_path : BlobRuntimeConfig → ℕ → Text
unfolding join decimal
spill_path cfg id = join cfg.spill_dir (codes "blob-" ++ decimal id ++ codes ".bin")

unfoldable pub build_handle : ℕ → Text → ℕ → BlobStorage → BlobHandle
build_handle id mime_type size_bytes storage = record {
  id = id;
  meta = record { mime_type = mime_type; size_bytes = size_bytes };
  storage = storage;
}

-- The id, and the runtime with the counter moved on.
unfoldable pub take_id : BlobRuntime → ℕ × BlobRuntime
take_id rt = (rt.next_id, record rt { next_id = (rt.next_id + 1) % u64_mod })

-- The tests on the size alone, before the loop.
unfoldable pub may_inline : BlobRuntimeConfig → ℕ → Bool
may_inline cfg size =
    if ltb cfg.inline_max_bytes size || ltb cfg.request_hot_budget_bytes size then false else true

-- The value that one round of the loop tries to put in place of `current`.
unfoldable pub reserve_target : BlobRuntimeConfig → ℕ → ℕ → Option ℕ
reserve_target cfg current size =
    let next = current + size in
    if leb u64_mod next
    then none
    else if ltb cfg.global_hot_budget_bytes next
    then none
    else some next

-- Without interference the first compare_exchange succeeds.
unfoldable pub try_inline_reserve : ℕ → BlobRuntime → Bool × BlobRuntime
unfolding may_inline reserve_target
try_inline_reserve size rt =
    if may_inline rt.cfg size
    then elim (reserve_target rt.cfg rt.global_hot_bytes size) [
      | none ↦ (false, rt)
      | some next ↦ (true, record rt { global_hot_bytes = next })
    ]
    else (false, rt)

unfoldable pub release_inline_bytes : ℕ → BlobRuntime → BlobRuntime
release_inline_bytes size rt = record rt {
  global_hot_bytes = (rt.global_hot_bytes + u64_mod - size) % u64_mod;
}

unfoldable pub record_spill : ℕ → BlobRuntime → BlobRuntime
record_spill size rt = record rt {
  spill_count = (rt.spill_count + 1) % u64_mod;
  spill_bytes_total = (rt.spill_bytes_total + size) % u64_mod;
}

unfoldable pub write_spilled_bytes :
    WriteOutcome → ℕ → Bytes → BlobRuntime → Result IoError Text × BlobRuntime
unfolding spill_path write_at
write_spilled_bytes o id bytes rt =
    let path = spill_path rt.cfg id in
    let (r, files') = write_at o path bytes rt.files in
    let rt' = record rt { files = files' } in
    elim r [ ok _ ↦ (ok path, rt') | err e ↦ (err e, rt') ]

-- The part of `store_bytes` and `store_stream` behind the choice of an id.
unfoldable pub store_with_id :
    WriteOutcome → ℕ → Bytes → Text → BlobRuntime → Result IoError BlobHandle × BlobRuntime
unfolding try_inline_reserve write_spilled_bytes record_spill build_handle
store_with_id o id bytes mime_type rt =
    let size = length bytes in
    let (reserved, rt') = try_inline_reserve size rt in
    let (r, rt'') = write_spilled_bytes o id bytes rt' in
    if reserved then (ok (build_handle id mime_type size (inline bytes)), rt') else elim r [
      | ok path ↦ (ok (build_handle id mime_type size (spilled path)), record_spill size rt'')
      | err e ↦ (err e, rt'')
    ]

unfoldable pub store_bytes :
    WriteOutcome → Bytes → Text → BlobRuntime → Result IoError BlobHandle × BlobRuntime
unfolding take_id store_with_id
store_bytes o bytes mime_type rt =
    let (id, rt') = take_id rt in store_with_id o id bytes mime_type rt'

-- `Vec<u8>` and `Bytes` are one type here, and the two bodies are the same.
unfoldable pub store_shared_bytes :
    WriteOutcome → Bytes → Text → BlobRuntime → Result IoError BlobHandle × BlobRuntime
unfolding take_id store_with_id
store_shared_bytes o bytes mime_type rt =
    let (id, rt') = take_id rt in store_with_id o id bytes mime_type rt'

unfoldable pub store_external_shared_bytes : Bytes → Text → BlobRuntime → BlobHandle × BlobRuntime
unfolding take_id build_handle
store_external_shared_bytes bytes mime_type rt =
    let (id, rt') = take_id rt in (build_handle id mime_type (length bytes) (shared bytes), rt')

-- What `reader.read` gives, with what happens to the writes that the chunk causes.
pub data StreamEvent : Type 0 where
  chunk : Bytes → WriteOutcome → StreamEvent
  broken : StreamEvent

pub data StreamEnd : Type 0 where
  buffered : Bytes → StreamEnd
  in_file : StreamEnd
  stopped : IoError → StreamEnd

-- The rounds of the loop once the file is open.
unfoldable pub spill_rest : Text → List StreamEvent → Files → StreamEnd × Files
unfolding append_file
spill_rest path [] fs = (in_file, fs)
spill_rest path (broken ∷ evs) fs = (stopped not_read, fs)
spill_rest path (chunk [] o ∷ evs) fs = (in_file, fs)
spill_rest path (chunk (b ∷ bs) written ∷ evs) fs =
    spill_rest path evs (append_file path (b ∷ bs) fs)
spill_rest path (chunk (b ∷ bs) (cut n) ∷ evs) fs =
    (stopped not_written, append_file path (take n (b ∷ bs)) fs)
spill_rest path (chunk (b ∷ bs) _ ∷ evs) fs = (stopped not_written, fs)

-- The rounds of the loop while everything is in the buffer.
unfoldable pub stream_loop : ℕ → Text → List StreamEvent → Bytes → Files → StreamEnd × Files
unfolding spill_rest write_at
stream_loop limit path [] buffer fs = (buffered buffer, fs)
stream_loop limit path (broken ∷ evs) buffer fs = (stopped not_read, fs)
stream_loop limit path (chunk [] o ∷ evs) buffer fs = (buffered buffer, fs)
stream_loop limit path (chunk (b ∷ bs) o ∷ evs) buffer fs =
    let more = stream_loop limit path evs (buffer ++ (b ∷ bs)) fs in
    let (r, fs') = write_at o path (buffer ++ (b ∷ bs)) fs in
    let opened = spill_rest path evs fs' in
    if leb (length buffer + length (b ∷ bs)) limit
    then more
    else elim r [ ok _ ↦ opened | err e ↦ (stopped e, fs') ]

-- `file.flush()` and `fs::metadata`, then the handle of the spilled file.
unfoldable pub finish_spill :
    WriteOutcome → ℕ → Text → Text → BlobRuntime → Result IoError BlobHandle × BlobRuntime
unfolding record_spill build_handle read_file
finish_spill written id path mime_type rt = elim (read_file path rt.files) [
  | none ↦ (err not_found, rt)
  | some content ↦ (
    ok (build_handle id mime_type (length content) (spilled path)),
    record_spill (length content) rt,
  )
]
finish_spill _ id path mime_type rt = (err not_written, rt)

-- The code behind the loop: `o` is what happens to the flush of the spilled file, or to the write of
-- the whole buffer.
unfoldable pub finish_stream :
    WriteOutcome
    → ℕ
    → Text
    → Text
    → BlobRuntime
    → StreamEnd × Files
    → Result IoError BlobHandle × BlobRuntime
unfolding store_with_id finish_spill
finish_stream o id path mime_type rt (buffered buffer, fs) =
    store_with_id o id buffer mime_type (record rt { files = fs })
finish_stream o id path mime_type rt (in_file, fs) =
    finish_spill o id path mime_type (record rt { files = fs })
finish_stream o id path mime_type rt (stopped e, fs) = (err e, record rt { files = fs })

unfoldable pub store_stream :
    List StreamEvent → WriteOutcome → Text → BlobRuntime → Result IoError BlobHandle × BlobRuntime
unfolding take_id stream_loop finish_stream spill_path
store_stream evs o mime_type rt =
    let limit = min rt.cfg.inline_max_bytes rt.cfg.request_hot_budget_bytes in
    let (id, rt') = take_id rt in
    let path = spill_path rt.cfg id in
    finish_stream o id path mime_type rt' (stream_loop limit path evs [] rt'.files)

-- `readable` is false where opening or reading the file fails.
unfoldable pub read_bytes : Bool → BlobHandle → BlobRuntime → Result IoError Bytes
unfolding read_file
read_bytes readable h rt = elim h.storage [
  | inline bytes ↦ ok bytes
  | shared bytes ↦ ok bytes
  | spilled path ↦
      if readable
      then elim (read_file path rt.files) [ none ↦ err not_found | some b ↦ ok b ]
      else err not_read
]

unfoldable pub contains : List ℕ → ℕ → Bool
contains [] i = false
contains (j ∷ js) i = j == i || contains js i

-- `allowed` is false where the file system refuses to remove the file; a missing file is no error.
unfoldable pub remove : Bool → BlobHandle → BlobRuntime → Result IoError (Unit {0}) × BlobRuntime
unfolding contains release_inline_bytes remove_file
remove allowed h rt =
    let rt' = record rt { removed = h.id ∷ rt.removed } in
    if contains rt.removed h.id then (ok tt, rt) else elim h.storage [
      | inline bytes ↦ (ok tt, release_inline_bytes (length bytes) rt')
      | shared bytes ↦ (ok tt, rt')
      | spilled path ↦
          if allowed
          then (ok tt, record rt' { files = remove_file path rt'.files })
          else (err denied, rt')
    ]

unfoldable pub is_inline : BlobHandle → Bool
is_inline h = elim h.storage [ inline _ ↦ true | shared _ ↦ true | spilled _ ↦ false ]

unfoldable pub is_spilled : BlobHandle → Bool
is_spilled h = elim h.storage [ inline _ ↦ false | shared _ ↦ false | spilled _ ↦ true ]

unfoldable pub stats_snapshot : BlobRuntime → BlobRuntimeStatsSnapshot
stats_snapshot rt = record {
  spill_count = rt.spill_count;
  spill_bytes_total = rt.spill_bytes_total;
}
