-- ===== src/Blob/Content.antt =====
-- rust-sync-proxy/src/blob_runtime.rs: what handles read, before and after stores and removals.
use mathlib.Core.List.{append_cancel_left, append_cancel_right}
use gemini_worker_go.Prelude.{
  ℕ, ◌≡◌, ◌≢◌, refl, sym, take, Bool, true, false, ◌++◌, ok, arith, length, Bool-cases, inl, inr,
  ◌⊎◌, ◌||◌,
}
use gemini_worker_go.Text.{Text, codes, text_eq, is_empty, ends_with}
use gemini_worker_go.Text.Decimal.{decimal_inj}
use gemini_worker_go.Text.Laws.{text_eq_iff}
use gemini_worker_go.Files.{Bytes, Files, WriteOutcome, written, cut, write_at, read_file}
use gemini_worker_go.Files.Laws.{read-write_file, read-write_file_self, read-remove_file}
use gemini_worker_go.Blob.{
  BlobRuntime, BlobRuntimeConfig, BlobHandle, BlobStorage, inline, shared, spilled, join,
  spill_path, store_with_id, store_bytes, read_bytes, build_handle, take_id, remove,
}

join_inj : (dir a b : Text) → join dir a ≡ join dir b → a ≡ b
unfolding join
join_inj dir a b e = elim (Bool-cases (is_empty dir || ends_with dir (codes "/"))) [
  | inl t ↦ append_cancel_left dir a b (rw t at e)
  | inr f ↦ append_cancel_left (dir ++ codes "/") a b (rw f at e)
]

-- Two blobs never spill to the same file.
pub spill_path_inj :
    (cfg : BlobRuntimeConfig) (i j : ℕ) → spill_path cfg i ≡ spill_path cfg j → i ≡ j
unfolding spill_path
spill_path_inj cfg i j e = decimal_inj i j (
    append_cancel_right _ _ (codes ".bin")
      (append_cancel_left (codes "blob-") _ _ (join_inj cfg.spill_dir _ _ e)))

spill_path_ne :
    (cfg : BlobRuntimeConfig) (i j : ℕ)
    → j ≢ i
    → text_eq (spill_path cfg i) (spill_path cfg j) ≡ false
spill_path_ne cfg i j h = elim (Bool-cases (text_eq (spill_path cfg i) (spill_path cfg j))) [
  | inl t ↦ absurd (h (sym (spill_path_inj cfg i j ((text_eq_iff _ _).0 t))))
  | inr f ↦ f
]

read-write_at :
    (o : WriteOutcome) (p q : Text) (b : Bytes) (fs : Files)
    → text_eq p q ≡ false
    → read_file q (write_at o p b fs).1 ≡ read_file q fs
unfolding write_at
read-write_at written p q b fs h = rw (read-write_file p q b fs, h)
read-write_at (cut n) p q b fs h = rw (read-write_file p q (take n b) fs, h)
read-write_at _ p q b fs h = refl

store_with_id-content :
    (o : WriteOutcome) (id : ℕ) (bytes : Bytes) (mime_type : Text) (rt : BlobRuntime)
    (h : BlobHandle)
    → (store_with_id o id bytes mime_type rt).0 ≡ ok h
    → read_bytes true h (store_with_id o id bytes mime_type rt).1 ≡ ok bytes
unfolding store_with_id read_bytes build_handle
store_with_id-content written id bytes mime_type rt h e =
    ground (arith, read-write_file_self (spill_path rt.cfg id) bytes rt.files)
store_with_id-content _ id bytes mime_type rt h e = ground arith

store_with_id-labels :
    (o : WriteOutcome) (id : ℕ) (bytes : Bytes) (mime_type : Text) (rt : BlobRuntime)
    (h : BlobHandle)
    → (store_with_id o id bytes mime_type rt).0 ≡ ok h
    → (h.meta.size_bytes ≡ length bytes) × (h.meta.mime_type ≡ mime_type) × (h.id ≡ id)
unfolding store_with_id build_handle
store_with_id-labels o id bytes mime_type rt h e = ground arith

-- A store that succeeds, in memory or in a file, gives a handle that reads back the bytes, is
-- labelled with their number and type, and has the id that was next.
pub read_bytes-store_bytes :
    (o : WriteOutcome) (bytes : Bytes) (mime_type : Text) (rt : BlobRuntime) (h : BlobHandle)
    → (store_bytes o bytes mime_type rt).0 ≡ ok h
    → (read_bytes true h (store_bytes o bytes mime_type rt).1 ≡ ok bytes)
      × (h.meta.size_bytes ≡ length bytes)
      × (h.meta.mime_type ≡ mime_type)
      × (h.id ≡ rt.next_id)
unfolding store_bytes
read_bytes-store_bytes o bytes mime_type rt h e =
    let (size, mime, id) = store_with_id-labels o rt.next_id bytes mime_type (take_id rt).1 h e in
    (store_with_id-content o rt.next_id bytes mime_type (take_id rt).1 h e, size, mime, id)

-- A handle whose file, if it has one, is that of its own id: all that the runtime gives out are.
abbrev pub IsOwn : BlobRuntimeConfig → ℕ → BlobStorage → Type 0
IsOwn cfg id (inline b) = Unit
IsOwn cfg id (shared b) = Unit
IsOwn cfg id (spilled p) = p ≡ spill_path cfg id

store_with_id-storage :
    (o : WriteOutcome) (id : ℕ) (bytes : Bytes) (mime_type : Text) (rt : BlobRuntime)
    (h : BlobHandle)
    → (store_with_id o id bytes mime_type rt).0 ≡ ok h
    → (h.storage ≡ inline bytes) ⊎ (h.storage ≡ spilled (spill_path rt.cfg id))
unfolding store_with_id build_handle
store_with_id-storage written id bytes mime_type rt h e = ground arith
store_with_id-storage _ id bytes mime_type rt h e = ground arith

pub store_bytes-IsOwn :
    (o : WriteOutcome) (bytes : Bytes) (mime_type : Text) (rt : BlobRuntime) (h : BlobHandle)
    → (store_bytes o bytes mime_type rt).0 ≡ ok h
    → IsOwn rt.cfg h.id h.storage
unfolding store_bytes
store_bytes-IsOwn o bytes mime_type rt h e =
    let id : h.id ≡ rt.next_id = (read_bytes-store_bytes o bytes mime_type rt h e).3 in
    elim (store_with_id-storage o rt.next_id bytes mime_type (take_id rt).1 h e) [
      | inl s ↦ rw s tt
      | inr s ↦ rw (s, id) refl
    ]

-- Storing a blob, with whatever failure of the file system, changes nothing that a handle with
-- another id reads, where that handle's file, if it has one, is the file of its id.
pub read_bytes-store_bytes_ne :
    (o : WriteOutcome) (readable : Bool) (bytes : Bytes) (mime_type : Text) (rt : BlobRuntime)
    (k : BlobHandle)
    → IsOwn rt.cfg k.id k.storage
    → k.id ≢ rt.next_id
    → read_bytes readable k (store_bytes o bytes mime_type rt).1 ≡ read_bytes readable k rt
unfolding store_bytes read_bytes
read_bytes-store_bytes_ne o readable bytes mime_type rt k own ne = ground (
  arith,
  read-write_at o (spill_path rt.cfg rt.next_id) (spill_path rt.cfg k.id) bytes rt.files,
  spill_path_ne rt.cfg rt.next_id k.id,
)

-- Removing a blob, whatever the file system says, changes nothing that a handle with another id
-- reads, where the files of both handles, if they have any, are the files of their ids.
read_bytes-remove_ne :
    (allowed readable : Bool) (h k : BlobHandle) (rt : BlobRuntime)
    → IsOwn rt.cfg h.id h.storage
    → IsOwn rt.cfg k.id k.storage
    → k.id ≢ h.id
    → read_bytes readable k (remove allowed h rt).1 ≡ read_bytes readable k rt
unfolding remove read_bytes
read_bytes-remove_ne allowed readable h k rt own own' ne = ground (
  arith,
  read-remove_file (spill_path rt.cfg h.id) (spill_path rt.cfg k.id) rt.files,
  spill_path_ne rt.cfg h.id k.id,
)
