-- ===== src/Cache/Disk.antt =====
-- rust-sync-proxy/src/cache.rs, `DiskCache`: images in a directory, each with a file that describes it.
-- `serde_json`, `sha2` with `hex`, and the clock are parameters; what the file system does in a call is an
-- argument. A file goes by its name in the directory.
pub mod Bound
pub mod Keeps
use gemini_worker_go.Prelude.{
  ℕ, ◌+◌, ◌-◌, ◌%◌, ◌≡◌, Bool, true, not, Option, none, some, List, [], ◌∷◌, ◌++◌, Result, ok, err,
  length, ltb, leb, if◌then◌else◌, unwrap_or, u64_mod,
}
use mathlib.Core.List.{reverse}
use gemini_worker_go.Text.{Text, codes, strip_prefix, is_empty}
use gemini_worker_go.Files.{
  Bytes, Files, IoError, no_dir, not_read, WriteOutcome, read_file, write_at, remove_file,
}
use gemini_worker_go.Cache.{CachedInlineData}

pub record DiskMeta : Type 0 where
  pub mime_type : Text
  pub expires_at_unix_ms : ℕ
  pub size_bytes : ℕ

pub data DiskError : Type 0 where
  io : IoError → DiskError
  bad_meta : DiskError

-- `serde_json::to_vec` and `from_slice` of a `DiskMeta`, which derives both directions.
pub record MetaCodec : Type 0 where
  pub to_vec : DiskMeta → Bytes
  pub from_slice : Bytes → Option DiskMeta
  pub from_slice-to_vec : (meta : DiskMeta) → from_slice (to_vec meta) ≡ some meta

-- The directory.
pub record Disk : Type 0 where
  pub dir_exists : Bool
  pub files : Files

-- What the file system does in one call: the names that cannot be read, those that cannot be removed,
-- whether the directory can be made and listed, when a file was modified, and what the two writes
-- come to.
pub record System : Type 0 where
  pub unreadable : Text → Bool
  pub stays : Text → Bool
  pub dir_made : Bool
  pub listed : Bool
  pub modified : Text → Option ℕ
  pub body_write : WriteOutcome
  pub meta_write : WriteOutcome

pub record DiskCache : Type 0 where
  pub ttl_ms : ℕ
  pub max_bytes : ℕ

-- An entry of `entries` in `prune_if_needed`, with the stem of its path.
pub record PruneEntry : Type 0 where
  pub modified : ℕ
  pub name : Text
  pub stem : Text
  pub size_bytes : ℕ

abbrev pub meta_of : DiskCache → ℕ → CachedInlineData → DiskMeta
meta_of c now value = record {
  mime_type = value.mime_type;
  expires_at_unix_ms = (now + c.ttl_ms) % u64_mod;
  size_bytes = length value.bytes;
}

abbrev pub meta_name : Text → Text
meta_name stem = stem ++ codes ".json"

abbrev pub body_name : Text → Text
body_name stem = stem ++ codes ".bin"

-- The stem of a name whose extension is `json`; a name that only begins with a dot has none.
abbrev pub non_empty_stem : Option Text → Option Text
non_empty_stem none = none
non_empty_stem (some stem) = if is_empty stem then none else some (reverse stem)

unfoldable pub json_stem : Text → Option Text
unfolding strip_prefix
json_stem name = non_empty_stem (strip_prefix (reverse name) (reverse (codes ".json")))

abbrev pub removed : System → Text → Files → Files
removed sys name files = if sys.stays name then files else remove_file name files

-- `sort_by_key` by the time of modification, which is stable.
abbrev pub insert_entry : PruneEntry → List PruneEntry → List PruneEntry
insert_entry e [] = e ∷ []
insert_entry e (f ∷ l) =
    let rest = insert_entry e l in if leb e.modified f.modified then e ∷ f ∷ l else f ∷ rest

unfoldable pub sort_by_modified : List PruneEntry → List PruneEntry
sort_by_modified [] = []
sort_by_modified (e ∷ l) = insert_entry e (sort_by_modified l)

unfoldable pub total_bytes : ℕ → List PruneEntry → ℕ
total_bytes total [] = total
total_bytes total (e ∷ l) = total_bytes ((total + e.size_bytes) % u64_mod) l

-- The loop that removes, the oldest first.
unfoldable pub remove_until_fits : System → ℕ → List PruneEntry → ℕ → Files → Files
unfolding remove_file
remove_until_fits sys max_bytes [] total files = files
remove_until_fits sys max_bytes (e ∷ l) total files =
    let rest =
      remove_until_fits sys max_bytes l (total - e.size_bytes)
        (removed sys (body_name e.stem) (removed sys e.name files)) in
    if leb total max_bytes then files else rest

module _ (codec : MetaCodec) where
  open codec use {to_vec, from_slice}

  abbrev pub listed_entry : System → Text → Option Text → Option DiskMeta → List PruneEntry
  listed_entry sys name none meta = []
  listed_entry sys name (some stem) none = []
  listed_entry sys name (some stem) (some meta) =
      if sys.unreadable name
      then []
      else record {
        modified = unwrap_or (sys.modified name) 0;
        name = name;
        stem = stem;
        size_bytes = meta.size_bytes;
      }
        ∷ []

  -- The loop over the directory.
  unfoldable pub collected : System → Files → List PruneEntry
  unfolding json_stem
  collected sys [] = []
  collected sys ((name, bytes) ∷ files) =
      listed_entry sys name (json_stem name) (from_slice bytes) ++ collected sys files

  unfoldable pub prune_if_needed : System → DiskCache → Disk → Result DiskError (Unit {0}) × Disk
  unfolding collected total_bytes sort_by_modified remove_until_fits
  prune_if_needed sys c disk =
      let entries = collected sys disk.files in
      let total = total_bytes 0 entries in
      if not disk.dir_exists
      then (ok tt, disk)
      else if not sys.listed
      then (err (io not_read), disk)
      else if leb total c.max_bytes
      then (ok tt, disk)
      else (
        ok tt,
        record disk {
          files = remove_until_fits sys c.max_bytes (sort_by_modified entries) total disk.files;
        },
      )

  abbrev pub read_found :
      System
      → ℕ
      → Text
      → Option DiskMeta
      → Bytes
      → Disk
      → Result DiskError (Option CachedInlineData) × Disk
  read_found sys now stem none bytes disk = (err bad_meta, disk)
  read_found sys now stem (some meta) bytes disk =
      if ltb meta.expires_at_unix_ms now
      then (
        ok none,
        record disk {
          files = removed sys (body_name stem) (removed sys (meta_name stem) disk.files);
        },
      )
      else if sys.unreadable (body_name stem)
      then (err (io not_read), disk)
      else (ok (some (record { mime_type = meta.mime_type; bytes = bytes })), disk)

  abbrev pub get_files :
      System
      → ℕ
      → Text
      → Option Bytes
      → Option Bytes
      → Disk
      → Result DiskError (Option CachedInlineData) × Disk
  get_files sys now stem none body disk = (ok none, disk)
  get_files sys now stem (some meta_bytes) none disk = (ok none, disk)
  get_files sys now stem (some meta_bytes) (some body) disk =
      if sys.unreadable (meta_name stem)
      then (err (io not_read), disk)
      else read_found sys now stem (from_slice meta_bytes) body disk

  unfoldable pub get :
      (Text → Text) → System → ℕ → Text → Disk → Result DiskError (Option CachedInlineData) × Disk
  unfolding read_file remove_file
  get cache_key sys now url disk =
      get_files sys now (cache_key url) (read_file (meta_name (cache_key url)) disk.files)
        (read_file (body_name (cache_key url)) disk.files) disk

  abbrev pub after_meta :
      System → DiskCache → Result IoError (Unit {0}) × Files → Result DiskError (Unit {0}) × Disk
  after_meta sys c (err e, files) = (err (io e), record { dir_exists = true; files = files })
  after_meta sys c (ok done, files) =
      prune_if_needed sys c (record { dir_exists = true; files = files })

  abbrev pub after_body :
      System
      → DiskCache
      → Text
      → Bytes
      → Result IoError (Unit {0}) × Files
      → Result DiskError (Unit {0}) × Disk
  after_body sys c stem meta (err e, files) =
      (err (io e), record { dir_exists = true; files = files })
  after_body sys c stem meta (ok done, files) =
      after_meta sys c (write_at sys.meta_write (meta_name stem) meta files)

  unfoldable pub set :
      (Text → Text)
      → System
      → DiskCache
      → ℕ
      → Text
      → CachedInlineData
      → Disk
      → Result DiskError (Unit {0}) × Disk
  unfolding write_at prune_if_needed
  set cache_key sys c now url value disk =
      if not sys.dir_made
      then (err (io no_dir), disk)
      else after_body sys c (cache_key url) (to_vec (meta_of c now value))
          (write_at sys.body_write (body_name (cache_key url)) value.bytes disk.files)
