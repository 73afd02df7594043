-- ===== src/Tests/Disk.antt =====
-- The caches of rust-sync-proxy/src/cache.rs, disk included, on small inputs.
use gemini_worker_go.Prelude.{
  ◌≡◌, ◌≤◌, ◌⊎◌, refl, Bool, true, false, Option, none, some, [], ◌∷◌, ok, err, arith,
  if◌then◌else◌,
}
use gemini_worker_go.Text.{Text, codes, text_eq, strip_prefix}
use gemini_worker_go.Files.{Bytes, written, cut, read_file, write_file, remove_file, not_read}
use gemini_worker_go.Cache.{CachedInlineData}
use gemini_worker_go.Cache.Lru.{list_lru, lookup}
use gemini_worker_go.Cache.Memory.{MemoryCache, get as memory_get}
use gemini_worker_go.Cache.Memory.Budget.{IsValid}
use gemini_worker_go.Cache.Disk.{
  Disk, DiskMeta, System, DiskCache, MetaCodec, bad_meta, io, get as disk_get, set as disk_set,
  prune_if_needed, collected, total_bytes, sort_by_modified, remove_until_fits, json_stem,
}
use gemini_worker_go.Cache.Disk.Bound.{size_of_all, prune_if_needed-fits}
use gemini_worker_go.Cache.Disk.Keeps.{IsWriting, get-set}
use gemini_worker_go.Cache.Lookup.{Caches, lookup_caches, store_in_caches, from_cache, get_memory}
use gemini_worker_go.Cache.Lookup.Promotes.{lookup_caches-lookup_caches, lookup_caches-cut}

-- A format that reads back what it writes.
abbrev written_meta : DiskMeta → Bytes
written_meta meta = meta.expires_at_unix_ms ∷ meta.size_bytes ∷ meta.mime_type

abbrev read_meta : Bytes → Option DiskMeta
read_meta [] = none
read_meta (a ∷ []) = none
read_meta (a ∷ b ∷ text) =
    some (record { mime_type = text; expires_at_unix_ms = a; size_bytes = b })

abbrev plain : MetaCodec
plain = record { to_vec = written_meta; from_slice = read_meta; from_slice-to_vec = λ meta. refl }

abbrev same : Text → Text
same url = url

abbrev no_name : Text → Bool
no_name name = false

abbrev fine : System
fine = record {
  unreadable = no_name;
  stays = no_name;
  dir_made = true;
  listed = true;
  modified = λ name. none;
  body_write = written;
  meta_write = written;
}

abbrev cutting : System
cutting = record fine { meta_write = cut 1 }

abbrev cache : DiskCache
cache = record { ttl_ms = 10; max_bytes = 3 }

abbrev empty_dir : Disk
empty_dir = record { dir_exists = false; files = [] }

abbrev png : Bytes → CachedInlineData
png bytes = record { mime_type = codes "image/png"; bytes = bytes }

fine-IsWriting : IsWriting plain same fine
fine-IsWriting = record { makes_dir = refl; writes_body = refl; writes_meta = refl }

get-set_example :
    (disk_get plain same fine 12
      (codes "u")
      (disk_set plain same fine cache 5 (codes "u") (png (1 ∷ 2 ∷ [])) empty_dir).1).0
    ≡ ok (some (png (1 ∷ 2 ∷ [])))
unfolding collected total_bytes write_file json_stem strip_prefix text_eq
get-set_example =
    get-set plain same fine fine cache 5 12 (codes "u") (png (1 ∷ 2 ∷ [])) empty_dir fine-IsWriting
      refl (λ name. refl) (omega arith)

-- Two images of two bytes each, which are one byte too many.
abbrev crowded : Disk
crowded = record {
  dir_exists = true;
  files =
      (codes "a.json", 9 ∷ 2 ∷ [])
      ∷ (codes "a.bin", 1 ∷ 2 ∷ [])
      ∷ (codes "b.json", 9 ∷ 2 ∷ [])
      ∷ (codes "b.bin", 3 ∷ 4 ∷ [])
      ∷ [];
}

-- `b` is the older one.
abbrev aged : System
aged = record fine { modified = λ name. if text_eq name (codes "a.json") then some 7 else some 3 }

removes_oldest :
    (prune_if_needed plain aged cache crowded).1.files
    ≡ (codes "a.json", 9 ∷ 2 ∷ []) ∷ (codes "a.bin", 1 ∷ 2 ∷ []) ∷ []
unfolding prune_if_needed collected total_bytes sort_by_modified remove_until_fits remove_file
    json_stem strip_prefix text_eq
removes_oldest = refl

prune_if_needed-fits_example :
    ((prune_if_needed plain aged cache crowded).0 ≡ err (io not_read))
    ⊎ (size_of_all (collected plain aged (prune_if_needed plain aged cache crowded).1.files) ≤ 3)
unfolding collected json_stem strip_prefix text_eq
prune_if_needed-fits_example =
    prune_if_needed-fits plain aged (λ name. refl) cache crowded refl (omega arith)

abbrev memory : MemoryCache list_lru
memory = record { items = []; max_bytes = 4; cur_bytes = 0 }

memory-IsValid : IsValid list_lru memory
memory-IsValid = record { exact = refl; within = omega arith; distinct = tt }

abbrev on_disk : Disk
on_disk = record {
  dir_exists = true;
  files = (codes "u.json", 9 ∷ 2 ∷ codes "image/png") ∷ (codes "u.bin", 1 ∷ 2 ∷ []) ∷ [];
}

abbrev only_disk : Caches list_lru
only_disk = record { memory = some memory; disk = some (cache, on_disk) }

lookup_caches-lookup_caches_example :
    (lookup_caches list_lru plain same fine 50
      (codes "u")
      (lookup_caches list_lru plain same fine 5 (codes "u") only_disk).1).0
    ≡ ok (some (from_cache (png (1 ∷ 2 ∷ []))))
unfolding lookup_caches memory_get disk_get read_file lookup text_eq
lookup_caches-lookup_caches_example =
    lookup_caches-lookup_caches list_lru plain same fine fine 5 50 (codes "u")
      (from_cache (png (1 ∷ 2 ∷ []))) memory (some (cache, on_disk)) memory-IsValid (omega arith)
      (omega arith) refl

-- The image is too large for the memory cache, and has been cut on the disk.
abbrev large : CachedInlineData
large = png (1 ∷ 2 ∷ 3 ∷ 4 ∷ 5 ∷ [])

abbrev after_cut : Option (DiskCache × Disk)
after_cut =
    (store_in_caches list_lru plain same cutting 5 (codes "u") large
      (record { memory = some memory; disk = some (cache, empty_dir) })).disk

lookup_caches-cut_example :
    lookup_caches list_lru plain same fine 6
      (codes "u")
      (record { memory = some memory; disk = after_cut })
    ≡ (
      err bad_meta,
      record { memory = (get_memory list_lru (codes "u") (some memory)).1; disk = after_cut },
    )
unfolding lookup memory_get
lookup_caches-cut_example =
    lookup_caches-cut list_lru plain same cutting fine 5 6 1 (codes "u") large cache empty_dir
      (some memory) (some memory) refl refl refl refl refl refl
