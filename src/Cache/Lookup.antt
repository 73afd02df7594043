-- ===== src/Cache/Lookup.antt =====
-- rust-sync-proxy/src/cache.rs: `fetch` of `InlineDataUrlFetchService` up to the map of fetches in flight,
-- and `store_in_caches`. Either cache may be missing.
pub mod Promotes
use gemini_worker_go.Prelude.{ℕ, Bool, true, Option, none, some, Result, ok, err}
use gemini_worker_go.Text.{Text}
use gemini_worker_go.Cache.{CachedInlineData, FetchResult, MemoryEntry}
use gemini_worker_go.Cache.Lru.{LruCache}
use gemini_worker_go.Cache.Memory.{MemoryCache, get as memory_get, set as memory_set}
use gemini_worker_go.Cache.Disk.{
  get as disk_get, set as disk_set, Disk, System, DiskCache, DiskError, MetaCodec,
}

abbrev pub from_cache : CachedInlineData → FetchResult
from_cache hit = record { mime_type = hit.mime_type; bytes = hit.bytes; from_cache = true }

module _ (lru : LruCache MemoryEntry) where
  pub record Caches : Type 0 where
    pub memory : Option (MemoryCache lru)
    pub disk : Option (DiskCache × Disk)

  abbrev pub get_memory :
      Text → Option (MemoryCache lru) → Option CachedInlineData × Option (MemoryCache lru)
  get_memory url none = (none, none)
  get_memory url (some c) = let (hit, c') = memory_get lru url c in (hit, some c')

  abbrev pub set_memory :
      Text → CachedInlineData → Option (MemoryCache lru) → Option (MemoryCache lru)
  set_memory url hit none = none
  set_memory url hit (some c) = some (memory_set lru url hit c)

module _ (lru : LruCache MemoryEntry) (codec : MetaCodec) (cache_key : Text → Text) where
  -- What the disk has given goes into the memory cache.
  abbrev pub promoted :
      Text
      → Option (MemoryCache lru)
      → DiskCache
      → Result DiskError (Option CachedInlineData) × Disk
      → Result DiskError (Option FetchResult) × Caches lru
  promoted url memory c (err e, disk) = (err e, record { memory = memory; disk = some (c, disk) })
  promoted url memory c (ok none, disk) =
      (ok none, record { memory = memory; disk = some (c, disk) })
  promoted url memory c (ok (some hit), disk) = (
    ok (some (from_cache hit)),
    record { memory = set_memory lru url hit memory; disk = some (c, disk) },
  )

  abbrev pub ask_disk :
      System
      → ℕ
      → Text
      → Option (MemoryCache lru)
      → Option (DiskCache × Disk)
      → Result DiskError (Option FetchResult) × Caches lru
  ask_disk sys now url memory none = (ok none, record { memory = memory; disk = none })
  ask_disk sys now url memory (some (c, disk)) =
      promoted url memory c (disk_get codec cache_key sys now url disk)

  abbrev pub ask_caches :
      System
      → ℕ
      → Text
      → Option CachedInlineData × Option (MemoryCache lru)
      → Option (DiskCache × Disk)
      → Result DiskError (Option FetchResult) × Caches lru
  ask_caches sys now url (some hit, memory) disk =
      (ok (some (from_cache hit)), record { memory = memory; disk = disk })
  ask_caches sys now url (none, memory) disk = ask_disk sys now url memory disk

  -- Nothing found is `none`: the fetch goes on with the map of fetches in flight.
  unfoldable pub lookup_caches :
      System → ℕ → Text → Caches lru → Result DiskError (Option FetchResult) × Caches lru
  unfolding memory_get memory_set disk_get
  lookup_caches sys now url caches =
      ask_caches sys now url (get_memory lru url caches.memory) caches.disk

  abbrev pub set_disk :
      System → ℕ → Text → CachedInlineData → Option (DiskCache × Disk) → Option (DiskCache × Disk)
  set_disk sys now url hit none = none
  set_disk sys now url hit (some (c, disk)) =
      some (c, (disk_set codec cache_key sys c now url hit disk).1)

  unfoldable pub store_in_caches : System → ℕ → Text → CachedInlineData → Caches lru → Caches lru
  unfolding memory_set disk_set
  store_in_caches sys now url hit caches = record {
    memory = set_memory lru url hit caches.memory;
    disk = set_disk sys now url hit caches.disk;
  }
