-- ===== src/Cache/Lookup/Promotes.antt =====
-- rust-sync-proxy/src/cache.rs: what `fetch` finds in the caches after it has found or stored something.
use gemini_worker_go.Prelude.{
  ℕ, ◌≡◌, ◌≤◌, ◌<◌, ◌^◌, refl, ap, ◌∙◌, true, false, Option, none, some, Result, ok, err, length,
  take,
}
use gemini_worker_go.Text.{Text}
use gemini_worker_go.Files.{written, cut}
use gemini_worker_go.Cache.{CachedInlineData, FetchResult, MemoryEntry}
use gemini_worker_go.Cache.Lru.{LruCache}
use gemini_worker_go.Cache.Memory.{MemoryCache, get as memory_get, set as memory_set}
use gemini_worker_go.Cache.Memory.Budget.{IsValid, get-set_self}
use gemini_worker_go.Cache.Memory.Touch.{get-IsValid, get-get}
use gemini_worker_go.Cache.Disk.{
  get as disk_get, Disk, System, DiskCache, DiskError, MetaCodec, bad_meta, meta_of, meta_name,
}
use gemini_worker_go.Cache.Disk.Keeps.{get-set_cut}
use gemini_worker_go.Cache.Lookup.{
  from_cache, lookup_caches, store_in_caches, get_memory, ask_caches, promoted,
}

module _ (lru : LruCache MemoryEntry) (codec : MetaCodec) (cache_key : Text → Text) where
  found_in_memory :
      (sys : System) (now : ℕ) (url : Text) (hit : CachedInlineData) (c : MemoryCache lru)
      (disk : Option (DiskCache × Disk))
      → (memory_get lru url c).0 ≡ some hit
      → (lookup_caches lru codec cache_key sys now url (record { memory = some c; disk = disk })).0
        ≡ ok (some (from_cache hit))
  unfolding lookup_caches
  found_in_memory sys now url hit c disk found = rw found refl

  -- What has been stored is found in memory, whatever the disk did and does, if the memory cache is valid,
  -- with a limit below 2^63 that the value keeps.
  pub lookup_caches-store_in_caches :
      (sys sys' : System) (now now' : ℕ) (url : Text) (hit : CachedInlineData) (c : MemoryCache lru)
      (disk : Option (DiskCache × Disk))
      → IsValid lru c
      → c.max_bytes < 2 ^ 63
      → length hit.bytes ≤ c.max_bytes
      → (lookup_caches lru codec cache_key sys' now' url (
          store_in_caches lru codec cache_key sys now url hit
            (record { memory = some c; disk = disk }))).0
        ≡ ok (some (from_cache hit))
  unfolding store_in_caches
  lookup_caches-store_in_caches sys sys' now now' url hit c disk v m fits =
      found_in_memory sys' now' url hit (memory_set lru url hit c) _
        (get-set_self lru url hit c v m fits)

  -- What the disk gives stays in memory.
  promoted_again :
      (sys' : System) (now' : ℕ) (url : Text) (r : FetchResult) (m : MemoryCache lru)
      (c : DiskCache) (got : Result DiskError (Option CachedInlineData) × Disk)
      → IsValid lru m
      → m.max_bytes < 2 ^ 63
      → length r.bytes ≤ m.max_bytes
      → (promoted lru codec cache_key url (some m) c got).0 ≡ ok (some r)
      → (lookup_caches lru codec cache_key sys' now' url
          (promoted lru codec cache_key url (some m) c got).1).0
        ≡ ok (some r)
  promoted_again sys' now' url r m c (err e, disk) v lt fits found = cc
  promoted_again sys' now' url r m c (ok none, disk) v lt fits found = cc
  promoted_again sys' now' url r m c (ok (some hit), disk) v lt fits found =
      let same : from_cache hit ≡ r = cc in
      let le : length hit.bytes ≤ m.max_bytes = rw (ap (λ (x : FetchResult). x.bytes) same) fits in
      found_in_memory sys' now' url hit (memory_set lru url hit m) _
        (get-set_self lru url hit m v lt le)
      ∙ found

  asked_again :
      (sys sys' : System) (now now' : ℕ) (url : Text) (r : FetchResult)
      (hit : Option CachedInlineData) (m : MemoryCache lru) (disk : Option (DiskCache × Disk))
      → IsValid lru m
      → m.max_bytes < 2 ^ 63
      → length r.bytes ≤ m.max_bytes
      → (memory_get lru url m).0 ≡ hit
      → (ask_caches lru codec cache_key sys now url (hit, some m) disk).0 ≡ ok (some r)
      → (lookup_caches lru codec cache_key sys' now' url
          (ask_caches lru codec cache_key sys now url (hit, some m) disk).1).0
        ≡ ok (some r)
  asked_again sys sys' now now' url r (some hit) m disk v lt fits again found =
      found_in_memory sys' now' url hit m disk again ∙ found
  asked_again sys sys' now now' url r none m none v lt fits again found = cc
  asked_again sys sys' now now' url r none m (some (c, d)) v lt fits again found =
      promoted_again sys' now' url r m c (disk_get codec cache_key sys now url d) v lt fits found

  -- What has been found once is found again, whatever the disk does then, if the memory cache is valid, with
  -- a limit below 2^63 that the image keeps: the disk is not asked a second time.
  pub lookup_caches-lookup_caches :
      (sys sys' : System) (now now' : ℕ) (url : Text) (r : FetchResult) (m : MemoryCache lru)
      (disk : Option (DiskCache × Disk))
      → IsValid lru m
      → m.max_bytes < 2 ^ 63
      → length r.bytes ≤ m.max_bytes
      → (lookup_caches lru codec cache_key sys now url (record { memory = some m; disk = disk })).0
        ≡ ok (some r)
      → (lookup_caches lru codec cache_key sys' now' url
          (lookup_caches lru codec cache_key sys now url
            (record { memory = some m; disk = disk })).1).0
        ≡ ok (some r)
  unfolding lookup_caches memory_get
  lookup_caches-lookup_caches sys sys' now now' url r m disk v lt fits =
      asked_again sys sys' now now' url r (memory_get lru url m).0 (memory_get lru url m).1 disk
        (get-IsValid lru url m v) lt fits (get-get lru url m)

  -- Where the description of an image was cut as it was stored, so that it no longer reads, the caches answer
  -- with an error at any time after, when the image is not in memory then, because there is no memory cache
  -- or because it does not have the image, and the file of the description can be read; the disk stays as it
  -- was. The fetch does not come to ask the network.
  pub lookup_caches-cut :
      (sys sys' : System) (now now' n : ℕ) (url : Text) (hit : CachedInlineData) (c : DiskCache)
      (disk : Disk) (memory memory' : Option (MemoryCache lru))
      → sys.dir_made ≡ true
      → sys.body_write ≡ written
      → sys.meta_write ≡ cut n
      → codec.from_slice (take n (codec.to_vec (meta_of c now hit))) ≡ none
      → sys'.unreadable (meta_name (cache_key url)) ≡ false
      → (get_memory lru url memory').0 ≡ none
      → lookup_caches lru codec cache_key sys' now' url (record {
        memory = memory';
        disk =
            (store_in_caches lru codec cache_key sys now url hit
              (record { memory = memory; disk = some (c, disk) })).disk;
      })
        ≡ (
          err bad_meta,
          record {
            memory = (get_memory lru url memory').1;
            disk =
                (store_in_caches lru codec cache_key sys now url hit
                  (record { memory = memory; disk = some (c, disk) })).disk;
          },
        )
  unfolding lookup_caches store_in_caches
  lookup_caches-cut sys sys' now now' n url hit c disk memory memory' made body meta bad readable
        missed =
      let got =
        (get-set_cut codec cache_key sys sys' c now now' n url hit disk made body meta bad
          readable).1 in
      let disk' =
        (store_in_caches lru codec cache_key sys now url hit
          (record { memory = memory; disk = some (c, disk) })).disk in
      ap
        (λ o.
          ask_caches lru codec cache_key sys' now' url (o, (get_memory lru url memory').1) disk')
        missed
      ∙ ap (promoted lru codec cache_key url (get_memory lru url memory').1 c) got
