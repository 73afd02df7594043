-- ===== src/Cache/Memory.antt =====
-- rust-sync-proxy/src/cache.rs, `MemoryCache`: images in memory, up to a number of bytes. The map
-- is the `LruCache` of a crate, a parameter.
pub mod Entries
pub mod Budget
pub mod Touch
use gemini_worker_go.Prelude.{
  ℕ, zero, suc, ◌+◌, ◌-◌, ◌%◌, Bool, Option, none, some, length, ltb, if◌then◌else◌, u64_mod,
}
use gemini_worker_go.Text.{Text}
use gemini_worker_go.Cache.{CachedInlineData, MemoryEntry}
use gemini_worker_go.Cache.Lru.{LruCache}

-- `saturating_sub` of the size of an entry that has been taken out.
abbrev pub after_pop : Option MemoryEntry → ℕ → ℕ
after_pop none cur_bytes = cur_bytes
after_pop (some e) cur_bytes = cur_bytes - e.size

module _ (lru : LruCache MemoryEntry) where
  open lru use {Items, unbounded, get as lru_get, pop, pop_lru, put, entries}

  pub record MemoryCache : Type 0 where
    pub items : Items
    pub max_bytes : ℕ
    pub cur_bytes : ℕ

  unfoldable pub new : ℕ → MemoryCache
  new max_bytes = record { items = unbounded; max_bytes = max_bytes; cur_bytes = 0 }

  unfoldable pub get : Text → MemoryCache → Option CachedInlineData × MemoryCache
  get url c =
      let (item, items') = lru_get url c.items in
      (
        elim item [
          | none ↦ none
          | some e ↦ some (record { mime_type = e.mime_type; bytes = e.bytes })
        ],
        record c { items = items' },
      )

  -- The `while` loop of `set`; one round of fuel for each entry, and one for the last test.
  unfoldable pub evict : ℕ → ℕ → ℕ → Items → ℕ → Items × ℕ
  evict zero max_bytes size items cur_bytes = (items, cur_bytes)
  evict (suc fuel) max_bytes size items cur_bytes =
      let (victim, items') = pop_lru items in
      let more : Items × ℕ = elim victim [
        | none ↦ (items', cur_bytes)
        | some e ↦ evict fuel max_bytes size items' (cur_bytes - e.1.size)
      ] in
      if ltb max_bytes ((cur_bytes + size) % u64_mod) then more else (items, cur_bytes)

  unfoldable pub set : Text → CachedInlineData → MemoryCache → MemoryCache
  set url value c =
      let size = length value.bytes in
      let (previous, items') = pop url c.items in
      let (items'', cur) =
        evict (suc (length (entries items'))) c.max_bytes size items'
          (after_pop previous c.cur_bytes) in
      let entry : MemoryEntry = record {
        mime_type = value.mime_type;
        bytes = value.bytes;
        size = size;
      } in
      if ltb c.max_bytes size
      then c
      else record c { items = put url entry items''; cur_bytes = (cur + size) % u64_mod }
