-- ===== src/Cache/Memory/Budget.antt =====
-- rust-sync-proxy/src/cache.rs, `MemoryCache`: what `set` keeps, and what `get` finds.
use gemini_worker_go.Prelude.{
  ℕ, zero, suc, ◌+◌, ◌-◌, ◌%◌, ◌^◌, ◌≤◌, ◌<◌, ◌≡◌, refl, sym, ap, ◌∙◌, false, Bool-cases, inl, inr,
  some, ◌∷◌, length, ltb, if◌then◌else◌, u64_mod, arith, Option-cases, ltb→lt,
}
use gemini_worker_go.Text.{Text}
use gemini_worker_go.Text.Laws.{text_eq_refl}
use gemini_worker_go.Cache.{CachedInlineData, MemoryEntry}
use gemini_worker_go.Cache.Lru.{LruCache, lookup, without}
use gemini_worker_go.Cache.Memory.{MemoryCache, get, set, evict, after_pop}
use gemini_worker_go.Cache.Memory.Entries.{
  Entries, total, keep, HasDistinctKeys, HasDistinctKeys-without, HasDistinctKeys-keep, keep_all,
  keep-init, total-keep-le, total-init, length-init, last?-none, total-without,
  IsAbsent-without_self, IsAbsent-keep, total-without-le, without-keep_absent,
}

abbrev pub entry_of : CachedInlineData → MemoryEntry
entry_of value = record {
  mime_type = value.mime_type;
  bytes = value.bytes;
  size = length value.bytes;
}

module _ (lru : LruCache MemoryEntry) where
  open lru use {
    Items, entries, pop_lru, pop_lru_value, entries-pop_lru, entries-put, entries-pop, pop_value,
    get_value,
  }

  pub record IsValid (c : MemoryCache lru) : Type 0 where
    pub exact : c.cur_bytes ≡ total (entries c.items)
    pub within : c.cur_bytes ≤ c.max_bytes
    pub distinct : HasDistinctKeys (entries c.items)

  -- With one round for each entry the loop ends by its test, and leaves the most recent entries
  -- that leave room for the new one.
  evict-keep :
      (fuel max_bytes size : ℕ) (items : Items) (cur : ℕ)
      → length (entries items) < fuel
      → max_bytes < 2 ^ 63
      → size ≤ max_bytes
      → cur ≤ max_bytes
      → cur ≡ total (entries items)
      → (entries (evict lru fuel max_bytes size items cur).0
          ≡ keep (max_bytes - size) (entries items))
        × ((evict lru fuel max_bytes size items cur).1
            ≡ total (keep (max_bytes - size) (entries items)))
  unfolding evict
  evict-keep zero max_bytes size items cur f m s c e = absurd (omega arith)
  evict-keep (suc fuel) max_bytes size items cur f m s c e =
      elim (Bool-cases (ltb max_bytes ((cur + size) % u64_mod))) [
        | inl full ↦ elim (Option-cases (pop_lru items).0) [
          | inl nothing ↦
              let no_entries = last?-none (entries items) (sym (pop_lru_value items) ∙ nothing) in
              absurd (omega (arith, ap total no_entries, ltb→lt _ _ full))
          | inr (v, found) ↦
              let last = sym (pop_lru_value items) ∙ found in
              let left = entries-pop_lru items in
              let shorter = length-init (entries items) v last in
              let less = total-init (entries items) v last in
              let (kept, sum) =
                evict-keep fuel max_bytes size (pop_lru items).1 (cur - v.1.size)
                  (omega (arith, ap length left, shorter)) m s (omega arith)
                  (omega (arith, ap total left, less, e)) in
              let same =
                ap (keep (max_bytes - size)) left
                ∙ keep-init (max_bytes - size) (entries items) (omega (arith, ltb→lt _ _ full)) in
              rw (full, found) (kept ∙ same, sum ∙ ap total same)
        ]
        | inr room ↦
            let fits = keep_all (max_bytes - size) (entries items) (ground arith) in
            rw (room, fits) (refl, e)
      ]

  -- What the loop of `set` is given, and what it leaves.
  set-evict :
      (url : Text) (size : ℕ) (c : MemoryCache lru)
      → IsValid c
      → c.max_bytes < 2 ^ 63
      → size ≤ c.max_bytes
      → let items = (lru.pop url c.items).1 in
        let r =
          evict lru
            (suc (length (entries items)))
            c.max_bytes
            size
            items
            (after_pop (lru.pop url c.items).0 c.cur_bytes) in
        let l = keep (c.max_bytes - size) (without url (entries c.items)) in
        (entries r.0 ≡ l) × (r.1 ≡ total l)
  set-evict url size c v m s =
      let items = (lru.pop url c.items).1 in
      let left = entries-pop url c.items in
      let cur : after_pop (lru.pop url c.items).0 c.cur_bytes
          ≡ total (without url (entries c.items)) =
        rw (pop_value url c.items, v.exact) (total-without url (entries c.items) v.distinct) in
      let (kept, sum) =
        evict-keep (suc (length (entries items))) c.max_bytes size items _ (omega arith) m s
          (omega (arith, cur, total-without-le url (entries c.items), v.exact, v.within))
          (cur ∙ ap total (sym left)) in
      let same = ap (keep (c.max_bytes - size)) left in (kept ∙ same, sum ∙ ap total same)

  -- The value comes first, before the most recent of the other entries that leave room for it.
  entries-set_fits :
      (url : Text) (value : CachedInlineData) (c : MemoryCache lru)
      → IsValid c
      → c.max_bytes < 2 ^ 63
      → ltb c.max_bytes (length value.bytes) ≡ false
      → entries (set lru url value c).items
        ≡ (url, entry_of value)
          ∷ keep (c.max_bytes - length value.bytes) (without url (entries c.items))
  unfolding set
  entries-set_fits url value c v m fits = rw fits (
      let (kept, sum) = set-evict url (length value.bytes) c v m (ground arith) in
      entries-put url _ _
      ∙ ap (λ (l : Entries). (url, entry_of value) ∷ l)
          (ap (without url) kept ∙ without-keep_absent url _ (entries c.items)))

  -- `set` of a value that fits drops the entry with the same key and then, from the least recently
  -- used end, no more entries than it must: the most recent ones that leave room for it stay, in
  -- their order, and it comes first. A value over the limit changes nothing. The cache is valid and
  -- its limit below 2^63.
  pub entries-set :
      (url : Text) (value : CachedInlineData) (c : MemoryCache lru)
      → IsValid c
      → c.max_bytes < 2 ^ 63
      → entries (set lru url value c).items ≡ (
          if ltb c.max_bytes (length value.bytes)
          then entries c.items
          else (url, entry_of value)
            ∷ keep (c.max_bytes - length value.bytes) (without url (entries c.items)))
  entries-set url value c v m = elim (Bool-cases (ltb c.max_bytes (length value.bytes))) [
    | inl big ↦ unfold set in rw big
    | inr fits ↦ entries-set_fits url value c v m fits ∙ rw fits
  ]

  set-cur :
      (url : Text) (value : CachedInlineData) (c : MemoryCache lru)
      → IsValid c
      → c.max_bytes < 2 ^ 63
      → ltb c.max_bytes (length value.bytes) ≡ false
      → (set lru url value c).cur_bytes
        ≡ total (keep (c.max_bytes - length value.bytes) (without url (entries c.items)))
          + length value.bytes
  unfolding set
  set-cur url value c v m fits =
      let (kept, sum) = set-evict url (length value.bytes) c v m (ground arith) in
      let room = total-keep-le (c.max_bytes - length value.bytes) (without url (entries c.items)) in
      rw (fits, sum) (ground arith)

  set-max :
      (url : Text) (value : CachedInlineData) (c : MemoryCache lru)
      → (set lru url value c).max_bytes ≡ c.max_bytes
  unfolding set
  set-max url value c = ground arith

  -- `set` keeps the count of bytes exact and inside the limit, and the keys distinct, if the limit is
  -- below 2^63.
  pub set-IsValid :
      (url : Text) (value : CachedInlineData) (c : MemoryCache lru)
      → IsValid c
      → c.max_bytes < 2 ^ 63
      → IsValid (set lru url value c)
  set-IsValid url value c v m = elim (Bool-cases (ltb c.max_bytes (length value.bytes))) [
    | inl big ↦ unfold set in rw big v
    | inr fits ↦
        let after = entries-set_fits url value c v m fits in
        let cur = set-cur url value c v m fits in
        let small : length value.bytes ≤ c.max_bytes = ground arith in
        let l = without url (entries c.items) in
        record {
          exact = omega (arith, cur, ap total after);
          within =
              rw (set-max url value c)
                (omega (arith, cur, total-keep-le (c.max_bytes - length value.bytes) l));
          distinct = rw after (
            IsAbsent-keep url _ l (IsAbsent-without_self url (entries c.items)),
            HasDistinctKeys-keep _ l (HasDistinctKeys-without url (entries c.items) v.distinct),
          );
        }
  ]

  lookup-cons : (k : Text) (e : MemoryEntry) (l : Entries) → lookup k ((k, e) ∷ l) ≡ some e
  unfolding lookup
  lookup-cons k e l = rw (text_eq_refl k)

  get_found :
      (url : Text) (c : MemoryCache lru) (e : MemoryEntry)
      → lookup url (entries c.items) ≡ some e
      → (get lru url c).0 ≡ some (record { mime_type = e.mime_type; bytes = e.bytes })
  unfolding get
  get_found url c e h = rw (get_value url c.items, h)

  -- In a valid cache with a limit below 2^63, a value that fits is found under its key once it is set.
  pub get-set_self :
      (url : Text) (value : CachedInlineData) (c : MemoryCache lru)
      → IsValid c
      → c.max_bytes < 2 ^ 63
      → length value.bytes ≤ c.max_bytes
      → (get lru url (set lru url value c)).0 ≡ some value
  get-set_self url value c v m fits =
      get_found url (set lru url value c) (entry_of value)
        (ap (lookup url) (entries-set_fits url value c v m (ground arith)) ∙ lookup-cons url _ _)
