-- ===== src/Cache/Memory/Touch.antt =====
-- rust-sync-proxy/src/cache.rs, `MemoryCache::get`: a hit moves its entry to the front and changes nothing
-- else.
use gemini_worker_go.Prelude.{
  ◌-◌, ◌≡◌, ◌≤◌, refl, sym, ap, ◌∙◌, Option, none, some, Option-cases, inl, inr, ◌∷◌, arith,
}
use gemini_worker_go.Text.{Text}
use gemini_worker_go.Text.Laws.{text_eq_refl}
use gemini_worker_go.Cache.{MemoryEntry}
use gemini_worker_go.Cache.Lru.{LruCache, lookup, touch, without}
use gemini_worker_go.Cache.Memory.{MemoryCache, get, after_pop}
use gemini_worker_go.Cache.Memory.Entries.{
  Entries, total, HasDistinctKeys, HasDistinctKeys-without, IsAbsent-without_self, total-without,
  lookup-le-total,
}
use gemini_worker_go.Cache.Memory.Budget.{IsValid}

module _ (k : Text) (l : Entries) where
  abbrev in_front : Option MemoryEntry → Entries
  in_front none = l
  in_front (some e) = (k, e) ∷ without k l

  touch-in_front : (o : Option MemoryEntry) → lookup k l ≡ o → touch k l ≡ in_front o
  unfolding touch
  touch-in_front none found = rw (touch, found) refl
  touch-in_front (some e) found = rw (touch, found) refl

  total-touch : HasDistinctKeys l → total (touch k l) ≡ total l
  total-touch d = elim (Option-cases (lookup k l)) [
    | inl nothing ↦ ap total (touch-in_front none nothing)
    | inr (e, found) ↦
        let kept : total l - e.size ≡ total (without k l) =
          ap (λ o. after_pop o (total l)) (sym found) ∙ total-without k l d in
        let fits : e.size ≤ total l = (rw found at (lookup-le-total k l)) in
        ap total (touch-in_front (some e) found) ∙ omega (arith, kept, fits)
  ]

  HasDistinctKeys-touch : HasDistinctKeys l → HasDistinctKeys (touch k l)
  HasDistinctKeys-touch d = elim (Option-cases (lookup k l)) [
    | inl nothing ↦ rw (touch-in_front none nothing) d
    | inr (e, found) ↦
        rw (touch-in_front (some e) found)
          (IsAbsent-without_self k l, HasDistinctKeys-without k l d)
  ]

  lookup-touch : lookup k (touch k l) ≡ lookup k l
  unfolding lookup
  lookup-touch = elim (Option-cases (lookup k l)) [
    | inl nothing ↦ ap (lookup k) (touch-in_front none nothing)
    | inr (e, found) ↦
        ap (lookup k) (touch-in_front (some e) found) ∙ (rw (text_eq_refl k) (sym found))
  ]

module _ (lru : LruCache MemoryEntry) where
  open lru use {entries, entries-get, get_value}

  -- `get` keeps the count of bytes exact and within the limit and the keys distinct.
  pub get-IsValid :
      (url : Text) (c : MemoryCache lru) → IsValid lru c → IsValid lru (get lru url c).1
  unfolding get
  get-IsValid url c v = record {
    exact =
        v.exact
        ∙ sym (ap total (entries-get url c.items) ∙ total-touch url (entries c.items) v.distinct);
    within = v.within;
    distinct =
        rw (entries-get url c.items) (HasDistinctKeys-touch url (entries c.items) v.distinct);
  }

  -- A second look finds what the first one found.
  pub get-get :
      (url : Text) (c : MemoryCache lru) → (get lru url (get lru url c).1).0 ≡ (get lru url c).0
  unfolding get
  get-get url c =
      rw
        (
          get_value url (lru.get url c.items).1,
          get_value url c.items,
          entries-get url c.items,
          lookup-touch url (entries c.items),
        )
        refl
