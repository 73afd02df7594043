-- ===== src/Tests/Cache.antt =====
-- rust-sync-proxy/src/cache.rs on small inputs.
use gemini_worker_go.Prelude.{ℕ, ◌≡◌, refl, ltb, if◌then◌else◌, List, [], ◌∷◌, arith, ◌-◌}
use gemini_worker_go.Text.{codes, text_eq}
use gemini_worker_go.Cache.{CachedInlineData, MemoryEntry}
use gemini_worker_go.Cache
use gemini_worker_go.Cache.Lru.{list_lru, lookup, without}
use gemini_worker_go.Cache.Memory.{MemoryCache, set, get}
use gemini_worker_go.Cache.Memory.Entries.{keep}
use gemini_worker_go.Cache.Memory.Budget.{IsValid, entry_of, entries-set, set-IsValid}

abbrev png : List ℕ → CachedInlineData
png bytes = record { mime_type = codes "image/png"; bytes = bytes }

abbrev full : MemoryCache list_lru
full = record {
  items = (codes "b", entry_of (png (1 ∷ 2 ∷ []))) ∷ (codes "a", entry_of (png (3 ∷ 4 ∷ []))) ∷ [];
  max_bytes = 4;
  cur_bytes = 4;
}

full-IsValid : IsValid list_lru full
unfolding text_eq
full-IsValid = record { exact = refl; within = omega arith; distinct = ((refl, tt), (tt, tt)) }

-- The oldest entry makes room.
evicts_oldest : (set list_lru (codes "c") (png (5 ∷ [])) full).cur_bytes ≡ 3
unfolding set Cache.Memory.evict without text_eq lookup
evicts_oldest = refl

entries-set_example : (set list_lru (codes "c") (png (5 ∷ [])) full).items ≡ (
    if ltb 4 1
    then full.items
    else (codes "c", entry_of (png (5 ∷ []))) ∷ keep (4 - 1) (without (codes "c") full.items))
entries-set_example =
    entries-set list_lru (codes "c") (png (5 ∷ [])) full full-IsValid (omega arith)

set-IsValid_example : IsValid list_lru (set list_lru (codes "c") (png (5 ∷ [])) full)
set-IsValid_example =
    set-IsValid list_lru (codes "c") (png (5 ∷ [])) full full-IsValid (omega arith)
