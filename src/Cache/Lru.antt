-- ===== src/Cache/Lru.antt =====
-- The `LruCache` of the crate `lru`, which rust-sync-proxy/src/cache.rs keeps its entries in: its
-- operations, and what its documentation says of them by the order of `iter()`, the most recently
-- used entry first.
use gemini_worker_go.Prelude.{◌≡◌, refl, Option, none, some, List, [], ◌∷◌, if◌then◌else◌}
use gemini_worker_go.Text.{Text, text_eq}

module _ {V : Type 0} where
  unfoldable pub lookup : Text → List (Text × V) → Option V
  unfolding text_eq
  lookup k [] = none
  lookup k ((j, v) ∷ l) = if text_eq j k then some v else lookup k l

  unfoldable pub without : Text → List (Text × V) → List (Text × V)
  unfolding text_eq
  without k [] = []
  without k ((j, v) ∷ l) = let rest = without k l in if text_eq j k then rest else (j, v) ∷ rest

  abbrev pub last? : List (Text × V) → Option (Text × V)
  last? [] = none
  last? (e ∷ []) = some e
  last? (e ∷ f ∷ l) = last? (f ∷ l)

  abbrev pub init : List (Text × V) → List (Text × V)
  init [] = []
  init (e ∷ []) = []
  init (e ∷ f ∷ l) = e ∷ init (f ∷ l)

  -- A hit becomes the most recent entry.
  unfoldable pub touch : Text → List (Text × V) → List (Text × V)
  unfolding lookup without
  touch k l = elim (lookup k l) [ none ↦ l | some v ↦ (k, v) ∷ without k l ]

pub record LruCache (V : Type 0) : Type 1 where
  pub Items : Type 0
  pub entries : Items → List (Text × V)
  pub unbounded : Items
  pub get : Text → Items → Option V × Items
  pub pop : Text → Items → Option V × Items
  pub pop_lru : Items → Option (Text × V) × Items
  pub put : Text → V → Items → Items
  pub entries-unbounded : entries unbounded ≡ []
  pub get_value : (k : Text) (m : Items) → (get k m).0 ≡ lookup k (entries m)
  pub entries-get : (k : Text) (m : Items) → entries (get k m).1 ≡ touch k (entries m)
  pub pop_value : (k : Text) (m : Items) → (pop k m).0 ≡ lookup k (entries m)
  pub entries-pop : (k : Text) (m : Items) → entries (pop k m).1 ≡ without k (entries m)
  pub pop_lru_value : (m : Items) → (pop_lru m).0 ≡ last? (entries m)
  pub entries-pop_lru : (m : Items) → entries (pop_lru m).1 ≡ init (entries m)
  pub entries-put :
      (k : Text) (v : V) (m : Items) → entries (put k v m) ≡ (k, v) ∷ without k (entries m)

-- The interface can be met: a list in that order.
abbrev pub list_lru : {V : Type 0} → LruCache V
list_lru {V} = record {
  Items = List (Text × V);
  entries = λ m. m;
  unbounded = [];
  get = λ k m. (lookup k m, touch k m);
  pop = λ k m. (lookup k m, without k m);
  pop_lru = λ m. (last? m, init m);
  put = λ k v m. (k, v) ∷ without k m;
  entries-unbounded = refl;
  get_value = λ k m. refl;
  entries-get = λ k m. refl;
  pop_value = λ k m. refl;
  entries-pop = λ k m. refl;
  pop_lru_value = λ m. refl;
  entries-pop_lru = λ m. refl;
  entries-put = λ k v m. refl;
}
