-- ===== src/Cache/Memory/Entries.antt =====
-- rust-sync-proxy/src/cache.rs, `MemoryCache`: its entries as a list, the most recent first.
use gemini_worker_go.Prelude.{
  ℕ, ◌+◌, ◌-◌, ◌≤◌, ◌<◌, ◌≡◌, refl, ap, ◌∙◌, false, Bool-cases, inl, inr, Option, none, some, List,
  [], ◌∷◌, length, leb, if◌then◌else◌, arith,
}
use gemini_worker_go.Text.{Text, text_eq}
use gemini_worker_go.Text.Laws.{text_eq_iff}
use gemini_worker_go.Cache.{MemoryEntry}
use gemini_worker_go.Cache.Lru.{lookup, without, last?, init}
use gemini_worker_go.Cache.Memory.{after_pop}

abbrev pub Entries : Type 0
Entries = List (Text × MemoryEntry)

abbrev pub total : Entries → ℕ
total [] = 0
total (e ∷ l) = e.1.size + total l

-- The most recent entries that fit into a number of bytes.
abbrev pub keep : ℕ → Entries → Entries
keep room [] = []
keep room (e ∷ l) = if leb e.1.size room then e ∷ keep (room - e.1.size) l else []

abbrev pub IsAbsent : Text → Entries → Type 0
IsAbsent k [] = Unit
IsAbsent k (e ∷ l) = (text_eq e.0 k ≡ false) × IsAbsent k l

abbrev pub HasDistinctKeys : Entries → Type 0
HasDistinctKeys [] = Unit
HasDistinctKeys (e ∷ l) = IsAbsent e.0 l × HasDistinctKeys l

pub keep_all : (room : ℕ) (l : Entries) → total l ≤ room → keep room l ≡ l
keep_all room [] h = refl
keep_all room (e ∷ l) h = ground (arith, keep_all (room - e.1.size) l)

pub keep-init : (room : ℕ) (l : Entries) → room < total l → keep room (init l) ≡ keep room l
keep-init room [] h = refl
keep-init room (e ∷ []) h = ground arith
keep-init room (e ∷ f ∷ l) h = ground (arith, keep-init (room - e.1.size) (f ∷ l))

pub total-keep-le : (room : ℕ) (l : Entries) → total (keep room l) ≤ room
total-keep-le room [] = omega arith
total-keep-le room (e ∷ l) = ground (arith, total-keep-le (room - e.1.size) l)

pub total-init :
    (l : Entries) (e : Text × MemoryEntry) → last? l ≡ some e → total (init l) + e.1.size ≡ total l
total-init [] e h = cc
total-init (k ∷ []) e h = ground arith
total-init (k ∷ f ∷ l) e h = omega (arith, total-init (f ∷ l) e h)

pub length-init :
    (l : Entries) (e : Text × MemoryEntry) → last? l ≡ some e → length (init l) + 1 ≡ length l
length-init [] e h = cc
length-init (k ∷ []) e h = omega arith
length-init (k ∷ f ∷ l) e h = omega (arith, length-init (f ∷ l) e h)

pub last?-none : (l : Entries) → last? l ≡ none → l ≡ []
last?-none [] h = refl
last?-none (k ∷ []) h = cc
last?-none (k ∷ f ∷ l) h = absurd (cons-ne (last?-none (f ∷ l) h))
  where
    cons-ne : (f ∷ l) ≡ [] → ⊥
    cons-ne e = cc

IsAbsent-lookup : (k : Text) (l : Entries) → IsAbsent k l → (lookup k l ≡ none) × (without k l ≡ l)
unfolding lookup without
IsAbsent-lookup k [] h = (refl, refl)
IsAbsent-lookup k (e ∷ l) (p, h) = ground (arith, IsAbsent-lookup k l h)

pub IsAbsent-without_self : (k : Text) (l : Entries) → IsAbsent k (without k l)
unfolding without
IsAbsent-without_self k [] = tt
IsAbsent-without_self k (e ∷ l) = elim (Bool-cases (text_eq e.0 k)) [
  | inl t ↦ rw t (IsAbsent-without_self k l)
  | inr f ↦ rw f (f, IsAbsent-without_self k l)
]

IsAbsent-without : (j k : Text) (l : Entries) → IsAbsent j l → IsAbsent j (without k l)
unfolding without
IsAbsent-without j k [] h = tt
IsAbsent-without j k (e ∷ l) (p, h) = elim (Bool-cases (text_eq e.0 k)) [
  | inl t ↦ rw t (IsAbsent-without j k l h)
  | inr f ↦ rw f (p, IsAbsent-without j k l h)
]

pub HasDistinctKeys-without :
    (k : Text) (l : Entries) → HasDistinctKeys l → HasDistinctKeys (without k l)
unfolding without
HasDistinctKeys-without k [] d = tt
HasDistinctKeys-without k (e ∷ l) (p, d) = elim (Bool-cases (text_eq e.0 k)) [
  | inl t ↦ rw t (HasDistinctKeys-without k l d)
  | inr f ↦ rw f (IsAbsent-without e.0 k l p, HasDistinctKeys-without k l d)
]

pub IsAbsent-keep : (k : Text) (room : ℕ) (l : Entries) → IsAbsent k l → IsAbsent k (keep room l)
IsAbsent-keep k room [] h = tt
IsAbsent-keep k room (e ∷ l) (p, h) = elim (Bool-cases (leb e.1.size room)) [
  | inl t ↦ rw t (p, IsAbsent-keep k (room - e.1.size) l h)
  | inr f ↦ rw f tt
]

pub HasDistinctKeys-keep :
    (room : ℕ) (l : Entries) → HasDistinctKeys l → HasDistinctKeys (keep room l)
HasDistinctKeys-keep room [] d = tt
HasDistinctKeys-keep room (e ∷ l) (p, d) = elim (Bool-cases (leb e.1.size room)) [
  | inl t ↦
      rw t (IsAbsent-keep e.0 (room - e.1.size) l p, HasDistinctKeys-keep (room - e.1.size) l d)
  | inr f ↦ rw f tt
]

abbrev IsWithin : Option MemoryEntry → ℕ → Type 0
IsWithin none n = Unit
IsWithin (some e) n = e.size ≤ n

pub lookup-le-total : (k : Text) (l : Entries) → IsWithin (lookup k l) (total l)
unfolding lookup
lookup-le-total k [] = tt
lookup-le-total k (e ∷ l) = elim (Bool-cases (text_eq e.0 k)) [
  | inl t ↦ rw t (omega arith)
  | inr f ↦ rw f (IsWithin_mono (lookup k l) (lookup-le-total k l))
]
  where
    IsWithin_mono :
        (o : Option MemoryEntry) → IsWithin o (total l) → IsWithin o (e.1.size + total l)
    IsWithin_mono none h = tt
    IsWithin_mono (some m) h = omega arith

after_pop_add :
    (o : Option MemoryEntry) (m n : ℕ) → IsWithin o n → after_pop o (m + n) ≡ m + after_pop o n
after_pop_add none m n h = refl
after_pop_add (some e) m n h = omega arith

-- What `pop` takes off the number of bytes.
pub total-without :
    (k : Text) (l : Entries)
    → HasDistinctKeys l
    → after_pop (lookup k l) (total l) ≡ total (without k l)
unfolding lookup without
total-without k [] d = refl
total-without k (e ∷ l) (p, d) = elim (Bool-cases (text_eq e.0 k)) [
  | inl t ↦
      let same : IsAbsent k l = rw ((text_eq_iff e.0 k).0 t) at p in
      rw t (rw ((IsAbsent-lookup k l same).1) (ground arith))
  | inr f ↦ rw f (
      after_pop_add (lookup k l) e.1.size (total l) (lookup-le-total k l)
      ∙ ap (λ n. e.1.size + n) (total-without k l d))
]

pub total-without-le : (k : Text) (l : Entries) → total (without k l) ≤ total l
unfolding without
total-without-le k [] = omega arith
total-without-le k (e ∷ l) = ground (arith, total-without-le k l)

pub without-keep_absent :
    (k : Text) (room : ℕ) (l : Entries)
    → without k (keep room (without k l)) ≡ keep room (without k l)
without-keep_absent k room l =
    (IsAbsent-lookup k _ (IsAbsent-keep k room _ (IsAbsent-without_self k l))).1
