-- ===== src/Cache/Disk/Bound.antt =====
-- rust-sync-proxy/src/cache.rs, `prune_if_needed`: what is left in the directory.
use gemini_worker_go.Prelude.{
  ℕ, ◌+◌, ◌-◌, ◌%◌, ◌≡◌, ◌≤◌, ◌<◌, refl, Bool, true, false, not, ◌&&◌, Bool-cases, Option, none,
  some, List, [], ◌∷◌, ◌++◌, Result, err, leb, inl, inr, if_cases, if◌then◌else◌, u64_mod, arith,
  ◌⊎◌,
}
use gemini_worker_go.Text.{Text, text_eq}
use gemini_worker_go.Text.Laws.{text_eq_refl}
use gemini_worker_go.Files.{not_read, Files, remove_file}
use gemini_worker_go.Cache.Disk.{
  Disk, DiskMeta, System, DiskCache, PruneEntry, MetaCodec, DiskError, removed, insert_entry,
  sort_by_modified, total_bytes, remove_until_fits, collected, listed_entry, io, prune_if_needed,
  body_name, json_stem,
}

-- The sizes of the entries whose names satisfy a test.
abbrev pub size_where : (Text → Bool) → List PruneEntry → ℕ
size_where P [] = 0
size_where P (e ∷ l) = (if P e.name then e.size_bytes else 0) + size_where P l

abbrev pub size_of_all : List PruneEntry → ℕ
size_of_all = size_where (λ name. true)

size_where-append :
    (P : Text → Bool) (l m : List PruneEntry)
    → size_where P (l ++ m) ≡ size_where P l + size_where P m
size_where-append P [] m = omega arith
size_where-append P (e ∷ l) m = let rest = size_where-append P l m in omega (arith, rest)

abbrev and_other : (Text → Bool) → Text → Text → Bool
and_other P n name = P name && not (text_eq name n)

size_where-and_other :
    (P : Text → Bool) (n : Text) (l : List PruneEntry)
    → size_where (and_other P n) l ≤ size_where P l
size_where-and_other P n [] = omega arith
size_where-and_other P n (e ∷ l) = let rest = size_where-and_other P n l in ground (arith, rest)

size_where-insert_entry :
    (P : Text → Bool) (e : PruneEntry) (l : List PruneEntry)
    → size_where P (insert_entry e l) ≡ size_where P (e ∷ l)
size_where-insert_entry P e [] = refl
size_where-insert_entry P e (f ∷ l) =
    let rest = size_where-insert_entry P e l in
    if_cases (λ (m : List PruneEntry). size_where P m ≡ size_where P (e ∷ f ∷ l))
      (leb e.modified f.modified) (λ _. refl) (λ _. omega (arith, rest))

size_where-sort_by_modified :
    (P : Text → Bool) (l : List PruneEntry) → size_where P (sort_by_modified l) ≡ size_where P l
unfolding sort_by_modified
size_where-sort_by_modified P [] = refl
size_where-sort_by_modified P (e ∷ l) =
    let rest = size_where-sort_by_modified P l in
    let here = size_where-insert_entry P e (sort_by_modified l) in omega (arith, rest, here)

total_bytes-size_of_all :
    (n : ℕ) (l : List PruneEntry)
    → n + size_of_all l < u64_mod
    → total_bytes n l ≡ n + size_of_all l
unfolding total_bytes
total_bytes-size_of_all n [] h = omega arith
total_bytes-size_of_all n (e ∷ l) h =
    let fits : ((n + e.size_bytes) % u64_mod) ≡ n + e.size_bytes = omega (arith, h) in
    rw fits (
      let rest = total_bytes-size_of_all (n + e.size_bytes) l (omega (arith, h)) in
      omega (arith, rest))

module _ (codec : MetaCodec) (sys : System) where
  abbrev left : Files → List PruneEntry
  left = collected codec sys

  size_where-listed_entry :
      (P : Text → Bool) (name : Text) (stem : Option Text) (meta : Option DiskMeta)
      → P name ≡ false
      → size_where P (listed_entry codec sys name stem meta) ≡ 0
  size_where-listed_entry P name none meta h = refl
  size_where-listed_entry P name (some stem) none h = refl
  size_where-listed_entry P name (some stem) (some meta) h =
      if_cases (λ (l : List PruneEntry). size_where P l ≡ 0) (sys.unreadable name) (λ _. refl)
        (λ _. rw h refl)

  listed_entry-and_other :
      (P : Text → Bool) (n name : Text) (stem : Option Text) (meta : Option DiskMeta)
      → text_eq name n ≡ false
      → size_where (and_other P n) (listed_entry codec sys name stem meta)
        ≡ size_where P (listed_entry codec sys name stem meta)
  listed_entry-and_other P n name none meta h = refl
  listed_entry-and_other P n name (some stem) none h = refl
  listed_entry-and_other P n name (some stem) (some meta) h =
      if_cases (λ (l : List PruneEntry). size_where (and_other P n) l ≡ size_where P l)
        (sys.unreadable name) (λ _. refl) (λ _. ground (arith, h))

  collected-remove_file :
      (P : Text → Bool) (n : Text) (files : Files)
      → size_where P (left (remove_file n files)) ≤ size_where (and_other P n) (left files)
  unfolding collected remove_file
  collected-remove_file P n [] = omega arith
  collected-remove_file P n ((q, b) ∷ files) =
      let rest = collected-remove_file P n files in
      let here = listed_entry codec sys q (json_stem q) (codec.from_slice b) in
      let more = size_where-append (and_other P n) here (left files) in
      elim (Bool-cases (text_eq q n)) [
        | inl same ↦ rw (same, more) (omega (arith, rest))
        | inr other ↦
            let kept = size_where-append P here (left (remove_file n files)) in
            let same = listed_entry-and_other P n q (json_stem q) (codec.from_slice b) other in
            rw (other, more, kept) (omega (arith, rest, same))
      ]

  -- Whatever the names asked for, what is left of them is no larger than what is listed of them.
  abbrev IsCovered : Files → List PruneEntry → Type 0
  IsCovered files l = (P : Text → Bool) → size_where P (left files) ≤ size_where P l

  removed-IsCovered :
      ((name : Text) → sys.stays name ≡ false)
      → (e : PruneEntry) (l : List PruneEntry) (files : Files) → IsCovered files (e ∷ l)
      → IsCovered (removed sys (body_name e.stem) (removed sys e.name files)) l
  removed-IsCovered goes e l files h P =
      let Q = and_other P e.name in
      let self : text_eq e.name e.name ≡ true = text_eq_refl e.name in
      let gone : Q e.name ≡ false = ground (arith, self) in
      let files' = remove_file e.name files in
      rw (goes e.name, goes (body_name e.stem))
        (let body = collected-remove_file P (body_name e.stem) files' in
          let fewer = size_where-and_other P (body_name e.stem) (left files') in
          let name = collected-remove_file P e.name files in
          let listed = h Q in
          let head : size_where Q (e ∷ l) ≡ size_where Q l = rw gone (omega arith) in
          let tail = size_where-and_other P e.name l in
          omega (arith, body, fewer, name, listed, head, tail))

  remove_until_fits-le :
      ((name : Text) → sys.stays name ≡ false)
      → (max_bytes : ℕ) (l : List PruneEntry) (total : ℕ) (files : Files) → total ≡ size_of_all l
      → IsCovered files l
      → size_of_all (left (remove_until_fits sys max_bytes l total files)) ≤ max_bytes
  unfolding remove_until_fits
  remove_until_fits-le goes max_bytes [] total files e h =
      let none_left = h (λ name. true) in omega (arith, none_left)
  remove_until_fits-le goes max_bytes (f ∷ l) total files e h =
      if_cases (λ (m : Files). size_of_all (left m) ≤ max_bytes) (leb total max_bytes)
        (λ fits. let le = h (λ name. true) in ground (arith, fits, le, e))
        (λ _.
          remove_until_fits-le goes max_bytes l (total - f.size_bytes) _ (omega (arith, e))
            (removed-IsCovered goes f l files h))

  -- Where every file that is to go can be removed, and the sizes that the readable descriptions in the
  -- directory name add up to less than 2^64, they add up to at most `max_bytes` after `prune_if_needed`,
  -- unless the directory cannot be listed, which is an error.
  pub prune_if_needed-fits :
      ((name : Text) → sys.stays name ≡ false)
      → (c : DiskCache) (disk : Disk) → disk.dir_exists ≡ true
      → size_of_all (left disk.files) < u64_mod
      → ((prune_if_needed codec sys c disk).0 ≡ err (io not_read))
        ⊎ (size_of_all (left (prune_if_needed codec sys c disk).1.files) ≤ c.max_bytes)
  unfolding prune_if_needed
  prune_if_needed-fits goes c disk here small =
      let l = left disk.files in
      let total = total_bytes-size_of_all 0 l (omega (arith, small)) in
      rw here (elim (Bool-cases sys.listed) [
        | inr unlisted ↦ rw unlisted (inl refl)
        | inl listed ↦ rw listed (
            inr (
              if_cases
                (λ (m : Result DiskError (Unit {0}) × Disk).
                  size_of_all (left m.1.files) ≤ c.max_bytes)
                (leb (total_bytes 0 l) c.max_bytes) (λ fits. ground (arith, fits, total))
                (λ _.
                  remove_until_fits-le goes c.max_bytes (sort_by_modified l) (total_bytes 0 l)
                    disk.files
                    (let sorted = size_where-sort_by_modified (λ name. true) l in
                      omega (arith, total, sorted))
                    (λ P. let sorted = size_where-sort_by_modified P l in omega (arith, sorted)))))
      ])
