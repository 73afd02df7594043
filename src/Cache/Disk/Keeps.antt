-- ===== src/Cache/Disk/Keeps.antt =====
-- rust-sync-proxy/src/cache.rs, `DiskCache`: what `get` finds after `set`.
use gemini_worker_go.Prelude.{
  ℕ, ◌+◌, ◌%◌, ◌≡◌, ◌≤◌, refl, sym, ap, ◌∙◌, true, false, not, Bool-cases, none, some, ◌++◌, Result,
  ok, err, ltb, leb, inl, inr, take, if_cases, u64_mod, arith,
}
use mathlib.Core.List.{reverse, reverse-append}
use gemini_worker_go.Text.{Text, codes, text_eq}
use gemini_worker_go.Text.Laws.{text_eq→eq}
use gemini_worker_go.Files.{Files, written, cut, read_file, write_file, write_at, not_written}
use gemini_worker_go.Files.Laws.{read-write_file, read-write_file_self}
use gemini_worker_go.Cache.{CachedInlineData}
use gemini_worker_go.Cache.Disk.{
  Disk, System, DiskCache, MetaCodec, DiskError, io, bad_meta, total_bytes, collected,
  prune_if_needed, meta_name, body_name, meta_of, get, set,
}

not_same : (s t : Text) → ¬ (s ≡ t) → text_eq s t ≡ false
not_same s t h = elim (Bool-cases (text_eq s t)) [
  | inl same ↦ absurd (h (text_eq→eq s t same))
  | inr other ↦ other
]

meta_name-body_name : (a b : Text) → text_eq (meta_name a) (body_name b) ≡ false
meta_name-body_name a b = not_same (meta_name a) (body_name b) (λ e.
    let turned : reverse (codes ".json") ++ reverse a ≡ reverse (codes ".bin") ++ reverse b =
      sym (reverse-append a (codes ".json")) ∙ ap reverse e ∙ reverse-append b (codes ".bin") in
    ground (arith, turned))

module _ (codec : MetaCodec) (cache_key : Text → Text) where
  open codec use {to_vec, from_slice, from_slice-to_vec}

  prune_nothing :
      (sys : System) (c : DiskCache) (disk : Disk)
      → leb (total_bytes 0 (collected codec sys disk.files)) c.max_bytes ≡ true
      → (prune_if_needed codec sys c disk).1 ≡ disk
  unfolding prune_if_needed
  prune_nothing sys c disk fits = rw fits (
      if_cases (λ (r : Result DiskError (Unit {0}) × Disk). r.1 ≡ disk) (not disk.dir_exists)
        (λ _. refl)
        (λ _.
          if_cases (λ (r : Result DiskError (Unit {0}) × Disk). r.1 ≡ disk) (not sys.listed)
            (λ _. refl) (λ _. refl)))

  -- The files after both writes.
  abbrev pub stored : DiskCache → ℕ → Text → CachedInlineData → Files → Files
  stored c now url value files =
      write_file (meta_name (cache_key url)) (to_vec (meta_of c now value))
        (write_file (body_name (cache_key url)) value.bytes files)

  abbrev pub NothingPruned : System → DiskCache → ℕ → Text → CachedInlineData → Disk → Type 0
  NothingPruned sys c now url value disk =
      leb (total_bytes 0 (collected codec sys (stored c now url value disk.files))) c.max_bytes
      ≡ true

  -- The system makes the directory and writes what it is given.
  pub record IsWriting (sys : System) : Type 0 where
    pub makes_dir : sys.dir_made ≡ true
    pub writes_body : sys.body_write ≡ written
    pub writes_meta : sys.meta_write ≡ written

  files-set :
      (sys : System) (c : DiskCache) (now : ℕ) (url : Text) (value : CachedInlineData) (disk : Disk)
      → IsWriting sys
      → NothingPruned sys c now url value disk
      → (set codec cache_key sys c now url value disk).1
        ≡ record { dir_exists = true; files = stored c now url value disk.files }
  unfolding set write_at
  files-set sys c now url value disk w fits =
      rw (w.makes_dir, w.writes_body, w.writes_meta) (prune_nothing sys c _ fits)

  body-stored :
      (c : DiskCache) (now : ℕ) (url : Text) (value : CachedInlineData) (files : Files)
      → read_file (body_name (cache_key url)) (stored c now url value files) ≡ some value.bytes
  body-stored c now url value files =
      let key = cache_key url in
      let other = meta_name-body_name key key in
      read-write_file (meta_name key) (body_name key) _ _
      ∙ (rw other (read-write_file_self (body_name key) value.bytes files))

  -- A value that has been set, in a directory where nothing has to be pruned, is found under its URL
  -- until its time is over, if the two writes succeed and the two files can be read.
  pub get-set :
      (sys sys' : System) (c : DiskCache) (now now' : ℕ) (url : Text) (value : CachedInlineData)
      (disk : Disk)
      → IsWriting sys
      → NothingPruned sys c now url value disk
      → ((name : Text) → sys'.unreadable name ≡ false)
      → now' ≤ (now + c.ttl_ms) % u64_mod
      → (get codec cache_key sys' now' url (set codec cache_key sys c now url value disk).1).0
        ≡ ok (some value)
  unfolding get
  get-set sys sys' c now now' url value disk w fits readable fresh =
      let key = cache_key url in
      let at = files-set sys c now url value disk w fits in
      let meta =
        read-write_file_self (meta_name key) (to_vec (meta_of c now value))
          (write_file (body_name key) value.bytes disk.files) in
      let body = body-stored c now url value disk.files in
      let early : ltb ((now + c.ttl_ms) % u64_mod) now' ≡ false = ground (arith, fresh) in
      rw
        (
          at,
          meta,
          body,
          readable (meta_name key),
          from_slice-to_vec (meta_of c now value),
          early,
          readable (body_name key),
        )
        refl

  -- After a set whose second write is cut where the description no longer reads, every get of that URL
  -- is an error, at any time, if the description can be read from the disk.
  pub get-set_cut :
      (sys sys' : System) (c : DiskCache) (now now' n : ℕ) (url : Text) (value : CachedInlineData)
      (disk : Disk)
      → sys.dir_made ≡ true
      → sys.body_write ≡ written
      → sys.meta_write ≡ cut n
      → from_slice (take n (to_vec (meta_of c now value))) ≡ none
      → sys'.unreadable (meta_name (cache_key url)) ≡ false
      → ((set codec cache_key sys c now url value disk).0 ≡ err (io not_written))
        × (get codec cache_key sys' now' url (set codec cache_key sys c now url value disk).1
            ≡ (err bad_meta, (set codec cache_key sys c now url value disk).1))
  unfolding get set write_at
  get-set_cut sys sys' c now now' n url value disk made body_ok meta_cut bad readable =
      let key = cache_key url in
      let other = meta_name-body_name key key in
      let part = take n (to_vec (meta_of c now value)) in
      let files = write_file (body_name key) value.bytes disk.files in
      let meta = read-write_file_self (meta_name key) part files in
      let body : read_file (body_name key) (write_file (meta_name key) part files)
          ≡ some value.bytes =
        read-write_file (meta_name key) (body_name key) part files
        ∙ (rw other (read-write_file_self (body_name key) value.bytes disk.files)) in
      rw (made, body_ok, meta_cut, meta, body, readable, bad) (refl, refl)
