-- ===== src/Blob/Budget/Remove.antt =====
-- rust-sync-proxy/src/blob_runtime.rs, `remove` and the account of hot bytes.
use gemini_worker_go.Prelude.{
  ℕ, ◌+◌, ◌≤◌, ◌<◌, ◌≡◌, ◌≢◌, ◌⊎◌, inl, inr, Bool, false, List, [], ◌∷◌, ok, arith, u64_mod, ◌==◌,
  Bool-cases, if◌then◌else◌,
}
use gemini_worker_go.Blob.{BlobRuntime, BlobHandle, remove, contains}
use gemini_worker_go.Blob.Budget.{IsAccounted, HaveIds, HaveIds-mono, Distinct, hot, hot_bytes}

-- The handles that are left after `h` is gone.
abbrev pub without : BlobHandle → List BlobHandle → List BlobHandle
without h [] = []
without h (k ∷ ks) = if k.id == h.id then ks else k ∷ without h ks

abbrev pub Has : BlobHandle → List BlobHandle → Type 0
Has h [] = ⊥
Has h (k ∷ ks) = (h ≡ k) ⊎ Has h ks

pub HaveIds-Has :
    (P : ℕ → Type 0) (h : BlobHandle) (live : List BlobHandle)
    → Has h live
    → HaveIds P live
    → P h.id
HaveIds-Has P h [] m _ = absurd m
HaveIds-Has P h (k ∷ ks) (inl e) (p, hs) = rw e p
HaveIds-Has P h (k ∷ ks) (inr m) (p, hs) = HaveIds-Has P h ks m hs

HaveIds-without :
    (P : ℕ → Type 0) (h : BlobHandle) (live : List BlobHandle)
    → HaveIds P live
    → HaveIds P (without h live)
HaveIds-without P h [] hs = tt
HaveIds-without P h (k ∷ ks) (p, hs) = elim (Bool-cases (k.id == h.id)) [
  | inl e ↦ rw e hs
  | inr e ↦ rw e (p, HaveIds-without P h ks hs)
]

Distinct-without :
    (h : BlobHandle) (live : List BlobHandle) → Distinct live → Distinct (without h live)
Distinct-without h [] d = tt
Distinct-without h (k ∷ ks) (p, d) = elim (Bool-cases (k.id == h.id)) [
  | inl e ↦ rw e d
  | inr e ↦ rw e (HaveIds-without (λ i. i ≢ k.id) h ks p, Distinct-without h ks d)
]

without-ne :
    (h : BlobHandle) (live : List BlobHandle)
    → Distinct live
    → Has h live
    → HaveIds (λ i. i ≢ h.id) (without h live)
without-ne h [] _ m = absurd m
without-ne h (k ∷ ks) (p, d) m = elim (Bool-cases (k.id == h.id)) [
  | inl e ↦ rw e (HaveIds-mono (λ i. i ≢ k.id) _ ks (λ i q. ground arith) p)
  | inr e ↦ elim m [
    | inl same ↦ ground arith
    | inr later ↦ rw e (ground arith, without-ne h ks d later)
  ]
]

hot_bytes-without :
    (h : BlobHandle) (live : List BlobHandle)
    → Distinct live
    → Has h live
    → hot_bytes (without h live) + hot h.storage ≡ hot_bytes live
hot_bytes-without h [] _ m = absurd m
hot_bytes-without h (k ∷ ks) (p, d) (inl e) = ground arith
hot_bytes-without h (k ∷ ks) (p, d) (inr m) =
    let ne : h.id ≢ k.id = HaveIds-Has (λ i. i ≢ k.id) h ks m p in
    ground (arith, hot_bytes-without h ks d m)

-- The counter after the first removal.
remove-hot :
    (allowed : Bool) (h : BlobHandle) (rt : BlobRuntime)
    → contains rt.removed h.id ≡ false
    → hot h.storage ≤ rt.global_hot_bytes
    → rt.global_hot_bytes < u64_mod
    → (remove allowed h rt).1.global_hot_bytes + hot h.storage ≡ rt.global_hot_bytes
unfolding remove
remove-hot allowed h rt e le lt = ground arith

pub remove-frame :
    (allowed : Bool) (h : BlobHandle) (rt : BlobRuntime)
    → contains rt.removed h.id ≡ false
    → ((remove allowed h rt).1.cfg ≡ rt.cfg)
      × ((remove allowed h rt).1.next_id ≡ rt.next_id)
      × ((remove allowed h rt).1.removed ≡ h.id ∷ rt.removed)
unfolding remove
remove-frame allowed h rt e = ground arith

unflagged-cons :
    (i : ℕ) (is : List ℕ) (live : List BlobHandle)
    → HaveIds (λ j. contains is j ≡ false) live
    → HaveIds (λ j. j ≢ i) live
    → HaveIds (λ j. contains (i ∷ is) j ≡ false) live
unfolding contains
unflagged-cons i is [] h d = tt
unflagged-cons i is (k ∷ ks) (p, h) (q, d) = (ground arith, unflagged-cons i is ks h d)

-- Where the counter accounts for the blobs in use, the removal of one of them, whatever the file
-- system says, takes exactly its inline bytes off the counter, which then accounts for the others.
pub remove-IsAccounted :
    (allowed : Bool) (h : BlobHandle) (rt : BlobRuntime) (live : List BlobHandle)
    → IsAccounted rt live
    → Has h live
    → IsAccounted (remove allowed h rt).1 (without h live)
      × ((remove allowed h rt).1.global_hot_bytes + hot h.storage ≡ rt.global_hot_bytes)
remove-IsAccounted allowed h rt live v m =
    let unset = HaveIds-Has (λ i. contains rt.removed i ≡ false) h live m v.unflagged in
    let sum = hot_bytes-without h live v.distinct m in
    let (same_cfg, same_id, flags) = remove-frame allowed h rt unset in
    let dec =
      remove-hot allowed h rt unset (omega (arith, sum, v.exact))
        (omega (arith, v.within, v.is_u64)) in
    (
      record {
        exact = omega (arith, dec, sum, v.exact);
        within = rw same_cfg (omega (arith, dec, v.within));
        is_u64 = rw same_cfg v.is_u64;
        unflagged = rw flags (
            unflagged-cons h.id rt.removed (without h live)
              (HaveIds-without (λ i. contains rt.removed i ≡ false) h live v.unflagged)
              (without-ne h live v.distinct m));
        issued = rw same_id (HaveIds-without (λ i. i < rt.next_id) h live v.issued);
        past = rw (same_id, flags) (HaveIds-Has (λ i. i < rt.next_id) h live m v.issued, v.past);
        distinct = Distinct-without h live v.distinct;
      },
      dec,
    )

-- A second removal of a handle changes nothing and succeeds, whether or not the first one did.
pub remove-remove :
    (allowed allowed' : Bool) (h : BlobHandle) (rt : BlobRuntime)
    → remove allowed' h (remove allowed h rt).1 ≡ (ok tt, (remove allowed h rt).1)
unfolding remove contains
remove-remove allowed allowed' h rt = ground arith
