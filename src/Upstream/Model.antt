-- ===== src/Upstream/Model.antt =====
-- rust-sync-proxy/src/upstream.rs, `rewrite_aiapidev_model_path`.
use gemini_worker_go.Prelude.{
  ◌≡◌, refl, ap, ◌∙◌, Option-cases, some, inl, inr, [], ◌∷◌, ◌++◌, arith, ◌⊎◌,
}
use gemini_worker_go.Text.{Text, codes, strip_prefix, split_once_at}
use gemini_worker_go.Upstream.{mapped_model, rewrite_aiapidev_model_path}

pub strip_prefix-append : (s p r : Text) → strip_prefix s p ≡ some r → p ++ r ≡ s
unfolding strip_prefix
strip_prefix-append s [] r h = ground arith
strip_prefix-append [] (c ∷ p) r h = cc
strip_prefix-append (d ∷ s) (c ∷ p) r h = ground (arith, strip_prefix-append s p r)

pub split_once_at-append : (t s a b : Text) → split_once_at t s ≡ some (a, b) → a ++ (t ++ b) ≡ s
unfolding split_once_at
split_once_at-append t [] a b h = elim (Option-cases (strip_prefix [] t)) [
  | inl e ↦ ground (arith, e)
  | inr (r, e) ↦ ground (arith, e, strip_prefix-append [] t r e)
]
split_once_at-append t (c ∷ s) a b h = elim (Option-cases (strip_prefix (c ∷ s) t)) [
  | inr (r, e) ↦ ground (arith, e, strip_prefix-append (c ∷ s) t r e)
  | inl e ↦ elim (Option-cases (split_once_at t s)) [
    | inl n ↦ ground (arith, e, n)
    | inr ((x, y), n) ↦ ground (arith, e, n, split_once_at-append t s x y n)
  ]
]

mapped_model_cases :
    (model : Text)
    → (mapped_model model ≡ model)
      ⊎ (mapped_model model ≡ codes "nanobananapro")
      ⊎ (mapped_model model ≡ codes "nanobanana2")
unfolding mapped_model
mapped_model_cases model = ground arith

abbrev rebuilt : Text → Text → Text
rebuilt model suffix = codes "/v1beta/models/" ++ (model ++ (codes ":generateContent" ++ suffix))

rewrite_pro :
    (suffix : Text)
    → rewrite_aiapidev_model_path (rebuilt (codes "nanobananapro") suffix)
      ≡ rebuilt (codes "nanobananapro") suffix
unfolding rewrite_aiapidev_model_path
rewrite_pro suffix = refl

rewrite_2 :
    (suffix : Text)
    → rewrite_aiapidev_model_path (rebuilt (codes "nanobanana2") suffix)
      ≡ rebuilt (codes "nanobanana2") suffix
unfolding rewrite_aiapidev_model_path
rewrite_2 suffix = refl

rewrite_cases :
    (path : Text)
    → (rewrite_aiapidev_model_path path ≡ path)
      ⊎ ((suffix : Text) × (rewrite_aiapidev_model_path path
            ≡ rebuilt (codes "nanobananapro") suffix))
      ⊎ ((suffix : Text) × (rewrite_aiapidev_model_path path
            ≡ rebuilt (codes "nanobanana2") suffix))
unfolding rewrite_aiapidev_model_path
rewrite_cases path = elim (Option-cases (strip_prefix path (codes "/v1beta/models/"))) [
  | inl e ↦ inl (rw e)
  | inr (part, e) ↦ elim (Option-cases (split_once_at (codes ":generateContent") part)) [
    | inl n ↦ inl (rw (e, n))
    | inr ((model, suffix), n) ↦ elim (mapped_model_cases model) [
      | inl same ↦ inl (
          rw (e, n, same)
            (ap (λ t. codes "/v1beta/models/" ++ t)
                (split_once_at-append (codes ":generateContent") part model suffix n)
              ∙ strip_prefix-append path (codes "/v1beta/models/") part e))
      | inr (inl pro) ↦ inr (inl (suffix, rw (e, n, pro)))
      | inr (inr two) ↦ inr (inr (suffix, rw (e, n, two)))
    ]
  ]
]

-- A path that has been rewritten is left alone by a second rewriting.
rewrite_aiapidev_model_path_idem :
    (path : Text)
    → rewrite_aiapidev_model_path (rewrite_aiapidev_model_path path)
      ≡ rewrite_aiapidev_model_path path
rewrite_aiapidev_model_path_idem path = elim (rewrite_cases path) [
  | inl same ↦ ap rewrite_aiapidev_model_path same
  | inr (inl (suffix, e)) ↦ rw e (rewrite_pro suffix)
  | inr (inr (suffix, e)) ↦ rw e (rewrite_2 suffix)
]
