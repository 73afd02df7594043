-- ===== src/Admin/Truncate.antt =====
-- rust-sync-proxy/src/admin.rs, `truncate_for_admin_log`: the loop over the characters.
use gemini_worker_go.Prelude.{
  ℕ, ◌+◌, ◌-◌, ◌≡◌, ◌≤◌, ◌<◌, ◌⊎◌, inl, inr, refl, ap, ◌∙◌, false, Bool-cases, [], ◌∷◌, ◌++◌, leb,
  ltb, leb→le, ◌==◌, arith,
}
use gemini_worker_go.Text.{Text, codes, utf8_len, utf8_width}
use gemini_worker_go.Admin.{boundary_of, str_prefix, truncate_for_admin_log}

utf8_width_positive : (c : ℕ) → 0 < utf8_width c
utf8_width_positive c = ground arith

empty_fits : (max_bytes : ℕ) → leb (utf8_len []) max_bytes ≡ false → ⊥
unfolding utf8_len
empty_fits max_bytes h = ground (arith, h)

-- A text as what fits, the character that no longer does, and what follows; so many bytes come before.
pub record Cut (max_bytes index : ℕ) (input : Text) : Type 0 where
  pub kept : Text
  pub over : ℕ
  pub later : Text
  pub same : input ≡ kept ++ over ∷ later
  pub fits : index + utf8_len kept ≤ max_bytes
  pub exceeds : max_bytes < index + utf8_len kept + utf8_width over

boundary_of_lem :
    (max_bytes index boundary c : ℕ) (s : Text)
    → index ≤ max_bytes
    → max_bytes < index + utf8_len (c ∷ s)
    → (cut : Cut max_bytes index (c ∷ s)) × (boundary_of max_bytes index boundary (c ∷ s)
        ≡ index + utf8_len cut.kept)
unfolding boundary_of utf8_len
boundary_of_lem max_bytes index boundary c [] starts ends = (
  record {
    kept = [];
    over = c;
    later = [];
    same = refl;
    fits = omega (arith, starts);
    exceeds = omega (arith, ends);
  },
  ground (arith, starts),
)
boundary_of_lem max_bytes index boundary c (d ∷ s) starts ends =
    elim (Bool-cases (ltb max_bytes (index + utf8_width c))) [
      | inl past ↦ (
        record {
          kept = [];
          over = c;
          later = d ∷ s;
          same = refl;
          fits = omega (arith, starts);
          exceeds = ground (arith, past);
        },
        ground (arith, starts, past),
      )
      | inr within ↦
          let (cut, e) =
            boundary_of_lem max_bytes (index + utf8_width c) index d s (ground (arith, within))
              (omega (arith, ends)) in
          (
            record {
              kept = c ∷ cut.kept;
              over = cut.over;
              later = cut.later;
              same = rw cut.same;
              fits = omega (arith, cut.fits);
              exceeds = omega (arith, cut.exceeds);
            },
            ground (arith, starts, e),
          )
    ]

str_prefix-append :
    (kept : Text) (over : ℕ) (later : Text)
    → str_prefix (utf8_len kept) (kept ++ over ∷ later) ≡ kept
unfolding str_prefix utf8_len
str_prefix-append [] over later = refl
str_prefix-append (c ∷ kept) over later =
    let smaller : utf8_width c + utf8_len kept - utf8_width c ≡ utf8_len kept = omega arith in
    let positive : ((utf8_width c + utf8_len kept) == 0) ≡ false =
      ground (arith, utf8_width_positive c) in
    rw (positive, smaller, str_prefix-append kept over later)

truncated :
    (input : Text) (max_bytes : ℕ)
    → leb (utf8_len input) max_bytes ≡ false
    → (cut : Cut max_bytes 0 input) × (truncate_for_admin_log input max_bytes
        ≡ cut.kept ++ codes "\n...[truncated]")
unfolding truncate_for_admin_log
truncated [] max_bytes long = absurd (empty_fits max_bytes long)
truncated (c ∷ s) max_bytes long =
    let (cut, e) = boundary_of_lem max_bytes 0 0 c s (omega arith) (ground (arith, long)) in
    let start : 0 + utf8_len cut.kept ≡ utf8_len cut.kept = omega arith in
    (
      cut,
      rw (long, e, start)
          (ap (λ t. t ++ codes "\n...[truncated]")
            (ap (str_prefix (utf8_len cut.kept)) cut.same
              ∙ str_prefix-append cut.kept cut.over cut.later)),
    )

-- A text that fits is logged as it is; of another one, the longest run of whole characters that fits
-- is logged, with a mark behind it.
pub truncate_for_admin_log_cases :
    (input : Text) (max_bytes : ℕ)
    → ((utf8_len input ≤ max_bytes) × (truncate_for_admin_log input max_bytes ≡ input))
      ⊎ ((cut : Cut max_bytes 0 input) × (truncate_for_admin_log input max_bytes
            ≡ cut.kept ++ codes "\n...[truncated]"))
unfolding truncate_for_admin_log
truncate_for_admin_log_cases input max_bytes = elim (Bool-cases (leb (utf8_len input) max_bytes)) [
  | inl short ↦ inl (leb→le _ _ short, rw short)
  | inr long ↦ inr (truncated input max_bytes long)
]
