-- ===== src/Text/Laws.antt =====
-- Equality of texts, and what trimming and lowering leave alone.
use gemini_worker_go.Prelude.{
  ℕ, ◌≡◌, refl, ◌↔◌, inl, inr, Bool, true, false, [], ◌∷◌, ◌++◌, arith, Bool-cases,
}
use gemini_worker_go.Text.{
  Text, text_eq, starts_with, trim, trim_start_by, trim_end_by, is_whitespace, keep_end, lower,
  to_ascii_lowercase,
}

pub text_eq→eq : (s t : Text) → text_eq s t ≡ true → s ≡ t
unfolding text_eq
text_eq→eq [] [] h = refl
text_eq→eq [] (b ∷ t) h = cc
text_eq→eq (a ∷ s) [] h = cc
text_eq→eq (a ∷ s) (b ∷ t) h = ground (arith, text_eq→eq s t)

pub text_eq_refl : (s : Text) → text_eq s s ≡ true
unfolding text_eq
text_eq_refl [] = refl
text_eq_refl (a ∷ s) = ground (arith, text_eq_refl s)

pub text_eq_iff : (s t : Text) → (text_eq s t ≡ true) ↔ (s ≡ t)
text_eq_iff s t = (text_eq→eq s t, λ e. rw e (text_eq_refl t))

pub starts_with-append : (p s : Text) → starts_with (p ++ s) p ≡ true
unfolding starts_with
starts_with-append [] [] = refl
starts_with-append [] (c ∷ s) = refl
starts_with-append (c ∷ p) s = ground (arith, starts_with-append p s)

-- The text is empty or begins with a code point outside `p`.
abbrev IsLeading : (ℕ → Bool) → Text → Type 0
IsLeading p [] = Unit
IsLeading p (c ∷ s) = p c ≡ false

trim_start_by-IsLeading : (p : ℕ → Bool) (s : Text) → IsLeading p (trim_start_by p s)
unfolding trim_start_by
trim_start_by-IsLeading p [] = tt
trim_start_by-IsLeading p (c ∷ s) = elim (Bool-cases (p c)) [
  | inl e ↦ rw e (trim_start_by-IsLeading p s)
  | inr e ↦ rw e e
]

trim_end_by-IsLeading : (p : ℕ → Bool) (s : Text) → IsLeading p s → IsLeading p (trim_end_by p s)
unfolding trim_end_by
trim_end_by-IsLeading p [] h = tt
trim_end_by-IsLeading p (c ∷ s) h =
    elim (trim_end_by p s) as (λ t. IsLeading p (keep_end (p c) c t)) [ [] ↦ rw h h | d ∷ t ↦ h ]

trim_start_by_fixed : (p : ℕ → Bool) (s : Text) → IsLeading p s → trim_start_by p s ≡ s
unfolding trim_start_by
trim_start_by_fixed p [] h = refl
trim_start_by_fixed p (c ∷ s) h = rw h

trim_end_by-keep_end :
    (p : ℕ → Bool) (c : ℕ) (s : Text)
    → trim_end_by p s ≡ s
    → trim_end_by p (keep_end (p c) c s) ≡ keep_end (p c) c s
unfolding trim_end_by
trim_end_by-keep_end p c [] h = ground arith
trim_end_by-keep_end p c (d ∷ s) h = ground arith

trim_end_by_idem : (p : ℕ → Bool) (s : Text) → trim_end_by p (trim_end_by p s) ≡ trim_end_by p s
unfolding trim_end_by
trim_end_by_idem p [] = refl
trim_end_by_idem p (c ∷ s) = trim_end_by-keep_end p c (trim_end_by p s) (trim_end_by_idem p s)

-- A trimmed text is left alone.
pub trim_idem : (s : Text) → trim (trim s) ≡ trim s
unfolding trim
trim_idem s =
    rw
      (trim_start_by_fixed is_whitespace _
        (trim_end_by-IsLeading is_whitespace _ (trim_start_by-IsLeading is_whitespace s)))
      (trim_end_by_idem is_whitespace (trim_start_by is_whitespace s))

pub lower_idem : (c : ℕ) → lower (lower c) ≡ lower c
unfolding lower
lower_idem c = ground arith

pub to_ascii_lowercase_idem :
    (s : Text) → to_ascii_lowercase (to_ascii_lowercase s) ≡ to_ascii_lowercase s
unfolding to_ascii_lowercase
to_ascii_lowercase_idem [] = refl
to_ascii_lowercase_idem (c ∷ s) = cc (lower_idem c, to_ascii_lowercase_idem s)
