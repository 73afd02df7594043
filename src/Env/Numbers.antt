-- ===== src/Env/Numbers.antt =====
-- rust-sync-proxy/src/config.rs: numbers in environment variables.
use gemini_worker_go.Prelude.{
  ℕ, ◌≡◌, ◌≤◌, ltb, if◌then◌else◌, ◌<◌, ◌^◌, refl, ap, ◌∙◌, [], ◌∷◌, some, false, arith,
}
use gemini_worker_go.Text.{Text, trim, trim_end_by, trim_start_by, is_whitespace}
use gemini_worker_go.Text.Decimal.{
  decimal, parse_unsigned, parse_unsigned-decimal, AreDigits, decimal-AreDigits,
}
use gemini_worker_go.Env.{if_positive, parse_positive_u64_with_default}

digit-is_whitespace : (c : ℕ) → 48 ≤ c → c ≤ 57 → is_whitespace c ≡ false
unfolding is_whitespace
digit-is_whitespace c h k = ground arith

trim_end-digits : (s : Text) → AreDigits s → trim_end_by is_whitespace s ≡ s
unfolding trim_end_by
trim_end-digits [] h = refl
trim_end-digits (c ∷ []) (h, k, r) = rw (digit-is_whitespace c h k)
trim_end-digits (c ∷ d ∷ s) (h, k, r) = rw (trim_end-digits (d ∷ s) r)

trim-digits : (s : Text) → AreDigits s → trim s ≡ s
unfolding trim trim_start_by
trim-digits [] h = refl
trim-digits (c ∷ s) (h, k, r) = rw (digit-is_whitespace c h k) (trim_end-digits (c ∷ s) (h, k, r))

-- A variable that holds the decimal digits of a `u64` gives that number, and 0 the default.
parse_positive_u64_with_default-decimal :
    (n default_value : ℕ)
    → n < 2 ^ 64
    → parse_positive_u64_with_default (some (decimal n)) default_value
      ≡ (if ltb 0 n then n else default_value)
unfolding parse_positive_u64_with_default
parse_positive_u64_with_default-decimal n default_value h =
    ap (λ o. if_positive o default_value)
      (ap (parse_unsigned (2 ^ 64)) (trim-digits (decimal n) (decimal-AreDigits n))
        ∙ parse_unsigned-decimal (2 ^ 64) n h)
