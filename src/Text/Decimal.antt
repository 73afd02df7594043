-- ===== src/Text/Decimal.antt =====
-- `format!("{n}")` of an unsigned integer, and `str::parse` into one of a given range.
use gemini_worker_go.Prelude.{
  ℕ, zero, suc, ◌+◌, ◌-◌, ◌*◌, ◌/◌, ◌%◌, ◌≤◌, ◌<◌, ◌≡◌, ◌∙◌, Bool, ◌&&◌, Option, none, some, [],
  ◌∷◌, arith, ltb, leb, ◌==◌, if◌then◌else◌, Bool-cases, inl, inr, ◌≢◌,
}
use gemini_worker_go.Text.{Text}

-- The digits of `n` before the text `rest`; one round of fuel for each digit.
unfoldable pub decimal_from : ℕ → ℕ → Text → Text
decimal_from zero n rest = rest
decimal_from (suc fuel) n rest =
    let more = decimal_from fuel (n / 10) ((48 + n % 10) ∷ rest) in
    if ltb n 10 then (48 + n) ∷ rest else more

unfoldable pub decimal : ℕ → Text
unfolding decimal_from
decimal n = decimal_from (suc n) n []

unfoldable pub is_digit : ℕ → Bool
is_digit c = leb 48 c && leb c 57

-- The digits after `acc`, refused at the first value that is not below `limit`.
unfoldable pub parse_digits : ℕ → ℕ → Text → Option ℕ
unfolding is_digit
parse_digits limit acc [] = some acc
parse_digits limit acc (c ∷ s) =
    let n = acc * 10 + (c - 48) in
    let rest = parse_digits limit n s in if is_digit c && ltb n limit then rest else none

-- `s.parse::<uN>().ok()` with `limit` = 2 ^ N: one `+` is allowed, and there must be a digit.
unfoldable pub parse_unsigned : ℕ → Text → Option ℕ
unfolding parse_digits
parse_unsigned limit [] = none
parse_unsigned limit (c ∷ []) = parse_digits limit 0 (c ∷ [])
parse_unsigned limit (c ∷ d ∷ s) =
    if c == b'+' then parse_digits limit 0 (d ∷ s) else parse_digits limit 0 (c ∷ d ∷ s)

parse_digits-decimal_from :
    (limit fuel n : ℕ) (rest : Text)
    → n < limit
    → n < fuel
    → parse_digits limit 0 (decimal_from fuel n rest) ≡ parse_digits limit n rest
unfolding decimal_from
parse_digits-decimal_from limit zero n rest h f = elim f [ ]
parse_digits-decimal_from limit (suc fuel) n rest h f = elim (Bool-cases (ltb n 10)) [
  | inl small ↦ rw small (unfold parse_digits in ground arith)
  | inr big ↦ rw big (
      parse_digits-decimal_from limit fuel (n / 10) ((48 + n % 10) ∷ rest) (ground arith)
        (ground arith)
      ∙ (unfold parse_digits in ground arith))
]

abbrev IsPlain : Text → Type 0
IsPlain [] = ⊥
IsPlain (c ∷ s) = c ≢ b'+'

decimal_from-IsPlain :
    (fuel n : ℕ) (rest : Text) → IsPlain rest → IsPlain (decimal_from fuel n rest)
unfolding decimal_from
decimal_from-IsPlain zero n rest h = h
decimal_from-IsPlain (suc fuel) n rest h = elim (Bool-cases (ltb n 10)) [
  | inl small ↦ rw small (omega arith)
  | inr big ↦ rw big (decimal_from-IsPlain fuel (n / 10) ((48 + n % 10) ∷ rest) (omega arith))
]

decimal-IsPlain : (n : ℕ) → IsPlain (decimal n)
unfolding decimal
decimal-IsPlain n = elim (Bool-cases (ltb n 10)) [
  | inl small ↦ rw small (omega arith)
  | inr big ↦ rw big (decimal_from-IsPlain n (n / 10) ((48 + n % 10) ∷ []) (omega arith))
]

parse_unsigned_plain :
    (limit : ℕ) (s : Text) → IsPlain s → parse_unsigned limit s ≡ parse_digits limit 0 s
unfolding parse_unsigned
parse_unsigned_plain limit [] h = absurd h
parse_unsigned_plain limit (c ∷ []) h = ground arith
parse_unsigned_plain limit (c ∷ d ∷ s) h = ground arith

-- A number below the limit is read back from its decimal text.
pub parse_unsigned-decimal : (limit n : ℕ) → n < limit → parse_unsigned limit (decimal n) ≡ some n
unfolding decimal parse_digits
parse_unsigned-decimal limit n h =
    parse_unsigned_plain limit (decimal n) (decimal-IsPlain n)
    ∙ parse_digits-decimal_from limit (suc n) n [] h (omega arith)

pub decimal_inj : (m n : ℕ) → decimal m ≡ decimal n → m ≡ n
decimal_inj m n e =
    let p : some m ≡ some n = cc (
      parse_unsigned-decimal (suc (m + n)) m (omega arith),
      parse_unsigned-decimal (suc (m + n)) n (omega arith),
    ) in
    cc

abbrev pub AreDigits : Text → Type 0
AreDigits [] = Unit
AreDigits (c ∷ s) = (48 ≤ c) × (c ≤ 57) × AreDigits s

decimal_from-AreDigits :
    (fuel n : ℕ) (rest : Text) → AreDigits rest → AreDigits (decimal_from fuel n rest)
unfolding decimal_from
decimal_from-AreDigits zero n rest h = h
decimal_from-AreDigits (suc fuel) n rest h = elim (Bool-cases (ltb n 10)) [
  | inl small ↦ rw small (omega arith, ground arith, h)
  | inr big ↦
      rw big
        (decimal_from-AreDigits fuel (n / 10) ((48 + n % 10) ∷ rest) (omega arith, omega arith, h))
]

pub decimal-AreDigits : (n : ℕ) → AreDigits (decimal n)
unfolding decimal
decimal-AreDigits n = decimal_from-AreDigits (suc n) n [] tt
