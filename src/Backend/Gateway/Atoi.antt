-- ===== src/Backend/Gateway/Atoi.antt =====
-- `strconv.Atoi` of Go, without its error, and the conversion to `int32`, as backend/api/server.go
-- uses them.
use yt_trending_pipeline.Prelude.{
  ℕ, zero, suc, ◌+◌, ◌-◌, ◌*◌, ◌/◌, ◌%◌, ◌^◌, ◌<◌, ◌≡◌, refl, ap, sym, ◌∙◌, min, Option, none, some,
  true, false, ◌&&◌, [], ◌∷◌, ◌++◌, append-nil, append_assoc, All, IsDigit, decimal_fuel-IsDigit,
  decimal-truthy, truthy, ◌≢◌, Str, leb, ltb, ◌==◌, ℤ, pos, negsuc, negate, decimal, decimal_fuel,
  arith, Bool-cases, inl, inr, if◌then◌else◌,
}
use yt_trending_pipeline.Backend.{int32}

-- the value of the digits; none if a character is no digit
digits : ℕ → Str → Option ℕ
digits acc [] = some acc
digits acc (c ∷ s) =
    let more = digits (10 * acc + (c - b'0')) s in if leb b'0' c && leb c b'9' then more else none

-- a syntax error gives 0, a number out of range the bound that it passes
abbrev positive : Option ℕ → ℤ
positive none = pos 0
positive (some n) = pos (min n (2 ^ 63 - 1))

abbrev negative : Option ℕ → ℤ
negative none = pos 0
negative (some n) = negate (min n (2 ^ 63))

unfoldable pub atoi : Str → ℤ
unfolding digits
atoi [] = pos 0
atoi (c ∷ []) = positive (digits 0 (c ∷ []))
atoi (c ∷ d ∷ s) =
    if c == b'-'
    then negative (digits 0 (d ∷ s))
    else positive (digits 0 (if c == b'+' then d ∷ s else c ∷ d ∷ s))

-- `int32(n)` for an `int`
abbrev pub int32_of : ℤ → ℤ
int32_of (pos n) = int32 n
int32_of (negsuc n) = int32 (2 ^ 32 - 1 - n % 2 ^ 32)

digits_step :
    (acc n : ℕ) (rest : Str) → n < 10 → digits acc ((b'0' + n) ∷ rest) ≡ digits (10 * acc + n) rest
unfolding digits
digits_step acc n rest h = ground arith

-- Reading the digits of `n` leaves the accumulator at `n`, whatever follows.
digits-decimal_fuel :
    (f n : ℕ) (rest : Str) → n < f → digits 0 (decimal_fuel f n ++ rest) ≡ digits n rest
unfolding decimal_fuel
digits-decimal_fuel zero n rest h = absurd (omega arith)
digits-decimal_fuel (suc f) n rest h = elim (Bool-cases (ltb n 10)) [
  | inl small ↦
      rw small (digits_step 0 n rest (ground arith) ∙ ap (λ m. digits m rest) (omega arith))
  | inr big ↦
      rw (big, append_assoc, digits-decimal_fuel f (n / 10) _ (ground arith))
        (digits_step (n / 10) (n % 10) rest (omega arith) ∙ ap (λ m. digits m rest) (omega arith))
]

digits-decimal : (n : ℕ) → digits 0 (decimal n) ≡ some n
unfolding digits decimal
digits-decimal n =
    ap (digits 0) (sym (append-nil (decimal_fuel (suc n) n)))
    ∙ digits-decimal_fuel (suc n) n [] (omega arith)

atoi-digits :
    (s : Str) (n : ℕ)
    → All IsDigit s
    → digits 0 s ≡ some n
    → s ≢ []
    → atoi s ≡ pos (min n (2 ^ 63 - 1))
unfolding atoi
atoi-digits [] n h e ne = absurd (ne refl)
atoi-digits (c ∷ []) n h e ne = ap positive e
atoi-digits (c ∷ d ∷ s) n h e ne =
    let (low, high) = h.0 in
    let minus : (c == b'-') ≡ false = ground arith in
    let plus : (c == b'+') ≡ false = ground arith in rw (minus, plus) (ap positive e)

ne_nil : (s : Str) → truthy s ≡ true → s ≢ []
ne_nil [] h e = absurd (ground arith)
ne_nil (c ∷ s) h e = cc

-- The text of a number below 2 ^ 31 is read as the number.
pub int32_of-atoi-decimal : (n : ℕ) → n < 2 ^ 31 → int32_of (atoi (decimal n)) ≡ pos n
unfolding decimal
int32_of-atoi-decimal n h =
    ap int32_of (
      atoi-digits (decimal n) n (decimal_fuel-IsDigit (suc n) n) (digits-decimal n)
        (ne_nil (decimal n) (decimal-truthy n)))
    ∙ fits n h
  where
    fits : (m : ℕ) → m < 2 ^ 31 → int32 (min m (2 ^ 63 - 1)) ≡ pos m
    fits m l = ground arith
