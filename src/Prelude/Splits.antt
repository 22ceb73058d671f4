-- ===== src/Prelude/Splits.antt =====
-- Taking a text apart that was put together of several: what two equal texts have in common.
use Prim.Native.Nat.{ℕ, suc}
use mathlib.Core.Path.{◌≡◌, refl, sym, ap, subst}
use mathlib.Core.Logic.{◌≢◌}
use mathlib.Core.List.{[], ◌∷◌, ◌++◌}
use native.Mathlib.Omega.{arith}
use yt_trending_pipeline.Prelude.Lists.{length, length-append, All}
use yt_trending_pipeline.Prelude.Text.{Str}
use yt_trending_pipeline.Prelude.Numbers.{
  ℤ, pos, negsuc, decimal, int_text, parse_int, parse_int-decimal, IsDigit, decimal_fuel-IsDigit,
}

pub append-cancel_left : (xs ys zs : Str) → xs ++ ys ≡ xs ++ zs → ys ≡ zs
append-cancel_left [] ys zs h = h
append-cancel_left (x ∷ xs) ys zs h = append-cancel_left xs ys zs (cc)

length_eq : (xs ys zs : Str) → xs ++ zs ≡ ys ++ zs → length xs ≡ length ys
length_eq xs ys zs h = omega (arith, ap length h, length-append xs zs, length-append ys zs)

pub append-cancel_right : (xs ys zs : Str) → xs ++ zs ≡ ys ++ zs → xs ≡ ys
append-cancel_right [] [] zs h = refl
append-cancel_right [] (y ∷ ys) zs h = absurd (omega (arith, length_eq [] (y ∷ ys) zs h))
append-cancel_right (x ∷ xs) [] zs h = absurd (omega (arith, length_eq (x ∷ xs) [] zs h))
append-cancel_right (x ∷ xs) (y ∷ ys) zs h = cc (append-cancel_right xs ys zs (cc))

pub decimal-injective : (m n : ℕ) → decimal m ≡ decimal n → m ≡ n
decimal-injective m n h = cc (parse_int-decimal m, parse_int-decimal n, ap parse_int h)

-- Ends of one length are equal, and what comes before them.
pub append-same_length :
    (xs ys us vs : Str) → length us ≡ length vs → xs ++ us ≡ ys ++ vs → (xs ≡ ys) × (us ≡ vs)
append-same_length [] [] us vs l h = (refl, h)
append-same_length [] (y ∷ ys) us vs l h =
    absurd (omega (arith, ap length h, length-append (y ∷ ys) vs))
append-same_length (x ∷ xs) [] us vs l h =
    absurd (omega (arith, ap length h, length-append (x ∷ xs) us))
append-same_length (x ∷ xs) (y ∷ ys) us vs l h =
    let rest = append-same_length xs ys us vs l (cc) in (cc (rest.0), rest.1)

abbrev pub IsWithout : ℕ → ℕ → Type 0
IsWithout c d = d ≢ c

not_within : (c : ℕ) (xs us vs : Str) → All (IsWithout c) us → us ≢ xs ++ c ∷ vs
not_within c [] [] vs h e = cc
not_within c [] (u ∷ us) vs h e = h.0 (cc)
not_within c (x ∷ xs) [] vs h e = cc
not_within c (x ∷ xs) (u ∷ us) vs h e = not_within c xs us vs h.1 (cc)

-- The ends after the last separator are equal, and what comes before it.
pub append-last :
    (c : ℕ) (xs ys us vs : Str)
    → All (IsWithout c) us
    → All (IsWithout c) vs
    → xs ++ c ∷ us ≡ ys ++ c ∷ vs
    → (xs ≡ ys) × (us ≡ vs)
append-last c [] [] us vs p q h = (refl, cc)
append-last c [] (y ∷ ys) us vs p q h = absurd (not_within c ys us vs p (cc))
append-last c (x ∷ xs) [] us vs p q h = absurd (not_within c xs vs us q (cc))
append-last c (x ∷ xs) (y ∷ ys) us vs p q h =
    let rest = append-last c xs ys us vs p q (cc) in (cc (rest.0), rest.1)

digits-IsWithout : (s : Str) → All IsDigit s → All (IsWithout b':') s
digits-IsWithout [] h = tt
digits-IsWithout (d ∷ s) h = (λ e. omega (arith, h.0), digits-IsWithout s h.1)

-- A number is written without a colon.
pub int_text-IsWithout : (n : ℤ) → All (IsWithout b':') (int_text n)
unfolding int_text decimal
int_text-IsWithout (pos n) = digits-IsWithout _ (decimal_fuel-IsDigit (suc n) n)
int_text-IsWithout (negsuc n) =
    (λ e. omega arith, digits-IsWithout _ (decimal_fuel-IsDigit (suc (suc n)) (suc n)))

decimal-not_minus : (m : ℕ) (s : Str) → decimal m ≢ b'-' ∷ s
unfolding decimal
decimal-not_minus m s h =
    let digits : All IsDigit (b'-' ∷ s) = subst (All IsDigit) h (decimal_fuel-IsDigit (suc m) m) in
    omega (arith, digits.0)

pub int_text-injective : (m n : ℤ) → int_text m ≡ int_text n → m ≡ n
unfolding int_text
int_text-injective (pos m) (pos n) h = ap pos (decimal-injective m n h)
int_text-injective (pos m) (negsuc n) h = absurd (decimal-not_minus m (decimal (suc n)) h)
int_text-injective (negsuc m) (pos n) h = absurd (decimal-not_minus n (decimal (suc m)) (sym h))
int_text-injective (negsuc m) (negsuc n) h =
    let e = decimal-injective (suc m) (suc n) (cc) in ap negsuc (omega arith)
