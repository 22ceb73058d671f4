-- ===== src/Prelude/Numbers.antt =====
-- Numbers as text: `String(n)` for a natural number, and `parseInt(s)`.
use Prim.Native.Nat.{ℕ, zero, suc, ◌+◌, ◌-◌, ◌*◌, ◌/◌, ◌%◌, ◌≤◌, ◌<◌}
use mathlib.Core.Path.{◌≡◌, refl, sym, ap, ◌∙◌}
use mathlib.Core.Logic.{◌≢◌, inl, inr}
use mathlib.Core.Bool.{Bool, true, false, ◌&&◌, ◌||◌}
use mathlib.Core.Option.{Option, none, some}
use mathlib.Core.List.{[], ◌∷◌, ◌++◌, append_assoc, append-nil}
use native.Mathlib.Omega.{arith}
use yt_trending_pipeline.Prelude.Tests.{leb, ltb, ◌==◌, if◌then◌else◌, Bool-cases}
use yt_trending_pipeline.Prelude.Lists.{All, All-append}
use yt_trending_pipeline.Prelude.Text.{Str, truthy}

-- `negsuc n` is -(n + 1).
pub data ℤ : Type 0 where
  pos : ℕ → ℤ
  negsuc : ℕ → ℤ

abbrev pub negate : ℕ → ℤ
negate zero = pos 0
negate (suc n) = negsuc n

-- The fuel bounds the number of digits; `suc n` is enough for `n`.
unfoldable pub decimal_fuel : ℕ → ℕ → Str
decimal_fuel zero n = []
decimal_fuel (suc f) n =
    let front = decimal_fuel f (n / 10) in
    if ltb n 10 then (b'0' + n) ∷ [] else front ++ (b'0' + n % 10) ∷ []

-- `String(n)`
unfoldable pub decimal : ℕ → Str
unfolding decimal_fuel
decimal n = decimal_fuel (suc n) n

-- `String(n)` for an integer
unfoldable pub int_text : ℤ → Str
unfolding decimal
int_text (pos n) = decimal n
int_text (negsuc n) = b'-' ∷ decimal (suc n)

-- The white space that `parseInt` strips: tab to carriage return, blank, and the Unicode blanks.
is_blank : ℕ → Bool
is_blank c =
    (leb 9 c && leb c 13)
    || (c == 32)
    || (c == 160)
    || (c == 0x1680)
    || (leb 0x2000 c && leb c 0x200a)
    || (c == 0x2028)
    || (c == 0x2029)
    || (c == 0x202f)
    || (c == 0x205f)
    || (c == 0x3000)
    || (c == 0xfeff)

trim_start : Str → Str
trim_start [] = []
trim_start (c ∷ s) = let rest = trim_start s in if is_blank c then rest else c ∷ s

-- The value of a digit in a base of at most 16.
digit : ℕ → ℕ → Option ℕ
digit base c =
    if leb b'0' c && leb c b'9'
    then some (c - b'0')
    else if (base == 16) && leb b'a' c && leb c b'f'
    then some (c - b'a' + 10)
    else if (base == 16) && leb b'A' c && leb c b'F'
    then some (c - b'A' + 10)
    else none

-- The longest run of digits; what follows it is ignored.
read : ℕ → ℕ → Str → ℕ
read base acc [] = acc
read base acc (c ∷ s) = elim (digit base c) [ none ↦ acc | some d ↦ read base (acc * base + d) s ]

-- With no digit at the front the result is `NaN`.
magnitude : ℕ → Str → Option ℕ
unfolding digit read
magnitude base [] = none
magnitude base (c ∷ s) = elim (digit base c) [ none ↦ none | some d ↦ some (read base 0 (c ∷ s)) ]

unsigned : Str → Option ℕ
unfolding magnitude
unsigned (z ∷ x ∷ s) =
    if (z == b'0') && ((x == b'x') || (x == b'X')) then magnitude 16 s else magnitude 10 (z ∷ x ∷ s)
unsigned s = magnitude 10 s

signed : Str → Option ℤ
unfolding unsigned
signed [] = none
signed (c ∷ s) =
    if c == b'-'
    then elim (unsigned s) [ none ↦ none | some n ↦ some (negate n) ]
    else elim (unsigned (if c == b'+' then s else c ∷ s)) [ none ↦ none | some n ↦ some (pos n) ]

-- `parseInt(s)`; `none` is `NaN`
unfoldable pub parse_int : Str → Option ℤ
unfolding signed trim_start is_blank
parse_int s = signed (trim_start s)

abbrev pub IsDigit : ℕ → Type 0
IsDigit c = (b'0' ≤ c) × (c ≤ b'9')

pub decimal_fuel-IsDigit : (f n : ℕ) → All IsDigit (decimal_fuel f n)
unfolding decimal_fuel
decimal_fuel-IsDigit zero n = tt
decimal_fuel-IsDigit (suc f) n = elim (Bool-cases (ltb n 10)) [
  | inl small ↦ rw small ((omega arith, ground arith), tt)
  | inr big ↦ rw big (
      All-append IsDigit (decimal_fuel f (n / 10)) _ (decimal_fuel-IsDigit f (n / 10))
        ((omega arith, omega arith), tt))
]

digit_lem : (c : ℕ) → IsDigit c → digit 10 c ≡ some (c - b'0')
unfolding digit
digit_lem c h = ground arith

read_step :
    (acc n : ℕ) (rest : Str)
    → n < 10
    → read 10 acc ((b'0' + n) ∷ rest) ≡ read 10 (acc * 10 + n) rest
unfolding read
read_step acc n rest h = ground (arith, digit_lem (b'0' + n))

-- Reading the digits of `n` leaves the accumulator at `n`, whatever follows.
read-decimal_fuel :
    (f n : ℕ) (rest : Str) → n < f → read 10 0 (decimal_fuel f n ++ rest) ≡ read 10 n rest
unfolding decimal_fuel
read-decimal_fuel zero n rest h = absurd (omega arith)
read-decimal_fuel (suc f) n rest h = elim (Bool-cases (ltb n 10)) [
  | inl small ↦
      rw small (read_step 0 n rest (ground arith) ∙ ap (λ m. read 10 m rest) (omega arith))
  | inr big ↦
      rw (big, append_assoc, read-decimal_fuel f (n / 10) _ (ground arith))
        (read_step (n / 10) (n % 10) rest (omega arith) ∙ ap (λ m. read 10 m rest) (omega arith))
]

IsDigit-not_blank : (c : ℕ) → IsDigit c → is_blank c ≡ false
unfolding is_blank
IsDigit-not_blank c h = ground arith

magnitude-digits :
    (c : ℕ) (s : Str) (n : ℕ) → IsDigit c → read 10 0 (c ∷ s) ≡ n → magnitude 10 (c ∷ s) ≡ some n
unfolding magnitude
magnitude-digits c s n h e = rw (magnitude, digit_lem c h) (ap some e)

unsigned-digits : (s : Str) (n : ℕ) → All IsDigit s → s ≢ [] → read 10 0 s ≡ n → unsigned s ≡ some n
unfolding unsigned
unsigned-digits [] n h ne e = absurd (ne refl)
unsigned-digits (c ∷ []) n h ne e = magnitude-digits c [] n h.0 e
unsigned-digits (c ∷ x ∷ s) n h ne e = ground (arith, magnitude-digits c (x ∷ s) n h.0 e)

trim_start-digits : (c : ℕ) (s : Str) → IsDigit c → trim_start (c ∷ s) ≡ c ∷ s
unfolding trim_start
trim_start-digits c s h = rw (IsDigit-not_blank c h)

signed-digits :
    (c : ℕ) (s : Str) (n : ℕ)
    → IsDigit c
    → unsigned (c ∷ s) ≡ some n
    → signed (c ∷ s) ≡ some (pos n)
unfolding signed
signed-digits c s n h e = ground arith

parse_int_lem : (s : Str) → parse_int s ≡ signed (trim_start s)
unfolding parse_int
parse_int_lem s = refl

parse_int-digits :
    (s : Str) (n : ℕ) → All IsDigit s → s ≢ [] → read 10 0 s ≡ n → parse_int s ≡ some (pos n)
parse_int-digits [] n h ne e = absurd (ne refl)
parse_int-digits (c ∷ s) n h ne e =
    parse_int_lem (c ∷ s)
    ∙ ap signed (trim_start-digits c s h.0)
    ∙ signed-digits c s n h.0 (unsigned-digits (c ∷ s) n h ne e)

append-ne_nil : (xs : Str) (c : ℕ) → xs ++ c ∷ [] ≢ []
append-ne_nil [] c h = cc
append-ne_nil (x ∷ xs) c h = cc

decimal_fuel-ne_nil : (f n : ℕ) → decimal_fuel (suc f) n ≢ []
unfolding decimal_fuel
decimal_fuel-ne_nil f n = elim (Bool-cases (ltb n 10)) [
  | inl small ↦ rw small (λ h. cc)
  | inr big ↦ rw big (append-ne_nil (decimal_fuel f (n / 10)) _)
]

-- `parseInt(String(n))` is `n`.
pub parse_int-decimal : (n : ℕ) → parse_int (decimal n) ≡ some (pos n)
unfolding decimal
parse_int-decimal n =
    parse_int-digits (decimal_fuel (suc n) n) n (decimal_fuel-IsDigit (suc n) n)
      (decimal_fuel-ne_nil n n)
      (ap (read 10 0) (sym (append-nil (decimal_fuel (suc n) n)))
        ∙ read-decimal_fuel (suc n) n [] (omega arith)
        ∙ read_nil n)
  where
    read_nil : (m : ℕ) → read 10 m [] ≡ m
    read_nil m = unfold read in refl

-- The text of a number is not empty.
pub decimal-truthy : (n : ℕ) → truthy (decimal n) ≡ true
unfolding decimal
decimal-truthy n = truthy-ne_nil (decimal_fuel (suc n) n) (decimal_fuel-ne_nil n n)
  where
    truthy-ne_nil : (s : Str) → s ≢ [] → truthy s ≡ true
    truthy-ne_nil [] h = absurd (h refl)
    truthy-ne_nil (c ∷ s) h = refl
