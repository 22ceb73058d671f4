-- ===== src/Prelude/Text.antt =====
-- Text as JavaScript and Go index it here: a list of code units.
use Prim.Native.Nat.{ℕ}
use Prim.Native.Char.{code}
use Prim.Native.String.{String}
use mathlib.Core.Path.{◌≡◌, refl}
use mathlib.Core.Logic.{◌↔◌}
use mathlib.Core.Bool.{Bool, true, false, ◌&&◌, ◌||◌}
use mathlib.Core.List.{List, [], ◌∷◌}
use native.Mathlib.Omega.{arith}
use yt_trending_pipeline.Prelude.Tests.{◌==◌}

-- A JavaScript string: its UTF-16 code units.
abbrev pub Str : Type 0
Str = List ℕ

-- A literal of the source. Each character of the literals in use is one code unit.
unfoldable pub text : String → Str
text String.[] = []
text (String.◌∷◌ c s) = code c ∷ text s

-- `a === b`
unfoldable pub same : Str → Str → Bool
same [] [] = true
same (x ∷ xs) (y ∷ ys) = (x == y) && same xs ys
same _ _ = false

pub same→eq : (a b : Str) → same a b ≡ true → a ≡ b
unfolding same
same→eq [] [] h = refl
same→eq [] (y ∷ ys) h = absurd (ground arith)
same→eq (x ∷ xs) [] h = absurd (ground arith)
same→eq (x ∷ xs) (y ∷ ys) h = ground (arith, same→eq xs ys)

pub same_refl : (a : Str) → same a a ≡ true
unfolding same
same_refl [] = refl
same_refl (x ∷ xs) = ground (arith, same_refl xs)

pub same_iff : (a b : Str) → (same a b ≡ true) ↔ (a ≡ b)
same_iff a b = (same→eq a b, λ e. ground (arith, same_refl a))

-- `s.startsWith(prefix)`
unfoldable pub starts_with : Str → Str → Bool
starts_with s [] = true
starts_with [] (p ∷ ps) = false
starts_with (x ∷ xs) (p ∷ ps) = (x == p) && starts_with xs ps

-- `s.includes(part)`
unfoldable pub includes : Str → Str → Bool
unfolding starts_with
includes [] part = starts_with [] part
includes (x ∷ xs) part = starts_with (x ∷ xs) part || includes xs part

-- the test of a string as a condition
abbrev pub truthy : Str → Bool
truthy [] = false
truthy (x ∷ xs) = true
