-- ===== src/Prelude/Paths.antt =====
-- The path of an address, segment by segment, as gin and Next match it; the query and the fragment
-- are not part of it. It is meant for addresses whose path has no escapes and no dot segments: what
-- a browser makes of those is not modelled, and `IsPlain` rules them out.
use Prim.Native.Nat.{ℕ}
use Prim.Native.String.{String}
use mathlib.Core.Path.{◌≡◌, refl, ap}
use mathlib.Core.Bool.{Bool, true, false, ◌&&◌, ◌||◌}
use native.Mathlib.Omega.{arith}
use mathlib.Core.List.{List, [], ◌∷◌, ◌++◌}
use yt_trending_pipeline.Prelude.Tests.{leb, ◌==◌, if◌then◌else◌}
use yt_trending_pipeline.Prelude.Lists.{All}
use yt_trending_pipeline.Prelude.Text.{Str, text, same}

unfoldable pub path_of : Str → Str
path_of [] = []
path_of (c ∷ s) = let rest = path_of s in if (c == b'?') || (c == b'#') then [] else c ∷ rest

abbrev glue : ℕ → List Str → List Str
glue c [] = (c ∷ []) ∷ []
glue c (segment ∷ segments) = (c ∷ segment) ∷ segments

-- the segments of a path, with an empty one before the first slash
unfoldable pub segments : Str → List Str
segments [] = [] ∷ []
segments (c ∷ s) = let rest = segments s in if c == b'/' then [] ∷ rest else glue c rest

abbrev pub is_slug : Str → String → Bool
is_slug a word = same a (text word)

-- a letter, a digit, a dash or an underscore: the ids of YouTube and of jobs have no others
abbrev pub is_plain : ℕ → Bool
is_plain c =
    (leb b'0' c && leb c b'9')
    || (leb b'A' c && leb c b'Z')
    || (leb b'a' c && leb c b'z')
    || (c == b'-')
    || (c == b'_')

-- A character that stays as it is in an address, and neither ends a path nor splits it.
abbrev pub IsPlain : ℕ → Type 0
IsPlain c = is_plain c ≡ true

plain-slash : (c : ℕ) → IsPlain c → (c == b'/') ≡ false
plain-slash c h = ground arith

plain-ends : (c : ℕ) → IsPlain c → ((c == b'?') || (c == b'#')) ≡ false
plain-ends c h = ground arith

pub path_of-plain : (id rest : Str) → All IsPlain id → path_of (id ++ rest) ≡ id ++ path_of rest
unfolding path_of
path_of-plain [] rest h = refl
path_of-plain (c ∷ id) rest h = rw (plain-ends c h.0) (ap (◌∷◌ c) (path_of-plain id rest h.1))

pub segments-plain : (id : Str) → All IsPlain id → segments id ≡ id ∷ []
unfolding segments
segments-plain [] h = refl
segments-plain (c ∷ id) h = rw (plain-slash c h.0, segments-plain id h.1) refl

pub segments-slash :
    (id rest : Str) → All IsPlain id → segments (id ++ b'/' ∷ rest) ≡ id ∷ segments rest
unfolding segments
segments-slash [] rest h = refl
segments-slash (c ∷ id) rest h = rw (plain-slash c h.0, segments-slash id rest h.1) refl

pub path_of-id : (id : Str) → All IsPlain id → path_of id ≡ id
unfolding path_of
path_of-id [] h = refl
path_of-id (c ∷ id) h = rw (plain-ends c h.0) (ap (◌∷◌ c) (path_of-id id h.1))
