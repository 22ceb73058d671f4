-- ===== src/Examples/Params.antt =====
-- Concrete parameters: what the browser and the platform provide, at its simplest.
use native.Mathlib.Nat.{div-add-mod, mod-lt}
use yt_trending_pipeline.Prelude.{
  ℕ, suc, zero, ◌+◌, ◌*◌, ◌/◌, ◌≡◌, List, [], ◌∷◌, Str, text, length, All, arith, map, leb, ◌&&◌,
  if◌then◌else◌,
}
use yt_trending_pipeline.Jobs.Time.{JsDate}
use yt_trending_pipeline.Jobs.Key.{IsByte}
use yt_trending_pipeline.Format.Rounding.{IsNearest}
use yt_trending_pipeline.JobDetail.Progress.{IsPercentage}

abbrev zeros : ℕ → List ℕ
zeros zero = []
zeros (suc n) = 0 ∷ zeros n

-- a digest of 32 bytes
abbrev pub digest : Str → List ℕ
digest s = zeros 32

pub digest-bytes : (s : Str) → (length (digest s) ≡ 32) × All IsByte (digest s)
digest-bytes s = omega arith

abbrev pub nearest_tenths : ℕ → ℕ → ℕ
nearest_tenths n unit = (20 * n + unit) / (2 * unit)

pub nearest_tenths-IsNearest : IsNearest nearest_tenths
nearest_tenths-IsNearest = record {
  above = λ n unit h p. omega (
    arith,
    div-add-mod (20 * n + unit) (2 * unit),
    mod-lt (20 * n + unit) {m = 2 * unit} (omega arith),
  );
  below = λ n unit h p. omega (arith, div-add-mod (20 * n + unit) (2 * unit));
}

abbrev pub whole_percent : ℕ → ℕ → ℕ
whole_percent a m = a * 100 / m

pub whole_percent-IsPercentage : IsPercentage whole_percent
whole_percent-IsPercentage = record {
  whole = λ m p. grind arith;
  nothing = λ m p. grind arith;
  monotone = λ a b m h. grind arith;
}

-- ASCII letters only
abbrev lower : ℕ → ℕ
lower c = if leb b'A' c && leb c b'Z' then c + 32 else c

abbrev pub ascii_lower : Str → Str
ascii_lower = map lower

abbrev pub no_date : JsDate → Str
no_date date = text "date"
