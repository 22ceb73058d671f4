-- ===== src/Format.antt =====
-- `formatCount` of frontend/components/videos-table.tsx, of video-trend-chart.tsx (the same) and of
-- analytics-dashboard.tsx (with billions). `(n / unit).toFixed(1)` is computed in floating point
-- and is a parameter: the tenths that it rounds to.
pub mod Rounding
use yt_trending_pipeline.Prelude.{
  ℕ, ◌+◌, ◌*◌, ◌/◌, ◌%◌, none, some, ◌++◌, ◌∷◌, [], Str, text, JsNum, decimal, leb, if◌then◌else◌,
}

-- `toFixed(1)` of a value below 10^21: the whole part, a point and one digit
abbrev pub tenths_text : ℕ → Str
tenths_text tenths = decimal (tenths / 10) ++ (b'.' ∷ decimal (tenths % 10))

module _ (tenths : ℕ → ℕ → ℕ) where
  abbrev pub compact : ℕ → ℕ → Str → Str
  compact n unit suffix = tenths_text (tenths n unit) ++ suffix

  unfoldable pub thousands : ℕ → Str
  thousands n = if leb 1000 n then compact n 1000 (text "K") else decimal n

  unfoldable pub millions : ℕ → Str
  unfolding thousands
  millions n = if leb 1000000 n then compact n 1000000 (text "M") else thousands n

  -- Every comparison with `undefined` fails, and `String(undefined)` is the last line.
  unfoldable pub format_count : JsNum → Str
  unfolding millions
  format_count none = text "undefined"
  format_count (some n) = millions n

  -- the version of the dashboard
  unfoldable pub format_count_long : JsNum → Str
  unfolding millions
  format_count_long none = text "undefined"
  format_count_long (some n) =
      if leb 1000000000 n then compact n 1000000000 (text "B") else millions n
