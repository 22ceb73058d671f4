-- ===== src/Format/Rounding.antt =====
-- Which text `formatCount` gives to which count.
use yt_trending_pipeline.Prelude.{
  ℕ, ◌+◌, ◌*◌, ◌/◌, ◌≤◌, ◌<◌, ◌≡◌, refl, ap, ◌∙◌, some, ◌++◌, text, decimal, arith,
}
use yt_trending_pipeline.Format.{tenths_text, format_count}

-- Counts below 2^50, where the error of the division is smaller than any gap but a tie.
abbrev pub exact_below : ℕ
exact_below = 1125899906842624

-- `toFixed(1)` takes the nearest tenth; a tie may go either way after the division.
pub record IsNearest (tenths : ℕ → ℕ → ℕ) : Type 0 where
  pub above : (n unit : ℕ) → n < exact_below → 0 < unit → 20 * n ≤ 2 * (tenths n unit * unit) + unit
  pub below : (n unit : ℕ) → n < exact_below → 0 < unit → 2 * (tenths n unit * unit) ≤ 20 * n + unit

-- `t` tenths of a thousand are as near to `n` as any
abbrev pub IsNearestTenth : ℕ → ℕ → Type 0
IsNearestTenth n t = (20 * n ≤ 2 * (t * 1000) + 1000) × (2 * (t * 1000) ≤ 20 * n + 1000)

rollover_text : tenths_text 10000 ++ text "K" ≡ text "1000.0K"
unfolding text decimal
rollover_text = refl

module _ (tenths : ℕ → ℕ → ℕ) (nearest : IsNearest tenths) where
  tenths_K :
      (n : ℕ)
      → n < 1000000
      → (20 * n ≤ 2 * (tenths n 1000 * 1000) + 1000) × (2 * (tenths n 1000 * 1000) ≤ 20 * n + 1000)
  tenths_K n h = (
    nearest.above n 1000 (omega arith) (omega arith),
    nearest.below n 1000 (omega arith) (omega arith),
  )

  format_count_thousands :
      (n : ℕ)
      → 1000 ≤ n
      → n < 1000000
      → format_count tenths (some n) ≡ tenths_text (tenths n 1000) ++ text "K"
  unfolding format_count
  format_count_thousands n lo hi = ground arith

  rollover : (n : ℕ) → 999950 < n → n < 1000000 → tenths n 1000 ≡ 10000
  rollover n lo hi = omega (arith, tenths_K n hi)

  format_count_rollover :
      (n : ℕ) → 999950 < n → n < 1000000 → format_count tenths (some n) ≡ text "1000.0K"
  format_count_rollover n lo hi =
      format_count_thousands n (omega arith) hi
      ∙ ap (λ t. tenths_text t ++ text "K") (rollover n lo hi)
      ∙ rollover_text

  -- A count from 1000 to 999949 is shown in thousands with one decimal, the nearest one, and with
  -- one to three digits before the point; a count from 999951 to 999999 is shown as "1000.0K",
  -- never as "1.0M".
  pub format_count_lem :
      (n k : ℕ)
      → 1000 ≤ n
      → n < 999950
      → 999950 < k
      → k < 1000000
      → (format_count tenths (some n) ≡ tenths_text (tenths n 1000) ++ text "K")
        × IsNearestTenth n (tenths n 1000)
        × (1 ≤ tenths n 1000 / 10)
        × (tenths n 1000 / 10 ≤ 999)
        × (format_count tenths (some k) ≡ text "1000.0K")
  format_count_lem n k lo hi low high =
      let t = tenths_K n (omega arith) in
      (
        format_count_thousands n lo (omega arith),
        (t.0, t.1),
        omega arith,
        omega arith,
        format_count_rollover k low high,
      )
