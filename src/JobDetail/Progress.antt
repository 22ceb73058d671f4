-- ===== src/JobDetail/Progress.antt =====
-- frontend/components/job-detail.tsx: the two progress bars. `Math.round((a / m) * 100)` is computed
-- in floating point and is a parameter.
use yt_trending_pipeline.Prelude.{
  ℕ, ◌≤◌, ◌<◌, min, max, ◌≡◌, Option, none, some, ◌||◌, or_else, ltb, arith, if◌then◌else◌,
}
use yt_trending_pipeline.Types.{JobStatus}

-- What rounding does to a percentage, for counts below 2^53: the ratio of a number to itself is
-- exactly 1, that of 0 is 0, and division, multiplication and rounding are monotone.
pub record IsPercentage (round_percent : ℕ → ℕ → ℕ) : Type 0 where
  pub whole : (m : ℕ) → 0 < m → round_percent m m ≡ 100
  pub nothing : (m : ℕ) → 0 < m → round_percent 0 m ≡ 0
  pub monotone : (a b m : ℕ) → a ≤ b → round_percent a m ≤ round_percent b m

pub record Bars : Type 0 where
  pub fetched : Option ℕ
  pub inserted : Option ℕ

unfoldable pub progress_max : ℕ → ℕ → ℕ
progress_max fetched inserted = max (max fetched inserted) 1

module _ (round_percent : ℕ → ℕ → ℕ) where
  unfoldable pub bars_of : ℕ → ℕ → Bars
  unfolding progress_max
  bars_of fetched inserted =
      let has_data = ltb 0 fetched || ltb 0 inserted in
      let top = progress_max fetched inserted in
      record {
        fetched = if has_data then some (min 100 (round_percent fetched top)) else none;
        inserted = if has_data then some (min 100 (round_percent inserted top)) else none;
      }

  unfoldable pub bars : JobStatus → Bars
  unfolding bars_of
  bars job = bars_of (or_else job.videos_fetched 0) (or_else job.videos_inserted 0)

progress_max-eq : (f i : ℕ) → 0 < f → i ≤ f → progress_max f i ≡ f
unfolding progress_max
progress_max-eq f i p le = omega arith

bars_of_data :
    (round_percent : ℕ → ℕ → ℕ) (f i : ℕ)
    → IsPercentage round_percent
    → 0 < f
    → i ≤ f
    → ((bars_of round_percent f i).fetched ≡ some 100)
      × ((bars_of round_percent f i).inserted ≡ some (round_percent i f))
      × (round_percent i f ≤ 100)
unfolding bars_of
bars_of_data round_percent f i h p le =
    rw (bars_of, progress_max-eq f i p le)
      (
        ground (arith, h.whole f p, h.monotone i f f le),
        ground (arith, h.whole f p, h.monotone i f f le),
        omega (arith, h.whole f p, h.monotone i f f le),
      )

-- For a job that fetched some videos and inserted no more than it fetched, the bar of the fetched
-- videos is full, and that of the inserted ones shows their rounded share, at most 100.
pub bars_lem :
    (round_percent : ℕ → ℕ → ℕ) (job : JobStatus)
    → IsPercentage round_percent
    → or_else job.videos_inserted 0 ≤ or_else job.videos_fetched 0
    → 0 < or_else job.videos_fetched 0
    → let f = or_else job.videos_fetched 0 in
      let i = or_else job.videos_inserted 0 in
      ((bars round_percent job).fetched ≡ some 100)
      × ((bars round_percent job).inserted ≡ some (round_percent i f))
      × (round_percent i f ≤ 100)
unfolding bars
bars_lem round_percent job h le p =
    bars_of_data round_percent (or_else job.videos_fetched 0) (or_else job.videos_inserted 0) h p le
