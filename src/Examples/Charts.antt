-- ===== src/Examples/Charts.antt =====
-- The theorems about the charts and the counts, at concrete inputs.
use yt_trending_pipeline.Prelude.{
  ℕ, List, All, map, min, ◌*◌, ◌/◌, ◌≤◌, ◌≡◌, refl, none, some, true, false, [], ◌∷◌, ◌++◌, text,
  if◌then◌else◌,
}
use yt_trending_pipeline.Prelude.{arith, zero, suc}
use yt_trending_pipeline.Types.{Video, TrendPoint}
use yt_trending_pipeline.Api.{fulfilled, appear_count}
use yt_trending_pipeline.Format.{tenths_text, format_count}
use yt_trending_pipeline.Format.Rounding.{IsNearestTenth, format_count_lem}
use yt_trending_pipeline.TrendChart
use yt_trending_pipeline.TrendChart.{begin_load, end_load}
use yt_trending_pipeline.TrendChart.View.{video_trend_chart}
use yt_trending_pipeline.TrendChart.Drawn.{
  drawn, shown, expected, IsInDomain, IsNearProduct, IsFound, end_load-shown,
}
use yt_trending_pipeline.Dashboard
use yt_trending_pipeline.Dashboard.{channels_params, contains, stats_answered}
use yt_trending_pipeline.Dashboard.Regions.{step-stats_answered}
use yt_trending_pipeline.Dashboard.Charts.{most_viewed, IsBest, most_viewed_lem}
use yt_trending_pipeline.Examples.Params.{nearest_tenths, nearest_tenths-IsNearest}
use yt_trending_pipeline.Examples.VideoPages.{video, three}

format_count_example :
    (format_count nearest_tenths (some 12345) ≡ tenths_text (nearest_tenths 12345 1000) ++ text "K")
    × IsNearestTenth 12345 (nearest_tenths 12345 1000)
    × (1 ≤ nearest_tenths 12345 1000 / 10)
    × (nearest_tenths 12345 1000 / 10 ≤ 999)
    × (format_count nearest_tenths (some 999999) ≡ text "1000.0K")
format_count_example =
    format_count_lem nearest_tenths nearest_tenths-IsNearest 12345 999999 (omega arith)
      (omega arith) (omega arith) (omega arith)

abbrev point : TrendPoint
point = record {
  fetched_at = text "t";
  view_count = some 4;
  like_count = none;
  comment_count = none;
}

-- the lowest of the numbers, as recharts finds it
lowest_from : ℕ → List ℕ → ℕ
lowest_from m [] = m
lowest_from m (n ∷ ns) = lowest_from (min m n) ns

lowest : List ℕ → ℕ
lowest [] = 0
lowest (n ∷ ns) = lowest_from n ns

lowest_from_lem :
    (m : ℕ) (ns : List ℕ) → (lowest_from m ns ≤ m) × All (λ n. lowest_from m ns ≤ n) ns
unfolding lowest_from
lowest_from_lem m [] = (omega arith, tt)
lowest_from_lem m (n ∷ ns) =
    let rest = lowest_from_lem (min m n) ns in
    (omega (arith, rest.0), (omega (arith, rest.0), rest.1))

lowest_lem : (ns : List ℕ) → All (λ n. lowest ns ≤ n) ns
unfolding lowest lowest_from
lowest_lem [] = tt
lowest_lem (n ∷ ns) = lowest_from_lem n ns

abbrev after_load : TrendChart.Chart
after_load =
    end_load (text "a") (fulfilled (some (point ∷ []), some three)) (begin_load TrendChart.initial)

-- the product, rounded down to a unit
abbrev times_095 : ℕ → ℕ
times_095 n = n * 19 * 9007199254740992 / 20

near_product : (n : ℕ) → IsNearProduct times_095 n
near_product zero = (omega arith, omega arith)
near_product (suc n) = (omega arith, omega arith)

end_load-shown_example :
    let page = video_trend_chart (λ s. s) nearest_tenths times_095 (text "a") after_load in
    (map drawn (shown page.content) ≡ expected (λ s. s) (point ∷ []))
    × All (IsInDomain lowest) (shown page.content)
    × IsFound (text "a") three after_load.video
    × (after_load.loading ≡ false)
    × (after_load.error ≡ none)
end_load-shown_example =
    end_load-shown (λ s. s) nearest_tenths times_095 near_product lowest lowest_lem (text "a")
      (point ∷ []) three TrendChart.initial

stats_answered_example :
    let after =
      Dashboard.step
        (stats_answered
          (fulfilled (some 12, record { count = some 1; regions = some (text "GB" ∷ []) })))
        Dashboard.initial in
    (contains (text "GB" ∷ []) after.region ≡ true)
    × (after.tracked_regions ≡ some (text "GB" ∷ []))
    × (after.video_count ≡ some 12)
    × (after.loading_stats ≡ false)
    × (after.region ≡ (
        if contains (text "GB" ∷ []) Dashboard.initial.region
        then Dashboard.initial.region
        else text "GB"))
    × (after.loading_channels ≡ (
        if contains (text "GB" ∷ []) Dashboard.initial.region
        then Dashboard.initial.loading_channels
        else true))
    × (after.loading_videos ≡ (
        if contains (text "GB" ∷ []) Dashboard.initial.region
        then Dashboard.initial.loading_videos
        else true))
    × (after.channels_error ≡ (
        if contains (text "GB" ∷ []) Dashboard.initial.region
        then Dashboard.initial.channels_error
        else none))
    × (channels_params appear_count after
        ≡ record { region = some after.region; limit = some 10; sort_by = some appear_count })
    × (Dashboard.videos_params after ≡ record {
      region = some after.region;
      category_id = none;
      limit = some 200;
      offset = none;
    })
stats_answered_example =
    step-stats_answered Dashboard.initial appear_count (some 12) (some 1) (text "GB") []

most_viewed_example :
    (v : Video) × (most_viewed three ≡ some v)
    × IsBest
        (video (text "a") (some 5))
        (video (text "b") (some 9) ∷ video (text "c") (some 5) ∷ [])
        v
most_viewed_example =
    most_viewed_lem (video (text "a") (some 5))
      (video (text "b") (some 9) ∷ video (text "c") (some 5) ∷ []) (refl, (refl, (refl, tt)))
