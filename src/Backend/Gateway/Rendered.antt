-- ===== src/Backend/Gateway/Rendered.antt =====
-- backend/db/db.go, backend/api/server.go, frontend/lib/api.ts and
-- frontend/components/analytics-dashboard.tsx: the totals of the analytics page on their way from the
-- table.
use yt_trending_pipeline.Prelude.{
  ℕ, suc, ◌<◌, ◌≡◌, Option, none, some, List, [], ◌∷◌, Str, same, length, decimal, ℤ, pos, ◌∙◌,
  arith,
}
use yt_trending_pipeline.Api
use yt_trending_pipeline.Api.{Settled, fulfilled, rejected, TrackedRegions}
use yt_trending_pipeline.SummaryCard.{shown}
use yt_trending_pipeline.Dashboard
use yt_trending_pipeline.Dashboard.{stats_answered}
use yt_trending_pipeline.Dashboard.Regions.{stats_answered_keeps, stats_answered_undefined}
use yt_trending_pipeline.Dashboard.View.{
  Cards, crashed, cards, analytics_dashboard, analytics_dashboard-none, analytics_dashboard-some,
}
use yt_trending_pipeline.Backend.{VideoRow}
use yt_trending_pipeline.Backend.Analytics
use yt_trending_pipeline.Backend.Analytics.{RegionsResponse}
use yt_trending_pipeline.Backend.Database.Totals.{
  count_videos, distinct_regions, tracked_regions, distinct_regions_complete,
}
use yt_trending_pipeline.Backend.Gateway.Handlers.{
  handle_get_video_count, handle_get_tracked_regions,
}
use yt_trending_pipeline.Backend.Gateway.Counted.{count_answer, regions_answer, any-positive}

-- `Promise.all` of the two calls
abbrev pub both : {A B : Type 0} → Settled A → Settled B → Settled (A × B)
both (fulfilled a) (fulfilled b) = fulfilled (a, b)
both (rejected message) b = rejected message
both (fulfilled a) (rejected message) = rejected message

module _ (to_locale_string : ℕ → Str) (tenths : ℕ → ℕ → ℕ) (read_count : ℤ → Option ℕ)
    (read_regions : RegionsResponse → TrackedRegions) where
  -- the page once the totals of these rows are answered
  abbrev pub totalled : List VideoRow → Dashboard.Dashboard → Dashboard.Dashboard
  totalled rows = Dashboard.step (
      stats_answered (
        both (count_answer to_locale_string read_count read_regions rows)
          (regions_answer to_locale_string read_count read_regions rows)))

  module _ (kept : (n : ℕ) → read_count (pos (suc n)) ≡ some (suc n))
      (left_out : (count : ℤ)
        → (read_regions (record { count = count; regions = [] })).regions ≡ none)
      (listed : (count : ℤ) (c : Str) (codes : List Str)
        → (read_regions (record { count = count; regions = c ∷ codes })).regions
          ≡ some (c ∷ codes)) where
    read_some :
        (count : ℤ) (codes : List Str)
        → 0 < length codes
        → (read_regions (record { count = count; regions = codes })).regions ≡ some codes
    read_some count [] h = absurd (omega arith)
    read_some count (c ∷ codes) h = listed count c codes

    -- While the table of videos is empty, the gateway leaves the list of regions out, and the
    -- rendering of the analytics page throws once the totals are answered, whatever it showed
    -- before. With videos in the table, the page then shows how many rows there are, and how many
    -- regions are in them. The dashboard reads the other counts and lists as they are.
    pub analytics_dashboard-totalled :
        (s : Dashboard.Dashboard) (v : VideoRow) (vs : List VideoRow)
        → (analytics_dashboard to_locale_string tenths (totalled [] s) ≡ crashed)
          × ((c : Cards) × (analytics_dashboard to_locale_string tenths (totalled (v ∷ vs) s)
                ≡ cards c)
              × (c.videos_ingested ≡ shown (to_locale_string (length (v ∷ vs))))
              × (c.regions_tracked ≡ shown (decimal (length (distinct_regions (v ∷ vs))))))
    unfolding distinct_regions Api.get_video_count Api.get_tracked_regions handle_get_video_count
        handle_get_tracked_regions count_videos tracked_regions Analytics.get_videos_count
        Analytics.get_tracked_regions
    analytics_dashboard-totalled s v vs =
        let rows : List VideoRow = v ∷ vs in
        let codes = distinct_regions rows in
        let positive = any-positive (same v.region) codes (distinct_regions_complete rows).0 in
        let count = pos (length codes) in
        let answer = read_regions (record { count = count; regions = codes }) in
        let nothing = read_regions (record { count = pos 0; regions = [] }) in
        let after =
          stats_answered_keeps s (read_count (pos (length rows))) answer codes
            (read_some count codes positive) in
        (
          analytics_dashboard-none to_locale_string tenths (totalled [] s)
              (stats_answered_undefined s (read_count (pos 0)) nothing (left_out (pos 0))),
          analytics_dashboard-some to_locale_string tenths (totalled rows s) codes (length rows)
              after.0 after.2 (after.1 ∙ kept (length vs)) positive,
        )
