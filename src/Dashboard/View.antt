-- ===== src/Dashboard/View.antt =====
-- frontend/components/analytics-dashboard.tsx: what the analytics page shows. Styling and the
-- drawing of the charts, which recharts does, are left out.
use yt_trending_pipeline.Prelude.{
  ℕ, Option, none, some, Bool, true, false, List, [], ◌∷◌, ◌++◌, map, Str, text, truthy, same, find,
  length, JsNum, or_else, decimal, if◌then◌else◌, ◌≡◌, refl, ltb, ◌==◌, ◌<◌, arith,
}
use yt_trending_pipeline.Types.{Video}
use yt_trending_pipeline.Jobs.Catalog.{Region, regions}
use yt_trending_pipeline.JobForm.{Choice}
use yt_trending_pipeline.Format.{format_count_long}
use yt_trending_pipeline.SummaryCard.{Figure, spinner, shown, figure}
use yt_trending_pipeline.Dashboard.{Dashboard}
use yt_trending_pipeline.Dashboard.Charts.{ChartEntry, to_chart_entry, most_viewed}

pub data Best : Type 0 where
  loading_best no_best : Best
  best : Str → Str → Best

pub data ChartContent : Type 0 where
  loading_chart nothing : ChartContent
  chart_failed : Str → ChartContent
  empty : Str → ChartContent
  entries : List ChartEntry → ChartContent

pub record Cards : Type 0 where
  pub region : Str
  pub region_choices : List Choice
  pub videos_ingested : Figure
  pub regions_tracked : Figure
  pub most_viewed : Best
  pub by_appearances : ChartContent
  pub by_views : ChartContent

-- `crashed`: the rendering throws.
pub data DashboardView : Type 0 where
  crashed : DashboardView
  cards : Cards → DashboardView

pub record TooltipView : Type 0 where
  pub title : Option Str
  pub appearances : JsNum
  pub total_views : Str

-- the label of a region code
region_label : Str → Str
region_label code = elim (find (λ r. same r.code code) regions) [
  | some meta ↦ meta.label ++ (text " (" ++ (code ++ text ")"))
  | none ↦ code
]

abbrev codes_of : List Region → List Str
codes_of = map (λ r. r.code)

-- `xs.length`, which throws if `xs` is undefined
abbrev length_of : Option (List Str) → Option ℕ
length_of none = none
length_of (some codes) = some (length codes)

abbrev and_then : {A B : Type 0} → Option A → (A → Option B) → Option B
and_then none f = none
and_then (some a) f = f a

unfoldable pub choices_of : List Str → List Choice
unfolding region_label
choices_of = map (λ code. record { value = code; shown = region_label code })

-- `trackedRegions.length > 0 ? trackedRegions : REGIONS.map((r) => r.code)`; none is an exception
unfoldable pub offered_regions : Option (List Str) → Option (List Choice)
unfolding choices_of
offered_regions tracked =
    and_then (length_of tracked)
      (λ n. some (choices_of (if ltb 0 n then or_else tracked [] else codes_of regions)))

-- `trackedRegions.length || "—"`
abbrev regions_shown : ℕ → Figure
regions_shown n = shown (if n == 0 then text "—" else decimal n)

unfoldable pub regions_figure : Bool → Option (List Str) → Option Figure
regions_figure true tracked = some spinner
regions_figure false tracked = and_then (length_of tracked) (λ n. some (regions_shown n))

abbrev failed : Option Str → Bool
failed none = false
failed (some message) = truthy message

module _ (to_locale_string : ℕ → Str) (tenths : ℕ → ℕ → ℕ) where
  -- `AppearancesTooltip`, for the first item of the payload
  unfoldable pub appearances_tooltip : Bool → List ChartEntry → Option TooltipView
  appearances_tooltip false payload = none
  appearances_tooltip true [] = none
  appearances_tooltip true (d ∷ payload) = some (record {
    title = some d.full_name;
    appearances = d.appearances;
    total_views = to_locale_string (or_else d.total_views 0);
  })

  best_of : Bool → Option Video → Best
  best_of true v = loading_best
  best_of false none = no_best
  best_of false (some v) = best v.title (format_count_long tenths v.view_count ++ text " views")

  unfoldable pub appearances_chart : Dashboard → ChartContent
  appearances_chart s =
      if s.loading_channels
      then loading_chart
      else if failed s.channels_error
      then chart_failed (or_else s.channels_error [])
      else elim s.channels [
        | [] ↦ empty (text "No channel data available for " ++ (s.region ++ text "."))
        | c ∷ cs ↦ entries (to_chart_entry c ∷ map to_chart_entry cs)
      ]

  unfoldable pub views_chart : Dashboard → ChartContent
  views_chart s = if s.loading_channels then loading_chart else elim s.channels [
    | [] ↦ nothing
    | c ∷ cs ↦ entries (map to_chart_entry s.channels_by_views)
  ]

  cards_of : List Choice → Figure → Dashboard → Cards
  unfolding best_of appearances_chart views_chart
  cards_of choices tracked s = record {
    region = s.region;
    region_choices = choices;
    videos_ingested = figure to_locale_string s.loading_stats s.video_count;
    regions_tracked = tracked;
    most_viewed = best_of s.loading_videos (most_viewed s.videos);
    by_appearances = appearances_chart s;
    by_views = views_chart s;
  }

  -- the rendering; none is an exception
  render : Dashboard → Option Cards
  unfolding offered_regions regions_figure cards_of
  render s = and_then (offered_regions s.tracked_regions) (λ choices.
      and_then (regions_figure s.loading_stats s.tracked_regions)
        (λ tracked. some (cards_of choices tracked s)))

  unfoldable pub analytics_dashboard : Dashboard → DashboardView
  unfolding render
  analytics_dashboard s = elim (render s) [ none ↦ crashed | some c ↦ cards c ]

  pub analytics_dashboard-none :
      (s : Dashboard) → s.tracked_regions ≡ none → analytics_dashboard s ≡ crashed
  unfolding analytics_dashboard offered_regions
  analytics_dashboard-none s e = rw e refl

  -- The totals are shown once they are answered with some regions.
  pub analytics_dashboard-some :
      (s : Dashboard) (codes : List Str) (n : ℕ)
      → s.tracked_regions ≡ some codes
      → s.loading_stats ≡ false
      → s.video_count ≡ some n
      → 0 < length codes
      → (c : Cards) × (analytics_dashboard s ≡ cards c)
        × (c.videos_ingested ≡ shown (to_locale_string n))
        × (c.regions_tracked ≡ shown (decimal (length codes)))
  unfolding analytics_dashboard render offered_regions regions_figure cards_of figure
  analytics_dashboard-some s codes n e l f h =
      let some_codes : (length codes == 0) ≡ false = ground arith in
      let offered = choices_of (if ltb 0 (length codes) then codes else codes_of regions) in
      (
        cards_of offered (regions_shown (length codes)) s,
        rw (e, l) refl,
        rw (l, f) refl,
        rw some_codes refl,
      )
