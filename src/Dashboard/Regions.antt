-- ===== src/Dashboard/Regions.antt =====
-- frontend/components/analytics-dashboard.tsx: the region once the totals are answered.
use yt_trending_pipeline.Prelude.{
  ℕ, ◌≡◌, refl, ap, Option, none, some, same, Bool-cases, inl, inr, true, false, List, ◌∷◌, Str,
  same_refl, same_iff, JsNum, if_cases, if◌then◌else◌, arith, ◌∙◌,
}
use yt_trending_pipeline.Api.{fulfilled, SortBy, TrackedRegions}
use yt_trending_pipeline.Dashboard.{
  Dashboard, contains, tracked_region, set_region, begin_fetch, channels_params, videos_params,
  stats_answered, step, stats_regions,
}

contains-tracked_region :
    (c : Str) (codes : List Str) (r : Str)
    → contains (c ∷ codes) (tracked_region (c ∷ codes) r) ≡ true
unfolding tracked_region
contains-tracked_region c codes r =
    if_cases (λ x. contains (c ∷ codes) x ≡ true) (contains (c ∷ codes) r) r c (λ e. e)
      (λ e. rw (same_refl c) refl)

set_region_keeps :
    (v : Str) (s : Dashboard)
    → ((set_region v s).region ≡ v)
      × ((set_region v s).tracked_regions ≡ s.tracked_regions)
      × ((set_region v s).video_count ≡ s.video_count)
      × ((set_region v s).loading_stats ≡ s.loading_stats)
unfolding set_region begin_fetch
set_region_keeps v s = ground (arith, same_iff v s.region)

-- what is kept of the answers of the totals
pub stats_answered_keeps :
    (s : Dashboard) (count : JsNum) (r : TrackedRegions) (codes : List Str)
    → r.regions ≡ some codes
    → let after = step (stats_answered (fulfilled (count, r))) s in
      (after.tracked_regions ≡ some codes)
      × (after.video_count ≡ count)
      × (after.loading_stats ≡ false)
unfolding step stats_regions
stats_answered_keeps s count r codes e =
    let t = record s { video_count = count; loading_stats = false; tracked_regions = some codes } in
    let kept = set_region_keeps (tracked_region codes s.region) t in rw e (kept.1, kept.2, kept.3)

pub stats_answered_undefined :
    (s : Dashboard) (count : JsNum) (r : TrackedRegions)
    → r.regions ≡ none
    → (step (stats_answered (fulfilled (count, r))) s).tracked_regions ≡ none
unfolding step stats_regions
stats_answered_undefined s count r e = rw e refl

-- The region stays exactly if it is tracked.
tracked_same :
    (c : Str) (codes : List Str) (r : Str)
    → same (tracked_region (c ∷ codes) r) r ≡ contains (c ∷ codes) r
unfolding tracked_region
tracked_same c codes r = elim (Bool-cases (contains (c ∷ codes) r)) [
  | inl e ↦ rw e (same_refl r)
  | inr e ↦ rw e (ground arith)
]

-- what a new region asks for
set_region_loads :
    (v : Str) (s : Dashboard)
    → ((set_region v s).loading_channels ≡ (if same v s.region then s.loading_channels else true))
      × ((set_region v s).loading_videos ≡ (if same v s.region then s.loading_videos else true))
      × ((set_region v s).channels_error ≡ (if same v s.region then s.channels_error else none))
unfolding set_region begin_fetch
set_region_loads v s = elim (Bool-cases (same v s.region)) [
  | inl e ↦ rw e (refl, refl, refl)
  | inr e ↦ rw e (refl, refl, refl)
]

tracked_region_lem :
    (c : Str) (codes : List Str) (r : Str)
    → tracked_region (c ∷ codes) r ≡ (if contains (c ∷ codes) r then r else c)
unfolding tracked_region
tracked_region_lem c codes r = refl

-- Once the totals are answered with some regions, the region of the page is one of them; it is the
-- region of before if that is one of them, and then nothing is asked for; else the region changes,
-- the spinners of the channels and of the videos are on, there is no error, and ten channels in
-- each order and 200 videos are asked for, of the new region.
pub step-stats_answered :
    (s : Dashboard) (by : SortBy) (count : JsNum) (total : Option ℕ) (c : Str) (codes : List Str)
    → let after =
        step
          (stats_answered (fulfilled (count, record { count = total; regions = some (c ∷ codes) })))
          s in
      (contains (c ∷ codes) after.region ≡ true)
      × (after.tracked_regions ≡ some (c ∷ codes))
      × (after.video_count ≡ count)
      × (after.loading_stats ≡ false)
      × (after.region ≡ (if contains (c ∷ codes) s.region then s.region else c))
      × (after.loading_channels
          ≡ (if contains (c ∷ codes) s.region then s.loading_channels else true))
      × (after.loading_videos ≡ (if contains (c ∷ codes) s.region then s.loading_videos else true))
      × (after.channels_error ≡ (if contains (c ∷ codes) s.region then s.channels_error else none))
      × (channels_params by after
          ≡ record { region = some after.region; limit = some 10; sort_by = some by })
      × (videos_params after ≡ record {
        region = some after.region;
        category_id = none;
        limit = some 200;
        offset = none;
      })
unfolding channels_params videos_params step stats_regions
step-stats_answered s by count total c codes =
    let t = record s {
      video_count = count;
      loading_stats = false;
      tracked_regions = some (c ∷ codes);
    } in
    let v = tracked_region (c ∷ codes) s.region in
    let r = set_region_keeps v t in
    let loads = set_region_loads v t in
    let same_region = tracked_same c codes s.region in
    (
      rw r.0 (contains-tracked_region c codes s.region),
      r.1,
      r.2,
      r.3,
      r.0 ∙ tracked_region_lem c codes s.region,
      loads.0 ∙ ap (λ b. if b then s.loading_channels else true) same_region,
      loads.1 ∙ ap (λ b. if b then s.loading_videos else true) same_region,
      loads.2 ∙ ap (λ b. if b then s.channels_error else none) same_region,
      refl,
      refl,
    )
