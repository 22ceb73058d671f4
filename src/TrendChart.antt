-- ===== src/TrendChart.antt =====
-- frontend/components/video-trend-chart.tsx: the chart of one video. `load` awaits two answers at
-- once, so it is two steps. TrendChart.Lines has the three line charts, TrendChart.View the page.
pub mod Lines
pub mod View
pub mod Drawn
use yt_trending_pipeline.Prelude.{
  ℕ, suc, ◌≡◌, refl, ap, All, arith, same_iff, Option, none, some, Bool, true, false, List, [], ◌∷◌,
  ◌++◌, map, Str, text, truthy, length, find, same, JsNum, or_else, decimal, ◌==◌, if◌then◌else◌,
}
use yt_trending_pipeline.Types.{Video, TrendPoint}
use yt_trending_pipeline.Api.{Settled, fulfilled, rejected, VideosParams}
use yt_trending_pipeline.Format.{format_count}

pub record Chart : Type 0 where
  pub trend : List TrendPoint
  pub video : Option Video
  pub loading : Bool
  pub error : Option Str

unfoldable pub initial : Chart
initial = record { trend = []; video = none; loading = true; error = none }

-- the parameters of `getVideos`: any region, 200 videos
unfoldable pub videos_params : VideosParams
videos_params = record { region = none; category_id = none; limit = some 200; offset = none }

unfoldable pub begin_load : Chart → Chart
begin_load s = record s { loading = true; error = none }

-- `Promise.all` fails with the first call that fails; which one that is, is the caller's to say.
unfoldable pub end_load :
    Str → Settled (Option (List TrendPoint) × Option (List Video)) → Chart → Chart
end_load video_id (fulfilled (trend, videos)) s = record s {
  trend = or_else trend [];
  video = find (λ v. same v.video_id video_id) (or_else videos []);
  loading = false;
}
end_load video_id (rejected message) s = record s { error = some message; loading = false }
