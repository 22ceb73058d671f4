-- ===== src/Dashboard.antt =====
-- frontend/components/analytics-dashboard.tsx: the analytics page. Requests are made for the region
-- at the start and at each change of it, and for the totals once; answers are taken as they come.
pub mod Charts
pub mod View
pub mod Regions
use yt_trending_pipeline.Prelude.{
  ℕ, Option, none, some, Bool, true, false, not, ◌&&◌, ◌||◌, List, [], ◌∷◌, Str, text, truthy, same,
  JsNum, or_else, if◌then◌else◌,
}
use yt_trending_pipeline.Types.{TopChannel, Video}
use yt_trending_pipeline.Api.{
  Settled, fulfilled, rejected, TrackedRegions, VideosParams, ChannelsParams, SortBy,
}

-- `tracked_regions` is `none` where it is `undefined`: the answer had no list.
pub record Dashboard : Type 0 where
  pub region : Str
  pub channels : List TopChannel
  pub channels_by_views : List TopChannel
  pub videos : List Video
  pub loading_channels : Bool
  pub loading_videos : Bool
  pub channels_error : Option Str
  pub video_count : JsNum
  pub tracked_regions : Option (List Str)
  pub loading_stats : Bool

unfoldable pub initial : Dashboard
initial = record {
  region = text "US";
  channels = [];
  channels_by_views = [];
  videos = [];
  loading_channels = true;
  loading_videos = true;
  channels_error = none;
  video_count = none;
  tracked_regions = some [];
  loading_stats = true;
}

-- the parameters of the three calls for a region
unfoldable pub channels_params : SortBy → Dashboard → ChannelsParams
channels_params by s = record { region = some s.region; limit = some 10; sort_by = some by }

unfoldable pub videos_params : Dashboard → VideosParams
videos_params s = record {
  region = some s.region;
  category_id = none;
  limit = some 200;
  offset = none;
}

-- `fetchChannels` and `fetchVideos` up to their `await`
unfoldable pub begin_fetch : Dashboard → Dashboard
begin_fetch s = record s { loading_channels = true; channels_error = none; loading_videos = true }

-- a new region makes the effect run again
unfoldable pub set_region : Str → Dashboard → Dashboard
unfolding begin_fetch
set_region v s = if same v s.region then s else begin_fetch (record s { region = v })

abbrev pub contains : List Str → Str → Bool
contains [] r = false
contains (c ∷ codes) r = same c r || contains codes r

-- `regions.includes(r) ? r : (regions[0] ?? r)`
unfoldable pub tracked_region : List Str → Str → Str
tracked_region [] r = r
tracked_region (c ∷ codes) r = if contains (c ∷ codes) r then r else c

pub data Event : Type 0 where
  region_chosen : Option Str → Event
  channels_answered : Settled (Option (List TopChannel) × Option (List TopChannel)) → Event
  videos_answered : Settled (Option (List Video)) → Event
  stats_answered : Settled (JsNum × TrackedRegions) → Event

-- Without a list the updater of the region throws, and so does the next rendering.
stats_regions : Option (List Str) → Dashboard → Dashboard
unfolding set_region tracked_region
stats_regions none s = record s { tracked_regions = none }
stats_regions (some codes) s =
    set_region (tracked_region codes s.region) (record s { tracked_regions = some codes })

unfoldable pub step : Event → Dashboard → Dashboard
unfolding set_region stats_regions
step (region_chosen none) s = s
step (region_chosen (some v)) s = if truthy v then set_region v s else s
step (channels_answered (fulfilled (by_appearances, by_views))) s = record s {
  channels = or_else by_appearances [];
  channels_by_views = or_else by_views [];
  loading_channels = false;
}
step (channels_answered (rejected message)) s = record s {
  channels_error = some message;
  loading_channels = false;
}
step (videos_answered (fulfilled data')) s = record s {
  videos = or_else data' [];
  loading_videos = false;
}
step (videos_answered (rejected message)) s = record s { videos = []; loading_videos = false }
step (stats_answered (fulfilled (count, regions))) s =
    stats_regions regions.regions (record s { video_count = count; loading_stats = false })
step (stats_answered (rejected message)) s = record s { loading_stats = false }
