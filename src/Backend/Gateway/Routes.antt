-- ===== src/Backend/Gateway/Routes.antt =====
-- backend/api/server.go: `RegisterRoutes`. A path is matched segment by segment, as gin does it.
pub mod Reached
use yt_trending_pipeline.Prelude.{
  ℕ, Option, none, some, Bool, true, false, ◌||◌, ◌&&◌, List, [], ◌∷◌, Str, text, same, path_of,
  segments, is_slug, truthy, ◌==◌, if◌then◌else◌,
}
use yt_trending_pipeline.Api.{Method, get, post}

pub data Route : Type 0 where
  health submit_job submit_batch get_video_count get_videos get_tracked_regions : Route
  get_top_channels not_found : Route
  get_job_status watch_job get_video_trend : Str → Route

-- the table of routes; a parameter of a path is not empty
unfoldable pub dispatch : Method → List Str → Route
dispatch get ([] ∷ a ∷ []) =
    if is_slug a "health" then health else if is_slug a "videos" then get_videos else not_found
dispatch get ([] ∷ a ∷ b ∷ []) =
    if is_slug a "jobs" && truthy b
    then get_job_status b
    else if is_slug a "videos" && is_slug b "count"
    then get_video_count
    else if is_slug a "analytics" && is_slug b "regions"
    then get_tracked_regions
    else if is_slug a "analytics" && is_slug b "top-channels"
    then get_top_channels
    else not_found
dispatch get ([] ∷ a ∷ b ∷ c ∷ []) =
    if is_slug a "jobs" && (truthy b && is_slug c "watch") then watch_job b else not_found
dispatch get ([] ∷ a ∷ b ∷ c ∷ d ∷ []) =
    if is_slug a "analytics" && (is_slug b "videos" && (truthy c && is_slug d "trend"))
    then get_video_trend c
    else not_found
dispatch post ([] ∷ a ∷ []) = if is_slug a "jobs" then submit_job else not_found
dispatch post ([] ∷ a ∷ b ∷ []) =
    if is_slug a "jobs" && is_slug b "batch" then submit_batch else not_found
dispatch _ _ = not_found

unfoldable pub route : Method → Str → Route
unfolding path_of segments dispatch
route method url = dispatch method (segments (path_of url))

-- the origin that the middleware allows
unfoldable pub allow_origin : Str → Option Str
allow_origin origin =
    if same origin (text "http://localhost:3000")
      || same origin (text "https://yt-trending-pipeline.vercel.app")
    then some origin
    else none
