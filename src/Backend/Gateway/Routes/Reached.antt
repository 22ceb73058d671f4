-- ===== src/Backend/Gateway/Routes/Reached.antt =====
-- frontend/lib/api.ts and backend/api/server.go: the calls of the dashboard reach their handlers.
use yt_trending_pipeline.Prelude.{
  ◌≡◌, refl, ap, ◌∙◌, true, List, [], ◌∷◌, ◌++◌, Str, text, same, truthy, All, path_of, segments,
  IsPlain, path_of-plain, path_of-id, segments-plain, segments-slash,
}
use yt_trending_pipeline.Types.{SubmitJobRequest}
use yt_trending_pipeline.Api.{
  Query, VideosParams, ChannelsParams, get, submit_job_request, submit_batch_request,
  job_status_request, watch_url, tracked_regions_request, video_count_request, video_trend_request,
  videos_request, channels_request, Request,
}
use yt_trending_pipeline.Backend.Gateway.Routes.{
  Route, submit_job, submit_batch, get_video_count, get_videos, get_tracked_regions,
  get_top_channels, get_job_status, watch_job, get_video_trend, dispatch, route,
}

abbrev pub reached : Request → Route
reached r = route r.method r.url

jobs_path :
    (rest : Str)
    → segments (path_of (text "/jobs/" ++ rest)) ≡ [] ∷ text "jobs" ∷ segments (path_of rest)
unfolding segments path_of text
jobs_path rest = refl

trend_path :
    (rest : Str)
    → segments (path_of (text "/analytics/videos/" ++ rest))
      ≡ [] ∷ text "analytics" ∷ text "videos" ∷ segments (path_of rest)
unfolding segments path_of text
trend_path rest = refl

module _ (id : Str) (h : All IsPlain id) (t : truthy id ≡ true) where
  dispatch_status : dispatch get ([] ∷ text "jobs" ∷ id ∷ []) ≡ get_job_status id
  unfolding dispatch text same
  dispatch_status = rw t refl

  dispatch_watch : dispatch get ([] ∷ text "jobs" ∷ id ∷ text "watch" ∷ []) ≡ watch_job id
  unfolding dispatch text same
  dispatch_watch = rw t refl

  dispatch_trend :
      dispatch get ([] ∷ text "analytics" ∷ text "videos" ∷ id ∷ text "trend" ∷ [])
      ≡ get_video_trend id
  unfolding dispatch text same
  dispatch_trend = rw t refl

  last_segment : segments (path_of id) ≡ id ∷ []
  last_segment = ap segments (path_of-id id h) ∙ segments-plain id h

  watch_segments : segments (path_of (id ++ text "/watch")) ≡ id ∷ text "watch" ∷ []
  unfolding text path_of segments
  watch_segments =
      ap segments (path_of-plain id (text "/watch") h) ∙ segments-slash id (text "watch") h

  trend_segments : segments (path_of (id ++ text "/trend")) ≡ id ∷ text "trend" ∷ []
  unfolding text path_of segments
  trend_segments =
      ap segments (path_of-plain id (text "/trend") h) ∙ segments-slash id (text "trend") h

-- Each call of the dashboard is routed to its handler, with the id that it was made for, whatever
-- its body and the pairs of its query are; an id is of letters, digits, dashes and underscores,
-- and not empty.
pub requests_reached :
    (id : Str) (serialise : Query → Str) (req : SubmitJobRequest) (reqs : List SubmitJobRequest)
    (videos : VideosParams) (channels : ChannelsParams)
    → All IsPlain id
    → truthy id ≡ true
    → (reached (submit_job_request [] req) ≡ submit_job)
      × (reached (submit_batch_request [] reqs) ≡ submit_batch)
      × (reached (job_status_request [] id) ≡ get_job_status id)
      × (route get (watch_url [] id) ≡ watch_job id)
      × (reached (tracked_regions_request []) ≡ get_tracked_regions)
      × (reached (video_count_request []) ≡ get_video_count)
      × (reached (video_trend_request [] id) ≡ get_video_trend id)
      × (reached (videos_request [] serialise videos) ≡ get_videos)
      × (reached (channels_request [] serialise channels) ≡ get_top_channels)
unfolding route path_of segments dispatch text same submit_job_request submit_batch_request
    job_status_request watch_url tracked_regions_request video_count_request video_trend_request
    videos_request channels_request
requests_reached id serialise req reqs videos channels h t = (
  refl,
  refl,
  ap (dispatch get) (jobs_path id ∙ ap (λ l. [] ∷ text "jobs" ∷ l) (last_segment id h t))
      ∙ dispatch_status id h t,
  ap (dispatch get)
        (jobs_path (id ++ text "/watch") ∙ ap (λ l. [] ∷ text "jobs" ∷ l) (watch_segments id h t))
      ∙ dispatch_watch id h t,
  refl,
  refl,
  ap (dispatch get) (
        trend_path (id ++ text "/trend")
        ∙ ap (λ l. [] ∷ text "analytics" ∷ text "videos" ∷ l) (trend_segments id h t))
      ∙ dispatch_trend id h t,
  refl,
  refl,
)
