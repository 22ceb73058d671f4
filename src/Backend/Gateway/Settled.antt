-- ===== src/Backend/Gateway/Settled.antt =====
-- frontend/lib/api.ts and backend/api/server.go: what the calls of the dashboard make of the answers
-- of the gateway.
use yt_trending_pipeline.Prelude.{
  ℕ, ◌≡◌, refl, Option, none, some, Bool, ◌&&◌, leb, List, Str, text, ℤ, if◌then◌else◌,
}
use yt_trending_pipeline.Types.{
  JobStatus, JobResponse, BatchResponse, Video, TopChannel, TrendPoint,
}
use yt_trending_pipeline.Api
use yt_trending_pipeline.Api.{
  Reply, refused, malformed, answered, Settled, fulfilled, rejected, TrackedRegions,
}
use yt_trending_pipeline.Backend.{JobRequest, VideoRow}
use yt_trending_pipeline.Backend.Etl
use yt_trending_pipeline.Backend.Analytics
use yt_trending_pipeline.Backend.Gateway.{Query, videos_request, channels_request}
use yt_trending_pipeline.Backend.Gateway.Handlers.{
  Response, json, error, submitted, received, forward, BatchClient, handle_submit_job,
  handle_get_job_status, handle_get_videos, handle_get_top_channels, handle_get_video_count,
  handle_get_tracked_regions, handle_get_video_trend,
}

-- `res.ok`
abbrev ok : ℕ → Bool
ok status = leb 200 status && leb status 299

-- What `fetch` and `res.json()` make of a response that arrives, with the JSON of its body read as
-- the dashboard's type.
abbrev pub fetched : {A B : Type 0} → (A → B) → Response A → Reply B
fetched read (json status a) = if ok status then answered (read a) else refused (some none)
fetched read (error status message) =
    if ok status then malformed message else refused (some (some message))

-- the value that a service returned, or an error with this message
abbrev pub settled : {A B : Type 0} → (A → B) → Str → Option A → Settled B
settled read message none = rejected message
settled read message (some a) = fulfilled (read a)

module _ {S : Type 0} where
  submitted-settled :
      (read : Str → JobResponse) (r : Option Etl.JobResponse × S)
      → Api.submit_job (fetched read (submitted r).0)
        ≡ settled (λ resp. read resp.job_id) (text "failed to submit job") r.0
  unfolding Api.submit_job
  submitted-settled read (none, s) = refl
  submitted-settled read (some resp, s) = refl

  received-settled :
      (read : Etl.BatchResponse → BatchResponse) (client : BatchClient S)
      (r : Option Etl.BatchResponse × S)
      → Api.submit_batch (fetched read (received client r).0)
        ≡ settled read (text "failed to receive batch response") r.0
  unfolding Api.submit_batch
  received-settled read client (none, s) = refl
  received-settled read client (some resp, s) = refl

-- what the dashboard makes of a call of a service that the gateway forwards
module _ {A : Type 0} (message : Str) where
  status_settled :
      (read : A → JobStatus) (resp : Option A)
      → Api.get_job_status (fetched read (forward message resp)) ≡ settled read message resp
  unfolding Api.get_job_status
  status_settled read none = refl
  status_settled read (some a) = refl

  videos_settled :
      (read : A → Option (List Video)) (resp : Option A)
      → Api.get_videos (fetched read (forward message resp))
        ≡ settled read (text "Failed to fetch videos") resp
  unfolding Api.get_videos
  videos_settled read none = refl
  videos_settled read (some a) = refl

  channels_settled :
      (read : A → Option (List TopChannel)) (resp : Option A)
      → Api.get_top_channels (fetched read (forward message resp))
        ≡ settled read (text "Failed to fetch top channels") resp
  unfolding Api.get_top_channels
  channels_settled read none = refl
  channels_settled read (some a) = refl

  count_settled :
      (read : A → Option ℕ) (resp : Option A)
      → Api.get_video_count (fetched read (forward message resp))
        ≡ settled read (text "Failed to fetch video count") resp
  unfolding Api.get_video_count
  count_settled read none = refl
  count_settled read (some a) = refl

  regions_settled :
      (read : A → TrackedRegions) (resp : Option A)
      → Api.get_tracked_regions (fetched read (forward message resp))
        ≡ settled read (text "Failed to fetch tracked regions") resp
  unfolding Api.get_tracked_regions
  regions_settled read none = refl
  regions_settled read (some a) = refl

  trend_settled :
      (read : A → Option (List TrendPoint)) (resp : Option A)
      → Api.get_video_trend (fetched read (forward message resp))
        ≡ settled read (text "Failed to fetch video trend") resp
  unfolding Api.get_video_trend
  trend_settled read none = refl
  trend_settled read (some a) = refl

module _ {S Status : Type 0} (read_job : Str → JobResponse) (read_status : Status → JobStatus)
    (read_videos : List VideoRow → Option (List Video))
    (read_channels : List Analytics.Channel → Option (List TopChannel)) (read_count : ℤ → Option ℕ)
    (read_regions : Analytics.RegionsResponse → TrackedRegions)
    (read_trend : List Analytics.TrendPoint → Option (List TrendPoint)) where
  -- Each call of the dashboard but the batch settles as the service behind it answers: with the value that the
  -- service returns, and else with an error. The error of a submit and of the status of a job is
  -- the gateway's message; a body that the gateway cannot bind is an "invalid request", and no
  -- service is called. The error of the other calls is the dashboard's own message. The services
  -- get the id, and what is asked for in the query. The JSON of an answer is read by any functions.
  pub calls_settled :
      (submit_job : JobRequest → S → Option Etl.JobResponse × S) (req : JobRequest) (s : S)
      (get_job_status : Str → Option Status) (id : Str)
      (get_videos : Analytics.VideosRequest → Option (List VideoRow))
      (get_top_channels : Analytics.ChannelsRequest → Option (List Analytics.Channel))
      (query : Query) (count : Option ℤ) (regions : Option Analytics.RegionsResponse)
      (get_video_trend : Str → Option (List Analytics.TrendPoint))
      → (Api.submit_job (fetched read_job (handle_submit_job submit_job (some req) s).0)
          ≡ settled
              (λ resp. read_job resp.job_id)
              (text "failed to submit job")
              (submit_job req s).0)
        × (Api.submit_job (fetched read_job (handle_submit_job submit_job none s).0)
            ≡ rejected (text "invalid request"))
        × ((handle_submit_job submit_job none s).1 ≡ s)
        × (Api.get_job_status (fetched read_status (handle_get_job_status get_job_status id))
            ≡ settled read_status (text "failed to get job status") (get_job_status id))
        × (Api.get_videos (fetched read_videos (handle_get_videos get_videos query))
            ≡ settled read_videos
                (text "Failed to fetch videos")
                (get_videos (videos_request query)))
        × (Api.get_top_channels
              (fetched read_channels (handle_get_top_channels get_top_channels query))
            ≡ settled read_channels
                (text "Failed to fetch top channels")
                (get_top_channels (channels_request query)))
        × (Api.get_video_count (fetched read_count (handle_get_video_count count))
            ≡ settled read_count (text "Failed to fetch video count") count)
        × (Api.get_tracked_regions (fetched read_regions (handle_get_tracked_regions regions))
            ≡ settled read_regions (text "Failed to fetch tracked regions") regions)
        × (Api.get_video_trend (fetched read_trend (handle_get_video_trend get_video_trend id))
            ≡ settled read_trend (text "Failed to fetch video trend") (get_video_trend id))
  unfolding Api.submit_job handle_submit_job handle_get_job_status handle_get_videos
      handle_get_top_channels handle_get_video_count handle_get_tracked_regions
      handle_get_video_trend
  calls_settled submit_job req s get_job_status id get_videos get_top_channels query count regions
        get_video_trend =
      (
        submitted-settled read_job (submit_job req s),
        refl,
        refl,
        status_settled (text "failed to get job status") read_status (get_job_status id),
        videos_settled (text "failed to get videos") read_videos
            (get_videos (videos_request query)),
        channels_settled (text "failed to get top channels") read_channels
            (get_top_channels (channels_request query)),
        count_settled (text "failed to get video count") read_count count,
        regions_settled (text "failed to get tracked regions") read_regions regions,
        trend_settled (text "failed to get video trend") read_trend (get_video_trend id),
      )
