-- ===== src/Backend/Gateway/Handlers.antt =====
-- backend/api/server.go: the handlers. What gin binds of a body, and what the calls of the two
-- services return, are arguments; a call that fails is none, and `S` is what the calls change.
use yt_trending_pipeline.Prelude.{
  ℕ, Option, none, some, Bool, List, [], ◌∷◌, Str, text, ℤ, if◌then◌else◌,
}
use yt_trending_pipeline.Backend.{JobRequest, VideoRow}
use yt_trending_pipeline.Backend.Etl.{JobResponse, BatchResponse}
use yt_trending_pipeline.Backend.Analytics.{
  VideosRequest, ChannelsRequest, Channel, RegionsResponse, TrendPoint,
}
use yt_trending_pipeline.Backend.Gateway.{Query, videos_request, channels_request}

-- `c.JSON(status, …)`: a body, or an object with the one field `error`
pub data Response (A : Type 0) : Type 0 where
  json : ℕ → A → Response A
  error : ℕ → Str → Response A

-- `if err != nil` after the call of a service
abbrev pub forward : {A : Type 0} → Str → Option A → Response A
forward message none = error 500 message
forward message (some resp) = json 200 resp

abbrev invalid_request : {A : Type 0} → Response A
invalid_request = error 400 (text "invalid request")

-- the client of the stream of `SubmitBatch`; an error is false, or none
pub record BatchClient (S : Type 0) : Type 0 where
  pub open_stream : S → Bool × S
  pub send : JobRequest → S → Bool × S
  pub close_and_recv : S → Option BatchResponse × S

module _ {S : Type 0} where
  -- the answer is the one field `job_id`
  abbrev pub submitted : Option JobResponse × S → Response Str × S
  submitted (none, s) = (error 500 (text "failed to submit job"), s)
  submitted (some resp, s) = (json 200 resp.job_id, s)

  unfoldable pub handle_submit_job :
      (JobRequest → S → Option JobResponse × S) → Option JobRequest → S → Response Str × S
  handle_submit_job submit_job none s = (invalid_request, s)
  handle_submit_job submit_job (some req) s = submitted (submit_job req s)

  module _ (client : BatchClient S) where
    abbrev pub received : Option BatchResponse × S → Response BatchResponse × S
    received (none, s) = (error 500 (text "failed to receive batch response"), s)
    received (some resp, s) = (json 200 resp, s)

    -- the loop over the requests, and what follows it
    unfoldable pub send_all : List JobRequest → S → Response BatchResponse × S
    send_all [] s = received (client.close_and_recv s)
    send_all (req ∷ reqs) s =
        let (sent, next) = client.send req s in
        let rest = send_all reqs next in
        if sent then rest else (error 500 (text "failed to send job to stream"), next)

    unfoldable pub handle_submit_batch : Option (List JobRequest) → S → Response BatchResponse × S
    unfolding send_all
    handle_submit_batch none s = (invalid_request, s)
    handle_submit_batch (some reqs) s =
        let (opened, next) = client.open_stream s in
        let rest = send_all reqs next in
        if opened then rest else (error 500 (text "failed to submit batch job"), next)

unfoldable pub handle_get_job_status : {A : Type 0} → (Str → Option A) → Str → Response A
handle_get_job_status get_job_status id =
    forward (text "failed to get job status") (get_job_status id)

-- the events of a stream that is open: an event "update" for each update, up to the first error
abbrev updates_of : {A : Type 0} → List (Option A) → List A
updates_of [] = []
updates_of (none ∷ recvs) = []
updates_of (some update ∷ recvs) = update ∷ updates_of recvs

-- `handleWatchJob`, on what the calls of `Recv` return
unfoldable pub handle_watch_job :
    {A : Type 0} → (Str → Option (List (Option A))) → Str → Response (List A)
handle_watch_job watch_job id = elim (watch_job id) [
  | none ↦ error 500 (text "failed to watch job")
  | some recvs ↦ json 200 (updates_of recvs)
]

unfoldable pub handle_get_videos :
    (VideosRequest → Option (List VideoRow)) → Query → Response (List VideoRow)
unfolding videos_request
handle_get_videos get_videos query =
    forward (text "failed to get videos") (get_videos (videos_request query))

unfoldable pub handle_get_top_channels :
    (ChannelsRequest → Option (List Channel)) → Query → Response (List Channel)
unfolding channels_request
handle_get_top_channels get_top_channels query =
    forward (text "failed to get top channels") (get_top_channels (channels_request query))

unfoldable pub handle_get_video_count : Option ℤ → Response ℤ
handle_get_video_count = forward (text "failed to get video count")

unfoldable pub handle_get_tracked_regions : Option RegionsResponse → Response RegionsResponse
handle_get_tracked_regions = forward (text "failed to get tracked regions")

unfoldable pub handle_get_video_trend :
    (Str → Option (List TrendPoint)) → Str → Response (List TrendPoint)
handle_get_video_trend get_video_trend id =
    forward (text "failed to get video trend") (get_video_trend id)
