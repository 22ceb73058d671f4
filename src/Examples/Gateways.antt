-- ===== src/Examples/Gateways.antt =====
-- The theorems about the answers of the gateway, at concrete inputs.
use yt_trending_pipeline.Backend.Database.Totals.{distinct_regions}
use yt_trending_pipeline.Backend.Gateway.Rendered.{totalled, analytics_dashboard-totalled}
use yt_trending_pipeline.SummaryCard.{shown}
use yt_trending_pipeline.Dashboard
use yt_trending_pipeline.Dashboard.View.{Cards, crashed, cards, analytics_dashboard}
use yt_trending_pipeline.Examples.Params.{nearest_tenths}
use yt_trending_pipeline.Backend.Gateway.Counted.{figures, card, card_lem}
use yt_trending_pipeline.Prelude.{
  or_else, subst, ap, decimal, zero, suc, length, false, ℕ, ◌≡◌, refl, Option, none, some, List, [],
  ◌∷◌, Str, text, ℤ, pos, negsuc, find, All, IsPlain,
}
use yt_trending_pipeline.Types.{
  SubmitJobRequest, JobStatus, JobResponse, Video, TopChannel, TrendPoint,
}
use yt_trending_pipeline.Api
use yt_trending_pipeline.Api.{TrackedRegions, rejected}
use yt_trending_pipeline.JobForm
use yt_trending_pipeline.JobForm.{submitted, begin_submit, end_submit}
use yt_trending_pipeline.Backend.{World, VideoRow, JobRequest}
use yt_trending_pipeline.Backend.Database.{has_key}
use yt_trending_pipeline.Backend.Etl
use yt_trending_pipeline.Storage.{browser}
use yt_trending_pipeline.Backend.Analytics
use yt_trending_pipeline.Backend.Gateway.Handlers.{
  handle_submit_job, handle_get_job_status, handle_get_videos, handle_get_top_channels,
  handle_get_video_count, handle_get_tracked_regions, handle_get_video_trend,
}
use yt_trending_pipeline.Backend.Gateway.Settled.{fetched, settled, calls_settled}
use yt_trending_pipeline.Backend.Gateway.Submitted.{
  looked, IsBound, IsSubmitted, submit_job-IsSubmitted,
}
use yt_trending_pipeline.Examples.Params.{digest}
use yt_trending_pipeline.Examples.Ids.{next_id, next_id-new}
use yt_trending_pipeline.Examples.Worlds.{always, clock, one_job, request, an_id, a_video}
use yt_trending_pipeline.Examples.JobPages.{fresh, job}

abbrev id_read : Str → JobResponse
id_read id = record { job_id = id; state = none; message = none; created_at = none }

abbrev videos_read : List VideoRow → Option (List Video)
videos_read videos = none

abbrev channels_read : List Analytics.Channel → Option (List TopChannel)
channels_read channels = none

abbrev count_read : ℤ → Option ℕ
count_read (pos n) = some n
count_read (negsuc n) = none

abbrev trend_read : List Analytics.TrendPoint → Option (List TrendPoint)
trend_read points = none

abbrev regions_read : Analytics.RegionsResponse → TrackedRegions
regions_read r = record { count = none; regions = some r.regions }

abbrev status_read : Str → JobStatus
status_read id = job id none none none

-- services of which the second and third fail
calls_settled_example :
    (Api.submit_job (
        fetched id_read
          (handle_submit_job
            (Etl.submit_job always (λ w. an_id) clock)
            (some (request (text "k1")))
            one_job).0)
      ≡ settled
          (λ resp. id_read resp.job_id)
          (text "failed to submit job")
          (Etl.submit_job always (λ w. an_id) clock (request (text "k1")) one_job).0)
    × (Api.submit_job (
          fetched id_read
            (handle_submit_job (Etl.submit_job always (λ w. an_id) clock) none one_job).0)
        ≡ rejected (text "invalid request"))
    × ((handle_submit_job (Etl.submit_job always (λ w. an_id) clock) none one_job).1 ≡ one_job)
    × (Api.get_job_status (fetched status_read (handle_get_job_status (λ id. none) an_id))
        ≡ settled status_read (text "failed to get job status") none)
    × (Api.get_videos (fetched videos_read (handle_get_videos (λ req. some (a_video ∷ [])) []))
        ≡ settled videos_read (text "Failed to fetch videos") (some (a_video ∷ [])))
    × (Api.get_top_channels (fetched channels_read (handle_get_top_channels (λ req. none) []))
        ≡ settled channels_read (text "Failed to fetch top channels") none)
    × (Api.get_video_count (fetched count_read (handle_get_video_count (some (pos 3))))
        ≡ settled count_read (text "Failed to fetch video count") (some (pos 3)))
    × (Api.get_tracked_regions (fetched regions_read (handle_get_tracked_regions none))
        ≡ settled regions_read (text "Failed to fetch tracked regions") none)
    × (Api.get_video_trend (fetched trend_read (handle_get_video_trend (λ id. some []) an_id))
        ≡ settled trend_read (text "Failed to fetch video trend") (some []))
calls_settled_example =
    calls_settled id_read status_read videos_read channels_read count_read regions_read trend_read
      (Etl.submit_job always (λ w. an_id) clock) (request (text "k1")) one_job (λ id. none) an_id
      (λ req. some (a_video ∷ [])) (λ req. none) [] (some (pos 3)) none (λ id. some [])

-- the fields as they are sent, with a zero for a null
abbrev bound : SubmitJobRequest → Option JobRequest
bound sent = some (record {
  region = sent.region;
  category_id = or_else sent.category_id (pos 0);
  max_results = or_else sent.max_results (pos 0);
  idempotency_key = sent.idempotency_key;
  metadata = none;
})

bound-IsBound :
    (sent : SubmitJobRequest) (req : JobRequest) → bound sent ≡ some req → IsBound sent req
bound-IsBound sent req e =
    let read : JobRequest → Option JobRequest → JobRequest =
      λ other o. elim o [ none ↦ other | some r ↦ r ] in
    subst (IsBound sent) (ap (read req) e) (record {
      region = refl;
      category_id = refl;
      max_results = refl;
      idempotency_key = refl;
      metadata = refl;
    })

abbrev sent : SubmitJobRequest
sent = submitted digest 7200000 JobForm.initial

abbrev asked : JobRequest
asked = record {
  region = sent.region;
  category_id = or_else sent.category_id (pos 0);
  max_results = or_else sent.max_results (pos 0);
  idempotency_key = sent.idempotency_key;
  metadata = none;
}

abbrev no_jobs : World
no_jobs = record one_job { jobs = [] }

key_is_new : find (has_key asked.idempotency_key) [] ≡ none
key_is_new = refl

id-IsPlain : All IsPlain (next_id (looked no_jobs))
unfolding next_id text
id-IsPlain = (refl, tt)

submit_job-IsSubmitted_example :
    let (response, after) =
      handle_submit_job (Etl.submit_job always next_id clock) (bound sent) no_jobs in
    IsSubmitted sent (next_id (looked no_jobs)) (clock (looked no_jobs)) asked no_jobs after fresh (
      end_submit JobForm.initial
        (Api.submit_job (fetched id_read response))
        (begin_submit JobForm.initial)
        (browser fresh))
unfolding next_id
submit_job-IsSubmitted_example =
    submit_job-IsSubmitted always next_id clock (λ n. refl) next_id-new bound bound-IsBound id_read
      (λ id. refl) digest 7200000 JobForm.initial fresh asked no_jobs refl key_is_new id-IsPlain
      refl

abbrev nonzero_read : ℤ → Option ℕ
nonzero_read (pos zero) = none
nonzero_read (pos (suc n)) = some (suc n)
nonzero_read (negsuc n) = none

abbrev tracked_read : Analytics.RegionsResponse → TrackedRegions
tracked_read r = record { count = nonzero_read r.count; regions = some r.regions }

card_example :
    (card decimal nonzero_read tracked_read false (a_video ∷ a_video ∷ [])
      ≡ figures
          (decimal (length (a_video ∷ a_video ∷ [])))
          (decimal (length (distinct_regions (a_video ∷ a_video ∷ [])))))
    × (card decimal nonzero_read tracked_read false [] ≡ figures (text "—") (text "—"))
card_example =
    card_lem decimal nonzero_read tracked_read refl (λ n. refl) (λ r. refl) false a_video
      (a_video ∷ [])

-- an empty list is left out
abbrev listed : List Str → Option (List Str)
listed [] = none
listed (c ∷ codes) = some (c ∷ codes)

abbrev lists_read : Analytics.RegionsResponse → TrackedRegions
lists_read r = record { count = nonzero_read r.count; regions = listed r.regions }

analytics_dashboard-totalled_example :
    (analytics_dashboard decimal nearest_tenths
        (totalled decimal nearest_tenths nonzero_read lists_read [] Dashboard.initial)
      ≡ crashed)
    × ((c : Cards) × (analytics_dashboard decimal nearest_tenths (
            totalled decimal nearest_tenths nonzero_read lists_read
              (a_video ∷ [])
              Dashboard.initial)
          ≡ cards c)
        × (c.videos_ingested ≡ shown (decimal (length (a_video ∷ []))))
        × (c.regions_tracked ≡ shown (decimal (length (distinct_regions (a_video ∷ []))))))
analytics_dashboard-totalled_example =
    analytics_dashboard-totalled decimal nearest_tenths nonzero_read lists_read (λ n. refl)
      (λ n. refl) (λ n c codes. refl) Dashboard.initial a_video []
