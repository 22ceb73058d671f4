-- ===== src/Examples/Service.antt =====
-- The theorems about the job service, the gateway and the system, at concrete inputs.
use yt_trending_pipeline.Prelude.{
  All, take, Str, ◌≡◌, refl, none, some, true, List, [], ◌∷◌, text, pos, arith, decimal, JsNum,
  truthy,
}
use yt_trending_pipeline.VideosTable
use yt_trending_pipeline.VideosTable.{Table, videos_params}
use yt_trending_pipeline.Api
use yt_trending_pipeline.Backend.{JobRequest, unspecified, queued, running, done}
use yt_trending_pipeline.Backend.Database.{no_rows}
use yt_trending_pipeline.Backend.Etl.{submit_batch, watch_job}
use yt_trending_pipeline.Backend.Etl.Submit.{IsSummary, submit_batch-IsSummary}
use yt_trending_pipeline.Backend.Etl.Watch.{final}
use yt_trending_pipeline.Backend.Etl.Followed.{IsClosed, events, watch_job-IsClosed}
use yt_trending_pipeline.Types.{JobStatus}
use yt_trending_pipeline.Api.{
  fulfilled, Query, ChannelsParams, get, submit_job_request, submit_batch_request,
  job_status_request, watch_url, tracked_regions_request, video_count_request, video_trend_request,
  channels_request,
}
use yt_trending_pipeline.Backend.Gateway.Routes
use yt_trending_pipeline.Backend.Gateway.Routes.Reached.{reached, requests_reached}
use yt_trending_pipeline.Types.{SubmitJobRequest}
use yt_trending_pipeline.Jobs.{is_terminal_state}
use yt_trending_pipeline.JobDetail
use yt_trending_pipeline.JobDetail.Live.{run-IsConsistent}
use yt_trending_pipeline.Backend.{JobState}
use yt_trending_pipeline.Backend.System
use yt_trending_pipeline.Backend.System.{Event, looked_up, submitted, worked, run}
use yt_trending_pipeline.Backend.Worker.Ended.{IsEnded}
use yt_trending_pipeline.Backend.System.Drained.{turns, run_drained}
use yt_trending_pipeline.Backend.System.Sound.{IsSound, run-IsSound}
use yt_trending_pipeline.Backend.Gateway.{videos_request}
use yt_trending_pipeline.Backend.Gateway.Requests.{asked, videos_request-videos_query}
use yt_trending_pipeline.Examples.Ids.{next_id}
use yt_trending_pipeline.Examples.Worlds.{
  always, flaky, clock, request, an_id, one_job, second_works,
}

abbrev a_batch : List JobRequest
a_batch = request (text "k1") ∷ request (text "k2") ∷ request (text "k2") ∷ []

submit_batch_example :
    let r = submit_batch flaky next_id clock a_batch one_job in IsSummary a_batch one_job r.0 r.1
submit_batch_example = submit_batch-IsSummary flaky next_id clock a_batch one_job

abbrev some_events : List Event
some_events =
    looked_up (request (text "k1"))
    ∷ looked_up (request (text "k1"))
    ∷ submitted (request (text "k1")) no_rows
    ∷ submitted (request (text "k1")) no_rows
    ∷ worked second_works
    ∷ []

run-IsSound_example : IsSound (run flaky next_id clock some_events System.initial)
run-IsSound_example = run-IsSound flaky next_id clock some_events

-- two jobs wait; then a third one comes between the turns of two workers
abbrev waiting : List Event
waiting = submitted (request (text "k1")) no_rows ∷ submitted (request (text "k2")) no_rows ∷ []

abbrev working : List Event
working = worked second_works ∷ submitted (request (text "k3")) no_rows ∷ worked (λ n. none) ∷ []

run_drained_example :
    let s = run always next_id clock waiting System.initial in
    All
      (λ job. IsEnded job.id (run always next_id clock working s).world)
      (take (turns working) s.world.queue)
run_drained_example = run_drained always next_id clock (λ n. refl) waiting working

abbrev music : Table
music = record VideosTable.initial { category_id = decimal 10 }

us_chosen : truthy music.region ≡ true
unfolding VideosTable.initial text
us_chosen = refl

videos_request_example :
    videos_request (Api.videos_query (videos_params music)) ≡ asked (text "US") (some 10)
unfolding VideosTable.initial
videos_request_example = videos_request-videos_query music (some 10) us_chosen refl (omega arith)

abbrev shown : JobStatus
shown = record {
  job_id = an_id;
  state = some 3;
  region = text "US";
  category_id = some 10;
  attempt = none;
  max_attempts = some 3;
  videos_fetched = none;
  videos_inserted = none;
  error_message = none;
  next_retry_at = none;
  created_at = none;
  started_at = none;
  completed_at = none;
  metadata = none;
}

abbrev page_events : List JobDetail.Event
page_events = JobDetail.loaded (fulfilled shown) ∷ []

abbrev polled : List JobState
polled = queued ∷ running ∷ running ∷ done ∷ []

abbrev no_counts : JobState → JsNum × JsNum
no_counts state = (none, none)

page_shows :
    let s = JobDetail.run page_events JobDetail.initial in
    (s.job ≡ some shown) × (s.stream_open ≡ true)
unfolding JobDetail.run JobDetail.step JobDetail.initial is_terminal_state
page_shows = (refl, refl)

poll_ends : (watch_job polled).1 ≡ true
unfolding watch_job
poll_ends = refl

watch_job-IsClosed_example :
    let sent = (watch_job polled).0 in
    IsClosed an_id no_counts
      (final unspecified sent)
      (JobDetail.run (events an_id no_counts sent) (JobDetail.run page_events JobDetail.initial))
watch_job-IsClosed_example =
    watch_job-IsClosed an_id no_counts polled (JobDetail.run page_events JobDetail.initial) shown
      (refl, (refl, (refl, (refl, tt)))) (run-IsConsistent page_events) page_shows.0 page_shows.1
      poll_ends

abbrev some_channels : ChannelsParams
some_channels = record { region = none; limit = some 20; sort_by = none }

abbrev no_query : Query → Str
no_query pairs = text "region=US"

abbrev a_submit : SubmitJobRequest
a_submit = record {
  region = text "US";
  category_id = some (pos 10);
  max_results = some (pos 50);
  idempotency_key = text "k1";
}

requests_reached_example :
    (reached (submit_job_request [] a_submit) ≡ Routes.submit_job)
    × (reached (submit_batch_request [] (a_submit ∷ [])) ≡ Routes.submit_batch)
    × (reached (job_status_request [] an_id) ≡ Routes.get_job_status an_id)
    × (Routes.route get (watch_url [] an_id) ≡ Routes.watch_job an_id)
    × (reached (tracked_regions_request []) ≡ Routes.get_tracked_regions)
    × (reached (video_count_request []) ≡ Routes.get_video_count)
    × (reached (video_trend_request [] an_id) ≡ Routes.get_video_trend an_id)
    × (reached (Api.videos_request [] no_query (videos_params VideosTable.initial))
        ≡ Routes.get_videos)
    × (reached (channels_request [] no_query some_channels) ≡ Routes.get_top_channels)
unfolding text
requests_reached_example =
    requests_reached an_id no_query a_submit (a_submit ∷ []) (videos_params VideosTable.initial)
      some_channels (refl, (refl, tt)) refl
