-- ===== src/Examples/Streams.antt =====
-- The theorem about the stream of a job, at a concrete run of its loop.
use yt_trending_pipeline.Prelude.{List, [], ◌∷◌, Str, text, true}
use yt_trending_pipeline.Backend.{unspecified}
use yt_trending_pipeline.Backend.Etl.Status.{JobStatus, scan_job_status}
use yt_trending_pipeline.Backend.Etl.Stream.{Turn, answered, lookup_failed, watch_stream}
use yt_trending_pipeline.Backend.Etl.Heard.{IsHeard}
use yt_trending_pipeline.Backend.Etl.Streamed.{IsStream, watch_stream-IsStream}
use yt_trending_pipeline.Examples.Worlds.{a_row}

abbrev status_in : Str → JobStatus
status_in state = scan_job_status (record a_row { state = state })

-- the third lookup fails
abbrev polls : List Turn
polls =
    answered (status_in (text "queued")) true 1
    ∷ answered (status_in (text "running")) true 2
    ∷ lookup_failed
    ∷ answered (status_in (text "done")) true 4
    ∷ []

watch_stream_example :
    let (updates, end) = watch_stream unspecified polls in
    IsStream unspecified polls updates end × IsHeard unspecified polls updates end
watch_stream_example = watch_stream-IsStream polls
