-- ===== src/Examples/JobPages.antt =====
-- The theorems about the jobs' side of the dashboard, at concrete inputs.
use yt_trending_pipeline.Prelude.{
  ◌-◌, ◌≤◌, ◌≡◌, refl, none, some, true, false, List, [], ◌∷◌, Str, text, same, take, keep, length,
  All, JsNum, decimal, pos, arith, if◌then◌else◌,
}
use yt_trending_pipeline.Types.{ProtoTimestamp, JobStatus, JobResponse, JobUpdate}
use yt_trending_pipeline.Jobs.{is_terminal_state}
use yt_trending_pipeline.Jobs.Time.{
  proto_timestamp_to_date, format_timestamp, format_relative_time, age_text,
  format_relative_time_lem,
}
use yt_trending_pipeline.Jobs.Key.{
  IsHexDigit, generate_idempotency_key, generate_idempotency_key-IsHexDigit,
}
use yt_trending_pipeline.Api.{Reply, answered, unreachable, fulfilled, rejected, get_job_status}
use yt_trending_pipeline.Storage.{Storage, browser, max_stored, store_job_id, get_stored_job_ids}
use yt_trending_pipeline.Storage.Recent.{IsDistinct, recency, store_all, store_job_id-recency}
use yt_trending_pipeline.JobForm.{Form, begin_submit, end_submit}
use yt_trending_pipeline.JobForm.Submit.{end_submit_lem, IsStored, IsUnchanged}
use yt_trending_pipeline.JobsList
use yt_trending_pipeline.JobsList.{Jobs, interval, fetch_jobs}
use yt_trending_pipeline.JobsList.Refresh.{answers, ids_of, IsHonest, fetch_jobs_lem}
use yt_trending_pipeline.JobDetail
use yt_trending_pipeline.JobDetail.{
  Detail, Event, loaded, updated, step, run, refetches, with_update, push_update,
}
use yt_trending_pipeline.JobDetail.Live.{IsConsistent, run-IsConsistent}
use yt_trending_pipeline.JobDetail.Updates.{step_terminal}
use yt_trending_pipeline.JobDetail.Progress.{bars, bars_lem}
use yt_trending_pipeline.Examples.Params.{
  digest, digest-bytes, whole_percent, whole_percent-IsPercentage, no_date,
}

abbrev pub job : Str → JsNum → JsNum → JsNum → JobStatus
job id state f i = record {
  job_id = id;
  state = state;
  region = text "US";
  category_id = some 28;
  attempt = none;
  max_attempts = some 3;
  videos_fetched = f;
  videos_inserted = i;
  error_message = none;
  next_retry_at = none;
  created_at = none;
  started_at = none;
  completed_at = none;
  metadata = none;
}

abbrev stamp : ProtoTimestamp
stamp = record { seconds = some 1000; nanos = some 500000000 }

stamp_date : proto_timestamp_to_date (some stamp) ≡ some (record { time = some 1000500 })
unfolding proto_timestamp_to_date
stamp_date = refl

format_relative_time_example :
    format_relative_time no_date 1200500 (some stamp)
    ≡ age_text (1200500 - 1000500) (format_timestamp no_date (some stamp))
format_relative_time_example =
    format_relative_time_lem no_date 1200500 1000500 stamp stamp_date (omega arith)

three_minutes : format_relative_time no_date 1200500 (some stamp) ≡ text "3m ago"
unfolding format_relative_time text decimal
three_minutes = refl

key_digits_example :
    (length (generate_idempotency_key digest 7200000 (text "US") (some (pos 28))) ≡ 32)
    × All IsHexDigit (generate_idempotency_key digest 7200000 (text "US") (some (pos 28)))
key_digits_example =
    generate_idempotency_key-IsHexDigit digest digest-bytes 7200000 (text "US") (some (pos 28))

abbrev pub accepted : JobResponse
accepted = record { job_id = text "j1"; state = some 3; message = none; created_at = none }

abbrev history : List Str
history = text "b" ∷ text "a" ∷ text "b" ∷ []

store_job_id-recency_example :
    (get_stored_job_ids (store_all history) ≡ take max_stored (recency history))
    × (length (get_stored_job_ids (store_all history)) ≤ max_stored)
    × IsDistinct (get_stored_job_ids (store_all history))
store_job_id-recency_example = store_job_id-recency history

two_stored : get_stored_job_ids (store_all history) ≡ text "b" ∷ text "a" ∷ []
unfolding get_stored_job_ids store_job_id same text
two_stored = refl

abbrev pub fresh : Storage
fresh = record { job_ids = none; job_meta = none }

abbrev more_results : Form
more_results = record {
  region = text "US";
  category_id = text "28";
  max_results = text "100";
  loading = false;
  error = none;
}

end_submit_example :
    IsStored more_results
      (begin_submit more_results)
      accepted
      fresh
      (end_submit more_results (fulfilled accepted) (begin_submit more_results) (browser fresh))
    × IsUnchanged more_results (text "down") (browser fresh) (
        end_submit more_results
          (rejected (text "down"))
          (begin_submit more_results)
          (browser fresh))
unfolding text
end_submit_example = end_submit_lem more_results more_results accepted (text "down") fresh refl

-- a gateway that knows every job but "a"
abbrev gateway : Str → Reply JobStatus
gateway id =
    if same id (text "a") then unreachable (text "down") else answered (job id (some 4) none none)

gateway-IsHonest : IsHonest gateway
unfolding get_job_status
gateway-IsHonest id j h = ground arith

fetch_jobs_example :
    let after = fetch_jobs 5 gateway interval (store_all history) JobsList.initial in
    (ids_of after.jobs ≡ keep (answers gateway) (get_stored_job_ids (store_all history)))
    × (after.loading ≡ false)
    × (after.refreshing ≡ false)
    × IsDistinct (ids_of after.jobs)
fetch_jobs_example =
    fetch_jobs_lem 5 gateway interval JobsList.initial (store_all history) gateway-IsHonest
      store_job_id-recency_example.2

abbrev update : JobUpdate
update = record {
  job_id = text "j1";
  state = some 1;
  videos_fetched = some 50;
  videos_inserted = some 50;
  message = none;
  occurred_at = none;
}

abbrev started : List Event
started = loaded (fulfilled (job (text "j1") (some 4) none none)) ∷ []

run-IsConsistent_example : IsConsistent (run (updated update ∷ started) JobDetail.initial)
run-IsConsistent_example = run-IsConsistent (updated update ∷ started)

step_terminal_example :
    let after = step (updated update) (run started JobDetail.initial) in
    (after.stream_open ≡ false)
    × (after.live_connected ≡ false)
    × (after.job ≡ some (with_update update (job (text "j1") (some 4) none none)))
    × (after.updates ≡ push_update update (run started JobDetail.initial).updates)
    × (refetches (updated update) (run started JobDetail.initial) ≡ true)
unfolding run step JobDetail.initial is_terminal_state
step_terminal_example =
    step_terminal (run started JobDetail.initial) (job (text "j1") (some 4) none none) update
      (run-IsConsistent started) refl refl refl

bars_example :
    let j = job (text "j1") (some 1) (some 50) (some 20) in
    ((bars whole_percent j).fetched ≡ some 100)
    × ((bars whole_percent j).inserted ≡ some (whole_percent 20 50))
    × (whole_percent 20 50 ≤ 100)
bars_example =
    bars_lem whole_percent (job (text "j1") (some 1) (some 50) (some 20)) whole_percent-IsPercentage
      (omega arith) (omega arith)
