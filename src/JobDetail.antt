-- ===== src/JobDetail.antt =====
-- frontend/components/job-detail.tsx: the page of one job. Its state changes by events; after each,
-- React runs the effect of `[jobId, job?.state]` again if `job?.state` has changed. The page is for
-- one job id, and the connection is the browser's `EventSource`.
pub mod Live
pub mod Updates
pub mod Progress
pub mod View
use yt_trending_pipeline.Prelude.{
  ℕ, Option, none, some, Bool, true, false, ◌&&◌, List, [], ◌∷◌, Str, take, JsNum, ◌==◌,
  if◌then◌else◌,
}
use yt_trending_pipeline.Types.{JobStatus, JobUpdate}
use yt_trending_pipeline.Jobs.{is_terminal_state}
use yt_trending_pipeline.Api.{Settled, fulfilled, rejected}

pub record Detail : Type 0 where
  pub job : Option JobStatus
  pub loading : Bool
  pub error : Option Str
  pub live_connected : Bool
  pub updates : List JobUpdate
  pub stream_open : Bool  -- the effect's `EventSource` is open
  pub watched : JsNum  -- `job?.state` when the effect last ran

abbrev pub max_updates : ℕ
max_updates = 50

-- `job?.state`
abbrev pub job_state : Option JobStatus → JsNum
job_state none = none
job_state (some job) = job.state

-- the comparison of the effect's dependencies
abbrev pub same_num : JsNum → JsNum → Bool
same_num none none = true
same_num none (some n) = false
same_num (some m) none = false
same_num (some m) (some n) = m == n

-- the body of the effect
watch : Option JobStatus → Detail → Detail
watch none s = s
watch (some job) s =
    if is_terminal_state job.state
    then s
    else record s { live_connected = true; stream_open = true }

-- the function that the effect returned, if it opened a stream
clean_up : Detail → Detail
clean_up s = if s.stream_open then record s { stream_open = false; live_connected = false } else s

-- what React does once an event's changes are in
commit : Detail → Detail
unfolding watch clean_up
commit s =
    if same_num (job_state s.job) s.watched
    then s
    else watch s.job (record (clean_up s) { watched = job_state s.job })

abbrev pub with_update : JobUpdate → JobStatus → JobStatus
with_update update prev = record prev {
  state = update.state;
  videos_fetched = update.videos_fetched;
  videos_inserted = update.videos_inserted;
}

abbrev pub update_job : JobUpdate → Option JobStatus → Option JobStatus
update_job update none = none
update_job update (some prev) = some (with_update update prev)

-- The state before any effect, whose first run finds no job.
unfoldable pub initial : Detail
initial = record {
  job = none;
  loading = true;
  error = none;
  live_connected = false;
  updates = [];
  stream_open = false;
  watched = none;
}

-- The answer of the first call of `getJobStatus`, an event and an error of the stream, and the
-- answer of the call that a terminal update makes.
pub data Event : Type 0 where
  loaded : Settled JobStatus → Event
  updated : JobUpdate → Event
  stream_failed : Event
  refetched : Settled JobStatus → Event

-- `[update, ...prev].slice(0, 50)`
unfoldable pub push_update : JobUpdate → List JobUpdate → List JobUpdate
push_update update prev = take max_updates (update ∷ prev)

-- the handlers; a closed stream delivers nothing
handle : Event → Detail → Detail
handle (loaded (fulfilled job)) s = record s { job = some job; loading = false }
handle (loaded (rejected message)) s = record s { error = some message; loading = false }
handle (updated update) s =
    if s.stream_open
    then record s {
      updates = push_update update s.updates;
      job = update_job update s.job;
      live_connected = if is_terminal_state update.state then false else s.live_connected;
    }
    else s
handle stream_failed s = if s.stream_open then record s { live_connected = false } else s
handle (refetched (fulfilled job)) s = record s { job = some job }
handle (refetched (rejected message)) s = s

unfoldable pub step : Event → Detail → Detail
unfolding handle commit
step e s = commit (handle e s)

-- An event calls `getJobStatus` again if it is a terminal update that the stream delivers.
unfoldable pub refetches : Event → Detail → Bool
refetches (loaded r) s = false
refetches (updated update) s = s.stream_open && is_terminal_state update.state
refetches stream_failed s = false
refetches (refetched r) s = false

unfoldable pub run : List Event → Detail → Detail
run [] s = s
run (e ∷ es) s = run es (step e s)
