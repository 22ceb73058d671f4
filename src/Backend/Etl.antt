-- ===== src/Backend/Etl.antt =====
-- backend/etl/server.go: submitting jobs one by one and in a batch, and watching a job. The ids that
-- `uuid.New()` makes and the clock are parameters that may depend on the state.
pub mod Submit
pub mod Resubmit
pub mod Watch
pub mod Followed
pub mod Status
pub mod Stream
pub mod Heard
pub mod Streamed
pub mod BatchStream
pub mod Resent
use yt_trending_pipeline.Prelude.{
  ℕ, suc, Option, none, some, Bool, true, false, List, [], ◌∷◌, ◌++◌, Str, text, ℤ, if◌then◌else◌,
}
use yt_trending_pipeline.Backend.{
  World, JobRow, JobRequest, int32, Job, JobState, unspecified, done, failed, queued, running,
  retrying, dead,
}
use yt_trending_pipeline.Backend.Database.{
  Outcome, Lookup, row_found, no_rows, broken, insert_job, get_job_by_idempotency_key,
}

-- the three results of `processJob`: an error, a job that was there, a new job
pub data Processed : Type 0 where
  refused_request : Processed
  existing created : Str → Processed

pub record JobResponse : Type 0 where
  pub job_id : Str
  pub state : JobState
  pub message : Str
  pub created_at : ℕ

pub record BatchJobResult : Type 0 where
  pub job_id : Str
  pub state : JobState
  pub idempotency_key : Str
  pub message : Str

pub record BatchResponse : Type 0 where
  pub total_received : ℤ
  pub total_accepted : ℤ
  pub total_rejected : ℤ
  pub results : List BatchJobResult

-- the variables of the loop; the counters are `int32`, which `batch_response` makes of the numbers
pub record Tally : Type 0 where
  pub received : ℕ
  pub accepted : ℕ
  pub rejected : ℕ
  pub results : List BatchJobResult

abbrev pub no_tally : Tally
no_tally = record { received = 0; accepted = 0; rejected = 0; results = [] }

unfoldable pub batch_response : Tally → BatchResponse
batch_response b = record {
  total_received = int32 b.received;
  total_accepted = int32 b.accepted;
  total_rejected = int32 b.rejected;
  results = b.results;
}

abbrev pub batch_result : Str → Str → Str → BatchJobResult
batch_result id key message = record {
  job_id = id;
  state = queued;
  idempotency_key = key;
  message = message;
}

-- `s.jobQueue <- …`, once there is room
unfoldable pub enqueue : Str → JobRequest → World → World
enqueue id req w = record w { queue = w.queue ++ (record { id = id; req = req } ∷ []) }

module _ (answers : ℕ → Outcome) (uuid : World → Str) (now : World → ℕ) where
  -- what follows the lookup of the key
  unfoldable pub after_lookup : JobRequest → Lookup × World → Processed × World
  after_lookup req (row_found row, w) = (existing row.job_id, w)
  after_lookup req (broken, w) = (refused_request, w)
  after_lookup req (no_rows, w) =
      let (id, next) = insert_job answers (uuid w) (now w) req w in
      (elim id [ none ↦ refused_request | some new ↦ created new ], next)

  -- `processJob` of the service
  unfoldable pub process_job : JobRequest → World → Processed × World
  unfolding after_lookup
  process_job req w = after_lookup req (get_job_by_idempotency_key answers req.idempotency_key w)

  -- what follows `processJob` in `SubmitJob`; an error is none
  unfoldable pub respond : JobRequest → Processed × World → Option JobResponse × World
  unfolding enqueue
  respond req (refused_request, w) = (none, w)
  respond req (existing id, w) = (
    some (record {
      job_id = id;
      state = queued;
      message = text "Job already exists with the same idempotency key.";
      created_at = now w;
    }),
    w,
  )
  respond req (created id, w) = (
    some (record {
      job_id = id;
      state = queued;
      message = text "Job queued successfully.";
      created_at = now w;
    }),
    enqueue id req w,
  )

  unfoldable pub submit_job : JobRequest → World → Option JobResponse × World
  unfolding process_job respond
  submit_job req w = respond req (process_job req w)

  -- one turn of the loop of `SubmitBatch`
  unfoldable pub take_request : JobRequest → Tally → Processed × World → Tally × World
  unfolding enqueue
  take_request req b (refused_request, w) =
      (record b { received = suc b.received; rejected = suc b.rejected }, w)
  take_request req b (existing id, w) = (
    record b {
      received = suc b.received;
      rejected = suc b.rejected;
      results =
          b.results
          ++ (batch_result id req.idempotency_key
                (text "Job already exists with the same idempotency key.")
              ∷ []);
    },
    w,
  )
  take_request req b (created id, w) = (
    record b {
      received = suc b.received;
      accepted = suc b.accepted;
      results =
          b.results
          ++ (batch_result id req.idempotency_key (text "Job processed successfully.") ∷ []);
    },
    enqueue id req w,
  )

  -- the loop, up to the end of the stream
  unfoldable pub batch_loop : List JobRequest → Tally × World → Tally × World
  unfolding take_request process_job
  batch_loop [] (b, w) = (b, w)
  batch_loop (req ∷ reqs) (b, w) = batch_loop reqs (take_request req b (process_job req w))

  -- `SubmitBatch` on a stream that ends without an error
  unfoldable pub submit_batch : List JobRequest → World → BatchResponse × World
  unfolding batch_loop batch_response
  submit_batch reqs w = let (b, after) = batch_loop reqs (no_tally, w) in (batch_response b, after)

abbrev pub is_terminal : JobState → Bool
is_terminal done = true
is_terminal failed = true
is_terminal dead = true
is_terminal _ = false

abbrev pub same_state : JobState → JobState → Bool
same_state unspecified unspecified = true
same_state done done = true
same_state failed failed = true
same_state queued queued = true
same_state running running = true
same_state retrying retrying = true
same_state dead dead = true
same_state _ _ = false

-- The loop of `WatchJob` on the states that its polls read, while no call fails: the states that it
-- sends, and whether it has returned. `last` is `lastState`.
unfoldable pub watch_loop : JobState → List JobState → List JobState × Bool
watch_loop last [] = ([], false)
watch_loop last (state ∷ polls) =
    let sent = if same_state state last then [] else state ∷ [] in
    let (rest, ended) = watch_loop (if same_state state last then last else state) polls in
    if is_terminal state then (sent, true) else (sent ++ rest, ended)

-- `var lastState pb.JobState` is the zero of the enumeration.
unfoldable pub watch_job : List JobState → List JobState × Bool
unfolding watch_loop
watch_job polls = watch_loop unspecified polls
