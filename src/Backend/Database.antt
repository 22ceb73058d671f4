-- ===== src/Backend/Database.antt =====
-- backend/db/db.go: the statements on the tables `jobs` and `videos`. What the database answers to
-- a call is a parameter, since the call goes over the network: it is carried out and confirmed, or
-- carried out and the confirmation is lost, or refused. The statements themselves are functions on
-- the tables, with the keys of backend/db/migrations.
pub mod Rows
pub mod Query
pub mod Select
pub mod Latest
pub mod Newest
pub mod Fitting
pub mod Selected
pub mod Channels
pub mod Ranked
pub mod Ranking
pub mod Totals
use yt_trending_pipeline.Prelude.{
  ℕ, suc, Option, none, some, Bool, true, false, ◌&&◌, ◌||◌, List, [], ◌∷◌, ◌++◌, map, Str, text,
  same, find, is_some, or_else, ℤ, pos, if◌then◌else◌,
}
use yt_trending_pipeline.Backend.{
  World, JobRow, VideoRow, JobRequest, JobState, unspecified, done, queued, running, retrying, dead,
}

pub data Outcome : Type 0 where
  confirmed lost refused : Outcome

abbrev pub carried_out : Outcome → Bool
carried_out confirmed = true
carried_out lost = true
carried_out refused = false

abbrev pub is_confirmed : Outcome → Bool
is_confirmed confirmed = true
is_confirmed lost = false
is_confirmed refused = false

abbrev pub has_id : Str → JobRow → Bool
has_id id row = same row.job_id id

abbrev pub has_key : Str → JobRow → Bool
has_key key row = same row.idempotency_key key

-- `UPDATE jobs SET … WHERE job_id = id`
unfoldable pub update_where : Str → (JobRow → JobRow) → List JobRow → List JobRow
update_where id set [] = []
update_where id set (row ∷ rows) =
    (if has_id id row then set row else row) ∷ update_where id set rows

unfoldable pub set_started : ℕ → JobRow → JobRow
set_started started_at row = record row { state = text "running"; started_at = some started_at }

unfoldable pub set_completed : ℕ → ℤ → ℤ → JobRow → JobRow
set_completed completed_at fetched inserted row = record row {
  state = text "done";
  completed_at = some completed_at;
  videos_fetched = fetched;
  videos_inserted = inserted;
  next_retry_at = none;
}

unfoldable pub set_retrying : Str → ℕ → ℕ → JobRow → JobRow
set_retrying message attempt next_retry_at row = record row {
  state = text "retrying";
  error_message = some message;
  attempt = attempt;
  next_retry_at = some next_retry_at;
}

unfoldable pub set_dead : Str → JobRow → JobRow
set_dead message row = record row {
  state = text "dead";
  error_message = some message;
  next_retry_at = none;
}

-- the primary key `(video_id, region, job_id)`
abbrev pub same_video : VideoRow → VideoRow → Bool
same_video v w = same v.video_id w.video_id && (same v.region w.region && same v.job_id w.job_id)

-- A new video has a new key and refers to a job.
unfoldable pub accepts_video : VideoRow → World → Bool
accepts_video v w =
    (if is_some (find (same_video v) w.videos) then false else true)
    && is_some (find (has_id v.job_id) w.jobs)

-- the row that `InsertJob` writes, with the defaults of the table
unfoldable pub new_row : Str → ℕ → JobRequest → JobRow
new_row id now req = record {
  job_id = id;
  idempotency_key = req.idempotency_key;
  state = text "queued";
  region = req.region;
  category_id = req.category_id;
  max_results = req.max_results;
  attempt = 0;
  max_attempts = 3;
  videos_fetched = pos 0;
  videos_inserted = pos 0;
  error_message = none;
  next_retry_at = none;
  created_at = now;
  started_at = none;
  completed_at = none;
  metadata = or_else req.metadata [];
}

-- the primary key `job_id` and the unique `idempotency_key`
unfoldable pub accepts_job : Str → Str → List JobRow → Bool
accepts_job id key rows =
    if is_some (find (has_id id) rows) || is_some (find (has_key key) rows) then false else true

-- the answer to a query by a key; `pgx.ErrNoRows` is `no_rows`
pub data Lookup : Type 0 where
  row_found : JobRow → Lookup
  no_rows broken : Lookup

module _ (answers : ℕ → Outcome) where
  -- one call that changes the table `jobs`; whether it returned no error, and the new state
  unfoldable pub exec : (List JobRow → List JobRow) → World → Bool × World
  exec statement w =
      let answer = answers w.calls in
      (
        is_confirmed answer,
        record w {
          jobs = if carried_out answer then statement w.jobs else w.jobs;
          calls = suc w.calls;
        },
      )

  unfoldable pub update_job_started : Str → ℕ → World → Bool × World
  unfolding exec
  update_job_started id started_at = exec (update_where id (set_started started_at))

  unfoldable pub update_job_completed : Str → ℕ → ℤ → ℤ → World → Bool × World
  unfolding exec
  update_job_completed id completed_at fetched inserted =
      exec (update_where id (set_completed completed_at fetched inserted))

  unfoldable pub update_job_retrying : Str → Str → ℕ → ℕ → World → Bool × World
  unfolding exec
  update_job_retrying id message attempt next_retry_at =
      exec (update_where id (set_retrying message attempt next_retry_at))

  unfoldable pub update_job_dead : Str → Str → World → Bool × World
  unfolding exec
  update_job_dead id message = exec (update_where id (set_dead message))

  unfoldable pub insert_video : VideoRow → World → Bool × World
  insert_video v w =
      let answer = answers w.calls in
      let accepted = accepts_video v w in
      (
        is_confirmed answer && accepted,
        record w {
          videos = if carried_out answer && accepted then w.videos ++ (v ∷ []) else w.videos;
          calls = suc w.calls;
        },
      )

  -- `InsertJob`, with the new id of `uuid.New()`
  unfoldable pub insert_job : Str → ℕ → JobRequest → World → Option Str × World
  insert_job id now req w =
      let answer = answers w.calls in
      let accepted = accepts_job id req.idempotency_key w.jobs in
      (
        if is_confirmed answer && accepted then some id else none,
        record w {
          jobs =
              if carried_out answer && accepted
              then w.jobs ++ (new_row id now req ∷ [])
              else w.jobs;
          calls = suc w.calls;
        },
      )

  -- `SELECT * FROM jobs WHERE …`
  unfoldable pub select_job : (JobRow → Bool) → World → Lookup × World
  select_job test w = (
    if is_confirmed (answers w.calls)
        then elim (find test w.jobs) [ none ↦ no_rows | some row ↦ row_found row ]
        else broken,
    record w { calls = suc w.calls },
  )

  unfoldable pub get_job_by_id : Str → World → Lookup × World
  unfolding select_job
  get_job_by_id id = select_job (has_id id)

  unfoldable pub get_job_by_idempotency_key : Str → World → Lookup × World
  unfolding select_job
  get_job_by_idempotency_key key = select_job (has_key key)

-- `stringToJobState`
unfoldable pub string_to_job_state : Str → JobState
string_to_job_state s =
    if same s (text "queued")
    then queued
    else if same s (text "running")
    then running
    else if same s (text "retrying")
    then retrying
    else if same s (text "done")
    then done
    else if same s (text "dead")
    then dead
    else unspecified
