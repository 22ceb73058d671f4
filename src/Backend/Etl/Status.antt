-- ===== src/Backend/Etl/Status.antt =====
-- backend/db/db.go and backend/etl/server.go: `scanJobStatus` and `GetJobStatus`. The name of a state is
-- read by `stringToJobState`.
use yt_trending_pipeline.Prelude.{ℕ, Option, none, some, List, [], Str, or_else, ℤ, pos}
use yt_trending_pipeline.Backend.{World, JobRow, JobState}
use yt_trending_pipeline.Backend.Database.{
  Outcome, Lookup, row_found, no_rows, broken, get_job_by_id, string_to_job_state,
}

-- `message JobStatus`; a text that is not set is empty
pub record JobStatus : Type 0 where
  pub job_id : Str
  pub state : JobState
  pub region : Str
  pub category_id : ℤ
  pub attempt : ℤ
  pub max_attempts : ℤ
  pub videos_fetched : ℤ
  pub videos_inserted : ℤ
  pub error_message : Str
  pub next_retry_at : Option ℕ
  pub created_at : Option ℕ
  pub started_at : Option ℕ
  pub completed_at : Option ℕ
  pub metadata : List (Str × Str)

unfoldable pub scan_job_status : JobRow → JobStatus
unfolding string_to_job_state
scan_job_status row = record {
  job_id = row.job_id;
  state = string_to_job_state row.state;
  region = row.region;
  category_id = row.category_id;
  attempt = pos row.attempt;
  max_attempts = pos row.max_attempts;
  videos_fetched = row.videos_fetched;
  videos_inserted = row.videos_inserted;
  error_message = or_else row.error_message [];
  next_retry_at = row.next_retry_at;
  created_at = some row.created_at;
  started_at = row.started_at;
  completed_at = row.completed_at;
  metadata = row.metadata;
}

-- a row that is not there is an error, as any other
abbrev pub scanned : Lookup → Option JobStatus
scanned (row_found row) = some (scan_job_status row)
scanned no_rows = none
scanned broken = none

unfoldable pub get_job_status : (ℕ → Outcome) → Str → World → Option JobStatus × World
unfolding scan_job_status
get_job_status answers id w =
    let (found, after) = get_job_by_id answers id w in (scanned found, after)
