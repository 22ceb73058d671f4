-- ===== src/Backend.antt =====
-- The backend (backend/, in Go): the rows and requests that its parts share, and the state that
-- they work on. The shapes are those of backend/proto/etl.proto, backend/db/migrations and
-- backend/youtube/client.go.
pub mod Database
pub mod Worker
pub mod Etl
pub mod System
pub mod Gateway
pub mod Youtube
pub mod Analytics
use yt_trending_pipeline.Prelude.{
  ℕ, ◌-◌, ◌%◌, ◌^◌, Option, List, Str, ltb, ℤ, pos, negsuc, if◌then◌else◌,
}

-- `enum JobState`
pub data JobState : Type 0 where
  unspecified done failed queued running retrying dead : JobState

-- `message JobRequest`; an absent map is none
pub record JobRequest : Type 0 where
  pub region : Str
  pub category_id : ℤ
  pub max_results : ℤ
  pub idempotency_key : Str
  pub metadata : Option (List (Str × Str))

-- a row of the table `jobs`; times are milliseconds
pub record JobRow : Type 0 where
  pub job_id : Str
  pub idempotency_key : Str
  pub state : Str
  pub region : Str
  pub category_id : ℤ
  pub max_results : ℤ
  pub attempt : ℕ
  pub max_attempts : ℕ
  pub videos_fetched : ℤ
  pub videos_inserted : ℤ
  pub error_message : Option Str
  pub next_retry_at : Option ℕ
  pub created_at : ℕ
  pub started_at : Option ℕ
  pub completed_at : Option ℕ
  pub metadata : List (Str × Str)

-- `client.Video`, and a row of the table `videos`
pub record VideoRow : Type 0 where
  pub video_id : Str
  pub job_id : Str
  pub region : Str
  pub fetched_at : ℕ
  pub title : Str
  pub channel_id : Str
  pub channel_title : Str
  pub published_at : ℕ
  pub category_id : ℤ
  pub view_count : ℤ
  pub like_count : ℤ
  pub comment_count : ℤ

-- `worker.Job`
pub record Job : Type 0 where
  pub id : Str
  pub req : JobRequest

-- The tables, the channel of queued jobs, the calls of the database made so far, and the seconds
-- that a worker slept.
pub record World : Type 0 where
  pub jobs : List JobRow
  pub videos : List VideoRow
  pub queue : List Job
  pub calls : ℕ
  pub slept : ℕ

-- `int32(n)` for a length
abbrev pub int32 : ℕ → ℤ
int32 n = let r = n % 2 ^ 32 in if ltb r (2 ^ 31) then pos r else negsuc (2 ^ 32 - r - 1)
