-- ===== src/Types.antt =====
-- The shapes that the dashboard exchanges with the gateway: frontend/types/jobs.ts and
-- frontend/types/videos.ts. A number of a response is a `JsNum`: the gateway's encoder leaves a
-- zero field out (`omitempty`), and the dashboard then reads `undefined`.
use yt_trending_pipeline.Prelude.{Option, List, Str, JsNum, ℤ}

pub record ProtoTimestamp : Type 0 where
  pub seconds : JsNum
  pub nanos : JsNum

pub record JobStatus : Type 0 where
  pub job_id : Str
  pub state : JsNum
  pub region : Str
  pub category_id : JsNum
  pub attempt : JsNum
  pub max_attempts : JsNum
  pub videos_fetched : JsNum
  pub videos_inserted : JsNum
  pub error_message : Option Str
  pub next_retry_at : Option ProtoTimestamp
  pub created_at : Option ProtoTimestamp
  pub started_at : Option ProtoTimestamp
  pub completed_at : Option ProtoTimestamp
  pub metadata : Option (List (Str × Str))

pub record JobResponse : Type 0 where
  pub job_id : Str
  pub state : JsNum
  pub message : Option Str
  pub created_at : Option ProtoTimestamp

pub record JobUpdate : Type 0 where
  pub job_id : Str
  pub state : JsNum
  pub videos_fetched : JsNum
  pub videos_inserted : JsNum
  pub message : Option Str
  pub occurred_at : Option ProtoTimestamp

pub record BatchJobResult : Type 0 where
  pub job_id : Str
  pub state : JsNum
  pub idempotency_key : Str
  pub message : Option Str

pub record BatchResponse : Type 0 where
  pub total_received : JsNum
  pub total_accepted : JsNum
  pub total_rejected : JsNum
  pub results : List BatchJobResult

-- The two numbers come from `parseInt`: `none` is `NaN`.
pub record SubmitJobRequest : Type 0 where
  pub region : Str
  pub category_id : Option ℤ
  pub max_results : Option ℤ
  pub idempotency_key : Str

pub record Video : Type 0 where
  pub video_id : Str
  pub job_id : Str
  pub region : Str
  pub fetched_at : Str
  pub title : Str
  pub channel_id : Str
  pub channel_title : Str
  pub published_at : Str
  pub category_id : JsNum
  pub view_count : JsNum
  pub like_count : JsNum
  pub comment_count : JsNum

pub record TopChannel : Type 0 where
  pub channel_id : Str
  pub channel_title : Str
  pub appear_count : JsNum
  pub view_count : JsNum

pub record TrendPoint : Type 0 where
  pub fetched_at : Str
  pub view_count : JsNum
  pub like_count : JsNum
  pub comment_count : JsNum
