-- ===== src/Examples/Worlds.antt =====
-- A small database, requests and answers for the examples of the backend.
use yt_trending_pipeline.Prelude.{
  ℕ, ◌+◌, ◌*◌, ◌≡◌, refl, Option, none, some, List, [], ◌∷◌, Str, text, pos, if◌then◌else◌, ◌==◌,
  same, find,
}
use yt_trending_pipeline.Backend.{World, JobRow, VideoRow, Job, JobRequest}
use yt_trending_pipeline.Backend.Database.{Outcome, confirmed, lost, refused, has_id, new_row}

abbrev pub always : ℕ → Outcome
always n = confirmed

-- The third call is lost and the fifth refused.
abbrev pub flaky : ℕ → Outcome
flaky n = if n == 2 then lost else if n == 4 then refused else confirmed

abbrev pub clock : World → ℕ
clock w = 1000 * w.calls

abbrev pub clock_ticks : ℕ → ℕ
clock_ticks i = 1000 + i

abbrev pub request : Str → JobRequest
request key = record {
  region = text "US";
  category_id = pos 10;
  max_results = pos 50;
  idempotency_key = key;
  metadata = none;
}

abbrev pub an_id : Str
an_id = text "j1"

abbrev pub a_job : Job
a_job = record { id = an_id; req = request (text "k1") }

abbrev pub a_row : JobRow
a_row = new_row an_id 7 (request (text "k1"))

abbrev pub one_job : World
one_job = record { jobs = a_row ∷ []; videos = []; queue = []; calls = 0; slept = 0 }

abbrev pub a_video : VideoRow
a_video = record {
  video_id = text "v1";
  job_id = an_id;
  region = text "US";
  fetched_at = 9;
  title = text "A title";
  channel_id = text "c1";
  channel_title = text "A channel";
  published_at = 3;
  category_id = pos 10;
  view_count = pos 1200;
  like_count = pos 30;
  comment_count = pos 0;
}

-- The first fetch fails, the second brings one video.
abbrev pub second_works : ℕ → Option (List VideoRow)
second_works n = if n == 2 then some (a_video ∷ []) else none

abbrev pub never : ℕ → Option (List VideoRow)
never n = none

pub find_row : find (has_id an_id) one_job.jobs ≡ some a_row
unfolding new_row same text
find_row = refl
