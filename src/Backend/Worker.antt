-- ===== src/Backend/Worker.antt =====
-- backend/worker/worker.go: the run of one job. What `FetchTrending` returns in each attempt, and
-- the clock, are parameters; a sleep is counted.
pub mod Complete
pub mod Attempts
pub mod Result
pub mod Unfinished
pub mod Frame
pub mod Ended
use yt_trending_pipeline.Prelude.{
  ℕ, zero, suc, ◌+◌, ◌*◌, ◌^◌, Option, none, some, Bool, true, false, List, [], ◌∷◌, Str, text,
  length, if◌then◌else◌,
}
use yt_trending_pipeline.Backend.{World, VideoRow, Job, int32}
use yt_trending_pipeline.Backend.Database.{
  Outcome, update_job_started, update_job_completed, update_job_retrying, update_job_dead,
  insert_video,
}

abbrev pub max_attempts : ℕ
max_attempts = 3

module _ (answers : ℕ → Outcome) (now : World → ℕ) where
  -- `UpdateJobDead`, whose error is ignored
  unfoldable pub give_up : Str → Str → World → World
  give_up id message w = (update_job_dead answers id message w).1

  -- the loop of `InsertVideo`, with the number inserted so far
  unfoldable pub insert_videos : List VideoRow → ℕ → World → Bool × (ℕ × World)
  insert_videos [] inserted w = (true, (inserted, w))
  insert_videos (v ∷ vs) inserted w =
      let (ok, next) = insert_video answers v w in
      let rest = insert_videos vs (suc inserted) next in
      if ok then rest else (false, (inserted, next))

  -- after a fetch that returned videos; the error of `UpdateJobCompleted` is ignored
  unfoldable pub complete : Str → List VideoRow → World → World
  unfolding insert_videos give_up
  complete id videos w =
      let (ok, stored) = insert_videos videos 0 w in
      let (inserted, after) = stored in
      if ok
      then (update_job_completed answers id (now after) (int32 (length videos)) (int32 inserted)
          after).1
      else give_up id (text "Failed to insert video data into database.") after

  -- after a fetch that failed: whether the loop goes on, and the new state
  unfoldable pub retry : Str → ℕ → World → Bool × World
  unfolding give_up
  retry id attempt w =
      let backoff = 2 ^ attempt in
      let (ok, next) =
        update_job_retrying answers id (text "Error fetching data from YouTube API.") attempt
          (now w + 1000 * backoff) w in
      if ok
      then (true, record next { slept = next.slept + backoff })
      else (false, give_up id (text "Failed to update job as failed.") next)

  -- the loop, with the attempts that are left
  unfoldable pub attempts : Str → (ℕ → Option (List VideoRow)) → ℕ → ℕ → World → World
  unfolding complete retry
  attempts id fetch zero attempt w = give_up id (text "Max retry attempts reached.") w
  attempts id fetch (suc left) attempt w =
      let (again, next) = retry id attempt w in
      let rest = attempts id fetch left (suc attempt) next in
      elim (fetch attempt) [
        | none ↦ if again then rest else next
        | some videos ↦ complete id videos w
      ]

  -- `processJob` of the worker; `fetch n` is what the n-th call of `FetchTrending` returns
  unfoldable pub process_job : (ℕ → Option (List VideoRow)) → Job → World → World
  unfolding attempts
  process_job fetch job w =
      let (ok, next) = update_job_started answers job.id (now w) w in
      if ok
      then attempts job.id fetch max_attempts 1 next
      else give_up job.id (text "Failed to update job as started.") next
