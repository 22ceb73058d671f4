-- ===== src/Backend/Worker/Result.antt =====
-- backend/worker/worker.go: how the run of a job ends, while the database confirms its calls.
use yt_trending_pipeline.Prelude.{
  ℕ, ◌+◌, ◌<◌, ◌≡◌, refl, sym, subst, Option, none, some, List, Str, if◌then◌else◌, find, All, ◌==◌,
}
use yt_trending_pipeline.Backend.{World, JobRow, VideoRow, Job}
use yt_trending_pipeline.Backend.Database.{
  Outcome, confirmed, has_id, update_where, exec, update_job_started, set_started,
}
use yt_trending_pipeline.Backend.Worker.{max_attempts, attempts, process_job}
use yt_trending_pipeline.Backend.Worker.Complete.{IsNew, IsDone, exec_ok, exec-find}
use yt_trending_pipeline.Backend.Worker.Attempts.{
  fetch_error, gave_up, IsDead, last_failed_first, last_error_lem, IsDone-same, attempts-IsDone,
  attempts-IsDead,
}

module _ (answers : ℕ → Outcome) (now : World → ℕ) (h : (n : ℕ) → answers n ≡ confirmed) where
  pub start : Str → World → World
  start id w = (update_job_started answers id (now w) w).1

  pub process_job_starts :
      (fetch : ℕ → Option (List VideoRow)) (job : Job) (w : World)
      → process_job answers now fetch job w
        ≡ attempts answers now job.id fetch max_attempts 1 (start job.id w)
  unfolding process_job update_job_started start
  process_job_starts fetch job w =
      rw (exec_ok answers now h (update_where job.id (set_started (now w))) w) refl

  pub start-find :
      (id : Str) (w : World) (row : JobRow)
      → find (has_id id) w.jobs ≡ some row
      → find (has_id id) (start id w).jobs ≡ some (set_started (now w) row)
  unfolding start update_job_started set_started
  start-find id w row there =
      exec-find answers now h id (set_started (now w)) w row (λ old. (refl, refl)) there

  -- A job whose fetch succeeds after fewer than three failures ends as done, if the database
  -- confirms its calls, the job has a row, and the videos carry its id and have new keys: all of
  -- them are stored, both counts are their number, and there is no further retry. The attempt and
  -- the error message are those of the last failure, if there was one, and else unchanged.
  pub process_job-IsDone :
      (fetch : ℕ → Option (List VideoRow)) (job : Job) (w : World) (row : JobRow)
      (vs : List VideoRow) (failures : ℕ)
      → failures < max_attempts
      → ((i : ℕ) → i < failures → fetch (1 + i) ≡ none)
      → fetch (1 + failures) ≡ some vs
      → IsNew vs w.videos
      → All (λ v. v.job_id ≡ job.id) vs
      → find (has_id job.id) w.jobs ≡ some row
      → IsDone job.id
          (if failures == 0 then row.attempt else failures)
          (if failures == 0 then row.error_message else some fetch_error)
          vs
          w.videos
          (process_job answers now fetch job w)
  unfolding start update_job_started exec set_started
  process_job-IsDone fetch job w row vs failures lt no_fetch ends new own there =
      let ended =
        attempts-IsDone answers now h job.id fetch vs failures max_attempts 1 (start job.id w)
          (set_started (now w) row) lt no_fetch ends new own (start-find job.id w row there) in
      subst (IsDone job.id _ _ vs w.videos) (sym (process_job_starts fetch job w)) (
        IsDone-same (last_failed_first failures row.attempt)
          (last_error_lem failures row.error_message) ended)

  -- A job whose three fetches fail ends as dead after three attempts, if the database confirms its
  -- calls and the job has a row; no video is stored.
  pub process_job-IsDead :
      (fetch : ℕ → Option (List VideoRow)) (job : Job) (w : World) (row : JobRow)
      → ((i : ℕ) → i < max_attempts → fetch (1 + i) ≡ none)
      → find (has_id job.id) w.jobs ≡ some row
      → IsDead job.id 3 gave_up w.videos (process_job answers now fetch job w)
  unfolding start update_job_started exec set_started
  process_job-IsDead fetch job w row no_fetch there =
      subst (IsDead job.id 3 gave_up w.videos) (sym (process_job_starts fetch job w)) (
        attempts-IsDead answers now h job.id fetch max_attempts 1 (start job.id w)
          (set_started (now w) row) no_fetch (start-find job.id w row there))
