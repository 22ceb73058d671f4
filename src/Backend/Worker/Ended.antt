-- ===== src/Backend/Worker/Ended.antt =====
-- backend/worker/worker.go: every run of a job ends it, while the database confirms its calls.
use yt_trending_pipeline.Prelude.{
  ℕ, zero, suc, ◌+◌, ◌*◌, ◌^◌, ◌≡◌, ◌⊎◌, inl, inr, refl, ap, sym, ◌∙◌, subst, Option, some, Bool,
  true, false, List, [], ◌∷◌, Str, text, find, length, if_cases, Option-cases, arith,
}
use yt_trending_pipeline.Backend.{World, JobRow, VideoRow, Job, int32}
use yt_trending_pipeline.Backend.Database.{
  Outcome, confirmed, has_id, insert_video, set_completed, set_retrying, set_started,
  update_job_completed,
}
use yt_trending_pipeline.Backend.Worker.{
  max_attempts, insert_videos, complete, retry, attempts, process_job,
}
use yt_trending_pipeline.Backend.Worker.Complete.{exec-find}
use yt_trending_pipeline.Backend.Worker.Attempts.{
  IsDead, fetch_error, gave_up, give_up-IsDead, retry-find, retry_ok,
}
use yt_trending_pipeline.Backend.Worker.Result.{start, process_job_starts, start-find}

abbrev pub IsOver : Str → Type 0
IsOver state = (state ≡ text "done") ⊎ (state ≡ text "dead")

-- The job has a row, which is done or dead.
pub record IsEnded (id : Str) (w : World) : Type 0 where
  pub row : JobRow
  pub stored : find (has_id id) w.jobs ≡ some row
  pub over : IsOver row.state

IsDead-IsEnded :
    {id : Str} {attempt : ℕ} {message : Str} {before : List VideoRow} {w : World}
    → IsDead id attempt message before w
    → IsEnded id w
IsDead-IsEnded d = record { row = d.row; stored = d.stored; over = inr d.state }

module _ (answers : ℕ → Outcome) (now : World → ℕ) where
  pub insert_videos-jobs :
      (vs : List VideoRow) (inserted : ℕ) (w : World)
      → (insert_videos answers now vs inserted w).1.1.jobs ≡ w.jobs
  unfolding insert_videos insert_video
  insert_videos-jobs [] inserted w = refl
  insert_videos-jobs (v ∷ vs) inserted w =
      let (ok, next) = insert_video answers v w in
      if_cases {A = Bool × (ℕ × World)} (λ r. r.1.1.jobs ≡ w.jobs) ok _ _
        (λ e. insert_videos-jobs vs (suc inserted) next) (λ e. refl)

module _ (answers : ℕ → Outcome) (now : World → ℕ) (h : (n : ℕ) → answers n ≡ confirmed) where
  complete-IsEnded :
      (id : Str) (vs : List VideoRow) (w : World) (row : JobRow)
      → find (has_id id) w.jobs ≡ some row
      → IsEnded id (complete answers now id vs w)
  unfolding complete update_job_completed set_completed
  complete-IsEnded id vs w row there =
      let (ok, stored) = insert_videos answers now vs 0 w in
      let (inserted, after) = stored in
      let set = set_completed (now after) (int32 (length vs)) (int32 inserted) in
      let found = ap (find (has_id id)) (insert_videos-jobs answers now vs 0 w) ∙ there in
      if_cases (IsEnded id) ok _ _
        (λ e. record {
          row = set row;
          stored = exec-find answers now h id set after row (λ old. (refl, refl)) found;
          over = inl refl;
        })
        (λ e. IsDead-IsEnded (give_up-IsDead answers now h id _ after row found))

  attempts-IsEnded :
      (id : Str) (fetch : ℕ → Option (List VideoRow)) (left attempt : ℕ) (w : World) (row : JobRow)
      → find (has_id id) w.jobs ≡ some row
      → IsEnded id (attempts answers now id fetch left attempt w)
  unfolding attempts
  attempts-IsEnded id fetch zero attempt w row there =
      IsDead-IsEnded (give_up-IsDead answers now h id gave_up w row there)
  attempts-IsEnded id fetch (suc left) attempt w row there =
      let (again, next) = retry answers now id attempt w in
      let set = set_retrying fetch_error attempt (now w + 1000 * 2 ^ attempt) in
      Option-cases (IsEnded id) (fetch attempt) _ _
        (if_cases (IsEnded id) again _ next
          (λ e.
            attempts-IsEnded id fetch left (suc attempt) next (set row)
              (retry-find answers now h id attempt w row there))
          (λ e.
            let clash : false ≡ true = sym e ∙ retry_ok answers now h id attempt w in
            absurd (ground arith)))
        (λ videos. complete-IsEnded id videos w row there)

  -- A job that has a row is done or dead after its run, whatever the fetches return, if the
  -- database confirms its calls.
  pub process_job-IsEnded :
      (fetch : ℕ → Option (List VideoRow)) (job : Job) (w : World) (row : JobRow)
      → find (has_id job.id) w.jobs ≡ some row
      → IsEnded job.id (process_job answers now fetch job w)
  process_job-IsEnded fetch job w row there =
      subst (IsEnded job.id) (sym (process_job_starts answers now h fetch job w)) (
        attempts-IsEnded job.id fetch max_attempts 1 (start answers now h job.id w)
          (set_started (now w) row) (start-find answers now h job.id w row there))
