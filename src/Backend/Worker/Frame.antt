-- ===== src/Backend/Worker/Frame.antt =====
-- backend/worker/worker.go: what the run of a job leaves alone, whatever the database answers.
use yt_trending_pipeline.Prelude.{
  ℕ, zero, suc, ◌+◌, ◌*◌, ◌^◌, ◌≤◌, ◌≡◌, refl, ◌∙◌, Option, Bool, List, [], ◌∷◌, Str, text, arith,
  if_cases, Option-cases, length,
}
use yt_trending_pipeline.Backend.{World, JobRow, VideoRow, Job, int32}
use yt_trending_pipeline.Backend.Database.{
  Outcome, carried_out, update_where, exec, update_job_started, update_job_completed,
  update_job_retrying, update_job_dead, insert_video, set_started, set_completed, set_retrying,
  set_dead,
}
use yt_trending_pipeline.Backend.Database.Rows.{
  ids, keys, others, KeepsKeys, ids-update_where, keys-update_where, others-update_where,
}
use yt_trending_pipeline.Backend.Worker.{
  max_attempts, give_up, insert_videos, complete, retry, attempts, process_job,
}

-- The rows of other jobs, the keys of all rows and the channel stay as they are, and at most
-- `pause` seconds go by.
pub record Touches (id : Str) (pause : ℕ) (w after : World) : Type 0 where
  pub same_ids : ids after.jobs ≡ ids w.jobs
  pub same_keys : keys after.jobs ≡ keys w.jobs
  pub same_others : others id after.jobs ≡ others id w.jobs
  pub same_queue : after.queue ≡ w.queue
  pub bounded : after.slept ≤ w.slept + pause

Touches-then :
    {id : Str} {m n : ℕ} {w v u : World}
    → Touches id m w v
    → Touches id n v u
    → Touches id (m + n) w u
Touches-then h k = record {
  same_ids = k.same_ids ∙ h.same_ids;
  same_keys = k.same_keys ∙ h.same_keys;
  same_others = k.same_others ∙ h.same_others;
  same_queue = k.same_queue ∙ h.same_queue;
  bounded = let a = h.bounded in let b = k.bounded in omega arith;
}

Touches-more : {id : Str} {m n : ℕ} {w v : World} → Touches id m w v → m ≤ n → Touches id n w v
Touches-more h le = record {
  same_ids = h.same_ids;
  same_keys = h.same_keys;
  same_others = h.same_others;
  same_queue = h.same_queue;
  bounded = let a = h.bounded in omega arith;
}

-- the seconds that `left` failed attempts from number `attempt` on sleep
abbrev pub backoffs : ℕ → ℕ → ℕ
backoffs zero attempt = 0
backoffs (suc left) attempt = 2 ^ attempt + backoffs left (suc attempt)

module _ (answers : ℕ → Outcome) (now : World → ℕ) (id : Str) where
  exec-Touches :
      (set : JobRow → JobRow) (w : World)
      → KeepsKeys set
      → Touches id 0 w (exec answers (update_where id set) w).1
  unfolding exec
  exec-Touches set w h =
      let went = carried_out (answers w.calls) in
      let next = update_where id set w.jobs in
      record {
        same_ids =
            if_cases (λ rows. ids rows ≡ ids w.jobs) went next w.jobs
              (λ e. ids-update_where id set h w.jobs) (λ e. refl);
        same_keys =
            if_cases (λ rows. keys rows ≡ keys w.jobs) went next w.jobs
              (λ e. keys-update_where id set h w.jobs) (λ e. refl);
        same_others =
            if_cases (λ rows. others id rows ≡ others id w.jobs) went next w.jobs
              (λ e. others-update_where id set h w.jobs) (λ e. refl);
        same_queue = refl;
        bounded = omega arith;
      }

  give_up-Touches : (message : Str) (w : World) → Touches id 0 w (give_up answers now id message w)
  unfolding give_up update_job_dead set_dead
  give_up-Touches message w = exec-Touches (set_dead message) w (λ row. (refl, refl))

  insert_videos-Touches :
      (vs : List VideoRow) (inserted : ℕ) (w : World)
      → Touches id 0 w (insert_videos answers now vs inserted w).1.1
  unfolding insert_videos insert_video
  insert_videos-Touches [] inserted w = record {
    same_ids = refl;
    same_keys = refl;
    same_others = refl;
    same_queue = refl;
    bounded = omega arith;
  }
  insert_videos-Touches (v ∷ vs) inserted w =
      let (ok, next) = insert_video answers v w in
      let one : Touches id 0 w next = record {
        same_ids = refl;
        same_keys = refl;
        same_others = refl;
        same_queue = refl;
        bounded = omega arith;
      } in
      if_cases {A = Bool × (ℕ × World)} (λ r. Touches id 0 w r.1.1) ok _ _
        (λ e. Touches-then one (insert_videos-Touches vs (suc inserted) next)) (λ e. one)

  complete-Touches :
      (vs : List VideoRow) (w : World) → Touches id 0 w (complete answers now id vs w)
  unfolding complete update_job_completed set_completed
  complete-Touches vs w =
      let (ok, stored) = insert_videos answers now vs 0 w in
      let (inserted, after) = stored in
      let stored_all = insert_videos-Touches vs 0 w in
      if_cases (Touches id 0 w) ok _ _
        (λ e. Touches-then stored_all (
          exec-Touches (set_completed (now after) (int32 (length vs)) (int32 inserted)) after
            (λ row. (refl, refl))))
        (λ e. Touches-then stored_all (give_up-Touches _ after))

  retry-Touches :
      (attempt : ℕ) (w : World) → Touches id (2 ^ attempt) w (retry answers now id attempt w).1
  unfolding retry update_job_retrying set_retrying
  retry-Touches attempt w =
      let message = text "Error fetching data from YouTube API." in
      let (ok, next) =
        update_job_retrying answers id message attempt (now w + 1000 * 2 ^ attempt) w in
      let one =
        exec-Touches (set_retrying message attempt (now w + 1000 * 2 ^ attempt)) w
          (λ row. (refl, refl)) in
      if_cases {A = Bool × World} (λ r. Touches id (2 ^ attempt) w r.1) ok _ _
        (λ e. record {
          same_ids = one.same_ids;
          same_keys = one.same_keys;
          same_others = one.same_others;
          same_queue = one.same_queue;
          bounded = let b = one.bounded in omega arith;
        })
        (λ e. Touches-more (Touches-then one (give_up-Touches _ next)) (omega arith))

  attempts-Touches :
      (fetch : ℕ → Option (List VideoRow)) (left attempt : ℕ) (w : World)
      → Touches id (backoffs left attempt) w (attempts answers now id fetch left attempt w)
  unfolding attempts
  attempts-Touches fetch zero attempt w = give_up-Touches _ w
  attempts-Touches fetch (suc left) attempt w =
      let (again, next) = retry answers now id attempt w in
      let pause = 2 ^ attempt + backoffs left (suc attempt) in
      let retried = retry-Touches attempt w in
      Option-cases (Touches id pause w) (fetch attempt) _ _
        (if_cases (Touches id pause w) again _ next
          (λ e. Touches-then retried (attempts-Touches fetch left (suc attempt) next))
          (λ e. Touches-more retried (omega arith)))
        (λ videos. Touches-more (complete-Touches videos w) (omega arith))

module _ (answers : ℕ → Outcome) (now : World → ℕ) where
  -- Whatever the fetches return and whatever the database answers to each call, the run of a job
  -- changes no row of another job, no key of a row and nothing in the channel, and sleeps at most
  -- 14 seconds in all.
  pub process_job-Touches :
      (fetch : ℕ → Option (List VideoRow)) (job : Job) (w : World)
      → Touches job.id 14 w (process_job answers now fetch job w)
  unfolding process_job update_job_started set_started
  process_job-Touches fetch job w =
      let id = job.id in
      let (ok, next) = update_job_started answers id (now w) w in
      let started = exec-Touches answers now id (set_started (now w)) w (λ row. (refl, refl)) in
      if_cases (Touches id 14 w) ok _ _
        (λ e. Touches-then started (attempts-Touches answers now id fetch max_attempts 1 next))
        (λ e.
          Touches-more (Touches-then started (give_up-Touches answers now id _ next)) (omega arith))
