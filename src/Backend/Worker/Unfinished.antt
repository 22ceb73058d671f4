-- ===== src/Backend/Worker/Unfinished.antt =====
-- backend/worker/worker.go: the errors of `UpdateJobCompleted` and `UpdateJobDead` are ignored.
use yt_trending_pipeline.Prelude.{
  ℕ, zero, suc, ◌+◌, ◌*◌, ◌^◌, ◌≡◌, ◌⊎◌, inl, inr, refl, ap, ◌∙◌, Option, some, Bool, true, false,
  List, Str, text, find, length, if_cases, Option-cases, Bool-cases, if◌then◌else◌,
}
use yt_trending_pipeline.Backend.{World, JobRow, VideoRow, Job, int32}
use yt_trending_pipeline.Backend.Database.{
  Outcome, carried_out, has_id, update_where, exec, set_completed, set_retrying, set_dead,
  set_started, update_job_completed, update_job_retrying, update_job_dead, update_job_started,
}
use yt_trending_pipeline.Backend.Database.Rows.{find-update_where}
use yt_trending_pipeline.Backend.Worker.{
  max_attempts, give_up, insert_videos, complete, retry, attempts, process_job,
}
use yt_trending_pipeline.Backend.Worker.Attempts.{fetch_error, gave_up}
use yt_trending_pipeline.Backend.Worker.Ended.{IsOver, insert_videos-jobs}

-- The state is that of before, or that of a job which was started, or is tried again.
abbrev pub IsOpen : Str → Str → Type 0
IsOpen before state = (state ≡ before) ⊎ ((state ≡ text "running") ⊎ (state ≡ text "retrying"))

-- The job has a row. It is done or dead if the last call of the database was carried out, and else
-- it is open.
pub record IsLeft (answers : ℕ → Outcome) (id before : Str) (w : World) : Type 0 where
  pub last : ℕ
  pub calls : w.calls ≡ suc last
  pub row : JobRow
  pub stored : find (has_id id) w.jobs ≡ some row
  pub outcome :
      ((carried_out (answers last) ≡ true) × IsOver row.state)
      ⊎ ((carried_out (answers last) ≡ false) × IsOpen before row.state)

-- what holds of a state that a job may have before its last call
pub record IsWaiting (id before : Str) (w : World) : Type 0 where
  pub row : JobRow
  pub stored : find (has_id id) w.jobs ≡ some row
  pub still_open : IsOpen before row.state

module _ (answers : ℕ → Outcome) (id before : Str) where
  -- a call that ends the job, if it is carried out
  exec-IsLeft :
      (set : JobRow → JobRow) (w : World)
      → ((old : JobRow)
          → ((set old).job_id ≡ old.job_id) × ((set old).idempotency_key ≡ old.idempotency_key))
      → ((old : JobRow) → IsOver (set old).state)
      → IsWaiting id before w
      → IsLeft answers id before (exec answers (update_where id set) w).1
  unfolding exec
  exec-IsLeft set w keeps over h = elim (Bool-cases (carried_out (answers w.calls))) [
    | inl e ↦ rw e (record {
      last = w.calls;
      calls = refl;
      row = set h.row;
      stored = find-update_where id set keeps w.jobs h.row h.stored;
      outcome = inl (e, over h.row);
    })
    | inr e ↦ rw e (record {
      last = w.calls;
      calls = refl;
      row = h.row;
      stored = h.stored;
      outcome = inr (e, h.still_open);
    })
  ]

  -- a call that leaves the job open
  exec-IsWaiting :
      (set : JobRow → JobRow) (w : World)
      → ((old : JobRow)
          → ((set old).job_id ≡ old.job_id) × ((set old).idempotency_key ≡ old.idempotency_key))
      → ((old : JobRow) → IsOpen before (set old).state)
      → IsWaiting id before w
      → IsWaiting id before (exec answers (update_where id set) w).1
  unfolding exec
  exec-IsWaiting set w keeps opens h = elim (Bool-cases (carried_out (answers w.calls))) [
    | inl e ↦ rw e (record {
      row = set h.row;
      stored = find-update_where id set keeps w.jobs h.row h.stored;
      still_open = opens h.row;
    })
    | inr e ↦ rw e (record { row = h.row; stored = h.stored; still_open = h.still_open })
  ]

module _ (answers : ℕ → Outcome) (now : World → ℕ) (id before : Str) where
  give_up-IsLeft :
      (message : Str) (w : World)
      → IsWaiting id before w
      → IsLeft answers id before (give_up answers now id message w)
  unfolding give_up update_job_dead set_dead
  give_up-IsLeft message w h =
      exec-IsLeft answers id before (set_dead message) w (λ old. (refl, refl)) (λ old. inr refl) h

  complete-IsLeft :
      (vs : List VideoRow) (w : World)
      → IsWaiting id before w
      → IsLeft answers id before (complete answers now id vs w)
  unfolding complete update_job_completed set_completed
  complete-IsLeft vs w h =
      let (ok, stored) = insert_videos answers now vs 0 w in
      let (inserted, after) = stored in
      let set = set_completed (now after) (int32 (length vs)) (int32 inserted) in
      let waits : IsWaiting id before after = record {
        row = h.row;
        stored = ap (find (has_id id)) (insert_videos-jobs answers now vs 0 w) ∙ h.stored;
        still_open = h.still_open;
      } in
      if_cases (IsLeft answers id before) ok _ _
        (λ e. exec-IsLeft answers id before set after (λ old. (refl, refl)) (λ old. inl refl) waits)
        (λ e. give_up-IsLeft _ after waits)

  attempts-IsLeft :
      (fetch : ℕ → Option (List VideoRow)) (left attempt : ℕ) (w : World)
      → IsWaiting id before w
      → IsLeft answers id before (attempts answers now id fetch left attempt w)
  unfolding attempts retry update_job_retrying set_retrying
  attempts-IsLeft fetch zero attempt w h = give_up-IsLeft gave_up w h
  attempts-IsLeft fetch (suc left) attempt w h =
      let set = set_retrying fetch_error attempt (now w + 1000 * 2 ^ attempt) in
      let (ok, next) = exec answers (update_where id set) w in
      let waits : IsWaiting id before next =
        exec-IsWaiting answers id before set w (λ old. (refl, refl)) (λ old. inr (inr refl)) h in
      Option-cases (IsLeft answers id before) (fetch attempt) _ _
        (if_cases {A = Bool × World}
          (λ r.
            IsLeft answers id before
              (if r.0 then attempts answers now id fetch left (suc attempt) r.1 else r.1))
          ok _ _
          (λ e.
            attempts-IsLeft fetch left (suc attempt)
              (record next { slept = next.slept + 2 ^ attempt })
              (record { row = waits.row; stored = waits.stored; still_open = waits.still_open }))
          (λ e. give_up-IsLeft _ next waits))
        (λ vs. complete-IsLeft vs w h)

-- Whatever the database answers and the fetches return: when the run of a job that has a row is
-- over, and the last call of the database was carried out, the job is done or dead. If that call was
-- refused, the state is still that of before, or running, or retrying, and nothing follows.
pub process_job-IsLeft :
    (answers : ℕ → Outcome) (now : World → ℕ) (fetch : ℕ → Option (List VideoRow)) (job : Job)
    (w : World) (row : JobRow)
    → find (has_id job.id) w.jobs ≡ some row
    → IsLeft answers job.id row.state (process_job answers now fetch job w)
unfolding process_job update_job_started set_started
process_job-IsLeft answers now fetch job w row there =
    let set = set_started (now w) in
    let (ok, next) = exec answers (update_where job.id set) w in
    let first : IsWaiting job.id row.state w = record {
      row = row;
      stored = there;
      still_open = inl refl;
    } in
    let waits : IsWaiting job.id row.state next =
      exec-IsWaiting answers job.id row.state set w (λ old. (refl, refl)) (λ old. inr (inl refl))
        first in
    if_cases (IsLeft answers job.id row.state) ok _ _
      (λ e. attempts-IsLeft answers now job.id row.state fetch max_attempts 1 next waits)
      (λ e. give_up-IsLeft answers now job.id row.state _ next waits)
