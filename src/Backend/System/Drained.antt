-- ===== src/Backend/System/Drained.antt =====
-- The backend: every job that waits is run to an end, whatever submits come between, as soon as the
-- workers have taken as many jobs as its place in the channel.
use yt_trending_pipeline.Prelude.{
  ℕ, suc, ◌≡◌, refl, ap, sym, ◌∙◌, subst, Option, true, false, List, [], ◌∷◌, ◌++◌, Str, same, find,
  take, All,
}
use yt_trending_pipeline.Storage.Recent.{IsDistinct}
use yt_trending_pipeline.Backend.{World, VideoRow, Job}
use yt_trending_pipeline.Backend.Database.{
  Outcome, confirmed, has_id, get_job_by_idempotency_key, select_job,
}
use yt_trending_pipeline.Backend.Database.Rows.{ids}
use yt_trending_pipeline.Backend.Worker
use yt_trending_pipeline.Backend.Worker.Frame.{process_job-Touches}
use yt_trending_pipeline.Backend.Worker.Ended.{IsEnded, process_job-IsEnded}
use yt_trending_pipeline.Backend.System.{
  System, Event, looked_up, submitted, worked, initial, step, run, work_on,
}
use yt_trending_pipeline.Backend.System.Distinct.{has, has-snoc, has-snoc_new}
use yt_trending_pipeline.Backend.System.Sound.{IsSound, step-IsSound, run-IsSound, queued_ids}
use yt_trending_pipeline.Backend.System.Kept.{
  find-others, All-at, All-take-append, distinct-differs, submitted-Keeps, Keeps-IsEnded, has-find,
}

-- the number of turns of the workers
abbrev pub turns : List Event → ℕ
turns [] = 0
turns (looked_up req ∷ es) = turns es
turns (submitted req found ∷ es) = turns es
turns (worked fetch ∷ es) = suc (turns es)

module _ (answers : ℕ → Outcome) (uuid : World → Str) (now : World → ℕ)
    (h : (n : ℕ) → answers n ≡ confirmed) where
  after : List Event → System → System
  after = run answers uuid now

  next : Event → System → System
  next = step answers uuid now

  -- The run of another job leaves an ended one as it is.
  worked-IsEnded :
      (fetch : ℕ → Option (List VideoRow)) (job : Job) (w : World) (id : Str)
      → same job.id id ≡ false
      → IsEnded id w
      → IsEnded id (Worker.process_job answers now fetch job w)
  worked-IsEnded fetch job w id d e =
      let done = Worker.process_job answers now fetch job w in
      let t = process_job-Touches answers now fetch job w in
      record {
        row = e.row;
        stored =
            sym (find-others job.id id done.jobs d)
            ∙ ap (find (has_id id)) t.same_others
            ∙ find-others job.id id w.jobs d
            ∙ e.stored;
        over = e.over;
      }

  work_on-IsEnded :
      (fetch : ℕ → Option (List VideoRow)) (queue : List Job) (s : System) (id : Str)
      → s.world.queue ≡ queue
      → IsSound s
      → has id s.begun ≡ true
      → IsEnded id s.world
      → IsEnded id (work_on answers uuid now fetch queue s).world
        × (has id (work_on answers uuid now fetch queue s).begun ≡ true)
  unfolding work_on
  work_on-IsEnded fetch [] s id q sound b e = (e, b)
  work_on-IsEnded fetch (job ∷ rest) s id q sound b e =
      let d =
        distinct-differs s.begun job.id (queued_ids rest) id
          (subst (λ l. IsDistinct (s.begun ++ queued_ids l)) q sound.distinct_runs) b in
      (
        worked-IsEnded fetch job (record s.world { queue = rest }) id d
            (record { row = e.row; stored = e.stored; over = e.over }),
        has-snoc id s.begun job.id b,
      )

  -- A job that was taken and has ended is left alone by every step.
  next-IsEnded :
      (e : Event) (s : System) (id : Str)
      → IsSound s
      → has id s.begun ≡ true
      → IsEnded id s.world
      → IsEnded id (next e s).world × (has id (next e s).begun ≡ true)
  unfolding next step get_job_by_idempotency_key select_job
  next-IsEnded (looked_up req) s id sound b e =
      (record { row = e.row; stored = e.stored; over = e.over }, b)
  next-IsEnded (submitted req found) s id sound b e =
      (Keeps-IsEnded (submitted-Keeps answers uuid now h req found s.world) e, b)
  next-IsEnded (worked fetch) s id sound b e =
      work_on-IsEnded fetch s.world.queue s id refl sound b e

  after-IsEnded :
      (es : List Event) (s : System) (id : Str)
      → IsSound s
      → has id s.begun ≡ true
      → IsEnded id s.world
      → IsEnded id (after es s).world
  unfolding after run next
  after-IsEnded [] s id sound b e = e
  after-IsEnded (event ∷ es) s id sound b e =
      let ended = next-IsEnded event s id sound b e in
      after-IsEnded es (next event s) id (step-IsSound answers uuid now event s sound) ended.1
        ended.0

  -- one turn of a worker: the head of the channel has ended, and stays so
  worked-drained :
      (fetch : ℕ → Option (List VideoRow)) (es : List Event) (queue : List Job) (s : System)
      → s.world.queue ≡ queue
      → IsSound s
      → let s' = work_on answers uuid now fetch queue s in
        IsSound s'
        → All (λ job. IsEnded job.id (after es s').world) (take (turns es) s'.world.queue)
        → All (λ job. IsEnded job.id (after es s').world) (take (suc (turns es)) queue)
  unfolding work_on
  worked-drained fetch es [] s q sound sound' rest = tt
  worked-drained fetch es (job ∷ queue) s q sound sound' rest =
      let taken = record s.world { queue = queue } in
      let s' = work_on answers uuid now fetch (job ∷ queue) s in
      let there =
        subst (λ l. All (λ id. has id (ids s.world.jobs) ≡ true) (s.begun ++ queued_ids l)) q
          sound.have_rows in
      let found =
        has-find job.id s.world.jobs (
          All-at (λ id. has id (ids s.world.jobs) ≡ true) s.begun job.id (queued_ids queue)
            there) in
      let t = process_job-Touches answers now fetch job taken in
      (
        after-IsEnded es s' job.id sound' (has-snoc_new s.begun job.id)
            (process_job-IsEnded answers now h fetch job taken found.0 found.1),
        subst (λ l. All (λ j. IsEnded j.id (after es s').world) (take (turns es) l)) t.same_queue
            rest,
      )

  run_from_drained :
      (es : List Event) (s : System)
      → IsSound s
      → All (λ job. IsEnded job.id (after es s).world) (take (turns es) s.world.queue)
  unfolding after run step get_job_by_idempotency_key select_job next
  run_from_drained [] s sound = tt
  run_from_drained (looked_up req ∷ es) s sound =
      let e = looked_up req in
      run_from_drained es (next e s) (step-IsSound answers uuid now e s sound)
  run_from_drained (submitted req found ∷ es) s sound =
      let e = submitted req found in
      let kept = submitted-Keeps answers uuid now h req found s.world in
      let rest = run_from_drained es (next e s) (step-IsSound answers uuid now e s sound) in
      let P : Job → Type 0 = λ job. IsEnded job.id (after es (next e s)).world in
      All-take-append P (turns es) s.world.queue kept.more
        (subst (λ l. All P (take (turns es) l)) kept.queue rest)
  run_from_drained (worked fetch ∷ es) s sound =
      let e = worked fetch in
      let sound' = step-IsSound answers uuid now e s sound in
      worked-drained fetch es s.world.queue s refl sound sound'
        (run_from_drained es (next e s) sound')

  -- Every job that waits is run to an end: after any steps, and then any further ones with `n`
  -- turns of the workers among them, each of the first `n` jobs that waited is done or dead,
  -- whatever the fetches return and whatever submits come between, if the database confirms its
  -- calls.
  pub run_drained :
      (before es : List Event)
      → let s = run answers uuid now before initial in
        All
          (λ job. IsEnded job.id (run answers uuid now es s).world)
          (take (turns es) s.world.queue)
  unfolding after
  run_drained before es =
      run_from_drained es (run answers uuid now before initial)
        (run-IsSound answers uuid now before)
