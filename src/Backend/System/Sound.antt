-- ===== src/Backend/System/Sound.antt =====
-- The backend: no job is there twice or run twice, in any order of steps and with any answers.
use yt_trending_pipeline.Prelude.{
  ℕ, suc, append_assoc, ◌≡◌, refl, ap, sym, ◌∙◌, subst, Option, none, some, Bool, true, false, List,
  [], ◌∷◌, ◌++◌, map, Str, All, All-append, if◌then◌else◌, ◌&&◌,
}
use yt_trending_pipeline.Storage.Recent.{IsDistinct}
use yt_trending_pipeline.Backend.{World, JobRow, VideoRow, Job, JobRequest}
use yt_trending_pipeline.Backend.Database.{
  Outcome, confirmed, lost, refused, Lookup, row_found, no_rows, broken, accepts_job, new_row,
  insert_job, carried_out, is_confirmed, get_job_by_idempotency_key, select_job,
}
use yt_trending_pipeline.Backend.Database.Rows.{ids, keys}
use yt_trending_pipeline.Backend.Etl.{after_lookup, respond, enqueue, refused_request, created}
use yt_trending_pipeline.Backend.Worker
use yt_trending_pipeline.Backend.Worker.Frame.{process_job-Touches}
use yt_trending_pipeline.Backend.System.{
  System, Event, looked_up, submitted, worked, initial, step, run, work_on,
}
use yt_trending_pipeline.Backend.System.Distinct.{
  has, IsDistinct-snoc, has-snoc_new, differs, All-has-snoc, fresh_ids, fresh_keys, map-snoc,
  accepted_free,
}

abbrev pub queued_ids : List Job → List Str
queued_ids queue = map (λ job. job.id) queue

-- Ids and keys are those of one row each; no job runs twice, and those that run have a row. `runs`
-- has the jobs that were taken, followed by those that wait.
pub record IsSafe (rows : List JobRow) (runs : List Str) : Type 0 where
  pub distinct_ids : IsDistinct (ids rows)
  pub distinct_keys : IsDistinct (keys rows)
  pub distinct_runs : IsDistinct runs
  pub have_rows : All (λ id. has id (ids rows) ≡ true) runs

-- A new row is safe, and so is the run of its job.
insert-IsSafe :
    (rows : List JobRow) (runs : List Str) (row : JobRow)
    → accepts_job row.job_id row.idempotency_key rows ≡ true
    → IsSafe rows runs
    → IsSafe (rows ++ (row ∷ [])) runs × IsSafe (rows ++ (row ∷ [])) (runs ++ (row.job_id ∷ []))
unfolding accepts_job
insert-IsSafe rows runs row fits s =
    let id = row.job_id in
    let free = accepted_free _ _ fits in
    let new_id = fresh_ids id rows free.0 in
    let new_key = fresh_keys row.idempotency_key rows free.1 in
    let more_ids = sym (map-snoc (λ r. r.job_id) rows row) in
    let d = subst IsDistinct more_ids (IsDistinct-snoc (ids rows) id s.distinct_ids new_id) in
    let k =
      subst IsDistinct (sym (map-snoc (λ r. r.idempotency_key) rows row))
        (IsDistinct-snoc (keys rows) row.idempotency_key s.distinct_keys new_key) in
    let old = All-has-snoc runs (ids rows) id s.have_rows in
    (
      record {
        distinct_ids = d;
        distinct_keys = k;
        distinct_runs = s.distinct_runs;
        have_rows = subst (λ l. All (λ y. has y l ≡ true) runs) more_ids old;
      },
      record {
        distinct_ids = d;
        distinct_keys = k;
        distinct_runs =
            IsDistinct-snoc runs id s.distinct_runs (differs id runs (ids rows) new_id s.have_rows);
        have_rows =
            subst (λ l. All (λ y. has y l ≡ true) (runs ++ (id ∷ []))) more_ids
              (All-append (λ y. has y (ids rows ++ (id ∷ [])) ≡ true) runs (id ∷ []) old
                (has-snoc_new (ids rows) id, tt));
      },
    )

abbrev pub runs : List Str → World → List Str
runs begun w = begun ++ queued_ids w.queue

abbrev pub IsSound : System → Type 0
IsSound s = IsSafe s.world.jobs (runs s.begun s.world)

queue-runs :
    (begun : List Str) (queue : List Job) (job : Job)
    → begun ++ queued_ids (queue ++ (job ∷ [])) ≡ (begun ++ queued_ids queue) ++ (job.id ∷ [])
queue-runs begun queue job =
    ap (λ l. begun ++ l) (map-snoc (λ j. j.id) queue job)
    ∙ sym (append_assoc begun (queued_ids queue) (job.id ∷ []))

module _ (answers : ℕ → Outcome) (uuid : World → Str) (now : World → ℕ) where
  -- What `InsertJob` and the send do, by what the database answers and whether the row fits.
  insert_cases :
      (begun : List Str) (w : World) (req : JobRequest) (o : Outcome) (fits : Bool)
      → accepts_job (uuid w) req.idempotency_key w.jobs ≡ fits
      → IsSafe w.jobs (runs begun w)
      → let row = new_row (uuid w) (now w) req in
        let id = if is_confirmed o && fits then some (uuid w) else none in
        let after = record w {
          jobs = if carried_out o && fits then w.jobs ++ (row ∷ []) else w.jobs;
          calls = suc w.calls;
        } in
        let r =
          respond answers uuid now req
            (elim id [ none ↦ refused_request | some new ↦ created new ], after) in
        IsSafe r.1.jobs (runs begun r.1)
  unfolding respond enqueue new_row
  insert_cases begun w req confirmed true e s =
      let row = new_row (uuid w) (now w) req in
      subst (IsSafe (w.jobs ++ (row ∷ [])))
        (sym (queue-runs begun w.queue (record { id = uuid w; req = req })))
        (insert-IsSafe w.jobs (runs begun w) row e s).1
  insert_cases begun w req confirmed false e s = s
  insert_cases begun w req lost true e s =
      (insert-IsSafe w.jobs (runs begun w) (new_row (uuid w) (now w) req) e s).0
  insert_cases begun w req lost false e s = s
  insert_cases begun w req refused fits e s = s

  submitted-IsSafe :
      (begun : List Str) (w : World) (req : JobRequest) (found : Lookup)
      → IsSafe w.jobs (runs begun w)
      → let r = respond answers uuid now req (after_lookup answers uuid now req (found, w)) in
        IsSafe r.1.jobs (runs begun r.1)
  unfolding respond after_lookup insert_job
  submitted-IsSafe begun w req (row_found row) s = s
  submitted-IsSafe begun w req broken s = s
  submitted-IsSafe begun w req no_rows s =
      insert_cases begun w req (answers w.calls) (accepts_job (uuid w) req.idempotency_key w.jobs)
        refl s

  work_on-IsSound :
      (fetch : ℕ → Option (List VideoRow)) (queue : List Job) (s : System)
      → s.world.queue ≡ queue
      → IsSound s
      → IsSound (work_on answers uuid now fetch queue s)
  unfolding work_on
  work_on-IsSound fetch [] s e h = h
  work_on-IsSound fetch (job ∷ rest) s e h =
      let taken = record s.world { queue = rest } in
      let t = process_job-Touches answers now fetch job taken in
      let after = Worker.process_job answers now fetch job taken in
      let same_runs =
        ap (λ queue. runs s.begun (record s.world { queue = queue })) e
        ∙ sym (append_assoc s.begun (job.id ∷ []) (queued_ids rest))
        ∙ ap (λ queue. (s.begun ++ (job.id ∷ [])) ++ queued_ids queue) (sym t.same_queue) in
      record {
        distinct_ids = subst IsDistinct (sym t.same_ids) h.distinct_ids;
        distinct_keys = subst IsDistinct (sym t.same_keys) h.distinct_keys;
        distinct_runs = subst IsDistinct same_runs h.distinct_runs;
        have_rows =
            subst (λ l. All (λ id. has id l ≡ true) (runs (s.begun ++ (job.id ∷ [])) after))
              (sym t.same_ids)
              (subst (All (λ id. has id (ids s.world.jobs) ≡ true)) same_runs h.have_rows);
      }

  pub step-IsSound : (e : Event) (s : System) → IsSound s → IsSound (step answers uuid now e s)
  unfolding step get_job_by_idempotency_key select_job
  step-IsSound (looked_up req) s h = h
  step-IsSound (submitted req found) s h = submitted-IsSafe s.begun s.world req found h
  step-IsSound (worked fetch) s h = work_on-IsSound fetch s.world.queue s refl h

  run_from-IsSound :
      (es : List Event) (s : System) → IsSound s → IsSound (run answers uuid now es s)
  unfolding run
  run_from-IsSound [] s h = h
  run_from-IsSound (e ∷ es) s h =
      run_from-IsSound es (step answers uuid now e s) (step-IsSound e s h)

  initial-IsSound : IsSound initial
  unfolding initial
  initial-IsSound = record {
    distinct_ids = tt;
    distinct_keys = tt;
    distinct_runs = tt;
    have_rows = tt;
  }

  -- Submits and workers in any order, the two steps of a submit apart, with any answers of the
  -- database and any result of a lookup: no two jobs have one id or one idempotency key, each job
  -- that waits or was taken has a row, and no job is taken by two workers, waits twice, or waits
  -- after it was taken.
  pub run-IsSound : (es : List Event) → IsSound (run answers uuid now es initial)
  run-IsSound es = run_from-IsSound es initial initial-IsSound
