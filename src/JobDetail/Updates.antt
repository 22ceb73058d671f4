-- ===== src/JobDetail/Updates.antt =====
-- frontend/components/job-detail.tsx: what an update of the stream does to the page.
use yt_trending_pipeline.Prelude.{
  ◌≡◌, refl, ◌∙◌, Option, none, some, Bool, true, false, JsNum, is_some, arith,
}
use yt_trending_pipeline.Types.{JobStatus, JobUpdate}
use yt_trending_pipeline.Jobs.{is_terminal_state}
use yt_trending_pipeline.JobDetail.{
  Detail, updated, push_update, job_state, step, handle, commit, watch, clean_up, with_update,
  refetches,
}
use yt_trending_pipeline.JobDetail.Live.{IsConsistent, step-IsConsistent}

watch_keeps :
    (job : Option JobStatus) (s : Detail)
    → ((watch job s).job ≡ s.job) × ((watch job s).updates ≡ s.updates)
unfolding watch
watch_keeps none s = (refl, refl)
watch_keeps (some job) s = ground arith

commit_keeps : (s : Detail) → ((commit s).job ≡ s.job) × ((commit s).updates ≡ s.updates)
unfolding commit
commit_keeps s =
    ground (arith, watch_keeps s.job (record (clean_up s) { watched = job_state s.job }))

handle_updated :
    (s : Detail) (job : JobStatus) (update : JobUpdate)
    → s.job ≡ some job
    → s.stream_open ≡ true
    → ((handle (updated update) s).job ≡ some (with_update update job))
      × ((handle (updated update) s).updates ≡ push_update update s.updates)
unfolding handle
handle_updated s job update there opened = ground arith

terminal_closed :
    (t : Detail) (job : JobStatus)
    → IsConsistent t
    → t.job ≡ some job
    → is_terminal_state job.state ≡ true
    → (t.stream_open ≡ false) × (t.live_connected ≡ false)
terminal_closed t job h there terminal = ground arith

-- A terminal update over an open stream ends the watching: the stream is closed, "Live" is gone,
-- the job has the state and the counts of the update, the update heads the log, and the full
-- status is asked for once more.
pub step_terminal :
    (s : Detail) (job : JobStatus) (update : JobUpdate)
    → IsConsistent s
    → s.job ≡ some job
    → s.stream_open ≡ true
    → is_terminal_state update.state ≡ true
    → let after = step (updated update) s in
      (after.stream_open ≡ false)
      × (after.live_connected ≡ false)
      × (after.job ≡ some (with_update update job))
      × (after.updates ≡ push_update update s.updates)
      × (refetches (updated update) s ≡ true)
unfolding step refetches
step_terminal s job update h there opened terminal =
    let handled = handle_updated s job update there opened in
    let kept = commit_keeps (handle (updated update) s) in
    let job_after = kept.0 ∙ handled.0 in
    let closed =
      terminal_closed (step (updated update) s) (with_update update job)
        (step-IsConsistent (updated update) s h) job_after terminal in
    (closed.0, closed.1, job_after, kept.1 ∙ handled.1, rw (opened, terminal))

given_lem :
    (state : JsNum)
    → is_some state ≡ true
    → elim state as (λ n. Bool) [ none ↦ false | some n ↦ true ] ≡ true
given_lem none h = h
given_lem (some n) h = refl

running_stays :
    (t : Detail) (job : JobStatus)
    → IsConsistent t
    → t.job ≡ some job
    → is_some job.state ≡ true
    → is_terminal_state job.state ≡ false
    → t.stream_open ≡ true
running_stays t job h there given goes_on =
    h.running_open (rw there (given_lem job.state given)) (rw (there, goes_on) refl)

-- Any other update with a state leaves the stream open and is applied to the job.
pub step_running :
    (s : Detail) (job : JobStatus) (update : JobUpdate)
    → IsConsistent s
    → s.job ≡ some job
    → s.stream_open ≡ true
    → is_some update.state ≡ true
    → is_terminal_state update.state ≡ false
    → let after = step (updated update) s in
      (after.job ≡ some (with_update update job)) × (after.stream_open ≡ true)
unfolding step
step_running s job update h there opened given goes_on =
    let handled = handle_updated s job update there opened in
    let job_after = (commit_keeps (handle (updated update) s)).0 ∙ handled.0 in
    (
      job_after,
      running_stays (step (updated update) s) (with_update update job)
          (step-IsConsistent (updated update) s h) job_after given goes_on,
    )
