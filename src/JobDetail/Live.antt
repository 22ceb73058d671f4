-- ===== src/JobDetail/Live.antt =====
-- frontend/components/job-detail.tsx: the live connection and the log of updates.
use yt_trending_pipeline.Prelude.{
  ◌≤◌, ◌≡◌, refl, ◌∙◌, Option, none, some, Bool, true, false, not, List, [], ◌∷◌, length,
  length-take, JsNum, is_some, Str, sym, arith, if◌then◌else◌, if_cases,
}
use yt_trending_pipeline.Types.{JobStatus, JobUpdate}
use yt_trending_pipeline.Jobs.{is_terminal_state}
use yt_trending_pipeline.Api.{fulfilled, rejected}
use yt_trending_pipeline.JobDetail.{
  Detail, Event, loaded, updated, stream_failed, refetched, max_updates, push_update, job_state,
  initial, step, run, handle, commit, watch, clean_up, update_job, same_num,
}

-- The page has a job with a state that is not terminal.
abbrev pub is_running : Option JobStatus → Bool
is_running none = false
is_running (some job) = not (is_terminal_state job.state)

-- a state was given for the job
abbrev pub has_state : Option JobStatus → Bool
has_state none = false
has_state (some job) = elim job.state [ none ↦ false | some n ↦ true ]

pub record IsConsistent (s : Detail) : Type 0 where
  pub watched_state : s.watched ≡ job_state s.job
  pub open_running : s.stream_open ≡ true → is_running s.job ≡ true
  pub running_open : has_state s.job ≡ true → is_running s.job ≡ true → s.stream_open ≡ true
  pub live_open : s.live_connected ≡ true → s.stream_open ≡ true
  pub bounded : length s.updates ≤ max_updates

initial-IsConsistent : IsConsistent initial
unfolding initial
initial-IsConsistent = ground arith

same_num→eq : (a b : JsNum) → same_num a b ≡ true → a ≡ b
same_num→eq none none h = refl
same_num→eq none (some n) h = cc
same_num→eq (some m) none h = cc
same_num→eq (some m) (some n) h = ground arith

same_num_refl : (a : JsNum) → same_num a a ≡ true
same_num_refl none = refl
same_num_refl (some n) = ground arith

-- What holds between a handler and the effect: if the effect does not run, the state is consistent.
record IsReady (s : Detail) : Type 0 where
  open_running : s.watched ≡ job_state s.job → s.stream_open ≡ true → is_running s.job ≡ true
  running_open :
      s.watched ≡ job_state s.job
      → has_state s.job ≡ true
      → is_running s.job ≡ true
      → s.stream_open ≡ true
  live_open : s.live_connected ≡ true → s.stream_open ≡ true
  bounded : length s.updates ≤ max_updates

length-push_update :
    (update : JobUpdate) (prev : List JobUpdate) → length (push_update update prev) ≤ max_updates
unfolding push_update
length-push_update update prev = omega (arith, length-take max_updates (update ∷ prev))

IsConsistent-IsReady : {s : Detail} → IsConsistent s → IsReady s
IsConsistent-IsReady h = record {
  open_running = λ w. h.open_running;
  running_open = λ w. h.running_open;
  live_open = h.live_open;
  bounded = h.bounded;
}

-- Two jobs of one state are both running, if both are there.
is_running_of_state :
    (a b : Option JobStatus)
    → job_state a ≡ job_state b
    → is_some b ≡ true
    → is_running a ≡ true
    → is_running b ≡ true
is_running_of_state none b e p r = cc
is_running_of_state (some a) none e p r = cc
is_running_of_state (some a) (some b) e p r = rw e at r

has_state_of_state :
    (a b : Option JobStatus)
    → job_state a ≡ job_state b
    → has_state b ≡ true
    → is_running b ≡ true
    → (has_state a ≡ true) × (is_running a ≡ true)
has_state_of_state none none e p r = (p, r)
has_state_of_state none (some b) e p r = absurd (ground arith)
has_state_of_state (some a) none e p r = cc
has_state_of_state (some a) (some b) e p r = rw e (p, r)

module _ (s : Detail) (h : IsConsistent s) where
  -- a change of the job that leaves the stream and the watched state
  change-IsReady :
      (job : Option JobStatus) (loading : Bool) (error : Option Str) (live : Bool)
      (updates : List JobUpdate)
      → (is_running s.job ≡ true → is_some job ≡ true)
      → (live ≡ true → s.stream_open ≡ true)
      → length updates ≤ max_updates
      → IsReady (record s {
        job = job;
        loading = loading;
        error = error;
        live_connected = live;
        updates = updates;
      })
  change-IsReady job loading error live updates present opened short = record {
    open_running = λ w o.
        let r = h.open_running o in
        is_running_of_state s.job job (sym h.watched_state ∙ w) (present r) r;
    running_open = λ w p r.
        let (q, t) = has_state_of_state s.job job (sym h.watched_state ∙ w) p r in
        h.running_open q t;
    live_open = opened;
    bounded = short;
  }

  update_job-is_some :
      (update : JobUpdate) (job : Option JobStatus)
      → is_running job ≡ true
      → is_some (update_job update job) ≡ true
  update_job-is_some update none r = r
  update_job-is_some update (some job) r = refl

  is_running-is_some : (job : Option JobStatus) → is_running job ≡ true → is_some job ≡ true
  is_running-is_some none r = r
  is_running-is_some (some job) r = refl

  handle-IsReady : (e : Event) → IsReady (handle e s)
  unfolding handle
  handle-IsReady (loaded (fulfilled job)) =
      change-IsReady (some job) false s.error s.live_connected s.updates (λ r. refl) h.live_open
        h.bounded
  handle-IsReady (loaded (rejected message)) = IsConsistent-IsReady (record {
    watched_state = h.watched_state;
    open_running = h.open_running;
    running_open = h.running_open;
    live_open = h.live_open;
    bounded = h.bounded;
  })
  handle-IsReady (updated update) =
      if_cases IsReady s.stream_open _ s
        (λ opened.
          change-IsReady (update_job update s.job) s.loading s.error
            (if is_terminal_state update.state then false else s.live_connected)
            (push_update update s.updates) (update_job-is_some update s.job) (λ l. opened)
            (length-push_update update s.updates))
        (λ closed. IsConsistent-IsReady h)
  handle-IsReady stream_failed =
      if_cases IsReady s.stream_open _ s
        (λ opened.
          change-IsReady s.job s.loading s.error false s.updates (is_running-is_some s.job)
            (λ l. opened) h.bounded)
        (λ closed. IsConsistent-IsReady h)
  handle-IsReady (refetched (fulfilled job)) =
      change-IsReady (some job) s.loading s.error s.live_connected s.updates (λ r. refl) h.live_open
        h.bounded
  handle-IsReady (refetched (rejected message)) = IsConsistent-IsReady h

watch-IsConsistent :
    (job : Option JobStatus) (s : Detail)
    → s.job ≡ job
    → s.watched ≡ job_state job
    → s.stream_open ≡ false
    → s.live_connected ≡ false
    → length s.updates ≤ max_updates
    → IsConsistent (watch job s)
unfolding watch
watch-IsConsistent none s j w o l b = ground arith
watch-IsConsistent (some job) s j w o l b = ground arith

clean_up_lem :
    (s : Detail)
    → IsReady s
    → ((clean_up s).stream_open ≡ false)
      × ((clean_up s).live_connected ≡ false)
      × (length (clean_up s).updates ≤ max_updates)
      × ((clean_up s).job ≡ s.job)
unfolding clean_up
clean_up_lem s h = ground arith

commit-IsConsistent : (s : Detail) → IsReady s → IsConsistent (commit s)
unfolding commit
commit-IsConsistent s h =
    if_cases IsConsistent (same_num (job_state s.job) s.watched) s _
      (λ e.
        let w = sym (same_num→eq (job_state s.job) s.watched e) in
        record {
          watched_state = w;
          open_running = h.open_running w;
          running_open = h.running_open w;
          live_open = h.live_open;
          bounded = h.bounded;
        })
      (λ e.
        let c = clean_up_lem s h in
        watch-IsConsistent s.job (record (clean_up s) { watched = job_state s.job }) c.3 refl c.0
          c.1 c.2)

pub step-IsConsistent : (e : Event) (s : Detail) → IsConsistent s → IsConsistent (step e s)
unfolding step
step-IsConsistent e s h = commit-IsConsistent (handle e s) (handle-IsReady s h e)

run_from-IsConsistent : (s : Detail) (es : List Event) → IsConsistent s → IsConsistent (run es s)
unfolding run
run_from-IsConsistent s [] h = h
run_from-IsConsistent s (e ∷ es) h = run_from-IsConsistent (step e s) es (step-IsConsistent e s h)

-- Whatever answers, updates and errors arrive, the page keeps these: the stream is open only for a
-- job whose state is not terminal, and is open for every such job that has a state; "Live" is
-- shown only over an open stream; at most 50 updates are kept.
pub run-IsConsistent : (es : List Event) → IsConsistent (run es initial)
run-IsConsistent es = run_from-IsConsistent initial es initial-IsConsistent
