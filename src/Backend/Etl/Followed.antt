-- ===== src/Backend/Etl/Followed.antt =====
-- backend/etl/server.go, backend/api/server.go and frontend/components/job-detail.tsx: what the page
-- of a job makes of the updates that `WatchJob` sends. `handleWatchJob` passes each one on.
use yt_trending_pipeline.Prelude.{
  ◌≡◌, refl, ap, ◌∙◌, none, some, Bool, true, false, List, [], ◌∷◌, map, Str, text, JsNum, All,
  is_some, arith, Bool-cases, inl, inr,
}
use yt_trending_pipeline.Types.{JobStatus, JobUpdate}
use yt_trending_pipeline.Jobs.{is_terminal_state}
use yt_trending_pipeline.JobDetail
use yt_trending_pipeline.JobDetail.{Detail, Event, updated, job_state, with_update}
use yt_trending_pipeline.JobDetail.Live.{IsConsistent, step-IsConsistent}
use yt_trending_pipeline.JobDetail.Updates.{step_running, step_terminal}
use yt_trending_pipeline.Backend.{
  JobState, unspecified, done, failed, queued, running, retrying, dead,
}
use yt_trending_pipeline.Backend.Etl.{is_terminal, same_state, watch_loop, watch_job}
use yt_trending_pipeline.Backend.Etl.Watch.{final, terminal_same}

-- the number of a state on the wire, where a zero is left out
abbrev pub state_number : JobState → JsNum
state_number unspecified = none
state_number done = some 1
state_number failed = some 2
state_number queued = some 3
state_number running = some 4
state_number retrying = some 5
state_number dead = some 6

-- the update that `WatchJob` sends, as the page reads it
abbrev pub to_update : Str → (JobState → JsNum × JsNum) → JobState → JobUpdate
to_update id counts state = record {
  job_id = id;
  state = state_number state;
  videos_fetched = (counts state).0;
  videos_inserted = (counts state).1;
  message = some (text "State updated.");
  occurred_at = none;
}

abbrev pub is_known : JobState → Bool
is_known unspecified = false
is_known _ = true

terminal_lem : (state : JobState) → is_terminal_state (state_number state) ≡ is_terminal state
unfolding is_terminal_state
terminal_lem state = ground arith

known_lem : (state : JobState) → is_known state ≡ true → is_some (state_number state) ≡ true
known_lem state k = ground arith

module _ (id : Str) (counts : JobState → JsNum × JsNum) where
  abbrev pub events : List JobState → List Event
  events states = map (λ state. updated (to_update id counts state)) states

  -- The page shows a job and is connected.
  record IsOpen (s : Detail) : Type 0 where
    job : JobStatus
    there : s.job ≡ some job
    open_now : s.stream_open ≡ true
    consistent : IsConsistent s

  -- The page shows the last state and is no longer connected.
  pub record IsClosed (last : JobState) (s : Detail) : Type 0 where
    pub closed : s.stream_open ≡ false
    pub not_live : s.live_connected ≡ false
    pub shows : job_state s.job ≡ state_number last

  step-IsOpen :
      (s : Detail) (state : JobState)
      → is_terminal state ≡ false
      → is_known state ≡ true
      → IsOpen s
      → IsOpen (JobDetail.step (updated (to_update id counts state)) s)
  step-IsOpen s state t k o =
      let update = to_update id counts state in
      let stays =
        step_running s o.job update o.consistent o.there o.open_now (known_lem state k)
          (terminal_lem state ∙ t) in
      record {
        job = with_update update o.job;
        there = stays.0;
        open_now = stays.1;
        consistent = step-IsConsistent (updated update) s o.consistent;
      }

  step-IsClosed :
      (s : Detail) (state : JobState)
      → is_terminal state ≡ true
      → IsOpen s
      → IsClosed state (JobDetail.step (updated (to_update id counts state)) s)
  step-IsClosed s state t o =
      let after =
        step_terminal s o.job (to_update id counts state) o.consistent o.there o.open_now
          (terminal_lem state ∙ t) in
      record { closed = after.0; not_live = after.1; shows = ap job_state after.2 }

  -- If the stream has ended, the page that gets its updates is closed.
  Closes : JobState → Detail → List JobState × Bool → Type 0
  Closes last s r = r.1 ≡ true → IsClosed (final last r.0) (JobDetail.run (events r.0) s)

  watch_loop-Closes :
      (last : JobState) (polls : List JobState) (s : Detail)
      → is_terminal last ≡ false
      → All (λ state. is_known state ≡ true) polls
      → IsOpen s
      → Closes last s (watch_loop last polls)
  unfolding watch_loop JobDetail.run Closes
  watch_loop-Closes last [] s h k o = λ e. absurd (ground arith)
  watch_loop-Closes last (state ∷ polls) s h (k, ks) o = elim (Bool-cases (is_terminal state)) [
    | inl t ↦ elim (Bool-cases (same_state state last)) [
      | inl e ↦ absurd (terminal_same state last t h e)
      | inr d ↦ rw (t, d) (λ e. step-IsClosed s state t o)
    ]
    | inr t ↦ elim (Bool-cases (same_state state last)) [
      | inl e ↦ rw (t, e) (watch_loop-Closes last polls s h ks o)
      | inr d ↦
          rw (t, d)
            (watch_loop-Closes state polls (JobDetail.step (updated (to_update id counts state)) s)
              t ks (step-IsOpen s state t k o))
    ]
  ]

  -- Let a page that shows a job, and is connected and consistent, get the updates of one stream of
  -- `WatchJob`, whose polls read known states. If the stream has ended, the page is no longer
  -- connected nor live, and shows the last state that was sent.
  pub watch_job-IsClosed :
      (polls : List JobState) (s : Detail) (job : JobStatus)
      → All (λ state. is_known state ≡ true) polls
      → IsConsistent s
      → s.job ≡ some job
      → s.stream_open ≡ true
      → (watch_job polls).1 ≡ true
      → let sent = (watch_job polls).0 in
        IsClosed (final unspecified sent) (JobDetail.run (events sent) s)
  unfolding watch_job Closes
  watch_job-IsClosed polls s job known consistent there opened ended =
      watch_loop-Closes unspecified polls s refl known
        (record { job = job; there = there; open_now = opened; consistent = consistent }) ended
