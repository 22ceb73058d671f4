-- ===== src/Backend/System.antt =====
-- The backend as a whole: backend/etl/server.go and backend/worker/worker.go around one database and
-- one channel. A submit is two steps, the lookup of its key and what follows, so that other steps
-- may come between; what follows takes any result of a lookup, since the table may have changed.
-- A worker takes the head of the channel and runs the job; the run is one step, as it touches
-- neither another row nor the channel (Worker.Frame). The channel has no bound here: where the
-- code waits for room, the step that sends comes later.
pub mod Distinct
pub mod Sound
pub mod Kept
pub mod Drained
pub mod Shown
use yt_trending_pipeline.Prelude.{ℕ, suc, Option, List, [], ◌∷◌, ◌++◌, Str}
use yt_trending_pipeline.Backend.{World, VideoRow, Job, JobRequest}
use yt_trending_pipeline.Backend.Database.{Outcome, Lookup, get_job_by_idempotency_key}
use yt_trending_pipeline.Backend.Etl.{after_lookup, respond}
use yt_trending_pipeline.Backend.Worker

-- `begun` has the ids of the jobs that a worker has taken.
pub record System : Type 0 where
  pub world : World
  pub begun : List Str

unfoldable pub initial : System
initial = record {
  world = record { jobs = []; videos = []; queue = []; calls = 0; slept = 0 };
  begun = [];
}

pub data Event : Type 0 where
  looked_up : JobRequest → Event
  submitted : JobRequest → Lookup → Event
  worked : (ℕ → Option (List VideoRow)) → Event

module _ (answers : ℕ → Outcome) (uuid : World → Str) (now : World → ℕ) where
  -- one turn of the loop of `Start`; it waits while the channel is empty
  work_on : (ℕ → Option (List VideoRow)) → List Job → System → System
  work_on fetch [] s = s
  work_on fetch (job ∷ rest) s = record {
    world = Worker.process_job answers now fetch job (record s.world { queue = rest });
    begun = s.begun ++ (job.id ∷ []);
  }

  unfoldable pub step : Event → System → System
  unfolding work_on
  step (looked_up req) s = record s {
    world = (get_job_by_idempotency_key answers req.idempotency_key s.world).1;
  }
  step (submitted req found) s = record s {
    world = (respond answers uuid now req (after_lookup answers uuid now req (found, s.world))).1;
  }
  step (worked fetch) s = work_on fetch s.world.queue s

  unfoldable pub run : List Event → System → System
  unfolding step
  run [] s = s
  run (e ∷ es) s = run es (step e s)
