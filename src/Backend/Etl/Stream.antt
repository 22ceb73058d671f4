-- ===== src/Backend/Etl/Stream.antt =====
-- backend/etl/server.go: the loop of `WatchJob` with its errors. A turn of the loop finds the context
-- cancelled, or a lookup that failed, or the status of the job; where a state is sent, the send
-- succeeds or not.
use yt_trending_pipeline.Prelude.{ℕ, Bool, List, [], ◌∷◌, Str, text, ℤ, if◌then◌else◌}
use yt_trending_pipeline.Backend.{JobState}
use yt_trending_pipeline.Backend.Etl.{is_terminal, same_state}
use yt_trending_pipeline.Backend.Etl.Status.{JobStatus}

pub data Turn : Type 0 where
  context_done lookup_failed : Turn
  answered : JobStatus → Bool → ℕ → Turn

-- `message JobUpdate`
pub record JobUpdate : Type 0 where
  pub job_id : Str
  pub state : JobState
  pub videos_fetched : ℤ
  pub videos_inserted : ℤ
  pub message : Str
  pub occurred_at : ℕ

-- how the loop stands: it goes on, or has returned without an error, or with one
pub data End : Type 0 where
  polling returned cancelled failed_lookup failed_send : End

unfoldable pub update_of : JobStatus → ℕ → JobUpdate
update_of status now = record {
  job_id = status.job_id;
  state = status.state;
  videos_fetched = status.videos_fetched;
  videos_inserted = status.videos_inserted;
  message = text "State updated.";
  occurred_at = now;
}

-- the test of the state at the end of a turn
abbrev unless_terminal : JobState → List JobUpdate × End → List JobUpdate × End
unless_terminal state rest = if is_terminal state then ([], returned) else rest

abbrev then_send : JobUpdate → List JobUpdate × End → List JobUpdate × End
then_send update (updates, end) = (update ∷ updates, end)

unfoldable pub watch_stream : JobState → List Turn → List JobUpdate × End
unfolding update_of
watch_stream last [] = ([], polling)
watch_stream last (context_done ∷ turns) = ([], cancelled)
watch_stream last (lookup_failed ∷ turns) = ([], failed_lookup)
watch_stream last (answered status sent now ∷ turns) =
    let rest = unless_terminal status.state (watch_stream status.state turns) in
    if same_state status.state last
    then rest
    else if sent
    then then_send (update_of status now) rest
    else ([], failed_send)
