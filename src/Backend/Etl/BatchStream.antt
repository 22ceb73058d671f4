-- ===== src/Backend/Etl/BatchStream.antt =====
-- backend/etl/server.go: SubmitBatch on what the calls of `Recv` return, a request or an error (none);
-- the end of the list is the end of the stream.
use yt_trending_pipeline.Prelude.{ℕ, Option, none, some, List, [], ◌∷◌, Str}
use yt_trending_pipeline.Backend.{World, JobRequest}
use yt_trending_pipeline.Backend.Database.{Outcome}
use yt_trending_pipeline.Backend.Etl.{
  BatchResponse, Tally, no_tally, batch_response, process_job, take_request,
}

module _ (answers : ℕ → Outcome) (uuid : World → Str) (now : World → ℕ) where
  unfoldable pub stream_loop :
      List (Option JobRequest) → Tally × World → Option BatchResponse × World
  unfolding take_request process_job batch_response
  stream_loop [] (b, w) = (some (batch_response b), w)
  stream_loop (none ∷ recvs) (b, w) = (none, w)
  stream_loop (some req ∷ recvs) (b, w) =
      stream_loop recvs (take_request answers uuid now req b (process_job answers uuid now req w))

  unfoldable pub submit_stream : List (Option JobRequest) → World → Option BatchResponse × World
  unfolding stream_loop
  submit_stream recvs w = stream_loop recvs (no_tally, w)
